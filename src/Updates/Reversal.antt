-- ===== src/Updates/Reversal.antt =====
-- What a rollback and a recovery of intel/updates.py may do to the two database files, and that each
-- call does one of these.
use vexyl_guard.Prelude.{
  String, Bool, true, ◌&&◌, ◌||◌, ◌==◌, ◌≡◌, refl, ap, sym, ◌∙◌, subst, inl, inr,
}
use vexyl_guard.Updates.State.{BundleState, state_for_rollback, same_active_state}
use vexyl_guard.Updates.Store.{
  Database, DbFile, missing, unsafe, corrupt, healthy, World, Outcome, raised, returned, Faults,
  database_integrity, read_bundle_state, install_snapshot, then_do, placed,
}
use vexyl_guard.Updates.Postcondition.{
  unless_fault-post, on_return-post, if-post, finally_do-post, snapshot-is_copy, install-post,
  replace-post, healthy-inj,
}
use vexyl_guard.Updates.Operations.{
  Action, rolled_back, recovered, not_needed, roll_back_to, roll_back, rollback_intel_bundle,
  recover_from, recover_intel_database,
}
use vexyl_guard.Updates.Specification.{Ends}

module _ {T H : Type 0} (w : World T H) (faults : Faults) where
  -- the states of the two databases as a rollback reads them
  abbrev pub current_state : Database T H → BundleState
  current_state current = read_bundle_state faults.unread_active (healthy current)

  abbrev pub previous_state : Database T H → BundleState
  previous_state previous = read_bundle_state faults.unread_backup (healthy previous)

  -- the active database with the intelligence of the last known good one
  abbrev pub reverted : String → Database T H → Database T H → Database T H
  reverted now current previous = record current {
    tables = previous.tables;
    state = state_for_rollback (current_state current) (previous_state previous) now;
  }

  -- What a call of `rollback_intel_bundle` on the files `w` returns and leaves.
  pub data RolledBack (now : String) : Outcome Action × World T H → Type 0 where
    refused : (message : String) → RolledBack now (raised message, w)
    not_backed_up :
        (message : String) (current previous : Database T H) (file : DbFile T H)
        → w.active ≡ healthy current
        → w.backup ≡ healthy previous
        → file ≡ healthy (reverted now current previous)
        → RolledBack now (raised message, record w { active = file })
    rolls_back :
        (current previous : Database T H) (file backup : DbFile T H) (outcome : Outcome Action)
        → w.active ≡ healthy current
        → w.backup ≡ healthy previous
        → file ≡ healthy (reverted now current previous)
        → backup ≡ healthy current
        → Ends true rolled_back outcome
        → RolledBack now (outcome, record { active = file; backup = backup })

  -- What a call of `recover_intel_database` on the files `w` returns and leaves.
  pub data Recovered : Outcome Action × World T H → Type 0 where
    unchanged : (outcome : Outcome Action) → Recovered (outcome, w)
    recovers :
        (previous : Database T H) (file : DbFile T H) (outcome : Outcome Action)
        → w.backup ≡ healthy previous
        → file ≡ healthy previous
        → Ends true recovered outcome
        → Recovered (outcome, record w { active = file })

  module _ (now : String) where
    RolledBack-raised :
        (r : Outcome Action × World T H) (message : String)
        → RolledBack now r
        → RolledBack now (raised message, r.1)
    RolledBack-raised r message (refused m) = refused message
    RolledBack-raised r message (not_backed_up m current previous file a b e) =
        not_backed_up message current previous file a b e
    RolledBack-raised r message (rolls_back current previous file backup outcome a b e f end) =
        rolls_back current previous file backup (raised message) a b e f (inr (refl, message, refl))

    module _ (current previous : Database T H) (is_active : w.active ≡ healthy current)
        (is_backup : w.backup ≡ healthy previous) where
      abbrev written : World T H
      written = record w { active = healthy (reverted now current previous) }

      -- the former active database becomes the backup
      swap-RolledBack : RolledBack now (
          then_do
            (placed
              (λ file. record written { backup = file })
              (install_snapshot faults current w.backup))
            (λ w₂. (returned rolled_back, w₂)))
      unfolding then_do
      swap-RolledBack =
          install-post faults
            (λ r. RolledBack now (
              then_do (placed (λ file. record written { backup = file }) r)
                (λ w₂. (returned rolled_back, w₂))))
            current w.backup
            (λ message. not_backed_up message current previous _ is_active is_backup refl)
            (λ message.
              rolls_back current previous _ _ _ is_active is_backup refl refl
                (inr (refl, message, refl)))
            (rolls_back current previous _ _ _ is_active is_backup refl refl (inl refl))

      -- the rest of `roll_back_to` after its transaction
      abbrev swap : Database T H → World T H → Outcome Action × World T H
      swap snapshot w₁ =
          then_do
            (placed (λ file. record w₁ { backup = file })
              (install_snapshot faults snapshot w₁.backup))
            λ w₂. (returned rolled_back, w₂)

      roll_back_to-RolledBack : RolledBack now (
          roll_back_to faults now
            (current_state current)
            (previous_state previous)
            previous.tables
            w)
      unfolding roll_back_to then_do
      roll_back_to-RolledBack =
          on_return-post (RolledBack now) _ _ _ (λ message. refused message)
            λ snapshot copied.
              let copy =
                healthy-inj (sym (snapshot-is_copy faults w.active snapshot copied) ∙ is_active) in
              finally_do-post (RolledBack now) _ _
                (replace-post faults
                  (λ r.
                    RolledBack now
                      (then_do (placed (λ file. record w { active = file }) r) (swap snapshot)))
                  w.active current previous.tables _ is_active (λ message. refused message)
                  (λ message fault.
                    not_backed_up message current previous _ is_active is_backup refl)
                  (subst (λ s. RolledBack now (swap s written)) (sym copy) swap-RolledBack))
                λ message fault. RolledBack-raised _ message

    roll_back-RolledBack :
        (active backup : DbFile T H)
        → w.active ≡ active
        → w.backup ≡ backup
        → RolledBack now (roll_back faults now active backup w)
    unfolding roll_back
    roll_back-RolledBack missing backup a b = refused _
    roll_back-RolledBack unsafe backup a b = refused _
    roll_back-RolledBack corrupt backup a b = refused _
    roll_back-RolledBack (healthy current) missing a b =
        unless_fault-post (RolledBack now) _ _ _ (λ message. refused message) (refused _)
    roll_back-RolledBack (healthy current) unsafe a b =
        unless_fault-post (RolledBack now) _ _ _ (λ message. refused message) (refused _)
    roll_back-RolledBack (healthy current) corrupt a b =
        unless_fault-post (RolledBack now) _ _ _ (λ message. refused message) (refused _)
    roll_back-RolledBack (healthy current) (healthy previous) a b =
        unless_fault-post (RolledBack now) _ _ _ (λ message. refused message)
          (unless_fault-post (RolledBack now) _ _ _ (λ message. refused message)
            (unless_fault-post (RolledBack now) _ _ _ (λ message. refused message)
              (if-post (RolledBack now)
                (same_active_state (current_state current) (previous_state previous))
                (raised "last-known-good intelligence is already active", w) _ (λ same. refused _)
                λ differs. roll_back_to-RolledBack current previous a b)))

    -- Every call of `rollback_intel_bundle` does one of three things: it raises and changes nothing;
    -- or the active file takes the backup's intelligence, as it is read, under its own history and
    -- mark, and then the call raises with the backup as it was; or the former active file becomes
    -- the backup as well, and then it returns, or raises where a later step fails.
    pub rollback-RolledBack :
        (confirmed : Bool) → RolledBack now (rollback_intel_bundle faults now confirmed w)
    unfolding rollback_intel_bundle
    rollback-RolledBack confirmed =
        unless_fault-post (RolledBack now) _ _ _ (λ message. refused message)
          (unless_fault-post (RolledBack now) _ _ _ (λ message. refused message)
            (unless_fault-post (RolledBack now) _ _ _ (λ message. refused message)
              (finally_do-post (RolledBack now) _ _
                (roll_back-RolledBack w.active w.backup refl refl)
                λ message fault. RolledBack-raised _ message)))

  Recovered-raised :
      (r : Outcome Action × World T H) (message : String)
      → Recovered r
      → Recovered (raised message, r.1)
  Recovered-raised r message (unchanged outcome) = unchanged _
  Recovered-raised r message (recovers previous file outcome b e end) =
      recovers previous file (raised message) b e (inr (refl, message, refl))

  recover_from-Recovered :
      (backup : DbFile T H) → w.backup ≡ backup → Recovered (recover_from faults backup w)
  unfolding recover_from then_do
  recover_from-Recovered missing b = unchanged _
  recover_from-Recovered unsafe b = unchanged _
  recover_from-Recovered corrupt b = unchanged _
  recover_from-Recovered (healthy previous) b =
      unless_fault-post Recovered _ _ _ (λ message. unchanged _)
        (on_return-post Recovered _ _ _ (λ message. unchanged _)
          λ snapshot copied.
            let copy = healthy-inj (snapshot-is_copy faults (healthy previous) snapshot copied) in
            let is_backup = b ∙ ap healthy copy in
            finally_do-post Recovered _ _
              (install-post faults
                (λ r. Recovered (
                  then_do (placed (λ file. record w { active = file }) r)
                    (λ w₁. (returned recovered, w₁))))
                snapshot w.active (λ message. unchanged _)
                (λ message. recovers snapshot _ _ is_backup refl (inr (refl, message, refl)))
                (recovers snapshot _ _ is_backup refl (inl refl)))
              λ message fault. Recovered-raised _ message)

  pub recover-Recovered :
      (only_if_corrupt : Bool) → Recovered (recover_intel_database faults only_if_corrupt w)
  unfolding recover_intel_database
  recover-Recovered only_if_corrupt =
      unless_fault-post Recovered _ _ _ (λ message. unchanged _)
        (unless_fault-post Recovered _ _ _ (λ message. unchanged _)
          (finally_do-post Recovered _ _
            (if-post Recovered
              (only_if_corrupt
                && (database_integrity faults.unchecked_active w.active == "ok"
                    || database_integrity faults.unchecked_active w.active == "missing"))
              (returned not_needed, w) _ (λ kept. unchanged _)
              λ replaced. recover_from-Recovered w.backup refl)
            λ message fault. Recovered-raised _ message))
