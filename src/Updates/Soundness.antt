-- ===== src/Updates/Soundness.antt =====
-- The invariant of the two database files: the active sequence is at most the highest one, through
-- updates, damage of the active file and its recovery.
use vexyl_guard.Prelude.{
  ℕ, ◌≤◌, String, Bool, ◌≡◌, refl, ap, sym, ◌∙◌, arith, inl, inr, ◌⊎◌, false, Bool-cases,
}
use vexyl_guard.Updates.State.{
  VerifiedIntelBundle, is_active, state_for_activation, refreshed_state, state_for_rollback,
}
use vexyl_guard.Updates.Store.{
  Database, DbFile, missing, corrupt, healthy, World, Outcome, Faults, Seeding, read_bundle_state,
  stored_state,
}
use vexyl_guard.Updates.Operations.{Action, recover_intel_database}
use vexyl_guard.Updates.Specification.{
  Opens, read-Opens, Applied, refused, not_applied, not_written, refreshes, activates,
  apply-Applied,
}
use vexyl_guard.Updates.Reversal.{
  current_state, previous_state, reverted, RolledBack, refused, not_backed_up, rolls_back,
  rollback-RolledBack, Recovered, unchanged, recovers, recover-Recovered,
}
use vexyl_guard.Updates.Sequence.{
  highest, opened-highest, read-stored, read-highest, Update, by_apply, by_rollback, by_history,
}

abbrev active_of : {T H : Type 0} → DbFile T H → ℕ
active_of file = (stored_state file).active_sequence

pub record IsSound {T H : Type 0} (w : World T H) : Type 0 where
  pub active_sound : active_of w.active ≤ highest w.active
  pub backup_sound : active_of w.backup ≤ highest w.backup
  -- the backup is not ahead of an active file that can be read
  pub covered : (w.active ≡ corrupt) ⊎ (highest w.backup ≤ highest w.active)

-- One event in the life of an installation.
pub data Event (R : Type 0) {T H : Type 0} (w : World T H) : World T H → Type 0 where
  updates : (w' : World T H) → Update R w w' → Event R w w'
  breaks : Event R w (record w { active = corrupt })
  recovers_it :
      (faults : Faults) (only_if_corrupt : Bool)
      → Event R w (recover_intel_database faults only_if_corrupt w).1

pub data Reach (R : Type 0) {T H : Type 0} : World T H → Type 0 where
  installed : Reach R (record { active = missing; backup = missing })
  event : (w w' : World T H) → Reach R w → Event R w w' → Reach R w'

module _ {R T H : Type 0} (seeding : Seeding R T H) (faults : Faults) (now : String)
    (bundle : Outcome (VerifiedIntelBundle R)) (w : World T H) (s : IsSound w)
    (read : faults.unread_active ≡ false) where
  -- a file that has been opened and is healthy was not corrupt
  covered_file :
      (file : DbFile T H) (db : Database T H)
      → Opens seeding faults now w.active file
      → file ≡ healthy db
      → highest w.backup ≤ highest w.active
  covered_file file db o e = elim (s.covered) [
    | inl c ↦ elim o [ inl f ↦ absurd (cc) | inr (m, f) ↦ absurd (cc) ]
    | inr h ↦ h
  ]

  active_of_opened :
      (file : DbFile T H)
      → Opens seeding faults now w.active file
      → active_of file ≡ active_of w.active
  active_of_opened file o =
      ap (λ t. t.active_sequence) (read-Opens seeding faults now w.active file o)

  opened-IsSound :
      (file : DbFile T H)
      → Opens seeding faults now w.active file
      → IsSound (record w { active = file })
  opened-IsSound file o = record {
    active_sound = omega (
      arith,
      s.active_sound,
      active_of_opened file o,
      opened-highest seeding faults now bundle w file o,
    );
    backup_sound = s.backup_sound;
    covered = elim s.covered [
      | inl c ↦ elim o [ inl f ↦ inl (f ∙ c) | inr (m, f) ↦ absurd (cc) ]
      | inr h ↦ inr (omega (arith, opened-highest seeding faults now bundle w file o))
    ];
  }

  Applied-IsSound :
      (r : Outcome Action × World T H) → Applied seeding faults now bundle w r → IsSound r.1
  unfolding state_for_activation refreshed_state is_active read_bundle_state
  Applied-IsSound r (refused message) = s
  Applied-IsSound r (not_applied message file o) = opened-IsSound file o
  Applied-IsSound r (not_written message file backup db o e f) =
      let t = opened-IsSound file o in
      record {
        active_sound = t.active_sound;
        backup_sound =
            omega (arith, t.active_sound, ap active_of (f ∙ sym e), ap highest (f ∙ sym e));
        covered = inr (omega (arith, ap highest (f ∙ sym e)));
      }
  Applied-IsSound r (refreshes v file result outcome b o step end) =
      let t = opened-IsSound file o in
      record {
        active_sound = omega (
          arith,
          t.active_sound,
          ap active_of step.replaced,
          ap highest step.replaced,
          read-highest seeding faults now bundle w file read,
          ap (λ x. x.active_sequence) (read-stored seeding faults now bundle w file read),
        );
        backup_sound = s.backup_sound;
        covered = inr (
            omega (
              arith,
              covered_file file step.db o step.is_file,
              opened-highest seeding faults now bundle w file o,
              ap highest step.replaced,
              read-highest seeding faults now bundle w file read,
            ));
      }
  Applied-IsSound r (activates v file backup result outcome b o step end) =
      let t = opened-IsSound file o in
      let copy = step.backed_up ∙ sym step.is_file in
      record {
        active_sound = omega (arith, ap active_of step.replaced, ap highest step.replaced);
        backup_sound = omega (arith, t.active_sound, ap active_of copy, ap highest copy);
        covered = inr (
            omega (
              arith,
              ap highest copy,
              ap highest step.replaced,
              read-highest seeding faults now bundle w file read,
            ));
      }

module _ {T H : Type 0} (w : World T H) (s : IsSound w) where
  covered_by :
      (current : Database T H) → w.active ≡ healthy current → highest w.backup ≤ highest w.active
  covered_by current a = elim s.covered [ inl c ↦ absurd (cc) | inr h ↦ h ]

  -- the backup's sequence as it is read
  previous-le :
      (faults : Faults) (previous : Database T H)
      → (previous_state w faults previous).active_sequence ≤ active_of (healthy previous)
  unfolding read_bundle_state
  previous-le faults previous = elim (Bool-cases faults.unread_backup) [
    | inl unread ↦
        omega (arith, ap (λ b. (read_bundle_state b (healthy previous)).active_sequence) unread)
    | inr read ↦
        omega (arith, ap (λ b. (read_bundle_state b (healthy previous)).active_sequence) read)
  ]

  -- the sequences after the transaction of a rollback
  reverted_sound :
      (faults : Faults) (now : String) (current previous : Database T H)
      → faults.unread_active ≡ false
      → w.active ≡ healthy current
      → w.backup ≡ healthy previous
      → (active_of (healthy (reverted w faults now current previous)) ≤ highest w.active)
        × (highest (healthy (reverted w faults now current previous)) ≡ highest w.active)
  unfolding state_for_rollback read_bundle_state
  reverted_sound faults now current previous read a b =
      let mark : (current_state w faults current).highest_sequence ≡ highest w.active =
        ap (λ unread. (read_bundle_state unread (healthy current)).highest_sequence) read
        ∙ sym (ap highest a) in
      (
        omega (
          arith,
          previous-le faults previous,
          s.backup_sound,
          covered_by current a,
          ap active_of b,
          ap highest b,
        ),
        mark,
      )

  RolledBack-IsSound :
      (faults : Faults) (now : String) (r : Outcome Action × World T H)
      → faults.unread_active ≡ false
      → RolledBack w faults now r
      → IsSound r.1
  RolledBack-IsSound faults now r read (refused message) = s
  RolledBack-IsSound faults now r read (not_backed_up message current previous file a b e) =
      let (active, mark) = reverted_sound faults now current previous read a b in
      record {
        active_sound = omega (arith, active, mark, ap active_of e, ap highest e);
        backup_sound = s.backup_sound;
        covered = inr (omega (arith, covered_by current a, mark, ap highest e));
      }
  RolledBack-IsSound faults now r read (rolls_back current previous file backup o a b e f end) =
      let (active, mark) = reverted_sound faults now current previous read a b in
      record {
        active_sound = omega (arith, active, mark, ap active_of e, ap highest e);
        backup_sound =
            omega
              (arith, s.active_sound, ap active_of a, ap highest a, ap active_of f, ap highest f);
        covered = inr (omega (arith, mark, ap highest a, ap highest e, ap highest f));
      }

  Recovered-IsSound :
      (faults : Faults) (r : Outcome Action × World T H) → Recovered w faults r → IsSound r.1
  Recovered-IsSound faults r (unchanged outcome) = s
  Recovered-IsSound faults r (recovers previous file outcome b e end) = record {
    active_sound = omega (arith, s.backup_sound, ap active_of (e ∙ sym b), ap highest (e ∙ sym b));
    backup_sound = s.backup_sound;
    covered = inr (omega (arith, ap highest (e ∙ sym b)));
  }

  Update-IsSound : {R : Type 0} (w' : World T H) → Update R w w' → IsSound w'
  unfolding read_bundle_state
  Update-IsSound w' (by_apply seeding faults now bundle read) =
      Applied-IsSound seeding faults now bundle w s read _
        (apply-Applied seeding faults now bundle w)
  Update-IsSound w' (by_rollback faults now confirmed read) =
      RolledBack-IsSound faults now _ read (rollback-RolledBack w faults now confirmed)
  Update-IsSound w' (by_history db history a) = record {
    active_sound = omega (arith, s.active_sound, ap active_of a, ap highest a);
    backup_sound = s.backup_sound;
    covered = inr (omega (arith, covered_by db a, ap highest a));
  }

  Event-IsSound : {R : Type 0} (w' : World T H) → Event R w w' → IsSound w'
  unfolding read_bundle_state
  Event-IsSound w' (updates v u) = Update-IsSound w' u
  Event-IsSound w' breaks = record {
    active_sound = omega arith;
    backup_sound = s.backup_sound;
    covered = inl refl;
  }
  Event-IsSound w' (recovers_it faults only_if_corrupt) =
      Recovered-IsSound faults _ (recover-Recovered w faults only_if_corrupt)

-- In every state of an installation that starts without databases, whatever is applied, rolled back,
-- damaged and recovered, and whatever fails but the reading of the active state: the active sequence of either file is at most its
-- highest one, and the backup is not ahead of an active file that is not corrupt.
pub Reach-IsSound : {R T H : Type 0} (w : World T H) → Reach R w → IsSound w
unfolding read_bundle_state
Reach-IsSound w installed = record {
  active_sound = omega arith;
  backup_sound = omega arith;
  covered = inr (omega arith);
}
Reach-IsSound w (event before v r e) = Event-IsSound before (Reach-IsSound before r) w e
