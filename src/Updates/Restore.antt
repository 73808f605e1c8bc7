-- ===== src/Updates/Restore.antt =====
-- A failed bundle leaves the active intelligence alone, and a rollback takes an activated one back.
use vexyl_guard.Prelude.{
  ℕ, ◌≤◌, String, Bool, true, false, ◌≡◌, refl, ap, sym, ◌∙◌, arith, inl, inr,
}
use vexyl_guard.Updates.State.{VerifiedIntelBundle, state_for_activation, state_for_rollback}
use vexyl_guard.Updates.Store.{
  Database, healthy, World, Outcome, returned, Faults, Seeding, read_bundle_state, stored_state,
}
use vexyl_guard.Updates.Postcondition.{is_returned}
use vexyl_guard.Updates.Operations.{Action, activated, apply_intel_bundle, rollback_intel_bundle}
use vexyl_guard.Updates.Specification.{
  Ends, late_fault, Opens, Applied, refused, not_applied, not_written, refreshes, activates,
  apply-Applied,
}
use vexyl_guard.Updates.HighWater.{Ends-other}
use vexyl_guard.Updates.Sequence.{highest, read-highest}
use vexyl_guard.Updates.Reversal.{
  RolledBack, refused, not_backed_up, rolls_back, rollback-RolledBack,
}

module _ {R T H : Type 0} (seeding : Seeding R T H) (faults : Faults) (now : String)
    (bundle : Outcome (VerifiedIntelBundle R)) (w : World T H) where
  Ends-returned :
      {action : Action} {outcome : Outcome Action}
      → Ends (late_fault faults) action outcome
      → late_fault faults ≡ false
      → is_returned outcome ≡ true
  Ends-returned (inl e) h = ap is_returned e
  Ends-returned (inr (late, message, e)) h = absurd (ground arith)

  Applied-atomic :
      (r : Outcome Action × World T H)
      → Applied seeding faults now bundle w r
      → late_fault faults ≡ false
      → is_returned r.0 ≡ false
      → Opens seeding faults now w.active r.1.active
  Applied-atomic r (refused message) l h = inl refl
  Applied-atomic r (not_applied message file o) l h = o
  Applied-atomic r (not_written message file backup db o e f) l h = o
  Applied-atomic r (refreshes v file result outcome b o s end) l h =
      let returns = Ends-returned end l in absurd (ground arith)
  Applied-atomic r (activates v file backup result outcome b o s end) l h =
      let returns = Ends-returned end l in absurd (ground arith)

  -- If `apply_intel_bundle` raises, and neither the detaching of the staging file, nor its removal,
  -- nor the release of the lock is what fails, then the active database is the one it was, or a new
  -- one without intelligence where there was none.
  pub apply-IsAtomic :
      late_fault faults ≡ false
      → is_returned (apply_intel_bundle seeding faults now bundle w).0 ≡ false
      → Opens seeding faults now w.active (apply_intel_bundle seeding faults now bundle w).1.active
  apply-IsAtomic = Applied-atomic _ (apply-Applied seeding faults now bundle w)

  -- the files after an activation on a healthy database
  pub record Activated (old : Database T H) (w' : World T H) : Type 0 where
    pub new : Database T H
    pub has_active : w'.active ≡ healthy new
    pub is_backup : w'.backup ≡ healthy old
    pub keeps_history : new.history ≡ old.history
    pub keeps_highest : old.state.highest_sequence ≤ new.state.highest_sequence

  Applied-Activated :
      (old : Database T H) (r : Outcome Action × World T H)
      → Applied seeding faults now bundle w r
      → w.active ≡ healthy old
      → faults.unread_active ≡ false
      → r.0 ≡ returned activated
      → Activated old r.1
  unfolding state_for_activation read_bundle_state
  Applied-Activated old r (refused message) a read h = absurd (ground arith)
  Applied-Activated old r (not_applied message file o) a read h = absurd (ground arith)
  Applied-Activated old r (not_written message file backup db o e f) a read h =
      absurd (ground arith)
  Applied-Activated old r (refreshes v file result outcome b o s end) a read h =
      absurd (Ends-other end h)
  Applied-Activated old r (activates v file backup result outcome b (inr (m, e)) s end) a read h =
      absurd (cc)
  Applied-Activated old r (activates v file backup result outcome b (inl e) s end) a read h =
      let same : healthy s.db ≡ healthy old = sym s.is_file ∙ e ∙ a in
      record {
        new = _;
        has_active = s.replaced;
        is_backup = s.backed_up ∙ same;
        keeps_history = cc;
        keeps_highest =
            omega (arith, ap highest (e ∙ a), read-highest seeding faults now bundle w file read);
      }

-- The files after an update of the old database and its rollback: the intelligence of before is
-- active again under the runtime history, and the mark stays where the update put it.
pub record Restored {T H : Type 0} (old : Database T H) (mark : ℕ) (w : World T H) : Type 0 where
  pub db : Database T H
  pub has_active : w.active ≡ healthy db
  pub same_tables : db.tables ≡ old.tables
  pub same_history : db.history ≡ old.history
  pub same_sequence : db.state.active_sequence ≡ old.state.active_sequence
  pub same_records : db.state.active_records_sha256 ≡ old.state.active_records_sha256
  pub keeps_mark : db.state.highest_sequence ≡ mark

module _ {T H : Type 0} (faults : Faults) (now : String) (old : Database T H) (w : World T H) where
  RolledBack-Restored :
      (new : Database T H)
      → faults.unread_active ≡ false
      → faults.unread_backup ≡ false
      → w.active ≡ healthy new
      → w.backup ≡ healthy old
      → new.history ≡ old.history
      → (r : Outcome Action × World T H) → RolledBack w faults now r
      → is_returned r.0 ≡ true
      → Restored old (highest w.active) r.1
  unfolding state_for_rollback read_bundle_state
  RolledBack-Restored new read before_read a b kept r (refused message) h = absurd (ground arith)
  RolledBack-Restored new read before_read a b kept r
        (not_backed_up m current previous file ca pb e) h =
      absurd (ground arith)
  RolledBack-Restored new read before_read a b kept r
        (rolls_back current previous file backup outcome ca pb e f end) h =
      let same : healthy current ≡ healthy new = sym ca ∙ a in
      let before : healthy previous ≡ healthy old = sym pb ∙ b in
      let state =
        ap (λ unread. read_bundle_state unread (healthy previous)) before_read
        ∙ ap stored_state before in
      let mark =
        ap (λ unread. (read_bundle_state unread (healthy current)).highest_sequence) read in
      record {
        db = _;
        has_active = e;
        same_tables = cc;
        same_history = cc;
        same_sequence = ap (λ s. s.active_sequence) state;
        same_records = ap (λ s. s.active_records_sha256) state;
        keeps_mark = mark ∙ sym (ap highest ca);
      }

-- If a bundle is activated on a healthy database and a rollback then returns, the tables, the active
-- sequence and the records' hash of before are active again; the history and the raised high-water
-- mark are kept. The activation reads the state of the active file, and the rollback those of both
-- files.
pub rollback-restores :
    {R T H : Type 0} (seeding : Seeding R T H) (faults rollback_faults : Faults)
    (now later : String) (bundle : Outcome (VerifiedIntelBundle R)) (w : World T H)
    (old : Database T H) (confirmed : Bool)
    → w.active ≡ healthy old
    → faults.unread_active ≡ false
    → rollback_faults.unread_active ≡ false
    → rollback_faults.unread_backup ≡ false
    → (apply_intel_bundle seeding faults now bundle w).0 ≡ returned activated
    → is_returned
        (rollback_intel_bundle rollback_faults later confirmed
          (apply_intel_bundle seeding faults now bundle w).1).0
      ≡ true
    → Restored old
        (highest (apply_intel_bundle seeding faults now bundle w).1.active)
        (rollback_intel_bundle rollback_faults later confirmed
          (apply_intel_bundle seeding faults now bundle w).1).1
rollback-restores seeding faults rollback_faults now later bundle w old confirmed a read active
      backup h returns =
    let done =
      Applied-Activated seeding faults now bundle w old _
        (apply-Applied seeding faults now bundle w) a read h in
    RolledBack-Restored rollback_faults later old _ done.new active backup done.has_active
      done.is_backup done.keeps_history _ (rollback-RolledBack _ rollback_faults later confirmed)
      returns
