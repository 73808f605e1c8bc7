-- ===== src/Updates/Sequence.antt =====
-- The high-water mark of the sequences: no update lowers it, and it keeps older bundles out.
use vexyl_guard.Prelude.{
  ℕ, ◌≤◌, ◌<◌, String, Bool, true, false, Option, none, some, ◌≡◌, refl, ap, sym, ◌∙◌, arith,
  eq_iff,
}
use vexyl_guard.Updates.State.{
  BundleState, VerifiedIntelBundle, validate_sequence, same_text, state_for_activation,
  refreshed_state,
}
use vexyl_guard.Updates.Store.{
  Database, DbFile, healthy, World, Outcome, returned, Faults, Seeding, read_bundle_state,
  stored_state,
}
use vexyl_guard.Updates.Postcondition.{returned-inj, is_returned}
use vexyl_guard.Updates.Operations.{Action, apply_intel_bundle, rollback_intel_bundle}
use vexyl_guard.Updates.Specification.{
  Opens, read-Opens, Applied, refused, not_applied, not_written, refreshes, activates,
}
use vexyl_guard.Updates.Reversal.{refused}

abbrev pub highest : {T H : Type 0} → DbFile T H → ℕ
highest file = (stored_state file).highest_sequence

-- One update of the files of an installation, by a call that reads the state that the active file
-- holds, whatever else goes wrong in it.
pub data Update (R : Type 0) {T H : Type 0} (w : World T H) : World T H → Type 0 where
  by_apply :
      (seeding : Seeding R T H) (faults : Faults) (now : String)
      (bundle : Outcome (VerifiedIntelBundle R))
      → faults.unread_active ≡ false
      → Update R w (apply_intel_bundle seeding faults now bundle w).1
  by_rollback :
      (faults : Faults) (now : String) (confirmed : Bool)
      → faults.unread_active ≡ false
      → Update R w (rollback_intel_bundle faults now confirmed w).1
  by_history :
      (db : Database T H) (history : H)
      → w.active ≡ healthy db
      → Update R w (record w { active = healthy (record db { history = history }) })

pub data Updates (R : Type 0) {T H : Type 0} (w : World T H) : World T H → Type 0 where
  done : Updates R w w
  step : (w₁ w₂ : World T H) → Updates R w w₁ → Update R w₁ w₂ → Updates R w w₂

pub same_text-≡ : (a b : Option String) → same_text a b ≡ true → a ≡ b
unfolding same_text
same_text-≡ none none h = refl
same_text-≡ none (some b) h = absurd (ground arith)
same_text-≡ (some a) none h = absurd (ground arith)
same_text-≡ (some a) (some b) h = ap some ((eq_iff _ _).0 h)

module _ {R : Type 0} (current : BundleState) (verified : VerifiedIntelBundle R) where
  -- What passes `_validate_sequence` is not below the mark, and at the mark it is the same records.
  pub validate-none :
      validate_sequence current verified ≡ none
      → (current.highest_sequence ≤ verified.sequence)
        × (verified.sequence ≡ current.highest_sequence
            → 0 < current.highest_sequence
            → current.highest_records_sha256 ≡ some verified.records_sha256)
  unfolding validate_sequence
  validate-none h = (ground arith, λ e positive. same_text-≡ _ _ (ground arith))

module _ {R T H : Type 0} (seeding : Seeding R T H) (faults : Faults) (now : String)
    (bundle : Outcome (VerifiedIntelBundle R)) (w : World T H) where
  pub read-stored :
      (file : DbFile T H)
      → faults.unread_active ≡ false
      → read_bundle_state faults.unread_active file ≡ stored_state file
  read-stored file read = ap (λ unread. read_bundle_state unread file) read

  pub read-highest :
      (file : DbFile T H)
      → faults.unread_active ≡ false
      → (read_bundle_state faults.unread_active file).highest_sequence ≡ highest file
  read-highest file read = ap (λ s. s.highest_sequence) (read-stored file read)

  pub opened-highest :
      (file : DbFile T H) → Opens seeding faults now w.active file → highest file ≡ highest w.active
  opened-highest file opens =
      ap (λ s. s.highest_sequence) (read-Opens seeding faults now w.active file opens)

  pub Applied-highest :
      (r : Outcome Action × World T H)
      → faults.unread_active ≡ false
      → Applied seeding faults now bundle w r
      → highest w.active ≤ highest r.1.active
  unfolding refreshed_state state_for_activation read_bundle_state
  Applied-highest r read (refused message) = omega arith
  Applied-highest r read (not_applied message file opens) = omega (arith, opened-highest file opens)
  Applied-highest r read (not_written message file backup db opens is_file backed_up) =
      omega (arith, opened-highest file opens)
  Applied-highest r read (refreshes verified file result outcome is_bundle opens s end) =
      omega (arith, opened-highest file opens, ap highest s.replaced, read-highest file read)
  Applied-highest r read (activates verified file backup result outcome is_bundle opens s end) =
      omega (arith, opened-highest file opens, ap highest s.replaced, read-highest file read)

  -- an accepted bundle reaches the mark
  pub Applied-accepted :
      (verified : VerifiedIntelBundle R) (r : Outcome Action × World T H)
      → faults.unread_active ≡ false
      → Applied seeding faults now bundle w r
      → bundle ≡ returned verified
      → is_returned r.0 ≡ true
      → validate_sequence (stored_state w.active) verified ≡ none
  Applied-accepted verified r read (refused message) b h = absurd (ground arith)
  Applied-accepted verified r read (not_applied message file opens) b h = absurd (ground arith)
  Applied-accepted verified r read (not_written message file backup db opens is_file u) b h =
      absurd (ground arith)
  Applied-accepted verified r read (refreshes v file result outcome is_bundle opens s end) b h =
      let same = returned-inj (sym is_bundle ∙ b) in
      let e = read-Opens seeding faults now w.active file opens in
      let f = read-stored file read in let a = s.accepted in cc
  Applied-accepted verified r read (activates v file backup result outcome is_bundle opens s end) b
        h =
      let same = returned-inj (sym is_bundle ∙ b) in
      let e = read-Opens seeding faults now w.active file opens in
      let f = read-stored file read in let a = s.accepted in cc
