-- ===== src/Updates/HighWater.antt =====
-- The sequences that intel/updates.py lets through: never below the high-water mark.
use vexyl_guard.Prelude.{
  ◌≤◌, ◌<◌, String, Bool, true, false, some, ◌≡◌, refl, ap, sym, ◌∙◌, arith, inl, inr,
}
use vexyl_guard.Updates.State.{VerifiedIntelBundle, state_for_activation, state_for_rollback}
use vexyl_guard.Updates.Store.{
  World, Outcome, returned, Faults, Seeding, healthy, read_bundle_state, stored_state,
}
use vexyl_guard.Updates.Postcondition.{returned-inj, raised-returned, is_returned}
use vexyl_guard.Updates.Operations.{Action, activated, metadata_refreshed, apply_intel_bundle}
use vexyl_guard.Updates.Specification.{
  Ends, Applied, refused, not_applied, not_written, refreshes, activates, apply-Applied,
}
use vexyl_guard.Updates.Reversal.{
  RolledBack, refused, not_backed_up, rolls_back, rollback-RolledBack,
}
use vexyl_guard.Updates.Sequence.{
  highest, Update, by_apply, by_rollback, by_history, Updates, done, step, validate-none,
  Applied-highest, Applied-accepted,
}

RolledBack-highest :
    {T H : Type 0} (faults : Faults) (now : String) (w : World T H) (r : Outcome Action × World T H)
    → faults.unread_active ≡ false
    → RolledBack w faults now r
    → highest w.active ≤ highest r.1.active
unfolding state_for_rollback read_bundle_state
RolledBack-highest faults now w r read (refused message) = omega arith
RolledBack-highest faults now w r read (not_backed_up message current previous file a b e) = omega (
  arith,
  ap highest a,
  ap highest e,
  ap (λ unread. (read_bundle_state unread (healthy current)).highest_sequence) read,
)
RolledBack-highest faults now w r read (rolls_back current previous file backup o a b e f end) =
    omega (
      arith,
      ap highest a,
      ap highest e,
      ap (λ unread. (read_bundle_state unread (healthy current)).highest_sequence) read,
    )

Update-highest :
    {R T H : Type 0} (w w' : World T H) → Update R w w' → highest w.active ≤ highest w'.active
unfolding read_bundle_state
Update-highest w w' (by_apply seeding faults now bundle read) =
    Applied-highest seeding faults now bundle w _ read (apply-Applied seeding faults now bundle w)
Update-highest w w' (by_rollback faults now confirmed read) =
    RolledBack-highest faults now w _ read (rollback-RolledBack w faults now confirmed)
Update-highest w w' (by_history db history a) = omega (arith, ap highest a)

-- No sequence of updates lowers the highest sequence of the active database: not a bundle, not a
-- rollback, not a change of the history, whatever fails in them but the reading of the active state.
pub highest-le-Updates :
    {R T H : Type 0} (w w' : World T H) → Updates R w w' → highest w.active ≤ highest w'.active
highest-le-Updates w w' done = omega arith
highest-le-Updates w w' (step w₁ w₂ before u) =
    let first = highest-le-Updates w w₁ before in let last = Update-highest w₁ w₂ u in omega arith

-- If `apply_intel_bundle` reads the active state and returns, then the bundle's sequence is not below
-- the highest one before, and a bundle of exactly that sequence has the records that were trusted
-- under it.
pub apply-IsAccepted :
    {R T H : Type 0} (seeding : Seeding R T H) (faults : Faults) (now : String)
    (verified : VerifiedIntelBundle R) (w : World T H)
    → faults.unread_active ≡ false
    → is_returned (apply_intel_bundle seeding faults now (returned verified) w).0 ≡ true
    → (highest w.active ≤ verified.sequence)
      × (verified.sequence ≡ highest w.active
          → 0 < highest w.active
          → (stored_state w.active).highest_records_sha256 ≡ some verified.records_sha256)
apply-IsAccepted seeding faults now verified w read h =
    validate-none (stored_state w.active) verified (
      Applied-accepted seeding faults now (returned verified) w verified _ read
        (apply-Applied seeding faults now (returned verified) w) refl h)

metadata-activated : returned metadata_refreshed ≡ returned activated → ⊥
metadata-activated e = absurd (cc)

-- A call that refreshes the metadata does not return that it has activated.
pub Ends-other :
    {late : Bool} {outcome : Outcome Action}
    → Ends late metadata_refreshed outcome
    → outcome ≡ returned activated
    → ⊥
Ends-other (inl e) h = metadata-activated (sym e ∙ h)
Ends-other (inr (late, message, e)) h = raised-returned (sym e ∙ h)

Applied-activated :
    {R T H : Type 0} (seeding : Seeding R T H) (faults : Faults) (now : String)
    (verified : VerifiedIntelBundle R) (w : World T H) (r : Outcome Action × World T H)
    → Applied seeding faults now (returned verified) w r
    → r.0 ≡ returned activated
    → verified.sequence ≤ highest r.1.active
unfolding state_for_activation read_bundle_state
Applied-activated seeding faults now verified w r (refused message) h = absurd (ground arith)
Applied-activated seeding faults now verified w r (not_applied message file o) h =
    absurd (ground arith)
Applied-activated seeding faults now verified w r (not_written message file backup db o e f) h =
    absurd (ground arith)
Applied-activated seeding faults now verified w r (refreshes v file result outcome b o s end) h =
    absurd (Ends-other end h)
Applied-activated seeding faults now verified w r (activates v file backup result outcome b o s end)
      h =
    omega (arith, ap (λ x. x.sequence) (returned-inj b), ap highest s.replaced)

-- Once a bundle has been activated, no bundle of a lower sequence is applied, whatever updates,
-- rollbacks and changes of the history come in between, if each of these calls, the last one
-- included, reads the state that the active file holds. Recoveries from the backup are no part of
-- these updates.
pub older-never_returns :
    {R T H : Type 0} (seeding : Seeding R T H) (faults later_faults : Faults) (now later : String)
    (newer older : VerifiedIntelBundle R) (w w' : World T H)
    → (apply_intel_bundle seeding faults now (returned newer) w).0 ≡ returned activated
    → Updates R (apply_intel_bundle seeding faults now (returned newer) w).1 w'
    → older.sequence < newer.sequence
    → later_faults.unread_active ≡ false
    → is_returned (apply_intel_bundle seeding later_faults later (returned older) w').0 ≡ false
older-never_returns seeding faults later_faults now later newer older w w' h updates lt read =
    let mark =
      Applied-activated seeding faults now newer w _
        (apply-Applied seeding faults now (returned newer) w) h in
    let kept = highest-le-Updates _ w' updates in
    let accepted = apply-IsAccepted seeding later_faults later older w' read in ground arith
