-- ===== src/Updates/Installed.antt =====
-- From the verification of a bundle to its activation.
use vexyl_guard.Prelude.{◌≤◌, String, true, false, none, ◌≡◌, arith, List, ℤ, inl, inr, ◌⊎◌}
use vexyl_guard.Outcome.{Outcome, returned, is_returned}
use vexyl_guard.Python.{Python, Fields}
use vexyl_guard.Updates.State.{VerifiedIntelBundle, validate_sequence}
use vexyl_guard.Updates.Values.{Outside}
use vexyl_guard.Updates.Store.{DbFile, World, Faults, Seeding, read_bundle_state}
use vexyl_guard.Updates.Operations.{Action, apply_intel_bundle}
use vexyl_guard.Updates.Bundle.{verify_intel_bundle}
use vexyl_guard.Updates.Trust.{IsTrusted}
use vexyl_guard.Updates.Verified.{verify-IsTrusted}
use vexyl_guard.Updates.Sequence.{highest, validate-none, read-highest, opened-highest}
use vexyl_guard.Updates.Specification.{
  Opens, Activates, Refreshes, Applied, refused, not_applied, not_written, refreshes, activates,
  apply-Applied,
}
mod Tests

module _ {R T H : Type 0} (seeding : Seeding R T H) (faults : Faults) (now : String)
    (w : World T H) where
  -- The bundle is in force after a call: it was not below the mark, and either its tables and state
  -- replaced the active ones, or it was the active one already and its metadata was written.
  pub record IsInForce (verified : VerifiedIntelBundle R) (after : World T H) : Type 0 where
    pub file : DbFile T H
    pub opens : Opens seeding faults now w.active file
    pub above_mark : highest w.active ≤ verified.sequence
    pub put_in_force :
        Activates seeding faults now verified file after.backup after.active
        ⊎ Refreshes seeding faults now verified file after.active

  above :
      (bundle : Outcome (VerifiedIntelBundle R)) (verified : VerifiedIntelBundle R)
      (file : DbFile T H)
      → faults.unread_active ≡ false
      → Opens seeding faults now w.active file
      → validate_sequence (read_bundle_state faults.unread_active file) verified ≡ none
      → highest w.active ≤ verified.sequence
  above bundle verified file read o accepted =
      let (passes, same) = validate-none _ verified accepted in
      omega (
        arith,
        passes,
        read-highest seeding faults now bundle w file read,
        opened-highest seeding faults now bundle w file o,
      )

  Applied-IsInForce :
      (bundle : Outcome (VerifiedIntelBundle R)) (r : Outcome Action × World T H)
      → faults.unread_active ≡ false
      → Applied seeding faults now bundle w r
      → is_returned r.0 ≡ true
      → (verified : VerifiedIntelBundle R) × (bundle ≡ returned verified) × IsInForce verified r.1
  Applied-IsInForce bundle r read (refused message) h = absurd (ground arith)
  Applied-IsInForce bundle r read (not_applied message file o) h = absurd (ground arith)
  Applied-IsInForce bundle r read (not_written message file backup db o e f) h =
      absurd (ground arith)
  Applied-IsInForce bundle r read (refreshes v file result outcome b o s end) h = (
    v,
    b,
    record {
      file = file;
      opens = o;
      above_mark = above bundle v file read o s.accepted;
      put_in_force = inr s;
    },
  )
  Applied-IsInForce bundle r read (activates v file backup result outcome b o s end) h = (
    v,
    b,
    record {
      file = file;
      opens = o;
      above_mark = above bundle v file read o s.accepted;
      put_in_force = inl s;
    },
  )

-- If `apply_intel_bundle` reads the state of the active file and returns, then it was given a bundle
-- that is trusted now: signed, current, with checked records, and with the content of the signed
-- payload. The bundle is not below the high-water mark, and it is in force: its tables and state are
-- active, or it was the active bundle before and its metadata was written.
pub apply-IsTrusted :
    {F T H : Type 0} (py : Python F) (out : Outside F) (seeding : Seeding (Fields F) T H)
    (faults : Faults) (activated_at : String) (revoked : List String) (now : ℤ)
    (envelope : Fields F) (w : World T H)
    → faults.unread_active ≡ false
    → is_returned
        (apply_intel_bundle seeding faults activated_at
          (verify_intel_bundle py out revoked now envelope)
          w).0
      ≡ true
    → (verified : VerifiedIntelBundle (Fields F)) × (verify_intel_bundle py out revoked now envelope
        ≡ returned verified)
      × IsTrusted py out revoked now verified
      × IsInForce seeding faults activated_at w verified
          (apply_intel_bundle seeding faults activated_at
            (verify_intel_bundle py out revoked now envelope)
            w).1
apply-IsTrusted py out seeding faults activated_at revoked now envelope w read h =
    let bundle = verify_intel_bundle py out revoked now envelope in
    let (verified, is_bundle, in_force) =
      Applied-IsInForce seeding faults activated_at w bundle _ read
        (apply-Applied seeding faults activated_at bundle w) h in
    (verified, is_bundle, verify-IsTrusted py out revoked now envelope verified is_bundle, in_force)
