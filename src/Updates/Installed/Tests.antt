-- ===== src/Updates/Installed/Tests.antt =====
-- A signed bundle from its verification to its activation.
use vexyl_guard.Prelude.{pos, ℕ, String, true, some, ◌≡◌, refl, List, [], ◌∷◌}
use vexyl_guard.Updates.State.{VerifiedIntelBundle}
use vexyl_guard.Updates.Store.{missing, World, returned, Seeding}
use vexyl_guard.Updates.Postcondition.{is_returned}
use vexyl_guard.Updates.Operations.{apply_intel_bundle}
use vexyl_guard.Updates.Progress.{no_faults}
use vexyl_guard.Scoring.Run.{plain}
use vexyl_guard.Python.{Fields}
use vexyl_guard.Updates.Bundle.{verify_intel_bundle}
use vexyl_guard.Updates.Trust.{IsTrusted}
use vexyl_guard.Updates.Verified.Tests.{verifying, envelope, outside}
use vexyl_guard.Updates.Installed.{IsInForce, apply-IsTrusted}
use vexyl_guard.Updates.Tests.{calls}

-- A database that takes the records of a signed bundle as they are.
abbrev bundle_seeding : Seeding (Fields ℕ) (List (Fields ℕ)) (List String)
bundle_seeding = record {
  no_tables = [];
  no_history = [];
  seed_records_into_db = λ records. some records;
}

abbrev bundle_world : World (List (Fields ℕ)) (List String)
bundle_world = record { active = missing; backup = missing }

envelope_applies :
    is_returned
      (apply_intel_bundle bundle_seeding no_faults "t1"
        (verify_intel_bundle plain outside ("k0" ∷ []) (pos 150) envelope)
        bundle_world).0
    ≡ true
unfolding verifying calls
envelope_applies = refl

apply-IsTrusted_example :
    (verified : VerifiedIntelBundle (Fields ℕ)) × (verify_intel_bundle plain outside
        ("k0" ∷ [])
        (pos 150)
        envelope
      ≡ returned verified)
    × IsTrusted plain outside ("k0" ∷ []) (pos 150) verified
    × IsInForce bundle_seeding no_faults "t1" bundle_world verified
        (apply_intel_bundle bundle_seeding no_faults "t1"
          (verify_intel_bundle plain outside ("k0" ∷ []) (pos 150) envelope)
          bundle_world).1
apply-IsTrusted_example =
    apply-IsTrusted plain outside bundle_seeding no_faults "t1" ("k0" ∷ []) (pos 150) envelope
      bundle_world refl envelope_applies
