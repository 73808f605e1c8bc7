-- ===== src/Updates/Tests.antt =====
-- The theorems on the updates at a concrete installation.
use vexyl_guard.Prelude.{
  ℕ, ◌≤◌, String, true, false, none, some, ◌≡◌, ◌≢◌, refl, arith, List, [], ◌∷◌, if◌then◌else◌,
}
use vexyl_guard.Updates.State.{
  empty_state, VerifiedIntelBundle, validate_sequence, is_active, same_active_state, same_text,
  state_for_activation, refreshed_state, state_for_rollback,
}
use vexyl_guard.Updates.Store.{
  Database, DbFile, missing, unsafe, corrupt, healthy, World, Outcome, returned, Faults, Seeding,
  unless_fault, on_return, then_do, finally_do, create_last_known_good, init_db,
  build_staging_database, read_bundle_state, validate_update_paths, create_database_snapshot,
  install_snapshot, replace_intelligence_tables, write_bundle_state,
}
use vexyl_guard.Updates.Postcondition.{is_returned}
use vexyl_guard.Updates.Operations.{
  Action, activated, metadata_refreshed, rolled_back, not_ok, refresh, activate, apply_to,
  apply_intel_bundle, roll_back_to, roll_back, rollback_intel_bundle,
}
use vexyl_guard.Updates.Specification.{late_fault, Opens, Applied, apply-Applied}
use vexyl_guard.Updates.Reversal.{RolledBack, rollback-RolledBack}
use vexyl_guard.Updates.Sequence.{highest, by_apply, by_rollback, Updates, done, step}
use vexyl_guard.Updates.HighWater.{highest-le-Updates, older-never_returns}
use vexyl_guard.Updates.Restore.{apply-IsAtomic, Restored, rollback-restores}
use vexyl_guard.Updates.Soundness.{IsSound, Reach, installed, event, updates, breaks, Reach-IsSound}
use vexyl_guard.Updates.Progress.{
  no_faults, activated_files, refreshed_files, apply-returns, rollback-returns,
}

unfoldable pub calls : Unit {0}
unfolding then_do finally_do create_last_known_good not_ok validate_sequence is_active
    same_active_state same_text state_for_activation refreshed_state state_for_rollback unless_fault
    on_return init_db build_staging_database read_bundle_state validate_update_paths
    create_database_snapshot install_snapshot replace_intelligence_tables write_bundle_state refresh
    activate apply_to apply_intel_bundle roll_back_to roll_back rollback_intel_bundle
calls = tt

-- Records are texts, and the tables hold them as they are.
abbrev seeding : Seeding String (List String) (List String)
seeding = record { no_tables = []; no_history = []; seed_records_into_db = λ records. some records }

abbrev bundle : ℕ → String → VerifiedIntelBundle String
bundle sequence text = record {
  bundle_id = "b";
  sequence = sequence;
  issued_at = "2026-07-01T00:00:00Z";
  expires_at = "2026-08-01T00:00:00Z";
  records_sha256 = text;
  payload_sha256 = text;
  key_id = "k";
  records = text ∷ [];
}

abbrev seeded_db : Database (List String) (List String)
seeded_db = record { tables = "seed" ∷ []; state = empty_state; history = "event" ∷ [] }

abbrev start : World (List String) (List String)
start = record { active = healthy seeded_db; backup = missing }

abbrev first_call : Outcome Action × World (List String) (List String)
first_call = apply_intel_bundle seeding no_faults "t1" (returned (bundle 2 "two")) start

first_activates : first_call.0 ≡ returned activated
unfolding calls
first_activates = refl

abbrev undone : Outcome Action × World (List String) (List String)
undone = rollback_intel_bundle no_faults "t2" true first_call.1

undone_returns : is_returned undone.0 ≡ true
unfolding calls
undone_returns = refl

undone_by : Updates String first_call.1 undone.1
undone_by = step first_call.1 undone.1 done (by_rollback no_faults "t2" true refl)

first_accepted : is_returned first_call.0 ≡ true
unfolding calls
first_accepted = refl

apply-Applied_example :
    Applied seeding no_faults "t1"
      (returned (bundle 2 "two"))
      start
      (apply_intel_bundle seeding no_faults "t1" (returned (bundle 2 "two")) start)
apply-Applied_example = apply-Applied seeding no_faults "t1" (returned (bundle 2 "two")) start

rollback-RolledBack_example :
    RolledBack first_call.1 no_faults "t2" (rollback_intel_bundle no_faults "t2" true first_call.1)
rollback-RolledBack_example = rollback-RolledBack first_call.1 no_faults "t2" true

highest-le-Updates_example : highest first_call.1.active ≤ highest undone.1.active
highest-le-Updates_example = highest-le-Updates first_call.1 undone.1 undone_by

older-never_returns_example :
    is_returned (apply_intel_bundle seeding no_faults "t3" (returned (bundle 1 "one")) undone.1).0
    ≡ false
older-never_returns_example =
    older-never_returns seeding no_faults no_faults "t1" "t3" (bundle 2 "two") (bundle 1 "one")
      start undone.1 first_activates undone_by (omega arith) refl

abbrev full_disk : Faults
full_disk = record no_faults { write = some "disk I/O error" }

full_disk-late : late_fault full_disk ≡ false
unfolding late_fault
full_disk-late = refl

full_disk_raises :
    is_returned (apply_intel_bundle seeding full_disk "t1" (returned (bundle 2 "two")) start).0
    ≡ false
unfolding calls
full_disk_raises = refl

apply-IsAtomic_example :
    Opens seeding full_disk "t1" start.active
      (apply_intel_bundle seeding full_disk "t1" (returned (bundle 2 "two")) start).1.active
apply-IsAtomic_example =
    apply-IsAtomic seeding full_disk "t1" (returned (bundle 2 "two")) start full_disk-late
      full_disk_raises

rollback-restores_example : Restored seeded_db (highest first_call.1.active) undone.1
rollback-restores_example =
    rollback-restores seeding no_faults no_faults "t1" "t2" (returned (bundle 2 "two")) start
      seeded_db true refl refl refl refl first_activates undone_returns

abbrev empty_world : World (List String) (List String)
empty_world = record { active = missing; backup = missing }

abbrev applied_world : World (List String) (List String)
applied_world =
    (apply_intel_bundle seeding no_faults "t1" (returned (bundle 2 "two")) empty_world).1

abbrev broken_world : World (List String) (List String)
broken_world = record applied_world { active = corrupt }

broken-Reach : Reach String broken_world
broken-Reach =
    event applied_world broken_world
      (event empty_world applied_world installed
        (updates applied_world (by_apply seeding no_faults "t1" (returned (bundle 2 "two")) refl)))
      breaks

Reach-IsSound_example : IsSound broken_world
Reach-IsSound_example = Reach-IsSound broken_world broken-Reach

two_passes : validate_sequence empty_state (bundle 2 "two") ≡ none
unfolding calls
two_passes = refl

abbrev no_backup : DbFile (List String) (List String)
no_backup = missing

no_backup-safe : no_backup ≢ unsafe
no_backup-safe e = absurd (cc)

apply-returns_example :
    apply_intel_bundle seeding no_faults "t1"
      (returned (bundle 2 "two"))
      (record { active = healthy seeded_db; backup = no_backup })
    ≡ (if is_active empty_state (bundle 2 "two")
        then (
          returned metadata_refreshed,
          refreshed_files seeding "t1" (bundle 2 "two") seeded_db no_backup,
        )
        else (
          returned activated,
          activated_files seeding "t1" (bundle 2 "two") seeded_db ("two" ∷ []),
        ))
apply-returns_example =
    apply-returns seeding "t1" (bundle 2 "two") seeded_db no_backup ("two" ∷ []) no_backup-safe
      two_passes refl

abbrev newer_db : Database (List String) (List String)
newer_db = record {
  tables = "two" ∷ [];
  state = state_for_activation empty_state (bundle 2 "two") "t1";
  history = "event" ∷ [];
}

newer-differs : same_active_state newer_db.state seeded_db.state ≡ false
unfolding calls
newer-differs = refl

rollback-returns_example :
    rollback_intel_bundle no_faults "t2" true
      (record { active = healthy newer_db; backup = healthy seeded_db })
    ≡ (
      returned rolled_back,
      record {
        active = healthy (record newer_db {
          tables = "seed" ∷ [];
          state = state_for_rollback newer_db.state empty_state "t2";
        });
        backup = healthy newer_db;
      },
    )
rollback-returns_example = rollback-returns "t2" newer_db seeded_db newer-differs

-- Where the state of the active file cannot be read, an older bundle is applied.
abbrev unreadable : Faults
unreadable = record no_faults { unread_active = true }

unread_applies :
    (apply_intel_bundle seeding unreadable "t3" (returned (bundle 1 "one")) undone.1).0
    ≡ returned activated
unfolding calls
unread_applies = refl
