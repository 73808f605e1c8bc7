-- ===== src/Updates/Progress.antt =====
-- What the calls of intel/updates.py return and leave where nothing fails outside.
use vexyl_guard.Prelude.{
  String, true, false, none, some, ◌≡◌, ◌≢◌, refl, Bool-cases, inl, inr, if◌then◌else◌,
}
use vexyl_guard.Updates.State.{
  VerifiedIntelBundle, validate_sequence, is_active, same_active_state, state_for_activation,
  refreshed_state, state_for_rollback,
}
use vexyl_guard.Updates.Store.{
  Database, DbFile, missing, unsafe, corrupt, healthy, returned, Faults, Seeding, unless_fault,
  World, on_return, then_do, finally_do, create_last_known_good, init_db, build_staging_database,
  read_bundle_state, validate_update_paths, create_database_snapshot, install_snapshot,
  replace_intelligence_tables, write_bundle_state,
}
use vexyl_guard.Updates.Operations.{
  activated, metadata_refreshed, rolled_back, not_ok, refresh, activate, apply_to,
  apply_intel_bundle, roll_back_to, roll_back, rollback_intel_bundle,
}

abbrev pub no_faults : Faults
no_faults = record {
  paths = none;
  lock = none;
  init = none;
  unread_active = false;
  unread_backup = false;
  unchecked_active = false;
  unchecked_backup = false;
  staging = none;
  snapshot = none;
  install = none;
  settle = none;
  write = none;
  detach = none;
  unlink_staging = none;
  unlink_snapshot = none;
  release = none;
}

module _ {R T H : Type 0} (seeding : Seeding R T H) (now : String)
    (verified : VerifiedIntelBundle R) (db : Database T H) where
  -- the tables and the state of the bundle over the history, and the former database as the backup
  abbrev pub activated_files : T → World T H
  activated_files tables = record {
    active =
        healthy (record db { tables = tables; state = state_for_activation db.state verified now });
    backup = healthy db;
  }

  abbrev pub refreshed_files : DbFile T H → World T H
  refreshed_files backup = record {
    active = healthy (record db { state = refreshed_state db.state verified now });
    backup = backup;
  }

  activate-returns :
      (backup : DbFile T H) (tables : T)
      → backup ≢ unsafe
      → seeding.seed_records_into_db verified.records ≡ some tables
      → activate seeding no_faults now verified db.state
          (record { active = healthy db; backup = backup })
        ≡ (returned activated, activated_files tables)
  unfolding activate build_staging_database on_return then_do finally_do unless_fault
      create_last_known_good create_database_snapshot install_snapshot replace_intelligence_tables
  activate-returns missing tables safe seeded = rw seeded refl
  activate-returns unsafe tables safe seeded = absurd (safe refl)
  activate-returns corrupt tables safe seeded = rw seeded refl
  activate-returns (healthy d) tables safe seeded = rw seeded refl

  paths-pass :
      (backup : DbFile T H)
      → backup ≢ unsafe
      → validate_update_paths no_faults (record { active = healthy db; backup = backup }) ≡ none
  unfolding validate_update_paths
  paths-pass missing safe = refl
  paths-pass unsafe safe = absurd (safe refl)
  paths-pass corrupt safe = refl
  paths-pass (healthy d) safe = refl

  -- On a healthy database, if nothing fails outside, a bundle whose sequence passes and whose records
  -- can be loaded is applied: if it is the active one, then its metadata is written and the rest
  -- stays; if it is not, then its tables and state are in the active file, under the history of
  -- before, and the database of before is the backup.
  pub apply-returns :
      (backup : DbFile T H) (tables : T)
      → backup ≢ unsafe
      → validate_sequence db.state verified ≡ none
      → seeding.seed_records_into_db verified.records ≡ some tables
      → apply_intel_bundle seeding no_faults now
          (returned verified)
          (record { active = healthy db; backup = backup })
        ≡ (if is_active db.state verified
            then (returned metadata_refreshed, refreshed_files backup)
            else (returned activated, activated_files tables))
  unfolding apply_intel_bundle apply_to on_return unless_fault finally_do init_db read_bundle_state
      refresh then_do write_bundle_state
  apply-returns backup tables safe accepted seeded = rw (paths-pass backup safe) (
      rw accepted (elim (Bool-cases (is_active db.state verified)) [
        | inl active ↦ rw active refl
        | inr inactive ↦ rw inactive (activate-returns backup tables safe seeded)
      ]))

-- A confirmed rollback to a healthy last known good database of another bundle returns, if nothing
-- fails outside: the tables and the state of the backup are active, under the history and the mark
-- of the active file, and the former active database is the backup.
pub rollback-returns :
    {T H : Type 0} (now : String) (current previous : Database T H)
    → same_active_state current.state previous.state ≡ false
    → rollback_intel_bundle no_faults now true
        (record { active = healthy current; backup = healthy previous })
      ≡ (
        returned rolled_back,
        record {
          active = healthy (record current {
            tables = previous.tables;
            state = state_for_rollback current.state previous.state now;
          });
          backup = healthy current;
        },
      )
unfolding rollback_intel_bundle roll_back not_ok roll_back_to unless_fault on_return then_do
    finally_do validate_update_paths read_bundle_state create_database_snapshot
    replace_intelligence_tables install_snapshot
rollback-returns now current previous differs = rw differs refl
