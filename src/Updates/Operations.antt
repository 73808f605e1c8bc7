-- ===== src/Updates/Operations.antt =====
-- The operations of intel/updates.py on the two database files. A call takes what goes wrong outside
-- and the formatted time, and gives its outcome and the files it leaves.
use vexyl_guard.Prelude.{String, Bool, ◌&&◌, ◌||◌, Option, none, some, ◌==◌, if◌then◌else◌}
use vexyl_guard.Updates.State.{
  BundleState, VerifiedIntelBundle, same_active_state, validate_sequence, is_active,
  state_for_activation, refreshed_state, state_for_rollback,
}
use vexyl_guard.Updates.Store.{
  DbFile, World, Outcome, raised, returned, Faults, Seeding, unless_fault, on_return, then_do,
  finally_do, placed, create_last_known_good, init_db, build_staging_database, database_integrity,
  read_bundle_state, validate_update_paths, healthy, create_database_snapshot, install_snapshot,
  replace_intelligence_tables, write_bundle_state,
}

-- the field "action" of the result
pub data Action : Type 0 where
  activated : Action
  metadata_refreshed : Action
  rolled_back : Action
  recovered : Action
  not_needed : Action

module _ {R T H : Type 0} (seeding : Seeding R T H) (faults : Faults) (now : String) where
  unfoldable pub refresh :
      VerifiedIntelBundle R → BundleState → World T H → Outcome Action × World T H
  refresh verified current w =
      then_do
        (placed (λ file. record w { active = file })
          (write_bundle_state faults w.active (refreshed_state current verified now)))
        λ w₁. (returned metadata_refreshed, w₁)

  unfoldable pub activate :
      VerifiedIntelBundle R → BundleState → World T H → Outcome Action × World T H
  activate verified current w =
      on_return (build_staging_database seeding faults verified) w λ tables.
        finally_do faults.unlink_staging (
          then_do (create_last_known_good faults w) λ w₁.
            then_do
              (placed (λ file. record w₁ { active = file })
                (replace_intelligence_tables faults w₁.active tables
                  (state_for_activation current verified now)))
              λ w₂. (returned activated, w₂))

  unfoldable pub apply_to :
      VerifiedIntelBundle R → BundleState → World T H → Outcome Action × World T H
  apply_to verified current w = unless_fault (validate_sequence current verified) w (
      if is_active current verified
      then refresh verified current w
      else activate verified current w)

  -- `apply_intel_bundle`, given the outcome of `verify_intel_bundle`
  unfoldable pub apply_intel_bundle :
      Outcome (VerifiedIntelBundle R) → World T H → Outcome Action × World T H
  apply_intel_bundle bundle w = on_return bundle w λ verified.
      unless_fault (validate_update_paths faults w) w (
        unless_fault faults.lock w (
          finally_do faults.release (
            on_return (init_db seeding faults w.active) w λ file.
              apply_to verified (read_bundle_state faults.unread_active file)
                (record w { active = file }))))

-- What a call raises when a healthy database is taken for a corrupt one.
unfoldable pub not_ok : Bool → String → Option String
not_ok unchecked message = if unchecked then some message else none

module _ {T H : Type 0} (faults : Faults) (now : String) where
  -- the transaction, and then the former active database becomes the backup
  unfoldable pub roll_back_to :
      BundleState → BundleState → T → World T H → Outcome Action × World T H
  roll_back_to current previous tables w =
      on_return (create_database_snapshot faults w.active) w λ snapshot.
        finally_do faults.unlink_snapshot (
          then_do
            (placed (λ file. record w { active = file })
              (replace_intelligence_tables faults w.active tables
                (state_for_rollback current previous now)))
            λ w₁.
              then_do
                (placed (λ file. record w₁ { backup = file })
                  (install_snapshot faults snapshot w₁.backup))
                λ w₂. (returned rolled_back, w₂))

  -- the part of `rollback_intel_bundle` under the lock; `init_db` leaves a healthy database as it is.
  unfoldable pub roll_back : DbFile T H → DbFile T H → World T H → Outcome Action × World T H
  roll_back (healthy current) (healthy previous) w =
      let state = read_bundle_state faults.unread_active (healthy current) in
      let before = read_bundle_state faults.unread_backup (healthy previous) in
      unless_fault (not_ok faults.unchecked_active "active intelligence database is not healthy") w
        (unless_fault
          (not_ok faults.unchecked_backup "last-known-good intelligence database is unavailable") w
          (unless_fault faults.init w (
            if same_active_state state before
            then (raised "last-known-good intelligence is already active", w)
            else roll_back_to state before previous.tables w)))
  roll_back (healthy current) backup w =
      unless_fault (not_ok faults.unchecked_active "active intelligence database is not healthy") w
        (raised "last-known-good intelligence database is unavailable", w)
  roll_back active backup w = (raised "active intelligence database is not healthy", w)

  unfoldable pub rollback_intel_bundle : Bool → World T H → Outcome Action × World T H
  rollback_intel_bundle confirmed w =
      unless_fault
        (if confirmed
          then none
          else some "explicit confirmation is required for intelligence rollback")
        w
        (unless_fault (validate_update_paths faults w) w
          (unless_fault faults.lock w (finally_do faults.release (roll_back w.active w.backup w))))

module _ {T H : Type 0} (faults : Faults) where
  -- the part of `recover_intel_database` that installs a copy of the last known good database
  unfoldable pub recover_from : DbFile T H → World T H → Outcome Action × World T H
  recover_from (healthy previous) w =
      unless_fault
        (not_ok faults.unchecked_backup "last-known-good intelligence database is unavailable") w
        (on_return (create_database_snapshot faults (healthy previous)) w λ snapshot.
          finally_do faults.unlink_snapshot (
            then_do
              (placed (λ file. record w { active = file })
                (install_snapshot faults snapshot w.active))
              λ w₁. (returned recovered, w₁)))
  recover_from backup w = (raised "last-known-good intelligence database is unavailable", w)

  unfoldable pub recover_intel_database : Bool → World T H → Outcome Action × World T H
  recover_intel_database only_if_corrupt w = unless_fault (validate_update_paths faults w) w (
      unless_fault faults.lock w (
        finally_do faults.release (
          if only_if_corrupt
            && (database_integrity faults.unchecked_active w.active == "ok"
                || database_integrity faults.unchecked_active w.active == "missing")
          then (returned not_needed, w)
          else recover_from w.backup w)))
