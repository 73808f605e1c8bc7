-- ===== src/Updates/Store.antt =====
-- The database files that intel/updates.py works on: the active one and the last known good one.
-- SQLite and the file system are outside; what they refuse is a fault, given to each step.
pub use vexyl_guard.Outcome.{Outcome, raised, returned}
use vexyl_guard.Prelude.{String, Bool, true, false, Option, none, some, List, if◌then◌else◌}
use vexyl_guard.Updates.State.{BundleState, empty_state, VerifiedIntelBundle}

-- `T` is the type of the contents of the intelligence tables, `H` of the runtime tables.
module _ (T H : Type 0) where
  pub record Database : Type 0 where
    pub tables : T
    pub state : BundleState
    pub history : H

  -- A path as `_database_integrity` sees it.
  pub data DbFile : Type 0 where
    missing : DbFile
    unsafe : DbFile
    corrupt : DbFile
    healthy : Database → DbFile

  pub record World : Type 0 where
    pub active : DbFile
    pub backup : DbFile

-- What goes wrong outside at each step; `none`, or `false`, where nothing does. An unread file is one
-- whose state `_read_bundle_state` takes for empty, although it holds one, and an unchecked file one
-- that `_database_integrity` takes for corrupt.
pub record Faults : Type 0 where
  pub paths : Option String
  pub lock : Option String
  pub init : Option String
  pub unread_active : Bool
  pub unread_backup : Bool
  pub unchecked_active : Bool
  pub unchecked_backup : Bool
  pub staging : Option String
  pub snapshot : Option String
  -- before the destination is replaced, and after it
  pub install : Option String
  pub settle : Option String
  -- before the transaction is committed, and after it
  pub write : Option String
  pub detach : Option String
  -- the removal of temporary files, and the release of the lock
  pub unlink_staging : Option String
  pub unlink_snapshot : Option String
  pub release : Option String

-- intel/database.py as this component uses it: the contents of a new database, and the tables that
-- `seed_records_into_db` makes of the records, if it accepts them.
pub record Seeding (R T H : Type 0) : Type 0 where
  pub no_tables : T
  pub no_history : H
  pub seed_records_into_db : List R → Option T

-- `fault` is raised, or `result` is the rest of the call.
unfoldable pub unless_fault {ℓ} :
    {W : Type 0} {A : Type ℓ} → Option String → W → Outcome A × W → Outcome A × W
unless_fault none w result = result
unless_fault (some message) w result = (raised message, w)

-- The rest of a call that goes on with what a step returns.
unfoldable pub on_return {ℓ} :
    {W A : Type 0} {B : Type ℓ} → Outcome A → W → (A → Outcome B × W) → Outcome B × W
on_return (raised message) w rest = (raised message, w)
on_return (returned a) w rest = rest a

-- The rest of a call after a step that may raise with the files already changed.
unfoldable pub then_do : {W A B : Type 0} → Outcome A × W → (W → Outcome B × W) → Outcome B × W
then_do (raised message, w) rest = (raised message, w)
then_do (returned a, w) rest = rest w

-- A `finally` clause, whose fault takes the place of what the call returns or raises.
unfoldable pub finally_do : {W A : Type 0} → Option String → Outcome A × W → Outcome A × W
finally_do none result = result
finally_do (some message) result = (raised message, result.1)

-- The outcome of a step on a file, as one on all files.
abbrev pub placed : {A D W : Type 0} → (D → W) → Outcome A × D → Outcome A × W
placed put result = (result.0, put result.1)

abbrev pub failing : {A : Type 0} → Option String → Outcome A → Outcome A
failing none result = result
failing (some message) result = raised message

abbrev pub staged : {T : Type 0} → Option String → Option T → Outcome T
staged fault none = raised "staged intelligence records could not be loaded safely"
staged fault (some tables) = failing fault (returned tables)

module _ {R T H : Type 0} (seeding : Seeding R T H) (faults : Faults) where
  abbrev pub fresh : Database T H
  fresh = record { tables = seeding.no_tables; state = empty_state; history = seeding.no_history }

  -- `init_db`, which makes a database where there is none
  unfoldable pub init_db : DbFile T H → Outcome (DbFile T H)
  init_db missing = failing faults.init (returned (healthy fresh))
  init_db file = failing faults.init (returned file)

  -- `_build_staging_database`
  unfoldable pub build_staging_database : VerifiedIntelBundle R → Outcome T
  build_staging_database verified =
      staged faults.staging (seeding.seed_records_into_db verified.records)

module _ {T H : Type 0} where
  -- `_database_integrity`
  unfoldable pub database_integrity : Bool → DbFile T H → String
  database_integrity unchecked missing = "missing"
  database_integrity unchecked unsafe = "unsafe"
  database_integrity unchecked corrupt = "corrupt"
  database_integrity unchecked (healthy db) = if unchecked then "corrupt" else "ok"

  -- `_read_bundle_state`
  unfoldable pub read_bundle_state : Bool → DbFile T H → BundleState
  read_bundle_state true file = empty_state
  read_bundle_state false (healthy db) = db.state
  read_bundle_state false file = empty_state

  -- the state that a file holds
  abbrev pub stored_state : DbFile T H → BundleState
  stored_state file = read_bundle_state false file

  module _ (faults : Faults) where
    -- `_validate_update_paths`; no symlink passes, and no other file that is not regular.
    unfoldable pub validate_update_paths : World T H → Option String
    validate_update_paths w = elim w.active [
      | unsafe ↦ some "intelligence database must be a regular file"
      | _ ↦ elim w.backup [
        | unsafe ↦ some "intelligence database must be a regular file"
        | _ ↦ faults.paths
      ]
    ]

    -- `_create_database_snapshot`, which checks its copy
    unfoldable pub create_database_snapshot : DbFile T H → Outcome (Database T H)
    create_database_snapshot (healthy db) = failing faults.snapshot (returned db)
    create_database_snapshot file = raised "database snapshot failed integrity checks"

    -- `_install_snapshot`, an atomic replacement, with what it leaves at the destination
    unfoldable pub install_snapshot : Database T H → DbFile T H → Outcome (Unit {0}) × DbFile T H
    install_snapshot db unsafe =
        (raised "database snapshot destination cannot be a symlink", unsafe)
    install_snapshot db destination =
        unless_fault faults.install destination (finally_do faults.settle (returned tt, healthy db))

    -- `_create_last_known_good`
    unfoldable pub create_last_known_good : World T H → Outcome (Unit {0}) × World T H
    create_last_known_good w = on_return (create_database_snapshot w.active) w λ snapshot.
        finally_do faults.unlink_snapshot
          (placed (λ file. record w { backup = file }) (install_snapshot snapshot w.backup))

    -- `_replace_intelligence_tables`, one transaction: the runtime tables stay as they are.
    unfoldable pub replace_intelligence_tables :
        DbFile T H → T → BundleState → Outcome (Unit {0}) × DbFile T H
    replace_intelligence_tables (healthy db) tables state = unless_fault faults.write (healthy db) (
        finally_do faults.detach
          (returned tt, healthy (record db { tables = tables; state = state })))
    replace_intelligence_tables file tables state = (raised "file is not a database", file)

    -- `_refresh_active_state`, after its update of the state
    unfoldable pub write_bundle_state : DbFile T H → BundleState → Outcome (Unit {0}) × DbFile T H
    write_bundle_state (healthy db) state =
        unless_fault faults.write (healthy db) (returned tt, healthy (record db { state = state }))
    write_bundle_state file state = (raised "file is not a database", file)
