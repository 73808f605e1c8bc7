-- ===== src/Updates/Postcondition.antt =====
-- What holds of the files after a step, whatever its outcome: through the steps of a call, and what
-- each step on a file returns.
pub use vexyl_guard.Outcome.{is_returned, returned-inj, raised-returned}
use vexyl_guard.Prelude.{
  String, Bool, true, false, Option, none, some, ◌≡◌, refl, ap, sym, if◌then◌else◌, inl, inr, ◌⊎◌,
  subst,
}
use vexyl_guard.Updates.State.{BundleState}
use vexyl_guard.Updates.Store.{
  Database, DbFile, missing, unsafe, corrupt, healthy, Outcome, raised, returned, Faults, Seeding,
  World, unless_fault, on_return, finally_do, placed, create_last_known_good, init_db, fresh,
  failing, create_database_snapshot, install_snapshot, replace_intelligence_tables,
  write_bundle_state,
}

-- `Q` holds of what a call returns and of the files it leaves.
module _ {W A : Type 0} (Q : Outcome A × W → Type 0) where
  pub unless_fault-post :
      (fault : Option String) (w : W) (result : Outcome A × W)
      → ((message : String) → Q (raised message, w))
      → Q result
      → Q (unless_fault fault w result)
  unfolding unless_fault
  unless_fault-post none w result on_raise on_result = on_result
  unless_fault-post (some message) w result on_raise on_result = on_raise message

  pub unless_fault-passes :
      (fault : Option String) (w : W) (result : Outcome A × W)
      → ((message : String) → Q (raised message, w))
      → (fault ≡ none → Q result)
      → Q (unless_fault fault w result)
  unfolding unless_fault
  unless_fault-passes none w result on_raise on_result = on_result refl
  unless_fault-passes (some message) w result on_raise on_result = on_raise message

  pub on_return-post :
      {B : Type 0} (step : Outcome B) (w : W) (rest : B → Outcome A × W)
      → ((message : String) → Q (raised message, w))
      → ((b : B) → step ≡ returned b → Q (rest b))
      → Q (on_return step w rest)
  unfolding on_return
  on_return-post (raised message) w rest on_raise on_step = on_raise message
  on_return-post (returned b) w rest on_raise on_step = on_step b refl

  pub finally_do-post :
      (fault : Option String) (result : Outcome A × W)
      → Q result
      → ((message : String) → fault ≡ some message → Q result → Q (raised message, result.1))
      → Q (finally_do fault result)
  unfolding finally_do
  finally_do-post none result on_result on_raise = on_result
  finally_do-post (some message) result on_result on_raise = on_raise message refl on_result

  pub if-post :
      (b : Bool) (first second : Outcome A × W)
      → (b ≡ true → Q first)
      → (b ≡ false → Q second)
      → Q (if b then first else second)
  if-post true first second on_true on_false = on_true refl
  if-post false first second on_true on_false = on_false refl

pub failing-returned :
    {A : Type 0} (fault : Option String) (a b : A) → failing fault (returned a) ≡ returned b → a ≡ b
failing-returned none a b e = returned-inj e
failing-returned (some message) a b e = absurd (raised-returned e)

module _ {R T H : Type 0} (seeding : Seeding R T H) (faults : Faults) where
  -- A database is made where there was none; any other file stays.
  pub init_db-cases :
      (file opened : DbFile T H)
      → init_db seeding faults file ≡ returned opened
      → (opened ≡ file) ⊎ ((file ≡ missing) × (opened ≡ healthy (fresh seeding faults)))
  unfolding init_db
  init_db-cases missing opened e = inr (refl, sym (failing-returned _ _ _ e))
  init_db-cases unsafe opened e = inl (sym (failing-returned _ _ _ e))
  init_db-cases corrupt opened e = inl (sym (failing-returned _ _ _ e))
  init_db-cases (healthy db) opened e = inl (sym (failing-returned _ _ _ e))

abbrev database_or : {T H : Type 0} → Database T H → DbFile T H → Database T H
database_or d missing = d
database_or d unsafe = d
database_or d corrupt = d
database_or d (healthy db) = db

pub healthy-inj : {T H : Type 0} {d db : Database T H} → healthy d ≡ healthy db → d ≡ db
healthy-inj {d = d} e = ap (database_or d) e

module _ {T H : Type 0} (faults : Faults) where
  -- A snapshot is made of a healthy file only, and is its copy.
  pub snapshot-is_copy :
      (file : DbFile T H) (db : Database T H)
      → create_database_snapshot faults file ≡ returned db
      → file ≡ healthy db
  unfolding create_database_snapshot
  snapshot-is_copy missing db e = absurd (raised-returned e)
  snapshot-is_copy unsafe db e = absurd (raised-returned e)
  snapshot-is_copy corrupt db e = absurd (raised-returned e)
  snapshot-is_copy (healthy d) db e = ap healthy (failing-returned _ _ _ e)

  -- An installation raises and leaves the destination, or replaces it and may raise then.
  pub install-post :
      (Q : Outcome (Unit {0}) × DbFile T H → Type 0) (db : Database T H) (file : DbFile T H)
      → ((message : String) → Q (raised message, file))
      → ((message : String) → Q (raised message, healthy db))
      → Q (returned tt, healthy db)
      → Q (install_snapshot faults db file)
  unfolding install_snapshot
  install-post Q db unsafe before after done = before _
  install-post Q db missing before after done =
      unless_fault-post Q _ _ _ before (finally_do-post Q _ _ done (λ m _ _. after m))
  install-post Q db corrupt before after done =
      unless_fault-post Q _ _ _ before (finally_do-post Q _ _ done (λ m _ _. after m))
  install-post Q db (healthy d) before after done =
      unless_fault-post Q _ _ _ before (finally_do-post Q _ _ done (λ m _ _. after m))

  -- A transaction raises and changes nothing, or is committed and may raise then.
  pub replace-post :
      (Q : Outcome (Unit {0}) × DbFile T H → Type 0) (file : DbFile T H) (db : Database T H)
      (tables : T) (state : BundleState)
      → file ≡ healthy db
      → ((message : String) → Q (raised message, file))
      → ((message : String)
          → faults.detach ≡ some message
          → Q (raised message, healthy (record db { tables = tables; state = state })))
      → Q (returned tt, healthy (record db { tables = tables; state = state }))
      → Q (replace_intelligence_tables faults file tables state)
  unfolding replace_intelligence_tables
  replace-post Q missing db tables state e before after done = before _
  replace-post Q unsafe db tables state e before after done = before _
  replace-post Q corrupt db tables state e before after done = before _
  replace-post Q (healthy d) db tables state e before after done =
      let same : d ≡ db = healthy-inj e in
      unless_fault-post Q _ _ _ before (
        finally_do-post Q _ _
          (subst (λ x. Q (returned tt, healthy (record x { tables = tables; state = state })))
            (sym same) done)
          λ m f _.
            subst (λ x. Q (raised m, healthy (record x { tables = tables; state = state })))
              (sym same) (after m f))

  pub write-post :
      (Q : Outcome (Unit {0}) × DbFile T H → Type 0) (file : DbFile T H) (state : BundleState)
      → ((message : String) → Q (raised message, file))
      → ((db : Database T H)
          → file ≡ healthy db
          → Q (returned tt, healthy (record db { state = state })))
      → Q (write_bundle_state faults file state)
  unfolding write_bundle_state
  write-post Q missing state before done = before _
  write-post Q unsafe state before done = before _
  write-post Q corrupt state before done = before _
  write-post Q (healthy db) state before done = unless_fault-post Q _ _ _ before (done db refl)

  -- The backup stays, or becomes a copy of the active database.
  pub create_last_known_good-post :
      (Q : Outcome (Unit {0}) × World T H → Type 0) (w : World T H)
      → ((message : String) → Q (raised message, w))
      → ((outcome : Outcome (Unit {0})) (db : Database T H)
          → w.active ≡ healthy db
          → Q (outcome, record w { backup = healthy db }))
      → Q (create_last_known_good faults w)
  unfolding create_last_known_good
  create_last_known_good-post Q w before done = on_return-post Q _ _ _ before λ db copied.
      let is_file = snapshot-is_copy w.active db copied in
      install-post
        (λ r. Q (finally_do faults.unlink_snapshot (placed (λ file. record w { backup = file }) r)))
        db w.backup (λ m. finally_do-post Q _ _ (before m) (λ m₁ _ _. before m₁))
        (λ m. finally_do-post Q _ _ (done _ db is_file) (λ m₁ _ _. done _ db is_file))
        (finally_do-post Q _ _ (done _ db is_file) (λ m₁ _ _. done _ db is_file))
