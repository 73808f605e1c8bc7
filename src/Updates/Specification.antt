-- ===== src/Updates/Specification.antt =====
-- What a call of intel/updates.py may do to the two database files, described without its steps, and
-- that each call does one of these.
use vexyl_guard.Prelude.{
  String, Bool, true, false, ◌||◌, Option, none, some, ◌≡◌, refl, ap, sym, ◌∙◌, arith, inl, inr,
  ◌⊎◌,
}
use vexyl_guard.Updates.State.{
  BundleState, VerifiedIntelBundle, validate_sequence, is_active, state_for_activation,
  refreshed_state,
}
use vexyl_guard.Updates.Store.{
  Database, DbFile, missing, healthy, World, Outcome, raised, returned, Faults, Seeding, fresh,
  read_bundle_state, stored_state, build_staging_database, staged, replace_intelligence_tables,
  then_do, placed,
}
use vexyl_guard.Updates.Postcondition.{
  unless_fault-post, unless_fault-passes, on_return-post, if-post, finally_do-post, init_db-cases,
  create_last_known_good-post, replace-post, write-post,
}
use vexyl_guard.Updates.Operations.{
  Action, activated, metadata_refreshed, refresh, activate, apply_to, apply_intel_bundle,
}

-- A call that got to its action returns it, or raises after all that it changes is written; `late`
-- says whether that is possible.
abbrev pub Ends : Bool → Action → Outcome Action → Type 0
Ends late action outcome =
    (outcome ≡ returned action) ⊎ ((late ≡ true) × (message : String) × (outcome ≡ raised message))

is_some : Option String → Bool
is_some none = false
is_some (some message) = true

-- Something fails after the transaction of `apply_intel_bundle` is committed.
unfoldable pub late_fault : Faults → Bool
unfolding is_some
late_fault faults = is_some faults.detach || is_some faults.unlink_staging || is_some faults.release

module _ {R T H : Type 0} (seeding : Seeding R T H) (faults : Faults) (now : String) where
  -- A file as `init_db` leaves it.
  abbrev pub Opens : DbFile T H → DbFile T H → Type 0
  Opens file opened =
      (opened ≡ file) ⊎ ((file ≡ missing) × (opened ≡ healthy (fresh seeding faults)))

  -- Opening a file does not change the state that it holds.
  pub read-Opens :
      (file opened : DbFile T H) → Opens file opened → stored_state opened ≡ stored_state file
  unfolding read_bundle_state
  read-Opens file opened (inl e) = ap stored_state e
  read-Opens file opened (inr (e, f)) = ap stored_state f ∙ sym (ap stored_state e)

  -- the state as `apply_intel_bundle` reads it
  abbrev pub read_state : DbFile T H → BundleState
  read_state file = read_bundle_state faults.unread_active file

  -- The bundle's tables take the place of the active ones, and the whole database becomes the backup.
  pub record Activates (verified : VerifiedIntelBundle R) (file backup result : DbFile T H)
      : Type 0 where
    pub db : Database T H
    pub tables : T
    pub is_file : file ≡ healthy db
    pub accepted : validate_sequence (read_state file) verified ≡ none
    pub is_new : is_active (read_state file) verified ≡ false
    pub seeded :
        staged faults.staging (seeding.seed_records_into_db verified.records) ≡ returned tables
    pub backed_up : backup ≡ healthy db
    pub replaced :
        result
        ≡ healthy (record db {
          tables = tables;
          state = state_for_activation (read_state file) verified now;
        })

  -- The bundle is the active one, and its metadata is written again.
  pub record Refreshes (verified : VerifiedIntelBundle R) (file result : DbFile T H) : Type 0 where
    pub db : Database T H
    pub is_file : file ≡ healthy db
    pub accepted : validate_sequence (read_state file) verified ≡ none
    pub is_active_bundle : is_active (read_state file) verified ≡ true
    pub replaced :
        result ≡ healthy (record db { state = refreshed_state (read_state file) verified now })

  -- What a call of `apply_intel_bundle` on the files `w` returns and leaves.
  pub data Applied (bundle : Outcome (VerifiedIntelBundle R)) (w : World T H)
      : Outcome Action × World T H → Type 0 where
    refused : (message : String) → Applied bundle w (raised message, w)
    not_applied :
        (message : String) (file : DbFile T H)
        → Opens w.active file
        → Applied bundle w (raised message, record w { active = file })
    not_written :
        (message : String) (file backup : DbFile T H) (db : Database T H)
        → Opens w.active file
        → file ≡ healthy db
        → backup ≡ healthy db
        → Applied bundle w (raised message, record { active = file; backup = backup })
    refreshes :
        (verified : VerifiedIntelBundle R) (file result : DbFile T H) (outcome : Outcome Action)
        → bundle ≡ returned verified
        → Opens w.active file
        → Refreshes verified file result
        → Ends (late_fault faults) metadata_refreshed outcome
        → Applied bundle w (outcome, record w { active = result })
    activates :
        (verified : VerifiedIntelBundle R) (file backup result : DbFile T H)
        (outcome : Outcome Action)
        → bundle ≡ returned verified
        → Opens w.active file
        → Activates verified file backup result
        → Ends (late_fault faults) activated outcome
        → Applied bundle w (outcome, record { active = result; backup = backup })

  late-Ends :
      (action : Action) (message : String)
      → late_fault faults ≡ true
      → Ends (late_fault faults) action (raised message)
  late-Ends action message h = inr (h, message, refl)

  detach-late : (message : String) → faults.detach ≡ some message → late_fault faults ≡ true
  unfolding late_fault is_some
  detach-late message e = rw e refl

  unlink-late : (message : String) → faults.unlink_staging ≡ some message → late_fault faults ≡ true
  unfolding late_fault is_some
  unlink-late message e = rw e (ground arith)

  release-late : (message : String) → faults.release ≡ some message → late_fault faults ≡ true
  unfolding late_fault is_some
  release-late message e = rw e (ground arith)

  module _ (bundle : Outcome (VerifiedIntelBundle R)) (w : World T H) where
    -- A call that raises late has done to the files what it would have done.
    Applied-raised :
        (r : Outcome Action × World T H) (message : String)
        → late_fault faults ≡ true
        → Applied bundle w r
        → Applied bundle w (raised message, r.1)
    Applied-raised r message h (refused m) = refused message
    Applied-raised r message h (not_applied m file o) = not_applied message file o
    Applied-raised r message h (not_written m file backup db o e f) =
        not_written message file backup db o e f
    Applied-raised r message h (refreshes v file result outcome b o s end) =
        refreshes v file result (raised message) b o s (late-Ends _ message h)
    Applied-raised r message h (activates v file backup result outcome b o s end) =
        activates v file backup result (raised message) b o s (late-Ends _ message h)

    module _ (verified : VerifiedIntelBundle R) (file : DbFile T H)
        (is_bundle : bundle ≡ returned verified) (opens : Opens w.active file)
        (accepted : validate_sequence (read_state file) verified ≡ none) where
      abbrev opened : World T H
      opened = record w { active = file }

      refresh-Applied :
          is_active (read_state file) verified ≡ true
          → Applied bundle w (refresh seeding faults now verified (read_state file) opened)
      unfolding refresh then_do
      refresh-Applied active =
          write-post faults
            (λ r. Applied bundle w (
              then_do (placed (λ f. record opened { active = f }) r)
                (λ w₁. (returned metadata_refreshed, w₁))))
            file _ (λ message. not_applied message file opens)
            λ db is_file.
              refreshes verified file _ _ is_bundle opens
                (record {
                  db = db;
                  is_file = is_file;
                  accepted = accepted;
                  is_active_bundle = active;
                  replaced = refl;
                })
                (inl refl)

      -- the transaction, when the backup is a copy of the active database
      replace-Applied :
          (tables : T) (db : Database T H)
          → is_active (read_state file) verified ≡ false
          → staged faults.staging (seeding.seed_records_into_db verified.records) ≡ returned tables
          → file ≡ healthy db
          → Applied bundle w (
              then_do
                (placed
                  (λ f. record { active = f; backup = healthy db })
                  (replace_intelligence_tables faults file tables
                    (state_for_activation (read_state file) verified now)))
                (λ w₂. (returned activated, w₂)))
      unfolding then_do
      replace-Applied tables db is_new seeded is_file =
          let whole : Activates verified file (healthy db) _ = record {
            db = db;
            tables = tables;
            is_file = is_file;
            accepted = accepted;
            is_new = is_new;
            seeded = seeded;
            backed_up = refl;
            replaced = refl;
          } in
          replace-post faults
            (λ r. Applied bundle w (
              then_do (placed (λ f. record { active = f; backup = healthy db }) r)
                (λ w₂. (returned activated, w₂))))
            file db tables _ is_file
            (λ message. not_written message file (healthy db) db opens is_file refl)
            (λ message detached.
              activates verified file _ _ _ is_bundle opens whole
                (late-Ends _ message (detach-late message detached)))
            (activates verified file _ _ _ is_bundle opens whole (inl refl))

      -- the transaction of `activate`
      abbrev transaction : T → World T H → Outcome Action × World T H
      transaction tables w₁ =
          then_do
            (placed (λ f. record w₁ { active = f })
              (replace_intelligence_tables faults w₁.active tables
                (state_for_activation (read_state file) verified now)))
            λ w₂. (returned activated, w₂)

      backed_up-Applied :
          (tables : T) (outcome : Outcome (Unit {0})) (db : Database T H)
          → is_active (read_state file) verified ≡ false
          → staged faults.staging (seeding.seed_records_into_db verified.records) ≡ returned tables
          → file ≡ healthy db
          → Applied bundle w
              (then_do (outcome, record opened { backup = healthy db }) (transaction tables))
      unfolding then_do
      backed_up-Applied tables (raised message) db is_new seeded is_file =
          not_written message file (healthy db) db opens is_file refl
      backed_up-Applied tables (returned u) db is_new seeded is_file =
          replace-Applied tables db is_new seeded is_file

      activate-Applied :
          is_active (read_state file) verified ≡ false
          → Applied bundle w (activate seeding faults now verified (read_state file) opened)
      unfolding activate build_staging_database then_do
      activate-Applied is_new =
          on_return-post (Applied bundle w) _ _ _ (λ message. not_applied message file opens)
            λ tables seeded.
              finally_do-post (Applied bundle w) _ _
                (create_last_known_good-post faults
                  (λ r. Applied bundle w (then_do r (transaction tables))) opened
                  (λ message. not_applied message file opens)
                  λ outcome db is_file. backed_up-Applied tables outcome db is_new seeded is_file)
                λ message fault. Applied-raised _ message (unlink-late message fault)

    -- Every call of `apply_intel_bundle` does one of five things: it raises with the files as they
    -- were, or after opening the active file, or after the backup has become its copy; or it writes
    -- the metadata of the active bundle again; or it leaves the bundle's tables and state in the
    -- active file and the file of before as the backup. In the last two cases it returns, unless the
    -- detaching, the removal of the staging file or the release of the lock fails, when it raises.
    pub apply-Applied : Applied bundle w (apply_intel_bundle seeding faults now bundle w)
    unfolding apply_intel_bundle apply_to
    apply-Applied =
        on_return-post (Applied bundle w) _ _ _ (λ message. refused message)
          λ verified is_bundle.
            unless_fault-post (Applied bundle w) _ _ _ (λ message. refused message)
              (unless_fault-post (Applied bundle w) _ _ _ (λ message. refused message)
                (finally_do-post (Applied bundle w) _ _
                  (on_return-post (Applied bundle w) _ _ _ (λ message. refused message)
                    λ file created.
                      let opens = init_db-cases seeding faults w.active file created in
                      unless_fault-passes (Applied bundle w) _ _ _
                        (λ message. not_applied message file opens)
                        λ accepted.
                          if-post (Applied bundle w) _ _ _
                            (refresh-Applied verified file is_bundle opens accepted)
                            (activate-Applied verified file is_bundle opens accepted))
                  λ message fault. Applied-raised _ message (release-late message fault)))
