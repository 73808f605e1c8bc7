-- ===== src/Runtime/Retention.antt =====
-- What `record_runtime_event` keeps in the table: one row for an identifier, and no row that is older
-- than the retention allows.
use mathlib.Core.List.Memᴰ
use vexyl_guard.Prelude.{
  ℕ, ◌+◌, ◌*◌, ◌≤◌, String, Bool, true, false, ap, ◌∙◌, Option, none, some, List, [], ◌∷◌, ◌++◌,
  ◌≡◌, ◌⊎◌, inl, inr, refl, arith, All, All-append, All-keep, All-keep_of, All-map, Memᴰ, Memᴰ-keep,
  Memᴰ-of_keep, ℤ, keep, ◌==◌, Bool-cases,
}
use vexyl_guard.Outcome.{
  returned, ◌>>=◌, ◌>>◌, raise_if, returned-inj, bind-returned, then-returned,
}
use vexyl_guard.Python.{Python}
use vexyl_guard.Models.{RuntimeAiEvent, RiskDecision}
use vexyl_guard.Runtime.Facts.{
  stored_int, bounded_hours, default_hours, runtime_history_retention_hours,
}
use vexyl_guard.Runtime.Store.{
  HistoryDb, fits_integer, RuntimeRow, table, Instant, insert_or_replace, delete_expired, open_db,
  runtime_row, record_runtime_event,
}

module _ {F : Type 0} where
  abbrev pub OtherId : String → RuntimeRow F → Type 0
  OtherId id row = (id == row.event_id) ≡ false

  -- The primary key: no row has the identifier of an earlier one.
  abbrev pub UniqueIds : List (RuntimeRow F) → Type 0
  UniqueIds [] = Unit
  UniqueIds (row ∷ rows) = All (OtherId row.event_id) rows × UniqueIds rows

  abbrev pub Within : ℕ → ℕ → RuntimeRow F → Type 0
  Within seconds now row = now ≤ row.recorded_at + seconds

  keep-UniqueIds :
      (p : RuntimeRow F → Bool) (rows : List (RuntimeRow F))
      → UniqueIds rows
      → UniqueIds (keep p rows)
  unfolding keep
  keep-UniqueIds p [] h = tt
  keep-UniqueIds p (row ∷ rows) h = elim (Bool-cases (p row)) [
    | inl kept ↦ rw kept (All-keep_of _ p rows h.0, keep-UniqueIds p rows h.1)
    | inr dropped ↦ rw dropped (keep-UniqueIds p rows h.1)
  ]

  append-UniqueIds :
      (rows : List (RuntimeRow F)) (last : RuntimeRow F)
      → UniqueIds rows
      → All (λ row. OtherId row.event_id last) rows
      → UniqueIds (rows ++ last ∷ [])
  append-UniqueIds [] last h other = (tt, tt)
  append-UniqueIds (row ∷ rows) last h other = (
    All-append (OtherId row.event_id) rows (last ∷ []) h.0 (other.0, tt),
    append-UniqueIds rows last h.1 other.1,
  )

  insert_or_replace-UniqueIds :
      (row : RuntimeRow F) (rows : List (RuntimeRow F))
      → UniqueIds rows
      → UniqueIds (insert_or_replace row rows)
  unfolding insert_or_replace
  insert_or_replace-UniqueIds row rows h =
      append-UniqueIds _ row (keep-UniqueIds _ rows h)
        (All-map _ _ _ (λ r differs. ground arith) (All-keep _ rows))

  pub Memᴰ-delete_expired :
      {row : RuntimeRow F} (hours now : ℕ) (rows : List (RuntimeRow F))
      → Memᴰ row rows
      → Within (hours * 3600) now row
      → Memᴰ row (delete_expired hours now rows)
  unfolding delete_expired
  Memᴰ-delete_expired hours now rows m h = Memᴰ-keep _ rows m (ground arith)

  delete_expired-Within :
      (hours now : ℕ) (rows : List (RuntimeRow F))
      → All (Within (hours * 3600) now) (delete_expired hours now rows)
  unfolding delete_expired
  delete_expired-Within hours now rows = All-map _ _ _ (λ r recent. ground arith) (All-keep _ rows)

  pub Memᴰ-insert_or_replace :
      {a : RuntimeRow F} (row : RuntimeRow F) (rows : List (RuntimeRow F))
      → Memᴰ a rows
      → OtherId a.event_id row
      → Memᴰ a (insert_or_replace row rows)
  unfolding insert_or_replace
  Memᴰ-insert_or_replace row rows m h =
      Memᴰ.append_left (row ∷ []) (Memᴰ-keep _ rows m (ground arith))

  pub inserted :
      (row : RuntimeRow F) (rows : List (RuntimeRow F)) → Memᴰ row (insert_or_replace row rows)
  unfolding insert_or_replace
  inserted row rows = Memᴰ.append_right _ (Memᴰ.head refl)

  of_insert_or_replace :
      {a : RuntimeRow F} (row : RuntimeRow F) (rows : List (RuntimeRow F))
      → Memᴰ a (insert_or_replace row rows)
      → Memᴰ a rows ⊎ (a ≡ row)
  unfolding insert_or_replace
  of_insert_or_replace row rows m = elim (Memᴰ.append_cases _ m) [
    | inl earlier ↦ inl (Memᴰ-of_keep _ rows earlier)
    | inr last ↦ inr (Memᴰ.eq_of_singleton last)
  ]

  delete_expired-UniqueIds :
      (hours now : ℕ) (rows : List (RuntimeRow F))
      → UniqueIds rows
      → UniqueIds (delete_expired hours now rows)
  unfolding delete_expired
  delete_expired-UniqueIds hours now rows h = keep-UniqueIds _ rows h

  of_delete_expired :
      {row : RuntimeRow F} (hours now : ℕ) (rows : List (RuntimeRow F))
      → Memᴰ row (delete_expired hours now rows)
      → Memᴰ row rows
  unfolding delete_expired
  of_delete_expired hours now rows m = Memᴰ-of_keep _ rows m

module _ {F : Type 0} (py : Python F) where
  hours-le : (parsed : Option ℤ) → bounded_hours py parsed ≤ 720
  hours-le none = omega arith
  hours-le (some n) = omega arith

  retention-le : (raw : Option String) → runtime_history_retention_hours py raw ≤ 720
  unfolding runtime_history_retention_hours
  retention-le raw = hours-le (py.int_of_str (default_hours py raw))

  -- the table after a recording
  abbrev pub stored_rows :
      ℕ → Instant → RuntimeAiEvent F → RiskDecision → List (RuntimeRow F) → List (RuntimeRow F)
  stored_rows hours instant ev decision rows =
      delete_expired hours instant.deleted_at
        (insert_or_replace (runtime_row py instant ev decision) rows)

  -- A recording that returns has written its table.
  pub recorded-table :
      (hours : ℕ) (instant : Instant) (ev : RuntimeAiEvent F) (decision : RiskDecision)
      (rows : List (RuntimeRow F)) (db : HistoryDb F)
      → record_runtime_event py hours instant ev decision (table rows) ≡ returned db
      → table (stored_rows hours instant ev decision rows) ≡ db
  unfolding record_runtime_event open_db
  recorded-table hours instant ev decision rows db e =
      let (found, opened, e₁) = bind-returned _ _ _ e in
      let (u, fits, e₂) = then-returned _ _ _ e₁ in
      let (v, unfailing, e₃) = then-returned _ _ _ e₂ in
      let same : rows ≡ found = returned-inj opened in
      ap (λ r. table (stored_rows hours instant ev decision r)) same ∙ returned-inj e₃

  -- An integer that fits and a transaction that does not fail are recorded.
  recorded-returns :
      (hours : ℕ) (instant : Instant) (ev : RuntimeAiEvent F) (decision : RiskDecision)
      (rows : List (RuntimeRow F))
      → fits_integer (stored_int py ev.token_count_estimate) ≡ true
      → instant.fault ≡ none
      → record_runtime_event py hours instant ev decision (table rows)
        ≡ returned (table (stored_rows hours instant ev decision rows))
  unfolding record_runtime_event open_db ◌>>=◌ ◌>>◌ raise_if
  recorded-returns hours instant ev decision rows fits works = rw fits (rw works refl)

  -- Recording in a table with one row for an identifier succeeds, whatever the retention is set to,
  -- if the count of tokens fits SQLite's integers and SQLite does not fail. The new table has one row for an identifier as well, no row that is older than 720
  -- hours, and no row but earlier ones and that of the event. The event's row is there unless the
  -- retention has passed since its time, and so is each earlier row with another identifier and
  -- within the retention.
  pub record_runtime_event-IsRetained :
      (raw : Option String) (instant : Instant) (ev : RuntimeAiEvent F) (decision : RiskDecision)
      (rows : List (RuntimeRow F))
      → UniqueIds rows
      → fits_integer (stored_int py ev.token_count_estimate) ≡ true
      → instant.fault ≡ none
      → (stored : List (RuntimeRow F)) × (record_runtime_event py
            (runtime_history_retention_hours py raw)
            instant
            ev
            decision
            (table rows)
          ≡ returned (table stored))
        × UniqueIds stored
        × All (Within (720 * 3600) instant.deleted_at) stored
        × ((row : RuntimeRow F)
            → Memᴰ row stored
            → Memᴰ row rows ⊎ (row ≡ runtime_row py instant ev decision))
        × (Within
              (runtime_history_retention_hours py raw * 3600)
              instant.deleted_at
              (runtime_row py instant ev decision)
            → Memᴰ (runtime_row py instant ev decision) stored)
        × ((row : RuntimeRow F)
            → Memᴰ row rows
            → OtherId row.event_id (runtime_row py instant ev decision)
            → Within (runtime_history_retention_hours py raw * 3600) instant.deleted_at row
            → Memᴰ row stored)
  record_runtime_event-IsRetained raw instant ev decision rows unique fits works =
      let row = runtime_row py instant ev decision in
      let hours = runtime_history_retention_hours py raw in
      let all_rows = insert_or_replace row rows in
      (
        delete_expired hours instant.deleted_at all_rows,
        recorded-returns hours instant ev decision rows fits works,
        delete_expired-UniqueIds hours instant.deleted_at all_rows
            (insert_or_replace-UniqueIds row rows unique),
        All-map _ _ _ (λ r recent. omega (arith, retention-le raw, recent))
            (delete_expired-Within hours instant.deleted_at all_rows),
        λ r m.
            of_insert_or_replace row rows (of_delete_expired hours instant.deleted_at all_rows m),
        Memᴰ-delete_expired hours instant.deleted_at all_rows (inserted row rows),
        λ r m other.
            Memᴰ-delete_expired hours instant.deleted_at all_rows
              (Memᴰ-insert_or_replace row rows m other),
      )
