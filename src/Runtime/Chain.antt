-- ===== src/Runtime/Chain.antt =====
-- A run of `score_and_record_ai_event`: what an early event of a session does to the score of a late
-- one, if those in between have other identifiers and come within the retention.
use vexyl_guard.Prelude.{
  ℕ, ◌+◌, ◌*◌, ◌≤◌, true, false, List, [], ◌∷◌, ◌≡◌, ap, sym, ◌∙◌, subst, All, Memᴰ, keep, length,
  truthy, if◌then◌else◌, ◌==◌,
}
use vexyl_guard.Outcome.{returned, returned-inj, bind-returned}
use vexyl_guard.Python.{Python}
use vexyl_guard.Scoring.Predicates.{current_tool}
use vexyl_guard.Scoring.Accumulator.{AttackIndex}
use vexyl_guard.Scoring.Correlation.{current_high_impact}
use vexyl_guard.Scoring.Chains.{external_to_tool, memory_to_tool}
use vexyl_guard.Runtime.Flags.{flag_external, flag_memory_write}
use vexyl_guard.Runtime.Store.{
  RuntimeRow, HistoryDb, missing, unreadable, table, runtime_row, row_identifier,
}
use vexyl_guard.Runtime.Load.{selects}
use vexyl_guard.Runtime.Retention.{
  Within, stored_rows, recorded-table, Memᴰ-delete_expired, Memᴰ-insert_or_replace, inserted,
}
use vexyl_guard.Runtime.Session.{Arrival, history_for, decision_at, score_and_record, score_all}
use vexyl_guard.Runtime.Linked.{SameSession, row-loaded, item-risky, item-poisons}

abbrev rows_of : {F : Type 0} → HistoryDb F → List (RuntimeRow F)
rows_of missing = []
rows_of unreadable = []
rows_of (table rows) = rows

module _ {F : Type 0} (py : Python F) (index : AttackIndex) (hours : ℕ) where
  -- the row of an arrival that is scored against a database
  abbrev pub arrival_row : Arrival F → HistoryDb F → RuntimeRow F
  arrival_row arrival db =
      runtime_row py arrival.instant arrival.event (decision_at py index arrival db)

  -- An arrival that leaves a row in the table: it has another identifier, and comes before the
  -- retention of the row has passed.
  abbrev pub Spares : RuntimeRow F → Arrival F → Type 0
  Spares row arrival =
      ((row.event_id == row_identifier py arrival.instant arrival.event) ≡ false)
      × Within (hours * 3600) arrival.instant.deleted_at row

  -- the table after an arrival
  abbrev pub rows_after : Arrival F → List (RuntimeRow F) → List (RuntimeRow F)
  rows_after arrival rows =
      stored_rows py hours arrival.instant arrival.event (decision_at py index arrival (table rows))
        rows

  -- A run that returns has recorded its first arrival.
  score_all-first :
      (arrival : Arrival F) (later : List (Arrival F)) (rows final : List (RuntimeRow F))
      → score_all py index hours (arrival ∷ later) (table rows) ≡ returned (table final)
      → score_all py index hours later (table (rows_after arrival rows)) ≡ returned (table final)
  unfolding score_all score_and_record
  score_all-first arrival later rows final e =
      let (done, scored, e₁) = bind-returned _ _ _ e in
      let (stored, recorded, e₂) = bind-returned _ _ _ scored in
      let same = recorded-table py hours _ _ _ rows stored recorded in
      let last : stored ≡ done.1 = ap (λ d. d.1) (returned-inj e₂) in
      subst (λ db. score_all py index hours later db ≡ returned (table final)) (sym (same ∙ last))
        e₁

  score_all-keeps :
      {row : RuntimeRow F} (later : List (Arrival F)) (rows final : List (RuntimeRow F))
      → score_all py index hours later (table rows) ≡ returned (table final)
      → All (Spares row) later
      → Memᴰ row rows
      → Memᴰ row final
  unfolding score_all runtime_row
  score_all-keeps {row} [] rows final e s m =
      subst (λ found. Memᴰ row found) (ap rows_of (returned-inj e)) m
  score_all-keeps (arrival ∷ later) rows final e s m =
      score_all-keeps later (rows_after arrival rows) final
        (score_all-first arrival later rows final e) s.1
        (Memᴰ-delete_expired hours arrival.instant.deleted_at _
          (Memᴰ-insert_or_replace (arrival_row arrival (table rows)) rows m s.0.0) s.0.1)

  module _ (first : Arrival F) (later : List (Arrival F)) (rows final : List (RuntimeRow F)) where
    -- The row of the first arrival is in the final table.
    first-stored :
        score_all py index hours (first ∷ later) (table rows) ≡ returned (table final)
        → Within (hours * 3600) first.instant.deleted_at (arrival_row first (table rows))
        → All (Spares (arrival_row first (table rows))) later
        → Memᴰ (arrival_row first (table rows)) final
    first-stored e kept spared =
        score_all-keeps later (rows_after first rows) final
          (score_all-first first later rows final e) spared
          (Memᴰ-delete_expired hours first.instant.deleted_at _
            (inserted (arrival_row first (table rows)) rows) kept)

    module _ (last : Arrival F) (s : SameSession py first.event last.event)
        (e : score_all py index hours (first ∷ later) (table rows) ≡ returned (table final))
        (kept : Within (hours * 3600) first.instant.deleted_at (arrival_row first (table rows)))
        (spared : All (Spares (arrival_row first (table rows))) later)
        (recent : last.loaded_at ≤ first.instant.recorded_at + 900)
        (room : length (keep (selects py last.event 900 last.loaded_at) final) ≤ 500) where
      -- Two arrivals of one session of one tenant, the second one loading its history within 900
      -- seconds of the first one's recording, with any arrivals between them that have other
      -- identifiers and come before the retention ends, and with at most 500 rows that the query of
      -- the second selects: if the first was recorded as external and scored 50 or more, then the
      -- second, if it is a tool event, scores at least 70, and at least 85 if its action is of high
      -- impact, and the call of a named tool is denied.
      pub recorded_external_to_tool :
          flag_external py first.event ≡ true
          → 50 ≤ (decision_at py index first (table rows)).score
          → current_tool last.event ≡ true
          → ((if current_high_impact py index last.event
                  (history_for py last.event last.loaded_at (table final))
                then 85
                else 70)
              ≤ (decision_at py index last (table final)).score)
            × (truthy last.event.tool_name ≡ true
                → (decision_at py index last (table final)).deny_tool_call ≡ true)
      unfolding decision_at
      recorded_external_to_tool external risky tool =
          external_to_tool py index last.event
            (history_for py last.event last.loaded_at (table final)) tool
            (item-risky py first.event last.event s first.instant _ index _
              (row-loaded py first.event last.event s first.instant _ last.loaded_at final
                (first-stored e kept spared) recent room)
              external risky)

      -- Two arrivals as in the theorem above, of one session of one tenant, within 900 seconds,
      -- with the first one's row spared by those between and at most 500 rows to select: if the
      -- first was recorded as an external write to memory, at whatever score, then the second, if
      -- it is a tool event, scores at least 85, and the call of a named tool is denied.
      pub recorded_memory_to_tool :
          flag_external py first.event ≡ true
          → flag_memory_write py first.event ≡ true
          → current_tool last.event ≡ true
          → (85 ≤ (decision_at py index last (table final)).score)
            × (truthy last.event.tool_name ≡ true
                → (decision_at py index last (table final)).deny_tool_call ≡ true)
      unfolding decision_at
      recorded_memory_to_tool external writes tool =
          memory_to_tool py index last.event
            (history_for py last.event last.loaded_at (table final)) tool
            (item-poisons py first.event last.event s first.instant _ index _
              (row-loaded py first.event last.event s first.instant _ last.loaded_at final
                (first-stored e kept spared) recent room)
              external writes)
