-- ===== src/Runtime/Load.antt =====
-- `load_runtime_history` and `runtime_history_status` of intel/database.py. Rows of the same second
-- keep the order of the table, which SQL leaves open.
use vexyl_guard.Prelude.{
  ℕ, zero, suc, ◌+◌, min, max, String, Bool, true, false, ◌&&◌, ◌||◌, Option, none, some, List, [],
  ◌∷◌, ℤ, pos, pos_part, map, keep, length, ◌==◌, ltb, leb, if◌then◌else◌,
}
use vexyl_guard.Outcome.{Outcome, raised, returned}
use vexyl_guard.Python.{Python, Json, null, bool, int, float, str, obj, Fields, field, end, as_dict}
use vexyl_guard.Models.{RuntimeAiEvent}
use vexyl_guard.Scoring.Accumulator.{History}
use vexyl_guard.Runtime.Facts.{optional_fingerprint, runtime_history_retention_hours}
use vexyl_guard.Runtime.Store.{RuntimeRow, HistoryDb, missing, unreadable, table}

-- `column = ?`, which NULL does not satisfy
unfoldable pub column_equals : Option String → Option String → Bool
column_equals column none = false
column_equals none (some value) = false
column_equals (some stored) (some value) = stored == value

unfoldable pub take_items {ℓ} : {A : Type ℓ} → ℕ → List A → List A
take_items zero xs = []
take_items (suc n) [] = []
take_items (suc n) (x ∷ xs) = x ∷ take_items n xs

module _ {F : Type 0} where
  -- `tenant_id_hash = ?` or `tenant_id_hash IS NULL`
  unfoldable pub same_tenant : Option String → RuntimeRow F → Bool
  same_tenant none row = elim row.tenant_id_hash [ none ↦ true | some stored ↦ false ]
  same_tenant (some tenant) row = column_equals row.tenant_id_hash (some tenant)

  -- `ORDER BY datetime(recorded_at_utc) DESC`, by insertion
  unfoldable pub insert_newest : RuntimeRow F → List (RuntimeRow F) → List (RuntimeRow F)
  insert_newest row [] = row ∷ []
  insert_newest row (r ∷ rows) =
      let rest = insert_newest row rows in
      if ltb row.recorded_at r.recorded_at then r ∷ rest else row ∷ r ∷ rows

  unfoldable pub newest_first : List (RuntimeRow F) → List (RuntimeRow F)
  newest_first [] = []
  newest_first (row ∷ rows) = insert_newest row (newest_first rows)

  unfoldable pub text_value : Option String → Json F
  text_value none = null
  text_value (some text) = str text

  -- `json.loads(text or "{}")` if it gives a dictionary, and `{}` otherwise
  unfoldable pub stored_flags : Option (Json F) → Fields F
  stored_flags none = end
  stored_flags (some value) = as_dict value

unfoldable pub bounded_window : ℤ → ℕ
bounded_window window = max 60 (min 86400 (pos_part window))

unfoldable pub bounded_limit : ℤ → ℕ
bounded_limit limit = max 1 (min 2000 (pos_part limit))

module _ {F : Type 0} (py : Python F) (ev : RuntimeAiEvent F) where
  unfoldable pub event_tenant : Option String
  event_tenant = optional_fingerprint py "tenant" ev.tenant_id_hash

  unfoldable pub event_session : Option String
  event_session = optional_fingerprint py "session" ev.session_id_hash

  unfoldable pub event_user : Option String
  event_user = optional_fingerprint py "user" ev.user_id_hash

  -- the `WHERE` clause
  unfoldable pub selects : ℕ → ℕ → RuntimeRow F → Bool
  selects window now row =
      leb now (row.recorded_at + window)
      && same_tenant event_tenant row
      && (column_equals row.session_id_hash event_session
          || column_equals row.user_id_hash event_user)

  unfoldable pub selected_rows : ℕ → ℕ → ℕ → List (RuntimeRow F) → List (RuntimeRow F)
  selected_rows window limit now rows =
      take_items limit (newest_first (keep (selects window now) rows))

  unfoldable pub history_item : RuntimeRow F → Fields F
  history_item row = field "event_id" (str row.event_id) (
      field "recorded_at_utc" (str (py.iso_utc row.recorded_at)) (
        field "tenant_id_hash" (text_value row.tenant_id_hash) (
          field "user_id_hash" (text_value row.user_id_hash) (
            field "session_id_hash" (text_value row.session_id_hash) (
              field "model_provider" (text_value row.model_provider) (
                field "model_name" (text_value row.model_name) (
                  field "input_channel" (str row.input_channel)
                    (field "data_origin" (str row.data_origin) (more row)))))))))
    where
      last : RuntimeRow F → Fields F
      last row = field "flags" (obj (stored_flags row.event_flags_json)) (
          field "same_session" (bool (column_equals row.session_id_hash event_session))
            (field "same_user" (bool (column_equals row.user_id_hash event_user)) end))

      more : RuntimeRow F → Fields F
      more row = field "tool_name" (text_value row.tool_name) (
          field "tool_action" (text_value row.tool_action) (
            field "data_classification" (str row.data_classification) (
              field "risk_score" (int (pos row.risk_score)) (
                field "content_fingerprint" (text_value row.content_fingerprint) (
                  field "token_count_estimate" (int row.token_count_estimate)
                    (field "cost_estimate" (float row.cost_estimate) (last row)))))))

  abbrev pub no_events : Option String → ℤ → History (Fields F)
  no_events scope window = record { scope = scope; window_seconds = window; events = [] }

  -- the rest of the function, once the scope is known
  unfoldable pub load_scoped : String → HistoryDb F → ℕ → ℕ → ℕ → History (Fields F)
  load_scoped scope (table rows) window limit now = record {
    scope = some scope;
    window_seconds = pos window;
    events = map history_item (selected_rows window limit now rows);
  }
  load_scoped scope db window limit now = no_events (some scope) (pos window)

  abbrev pub scope_for : Option String → Option String → Option String
  scope_for (some session) user = some "session"
  scope_for none (some user) = some "user"
  scope_for none none = none

  -- `if not identity_clauses` and what follows
  unfoldable pub load_for : Option String → HistoryDb F → ℤ → ℤ → ℕ → History (Fields F)
  load_for none db window limit now = no_events none window
  load_for (some scope) db window limit now =
      load_scoped scope db (bounded_window window) (bounded_limit limit) now

  unfoldable pub load_runtime_history : HistoryDb F → ℤ → ℤ → ℕ → History (Fields F)
  load_runtime_history missing window limit now = no_events none window
  load_runtime_history db window limit now =
      load_for (scope_for event_session event_user) db window limit now

pub record HistoryStatus : Type 0 where
  pub exists : Bool
  pub retention_hours : ℕ
  pub event_count : ℕ
  pub high_risk_event_count : ℕ
  pub oldest_recorded_at : Option ℕ
  pub newest_recorded_at : Option ℕ

-- `MIN` and `MAX` of a column, NULL for no rows; `pick` takes the one of two.
unfoldable pub fold_times : {F : Type 0} → (ℕ → ℕ → ℕ) → List (RuntimeRow F) → Option ℕ
fold_times pick [] = none
fold_times pick (row ∷ rows) = elim (fold_times pick rows) [
  | none ↦ some row.recorded_at
  | some other ↦ some (pick row.recorded_at other)
]

module _ {F : Type 0} (py : Python F) (raw_hours : Option String) where
  unfoldable pub runtime_history_status : HistoryDb F → Outcome HistoryStatus
  runtime_history_status missing = returned (record {
    exists = false;
    retention_hours = runtime_history_retention_hours py raw_hours;
    event_count = 0;
    high_risk_event_count = 0;
    oldest_recorded_at = none;
    newest_recorded_at = none;
  })
  runtime_history_status unreadable = raised "file is not a database"
  runtime_history_status (table rows) = returned (record {
    exists = true;
    retention_hours = runtime_history_retention_hours py raw_hours;
    event_count = length rows;
    high_risk_event_count = length (keep (λ row. leb 70 row.risk_score) rows);
    oldest_recorded_at = fold_times min rows;
    newest_recorded_at = fold_times max rows;
  })
