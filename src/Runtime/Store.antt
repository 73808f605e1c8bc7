-- ===== src/Runtime/Store.antt =====
-- The table `runtime_events` of intel/database.py and its writers. A time is its count of seconds,
-- as `utc_now_iso` and SQLite's `datetime` cut it. A column of JSON holds what `json.loads` reads
-- from it, `none` if it is no JSON; the columns that are always NULL and `notes` are left out.
use vexyl_guard.Prelude.{
  ℕ, ◌+◌, ◌*◌, String, Bool, not, Option, none, some, List, [], ◌∷◌, ◌++◌, ℤ, pos, ltb_ℤ, map, keep,
  length, ◌==◌, ltb, if◌then◌else◌, or_empty, truthy_str,
}
use vexyl_guard.Outcome.{Outcome, raised, returned, ◌>>=◌, ◌>>◌, raise_if}
use vexyl_guard.Python.{Python, Json, Items, nil, cons, str, arr, obj}
use vexyl_guard.Models.{RuntimeAiEvent, RiskDecision}
use vexyl_guard.Runtime.Facts.{
  privacy_fingerprint, optional_fingerprint, redact_fact_label, safe_timestamp, safe_choice,
  stored_int, stored_float, stored_channels, stored_origins, stored_classes,
}
use vexyl_guard.Runtime.Flags.{runtime_event_flags}

pub record RuntimeRow (F : Type 0) : Type 0 where
  pub event_id : String
  pub event_time_utc : Option String
  pub tenant_id_hash : Option String
  pub user_id_hash : Option String
  pub session_id_hash : Option String
  pub model_provider : Option String
  pub model_name : Option String
  pub input_channel : String
  pub data_origin : String
  pub retrieved_doc_ids_json : Option (Json F)
  pub tool_name : Option String
  pub tool_action : Option String
  pub data_classification : String
  pub policy_decision : String
  pub risk_score : ℕ
  pub matched_rule_ids_json : Option (Json F)
  pub redacted_prompt_excerpt : String
  pub recorded_at : ℕ
  pub network_destination_hash : Option String
  pub content_fingerprint : Option String
  pub token_count_estimate : ℤ
  pub cost_estimate : F
  pub event_flags_json : Option (Json F)

-- The database at a path: no file, a file that is no database, or a table.
pub data HistoryDb (F : Type 0) : Type 0 where
  missing : HistoryDb F
  unreadable : HistoryDb F
  table : List (RuntimeRow F) → HistoryDb F

-- What a call of `record_runtime_event` takes from outside: the two readings of the clock, in
-- Python and then in SQLite, the name it makes for an event without one, and what SQLite raises in
-- the transaction, if it does: where the database is locked or the disk is full.
pub record Instant : Type 0 where
  pub recorded_at : ℕ
  pub deleted_at : ℕ
  pub fresh_id : String
  pub fault : Option String

-- SQLite's integers have 64 bits.
unfoldable pub fits_integer : ℤ → Bool
fits_integer n = ltb_ℤ n (pos 9223372036854775808)

abbrev pub fault_raised : Option String → Outcome (Unit {0})
fault_raised none = returned tt
fault_raised (some message) = raised message

module _ {F : Type 0} where
  unfoldable pub json_texts : List String → Items F
  json_texts [] = nil
  json_texts (s ∷ ss) = cons (str s) (json_texts ss)

  -- `INSERT OR REPLACE`, with the identifier as the primary key
  unfoldable pub insert_or_replace : RuntimeRow F → List (RuntimeRow F) → List (RuntimeRow F)
  insert_or_replace row rows = keep (λ r. not (r.event_id == row.event_id)) rows ++ row ∷ []

  -- `DELETE FROM runtime_events WHERE recorded_at_utc < now - hours`
  unfoldable pub delete_expired : ℕ → ℕ → List (RuntimeRow F) → List (RuntimeRow F)
  delete_expired hours now rows = keep (λ r. not (ltb (r.recorded_at + hours * 3600) now)) rows

  -- `init_db` and `connect`
  unfoldable pub open_db : HistoryDb F → Outcome (List (RuntimeRow F))
  open_db missing = returned []
  open_db unreadable = raised "file is not a database"
  open_db (table rows) = returned rows

  unfoldable pub purge_runtime_history : HistoryDb F → Outcome (ℕ × HistoryDb F)
  purge_runtime_history missing = returned (0, missing)
  purge_runtime_history unreadable = raised "file is not a database"
  purge_runtime_history (table rows) = returned (length rows, table [])

module _ {F : Type 0} (py : Python F) where
  unfoldable pub row_identifier : Instant → RuntimeAiEvent F → String
  row_identifier instant ev =
      privacy_fingerprint py "event"
        (if truthy_str ev.event_id then ev.event_id else instant.fresh_id)

  -- the values of the `INSERT`
  unfoldable pub runtime_row : Instant → RuntimeAiEvent F → RiskDecision → RuntimeRow F
  runtime_row instant ev decision = record {
    event_id = row_identifier instant ev;
    event_time_utc = safe_timestamp py ev.timestamp_utc;
    tenant_id_hash = optional_fingerprint py "tenant" ev.tenant_id_hash;
    user_id_hash = optional_fingerprint py "user" ev.user_id_hash;
    session_id_hash = optional_fingerprint py "session" ev.session_id_hash;
    model_provider = redact_fact_label py ev.model_provider;
    model_name = redact_fact_label py ev.model_name;
    input_channel = safe_choice py stored_channels "other" ev.input_channel;
    data_origin = safe_choice py stored_origins "unknown" ev.data_origin;
    retrieved_doc_ids_json =
        some (arr (json_texts (map (privacy_fingerprint py "document") ev.retrieved_doc_ids)));
    tool_name = redact_fact_label py ev.tool_name;
    tool_action = redact_fact_label py ev.tool_action;
    data_classification = safe_choice py stored_classes "unknown" ev.data_classification;
    policy_decision = decision.suggested_action;
    risk_score = decision.score;
    matched_rule_ids_json = some (arr (json_texts decision.matched_rules));
    redacted_prompt_excerpt = or_empty decision.redacted_excerpt;
    recorded_at = instant.recorded_at;
    network_destination_hash = optional_fingerprint py "destination" ev.network_destination;
    content_fingerprint = optional_fingerprint py "content" decision.redacted_excerpt;
    token_count_estimate = stored_int py ev.token_count_estimate;
    cost_estimate = stored_float py ev.cost_estimate;
    event_flags_json = some (obj (runtime_event_flags py ev));
  }

  -- `hours` is what `_runtime_history_retention_hours` gives.
  unfoldable pub record_runtime_event :
      ℕ → Instant → RuntimeAiEvent F → RiskDecision → HistoryDb F → Outcome (HistoryDb F)
  record_runtime_event hours instant ev decision db = do
    rows ← open_db db
    raise_if (not (fits_integer (stored_int py ev.token_count_estimate)))
        "Python int too large to convert to SQLite INTEGER"
    fault_raised instant.fault
    returned (
        table (
          delete_expired hours instant.deleted_at
            (insert_or_replace (runtime_row instant ev decision) rows)))
