-- ===== src/Models/Reading.antt =====
-- `RuntimeAIEvent.from_dict` and `to_dict` of intel/models.py. A field that is declared a text takes
-- whatever the dictionary holds in Python; here what is no text is read as `None`, which makes no
-- difference on an event that was validated.
use vexyl_guard.Prelude.{String, Option, none, some, List, [], ◌∷◌, ℤ, pos, if◌then◌else◌}
use vexyl_guard.Python.{
  Python, Json, null, bool, int, float, str, arr, obj, Items, nil, cons, Fields, field, end, get,
  items, as_dict, truthy_json,
}
use vexyl_guard.Models.{RuntimeAiEvent}

-- What `uuid4` and `utc_now_iso` give.
pub record Fresh : Type 0 where
  pub event_id : String
  pub timestamp_utc : String

module _ {F : Type 0} where
  unfoldable pub text_of : Json F → Option String
  text_of (str s) = some s
  text_of v = none

module _ {F : Type 0} (py : Python F) where
  -- `str(value)`, which leaves a text as it is
  unfoldable pub as_text : Json F → String
  as_text (str s) = s
  as_text v = py.str_of v

  -- `str(value or fallback)`
  unfoldable pub text_or : String → Json F → String
  text_or fallback v = if truthy_json py v then as_text v else fallback

  -- `a or b`
  unfoldable pub or_else : Json F → Json F → Json F
  or_else a b = if truthy_json py a then a else b

  unfoldable pub texts : List (Json F) → List String
  texts [] = []
  texts (null ∷ vs) = texts vs
  texts (v ∷ vs) = as_text v ∷ texts vs

  unfoldable pub string_list_value : Json F → List String
  string_list_value null = []
  string_list_value (str s) = s ∷ []
  string_list_value (arr vs) = texts (items vs)
  string_list_value v = py.str_of v ∷ []

  abbrev parsed_float : Option F → F
  parsed_float none = py.float_of_int (pos 0)
  parsed_float (some f) = f

  -- `_float_value` and `_int_value`, whose fallbacks are zero
  unfoldable pub float_value : Json F → F
  float_value null = py.float_of_int (pos 0)
  float_value (bool b) = py.float_of_int (if b then pos 1 else pos 0)
  float_value (int n) = py.float_of_int n
  float_value (float f) = f
  float_value (str s) = parsed_float (py.float_of_str s)
  float_value v = py.float_of_int (pos 0)

  abbrev parsed_int : Option ℤ → ℤ
  parsed_int none = pos 0
  parsed_int (some n) = n

  unfoldable pub int_value : Json F → ℤ
  int_value null = pos 0
  int_value (bool b) = if b then pos 1 else pos 0
  int_value (int n) = n
  int_value (float f) = parsed_int (py.int_of_float f)
  int_value (str s) = parsed_int (py.int_of_str s)
  int_value v = pos 0

  unfoldable pub from_dict : Fresh → Fields F → RuntimeAiEvent F
  from_dict fresh fields = record {
    event_id = text_or fresh.event_id (get "event_id" fields);
    timestamp_utc =
        text_or fresh.timestamp_utc
          (or_else (get "timestamp_utc" fields) (get "event_time_utc" fields));
    tenant_id = text_of (get "tenant_id" fields);
    tenant_id_hash = text_of (get "tenant_id_hash" fields);
    user_id_hash = text_of (get "user_id_hash" fields);
    session_id_hash = text_of (get "session_id_hash" fields);
    model_provider = text_of (get "model_provider" fields);
    model_name = text_of (get "model_name" fields);
    input_channel = text_or "other" (get "input_channel" fields);
    data_origin = text_or "unknown" (get "data_origin" fields);
    text_excerpt_redacted = text_of (
        or_else (or_else (get "text_excerpt_redacted" fields) (get "text" fields))
          (get "prompt" fields));
    full_text_ref = text_of (get "full_text_ref" fields);
    retrieved_doc_ids = string_list_value (get "retrieved_doc_ids" fields);
    tool_name = text_of (get "tool_name" fields);
    tool_action = text_of (get "tool_action" fields);
    tool_permissions = string_list_value (get "tool_permissions" fields);
    data_classification = text_or "unknown" (get "data_classification" fields);
    planned_actions = string_list_value (get "planned_actions" fields);
    network_destination = text_of (get "network_destination" fields);
    cost_estimate = float_value (get "cost_estimate" fields);
    token_count_estimate = int_value (get "token_count_estimate" fields);
    verified_mitigations =
        string_list_value (or_else (get "verified_mitigations" fields) (get "mitigations" fields));
    context = as_dict (get "context" fields);
  }

module _ {F : Type 0} where
  unfoldable pub text_json : Option String → Json F
  text_json none = null
  text_json (some s) = str s

  unfoldable pub text_items : List String → Items F
  text_items [] = nil
  text_items (s ∷ ss) = cons (str s) (text_items ss)

  -- `asdict(self)`
  unfoldable pub to_dict : RuntimeAiEvent F → Fields F
  to_dict ev = field "event_id" (str ev.event_id) (
      field "timestamp_utc" (str ev.timestamp_utc) (
        field "tenant_id" (text_json ev.tenant_id) (
          field "tenant_id_hash" (text_json ev.tenant_id_hash) (
            field "user_id_hash" (text_json ev.user_id_hash) (
              field "session_id_hash" (text_json ev.session_id_hash) (
                field "model_provider" (text_json ev.model_provider) (
                  field "model_name" (text_json ev.model_name) (
                    field "input_channel" (str ev.input_channel)
                      (field "data_origin" (str ev.data_origin) (from_excerpt ev))))))))))
    where
      from_classes : RuntimeAiEvent F → Fields F
      from_classes ev = field "data_classification" (str ev.data_classification) (
          field "planned_actions" (arr (text_items ev.planned_actions)) (
            field "network_destination" (text_json ev.network_destination) (
              field "cost_estimate" (float ev.cost_estimate) (
                field "token_count_estimate" (int ev.token_count_estimate) (
                  field "verified_mitigations" (arr (text_items ev.verified_mitigations))
                    (field "context" (obj ev.context) end))))))

      from_excerpt : RuntimeAiEvent F → Fields F
      from_excerpt ev = field "text_excerpt_redacted" (text_json ev.text_excerpt_redacted) (
          field "full_text_ref" (text_json ev.full_text_ref) (
            field "retrieved_doc_ids" (arr (text_items ev.retrieved_doc_ids)) (
              field "tool_name" (text_json ev.tool_name) (
                field "tool_action" (text_json ev.tool_action) (
                  field "tool_permissions" (arr (text_items ev.tool_permissions))
                    (from_classes ev))))))
