-- ===== src/Scoring/Entry.antt =====
-- The entry points of intel/scoring.py that build an event from texts and dictionaries:
-- `scan_prompt`, `scan_external_content` and `evaluate_tool_call`. The loading of the history of an event is an argument,
-- and so are the identifier and the time that a new event gets. A missing dictionary is an empty one.
use vexyl_guard.Prelude.{
  String, true, Option, none, some, List, [], ◌∷◌, ◌++◌, ◌==◌, pos, if◌then◌else◌, map, strip,
  truthy_str,
}
use vexyl_guard.Python.{
  Python, Json, null, str, arr, obj, bool, Fields, field, end, get, has_key, items, keys, is_true,
  str_items, as_dict, str_or_empty, truthy_json, safe_float, safe_int,
}
use vexyl_guard.Models.{RuntimeAiEvent, RiskDecision}
use vexyl_guard.Models.Reading.{Fresh, text_or, or_else, as_text}
use vexyl_guard.Scoring.Accumulator.{AttackIndex, History}
use vexyl_guard.Scoring.Event.{score_ai_event}

-- `list(text)`
unfoldable pub letters : String → List String
letters String.[] = []
letters (String.◌∷◌ c s) = (String.◌∷◌ c String.[]) ∷ letters s

module _ {F : Type 0} where
  -- `data[key] = value`
  unfoldable pub set_key : String → Json F → Fields F → Fields F
  set_key key value end = field key value end
  set_key key value (field k v fs) =
      if k == key then field k value fs else field k v (set_key key value fs)

module _ {F : Type 0} (py : Python F) where
  unfoldable pub optional_string : Json F → Option String
  optional_string null = none
  optional_string v = let text = strip (py.str_of v) in if truthy_str text then some text else none

  unfoldable pub string_list : Json F → List String
  string_list null = []
  string_list (str s) = s ∷ []
  string_list (arr vs) = str_items py (items vs)
  string_list v = py.str_of v ∷ []

  -- `[str(item) for item in value]`; `none` stands for the `TypeError` on what is no sequence
  unfoldable pub str_of_each : Json F → Option (List String)
  str_of_each (str s) = some (letters s)
  str_of_each (arr vs) = some (map py.str_of (items vs))
  str_of_each (obj fs) = some (keys fs)
  str_of_each v = none

  -- the iteration over `metadata.get("retrieved_doc_ids", [])`
  unfoldable pub retrieved_doc_ids_of : Fields F → Option (List String)
  retrieved_doc_ids_of metadata =
      if has_key "retrieved_doc_ids" metadata
      then str_of_each (get "retrieved_doc_ids" metadata)
      else some []

  unfoldable pub external_mitigations : Fields F → List String
  external_mitigations metadata =
      string_list (get "verified_mitigations" metadata)
      ++ (if is_true (get "signed_trusted_corpus" metadata)
          then "signed_trusted_corpus" ∷ []
          else [])

  -- `json.dumps(args)` of the call's arguments, or its description where there are none
  unfoldable pub argument_text : Fields F → String
  argument_text tool_call = elim (as_dict (get "args" tool_call)) [
    | end ↦ str_or_empty py (get "description" tool_call)
    | field k v fs ↦ py.dumps (obj (field k v fs))
  ]

  -- `str(tool_call.get(key) or tool_call.get(other) or "")`
  unfoldable pub call_part : String → String → Fields F → String
  call_part key other tool_call =
      str_or_empty py (or_else py (get key tool_call) (get other tool_call))

  -- `first.get(key) or second.get(key)`
  unfoldable pub either : String → Fields F → Fields F → Json F
  either key first second = or_else py (get key first) (get key second)

  unfoldable pub destination_text : Json F → Option String
  destination_text value = if truthy_json py value then some (as_text py value) else none

  module _ (fresh : Fresh) where
    -- the event of `scan_prompt`
    unfoldable pub prompt_scan : String → Fields F → RuntimeAiEvent F
    prompt_scan text ctx = record {
      event_id = fresh.event_id;
      timestamp_utc = fresh.timestamp_utc;
      tenant_id = optional_string (get "tenant_id" ctx);
      tenant_id_hash = optional_string (get "tenant_id_hash" ctx);
      user_id_hash = optional_string (get "user_id_hash" ctx);
      session_id_hash = optional_string (get "session_id_hash" ctx);
      model_provider = optional_string (get "model_provider" ctx);
      model_name = optional_string (get "model_name" ctx);
      input_channel = text_or py "chat" (get "input_channel" ctx);
      data_origin = text_or py "user" (get "data_origin" ctx);
      text_excerpt_redacted = some text;
      full_text_ref = none;
      retrieved_doc_ids = [];
      tool_name = none;
      tool_action = none;
      tool_permissions = [];
      data_classification = text_or py "unknown" (get "data_classification" ctx);
      planned_actions = [];
      network_destination = none;
      cost_estimate = py.float_of_int (pos 0);
      token_count_estimate = pos 0;
      verified_mitigations = string_list (get "verified_mitigations" ctx);
      context = ctx;
    }

    -- the event of `scan_external_content`, with the identifiers of the retrieved documents
    unfoldable pub external_scan : String → Fields F → List String → RuntimeAiEvent F
    external_scan text metadata documents = record {
      event_id = fresh.event_id;
      timestamp_utc = fresh.timestamp_utc;
      tenant_id = optional_string (get "tenant_id" metadata);
      tenant_id_hash = optional_string (get "tenant_id_hash" metadata);
      user_id_hash = optional_string (get "user_id_hash" metadata);
      session_id_hash = optional_string (get "session_id_hash" metadata);
      model_provider = optional_string (get "model_provider" metadata);
      model_name = optional_string (get "model_name" metadata);
      input_channel = text_or py "rag" (get "input_channel" metadata);
      data_origin = "retrieved_external";
      text_excerpt_redacted = some text;
      full_text_ref = none;
      retrieved_doc_ids = documents;
      tool_name = none;
      tool_action = none;
      tool_permissions = [];
      data_classification = text_or py "unknown" (get "data_classification" metadata);
      planned_actions = [];
      network_destination = none;
      cost_estimate = py.float_of_int (pos 0);
      token_count_estimate = pos 0;
      verified_mitigations = external_mitigations metadata;
      context = set_key "external_content_forced_untrusted" (bool true) metadata;
    }

    -- the event of `evaluate_tool_call`; the scoring asks a destination only whether it is truthy
    unfoldable pub tool_call_scan : Fields F → Fields F → RuntimeAiEvent F
    tool_call_scan tool_call context = record {
      event_id = fresh.event_id;
      timestamp_utc = fresh.timestamp_utc;
      tenant_id = optional_string (get "tenant_id" context);
      tenant_id_hash = optional_string (get "tenant_id_hash" context);
      user_id_hash = optional_string (get "user_id_hash" context);
      session_id_hash = optional_string (get "session_id_hash" context);
      model_provider = optional_string (get "model_provider" context);
      model_name = optional_string (get "model_name" context);
      input_channel = "tool";
      data_origin = text_or py "tool_output" (get "data_origin" context);
      text_excerpt_redacted = some (argument_text tool_call);
      full_text_ref = none;
      retrieved_doc_ids = [];
      tool_name = some (call_part "name" "tool_name" tool_call);
      tool_action = some (call_part "action" "tool_action" tool_call);
      tool_permissions = string_list (get "permissions" tool_call);
      data_classification = text_or py "unknown" (either "data_classification" context tool_call);
      planned_actions = [];
      network_destination = destination_text (either "network_destination" tool_call context);
      cost_estimate = safe_float py (either "cost_estimate" context tool_call);
      token_count_estimate = safe_int py (either "token_count_estimate" context tool_call);
      verified_mitigations = string_list (get "verified_mitigations" context);
      context = set_key "tool_call" (obj tool_call) context;
    }

    module _ (index : AttackIndex) (load : RuntimeAiEvent F → History (Fields F)) where
      unfoldable pub scan_prompt : String → Fields F → RiskDecision
      scan_prompt text ctx =
          let event = prompt_scan text ctx in score_ai_event py index event (load event)

      -- `none` stands for a `TypeError`.
      unfoldable pub scan_external_content : String → Fields F → Option RiskDecision
      scan_external_content text metadata = elim (retrieved_doc_ids_of metadata) [
        | none ↦ none
        | some documents ↦
            let event = external_scan text metadata documents in
            some (score_ai_event py index event (load event))
      ]

      unfoldable pub evaluate_tool_call : Fields F → Fields F → RiskDecision
      evaluate_tool_call tool_call context =
          let event = tool_call_scan tool_call context in score_ai_event py index event (load event)
