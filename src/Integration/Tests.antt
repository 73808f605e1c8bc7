-- ===== src/Integration/Tests.antt =====
-- A tool call, from its builder to the decision.
use vexyl_guard.Prelude.{ℕ, String, false, none, some, List, [], ◌∷◌, ◌≡◌, ◌≢◌, refl, arith}
use vexyl_guard.Outcome.{returned, ◌>>=◌, ◌>>◌, raise_if}
use vexyl_guard.Python.{Fields}
use vexyl_guard.Models.{RuntimeAiEvent}
use vexyl_guard.Models.Reading.{
  Fresh, text_of, as_text, text_or, or_else, texts, string_list_value, float_value, int_value,
  from_dict, text_json, text_items,
}
use vexyl_guard.Gateway.{decision_policy_exit_code}
use vexyl_guard.Scoring.Event.{score_ai_event}
use vexyl_guard.Scoring.Run.{scoring, plain, index, quiet}
use vexyl_guard.Integration.Validators.{
  is_hex, all_chars, utc_offset, for_each, check_text, is_opaque_hash, is_item, within,
  optional_string, opaque_hash, enum_value, list_item, string_list, bounded_integer, is_flag,
  boolean_value, unknown_keys, scope_value, number_value, validate_timestamp,
  validate_context_fields, validate_context, validate_identity, validate_content, validate_surface,
  validate_gateway_event,
}
use vexyl_guard.Integration.Accepted.{IsAccepted}
use vexyl_guard.Integration.Validation.{validate_gateway_event-IsAccepted}
use vexyl_guard.Integration.Events.{
  Identifiers, ToolCall, texts_json, given, identifier_fields, authorization_context, event_dict,
  tool_values, checked_event, tool_call_event,
}
use vexyl_guard.Integration.Granted.{IsGranted, tool_call-IsGranted}

unfoldable pub validation : Unit {0}
unfolding scoring is_hex all_chars utc_offset for_each check_text is_opaque_hash is_item within
    optional_string opaque_hash enum_value list_item string_list bounded_integer is_flag
    boolean_value unknown_keys scope_value number_value validate_timestamp validate_context_fields
    validate_context validate_identity validate_content validate_surface validate_gateway_event
    texts_json given identifier_fields authorization_context event_dict tool_values checked_event
    tool_call_event text_of as_text text_or or_else texts string_list_value text_json text_items
    ◌>>=◌ ◌>>◌ raise_if
validation = tt

unfoldable reading : Unit {0}
unfolding validation float_value int_value from_dict
reading = tt

abbrev pub first_of : List String → String
first_of names = "a field"

abbrev pub fresh : Fresh
fresh = record { event_id = "e1"; timestamp_utc = "2026-07-20T00:00:00Z" }

abbrev ids : Identifiers
ids = record { tenant_id_hash = none; user_id_hash = none; session_id_hash = some "s1" }

abbrev lookup : ToolCall
lookup = record {
  tool_name = "docs";
  tool_action = "lookup";
  permissions = [];
  authority = record {
    allowed_tools = "docs" ∷ [];
    user_allowed_actions = "lookup" ∷ [];
    policy_allowed_actions = "lookup" ∷ [];
    human_approval = false;
  };
  verified_mitigations = [];
  data_origin = "internal_db";
  data_classification = "public";
  network_destination = none;
  irreversible = false;
}

abbrev pub fields : Fields ℕ
fields = event_dict "tool" "internal_db" "a lookup" (tool_values lookup) ids

abbrev lookup_event : RuntimeAiEvent ℕ
lookup_event = from_dict plain fresh fields

lookup_built : tool_call_event plain first_of fresh "a lookup" lookup ids ≡ returned fields
unfolding validation
lookup_built = refl

lookup_valid : validate_gateway_event plain first_of fresh fields ≡ returned lookup_event
unfolding validation
lookup_valid = refl

lookup_exit : decision_policy_exit_code (score_ai_event plain index lookup_event quiet) ≡ 0
unfolding reading
lookup_exit = refl

lookup_passes : decision_policy_exit_code (score_ai_event plain index lookup_event quiet) ≢ 4
lookup_passes e = ground (arith, lookup_exit)

validate_gateway_event-IsAccepted_example :
    (lookup_event ≡ from_dict plain fresh fields) × IsAccepted plain fresh lookup_event
validate_gateway_event-IsAccepted_example =
    validate_gateway_event-IsAccepted plain first_of fresh fields lookup_event lookup_valid

tool_call-IsGranted_example : IsGranted plain lookup
tool_call-IsGranted_example =
    tool_call-IsGranted plain (λ s. refl) index fresh "a lookup" lookup ids first_of fresh fields
      lookup_event quiet lookup_built lookup_valid lookup_passes
