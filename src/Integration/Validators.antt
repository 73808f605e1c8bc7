-- ===== src/Integration/Validators.antt =====
-- The checks of intel/integration.py on an event's dictionary. An error is the text of a
-- `GatewayEventError`, but for the one of `number_value` that Python's `float` raises.
use Prim.Native.String
use vexyl_guard.Prelude.{
  ℕ, String, Char, Bool, true, false, not, ◌&&◌, ◌||◌, Option, none, some, List, [], ◌∷◌, ℤ, pos,
  code, count, keep, length, ltb, leb, leb_ℤ, nat_eq, if◌then◌else◌, member, is_empty, strip,
  truthy_str,
}
use vexyl_guard.Outcome.{Outcome, raised, returned, ◌>>◌, raise_if, overflow_message}
use vexyl_guard.Python.{
  Python, Json, null, bool, int, float, str, arr, obj, Fields, get, has_key, items, keys,
}
use vexyl_guard.Models.{RuntimeAiEvent}
use vexyl_guard.Models.Reading.{Fresh, from_dict}
use vexyl_guard.Integration.{
  allowed_event_fields, boolean_context_fields, integer_context_fields, string_context_fields,
  allowed_context_fields, allowed_input_channels, allowed_data_origins,
  allowed_data_classifications,
}

-- `[0-9a-f]`
unfoldable pub is_hex : Char → Bool
is_hex c = let n = code c in leb b'0' n && leb n b'9' || leb b'a' n && leb n b'f'

unfoldable pub all_chars : (Char → Bool) → String → Bool
all_chars p String.[] = true
all_chars p (String.◌∷◌ c s) = p c && all_chars p s

-- `value.replace("Z", "+00:00")`
unfoldable pub utc_offset : String → String
utc_offset String.[] = ""
utc_offset (String.◌∷◌ c s) =
    let rest = utc_offset s in
    if nat_eq (code c) b'Z' then String.◌++◌ "+00:00" rest else String.◌∷◌ c rest

-- `for item in items: check(item)`
unfoldable pub for_each {ℓ} : {A : Type ℓ} → (A → Outcome (Unit {0})) → List A → Outcome (Unit {0})
for_each check [] = returned tt
for_each check (x ∷ xs) = check x >> for_each check xs

unfoldable pub is_opaque_hash : String → Bool
is_opaque_hash s = nat_eq (count s) 64 && all_chars is_hex s

-- the condition on an item of a list
unfoldable pub is_item : ℕ → String → Bool
is_item maximum s = truthy_str (strip s) && leb (count s) maximum

unfoldable pub within : ℤ → ℤ → Bool
within maximum n = leb_ℤ (pos 0) n && leb_ℤ n maximum

-- A check of a value has a name for the code's function, which takes the value of a key.
module _ {F : Type 0} where
  unfoldable pub opaque_hash : String → Json F → Outcome (Unit {0})
  opaque_hash key null = returned tt
  opaque_hash key (str s) =
      raise_if (not (is_opaque_hash s))
        (String.◌++◌ key " must be a lowercase 64-character HMAC-SHA256 value")
  opaque_hash key v = raised (String.◌++◌ key " must be a lowercase 64-character HMAC-SHA256 value")

  unfoldable pub enum_value : String → List String → Json F → Outcome (Unit {0})
  enum_value key allowed null = returned tt
  enum_value key allowed (str s) =
      raise_if (not (member s allowed)) (String.◌++◌ key " contains an unsupported value")
  enum_value key allowed v = raised (String.◌++◌ key " contains an unsupported value")

  unfoldable pub list_item : String → ℕ → Json F → Outcome (Unit {0})
  list_item key maximum (str s) =
      raise_if (not (is_item maximum s)) (String.◌++◌ key " contains an invalid item")
  list_item key maximum v = raised (String.◌++◌ key " contains an invalid item")

  unfoldable pub string_list : String → ℕ → ℕ → Json F → Outcome (Unit {0})
  string_list key most maximum null = returned tt
  string_list key most maximum (arr vs) = do
    raise_if (ltb most (length (items vs))) (String.◌++◌ key " must be a bounded JSON string array")
    for_each (list_item key maximum) (items vs)
  string_list key most maximum v = raised (String.◌++◌ key " must be a bounded JSON string array")

  unfoldable pub bounded_integer : String → ℤ → Json F → Outcome (Unit {0})
  bounded_integer key maximum null = returned tt
  bounded_integer key maximum (int n) =
      raise_if (not (within maximum n)) (String.◌++◌ key " is outside the accepted range")
  bounded_integer key maximum v = raised (String.◌++◌ key " must be an integer")

  -- `key in value and not isinstance(value[key], bool)`
  unfoldable pub is_flag : Json F → Bool
  is_flag (bool b) = true
  is_flag v = false

  unfoldable pub boolean_value : Fields F → String → Outcome (Unit {0})
  boolean_value fields key =
      raise_if (has_key key fields && not (is_flag (get key fields)))
        (String.◌++◌ key " must be a boolean")

  unfoldable pub unknown_keys : List String → Fields F → List String
  unknown_keys allowed fields = keep (λ key. not (member key allowed)) (keys fields)

  unfoldable pub scope_value : String → Json F → Outcome (Unit {0})
  scope_value key null = returned tt
  scope_value key (obj scope) = do
    raise_if (not (is_empty (unknown_keys ("allowed_actions" ∷ []) scope)))
        (String.◌++◌ key " must contain only allowed_actions")
    string_list "allowed_actions" 64 512 (get "allowed_actions" scope)
  scope_value key v = raised (String.◌++◌ key " must contain only allowed_actions")

module _ {F : Type 0} (py : Python F) where
  unfoldable pub check_text : String → ℕ → String → Outcome (Unit {0})
  check_text key maximum s = do
    raise_if (not (truthy_str (strip s))) (String.◌++◌ key " must be a non-empty string")
    raise_if (ltb maximum (count s)) (
        String.◌++◌ key
          (String.◌++◌ " exceeds " (String.◌++◌ (py.str_of (int (pos maximum))) " characters")))

  unfoldable pub optional_string : String → ℕ → Json F → Outcome (Unit {0})
  optional_string key maximum null = returned tt
  optional_string key maximum (str s) = check_text key maximum s
  optional_string key maximum v = raised (String.◌++◌ key " must be a non-empty string")

  -- The range is from 0 to 1,000,000 at both calls.
  unfoldable pub number_value : String → Json F → Outcome (Unit {0})
  number_value key null = returned tt
  number_value key (int n) = do
    raise_if (not (py.fits_float n)) overflow_message
    raise_if (not (py.is_finite (py.float_of_int n) && within (pos 1000000) n))
        (String.◌++◌ key " is outside the accepted range")
  number_value key (float f) =
      raise_if
        (not (
          py.is_finite f
          && (py.leb_float (py.float_of_int (pos 0)) f
              && py.leb_float f (py.float_of_int (pos 1000000)))))
        (String.◌++◌ key " is outside the accepted range")
  number_value key v = raised (String.◌++◌ key " must be numeric")

  abbrev pub check_timezone : Option Bool → Outcome (Unit {0})
  check_timezone none = raised "timestamp_utc must be an ISO-8601 string"
  check_timezone (some zone) = raise_if (not zone) "timestamp_utc must include a timezone"

  unfoldable pub validate_timestamp : Json F → Outcome (Unit {0})
  validate_timestamp null = returned tt
  validate_timestamp (str s) = do
    raise_if (ltb 40 (count s)) "timestamp_utc must be an ISO-8601 string"
    check_timezone (py.iso_timezone (utc_offset s))
  validate_timestamp v = raised "timestamp_utc must be an ISO-8601 string"

  -- `first_sorted` is the first text of a sorted list. The order in which a set is gone through
  -- is left open in Python, and is the one of the source here.
  module _ (first_sorted : List String → String) where
    unfoldable pub validate_context_fields : Fields F → Outcome (Unit {0})
    validate_context_fields fields = do
      raise_if (not (is_empty (unknown_keys allowed_context_fields fields))) (
          String.◌++◌ "unsupported context field: "
            (first_sorted (unknown_keys allowed_context_fields fields)))
      string_list "allowed_tools" 64 256 (get "allowed_tools" fields)
      scope_value "user_scope" (get "user_scope" fields)
      scope_value "tool_policy" (get "tool_policy" fields)
      for_each (boolean_value fields) boolean_context_fields
      for_each (λ key. bounded_integer key (pos 2000000000) (get key fields)) integer_context_fields
      number_value "runtime_cost_budget" (get "runtime_cost_budget" fields)
      for_each (λ key. optional_string key 256 (get key fields)) string_context_fields

    unfoldable pub validate_context : Json F → Outcome (Unit {0})
    validate_context null = returned tt
    validate_context (obj fields) = validate_context_fields fields
    validate_context v = raised "context must be a JSON object"

    -- the checks up to the lists, and the rest
    unfoldable pub validate_identity : Fields F → Outcome (Unit {0})
    validate_identity fields = do
      raise_if (not (is_empty (unknown_keys allowed_event_fields fields))) (
          String.◌++◌ "unsupported event field: "
            (first_sorted (unknown_keys allowed_event_fields fields)))
      optional_string "event_id" 128 (get "event_id" fields)
      validate_timestamp (get "timestamp_utc" fields)
      opaque_hash "tenant_id_hash" (get "tenant_id_hash" fields)
      optional_string "user_id_hash" 256 (get "user_id_hash" fields)
      optional_string "session_id_hash" 256 (get "session_id_hash" fields)
      optional_string "model_provider" 128 (get "model_provider" fields)
      optional_string "model_name" 128 (get "model_name" fields)

    unfoldable pub validate_content : Fields F → Outcome (Unit {0})
    validate_content fields = do
      enum_value "input_channel" allowed_input_channels (get "input_channel" fields)
      enum_value "data_origin" allowed_data_origins (get "data_origin" fields)
      optional_string "text_excerpt_redacted" 2048 (get "text_excerpt_redacted" fields)
      string_list "retrieved_doc_ids" 64 256 (get "retrieved_doc_ids" fields)
      optional_string "tool_name" 256 (get "tool_name" fields)
      optional_string "tool_action" 512 (get "tool_action" fields)
      string_list "tool_permissions" 32 128 (get "tool_permissions" fields)
      enum_value "data_classification" allowed_data_classifications
          (get "data_classification" fields)

    unfoldable pub validate_surface : Fields F → Outcome (Unit {0})
    validate_surface fields = do
      string_list "planned_actions" 64 512 (get "planned_actions" fields)
      optional_string "network_destination" 512 (get "network_destination" fields)
      number_value "cost_estimate" (get "cost_estimate" fields)
      bounded_integer "token_count_estimate" (pos 2000000000) (get "token_count_estimate" fields)
      string_list "verified_mitigations" 32 128 (get "verified_mitigations" fields)
      validate_context (get "context" fields)

    unfoldable pub validate_gateway_event : Fresh → Fields F → Outcome (RuntimeAiEvent F)
    validate_gateway_event fresh fields = do
      validate_identity fields
      validate_content fields
      validate_surface fields
      returned (from_dict py fresh fields)
