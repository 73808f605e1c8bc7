-- ===== src/Client.antt =====
-- intel/client.py: the check of the gateway's response, before an application acts on it.
use Prim.Native.String
use vexyl_guard.Prelude.{
  ℕ, String, Bool, true, false, not, ◌&&◌, ◌||◌, Option, none, some, List, [], ◌∷◌, ℤ, pos, leb,
  ltb, nat_eq, ltb_ℤ, leb_ℤ, ◌==◌, if◌then◌else◌, keep, member, all, any, length, strip, truthy_str,
  count,
}
use vexyl_guard.Outcome.{Outcome, raised, returned, ◌>>=◌, ◌>>◌, raise_if}
use vexyl_guard.Python.{
  Json, null, bool, int, float, str, arr, obj, Fields, get, has_key, is_true, items, keys,
}
pub mod Acceptance
pub mod Agreement
pub mod Tests

abbrev allowed_response_fields : List String
allowed_response_fields =
    "ok" ∷ "schema" ∷ "request_id" ∷ "recorded" ∷ "policy_exit_code" ∷ "decision" ∷ []

abbrev pub allowed_decision_fields : List String
allowed_decision_fields =
    "event_id" ∷ "score" ∷ "suggested_action" ∷ "matched_attack_ids" ∷ "matched_rules" ∷ "reasons"
    ∷ "mitigations_applied" ∷ "trust_level" ∷ "redacted_excerpt" ∷ "deny_tool_call"
    ∷ "correlation_scope" ∷ "correlation_window_seconds" ∷ "correlated_event_count" ∷ []

abbrev pub allowed_trust_levels : List String
allowed_trust_levels =
    "untrusted_data" ∷ "trusted_control" ∷ "user_instruction" ∷ "internal_data"
    ∷ "persistent_context" ∷ "unknown" ∷ []

-- `_suggested_action_for_score`, of a score in range
unfoldable pub expected_action_for_score : ℕ → String
expected_action_for_score score =
    if leb score 24
    then "allow/log"
    else if leb score 49
    then "warn/log"
    else if leb score 69
    then "require human approval or policy verifier"
    else if leb score 84
    then "quarantine/block tool action"
    else "block and open incident"

-- `_policy_exit_code`
unfoldable pub policy_exit_code : ℕ → Bool → ℕ
policy_exit_code score deny_tool_call =
    if deny_tool_call || leb 70 score then 4 else if leb 50 score then 3 else 0

abbrev invalid : String → String
invalid key = String.◌++◌ "gateway returned an invalid " key

-- the test of `_required_string` on the value
unfoldable pub usable_string : ℕ → String → Bool
usable_string maximum_length s = truthy_str (strip s) && leb (count s) maximum_length

abbrev pub is_expected : Option String → String → Bool
is_expected none event_id = true
is_expected (some expected) event_id = event_id == expected

module _ {F : Type 0} where
  abbrev pub string_value : String → ℕ → Json F → Outcome String
  string_value key maximum_length (str s) =
      if usable_string maximum_length s then returned s else raised (invalid key)
  string_value key maximum_length v = raised (invalid key)

  -- `_required_string`
  unfoldable pub required_string : Fields F → String → ℕ → Outcome String
  required_string fields key maximum_length = string_value key maximum_length (get key fields)

  abbrev pub integer_value : String → ℕ → Json F → Outcome ℕ
  integer_value key maximum (int (pos n)) =
      if leb n maximum
      then returned n
      else raised (String.◌++◌ "gateway returned an out-of-range " key)
  integer_value key maximum (int n) = raised (String.◌++◌ "gateway returned an out-of-range " key)
  integer_value key maximum v = raised (invalid key)

  -- `_required_integer` with the minimum 0, which every call of it has
  unfoldable pub required_integer : Fields F → String → ℕ → Outcome ℕ
  required_integer fields key maximum = integer_value key maximum (get key fields)

  abbrev usable_item : ℕ → Json F → Bool
  usable_item maximum_length (str s) = usable_string maximum_length s
  usable_item maximum_length v = false

  abbrev list_value : String → ℕ → ℕ → Json F → Outcome (Unit {0})
  list_value key maximum_items maximum_length (arr vs) = do
    raise_if (ltb maximum_items (length (items vs))) (invalid key)
    raise_if (not (all (usable_item maximum_length) (items vs))) (String.◌++◌ (invalid key) " item")
  list_value key maximum_items maximum_length v = raised (invalid key)

  -- `_required_string_list`
  unfoldable pub required_string_list : Fields F → String → ℕ → ℕ → Outcome (Unit {0})
  required_string_list fields key maximum_items maximum_length =
      list_value key maximum_items maximum_length (get key fields)

  -- `raise … f"… {sorted(unknown)[0]}"`; the order of the names is Python's.
  unfoldable pub no_unknown_field :
      (List String → String) → String → List String → Fields F → Outcome (Unit {0})
  no_unknown_field first_sorted message allowed fields =
      let unknown = keep (λ key. not (member key allowed)) (keys fields) in
      raise_if (ltb 0 (length unknown)) (String.◌++◌ message (first_sorted unknown))

  abbrev pub is_text : String → Json F → Bool
  is_text s (str t) = t == s
  is_text s v = false

  abbrev pub dict_value : Json F → Outcome (Fields F)
  dict_value (obj fields) = returned fields
  dict_value v = raised "gateway response did not include a decision"

  abbrev pub bool_value : Json F → Outcome Bool
  bool_value (bool b) = returned b
  bool_value v = raised "gateway returned an invalid tool decision"

  abbrev excerpt_fits : Json F → Bool
  excerpt_fits null = true
  excerpt_fits (str s) = leb (count s) 500
  excerpt_fits v = false

  abbrev scope_fits : Json F → Bool
  scope_fits null = true
  scope_fits (str s) = member s ("session" ∷ "user" ∷ [])
  scope_fits v = false

module _ {F : Type 0} (first_sorted : List String → String) where
  abbrev pub check_envelope : Fields F → Outcome (Unit {0})
  check_envelope response = do
    no_unknown_field first_sorted "gateway returned an unsupported response field: "
        allowed_response_fields response
    raise_if (not (is_true (get "ok" response))) "gateway response was not successful"
    raise_if (not (is_text "vexyl.risk_decision.v1" (get "schema" response)))
        "gateway returned an unsupported decision schema"
    raise_if (not (is_true (get "recorded" response))) "gateway decision was not recorded"

  -- the lists, the trust level and the excerpt of the decision
  unfoldable pub check_report : Fields F → Outcome (Unit {0})
  check_report decision = do
    required_string_list decision "matched_attack_ids" 64 128
    required_string_list decision "matched_rules" 128 256
    required_string_list decision "reasons" 64 512
    required_string_list decision "mitigations_applied" 32 128
    trust_level ← required_string decision "trust_level" 32
    raise_if (not (member trust_level allowed_trust_levels))
        "gateway returned an unsupported trust level"
    raise_if (not (has_key "redacted_excerpt" decision))
        "gateway response did not include redacted_excerpt"
    raise_if (not (excerpt_fits (get "redacted_excerpt" decision)))
        "gateway returned an invalid redacted excerpt"

  unfoldable pub check_correlation : Fields F → Outcome (Unit {0})
  check_correlation decision = do
    raise_if (not (has_key "correlation_scope" decision))
        "gateway response did not include correlation_scope"
    raise_if (not (scope_fits (get "correlation_scope" decision)))
        "gateway returned an invalid correlation scope"
    window ← required_integer decision "correlation_window_seconds" 86400
    events ← required_integer decision "correlated_event_count" 2000
    returned tt

  -- the checks of the decision, and of the exit code of the response against it
  unfoldable pub check_decision : Fields F → Option String → ℕ → Outcome (Unit {0})
  check_decision decision expected_event_id exit_code = do
    no_unknown_field first_sorted "gateway returned an unsupported decision field: "
        allowed_decision_fields decision
    event_id ← required_string decision "event_id" 128
    raise_if (not (is_expected expected_event_id event_id))
        "gateway decision event id did not match the request"
    score ← required_integer decision "score" 100
    suggested_action ← required_string decision "suggested_action" 80
    raise_if (not (suggested_action == expected_action_for_score score))
        "gateway decision action contradicted its score"
    check_report decision
    deny_tool_call ← bool_value (get "deny_tool_call" decision)
    check_correlation decision
    raise_if (not (nat_eq exit_code (policy_exit_code score deny_tool_call)))
        "gateway policy exit code contradicted its decision"

  unfoldable pub check_response : Fields F → Option String → Outcome (Fields F)
  check_response response expected_event_id = do
    check_envelope response
    request_id ← required_string response "request_id" 128
    exit_code ← required_integer response "policy_exit_code" 4
    raise_if (not (nat_eq exit_code 0 || nat_eq exit_code 3 || nat_eq exit_code 4))
        "gateway returned an unsupported policy exit code"
    decision ← dict_value (get "decision" response)
    check_decision decision expected_event_id exit_code
    returned response

  -- `validate_gateway_response`
  unfoldable pub validate_gateway_response : Json F → Option String → Outcome (Fields F)
  validate_gateway_response (obj response) expected_event_id =
      check_response response expected_event_id
  validate_gateway_response v expected_event_id =
      raised "gateway returned an invalid response object"
