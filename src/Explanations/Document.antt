-- ===== src/Explanations/Document.antt =====
-- `decision_from_document` of intel/explanations.py, which reads a decision back from a document. An
-- error is the text of an `ExplanationError`.
use Prim.Native.String
use vexyl_guard.Prelude.{
  ℕ, String, Bool, true, not, ◌&&◌, ◌||◌, Option, none, some, List, [], ◌∷◌, pos, count, keep,
  length, all, is_empty, leb, ◌==◌, if◌then◌else◌, member, strip, truthy_str,
}
use vexyl_guard.Outcome.{Outcome, raised, returned, ◌>>=◌, ◌>>◌, raise_if}
use vexyl_guard.Python.{
  Python, Json, null, bool, int, str, arr, obj, Fields, field, end, get, has_key, is_true, items,
  keys,
}
use vexyl_guard.Models.{RiskDecision}
use vexyl_guard.Models.Reading.{text_json, text_items}
use vexyl_guard.Client.{allowed_decision_fields, allowed_trust_levels, validate_gateway_response}
use vexyl_guard.Scoring.Accumulator.{suggested_action_for_score}

abbrev invalid_value : String → String
invalid_value key = String.◌++◌ "decision contained an invalid " key

abbrev pub is_usable : ℕ → String → Bool
is_usable maximum s = truthy_str (strip s) && leb (count s) maximum

module _ {F : Type 0} where
  unfoldable pub decision_text : String → ℕ → Json F → Outcome String
  decision_text key maximum (str s) =
      if is_usable maximum s then returned s else raised (invalid_value key)
  decision_text key maximum v = raised (invalid_value key)

  -- `_required_integer`, whose minimum is 0 at every call
  unfoldable pub decision_integer : String → ℕ → Json F → Outcome ℕ
  decision_integer key maximum (int (pos n)) =
      if leb n maximum
      then returned n
      else raised (String.◌++◌ "decision contained an out-of-range " key)
  decision_integer key maximum (int n) =
      raised (String.◌++◌ "decision contained an out-of-range " key)
  decision_integer key maximum v = raised (invalid_value key)

  unfoldable pub usable_texts : String → ℕ → List (Json F) → Outcome (List String)
  usable_texts key maximum [] = returned []
  usable_texts key maximum (v ∷ vs) = do
    text ← decision_text key maximum v
    rest ← usable_texts key maximum vs
    returned (text ∷ rest)

  unfoldable pub decision_texts : String → ℕ → ℕ → Json F → Outcome (List String)
  decision_texts key most maximum (arr vs) =
      if leb (length (items vs)) most
      then usable_texts (String.◌++◌ key " item") maximum (items vs)
      else raised (invalid_value key)
  decision_texts key most maximum v = raised (invalid_value key)

  unfoldable pub excerpt_value : Json F → Outcome (Option String)
  excerpt_value null = returned none
  excerpt_value (str s) =
      if leb (count s) 500
      then returned (some s)
      else raised "decision contained an invalid redacted excerpt"
  excerpt_value v = raised "decision contained an invalid redacted excerpt"

  unfoldable pub boundary_value : Json F → Outcome Bool
  boundary_value (bool b) = returned b
  boundary_value v = raised "decision contained an invalid tool boundary"

  unfoldable pub correlation_value : Json F → Outcome (Option String)
  correlation_value null = returned none
  correlation_value (str s) =
      if member s ("session" ∷ "user" ∷ [])
      then returned (some s)
      else raised "decision contained an invalid correlation scope"
  correlation_value v = raised "decision contained an invalid correlation scope"

  unfoldable pub document_object : Json F → Outcome (Fields F)
  document_object (obj fields) = returned fields
  document_object v = raised "decision input did not contain a decision object"

  -- `RiskDecision.to_dict`
  unfoldable pub decision_to_dict : RiskDecision → Fields F
  decision_to_dict decision = field "event_id" (str decision.event_id) (
      field "score" (int (pos decision.score)) (
        field "suggested_action" (str decision.suggested_action) (
          field "matched_attack_ids" (arr (text_items decision.matched_attack_ids)) (
            field "matched_rules" (arr (text_items decision.matched_rules)) (
              field "reasons" (arr (text_items decision.reasons)) (
                field "mitigations_applied" (arr (text_items decision.mitigations_applied)) (
                  field "trust_level" (str decision.trust_level) (
                    field "redacted_excerpt" (text_json decision.redacted_excerpt) (
                      field "deny_tool_call" (bool decision.deny_tool_call)
                        (correlation_fields decision))))))))))
    where
      correlation_fields : RiskDecision → Fields F
      correlation_fields decision =
          field "correlation_scope" (text_json decision.correlation_scope) (
            field "correlation_window_seconds" (int decision.correlation_window_seconds)
              (field "correlated_event_count" (int (pos decision.correlated_event_count)) end))

abbrev pub rule_pattern : String
rule_pattern = "^rule:(AI-[A-Z0-9]+(?:-[A-Z0-9]+)*):([a-z0-9]+(?:_[a-z0-9]+)*)$"

abbrev pub attack_pattern : String
attack_pattern = "^AI-[A-Z0-9]+(?:-[A-Z0-9]+)*$"

abbrev two_groups : Option (List String) → Option (String × String)
two_groups none = none
two_groups (some []) = none
two_groups (some (a ∷ [])) = none
two_groups (some (a ∷ b ∷ rest)) = some (a, b)

module _ {F : Type 0} where
  -- from the reasons on
  unfoldable pub decision_rest :
      String → ℕ → String → List String → List String → Fields F → Outcome RiskDecision
  decision_rest event_id score suggested_action attack_ids rules fields = do
    reasons ← decision_texts "reasons" 64 512 (get "reasons" fields)
    mitigations ← decision_texts "mitigations_applied" 32 128 (get "mitigations_applied" fields)
    trust_level ← decision_text "trust_level" 32 (get "trust_level" fields)
    raise_if (not (member trust_level allowed_trust_levels))
        "decision contained an invalid trust level"
    raise_if (not (has_key "redacted_excerpt" fields)) "decision did not include redacted_excerpt"
    excerpt ← excerpt_value (get "redacted_excerpt" fields)
    deny_tool_call ← boundary_value (get "deny_tool_call" fields)
    raise_if (not (has_key "correlation_scope" fields)) "decision did not include correlation_scope"
    scope ← correlation_value (get "correlation_scope" fields)
    window ←
        decision_integer "correlation_window_seconds" 86400
          (get "correlation_window_seconds" fields)
    events ← decision_integer "correlated_event_count" 2000 (get "correlated_event_count" fields)
    returned (record {
      event_id = event_id;
      score = score;
      suggested_action = suggested_action;
      matched_attack_ids = attack_ids;
      matched_rules = rules;
      reasons = reasons;
      mitigations_applied = mitigations;
      trust_level = trust_level;
      redacted_excerpt = excerpt;
      deny_tool_call = deny_tool_call;
      correlation_scope = scope;
      correlation_window_seconds = pos window;
      correlated_event_count = events;
    })

module _ {F : Type 0} (py : Python F) (first_sorted : List String → String) where
  -- the attack and the slug of a rule's id
  unfoldable pub rule_groups : String → Option (String × String)
  rule_groups rule_id = two_groups (py.re_groups rule_pattern rule_id)

  unfoldable pub rule_attack_ids : List String → Outcome (List String)
  rule_attack_ids [] = returned []
  rule_attack_ids (rule_id ∷ rest) = elim (rule_groups rule_id) [
    | none ↦ raised "decision contained an invalid rule id"
    | some groups ↦ rule_attack_ids rest >>= λ ids. returned (groups.0 ∷ ids)
  ]

  unfoldable pub decision_from_fields : Fields F → Outcome RiskDecision
  decision_from_fields fields = do
    raise_if (not (is_empty (keep (λ key. not (member key allowed_decision_fields)) (keys fields))))
        (String.◌++◌ "unsupported decision field: "
          (first_sorted (keep (λ key. not (member key allowed_decision_fields)) (keys fields))))
    event_id ← decision_text "event_id" 128 (get "event_id" fields)
    score ← decision_integer "score" 100 (get "score" fields)
    suggested_action ← decision_text "suggested_action" 80 (get "suggested_action" fields)
    raise_if (not (suggested_action == suggested_action_for_score score))
        "decision action contradicted its score"
    attack_ids ← decision_texts "matched_attack_ids" 64 64 (get "matched_attack_ids" fields)
    raise_if (not (all (py.re_fullmatch attack_pattern) attack_ids))
        "decision contained an invalid attack id"
    rules ← decision_texts "matched_rules" 128 256 (get "matched_rules" fields)
    rule_ids ← rule_attack_ids rules
    raise_if (not (all (λ id. member id attack_ids) rule_ids))
        "decision rule ids contradicted matched attack ids"
    decision_rest event_id score suggested_action attack_ids rules fields

  -- the `try` around the client's check
  unfoldable pub checked_envelope : Outcome (Fields F) → Outcome (Unit {0})
  checked_envelope (raised message) = raised "gateway decision envelope is invalid"
  checked_envelope (returned response) = returned tt

  unfoldable pub envelope_decision : Fields F → Outcome (Json F)
  envelope_decision document =
      if not (has_key "decision" document)
      then returned (obj document)
      else if has_key "schema" document
      then checked_envelope (validate_gateway_response first_sorted (obj document) none)
        >> returned (get "decision" document)
      else if not
            (is_empty (keep (λ key. not (member key ("ok" ∷ "decision" ∷ []))) (keys document)))
          || not (is_true (get "ok" document))
      then raised "CLI decision envelope is invalid"
      else returned (get "decision" document)

  unfoldable pub decision_from_document : Json F → Outcome RiskDecision
  decision_from_document (obj document) = do
    value ← envelope_decision document
    fields ← document_object value
    decision_from_fields fields
  decision_from_document v = raised "decision input must be a JSON object"

module _ {F : Type 0} where
  unfoldable pub is_decision_document : Fields F → Bool
  is_decision_document document =
      if has_key "decision" document
      then true
      else has_key "score" document
        && (has_key "suggested_action" document && has_key "matched_rules" document)
