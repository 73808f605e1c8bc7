-- ===== src/Client/Tests.antt =====
-- The theorems on the client at a concrete response.
use vexyl_guard.Prelude.{
  ℕ, String, true, false, some, List, pos, ◌≡◌, refl, any, all, keep, member, strip, strip_left,
  strip_right, strip_class, is_space,
}
use vexyl_guard.Outcome.{returned, ◌>>=◌, ◌>>◌, raise_if}
use vexyl_guard.Python.{
  null, bool, int, str, arr, obj, nil, Fields, field, end, get, has_key, is_true,
}
use vexyl_guard.Gateway.{decision_policy_exit_code}
use vexyl_guard.Scoring.Event.{score_ai_event}
use vexyl_guard.Scoring.Run.{plain, index, quiet, chat}
use vexyl_guard.Client.{
  usable_string, expected_action_for_score, policy_exit_code, required_string, required_integer,
  required_string_list, no_unknown_field, check_report, check_correlation, check_decision,
  check_response, validate_gateway_response,
}
use vexyl_guard.Client.Acceptance.{IsAccepted, validate-IsAccepted}
use vexyl_guard.Client.Agreement.{client-agrees}

unfoldable pub checks : Unit {0}
unfolding usable_string expected_action_for_score policy_exit_code required_string required_integer
    required_string_list no_unknown_field check_report check_correlation check_decision
    check_response validate_gateway_response ◌>>=◌ ◌>>◌ raise_if get has_key is_true any all keep
    member strip strip_left strip_right strip_class is_space
checks = tt

abbrev pub joined : List String → String
joined names = "a field"

abbrev pub sample_decision : Fields ℕ
sample_decision = field "event_id" (str "e1") (
    field "score" (int (pos 8)) (
      field "suggested_action" (str "allow/log") (
        field "matched_attack_ids" (arr nil) (
          field "matched_rules" (arr nil) (
            field "reasons" (arr nil) (
              field "mitigations_applied" (arr nil) (
                field "trust_level" (str "internal_data") (
                  field "redacted_excerpt" null (
                    field "deny_tool_call" (bool false) (
                      field "correlation_scope" null (
                        field "correlation_window_seconds" (int (pos 0))
                          (field "correlated_event_count" (int (pos 0)) end))))))))))))

abbrev pub response : Fields ℕ
response = field "ok" (bool true) (
    field "schema" (str "vexyl.risk_decision.v1") (
      field "request_id" (str "r1") (
        field "recorded" (bool true)
          (field "policy_exit_code" (int (pos 0)) (field "decision" (obj sample_decision) end)))))

response_valid : validate_gateway_response joined (obj response) (some "e1") ≡ returned response
unfolding checks
response_valid = refl

validate-IsAccepted_example : (response ≡ response) × IsAccepted response (some "e1")
validate-IsAccepted_example =
    validate-IsAccepted joined response (some "e1") response response_valid

client-agrees_example :
    (expected_action_for_score (score_ai_event plain index chat quiet).score
      ≡ (score_ai_event plain index chat quiet).suggested_action)
    × (policy_exit_code
          (score_ai_event plain index chat quiet).score
          (score_ai_event plain index chat quiet).deny_tool_call
        ≡ decision_policy_exit_code (score_ai_event plain index chat quiet))
client-agrees_example = client-agrees plain index chat quiet
