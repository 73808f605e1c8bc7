-- ===== src/Gateway/Tests.antt =====
-- The theorem on the request handler at a concrete request.
use vexyl_guard.Prelude.{ℕ, String, false, none, some, List, [], pos, ◌≡◌, refl, keep, member}
use vexyl_guard.Outcome.{Outcome, raised, overflow_message, returned, ◌>>=◌, ◌>>◌, raise_if}
use vexyl_guard.Python.{str, obj, Fields, field, end, get}
use vexyl_guard.Models.{RiskDecision}
use vexyl_guard.Scoring.Run.{plain}
use vexyl_guard.Gateway.{decision_policy_exit_code}
use vexyl_guard.Gateway.Handler.{
  parsed, Request, ScoringEnd, scored, error, decided, Configuration, partition_space,
  is_authorized, validate_envelope, do_post,
}
use vexyl_guard.Gateway.Replies.{IsAnswered, do_post-IsAnswered}

abbrev config : Configuration
config = record { token = "secret"; max_body_bytes = 1000 }

abbrev request : Request ℕ
request = record {
  authorization = "bearer secret";
  path = "/v1/decisions";
  transfer_encoding = "";
  content_type = "application/json";
  content_length = some (pos 60);
  body = parsed (obj (field "schema" (str "vexyl.ai_event.v1") (field "event" (obj end) end)));
}

abbrev sample_decision : RiskDecision
sample_decision = record {
  event_id = "e1";
  score = 55;
  suggested_action = "require human approval or policy verifier";
  matched_attack_ids = [];
  matched_rules = [];
  reasons = [];
  mitigations_applied = [];
  trust_level = "unknown";
  redacted_excerpt = none;
  deny_tool_call = false;
  correlation_scope = none;
  correlation_window_seconds = pos 0;
  correlated_event_count = 0;
}

abbrev first_of : List String → String
first_of names = "a field"

abbrev any_event : Fields ℕ → Outcome (Fields ℕ)
any_event event = returned event

abbrev one_decision : Fields ℕ → ScoringEnd
one_decision event = scored sample_decision

request_decided :
    do_post plain config first_of any_event one_decision request ≡ decided 3 sample_decision
unfolding do_post is_authorized partition_space validate_envelope decision_policy_exit_code ◌>>=◌
    ◌>>◌ raise_if get keep member
request_decided = refl

do_post-IsAnswered_example :
    IsAnswered plain config first_of any_event one_decision request 3 sample_decision
do_post-IsAnswered_example =
    do_post-IsAnswered plain config first_of any_event one_decision request 3 sample_decision
      request_decided

abbrev overflowing_event : Fields ℕ → Outcome (Fields ℕ)
overflowing_event event = raised overflow_message

overflow_failed :
    do_post plain config first_of overflowing_event one_decision request
    ≡ error 500 "scoring_failed" "local scoring could not complete"
unfolding do_post is_authorized partition_space validate_envelope ◌>>=◌ ◌>>◌ raise_if get keep
    member
overflow_failed = refl

abbrev refused_event : Fields ℕ → Outcome (Fields ℕ)
refused_event event = raised "cost_estimate must be numeric"

refused_invalid :
    do_post plain config first_of refused_event one_decision request
    ≡ error 400 "invalid_event" "cost_estimate must be numeric"
unfolding do_post is_authorized partition_space validate_envelope ◌>>=◌ ◌>>◌ raise_if get keep
    member
refused_invalid = refl
