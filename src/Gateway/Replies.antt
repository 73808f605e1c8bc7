-- ===== src/Gateway/Replies.antt =====
-- When the gateway answers with a decision.
use vexyl_guard.Prelude.{
  ℕ, ◌≤◌, String, true, Option, none, some, List, ◌≡◌, refl, ap, sym, ◌∙◌, arith, ℤ, pos, negsuc,
  ◌==◌, eq_iff,
}
use vexyl_guard.Outcome.{Outcome, raised, returned}
use vexyl_guard.Python.{Python, Json, Fields}
use vexyl_guard.Models.{RiskDecision}
use vexyl_guard.Gateway.{decision_policy_exit_code}
use vexyl_guard.Gateway.Handler.{
  Body, timed_out, not_json, parsed, Request, ScoringEnd, scored, failed, decided, Configuration,
  is_authorized, validate_envelope, reply_to_scoring, reply_to_event, reply_to_body,
  reply_to_length, do_post,
}

module _ {F E : Type 0} (py : Python F) (config : Configuration)
    (first_sorted : List String → String) (validate_gateway_event : Fields F → Outcome E)
    (score_and_record : E → ScoringEnd) where
  -- The request that a decision answers.
  pub record IsAnswered (request : Request F) (exit_code : ℕ) (decision : RiskDecision)
      : Type 0 where
    pub envelope : Json F
    pub event : E
    pub bytes : ℕ
    pub authorized : is_authorized py config request ≡ true
    pub has_path : request.path ≡ "/v1/decisions"
    pub is_json : request.content_type ≡ "application/json"
    pub has_length : request.content_length ≡ some (pos bytes)
    pub length_bounds : (1 ≤ bytes) × (bytes ≤ config.max_body_bytes)
    pub has_body : request.body ≡ parsed envelope
    pub valid :
        validate_envelope py config first_sorted validate_gateway_event score_and_record envelope
        ≡ returned event
    pub is_scored : score_and_record event ≡ scored decision
    pub has_exit_code : exit_code ≡ decision_policy_exit_code decision

  by_scoring :
      (ending : ScoringEnd) (code : ℕ) (decision : RiskDecision)
      → reply_to_scoring ending ≡ decided code decision
      → (ending ≡ scored decision) × (code ≡ decision_policy_exit_code decision)
  by_scoring failed code decision h = absurd (ground arith)
  by_scoring (scored d) code decision h =
      let same : d ≡ decision = cc in
      let given : decision_policy_exit_code d ≡ code = cc in
      (ap scored same, sym given ∙ ap decision_policy_exit_code same)

  by_event :
      (outcome : Outcome E) (code : ℕ) (decision : RiskDecision)
      → reply_to_event py config first_sorted validate_gateway_event score_and_record outcome
        ≡ decided code decision
      → (event : E) × (outcome ≡ returned event)
        × (score_and_record event ≡ scored decision)
        × (code ≡ decision_policy_exit_code decision)
  by_event (raised message) code decision h = absurd (ground arith)
  by_event (returned event) code decision h =
      let (is_scored, has_code) = by_scoring (score_and_record event) code decision h in
      (event, refl, is_scored, has_code)

  by_body :
      (body : Body F) (code : ℕ) (decision : RiskDecision)
      → reply_to_body py config first_sorted validate_gateway_event score_and_record body
        ≡ decided code decision
      → (envelope : Json F) × (body ≡ parsed envelope)
        × (reply_to_event py config first_sorted validate_gateway_event score_and_record (
              validate_envelope py config first_sorted validate_gateway_event score_and_record
                envelope)
            ≡ decided code decision)
  by_body timed_out code decision h = absurd (ground arith)
  by_body not_json code decision h = absurd (ground arith)
  by_body (parsed envelope) code decision h = (envelope, refl, h)

  by_length :
      (length : Option ℤ) (body : Body F) (code : ℕ) (decision : RiskDecision)
      → reply_to_length py config first_sorted validate_gateway_event score_and_record length body
        ≡ decided code decision
      → (bytes : ℕ) × (length ≡ some (pos bytes))
        × (1 ≤ bytes)
        × (bytes ≤ config.max_body_bytes)
        × (reply_to_body py config first_sorted validate_gateway_event score_and_record body
            ≡ decided code decision)
  by_length none body code decision h = absurd (ground arith)
  by_length (some (negsuc m)) body code decision h = absurd (ground arith)
  by_length (some (pos n)) body code decision h =
      (n, refl, ground arith, ground arith, ground arith)

  by_request :
      (request : Request F) (code : ℕ) (decision : RiskDecision)
      → do_post py config first_sorted validate_gateway_event score_and_record request
        ≡ decided code decision
      → (is_authorized py config request ≡ true)
        × (request.path == "/v1/decisions" ≡ true)
        × (request.content_type == "application/json" ≡ true)
        × (reply_to_length py config first_sorted validate_gateway_event score_and_record
              request.content_length request.body
            ≡ decided code decision)
  unfolding do_post
  by_request request code decision h = (ground arith, ground arith, ground arith, ground arith)

  -- The gateway answers with a decision only to an authorized request for one, of a JSON body within
  -- the limit that holds a valid envelope; the decision is the one of the scoring of its event, and
  -- the exit code is the decision's.
  pub do_post-IsAnswered :
      (request : Request F) (exit_code : ℕ) (decision : RiskDecision)
      → do_post py config first_sorted validate_gateway_event score_and_record request
        ≡ decided exit_code decision
      → IsAnswered request exit_code decision
  do_post-IsAnswered request exit_code decision h =
      let (authorized, path, json, limited) = by_request request exit_code decision h in
      let (bytes, length, lower, upper, read) = by_length _ _ exit_code decision limited in
      let (envelope, body, replied) = by_body _ exit_code decision read in
      let (event, valid, is_scored, code) = by_event _ exit_code decision replied in
      record {
        envelope = envelope;
        event = event;
        bytes = bytes;
        authorized = authorized;
        has_path = (eq_iff _ _).0 path;
        is_json = (eq_iff _ _).0 json;
        has_length = length;
        length_bounds = (lower, upper);
        has_body = body;
        valid = valid;
        is_scored = is_scored;
        has_exit_code = code;
      }
