-- ===== src/Gateway/Handler.antt =====
-- intel/gateway.py: the request handler's `do_POST`. The HTTP library is outside: a request is given
-- by its headers, its path and what reading its body gives. The validation and the scoring of the
-- event are arguments. Tokens and headers are ASCII texts, which `hmac.compare_digest` compares.
use Prim.Native.String
use vexyl_guard.Prelude.{
  ℕ, String, Bool, true, false, not, ◌&&◌, Option, none, some, List, [], ◌∷◌, ℤ, pos, code, ltb_ℤ,
  nat_eq, ◌==◌, if◌then◌else◌, truthy_str, keep, member, length, ltb,
}
use vexyl_guard.Outcome.{Outcome, raised, returned, ◌>>=◌, ◌>>◌, raise_if, overflow_message}
use vexyl_guard.Python.{Python, Json, str, obj, Fields, get, keys}
use vexyl_guard.Models.{RiskDecision}
use vexyl_guard.Gateway.{decision_policy_exit_code}

-- What `rfile.read`, the decoding and `json.loads` give.
pub data Body (F : Type 0) : Type 0 where
  timed_out : Body F
  not_json : Body F
  parsed : Json F → Body F

pub record Request (F : Type 0) : Type 0 where
  pub authorization : String
  pub path : String
  pub transfer_encoding : String
  pub content_type : String
  -- `none` for a header that is no number
  pub content_length : Option ℤ
  pub body : Body F

-- How the scoring of a valid event ends; an exception is one of the last handler.
pub data ScoringEnd : Type 0 where
  scored : RiskDecision → ScoringEnd
  failed : ScoringEnd

pub data Reply : Type 0 where
  error : ℕ → String → String → Reply
  decided : ℕ → RiskDecision → Reply

pub record Configuration : Type 0 where
  pub token : String
  pub max_body_bytes : ℕ

-- `text.partition(" ")`: the part before, whether there is a space, and the part after
unfoldable pub partition_space : String → String × Bool × String
partition_space String.[] = ("", false, "")
partition_space (String.◌∷◌ c s) =
    let parts = partition_space s in
    if nat_eq (code c) 32 then ("", true, s) else (String.◌∷◌ c parts.0, parts.1, parts.2)

abbrev pub reply_to_scoring : ScoringEnd → Reply
reply_to_scoring failed = error 500 "scoring_failed" "local scoring could not complete"
reply_to_scoring (scored decision) = decided (decision_policy_exit_code decision) decision

module _ {F : Type 0} (py : Python F) (config : Configuration) where
  -- the test of `_authorize`
  unfoldable pub is_authorized : Request F → Bool
  is_authorized request =
      let parts = partition_space request.authorization in
      parts.1 && py.lower (parts.0) == "bearer" && parts.2 == config.token

  abbrev pub envelope_fields : Json F → Outcome (Fields F)
  envelope_fields (obj fields) = returned fields
  envelope_fields v = raised "request envelope must be a JSON object"

  abbrev pub event_fields : Json F → Outcome (Fields F)
  event_fields (obj fields) = returned fields
  event_fields v = raised "event must be a JSON object"

  abbrev is_event_schema : Json F → Bool
  is_event_schema (str s) = s == "vexyl.ai_event.v1"
  is_event_schema v = false

  module _ (first_sorted : List String → String) {E : Type 0}
      (validate_gateway_event : Fields F → Outcome E) (score_and_record : E → ScoringEnd) where
    -- `_validate_envelope`
    unfoldable pub validate_envelope : Json F → Outcome E
    validate_envelope envelope = do
      fields ← envelope_fields envelope
      raise_if
          (ltb 0 (length (keep (λ key. not (member key ("schema" ∷ "event" ∷ []))) (keys fields))))
          (String.◌++◌ "unsupported envelope field: "
            (first_sorted (keep (λ key. not (member key ("schema" ∷ "event" ∷ []))) (keys fields))))
      raise_if (not (is_event_schema (get "schema" fields))) "unsupported event schema"
      event ← event_fields (get "event" fields)
      validate_gateway_event event

    -- `_validate_envelope` raises a `GatewayEventError`, or the `OverflowError` of `float`, which
    -- the last handler catches.
    abbrev pub reply_to_event : Outcome E → Reply
    reply_to_event (raised message) =
        if message == overflow_message
        then error 500 "scoring_failed" "local scoring could not complete"
        else error 400 "invalid_event" message
    reply_to_event (returned event) = reply_to_scoring (score_and_record event)

    abbrev pub reply_to_body : Body F → Reply
    reply_to_body timed_out = error 408 "request_timeout" "request body timed out"
    reply_to_body not_json = error 400 "invalid_json" "request body must be valid JSON"
    reply_to_body (parsed envelope) = reply_to_event (validate_envelope envelope)

    abbrev pub reply_to_length : Option ℤ → Body F → Reply
    reply_to_length none body = error 400 "invalid_content_length" "a JSON request body is required"
    reply_to_length (some n) body =
        if ltb_ℤ n (pos 1)
        then error 400 "invalid_content_length" "a JSON request body is required"
        else if ltb_ℤ (pos config.max_body_bytes) n
        then error 413 "request_too_large" "request body exceeds the local limit"
        else reply_to_body body

    unfoldable pub do_post : Request F → Reply
    do_post request =
        if not (is_authorized request)
        then error 401 "unauthorized" "valid local bearer authentication is required"
        else if not (request.path == "/v1/decisions")
        then error 404 "not_found" "endpoint not found"
        else if truthy_str request.transfer_encoding
        then error 400 "unsupported_transfer_encoding" "content length is required"
        else if not (request.content_type == "application/json")
        then error 415 "unsupported_media_type" "application/json is required"
        else reply_to_length request.content_length request.body
