-- ===== src/Client/Acceptance.antt =====
-- What `validate_gateway_response` guarantees of a response that it lets through.
use vexyl_guard.Prelude.{
  ℕ, ◌≤◌, String, Bool, true, not, Option, ◌≡◌, ap, sym, ◌∙◌, arith, List, pos, negsuc, eq_iff,
}
use vexyl_guard.Outcome.{
  returned, raise_if, bind-returned, then-returned, raise_if-returned, returned-inj,
  raised-returned,
}
use vexyl_guard.Python.{Json, null, bool, int, float, str, arr, obj, Fields, get, is_true}
use vexyl_guard.Client.{
  string_value, required_string, integer_value, required_integer, dict_value, bool_value,
  is_expected, expected_action_for_score, policy_exit_code, check_decision, check_response,
  validate_gateway_response,
}

passed :
    (test : Bool) (message : String) (u : Unit {0})
    → raise_if (not test) message ≡ returned u
    → test ≡ true
passed test message u e = let f = raise_if-returned (not test) message u e in ground arith

module _ {F : Type 0} where
  string_value-returned :
      (key : String) (n : ℕ) (v : Json F) (s : String)
      → string_value key n v ≡ returned s
      → v ≡ str s
  string_value-returned key n null s e = absurd (raised-returned e)
  string_value-returned key n (bool b) s e = absurd (raised-returned e)
  string_value-returned key n (int k) s e = absurd (raised-returned e)
  string_value-returned key n (float f) s e = absurd (raised-returned e)
  string_value-returned key n (arr vs) s e = absurd (raised-returned e)
  string_value-returned key n (obj fs) s e = absurd (raised-returned e)
  string_value-returned key n (str t) s e = ground arith

  integer_value-returned :
      (key : String) (n : ℕ) (v : Json F) (k : ℕ)
      → integer_value key n v ≡ returned k
      → (v ≡ int (pos k)) × (k ≤ n)
  integer_value-returned key n null k e = absurd (raised-returned e)
  integer_value-returned key n (bool b) k e = absurd (raised-returned e)
  integer_value-returned key n (str t) k e = absurd (raised-returned e)
  integer_value-returned key n (float f) k e = absurd (raised-returned e)
  integer_value-returned key n (arr vs) k e = absurd (raised-returned e)
  integer_value-returned key n (obj fs) k e = absurd (raised-returned e)
  integer_value-returned key n (int (negsuc m)) k e = absurd (raised-returned e)
  integer_value-returned key n (int (pos m)) k e = (ground arith, ground arith)

  required_string-returned :
      (fields : Fields F) (key : String) (n : ℕ) (s : String)
      → required_string fields key n ≡ returned s
      → get key fields ≡ str s
  unfolding required_string
  required_string-returned fields key n s e = string_value-returned key n (get key fields) s e

  required_integer-returned :
      (fields : Fields F) (key : String) (n k : ℕ)
      → required_integer fields key n ≡ returned k
      → (get key fields ≡ int (pos k)) × (k ≤ n)
  unfolding required_integer
  required_integer-returned fields key n k e = integer_value-returned key n (get key fields) k e

  dict_value-returned : (v : Json F) (fs : Fields F) → dict_value v ≡ returned fs → v ≡ obj fs
  dict_value-returned null fs e = absurd (raised-returned e)
  dict_value-returned (bool b) fs e = absurd (raised-returned e)
  dict_value-returned (int k) fs e = absurd (raised-returned e)
  dict_value-returned (float f) fs e = absurd (raised-returned e)
  dict_value-returned (str s) fs e = absurd (raised-returned e)
  dict_value-returned (arr vs) fs e = absurd (raised-returned e)
  dict_value-returned (obj gs) fs e = ap obj (returned-inj e)

  bool_value-returned : (v : Json F) (b : Bool) → bool_value v ≡ returned b → v ≡ bool b
  bool_value-returned null b e = absurd (raised-returned e)
  bool_value-returned (int k) b e = absurd (raised-returned e)
  bool_value-returned (float f) b e = absurd (raised-returned e)
  bool_value-returned (str s) b e = absurd (raised-returned e)
  bool_value-returned (arr vs) b e = absurd (raised-returned e)
  bool_value-returned (obj fs) b e = absurd (raised-returned e)
  bool_value-returned (bool c) b e = ap bool (returned-inj e)

  -- A decision that agrees with itself and with the exit code that came with it.
  pub record IsConsistent (decision : Fields F) (expected : Option String) (exit_code : ℕ)
      : Type 0 where
    pub event_id : String
    pub score : ℕ
    pub deny : Bool
    pub has_event_id : get "event_id" decision ≡ str event_id
    pub matches_request : is_expected expected event_id ≡ true
    pub has_score : get "score" decision ≡ int (pos score)
    pub score_bound : score ≤ 100
    pub has_action : get "suggested_action" decision ≡ str (expected_action_for_score score)
    pub has_deny : get "deny_tool_call" decision ≡ bool deny
    pub has_exit_code : exit_code ≡ policy_exit_code score deny

  -- A response with such a decision, which has been recorded.
  pub record IsAccepted (response : Fields F) (expected : Option String) : Type 0 where
    pub decision : Fields F
    pub exit_code : ℕ
    pub is_recorded : is_true (get "recorded" response) ≡ true
    pub has_decision : get "decision" response ≡ obj decision
    pub has_exit_code : get "policy_exit_code" response ≡ int (pos exit_code)
    pub consistent : IsConsistent decision expected exit_code

  check_decision-IsConsistent :
      (first_sorted : List String → String) (decision : Fields F) (expected : Option String)
      (exit_code : ℕ) (u : Unit {0})
      → check_decision first_sorted decision expected exit_code ≡ returned u
      → IsConsistent decision expected exit_code
  unfolding check_decision
  check_decision-IsConsistent first_sorted decision expected exit_code u e =
      let (_, known, e₁) = then-returned _ _ _ e in
      let (event_id, id_read, e₂) = bind-returned _ _ _ e₁ in
      let (_, id_matches, e₃) = then-returned _ _ _ e₂ in
      let (score, score_read, e₄) = bind-returned _ _ _ e₃ in
      let (action, action_read, e₅) = bind-returned _ _ _ e₄ in
      let (_, action_matches, e₆) = then-returned _ _ _ e₅ in
      let (_, report, e₇) = then-returned _ _ _ e₆ in
      let (deny, deny_read, e₈) = bind-returned _ _ _ e₇ in
      let (_, correlation, code_matches) = then-returned _ _ _ e₈ in
      let (score_is, bound) = required_integer-returned _ _ _ score score_read in
      let action_is = (eq_iff action _).0 (passed _ _ _ action_matches) in
      record {
        event_id = event_id;
        score = score;
        deny = deny;
        has_event_id = required_string-returned _ _ _ event_id id_read;
        matches_request = passed _ _ _ id_matches;
        has_score = score_is;
        score_bound = bound;
        has_action = required_string-returned _ _ _ action action_read ∙ ap str action_is;
        has_deny = bool_value-returned _ deny deny_read;
        has_exit_code = (let c = passed _ _ _ code_matches in ground arith);
      }

  -- If `validate_gateway_response` returns, then the response is recorded and its decision is one of
  -- the expected event, with a score of at most 100, the action of that score, and the exit code of
  -- the score and the denial.
  pub validate-IsAccepted :
      (first_sorted : List String → String) (response : Fields F) (expected : Option String)
      (accepted : Fields F)
      → validate_gateway_response first_sorted (obj response) expected ≡ returned accepted
      → (accepted ≡ response) × IsAccepted response expected
  unfolding validate_gateway_response check_response
  validate-IsAccepted first_sorted response expected accepted e =
      let (_, envelope, e₁) = then-returned _ _ _ e in
      let (request_id, request_read, e₂) = bind-returned _ _ _ e₁ in
      let (code, code_read, e₃) = bind-returned _ _ _ e₂ in
      let (_, supported, e₄) = then-returned _ _ _ e₃ in
      let (decision, decision_read, e₅) = bind-returned _ _ _ e₄ in
      let (u, checked, e₆) = then-returned _ _ _ e₅ in
      let (_, known, f₁) = then-returned _ _ _ envelope in
      let (_, ok, f₂) = then-returned _ _ _ f₁ in
      let (_, schema, recorded) = then-returned _ _ _ f₂ in
      (
        sym (returned-inj e₆),
        record {
          decision = decision;
          exit_code = code;
          is_recorded = passed _ _ _ recorded;
          has_decision = dict_value-returned _ decision decision_read;
          has_exit_code = (required_integer-returned _ _ _ code code_read).0;
          consistent = check_decision-IsConsistent first_sorted decision expected code u checked;
        },
      )
