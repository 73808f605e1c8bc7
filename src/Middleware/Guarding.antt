-- ===== src/Middleware/Guarding.antt =====
-- What an application may rely on once the guard has let it go on.
use vexyl_guard.Prelude.{
  ℕ, ◌≤◌, String, Bool, true, false, Option, none, some, List, ◌≡◌, refl, ap, sym, ◌∙◌, arith, pos,
  if◌then◌else◌, subst, eq_iff,
}
use vexyl_guard.Outcome.{Outcome, raised, returned, bind-returned, raised-returned}
use vexyl_guard.Python.{Python, Json, null, bool, int, float, str, arr, obj, Fields, get}
use vexyl_guard.Client.{validate_gateway_response, policy_exit_code}
use vexyl_guard.Client.Acceptance.{IsAccepted, validate-IsAccepted}
use vexyl_guard.Middleware.{
  allowed, denied, client_score, guard_score, is_zero, require_allowed, guarded,
}

-- An exit code of 0 means a score under 50 and no denial.
zero_code :
    (score : ℕ) (deny : Bool) → 0 ≡ policy_exit_code score deny → (score ≤ 49) × (deny ≡ false)
unfolding policy_exit_code
zero_code score deny e = (ground arith, ground arith)

module _ {F : Type 0} where
  chosen :
      (b : Bool) (given answer : Fields F)
      → (if b then allowed given else denied given) ≡ allowed answer
      → (b ≡ true) × (given ≡ answer)
  chosen true given answer e = (refl, cc)
  chosen false given answer e = absurd (ground arith)

  guarded-allowed :
      (py : Python F) (outcome : Outcome (Fields F)) (answer : Fields F)
      → guarded py outcome ≡ allowed answer
      → (outcome ≡ returned answer) × (is_zero py (get "policy_exit_code" answer) ≡ true)
  guarded-allowed py (raised message) answer e = absurd (ground arith)
  guarded-allowed py (returned given) answer e =
      let (zero, same) = chosen _ given answer e in
      (ap returned same, ap (λ f. is_zero py (get "policy_exit_code" f)) (sym same) ∙ zero)

  -- What the application may rely on.
  pub record IsAllowed (answer : Fields F) (event_id : String) : Type 0 where
    pub decision : Fields F
    pub score : ℕ
    pub has_decision : get "decision" answer ≡ obj decision
    pub is_event : get "event_id" decision ≡ str event_id
    pub has_score : get "score" decision ≡ int (pos score)
    pub score_bound : score ≤ 49
    pub not_denied : get "deny_tool_call" decision ≡ bool false

  module _ (first_sorted : List String → String) where
    validated :
        (answer : Json F) (expected : Option String) (fields : Fields F)
        → validate_gateway_response first_sorted answer expected ≡ returned fields
        → IsAccepted fields expected
    unfolding validate_gateway_response
    validated null expected fields e = absurd (raised-returned e)
    validated (bool b) expected fields e = absurd (raised-returned e)
    validated (int n) expected fields e = absurd (raised-returned e)
    validated (float f) expected fields e = absurd (raised-returned e)
    validated (str t) expected fields e = absurd (raised-returned e)
    validated (arr vs) expected fields e = absurd (raised-returned e)
    validated (obj given) expected fields e =
        let (same, accepted) = validate-IsAccepted first_sorted given expected fields e in
        subst (λ f. IsAccepted f expected) (sym same) accepted

    zero_exit : (py : Python F) (v : Json F) (n : ℕ) → v ≡ int (pos n) → is_zero py v ≡ true → n ≡ 0
    unfolding is_zero
    zero_exit py v n e h =
        let zero : is_zero py (int (pos n)) ≡ true = ap (is_zero py) (sym e) ∙ h in ground arith

    accepted-IsAllowed :
        (py : Python F) (answer : Fields F) (event_id : String)
        → IsAccepted answer (some event_id)
        → is_zero py (get "policy_exit_code" answer) ≡ true
        → IsAllowed answer event_id
    accepted-IsAllowed py answer event_id accepted zero =
        let c = accepted.consistent in
        let none_left = zero_exit py _ accepted.exit_code accepted.has_exit_code zero in
        let (bound, no_denial) = zero_code c.score c.deny (sym none_left ∙ c.has_exit_code) in
        record {
          decision = accepted.decision;
          score = c.score;
          has_decision = accepted.has_decision;
          is_event = c.has_event_id ∙ ap str ((eq_iff _ _).0 c.matches_request);
          has_score = c.has_score;
          score_bound = bound;
          not_denied = c.has_deny ∙ ap bool no_denial;
        }

    -- If `require_allowed` returns, then the response holds a decision on the event that was asked
    -- about, with a score under 50 and no denial of the tool call.
    pub require_allowed-IsAllowed :
        (py : Python F) (response : Outcome (Json F)) (event_id : String) (answer : Fields F)
        → require_allowed first_sorted py response event_id ≡ allowed answer
        → IsAllowed answer event_id
    unfolding require_allowed guard_score client_score
    require_allowed-IsAllowed py response event_id answer e =
        let (scored, zero) = guarded-allowed py _ answer e in
        let (first, asked, again) = bind-returned _ _ _ scored in
        let (given, received, valid) = bind-returned _ _ _ asked in
        let same = (validate-IsAccepted first_sorted first none answer again).0 in
        let accepted = validated given (some event_id) first valid in
        accepted-IsAllowed py answer event_id
          (subst (λ f. IsAccepted f (some event_id)) (sym same) accepted) zero
