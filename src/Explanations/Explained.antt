-- ===== src/Explanations/Explained.antt =====
-- What an explanation of intel/explanations.py says of the decision.
use vexyl_guard.Prelude.{
  ℕ, suc, ◌≤◌, String, Bool, true, false, Option, none, List, [], ◌∷◌, ◌++◌, length, length-append,
  ◌≡◌, inl, inr, refl, sym, ap, ◌∙◌, subst, arith, ltb, leb, ◌==◌, if◌then◌else◌, member,
  Bool-cases, is_empty, ◌&&◌, truthy, eq_iff,
}
use vexyl_guard.Outcome.{returned, bind-returned, returned-inj}
use vexyl_guard.Python.{Python}
use vexyl_guard.Models.{RiskDecision}
use vexyl_guard.Gateway.{decision_policy_exit_code}
use vexyl_guard.Scoring.Invariants.{Distinct, Distinct-append}
use vexyl_guard.Explanations.{ExplanationFactor, DecisionExplanation}
use vexyl_guard.Explanations.Document.{rule_pattern}
use vexyl_guard.Explanations.Factors.{AttackDetail, Progress}
use vexyl_guard.Explanations.Explain.{
  outcome_of, explained_exit_code, denied_factor, or_no_factor, with_denial, recount, nothing_seen,
  add_correlation, correlation_factor, rule_progress, mitigation_progress, all_factors,
  explanation_of, explain_decision,
}
use vexyl_guard.Explanations.Parsed.{decision_from_document-≡}
use vexyl_guard.Explanations.Distinct.{
  denied_code, codes, codes-append, IsTracked, add_unseen-IsTracked, relax, add_contexts-IsTracked,
  add_mitigations-IsTracked, add_rules-IsCounted,
}

-- The explanation of a decision: one factor for a code, at least one and 194 at most; the decision's
-- score and the gateway's exit code; the denial of a tool's call, as the outcome and as a factor;
-- and the outcome `allow` for what the gateway lets pass only.
pub record IsExplained (decision : RiskDecision) (e : DecisionExplanation) : Type 0 where
  pub distinct : Distinct (codes e.factors)
  pub nonempty : is_empty e.factors ≡ false
  pub few : length e.factors ≤ 194
  pub same_score : e.score ≡ decision.score
  pub same_exit_code : e.policy_exit_code ≡ decision_policy_exit_code decision
  pub denied :
      decision.deny_tool_call ≡ true
      → (e.outcome ≡ "block") × (member denied_code (codes e.factors) ≡ true)
  pub allowed : e.outcome ≡ "allow" → decision_policy_exit_code decision ≡ 0

or_no_factor-Distinct :
    (factors : List ExplanationFactor)
    → Distinct (codes factors)
    → Distinct (codes (or_no_factor factors))
unfolding or_no_factor member
or_no_factor-Distinct [] h = (refl, tt)
or_no_factor-Distinct (factor ∷ factors) h = h

or_no_factor-nonempty : (factors : List ExplanationFactor) → is_empty (or_no_factor factors) ≡ false
unfolding or_no_factor is_empty
or_no_factor-nonempty [] = refl
or_no_factor-nonempty (factor ∷ factors) = refl

or_no_factor-few :
    (n : ℕ) (factors : List ExplanationFactor)
    → length factors ≤ suc n
    → length (or_no_factor factors) ≤ suc n
unfolding or_no_factor
or_no_factor-few n [] h = omega arith
or_no_factor-few n (factor ∷ factors) h = h

member-last : (x : String) (xs : List String) → member x (xs ++ x ∷ []) ≡ true
unfolding member
member-last x [] = ground (arith, (eq_iff x x).1 refl)
member-last x (y ∷ ys) = ground (arith, member-last x ys)

or_no_factor-member :
    (x : String) (factors : List ExplanationFactor)
    → member x (codes factors) ≡ true
    → member x (codes (or_no_factor factors)) ≡ true
unfolding or_no_factor member
or_no_factor-member x [] h = absurd (ground arith)
or_no_factor-member x (factor ∷ factors) h = h

module _ (p : Progress) (t : IsTracked 193 p) where
  with_denial-Distinct : (deny : Bool) → Distinct (codes (with_denial deny p.factors))
  unfolding with_denial
  with_denial-Distinct false = subst Distinct t.seen t.distinct
  with_denial-Distinct true = subst Distinct (sym (codes-append p.factors denied_factor)) (
      Distinct-append denied_code (codes p.factors) (subst Distinct t.seen t.distinct)
        (subst (λ seen. member denied_code seen ≡ false) t.seen t.no_denial))

  with_denial-few : (deny : Bool) → length (with_denial deny p.factors) ≤ 194
  unfolding with_denial
  with_denial-few false = omega (arith, t.few)
  with_denial-few true = omega (arith, t.few, length-append p.factors (denied_factor ∷ []))

  with_denial-member :
      (deny : Bool) → deny ≡ true → member denied_code (codes (with_denial deny p.factors)) ≡ true
  unfolding with_denial
  with_denial-member false h = absurd (ground arith)
  with_denial-member true h =
      subst (λ found. member denied_code found ≡ true) (sym (codes-append p.factors denied_factor))
        (member-last denied_code (codes p.factors))

exit_code-same : (d : RiskDecision) → explained_exit_code d ≡ decision_policy_exit_code d
unfolding explained_exit_code decision_policy_exit_code
exit_code-same d = refl

-- A conditional whose first branch is another text takes the second one.
allow_if :
    (b : Bool) (s x : String)
    → (s == "allow") ≡ false
    → (if b then s else x) ≡ "allow"
    → (b ≡ false) × (x ≡ "allow")
allow_if true s x h e = absurd (ground (arith, (eq_iff s "allow").1 e))
allow_if false s x h e = (refl, e)

no_allow : (s : String) → (s == "allow") ≡ false → s ≡ "allow" → ⊥
no_allow s h e = absurd (ground (arith, (eq_iff s "allow").1 e))

outcome-allow : (d : RiskDecision) → outcome_of d ≡ "allow" → decision_policy_exit_code d ≡ 0
unfolding outcome_of decision_policy_exit_code
outcome-allow d h =
    let (undenied, by_score) = allow_if d.deny_tool_call "block" _ refl h in
    elim (Bool-cases (leb d.score 24)) [
      | inl low ↦ ground arith
      | inr higher ↦
          let h₁ = rw higher at by_score in
          let (over, h₂) = allow_if (leb d.score 49) "warn" _ refl h₁ in
          let (above, h₃) = allow_if (leb d.score 69) "approval_required" _ refl h₂ in
          let (beyond, h₄) = allow_if (leb d.score 84) "quarantine" "block" refl h₃ in
          absurd (no_allow "block" refl h₄)
    ]

outcome-block : (d : RiskDecision) → d.deny_tool_call ≡ true → outcome_of d ≡ "block"
unfolding outcome_of
outcome-block d h = rw h refl

module _ {F : Type 0} (py : Python F) (first_sorted : List String → String)
    (index : String → Option AttackDetail) (no_rule : py.re_groups rule_pattern denied_code ≡ none)
    (d : RiskDecision) where
  nothing-IsTracked : IsTracked 0 nothing_seen
  unfolding member
  nothing-IsTracked = record { seen = refl; distinct = tt; no_denial = refl; few = omega arith }

  recount-IsTracked : (bound : ℕ) (p : Progress) → IsTracked bound p → IsTracked bound (recount p)
  recount-IsTracked bound p t = record {
    seen = t.seen;
    distinct = t.distinct;
    no_denial = t.no_denial;
    few = t.few;
  }

  add_correlation-IsTracked :
      (bound : ℕ) (p : Progress)
      → IsTracked bound p
      → IsTracked (suc bound) (add_correlation py first_sorted index d p)
  unfolding add_correlation correlation_factor
  add_correlation-IsTracked bound p t =
      elim (Bool-cases (truthy d.correlation_scope && ltb 0 d.correlated_event_count)) [
        | inl some_events ↦ rw some_events (add_unseen-IsTracked bound _ p refl t)
        | inr no_events ↦ rw no_events (relax bound (suc bound) p (omega arith) t)
      ]

  final-IsTracked :
      length d.reasons ≤ 64
      → length d.mitigations_applied ≤ 32
      → IsTracked 193
          (add_correlation py first_sorted index d (mitigation_progress py first_sorted index d))
  unfolding mitigation_progress rule_progress
  final-IsTracked reasons mitigations =
      let rules =
        add_rules-IsCounted py first_sorted index no_rule d.matched_rules nothing_seen
          (nothing-IsTracked, omega arith) in
      let with_contexts = add_contexts-IsTracked _ d.reasons _ rules.0 in
      let with_mitigations =
        add_mitigations-IsTracked _ d.mitigations_applied _ (recount-IsTracked _ _ with_contexts) in
      relax _ 193 _ (omega (arith, rules.1)) (add_correlation-IsTracked _ _ with_mitigations)

  explanation-IsExplained :
      length d.reasons ≤ 64
      → length d.mitigations_applied ≤ 32
      → IsExplained d (explanation_of py first_sorted index d)
  unfolding explanation_of all_factors
  explanation-IsExplained reasons mitigations =
      let t = final-IsTracked reasons mitigations in
      record {
        distinct = or_no_factor-Distinct _ (with_denial-Distinct _ t d.deny_tool_call);
        nonempty = or_no_factor-nonempty _;
        few = or_no_factor-few 193 _ (with_denial-few _ t d.deny_tool_call);
        same_score = refl;
        same_exit_code = exit_code-same d;
        denied = λ deny. (
          outcome-block d deny,
          or_no_factor-member denied_code _ (with_denial-member _ t d.deny_tool_call deny),
        );
        allowed = outcome-allow d;
      }

-- Where the pattern of a rule's id does not match the code of a denial: if a decision is explained,
-- then the explanation has one factor for each code, at least one and 194 at most, the decision's
-- own score and the exit code that the gateway gives it; where the call of a tool is denied, the
-- outcome is `block` and a factor says so; and the outcome is `allow` only where the gateway's exit
-- code is 0.
pub explain_decision-IsExplained :
    {F : Type 0} (py : Python F) (first_sorted : List String → String)
    (index : String → Option AttackDetail) (decision : RiskDecision) (e : DecisionExplanation)
    → py.re_groups rule_pattern denied_code ≡ none
    → explain_decision py first_sorted index decision ≡ returned e
    → IsExplained decision e
unfolding explain_decision
explain_decision-IsExplained py first_sorted index decision e no_rule h =
    let (checked, read, made) = bind-returned _ _ _ h in
    let (same, rules, reasons, mitigations) =
      decision_from_document-≡ py first_sorted decision checked read in
    let explained =
      explanation-IsExplained py first_sorted index no_rule decision reasons mitigations in
    subst (IsExplained decision)
      (ap (explanation_of py first_sorted index) (sym same) ∙ returned-inj made) explained
