-- ===== src/Explanations/Explain.antt =====
-- `explain_decision` of intel/explanations.py, and what it says beside the factors.
use Prim.Native.String
use vexyl_guard.Prelude.{
  ℕ, ◌+◌, ◌-◌, String, Bool, ◌&&◌, ◌||◌, Option, List, [], ◌∷◌, ◌++◌, pos, length, leb, ltb,
  if◌then◌else◌, truthy, or_empty,
}
use vexyl_guard.Outcome.{Outcome, returned, ◌>>=◌}
use vexyl_guard.Python.{Python, int, obj}
use vexyl_guard.Models.{RiskDecision}
use vexyl_guard.Explanations.{ExplanationFactor, DecisionExplanation}
use vexyl_guard.Explanations.Document.{decision_from_document, decision_to_dict}
use vexyl_guard.Explanations.Factors.{
  AttackDetail, Progress, plain_factor, add_unseen, add_contexts, add_mitigations,
  recognized_reasons, add_rules,
}

unfoldable pub risk_band_for : ℕ → String
risk_band_for score =
    if leb score 24
    then "low"
    else if leb score 49
    then "guarded"
    else if leb score 69
    then "high"
    else if leb score 84
    then "severe"
    else "critical"

unfoldable pub outcome_of : RiskDecision → String
outcome_of decision =
    if decision.deny_tool_call
    then "block"
    else if leb decision.score 24
    then "allow"
    else if leb decision.score 49
    then "warn"
    else if leb decision.score 69
    then "approval_required"
    else if leb decision.score 84
    then "quarantine"
    else "block"

unfoldable pub explained_exit_code : RiskDecision → ℕ
explained_exit_code decision =
    if decision.deny_tool_call || leb 70 decision.score
    then 4
    else if leb 50 decision.score
    then 3
    else 0

unfoldable pub summary_for : RiskDecision → ℕ → String
summary_for decision exit_code =
    if decision.deny_tool_call
    then "Keep the associated tool action blocked and review the listed factors."
    else if leb 4 exit_code && leb exit_code 4
    then "Quarantine the affected action and open an incident when required by policy."
    else if leb 3 exit_code && leb exit_code 3
    then "Do not proceed without an independent policy verifier or authorized human approval."
    else if leb 25 decision.score
    then "The action may proceed only under normal policy with the warning recorded."
    else "The action may proceed under normal policy with the decision recorded."

unfoldable pub steps_for : RiskDecision → ℕ → List String
steps_for decision exit_code =
    if decision.deny_tool_call || leb 4 exit_code && leb exit_code 4
    then "Keep the affected action blocked or quarantined."
      ∷ "Review the stable factor codes against the authorized task and tool policy."
      ∷ "Preserve only redacted decision facts in the incident record." ∷ []
    else if leb 3 exit_code && leb exit_code 3
    then "Pause the action pending independent verification or authorized human approval."
      ∷ "Confirm tool scope, data boundary, and reversibility before retrying." ∷ []
    else if leb 25 decision.score
    then "Record the warning and review the listed factor codes."
      ∷ "Escalate if related events recur or the action gains additional capability." ∷ []
    else "Record the decision under the normal retention policy." ∷ []

abbrev pub denied_factor : ExplanationFactor
denied_factor =
    plain_factor "policy:tool_action_denied" "policy" "Tool boundary denied"
      "The associated tool action must not proceed under this decision." "sets_boundary"

abbrev pub no_factor : ExplanationFactor
no_factor =
    plain_factor "policy:no_elevated_factors" "policy" "No elevated factors"
      "No known defensive rule or scored context factor matched." "informational"

-- `if not factors: factors.append(…)`
unfoldable pub or_no_factor : List ExplanationFactor → List ExplanationFactor
or_no_factor [] = no_factor ∷ []
or_no_factor (factor ∷ factors) = factor ∷ factors

unfoldable pub with_denial : Bool → List ExplanationFactor → List ExplanationFactor
with_denial deny factors = if deny then factors ++ denied_factor ∷ [] else factors

-- the counter of a loop starts at zero
abbrev pub recount : Progress → Progress
recount p = record p { included = 0 }

abbrev pub nothing_seen : Progress
nothing_seen = record { factors = []; seen_codes = []; included = 0 }

module _ {F : Type 0} (py : Python F) (first_sorted : List String → String)
    (index : String → Option AttackDetail) where
  unfoldable pub correlation_factor : RiskDecision → ExplanationFactor
  correlation_factor decision =
      plain_factor "context:correlated_activity" "correlation" "Correlated activity"
        (String.◌++◌ (py.str_of (int (pos decision.correlated_event_count))) (
          String.◌++◌ " prior derived event(s) within " (
            String.◌++◌ (py.str_of (int decision.correlation_window_seconds)) (
              String.◌++◌ " seconds contributed under the "
                (String.◌++◌ (or_empty decision.correlation_scope) " boundary.")))))
        "raises_risk"

  unfoldable pub add_correlation : RiskDecision → Progress → Progress
  add_correlation decision p =
      if truthy decision.correlation_scope && ltb 0 decision.correlated_event_count
      then add_unseen (correlation_factor decision) p
      else p

  unfoldable pub rule_progress : RiskDecision → Progress
  rule_progress decision = add_rules py first_sorted index decision.matched_rules nothing_seen

  unfoldable pub mitigation_progress : RiskDecision → Progress
  mitigation_progress decision =
      add_mitigations decision.mitigations_applied
        (recount (add_contexts decision.reasons (rule_progress decision)))

  unfoldable pub all_factors : RiskDecision → List ExplanationFactor
  all_factors decision = or_no_factor (
      with_denial decision.deny_tool_call
        (add_correlation decision (mitigation_progress decision)).factors)

  -- A loop includes no more than it goes through, so that the last two differences are not negative.
  unfoldable pub omitted_factors : RiskDecision → ℕ
  omitted_factors decision =
      (length decision.reasons
        - recognized_reasons decision.reasons
        - length decision.matched_rules)
      + (length decision.matched_rules - (rule_progress decision).included)
      + (length decision.mitigations_applied - (mitigation_progress decision).included)

  unfoldable pub explanation_of : RiskDecision → DecisionExplanation
  explanation_of decision = record {
    event_ref = py.uuid decision.event_id;
    score = decision.score;
    risk_band = risk_band_for decision.score;
    outcome = outcome_of decision;
    policy_exit_code = explained_exit_code decision;
    suggested_action = decision.suggested_action;
    operator_summary = summary_for decision (explained_exit_code decision);
    trust_level = decision.trust_level;
    factors = all_factors decision;
    next_steps = steps_for decision (explained_exit_code decision);
    omitted_factor_count = omitted_factors decision;
  }

  unfoldable pub explain_decision : RiskDecision → Outcome DecisionExplanation
  explain_decision decision = do
    checked ← decision_from_document py first_sorted (obj (decision_to_dict decision))
    returned (explanation_of checked)
