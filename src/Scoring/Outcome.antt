-- ===== src/Scoring/Outcome.antt =====
-- From the state at the end of the stages to the decision and its exit code.
use vexyl_guard.Prelude.{ℕ, ◌≤◌, true, ◌≡◌, arith, truthy}
use vexyl_guard.Python.{Python, Fields}
use vexyl_guard.Models.{RuntimeAiEvent, RiskDecision}
use vexyl_guard.Gateway.{decision_policy_exit_code}
use vexyl_guard.Scoring.Accumulator.{
  RiskAccumulator, AttackIndex, History, new_accumulator, decision, final_score,
}
use vexyl_guard.Scoring.Event.{score_ai_event, scoring_stages, later_stages, lowered_text}
use vexyl_guard.Scoring.Stages.{tool_rules}
use vexyl_guard.Scoring.Keeps.{Predicate, Ensures, Ensures-first, Ensures-last, Stable}
use vexyl_guard.Scoring.Keeps.Whole.{Keeps-later_stages}
use vexyl_guard.Scoring.Invariants.{AtLeast, IsDenied}

pub le-final_score : (k : ℕ) (acc : RiskAccumulator) → k ≤ 100 → AtLeast k acc → k ≤ final_score acc
unfolding final_score
le-final_score k acc small h = ground arith

pub final_score-le : (acc : RiskAccumulator) → final_score acc ≤ 100
unfolding final_score
final_score-le acc = omega arith

pub exit_code-of_score : (d : RiskDecision) → 70 ≤ d.score → decision_policy_exit_code d ≡ 4
unfolding decision_policy_exit_code
exit_code-of_score d h = ground arith

pub exit_code-of_denial :
    (d : RiskDecision) → d.deny_tool_call ≡ true → decision_policy_exit_code d ≡ 4
unfolding decision_policy_exit_code
exit_code-of_denial d h = ground arith

module _ {F : Type 0} (py : Python F) (index : AttackIndex) (ev : RuntimeAiEvent F)
    (history : History (Fields F)) where
  -- What the stages ensure of the floor is a bound on the score.
  pub floor-le-score :
      (k : ℕ)
      → k ≤ 100
      → Ensures (AtLeast k) (scoring_stages py index ev history)
      → k ≤ (score_ai_event py index ev history).score
  unfolding score_ai_event decision
  floor-le-score k small e =
      le-final_score k ((scoring_stages py index ev history).run (new_accumulator py ev)) small
        (e.at (new_accumulator py ev))

  pub denial-of_stages :
      Ensures IsDenied (scoring_stages py index ev history)
      → (score_ai_event py index ev history).deny_tool_call ≡ true
  unfolding score_ai_event decision
  denial-of_stages e = let h = e.at (new_accumulator py ev) in ground arith

  -- What the tool's policy ensures, the later stages keep.
  pub tool_rules-Ensures :
      {P : Predicate}
      → Stable index ev P
      → Ensures P (tool_rules py index ev (lowered_text py index ev history))
      → Ensures P (scoring_stages py index ev history)
  unfolding scoring_stages
  tool_rules-Ensures s e =
      Ensures-last _ _ (Ensures-first _ _ e (Keeps-later_stages py index ev history s))

  -- So with what the later stages ensure.
  pub later_stages-Ensures :
      {P : Predicate}
      → Ensures P (later_stages py index ev history)
      → Ensures P (scoring_stages py index ev history)
  unfolding scoring_stages
  later_stages-Ensures e = Ensures-last _ _ (Ensures-last _ _ e)

  -- A tool's call that scores 50 or more is denied.
  pub named_denial :
      truthy ev.tool_name ≡ true
      → 50 ≤ (score_ai_event py index ev history).score
      → (score_ai_event py index ev history).deny_tool_call ≡ true
  unfolding score_ai_event decision
  named_denial has_name h = ground arith
