-- ===== src/Scoring/Event.antt =====
-- `score_ai_event` of intel/scoring.py. The attack index and the runtime history are arguments: the
-- code loads them from the database, and does not change them.
use vexyl_guard.Prelude.{String}
use vexyl_guard.Python.{Python, Fields, normalize}
use vexyl_guard.Models.{RuntimeAiEvent, RiskDecision}
use vexyl_guard.Scoring.Terms.{rule_terms}
use vexyl_guard.Scoring.Accumulator.{AttackIndex, Step, ◌>>◌, History, new_accumulator, decision}
use vexyl_guard.Scoring.Stages.{
  event_text, term_rules, external_rules, sensitive_rules, tool_rules, egress_rules, memory_rules,
  code_execution_rules, high_impact_rules, cross_tenant_rules, budget_rules,
}
use vexyl_guard.Scoring.Plan.{evaluate_plan_scope, apply_verified_mitigations}
use vexyl_guard.Scoring.Agentic.{evaluate_agentic_context_policy}
use vexyl_guard.Scoring.Correlation.{evaluate_runtime_correlation}

module _ {F : Type 0} (py : Python F) (index : AttackIndex) (ev : RuntimeAiEvent F)
    (history : History (Fields F)) where
  unfoldable pub lowered_text : String
  lowered_text = normalize py (event_text py index ev)

  -- the stages before the tool's policy
  unfoldable pub content_stages : Step
  content_stages = do
    term_rules py index ev lowered_text rule_terms
    external_rules py index ev lowered_text
    sensitive_rules py index ev lowered_text

  -- the stages between the tool's policy and the agentic policy
  unfoldable pub action_stages : Step
  action_stages = do
    egress_rules py index ev
    memory_rules py index ev lowered_text
    code_execution_rules py index ev lowered_text
    high_impact_rules py index ev lowered_text
    cross_tenant_rules py index ev lowered_text
    budget_rules py index ev
    evaluate_plan_scope py index ev lowered_text

  -- the stages after the tool's policy
  unfoldable pub later_stages : Step
  later_stages = do
    action_stages
    evaluate_agentic_context_policy py index ev
    evaluate_runtime_correlation py index ev history lowered_text
    apply_verified_mitigations py index ev

  unfoldable pub scoring_stages : Step
  scoring_stages = do content_stages; tool_rules py index ev lowered_text; later_stages

  unfoldable pub score_ai_event : RiskDecision
  score_ai_event = decision py ev (scoring_stages.run (new_accumulator py ev))
