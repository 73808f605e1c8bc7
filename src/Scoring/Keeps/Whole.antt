-- ===== src/Scoring/Keeps/Whole.antt =====
-- The whole of `score_ai_event` keeps what the operations keep.
use vexyl_guard.Prelude.{String}
use vexyl_guard.Python.{Python, Fields}
use vexyl_guard.Models.{RuntimeAiEvent}
use vexyl_guard.Scoring.Terms.{rule_terms}
use vexyl_guard.Scoring.Accumulator.{AttackIndex, ◌>>◌, History}
use vexyl_guard.Scoring.Keeps.{Predicate, Keeps, Keeps-then, Stable}
use vexyl_guard.Scoring.ToolPolicy.{
  action_identity_rules, user_scope_rules, action_policy_rules, privileged_surface_rules,
}
use vexyl_guard.Scoring.Plan.{apply_verified_mitigations}
use vexyl_guard.Scoring.Agentic.{
  evaluate_model_identity_policy, inter_agent_rule, orchestration_rule, approval_rationale_rule,
  rogue_rule,
}
use vexyl_guard.Scoring.Correlation.{
  external_to_tool_rule, memory_to_tool_rule, sensitive_egress_rule, tool_loop_rule,
  runtime_budget_rule, model_extraction_rule, evaluate_runtime_correlation,
}
use vexyl_guard.Scoring.Keeps.Policies.{
  Keeps-action_identity_rules, Keeps-user_scope_rules, Keeps-action_policy_rules,
  Keeps-privileged_surface_rules, Keeps-inter_agent_rule, Keeps-orchestration_rule,
  Keeps-approval_rationale_rule, Keeps-rogue_rule, Keeps-evaluate_plan_scope,
  Keeps-apply_verified_mitigations, Keeps-evaluate_agentic_context_policy,
  Keeps-evaluate_model_identity_policy,
}
use vexyl_guard.Scoring.Keeps.Stages.{
  Keeps-term_rules, Keeps-tool_rules, Keeps-external_rules, Keeps-sensitive_rules,
  Keeps-egress_rules, Keeps-memory_rules, Keeps-code_execution_rules, Keeps-high_impact_rules,
  Keeps-cross_tenant_rules, Keeps-budget_rules,
}
use vexyl_guard.Scoring.Keeps.Correlation.{
  Keeps-evaluate_runtime_correlation, Keeps-external_to_tool_rule, Keeps-memory_to_tool_rule,
  Keeps-sensitive_egress_rule, Keeps-tool_loop_rule, Keeps-runtime_budget_rule,
  Keeps-model_extraction_rule,
}
use vexyl_guard.Scoring.Stages.{sensitive_rules, tool_rules}
use vexyl_guard.Scoring.Event.{
  content_stages, action_stages, later_stages, scoring_stages, lowered_text,
}

module _ {F : Type 0} (py : Python F) (index : AttackIndex) (ev : RuntimeAiEvent F)
    (history : History (Fields F)) {P : Predicate} (s : Stable index ev P) where
  -- the parts of the tool's policy that follow its first part, its second and its third
  pub Keeps-privileged : (lowered : String) → Keeps P (privileged_surface_rules py index ev lowered)
  Keeps-privileged lowered =
      Keeps-privileged_surface_rules py index ev s.attack s.context s.require s.floor s.mitigation
        s.correlated s.denied s.named s.tooled lowered

  pub Keeps-after_scope :
      (lowered : String)
      → Keeps P (action_policy_rules py index ev >> privileged_surface_rules py index ev lowered)
  Keeps-after_scope lowered =
      Keeps-then _ _
        (Keeps-action_policy_rules py index ev s.attack s.context s.require s.floor s.mitigation
          s.correlated s.denied s.named s.tooled)
        (Keeps-privileged lowered)

  pub Keeps-after_action :
      (lowered : String)
      → Keeps P (
          user_scope_rules py index ev
          >> (action_policy_rules py index ev >> privileged_surface_rules py index ev lowered))
  Keeps-after_action lowered =
      Keeps-then _ _
        (Keeps-user_scope_rules py index ev s.attack s.context s.require s.floor s.mitigation
          s.correlated s.denied s.named s.tooled)
        (Keeps-after_scope lowered)

  pub Keeps-after_identity :
      (lowered : String)
      → Keeps P (
          action_identity_rules py index ev
          >> (user_scope_rules py index ev
              >> (action_policy_rules py index ev >> privileged_surface_rules py index ev lowered)))
  Keeps-after_identity lowered =
      Keeps-then _ _
        (Keeps-action_identity_rules py index ev s.attack s.context s.require s.floor s.mitigation
          s.correlated s.denied s.named s.tooled)
        (Keeps-after_action lowered)

  pub Keeps-after_correlation : Keeps P (evaluate_model_identity_policy py index ev)
  Keeps-after_correlation =
      Keeps-evaluate_model_identity_policy py index ev s.attack s.context s.require s.floor
        s.mitigation s.correlated s.denied s.named s.tooled

  pub Keeps-mitigations : Keeps P (apply_verified_mitigations py index ev)
  Keeps-mitigations =
      Keeps-apply_verified_mitigations py index ev s.attack s.context s.require s.floor s.mitigation
        s.correlated s.denied s.named s.tooled

  pub Keeps-external_to_tool_rule_of : Keeps P (external_to_tool_rule py index ev history)
  Keeps-external_to_tool_rule_of =
      Keeps-external_to_tool_rule py index ev s.attack s.context s.require s.floor s.mitigation
        s.correlated s.denied s.named s.tooled history

  pub Keeps-memory_to_tool_rule_of : Keeps P (memory_to_tool_rule py index ev history)
  Keeps-memory_to_tool_rule_of =
      Keeps-memory_to_tool_rule py index ev s.attack s.context s.require s.floor s.mitigation
        s.correlated s.denied s.named s.tooled history

  pub Keeps-sensitive_egress_rule_of : Keeps P (sensitive_egress_rule py index ev history)
  Keeps-sensitive_egress_rule_of =
      Keeps-sensitive_egress_rule py index ev s.attack s.context s.require s.floor s.mitigation
        s.correlated s.denied s.named s.tooled history

  pub Keeps-tool_loop_rule_of : Keeps P (tool_loop_rule py index ev history)
  Keeps-tool_loop_rule_of =
      Keeps-tool_loop_rule py index ev s.attack s.context s.require s.floor s.mitigation
        s.correlated s.denied s.named s.tooled history

  pub Keeps-runtime_budget_rule_of : Keeps P (runtime_budget_rule py index ev history)
  Keeps-runtime_budget_rule_of =
      Keeps-runtime_budget_rule py index ev s.attack s.context s.require s.floor s.mitigation
        s.correlated s.denied s.named s.tooled history

  pub Keeps-model_extraction_rule_of : Keeps P (model_extraction_rule py index ev history)
  Keeps-model_extraction_rule_of =
      Keeps-model_extraction_rule py index ev s.attack s.context s.require s.floor s.mitigation
        s.correlated s.denied s.named s.tooled history

  pub Keeps-inter_agent_rule_of : Keeps P (inter_agent_rule py index ev)
  Keeps-inter_agent_rule_of =
      Keeps-inter_agent_rule py index ev s.attack s.context s.require s.floor s.mitigation
        s.correlated s.denied s.named s.tooled

  pub Keeps-orchestration_rule_of : Keeps P (orchestration_rule py index ev)
  Keeps-orchestration_rule_of =
      Keeps-orchestration_rule py index ev s.attack s.context s.require s.floor s.mitigation
        s.correlated s.denied s.named s.tooled

  pub Keeps-approval_rationale_rule_of : Keeps P (approval_rationale_rule py index ev)
  Keeps-approval_rationale_rule_of =
      Keeps-approval_rationale_rule py index ev s.attack s.context s.require s.floor s.mitigation
        s.correlated s.denied s.named s.tooled

  pub Keeps-rogue_rule_of : Keeps P (rogue_rule py index ev)
  Keeps-rogue_rule_of =
      Keeps-rogue_rule py index ev s.attack s.context s.require s.floor s.mitigation s.correlated
        s.denied s.named s.tooled

  pub Keeps-correlation_of :
      Keeps P (evaluate_runtime_correlation py index ev history (lowered_text py index ev history))
  Keeps-correlation_of =
      Keeps-evaluate_runtime_correlation py index ev s.attack s.context s.require s.floor
        s.mitigation s.correlated s.denied s.named s.tooled history
        (lowered_text py index ev history)

  pub Keeps-sensitive : Keeps P (sensitive_rules py index ev (lowered_text py index ev history))
  Keeps-sensitive =
      Keeps-sensitive_rules py index ev s.attack s.context s.require s.floor s.mitigation
        s.correlated s.denied s.named s.tooled (lowered_text py index ev history)

  pub Keeps-content_stages : Keeps P (content_stages py index ev history)
  unfolding content_stages
  Keeps-content_stages =
      Keeps-then _ _
        (Keeps-term_rules py index ev s.attack s.context s.require s.floor s.mitigation s.correlated
          s.denied s.named s.tooled (lowered_text py index ev history) rule_terms)
        (Keeps-then _ _
          (Keeps-external_rules py index ev s.attack s.context s.require s.floor s.mitigation
            s.correlated s.denied s.named s.tooled (lowered_text py index ev history))
          Keeps-sensitive)

  pub Keeps-action_stages : Keeps P (action_stages py index ev history)
  unfolding action_stages
  Keeps-action_stages =
      Keeps-then _ _
        (Keeps-egress_rules py index ev s.attack s.context s.require s.floor s.mitigation
          s.correlated s.denied s.named s.tooled)
        (Keeps-then _ _
          (Keeps-memory_rules py index ev s.attack s.context s.require s.floor s.mitigation
            s.correlated s.denied s.named s.tooled (lowered_text py index ev history))
          (Keeps-then _ _
            (Keeps-code_execution_rules py index ev s.attack s.context s.require s.floor
              s.mitigation s.correlated s.denied s.named s.tooled
              (lowered_text py index ev history))
            (Keeps-then _ _
              (Keeps-high_impact_rules py index ev s.attack s.context s.require s.floor s.mitigation
                s.correlated s.denied s.named s.tooled (lowered_text py index ev history))
              (Keeps-then _ _
                (Keeps-cross_tenant_rules py index ev s.attack s.context s.require s.floor
                  s.mitigation s.correlated s.denied s.named s.tooled
                  (lowered_text py index ev history))
                (Keeps-then _ _
                  (Keeps-budget_rules py index ev s.attack s.context s.require s.floor s.mitigation
                    s.correlated s.denied s.named s.tooled)
                  ((Keeps-evaluate_plan_scope py index ev s.attack s.context s.require s.floor
                    s.mitigation s.correlated s.denied s.named s.tooled
                    (lowered_text py index ev history))))))))

  pub Keeps-later_stages : Keeps P (later_stages py index ev history)
  unfolding later_stages
  Keeps-later_stages = Keeps-then _ _ Keeps-action_stages (
      Keeps-then _ _
        (Keeps-evaluate_agentic_context_policy py index ev s.attack s.context s.require s.floor
          s.mitigation s.correlated s.denied s.named s.tooled)
        (Keeps-then _ _
          (Keeps-evaluate_runtime_correlation py index ev s.attack s.context s.require s.floor
            s.mitigation s.correlated s.denied s.named s.tooled history
            (lowered_text py index ev history))
          ((Keeps-apply_verified_mitigations py index ev s.attack s.context s.require s.floor
            s.mitigation s.correlated s.denied s.named s.tooled))))

  pub Keeps-after_content : Keeps P (
      tool_rules py index ev (lowered_text py index ev history) >> later_stages py index ev history)
  Keeps-after_content =
      Keeps-then _ _
        (Keeps-tool_rules py index ev s.attack s.context s.require s.floor s.mitigation s.correlated
          s.denied s.named s.tooled (lowered_text py index ev history))
        Keeps-later_stages

  pub Keeps-scoring_stages : Keeps P (scoring_stages py index ev history)
  unfolding scoring_stages
  Keeps-scoring_stages = Keeps-then _ _ Keeps-content_stages Keeps-after_content
