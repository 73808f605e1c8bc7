-- ===== src/Scoring/Keeps/Policies.antt =====
-- The tool policy, the plan, the mitigations and the agentic policy keep what the operations keep.
use vexyl_guard.Prelude.{ℕ, String, true, ℤ, List, [], ◌∷◌, Option, none, some, truthy}
use vexyl_guard.Python.{Python, Fields, normalize_key}
use vexyl_guard.Models.{RuntimeAiEvent}
use vexyl_guard.Scoring.Predicates.{current_tool}
use vexyl_guard.Scoring.Accumulator.{
  AttackIndex, add_attack_extra, add_context_score, require_score, require_final_score,
  apply_mitigation, set_deny, History, set_correlation_context,
}
use vexyl_guard.Scoring.Keeps.{Predicate, Keeps, keeps_rules, Keeps-skip, Keeps-then, Keeps-on}
use vexyl_guard.Scoring.ToolPolicy.{
  tool_identity_rules, action_identity_rules, user_scope_rules, action_policy_rules,
  privileged_surface_rules, evaluate_tool_policy,
}
use vexyl_guard.Scoring.Plan.{
  plan_drift_rules, plan_approval_rules, evaluate_plan_scope, credit, mitigate,
  apply_verified_mitigations,
}
use vexyl_guard.Scoring.Agentic.{
  delegated_identity_rule, inter_agent_rule, orchestration_rule, approval_rationale_rule,
  rogue_rule, evaluate_agentic_context_policy, evaluate_model_identity_policy,
}

module _ {F : Type 0} (py : Python F) (index : AttackIndex) (ev : RuntimeAiEvent F) {P : Predicate}
    (attack : (attack_id slug reason : String) (extra : ℕ)
      → Keeps P (add_attack_extra index attack_id slug reason extra))
    (context : (points : ℕ) (reason : String) → Keeps P (add_context_score points reason))
    (require : (minimum : ℕ) → Keeps P (require_score minimum))
    (floor : (minimum : ℕ) → Keeps P (require_final_score minimum))
    (mitigation : (name : String) (delta : ℤ) → Keeps P (apply_mitigation name delta))
    (correlated : (history : History (Fields F)) → Keeps P (set_correlation_context history))
    (denied : Keeps P (set_deny true)) (named : Keeps P (set_deny (truthy ev.tool_name)))
    (tooled : Keeps P (set_deny (current_tool ev))) where
  pub Keeps-tool_identity_rules : Keeps P (tool_identity_rules py index ev)
  unfolding tool_identity_rules
  Keeps-tool_identity_rules = search keeps_rules depth 9

  pub Keeps-action_identity_rules : Keeps P (action_identity_rules py index ev)
  unfolding action_identity_rules
  Keeps-action_identity_rules = search keeps_rules depth 9

  pub Keeps-user_scope_rules : Keeps P (user_scope_rules py index ev)
  unfolding user_scope_rules
  Keeps-user_scope_rules = search keeps_rules depth 9

  pub Keeps-action_policy_rules : Keeps P (action_policy_rules py index ev)
  unfolding action_policy_rules
  Keeps-action_policy_rules = search keeps_rules depth 9

  pub Keeps-privileged_surface_rules :
      (lowered : String) → Keeps P (privileged_surface_rules py index ev lowered)
  unfolding privileged_surface_rules
  Keeps-privileged_surface_rules lowered = search keeps_rules depth 9

  pub Keeps-evaluate_tool_policy :
      (lowered : String) → Keeps P (evaluate_tool_policy py index ev lowered)
  unfolding evaluate_tool_policy
  Keeps-evaluate_tool_policy lowered =
      search
        (
          keeps_rules, Keeps-tool_identity_rules, Keeps-action_identity_rules,
          Keeps-user_scope_rules, Keeps-action_policy_rules, Keeps-privileged_surface_rules,
        )
        depth 9

  Keeps-plan_drift_rules : (actions : List String) → Keeps P (plan_drift_rules py index ev actions)
  unfolding plan_drift_rules
  Keeps-plan_drift_rules [] = Keeps-skip
  Keeps-plan_drift_rules (action ∷ actions) =
      Keeps-on _ _ _ (search keeps_rules) (Keeps-plan_drift_rules actions)

  pub Keeps-plan_approval_rules :
      (lowered : String) → Keeps P (plan_approval_rules py index ev lowered)
  unfolding plan_approval_rules
  Keeps-plan_approval_rules lowered = search keeps_rules depth 9

  pub Keeps-evaluate_plan_scope :
      (lowered : String) → Keeps P (evaluate_plan_scope py index ev lowered)
  unfolding evaluate_plan_scope
  Keeps-evaluate_plan_scope lowered =
      search (keeps_rules, Keeps-plan_drift_rules, Keeps-plan_approval_rules) depth 9

  Keeps-credit : (key : String) (o : Option ℤ) → Keeps P (credit py index ev key o)
  unfolding credit
  Keeps-credit key none = Keeps-skip
  Keeps-credit key (some delta) = mitigation key delta

  Keeps-mitigate : (raws seen : List String) → Keeps P (mitigate py index ev raws seen)
  unfolding mitigate
  Keeps-mitigate [] seen = search (keeps_rules, Keeps-credit)
  Keeps-mitigate (raw ∷ raws) seen =
      Keeps-on _ _ _ (Keeps-mitigate raws seen)
        (Keeps-then _ _ (Keeps-credit _ _) (Keeps-mitigate raws (normalize_key py raw ∷ seen)))

  pub Keeps-apply_verified_mitigations : Keeps P (apply_verified_mitigations py index ev)
  unfolding apply_verified_mitigations
  Keeps-apply_verified_mitigations = search Keeps-mitigate depth 9

  pub Keeps-delegated_identity_rule : Keeps P (delegated_identity_rule py index ev)
  unfolding delegated_identity_rule
  Keeps-delegated_identity_rule = search keeps_rules depth 9

  pub Keeps-inter_agent_rule : Keeps P (inter_agent_rule py index ev)
  unfolding inter_agent_rule
  Keeps-inter_agent_rule = search keeps_rules depth 9

  pub Keeps-orchestration_rule : Keeps P (orchestration_rule py index ev)
  unfolding orchestration_rule
  Keeps-orchestration_rule = search keeps_rules depth 9

  pub Keeps-approval_rationale_rule : Keeps P (approval_rationale_rule py index ev)
  unfolding approval_rationale_rule
  Keeps-approval_rationale_rule = search keeps_rules depth 9

  pub Keeps-rogue_rule : Keeps P (rogue_rule py index ev)
  unfolding rogue_rule
  Keeps-rogue_rule = search keeps_rules depth 9

  pub Keeps-evaluate_agentic_context_policy : Keeps P (evaluate_agentic_context_policy py index ev)
  unfolding evaluate_agentic_context_policy
  Keeps-evaluate_agentic_context_policy =
      search
        (
          keeps_rules, Keeps-delegated_identity_rule, Keeps-inter_agent_rule,
          Keeps-orchestration_rule, Keeps-approval_rationale_rule, Keeps-rogue_rule,
        )
        depth 9

  pub Keeps-evaluate_model_identity_policy : Keeps P (evaluate_model_identity_policy py index ev)
  unfolding evaluate_model_identity_policy
  Keeps-evaluate_model_identity_policy = search keeps_rules depth 9
