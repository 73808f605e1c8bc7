-- ===== src/Scoring/Keeps/Stages.antt =====
-- The stages that `score_ai_event` writes out keep what the operations keep.
use vexyl_guard.Prelude.{ℕ, String, true, ℤ, List, [], ◌∷◌, truthy}
use vexyl_guard.Python.{Python, Fields}
use vexyl_guard.Models.{RuntimeAiEvent}
use vexyl_guard.Scoring.Predicates.{current_tool}
use vexyl_guard.Scoring.Terms.{Rule}
use vexyl_guard.Scoring.Accumulator.{
  AttackIndex, add_attack_extra, add_context_score, require_score, require_final_score,
  apply_mitigation, set_deny, History, set_correlation_context,
}
use vexyl_guard.Scoring.Keeps.{Predicate, Keeps, keeps_rules, Keeps-skip, Keeps-then}
use vexyl_guard.Scoring.Keeps.Policies.{Keeps-evaluate_tool_policy}
use vexyl_guard.Scoring.Stages.{
  term_rules, external_rules, sensitive_rules, tool_rules, egress_rules, memory_rules,
  code_execution_rules, high_impact_rules, cross_tenant_rules, budget_rules,
}

module _ {F : Type 0} (py : Python F) (index : AttackIndex) (ev : RuntimeAiEvent F) {P : Predicate}
    (attack : (attack_id slug reason : String) (extra : ℕ)
      → Keeps P (add_attack_extra index attack_id slug reason extra))
    (context : (points : ℕ) (reason : String) → Keeps P (add_context_score points reason))
    (require : (minimum : ℕ) → Keeps P (require_score minimum))
    (floor : (minimum : ℕ) → Keeps P (require_final_score minimum))
    (mitigation : (name : String) (delta : ℤ) → Keeps P (apply_mitigation name delta))
    (correlated : (history : History (Fields F)) → Keeps P (set_correlation_context history))
    (denied : Keeps P (set_deny true)) (named : Keeps P (set_deny (truthy ev.tool_name)))
    (tooled : Keeps P (set_deny (current_tool ev))) where
  pub Keeps-term_rules :
      (lowered : String) (rules : List Rule) → Keeps P (term_rules py index ev lowered rules)
  unfolding term_rules
  Keeps-term_rules lowered [] = Keeps-skip
  Keeps-term_rules lowered (rule ∷ rules) =
      Keeps-then _ _ (search keeps_rules) (Keeps-term_rules lowered rules)

  pub Keeps-tool_rules : (lowered : String) → Keeps P (tool_rules py index ev lowered)
  unfolding tool_rules
  Keeps-tool_rules lowered =
      search
        (
          keeps_rules,
          Keeps-evaluate_tool_policy py index ev attack context require floor mitigation correlated
              denied named tooled,
        )
        depth 9

  pub Keeps-external_rules : (lowered : String) → Keeps P (external_rules py index ev lowered)
  unfolding external_rules
  Keeps-external_rules lowered = search keeps_rules depth 9

  pub Keeps-sensitive_rules : (lowered : String) → Keeps P (sensitive_rules py index ev lowered)
  unfolding sensitive_rules
  Keeps-sensitive_rules lowered = search keeps_rules depth 9

  pub Keeps-egress_rules : Keeps P (egress_rules py index ev)
  unfolding egress_rules
  Keeps-egress_rules = search keeps_rules depth 9

  pub Keeps-memory_rules : (lowered : String) → Keeps P (memory_rules py index ev lowered)
  unfolding memory_rules
  Keeps-memory_rules lowered = search keeps_rules depth 9

  pub Keeps-code_execution_rules :
      (lowered : String) → Keeps P (code_execution_rules py index ev lowered)
  unfolding code_execution_rules
  Keeps-code_execution_rules lowered = search keeps_rules depth 9

  pub Keeps-high_impact_rules : (lowered : String) → Keeps P (high_impact_rules py index ev lowered)
  unfolding high_impact_rules
  Keeps-high_impact_rules lowered = search keeps_rules depth 9

  pub Keeps-cross_tenant_rules :
      (lowered : String) → Keeps P (cross_tenant_rules py index ev lowered)
  unfolding cross_tenant_rules
  Keeps-cross_tenant_rules lowered = search keeps_rules depth 9

  pub Keeps-budget_rules : Keeps P (budget_rules py index ev)
  unfolding budget_rules
  Keeps-budget_rules = search keeps_rules depth 9
