-- ===== src/Scoring/Keeps/Correlation.antt =====
-- The correlation rules keep what the operations keep.
use vexyl_guard.Prelude.{ℕ, String, true, ℤ, truthy}
use vexyl_guard.Python.{Python, Fields}
use vexyl_guard.Models.{RuntimeAiEvent}
use vexyl_guard.Scoring.Predicates.{current_tool}
use vexyl_guard.Scoring.Accumulator.{
  AttackIndex, add_attack_extra, add_context_score, require_score, require_final_score,
  apply_mitigation, set_deny, History, set_correlation_context,
}
use vexyl_guard.Scoring.Keeps.{Predicate, Keeps, keeps_rules, Keeps-then, Keeps-on}
use vexyl_guard.Scoring.Keeps.Policies.{Keeps-evaluate_model_identity_policy}
use vexyl_guard.Scoring.Correlation.{
  external_to_memory_rule, external_to_tool_rule, memory_to_tool_rule, sensitive_egress_rule,
  tool_loop_rule, runtime_budget_rule, model_extraction_rule, correlation_rules,
  evaluate_runtime_correlation,
}

module _ {F : Type 0} (py : Python F) (index : AttackIndex) (ev : RuntimeAiEvent F) {P : Predicate}
    (attack : (attack_id slug reason : String) (extra : ℕ)
      → Keeps P (add_attack_extra index attack_id slug reason extra))
    (context : (points : ℕ) (reason : String) → Keeps P (add_context_score points reason))
    (require : (minimum : ℕ) → Keeps P (require_score minimum))
    (floor : (minimum : ℕ) → Keeps P (require_final_score minimum))
    (mitigation : (name : String) (delta : ℤ) → Keeps P (apply_mitigation name delta))
    (correlated : (history : History (Fields F)) → Keeps P (set_correlation_context history))
    (denied : Keeps P (set_deny true)) (named : Keeps P (set_deny (truthy ev.tool_name)))
    (tooled : Keeps P (set_deny (current_tool ev))) where
  pub Keeps-external_to_memory_rule :
      (history : History (Fields F)) (lowered : String)
      → Keeps P (external_to_memory_rule py index ev history lowered)
  unfolding external_to_memory_rule
  Keeps-external_to_memory_rule history lowered = search keeps_rules depth 9

  pub Keeps-external_to_tool_rule :
      (history : History (Fields F)) → Keeps P (external_to_tool_rule py index ev history)
  unfolding external_to_tool_rule
  Keeps-external_to_tool_rule history = search keeps_rules depth 9

  pub Keeps-memory_to_tool_rule :
      (history : History (Fields F)) → Keeps P (memory_to_tool_rule py index ev history)
  unfolding memory_to_tool_rule
  Keeps-memory_to_tool_rule history = search keeps_rules depth 9

  pub Keeps-sensitive_egress_rule :
      (history : History (Fields F)) → Keeps P (sensitive_egress_rule py index ev history)
  unfolding sensitive_egress_rule
  Keeps-sensitive_egress_rule history = search keeps_rules depth 9

  pub Keeps-tool_loop_rule :
      (history : History (Fields F)) → Keeps P (tool_loop_rule py index ev history)
  unfolding tool_loop_rule
  Keeps-tool_loop_rule history = search keeps_rules depth 9

  pub Keeps-runtime_budget_rule :
      (history : History (Fields F)) → Keeps P (runtime_budget_rule py index ev history)
  unfolding runtime_budget_rule
  Keeps-runtime_budget_rule history = search keeps_rules depth 9

  pub Keeps-model_extraction_rule :
      (history : History (Fields F)) → Keeps P (model_extraction_rule py index ev history)
  unfolding model_extraction_rule
  Keeps-model_extraction_rule history = search keeps_rules depth 9

  pub Keeps-correlation_rules :
      (history : History (Fields F)) (lowered : String)
      → Keeps P (correlation_rules py index ev history lowered)
  unfolding correlation_rules
  Keeps-correlation_rules history lowered =
      search
        (
          keeps_rules, Keeps-external_to_memory_rule, Keeps-external_to_tool_rule,
          Keeps-memory_to_tool_rule, Keeps-sensitive_egress_rule, Keeps-tool_loop_rule,
          Keeps-runtime_budget_rule, Keeps-model_extraction_rule,
        )
        depth 9

  pub Keeps-evaluate_runtime_correlation :
      (history : History (Fields F)) (lowered : String)
      → Keeps P (evaluate_runtime_correlation py index ev history lowered)
  unfolding evaluate_runtime_correlation
  Keeps-evaluate_runtime_correlation history lowered =
      let identity =
        Keeps-evaluate_model_identity_policy py index ev attack context require floor mitigation
          correlated denied named tooled in
      Keeps-on _ _ _ identity (Keeps-then _ _ (Keeps-correlation_rules history lowered) identity)
