-- ===== src/Scoring/Stages.antt =====
-- The stages of `score_ai_event` (intel/scoring.py) that it writes out itself, in its order.
use Prim.Native.String
use vexyl_guard.Prelude.{
  String, Bool, not, ◌&&◌, ◌||◌, List, [], ◌∷◌, ◌++◌, pos, leb_ℤ, if◌then◌else◌, is_empty, join,
  member, contains_any, truthy, or_empty,
}
use vexyl_guard.Python.{Python, obj}
use vexyl_guard.Models.{RuntimeAiEvent}
use vexyl_guard.Scoring.Terms.{
  Rule, direct_injection_terms, indirect_injection_terms, sensitive_classes, code_execution_terms,
}
use vexyl_guard.Scoring.Predicates.{
  context_flag, is_external_event, is_memory_write, join_parts, scannable_context,
  has_high_impact_action, human_approval_present,
}
use vexyl_guard.Scoring.Accumulator.{
  AttackIndex, Step, ◌>>◌, on◌then◌else◌, skip, when, add_attack_extra, add_context_score,
  require_score, set_deny,
}
use vexyl_guard.Scoring.ToolPolicy.{evaluate_tool_policy}

module _ {F : Type 0} (py : Python F) (index : AttackIndex) (ev : RuntimeAiEvent F) where
  unfoldable pub event_text : String
  event_text = join_parts (
      or_empty ev.text_excerpt_redacted
      ∷ or_empty ev.tool_name
      ∷ or_empty ev.tool_action
      ∷ join " " ev.tool_permissions
      ∷ join " " ev.planned_actions
      ∷ py.dumps (obj (scannable_context ev.context))
      ∷ [])

  unfoldable pub term_rules : String → List Rule → Step
  term_rules lowered [] = skip
  term_rules lowered (rule ∷ rules) = do
    when (contains_any lowered rule.terms) (
        add_attack_extra index rule.attack_id rule.slug
          (String.◌++◌ "Matched defensive indicators for " (String.◌++◌ rule.attack_id ".")) 0)
    term_rules lowered rules

  unfoldable pub external_rules : String → Step
  external_rules lowered = when (is_external_event ev) do
    add_context_score 10 "Event content originated outside the trusted control plane."
    when (contains_any lowered (indirect_injection_terms ++ direct_injection_terms)) do
      add_attack_extra index "AI-PI-002" "external_instruction_takeover"
          "External/RAG content attempted to provide model or tool instructions." 6
      require_score 70
    when (member ev.data_origin ("system" ∷ "developer" ∷ [])) do
      add_attack_extra index "AI-PI-002" "external_claimed_control_trust"
          "External content was prevented from receiving system/developer trust." 10

  unfoldable pub sensitive_rules : String → Step
  sensitive_rules lowered = when (member ev.data_classification sensitive_classes) do
    add_context_score
        (if member ev.data_classification ("secret" ∷ "regulated" ∷ []) then 15 else 10)
        (String.◌++◌ "Sensitive data classification: " (String.◌++◌ ev.data_classification "."))
    when
        (truthy ev.network_destination
          || contains_any lowered ("send" ∷ "post" ∷ "upload" ∷ "email" ∷ "webhook" ∷ []))
        do
          add_attack_extra index "AI-PRIV-001" "sensitive_read_external_write"
              "Sensitive data may cross an external boundary." 15

  unfoldable pub has_tool_surface : Bool
  has_tool_surface =
      truthy ev.tool_name || truthy ev.tool_action || not (is_empty ev.tool_permissions)

  unfoldable pub tool_rules : String → Step
  tool_rules lowered = when has_tool_surface do
    add_context_score 8 "Event can influence a tool or external capability."
    evaluate_tool_policy py index ev lowered

  unfoldable pub egress_rules : Step
  egress_rules =
      when (truthy ev.network_destination) (add_context_score 10 "Network egress is present.")

  unfoldable pub memory_rules : String → Step
  memory_rules lowered = when (is_memory_write ev lowered) do
    add_context_score 10 "Event may persist into memory or long-term context."
    when (is_external_event ev) do
      add_attack_extra index "AI-MEM-001" "untrusted_memory_write"
          "Untrusted content attempted a memory/context write." 8

  unfoldable pub code_execution_rules : String → Step
  code_execution_rules lowered =
      when
        (contains_any lowered code_execution_terms
          && (truthy ev.tool_name || truthy ev.tool_action))
        do
          add_attack_extra index "AI-OUT-001" "tool_code_execution"
              "Tool action may execute generated code, commands, SQL, or browser automation." 10

  unfoldable pub high_impact_rules : String → Step
  high_impact_rules lowered = when (has_high_impact_action py ev lowered) do
    add_context_score 15 "High-impact or irreversible action is present."
    when (not (human_approval_present py ev)) do
      add_attack_extra index "AI-AG-002" "high_impact_without_approval"
          "High-impact tool or plan action requires explicit human approval." 12
      set_deny (truthy ev.tool_name)

  unfoldable pub cross_tenant_rules : String → Step
  cross_tenant_rules lowered =
      when
        (context_flag ev "cross_tenant"
          || contains_any lowered ("cross-tenant" ∷ "another tenant" ∷ []))
        do
          add_context_score 15 "Cross-tenant access risk is present."
          add_attack_extra index "AI-PRIV-001" "cross_tenant_data_access"
              "Potential cross-tenant data exposure." 8

  unfoldable pub budget_rules : Step
  budget_rules = do
    when (leb_ℤ (pos 32000) ev.token_count_estimate) do
      add_context_score 10 "Large token volume increases cost and availability risk."
      add_attack_extra index "AI-DOS-001" "token_budget_exceeded"
          "Token count exceeds normal operating budget." 5
    on leb_ℤ (pos 100000) ev.token_count_estimate
          || py.leb_float (py.float_of_int (pos 25)) ev.cost_estimate
        then (do
          add_context_score 10 "Extreme token or cost estimate requires a hard budget gate."
          add_attack_extra index "AI-DOS-001" "extreme_cost_budget" "Extreme consumption estimate."
              8)
        else when (py.leb_float (py.float_of_int (pos 5)) ev.cost_estimate)
            (add_context_score 5 "Elevated model/API cost estimate.")
