-- ===== src/Scoring/Correlation.antt =====
-- `evaluate_runtime_correlation` of intel/scoring.py: what the recent events of the same scope add
-- to the risk of this one. `history` is the result of `load_runtime_history`.
use mathlib.Core.List.{foldl}
use vexyl_guard.Prelude.{
  ℕ, ◌+◌, String, Bool, true, not, ◌&&◌, ◌||◌, none, some, List, [], ◌∷◌, ℤ, pos, ◌+ℤ◌, ◌*ℤ◌, max_ℤ,
  leb_ℤ, leb, if◌then◌else◌, length, keep, is_empty, join, contains_any, truthy, or_empty,
}
use vexyl_guard.Python.{
  Python, Fields, get, truthy_json, safe_int, safe_float, positive_int, positive_float, normalize,
}
use vexyl_guard.Models.{RuntimeAiEvent}
use vexyl_guard.Scoring.Terms.{
  code_execution_terms, tool_loop_repeat_threshold, tool_loop_volume_threshold,
  model_extraction_event_threshold, model_extraction_distinct_threshold,
}
use vexyl_guard.Scoring.Predicates.{
  is_memory_write, current_tool, event_flag, json_member, join_parts, has_high_impact_action,
  human_approval_present, same_tool_action, content_fingerprint_for_event,
}
use vexyl_guard.Scoring.Accumulator.{
  AttackIndex, Step, ◌>>◌, on◌then◌else◌, when, add_attack_extra, require_score,
  require_final_score, set_deny, History, set_correlation_context, add_new,
}
use vexyl_guard.Scoring.Agentic.{evaluate_model_identity_policy}

module _ {F : Type 0} (py : Python F) (index : AttackIndex) (ev : RuntimeAiEvent F)
    (history : History (Fields F)) where
  unfoldable pub sequence_events : List (Fields F)
  sequence_events = keep (λ item. truthy_json py (get "same_session" item)) history.events

  unfoldable pub risky_external : List (Fields F)
  risky_external =
      keep
        (λ item. event_flag item "external" && leb_ℤ (pos 50) (safe_int py (get "risk_score" item)))
        sequence_events

  unfoldable pub poisoned_memory : List (Fields F)
  poisoned_memory = keep (λ item. event_flag item "untrusted_memory_write") sequence_events

  unfoldable pub prior_sensitive : List (Fields F)
  prior_sensitive = keep (λ item. event_flag item "sensitive") sequence_events

  unfoldable pub action_lowered : String
  action_lowered = normalize py (
      join_parts
        (or_empty ev.tool_name ∷ or_empty ev.tool_action ∷ join " " ev.planned_actions ∷ []))

  unfoldable pub current_external_write : Bool
  current_external_write =
      truthy ev.network_destination
      || contains_any action_lowered
          ("send" ∷ "upload" ∷ "post external" ∷ "email" ∷ "webhook" ∷ "transfer" ∷ [])

  unfoldable pub current_high_impact : Bool
  current_high_impact = has_high_impact_action py ev action_lowered

  -- `85 if current_high_impact else 70`
  unfoldable pub impact_floor : ℕ
  impact_floor = if current_high_impact then 85 else 70

  unfoldable pub external_to_memory_rule : String → Step
  external_to_memory_rule lowered =
      when (is_memory_write ev lowered && not (is_empty risky_external)) do
        add_attack_extra index "AI-MEM-001" "correlated_untrusted_memory_write"
            "A recent high-risk external event in this session preceded a persistent memory write."
            12
        add_attack_extra index "AI-PI-002" "correlated_external_to_memory"
            "External content was not permitted to establish persistent instructions." 8
        require_score 70
        require_final_score 70

  unfoldable pub external_to_tool_rule : Step
  external_to_tool_rule = when (current_tool ev && not (is_empty risky_external)) do
    add_attack_extra index "AI-PI-002" "correlated_external_to_tool"
        "A recent high-risk external event preceded a tool action in the same runtime scope." 10
    add_attack_extra index "AI-AG-002" "correlated_tool_authorization_boundary"
        "External content cannot authorize a tool call." 10
    require_score impact_floor
    require_final_score impact_floor
    set_deny true

  unfoldable pub memory_to_tool_rule : Step
  memory_to_tool_rule = when (current_tool ev && not (is_empty poisoned_memory)) do
    add_attack_extra index "AI-MEM-001" "correlated_poisoned_memory_to_action"
        "A prior untrusted memory write may be influencing the current tool action." 15
    add_attack_extra index "AI-AG-002" "correlated_memory_to_tool"
        "Tool execution was stopped at a persistent-context trust boundary." 10
    require_score 85
    require_final_score 85
    set_deny true

  unfoldable pub sensitive_egress_rule : Step
  sensitive_egress_rule = when (current_external_write && not (is_empty prior_sensitive)) do
    add_attack_extra index "AI-PRIV-001" "correlated_sensitive_read_to_egress"
        "Sensitive-data access in this session preceded an external write or network destination."
        15
    when (not (human_approval_present py ev))
        do require_score impact_floor; require_final_score impact_floor; set_deny (current_tool ev)

  unfoldable pub repeated_actions : List (Fields F)
  repeated_actions =
      keep (λ item. same_tool_action py item ev.tool_name ev.tool_action) sequence_events

  unfoldable pub tool_events : List (Fields F)
  tool_events = keep (λ item. event_flag item "tool_event") sequence_events

  unfoldable pub tool_loop_rule : Step
  tool_loop_rule = when (current_tool ev) (
      on leb tool_loop_repeat_threshold (length repeated_actions + 1)
        && (current_high_impact
            || current_external_write
            || contains_any action_lowered code_execution_terms)
      then (do
        add_attack_extra index "AI-DOS-001" "correlated_repeated_tool_action"
            "A repeated high-impact tool action reached the runtime loop threshold." 12
        require_score 70
        require_final_score 70
        set_deny true)
      else when (leb tool_loop_volume_threshold (length tool_events + 1)) do
        add_attack_extra index "AI-DOS-001" "correlated_tool_volume"
            "Tool-call volume reached the bounded runtime threshold." 10
        require_score 70
        require_final_score 70
        set_deny true)

  unfoldable pub total_tokens : ℤ
  total_tokens =
      max_ℤ (pos 0) ev.token_count_estimate
      +ℤ foldl (λ sum item. sum +ℤ max_ℤ (pos 0) (safe_int py (get "token_count_estimate" item)))
          (pos 0) history.events

  unfoldable pub total_cost : F
  total_cost = py.add_float (py.max_float (py.float_of_int (pos 0)) ev.cost_estimate) (
      foldl
        (λ sum item.
          py.add_float sum
            (py.max_float (py.float_of_int (pos 0)) (safe_float py (get "cost_estimate" item))))
        (py.float_of_int (pos 0)) history.events)

  unfoldable pub token_budget : ℤ
  token_budget = positive_int py (get "runtime_token_budget" ev.context) (pos 250000)

  unfoldable pub cost_budget : F
  cost_budget = positive_float py (get "runtime_cost_budget" ev.context) (py.float_of_int (pos 25))

  -- `85 if severe_budget_breach else 70`
  unfoldable pub budget_floor : ℕ
  budget_floor =
      if py.leb_float (py.mul_float cost_budget (py.float_of_int (pos 4))) total_cost
        || leb_ℤ (token_budget *ℤ pos 4) total_tokens
      then 85
      else 70

  unfoldable pub runtime_budget_rule : Step
  runtime_budget_rule =
      when (leb_ℤ token_budget total_tokens || py.leb_float cost_budget total_cost) do
        add_attack_extra index "AI-DOS-001" "correlated_runtime_budget"
            "Aggregate token or cost use exceeded the short runtime-window budget." 12
        require_score budget_floor
        require_final_score budget_floor
        set_deny (current_tool ev)

  unfoldable pub model_events : List (Fields F)
  model_events =
      keep
        (λ item.
          json_member (get "input_channel" item) ("api" ∷ "chat" ∷ [])
          && truthy_json py (get "content_fingerprint" item))
        history.events

  -- a set of texts, each once
  unfoldable pub fingerprints : List String
  fingerprints =
      let earlier =
        foldl (λ seen item. add_new (py.str_of (get "content_fingerprint" item)) seen) []
          model_events in
      elim (content_fingerprint_for_event py ev) [
        | none ↦ earlier
        | some current ↦ if truthy (some current) then add_new current earlier else earlier
      ]

  unfoldable pub model_extraction_rule : Step
  model_extraction_rule =
      when
        (leb model_extraction_event_threshold (length model_events + 1)
          && leb model_extraction_distinct_threshold (length fingerprints))
        do
          add_attack_extra index "AI-MOD-001" "correlated_high_diversity_model_probing"
              "High-volume, high-diversity model requests matched the extraction-monitoring threshold."
              12
          require_score 70
          require_final_score 70

  -- the rules that need a history
  unfoldable pub correlation_rules : String → Step
  correlation_rules lowered = do
    set_correlation_context history
    external_to_memory_rule lowered
    external_to_tool_rule
    memory_to_tool_rule
    sensitive_egress_rule
    tool_loop_rule
    runtime_budget_rule
    model_extraction_rule

  unfoldable pub evaluate_runtime_correlation : String → Step
  evaluate_runtime_correlation lowered =
      on is_empty history.events
      then evaluate_model_identity_policy py index ev
      else do correlation_rules lowered; evaluate_model_identity_policy py index ev
