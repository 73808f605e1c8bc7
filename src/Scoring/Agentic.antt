-- ===== src/Scoring/Agentic.antt =====
-- `evaluate_agentic_context_policy` and `evaluate_model_identity_policy` of intel/scoring.py, one
-- rule of the policy at a time.
use vexyl_guard.Prelude.{
  String, Bool, not, ◌&&◌, ◌||◌, [], ◌∷◌, ◌==◌, ℤ, pos, max_ℤ, ltb_ℤ, strip, join, member,
  contains_any, truthy, truthy_str, or_empty,
}
use vexyl_guard.Python.{Python, get, safe_int, positive_int, str_or_empty, normalize}
use vexyl_guard.Models.{RuntimeAiEvent}
use vexyl_guard.Scoring.Predicates.{context_flag, has_high_impact_action, join_parts}
use vexyl_guard.Scoring.Accumulator.{
  AttackIndex, Step, ◌>>◌, when, add_attack_extra, require_score, require_final_score, set_deny,
}

module _ {F : Type 0} (py : Python F) (index : AttackIndex) (ev : RuntimeAiEvent F) where
  unfoldable pub agentic_action_text : String
  agentic_action_text = normalize py (
      join_parts (
        or_empty ev.tool_name
        ∷ or_empty ev.tool_action
        ∷ join " " ev.tool_permissions
        ∷ join " " ev.planned_actions
        ∷ []))

  unfoldable pub uses_delegated_identity : Bool
  uses_delegated_identity =
      context_flag ev "uses_delegated_identity"
      || contains_any agentic_action_text
          ("credential" ∷ "identity" ∷ "impersonate" ∷ "admin token" ∷ "delegated access" ∷ [])

  unfoldable pub delegated_identity_rule : Step
  delegated_identity_rule =
      when
        (uses_delegated_identity
          && (not (context_flag ev "delegated_identity_verified")
              || not (context_flag ev "identity_scope_verified")))
        do
          add_attack_extra index "AI-IAM-001" "delegated_identity_not_verified"
              "A delegated agent identity or credential lacks verified identity and task scope." 12
          require_score 70
          require_final_score 70
          set_deny (truthy ev.tool_name)

  unfoldable pub inter_agent_rule : Step
  inter_agent_rule =
      when
        (context_flag ev "inter_agent_message"
          && (not (context_flag ev "sender_identity_verified")
              || not (context_flag ev "message_integrity_verified")))
        do
          add_attack_extra index "AI-A2A-001" "unverified_inter_agent_message"
              "An inter-agent message lacks verified sender identity or message integrity." 12
          require_score 70
          require_final_score 70
          set_deny (truthy ev.tool_name)

  -- `max(0, safe_int(context.get(key)))`
  unfoldable pub context_count : String → ℤ
  context_count key = max_ℤ (pos 0) (safe_int py (get key ev.context))

  unfoldable pub orchestration_exceeded : Bool
  orchestration_exceeded =
      ltb_ℤ (positive_int py (get "max_delegation_depth" ev.context) (pos 4))
        (context_count "delegation_depth")
      || ltb_ℤ (positive_int py (get "max_fanout_count" ev.context) (pos 16))
          (context_count "fanout_count")
      || ltb_ℤ (positive_int py (get "max_retry_count" ev.context) (pos 5))
          (context_count "retry_count")

  unfoldable pub orchestration_rule : Step
  orchestration_rule = when orchestration_exceeded do
    add_attack_extra index "AI-CASCADE-001" "orchestration_boundary_exceeded"
        "Agent delegation, fanout, or retry activity exceeded the trusted orchestration policy." 12
    add_attack_extra index "AI-DOS-001" "agentic_resource_cascade"
        "The orchestration boundary can amplify downstream resource consumption." 8
    require_score 70
    require_final_score 70
    set_deny (truthy ev.tool_name)

  unfoldable pub approval_rationale_rule : Step
  approval_rationale_rule =
      when
        (has_high_impact_action py ev agentic_action_text
          && member (normalize py (str_or_empty py (get "approval_rationale_source" ev.context)))
              ("model" ∷ "agent" ∷ "model_output" ∷ [])
          && not (context_flag ev "independent_verification_completed"))
        do
          add_attack_extra index "AI-TRUST-001" "model_rationale_without_independent_verification"
              "A high-impact approval relies on model-generated rationale without independent verification."
              12
          require_score 70
          require_final_score 70
          set_deny (truthy ev.tool_name)

  unfoldable pub rogue_signals : Bool
  rogue_signals =
      context_flag ev "oversight_disabled"
      || context_flag ev "audit_disabled"
      || context_flag ev "policy_self_modified"
      || context_flag ev "undeclared_action"

  unfoldable pub rogue_rule : Step
  rogue_rule = when rogue_signals do
    add_attack_extra index "AI-ROGUE-001" "runtime_control_evasion"
        "Runtime metadata indicates an agent disabled oversight, changed policy, or took an undeclared action."
        15
    require_score 85
    require_final_score 85
    set_deny (truthy ev.tool_name)

  unfoldable pub evaluate_agentic_context_policy : Step
  evaluate_agentic_context_policy = do
    delegated_identity_rule
    inter_agent_rule
    orchestration_rule
    approval_rationale_rule
    rogue_rule

  unfoldable pub model_identity_changed : Bool
  model_identity_changed =
      let expected_provider = strip (str_or_empty py (get "expected_model_provider" ev.context)) in
      let expected_model = strip (str_or_empty py (get "expected_model_name" ev.context)) in
      truthy_str expected_provider
        && not (normalize py (or_empty ev.model_provider) == normalize py expected_provider)
      || truthy_str expected_model
        && not (normalize py (or_empty ev.model_name) == normalize py expected_model)

  unfoldable pub evaluate_model_identity_policy : Step
  evaluate_model_identity_policy = when model_identity_changed do
    add_attack_extra index "AI-SUP-001" "runtime_model_identity_mismatch"
        "Runtime model identity differs from the application-approved model policy." 15
    require_score 70
    require_final_score 70
