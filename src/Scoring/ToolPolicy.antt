-- ===== src/Scoring/ToolPolicy.antt =====
-- `evaluate_tool_policy` of intel/scoring.py, in the three parts that its blank lines mark: the
-- tool's identity, the user's scope, and the tool's policy with the privileged surfaces.
use Prim.Native.String
use vexyl_guard.Prelude.{
  String, true, not, ◌&&◌, List, [], ◌∷◌, member, contains_any, strip, truthy_str, or_empty,
  is_empty,
}
use vexyl_guard.Python.{Python, get, as_dict, string_set, normalize_scope}
use vexyl_guard.Models.{RuntimeAiEvent}
use vexyl_guard.Scoring.Redaction.{redact_text_limit}
use vexyl_guard.Scoring.Predicates.{action_matches_scope}
use vexyl_guard.Scoring.Accumulator.{
  AttackIndex, Step, ◌>>◌, on◌then◌else◌, when, add_attack_extra, set_deny, require_final_score,
}

module _ {F : Type 0} (py : Python F) (index : AttackIndex) (ev : RuntimeAiEvent F) where
  unfoldable pub allowed_tools : List String
  allowed_tools = string_set py (get "allowed_tools" ev.context)

  unfoldable pub user_allowed_actions : List String
  user_allowed_actions =
      string_set py (get "allowed_actions" (normalize_scope py (get "user_scope" ev.context)))

  unfoldable pub policy_allowed_actions : List String
  policy_allowed_actions =
      string_set py (get "allowed_actions" (as_dict (get "tool_policy" ev.context)))

  unfoldable pub tool_name_of : String
  tool_name_of = strip (or_empty ev.tool_name)

  unfoldable pub tool_action_of : String
  tool_action_of = strip (or_empty ev.tool_action)

  quoted : String → String → String → String
  quoted before shown after =
      String.◌++◌ before (String.◌++◌ (redact_text_limit py 120 shown) after)

  unfoldable pub tool_identity_rules : Step
  unfolding quoted
  tool_identity_rules =
      on not (truthy_str tool_name_of)
      then (do
        add_attack_extra index "AI-AG-002" "missing_tool_identity"
            "Tool calls are denied unless the requested tool is explicitly identified." 18
        set_deny true
        require_final_score 70)
      else on is_empty allowed_tools
      then (do
        add_attack_extra index "AI-AG-002" "missing_tool_allowlist"
            "Tool calls are denied unless an explicit task allowlist is present." 18
        set_deny true
        require_final_score 70)
      else when (truthy_str tool_name_of && not (member tool_name_of allowed_tools)) do
        add_attack_extra index "AI-AG-002" "tool_not_allowed"
            (quoted "Tool " tool_name_of " is outside the task allowlist.") 25
        set_deny true
        require_final_score 70

  unfoldable pub action_identity_rules : Step
  action_identity_rules = when (not (truthy_str tool_action_of)) do
    add_attack_extra index "AI-AG-002" "missing_tool_action"
        "Tool calls are denied unless the requested action is explicitly identified." 18
    set_deny true
    require_final_score 70

  unfoldable pub user_scope_rules : Step
  unfolding quoted
  user_scope_rules =
      on is_empty user_allowed_actions
      then (do
        add_attack_extra index "AI-AG-002" "missing_user_action_scope"
            "Tool action is denied until the user scope explicitly allows it." 18
        set_deny true
        require_final_score 70)
      else when
          (truthy_str tool_action_of
            && not (action_matches_scope py tool_action_of user_allowed_actions))
          do
            add_attack_extra index "AI-AG-002" "action_outside_user_scope"
                (quoted "Tool action " tool_action_of " is outside the approved user scope.") 25
            set_deny true
            require_final_score 70

  unfoldable pub action_policy_rules : Step
  unfolding quoted
  action_policy_rules =
      on is_empty policy_allowed_actions
      then (do
        add_attack_extra index "AI-AG-002" "missing_tool_action_policy"
            "Tool action is denied until the tool policy explicitly allows it." 18
        set_deny true
        require_final_score 70)
      else when
          (truthy_str tool_action_of
            && not (action_matches_scope py tool_action_of policy_allowed_actions))
          do
            add_attack_extra index "AI-AG-002" "action_outside_tool_policy"
                (quoted "Tool action " tool_action_of " is outside the approved tool policy.") 25
            set_deny true
            require_final_score 70

  unfoldable pub privileged_surface_rules : String → Step
  privileged_surface_rules lowered =
      when
        (contains_any lowered
          ("credential" ∷ "secret" ∷ "billing" ∷ "access control" ∷ "firewall" ∷ "dns" ∷ []))
        do
          add_attack_extra index "AI-AG-002" "privileged_tool_surface"
              "Tool call touches a privileged surface." 10

  unfoldable pub evaluate_tool_policy : String → Step
  evaluate_tool_policy lowered = do
    tool_identity_rules
    action_identity_rules
    user_scope_rules
    action_policy_rules
    privileged_surface_rules lowered
