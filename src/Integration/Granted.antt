-- ===== src/Integration/Granted.antt =====
-- From the builder of a tool call to the decision on it: what an application has to grant for the
-- call to pass.
use vexyl_guard.Prelude.{
  String, true, some, List, [], ◌∷◌, ◌≡◌, ◌≢◌, inl, inr, refl, sym, ap, subst, ◌∙◌, arith, ◌==◌,
  eq_iff, member, strip, strip_class, strip_left, strip_right, truthy_str, Bool-cases,
}
use vexyl_guard.Outcome.{returned, then-returned, returned-inj}
use vexyl_guard.Python.{
  Python, str, Fields, get, items, as_dict, str_items, string_set, normalize_scope,
}
use vexyl_guard.Models.{RuntimeAiEvent}
use vexyl_guard.Models.Reading.{Fresh, from_dict, text_of, text_items}
use vexyl_guard.Gateway.{decision_policy_exit_code}
use vexyl_guard.Scoring.Predicates.{action_matches_scope}
use vexyl_guard.Scoring.Accumulator.{AttackIndex, History}
use vexyl_guard.Scoring.ToolPolicy.{
  allowed_tools, user_allowed_actions, policy_allowed_actions, tool_name_of, tool_action_of,
}
use vexyl_guard.Scoring.Stages.{has_tool_surface}
use vexyl_guard.Scoring.Event.{score_ai_event}
use vexyl_guard.Scoring.Authorization.{IsAuthorized, exit_code-IsAuthorized}
use vexyl_guard.Integration.Validators.{validate_gateway_event}
use vexyl_guard.Integration.Checks.{IsShort, IsOptional}
use vexyl_guard.Integration.Accepted.{IsAccepted}
use vexyl_guard.Integration.Validation.{validate_gateway_event-IsAccepted}
use vexyl_guard.Integration.Events.{
  Identifiers, ToolCall, texts_json, authorization_context, event_dict, tool_values, checked_event,
  tool_call_event,
}

-- The text with its blanks stripped is empty if the text is.
strip-truthy : (s : String) → truthy_str (strip s) ≡ true → truthy_str s ≡ true
unfolding strip strip_class strip_left strip_right
strip-truthy s h = elim (Bool-cases (s == "")) [
  | inr filled ↦ ground arith
  | inl blank ↦
      absurd (ground (arith, subst (λ t. truthy_str (strip t) ≡ true) ((eq_iff s "").0 blank) h))
]

module _ {F : Type 0} (py : Python F) where
  -- The tool and its action, without surrounding blanks, are in all three lists of the authority.
  pub record IsGranted (call : ToolCall) : Type 0 where
    pub tool : member (strip call.tool_name) call.authority.allowed_tools ≡ true
    pub by_user :
        action_matches_scope py (strip call.tool_action) call.authority.user_allowed_actions ≡ true
    pub by_policy :
        action_matches_scope py (strip call.tool_action) call.authority.policy_allowed_actions
        ≡ true

  module _ (str_text : (s : String) → py.str_of (str s) ≡ s) where
    str_items-texts : (xs : List String) → str_items py (items (text_items xs)) ≡ xs
    unfolding text_items str_items
    str_items-texts [] = refl
    str_items-texts (x ∷ xs) = rw (str_text x, str_items-texts xs) refl

    string_set-texts : (xs : List String) → string_set py (texts_json xs) ≡ xs
    unfolding string_set texts_json
    string_set-texts xs = str_items-texts xs

    module _ (index : AttackIndex) (fresh : Fresh) (summary : String) (call : ToolCall)
        (ids : Identifiers) where
      -- The event that a tool call's dictionary is read as.
      abbrev call_event : RuntimeAiEvent F
      call_event =
          from_dict py fresh (event_dict "tool" call.data_origin summary (tool_values call) ids)

      call_name : call_event.tool_name ≡ some call.tool_name
      unfolding from_dict event_dict tool_values get text_of
      call_name = refl

      call_action : call_event.tool_action ≡ some call.tool_action
      unfolding from_dict event_dict tool_values get text_of
      call_action = refl

      call_tools : allowed_tools py index call_event ≡ call.authority.allowed_tools
      unfolding allowed_tools from_dict event_dict tool_values get as_dict authorization_context
      call_tools = string_set-texts call.authority.allowed_tools

      call_user : user_allowed_actions py index call_event ≡ call.authority.user_allowed_actions
      unfolding user_allowed_actions normalize_scope from_dict event_dict tool_values get as_dict
          authorization_context
      call_user = string_set-texts call.authority.user_allowed_actions

      call_policy :
          policy_allowed_actions py index call_event ≡ call.authority.policy_allowed_actions
      unfolding policy_allowed_actions from_dict event_dict tool_values get as_dict
          authorization_context
      call_policy = string_set-texts call.authority.policy_allowed_actions

      call-IsGranted : IsAuthorized py index call_event → IsGranted call
      unfolding tool_name_of tool_action_of
      call-IsGranted a = record {
        tool = rw (call_tools, call_name) at a.listed;
        by_user = rw (call_user, call_action) at a.in_user_scope;
        by_policy = rw (call_policy, call_action) at a.in_tool_policy;
      }

      named-surface :
          IsOptional (IsShort 256) call_event.tool_name
          → has_tool_surface py index call_event ≡ true
      unfolding has_tool_surface
      named-surface short =
          let filled = strip-truthy call.tool_name (rw call_name at short).0 in
          rw call_name (ground arith)

      -- Where `str` of a text is that text: if an application builds the event of a tool call, and
      -- the event that the gateway reads it as gets another exit code than 4, whatever the history
      -- is, then the tool is in the list of allowed tools that the application gave, and the action
      -- is in the user's list and in the policy's list that it gave.
      pub tool_call-IsGranted :
          (first_sorted : List String → String) (sent : Fresh) (fields : Fields F)
          (ev : RuntimeAiEvent F) (history : History (Fields F))
          → tool_call_event py first_sorted sent summary call ids ≡ returned fields
          → validate_gateway_event py first_sorted fresh fields ≡ returned ev
          → decision_policy_exit_code (score_ai_event py index ev history) ≢ 4
          → IsGranted call
      unfolding tool_call_event checked_event
      tool_call-IsGranted first_sorted sent fields ev history built valid passes =
          let dict = returned-inj (then-returned _ _ _ built).2 in
          let accepted = validate_gateway_event-IsAccepted py first_sorted fresh fields ev valid in
          let same : ev ≡ call_event = accepted.0 ∙ ap (from_dict py fresh) (sym dict) in
          call-IsGranted (
            exit_code-IsAuthorized py index call_event history
              (named-surface (subst (IsAccepted py fresh) same accepted.1).tool)
              (subst (λ e. decision_policy_exit_code (score_ai_event py index e history) ≢ 4) same
                passes))
