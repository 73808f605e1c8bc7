-- ===== src/Scoring/Calls.antt =====
-- `evaluate_tool_call` of intel/scoring.py: who authorizes the call of a tool.
mod Tests
use vexyl_guard.Prelude.{
  String, true, false, ◌≡◌, refl, ◌≢◌, ◌==◌, ◌∙◌, some, arith, eq_iff, member, strip, Bool-cases,
  inl, inr, ap, sym, subst,
}
use vexyl_guard.Python.{Python, Json, Fields, field, end, get, as_dict, string_set, normalize_scope}
use vexyl_guard.Models.{RuntimeAiEvent}
use vexyl_guard.Models.Reading.{Fresh}
use vexyl_guard.Gateway.{decision_policy_exit_code}
use vexyl_guard.Scoring.Predicates.{action_matches_scope}
use vexyl_guard.Scoring.Accumulator.{AttackIndex, History}
use vexyl_guard.Scoring.ToolPolicy.{
  allowed_tools, user_allowed_actions, policy_allowed_actions, tool_name_of, tool_action_of,
}
use vexyl_guard.Scoring.Stages.{has_tool_surface}
use vexyl_guard.Scoring.Entry.{set_key, call_part, tool_call_scan, evaluate_tool_call}
use vexyl_guard.Scoring.Authorization.{IsAuthorized, exit_code-IsAuthorized}

module _ {F : Type 0} where
  -- A key that is set leaves the others as they are.
  pub get-set_key :
      (key other : String) (value : Json F) (fields : Fields F)
      → (key == other) ≡ false
      → get other (set_key key value fields) ≡ get other fields
  unfolding get set_key
  get-set_key key other value end h = rw h refl
  get-set_key key other value (field k v fields) h =
      let below = get-set_key key other value fields h in
      elim (Bool-cases (k == key)) [
        | inl same ↦
            let k_key : k ≡ key = ground (arith, eq_iff k key) in
            let apart : (k == other) ≡ false = subst (λ x. (x == other) ≡ false) (sym k_key) h in
            rw (same, apart) refl
        | inr different ↦ rw (different, below) refl
      ]

module _ {F : Type 0} (py : Python F) (tool_call context : Fields F) where
  -- What the context of an application grants to a tool call: its tool, trimmed, is in the context's
  -- allowlist, and its action is in the context's user scope and in its tool policy.
  pub record IsGrantedBy : Type 0 where
    pub tool :
        member
          (strip (call_part py "name" "tool_name" tool_call))
          (string_set py (get "allowed_tools" context))
        ≡ true
    pub by_user :
        action_matches_scope py
          (strip (call_part py "action" "tool_action" tool_call))
          (string_set py (get "allowed_actions" (normalize_scope py (get "user_scope" context))))
        ≡ true
    pub by_policy :
        action_matches_scope py
          (strip (call_part py "action" "tool_action" tool_call))
          (string_set py (get "allowed_actions" (as_dict (get "tool_policy" context))))
        ≡ true

  module _ (fresh : Fresh) (index : AttackIndex) where
    abbrev scanned : RuntimeAiEvent F
    scanned = tool_call_scan py fresh tool_call context

    scanned_tools : allowed_tools py index scanned ≡ string_set py (get "allowed_tools" context)
    unfolding allowed_tools tool_call_scan
    scanned_tools = ap (string_set py) (get-set_key _ _ _ context refl)

    scanned_user :
        user_allowed_actions py index scanned
        ≡ string_set py (get "allowed_actions" (normalize_scope py (get "user_scope" context)))
    unfolding user_allowed_actions tool_call_scan
    scanned_user =
        ap (λ v. string_set py (get "allowed_actions" (normalize_scope py v)))
          (get-set_key _ _ _ context refl)

    scanned_policy :
        policy_allowed_actions py index scanned
        ≡ string_set py (get "allowed_actions" (as_dict (get "tool_policy" context)))
    unfolding policy_allowed_actions tool_call_scan
    scanned_policy =
        ap (λ v. string_set py (get "allowed_actions" (as_dict v))) (get-set_key _ _ _ context refl)

    authorized-IsGrantedBy : IsAuthorized py index scanned → IsGrantedBy
    unfolding tool_name_of tool_action_of tool_call_scan
    authorized-IsGrantedBy a = record {
      tool = rw scanned_tools at a.listed;
      by_user = rw scanned_user at a.in_user_scope;
      by_policy = rw scanned_policy at a.in_tool_policy;
    }

    -- If `evaluate_tool_call` gives a call that names a tool, an action or a permission another exit
    -- code than 4, then the context of the application grants it: the call's own dictionary adds
    -- nothing to the three lists, whatever keys it has, and neither do the history, the approvals
    -- or the mitigations.
    pub evaluate_tool_call-IsGrantedBy :
        (load : RuntimeAiEvent F → History (Fields F))
        → has_tool_surface py index (tool_call_scan py fresh tool_call context) ≡ true
        → decision_policy_exit_code (evaluate_tool_call py fresh index load tool_call context) ≢ 4
        → IsGrantedBy
    unfolding evaluate_tool_call
    evaluate_tool_call-IsGrantedBy load surface passes =
        authorized-IsGrantedBy
          (exit_code-IsAuthorized py index scanned (load scanned) surface passes)
