-- ===== src/Scoring/Plan.antt =====
-- `evaluate_plan_scope` and `apply_verified_mitigations` of intel/scoring.py.
use vexyl_guard.Prelude.{
  String, not, ◌&&◌, Option, none, some, List, [], ◌∷◌, member, contains_any, is_empty, ℤ,
}
use vexyl_guard.Python.{Python, get, string_set, normalize_scope, normalize_key}
use vexyl_guard.Models.{RuntimeAiEvent}
use vexyl_guard.Scoring.Terms.{mitigation_deltas, lookup_delta}
use vexyl_guard.Scoring.Predicates.{action_matches_scope, human_approval_present}
use vexyl_guard.Scoring.Accumulator.{
  AttackIndex, Step, ◌>>◌, on◌then◌else◌, skip, when, add_attack_extra, apply_mitigation,
}

module _ {F : Type 0} (py : Python F) (index : AttackIndex) (ev : RuntimeAiEvent F) where
  unfoldable pub plan_allowed_actions : List String
  plan_allowed_actions =
      string_set py (get "allowed_actions" (normalize_scope py (get "user_scope" ev.context)))

  -- the `for` loop, which ends at the first action outside the scope
  unfoldable pub plan_drift_rules : List String → Step
  plan_drift_rules [] = skip
  plan_drift_rules (action ∷ actions) =
      let more = plan_drift_rules actions in
      on not (action_matches_scope py action plan_allowed_actions)
      then add_attack_extra index "AI-AG-001" "plan_goal_drift"
          "Agent plan includes an action outside the user's approved task scope." 12
      else more

  unfoldable pub plan_approval_rules : String → Step
  plan_approval_rules lowered =
      when
        (contains_any lowered
            ("send" ∷ "delete" ∷ "grant" ∷ "deploy" ∷ "purchase" ∷ "external" ∷ [])
          && not (human_approval_present py ev))
        do
          add_attack_extra index "AI-AG-002" "plan_high_impact_without_approval"
              "High-impact plan step requires human approval before execution." 10

  unfoldable pub evaluate_plan_scope : String → Step
  evaluate_plan_scope lowered =
      on is_empty ev.planned_actions
      then skip
      else on is_empty plan_allowed_actions
      then add_attack_extra index "AI-AG-001" "missing_plan_scope"
          "Agent plan cannot be authorized without explicit user/task scope." 12
      else do plan_drift_rules ev.planned_actions; plan_approval_rules lowered

  -- the effect of one key: a credit, or none for a key that is not in the table
  unfoldable pub credit : String → Option ℤ → Step
  credit key none = skip
  credit key (some delta) = apply_mitigation key delta

  -- the `for` loop, and what follows it; `seen` holds the keys met so far
  unfoldable pub mitigate : List String → List String → Step
  mitigate [] seen =
      when (human_approval_present py ev && not (member "human_approval" seen))
        (credit "human_approval" (lookup_delta "human_approval" mitigation_deltas))
  mitigate (raw ∷ rest) seen =
      let key = normalize_key py raw in
      let known = mitigate rest seen in
      let fresh = mitigate rest (key ∷ seen) in
      on member key seen then known else credit key (lookup_delta key mitigation_deltas) >> fresh

  unfoldable pub apply_verified_mitigations : Step
  apply_verified_mitigations = mitigate ev.verified_mitigations []
