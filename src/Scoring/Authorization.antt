-- ===== src/Scoring/Authorization.antt =====
-- A tool call passes the policy only with its independent authorizations: the task's allowlist, the
-- user's scope and the tool's policy.
use vexyl_guard.Prelude.{String, Bool, true, false, not, ◌≡◌, ◌≢◌, refl, arith, truthy_str, member}
use vexyl_guard.Python.{Python, Fields}
use vexyl_guard.Models.{RuntimeAiEvent}
use vexyl_guard.Gateway.{decision_policy_exit_code}
use vexyl_guard.Scoring.Predicates.{action_matches_scope}
use vexyl_guard.Scoring.Accumulator.{AttackIndex, Step, ◌>>◌, require_final_score, History}
use vexyl_guard.Scoring.ToolPolicy.{
  allowed_tools, user_allowed_actions, policy_allowed_actions, tool_name_of, tool_action_of,
  tool_identity_rules, action_identity_rules, user_scope_rules, action_policy_rules,
  evaluate_tool_policy,
}
use vexyl_guard.Scoring.Stages.{has_tool_surface, tool_rules}
use vexyl_guard.Scoring.Event.{score_ai_event, lowered_text}
use vexyl_guard.Scoring.Keeps.{
  Ensures, Ensures-first, Ensures-last, Ensures-when, Ensures-on, Stable,
}
use vexyl_guard.Scoring.Keeps.Whole.{
  Keeps-after_identity, Keeps-after_action, Keeps-after_scope, Keeps-privileged,
}
use vexyl_guard.Scoring.Invariants.{AtLeast, AtLeast-Stable}
use vexyl_guard.Scoring.Outcome.{floor-le-score, tool_rules-Ensures, exit_code-of_score}

floor_70 : Ensures (AtLeast 70) (require_final_score 70)
unfolding require_final_score
floor_70 = record { at = λ acc. omega arith }

-- The three actions of each refusal: an attack, the denial and the floor.
refusal : (m n : Step) → Ensures (AtLeast 70) (m >> (n >> require_final_score 70))
refusal m n = Ensures-last _ _ (Ensures-last _ _ floor_70)

module _ {F : Type 0} (py : Python F) (index : AttackIndex) (ev : RuntimeAiEvent F) where
  pub record IsAuthorized : Type 0 where
    pub named : truthy_str (tool_name_of py index ev) ≡ true
    pub listed : member (tool_name_of py index ev) (allowed_tools py index ev) ≡ true
    pub acted : truthy_str (tool_action_of py index ev) ≡ true
    pub in_user_scope :
        action_matches_scope py (tool_action_of py index ev) (user_allowed_actions py index ev)
        ≡ true
    pub in_tool_policy :
        action_matches_scope py (tool_action_of py index ev) (policy_allowed_actions py index ev)
        ≡ true

  not-of_false : {b : Bool} → b ≡ false → not b ≡ true
  not-of_false h = ground arith

  unlisted-Ensures :
      member (tool_name_of py index ev) (allowed_tools py index ev) ≡ false
      → Ensures (AtLeast 70) (tool_identity_rules py index ev)
  unfolding tool_identity_rules
  unlisted-Ensures h =
      Ensures-on _ _ _ (λ _. refusal _ _)
        λ has_name.
          Ensures-on _ _ _ (λ _. refusal _ _) λ _. Ensures-when _ _ (ground arith) (refusal _ _)

  unnamed-Ensures :
      truthy_str (tool_name_of py index ev) ≡ false
      → Ensures (AtLeast 70) (tool_identity_rules py index ev)
  unfolding tool_identity_rules
  unnamed-Ensures h = Ensures-on _ _ _ (λ _. refusal _ _) λ has_name. absurd (ground arith)

  no_action-Ensures :
      truthy_str (tool_action_of py index ev) ≡ false
      → Ensures (AtLeast 70) (action_identity_rules py index ev)
  unfolding action_identity_rules
  no_action-Ensures h = Ensures-when _ _ (not-of_false h) (refusal _ _)

  scope-Ensures :
      truthy_str (tool_action_of py index ev) ≡ true
      → action_matches_scope py (tool_action_of py index ev) (user_allowed_actions py index ev)
        ≡ false
      → Ensures (AtLeast 70) (user_scope_rules py index ev)
  unfolding user_scope_rules
  scope-Ensures acted h =
      Ensures-on _ _ _ (λ _. refusal _ _) λ _. Ensures-when _ _ (ground arith) (refusal _ _)

  policy-Ensures :
      truthy_str (tool_action_of py index ev) ≡ true
      → action_matches_scope py (tool_action_of py index ev) (policy_allowed_actions py index ev)
        ≡ false
      → Ensures (AtLeast 70) (action_policy_rules py index ev)
  unfolding action_policy_rules
  policy-Ensures acted h =
      Ensures-on _ _ _ (λ _. refusal _ _) λ _. Ensures-when _ _ (ground arith) (refusal _ _)

  module _ (history : History (Fields F)) where
    -- an event of the tool surface that passes
    abbrev Passes : Type 0
    Passes =
        (has_tool_surface py index ev ≡ true)
        × (decision_policy_exit_code (score_ai_event py index ev history) ≢ 4)

    stable : Stable index ev (AtLeast 70)
    stable = AtLeast-Stable index ev 70

    lowered : String
    lowered = lowered_text py index ev history

    -- If the tool's policy sets the floor, the event does not pass.
    refuted :
        Passes
        → Ensures (AtLeast 70) (evaluate_tool_policy py index ev (lowered_text py index ev history))
        → ⊥
    unfolding tool_rules
    refuted p e = p.1 (
        exit_code-of_score _ (
          floor-le-score py index ev history 70 (omega arith) (
            tool_rules-Ensures py index ev history stable
              (Ensures-when _ _ p.0 (Ensures-last _ _ e)))))

    by_identity : Passes → Ensures (AtLeast 70) (tool_identity_rules py index ev) → ⊥
    unfolding evaluate_tool_policy
    by_identity p e =
        refuted p (Ensures-first _ _ e (Keeps-after_identity py index ev history stable _))

    by_action : Passes → Ensures (AtLeast 70) (action_identity_rules py index ev) → ⊥
    unfolding evaluate_tool_policy
    by_action p e =
        refuted p
          (Ensures-last _ _ (Ensures-first _ _ e (Keeps-after_action py index ev history stable _)))

    by_scope : Passes → Ensures (AtLeast 70) (user_scope_rules py index ev) → ⊥
    unfolding evaluate_tool_policy
    by_scope p e = refuted p (
        Ensures-last _ _
          (Ensures-last _ _ (Ensures-first _ _ e (Keeps-after_scope py index ev history stable _))))

    by_policy : Passes → Ensures (AtLeast 70) (action_policy_rules py index ev) → ⊥
    unfolding evaluate_tool_policy
    by_policy p e = refuted p (
        Ensures-last _ _ (
          Ensures-last _ _ (
            Ensures-last _ _
              (Ensures-first _ _ e (Keeps-privileged py index ev history stable _)))))

    -- `b` holds if its failure is refuted.
    holds : (b : Bool) → (b ≡ false → ⊥) → b ≡ true
    holds true no_failure = refl
    holds false no_failure = absurd (no_failure refl)

    acted : Passes → truthy_str (tool_action_of py index ev) ≡ true
    acted p = holds _ (λ h. by_action p (no_action-Ensures h))

    Passes-IsAuthorized : Passes → IsAuthorized
    Passes-IsAuthorized p = record {
      named = holds _ (λ h. by_identity p (unnamed-Ensures h));
      listed = holds _ (λ h. by_identity p (unlisted-Ensures h));
      acted = acted p;
      in_user_scope = holds _ (λ h. by_scope p (scope-Ensures (acted p) h));
      in_tool_policy = holds _ (λ h. by_policy p (policy-Ensures (acted p) h));
    }

-- If an event that names a tool, an action or a permission gets an exit code other than 4, then its
-- tool has a name that the allowlist of the task holds, and its action has a name that both the
-- user's scope and the tool's policy hold. This is so whatever the attack index, the history, the
-- mitigations and the approvals.
pub exit_code-IsAuthorized :
    {F : Type 0} (py : Python F) (index : AttackIndex) (ev : RuntimeAiEvent F)
    (history : History (Fields F))
    → has_tool_surface py index ev ≡ true
    → decision_policy_exit_code (score_ai_event py index ev history) ≢ 4
    → IsAuthorized py index ev
exit_code-IsAuthorized py index ev history surface allowed =
    Passes-IsAuthorized py index ev history (surface, allowed)
