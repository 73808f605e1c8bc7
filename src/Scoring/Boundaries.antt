-- ===== src/Scoring/Boundaries.antt =====
-- The boundaries of the agentic policy and of the model's identity: what each crossing costs at
-- least, whatever is approved or mitigated.
use vexyl_guard.Prelude.{◌≤◌, true, false, ◌≡◌, ◌⊎◌, arith, ◌∷◌, [], member}
use vexyl_guard.Python.{Python, Fields, get, str_or_empty, normalize}
use vexyl_guard.Models.{RuntimeAiEvent}
use vexyl_guard.Scoring.Predicates.{context_flag, has_high_impact_action}
use vexyl_guard.Scoring.Accumulator.{AttackIndex, ◌>>◌, History}
use vexyl_guard.Scoring.Agentic.{
  agentic_action_text, uses_delegated_identity, delegated_identity_rule, inter_agent_rule,
  orchestration_exceeded, orchestration_rule, approval_rationale_rule, rogue_signals, rogue_rule,
  evaluate_agentic_context_policy, model_identity_changed, evaluate_model_identity_policy,
}
use vexyl_guard.Scoring.Correlation.{evaluate_runtime_correlation}
use vexyl_guard.Scoring.Event.{score_ai_event, scoring_stages, later_stages}
use vexyl_guard.Scoring.Keeps.{
  Predicate, Keeps, Keeps-then, Ensures, Ensures-first, Ensures-last, Ensures-when, Ensures-on,
  Stable,
}
use vexyl_guard.Scoring.Keeps.Whole.{
  Keeps-inter_agent_rule_of, Keeps-orchestration_rule_of, Keeps-approval_rationale_rule_of,
  Keeps-rogue_rule_of, Keeps-correlation_of, Keeps-mitigations,
}
use vexyl_guard.Scoring.Invariants.{AtLeast, AtLeast-Stable}
use vexyl_guard.Scoring.Outcome.{floor-le-score, later_stages-Ensures}
use vexyl_guard.Scoring.Chains.{floor_then_deny, floored, floor_of}

module _ {F : Type 0} (py : Python F) (index : AttackIndex) (ev : RuntimeAiEvent F) where
  -- The ways to cross a boundary of the trusted orchestration.
  pub data Crossing : Type 0 where
    unverified_identity :
        uses_delegated_identity py index ev ≡ true
        → (context_flag ev "delegated_identity_verified" ≡ false)
          ⊎ (context_flag ev "identity_scope_verified" ≡ false)
        → Crossing
    unverified_message :
        context_flag ev "inter_agent_message" ≡ true
        → (context_flag ev "sender_identity_verified" ≡ false)
          ⊎ (context_flag ev "message_integrity_verified" ≡ false)
        → Crossing
    too_much_delegation : orchestration_exceeded py index ev ≡ true → Crossing
    model_rationale :
        has_high_impact_action py ev (agentic_action_text py index ev) ≡ true
        → member
            (normalize py (str_or_empty py (get "approval_rationale_source" ev.context)))
            ("model" ∷ "agent" ∷ "model_output" ∷ [])
          ≡ true
        → context_flag ev "independent_verification_completed" ≡ false
        → Crossing

  module _ (history : History (Fields F)) {P : Predicate} (s : Stable index ev P) where
    -- What the agentic policy ensures, the end of scoring has.
    by_policy :
        Ensures P (evaluate_agentic_context_policy py index ev)
        → Ensures P (scoring_stages py index ev history)
    unfolding later_stages
    by_policy e = later_stages-Ensures py index ev history (
        Ensures-last _ _ (
          Ensures-first _ _ e (
            Keeps-then _ _ (Keeps-correlation_of py index ev history s)
              (Keeps-mitigations py index ev history s))))

    after_orchestration : Keeps P (approval_rationale_rule py index ev >> rogue_rule py index ev)
    after_orchestration =
        Keeps-then _ _ (Keeps-approval_rationale_rule_of py index ev history s)
          (Keeps-rogue_rule_of py index ev history s)

    after_message : Keeps P (
        orchestration_rule py index ev
        >> (approval_rationale_rule py index ev >> rogue_rule py index ev))
    after_message =
        Keeps-then _ _ (Keeps-orchestration_rule_of py index ev history s) after_orchestration

    after_identity : Keeps P (
        inter_agent_rule py index ev
        >> (orchestration_rule py index ev
            >> (approval_rationale_rule py index ev >> rogue_rule py index ev)))
    after_identity = Keeps-then _ _ (Keeps-inter_agent_rule_of py index ev history s) after_message

    by_identity :
        Ensures P (delegated_identity_rule py index ev)
        → Ensures P (scoring_stages py index ev history)
    unfolding evaluate_agentic_context_policy
    by_identity e = by_policy (Ensures-first _ _ e after_identity)

    by_message :
        Ensures P (inter_agent_rule py index ev) → Ensures P (scoring_stages py index ev history)
    unfolding evaluate_agentic_context_policy
    by_message e = by_policy (Ensures-last _ _ (Ensures-first _ _ e after_message))

    by_orchestration :
        Ensures P (orchestration_rule py index ev) → Ensures P (scoring_stages py index ev history)
    unfolding evaluate_agentic_context_policy
    by_orchestration e =
        by_policy (Ensures-last _ _ (Ensures-last _ _ (Ensures-first _ _ e after_orchestration)))

    by_rationale :
        Ensures P (approval_rationale_rule py index ev)
        → Ensures P (scoring_stages py index ev history)
    unfolding evaluate_agentic_context_policy
    by_rationale e = by_policy (
        Ensures-last _ _ (
          Ensures-last _ _
            (Ensures-last _ _ (Ensures-first _ _ e (Keeps-rogue_rule_of py index ev history s)))))

    by_rogue : Ensures P (rogue_rule py index ev) → Ensures P (scoring_stages py index ev history)
    unfolding evaluate_agentic_context_policy
    by_rogue e =
        by_policy (Ensures-last _ _ (Ensures-last _ _ (Ensures-last _ _ (Ensures-last _ _ e))))

    by_model :
        Ensures P (evaluate_model_identity_policy py index ev)
        → Ensures P (scoring_stages py index ev history)
    unfolding later_stages evaluate_runtime_correlation
    by_model e = later_stages-Ensures py index ev history (
        Ensures-last _ _ (
          Ensures-last _ _ (
            Ensures-first _ _ (Ensures-on _ _ _ (λ _. e) (λ _. Ensures-last _ _ e))
              (Keeps-mitigations py index ev history s))))

  module _ (history : History (Fields F)) where
    stable : Stable index ev (AtLeast 70)
    stable = AtLeast-Stable index ev 70

    -- The floor of a crossing is set by its rule.
    crossing-Ensures : Crossing → Ensures (AtLeast 70) (scoring_stages py index ev history)
    unfolding delegated_identity_rule inter_agent_rule orchestration_rule approval_rationale_rule
    crossing-Ensures (unverified_identity uses missing) = by_identity history stable (
        Ensures-when _ _ (ground arith)
          (Ensures-last _ _ (Ensures-last _ _ (floor_then_deny 70 _))))
    crossing-Ensures (unverified_message message missing) = by_message history stable (
        Ensures-when _ _ (ground arith)
          (Ensures-last _ _ (Ensures-last _ _ (floor_then_deny 70 _))))
    crossing-Ensures (too_much_delegation exceeded) =
        by_orchestration history stable (Ensures-when _ _ exceeded (floored _ _ _ 70 _))
    crossing-Ensures (model_rationale impact source unverified) = by_rationale history stable (
        Ensures-when _ _ (ground arith)
          (Ensures-last _ _ (Ensures-last _ _ (floor_then_deny 70 _))))

    -- An event that crosses a boundary of the orchestration scores at least 70: a delegated
    -- identity or an agent's message that is not verified in both respects, too much delegation, or
    -- an approval of a high-impact action on a model's word alone.
    pub crossing-le-score : Crossing → 70 ≤ (score_ai_event py index ev history).score
    crossing-le-score c = floor-le-score py index ev history 70 (omega arith) (crossing-Ensures c)

    -- An event with a sign of a rogue agent scores at least 85.
    pub rogue-le-score :
        rogue_signals py index ev ≡ true → 85 ≤ (score_ai_event py index ev history).score
    unfolding rogue_rule
    rogue-le-score rogue = floor-le-score py index ev history 85 (omega arith) (
        by_rogue history (AtLeast-Stable index ev 85)
          (Ensures-when _ _ rogue (Ensures-last _ _ (Ensures-last _ _ (floor_then_deny 85 _)))))

    -- A model's request to another provider or model than the application expects scores at least
    -- 70, with a history and without.
    pub model_identity-le-score :
        model_identity_changed py index ev ≡ true → 70 ≤ (score_ai_event py index ev history).score
    unfolding evaluate_model_identity_policy
    model_identity-le-score changed = floor-le-score py index ev history 70 (omega arith) (
        by_model history stable
          (Ensures-when _ _ changed (Ensures-last _ _ (Ensures-last _ _ (floor_of 70)))))
