-- ===== src/Scoring/Chains.antt =====
-- Chains of events in one session: what the history forbids, no approval and no mitigation allows.
use vexyl_guard.Prelude.{
  ℕ, ◌≤◌, Bool, true, false, ◌≡◌, refl, List, [], ◌∷◌, arith, keep, is_empty, if◌then◌else◌, truthy,
}
use vexyl_guard.Python.{Python, Fields}
use vexyl_guard.Models.{RuntimeAiEvent}
use vexyl_guard.Scoring.Predicates.{current_tool, is_memory_write, human_approval_present}
use vexyl_guard.Scoring.Accumulator.{
  AttackIndex, Step, ◌>>◌, History, require_final_score, set_deny,
}
use vexyl_guard.Scoring.Correlation.{
  sequence_events, risky_external, poisoned_memory, prior_sensitive, current_external_write,
  current_high_impact, impact_floor, external_to_memory_rule, external_to_tool_rule,
  memory_to_tool_rule, sensitive_egress_rule, tool_loop_rule, runtime_budget_rule,
  model_extraction_rule, correlation_rules, evaluate_runtime_correlation,
}
use vexyl_guard.Scoring.Event.{score_ai_event, scoring_stages, later_stages, lowered_text}
use vexyl_guard.Scoring.Keeps.{
  Predicate, Keeps, Keeps-then, Ensures, Ensures-first, Ensures-last, Ensures-when, Ensures-on,
  Stable,
}
use vexyl_guard.Scoring.Keeps.Whole.{
  Keeps-after_correlation, Keeps-mitigations, Keeps-external_to_tool_rule_of,
  Keeps-memory_to_tool_rule_of, Keeps-sensitive_egress_rule_of, Keeps-tool_loop_rule_of,
  Keeps-runtime_budget_rule_of, Keeps-model_extraction_rule_of,
}
use vexyl_guard.Scoring.Invariants.{AtLeast, IsDenied, AtLeast-Stable, IsDenied-Stable}
use vexyl_guard.Scoring.Outcome.{floor-le-score, denial-of_stages, later_stages-Ensures}

is_empty-keep {ℓ} :
    {A : Type ℓ} (p : A → Bool) (xs : List A) → is_empty (keep p xs) ≡ false → is_empty xs ≡ false
unfolding is_empty keep
is_empty-keep p [] h = h
is_empty-keep p (x ∷ xs) h = refl

pub floor_of : (k : ℕ) → Ensures (AtLeast k) (require_final_score k)
unfolding require_final_score
floor_of k = record { at = λ acc. omega arith }

pub floor_then_deny : (k : ℕ) (b : Bool) → Ensures (AtLeast k) (require_final_score k >> set_deny b)
unfolding set_deny ◌>>◌ require_final_score
floor_then_deny k b = record { at = λ acc. omega arith }

pub denial : Ensures IsDenied (set_deny true)
unfolding set_deny
denial = record { at = λ acc. refl }

-- A rule with two attacks, a score, a floor and a denial.
pub floored :
    (m n o : Step) (k : ℕ) (b : Bool)
    → Ensures (AtLeast k) (m >> (n >> (o >> (require_final_score k >> set_deny b))))
floored m n o k b = Ensures-last _ _ (Ensures-last _ _ (Ensures-last _ _ (floor_then_deny k b)))

module _ {F : Type 0} (py : Python F) (index : AttackIndex) (ev : RuntimeAiEvent F)
    (history : History (Fields F)) where
  abbrev Ends : Predicate → Type 0
  Ends P = Ensures P (scoring_stages py index ev history)

  module _ {P : Predicate} (s : Stable index ev P) where
    after_egress : Keeps P (
        tool_loop_rule py index ev history
        >> (runtime_budget_rule py index ev history >> model_extraction_rule py index ev history))
    after_egress = Keeps-then _ _ (Keeps-tool_loop_rule_of py index ev history s) (
        Keeps-then _ _ (Keeps-runtime_budget_rule_of py index ev history s)
          (Keeps-model_extraction_rule_of py index ev history s))

    after_memory : Keeps P (
        sensitive_egress_rule py index ev history
        >> (tool_loop_rule py index ev history
            >> (runtime_budget_rule py index ev history
                >> model_extraction_rule py index ev history)))
    after_memory =
        Keeps-then _ _ (Keeps-sensitive_egress_rule_of py index ev history s) after_egress

    after_tool : Keeps P (
        memory_to_tool_rule py index ev history
        >> (sensitive_egress_rule py index ev history
            >> (tool_loop_rule py index ev history
                >> (runtime_budget_rule py index ev history
                    >> model_extraction_rule py index ev history))))
    after_tool = Keeps-then _ _ (Keeps-memory_to_tool_rule_of py index ev history s) after_memory

    -- What the correlation rules ensure, the end of scoring has.
    correlated :
        is_empty history.events ≡ false
        → Ensures P (correlation_rules py index ev history (lowered_text py index ev history))
        → Ends P
    unfolding later_stages evaluate_runtime_correlation
    correlated some_events e = later_stages-Ensures py index ev history (
        Ensures-last _ _ (
          Ensures-last _ _ (
            Ensures-first _ _
              (Ensures-on _ _ _ (λ no_events. cc)
                λ _. Ensures-first _ _ e (Keeps-after_correlation py index ev history s))
              (Keeps-mitigations py index ev history s))))

    by_memory_write :
        is_empty history.events ≡ false
        → Ensures P (external_to_memory_rule py index ev history (lowered_text py index ev history))
        → Ends P
    unfolding correlation_rules
    by_memory_write some_events e = correlated some_events (
        Ensures-last _ _ (
          Ensures-first _ _ e
            (Keeps-then _ _ (Keeps-external_to_tool_rule_of py index ev history s) after_tool)))

    by_external :
        is_empty history.events ≡ false
        → Ensures P (external_to_tool_rule py index ev history)
        → Ends P
    unfolding correlation_rules
    by_external some_events e =
        correlated some_events
          (Ensures-last _ _ (Ensures-last _ _ (Ensures-first _ _ e after_tool)))

    by_poisoned :
        is_empty history.events ≡ false
        → Ensures P (memory_to_tool_rule py index ev history)
        → Ends P
    unfolding correlation_rules
    by_poisoned some_events e =
        correlated some_events (
          Ensures-last _ _ (Ensures-last _ _ (Ensures-last _ _ (Ensures-first _ _ e after_memory))))

    by_egress :
        is_empty history.events ≡ false
        → Ensures P (sensitive_egress_rule py index ev history)
        → Ends P
    unfolding correlation_rules
    by_egress some_events e = correlated some_events (
        Ensures-last _ _ (
          Ensures-last _ _
            (Ensures-last _ _ (Ensures-last _ _ (Ensures-first _ _ e after_egress)))))

  events_of_risky :
      is_empty (risky_external py index ev history) ≡ false → is_empty history.events ≡ false
  unfolding risky_external sequence_events
  events_of_risky h = is_empty-keep _ _ (is_empty-keep _ _ h)

  events_of_poisoned :
      is_empty (poisoned_memory py index ev history) ≡ false → is_empty history.events ≡ false
  unfolding poisoned_memory sequence_events
  events_of_poisoned h = is_empty-keep _ _ (is_empty-keep _ _ h)

  events_of_sensitive :
      is_empty (prior_sensitive py index ev history) ≡ false → is_empty history.events ≡ false
  unfolding prior_sensitive sequence_events
  events_of_sensitive h = is_empty-keep _ _ (is_empty-keep _ _ h)

  impact_floor-le : impact_floor py index ev history ≤ 100
  unfolding impact_floor
  impact_floor-le = ground arith

  -- If a recent event of the same session was external and scored 50 or more, then an event of a
  -- tool scores at least 70, and at least 85 if its action is of high impact; if the tool has a
  -- name, its call is denied. Approvals and mitigations make no difference.
  pub external_to_tool :
      current_tool ev ≡ true
      → is_empty (risky_external py index ev history) ≡ false
      → ((if current_high_impact py index ev history then 85 else 70)
          ≤ (score_ai_event py index ev history).score)
        × (truthy ev.tool_name ≡ true → (score_ai_event py index ev history).deny_tool_call ≡ true)
  unfolding external_to_tool_rule impact_floor
  external_to_tool tool risky = (
    floor-le-score py index ev history (impact_floor py index ev history) impact_floor-le (
        by_external (AtLeast-Stable index ev _) (events_of_risky risky)
          (Ensures-when _ _ (ground arith) (floored _ _ _ _ _))),
    λ has_name. denial-of_stages py index ev history (
        by_external (IsDenied-Stable index ev has_name) (events_of_risky risky) (
          Ensures-when _ _ (ground arith)
            (Ensures-last _ _ (Ensures-last _ _ (Ensures-last _ _ (Ensures-last _ _ denial)))))),
  )

  -- If a recent event of the same session was an untrusted write to memory, then an event of a tool
  -- scores at least 85, and the call of a named tool is denied.
  pub memory_to_tool :
      current_tool ev ≡ true
      → is_empty (poisoned_memory py index ev history) ≡ false
      → (85 ≤ (score_ai_event py index ev history).score)
        × (truthy ev.tool_name ≡ true → (score_ai_event py index ev history).deny_tool_call ≡ true)
  unfolding memory_to_tool_rule
  memory_to_tool tool poisoned = (
    floor-le-score py index ev history 85 (omega arith) (
        by_poisoned (AtLeast-Stable index ev _) (events_of_poisoned poisoned)
          (Ensures-when _ _ (ground arith) (floored _ _ _ _ _))),
    λ has_name. denial-of_stages py index ev history (
        by_poisoned (IsDenied-Stable index ev has_name) (events_of_poisoned poisoned) (
          Ensures-when _ _ (ground arith)
            (Ensures-last _ _ (Ensures-last _ _ (Ensures-last _ _ (Ensures-last _ _ denial)))))),
  )

  -- If a recent event of the same session was external and scored 50 or more, then a write to
  -- memory scores at least 70.
  pub external_to_memory :
      is_memory_write ev (lowered_text py index ev history) ≡ true
      → is_empty (risky_external py index ev history) ≡ false
      → 70 ≤ (score_ai_event py index ev history).score
  unfolding external_to_memory_rule
  external_to_memory writes risky = floor-le-score py index ev history 70 (omega arith) (
      by_memory_write (AtLeast-Stable index ev _) (events_of_risky risky) (
        Ensures-when _ _ (ground arith)
          (Ensures-last _ _ (Ensures-last _ _ (Ensures-last _ _ (floor_of 70))))))

  -- If a recent event of the same session touched sensitive data, then an external write without
  -- human approval scores at least 70, and at least 85 if its action is of high impact.
  pub sensitive_to_egress :
      current_external_write py index ev history ≡ true
      → is_empty (prior_sensitive py index ev history) ≡ false
      → human_approval_present py ev ≡ false
      → (if current_high_impact py index ev history then 85 else 70)
        ≤ (score_ai_event py index ev history).score
  unfolding sensitive_egress_rule impact_floor
  sensitive_to_egress writes sensitive unapproved =
      floor-le-score py index ev history (impact_floor py index ev history) impact_floor-le (
        by_egress (AtLeast-Stable index ev _) (events_of_sensitive sensitive) (
          Ensures-when _ _ (ground arith) (
            Ensures-last _ _
              (Ensures-when _ _ (ground arith) (Ensures-last _ _ (floor_then_deny _ _))))))
