-- ===== src/Scoring/Report.antt =====
-- What holds of every decision that `score_ai_event` returns.
use vexyl_guard.Prelude.{◌≤◌, true, ◌≡◌, ◌≢◌, none, All, arith, truthy}
use vexyl_guard.Python.{Python, Fields}
use vexyl_guard.Models.{RuntimeAiEvent}
use vexyl_guard.Gateway.{decision_policy_exit_code}
use vexyl_guard.Scoring.Accumulator.{AttackIndex, History, new_accumulator, decision}
use vexyl_guard.Scoring.Event.{score_ai_event, scoring_stages}
use vexyl_guard.Scoring.Keeps.Whole.{Keeps-scoring_stages}
use vexyl_guard.Scoring.Invariants.{Distinct, IsWellFormed, IsWellFormed-Stable}
use vexyl_guard.Scoring.Outcome.{final_score-le, named_denial}

module _ {F : Type 0} (py : Python F) (index : AttackIndex) (ev : RuntimeAiEvent F)
    (history : History (Fields F)) where
  final-IsWellFormed :
      IsWellFormed index ((scoring_stages py index ev history).run (new_accumulator py ev))
  unfolding new_accumulator
  final-IsWellFormed =
      (Keeps-scoring_stages py index ev history (IsWellFormed-Stable index ev)).at _
        (record { attacks = tt; rules = tt; reasons = tt; known = tt })

  -- Every decision scores at most 100, and reports each attack, rule and reason once, and no attack
  -- that the index does not know.
  pub score_ai_event-IsReport :
      ((score_ai_event py index ev history).score ≤ 100)
      × Distinct (score_ai_event py index ev history).matched_attack_ids
      × Distinct (score_ai_event py index ev history).matched_rules
      × Distinct (score_ai_event py index ev history).reasons
      × All
          (λ attack_id. index attack_id ≢ none)
          (score_ai_event py index ev history).matched_attack_ids
  unfolding score_ai_event decision
  score_ai_event-IsReport =
      let w = final-IsWellFormed in (final_score-le _, w.attacks, w.rules, w.reasons, w.known)

  -- The exit code 3, which asks for an approval, is never given to the call of a named tool: from a
  -- score of 50 such a call is denied.
  pub approval_exit-unnamed :
      truthy ev.tool_name ≡ true
      → decision_policy_exit_code (score_ai_event py index ev history) ≢ 3
  unfolding decision_policy_exit_code
  approval_exit-unnamed has_name e = ground (arith, named_denial py index ev history has_name)
