-- ===== src/Client/Agreement.antt =====
-- The client's tables against those of the scoring and of the gateway.
use vexyl_guard.Prelude.{◌≡◌, refl}
use vexyl_guard.Python.{Python, Fields}
use vexyl_guard.Models.{RuntimeAiEvent}
use vexyl_guard.Gateway.{decision_policy_exit_code}
use vexyl_guard.Scoring.Accumulator.{AttackIndex, History, decision, suggested_action_for_score}
use vexyl_guard.Scoring.Event.{score_ai_event}
use vexyl_guard.Client.{expected_action_for_score, policy_exit_code}

-- For every event, the action that the client expects of the score is the one that the scoring
-- suggests, and the exit code that it expects is the gateway's.
pub client-agrees :
    {F : Type 0} (py : Python F) (index : AttackIndex) (ev : RuntimeAiEvent F)
    (history : History (Fields F))
    → (expected_action_for_score (score_ai_event py index ev history).score
        ≡ (score_ai_event py index ev history).suggested_action)
      × (policy_exit_code
            (score_ai_event py index ev history).score
            (score_ai_event py index ev history).deny_tool_call
          ≡ decision_policy_exit_code (score_ai_event py index ev history))
unfolding expected_action_for_score policy_exit_code score_ai_event decision
    suggested_action_for_score decision_policy_exit_code
client-agrees py index ev history = (refl, refl)
