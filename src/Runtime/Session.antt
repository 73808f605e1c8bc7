-- ===== src/Runtime/Session.antt =====
-- `score_and_record_ai_event` of intel/scoring.py: the scoring reads the history that the store
-- holds, and the store keeps the event with its decision. The attack index stays an argument.
use vexyl_guard.Prelude.{ℕ, List, [], ◌∷◌, pos}
use vexyl_guard.Outcome.{Outcome, returned, ◌>>=◌}
use vexyl_guard.Python.{Python, Fields}
use vexyl_guard.Models.{RuntimeAiEvent, RiskDecision}
use vexyl_guard.Scoring.Terms.{runtime_correlation_window_seconds}
use vexyl_guard.Scoring.Accumulator.{AttackIndex, History}
use vexyl_guard.Scoring.Event.{score_ai_event}
use vexyl_guard.Runtime.Store.{HistoryDb, Instant, record_runtime_event}
use vexyl_guard.Runtime.Load.{load_runtime_history}

-- An event that is scored: the reading of the clock when its history is loaded, and those when it
-- is recorded.
pub record Arrival (F : Type 0) : Type 0 where
  pub event : RuntimeAiEvent F
  pub loaded_at : ℕ
  pub instant : Instant

module _ {F : Type 0} (py : Python F) where
  -- the history that `evaluate_runtime_correlation` loads
  unfoldable pub history_for : RuntimeAiEvent F → ℕ → HistoryDb F → History (Fields F)
  history_for ev now db =
      load_runtime_history py ev db (pos runtime_correlation_window_seconds) (pos 500) now

module _ {F : Type 0} (py : Python F) (index : AttackIndex) where
  unfoldable pub decision_at : Arrival F → HistoryDb F → RiskDecision
  decision_at arrival db =
      score_ai_event py index arrival.event (history_for py arrival.event arrival.loaded_at db)

  unfoldable pub score_and_record :
      ℕ → Arrival F → HistoryDb F → Outcome (RiskDecision × HistoryDb F)
  score_and_record hours arrival db = do
    stored ← record_runtime_event py hours arrival.instant arrival.event (decision_at arrival db) db
    returned (decision_at arrival db, stored)

  -- a run of several events, one after the other
  unfoldable pub score_all : ℕ → List (Arrival F) → HistoryDb F → Outcome (HistoryDb F)
  score_all hours [] db = returned db
  score_all hours (arrival ∷ later) db = do
    done ← score_and_record hours arrival db
    score_all hours later done.1
