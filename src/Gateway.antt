-- ===== src/Gateway.antt =====
-- intel/gateway.py: the policy's exit code, and the request handler in the child modules.
use vexyl_guard.Prelude.{ℕ, ◌||◌, leb, if◌then◌else◌}
use vexyl_guard.Models.{RiskDecision}
pub mod Handler
pub mod Replies
pub mod Service
mod Tests

-- `decision_policy_exit_code`
unfoldable pub decision_policy_exit_code : RiskDecision → ℕ
decision_policy_exit_code decision =
    if decision.deny_tool_call || leb 70 decision.score
    then 4
    else if leb 50 decision.score
    then 3
    else 0
