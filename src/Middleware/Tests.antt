-- ===== src/Middleware/Tests.antt =====
-- The theorems on the middleware at a concrete response and a concrete application.
use vexyl_guard.Prelude.{◌≤◌, ◌≡◌, refl, [], arith}
use vexyl_guard.Outcome.{returned}
use vexyl_guard.Python.{obj}
use vexyl_guard.Scoring.Run.{plain}
use vexyl_guard.Middleware.{
  allowed, client_score, guard_score, is_zero, require_allowed, AppRun, policy_error, asgi_call,
}
use vexyl_guard.Middleware.Guarding.{IsAllowed, require_allowed-IsAllowed}
use vexyl_guard.Middleware.Asgi.{starts, starts-asgi_call}
use vexyl_guard.Client.Tests.{checks, joined, response}

response_allowed : require_allowed joined plain (returned (obj response)) "e1" ≡ allowed response
unfolding checks require_allowed guard_score client_score is_zero
response_allowed = refl

require_allowed-IsAllowed_example : IsAllowed response "e1"
require_allowed-IsAllowed_example =
    require_allowed-IsAllowed joined plain (returned (obj response)) "e1" response response_allowed

-- An application that is refused before it has sent anything.
abbrev refused_run : AppRun
refused_run = record { messages = []; ending = policy_error 403 }

refused_starts : starts refused_run.messages ≤ 1
unfolding starts
refused_starts = omega arith

starts-asgi_call_example : starts (asgi_call "http" refused_run).messages ≤ 1
starts-asgi_call_example = starts-asgi_call "http" refused_run refused_starts
