-- ===== src/Middleware.antt =====
-- intel/middleware.py: the guard that an application asks before it acts, and the ASGI middleware
-- that turns a refusal into a response.
use vexyl_guard.Prelude.{
  ℕ, String, Bool, true, false, not, Option, none, some, List, [], ◌∷◌, ◌++◌, ℤ, pos, nat_eq, ◌==◌,
  any, if◌then◌else◌,
}
use vexyl_guard.Outcome.{Outcome, raised, returned, ◌>>=◌}
use vexyl_guard.Python.{Python, Json, null, bool, int, float, str, arr, obj, Fields, get}
use vexyl_guard.Client.{validate_gateway_response}
pub mod Guarding
pub mod Asgi
mod Tests

-- What `require_allowed` gives: the response, or one of the two errors it raises.
pub data Guarded (F : Type 0) : Type 0 where
  allowed : Fields F → Guarded F
  unavailable : Guarded F
  denied : Fields F → Guarded F

module _ {F : Type 0} (py : Python F) where
  -- `value == 0`
  unfoldable pub is_zero : Json F → Bool
  is_zero (int (pos n)) = nat_eq n 0
  is_zero (bool b) = not b
  is_zero (float f) = not (py.truthy_float f)
  is_zero v = false

  abbrev pub guarded : Outcome (Fields F) → Guarded F
  guarded (raised message) = unavailable
  guarded (returned answer) =
      if is_zero (get "policy_exit_code" answer) then allowed answer else denied answer

module _ {F : Type 0} (first_sorted : List String → String) where
  -- the end of `VexylGatewayClient.score`, given the outcome of `_request` for the event
  unfoldable pub client_score : Outcome (Json F) → String → Outcome (Fields F)
  client_score response event_id = do
    answer ← response
    validate_gateway_response first_sorted answer (some event_id)

  -- the body of the `try` of `VexylRequestGuard.score`, which validates a second time
  unfoldable pub guard_score : Outcome (Json F) → String → Outcome (Fields F)
  guard_score response event_id = do
    answer ← client_score response event_id
    validate_gateway_response first_sorted (obj answer) none

  -- `VexylRequestGuard.require_allowed`
  unfoldable pub require_allowed : Python F → Outcome (Json F) → String → Guarded F
  require_allowed py response event_id = guarded py (guard_score response event_id)

-- `int(response.get("policy_exit_code") or 4)`, of a response that has been validated: its exit code
-- is a whole number from 0.
unfoldable pub denied_exit_code : {F : Type 0} → Json F → ℕ
denied_exit_code (int (pos n)) = if nat_eq n 0 then 4 else n
denied_exit_code v = 4

-- the status of the HTTP response to each error
unfoldable pub status_code : {F : Type 0} → Guarded F → Option ℕ
status_code (allowed response) = none
status_code unavailable = some 503
status_code (denied response) =
    some (if nat_eq (denied_exit_code (get "policy_exit_code" response)) 3 then 409 else 403)

-- A message that an ASGI application sends.
pub data Message : Type 0 where
  response_start : ℕ → Message
  response_body : Message
  other_message : String → Message

-- How the application ends.
pub data AppEnd : Type 0 where
  finished : AppEnd
  policy_error : ℕ → AppEnd
  other_error : AppEnd

-- What the application has sent, and how it ended.
pub record AppRun : Type 0 where
  pub messages : List Message
  pub ending : AppEnd

unfoldable pub is_start : Message → Bool
is_start (response_start status) = true
is_start message = false

abbrev pub answered : AppRun → AppEnd → AppRun
answered run (policy_error status) = if any is_start run.messages then run else record {
  messages = run.messages ++ response_start status ∷ response_body ∷ [];
  ending = finished;
}
answered run ending = run

-- `VexylASGIMiddleware.__call__`, given what the wrapped application does
unfoldable pub asgi_call : String → AppRun → AppRun
asgi_call scope_type run = if scope_type == "http" then answered run run.ending else run
