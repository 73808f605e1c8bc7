-- ===== src/Middleware/Asgi.antt =====
-- The responses that the ASGI middleware sends.
use vexyl_guard.Prelude.{
  ℕ, ◌+◌, ◌≤◌, String, false, List, [], ◌∷◌, ◌++◌, ◌≡◌, refl, arith, any, ◌==◌, Bool-cases, inl,
  inr, if◌then◌else◌,
}
use vexyl_guard.Middleware.{
  Message, response_start, response_body, AppEnd, finished, policy_error, other_error, AppRun,
  is_start, answered, asgi_call,
}

-- the number of responses that are started
unfoldable pub starts : List Message → ℕ
starts [] = 0
starts (m ∷ ms) = (if is_start m then 1 else 0) + starts ms

starts-append : (ms ns : List Message) → starts (ms ++ ns) ≡ starts ms + starts ns
unfolding starts
starts-append [] ns = omega arith
starts-append (m ∷ ms) ns = omega (arith, starts-append ms ns)

starts-none : (ms : List Message) → any is_start ms ≡ false → starts ms ≡ 0
unfolding starts any
starts-none [] h = refl
starts-none (m ∷ ms) h = let rest = starts-none ms in ground arith

answered-starts :
    (run : AppRun) (ending : AppEnd)
    → starts run.messages ≤ 1
    → starts (answered run ending).messages ≤ 1
unfolding is_start starts
answered-starts run finished h = h
answered-starts run other_error h = h
answered-starts run (policy_error status) h = elim (Bool-cases (any is_start run.messages)) [
  | inl started ↦ rw started h
  | inr unstarted ↦ rw unstarted (
      omega (
        arith,
        starts-none run.messages unstarted,
        starts-append run.messages (response_start status ∷ response_body ∷ []),
      ))
]

-- If the application starts at most one response, then so does the application behind the middleware:
-- a refusal is answered only where no response was started before it.
pub starts-asgi_call :
    (scope_type : String) (run : AppRun)
    → starts run.messages ≤ 1
    → starts (asgi_call scope_type run).messages ≤ 1
unfolding asgi_call
starts-asgi_call scope_type run h = elim (Bool-cases (scope_type == "http")) [
  | inl http ↦ rw http (answered-starts run run.ending h)
  | inr other ↦ rw other h
]
