-- ===== src/Scoring/Calls/Tests.antt =====
-- Runs of `evaluate_tool_call`, and its theorem at a call with an approved tool.
use vexyl_guard.Prelude.{ℕ, true, ◌≡◌, ◌≢◌, refl, arith}
use vexyl_guard.Python.{str, arr, obj, nil, cons, Fields, field, end}
use vexyl_guard.Models.{RuntimeAiEvent}
use vexyl_guard.Models.Reading.{Fresh, text_or, or_else, as_text}
use vexyl_guard.Gateway.{decision_policy_exit_code}
use vexyl_guard.Scoring.Accumulator.{History}
use vexyl_guard.Scoring.Stages.{has_tool_surface}
use vexyl_guard.Scoring.Run.{scoring, plain, index, quiet}
use vexyl_guard.Scoring.Entry.{
  set_key, optional_string, string_list, argument_text, call_part, either, destination_text,
  tool_call_scan, evaluate_tool_call,
}
use vexyl_guard.Scoring.Calls.{IsGrantedBy, evaluate_tool_call-IsGrantedBy}

unfoldable calls : Unit {0}
unfolding scoring set_key optional_string string_list argument_text call_part either
    destination_text tool_call_scan evaluate_tool_call text_or or_else as_text
calls = tt

abbrev fresh : Fresh
fresh = record { event_id = "e8"; timestamp_utc = "2026-07-20T00:00:00Z" }

abbrev load : RuntimeAiEvent ℕ → History (Fields ℕ)
load ev = quiet

abbrev lookups : Fields ℕ
lookups = field "allowed_actions" (arr (cons (str "lookup") nil)) end

abbrev granting : Fields ℕ
granting = field "data_origin" (str "internal_db") (
    field "allowed_tools" (arr (cons (str "docs") nil))
      (field "user_scope" (obj lookups) (field "tool_policy" (obj lookups) end)))

-- The call states its own lists, which do not count.
abbrev lookup : Fields ℕ
lookup = field "name" (str "docs") (field "action" (str "lookup") granting)

lookup_exit :
    decision_policy_exit_code (evaluate_tool_call plain fresh index load lookup granting) ≡ 0
unfolding calls
lookup_exit = refl

ungranted_exit :
    decision_policy_exit_code (evaluate_tool_call plain fresh index load lookup end) ≡ 4
unfolding calls
ungranted_exit = refl

lookup_surface : has_tool_surface plain index (tool_call_scan plain fresh lookup granting) ≡ true
unfolding calls
lookup_surface = refl

lookup_passes :
    decision_policy_exit_code (evaluate_tool_call plain fresh index load lookup granting) ≢ 4
lookup_passes e = ground (arith, lookup_exit)

evaluate_tool_call-IsGrantedBy_example : IsGrantedBy plain lookup granting
evaluate_tool_call-IsGrantedBy_example =
    evaluate_tool_call-IsGrantedBy plain lookup granting fresh index load lookup_surface
      lookup_passes
