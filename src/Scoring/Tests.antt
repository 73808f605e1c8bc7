-- ===== src/Scoring/Tests.antt =====
-- Runs of the scoring, and the theorems on it at concrete events.
use vexyl_guard.Prelude.{
  count, ◌+◌, ℕ, ◌≤◌, true, false, none, some, pos, [], ◌∷◌, ◌≡◌, ◌≢◌, refl, arith, if◌then◌else◌,
  truthy, is_empty, All, inl,
}
use vexyl_guard.Python.{bool, int, str, arr, obj, nil, cons, Fields, field, end}
use vexyl_guard.Models.{RuntimeAiEvent}
use vexyl_guard.Gateway.{decision_policy_exit_code}
use vexyl_guard.Scoring.Accumulator.{RiskAccumulator, History, new_accumulator}
use vexyl_guard.Scoring.Event.{score_ai_event, lowered_text}
use vexyl_guard.Scoring.Run.{scoring, plain, index, quiet, chat}
use vexyl_guard.Scoring.Predicates.{current_tool, is_memory_write, human_approval_present}
use vexyl_guard.Scoring.Agentic.{rogue_signals, model_identity_changed}
use vexyl_guard.Scoring.Correlation.{
  risky_external, poisoned_memory, prior_sensitive, current_external_write, current_high_impact,
}
use vexyl_guard.Scoring.Stages.{has_tool_surface}
use vexyl_guard.Scoring.Invariants.{Distinct}
use vexyl_guard.Scoring.Authorization.{IsAuthorized, exit_code-IsAuthorized}
use vexyl_guard.Scoring.Chains.{external_to_tool, external_to_memory, sensitive_to_egress}
use vexyl_guard.Scoring.Boundaries.{
  Crossing, unverified_message, crossing-le-score, rogue-le-score, model_identity-le-score,
}
use vexyl_guard.Scoring.Redaction.{redact_all, redact_text_limit}
use vexyl_guard.Scoring.Excerpt.{redact_text_limit-IsBounded}
use vexyl_guard.Scoring.Plan.{apply_verified_mitigations}
use vexyl_guard.Scoring.Credits.{apply_verified_mitigations-Distinct}
use vexyl_guard.Scoring.Report.{score_ai_event-IsReport, approval_exit-unnamed}

abbrev actions : Fields ℕ
actions = field "allowed_actions" (arr (cons (str "lookup") nil)) end

-- A lookup with its three authorizations.
abbrev lookup_call : RuntimeAiEvent ℕ
lookup_call = record chat {
  input_channel = "tool";
  data_origin = "internal_db";
  tool_name = some "docs";
  tool_action = some "lookup";
  context =
      field "allowed_tools" (arr (cons (str "docs") nil))
        (field "user_scope" (obj actions) (field "tool_policy" (obj actions) end));
}

lookup_scores : (score_ai_event plain index lookup_call quiet).score ≡ 8
unfolding scoring
lookup_scores = refl

lookup_exit : decision_policy_exit_code (score_ai_event plain index lookup_call quiet) ≡ 0
unfolding scoring
lookup_exit = refl

lookup_surface : has_tool_surface plain index lookup_call ≡ true
unfolding scoring
lookup_surface = refl

lookup_passes : decision_policy_exit_code (score_ai_event plain index lookup_call quiet) ≢ 4
lookup_passes e = ground (arith, lookup_exit)

exit_code-IsAuthorized_example : IsAuthorized plain index lookup_call
exit_code-IsAuthorized_example =
    exit_code-IsAuthorized plain index lookup_call quiet lookup_surface lookup_passes

-- A session in which an external event, an untrusted write to memory and a read of sensitive data
-- came before.
abbrev flags : Fields ℕ
flags =
    field "external" (bool true)
      (field "untrusted_memory_write" (bool true) (field "sensitive" (bool true) end))

abbrev row : Fields ℕ
row =
    field "same_session" (bool true)
      (field "risk_score" (int (pos 60)) (field "flags" (obj flags) end))

abbrev session : History (Fields ℕ)
session = record { scope = some "session:s1"; window_seconds = pos 900; events = row ∷ [] }

abbrev send_call : RuntimeAiEvent ℕ
send_call = record lookup_call { tool_action = some "send"; context = end }

abbrev memory_note : RuntimeAiEvent ℕ
memory_note = record chat { input_channel = "memory" }

send_tool : current_tool send_call ≡ true
unfolding scoring
send_tool = refl

send_risky : is_empty (risky_external plain index send_call session) ≡ false
unfolding scoring
send_risky = refl

send_poisoned : is_empty (poisoned_memory plain index send_call session) ≡ false
unfolding scoring
send_poisoned = refl

send_sensitive : is_empty (prior_sensitive plain index send_call session) ≡ false
unfolding scoring
send_sensitive = refl

send_writes : current_external_write plain index send_call session ≡ true
unfolding scoring
send_writes = refl

send_unapproved : human_approval_present plain send_call ≡ false
unfolding scoring
send_unapproved = refl

note_writes : is_memory_write memory_note (lowered_text plain index memory_note session) ≡ true
unfolding scoring
note_writes = refl

note_risky : is_empty (risky_external plain index memory_note session) ≡ false
unfolding scoring
note_risky = refl

external_to_tool_example :
    ((if current_high_impact plain index send_call session then 85 else 70)
      ≤ (score_ai_event plain index send_call session).score)
    × (truthy send_call.tool_name ≡ true
        → (score_ai_event plain index send_call session).deny_tool_call ≡ true)
external_to_tool_example = external_to_tool plain index send_call session send_tool send_risky

external_to_memory_example : 70 ≤ (score_ai_event plain index memory_note session).score
external_to_memory_example =
    external_to_memory plain index memory_note session note_writes note_risky

sensitive_to_egress_example :
    (if current_high_impact plain index send_call session then 85 else 70)
    ≤ (score_ai_event plain index send_call session).score
sensitive_to_egress_example =
    sensitive_to_egress plain index send_call session send_writes send_sensitive send_unapproved

-- A chat message that another agent sent, unverified, with audits switched off and another model.
abbrev agent_message : RuntimeAiEvent ℕ
agent_message = record chat {
  context =
      field "inter_agent_message" (bool true)
        (field "audit_disabled" (bool true) (field "expected_model_name" (str "m1") end));
}

message_crosses : Crossing plain index agent_message
unfolding scoring
message_crosses = unverified_message refl (inl refl)

message_rogue : rogue_signals plain index agent_message ≡ true
unfolding scoring
message_rogue = refl

message_model : model_identity_changed plain index agent_message ≡ true
unfolding scoring
message_model = refl

crossing-le-score_example : 70 ≤ (score_ai_event plain index agent_message quiet).score
crossing-le-score_example = crossing-le-score plain index agent_message quiet message_crosses

rogue-le-score_example : 85 ≤ (score_ai_event plain index agent_message quiet).score
rogue-le-score_example = rogue-le-score plain index agent_message quiet message_rogue

model_identity-le-score_example : 70 ≤ (score_ai_event plain index agent_message quiet).score
model_identity-le-score_example =
    model_identity-le-score plain index agent_message quiet message_model

score_ai_event-IsReport_example :
    ((score_ai_event plain index send_call session).score ≤ 100)
    × Distinct (score_ai_event plain index send_call session).matched_attack_ids
    × Distinct (score_ai_event plain index send_call session).matched_rules
    × Distinct (score_ai_event plain index send_call session).reasons
    × All
        (λ attack_id. index attack_id ≢ none)
        (score_ai_event plain index send_call session).matched_attack_ids
score_ai_event-IsReport_example = score_ai_event-IsReport plain index send_call session

send_named : truthy send_call.tool_name ≡ true
unfolding scoring
send_named = refl

approval_exit-unnamed_example :
    decision_policy_exit_code (score_ai_event plain index send_call session) ≢ 3
approval_exit-unnamed_example = approval_exit-unnamed plain index send_call session send_named

redact_text_limit-IsBounded_example :
    (count (redact_text_limit plain 5 "a long text") ≤ 5 + 3)
    × (count (redact_all plain "a long text") ≤ 5
        → redact_text_limit plain 5 "a long text" ≡ redact_all plain "a long text")
redact_text_limit-IsBounded_example = redact_text_limit-IsBounded plain 5 "a long text"

-- The same mitigation twice.
abbrev twice : RuntimeAiEvent ℕ
twice = record chat { verified_mitigations = "human_approval" ∷ "human_approval" ∷ [] }

nothing_credited : (new_accumulator plain twice).mitigations_applied ≡ []
unfolding scoring
nothing_credited = refl

abbrev mitigated : RiskAccumulator
mitigated = (apply_verified_mitigations plain index twice).run (new_accumulator plain twice)

apply_verified_mitigations-Distinct_example : Distinct mitigated.mitigations_applied
apply_verified_mitigations-Distinct_example =
    apply_verified_mitigations-Distinct plain index twice (new_accumulator plain twice)
      nothing_credited
