-- ===== src/Scoring/Run.antt =====
-- Everything that a run of the scoring has to unfold, and the standard library as a run may see it.
use vexyl_guard.Scoring.Terms.{
  rule_terms, secret_patterns, mitigation_deltas, lookup_delta, policy_metadata,
}
use vexyl_guard.Scoring.Redaction.{
  drop_last, unwrap, is_line_space, replace_ip, redact_ip_literals, redact_secrets, redact_all,
  truncate, redact_text_limit, redact_text,
}
use vexyl_guard.Scoring.Predicates.{
  context_flag, is_external_event, trust_level_for_event, is_memory_write, current_tool, event_flag,
  json_member, scannable_context, join_parts, action_matches_scope, has_high_impact_action,
  human_approval_present, same_tool_action, content_fingerprint_for_event,
}
use vexyl_guard.Scoring.Accumulator.{
  ◌>>◌, skip, when, on◌then◌else◌, add_new, rule_id_of, add_known_attack, add_attack_extra,
  add_context_score, require_score, require_final_score, apply_mitigation, set_deny,
  set_correlation_context, suggested_action_for_score, final_score, new_accumulator, decision,
  History, AttackIndex,
}
use vexyl_guard.Scoring.ToolPolicy.{
  allowed_tools, user_allowed_actions, policy_allowed_actions, tool_name_of, tool_action_of,
  tool_identity_rules, action_identity_rules, user_scope_rules, action_policy_rules,
  privileged_surface_rules, evaluate_tool_policy,
}
use vexyl_guard.Scoring.Plan.{
  plan_allowed_actions, plan_drift_rules, plan_approval_rules, evaluate_plan_scope, credit,
  mitigate, apply_verified_mitigations,
}
use vexyl_guard.Scoring.Agentic.{
  agentic_action_text, uses_delegated_identity, delegated_identity_rule, inter_agent_rule,
  context_count, orchestration_exceeded, orchestration_rule, approval_rationale_rule, rogue_signals,
  rogue_rule, evaluate_agentic_context_policy, model_identity_changed,
  evaluate_model_identity_policy,
}
use vexyl_guard.Scoring.Correlation.{
  sequence_events, risky_external, poisoned_memory, prior_sensitive, action_lowered,
  current_external_write, current_high_impact, impact_floor, external_to_memory_rule,
  external_to_tool_rule, memory_to_tool_rule, sensitive_egress_rule, repeated_actions, tool_events,
  tool_loop_rule, total_tokens, total_cost, token_budget, cost_budget, budget_floor,
  runtime_budget_rule, model_events, fingerprints, model_extraction_rule, correlation_rules,
  evaluate_runtime_correlation,
}
use vexyl_guard.Scoring.Stages.{
  event_text, term_rules, external_rules, sensitive_rules, has_tool_surface, tool_rules,
  egress_rules, memory_rules, code_execution_rules, high_impact_rules, cross_tenant_rules,
  budget_rules,
}
use vexyl_guard.Scoring.Event.{
  lowered_text, content_stages, action_stages, later_stages, scoring_stages, score_ai_event,
}
use vexyl_guard.Gateway.{decision_policy_exit_code}
use vexyl_guard.Python.{
  get, has_key, is_true, as_dict, truthy_json, str_or_empty, safe_int, safe_float, positive_int,
  positive_float, str_items, string_set, str_values, normalize_scope, normalize, normalize_key,
  Python, Json, Fields, end, str,
}
use vexyl_guard.Prelude.{
  any, all, keep, is_empty, ◌+ℤ◌, ◌*ℤ◌, is_space, is_key_char, strip_left, strip_right, strip_class,
  strip, collapse_from, collapse, contains, contains_any, member, join, take_chars, ℕ, ◌+◌, ◌*◌,
  max, String, true, false, not, none, some, pos, pos_part, leb, ltb, nat_eq, [], ◌∷◌,
}
use vexyl_guard.Models.{RuntimeAiEvent}

unfoldable pub scoring : Unit {0}
unfolding rule_terms secret_patterns mitigation_deltas lookup_delta policy_metadata drop_last unwrap
    is_line_space replace_ip redact_ip_literals redact_secrets redact_all truncate redact_text_limit
    redact_text context_flag is_external_event trust_level_for_event is_memory_write current_tool
    event_flag json_member scannable_context join_parts action_matches_scope has_high_impact_action
    human_approval_present same_tool_action content_fingerprint_for_event ◌>>◌ skip when
    on◌then◌else◌ add_new rule_id_of add_known_attack add_attack_extra add_context_score
    require_score require_final_score apply_mitigation set_deny set_correlation_context
    suggested_action_for_score final_score new_accumulator decision allowed_tools
    user_allowed_actions policy_allowed_actions tool_name_of tool_action_of tool_identity_rules
    action_identity_rules user_scope_rules action_policy_rules privileged_surface_rules
    evaluate_tool_policy plan_allowed_actions plan_drift_rules plan_approval_rules
    evaluate_plan_scope credit mitigate apply_verified_mitigations agentic_action_text
    uses_delegated_identity delegated_identity_rule inter_agent_rule context_count
    orchestration_exceeded orchestration_rule approval_rationale_rule rogue_signals rogue_rule
    evaluate_agentic_context_policy model_identity_changed evaluate_model_identity_policy
    sequence_events risky_external poisoned_memory prior_sensitive action_lowered
    current_external_write current_high_impact impact_floor external_to_memory_rule
    external_to_tool_rule memory_to_tool_rule sensitive_egress_rule repeated_actions tool_events
    tool_loop_rule total_tokens total_cost token_budget cost_budget budget_floor runtime_budget_rule
    model_events fingerprints model_extraction_rule correlation_rules evaluate_runtime_correlation
    event_text term_rules external_rules sensitive_rules has_tool_surface tool_rules egress_rules
    memory_rules code_execution_rules high_impact_rules cross_tenant_rules budget_rules lowered_text
    content_stages action_stages later_stages scoring_stages score_ai_event
    decision_policy_exit_code get has_key is_true as_dict truthy_json str_or_empty safe_int
    safe_float positive_int positive_float str_items string_set str_values normalize_scope normalize
    normalize_key any all keep is_empty ◌+ℤ◌ ◌*ℤ◌ is_space is_key_char strip_left strip_right
    strip_class strip collapse_from collapse contains contains_any member join take_chars
scoring = tt

-- Floats are whole numbers here, no pattern matches, and case is kept.
abbrev shown : Json ℕ → String
shown (str s) = s
shown v = ""

abbrev pub plain : Python ℕ
plain = record {
  lower = λ s. s;
  str_of = shown;
  dumps = λ v. "";
  int_of_str = λ s. none;
  int_of_float = λ f. some (pos f);
  float_of_str = λ s. none;
  float_of_int = pos_part;
  truthy_float = λ f. not (nat_eq f 0);
  add_float = λ a b. a + b;
  mul_float = λ a b. a * b;
  max_float = max;
  leb_float = leb;
  ltb_float = ltb;
  is_finite = λ f. true;
  fits_float = λ n. true;
  iso_timezone = λ s. some true;
  re_sub = λ pattern replacement text. text;
  re_sub_template = λ pattern template text. text;
  re_fullmatch = λ pattern text. true;
  re_groups = λ pattern text. some ("AI-PI-001" ∷ "rule" ∷ []);
  capitalize = λ s. s;
  uuid = λ s. some s;
  is_ip_address = λ s. false;
  sha256_hex = λ s. s;
  iso_utc = λ seconds. "";
}

-- Every attack is known, with severity 8.
abbrev pub index : AttackIndex
index attack_id = some (record { severity = some (pos 8) })

abbrev pub quiet : History (Fields ℕ)
quiet = record { scope = none; window_seconds = pos 900; events = [] }

-- A chat message of the user.
abbrev pub chat : RuntimeAiEvent ℕ
chat = record {
  event_id = "e1";
  timestamp_utc = "2026-07-20T00:00:00Z";
  tenant_id = none;
  tenant_id_hash = none;
  user_id_hash = none;
  session_id_hash = some "s1";
  model_provider = none;
  model_name = none;
  input_channel = "chat";
  data_origin = "user";
  text_excerpt_redacted = some "hello";
  full_text_ref = none;
  retrieved_doc_ids = [];
  tool_name = none;
  tool_action = none;
  tool_permissions = [];
  data_classification = "public";
  planned_actions = [];
  network_destination = none;
  cost_estimate = 0;
  token_count_estimate = pos 10;
  verified_mitigations = [];
  context = end;
}
