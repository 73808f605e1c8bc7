-- ===== src/Explanations/Tests.antt =====
-- The explanation of a concrete decision.
use vexyl_guard.Prelude.{
  ℕ, String, true, some, none, List, [], ◌∷◌, Option, pos, ◌≡◌, refl, keep, all, is_empty, member,
  strip, strip_class, strip_left, strip_right, is_space, if◌then◌else◌, ◌==◌,
}
use vexyl_guard.Outcome.{returned, ◌>>=◌, ◌>>◌, raise_if}
use vexyl_guard.Python.{Python, get, has_key}
use vexyl_guard.Models.{RiskDecision}
use vexyl_guard.Models.Reading.{text_json, text_items}
use vexyl_guard.Scoring.Run.{plain}
use vexyl_guard.Scoring.Accumulator.{suggested_action_for_score}
use vexyl_guard.Explanations.{DecisionExplanation}
use vexyl_guard.Explanations.Document.{
  decision_text, decision_integer, usable_texts, decision_texts, excerpt_value, boundary_value,
  correlation_value, document_object, decision_to_dict, rule_groups, rule_attack_ids, decision_rest,
  decision_from_fields, envelope_decision, decision_from_document,
}
use vexyl_guard.Explanations.Factors.{AttackDetail}
use vexyl_guard.Explanations.Explain.{explanation_of, explain_decision}
use vexyl_guard.Explanations.Explained.{IsExplained, explain_decision-IsExplained}

-- Python, with one rule whose id the pattern matches
abbrev one_rule : Python ℕ
one_rule = record plain {
  re_groups = λ pattern text.
      if text == "rule:AI-PI-001:override" then some ("AI-PI-001" ∷ "override" ∷ []) else none;
}

abbrev attacks : String → Option AttackDetail
attacks id = some (record { name = "Direct Prompt Injection"; rated = pos 8 })

abbrev first_of : List String → String
first_of names = "a field"

abbrev refused : RiskDecision
refused = record {
  event_id = "e1";
  score = 72;
  suggested_action = "quarantine/block tool action";
  matched_attack_ids = "AI-PI-001" ∷ [];
  matched_rules = "rule:AI-PI-001:override" ∷ [];
  reasons = "Network egress is present." ∷ "A reason of a rule." ∷ [];
  mitigations_applied = "sandbox" ∷ [];
  trust_level = "untrusted_data";
  redacted_excerpt = some "override";
  deny_tool_call = true;
  correlation_scope = some "session";
  correlation_window_seconds = pos 900;
  correlated_event_count = 2;
}

abbrev explanation : DecisionExplanation
explanation = explanation_of one_rule first_of attacks refused

refused_explained : explain_decision one_rule first_of attacks refused ≡ returned explanation
unfolding explain_decision decision_from_document envelope_decision document_object
    decision_from_fields decision_rest decision_text decision_integer usable_texts decision_texts
    excerpt_value boundary_value correlation_value decision_to_dict rule_groups rule_attack_ids
    text_json text_items suggested_action_for_score get has_key keep all is_empty member strip
    strip_class strip_left strip_right is_space ◌>>=◌ ◌>>◌ raise_if
refused_explained = refl

explain_decision-IsExplained_example : IsExplained refused explanation
explain_decision-IsExplained_example =
    explain_decision-IsExplained one_rule first_of attacks refused explanation refl
      refused_explained
