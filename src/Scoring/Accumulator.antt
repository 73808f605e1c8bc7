-- ===== src/Scoring/Accumulator.antt =====
-- `_RiskAccumulator` of intel/scoring.py: its state, its operations, and `decision`. The event and
-- the attack index do not change, and are arguments. An action on the accumulator is a `Step`.
use vexyl_guard.Prelude.{
  ℕ, min, max, String, Bool, true, false, ◌&&◌, ◌||◌, Option, none, some, List, [], ◌∷◌, ◌++◌, ℤ,
  pos, ◌+ℤ◌, ◌*ℤ◌, max_ℤ, pos_part, leb, length, member, truthy, or_empty, if◌then◌else◌, is_empty,
}
use Prim.Native.String
use vexyl_guard.Python.{Python}
use vexyl_guard.Models.{RuntimeAiEvent, RiskDecision}
use vexyl_guard.Scoring.Redaction.{redact_text}
use vexyl_guard.Scoring.Predicates.{trust_level_for_event}

pub record RiskAccumulator : Type 0 where
  pub score : ℤ
  pub matched_attack_ids : List String
  pub matched_rules : List String
  pub reasons : List String
  pub mitigations_applied : List String
  pub trust_level : String
  pub deny_tool_call : Bool
  pub correlation_scope : Option String
  pub correlation_window_seconds : ℤ
  pub correlated_event_count : ℕ
  pub minimum_final_score : ℕ

-- A row of the attack index, as far as scoring reads it.
pub record AttackEntry : Type 0 where
  pub severity : Option ℤ

abbrev pub AttackIndex : Type 0
AttackIndex = String → Option AttackEntry

-- An action on the accumulator, which may read and write all of it.
pub record Step : Type 0 where
  pub run : RiskAccumulator → RiskAccumulator

abbrev step : (RiskAccumulator → RiskAccumulator) → Step
step f = record { run = f }

infixl 5 ◌>>◌
unfoldable pub ◌>>◌ : Step → Step → Step
m >> n = step λ acc. n.run (m.run acc)

unfoldable pub skip : Step
skip = step λ acc. acc

unfoldable pub when : Bool → Step → Step
when true m = m
when false m = skip

-- `if test: m` and `else: n`, for steps
infix 1 on◌then◌else◌
unfoldable pub on◌then◌else◌ : Bool → Step → Step → Step
on true then m else n = m
on false then m else n = n

-- `if item not in items: items.append(item)`
unfoldable pub add_new : String → List String → List String
add_new item items = if member item items then items else items ++ item ∷ []

abbrev severity_of : AttackEntry → ℤ
severity_of entry = elim entry.severity [ none ↦ pos 5 | some n ↦ n ]

unfoldable pub rule_id_of : String → String → String
rule_id_of attack_id slug = String.◌++◌ "rule:" (String.◌++◌ attack_id (String.◌++◌ ":" slug))

unfoldable pub add_known_attack :
    AttackEntry → String → String → String → ℕ → RiskAccumulator → RiskAccumulator
add_known_attack entry attack_id rule_slug reason extra acc =
    let first =
      (if member attack_id acc.matched_attack_ids
        then acc.score
        else acc.score +ℤ severity_of entry *ℤ pos 6) in
    record acc {
      score = first +ℤ pos extra;
      matched_attack_ids = add_new attack_id acc.matched_attack_ids;
      matched_rules = add_new (rule_id_of attack_id rule_slug) acc.matched_rules;
      reasons = add_new reason acc.reasons;
    }

unfoldable pub add_attack_extra : AttackIndex → String → String → String → ℕ → Step
add_attack_extra index attack_id rule_slug reason extra = step λ acc. elim (index attack_id) [
  | none ↦ acc
  | some entry ↦ add_known_attack entry attack_id rule_slug reason extra acc
]

unfoldable pub add_context_score : ℕ → String → Step
add_context_score points reason =
    step λ acc. record acc { score = acc.score +ℤ pos points; reasons = add_new reason acc.reasons }

unfoldable pub require_score : ℕ → Step
require_score minimum = step λ acc. record acc { score = max_ℤ acc.score (pos minimum) }

unfoldable pub require_final_score : ℕ → Step
require_final_score minimum =
    step λ acc. record acc { minimum_final_score = max acc.minimum_final_score minimum }

unfoldable pub apply_mitigation : String → ℤ → Step
apply_mitigation name delta = step λ acc. record acc {
  score = acc.score +ℤ delta;
  mitigations_applied = acc.mitigations_applied ++ name ∷ [];
}

-- `acc.deny_tool_call = value`
unfoldable pub set_deny : Bool → Step
set_deny value = step λ acc. record acc { deny_tool_call = value }

-- The history of recent events of the same scope; an event is a row of the store.
pub record History (Row : Type 0) : Type 0 where
  pub scope : Option String
  pub window_seconds : ℤ
  pub events : List Row

abbrev scope_or_unknown : Option String → String
scope_or_unknown scope = if truthy scope then or_empty scope else "unknown"

module _ {Row : Type 0} where
  unfoldable pub set_correlation_context : History Row → Step
  set_correlation_context history = step λ acc.
      if is_empty history.events then acc else record acc {
        correlation_scope = some (scope_or_unknown history.scope);
        correlation_window_seconds = history.window_seconds;
        correlated_event_count = length history.events;
      }

unfoldable pub suggested_action_for_score : ℕ → String
suggested_action_for_score score =
    if leb score 24
    then "allow/log"
    else if leb score 49
    then "warn/log"
    else if leb score 69
    then "require human approval or policy verifier"
    else if leb score 84
    then "quarantine/block tool action"
    else "block and open incident"

-- `max(0, min(100, max(self.score, self.minimum_final_score)))`; `pos_part` is the outer `max`.
unfoldable pub final_score : RiskAccumulator → ℕ
final_score acc = min 100 (pos_part (max_ℤ acc.score (pos acc.minimum_final_score)))

module _ {F : Type 0} (py : Python F) (ev : RuntimeAiEvent F) where
  -- `__init__`
  unfoldable pub new_accumulator : RiskAccumulator
  new_accumulator = record {
    score = pos 0;
    matched_attack_ids = [];
    matched_rules = [];
    reasons = [];
    mitigations_applied = [];
    trust_level = trust_level_for_event ev;
    deny_tool_call = false;
    correlation_scope = none;
    correlation_window_seconds = pos 0;
    correlated_event_count = 0;
    minimum_final_score = 0;
  }

  unfoldable pub decision : RiskAccumulator → RiskDecision
  decision acc = record {
    event_id = ev.event_id;
    score = final_score acc;
    suggested_action = suggested_action_for_score (final_score acc);
    matched_attack_ids = acc.matched_attack_ids;
    matched_rules = acc.matched_rules;
    reasons = acc.reasons;
    mitigations_applied = acc.mitigations_applied;
    trust_level = acc.trust_level;
    redacted_excerpt = some (redact_text py (or_empty ev.text_excerpt_redacted));
    deny_tool_call = (truthy ev.tool_name && leb 50 (final_score acc)) || acc.deny_tool_call;
    correlation_scope = acc.correlation_scope;
    correlation_window_seconds = acc.correlation_window_seconds;
    correlated_event_count = acc.correlated_event_count;
  }
