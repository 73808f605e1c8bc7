-- ===== src/Scoring/Keeps.antt =====
-- Predicates on the accumulator that steps keep, and predicates that a step establishes. The
-- children walk through the stages of `score_ai_event`.
pub mod Stages
pub mod Policies
pub mod Correlation
pub mod Whole
use vexyl_guard.Prelude.{
  ℕ, String, Bool, true, false, ◌≡◌, refl, ℤ, List, [], ◌∷◌, Option, none, some, truthy,
}
use vexyl_guard.Python.{Python, Fields, normalize_key}
use vexyl_guard.Models.{RuntimeAiEvent}
use vexyl_guard.Scoring.Predicates.{current_tool}
use vexyl_guard.Scoring.Terms.{Rule, rule_terms}
use vexyl_guard.Scoring.Accumulator.{
  RiskAccumulator, AttackIndex, Step, ◌>>◌, on◌then◌else◌, skip, when, add_attack_extra,
  add_context_score, require_score, require_final_score, apply_mitigation, set_deny, History,
  set_correlation_context,
}

abbrev pub Predicate : Type 1
Predicate = RiskAccumulator → Type 0

-- The step takes a state where `P` holds to one where `P` holds.
pub record Keeps (P : Predicate) (m : Step) : Type 0 where
  pub at : (acc : RiskAccumulator) → P acc → P (m.run acc)

module _ {P : Predicate} where
  pub Keeps-skip : Keeps P skip
  unfolding skip
  Keeps-skip = record { at = λ acc h. h }

  pub Keeps-then : (m n : Step) → Keeps P m → Keeps P n → Keeps P (m >> n)
  unfolding ◌>>◌
  Keeps-then m n k l = record { at = λ acc h. l.at (m.run acc) (k.at acc h) }

  pub Keeps-when : (b : Bool) (m : Step) → Keeps P m → Keeps P (when b m)
  unfolding when
  Keeps-when true m k = k
  Keeps-when false m k = Keeps-skip

  pub Keeps-on : (b : Bool) (m n : Step) → Keeps P m → Keeps P n → Keeps P (on b then m else n)
  unfolding on◌then◌else◌
  Keeps-on true m n k l = k
  Keeps-on false m n k l = l

pub ruleset keeps_rules = (Keeps-skip, Keeps-then, Keeps-when, Keeps-on)

-- The step ends in a state where `P` holds, whatever the state it starts from.
pub record Ensures (P : Predicate) (m : Step) : Type 0 where
  pub at : (acc : RiskAccumulator) → P (m.run acc)

module _ {P : Predicate} where
  pub Ensures-first : (m n : Step) → Ensures P m → Keeps P n → Ensures P (m >> n)
  unfolding ◌>>◌
  Ensures-first m n k l = record { at = λ acc. l.at (m.run acc) (k.at acc) }

  pub Ensures-last : (m n : Step) → Ensures P n → Ensures P (m >> n)
  unfolding ◌>>◌
  Ensures-last m n l = record { at = λ acc. l.at (m.run acc) }

  pub Ensures-when : (b : Bool) (m : Step) → b ≡ true → Ensures P m → Ensures P (when b m)
  unfolding when
  Ensures-when true m h k = k
  Ensures-when false m h k = cc

module _ {P : Predicate} where
  pub Ensures-on :
      (b : Bool) (m n : Step)
      → (b ≡ true → Ensures P m)
      → (b ≡ false → Ensures P n)
      → Ensures P (on b then m else n)
  unfolding on◌then◌else◌
  Ensures-on true m n k l = k refl
  Ensures-on false m n k l = l refl

-- What the operations of the accumulator have to keep. The denial is only ever set to `True`, to
-- whether the tool has a name, or to whether the event is a tool's.
pub record Stable {F : Type 0} (index : AttackIndex) (ev : RuntimeAiEvent F) (P : Predicate)
    : Type 0 where
  pub attack :
      (attack_id slug reason : String) (extra : ℕ)
      → Keeps P (add_attack_extra index attack_id slug reason extra)
  pub context : (points : ℕ) (reason : String) → Keeps P (add_context_score points reason)
  pub require : (minimum : ℕ) → Keeps P (require_score minimum)
  pub floor : (minimum : ℕ) → Keeps P (require_final_score minimum)
  pub mitigation : (name : String) (delta : ℤ) → Keeps P (apply_mitigation name delta)
  pub correlated : (history : History (Fields F)) → Keeps P (set_correlation_context history)
  pub denied : Keeps P (set_deny true)
  pub named : Keeps P (set_deny (truthy ev.tool_name))
  pub tooled : Keeps P (set_deny (current_tool ev))
