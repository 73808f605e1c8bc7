-- ===== src/Scoring/Invariants.antt =====
-- Three predicates on the accumulator that the operations keep: a floor under the final score, the
-- denial of a named tool's call, and the shape of the lists that a decision reports.
use vexyl_guard.Prelude.{
  ℕ, ◌≤◌, String, true, false, ◌≡◌, refl, List, [], ◌∷◌, ◌++◌, none, ◌==◌, arith, eq_iff, truthy,
  member, Option-cases, All, All-append, Bool-cases, inl, inr, ◌≢◌,
}
use vexyl_guard.Models.{RuntimeAiEvent}
use vexyl_guard.Scoring.Predicates.{current_tool}
use vexyl_guard.Scoring.Accumulator.{
  RiskAccumulator, AttackIndex, AttackEntry, rule_id_of, add_attack_extra, add_known_attack,
  add_context_score, require_score, require_final_score, apply_mitigation, set_deny,
  set_correlation_context, add_new,
}
use vexyl_guard.Scoring.Keeps.{Predicate, Keeps, Stable}

abbrev pub AtLeast : ℕ → Predicate
AtLeast k acc = k ≤ acc.minimum_final_score

abbrev pub IsDenied : Predicate
IsDenied acc = acc.deny_tool_call ≡ true

abbrev pub Distinct : List String → Type 0
Distinct [] = Unit
Distinct (x ∷ xs) = (member x xs ≡ false) × Distinct xs

pub member-append :
    (x y : String) (xs : List String)
    → member x xs ≡ false
    → (y == x) ≡ false
    → member x (xs ++ y ∷ []) ≡ false
unfolding member
member-append x y [] h k = ground arith
member-append x y (z ∷ xs) h k = ground (arith, member-append x y xs)

pub Distinct-append :
    (x : String) (xs : List String) → Distinct xs → member x xs ≡ false → Distinct (xs ++ x ∷ [])
unfolding member
Distinct-append x [] d h = (refl, tt)
Distinct-append x (y ∷ xs) d h = (
  member-append y x xs d.0 (ground (arith, eq_iff x y, eq_iff y x)),
  Distinct-append x xs d.1 (ground arith),
)

pub add_new-Distinct : (x : String) (xs : List String) → Distinct xs → Distinct (add_new x xs)
unfolding add_new
add_new-Distinct x xs d = elim (Bool-cases (member x xs)) [
  | inl known ↦ rw known d
  | inr fresh ↦ rw fresh (Distinct-append x xs d fresh)
]

add_new-All :
    (P : String → Type 0) (x : String) (xs : List String) → All P xs → P x → All P (add_new x xs)
unfolding add_new
add_new-All P x xs h k = elim (Bool-cases (member x xs)) [
  | inl known ↦ rw known h
  | inr fresh ↦ rw fresh (All-append P xs (x ∷ []) h (k, tt))
]

-- Attacks, rules and reasons are reported once each, and only attacks that the index knows.
pub record IsWellFormed (index : AttackIndex) (acc : RiskAccumulator) : Type 0 where
  pub attacks : Distinct acc.matched_attack_ids
  pub rules : Distinct acc.matched_rules
  pub reasons : Distinct acc.reasons
  pub known : All (λ attack_id. index attack_id ≢ none) acc.matched_attack_ids

module _ {F : Type 0} (index : AttackIndex) (ev : RuntimeAiEvent F) where
  pub AtLeast-Stable : (k : ℕ) → Stable index ev (AtLeast k)
  unfolding add_attack_extra add_known_attack add_context_score require_score require_final_score
      apply_mitigation set_deny set_correlation_context
  AtLeast-Stable k = record {
    attack = λ i s r e. record { at = λ acc h. ground arith };
    context = λ p r. record { at = λ acc h. h };
    require = λ m. record { at = λ acc h. h };
    floor = λ m. record { at = λ acc h. omega arith };
    mitigation = λ n d. record { at = λ acc h. h };
    correlated = λ x. record { at = λ acc h. ground arith };
    denied = record { at = λ acc h. h };
    named = record { at = λ acc h. h };
    tooled = record { at = λ acc h. h };
  }

  pub IsDenied-Stable : truthy ev.tool_name ≡ true → Stable index ev IsDenied
  unfolding add_attack_extra add_known_attack add_context_score require_score require_final_score
      apply_mitigation set_deny set_correlation_context current_tool
  IsDenied-Stable has_name = record {
    attack = λ i s r e. record { at = λ acc h. ground arith };
    context = λ p r. record { at = λ acc h. h };
    require = λ m. record { at = λ acc h. h };
    floor = λ m. record { at = λ acc h. h };
    mitigation = λ n d. record { at = λ acc h. h };
    correlated = λ x. record { at = λ acc h. ground arith };
    denied = record { at = λ acc h. refl };
    named = record { at = λ acc h. has_name };
    tooled = record { at = λ acc h. ground arith };
  }

  known-IsWellFormed :
      (entry : AttackEntry) (i s r : String) (e : ℕ) (acc : RiskAccumulator)
      → index i ≢ none
      → IsWellFormed index acc
      → IsWellFormed index (add_known_attack entry i s r e acc)
  unfolding add_known_attack
  known-IsWellFormed entry i s r e acc k h = record {
    attacks = add_new-Distinct i acc.matched_attack_ids h.attacks;
    rules = add_new-Distinct (rule_id_of i s) acc.matched_rules h.rules;
    reasons = add_new-Distinct r acc.reasons h.reasons;
    known = add_new-All _ i acc.matched_attack_ids h.known k;
  }

  attack-IsWellFormed :
      (i s r : String) (e : ℕ) → Keeps (IsWellFormed index) (add_attack_extra index i s r e)
  unfolding add_attack_extra
  attack-IsWellFormed i s r e = record {
    at = λ acc h. elim (Option-cases (index i)) [
      | inl unknown ↦ rw unknown h
      | inr (entry, is_known) ↦ rw is_known (known-IsWellFormed entry i s r e acc (λ q. cc) h)
    ];
  }

  pub IsWellFormed-Stable : Stable index ev (IsWellFormed index)
  unfolding add_context_score require_score require_final_score apply_mitigation set_deny
      set_correlation_context
  IsWellFormed-Stable = record {
    attack = attack-IsWellFormed;
    context = λ p r. record {
      at = λ acc h. record {
        attacks = h.attacks;
        rules = h.rules;
        known = h.known;
        reasons = add_new-Distinct r acc.reasons h.reasons;
      };
    };
    require = λ m. record { at = λ acc h. ground arith };
    floor = λ m. record { at = λ acc h. ground arith };
    mitigation = λ n d. record { at = λ acc h. ground arith };
    correlated = λ x. record { at = λ acc h. ground arith };
    denied = record { at = λ acc h. ground arith };
    named = record { at = λ acc h. ground arith };
    tooled = record { at = λ acc h. ground arith };
  }
