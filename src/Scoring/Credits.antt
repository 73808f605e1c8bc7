-- ===== src/Scoring/Credits.antt =====
-- The credit for verified mitigations: no name is credited twice.
use vexyl_guard.Prelude.{
  String, true, false, not, ◌&&◌, Option, none, some, List, [], ◌∷◌, ◌≡◌, refl, arith, ℤ,
  Bool-cases, inl, inr, ◌==◌, eq_iff, eq_refl, member, All, All-append,
}
use vexyl_guard.Python.{Python, normalize_key}
use vexyl_guard.Models.{RuntimeAiEvent}
use vexyl_guard.Scoring.Predicates.{human_approval_present}
use vexyl_guard.Scoring.Accumulator.{
  RiskAccumulator, AttackIndex, ◌>>◌, when, skip, on◌then◌else◌, apply_mitigation,
}
use vexyl_guard.Scoring.Plan.{credit, mitigate, apply_verified_mitigations}
use vexyl_guard.Scoring.Invariants.{Distinct, Distinct-append}

abbrev AreSeen : List String → List String → Type 0
AreSeen seen names = All (λ name. member name seen ≡ true) names

AreSeen-cons :
    (key : String) (seen names : List String) → AreSeen seen names → AreSeen (key ∷ seen) names
unfolding member
AreSeen-cons key seen [] h = tt
AreSeen-cons key seen (name ∷ names) h = (ground arith, AreSeen-cons key seen names h.1)

absent :
    (key : String) (seen names : List String)
    → AreSeen seen names
    → member key seen ≡ false
    → member key names ≡ false
unfolding member
absent key seen [] h k = refl
absent key seen (name ∷ names) h k = elim (Bool-cases (name == key)) [
  | inl same ↦ let e = (eq_iff name key).0 same in absurd (cc)
  | inr other ↦ rw other (absent key seen names h.1 k)
]

-- The names that have been credited differ, and are among the keys met so far.
record IsCredited (seen : List String) (acc : RiskAccumulator) : Type 0 where
  distinct : Distinct acc.mitigations_applied
  are_seen : AreSeen seen acc.mitigations_applied

module _ {F : Type 0} (py : Python F) (index : AttackIndex) (ev : RuntimeAiEvent F) where
  credit-IsCredited :
      (key : String) (delta : Option ℤ) (seen : List String) (acc : RiskAccumulator)
      → IsCredited seen acc
      → member key seen ≡ false
      → IsCredited (key ∷ seen) ((credit py index ev key delta).run acc)
  unfolding credit skip apply_mitigation member
  credit-IsCredited key none seen acc c new = record {
    distinct = c.distinct;
    are_seen = AreSeen-cons key seen acc.mitigations_applied c.are_seen;
  }
  credit-IsCredited key (some delta) seen acc c new = record {
    distinct =
        Distinct-append key acc.mitigations_applied c.distinct
          (absent key seen acc.mitigations_applied c.are_seen new);
    are_seen =
        All-append (λ name. member name (key ∷ seen) ≡ true) acc.mitigations_applied (key ∷ [])
          (AreSeen-cons key seen acc.mitigations_applied c.are_seen)
          (ground (arith, eq_refl key), tt);
  }

  mitigate-Distinct :
      (raws seen : List String) (acc : RiskAccumulator)
      → IsCredited seen acc
      → Distinct ((mitigate py index ev raws seen).run acc).mitigations_applied
  unfolding mitigate when skip on◌then◌else◌ ◌>>◌
  mitigate-Distinct [] seen acc c =
      elim (Bool-cases (human_approval_present py ev && not (member "human_approval" seen))) [
        | inl approved ↦
            rw approved (credit-IsCredited "human_approval" _ seen acc c (ground arith)).distinct
        | inr credited ↦ rw credited c.distinct
      ]
  mitigate-Distinct (raw ∷ rest) seen acc c =
      elim (Bool-cases (member (normalize_key py raw) seen)) [
        | inl known ↦ rw known (mitigate-Distinct rest seen acc c)
        | inr new ↦ rw new (
            mitigate-Distinct rest (normalize_key py raw ∷ seen) _
              (credit-IsCredited (normalize_key py raw) _ seen acc c new))
      ]

  -- Whatever mitigations an event lists, and however often: if none has been credited before, then
  -- no name is credited twice, the human approval included.
  pub apply_verified_mitigations-Distinct :
      (acc : RiskAccumulator)
      → acc.mitigations_applied ≡ []
      → Distinct ((apply_verified_mitigations py index ev).run acc).mitigations_applied
  unfolding apply_verified_mitigations
  apply_verified_mitigations-Distinct acc h =
      mitigate-Distinct ev.verified_mitigations [] acc
        (record { distinct = rw h tt; are_seen = rw h tt })
