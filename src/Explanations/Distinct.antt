-- ===== src/Explanations/Distinct.antt =====
-- The factors that the loops of `explain_decision` collect have distinct codes, none of them the one
-- of a denial, and their number is bounded.
use vexyl_guard.Prelude.{
  ℕ, suc, ◌+◌, ◌≤◌, ◌<◌, String, false, Option, none, some, List, [], ◌∷◌, ◌++◌, length,
  length-append, ◌≡◌, inl, inr, refl, sym, ap, eq_iff, ◌∙◌, subst, arith, All, map, ltb, ◌==◌,
  member, Bool-cases,
}
use vexyl_guard.Python.{Python}
use vexyl_guard.Scoring.Invariants.{Distinct, Distinct-append, member-append}
use vexyl_guard.Explanations.{ExplanationFactor, Definition, context_factors, mitigation_factors}
use vexyl_guard.Explanations.Document.{rule_groups, rule_pattern}
use vexyl_guard.Explanations.Factors.{
  AttackDetail, rule_factor_of, Progress, sensitive_factor, context_factor_of, mitigation_factor_of,
  find_definition, sensitive_reason, add_factor, add_unseen, add_optional, add_rule, context_factor,
  mitigation_factor, add_contexts, add_mitigations, rule_factor, add_rules,
}

abbrev pub denied_code : String
denied_code = "policy:tool_action_denied"

abbrev pub codes : List ExplanationFactor → List String
codes factors = map (λ factor. factor.code) factors

pub codes-append :
    (xs : List ExplanationFactor) (factor : ExplanationFactor)
    → codes (xs ++ factor ∷ []) ≡ codes xs ++ factor.code ∷ []
codes-append [] factor = refl
codes-append (x ∷ xs) factor = ap (λ rest. x.code ∷ rest) (codes-append xs factor)

pub record IsTracked (bound : ℕ) (p : Progress) : Type 0 where
  pub seen : p.seen_codes ≡ codes p.factors
  pub distinct : Distinct p.seen_codes
  pub no_denial : member denied_code p.seen_codes ≡ false
  pub few : length p.factors ≤ bound

-- Any code but the one of a denial.
abbrev pub IsOther : ExplanationFactor → Type 0
IsOther factor = (factor.code == denied_code) ≡ false

abbrev IsOtherOption : Option ExplanationFactor → Type 0
IsOtherOption none = Unit
IsOtherOption (some factor) = IsOther factor

add_factor-IsTracked :
    (bound : ℕ) (factor : ExplanationFactor) (p : Progress)
    → IsOther factor
    → member factor.code p.seen_codes ≡ false
    → IsTracked bound p
    → IsTracked (suc bound) (add_factor factor p)
unfolding add_factor
add_factor-IsTracked bound factor p other unseen t = record {
  seen = ap (λ seen. seen ++ factor.code ∷ []) t.seen ∙ sym (codes-append p.factors factor);
  distinct = Distinct-append factor.code p.seen_codes t.distinct unseen;
  no_denial = member-append denied_code factor.code p.seen_codes t.no_denial other;
  few = omega (arith, length-append p.factors (factor ∷ []), t.few);
}

pub relax : (few most : ℕ) (p : Progress) → few ≤ most → IsTracked few p → IsTracked most p
relax few most p h t = record {
  seen = t.seen;
  distinct = t.distinct;
  no_denial = t.no_denial;
  few = omega (arith, h, t.few);
}

weaken : (bound : ℕ) (p : Progress) → IsTracked bound p → IsTracked (suc bound) p
weaken bound p t = relax bound (suc bound) p (omega arith) t

pub add_unseen-IsTracked :
    (bound : ℕ) (factor : ExplanationFactor) (p : Progress)
    → IsOther factor
    → IsTracked bound p
    → IsTracked (suc bound) (add_unseen factor p)
unfolding add_unseen
add_unseen-IsTracked bound factor p other t = elim (Bool-cases (member factor.code p.seen_codes)) [
  | inl seen ↦ rw seen (weaken bound p t)
  | inr unseen ↦ rw unseen (add_factor-IsTracked bound factor p other unseen t)
]

add_optional-IsTracked :
    (bound : ℕ) (o : Option ExplanationFactor) (p : Progress)
    → IsOtherOption o
    → IsTracked bound p
    → IsTracked (suc bound) (add_optional o p)
unfolding add_optional
add_optional-IsTracked bound none p other t = weaken bound p t
add_optional-IsTracked bound (some factor) p other t = add_unseen-IsTracked bound factor p other t

abbrev IsOtherDefinition : Definition → Type 0
IsOtherDefinition d = (d.defined_code == denied_code) ≡ false

abbrev IsOtherFound : Option Definition → Type 0
IsOtherFound none = Unit
IsOtherFound (some d) = IsOtherDefinition d

find_definition-other :
    (key : String) (ds : List Definition)
    → All IsOtherDefinition ds
    → IsOtherFound (find_definition key ds)
unfolding find_definition
find_definition-other key [] h = tt
find_definition-other key (d ∷ ds) h = elim (Bool-cases (d.key == key)) [
  | inl found ↦ rw found h.0
  | inr other ↦ rw other (find_definition-other key ds h.1)
]

contexts-other : All IsOtherDefinition context_factors
unfolding context_factors
contexts-other = (refl, (refl, (refl, (refl, (refl, (refl, (refl, (refl, (refl, tt)))))))))

mitigations-other : All IsOtherDefinition mitigation_factors
unfolding mitigation_factors
mitigations-other = (
  refl,
  (
    refl,
    (refl, (refl, (refl, (refl, (refl, (refl, (refl, (refl, (refl, (refl, (refl, tt))))))))))),
  ),
)

sensitive-other : (o : Option String) → IsOtherOption (sensitive_factor o)
sensitive-other none = tt
sensitive-other (some classification) = refl

context-other_of :
    (reason : String) (o : Option Definition)
    → IsOtherFound o
    → IsOtherOption (context_factor_of reason o)
context-other_of reason none h = sensitive-other (sensitive_reason reason)
context-other_of reason (some d) h = h

mitigation-other_of :
    (o : Option Definition) → IsOtherFound o → IsOtherOption (mitigation_factor_of o)
mitigation-other_of none h = tt
mitigation-other_of (some d) h = h

pub add_contexts-IsTracked :
    (bound : ℕ) (reasons : List String) (p : Progress)
    → IsTracked bound p
    → IsTracked (bound + length reasons) (add_contexts reasons p)
unfolding add_contexts context_factor
add_contexts-IsTracked bound [] p t = relax bound (bound + 0) p (omega arith) t
add_contexts-IsTracked bound (reason ∷ reasons) p t =
    relax (suc bound + length reasons) (bound + suc (length reasons)) _ (omega arith) (
      add_contexts-IsTracked (suc bound) reasons _ (
        add_optional-IsTracked bound _ p
          (context-other_of reason _ (find_definition-other reason _ contexts-other)) t))

pub add_mitigations-IsTracked :
    (bound : ℕ) (ms : List String) (p : Progress)
    → IsTracked bound p
    → IsTracked (bound + length ms) (add_mitigations ms p)
unfolding add_mitigations mitigation_factor
add_mitigations-IsTracked bound [] p t = relax bound (bound + 0) p (omega arith) t
add_mitigations-IsTracked bound (m ∷ ms) p t =
    relax (suc bound + length ms) (bound + suc (length ms)) _ (omega arith) (
      add_mitigations-IsTracked (suc bound) ms _ (
        add_optional-IsTracked bound _ p
          (mitigation-other_of _ (find_definition-other m _ mitigations-other)) t))

-- The loop over the rules counts what it adds, and stops at the maximum.
abbrev pub IsCounted : Progress → Type 0
IsCounted p = IsTracked p.included p × (p.included ≤ 96)

add_unseen-IsCounted :
    (factor : ExplanationFactor) (p : Progress)
    → IsOther factor
    → p.included < 96
    → IsCounted p
    → IsCounted (add_unseen factor p)
unfolding add_unseen add_factor
add_unseen-IsCounted factor p other room c = elim (Bool-cases (member factor.code p.seen_codes)) [
  | inl seen ↦ rw seen c
  | inr unseen ↦ rw unseen (add_factor-IsTracked p.included factor p other unseen c.0, omega arith)
]

add_rule-IsCounted :
    (o : Option ExplanationFactor) (p : Progress)
    → IsOtherOption o
    → IsCounted p
    → IsCounted (add_rule o p)
unfolding add_rule
add_rule-IsCounted none p other c = c
add_rule-IsCounted (some factor) p other c = elim (Bool-cases (ltb p.included 96)) [
  | inr full ↦ rw full c
  | inl room ↦ rw room (add_unseen-IsCounted factor p other (ground arith) c)
]

module _ {F : Type 0} (py : Python F) (first_sorted : List String → String)
    (index : String → Option AttackDetail)
    (no_rule : py.re_groups rule_pattern denied_code ≡ none) where
  rule-other_of :
      (rule_id : String) (o : Option (String × String))
      → (rule_id == denied_code) ≡ false
      → IsOtherOption (rule_factor_of py first_sorted index rule_id o)
  rule-other_of rule_id none h = tt
  rule-other_of rule_id (some groups) h = h

  no_denied_rule : IsOtherOption (rule_factor py first_sorted index denied_code)
  unfolding rule_factor rule_groups
  no_denied_rule = rw no_rule tt

  rule-other : (rule_id : String) → IsOtherOption (rule_factor py first_sorted index rule_id)
  unfolding rule_factor
  rule-other rule_id = elim (Bool-cases (rule_id == denied_code)) [
    | inr differs ↦ rule-other_of rule_id _ differs
    | inl same ↦
        subst (λ id. IsOtherOption (rule_factor py first_sorted index id))
          (sym ((eq_iff rule_id denied_code).0 same)) no_denied_rule
  ]

  pub add_rules-IsCounted :
      (rules : List String) (p : Progress)
      → IsCounted p
      → IsCounted (add_rules py first_sorted index rules p)
  unfolding add_rules
  add_rules-IsCounted [] p c = c
  add_rules-IsCounted (rule_id ∷ rules) p c =
      add_rules-IsCounted rules _ (add_rule-IsCounted _ p (rule-other rule_id) c)
