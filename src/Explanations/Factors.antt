-- ===== src/Explanations/Factors.antt =====
-- The factors of an explanation in intel/explanations.py. The attack index gives the name and the
-- severity of an attack.
use Prim.Native.String
use vexyl_guard.Prelude.{
  ℕ, suc, String, Char, Bool, not, ◌&&◌, ◌||◌, Option, none, some, List, [], ◌∷◌, ◌++◌, ℤ, pos,
  code, leb_ℤ, leb, ltb, nat_eq, ◌==◌, if◌then◌else◌, member, is_space, strip, collapse, take_chars,
}
use vexyl_guard.Python.{Python}
use vexyl_guard.Explanations.{
  ExplanationFactor, Definition, max_rule_factors, context_factors, mitigation_factors,
}
use vexyl_guard.Explanations.Document.{rule_groups}

pub record AttackDetail : Type 0 where
  pub name : String
  pub rated : ℤ

unfoldable pub find_definition : String → List Definition → Option Definition
find_definition key [] = none
find_definition key (d ∷ ds) = if d.key == key then some d else find_definition key ds

-- `rule_slug.replace("_", " ")`
unfoldable pub spaced : String → String
spaced String.[] = ""
spaced (String.◌∷◌ c s) = String.◌∷◌ (if nat_eq (code c) b'_' then " " else c) (spaced s)

-- `[A-Za-z0-9 .()/_-]`
unfoldable pub is_name_char : Char → Bool
is_name_char c =
    let n = code c in
    leb b'A' n && leb n b'Z'
    || leb b'a' n && leb n b'z'
    || leb b'0' n && leb n b'9'
    || nat_eq n b' '
    || nat_eq n b'.'
    || nat_eq n b'('
    || nat_eq n b')'
    || nat_eq n b'/'
    || nat_eq n b'_'
    || nat_eq n b'-'

-- `text or fallback`
abbrev text_or_else : String → String → String
text_or_else fallback text = if text == "" then fallback else text

unfoldable pub safe_attack_name : Option AttackDetail → String → String
safe_attack_name none fallback = fallback
safe_attack_name (some attack) fallback = text_or_else fallback (
    take_chars 100
      (strip (collapse is_space " " (collapse (λ c. not (is_name_char c)) " " attack.name))))

unfoldable pub bounded_severity : Option AttackDetail → Option ℤ
bounded_severity none = none
bounded_severity (some attack) =
    if leb_ℤ (pos 1) attack.rated && leb_ℤ attack.rated (pos 10) then some attack.rated else none

abbrev pub plain_factor : String → String → String → String → String → ExplanationFactor
plain_factor code category title detail effect = record {
  code = code;
  category = category;
  title = title;
  detail = detail;
  effect = effect;
  attack_id = none;
  severity = none;
}

-- the factors so far, the codes that were seen, and how many of this loop are included
pub record Progress : Type 0 where
  pub factors : List ExplanationFactor
  pub seen_codes : List String
  pub included : ℕ

unfoldable pub add_factor : ExplanationFactor → Progress → Progress
add_factor factor p = record {
  factors = p.factors ++ factor ∷ [];
  seen_codes = p.seen_codes ++ factor.code ∷ [];
  included = suc p.included;
}

unfoldable pub add_unseen : ExplanationFactor → Progress → Progress
add_unseen factor p = if member factor.code p.seen_codes then p else add_factor factor p

unfoldable pub add_optional : Option ExplanationFactor → Progress → Progress
add_optional none p = p
add_optional (some factor) p = add_unseen factor p

unfoldable pub add_rule : Option ExplanationFactor → Progress → Progress
add_rule none p = p
add_rule (some factor) p = if ltb p.included max_rule_factors then add_unseen factor p else p

-- `_SENSITIVE_REASON_PATTERN.fullmatch(reason)`, as the class that it names
unfoldable pub sensitive_reason : String → Option String
sensitive_reason reason =
    if reason == "Sensitive data classification: confidential."
    then some "confidential"
    else if reason == "Sensitive data classification: secret."
    then some "secret"
    else if reason == "Sensitive data classification: regulated."
    then some "regulated"
    else none

abbrev pub sensitive_factor : Option String → Option ExplanationFactor
sensitive_factor none = none
sensitive_factor (some classification) = some (
    plain_factor "context:sensitive_data" "context" "Sensitive data"
      (String.◌++◌ "The event carries the controlled "
        (String.◌++◌ classification " classification."))
      "raises_risk")

abbrev pub context_factor_of : String → Option Definition → Option ExplanationFactor
context_factor_of reason none = sensitive_factor (sensitive_reason reason)
context_factor_of reason (some d) =
    some (plain_factor d.defined_code "context" d.defined_title d.defined_detail "raises_risk")

unfoldable pub context_factor : String → Option ExplanationFactor
context_factor reason = context_factor_of reason (find_definition reason context_factors)

abbrev pub mitigation_factor_of : Option Definition → Option ExplanationFactor
mitigation_factor_of none = none
mitigation_factor_of (some d) =
    some (plain_factor d.defined_code "mitigation" d.defined_title d.defined_detail "reduces_risk")

unfoldable pub mitigation_factor : String → Option ExplanationFactor
mitigation_factor mitigation = mitigation_factor_of (find_definition mitigation mitigation_factors)

unfoldable pub add_contexts : List String → Progress → Progress
add_contexts [] p = p
add_contexts (reason ∷ reasons) p = add_contexts reasons (add_optional (context_factor reason) p)

unfoldable pub add_mitigations : List String → Progress → Progress
add_mitigations [] p = p
add_mitigations (m ∷ ms) p = add_mitigations ms (add_optional (mitigation_factor m) p)

unfoldable pub recognized_reasons : List String → ℕ
recognized_reasons [] = 0
recognized_reasons (reason ∷ reasons) =
    let rest = recognized_reasons reasons in
    elim (context_factor reason) [ none ↦ rest | some factor ↦ suc rest ]

module _ {F : Type 0} (py : Python F) (first_sorted : List String → String)
    (index : String → Option AttackDetail) where
  abbrev pub rule_factor_of : String → Option (String × String) → Option ExplanationFactor
  rule_factor_of rule_id none = none
  rule_factor_of rule_id (some groups) = some (record {
    code = rule_id;
    category = "rule";
    title = py.capitalize (spaced groups.1);
    detail =
        String.◌++◌ "Matched a defensive rule associated with "
          (String.◌++◌ (safe_attack_name (index groups.0) groups.0) ".");
    effect = "raises_risk";
    attack_id = some groups.0;
    severity = bounded_severity (index groups.0);
  })

  unfoldable pub rule_factor : String → Option ExplanationFactor
  rule_factor rule_id = rule_factor_of rule_id (rule_groups py first_sorted rule_id)

  unfoldable pub add_rules : List String → Progress → Progress
  add_rules [] p = p
  add_rules (rule_id ∷ rules) p = add_rules rules (add_rule (rule_factor rule_id) p)
