-- ===== src/Scoring/Untrusted.antt =====
-- What `scan_external_content` answers on a text that tries to give instructions, whatever the
-- metadata of its source claim.
mod Tests
use vexyl_guard.Prelude.{
  ℕ, String, true, false, ◌≡◌, refl, Option, none, some, List, [], ◌∷◌, ◌++◌, arith, member,
  contains_any, Option-cases, Bool-cases, inl, inr, ◌≢◌, eq_iff, ◌∙◌,
}
use vexyl_guard.Python.{Python, Fields}
use vexyl_guard.Models.{RuntimeAiEvent, RiskDecision}
use vexyl_guard.Models.Reading.{Fresh}
use vexyl_guard.Scoring.Terms.{indirect_injection_terms, direct_injection_terms}
use vexyl_guard.Scoring.Predicates.{is_external_event, trust_level_for_event}
use vexyl_guard.Scoring.Accumulator.{
  RiskAccumulator, AttackIndex, AttackEntry, Step, ◌>>◌, History, add_new, add_known_attack,
  add_attack_extra, add_context_score, require_score, require_final_score, apply_mitigation,
  set_deny, set_correlation_context, new_accumulator, decision,
}
use vexyl_guard.Scoring.Stages.{external_rules, sensitive_rules, tool_rules}
use vexyl_guard.Scoring.Event.{score_ai_event, scoring_stages, content_stages, lowered_text}
use vexyl_guard.Scoring.Entry.{external_scan, retrieved_doc_ids_of, scan_external_content}
use vexyl_guard.Scoring.Keeps.{
  Predicate, Keeps, Keeps-then, Ensures, Ensures-first, Ensures-last, Ensures-when, Stable,
  Keeps-when,
}
use vexyl_guard.Scoring.Keeps.Whole.{Keeps-scoring_stages, Keeps-sensitive, Keeps-after_content}

abbrev Trusts : String → Predicate
Trusts level acc = acc.trust_level ≡ level

abbrev Reports : String → Predicate
Reports attack_id acc = member attack_id acc.matched_attack_ids ≡ true

member-last : (x : String) (xs : List String) → member x (xs ++ x ∷ []) ≡ true
unfolding member
member-last x [] = ground (arith, eq_iff x x)
member-last x (y ∷ xs) = ground (arith, member-last x xs)

member-more :
    (x y : String) (xs : List String) → member x xs ≡ true → member x (xs ++ y ∷ []) ≡ true
unfolding member
member-more x y [] h = cc
member-more x y (z ∷ xs) h = ground (arith, member-more x y xs)

add_new-keeps :
    (x y : String) (xs : List String) → member x xs ≡ true → member x (add_new y xs) ≡ true
unfolding add_new
add_new-keeps x y xs h = elim (Bool-cases (member y xs)) [
  | inl known ↦ rw known h
  | inr fresh ↦ rw fresh (member-more x y xs h)
]

add_new-member : (x : String) (xs : List String) → member x (add_new x xs) ≡ true
unfolding add_new
add_new-member x xs = elim (Bool-cases (member x xs)) [
  | inl known ↦ rw known known
  | inr fresh ↦ rw fresh (member-last x xs)
]

module _ {F : Type 0} (index : AttackIndex) (ev : RuntimeAiEvent F) where
  Trusts-Stable : (level : String) → Stable index ev (Trusts level)
  unfolding add_attack_extra add_known_attack add_context_score require_score require_final_score
      apply_mitigation set_deny set_correlation_context
  Trusts-Stable level = record {
    attack = λ i s r e. record { at = λ acc h. ground arith };
    context = λ p r. record { at = λ acc h. h };
    require = λ m. record { at = λ acc h. h };
    floor = λ m. record { at = λ acc h. h };
    mitigation = λ n d. record { at = λ acc h. h };
    correlated = λ x. record { at = λ acc h. ground arith };
    denied = record { at = λ acc h. h };
    named = record { at = λ acc h. h };
    tooled = record { at = λ acc h. h };
  }

  attack-Reports : (x i s r : String) (e : ℕ) → Keeps (Reports x) (add_attack_extra index i s r e)
  unfolding add_attack_extra add_known_attack
  attack-Reports x i s r e = record {
    at = λ acc h. elim (Option-cases (index i)) [
      | inl unknown ↦ rw unknown h
      | inr (entry, is_known) ↦ rw is_known (add_new-keeps x i acc.matched_attack_ids h)
    ];
  }

  Reports-Stable : (x : String) → Stable index ev (Reports x)
  unfolding add_context_score require_score require_final_score apply_mitigation set_deny
      set_correlation_context
  Reports-Stable x = record {
    attack = attack-Reports x;
    context = λ p r. record { at = λ acc h. h };
    require = λ m. record { at = λ acc h. h };
    floor = λ m. record { at = λ acc h. h };
    mitigation = λ n d. record { at = λ acc h. h };
    correlated = λ h2. record { at = λ acc h. ground arith };
    denied = record { at = λ acc h. h };
    named = record { at = λ acc h. h };
    tooled = record { at = λ acc h. h };
  }

  reporting :
      (i s r : String) (e : ℕ)
      → index i ≢ none
      → Ensures (Reports i) (add_attack_extra index i s r e)
  unfolding add_attack_extra add_known_attack
  reporting i s r e known = record {
    at = λ acc. elim (Option-cases (index i)) [
      | inl unknown ↦ absurd (known unknown)
      | inr (entry, is_known) ↦ rw is_known (add_new-member i acc.matched_attack_ids)
    ];
  }

-- What is answered on external content that holds a takeover phrase.
pub record IsForced (answer : Option RiskDecision) : Type 0 where
  pub decided : RiskDecision
  pub returned : answer ≡ some decided
  pub untrusted : decided.trust_level ≡ "untrusted_data"
  pub reported : member "AI-PI-002" decided.matched_attack_ids ≡ true

module _ {F : Type 0} (py : Python F) (index : AttackIndex) (ev : RuntimeAiEvent F)
    (history : History (Fields F)) where
  trust-score_ai_event : (score_ai_event py index ev history).trust_level ≡ trust_level_for_event ev
  unfolding score_ai_event decision new_accumulator
  trust-score_ai_event =
      (Keeps-scoring_stages py index ev history (Trusts-Stable index ev _)).at
        (new_accumulator py ev) refl

  takeover-Ensures :
      is_external_event ev ≡ true
      → index "AI-PI-002" ≢ none
      → (contains_any
            (lowered_text py index ev history)
            (indirect_injection_terms ++ direct_injection_terms)
          ≡ true)
      → Ensures
          (Reports "AI-PI-002")
          (external_rules py index ev (lowered_text py index ev history))
  unfolding external_rules
  takeover-Ensures external known takeover =
      let s = Reports-Stable index ev "AI-PI-002" in
      Ensures-when _ _ external (
        Ensures-last _ _ (
          Ensures-first _ _
            (Ensures-when _ _ takeover
              (Ensures-first _ _ (reporting index ev _ _ _ _ known) (s.require 70)))
            (Keeps-when _ _ (s.attack _ _ _ _))))

  takeover-reported :
      is_external_event ev ≡ true
      → index "AI-PI-002" ≢ none
      → (contains_any
            (lowered_text py index ev history)
            (indirect_injection_terms ++ direct_injection_terms)
          ≡ true)
      → member "AI-PI-002" (score_ai_event py index ev history).matched_attack_ids ≡ true
  unfolding score_ai_event decision scoring_stages content_stages
  takeover-reported external known takeover =
      let s = Reports-Stable index ev "AI-PI-002" in
      (Ensures-first _ _
          (Ensures-last _ _ (
            Ensures-first _ _ (takeover-Ensures external known takeover)
              (Keeps-sensitive py index ev history s)))
          (Keeps-after_content py index ev history s)).at
        (new_accumulator py ev)

module _ {F : Type 0} (py : Python F) (fresh : Fresh) (index : AttackIndex)
    (load : RuntimeAiEvent F → History (Fields F)) where
  external_scan-external :
      (text : String) (metadata : Fields F) (documents : List String)
      → is_external_event (external_scan py fresh text metadata documents) ≡ true
  unfolding is_external_event external_scan member
  external_scan-external text metadata documents = refl

  untrusted-of_external :
      (ev : RuntimeAiEvent F)
      → is_external_event ev ≡ true
      → trust_level_for_event ev ≡ "untrusted_data"
  unfolding trust_level_for_event
  untrusted-of_external ev external = rw external refl

  -- `scan_external_content` returns a decision on a text whose event, lowered and normalized, holds
  -- a phrase of an injection, if the metadata's document identifiers can be iterated and the index
  -- knows the attack AI-PI-002: whatever origin, channel or mitigations the metadata claim, the
  -- decision treats the content as untrusted data and reports the attack.
  pub scan_external_content-IsForced :
      (text : String) (metadata : Fields F) (documents : List String)
      → retrieved_doc_ids_of py metadata ≡ some documents
      → index "AI-PI-002" ≢ none
      → (let ev = external_scan py fresh text metadata documents in
          contains_any
            (lowered_text py index ev (load ev))
            (indirect_injection_terms ++ direct_injection_terms)
          ≡ true)
      → IsForced (scan_external_content py fresh index load text metadata)
  unfolding scan_external_content
  scan_external_content-IsForced text metadata documents listed known takeover =
      let ev = external_scan py fresh text metadata documents in
      let external = external_scan-external text metadata documents in
      record {
        decided = score_ai_event py index ev (load ev);
        returned = rw (scan_external_content, listed) refl;
        untrusted = trust-score_ai_event py index ev (load ev) ∙ untrusted-of_external ev external;
        reported = takeover-reported py index ev (load ev) external known takeover;
      }
