-- ===== src/Explanations/Parsed.antt =====
-- Reading a decision back in intel/explanations.py loses and adds nothing.
use vexyl_guard.Prelude.{
  ℕ, ◌≤◌, String, Bool, true, false, Option, none, some, List, [], ◌∷◌, ℤ, pos, negsuc, length, leb,
  ◌≡◌, refl, sym, ap, ◌∙◌, arith, if◌then◌else◌, pos_part,
}
use vexyl_guard.Outcome.{
  Outcome, raised, returned, ◌>>=◌, bind-returned, then-returned, returned-inj, raised-returned,
}
use vexyl_guard.Python.{Python, int, str, arr, obj, bool, get, has_key, items}
use vexyl_guard.Models.{RiskDecision}
use vexyl_guard.Models.Reading.{text_json, text_items}
use vexyl_guard.Explanations.Document.{
  decision_text, decision_integer, usable_texts, decision_texts, excerpt_value, boundary_value,
  correlation_value, document_object, decision_to_dict, decision_rest, decision_from_fields,
  envelope_decision, decision_from_document,
}

-- A test that guards a result was passed.
passed :
    {A : Type 0} (b : Bool) (m : Outcome A) (x : A) (message : String)
    → (if b then m else raised message) ≡ returned x
    → (b ≡ true) × (m ≡ returned x)
passed true m x message e = (refl, e)
passed false m x message e = absurd (raised-returned e)

module _ (F : Type 0) where
  decision_text-≡ :
      (key : String) (maximum : ℕ) (s x : String)
      → decision_text {F = F} key maximum (str s) ≡ returned x
      → x ≡ s
  unfolding decision_text
  decision_text-≡ key maximum s x e = sym (returned-inj (passed _ _ x _ e).1)

  decision_integer-≡ :
      (key : String) (maximum : ℕ) (z : ℤ) (x : ℕ)
      → decision_integer {F = F} key maximum (int z) ≡ returned x
      → pos x ≡ z
  unfolding decision_integer
  decision_integer-≡ key maximum (pos n) x e = ap pos (sym (returned-inj (passed _ _ x _ e).1))
  decision_integer-≡ key maximum (negsuc n) x e = absurd (raised-returned e)

  usable_texts-≡ :
      (key : String) (maximum : ℕ) (xs out : List String)
      → usable_texts {F = F} key maximum (items (text_items xs)) ≡ returned out
      → out ≡ xs
  unfolding usable_texts text_items
  usable_texts-≡ key maximum [] out e = sym (returned-inj e)
  usable_texts-≡ key maximum (x ∷ xs) out e =
      let (first, found, e₁) = bind-returned _ _ _ e in
      let (rest, others, e₂) = bind-returned _ _ _ e₁ in
      let same = decision_text-≡ key maximum x first found in
      let below = usable_texts-≡ key maximum xs rest others in
      sym (returned-inj e₂) ∙ ap (λ y. y ∷ rest) same ∙ ap (λ ys. x ∷ ys) below

  length-text_items : (xs : List String) → length (items {F = F} (text_items xs)) ≡ length xs
  unfolding text_items
  length-text_items [] = refl
  length-text_items (x ∷ xs) = omega (arith, length-text_items xs)

  decision_texts-≡ :
      (key : String) (most maximum : ℕ) (xs out : List String)
      → decision_texts {F = F} key most maximum (arr (text_items xs)) ≡ returned out
      → (out ≡ xs) × (length xs ≤ most)
  unfolding decision_texts
  decision_texts-≡ key most maximum xs out e =
      let (fits, read) =
        passed (leb (length (items {F = F} (text_items xs))) most)
          (usable_texts _ maximum (items (text_items xs))) out _ e in
      let bound : length (items {F = F} (text_items xs)) ≤ most = ground arith in
      (usable_texts-≡ _ maximum xs out read, omega (arith, bound, length-text_items xs))

  excerpt_value-≡ :
      (o out : Option String) → excerpt_value {F = F} (text_json o) ≡ returned out → out ≡ o
  unfolding excerpt_value text_json
  excerpt_value-≡ none out e = sym (returned-inj e)
  excerpt_value-≡ (some s) out e = sym (returned-inj (passed _ _ out _ e).1)

  correlation_value-≡ :
      (o out : Option String) → correlation_value {F = F} (text_json o) ≡ returned out → out ≡ o
  unfolding correlation_value text_json
  correlation_value-≡ none out e = sym (returned-inj e)
  correlation_value-≡ (some s) out e = sym (returned-inj (passed _ _ out _ e).1)

  boundary_value-≡ : (b out : Bool) → boundary_value {F = F} (bool b) ≡ returned out → out ≡ b
  unfolding boundary_value
  boundary_value-≡ b out e = sym (returned-inj e)

pos-inj : {m n : ℕ} → pos m ≡ pos n → m ≡ n
pos-inj e = ap pos_part e

module _ (d : RiskDecision) where
  abbrev with_head : String → String → ℕ → List String → List String → RiskDecision
  with_head id action score attacks rules = record d {
    event_id = id;
    score = score;
    suggested_action = action;
    matched_attack_ids = attacks;
    matched_rules = rules;
  }

  rest_of :
      (id action : String) (score : ℕ) (attacks rules : List String)
      {reasons mitigations : List String} {trust : String} {excerpt : Option String} {deny : Bool}
      {scope : Option String} {window : ℤ} {events : ℕ}
      → reasons ≡ d.reasons
      → mitigations ≡ d.mitigations_applied
      → trust ≡ d.trust_level
      → excerpt ≡ d.redacted_excerpt
      → deny ≡ d.deny_tool_call
      → scope ≡ d.correlation_scope
      → window ≡ d.correlation_window_seconds
      → events ≡ d.correlated_event_count
      → record (with_head id action score attacks rules) {
        reasons = reasons;
        mitigations_applied = mitigations;
        trust_level = trust;
        redacted_excerpt = excerpt;
        deny_tool_call = deny;
        correlation_scope = scope;
        correlation_window_seconds = window;
        correlated_event_count = events;
      }
        ≡ with_head id action score attacks rules
  rest_of id action score attacks rules r m t x b c w n = rw (r, m, t, x, b, c, w, n) refl

  head_of :
      {id action : String} {score : ℕ} {attacks rules : List String}
      → id ≡ d.event_id
      → action ≡ d.suggested_action
      → score ≡ d.score
      → attacks ≡ d.matched_attack_ids
      → rules ≡ d.matched_rules
      → with_head id action score attacks rules ≡ d
  head_of i a s t r = rw (i, a, s, t, r) refl

module _ (F : Type 0) where
  decision_rest-≡ :
      (id action : String) (score : ℕ) (attacks rules : List String) (decision out : RiskDecision)
      → decision_rest {F = F} id score action attacks rules (decision_to_dict decision)
        ≡ returned out
      → (out ≡ record decision {
        event_id = id;
        score = score;
        suggested_action = action;
        matched_attack_ids = attacks;
        matched_rules = rules;
      })
        × (length decision.reasons ≤ 64)
        × (length decision.mitigations_applied ≤ 32)
  unfolding decision_rest decision_to_dict get
  decision_rest-≡ id action score attacks rules decision out e =
      let (reasons, reasons_read, e₁) = bind-returned _ _ _ e in
      let (mitigations, mitigations_read, e₂) = bind-returned _ _ _ e₁ in
      let (trust, trust_read, e₃) = bind-returned _ _ _ e₂ in
      let (u₁, is_level, e₄) = then-returned _ _ _ e₃ in
      let (u₂, has_excerpt, e₅) = then-returned _ _ _ e₄ in
      let (excerpt, excerpt_read, e₆) = bind-returned _ _ _ e₅ in
      let (deny, deny_read, e₇) = bind-returned _ _ _ e₆ in
      let (u₃, has_scope, e₈) = then-returned _ _ _ e₇ in
      let (scope, scope_read, e₉) = bind-returned _ _ _ e₈ in
      let (window, window_read, e₁₀) = bind-returned _ _ _ e₉ in
      let (events, events_read, e₁₁) = bind-returned _ _ _ e₁₀ in
      let same_reasons = decision_texts-≡ F _ 64 512 _ reasons reasons_read in
      let same_mitigations = decision_texts-≡ F _ 32 128 _ mitigations mitigations_read in
      (
        sym (returned-inj e₁₁)
            ∙ rest_of decision id action score attacks rules same_reasons.0 same_mitigations.0
                (decision_text-≡ F _ 32 decision.trust_level trust trust_read)
                (excerpt_value-≡ F decision.redacted_excerpt excerpt excerpt_read)
                (boundary_value-≡ F decision.deny_tool_call deny deny_read)
                (correlation_value-≡ F decision.correlation_scope scope scope_read)
                (decision_integer-≡ F _ 86400 decision.correlation_window_seconds window
                  window_read)
                (pos-inj (
                  decision_integer-≡ F _ 2000 (pos decision.correlated_event_count) events
                    events_read)),
        same_reasons.1,
        same_mitigations.1,
      )

module _ {F : Type 0} (py : Python F) (first_sorted : List String → String) where
  -- A decision that is read back is the same, and its rules, reasons and mitigations are at most
  -- 128, 64 and 32.
  pub decision_from_fields-≡ :
      (decision out : RiskDecision)
      → decision_from_fields py first_sorted (decision_to_dict decision) ≡ returned out
      → (out ≡ decision)
        × (length decision.matched_rules ≤ 128)
        × (length decision.reasons ≤ 64)
        × (length decision.mitigations_applied ≤ 32)
  unfolding decision_from_fields decision_to_dict get
  decision_from_fields-≡ decision out e =
      let (u₀, known, e₀) = then-returned _ _ _ e in
      let (id, id_read, e₁) = bind-returned _ _ _ e₀ in
      let (score, score_read, e₂) = bind-returned _ _ _ e₁ in
      let (action, action_read, e₃) = bind-returned _ _ _ e₂ in
      let (u₁, agrees, e₄) = then-returned _ _ _ e₃ in
      let (attacks, attacks_read, e₅) = bind-returned _ _ _ e₄ in
      let (u₂, valid, e₆) = then-returned _ _ _ e₅ in
      let (rules, rules_read, e₇) = bind-returned _ _ _ e₆ in
      let (ids, ids_read, e₈) = bind-returned _ _ _ e₇ in
      let (u₃, within, e₉) = then-returned _ _ _ e₈ in
      let (same, few_reasons, few_mitigations) =
        decision_rest-≡ F id action score attacks rules decision out e₉ in
      let same_rules = decision_texts-≡ F _ 128 256 _ rules rules_read in
      (
        same
            ∙ head_of decision (decision_text-≡ F _ 128 decision.event_id id id_read)
                (decision_text-≡ F _ 80 decision.suggested_action action action_read)
                (pos-inj (decision_integer-≡ F _ 100 (pos decision.score) score score_read))
                (decision_texts-≡ F _ 64 64 _ attacks attacks_read).0 same_rules.0,
        same_rules.1,
        few_reasons,
        few_mitigations,
      )

  pub decision_from_document-≡ :
      (decision out : RiskDecision)
      → decision_from_document py first_sorted (obj (decision_to_dict decision)) ≡ returned out
      → (out ≡ decision)
        × (length decision.matched_rules ≤ 128)
        × (length decision.reasons ≤ 64)
        × (length decision.mitigations_applied ≤ 32)
  unfolding decision_from_document envelope_decision decision_to_dict has_key document_object ◌>>=◌
  decision_from_document-≡ decision out e = decision_from_fields-≡ decision out e
