-- ===== src/Scoring/Excerpt.antt =====
-- The length of the excerpt that a decision carries.
use vexyl_guard.Prelude.{
  ℕ, ◌+◌, ◌≤◌, String, ◌≡◌, refl, arith, ltb, Bool-cases, inl, inr, count, is_space, strip_right,
  take_chars, count-take_chars, count-strip_right,
}
use text.Mathlib.TextLemmas.{length-append}
use vexyl_guard.Python.{Python}
use vexyl_guard.Scoring.Redaction.{truncate, redact_all, redact_text_limit}

module _ {F : Type 0} (py : Python F) where
  cut-le : (limit : ℕ) (s : String) → count (strip_right is_space (take_chars limit s)) ≤ limit
  cut-le limit s =
      omega (arith, count-strip_right is_space (take_chars limit s), count-take_chars limit s)

  truncate-cases :
      (limit : ℕ) (s : String)
      → (count (truncate py limit s) ≤ limit + 3) × (count s ≤ limit → truncate py limit s ≡ s)
  unfolding truncate
  truncate-cases limit s = elim (Bool-cases (ltb limit (count s))) [
    | inl long ↦ (
      rw long (
          omega (
            arith,
            cut-le limit s,
            length-append (strip_right is_space (take_chars limit s)) "...",
          )),
      λ short. absurd (ground arith),
    )
    | inr short ↦ (rw short (ground arith), λ fits. rw short refl)
  ]

  -- The redacted text has at most three characters more than the limit, the dots that mark a cut; a
  -- redacted text within the limit is whole.
  pub redact_text_limit-IsBounded :
      (limit : ℕ) (text : String)
      → (count (redact_text_limit py limit text) ≤ limit + 3)
        × (count (redact_all py text) ≤ limit
            → redact_text_limit py limit text ≡ redact_all py text)
  unfolding redact_text_limit
  redact_text_limit-IsBounded limit text = truncate-cases limit (redact_all py text)
