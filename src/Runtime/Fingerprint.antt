-- ===== src/Runtime/Fingerprint.antt =====
-- The two fingerprints of a content: the one that intel/database.py stores, and the one that
-- intel/scoring.py compares with the stored ones. The first strips a text before it collapses the
-- blanks, the second after.
use Prim.Native.String
use Prim.Native.String.{[], ◌∷◌, count}
use Prim.Native.Char.{Char}
use text.Mathlib.TextLemmas.{length-nil, length-cons, append_assoc}
use vexyl_guard.Prelude.{
  String, Bool, true, false, none, some, ◌≡◌, inl, inr, refl, sym, ap, ◌∙◌, arith, ◌==◌, eq_iff,
  Bool-cases, is_space, strip_left, strip_right, strip_class, strip, collapse_from, collapse,
  truthy_str, if◌then◌else◌, or_empty,
}
use vexyl_guard.Python.{Python, Fields, normalize}
use vexyl_guard.Models.{RuntimeAiEvent}
use vexyl_guard.Scoring.Redaction.{redact_text}
use vexyl_guard.Scoring.Predicates.{content_fingerprint_for_event}
use vexyl_guard.Scoring.Accumulator.{AttackIndex, History, decision}
use vexyl_guard.Scoring.Event.{score_ai_event}
use vexyl_guard.Runtime.Facts.{privacy_fingerprint, optional_fingerprint}
use vexyl_guard.Runtime.Store.{Instant, runtime_row}

module _ (p : Char → Bool) (r : Char) (h : p r ≡ true) where
  strip_left-collapse_from :
      (b b' : Bool) (s : String)
      → strip_left p (collapse_from p r b s) ≡ collapse_from p r b' (strip_left p s)
  unfolding strip_left collapse_from
  strip_left-collapse_from b b' [] = refl
  strip_left-collapse_from true b' (c ∷ s) = elim (Bool-cases (p c)) [
    | inl blank ↦ rw blank (strip_left-collapse_from true b' s)
    | inr kept ↦ rw (kept, kept) refl
  ]
  strip_left-collapse_from false b' (c ∷ s) = elim (Bool-cases (p c)) [
    | inl blank ↦ rw (blank, h) (strip_left-collapse_from true b' s)
    | inr kept ↦ rw (kept, kept) refl
  ]

  empty_text : (s : String) → (s == "") ≡ true → s ≡ ""
  empty_text s e = (eq_iff s "").0 e

  nonempty : (c : Char) (s : String) → (c ∷ s) ≡ "" → ⊥
  nonempty c s e = absurd (omega (arith, ap count e, length-cons c s, length-nil))

  -- What ends in no blank does not vanish.
  collapsed-empty :
      (s : String) → collapse_from p r true (strip_right p s) ≡ "" → (strip_right p s == "") ≡ true
  unfolding strip_right collapse_from
  collapsed-empty [] e = refl
  collapsed-empty (c ∷ s) e = elim (Bool-cases (p c)) [
    | inr kept ↦
        absurd (nonempty c (collapse_from p r false (strip_right p s)) (rw (kept, kept) at e))
    | inl blank ↦ elim (Bool-cases (strip_right p s == "")) [
      | inl gone ↦ rw (blank, gone) refl
      | inr stays ↦ absurd (ground (arith, collapsed-empty s (rw (blank, stays, blank) at e)))
    ]
  ]

  collapsed-stays :
      (s : String)
      → (strip_right p s == "") ≡ false
      → (collapse_from p r true (strip_right p s) == "") ≡ false
  collapsed-stays s stays = elim (Bool-cases (collapse_from p r true (strip_right p s) == "")) [
    | inl gone ↦ absurd (ground (arith, collapsed-empty s (empty_text _ gone)))
    | inr left ↦ left
  ]

  strip_right-collapse_from :
      (b : Bool) (s : String)
      → strip_right p (collapse_from p r b s) ≡ collapse_from p r b (strip_right p s)
  unfolding strip_right collapse_from
  strip_right-collapse_from b [] = refl
  strip_right-collapse_from true (c ∷ s) = elim (Bool-cases (p c)) [
    | inr kept ↦ rw (kept, kept) (ap (λ rest. c ∷ rest) (strip_right-collapse_from false s))
    | inl blank ↦ elim (Bool-cases (strip_right p s == "")) [
      | inl gone ↦
          rw (blank, gone)
            (strip_right-collapse_from true s
              ∙ ap (collapse_from p r true) (empty_text (strip_right p s) gone))
      | inr stays ↦ rw (blank, stays, blank) (strip_right-collapse_from true s)
    ]
  ]
  strip_right-collapse_from false (c ∷ s) = elim (Bool-cases (p c)) [
    | inr kept ↦ rw (kept, kept) (ap (λ rest. c ∷ rest) (strip_right-collapse_from false s))
    | inl blank ↦ elim (Bool-cases (strip_right p s == "")) [
      | inl gone ↦
          let vanished =
            strip_right-collapse_from true s
            ∙ ap (collapse_from p r true) (empty_text (strip_right p s) gone) in
          rw (blank, gone, h, vanished) refl
      | inr stays ↦
          rw (blank, stays, blank, h, strip_right-collapse_from true s, collapsed-stays s stays)
            refl
    ]
  ]

  pub strip-collapse :
      (s : String) → strip_class p (collapse p r s) ≡ collapse p r (strip_class p s)
  unfolding strip_class collapse
  strip-collapse s =
      ap (strip_right p) (strip_left-collapse_from false false s)
      ∙ strip_right-collapse_from false (strip_left p s)

space-is_space : is_space " " ≡ true
unfolding is_space
space-is_space = refl

module _ {F : Type 0} (py : Python F) where
  content-text :
      (text : String)
      → String.◌++◌ "vexyl:" (String.◌++◌ "content" (String.◌++◌ ":" text))
        ≡ String.◌++◌ "vexyl:content:" text
  content-text text =
      sym (append_assoc "vexyl:" "content" (String.◌++◌ ":" text))
      ∙ sym (append_assoc "vexyl:content" ":" text)

  module _ (lower-strip : (s : String) → py.lower (strip s) ≡ strip (py.lower s)) where
    fingerprint-≡ :
        (text : String)
        → privacy_fingerprint py "content" text
          ≡ py.sha256_hex (String.◌++◌ "vexyl:content:" (normalize py text))
    unfolding privacy_fingerprint normalize strip
    fingerprint-≡ text = ap py.sha256_hex (
        content-text _
        ∙ ap (String.◌++◌ "vexyl:content:") (
            ap (collapse is_space " ") (lower-strip text)
            ∙ sym (strip-collapse is_space " " space-is_space (py.lower text))))

    fingerprint-agrees :
        (text : String)
        → optional_fingerprint py "content" (some text) ≡ (
            if truthy_str text
            then some (py.sha256_hex (String.◌++◌ "vexyl:content:" (normalize py text)))
            else none)
    unfolding optional_fingerprint
    fingerprint-agrees text =
        ap (λ print. if truthy_str text then some print else none) (fingerprint-≡ text)

    -- Where changing the case commutes with stripping blanks: the content's fingerprint that is
    -- stored with the decision on an event, whatever the history was, is the one that the scoring
    -- computes for the event, which counts distinct contents by it; none is stored exactly where
    -- none is computed.
    pub stored_fingerprint-≡ :
        (index : AttackIndex) (ev : RuntimeAiEvent F) (history : History (Fields F))
        (instant : Instant)
        → (runtime_row py instant ev (score_ai_event py index ev history)).content_fingerprint
          ≡ content_fingerprint_for_event py ev
    unfolding runtime_row score_ai_event decision content_fingerprint_for_event
    stored_fingerprint-≡ index ev history instant =
        fingerprint-agrees (redact_text py (or_empty ev.text_excerpt_redacted))
