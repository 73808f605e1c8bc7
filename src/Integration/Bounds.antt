-- ===== src/Integration/Bounds.antt =====
-- What a number, a time and a scope that pass the checks of intel/integration.py are.
use vexyl_guard.Prelude.{
  ◌≤◌, String, Bool, true, false, not, Option, none, some, pos, ◌∷◌, [], ◌≡◌, ◌⊎◌, inl, inr, refl,
  arith, count, is_empty, truthy_str, Bool-cases, ℤ, subst, sym,
}
use vexyl_guard.Outcome.{returned, then-returned, raise_if-returned, raised-returned, raise_if}
use vexyl_guard.Python.{Python, Json, null, bool, int, float, str, arr, obj, get, truthy_json}
use vexyl_guard.Models.Reading.{text_or, or_else, float_value, as_text}
use vexyl_guard.Integration.Validators.{
  within, utc_offset, unknown_keys, scope_value, number_value, check_timezone, validate_timestamp,
}
use vexyl_guard.Integration.Checks.{IsTextValue, IsListValue, string_list-IsListValue}

passed : {b : Bool} → not b ≡ false → b ≡ true
passed h = ground arith

module _ {F : Type 0} where
  -- A scope lists actions, and nothing else.
  abbrev pub IsScope : Json F → Type 0
  IsScope null = Unit
  IsScope (obj scope) =
      (is_empty (unknown_keys ("allowed_actions" ∷ []) scope) ≡ true)
      × IsListValue 64 512 (get "allowed_actions" scope)
  IsScope v = ⊥

  pub scope_value-IsScope :
      (key : String) (v : Json F) (u : Unit {0}) → scope_value key v ≡ returned u → IsScope v
  unfolding scope_value
  scope_value-IsScope key null u e = tt
  scope_value-IsScope key (bool b) u e = raised-returned e
  scope_value-IsScope key (int n) u e = raised-returned e
  scope_value-IsScope key (float f) u e = raised-returned e
  scope_value-IsScope key (str s) u e = raised-returned e
  scope_value-IsScope key (arr vs) u e = raised-returned e
  scope_value-IsScope key (obj scope) u e =
      let (v, known, actions) = then-returned _ _ _ e in
      (passed (raise_if-returned _ _ _ known), string_list-IsListValue _ 64 512 _ u actions)

module _ {F : Type 0} (py : Python F) where
  -- A float from 0 to 1,000,000 that is finite.
  abbrev pub IsAmount : F → Type 0
  IsAmount f =
      (py.is_finite f ≡ true)
      × (py.leb_float (py.float_of_int (pos 0)) f ≡ true)
      × (py.leb_float f (py.float_of_int (pos 1000000)) ≡ true)

  -- A number that is given is in range; an integer can be made a float as well.
  abbrev pub IsAmountValue : Json F → Type 0
  IsAmountValue null = Unit
  IsAmountValue (int n) =
      (py.fits_float n ≡ true)
      × (py.is_finite (py.float_of_int n) ≡ true)
      × (within (pos 1000000) n ≡ true)
  IsAmountValue (float f) = IsAmount f
  IsAmountValue v = ⊥

  pub number_value-IsAmountValue :
      (key : String) (v : Json F) (u : Unit {0})
      → number_value py key v ≡ returned u
      → IsAmountValue v
  unfolding number_value
  number_value-IsAmountValue key null u e = tt
  number_value-IsAmountValue key (bool b) u e = raised-returned e
  number_value-IsAmountValue key (str s) u e = raised-returned e
  number_value-IsAmountValue key (arr vs) u e = raised-returned e
  number_value-IsAmountValue key (obj fs) u e = raised-returned e
  number_value-IsAmountValue key (int n) u e =
      let (v, fits, ranged) = then-returned _ _ _ e in
      let h = passed (raise_if-returned _ _ _ ranged) in
      (passed (raise_if-returned _ _ _ fits), ground arith, ground arith)
  number_value-IsAmountValue key (float f) u e =
      let h = passed (raise_if-returned _ _ _ e) in (ground arith, ground arith, ground arith)

  -- A time that is given is short, and has a timezone.
  abbrev pub IsTime : String → Type 0
  IsTime s = (count s ≤ 40) × (py.iso_timezone (utc_offset s) ≡ some true)

  zone-read :
      (zone : Option Bool) (u : Unit {0}) → check_timezone py zone ≡ returned u → zone ≡ some true
  unfolding raise_if
  zone-read none u e = absurd (raised-returned e)
  zone-read (some true) u e = refl
  zone-read (some false) u e = absurd (raised-returned e)

  pub validate_timestamp-IsTime :
      (v : Json F) (u : Unit {0}) → validate_timestamp py v ≡ returned u → IsTextValue IsTime v
  unfolding validate_timestamp
  validate_timestamp-IsTime null u e = tt
  validate_timestamp-IsTime (bool b) u e = raised-returned e
  validate_timestamp-IsTime (int n) u e = raised-returned e
  validate_timestamp-IsTime (float f) u e = raised-returned e
  validate_timestamp-IsTime (arr vs) u e = raised-returned e
  validate_timestamp-IsTime (obj fs) u e = raised-returned e
  validate_timestamp-IsTime (str s) u e =
      let (v, short, zoned) = then-returned _ _ _ e in
      let few = raise_if-returned _ _ _ short in
      (ground arith, zone-read (py.iso_timezone (utc_offset s)) u zoned)

  -- A text that is read with a fallback is the fallback, or what was checked.
  pub text_or-checked :
      (P : String → Type 0) (fallback : String) (v : Json F)
      → IsTextValue P v
      → (text_or py fallback v ≡ fallback) ⊎ P (text_or py fallback v)
  unfolding text_or as_text truthy_json
  text_or-checked P fallback null h = inl refl
  text_or-checked P fallback (bool b) h = absurd h
  text_or-checked P fallback (int n) h = absurd h
  text_or-checked P fallback (float f) h = absurd h
  text_or-checked P fallback (arr vs) h = absurd h
  text_or-checked P fallback (obj fs) h = absurd h
  text_or-checked P fallback (str s) h = elim (Bool-cases (truthy_str s)) [
    | inl filled ↦ rw filled (inr h)
    | inr empty ↦ rw empty (inl refl)
  ]

  or_null : (P : String → Type 0) (v : Json F) → IsTextValue P v → IsTextValue P (or_else py v null)
  unfolding or_else
  or_null P v h = elim (Bool-cases (truthy_json py v)) [
    | inl filled ↦ rw filled h
    | inr empty ↦ rw empty tt
  ]

  pub or_else-checked :
      (P : String → Type 0) (fallback : String) (v w : Json F)
      → w ≡ null
      → IsTextValue P v
      → (text_or py fallback (or_else py v w) ≡ fallback) ⊎ P (text_or py fallback (or_else py v w))
  or_else-checked P fallback v w absent h =
      subst
        (λ x.
          (text_or py fallback (or_else py v x) ≡ fallback)
          ⊎ P (text_or py fallback (or_else py v x)))
        (sym absent) (text_or-checked P fallback (or_else py v null) (or_null P v h))

  -- An amount of an event: none given, the float of an integer in range, or a float in range.
  abbrev pub IsCost : F → Type 0
  IsCost f =
      (f ≡ py.float_of_int (pos 0))
      ⊎ (((n : ℤ) × (f ≡ py.float_of_int n) × IsAmountValue (int n)) ⊎ IsAmount f)

  pub float_value-IsCost : (v : Json F) → IsAmountValue v → IsCost (float_value py v)
  unfolding float_value
  float_value-IsCost null h = inl refl
  float_value-IsCost (bool b) h = absurd h
  float_value-IsCost (int n) h = inr (inl (n, refl, h))
  float_value-IsCost (float f) h = inr (inr h)
  float_value-IsCost (str s) h = absurd h
  float_value-IsCost (arr vs) h = absurd h
  float_value-IsCost (obj fs) h = absurd h
