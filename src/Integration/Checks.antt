-- ===== src/Integration/Checks.antt =====
-- What a value that passes one of the checks of intel/integration.py is.
use vexyl_guard.Prelude.{
  ℕ, ◌≤◌, String, Bool, true, false, not, ◌&&◌, Option, none, some, List, [], ◌∷◌, ℤ, pos, ◌≤ℤ◌,
  ◌≡◌, ◌⊎◌, inl, inr, refl, subst, eq_iff, arith, All, length, count, keep, member, is_empty,
  Bool-cases, strip, truthy_str, ◌==◌,
}
use vexyl_guard.Outcome.{Outcome, returned, then-returned, raise_if-returned, raised-returned}
use vexyl_guard.Python.{
  Python, Json, null, bool, int, float, str, arr, obj, Fields, field, end, get, has_key, items,
}
use vexyl_guard.Models.Reading.{text_of}
use vexyl_guard.Integration.Validators.{
  is_opaque_hash, is_item, within, check_text, optional_string, opaque_hash, enum_value, list_item,
  string_list, bounded_integer, is_flag, boolean_value, unknown_keys, for_each,
}

-- A text that an event may hold: not blank, and within the limit.
abbrev pub IsShort : ℕ → String → Type 0
IsShort maximum s = (truthy_str (strip s) ≡ true) × (count s ≤ maximum)

abbrev pub IsOptional {κ} : {A : Type 0} → (A → Type κ) → Option A → Type κ
IsOptional P none = Unit
IsOptional P (some a) = P a

not-false : {b : Bool} → not b ≡ false → b ≡ true
not-false h = ground arith

pub for_each-All :
    {A : Type 0} (check : A → Outcome (Unit {0})) (P : A → Type 0) (xs : List A) (u : Unit {0})
    → ((x : A) (v : Unit {0}) → check x ≡ returned v → P x)
    → for_each check xs ≡ returned u
    → All P xs
unfolding for_each
for_each-All check P [] u f e = tt
for_each-All check P (x ∷ xs) u f e =
    let (v, first, rest) = then-returned _ _ _ e in (f x v first, for_each-All check P xs u f rest)

module _ {F : Type 0} where
  -- The value of a key, as `from_dict` reads it.
  abbrev pub IsTextValue : (String → Type 0) → Json F → Type 0
  IsTextValue P null = Unit
  IsTextValue P (str s) = P s
  IsTextValue P v = ⊥

  pub text_of-IsOptional :
      (P : String → Type 0) (v : Json F) → IsTextValue P v → IsOptional P (text_of v)
  unfolding text_of
  text_of-IsOptional P null h = tt
  text_of-IsOptional P (bool b) h = absurd h
  text_of-IsOptional P (int n) h = absurd h
  text_of-IsOptional P (float f) h = absurd h
  text_of-IsOptional P (str s) h = h
  text_of-IsOptional P (arr vs) h = absurd h
  text_of-IsOptional P (obj fs) h = absurd h

  pub opaque_hash-IsTextValue :
      (key : String) (v : Json F) (u : Unit {0})
      → opaque_hash key v ≡ returned u
      → IsTextValue (λ s. is_opaque_hash s ≡ true) v
  unfolding opaque_hash
  opaque_hash-IsTextValue key null u e = tt
  opaque_hash-IsTextValue key (bool b) u e = raised-returned e
  opaque_hash-IsTextValue key (int n) u e = raised-returned e
  opaque_hash-IsTextValue key (float f) u e = raised-returned e
  opaque_hash-IsTextValue key (str s) u e = not-false (raise_if-returned _ _ _ e)
  opaque_hash-IsTextValue key (arr vs) u e = raised-returned e
  opaque_hash-IsTextValue key (obj fs) u e = raised-returned e

  pub enum_value-IsTextValue :
      (key : String) (allowed : List String) (v : Json F) (u : Unit {0})
      → enum_value key allowed v ≡ returned u
      → IsTextValue (λ s. member s allowed ≡ true) v
  unfolding enum_value
  enum_value-IsTextValue key allowed null u e = tt
  enum_value-IsTextValue key allowed (bool b) u e = raised-returned e
  enum_value-IsTextValue key allowed (int n) u e = raised-returned e
  enum_value-IsTextValue key allowed (float f) u e = raised-returned e
  enum_value-IsTextValue key allowed (str s) u e = not-false (raise_if-returned _ _ _ e)
  enum_value-IsTextValue key allowed (arr vs) u e = raised-returned e
  enum_value-IsTextValue key allowed (obj fs) u e = raised-returned e

  abbrev pub IsItem : ℕ → Json F → Type 0
  IsItem maximum (str s) = IsShort maximum s
  IsItem maximum v = ⊥

  list_item-IsItem :
      (key : String) (maximum : ℕ) (v : Json F) (u : Unit {0})
      → list_item key maximum v ≡ returned u
      → IsItem maximum v
  unfolding list_item is_item
  list_item-IsItem key maximum null u e = raised-returned e
  list_item-IsItem key maximum (bool b) u e = raised-returned e
  list_item-IsItem key maximum (int n) u e = raised-returned e
  list_item-IsItem key maximum (float f) u e = raised-returned e
  list_item-IsItem key maximum (str s) u e =
      let h = not-false (raise_if-returned _ _ _ e) in (ground arith, ground arith)
  list_item-IsItem key maximum (arr vs) u e = raised-returned e
  list_item-IsItem key maximum (obj fs) u e = raised-returned e

  abbrev pub IsListValue : ℕ → ℕ → Json F → Type 0
  IsListValue most maximum null = Unit
  IsListValue most maximum (arr vs) = (length (items vs) ≤ most) × All (IsItem maximum) (items vs)
  IsListValue most maximum v = ⊥

  pub string_list-IsListValue :
      (key : String) (most maximum : ℕ) (v : Json F) (u : Unit {0})
      → string_list key most maximum v ≡ returned u
      → IsListValue most maximum v
  unfolding string_list
  string_list-IsListValue key most maximum null u e = tt
  string_list-IsListValue key most maximum (bool b) u e = raised-returned e
  string_list-IsListValue key most maximum (int n) u e = raised-returned e
  string_list-IsListValue key most maximum (float f) u e = raised-returned e
  string_list-IsListValue key most maximum (str s) u e = raised-returned e
  string_list-IsListValue key most maximum (arr vs) u e =
      let (v, bounded, each) = then-returned _ _ _ e in
      let few = raise_if-returned _ _ _ bounded in
      (ground arith, for_each-All _ (IsItem maximum) _ u (list_item-IsItem key maximum) each)
  string_list-IsListValue key most maximum (obj fs) u e = raised-returned e

  abbrev pub IsCountValue : ℤ → Json F → Type 0
  IsCountValue maximum null = Unit
  IsCountValue maximum (int n) = (pos 0 ≤ℤ n) × (n ≤ℤ maximum)
  IsCountValue maximum v = ⊥

  pub bounded_integer-IsCountValue :
      (key : String) (maximum : ℤ) (v : Json F) (u : Unit {0})
      → bounded_integer key maximum v ≡ returned u
      → IsCountValue maximum v
  unfolding bounded_integer within
  bounded_integer-IsCountValue key maximum null u e = tt
  bounded_integer-IsCountValue key maximum (bool b) u e = raised-returned e
  bounded_integer-IsCountValue key maximum (int n) u e =
      let h = not-false (raise_if-returned _ _ _ e) in (ground arith, ground arith)
  bounded_integer-IsCountValue key maximum (float f) u e = raised-returned e
  bounded_integer-IsCountValue key maximum (str s) u e = raised-returned e
  bounded_integer-IsCountValue key maximum (arr vs) u e = raised-returned e
  bounded_integer-IsCountValue key maximum (obj fs) u e = raised-returned e

  -- The value of a flag is a truth value wherever the flag is given.
  pub boolean_value-flag :
      (fields : Fields F) (key : String) (u : Unit {0})
      → boolean_value fields key ≡ returned u
      → (has_key key fields ≡ false) ⊎ (is_flag (get key fields) ≡ true)
  unfolding boolean_value
  boolean_value-flag fields key u e = elim (Bool-cases (has_key key fields)) [
    | inr missing ↦ inl missing
    | inl given ↦
        let h = raise_if-returned (has_key key fields && not (is_flag (get key fields))) _ _ e in
        inr (ground arith)
  ]

  -- A key that is not allowed has no value, if no key is unknown.
  pub get-unknown :
      (allowed : List String) (key : String) (fields : Fields F)
      → is_empty (unknown_keys allowed fields) ≡ true
      → member key allowed ≡ false
      → get key fields ≡ null
  unfolding unknown_keys get keep is_empty
  get-unknown allowed key end h other = refl
  get-unknown allowed key (field k v fs) h other = elim (Bool-cases (member k allowed)) [
    | inr unknown ↦ absurd (ground (arith, rw unknown at h))
    | inl known ↦
        let below = get-unknown allowed key fs (rw known at h) other in
        elim (Bool-cases (k == key)) [
          | inl same ↦
              let clash : member key allowed ≡ true =
                subst (λ name. member name allowed ≡ true) ((eq_iff k key).0 same) known in
              absurd (ground arith)
          | inr differs ↦ rw differs below
        ]
  ]

module _ {F : Type 0} (py : Python F) where
  pub optional_string-IsTextValue :
      (key : String) (maximum : ℕ) (v : Json F) (u : Unit {0})
      → optional_string py key maximum v ≡ returned u
      → IsTextValue (IsShort maximum) v
  unfolding optional_string check_text
  optional_string-IsTextValue key maximum null u e = tt
  optional_string-IsTextValue key maximum (bool b) u e = raised-returned e
  optional_string-IsTextValue key maximum (int n) u e = raised-returned e
  optional_string-IsTextValue key maximum (float f) u e = raised-returned e
  optional_string-IsTextValue key maximum (str s) u e =
      let (v, filled, short) = then-returned _ _ _ e in
      let fits = raise_if-returned _ _ _ short in
      (not-false (raise_if-returned _ _ _ filled), ground arith)
  optional_string-IsTextValue key maximum (arr vs) u e = raised-returned e
  optional_string-IsTextValue key maximum (obj fs) u e = raised-returned e
