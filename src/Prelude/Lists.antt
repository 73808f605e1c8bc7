-- ===== src/Prelude/Lists.antt =====
-- Lists measured by native numbers, Boolean searches and a predicate on all items.
use Prim.Native.Nat.{ℕ, suc, ◌+◌}
use mathlib.Core.Path.{◌≡◌, refl, sym, ◌∙◌, ap, subst}
use mathlib.Core.Bool.{Bool, true, false, ◌&&◌, ◌||◌}
use mathlib.Core.List.{List, [], ◌∷◌, ◌++◌, map, Memᴰ}
use mathlib.Core.List.Memᴰ
use mathlib.Core.Logic.{inl, inr}
use native.Mathlib.Omega.{arith}
use vexyl_guard.Prelude.Tests.{if◌then◌else◌, Bool-cases}

module _ {ℓ} {A : Type ℓ} where
  abbrev pub length : List A → ℕ
  length [] = 0
  length (x ∷ xs) = suc (length xs)

  pub length-append : (xs ys : List A) → length (xs ++ ys) ≡ length xs + length ys
  length-append [] ys = omega arith
  length-append (x ∷ xs) ys = omega (arith, length-append xs ys)

  -- `any(p(x) for x in xs)` and `all(p(x) for x in xs)`
  unfoldable pub any : (A → Bool) → List A → Bool
  any p [] = false
  any p (x ∷ xs) = p x || any p xs

  unfoldable pub all : (A → Bool) → List A → Bool
  all p [] = true
  all p (x ∷ xs) = p x && all p xs

  -- `[x for x in xs if p(x)]`
  unfoldable pub keep : (A → Bool) → List A → List A
  keep p [] = []
  keep p (x ∷ xs) = let rest = keep p xs in if p x then x ∷ rest else rest

  unfoldable pub is_empty : List A → Bool
  is_empty [] = true
  is_empty (x ∷ xs) = false

abbrev pub All {ℓ κ} : {A : Type ℓ} → (A → Type κ) → List A → Type κ
All P [] = Unit
All P (x ∷ xs) = P x × All P xs

pub All-append {ℓ κ} :
    {A : Type ℓ} (P : A → Type κ) (xs ys : List A) → All P xs → All P ys → All P (xs ++ ys)
All-append P [] ys h k = k
All-append P (x ∷ xs) ys h k = (h.0, All-append P xs ys h.1 k)

pub All-map {ℓ κ} :
    {A : Type ℓ} (P Q : A → Type κ) (xs : List A) → ((x : A) → P x → Q x) → All P xs → All Q xs
All-map P Q [] f h = tt
All-map P Q (x ∷ xs) f h = (f x h.0, All-map P Q xs f h.1)

-- what holds of all results of a function
pub All-image {ℓ ν κ} :
    {A : Type ℓ} {B : Type ν} (P : B → Type κ) (f : A → B) (xs : List A)
    → All (λ x. P (f x)) xs
    → All P (map f xs)
All-image P f [] h = tt
All-image P f (x ∷ xs) h = (h.0, All-image P f xs h.1)

pub All-keep {ℓ} : {A : Type ℓ} (p : A → Bool) (xs : List A) → All (λ x. p x ≡ true) (keep p xs)
unfolding keep
All-keep p [] = tt
All-keep p (x ∷ xs) = ground (arith, All-keep p xs)

pub All-keep_of {ℓ κ} :
    {A : Type ℓ} (P : A → Type κ) (p : A → Bool) (xs : List A) → All P xs → All P (keep p xs)
unfolding keep
All-keep_of P p [] h = tt
All-keep_of P p (x ∷ xs) h = elim (Bool-cases (p x)) [
  | inl kept ↦ rw kept (h.0, All-keep_of P p xs h.1)
  | inr dropped ↦ rw dropped (All-keep_of P p xs h.1)
]

pub All-Memᴰ {ℓ κ} :
    {A : Type ℓ} (P : A → Type κ) {a : A} {xs : List A} → Memᴰ a xs → All P xs → P a
All-Memᴰ P (Memᴰ.head e) h = subst P (sym e) h.0
All-Memᴰ P (Memᴰ.tail m) h = All-Memᴰ P m h.1

pub Memᴰ-keep {ℓ} :
    {A : Type ℓ} (p : A → Bool) {a : A} (xs : List A) → Memᴰ a xs → p a ≡ true → Memᴰ a (keep p xs)
unfolding keep
Memᴰ-keep p [] m h = absurd (Memᴰ.not-nil m)
Memᴰ-keep p (x ∷ xs) (Memᴰ.head e) h = rw (sym (ap p e) ∙ h) (Memᴰ.head e)
Memᴰ-keep p (x ∷ xs) (Memᴰ.tail m) h = elim (Bool-cases (p x)) [
  | inl kept ↦ rw kept (Memᴰ.tail (Memᴰ-keep p xs m h))
  | inr dropped ↦ rw dropped (Memᴰ-keep p xs m h)
]

pub Memᴰ-of_keep {ℓ} :
    {A : Type ℓ} (p : A → Bool) {a : A} (xs : List A) → Memᴰ a (keep p xs) → Memᴰ a xs
unfolding keep
Memᴰ-of_keep p [] m = absurd (Memᴰ.not-nil m)
Memᴰ-of_keep p {a} (x ∷ xs) m = of_cons (Memᴰ-of_keep p xs) (p x) m
  where
    of_cons :
        (Memᴰ a (keep p xs) → Memᴰ a xs)
        → (b : Bool) → Memᴰ a (if b then x ∷ keep p xs else keep p xs)
        → Memᴰ a (x ∷ xs)
    of_cons below true n = elim (Memᴰ.cases_cons n) [
      | inl e ↦ Memᴰ.head e
      | inr later ↦ Memᴰ.tail (below later)
    ]
    of_cons below false n = Memᴰ.tail (below n)

pub is_empty-Memᴰ {ℓ} : {A : Type ℓ} {a : A} {xs : List A} → Memᴰ a xs → is_empty xs ≡ false
unfolding is_empty
is_empty-Memᴰ (Memᴰ.head e) = refl
is_empty-Memᴰ (Memᴰ.tail m) = refl

-- what holds of everything
pub All_always {ℓ κ} : {A : Type ℓ} (P : A → Type κ) (xs : List A) → ((x : A) → P x) → All P xs
All_always P [] f = tt
All_always P (x ∷ xs) f = (f x, All_always P xs f)
