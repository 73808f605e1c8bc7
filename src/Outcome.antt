-- ===== src/Outcome.antt =====
-- The outcome of a Python call: what it returns, or the message of the exception that it raises.
use vexyl_guard.Prelude.{String, Bool, true, false, ◌≡◌, refl, ap, arith}

pub data Outcome {ℓ} (A : Type ℓ) : Type ℓ where
  raised : String → Outcome A
  returned : A → Outcome A

infixl 5 ◌>>=◌ ◌>>◌
unfoldable pub ◌>>=◌ {ℓ κ} : {A : Type ℓ} {B : Type κ} → Outcome A → (A → Outcome B) → Outcome B
raised message >>= rest = raised message
returned a >>= rest = rest a

unfoldable pub ◌>>◌ {ℓ κ} : {A : Type ℓ} {B : Type κ} → Outcome A → Outcome B → Outcome B
first >> second = first >>= λ done. second

-- `if test: raise …(message)`
unfoldable pub raise_if : Bool → String → Outcome (Unit {0})
raise_if true message = raised message
raise_if false message = returned tt

-- the message of the `OverflowError` of `float(n)`, the one exception of another class that the
-- validation of an event raises
abbrev pub overflow_message : String
overflow_message = "int too large to convert to float"

abbrev value_or {ℓ} : {A : Type ℓ} → A → Outcome A → A
value_or d (raised message) = d
value_or d (returned a) = a

abbrev pub is_returned {ℓ} : {A : Type ℓ} → Outcome A → Bool
is_returned (raised message) = false
is_returned (returned a) = true

pub returned-inj {ℓ} : {A : Type ℓ} {a b : A} → returned a ≡ returned b → a ≡ b
returned-inj {A} {a} e = ap (value_or a) e

pub raised-returned {ℓ} : {A : Type ℓ} {m : String} {a : A} → raised m ≡ returned a → ⊥
raised-returned e = absurd (ground arith)

-- A chain returns only if its first step does.
pub bind-returned {ℓ κ} :
    {A : Type ℓ} {B : Type κ} (m : Outcome A) (rest : A → Outcome B) (b : B)
    → (m >>= rest) ≡ returned b
    → (a : A) × (m ≡ returned a) × (rest a ≡ returned b)
unfolding ◌>>=◌
bind-returned (raised message) rest b e = absurd (raised-returned e)
bind-returned (returned a) rest b e = (a, refl, e)

pub then-returned {ℓ κ} :
    {A : Type ℓ} {B : Type κ} (m : Outcome A) (rest : Outcome B) (b : B)
    → (m >> rest) ≡ returned b
    → (a : A) × (m ≡ returned a) × (rest ≡ returned b)
unfolding ◌>>◌ ◌>>=◌
then-returned (raised message) rest b e = absurd (raised-returned e)
then-returned (returned a) rest b e = (a, refl, e)

pub raise_if-returned :
    (test : Bool) (message : String) (u : Unit {0})
    → raise_if test message ≡ returned u
    → test ≡ false
unfolding raise_if
raise_if-returned true message u e = absurd (raised-returned e)
raise_if-returned false message u e = refl
