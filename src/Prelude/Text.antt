-- ===== src/Prelude/Text.antt =====
-- Python's `str` as a native text: a list of code points. What the program uses of the methods of
-- `str`, and of `re.sub` for a run of characters of one class, is written out here.
use Prim.Native.Nat.{ℕ, zero, suc, ◌≤◌}
use Prim.Native.Char.{Char, code}
use Prim.Native.String
use Prim.Native.String.{String, [], ◌∷◌, count}
use mathlib.Core.Bool.{Bool, true, false, not, ◌&&◌, ◌||◌}
use mathlib.Core.Option.{Option, none, some}
use mathlib.Core.List.{List}
use native.Mathlib.Omega.{arith}
use text.Mathlib.Text.{◌==◌, find?}
use text.Mathlib.TextLemmas.{length-nil, length-cons}
use mathlib.Core.Logic.{inl, inr}
use vexyl_guard.Prelude.Tests.{leb, nat_eq, Bool-cases, if◌then◌else◌}
use vexyl_guard.Prelude.Lists.{any}

-- `str.isspace` of one character, which is also the class `\s`
unfoldable pub is_space : Char → Bool
is_space c =
    let n = code c in
    leb 9 n && leb n 13
    || leb 28 n && leb n 32
    || nat_eq n 0x85
    || nat_eq n 0xa0
    || nat_eq n 0x1680
    || leb 0x2000 n && leb n 0x200a
    || nat_eq n 0x2028
    || nat_eq n 0x2029
    || nat_eq n 0x202f
    || nat_eq n 0x205f
    || nat_eq n 0x3000

-- `[a-z0-9]`
unfoldable pub is_key_char : Char → Bool
is_key_char c = let n = code c in leb b'a' n && leb n b'z' || leb b'0' n && leb n b'9'

unfoldable pub strip_left : (Char → Bool) → String → String
strip_left p [] = []
strip_left p (c ∷ s) = let rest = strip_left p s in if p c then rest else c ∷ s

unfoldable pub strip_right : (Char → Bool) → String → String
strip_right p [] = []
strip_right p (c ∷ s) = let rest = strip_right p s in if p c && rest == "" then [] else c ∷ rest

-- `text.strip(…)`, with the characters to strip as a class
unfoldable pub strip_class : (Char → Bool) → String → String
strip_class p s = strip_right p (strip_left p s)

unfoldable pub strip : String → String
strip s = strip_class is_space s

-- `re.sub(r"[…]+", replacement, text)`: each longest run of the class becomes one character.
-- The flag says that the character before was in the class.
unfoldable pub collapse_from : (Char → Bool) → Char → Bool → String → String
collapse_from p r inside [] = []
collapse_from p r inside (c ∷ s) =
    let rest = collapse_from p r (p c) s in
    if p c then (if inside then rest else r ∷ rest) else c ∷ rest

unfoldable pub collapse : (Char → Bool) → Char → String → String
collapse p r s = collapse_from p r false s

-- `term in text`
unfoldable pub contains : String → String → Bool
contains text term = elim (find? text term) [ none ↦ false | some _ ↦ true ]

-- `any(term in text for term in terms)`
unfoldable pub contains_any : String → List String → Bool
contains_any text terms = any (contains text) terms

-- `item in items`, for a set, a tuple or a list of texts
unfoldable pub member : String → List String → Bool
member item List.[] = false
member item (List.◌∷◌ x xs) = x == item || member item xs

-- `sep.join(parts)`
unfoldable pub join : String → List String → String
join sep List.[] = []
join sep (List.◌∷◌ x List.[]) = x
join sep (List.◌∷◌ x (List.◌∷◌ y ys)) = String.◌++◌ x (String.◌++◌ sep (join sep (List.◌∷◌ y ys)))

-- `text[:n]`
unfoldable pub take_chars : ℕ → String → String
take_chars zero s = []
take_chars (suc n) [] = []
take_chars (suc n) (c ∷ s) = c ∷ take_chars n s

pub count-take_chars : (n : ℕ) (s : String) → count (take_chars n s) ≤ n
unfolding take_chars
count-take_chars zero s = omega (arith, length-nil)
count-take_chars (suc n) [] = omega (arith, length-nil)
count-take_chars (suc n) (c ∷ s) =
    omega (arith, length-cons c (take_chars n s), count-take_chars n s)

pub count-strip_right : (p : Char → Bool) (s : String) → count (strip_right p s) ≤ count s
unfolding strip_right
count-strip_right p [] = omega arith
count-strip_right p (c ∷ s) = elim (Bool-cases (p c && strip_right p s == "")) [
  | inl stop ↦ rw (stop, length-nil) (omega arith)
  | inr go ↦
      rw (go, length-cons c (strip_right p s))
        (omega (arith, count-strip_right p s, length-cons c s))
]

-- `bool(text)`
abbrev pub truthy_str : String → Bool
truthy_str s = not (s == "")

-- a field of type `str | None`
abbrev pub truthy : Option String → Bool
truthy none = false
truthy (some s) = truthy_str s

-- `value or ""`
abbrev pub or_empty : Option String → String
or_empty none = ""
or_empty (some s) = s
