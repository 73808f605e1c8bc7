-- ===== src/Python.antt =====
-- Values of type `Any`, and what the program takes from Python and its standard library as it is:
-- floats, `str()`, `json.dumps`, the conversions of texts to numbers, `str.lower`, the regular
-- expression engine, SHA-256 and the reading of IP addresses. The coercions at the end are those of
-- intel/scoring.py.
use vexyl_guard.Prelude.{
  ℕ, String, Bool, true, false, not, Option, none, some, List, [], ◌∷◌, ◌==◌, ℤ, pos, ltb_ℤ, nat_eq,
  if◌then◌else◌, strip, collapse, strip_class, is_space, is_key_char, truthy_str, code,
}

-- `F` is the type of floats.
mutual
  pub data Json (F : Type 0) : Type 0 where
    null : Json F
    bool : Bool → Json F
    int : ℤ → Json F
    float : F → Json F
    str : String → Json F
    arr : Items F → Json F
    obj : Fields F → Json F

  pub data Items (F : Type 0) : Type 0 where
    nil : Items F
    cons : Json F → Items F → Items F

  -- A dictionary, in the order of its keys' insertion.
  pub data Fields (F : Type 0) : Type 0 where
    end : Fields F
    field : String → Json F → Fields F → Fields F

pub record Python (F : Type 0) : Type 0 where
  pub lower : String → String
  pub str_of : Json F → String
  pub dumps : Json F → String
  -- `int(text)` and `int(float)`; `none` stands for a `ValueError`
  pub int_of_str : String → Option ℤ
  pub int_of_float : F → Option ℤ
  -- `float(text)`; `none` stands for a `ValueError`
  pub float_of_str : String → Option F
  pub float_of_int : ℤ → F
  pub truthy_float : F → Bool
  pub add_float : F → F → F
  pub mul_float : F → F → F
  pub max_float : F → F → F
  pub leb_float : F → F → Bool
  pub ltb_float : F → F → Bool
  pub is_finite : F → Bool
  -- whether `float(n)` is not an `OverflowError`
  pub fits_float : ℤ → Bool
  -- whether the time that `datetime.fromisoformat` reads has a timezone; `none` is a `ValueError`
  pub iso_timezone : String → Option Bool
  -- `re.sub(pattern, replacement, text)`, with a function that replaces a match
  pub re_sub : String → (String → String) → String → String
  -- `re.sub(pattern, template, text)`, with a template that refers to groups
  pub re_sub_template : String → String → String → String
  -- whether `re.fullmatch(pattern, text)` is a match
  pub re_fullmatch : String → String → Bool
  -- the groups of `re.fullmatch(pattern, text)`
  pub re_groups : String → String → Option (List String)
  pub capitalize : String → String
  -- `str(UUID(text))`; `none` stands for a `ValueError`
  pub uuid : String → Option String
  pub is_ip_address : String → Bool
  pub sha256_hex : String → String
  -- the ISO 8601 text of a time in UTC, in seconds since the epoch
  pub iso_utc : ℕ → String

module _ {F : Type 0} where
  -- `data.get(key)`, which is `None` at a missing key
  unfoldable pub get : String → Fields F → Json F
  get key end = null
  get key (field k v fs) = if k == key then v else get key fs

  -- `key in data`
  unfoldable pub has_key : String → Fields F → Bool
  has_key key end = false
  has_key key (field k v fs) = if k == key then true else has_key key fs

  abbrev pub items : Items F → List (Json F)
  items nil = []
  items (cons v vs) = v ∷ items vs

  abbrev pub keys : Fields F → List String
  keys end = []
  keys (field k v fs) = k ∷ keys fs

  -- `value is True`
  unfoldable pub is_true : Json F → Bool
  is_true (bool b) = b
  is_true v = false

  -- `value if isinstance(value, dict) else {}`
  unfoldable pub as_dict : Json F → Fields F
  as_dict (obj fs) = fs
  as_dict v = end

  module _ (py : Python F) where
    -- `bool(value)`
    unfoldable pub truthy_json : Json F → Bool
    truthy_json null = false
    truthy_json (bool b) = b
    truthy_json (int n) = elim n [ pos k ↦ not (nat_eq k 0) | _ ↦ true ]
    truthy_json (float f) = py.truthy_float f
    truthy_json (str s) = truthy_str s
    truthy_json (arr vs) = elim vs [ nil ↦ false | _ ↦ true ]
    truthy_json (obj fs) = elim fs [ end ↦ false | _ ↦ true ]

    -- `str(value or "")`
    unfoldable pub str_or_empty : Json F → String
    str_or_empty v = if truthy_json v then py.str_of v else ""

    abbrev int_or_zero : Option ℤ → ℤ
    int_or_zero none = pos 0
    int_or_zero (some n) = n

    unfoldable pub safe_int : Json F → ℤ
    safe_int null = pos 0
    safe_int (bool b) = if b then pos 1 else pos 0
    safe_int (int n) = n
    safe_int (float f) = if py.truthy_float f then int_or_zero (py.int_of_float f) else pos 0
    safe_int (str s) = if truthy_str s then int_or_zero (py.int_of_str s) else pos 0
    safe_int (arr vs) = pos 0
    safe_int (obj fs) = pos 0

    abbrev float_or_zero : Option F → F
    float_or_zero none = py.float_of_int (pos 0)
    float_or_zero (some f) = f

    unfoldable pub safe_float : Json F → F
    safe_float null = py.float_of_int (pos 0)
    safe_float (bool b) = if b then py.float_of_int (pos 1) else py.float_of_int (pos 0)
    safe_float (int n) = py.float_of_int n
    safe_float (float f) = if py.truthy_float f then f else py.float_of_int (pos 0)
    safe_float (str s) =
        if truthy_str s then float_or_zero (py.float_of_str s) else py.float_of_int (pos 0)
    safe_float (arr vs) = py.float_of_int (pos 0)
    safe_float (obj fs) = py.float_of_int (pos 0)

    unfoldable pub positive_int : Json F → ℤ → ℤ
    positive_int value fallback =
        let parsed = safe_int value in if ltb_ℤ (pos 0) parsed then parsed else fallback

    unfoldable pub positive_float : Json F → F → F
    positive_float value fallback =
        let parsed = safe_float value in
        if py.ltb_float (py.float_of_int (pos 0)) parsed then parsed else fallback

    -- `[str(item) for item in value if item is not None]`
    unfoldable pub str_items : List (Json F) → List String
    str_items [] = []
    str_items (null ∷ vs) = str_items vs
    str_items (v ∷ vs) = py.str_of v ∷ str_items vs

    -- A set of texts is a list that is asked for its members only.
    unfoldable pub string_set : Json F → List String
    string_set null = []
    string_set (str s) = s ∷ []
    string_set (arr vs) = str_items (items vs)
    string_set v = py.str_of v ∷ []

    -- `[str(item) for item in value]`, as JSON values
    unfoldable pub str_values : Items F → Items F
    str_values nil = nil
    str_values (cons v vs) = cons (str (py.str_of v)) (str_values vs)

    unfoldable pub normalize_scope : Json F → Fields F
    normalize_scope (obj fs) = fs
    normalize_scope (arr vs) = field "allowed_actions" (arr (str_values vs)) end
    normalize_scope (str s) =
        if truthy_str (strip s) then field "allowed_actions" (arr (cons (str s) nil)) end else end
    normalize_scope v = end

    unfoldable pub normalize : String → String
    normalize value = strip (collapse is_space " " (py.lower value))

    unfoldable pub normalize_key : String → String
    normalize_key value =
        strip_class (λ c. nat_eq (code c) b'_')
          (collapse (λ c. not (is_key_char c)) "_" (py.lower value))
