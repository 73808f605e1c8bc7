-- ===== src/Updates/Seeds.antt =====
-- `validate_seed_record` of intel/database.py: a record of intelligence has the required fields, and
-- no text in it, at whatever depth, matches a pattern of runnable content.
use vexyl_guard.Prelude.{
  String, Bool, true, false, not, ◌&&◌, List, [], ◌∷◌, ◌++◌, ◌≡◌, arith, all, any, All,
}
use vexyl_guard.Python.{
  Json, null, bool, int, float, str, arr, obj, Items, nil, cons, Fields, field, end, has_key,
}

abbrev pub required_seed_fields : List String
required_seed_fields =
    "attack_id" ∷ "name" ∷ "family" ∷ "summary" ∷ "severity" ∷ "likelihood" ∷ "confidence" ∷ []

-- the patterns, whose case is ignored
abbrev pub forbidden_seed_patterns : List String
forbidden_seed_patterns =
    "```" ∷ "#!\\s*/(?:usr/)?bin/(?:sh|bash|python|perl|ruby)"
    ∷ "\\b(?:curl|wget)\\s+\\S+\\s*\\|\\s*(?:sh|bash)"
    ∷ "\\bpowershell\\s+-(?:enc|encodedcommand|e)\\b" ∷ "\\brm\\s+-rf\\s+/" ∷ "<script\\b"
    ∷ "\\beval\\s*\\(" ∷ "\\bexec\\s*\\(" ∷ "\\bmsfvenom\\b" ∷ "\\bnc\\s+-e\\b" ∷ []

unfoldable pub is_allowed_text : (String → String → Bool) → String → Bool
is_allowed_text search value = not (any (λ pattern. search pattern value) forbidden_seed_patterns)

all-All :
    {P : String → Type 0} (p : String → Bool)
    → ((x : String) → p x ≡ true → P x)
    → (xs : List String) → all p xs ≡ true
    → All P xs
unfolding all
all-All p holds [] h = tt
all-All p holds (x ∷ xs) h = (holds x (ground arith), all-All p holds xs (ground arith))

none-All : (p : String → Bool) (xs : List String) → any p xs ≡ false → All (λ x. p x ≡ false) xs
unfolding any
none-All p [] h = tt
none-All p (x ∷ xs) h = (ground arith, none-All p xs (ground arith))

module _ {F : Type 0} where
  -- `_walk_text` of a value, of the items of a list, and of the values of a dictionary
  unfoldable mutual
    pub walk_text : Json F → List String
    walk_text null = []
    walk_text (bool b) = []
    walk_text (int n) = []
    walk_text (float f) = []
    walk_text (str s) = s ∷ []
    walk_text (arr vs) = walk_items vs
    walk_text (obj fs) = walk_fields fs

    pub walk_items : Items F → List String
    walk_items nil = []
    walk_items (cons v vs) = walk_text v ++ walk_items vs

    pub walk_fields : Fields F → List String
    walk_fields end = []
    walk_fields (field k v fs) = walk_text v ++ walk_fields fs

  module _ (search : String → String → Bool) where
    -- `validate_seed_record`: whether it does not raise
    unfoldable pub validate_seed_record : Fields F → Bool
    validate_seed_record fields =
        all (λ key. has_key key fields) required_seed_fields
        && all (is_allowed_text search) (walk_fields fields)

    -- A record within the defensive boundary.
    pub record IsDefensive (fields : Fields F) : Type 0 where
      pub complete : All (λ key. has_key key fields ≡ true) required_seed_fields
      pub harmless :
          All
            (λ value. All (λ pattern. search pattern value ≡ false) forbidden_seed_patterns)
            (walk_fields fields)

    pub validate_seed_record-IsDefensive :
        (fields : Fields F) → validate_seed_record fields ≡ true → IsDefensive fields
    unfolding validate_seed_record is_allowed_text
    validate_seed_record-IsDefensive fields h = record {
      complete =
          all-All (λ key. has_key key fields) (λ key present. present) required_seed_fields
            (ground arith);
      harmless =
          all-All (is_allowed_text search)
            (λ value allowed.
              none-All (λ pattern. search pattern value) forbidden_seed_patterns (ground arith))
            (walk_fields fields) (ground arith);
    }
