-- ===== src/Updates/Values.antt =====
-- The values in a signed bundle, as intel/updates.py reads them. Base64, JSON, OpenSSL, the calendar
-- and the regular expressions are outside. Bytes are texts of code points up to 255, times are whole microseconds.
use Prim.Native.String
use vexyl_guard.Prelude.{
  ℕ, String, Bool, false, ◌&&◌, Option, none, some, List, ℤ, pos, leb, nat_eq, ◌==◌, if◌then◌else◌,
  member, all, length, truthy_str, count,
}
use vexyl_guard.Outcome.{Outcome, raised, returned}
use vexyl_guard.Python.{Json, int, str, arr, obj, Fields, items}

pub record Outside (F : Type 0) : Type 0 where
  pub fullmatch : String → String → Bool
  pub urlsafe_b64decode : String → Option String
  pub json_loads : String → Option (Json F)
  -- a text in the ISO format: whether it has a timezone, and its time
  pub fromisoformat : String → Option (Bool × ℤ)
  pub isoformat : ℤ → String
  -- the payload, its signature and the key's id, against the trusted keys
  pub openssl_verify : String → String → String → Bool
  -- the canonical JSON of the records
  pub canonical_records : List (Fields F) → String
  -- whether a pattern matches somewhere in a text, ignoring case
  pub search : String → String → Bool

abbrev pub invalid : String → String
invalid name = String.◌++◌ "intelligence bundle " (String.◌++◌ name " is invalid")

abbrev pub max_bundle_bytes : ℕ
max_bundle_bytes = 8388608

abbrev pub max_sequence : ℕ
max_sequence = 9223372036854775807

abbrev pub max_validity : ℤ
max_validity = pos 1209600000000

abbrev pub max_clock_skew : ℤ
max_clock_skew = pos 300000000

-- `set(data) == allowed`
unfoldable pub same_keys : List String → List String → Bool
same_keys found allowed =
    all (λ key. member key allowed) found && all (λ key. member key found) allowed

unfoldable pub or_raise {ℓ} : {A : Type ℓ} → String → Option A → Outcome A
or_raise message none = raised message
or_raise message (some a) = returned a

module _ {F : Type 0} where
  -- `_required_string`
  unfoldable pub bundle_string : Json F → String → ℕ → Outcome String
  bundle_string (str s) name maximum =
      if truthy_str s && leb (count s) maximum then returned s else raised (invalid name)
  bundle_string v name maximum = raised (invalid name)

  unfoldable pub payload_object : Json F → Outcome (Fields F)
  payload_object (obj fields) = returned fields
  payload_object v = raised "intelligence bundle payload must be an object"

  unfoldable pub is_string : String → Json F → Bool
  is_string s (str t) = t == s
  is_string s v = false

  unfoldable pub is_number : ℕ → Json F → Bool
  is_number n (int (pos k)) = nat_eq k n
  is_number n v = false

  unfoldable pub bundle_sequence : Json F → Outcome ℕ
  bundle_sequence (int (pos n)) =
      if leb 1 n && leb n max_sequence
      then returned n
      else raised "intelligence bundle sequence is invalid"
  bundle_sequence v = raised "intelligence bundle sequence is invalid"

  unfoldable pub record_list : Json F → Outcome (List (Json F))
  record_list (arr vs) =
      if leb 1 (length (items vs)) && leb (length (items vs)) 5000
      then returned (items vs)
      else raised "intelligence bundle record count is invalid"
  record_list v = raised "intelligence bundle record count is invalid"

  unfoldable pub attack_id_of : String → Json F → Outcome String
  attack_id_of index (str s) =
      if truthy_str s
      then returned s
      else raised (String.◌++◌ "intelligence record " (String.◌++◌ index " has an invalid id"))
  attack_id_of index v =
      raised (String.◌++◌ "intelligence record " (String.◌++◌ index " has an invalid id"))
