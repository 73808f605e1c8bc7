-- ===== src/Runtime/Facts.antt =====
-- How intel/database.py reduces the values of an event before it stores them. The event is a
-- `RuntimeAIEvent`, of whose `to_dict` the code reads the keys; `str` leaves its texts as they are.
use Prim.Native.String
use vexyl_guard.Prelude.{
  ℕ, min, max, String, Bool, ◌||◌, Option, none, some, List, [], ◌∷◌, ℤ, pos, pos_part, max_ℤ, code,
  Char, nat_eq, ◌==◌, if◌then◌else◌, is_space, strip, collapse, member, take_chars, truthy_str,
}
use vexyl_guard.Python.{Python}

-- `[\r\n\t]`
unfoldable pub is_break : Char → Bool
is_break c = let n = code c in nat_eq n 13 || nat_eq n 10 || nat_eq n 9

-- `text or None`
unfoldable pub some_text : String → Option String
some_text text = if text == "" then none else some text

module _ {F : Type 0} (py : Python F) where
  unfoldable pub privacy_fingerprint : String → String → String
  privacy_fingerprint namespace value = py.sha256_hex (
      String.◌++◌ "vexyl:"
        (String.◌++◌ namespace (String.◌++◌ ":" (collapse is_space " " (py.lower (strip value))))))

  -- `_privacy_fingerprint(value, namespace) if value else None`
  unfoldable pub optional_fingerprint : String → Option String → Option String
  optional_fingerprint namespace none = none
  optional_fingerprint namespace (some value) =
      if truthy_str value then some (privacy_fingerprint namespace value) else none

  unfoldable pub redact_fact_text : String → String
  redact_fact_text value = strip (
      collapse is_space " " (
        py.re_sub "(?i)\\b[A-Z0-9._%+-]+@[A-Z0-9.-]+\\.[A-Z]{2,}\\b" (λ found. "[redacted-email]")
          (py.re_sub_template
            "(?i)\\b(api[_-]?key|token|secret|password)\\s*[:=]\\s*['\\\"]?[^'\\\"\\s]+"
            "\\1=[redacted]" (collapse is_break " " value))))

  unfoldable pub redact_fact_label : Option String → Option String
  redact_fact_label none = none
  redact_fact_label (some value) = some_text (take_chars 160 (redact_fact_text value))

  unfoldable pub safe_timestamp : String → Option String
  safe_timestamp value =
      let text = strip value in
      if py.re_fullmatch
        "\\d{4}-\\d{2}-\\d{2}T\\d{2}:\\d{2}:\\d{2}(?:\\.\\d{1,6})?(?:Z|[+-]\\d{2}:\\d{2})" text
      then some text
      else none

  unfoldable pub safe_choice : List String → String → String → String
  safe_choice allowed fallback value =
      let candidate = py.lower (strip value) in
      if member candidate allowed then candidate else fallback

  -- `_safe_int` and `_safe_float`
  unfoldable pub stored_int : ℤ → ℤ
  stored_int value = max_ℤ (pos 0) value

  unfoldable pub stored_float : F → F
  stored_float value =
      py.max_float (py.float_of_int (pos 0))
        (if py.truthy_float value then value else py.float_of_int (pos 0))

  abbrev pub bounded_hours : Option ℤ → ℕ
  bounded_hours none = 24
  bounded_hours (some n) = max 1 (min 720 (pos_part n))

  abbrev pub default_hours : Option String → String
  default_hours none = "24"
  default_hours (some raw) = raw

  -- `raw` is the environment variable `VEXYL_AI_HISTORY_RETENTION_HOURS`.
  unfoldable pub runtime_history_retention_hours : Option String → ℕ
  runtime_history_retention_hours raw = bounded_hours (py.int_of_str (default_hours raw))

abbrev pub stored_channels : List String
stored_channels =
    "chat" ∷ "api" ∷ "rag" ∷ "memory" ∷ "tool" ∷ "agent_plan" ∷ "file" ∷ "web" ∷ "email" ∷ "other"
    ∷ []

abbrev pub stored_origins : List String
stored_origins =
    "user" ∷ "developer" ∷ "system" ∷ "retrieved_external" ∷ "internal_db" ∷ "tool_output"
    ∷ "memory" ∷ "unknown" ∷ []

abbrev pub stored_classes : List String
stored_classes = "public" ∷ "internal" ∷ "confidential" ∷ "secret" ∷ "regulated" ∷ "unknown" ∷ []
