-- ===== src/Scoring/Redaction.antt =====
-- `redact_text` and `redact_ip_literals` of intel/scoring.py.
use Prim.Native.String.{count}
use Prim.Native.String
use vexyl_guard.Prelude.{
  ◌==◌, ℕ, String, Bool, false, not, ◌&&◌, List, [], ◌∷◌, Char, ltb, nat_eq, code, if◌then◌else◌,
  contains, strip, strip_right, collapse, is_space, take_chars, ◌||◌,
}
use vexyl_guard.Python.{Python}
use vexyl_guard.Scoring.Terms.{secret_patterns}

-- `candidate[1:-1]` of a text that begins with "[" and ends with "]"
unfoldable pub drop_last : String → String
drop_last String.[] = ""
drop_last (String.◌∷◌ c s) = let rest = drop_last s in if s == "" then "" else String.◌∷◌ c rest

ends_in_bracket : String → Bool
ends_in_bracket String.[] = false
ends_in_bracket (String.◌∷◌ c s) =
    let rest = ends_in_bracket s in if s == "" then nat_eq (code c) b']' else rest

unfoldable pub unwrap : String → String
unfolding ends_in_bracket
unwrap String.[] = ""
unwrap (String.◌∷◌ c s) =
    if nat_eq (code c) b'[' && ends_in_bracket (String.◌∷◌ c s) then drop_last s else String.◌∷◌ c s

-- `[\r\n\t]`
unfoldable pub is_line_space : Char → Bool
is_line_space c = let n = code c in nat_eq n 13 || nat_eq n 10 || nat_eq n 9

module _ {F : Type 0} (py : Python F) where
  -- the inner function `replace`
  unfoldable pub replace_ip : String → String
  replace_ip candidate =
      let unwrapped = unwrap candidate in
      if not (contains unwrapped ".") && not (contains unwrapped ":")
      then candidate
      else if py.is_ip_address unwrapped
      then "[redacted]"
      else candidate

  unfoldable pub redact_ip_literals : String → String
  redact_ip_literals text =
      py.re_sub "(?<![A-Za-z0-9])\\[?[A-Fa-f0-9:.]{3,}\\]?(?![A-Za-z0-9])" replace_ip text

  unfoldable pub redact_secrets : List String → String → String
  redact_secrets [] redacted = redacted
  redact_secrets (pattern ∷ patterns) redacted =
      redact_secrets patterns (py.re_sub pattern (λ _. "[redacted]") redacted)

  -- the text before the limit is applied
  unfoldable pub redact_all : String → String
  redact_all text = strip (
      collapse is_space " "
        (collapse is_line_space " " (redact_ip_literals (redact_secrets secret_patterns text))))

  -- `redacted[:limit].rstrip()` and an ellipsis, if the text is longer than the limit
  unfoldable pub truncate : ℕ → String → String
  truncate limit redacted =
      if ltb limit (count redacted)
      then String.◌++◌ (strip_right is_space (take_chars limit redacted)) "..."
      else redacted

  unfoldable pub redact_text_limit : ℕ → String → String
  redact_text_limit limit text = truncate limit (redact_all text)

  unfoldable pub redact_text : String → String
  redact_text text = redact_text_limit 500 text
