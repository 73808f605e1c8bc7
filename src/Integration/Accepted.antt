-- ===== src/Integration/Accepted.antt =====
-- What an event that `validate_gateway_event` returns is, field by field.
use vexyl_guard.Prelude.{
  ℕ, ◌≤◌, String, Bool, true, false, none, List, [], ◌∷◌, pos, ◌≤ℤ◌, ◌≡◌, ◌⊎◌, refl, arith, All,
  length, member, is_empty, if◌then◌else◌,
}
use vexyl_guard.Python.{
  Python, Json, null, bool, int, float, str, arr, obj, Fields, get, has_key, items, truthy_json,
}
use vexyl_guard.Models.{RuntimeAiEvent}
use vexyl_guard.Models.Reading.{
  Fresh, text_or, or_else, as_text, texts, string_list_value, int_value,
}
use vexyl_guard.Integration.{
  boolean_context_fields, integer_context_fields, string_context_fields, allowed_context_fields,
  allowed_input_channels, allowed_data_origins, allowed_data_classifications,
}
use vexyl_guard.Integration.Validators.{is_opaque_hash, is_flag, unknown_keys}
use vexyl_guard.Integration.Bounds.{IsScope, IsAmountValue, IsTime, IsCost}
use vexyl_guard.Integration.Checks.{
  IsShort, IsOptional, IsTextValue, IsItem, IsListValue, IsCountValue,
}

abbrev pub IsShortList : ℕ → ℕ → List String → Type 0
IsShortList most maximum texts = (length texts ≤ most) × All (IsShort maximum) texts

module _ {F : Type 0} where
  -- A value of a flag of the context, where one is given, is a truth value.
  abbrev pub IsFlag : Fields F → String → Type 0
  IsFlag context key = (has_key key context ≡ false) ⊎ (is_flag (get key context) ≡ true)

module _ {F : Type 0} (py : Python F) where
  pub record IsContext (context : Fields F) : Type 0 where
    pub known : is_empty (unknown_keys allowed_context_fields context) ≡ true
    pub tools : IsListValue 64 256 (get "allowed_tools" context)
    pub user_scope : IsScope (get "user_scope" context)
    pub tool_policy : IsScope (get "tool_policy" context)
    pub budget : IsAmountValue py (get "runtime_cost_budget" context)
    pub flags : All (IsFlag context) boolean_context_fields
    pub counts : All (λ key. IsCountValue (pos 2000000000) (get key context)) integer_context_fields
    pub names : All (λ key. IsTextValue (IsShort 256) (get key context)) string_context_fields

  module _ (fresh : Fresh) where
    -- An event that scoring gets from the gateway.
    pub record IsAccepted (ev : RuntimeAiEvent F) : Type 0 where
      -- the identifier and the time are made up where none is given
      pub identified : (ev.event_id ≡ fresh.event_id) ⊎ IsShort 128 ev.event_id
      pub timed : (ev.timestamp_utc ≡ fresh.timestamp_utc) ⊎ IsTime py ev.timestamp_utc
      pub cost : IsCost py ev.cost_estimate
      pub tenant : IsOptional (λ s. is_opaque_hash s ≡ true) ev.tenant_id_hash
      pub user : IsOptional (IsShort 256) ev.user_id_hash
      pub session : IsOptional (IsShort 256) ev.session_id_hash
      pub provider : IsOptional (IsShort 128) ev.model_provider
      pub model : IsOptional (IsShort 128) ev.model_name
      pub channel : member ev.input_channel allowed_input_channels ≡ true
      pub origin : member ev.data_origin allowed_data_origins ≡ true
      pub excerpt : IsOptional (IsShort 2048) ev.text_excerpt_redacted
      pub no_raw_text : (ev.tenant_id ≡ none) × (ev.full_text_ref ≡ none)
      pub documents : IsShortList 64 256 ev.retrieved_doc_ids
      pub tool : IsOptional (IsShort 256) ev.tool_name
      pub action : IsOptional (IsShort 512) ev.tool_action
      pub permissions : IsShortList 32 128 ev.tool_permissions
      pub classification : member ev.data_classification allowed_data_classifications ≡ true
      pub planned : IsShortList 64 512 ev.planned_actions
      pub destination : IsOptional (IsShort 512) ev.network_destination
      pub tokens : (pos 0 ≤ℤ ev.token_count_estimate) × (ev.token_count_estimate ≤ℤ pos 2000000000)
      pub mitigations : IsShortList 32 128 ev.verified_mitigations
      pub in_context : IsContext ev.context

module _ {F : Type 0} (py : Python F) where
  texts-IsShortList :
      (maximum : ℕ) (vs : List (Json F))
      → All (IsItem maximum) vs
      → (length (texts py vs) ≡ length vs) × All (IsShort maximum) (texts py vs)
  unfolding texts as_text
  texts-IsShortList maximum [] h = (refl, tt)
  texts-IsShortList maximum (null ∷ vs) h = absurd h.0
  texts-IsShortList maximum (bool b ∷ vs) h = absurd h.0
  texts-IsShortList maximum (int n ∷ vs) h = absurd h.0
  texts-IsShortList maximum (float f ∷ vs) h = absurd h.0
  texts-IsShortList maximum (arr ws ∷ vs) h = absurd h.0
  texts-IsShortList maximum (obj fs ∷ vs) h = absurd h.0
  texts-IsShortList maximum (str s ∷ vs) h =
      let rest = texts-IsShortList maximum vs h.1 in (omega (arith, rest.0), (h.0, rest.1))

  pub string_list_value-IsShortList :
      (most maximum : ℕ) (v : Json F)
      → IsListValue most maximum v
      → IsShortList most maximum (string_list_value py v)
  unfolding string_list_value
  string_list_value-IsShortList most maximum null h = (omega arith, tt)
  string_list_value-IsShortList most maximum (bool b) h = absurd h
  string_list_value-IsShortList most maximum (int n) h = absurd h
  string_list_value-IsShortList most maximum (float f) h = absurd h
  string_list_value-IsShortList most maximum (str s) h = absurd h
  string_list_value-IsShortList most maximum (arr vs) h =
      let read = texts-IsShortList maximum (items vs) h.1 in (omega (arith, read.0, h.0), read.1)
  string_list_value-IsShortList most maximum (obj fs) h = absurd h

  pub int_value-IsCount :
      (maximum : ℕ) (v : Json F)
      → IsCountValue (pos maximum) v
      → (pos 0 ≤ℤ int_value py v) × (int_value py v ≤ℤ pos maximum)
  unfolding int_value
  int_value-IsCount maximum null h = (omega arith, omega arith)
  int_value-IsCount maximum (bool b) h = absurd h
  int_value-IsCount maximum (int n) h = h
  int_value-IsCount maximum (float f) h = absurd h
  int_value-IsCount maximum (str s) h = absurd h
  int_value-IsCount maximum (arr vs) h = absurd h
  int_value-IsCount maximum (obj fs) h = absurd h

  pub text_or-member :
      (allowed : List String) (fallback : String) (v : Json F)
      → member fallback allowed ≡ true
      → IsTextValue (λ s. member s allowed ≡ true) v
      → member (text_or py fallback v) allowed ≡ true
  unfolding text_or truthy_json as_text
  text_or-member allowed fallback null d h = d
  text_or-member allowed fallback (bool b) d h = absurd h
  text_or-member allowed fallback (int n) d h = absurd h
  text_or-member allowed fallback (float f) d h = absurd h
  text_or-member allowed fallback (str s) d h = ground (arith, d, h)
  text_or-member allowed fallback (arr vs) d h = absurd h
  text_or-member allowed fallback (obj fs) d h = absurd h

  -- `value or None`
  pub or_else-null : (P : Json F → Type 0) (v : Json F) → P null → P v → P (or_else py v null)
  unfolding or_else
  or_else-null P v d h = at (truthy_json py v)
    where
      at : (b : Bool) → P (if b then v else null)
      at true = h
      at false = d
