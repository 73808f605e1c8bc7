-- ===== src/Models/RoundTrip.antt =====
-- `to_dict` and then `from_dict` of intel/models.py, which is how an event reaches the functions
-- that take either a dictionary or an event.
use vexyl_guard.Prelude.{String, true, Option, none, some, List, [], ◌∷◌, ◌≡◌, refl, ap, truthy_str}
use vexyl_guard.Python.{Python, null, str, arr, get, items, as_dict, truthy_json}
use vexyl_guard.Models.{RuntimeAiEvent}
use vexyl_guard.Models.Reading.{
  Fresh, text_of, as_text, text_or, or_else, texts, string_list_value, float_value, int_value,
  from_dict, text_json, text_items, to_dict,
}

-- absent, or not the empty text
abbrev pub IsFilled : Option String → Type 0
IsFilled none = Unit
IsFilled (some s) = truthy_str s ≡ true

text_of-text_json : (F : Type 0) (o : Option String) → text_of {F = F} (text_json o) ≡ o
unfolding text_of text_json
text_of-text_json F none = refl
text_of-text_json F (some s) = refl

module _ {F : Type 0} (py : Python F) where
  texts-text_items : (xs : List String) → texts py (items (text_items xs)) ≡ xs
  unfolding texts text_items as_text
  texts-text_items [] = refl
  texts-text_items (x ∷ xs) = ap (λ rest. x ∷ rest) (texts-text_items xs)

  list-text_items : (xs : List String) → string_list_value py (arr (text_items xs)) ≡ xs
  unfolding string_list_value
  list-text_items xs = texts-text_items xs

  list_or_null :
      (xs : List String) → string_list_value py (or_else py (arr (text_items xs)) null) ≡ xs
  unfolding or_else truthy_json text_items string_list_value
  list_or_null [] = refl
  list_or_null (x ∷ xs) = list-text_items (x ∷ xs)

  text_or-str : (fallback s : String) → truthy_str s ≡ true → text_or py fallback (str s) ≡ s
  unfolding text_or truthy_json as_text
  text_or-str fallback s h = rw h refl

  str_or_null : (s : String) → truthy_str s ≡ true → or_else py (str s) null ≡ str s
  unfolding or_else truthy_json
  str_or_null s h = rw h refl

  excerpt_or_null :
      (o : Option String)
      → IsFilled o
      → text_of (or_else py (or_else py (text_json o) null) null) ≡ o
  unfolding text_json or_else truthy_json text_of
  excerpt_or_null none h = refl
  excerpt_or_null (some s) h = rw h (rw h refl)

  -- An event with a name, a time, a channel, an origin and a classification that are not empty
  -- texts, and whose excerpt, if there is one, is not empty: the dictionary that it is turned into
  -- is read as the same event, with nothing made up.
  pub from_dict-to_dict :
      (fresh : Fresh) (ev : RuntimeAiEvent F)
      → truthy_str ev.event_id ≡ true
      → truthy_str ev.timestamp_utc ≡ true
      → truthy_str ev.input_channel ≡ true
      → truthy_str ev.data_origin ≡ true
      → truthy_str ev.data_classification ≡ true
      → IsFilled ev.text_excerpt_redacted
      → from_dict py fresh (to_dict ev) ≡ ev
  unfolding from_dict to_dict get as_dict float_value int_value
  from_dict-to_dict fresh ev id time channel origin class excerpt =
      rw
        (
          text_or-str fresh.event_id ev.event_id id,
          str_or_null ev.timestamp_utc time,
          text_or-str fresh.timestamp_utc ev.timestamp_utc time,
          text_or-str "other" ev.input_channel channel,
          text_or-str "unknown" ev.data_origin origin,
          text_or-str "unknown" ev.data_classification class,
          excerpt_or_null ev.text_excerpt_redacted excerpt,
          list-text_items ev.retrieved_doc_ids,
          list-text_items ev.tool_permissions,
          list-text_items ev.planned_actions,
          list_or_null ev.verified_mitigations,
          text_of-text_json F ev.tenant_id,
          text_of-text_json F ev.tenant_id_hash,
          text_of-text_json F ev.user_id_hash,
          text_of-text_json F ev.session_id_hash,
          text_of-text_json F ev.model_provider,
          text_of-text_json F ev.model_name,
          text_of-text_json F ev.full_text_ref,
          text_of-text_json F ev.tool_name,
          text_of-text_json F ev.tool_action,
          text_of-text_json F ev.network_destination,
        )
        refl
