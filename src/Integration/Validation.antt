-- ===== src/Integration/Validation.antt =====
-- The event that `validate_gateway_event` of intel/integration.py returns.
use vexyl_guard.Prelude.{
  String, true, false, none, List, ◌≡◌, refl, sym, subst, member, is_empty, ◌⊎◌,
}
use vexyl_guard.Outcome.{returned, then-returned, returned-inj}
use vexyl_guard.Python.{Python, null, Fields, get}
use vexyl_guard.Models.{RuntimeAiEvent}
use vexyl_guard.Models.Reading.{Fresh, from_dict, text_of}
use vexyl_guard.Integration.{
  allowed_event_fields, allowed_input_channels, allowed_data_origins, allowed_data_classifications,
}
use vexyl_guard.Integration.Validators.{
  unknown_keys, validate_identity, validate_content, validate_surface, validate_gateway_event,
}
use vexyl_guard.Integration.Checks.{
  IsShort, IsOptional, IsTextValue, text_of-IsOptional, IsListValue, get-unknown,
}
use vexyl_guard.Integration.Bounds.{IsTime, text_or-checked, or_else-checked, float_value-IsCost}
use vexyl_guard.Integration.Values.{identity-IsTextValue, content-IsTextValue, surface-IsTextValue}
use vexyl_guard.Integration.Accepted.{
  IsShortList, IsAccepted, string_list_value-IsShortList, int_value-IsCount, text_or-member,
  or_else-null,
}

-- The names of older versions of some fields, which no event may have.
old_names :
    (member "text" allowed_event_fields ≡ false)
    × (member "prompt" allowed_event_fields ≡ false)
    × (member "mitigations" allowed_event_fields ≡ false)
    × (member "tenant_id" allowed_event_fields ≡ false)
    × (member "full_text_ref" allowed_event_fields ≡ false)
    × (member "event_time_utc" allowed_event_fields ≡ false)
unfolding member
old_names = (refl, refl, refl, refl, refl, refl)

channel_fallback : member "other" allowed_input_channels ≡ true
unfolding member
channel_fallback = refl

origin_fallback : member "unknown" allowed_data_origins ≡ true
unfolding member
origin_fallback = refl

class_fallback : member "unknown" allowed_data_classifications ≡ true
unfolding member
class_fallback = refl

module _ {F : Type 0} (py : Python F) (first_sorted : List String → String) where
  module _ (fresh : Fresh) (fields : Fields F) where
    -- A key that no event may have has no value in an event.
    not_given :
        (key : String)
        → is_empty (unknown_keys allowed_event_fields fields) ≡ true
        → member key allowed_event_fields ≡ false
        → get key fields ≡ null
    not_given key known other = get-unknown allowed_event_fields key fields known other

    from_dict-excerpt :
        is_empty (unknown_keys allowed_event_fields fields) ≡ true
        → IsTextValue (IsShort 2048) (get "text_excerpt_redacted" fields)
        → IsOptional (IsShort 2048) (from_dict py fresh fields).text_excerpt_redacted
    unfolding from_dict
    from_dict-excerpt known h =
        rw (not_given "text" known old_names.0, not_given "prompt" known old_names.1)
          (text_of-IsOptional (IsShort 2048) _ (
            or_else-null py (IsTextValue (IsShort 2048)) _ tt
              (or_else-null py (IsTextValue (IsShort 2048)) _ tt h)))

    from_dict-mitigations :
        is_empty (unknown_keys allowed_event_fields fields) ≡ true
        → IsListValue 32 128 (get "verified_mitigations" fields)
        → IsShortList 32 128 (from_dict py fresh fields).verified_mitigations
    unfolding from_dict
    from_dict-mitigations known h =
        rw (not_given "mitigations" known old_names.2)
          (string_list_value-IsShortList py 32 128 _ (or_else-null py (IsListValue 32 128) _ tt h))

    from_dict-timed :
        is_empty (unknown_keys allowed_event_fields fields) ≡ true
        → IsTextValue (IsTime py) (get "timestamp_utc" fields)
        → ((from_dict py fresh fields).timestamp_utc ≡ fresh.timestamp_utc)
          ⊎ IsTime py (from_dict py fresh fields).timestamp_utc
    unfolding from_dict
    from_dict-timed known h =
        or_else-checked py (IsTime py) fresh.timestamp_utc _ _
          (not_given "event_time_utc" known old_names.5) h

    from_dict-no_raw_text :
        is_empty (unknown_keys allowed_event_fields fields) ≡ true
        → ((from_dict py fresh fields).tenant_id ≡ none)
          × ((from_dict py fresh fields).full_text_ref ≡ none)
    unfolding from_dict text_of
    from_dict-no_raw_text known =
        rw (not_given "tenant_id" known old_names.3, not_given "full_text_ref" known old_names.4)
          (refl, refl)

  from_dict-IsAccepted :
      (fresh : Fresh) (fields : Fields F) (u v w : Unit {0})
      → validate_identity py first_sorted fields ≡ returned u
      → validate_content py first_sorted fields ≡ returned v
      → validate_surface py first_sorted fields ≡ returned w
      → IsAccepted py fresh (from_dict py fresh fields)
  unfolding from_dict
  from_dict-IsAccepted fresh fields u v w e₁ e₂ e₃ =
      let (known, id, time, tenant, user, session, provider, model) =
        identity-IsTextValue py first_sorted fields u e₁ in
      let (channel, origin, excerpt, documents, tool, action, permissions, classes) =
        content-IsTextValue py first_sorted fields v e₂ in
      let (planned, destination, cost, tokens, mitigations, context) =
        surface-IsTextValue py first_sorted fields w e₃ in
      record {
        identified = text_or-checked py (IsShort 128) fresh.event_id _ id;
        timed = from_dict-timed fresh fields known time;
        cost = float_value-IsCost py _ cost;
        tenant = text_of-IsOptional _ _ tenant;
        user = text_of-IsOptional _ _ user;
        session = text_of-IsOptional _ _ session;
        provider = text_of-IsOptional _ _ provider;
        model = text_of-IsOptional _ _ model;
        channel = text_or-member py _ _ _ channel_fallback channel;
        origin = text_or-member py _ _ _ origin_fallback origin;
        excerpt = from_dict-excerpt fresh fields known excerpt;
        no_raw_text = from_dict-no_raw_text fresh fields known;
        documents = string_list_value-IsShortList py _ _ _ documents;
        tool = text_of-IsOptional _ _ tool;
        action = text_of-IsOptional _ _ action;
        permissions = string_list_value-IsShortList py _ _ _ permissions;
        classification = text_or-member py _ _ _ class_fallback classes;
        planned = string_list_value-IsShortList py _ _ _ planned;
        destination = text_of-IsOptional _ _ destination;
        tokens = int_value-IsCount py 2000000000 _ tokens;
        mitigations = from_dict-mitigations fresh fields known mitigations;
        in_context = context;
      }

  -- Whatever dictionary is validated: if an event is returned, then it is the one that the
  -- dictionary is read as. Its identifier and its time are made up, or the one is within its limit
  -- and the other has a timezone. Each of its other texts and lists is absent or within its limits
  -- and holds no blank text, its tenant is an opaque hash, its channel, origin and classification are
  -- among the allowed ones, its cost is finite and from 0 to 1,000,000, its count of tokens is from 0
  -- to 2,000,000,000, and nothing but a redacted excerpt of its text is there. Its context has known
  -- keys, scopes that list actions only, truth values as flags, bounded counts, a bounded budget and
  -- short names.
  pub validate_gateway_event-IsAccepted :
      (fresh : Fresh) (fields : Fields F) (ev : RuntimeAiEvent F)
      → validate_gateway_event py first_sorted fresh fields ≡ returned ev
      → (ev ≡ from_dict py fresh fields) × IsAccepted py fresh ev
  unfolding validate_gateway_event
  validate_gateway_event-IsAccepted fresh fields ev e =
      let (u, identity, e₁) = then-returned _ _ _ e in
      let (v, content, e₂) = then-returned _ _ _ e₁ in
      let (w, surface, e₃) = then-returned _ _ _ e₂ in
      let same = sym (returned-inj e₃) in
      (
        same,
        subst (IsAccepted py fresh) (sym same)
            (from_dict-IsAccepted fresh fields u v w identity content surface),
      )
