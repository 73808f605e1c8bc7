-- ===== src/Integration/Values.antt =====
-- What the dictionary of an event that passes the checks of intel/integration.py holds.
use vexyl_guard.Prelude.{
  String, Bool, true, false, List, pos, ◌≡◌, inl, refl, arith, All_always, member, is_empty, not,
  keep,
}
use vexyl_guard.Outcome.{returned, then-returned, raise_if-returned, raised-returned}
use vexyl_guard.Python.{
  Python, Json, null, bool, int, float, str, arr, obj, Fields, end, get, has_key, as_dict,
}
use vexyl_guard.Integration.{
  allowed_event_fields, boolean_context_fields, integer_context_fields, string_context_fields,
  allowed_input_channels, allowed_data_origins, allowed_data_classifications,
}
use vexyl_guard.Integration.Validators.{
  is_opaque_hash, unknown_keys, validate_context_fields, validate_context, validate_identity,
  validate_content, validate_surface,
}
use vexyl_guard.Integration.Checks.{
  IsShort, IsTextValue, opaque_hash-IsTextValue, enum_value-IsTextValue, IsListValue,
  string_list-IsListValue, IsCountValue, bounded_integer-IsCountValue, boolean_value-flag,
  optional_string-IsTextValue, for_each-All,
}
use vexyl_guard.Integration.Bounds.{
  IsAmountValue, IsTime, scope_value-IsScope, number_value-IsAmountValue, validate_timestamp-IsTime,
}
use vexyl_guard.Integration.Accepted.{IsFlag, IsContext}

not-true : {b : Bool} → not b ≡ false → b ≡ true
not-true h = ground arith

module _ {F : Type 0} (py : Python F) (first_sorted : List String → String) where
  validate_context_fields-IsContext :
      (fields : Fields F) (u : Unit {0})
      → validate_context_fields py first_sorted fields ≡ returned u
      → IsContext py fields
  unfolding validate_context_fields
  validate_context_fields-IsContext fields u e =
      let (u₀, known, e₁) = then-returned _ _ _ e in
      let (u₁, tools, e₂) = then-returned _ _ _ e₁ in
      let (u₂, user, e₃) = then-returned _ _ _ e₂ in
      let (u₃, policy, e₄) = then-returned _ _ _ e₃ in
      let (u₄, flags, e₅) = then-returned _ _ _ e₄ in
      let (u₅, counts, e₆) = then-returned _ _ _ e₅ in
      let (u₆, cost, names) = then-returned _ _ _ e₆ in
      record {
        known = not-true (raise_if-returned _ _ _ known);
        tools = string_list-IsListValue _ 64 256 _ _ tools;
        user_scope = scope_value-IsScope _ _ _ user;
        tool_policy = scope_value-IsScope _ _ _ policy;
        budget = number_value-IsAmountValue py _ _ _ cost;
        flags = for_each-All _ (IsFlag fields) _ _ (boolean_value-flag fields) flags;
        counts =
            for_each-All _ _ _ _ (λ key v. bounded_integer-IsCountValue key _ (get key fields) v)
              counts;
        names =
            for_each-All _ _ _ _
              (λ key v. optional_string-IsTextValue py key 256 (get key fields) v) names;
      }

  end-IsContext : IsContext py end
  unfolding is_empty unknown_keys keep get has_key
  end-IsContext = record {
    known = refl;
    tools = tt;
    user_scope = tt;
    tool_policy = tt;
    budget = tt;
    flags = All_always (IsFlag {F = F} end) boolean_context_fields λ key. inl refl;
    counts =
        All_always (λ key. IsCountValue {F = F} (pos 2000000000) (get key end))
          integer_context_fields λ key. tt;
    names =
        All_always (λ key. IsTextValue {F = F} (IsShort 256) (get key end)) string_context_fields
          λ key. tt;
  }

  validate_context-IsContext :
      (v : Json F) (u : Unit {0})
      → validate_context py first_sorted v ≡ returned u
      → IsContext py (as_dict v)
  unfolding validate_context as_dict
  validate_context-IsContext null u e = end-IsContext
  validate_context-IsContext (bool b) u e = absurd (raised-returned e)
  validate_context-IsContext (int n) u e = absurd (raised-returned e)
  validate_context-IsContext (float f) u e = absurd (raised-returned e)
  validate_context-IsContext (str s) u e = absurd (raised-returned e)
  validate_context-IsContext (arr vs) u e = absurd (raised-returned e)
  validate_context-IsContext (obj fs) u e = validate_context_fields-IsContext fs u e

  pub identity-IsTextValue :
      (fields : Fields F) (u : Unit {0})
      → validate_identity py first_sorted fields ≡ returned u
      → (is_empty (unknown_keys allowed_event_fields fields) ≡ true)
        × IsTextValue (IsShort 128) (get "event_id" fields)
        × IsTextValue (IsTime py) (get "timestamp_utc" fields)
        × IsTextValue (λ s. is_opaque_hash s ≡ true) (get "tenant_id_hash" fields)
        × IsTextValue (IsShort 256) (get "user_id_hash" fields)
        × IsTextValue (IsShort 256) (get "session_id_hash" fields)
        × IsTextValue (IsShort 128) (get "model_provider" fields)
        × IsTextValue (IsShort 128) (get "model_name" fields)
  unfolding validate_identity
  identity-IsTextValue fields u e₀ =
      let (u₀, known, e₁) = then-returned _ _ _ e₀ in
      let (u₁, id, e₂) = then-returned _ _ _ e₁ in
      let (u₂, time, e₃) = then-returned _ _ _ e₂ in
      let (u₃, tenant, e₄) = then-returned _ _ _ e₃ in
      let (u₄, user, e₅) = then-returned _ _ _ e₄ in
      let (u₅, session, e₆) = then-returned _ _ _ e₅ in
      let (u₆, provider, model) = then-returned _ _ _ e₆ in
      (
        not-true (raise_if-returned _ _ _ known),
        optional_string-IsTextValue py _ 128 _ _ id,
        validate_timestamp-IsTime py _ _ time,
        opaque_hash-IsTextValue _ _ _ tenant,
        optional_string-IsTextValue py _ 256 _ _ user,
        optional_string-IsTextValue py _ 256 _ _ session,
        optional_string-IsTextValue py _ 128 _ _ provider,
        optional_string-IsTextValue py _ 128 _ _ model,
      )

  pub content-IsTextValue :
      (fields : Fields F) (u : Unit {0})
      → validate_content py first_sorted fields ≡ returned u
      → IsTextValue (λ s. member s allowed_input_channels ≡ true) (get "input_channel" fields)
        × IsTextValue (λ s. member s allowed_data_origins ≡ true) (get "data_origin" fields)
        × IsTextValue (IsShort 2048) (get "text_excerpt_redacted" fields)
        × IsListValue 64 256 (get "retrieved_doc_ids" fields)
        × IsTextValue (IsShort 256) (get "tool_name" fields)
        × IsTextValue (IsShort 512) (get "tool_action" fields)
        × IsListValue 32 128 (get "tool_permissions" fields)
        × IsTextValue
            (λ s. member s allowed_data_classifications ≡ true)
            (get "data_classification" fields)
  unfolding validate_content
  content-IsTextValue fields u e₀ =
      let (u₀, channel, e₁) = then-returned _ _ _ e₀ in
      let (u₁, origin, e₂) = then-returned _ _ _ e₁ in
      let (u₂, excerpt, e₃) = then-returned _ _ _ e₂ in
      let (u₃, documents, e₄) = then-returned _ _ _ e₃ in
      let (u₄, tool, e₅) = then-returned _ _ _ e₄ in
      let (u₅, action, e₆) = then-returned _ _ _ e₅ in
      let (u₆, permissions, classes) = then-returned _ _ _ e₆ in
      (
        enum_value-IsTextValue _ _ _ _ channel,
        enum_value-IsTextValue _ _ _ _ origin,
        optional_string-IsTextValue py _ 2048 _ _ excerpt,
        string_list-IsListValue _ 64 256 _ _ documents,
        optional_string-IsTextValue py _ 256 _ _ tool,
        optional_string-IsTextValue py _ 512 _ _ action,
        string_list-IsListValue _ 32 128 _ _ permissions,
        enum_value-IsTextValue _ _ _ _ classes,
      )

  pub surface-IsTextValue :
      (fields : Fields F) (u : Unit {0})
      → validate_surface py first_sorted fields ≡ returned u
      → IsListValue 64 512 (get "planned_actions" fields)
        × IsTextValue (IsShort 512) (get "network_destination" fields)
        × IsAmountValue py (get "cost_estimate" fields)
        × IsCountValue (pos 2000000000) (get "token_count_estimate" fields)
        × IsListValue 32 128 (get "verified_mitigations" fields)
        × IsContext py (as_dict (get "context" fields))
  unfolding validate_surface
  surface-IsTextValue fields u e₀ =
      let (u₀, planned, e₁) = then-returned _ _ _ e₀ in
      let (u₁, destination, e₂) = then-returned _ _ _ e₁ in
      let (u₂, cost, e₃) = then-returned _ _ _ e₂ in
      let (u₃, tokens, e₄) = then-returned _ _ _ e₃ in
      let (u₄, mitigations, context) = then-returned _ _ _ e₄ in
      (
        string_list-IsListValue _ 64 512 _ _ planned,
        optional_string-IsTextValue py _ 512 _ _ destination,
        number_value-IsAmountValue py _ _ _ cost,
        bounded_integer-IsCountValue _ _ _ _ tokens,
        string_list-IsListValue _ 32 128 _ _ mitigations,
        validate_context-IsContext _ _ context,
      )
