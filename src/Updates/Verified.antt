-- ===== src/Updates/Verified.antt =====
-- What `verify_intel_bundle` of intel/updates.py guarantees of a bundle that it returns.
use vexyl_guard.Prelude.{
  ℕ, suc, ◌≤◌, String, Bool, true, false, not, ◌&&◌, ◌||◌, Option, none, some, List, [], ◌∷◌, ◌≡◌,
  refl, ap, sym, ◌∙◌, arith, ℤ, pos, negsuc, ◌+ℤ◌, leb, ltb_ℤ, leb_ℤ, member, length, subst,
  if◌then◌else◌, ◌==◌, eq_iff,
}
use vexyl_guard.Outcome.{
  Outcome, raised, returned, ◌>>=◌, ◌>>◌, raise_if, bind-returned, then-returned, raise_if-returned,
  returned-inj, raised-returned,
}
use vexyl_guard.Python.{
  Python, Json, null, bool, int, float, str, arr, obj, Items, Fields, get, items, keys,
}
use vexyl_guard.Updates.State.{VerifiedIntelBundle}
use vexyl_guard.Updates.Values.{
  Outside, max_validity, max_clock_skew, max_sequence, or_raise, bundle_sequence, record_list,
  attack_id_of, payload_object, bundle_string,
}
use vexyl_guard.Updates.Bundle.{
  bundle_identifier, decode_base64url, parse_timestamp, hash_value, check_records, open_envelope,
  check_window, check_payload, verify_intel_bundle,
}
use vexyl_guard.Updates.Trust.{
  AreChecked, IsSigned, IsCurrent, IsTrusted, or_raise-returned, sequence-returned,
  check_records-AreChecked, open_envelope-IsSigned,
}
pub mod Tests

hash-same : (a b : String) → not (a == b) ≡ false → a ≡ b
hash-same a b h = ground (arith, eq_iff a b)

module _ {F : Type 0} where
  string-returned :
      (v : Json F) (name : String) (maximum : ℕ) (s : String)
      → bundle_string v name maximum ≡ returned s
      → v ≡ str s
  unfolding bundle_string
  string-returned null name maximum s e = absurd (raised-returned e)
  string-returned (bool b) name maximum s e = absurd (raised-returned e)
  string-returned (int n) name maximum s e = absurd (raised-returned e)
  string-returned (float f) name maximum s e = absurd (raised-returned e)
  string-returned (arr vs) name maximum s e = absurd (raised-returned e)
  string-returned (obj fs) name maximum s e = absurd (raised-returned e)
  string-returned (str t) name maximum s e = ground arith

  list-returned :
      (v : Json F) (found : List (Json F))
      → record_list v ≡ returned found
      → (vs : Items F) × (v ≡ arr vs) × (items vs ≡ found)
  unfolding record_list
  list-returned null found e = absurd (raised-returned e)
  list-returned (bool b) found e = absurd (raised-returned e)
  list-returned (int n) found e = absurd (raised-returned e)
  list-returned (float f) found e = absurd (raised-returned e)
  list-returned (str t) found e = absurd (raised-returned e)
  list-returned (obj fs) found e = absurd (raised-returned e)
  list-returned (arr vs) found e = (vs, refl, ground arith)

  object-returned :
      (v : Json F) (fields : Fields F) → payload_object v ≡ returned fields → v ≡ obj fields
  unfolding payload_object
  object-returned null fields e = absurd (raised-returned e)
  object-returned (bool b) fields e = absurd (raised-returned e)
  object-returned (int n) fields e = absurd (raised-returned e)
  object-returned (float f) fields e = absurd (raised-returned e)
  object-returned (str t) fields e = absurd (raised-returned e)
  object-returned (arr vs) fields e = absurd (raised-returned e)
  object-returned (obj fs) fields e = ap obj (returned-inj e)

module _ {F : Type 0} (py : Python F) (out : Outside F) where
  check_window-ordered :
      (now issued expires : ℤ) (payload : Fields F)
      → check_window py out now payload ≡ returned (issued, expires)
      → (parse_timestamp py out (get "issued_at" payload) "issued_at" ≡ returned issued)
        × (parse_timestamp py out (get "expires_at" payload) "expires_at" ≡ returned expires)
        × (ltb_ℤ (now +ℤ max_clock_skew) issued ≡ false)
        × (leb_ℤ expires now ≡ false)
        × (ltb_ℤ (issued +ℤ max_validity) expires ≡ false)
  unfolding check_window
  check_window-ordered now issued expires payload e =
      let (first, first_read, e₁) = bind-returned _ _ _ e in
      let (last, last_read, e₂) = bind-returned _ _ _ e₁ in
      let (_, early, e₃) = then-returned _ _ _ e₂ in
      let (_, expired, e₄) = then-returned _ _ _ e₃ in
      let (_, long, window) = then-returned _ _ _ e₄ in
      let same_first = ap (λ p. p.0) (returned-inj window) in
      let same_last = ap (λ p. p.1) (returned-inj window) in
      let not_early = raise_if-returned _ _ _ early in
      let not_expired = raise_if-returned _ _ _ expired in
      let not_long = raise_if-returned _ _ _ long in
      let short : ltb_ℤ (first +ℤ max_validity) last ≡ false = ground arith in
      (
        first_read ∙ ap returned same_first,
        last_read ∙ ap returned same_last,
        ap (ltb_ℤ (now +ℤ max_clock_skew)) (sym same_first) ∙ not_early,
        ap (λ t. leb_ℤ t now) (sym same_last) ∙ not_expired,
        ap (λ t. ltb_ℤ (t +ℤ max_validity) expires) (sym same_first)
            ∙ ap (ltb_ℤ (first +ℤ max_validity)) (sym same_last)
            ∙ short,
      )

  identifier-returned :
      (v : Json F) (name pattern s : String)
      → bundle_identifier py out v name pattern ≡ returned s
      → v ≡ str s
  unfolding bundle_identifier
  identifier-returned v name pattern s e =
      let (checked, read, e₁) = bind-returned _ _ _ e in
      let (_, shaped, e₂) = then-returned _ _ _ e₁ in string-returned v name 128 s (read ∙ e₂)

  hash-returned : (v : Json F) (s : String) → hash_value py out v ≡ returned s → v ≡ str s
  unfolding hash_value
  hash-returned null s e = absurd (raised-returned e)
  hash-returned (bool b) s e = absurd (raised-returned e)
  hash-returned (int n) s e = absurd (raised-returned e)
  hash-returned (float f) s e = absurd (raised-returned e)
  hash-returned (arr vs) s e = absurd (raised-returned e)
  hash-returned (obj fs) s e = absurd (raised-returned e)
  hash-returned (str t) s e = ground arith

  check_payload-IsTrusted :
      (revoked : List String) (now : ℤ) (key_id bytes : String) (payload : Fields F)
      (verified : VerifiedIntelBundle (Fields F))
      → IsSigned py out revoked key_id bytes
      → out.json_loads bytes ≡ some (obj payload)
      → check_payload py out now key_id bytes payload ≡ returned verified
      → IsTrusted py out revoked now verified
  unfolding check_payload
  check_payload-IsTrusted revoked now key_id bytes payload verified signed loaded e =
      let (_, known, e₁) = then-returned _ _ _ e in
      let (_, schema, e₂) = then-returned _ _ _ e₁ in
      let (bundle_id, id_read, e₃) = bind-returned _ _ _ e₂ in
      let (sequence, sequence_read, e₄) = bind-returned _ _ _ e₃ in
      let (window, window_read, e₅) = bind-returned _ _ _ e₄ in
      let (found, list_read, e₆) = bind-returned _ _ _ e₅ in
      let (_, counted, e₇) = then-returned _ _ _ e₆ in
      let (checked, records_read, e₈) = bind-returned _ _ _ e₇ in
      let (declared, hash_read, e₉) = bind-returned _ _ _ e₈ in
      let (_, hash_matches, built) = then-returned _ _ _ e₉ in
      let (issued, expires, early, expired, long) =
        check_window-ordered now window.0 window.1 payload window_read in
      let (values, is_list, same_values) = list-returned _ _ list_read in
      let (same_records, are_checked) =
        check_records-AreChecked py out found 1 [] checked records_read in
      let (is_number, lower, upper) = sequence-returned py out _ _ sequence_read in
      let matches = raise_if-returned _ _ _ hash_matches in
      let same_hash : declared ≡ py.sha256_hex (out.canonical_records checked) =
        hash-same _ _ matches in
      subst (IsTrusted py out revoked now) (returned-inj built) (record {
        payload = bytes;
        signed = signed;
        payload_hash = refl;
        content = payload;
        parsed = loaded;
        contained = record {
          values = values;
          has_id = identifier-returned _ _ _ _ id_read;
          has_sequence = is_number;
          has_records = is_list;
          same_records = same_values ∙ same_records;
          has_hash = hash-returned _ _ hash_read ∙ ap str same_hash;
        };
        current = record {
          states_issued = issued;
          states_expires = expires;
          issued = window.0;
          expires = window.1;
          is_issued = refl;
          is_expires = refl;
          not_early = early;
          not_expired = expired;
          not_long = long;
        };
        sequence_bounds = (lower, upper);
        checked = are_checked;
        records_hash = refl;
      })

  -- If `verify_intel_bundle` returns a bundle, then there is a payload that was signed under a key
  -- that is not revoked, and what its bytes are parsed to is the content of the bundle: identifier,
  -- sequence, times, records and their hash. The bundle is not issued more than the clock skew ahead,
  -- not expired, and valid for 14 days at most; its sequence is in range; each record has the
  -- required fields and no text that matches a forbidden pattern, and no two have one attack id; and
  -- its hashes are those of its payload and of its records.
  pub verify-IsTrusted :
      (revoked : List String) (now : ℤ) (envelope : Fields F)
      (verified : VerifiedIntelBundle (Fields F))
      → verify_intel_bundle py out revoked now envelope ≡ returned verified
      → IsTrusted py out revoked now verified
  unfolding verify_intel_bundle
  verify-IsTrusted revoked now envelope verified e =
      let (opened, envelope_read, e₁) = bind-returned _ _ _ e in
      let (parsed, json_read, e₂) = bind-returned _ _ _ e₁ in
      let (payload, payload_read, checked) = bind-returned _ _ _ e₂ in
      check_payload-IsTrusted revoked now opened.0 opened.1 payload verified
        (open_envelope-IsSigned py out revoked envelope opened.0 opened.1 envelope_read)
        (or_raise-returned py out _ _ parsed json_read ∙ ap some (object-returned _ _ payload_read))
        checked
