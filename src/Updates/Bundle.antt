-- ===== src/Updates/Bundle.antt =====
-- `verify_intel_bundle` of intel/updates.py, of an envelope that has been read.
use Prim.Native.String
use vexyl_guard.Prelude.{
  ℕ, suc, ◌+◌, String, not, ◌||◌, List, [], ◌∷◌, ℤ, pos, ◌+ℤ◌, ltb, ltb_ℤ, leb_ℤ, ◌==◌,
  if◌then◌else◌, member, length, count, contains,
}
use vexyl_guard.Outcome.{Outcome, raised, returned, ◌>>=◌, ◌>>◌, raise_if}
use vexyl_guard.Python.{Python, Json, int, str, obj, Fields, get, keys}
use vexyl_guard.Updates.State.{VerifiedIntelBundle}
use vexyl_guard.Updates.Seeds.{validate_seed_record}
use vexyl_guard.Updates.Values.{
  Outside, invalid, max_bundle_bytes, max_validity, max_clock_skew, same_keys, or_raise,
  bundle_string, payload_object, is_string, is_number, bundle_sequence, record_list, attack_id_of,
}

module _ {F : Type 0} (py : Python F) (out : Outside F) where
  -- `_required_identifier`
  unfoldable pub bundle_identifier : Json F → String → String → Outcome String
  bundle_identifier value name pattern = do
    checked ← bundle_string value name 128
    raise_if (not (out.fullmatch pattern checked)) (invalid name)
    returned checked

  -- `_decode_base64url`; its padding is part of the decoding outside.
  unfoldable pub decode_base64url : String → String → Outcome String
  decode_base64url value name = do
    raise_if (not (out.fullmatch "[A-Za-z0-9_-]+={0,2}" value))
        (String.◌++◌ "intelligence bundle " (String.◌++◌ name " encoding is invalid"))
    or_raise (String.◌++◌ "intelligence bundle " (String.◌++◌ name " encoding is invalid"))
        (out.urlsafe_b64decode value)

  -- `_parse_timestamp`
  unfoldable pub parse_timestamp : Json F → String → Outcome ℤ
  parse_timestamp (str s) name = do
    raise_if (ltb 64 (count s)) (invalid name)
    parsed ← or_raise (invalid name) (out.fromisoformat s)
    raise_if (not parsed.0)
        (String.◌++◌ "intelligence bundle " (String.◌++◌ name " must include a timezone"))
    returned parsed.1
  parse_timestamp v name = raised (invalid name)

  unfoldable pub hash_value : Json F → Outcome String
  hash_value (str s) =
      if out.fullmatch "[0-9a-f]{64}" s
      then returned s
      else raised "intelligence bundle record hash is invalid"
  hash_value v = raised "intelligence bundle record hash is invalid"

  -- the loop over the records; `seen` is the set of attack ids
  unfoldable pub check_records : List (Json F) → ℕ → List String → Outcome (List (Fields F))
  check_records [] index seen = returned []
  check_records (obj fields ∷ rest) index seen = do
    raise_if (not (validate_seed_record out.search fields)) (
        String.◌++◌ "intelligence record "
          (String.◌++◌ (py.str_of (int (pos index))) " violates the defensive data boundary"))
    attack_id ← attack_id_of (py.str_of (int (pos index))) (get "attack_id" fields)
    raise_if (member attack_id seen) "intelligence bundle contains duplicate attack ids"
    more ← check_records rest (suc index) (attack_id ∷ seen)
    returned (fields ∷ more)
  check_records (v ∷ rest) index seen = raised (
      String.◌++◌ "intelligence record "
        (String.◌++◌ (py.str_of (int (pos index))) " must be an object"))

  -- the envelope, up to its verified payload: the key's id and the payload's bytes
  unfoldable pub open_envelope : List String → Fields F → Outcome (String × String)
  open_envelope revoked envelope = do
    raise_if
        (not (
          same_keys (keys envelope) ("version" ∷ "alg" ∷ "kid" ∷ "payload_b64" ∷ "signature" ∷ [])))
        "intelligence bundle envelope has unsupported fields"
    raise_if (not (is_number 1 (get "version" envelope)))
        "intelligence bundle version is not supported"
    raise_if (not (is_string "RS256" (get "alg" envelope))) "intelligence bundle must use RS256"
    key_id ←
        bundle_identifier (get "kid" envelope) "signing key id" "^[A-Za-z0-9][A-Za-z0-9._-]{0,63}$"
    raise_if (contains key_id "..") "intelligence bundle signing key id is invalid"
    raise_if (member key_id revoked) "intelligence bundle signing key is revoked"
    payload_b64 ←
        bundle_string (get "payload_b64" envelope) "payload" (max_bundle_bytes + max_bundle_bytes)
    signature_b64 ← bundle_string (get "signature" envelope) "signature" 16384
    payload_bytes ← decode_base64url payload_b64 "payload"
    raise_if (ltb max_bundle_bytes (count payload_bytes))
        "intelligence bundle payload exceeds the size limit"
    signature ← decode_base64url signature_b64 "signature"
    raise_if (not (out.openssl_verify payload_b64 signature key_id))
        "intelligence bundle signature verification failed"
    returned (key_id, payload_bytes)

  -- the validity window of the payload
  unfoldable pub check_window : ℤ → Fields F → Outcome (ℤ × ℤ)
  check_window now payload = do
    issued_at ← parse_timestamp (get "issued_at" payload) "issued_at"
    expires_at ← parse_timestamp (get "expires_at" payload) "expires_at"
    raise_if (ltb_ℤ (now +ℤ max_clock_skew) issued_at)
        "intelligence bundle was issued too far in the future"
    raise_if (leb_ℤ expires_at now) "intelligence bundle has expired"
    raise_if (leb_ℤ expires_at issued_at || ltb_ℤ (issued_at +ℤ max_validity) expires_at)
        "intelligence bundle validity window is invalid"
    returned (issued_at, expires_at)

  -- the payload, after its signature
  unfoldable pub check_payload :
      ℤ → String → String → Fields F → Outcome (VerifiedIntelBundle (Fields F))
  check_payload now key_id payload_bytes payload = do
    raise_if
        (not (
          same_keys (keys payload) (
            "schema" ∷ "bundle_id" ∷ "sequence" ∷ "issued_at" ∷ "expires_at" ∷ "record_count"
            ∷ "records_sha256" ∷ "records" ∷ [])))
        "intelligence bundle payload has unsupported fields"
    raise_if (not (is_string "vexyl.ai_intel_payload.v1" (get "schema" payload)))
        "intelligence bundle payload schema is not supported"
    bundle_id ←
        bundle_identifier (get "bundle_id" payload) "bundle id"
          "^[A-Za-z0-9][A-Za-z0-9._:-]{0,127}$"
    sequence ← bundle_sequence (get "sequence" payload)
    window ← check_window now payload
    found ← record_list (get "records" payload)
    raise_if (not (is_number (length found) (get "record_count" payload)))
        "intelligence bundle record count does not match"
    checked ← check_records found 1 []
    declared ← hash_value (get "records_sha256" payload)
    raise_if (not (declared == py.sha256_hex (out.canonical_records checked)))
        "intelligence bundle record hash does not match"
    returned (record {
      bundle_id = bundle_id;
      sequence = sequence;
      issued_at = out.isoformat window.0;
      expires_at = out.isoformat window.1;
      records_sha256 = py.sha256_hex (out.canonical_records checked);
      payload_sha256 = py.sha256_hex payload_bytes;
      key_id = key_id;
      records = checked;
    })

  unfoldable pub verify_intel_bundle :
      List String → ℤ → Fields F → Outcome (VerifiedIntelBundle (Fields F))
  verify_intel_bundle revoked now envelope = do
    opened ← open_envelope revoked envelope
    parsed ← or_raise "intelligence bundle payload is not valid JSON" (out.json_loads opened.1)
    payload ← payload_object parsed
    check_payload now opened.0 opened.1 payload
