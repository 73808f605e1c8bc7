-- ===== src/Updates/Verified/Tests.antt =====
-- The verification of a bundle at a concrete envelope.
use vexyl_guard.Prelude.{
  ℕ, true, false, some, [], ◌∷◌, pos, ◌+ℤ◌, ◌≡◌, refl, ◌==◌, if◌then◌else◌, all, any, member,
  contains,
}
use vexyl_guard.Outcome.{returned, ◌>>=◌, ◌>>◌, raise_if}
use vexyl_guard.Python.{int, str, arr, obj, nil, cons, Fields, field, end, get, has_key}
use vexyl_guard.Scoring.Run.{plain}
use vexyl_guard.Updates.State.{VerifiedIntelBundle}
use vexyl_guard.Updates.Values.{
  Outside, same_keys, or_raise, bundle_string, payload_object, is_string, is_number,
  bundle_sequence, record_list, attack_id_of,
}
use vexyl_guard.Updates.Seeds.{
  validate_seed_record, is_allowed_text, walk_text, walk_items, walk_fields,
}
use vexyl_guard.Updates.Bundle.{
  bundle_identifier, decode_base64url, parse_timestamp, hash_value, check_records, open_envelope,
  check_window, check_payload, verify_intel_bundle,
}
use vexyl_guard.Updates.Trust.{IsTrusted}
use vexyl_guard.Updates.Verified.{verify-IsTrusted}

unfoldable pub verifying : Unit {0}
unfolding same_keys or_raise bundle_string payload_object is_string is_number bundle_sequence
    record_list attack_id_of bundle_identifier decode_base64url parse_timestamp hash_value
    check_records open_envelope check_window check_payload verify_intel_bundle ◌>>=◌ ◌>>◌ raise_if
    get has_key all any member validate_seed_record is_allowed_text walk_text walk_items walk_fields
    contains ◌+ℤ◌
verifying = tt

-- A signed bundle of one record.
abbrev bundle_record : Fields ℕ
bundle_record = field "attack_id" (str "AI-PI-001") (
    field "name" (str "n") (
      field "family" (str "f") (
        field "summary" (str "s") (
          field "severity" (int (pos 8))
            (field "likelihood" (int (pos 3)) (field "confidence" (int (pos 3)) end))))))

abbrev bundle_payload : Fields ℕ
bundle_payload = field "schema" (str "vexyl.ai_intel_payload.v1") (
    field "bundle_id" (str "b1") (
      field "sequence" (int (pos 2)) (
        field "issued_at" (str "100") (
          field "expires_at" (str "200") (
            field "record_count" (int (pos 1)) (
              field "records_sha256" (str "records")
                (field "records" (arr (cons (obj bundle_record) nil)) end)))))))

abbrev pub envelope : Fields ℕ
envelope = field "version" (int (pos 1)) (
    field "alg" (str "RS256") (
      field "kid" (str "k1")
        (field "payload_b64" (str "payload") (field "signature" (str "signature") end))))

-- Texts are their own encoding here, and the two times are 100 and 200.
abbrev pub outside : Outside ℕ
outside = record {
  fullmatch = λ pattern text. true;
  urlsafe_b64decode = λ text. some text;
  json_loads = λ text. some (obj bundle_payload);
  fromisoformat = λ text. some (true, (if text == "100" then pos 100 else pos 200));
  isoformat = λ time. "time";
  openssl_verify = λ payload signature key_id. signature == "signature";
  canonical_records = λ records. "records";
  search = λ pattern text. false;
}

abbrev pub verified_bundle : VerifiedIntelBundle (Fields ℕ)
verified_bundle = record {
  bundle_id = "b1";
  sequence = 2;
  issued_at = "time";
  expires_at = "time";
  records_sha256 = "records";
  payload_sha256 = "payload";
  key_id = "k1";
  records = bundle_record ∷ [];
}

pub envelope_verifies :
    verify_intel_bundle plain outside ("k0" ∷ []) (pos 150) envelope ≡ returned verified_bundle
unfolding verifying
envelope_verifies = refl

verify-IsTrusted_example : IsTrusted plain outside ("k0" ∷ []) (pos 150) verified_bundle
verify-IsTrusted_example =
    verify-IsTrusted plain outside ("k0" ∷ []) (pos 150) envelope verified_bundle envelope_verifies
