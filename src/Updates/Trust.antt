-- ===== src/Updates/Trust.antt =====
-- What a trusted bundle of intelligence is, and what the checks of the envelope and of the records
-- in intel/updates.py give of it.
use vexyl_guard.Prelude.{
  ℕ, suc, ◌≤◌, String, true, false, Option, none, some, List, [], ◌∷◌, ◌≡◌, ap, sym, ◌∙◌, arith, ℤ,
  pos, negsuc, ◌+ℤ◌, ltb_ℤ, leb_ℤ, member, subst, refl, map,
}
use vexyl_guard.Outcome.{
  returned, bind-returned, then-returned, raise_if-returned, returned-inj, raised-returned,
}
use vexyl_guard.Python.{
  Python, Json, null, bool, int, float, str, arr, obj, Items, Fields, get, items,
}
use vexyl_guard.Updates.State.{VerifiedIntelBundle}
use vexyl_guard.Updates.Seeds.{IsDefensive, validate_seed_record-IsDefensive}
use vexyl_guard.Updates.Values.{
  Outside, max_validity, max_clock_skew, max_sequence, or_raise, bundle_sequence, attack_id_of,
}
use vexyl_guard.Updates.Bundle.{decode_base64url, check_records, open_envelope, parse_timestamp}

module _ {F : Type 0} (py : Python F) (out : Outside F) where
  -- Each record is within the defensive boundary, and no attack id occurs twice or among `seen`.
  abbrev pub AreChecked : List (Fields F) → ℕ → List String → Type 0
  AreChecked [] index seen = Unit
  AreChecked (fields ∷ rest) index seen =
      IsDefensive out.search fields
      × (attack_id : String) × (get "attack_id" fields ≡ str attack_id)
      × (member attack_id seen ≡ false)
      × AreChecked rest (suc index) (attack_id ∷ seen)

  -- The payload was signed under a key that is not revoked.
  pub record IsSigned (revoked : List String) (key_id payload : String) : Type 0 where
    pub payload_b64 : String
    pub signature : String
    pub not_revoked : member key_id revoked ≡ false
    pub encodes : out.urlsafe_b64decode payload_b64 ≡ some payload
    pub signed : out.openssl_verify payload_b64 signature key_id ≡ true

  -- The bundle is valid now, at the times that its content states.
  pub record IsCurrent (now : ℤ) (content : Fields F) (verified : VerifiedIntelBundle (Fields F))
      : Type 0 where
    pub issued : ℤ
    pub expires : ℤ
    pub states_issued :
        parse_timestamp py out (get "issued_at" content) "issued_at" ≡ returned issued
    pub states_expires :
        parse_timestamp py out (get "expires_at" content) "expires_at" ≡ returned expires
    pub is_issued : verified.issued_at ≡ out.isoformat issued
    pub is_expires : verified.expires_at ≡ out.isoformat expires
    pub not_early : ltb_ℤ (now +ℤ max_clock_skew) issued ≡ false
    pub not_expired : leb_ℤ expires now ≡ false
    pub not_long : ltb_ℤ (issued +ℤ max_validity) expires ≡ false

  -- The bundle has the identifier, the sequence, the records and their hash that its content states.
  pub record IsContent (content : Fields F) (verified : VerifiedIntelBundle (Fields F))
      : Type 0 where
    pub values : Items F
    pub has_id : get "bundle_id" content ≡ str verified.bundle_id
    pub has_sequence : get "sequence" content ≡ int (pos verified.sequence)
    pub has_records : get "records" content ≡ arr values
    pub same_records : items values ≡ map obj verified.records
    pub has_hash : get "records_sha256" content ≡ str verified.records_sha256

  -- What the code trusts: the content is what the signed payload says.
  pub record IsTrusted (revoked : List String) (now : ℤ) (verified : VerifiedIntelBundle (Fields F))
      : Type 0 where
    pub payload : String
    pub signed : IsSigned revoked verified.key_id payload
    pub payload_hash : verified.payload_sha256 ≡ py.sha256_hex payload
    pub content : Fields F
    pub parsed : out.json_loads payload ≡ some (obj content)
    pub contained : IsContent content verified
    pub current : IsCurrent now content verified
    pub sequence_bounds : (1 ≤ verified.sequence) × (verified.sequence ≤ max_sequence)
    pub checked : AreChecked verified.records 1 []
    pub records_hash :
        verified.records_sha256 ≡ py.sha256_hex (out.canonical_records verified.records)

  pub or_raise-returned :
      {A : Type 0} (message : String) (o : Option A) (a : A)
      → or_raise message o ≡ returned a
      → o ≡ some a
  unfolding or_raise
  or_raise-returned message none a e = absurd (raised-returned e)
  or_raise-returned message (some b) a e = ap some (returned-inj e)

  attack_id-returned :
      (index : String) (v : Json F) (s : String) → attack_id_of index v ≡ returned s → v ≡ str s
  unfolding attack_id_of
  attack_id-returned index null s e = absurd (raised-returned e)
  attack_id-returned index (bool b) s e = absurd (raised-returned e)
  attack_id-returned index (int n) s e = absurd (raised-returned e)
  attack_id-returned index (float f) s e = absurd (raised-returned e)
  attack_id-returned index (arr vs) s e = absurd (raised-returned e)
  attack_id-returned index (obj fs) s e = absurd (raised-returned e)
  attack_id-returned index (str t) s e = ground arith

  pub sequence-returned :
      (v : Json F) (n : ℕ)
      → bundle_sequence v ≡ returned n
      → (v ≡ int (pos n)) × (1 ≤ n) × (n ≤ max_sequence)
  unfolding bundle_sequence
  sequence-returned null n e = absurd (raised-returned e)
  sequence-returned (bool b) n e = absurd (raised-returned e)
  sequence-returned (str t) n e = absurd (raised-returned e)
  sequence-returned (float f) n e = absurd (raised-returned e)
  sequence-returned (arr vs) n e = absurd (raised-returned e)
  sequence-returned (obj fs) n e = absurd (raised-returned e)
  sequence-returned (int (negsuc m)) n e = absurd (raised-returned e)
  sequence-returned (int (pos m)) n e =
      let same : m ≡ n = ground arith in (ap (λ k. int (pos k)) same, ground arith, ground arith)

  pub check_records-AreChecked :
      (values : List (Json F)) (index : ℕ) (seen : List String) (checked : List (Fields F))
      → check_records py out values index seen ≡ returned checked
      → (values ≡ map obj checked) × AreChecked checked index seen
  unfolding check_records
  check_records-AreChecked [] index seen checked e =
      subst (λ c. ([] ≡ map obj c) × AreChecked c index seen) (returned-inj e) (refl, tt)
  check_records-AreChecked (null ∷ rest) index seen checked e = absurd (raised-returned e)
  check_records-AreChecked (bool b ∷ rest) index seen checked e = absurd (raised-returned e)
  check_records-AreChecked (int n ∷ rest) index seen checked e = absurd (raised-returned e)
  check_records-AreChecked (float f ∷ rest) index seen checked e = absurd (raised-returned e)
  check_records-AreChecked (str s ∷ rest) index seen checked e = absurd (raised-returned e)
  check_records-AreChecked (arr vs ∷ rest) index seen checked e = absurd (raised-returned e)
  check_records-AreChecked (obj fields ∷ rest) index seen checked e =
      let (_, valid, e₁) = then-returned _ _ _ e in
      let (attack_id, id_read, e₂) = bind-returned _ _ _ e₁ in
      let (_, fresh, e₃) = then-returned _ _ _ e₂ in
      let (more, rest_checked, e₄) = bind-returned _ _ _ e₃ in
      let others = check_records-AreChecked rest (suc index) (attack_id ∷ seen) more rest_checked in
      let is_valid = raise_if-returned _ _ _ valid in
      subst (λ c. (obj fields ∷ rest ≡ map obj c) × AreChecked c index seen) (returned-inj e₄)
        (
          ap (λ vs. obj fields ∷ vs) others.0,
          (
            validate_seed_record-IsDefensive out.search fields (ground arith),
            attack_id,
            attack_id-returned _ _ _ id_read,
            raise_if-returned _ _ _ fresh,
            others.1,
          ),
        )

  decode-returned :
      (value name bytes : String)
      → decode_base64url py out value name ≡ returned bytes
      → out.urlsafe_b64decode value ≡ some bytes
  unfolding decode_base64url
  decode-returned value name bytes e =
      let (_, shaped, decoded) = then-returned _ _ _ e in or_raise-returned _ _ bytes decoded

  pub open_envelope-IsSigned :
      (revoked : List String) (envelope : Fields F) (key_id payload : String)
      → open_envelope py out revoked envelope ≡ returned (key_id, payload)
      → IsSigned revoked key_id payload
  unfolding open_envelope
  open_envelope-IsSigned revoked envelope key_id payload e =
      let (_, known, e₁) = then-returned _ _ _ e in
      let (_, version, e₂) = then-returned _ _ _ e₁ in
      let (_, alg, e₃) = then-returned _ _ _ e₂ in
      let (kid, kid_read, e₄) = bind-returned _ _ _ e₃ in
      let (_, no_dots, e₅) = then-returned _ _ _ e₄ in
      let (_, unrevoked, e₆) = then-returned _ _ _ e₅ in
      let (payload_b64, payload_read, e₇) = bind-returned _ _ _ e₆ in
      let (signature_b64, signature_read, e₈) = bind-returned _ _ _ e₇ in
      let (bytes, decoded, e₉) = bind-returned _ _ _ e₈ in
      let (_, bounded, f₁) = then-returned _ _ _ e₉ in
      let (signature, signature_decoded, f₂) = bind-returned _ _ _ f₁ in
      let (_, verified, opened) = then-returned _ _ _ f₂ in
      let same_key = ap (λ p. p.0) (returned-inj opened) in
      let same_bytes = ap (λ p. p.1) (returned-inj opened) in
      let is_signed = raise_if-returned _ _ _ verified in
      let signed_by_kid : out.openssl_verify payload_b64 signature kid ≡ true = ground arith in
      record {
        payload_b64 = payload_b64;
        signature = signature;
        not_revoked = ap (λ k. member k revoked) (sym same_key) ∙ raise_if-returned _ _ _ unrevoked;
        encodes = decode-returned _ _ bytes decoded ∙ ap some same_bytes;
        signed = ap (out.openssl_verify payload_b64 signature) (sym same_key) ∙ signed_by_kid;
      }
