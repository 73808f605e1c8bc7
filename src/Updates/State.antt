-- ===== src/Updates/State.antt =====
-- The state that intel/updates.py keeps of the active bundle: the one row of the table
-- `intel_bundle_state`. Its sequences are whole numbers from 0 (the table has a `CHECK`).
use vexyl_guard.Prelude.{
  ℕ, max, String, Bool, true, false, not, ◌&&◌, Option, none, some, List, ltb, leb, nat_eq,
  if◌then◌else◌, length, ◌==◌,
}

pub record BundleState : Type 0 where
  pub active_sequence : ℕ
  pub active_bundle_id : Option String
  pub active_issued_at_utc : Option String
  pub active_expires_at_utc : Option String
  pub active_records_sha256 : Option String
  pub active_payload_sha256 : Option String
  pub active_key_id : Option String
  pub active_record_count : ℕ
  pub activated_at_utc : Option String
  pub highest_sequence : ℕ
  pub highest_records_sha256 : Option String
  pub rollback_from_sequence : Option ℕ
  pub updated_at_utc : Option String

abbrev pub empty_state : BundleState
empty_state = record {
  active_sequence = 0;
  active_bundle_id = none;
  active_issued_at_utc = none;
  active_expires_at_utc = none;
  active_records_sha256 = none;
  active_payload_sha256 = none;
  active_key_id = none;
  active_record_count = 0;
  activated_at_utc = none;
  highest_sequence = 0;
  highest_records_sha256 = none;
  rollback_from_sequence = none;
  updated_at_utc = none;
}

-- `R` is the type of a record of intelligence.
pub record VerifiedIntelBundle (R : Type 0) : Type 0 where
  pub bundle_id : String
  pub sequence : ℕ
  pub issued_at : String
  pub expires_at : String
  pub records_sha256 : String
  pub payload_sha256 : String
  pub key_id : String
  pub records : List R

unfoldable pub same_text : Option String → Option String → Bool
same_text none none = true
same_text none (some b) = false
same_text (some a) none = false
same_text (some a) (some b) = a == b

-- `_same_active_state`
unfoldable pub same_active_state : BundleState → BundleState → Bool
same_active_state first second =
    nat_eq first.active_sequence second.active_sequence
    && same_text first.active_records_sha256 second.active_records_sha256

module _ {R : Type 0} where
  -- `_validate_sequence`: `none` if it returns, the message if it raises.
  unfoldable pub validate_sequence : BundleState → VerifiedIntelBundle R → Option String
  validate_sequence current verified =
      if ltb verified.sequence current.highest_sequence
      then some "intelligence bundle sequence is below the high-water mark"
      else if nat_eq verified.sequence current.highest_sequence
          && ltb 0 current.highest_sequence
          && not (same_text current.highest_records_sha256 (some verified.records_sha256))
      then some "intelligence bundle sequence conflicts with trusted history"
      else none

  -- the test by which `apply_intel_bundle` only refreshes the metadata
  unfoldable pub is_active : BundleState → VerifiedIntelBundle R → Bool
  is_active current verified =
      nat_eq current.active_sequence verified.sequence
      && same_text current.active_records_sha256 (some verified.records_sha256)

  -- `_state_for_activation`; `activated_at` is the formatted time.
  unfoldable pub state_for_activation : BundleState → VerifiedIntelBundle R → String → BundleState
  state_for_activation current verified activated_at = record {
    active_sequence = verified.sequence;
    active_bundle_id = some verified.bundle_id;
    active_issued_at_utc = some verified.issued_at;
    active_expires_at_utc = some verified.expires_at;
    active_records_sha256 = some verified.records_sha256;
    active_payload_sha256 = some verified.payload_sha256;
    active_key_id = some verified.key_id;
    active_record_count = length verified.records;
    activated_at_utc = some activated_at;
    highest_sequence = max current.highest_sequence verified.sequence;
    highest_records_sha256 =
        if leb current.highest_sequence verified.sequence
        then some verified.records_sha256
        else current.highest_records_sha256;
    rollback_from_sequence = none;
    updated_at_utc = some activated_at;
  }

  -- the update in `_refresh_active_state`
  unfoldable pub refreshed_state : BundleState → VerifiedIntelBundle R → String → BundleState
  refreshed_state current verified updated_at = record current {
    active_bundle_id = some verified.bundle_id;
    active_issued_at_utc = some verified.issued_at;
    active_expires_at_utc = some verified.expires_at;
    active_payload_sha256 = some verified.payload_sha256;
    active_key_id = some verified.key_id;
    active_record_count = length verified.records;
    rollback_from_sequence = none;
    updated_at_utc = some updated_at;
  }

-- the state that `rollback_intel_bundle` writes: the previous one, but for the high-water mark
unfoldable pub state_for_rollback : BundleState → BundleState → String → BundleState
state_for_rollback current previous activated_at = record previous {
  highest_sequence = current.highest_sequence;
  highest_records_sha256 = current.highest_records_sha256;
  rollback_from_sequence = some current.active_sequence;
  activated_at_utc = some activated_at;
  updated_at_utc = some activated_at;
}
