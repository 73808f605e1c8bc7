-- ===== src/Models.antt =====
-- intel/models.py: the event that is scored and the decision on it.
use vexyl_guard.Prelude.{ℕ, String, Bool, Option, List, ℤ}
pub mod Reading
pub mod RoundTrip
mod Tests
use vexyl_guard.Python.{Fields}

pub record RuntimeAiEvent (F : Type 0) : Type 0 where
  pub event_id : String
  pub timestamp_utc : String
  pub tenant_id : Option String
  pub tenant_id_hash : Option String
  pub user_id_hash : Option String
  pub session_id_hash : Option String
  pub model_provider : Option String
  pub model_name : Option String
  pub input_channel : String
  pub data_origin : String
  pub text_excerpt_redacted : Option String
  pub full_text_ref : Option String
  pub retrieved_doc_ids : List String
  pub tool_name : Option String
  pub tool_action : Option String
  pub tool_permissions : List String
  pub data_classification : String
  pub planned_actions : List String
  pub network_destination : Option String
  pub cost_estimate : F
  pub token_count_estimate : ℤ
  pub verified_mitigations : List String
  pub context : Fields F

pub record RiskDecision : Type 0 where
  pub event_id : String
  pub score : ℕ
  pub suggested_action : String
  pub matched_attack_ids : List String
  pub matched_rules : List String
  pub reasons : List String
  pub mitigations_applied : List String
  pub trust_level : String
  pub redacted_excerpt : Option String
  pub deny_tool_call : Bool
  pub correlation_scope : Option String
  pub correlation_window_seconds : ℤ
  pub correlated_event_count : ℕ
