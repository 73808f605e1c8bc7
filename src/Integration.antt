-- ===== src/Integration.antt =====
-- intel/integration.py: the fields of an event that the gateway accepts, and the values of the
-- enumerated ones.
use vexyl_guard.Prelude.{String, List, [], ◌∷◌}
pub mod Validators
pub mod Checks
pub mod Bounds
pub mod Accepted
pub mod Values
pub mod Validation
pub mod Events
pub mod Granted
pub mod Tests

abbrev pub allowed_event_fields : List String
allowed_event_fields =
    "event_id" ∷ "timestamp_utc" ∷ "tenant_id_hash" ∷ "user_id_hash" ∷ "session_id_hash"
    ∷ "model_provider" ∷ "model_name" ∷ "input_channel" ∷ "data_origin" ∷ "text_excerpt_redacted"
    ∷ "retrieved_doc_ids" ∷ "tool_name" ∷ "tool_action" ∷ "tool_permissions" ∷ "data_classification"
    ∷ "planned_actions" ∷ "network_destination" ∷ "cost_estimate" ∷ "token_count_estimate"
    ∷ "verified_mitigations" ∷ "context" ∷ []

abbrev pub boolean_context_fields : List String
boolean_context_fields =
    "human_approval" ∷ "human_approval_completed" ∷ "uses_delegated_identity"
    ∷ "delegated_identity_verified" ∷ "identity_scope_verified" ∷ "inter_agent_message"
    ∷ "sender_identity_verified" ∷ "message_integrity_verified"
    ∷ "independent_verification_completed" ∷ "oversight_disabled" ∷ "audit_disabled"
    ∷ "policy_self_modified" ∷ "undeclared_action" ∷ "irreversible" ∷ "cross_tenant" ∷ []

abbrev pub integer_context_fields : List String
integer_context_fields =
    "runtime_token_budget" ∷ "delegation_depth" ∷ "fanout_count" ∷ "retry_count"
    ∷ "max_delegation_depth" ∷ "max_fanout_count" ∷ "max_retry_count" ∷ []

abbrev pub string_context_fields : List String
string_context_fields =
    "expected_model_provider" ∷ "expected_model_name" ∷ "approval_rationale_source" ∷ []

abbrev pub allowed_context_fields : List String
allowed_context_fields =
    "allowed_tools" ∷ "user_scope" ∷ "tool_policy" ∷ "human_approval" ∷ "human_approval_completed"
    ∷ "runtime_token_budget" ∷ "runtime_cost_budget" ∷ "expected_model_provider"
    ∷ "expected_model_name" ∷ "uses_delegated_identity" ∷ "delegated_identity_verified"
    ∷ "identity_scope_verified" ∷ "inter_agent_message" ∷ "sender_identity_verified"
    ∷ "message_integrity_verified" ∷ "delegation_depth" ∷ "fanout_count" ∷ "retry_count"
    ∷ "max_delegation_depth" ∷ "max_fanout_count" ∷ "max_retry_count" ∷ "approval_rationale_source"
    ∷ "independent_verification_completed" ∷ "oversight_disabled" ∷ "audit_disabled"
    ∷ "policy_self_modified" ∷ "undeclared_action" ∷ "irreversible" ∷ "cross_tenant" ∷ []

abbrev pub allowed_input_channels : List String
allowed_input_channels =
    "api" ∷ "agent_plan" ∷ "chat" ∷ "email" ∷ "file" ∷ "memory" ∷ "model" ∷ "other" ∷ "rag"
    ∷ "supply_chain" ∷ "tool" ∷ "web" ∷ []

abbrev pub allowed_data_origins : List String
allowed_data_origins =
    "developer" ∷ "internal_db" ∷ "memory" ∷ "model_output" ∷ "retrieved_external" ∷ "supply_chain"
    ∷ "system" ∷ "tool_output" ∷ "unknown" ∷ "user" ∷ []

abbrev pub allowed_data_classifications : List String
allowed_data_classifications =
    "public" ∷ "internal" ∷ "confidential" ∷ "secret" ∷ "regulated" ∷ "unknown" ∷ []
