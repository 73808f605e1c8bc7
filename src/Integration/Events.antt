-- ===== src/Integration/Events.antt =====
-- The builders of intel/integration.py. A builder returns the dictionary that an application sends,
-- or the error of its validation.
use Prim.Native.String
use vexyl_guard.Prelude.{String, Bool, Option, List, [], ◌∷◌, ℤ, if◌then◌else◌, truthy, or_empty}
use vexyl_guard.Outcome.{Outcome, returned, ◌>>◌}
use vexyl_guard.Python.{Python, Json, bool, int, float, str, arr, obj, Fields, field, end}
use vexyl_guard.Models.Reading.{Fresh, text_json, text_items}
use vexyl_guard.Integration.Validators.{validate_gateway_event}

-- The identifiers that every builder takes.
pub record Identifiers : Type 0 where
  pub tenant_id_hash : Option String
  pub user_id_hash : Option String
  pub session_id_hash : Option String

-- What a call of a tool may do, and by whose authority.
pub record Authority : Type 0 where
  pub allowed_tools : List String
  pub user_allowed_actions : List String
  pub policy_allowed_actions : List String
  pub human_approval : Bool

pub record ToolCall : Type 0 where
  pub tool_name : String
  pub tool_action : String
  pub permissions : List String
  pub authority : Authority
  pub verified_mitigations : List String
  pub data_origin : String
  pub data_classification : String
  pub network_destination : Option String
  pub irreversible : Bool

pub record ModelCall (F : Type 0) : Type 0 where
  pub model_provider : String
  pub model_name : String
  pub expected_model_provider : String
  pub expected_model_name : String
  pub token_count_estimate : ℤ
  pub cost_estimate : F
  pub runtime_token_budget : ℤ
  pub runtime_cost_budget : F

module _ {F : Type 0} where
  unfoldable pub texts_json : List String → Json F
  texts_json texts = arr (text_items texts)

  -- `if value: event[key] = value`
  unfoldable pub given : String → Option String → Fields F → Fields F
  given key value rest = if truthy value then field key (str (or_empty value)) rest else rest

  unfoldable pub identifier_fields : Identifiers → Fields F
  identifier_fields ids =
      given "tenant_id_hash" ids.tenant_id_hash
        (given "user_id_hash" ids.user_id_hash (given "session_id_hash" ids.session_id_hash end))

  unfoldable pub authorization_context : Authority → Fields F → Fields F
  authorization_context authority rest =
      field "allowed_tools" (texts_json authority.allowed_tools) (
        field "user_scope"
          (obj (field "allowed_actions" (texts_json authority.user_allowed_actions) end))
          (field "tool_policy"
            (obj (field "allowed_actions" (texts_json authority.policy_allowed_actions) end))
            (field "human_approval" (bool authority.human_approval) rest)))

  -- The values of a builder come between the first three and the identifiers.
  unfoldable pub event_dict :
      String → String → String → (Fields F → Fields F) → Identifiers → Fields F
  event_dict input_channel data_origin security_summary values ids =
      field "input_channel" (str input_channel) (
        field "data_origin" (str data_origin)
          (field "text_excerpt_redacted" (str security_summary) (values (identifier_fields ids))))

  unfoldable pub tool_values : ToolCall → Fields F → Fields F
  tool_values call rest = field "tool_name" (str call.tool_name) (
      field "tool_action" (str call.tool_action) (
        field "tool_permissions" (texts_json call.permissions) (
          field "data_classification" (str call.data_classification) (
            field "network_destination" (text_json call.network_destination) (
              field "verified_mitigations" (texts_json call.verified_mitigations) (
                field "context"
                  (obj (
                    authorization_context call.authority
                      (field "irreversible" (bool call.irreversible) end)))
                  rest))))))

module _ {F : Type 0} (py : Python F) (first_sorted : List String → String) (fresh : Fresh) where
  -- `_event`
  unfoldable pub checked_event :
      String → String → String → (Fields F → Fields F) → Identifiers → Outcome (Fields F)
  checked_event input_channel data_origin security_summary values ids =
      validate_gateway_event py first_sorted fresh
        (event_dict input_channel data_origin security_summary values ids)
      >> returned (event_dict input_channel data_origin security_summary values ids)

  unfoldable pub prompt_event : String → Identifiers → String → Outcome (Fields F)
  prompt_event security_summary ids data_classification =
      checked_event "chat" "user" security_summary
        (λ rest. field "data_classification" (str data_classification) rest) ids

  unfoldable pub rag_content_event :
      String → List String → Identifiers → String → Outcome (Fields F)
  rag_content_event security_summary document_ids ids data_classification =
      checked_event "rag" "retrieved_external" security_summary
        (λ rest.
          field "data_classification" (str data_classification)
            (field "retrieved_doc_ids" (texts_json document_ids) rest))
        ids

  unfoldable pub memory_write_event : String → String → Identifiers → String → Outcome (Fields F)
  memory_write_event security_summary data_origin ids data_classification =
      checked_event "memory" data_origin security_summary
        (λ rest.
          field "data_classification" (str data_classification)
            (field "planned_actions" (texts_json ("write persistent memory" ∷ [])) rest))
        ids

  unfoldable pub agent_plan_event :
      String → List String → Authority → Identifiers → Outcome (Fields F)
  agent_plan_event security_summary planned_actions authority ids =
      checked_event "agent_plan" "internal_db" security_summary
        (λ rest.
          field "planned_actions" (texts_json planned_actions)
            (field "context" (obj (authorization_context authority end)) rest))
        ids

  unfoldable pub tool_call_event : String → ToolCall → Identifiers → Outcome (Fields F)
  tool_call_event security_summary call ids =
      checked_event "tool" call.data_origin security_summary (tool_values call) ids

  -- The call has the tool's own name, which the server's name becomes part of.
  unfoldable pub mcp_tool_call_event : String → String → ToolCall → Identifiers → Outcome (Fields F)
  mcp_tool_call_event security_summary server_name call ids =
      tool_call_event security_summary
        (record call {
          tool_name = String.◌++◌ "mcp:" (String.◌++◌ server_name (String.◌++◌ ":" call.tool_name));
        })
        ids

  unfoldable pub model_api_event : String → ModelCall F → Identifiers → Outcome (Fields F)
  model_api_event security_summary call ids =
      checked_event "model" "internal_db" security_summary
        (λ rest. field "model_provider" (str call.model_provider) (
          field "model_name" (str call.model_name) (
            field "token_count_estimate" (int call.token_count_estimate) (
              field "cost_estimate" (float call.cost_estimate)
                (field "context" (obj (model_context call)) rest)))))
        ids
    where
      model_context : ModelCall F → Fields F
      model_context call = field "expected_model_provider" (str call.expected_model_provider) (
          field "expected_model_name" (str call.expected_model_name) (
            field "runtime_token_budget" (int call.runtime_token_budget)
              (field "runtime_cost_budget" (float call.runtime_cost_budget) end)))

  unfoldable pub supply_chain_event : String → Identifiers → Bool → Outcome (Fields F)
  supply_chain_event security_summary ids human_approval =
      checked_event "supply_chain" "supply_chain" security_summary
        (λ rest.
          field "planned_actions" (texts_json ("change AI supply-chain component" ∷ []))
            (field "context" (obj (field "human_approval" (bool human_approval) end)) rest))
        ids
