-- ===== src/Explanations.antt =====
-- The tables of intel/explanations.py, and the explanation that it builds.
use vexyl_guard.Prelude.{ℕ, String, List, [], ◌∷◌, Option, ℤ}
pub mod Document
pub mod Factors
pub mod Explain
pub mod Parsed
pub mod Distinct
pub mod Explained
mod Tests

-- `ExplanationFactor` and `DecisionExplanation` of intel/models.py; the schemas and what the
-- explanation says of privacy are constants, but for `event_ref`.
pub record ExplanationFactor : Type 0 where
  pub code : String
  pub category : String
  pub title : String
  pub detail : String
  pub effect : String
  pub attack_id : Option String
  pub severity : Option ℤ

pub record DecisionExplanation : Type 0 where
  pub event_ref : Option String
  pub score : ℕ
  pub risk_band : String
  pub outcome : String
  pub policy_exit_code : ℕ
  pub suggested_action : String
  pub operator_summary : String
  pub trust_level : String
  pub factors : List ExplanationFactor
  pub next_steps : List String
  pub omitted_factor_count : ℕ

-- A row of a table: its key and what is said for it.
pub record Definition : Type 0 where
  pub key : String
  pub defined_code : String
  pub defined_title : String
  pub defined_detail : String

abbrev definition : String → String → String → String → Definition
definition k c t d = record { key = k; defined_code = c; defined_title = t; defined_detail = d }

abbrev pub max_rule_factors : ℕ
max_rule_factors = 96

unfoldable pub context_factors : List Definition
context_factors =
    definition "Event content originated outside the trusted control plane."
      "context:external_origin" "External content"
      "The input originated outside the trusted control plane."
    ∷ definition "Event can influence a tool or external capability." "context:tool_capability"
        "Tool capability" "The event can influence a tool or another external capability."
    ∷ definition "Network egress is present." "context:network_egress" "Network egress"
        "The action includes an outbound network boundary."
    ∷ definition "Event may persist into memory or long-term context." "context:memory_persistence"
        "Persistent context" "The event may be written into memory or another persistent context."
    ∷ definition "High-impact or irreversible action is present." "context:high_impact_action"
        "High-impact action"
        "The plan or tool action may be difficult to reverse or materially consequential."
    ∷ definition "Cross-tenant access risk is present." "context:cross_tenant_boundary"
        "Cross-tenant boundary"
        "The event indicates a possible boundary between tenant data scopes."
    ∷ definition "Large token volume increases cost and availability risk."
        "context:large_token_volume" "Large token volume"
        "Estimated token use is high enough to affect cost or availability."
    ∷ definition "Extreme token or cost estimate requires a hard budget gate."
        "context:hard_budget_gate" "Hard budget gate"
        "Estimated consumption crossed the configured hard-gate range."
    ∷ definition "Elevated model/API cost estimate." "context:elevated_cost"
        "Elevated cost estimate" "Estimated model or API cost is above the normal low-cost range."
    ∷ []

-- The code of a mitigation's factor is `mitigation:` and its name.
unfoldable pub mitigation_factors : List Definition
mitigation_factors =
    definition "sandbox" "mitigation:sandbox" "Sandbox"
      "A verified sandbox control reduced the assessed risk."
    ∷ definition "sandboxing" "mitigation:sandboxing" "Sandboxing"
        "A verified sandboxing control reduced the assessed risk."
    ∷ definition "tool_sandbox" "mitigation:tool_sandbox" "Tool sandbox"
        "A verified tool sandbox reduced the assessed risk."
    ∷ definition "signed_trusted_corpus" "mitigation:signed_trusted_corpus" "Signed trusted corpus"
        "Verified corpus signing reduced the assessed content risk."
    ∷ definition "signed_corpus" "mitigation:signed_corpus" "Signed corpus"
        "Verified corpus signing reduced the assessed content risk."
    ∷ definition "scoped_read_only_credentials" "mitigation:scoped_read_only_credentials"
        "Scoped read-only credentials"
        "Verified read-only credential scope reduced the assessed action risk."
    ∷ definition "read_only_credentials" "mitigation:read_only_credentials" "Read-only credentials"
        "Verified read-only credentials reduced the assessed action risk."
    ∷ definition "human_approval" "mitigation:human_approval" "Human approval"
        "Verified human approval reduced the assessed action risk."
    ∷ definition "human_approval_completed" "mitigation:human_approval_completed"
        "Completed human approval"
        "A completed human approval step reduced the assessed action risk."
    ∷ definition "policy_verifier" "mitigation:policy_verifier" "Policy verifier"
        "An independent policy verifier reduced the assessed risk."
    ∷ definition "egress_deny_by_default" "mitigation:egress_deny_by_default"
        "Egress denied by default"
        "A verified deny-by-default egress control reduced the assessed risk."
    ∷ definition "tool_allowlist" "mitigation:tool_allowlist" "Tool allowlist"
        "A verified tool allowlist reduced the assessed action risk."
    ∷ definition "tenant_isolation" "mitigation:tenant_isolation" "Tenant isolation"
        "Verified tenant isolation reduced the assessed data-boundary risk."
    ∷ []
