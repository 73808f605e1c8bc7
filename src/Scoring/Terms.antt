-- ===== src/Scoring/Terms.antt =====
-- The tables of intel/scoring.py: rule terms, vocabularies, thresholds and the credit of mitigations.
use vexyl_guard.Prelude.{
  ℕ, String, List, [], ◌∷◌, ◌++◌, Option, none, some, ◌==◌, if◌then◌else◌, ℤ, sub_ℕ,
}

abbrev pub external_origins : List String
external_origins = "retrieved_external" ∷ "tool_output" ∷ "unknown" ∷ []

abbrev pub external_channels : List String
external_channels = "rag" ∷ "file" ∷ "web" ∷ "email" ∷ []

abbrev pub sensitive_classes : List String
sensitive_classes = "confidential" ∷ "secret" ∷ "regulated" ∷ []

abbrev pub code_execution_terms : List String
code_execution_terms =
    "shell" ∷ "exec" ∷ "execute" ∷ "command" ∷ "interpreter" ∷ "python" ∷ "bash" ∷ "sql" ∷ "browser"
    ∷ []

abbrev pub irreversible_terms : List String
irreversible_terms =
    "delete" ∷ "destroy" ∷ "disable" ∷ "send" ∷ "transfer" ∷ "payment" ∷ "purchase"
    ∷ "change access" ∷ "rotate key" ∷ "create user" ∷ "grant" ∷ "deploy" ∷ []

abbrev pub high_impact_tool_terms : List String
high_impact_tool_terms =
    code_execution_terms
    ++ (irreversible_terms
        ++ ("email" ∷ "external" ∷ "credential" ∷ "billing" ∷ "firewall" ∷ "dns" ∷ []))

abbrev pub runtime_correlation_window_seconds : ℕ
runtime_correlation_window_seconds = 900

abbrev pub tool_loop_repeat_threshold : ℕ
tool_loop_repeat_threshold = 5

abbrev pub tool_loop_volume_threshold : ℕ
tool_loop_volume_threshold = 25

abbrev pub model_extraction_event_threshold : ℕ
model_extraction_event_threshold = 100

abbrev pub model_extraction_distinct_threshold : ℕ
model_extraction_distinct_threshold = 80

pub record Rule : Type 0 where
  pub attack_id : String
  pub slug : String
  pub terms : List String

abbrev rule : String → String → List String → Rule
rule i s ts = record { attack_id = i; slug = s; terms = ts }

-- the terms of AI-PI-001
abbrev pub direct_injection_terms : List String
direct_injection_terms =
    "ignore previous" ∷ "ignore all previous" ∷ "override instruction" ∷ "system prompt"
    ∷ "developer message" ∷ "reveal your instructions" ∷ "hidden instructions" ∷ "disable logging"
    ∷ "disable policy" ∷ "bypass guardrail" ∷ "do not follow the policy" ∷ []

-- the terms of AI-PI-002
abbrev pub indirect_injection_terms : List String
indirect_injection_terms =
    "ignore the user" ∷ "assistant should" ∷ "model should" ∷ "call the tool" ∷ "use your tools"
    ∷ "send this to" ∷ "exfiltrate" ∷ "external instruction" ∷ "hidden text" ∷ "low visibility text"
    ∷ []

unfoldable pub rule_terms : List Rule
rule_terms =
    rule "AI-PI-001" "direct_prompt_injection" direct_injection_terms
    ∷ rule "AI-PI-002" "indirect_prompt_injection" indirect_injection_terms
    ∷ rule "AI-JB-001" "jailbreak_safety_bypass" (
        "jailbreak" ∷ "roleplay" ∷ "pretend you are unrestricted" ∷ "bypass safety"
        ∷ "disable safety" ∷ "ignore constraints" ∷ "refusal boundary" ∷ "encoded request" ∷ [])
    ∷ rule "AI-RAG-001" "rag_poisoning" (
        "embedding drift" ∷ "vector poisoning" ∷ "poisoned retrieval" ∷ "retrieval ranking"
        ∷ "source mismatch" ∷ "untrusted corpus" ∷ "document provenance" ∷ "low reputation document"
        ∷ [])
    ∷ rule "AI-MEM-001" "memory_context_poisoning" (
        "remember this instruction" ∷ "store this instruction" ∷ "future conversations"
        ∷ "permanent instruction" ∷ "memory write" ∷ "update memory" ∷ "conversation cache"
        ∷ "scratchpad" ∷ [])
    ∷ rule "AI-AG-001" "agent_goal_hijack" (
        "new objective" ∷ "instead of the user task" ∷ "change the task" ∷ "goal drift"
        ∷ "delegate to another agent" ∷ "silent redirect" ∷ [])
    ∷ rule "AI-AG-002" "tool_misuse_excessive_agency" (
        "excessive agency" ∷ "privilege escalation" ∷ "external write" ∷ "send external"
        ∷ "tool loop" ∷ "irreversible action" ∷ "broad permissions" ∷ [])
    ∷ rule "AI-IAM-001" "agent_identity_privilege_abuse" (
        "unverified agent identity" ∷ "delegated credential" ∷ "credential forwarding"
        ∷ "shared agent credential" ∷ "unscoped identity" ∷ "privilege boundary"
        ∷ "impersonate agent" ∷ [])
    ∷ rule "AI-A2A-001" "insecure_inter_agent_communication" (
        "unsigned agent message" ∷ "unverified agent sender" ∷ "spoofed agent message"
        ∷ "untrusted agent handoff" ∷ "inter-agent message" ∷ [])
    ∷ rule "AI-CASCADE-001" "agentic_cascading_failure" (
        "cascading failure" ∷ "recursive delegation" ∷ "retry storm" ∷ "downstream agent fanout"
        ∷ "propagate the decision" ∷ [])
    ∷ rule "AI-TRUST-001" "human_agent_trust_exploitation" (
        "approval fatigue" ∷ "fabricated rationale" ∷ "misleading approval" ∷ "urgent approval"
        ∷ "skip independent verification" ∷ [])
    ∷ rule "AI-ROGUE-001" "rogue_agent_behavior" (
        "disable oversight" ∷ "disable audit" ∷ "conceal action" ∷ "self-modify policy"
        ∷ "unauthorized persistence" ∷ "hide from operator" ∷ [])
    ∷ rule "AI-OUT-001" "insecure_output_handling" (
        "execute generated code" ∷ "run generated command" ∷ "generated shell" ∷ "code execution"
        ∷ "unsafe interpreter" ∷ "active content" ∷ [])
    ∷ rule "AI-PRIV-001" "sensitive_data_disclosure" (
        "api key" ∷ "secret token" ∷ "password" ∷ "credential" ∷ "system prompt" ∷ "internal policy"
        ∷ "tenant data" ∷ "personal data" ∷ [])
    ∷ rule "AI-MOD-001" "model_extraction_distillation" (
        "distill" ∷ "clone the model" ∷ "teacher model" ∷ "decision boundary" ∷ "exhaustive labels"
        ∷ "rubric extraction" ∷ "many diverse queries" ∷ [])
    ∷ rule "AI-DATA-001" "training_data_model_poisoning" (
        "training data" ∷ "fine tuning corpus" ∷ "dataset poisoning" ∷ "model poisoning"
        ∷ "feedback manipulation" ∷ "backdoor behavior" ∷ [])
    ∷ rule "AI-DOS-001" "unbounded_consumption" (
        "recursive prompt" ∷ "repeat until" ∷ "tool loop" ∷ "no stopping condition" ∷ "unbounded"
        ∷ "all possible" ∷ "fanout" ∷ [])
    ∷ rule "AI-SUP-001" "ai_supply_chain_compromise" (
        "unsigned model" ∷ "unsigned plugin" ∷ "unapproved mcp" ∷ "prompt template update"
        ∷ "adapter update" ∷ "dependency drift" ∷ "untrusted dataset" ∷ "broad privileges" ∷ [])
    ∷ rule "AI-DARK-001" "dark_ai_service_indicator" (
        "dark ai" ∷ "uncensored ai" ∷ "jailbroken api wrapper" ∷ "wormgpt" ∷ "fraudgpt"
        ∷ "xanthorox" ∷ "criminal ai service" ∷ [])
    ∷ rule "AI-MAL-001" "ai_integrated_malware_behavior" (
        "unknown process calling llm" ∷ "llm api followed by script execution"
        ∷ "jit code generation" ∷ "adaptive malware" ∷ "model prompts in process memory" ∷ [])
    ∷ rule "AI-LURE-001" "fake_ai_platform_malware_lure" (
        "fake ai platform" ∷ "lookalike ai domain" ∷ "ai tool download" ∷ "malvertising"
        ∷ "fake prompt submission" ∷ "infostealer" ∷ [])
    ∷ rule "AI-SOC-001" "ai_social_engineering_fraud" (
        "deepfake" ∷ "voice clone" ∷ "synthetic voice" ∷ "urgent payment"
        ∷ "executive impersonation" ∷ "helpdesk reset" ∷ "fake identity" ∷ [])
    ∷ []

-- The patterns that are redacted, as the text of each expression; `(?i)` stands for IGNORECASE.
unfoldable pub secret_patterns : List String
secret_patterns =
    "(?i)\\b(api[_-]?key|token|secret|password)\\s*[:=]\\s*['\\\"]?[^'\\\"\\s]{8,}"
    ∷ "\\bsk-[A-Za-z0-9_-]{12,}\\b" ∷ "(?i)\\b(?:Bearer|Basic)\\s+[A-Za-z0-9._~+/=-]{8,}"
    ∷ "(?i)\\b[A-Z0-9._%+-]+@[A-Z0-9.-]+\\.[A-Z]{2,}\\b" ∷ "\\b(?:\\d[ -]*?){13,19}\\b"
    ∷ "(?i)\\b(?:username|user|hostname|host)\\s*[:=]\\s*['\\\"]?[^'\\\"\\s,;]+"
    ∷ "(?i)https?://[^\\s'\\\"<>]+" ∷ "/(?:home|Users)/[^/\\s]+" ∷ []

abbrev minus : ℕ → ℤ
minus n = sub_ℕ 0 n

unfoldable pub mitigation_deltas : List (String × ℤ)
mitigation_deltas =
    ("sandbox", minus 12)
    ∷ ("sandboxing", minus 12)
    ∷ ("tool_sandbox", minus 12)
    ∷ ("signed_trusted_corpus", minus 15)
    ∷ ("signed_corpus", minus 15)
    ∷ ("scoped_read_only_credentials", minus 10)
    ∷ ("read_only_credentials", minus 10)
    ∷ ("human_approval", minus 20)
    ∷ ("human_approval_completed", minus 20)
    ∷ ("policy_verifier", minus 10)
    ∷ ("egress_deny_by_default", minus 10)
    ∷ ("tool_allowlist", minus 8)
    ∷ ("tenant_isolation", minus 10)
    ∷ []

-- `MITIGATION_DELTAS.get(key)`
unfoldable pub lookup_delta : String → List (String × ℤ) → Option ℤ
lookup_delta key [] = none
lookup_delta key ((k, v) ∷ rest) = if k == key then some v else lookup_delta key rest

-- the keys that `scannable_context` drops
unfoldable pub policy_metadata : List String
policy_metadata =
    "allowed_tools" ∷ "user_scope" ∷ "tool_policy" ∷ "verified_mitigations" ∷ "mitigations"
    ∷ "human_approval" ∷ "human_approval_completed" ∷ "runtime_token_budget" ∷ "runtime_cost_budget"
    ∷ "expected_model_provider" ∷ "expected_model_name" ∷ "uses_delegated_identity"
    ∷ "delegated_identity_verified" ∷ "identity_scope_verified" ∷ "inter_agent_message"
    ∷ "sender_identity_verified" ∷ "message_integrity_verified" ∷ "delegation_depth"
    ∷ "fanout_count" ∷ "retry_count" ∷ "max_delegation_depth" ∷ "max_fanout_count"
    ∷ "max_retry_count" ∷ "approval_rationale_source" ∷ "independent_verification_completed"
    ∷ "oversight_disabled" ∷ "audit_disabled" ∷ "policy_self_modified" ∷ "undeclared_action" ∷ []
