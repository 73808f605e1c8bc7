-- ===== src/Scoring.antt =====
-- intel/scoring.py, in parts: tables, redaction, predicates on an event, the accumulator, the policy
-- stages, and the whole of `score_ai_event`. The proofs are in the modules that are named for them.
pub mod Terms
pub mod Redaction
pub mod Accumulator
pub mod Predicates
pub mod ToolPolicy
pub mod Plan
pub mod Agentic
pub mod Correlation
pub mod Stages
pub mod Event
pub mod Entry
pub mod Keeps
pub mod Invariants
pub mod Outcome
pub mod Authorization
pub mod Chains
pub mod Run
mod Tests
pub mod Boundaries
pub mod Untrusted
pub mod Calls
pub mod Report
pub mod Excerpt
pub mod Credits
