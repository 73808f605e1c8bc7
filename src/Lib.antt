-- ===== src/Lib.antt =====
-- Vexyl Guard: the validation of events, the decisions of the runtime scoring and their history, the
-- explanations of decisions, and the activation of signed intelligence.
--
-- The program scores an event of an AI application (a message, a retrieved document, a plan, a tool
-- call) from 0 to 100 and says whether a tool call is denied; a gateway turns the decision into an
-- exit code, which the client acts on. An application builds the event, the gateway validates it, the
-- scoring reads an index of attacks and the recent events of the same scope from a database, and the
-- event is stored with its decision. The index is replaced by signed bundles, which can be rolled
-- back.
--
-- Prelude holds what the modules share: tests, lists, signed integers and Python's texts. Python is
-- the type of JSON values, with floats and the standard library as parameters, and the coercions of
-- intel/scoring.py. Models has the event and the decision of intel/models.py; its child Reading has
-- `from_dict` and `to_dict`, and RoundTrip the one after the other.
--
-- Scoring is intel/scoring.py. An accumulator is passed through the rules, each of which is a step:
-- Terms holds the tables, Redaction `redact_text`, Predicates the tests on an event, Accumulator
-- the class `_RiskAccumulator`, ToolPolicy `evaluate_tool_policy`, Plan the plan's scope and the
-- mitigations, Agentic the agentic and the model's policy, Correlation
-- `evaluate_runtime_correlation`, Stages the stages of `score_ai_event`, Event their order, and Entry
-- `scan_prompt`, `scan_external_content` and `evaluate_tool_call`.
-- Keeps and its children show which predicates of the accumulator every stage keeps; Invariants,
-- Outcome, Authorization, Calls, Chains, Boundaries, Untrusted and Report draw the conclusions
-- on decisions; Credits and Excerpt are about the mitigations and the redacted text.
--
-- Runtime is the runtime history of intel/database.py: Facts reduces the values that are stored,
-- Flags is `_runtime_event_flags`, Store the table and `record_runtime_event`, Load
-- `load_runtime_history` and the status, and Session `score_and_record_ai_event` of
-- intel/scoring.py. Selection, Isolation and Retention are about the query and the table,
-- Fingerprint about the content's fingerprint, Linked and Chain about a session, from the recording
-- of an event to the score of a later one.
--
-- Integration is intel/integration.py: Validators has the checks of an event's dictionary, Events
-- the builders. Checks, Accepted, Values and Validation say what a validated event is, and Granted
-- follows a tool call from its builder to the decision.
--
-- Explanations is intel/explanations.py: its tables, Document (`decision_from_document`), Factors and
-- Explain (`explain_decision`); Parsed, Distinct and Explained are about their results.
--
-- Gateway has the exit code of intel/gateway.py, its Handler `do_POST`, and Replies when this
-- answers with a decision; Service puts the validation and the recording in its place. Client is
-- the check of a response in intel/client.py: Acceptance says what it guarantees, Agreement compares
-- its tables with the scoring's. Middleware is the guard of intel/middleware.py and its ASGI call
-- (Guarding, Asgi). Outcome is the result of a call that may raise.
--
-- Updates is intel/updates.py: Values and Bundle have `verify_intel_bundle`, Trust and Verified
-- what it gives, and Installed takes this to the activation. State has the row of the active
-- bundle and the checks on sequences, Store the two database files and the steps on them,
-- Operations the calls, and Seeds the check of a record from intel/database.py. What SQLite and
-- the file system refuse is a fault that each call is given, before or after the files have
-- changed; so is a state that cannot be read and is taken for empty. Specification and Reversal
-- describe what a call may do; HighWater, Restore, Soundness and Progress rest on these
-- descriptions.
--
-- All loops are structural recursion, on lists and on texts; there is no fuel. The numbers of
-- the scoring are Python's, without a bound; the history's window is cut to 60 to 86,400
-- seconds, its rows to 1 to 2,000, and the retention to 1 to 720 hours, as in the code. SQL is
-- read as what its statements mean on a list of rows, the times as counts of seconds. The attack
-- index and the seeding of the intelligence tables are arguments. Regular expressions, SHA-256,
-- OpenSSL, Base64 and the calendar are parameters. The schema's migrations, the seeding of the
-- database, the command line, the network, the host's agent and the other languages are not
-- modelled.
pub mod Prelude
pub mod Outcome
pub mod Python
pub mod Models
pub mod Explanations
pub mod Integration
pub mod Runtime
pub mod Scoring
pub mod Updates
pub mod Gateway
pub mod Client
pub mod Middleware
