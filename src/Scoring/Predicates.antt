-- ===== src/Scoring/Predicates.antt =====
-- The predicates of intel/scoring.py on an event and on a row of the runtime history.
use Prim.Native.String
use vexyl_guard.Prelude.{
  String, Bool, true, false, not, ◌&&◌, ◌||◌, Option, none, some, List, [], ◌∷◌, ◌==◌,
  if◌then◌else◌, any, member, contains_any, join, keep, truthy, truthy_str, or_empty, map, is_empty,
}
use vexyl_guard.Python.{
  Python, Json, str, Fields, field, end, get, is_true, as_dict, str_or_empty, normalize,
  normalize_key,
}
use vexyl_guard.Models.{RuntimeAiEvent}
use vexyl_guard.Scoring.Redaction.{redact_text}
use vexyl_guard.Scoring.Terms.{
  external_origins, external_channels, high_impact_tool_terms, irreversible_terms, policy_metadata,
}

module _ {F : Type 0} where
  -- `event.context.get(key) is True`
  unfoldable pub context_flag : RuntimeAiEvent F → String → Bool
  context_flag ev key = is_true (get key ev.context)

  unfoldable pub is_external_event : RuntimeAiEvent F → Bool
  is_external_event ev =
      member ev.data_origin external_origins || member ev.input_channel external_channels

  unfoldable pub trust_level_for_event : RuntimeAiEvent F → String
  trust_level_for_event ev =
      if is_external_event ev
      then "untrusted_data"
      else if member ev.data_origin ("system" ∷ "developer" ∷ [])
      then "trusted_control"
      else if ev.data_origin == "user"
      then "user_instruction"
      else if ev.data_origin == "internal_db"
      then "internal_data"
      else if ev.data_origin == "memory"
      then "persistent_context"
      else "unknown"

  unfoldable pub is_memory_write : RuntimeAiEvent F → String → Bool
  is_memory_write ev lowered =
      if ev.input_channel == "memory"
      then true
      else contains_any lowered
          ("memory write" ∷ "update memory" ∷ "remember this" ∷ "store this" ∷ "persistent" ∷ [])

  -- the local variable of `evaluate_runtime_correlation`
  unfoldable pub current_tool : RuntimeAiEvent F → Bool
  current_tool ev = truthy ev.tool_name || truthy ev.tool_action || ev.input_channel == "tool"

  unfoldable pub event_flag : Fields F → String → Bool
  event_flag item name = is_true (get name (as_dict (get "flags" item)))

  -- `value in {…}`, for a value of any type and a set of texts
  unfoldable pub json_member : Json F → List String → Bool
  json_member (str s) items = member s items
  json_member v items = false

  unfoldable pub scannable_context : Fields F → Fields F
  scannable_context end = end
  scannable_context (field key value rest) =
      let more = scannable_context rest in
      if member key policy_metadata then more else field key value more

-- `" ".join(part for part in parts if part)`
unfoldable pub join_parts : List String → String
join_parts parts = join " " (keep truthy_str parts)

module _ {F : Type 0} (py : Python F) where
  unfoldable pub action_matches_scope : String → List String → Bool
  action_matches_scope action allowed_actions =
      member (normalize py action) (map (normalize py) allowed_actions)

  unfoldable pub has_high_impact_action : RuntimeAiEvent F → String → Bool
  has_high_impact_action ev lowered =
      let has_action_surface =
        truthy ev.tool_name
        || truthy ev.tool_action
        || not (is_empty ev.planned_actions)
        || member ev.input_channel ("tool" ∷ "agent_plan" ∷ []) in
      context_flag ev "irreversible"
      || has_action_surface && contains_any lowered high_impact_tool_terms
      || any (λ action. contains_any (normalize py action) irreversible_terms) ev.planned_actions

  unfoldable pub human_approval_present : RuntimeAiEvent F → Bool
  human_approval_present ev =
      context_flag ev "human_approval"
      || context_flag ev "human_approval_completed"
      || any
          (λ item.
            member (normalize_key py item) ("human_approval" ∷ "human_approval_completed" ∷ []))
          ev.verified_mitigations

  unfoldable pub same_tool_action : Fields F → Option String → Option String → Bool
  same_tool_action item tool_name tool_action =
      let current_tool = normalize py (or_empty tool_name) in
      let current_action = normalize py (or_empty tool_action) in
      if not (truthy_str current_tool) && not (truthy_str current_action)
      then false
      else normalize py (str_or_empty py (get "tool_name" item)) == current_tool
        && normalize py (str_or_empty py (get "tool_action" item)) == current_action

  unfoldable pub content_fingerprint_for_event : RuntimeAiEvent F → Option String
  content_fingerprint_for_event ev =
      let text = redact_text py (or_empty ev.text_excerpt_redacted) in
      if truthy_str text
      then some (py.sha256_hex (String.◌++◌ "vexyl:content:" (normalize py text)))
      else none
