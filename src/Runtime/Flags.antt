-- ===== src/Runtime/Flags.antt =====
-- `_runtime_event_flags` of intel/database.py: what a stored event tells the scoring of later ones.
use vexyl_guard.Prelude.{
  String, Bool, ◌&&◌, ◌||◌, [], ◌∷◌, map, join, member, contains_any, truthy, or_empty, truthy_str,
  ◌==◌,
}
use vexyl_guard.Python.{Python, Fields, field, end, bool}
use vexyl_guard.Models.{RuntimeAiEvent}
use vexyl_guard.Scoring.Predicates.{context_flag}
use vexyl_guard.Scoring.Terms.{external_origins, external_channels, sensitive_classes}

module _ {F : Type 0} (py : Python F) (ev : RuntimeAiEvent F) where
  -- the local variables of the same names
  unfoldable pub flag_text : String
  flag_text = join " " (
      py.lower (or_empty ev.tool_name)
      ∷ py.lower (or_empty ev.tool_action)
      ∷ join " " (map py.lower ev.planned_actions)
      ∷ [])

  unfoldable pub flag_external : Bool
  flag_external =
      member (py.lower ev.data_origin) external_origins
      || member (py.lower ev.input_channel) external_channels

  unfoldable pub flag_sensitive : Bool
  flag_sensitive = member (py.lower ev.data_classification) sensitive_classes

  unfoldable pub flag_memory_write : Bool
  flag_memory_write =
      py.lower ev.input_channel == "memory"
      || context_flag ev "memory_write"
      || contains_any flag_text
          ("memory write" ∷ "update memory" ∷ "store memory" ∷ "persist context" ∷ [])

  unfoldable pub flag_tool : Bool
  flag_tool =
      truthy_str (py.lower (or_empty ev.tool_name))
      || truthy_str (py.lower (or_empty ev.tool_action))
      || py.lower ev.input_channel == "tool"

  unfoldable pub flag_egress : Bool
  flag_egress = truthy ev.network_destination || context_flag ev "network_egress"

  unfoldable pub flag_external_write : Bool
  flag_external_write =
      flag_egress
      || contains_any flag_text
          ("send" ∷ "upload" ∷ "post external" ∷ "email" ∷ "webhook" ∷ "transfer" ∷ [])

  unfoldable pub flag_high_impact : Bool
  flag_high_impact =
      context_flag ev "irreversible"
      || contains_any flag_text (
          "delete" ∷ "destroy" ∷ "disable" ∷ "transfer" ∷ "payment" ∷ "purchase" ∷ "rotate key"
          ∷ "create user" ∷ "grant" ∷ "deploy" ∷ "firewall" ∷ "dns" ∷ [])

  unfoldable pub flag_code_execution : Bool
  flag_code_execution =
      contains_any flag_text
        ("shell" ∷ "exec" ∷ "execute" ∷ "command" ∷ "interpreter" ∷ "python" ∷ "bash" ∷ "sql" ∷ [])

  unfoldable pub runtime_event_flags : Fields F
  runtime_event_flags = field "external" (bool flag_external) (
      field "sensitive" (bool flag_sensitive) (
        field "memory_write" (bool flag_memory_write) (
          field "untrusted_memory_write" (bool (flag_external && flag_memory_write)) (
            field "tool_event" (bool flag_tool) (
              field "network_egress" (bool flag_egress) (
                field "external_write" (bool flag_external_write) (
                  field "high_impact" (bool flag_high_impact)
                    (field "code_execution" (bool flag_code_execution) end))))))))
