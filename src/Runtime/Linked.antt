-- ===== src/Runtime/Linked.antt =====
-- From the store to the score: an event that was recorded is seen by the later events of its session.
use mathlib.Core.List.Memᴰ
use vexyl_guard.Prelude.{
  ℕ, ◌+◌, ◌≤◌, String, true, false, Option, none, some, List, pos, ◌≡◌, refl, sym, ap, arith, Memᴰ,
  Memᴰ-keep, is_empty-Memᴰ, is_empty, keep, length, eq_refl, map, truthy_str, ◌&&◌,
}
use vexyl_guard.Python.{Python, Fields, get, is_true, as_dict, safe_int, truthy_json}
use vexyl_guard.Models.{RuntimeAiEvent, RiskDecision}
use vexyl_guard.Scoring.Predicates.{event_flag}
use vexyl_guard.Scoring.Accumulator.{AttackIndex, History}
use vexyl_guard.Scoring.Correlation.{risky_external, poisoned_memory, sequence_events}
use vexyl_guard.Runtime.Facts.{optional_fingerprint, privacy_fingerprint}
use vexyl_guard.Runtime.Flags.{runtime_event_flags, flag_external, flag_memory_write}
use vexyl_guard.Runtime.Store.{RuntimeRow, table, Instant, runtime_row}
use vexyl_guard.Runtime.Load.{
  selects, selected_rows, history_item, event_tenant, event_session, same_tenant, column_equals,
  load_runtime_history, load_for, load_scoped, stored_flags, bounded_window, bounded_limit,
}
use vexyl_guard.Runtime.Selection.{Memᴰ-selected_rows}
use vexyl_guard.Runtime.Session.{history_for}

module _ {F : Type 0} (py : Python F) where
  -- Two events of one session, which both name, of the same tenant or both of none.
  pub record SameSession (earlier later : RuntimeAiEvent F) : Type 0 where
    pub tenant : later.tenant_id_hash ≡ earlier.tenant_id_hash
    pub session : String
    pub of_earlier : earlier.session_id_hash ≡ some session
    pub of_later : later.session_id_hash ≡ some session
    pub named : truthy_str session ≡ true

  column_equals_refl : (text : String) → column_equals (some text) (some text) ≡ true
  unfolding column_equals
  column_equals_refl text = eq_refl text

  same_tenant_refl :
      (tenant : Option String) (row : RuntimeRow F)
      → row.tenant_id_hash ≡ tenant
      → same_tenant tenant row ≡ true
  unfolding same_tenant
  same_tenant_refl none row e = rw e refl
  same_tenant_refl (some tenant) row e = rw e (column_equals_refl tenant)

  module _ (earlier later : RuntimeAiEvent F) (s : SameSession earlier later) (instant : Instant)
      (decision : RiskDecision) where
    session-fingerprint : event_session py later ≡ some (privacy_fingerprint py "session" s.session)
    unfolding event_session optional_fingerprint
    session-fingerprint = rw (s.of_later, s.named) refl

    row-session :
        (runtime_row py instant earlier decision).session_id_hash
        ≡ some (privacy_fingerprint py "session" s.session)
    unfolding runtime_row optional_fingerprint
    row-session = rw (s.of_earlier, s.named) refl

    row-tenant : (runtime_row py instant earlier decision).tenant_id_hash ≡ event_tenant py later
    unfolding runtime_row event_tenant
    row-tenant = ap (optional_fingerprint py "tenant") (sym s.tenant)

    own_session :
        column_equals
          (runtime_row py instant earlier decision).session_id_hash
          (event_session py later)
        ≡ true
    own_session = rw (session-fingerprint, row-session) (column_equals_refl _)

    row-selects :
        (window now : ℕ)
        → now ≤ instant.recorded_at + window
        → selects py later window now (runtime_row py instant earlier decision) ≡ true
    unfolding selects runtime_row
    row-selects window now recent =
        rw
          (
            same_tenant_refl (event_tenant py later) (runtime_row py instant earlier decision)
                row-tenant,
            own_session,
          )
          (ground arith)

    history-events :
        (now : ℕ) (rows : List (RuntimeRow F))
        → (history_for py later now (table rows)).events
          ≡ map (history_item py later) (selected_rows py later 900 500 now rows)
    unfolding history_for load_runtime_history load_for load_scoped bounded_window bounded_limit
    history-events now rows = rw session-fingerprint refl

    -- The recorded row is in the history of the later event, if the limit leaves room.
    pub row-loaded :
        (now : ℕ) (rows : List (RuntimeRow F))
        → Memᴰ (runtime_row py instant earlier decision) rows
        → now ≤ instant.recorded_at + 900
        → length (keep (selects py later 900 now) rows) ≤ 500
        → Memᴰ
            (history_item py later (runtime_row py instant earlier decision))
            (history_for py later now (table rows)).events
    row-loaded now rows m recent room = rw (history-events now rows) (
        Memᴰ.map (history_item py later)
          (Memᴰ-selected_rows py later 900 500 now rows m (row-selects 900 now recent) room))

    item-same_session :
        truthy_json py
          (get "same_session" (history_item py later (runtime_row py instant earlier decision)))
        ≡ true
    unfolding history_item get truthy_json
    item-same_session = own_session

    item-external :
        event_flag (history_item py later (runtime_row py instant earlier decision)) "external"
        ≡ flag_external py earlier
    unfolding history_item get event_flag as_dict is_true runtime_row stored_flags
        runtime_event_flags
    item-external = refl

    item-poisoned :
        event_flag
          (history_item py later (runtime_row py instant earlier decision))
          "untrusted_memory_write"
        ≡ (flag_external py earlier && flag_memory_write py earlier)
    unfolding history_item get event_flag as_dict is_true runtime_row stored_flags
        runtime_event_flags
    item-poisoned = refl

    item-score :
        safe_int py
          (get "risk_score" (history_item py later (runtime_row py instant earlier decision)))
        ≡ pos decision.score
    unfolding history_item get safe_int runtime_row
    item-score = refl

    module _ (index : AttackIndex) (history : History (Fields F)) where
      pub item-risky :
          Memᴰ (history_item py later (runtime_row py instant earlier decision)) history.events
          → flag_external py earlier ≡ true
          → 50 ≤ decision.score
          → is_empty (risky_external py index later history) ≡ false
      unfolding risky_external sequence_events
      item-risky m external risky = is_empty-Memᴰ (
          Memᴰ-keep _ _ (Memᴰ-keep _ _ m item-same_session)
            (rw (item-external, item-score) (ground arith)))

      pub item-poisons :
          Memᴰ (history_item py later (runtime_row py instant earlier decision)) history.events
          → flag_external py earlier ≡ true
          → flag_memory_write py earlier ≡ true
          → is_empty (poisoned_memory py index later history) ≡ false
      unfolding poisoned_memory sequence_events
      item-poisons m external writes =
          is_empty-Memᴰ
            (Memᴰ-keep _ _ (Memᴰ-keep _ _ m item-same_session) (rw item-poisoned (ground arith)))
