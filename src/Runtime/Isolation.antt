-- ===== src/Runtime/Isolation.antt =====
-- Whose events a history holds: those of the same tenant, and of the session or the user asked for.
use vexyl_guard.Prelude.{
  ℕ, String, Bool, true, false, Option, none, some, ℤ, ◌≡◌, ◌⊎◌, inl, inr, refl, ap, sym, ◌∙◌,
  arith, All, All-map, All-image, eq_iff, ◌||◌,
}
use vexyl_guard.Python.{Python, Json, str, bool, Fields, get}
use vexyl_guard.Models.{RuntimeAiEvent}
use vexyl_guard.Runtime.Store.{RuntimeRow, HistoryDb, missing, unreadable, table}
use vexyl_guard.Runtime.Load.{
  column_equals, same_tenant, selects, history_item, text_value, event_tenant, event_session,
  event_user, load_runtime_history, load_for, load_scoped,
}
use vexyl_guard.Runtime.Selection.{selected_rows-IsNewest}

column_equals-some :
    (column value : Option String)
    → column_equals column value ≡ true
    → (text : String) × (value ≡ some text) × (column ≡ some text)
unfolding column_equals
column_equals-some none none h = absurd (ground arith)
column_equals-some (some stored) none h = absurd (ground arith)
column_equals-some none (some text) h = absurd (ground arith)
column_equals-some (some stored) (some text) h = (text, refl, ap some ((eq_iff _ _).0 h))

module _ {F : Type 0} where
  same_tenant-≡ :
      (tenant : Option String) (row : RuntimeRow F)
      → same_tenant tenant row ≡ true
      → row.tenant_id_hash ≡ tenant
  unfolding same_tenant
  same_tenant-≡ none row h = null_column row.tenant_id_hash h
    where
      null_column :
          (column : Option String)
          → elim column [ none ↦ true | some stored ↦ false ] ≡ true
          → column ≡ none
      null_column none e = refl
      null_column (some stored) e = absurd (ground arith)
  same_tenant-≡ (some tenant) row h =
      let found = column_equals-some row.tenant_id_hash (some tenant) h in found.2 ∙ sym found.1

module _ {F : Type 0} (py : Python F) (ev : RuntimeAiEvent F) where
  -- An item's column holds a fingerprint that the event has.
  abbrev pub Shares : String → Option String → Fields F → Type 0
  Shares column fingerprint item =
      (text : String) × (fingerprint ≡ some text) × (get column item ≡ str text)

  -- An item of the event's own tenant, or of none if the event has none, and of its own session or
  -- its own user, each marked as such.
  abbrev pub IsOwn : Fields F → Type 0
  IsOwn item =
      (get "tenant_id_hash" item ≡ text_value (event_tenant py ev))
      × ((Shares "session_id_hash" (event_session py ev) item
            × (get "same_session" item ≡ bool true))
          ⊎ (Shares "user_id_hash" (event_user py ev) item × (get "same_user" item ≡ bool true)))

  shares :
      (column fingerprint : Option String)
      → column_equals column fingerprint ≡ true
      → (text : String) × (fingerprint ≡ some text)
        × (let value : Json F = text_value column in value ≡ str text)
  unfolding text_value
  shares column fingerprint h =
      let found = column_equals-some column fingerprint h in
      (found.0, found.1, ap text_value found.2)

  item-IsOwn :
      (window now : ℕ) (row : RuntimeRow F)
      → selects py ev window now row ≡ true
      → IsOwn (history_item py ev row)
  unfolding selects history_item get
  item-IsOwn window now row h = (
    ap text_value (same_tenant-≡ (event_tenant py ev) row (ground arith)),
    elim (or-cases (column_equals row.session_id_hash (event_session py ev)) _ (ground arith)) [
      | inl session ↦ inl (shares _ _ session, ap bool session)
      | inr user ↦ inr (shares _ _ user, ap bool user)
    ],
  )
    where
      or-cases : (a b : Bool) → (a || b) ≡ true → (a ≡ true) ⊎ (b ≡ true)
      or-cases true b e = inl refl
      or-cases false b e = inr e

  loaded-IsOwn :
      (scope : String) (db : HistoryDb F) (window limit now : ℕ)
      → All IsOwn (load_scoped py ev scope db window limit now).events
  unfolding load_scoped
  loaded-IsOwn scope missing window limit now = tt
  loaded-IsOwn scope unreadable window limit now = tt
  loaded-IsOwn scope (table rows) window limit now =
      All-image IsOwn (history_item py ev) _ (
        All-map _ _ _ (item-IsOwn window now)
          (selected_rows-IsNewest py ev window limit now rows).0)

  loaded_for-IsOwn :
      (scope : Option String) (db : HistoryDb F) (window limit : ℤ) (now : ℕ)
      → All IsOwn (load_for py ev scope db window limit now).events
  unfolding load_for
  loaded_for-IsOwn none db window limit now = tt
  loaded_for-IsOwn (some scope) db window limit now = loaded-IsOwn scope db _ _ now

  -- Whatever the store holds: every event of a loaded history carries the tenant's fingerprint of
  -- the event that is scored, or none where that has none, and the fingerprint of its session or of
  -- its user, and is marked as of the same session or the same user accordingly.
  pub load_runtime_history-IsOwn :
      (db : HistoryDb F) (window limit : ℤ) (now : ℕ)
      → All IsOwn (load_runtime_history py ev db window limit now).events
  unfolding load_runtime_history
  load_runtime_history-IsOwn missing window limit now = tt
  load_runtime_history-IsOwn unreadable window limit now =
      loaded_for-IsOwn _ unreadable window limit now
  load_runtime_history-IsOwn (table rows) window limit now =
      loaded_for-IsOwn _ (table rows) window limit now
