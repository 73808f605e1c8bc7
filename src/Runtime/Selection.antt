-- ===== src/Runtime/Selection.antt =====
-- What the query of `load_runtime_history` selects: the order, the limit, and which rows are left out.
use mathlib.Core.List.Memᴰ
use vexyl_guard.Prelude.{
  ℕ, zero, suc, ◌≤◌, true, List, [], ◌∷◌, ◌≡◌, ◌⊎◌, inl, inr, refl, arith, length, All, All-map,
  All-keep, All-Memᴰ, Memᴰ, Memᴰ-keep, keep, min, ltb, Bool-cases, ap,
}
use vexyl_guard.Python.{Python}
use vexyl_guard.Models.{RuntimeAiEvent}
use vexyl_guard.Runtime.Store.{RuntimeRow}
use vexyl_guard.Runtime.Load.{take_items, insert_newest, newest_first, selects, selected_rows}

module _ {F : Type 0} where
  abbrev pub NotAfter : RuntimeRow F → RuntimeRow F → Type 0
  NotAfter row r = r.recorded_at ≤ row.recorded_at

  -- no row is older than a later one of the list
  abbrev pub NewestFirst : List (RuntimeRow F) → Type 0
  NewestFirst [] = Unit
  NewestFirst (row ∷ rows) = All (NotAfter row) rows × NewestFirst rows

  module _ {κ} (P : RuntimeRow F → Type κ) where
    All-insert_newest :
        (row : RuntimeRow F) (rows : List (RuntimeRow F))
        → P row
        → All P rows
        → All P (insert_newest row rows)
    unfolding insert_newest
    All-insert_newest row [] p h = (p, tt)
    All-insert_newest row (r ∷ rows) p h = elim (Bool-cases (ltb row.recorded_at r.recorded_at)) [
      | inl later ↦ rw later (h.0, All-insert_newest row rows p h.1)
      | inr first ↦ rw first (p, h)
    ]

    pub All-newest_first : (rows : List (RuntimeRow F)) → All P rows → All P (newest_first rows)
    unfolding newest_first
    All-newest_first [] h = tt
    All-newest_first (row ∷ rows) h =
        All-insert_newest row (newest_first rows) h.0 (All-newest_first rows h.1)

    pub All-take_items :
        (n : ℕ) (rows : List (RuntimeRow F)) → All P rows → All P (take_items n rows)
    unfolding take_items
    All-take_items zero rows h = tt
    All-take_items (suc n) [] h = tt
    All-take_items (suc n) (row ∷ rows) h = (h.0, All-take_items n rows h.1)

  insert_newest-NewestFirst :
      (row : RuntimeRow F) (rows : List (RuntimeRow F))
      → NewestFirst rows
      → NewestFirst (insert_newest row rows)
  unfolding insert_newest
  insert_newest-NewestFirst row [] h = (tt, tt)
  insert_newest-NewestFirst row (r ∷ rows) h =
      elim (Bool-cases (ltb row.recorded_at r.recorded_at)) [
        | inl later ↦ rw later (
          All-insert_newest (NotAfter r) row rows (ground arith) h.0,
          insert_newest-NewestFirst row rows h.1,
        )
        | inr first ↦
            let below : NotAfter row r = ground arith in
            rw first
              ((below, All-map (NotAfter r) (NotAfter row) rows (λ x older. omega arith) h.0), h)
      ]

  newest_first-NewestFirst : (rows : List (RuntimeRow F)) → NewestFirst (newest_first rows)
  unfolding newest_first
  newest_first-NewestFirst [] = tt
  newest_first-NewestFirst (row ∷ rows) =
      insert_newest-NewestFirst row (newest_first rows) (newest_first-NewestFirst rows)

  take_items-NewestFirst :
      (n : ℕ) (rows : List (RuntimeRow F)) → NewestFirst rows → NewestFirst (take_items n rows)
  unfolding take_items
  take_items-NewestFirst zero rows h = tt
  take_items-NewestFirst (suc n) [] h = tt
  take_items-NewestFirst (suc n) (row ∷ rows) h =
      (All-take_items (NotAfter row) n rows h.0, take_items-NewestFirst n rows h.1)

  length-insert_newest :
      (row : RuntimeRow F) (rows : List (RuntimeRow F))
      → length (insert_newest row rows) ≡ suc (length rows)
  unfolding insert_newest
  length-insert_newest row [] = refl
  length-insert_newest row (r ∷ rows) = ground (arith, length-insert_newest row rows)

  length-newest_first : (rows : List (RuntimeRow F)) → length (newest_first rows) ≡ length rows
  unfolding newest_first
  length-newest_first [] = refl
  length-newest_first (row ∷ rows) =
      omega (arith, length-insert_newest row (newest_first rows), length-newest_first rows)

  length-take_items :
      (n : ℕ) (rows : List (RuntimeRow F)) → length (take_items n rows) ≡ min n (length rows)
  unfolding take_items
  length-take_items zero rows = omega arith
  length-take_items (suc n) [] = omega arith
  length-take_items (suc n) (row ∷ rows) = omega (arith, length-take_items n rows)

  Memᴰ-insert_newest :
      {a : RuntimeRow F} (row : RuntimeRow F) (rows : List (RuntimeRow F))
      → (a ≡ row) ⊎ Memᴰ a rows
      → Memᴰ a (insert_newest row rows)
  unfolding insert_newest
  Memᴰ-insert_newest row [] (inl e) = Memᴰ.head e
  Memᴰ-insert_newest row [] (inr m) = absurd (Memᴰ.not-nil m)
  Memᴰ-insert_newest row (r ∷ rows) m = elim (Bool-cases (ltb row.recorded_at r.recorded_at)) [
    | inr first ↦ rw first (elim m [ inl e ↦ Memᴰ.head e | inr below ↦ Memᴰ.tail below ])
    | inl later ↦ rw later (elim m [
      | inl e ↦ Memᴰ.tail (Memᴰ-insert_newest row rows (inl e))
      | inr below ↦ elim (Memᴰ.cases_cons below) [
        | inl e ↦ Memᴰ.head e
        | inr within ↦ Memᴰ.tail (Memᴰ-insert_newest row rows (inr within))
      ]
    ])
  ]

  pub Memᴰ-newest_first :
      {a : RuntimeRow F} (rows : List (RuntimeRow F)) → Memᴰ a rows → Memᴰ a (newest_first rows)
  unfolding newest_first
  Memᴰ-newest_first [] m = absurd (Memᴰ.not-nil m)
  Memᴰ-newest_first (row ∷ rows) (Memᴰ.head e) = Memᴰ-insert_newest row (newest_first rows) (inl e)
  Memᴰ-newest_first (row ∷ rows) (Memᴰ.tail m) =
      Memᴰ-insert_newest row (newest_first rows) (inr (Memᴰ-newest_first rows m))

  -- A row of a sorted list is among the first ones, or it is not newer than any of them, and they
  -- fill the limit.
  Memᴰ-take_items :
      {a : RuntimeRow F} (n : ℕ) (rows : List (RuntimeRow F))
      → NewestFirst rows
      → Memᴰ a rows
      → Memᴰ a (take_items n rows)
        ⊎ (All (λ row. NotAfter row a) (take_items n rows) × (length (take_items n rows) ≡ n))
  unfolding take_items
  Memᴰ-take_items zero rows h m = inr (tt, refl)
  Memᴰ-take_items (suc n) [] h m = absurd (Memᴰ.not-nil m)
  Memᴰ-take_items (suc n) (row ∷ rows) h (Memᴰ.head e) = inl (Memᴰ.head e)
  Memᴰ-take_items (suc n) (row ∷ rows) h (Memᴰ.tail m) = elim (Memᴰ-take_items n rows h.1 m) [
    | inl within ↦ inl (Memᴰ.tail within)
    | inr left_out ↦ inr ((All-Memᴰ _ m h.0, left_out.0), omega (arith, left_out.1))
  ]

  take_items-all : (n : ℕ) (rows : List (RuntimeRow F)) → length rows ≤ n → take_items n rows ≡ rows
  unfolding take_items
  take_items-all zero [] h = refl
  take_items-all zero (row ∷ rows) h = absurd (omega arith)
  take_items-all (suc n) [] h = refl
  take_items-all (suc n) (row ∷ rows) h =
      ap (λ rest. row ∷ rest) (take_items-all n rows (omega arith))

module _ {F : Type 0} (py : Python F) (ev : RuntimeAiEvent F) (window limit now : ℕ)
    (rows : List (RuntimeRow F)) where
  -- The query returns rows that its condition selects, the newest ones first, as many as there are
  -- up to the limit; a selected row that is left out is not newer than any that is returned, and
  -- then the limit is reached.
  pub selected_rows-IsNewest :
      All (λ row. selects py ev window now row ≡ true) (selected_rows py ev window limit now rows)
      × NewestFirst (selected_rows py ev window limit now rows)
      × (length (selected_rows py ev window limit now rows)
          ≡ min limit (length (keep (selects py ev window now) rows)))
      × ((row : RuntimeRow F)
          → Memᴰ row rows
          → selects py ev window now row ≡ true
          → Memᴰ row (selected_rows py ev window limit now rows)
            ⊎ (All (λ r. NotAfter r row) (selected_rows py ev window limit now rows)
                × (length (selected_rows py ev window limit now rows) ≡ limit)))
  unfolding selected_rows
  selected_rows-IsNewest =
      let kept = keep (selects py ev window now) rows in
      (
        All-take_items _ limit _ (All-newest_first _ kept (All-keep _ rows)),
        take_items-NewestFirst limit _ (newest_first-NewestFirst kept),
        omega (arith, length-take_items limit (newest_first kept), length-newest_first kept),
        λ row m yes.
            Memᴰ-take_items limit _ (newest_first-NewestFirst kept)
              (Memᴰ-newest_first kept (Memᴰ-keep _ rows m yes)),
      )

  -- If the selected rows fit in the limit, all of them are returned.
  pub Memᴰ-selected_rows :
      {row : RuntimeRow F}
      → Memᴰ row rows
      → selects py ev window now row ≡ true
      → length (keep (selects py ev window now) rows) ≤ limit
      → Memᴰ row (selected_rows py ev window limit now rows)
  unfolding selected_rows
  Memᴰ-selected_rows m chosen room =
      let kept = keep (selects py ev window now) rows in
      rw (take_items-all limit (newest_first kept) (omega (arith, length-newest_first kept)))
        (Memᴰ-newest_first kept (Memᴰ-keep _ rows m chosen))
