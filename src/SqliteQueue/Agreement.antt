-- ===== src/SqliteQueue/Agreement.antt =====
-- InMemoryQueue of src/miniq/queue/memory.py and SQLiteQueue of src/miniq/queue/sqlite.py over the
-- same tasks: which one each hands out.
use mathlib.Core.Option
use miniq.Base.{
  ◌≡◌, refl, sym, ap, ◌∙◌, inl, inr, Bool-cases, true, false, Option, Option-cases, none, some,
  List, [], ◌∷◌, ◌++◌, map, select, All, get_elem?, get_elem?-middle, arith,
}
use miniq.Task.{Time, pending}
use miniq.Heap.{Ref, Heap}
use miniq.Serializers.{Bytes}
use miniq.Memory.{Best, is_available, scan}
use miniq.Memory.Choice.{Outranks, IsAvailable, NoneAvailable, Chosen, scan-Chosen}
use miniq.SqliteQueue.{Row, Table, row_of, is_claimable, precedes, first_row}

abbrev HoldsOf : (Row → Type 0) → Option Row → Type 0
HoldsOf P none = Unit
HoldsOf P (some row) = P row

first_row-All : (P : Row → Type 0) (rows : Table) → All P rows → HoldsOf P (first_row rows)
unfolding first_row
first_row-All P [] h = tt
first_row-All P (row ∷ rows) h = elim (Option-cases (first_row rows)) [
  | inl e ↦ rw e h.0
  | inr (q, e) ↦ elim (Bool-cases (precedes q row)) [
    | inl f ↦ rw (e, f) (rw e at (first_row-All P rows h.1))
    | inr f ↦ rw (e, f) h.0
  ]
]

-- A row that no later one precedes comes first.
first_row-head :
    (row : Row) (rows : Table)
    → All (λ q. precedes q row ≡ false) rows
    → first_row (row ∷ rows) ≡ some row
unfolding first_row
first_row-head row rows h = elim (Option-cases (first_row rows)) [
  | inl e ↦ rw e refl
  | inr (q, e) ↦ rw (e, (rw e at (first_row-All _ rows h))) refl
]

first_row-skip :
    (q row : Row) (rows : Table)
    → precedes row q ≡ true
    → first_row rows ≡ some row
    → first_row (q ∷ rows) ≡ some row
unfolding first_row
first_row-skip q row rows h e = rw (e, h) refl

module _ (h : Heap) (blobs : Ref → Bytes × Bytes) where
  -- The row of the task at `r`, with the blobs of its arguments.
  abbrev pub row_at : Ref → Row
  row_at r = row_of (h.cell r) (blobs r).0 (blobs r).1

  claimable_iff_available :
      (now : Time) (r : Ref)
      → (h.cell r).status ≡ pending
      → is_claimable now (row_at r) ≡ is_available now (h.cell r)
  unfolding is_claimable is_available row_of
  claimable_iff_available now r e = elim (Option-cases (h.cell r).available_at) [
    | inl at ↦ rw (e, at) refl
    | inr (a, at) ↦ rw (e, at) (ground arith)
  ]

  above_lem : (q r : Ref) → Outranks (h.cell q) (h.cell r) → precedes (row_at q) (row_at r) ≡ true
  unfolding precedes row_of
  above_lem q r o = ground arith

  below_lem :
      (q r : Ref) → ¬ Outranks (h.cell q) (h.cell r) → precedes (row_at q) (row_at r) ≡ false
  unfolding precedes row_of
  below_lem q r o = ground arith

  module _ (now : Time) where
    -- The rows that `SELECT ... WHERE` takes of a list of pending tasks.
    claimable_rows : List Ref → Table
    claimable_rows l = select (is_claimable now) (map row_at l)

    abbrev pub AllPending : List Ref → Type 0
    AllPending = All (λ r. (h.cell r).status ≡ pending)

    none_claimable : (l : List Ref) → AllPending l → NoneAvailable now h l → claimable_rows l ≡ []
    unfolding claimable_rows
    none_claimable [] p e = refl
    none_claimable (r ∷ l) p e = elim (Bool-cases (is_available now (h.cell r))) [
      | inl free ↦ absurd (e.0 free)
      | inr busy ↦ rw (claimable_iff_available now r p.0, busy) (none_claimable l p.1 e.1)
    ]

    unbeaten_rows :
        (ref : Ref) (l : List Ref)
        → AllPending l
        → All (λ r. IsAvailable now h r → ¬ Outranks (h.cell r) (h.cell ref)) l
        → All (λ q. precedes q (row_at ref) ≡ false) (claimable_rows l)
    unfolding claimable_rows
    unbeaten_rows ref [] p e = tt
    unbeaten_rows ref (r ∷ l) p e = elim (Bool-cases (is_available now (h.cell r))) [
      | inl free ↦
          rw (claimable_iff_available now r p.0, free)
            (below_lem r ref (e.0 free), unbeaten_rows ref l p.1 e.1)
      | inr busy ↦ rw (claimable_iff_available now r p.0, busy) (unbeaten_rows ref l p.1 e.1)
    ]

    chosen_row :
        (before after : List Ref) (ref : Ref)
        → AllPending (before ++ ref ∷ after)
        → IsAvailable now h ref
        → All (λ r. IsAvailable now h r → Outranks (h.cell ref) (h.cell r)) before
        → All (λ r. IsAvailable now h r → ¬ Outranks (h.cell r) (h.cell ref)) after
        → first_row (claimable_rows (before ++ ref ∷ after)) ≡ some (row_at ref)
    unfolding claimable_rows
    chosen_row [] after ref p free first unbeaten =
        rw (claimable_iff_available now ref p.0, free)
          (first_row-head (row_at ref) (claimable_rows after)
            (unbeaten_rows ref after p.1 unbeaten))
    chosen_row (r ∷ before) after ref p free first unbeaten =
        let rest = chosen_row before after ref p.1 free first.1 unbeaten in
        elim (Bool-cases (is_available now (h.cell r))) [
          | inl free' ↦
              rw (claimable_iff_available now r p.0, free')
                (first_row-skip (row_at r) (row_at ref) (claimable_rows (before ++ ref ∷ after))
                  (above_lem ref r (first.0 free')) rest)
          | inr busy ↦ rw (claimable_iff_available now r p.0, busy) rest
        ]

    -- The task that a scan has found.
    abbrev pub found_row : List Ref → Option Best → Option Row
    found_row l none = none
    found_row l (some best) = Option.map row_at (get_elem? l best.index)

    by_choice :
        (l : List Ref) (best : Option Best)
        → AllPending l
        → Chosen now h l best
        → first_row (claimable_rows l) ≡ found_row l best
    unfolding first_row
    by_choice l none p c = rw (none_claimable l p c) refl
    by_choice l (some best) p c =
        let found =
          chosen_row c.before c.after c.ref (rw c.split at p) c.available c.first c.unbeaten in
        let at_index : get_elem? l best.index ≡ some c.ref =
          rw (c.split, c.index) (get_elem?-middle c.before c.ref c.after) in
        ap (λ l'. first_row (claimable_rows l')) c.split
        ∙ found
        ∙ ap (Option.map row_at) (sym at_index)

    -- Where the in-memory queue holds a list of PENDING tasks and the table their rows in the same
    -- order, the row that the SELECT of `_try_claim` takes is that of the task that the scan of
    -- `dequeue` finds at the same time, and there is no such row where the scan finds no task.
    pub first_row-scan :
        (l : List Ref)
        → AllPending l
        → first_row (select (is_claimable now) (map row_at l)) ≡ found_row l (scan now h 0 l none)
    unfolding claimable_rows
    first_row-scan l p = by_choice l (scan now h 0 l none) p (scan-Chosen now h l)
