-- ===== src/SqliteQueue/Rows.antt =====
-- Rows by their id: what each statement does to the row of one task.
use miniq.Base.{
  ◌≡◌, ◌≢◌, refl, ◌∙◌, inl, inr, Bool, false, Option, none, some, [], ◌∷◌, ◌++◌, arith, Bool-cases,
  if◌then◌else◌, ◌==◌,
}
use miniq.Task.{TaskId}
use miniq.SqliteQueue.{Row, Table, has_id, exists_id, update_where}

-- `SELECT * FROM tasks WHERE id = ?`
abbrev pub find_row : TaskId → Table → Option Row
find_row tid [] = none
find_row tid (row ∷ rows) = if has_id tid row then some row else find_row tid rows

-- The primary key: no two rows have one id.
abbrev pub IsTable : Table → Type 0
IsTable [] = Unit
IsTable (row ∷ rows) = (exists_id row.id rows ≡ false) × IsTable rows

-- A statement that keeps the ids.
abbrev pub KeepsId : (Row → Row) → Type 0
KeepsId f = (row : Row) → (f row).id ≡ row.id

module _ (test : Row → Bool) (f : Row → Row) (keeps : KeepsId f) where
  exists_id-update_where :
      (tid : TaskId) (rows : Table) → exists_id tid (update_where test f rows) ≡ exists_id tid rows
  exists_id-update_where tid [] = refl
  exists_id-update_where tid (row ∷ rows) =
      ground (arith, exists_id-update_where tid rows, keeps row)

  pub update_where-IsTable : (rows : Table) → IsTable rows → IsTable (update_where test f rows)
  update_where-IsTable [] h = tt
  update_where-IsTable (row ∷ rows) h =
      (exists_id-update_where _ rows ∙ ground (arith, keeps row), update_where-IsTable rows h.1)

  -- A row that the test passes over is untouched, and one that it meets is rewritten.
  abbrev pub updated : Option Row → Option Row
  updated none = none
  updated (some row) = some (if test row then f row else row)

  updated_id : (row : Row) → (if test row then f row else row).id ≡ row.id
  updated_id row = ground (arith, keeps row)

  pub find_row-update_where :
      (tid : TaskId) (rows : Table)
      → find_row tid (update_where test f rows) ≡ updated (find_row tid rows)
  find_row-update_where tid [] = refl
  find_row-update_where tid (row ∷ rows) = elim (Bool-cases (has_id tid row)) [
    | inl here ↦ rw (updated_id row, here)
    | inr there ↦ rw (updated_id row, there) (find_row-update_where tid rows)
  ]

pub find_row-id :
    (tid : TaskId) (rows : Table) (row : Row) → find_row tid rows ≡ some row → row.id ≡ tid
find_row-id tid [] row h = cc
find_row-id tid (r ∷ rows) row h = ground (arith, find_row-id tid rows row)

pub find_row-append_new :
    (tid : TaskId) (rows : Table) (row : Row)
    → exists_id row.id rows ≡ false
    → find_row tid (rows ++ row ∷ []) ≡ (if row.id == tid then some row else find_row tid rows)
find_row-append_new tid [] row h = refl
find_row-append_new tid (r ∷ rows) row h = ground (arith, find_row-append_new tid rows row)

exists_id-append :
    (tid : TaskId) (rows : Table) (row : Row)
    → exists_id tid rows ≡ false
    → row.id ≢ tid
    → exists_id tid (rows ++ row ∷ []) ≡ false
exists_id-append tid [] row h ne = ground arith
exists_id-append tid (r ∷ rows) row h ne = ground (arith, exists_id-append tid rows row)

pub append-IsTable :
    (rows : Table) (row : Row)
    → IsTable rows
    → exists_id row.id rows ≡ false
    → IsTable (rows ++ row ∷ [])
append-IsTable [] row h new = (refl, tt)
append-IsTable (r ∷ rows) row h new =
    (exists_id-append r.id rows row h.0 (ground arith), append-IsTable rows row h.1 (ground arith))
