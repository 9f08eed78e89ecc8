-- ===== src/Cli/Dlq.antt =====
-- `miniq dlq list` of src/miniq/cli.py.
use mathlib.Core.List.{Perm}
use mathlib.Core.List.Perm
use miniq.Base.{
  ◌≡◌, refl, inl, inr, Bool-cases, true, false, Option, none, some, [], ◌∷◌, select, All, All-map,
  arith,
}
use miniq.Exceptions.{ok}
use miniq.Task.{Time}
use miniq.Sqlite.{free, transaction}
use miniq.SqliteQueue.{Row, Table}
use miniq.Cli.{
  Database, on_database, listing, is_failed, finished_after, insert_by_finished, order_by_finished,
  cmd_dlq_list,
}

-- The latest come first.
abbrev pub IsLatestFirst : Table → Type 0
IsLatestFirst [] = Unit
IsLatestFirst (row ∷ rows) =
    All (λ q. finished_after q.finished_at row.finished_at ≡ false) rows × IsLatestFirst rows

later_trans :
    (a b c : Option Time)
    → finished_after b a ≡ false
    → finished_after c b ≡ false
    → finished_after c a ≡ false
unfolding finished_after
later_trans a b none h k = refl
later_trans a none (some c) h k = cc
later_trans none (some b) (some c) h k = cc
later_trans (some a) (some b) (some c) h k = ground arith

later_asym : (a b : Option Time) → finished_after a b ≡ true → finished_after b a ≡ false
unfolding finished_after
later_asym a none h = refl
later_asym none (some b) h = cc
later_asym (some a) (some b) h = ground arith

insert-perm : (row : Row) (rows : Table) → Perm (insert_by_finished row rows) (row ∷ rows)
unfolding insert_by_finished
insert-perm row [] = Perm.rfl
insert-perm row (q ∷ rows) = elim (Bool-cases (finished_after q.finished_at row.finished_at)) [
  | inl later ↦ rw later (Perm.trans (Perm.cons q (insert-perm row rows)) (Perm.swap row q rows))
  | inr sooner ↦ rw sooner Perm.rfl
]

abbrev NoneLater : Row → Table → Type 0
NoneLater row rows = All (λ q. finished_after q.finished_at row.finished_at ≡ false) rows

insert-NoneLater :
    (q row : Row) (rows : Table)
    → finished_after row.finished_at q.finished_at ≡ false
    → NoneLater q rows
    → NoneLater q (insert_by_finished row rows)
unfolding insert_by_finished
insert-NoneLater q row [] h hs = (h, tt)
insert-NoneLater q row (r ∷ rows) h hs =
    elim (Bool-cases (finished_after r.finished_at row.finished_at)) [
      | inl later ↦ rw later (hs.0, insert-NoneLater q row rows h hs.1)
      | inr sooner ↦ rw sooner (h, hs)
    ]

insert-IsLatestFirst :
    (row : Row) (rows : Table) → IsLatestFirst rows → IsLatestFirst (insert_by_finished row rows)
unfolding insert_by_finished
insert-IsLatestFirst row [] h = (tt, tt)
insert-IsLatestFirst row (q ∷ rows) h =
    elim (Bool-cases (finished_after q.finished_at row.finished_at)) [
      | inl later ↦ rw later (
        insert-NoneLater q row rows (later_asym q.finished_at row.finished_at later) h.0,
        insert-IsLatestFirst row rows h.1,
      )
      | inr sooner ↦ rw sooner (
        (
          sooner,
          All-map _ _ rows (λ r. later_trans row.finished_at q.finished_at r.finished_at sooner)
              h.0,
        ),
        h,
      )
    ]

order-perm : (rows : Table) → Perm (order_by_finished rows) rows
unfolding order_by_finished
order-perm [] = Perm.rfl
order-perm (row ∷ rows) =
    Perm.trans (insert-perm row (order_by_finished rows)) (Perm.cons row (order-perm rows))

order-IsLatestFirst : (rows : Table) → IsLatestFirst (order_by_finished rows)
unfolding order_by_finished
order-IsLatestFirst [] = tt
order-IsLatestFirst (row ∷ rows) =
    insert-IsLatestFirst row (order_by_finished rows) (order-IsLatestFirst rows)

-- On a file that has the table `tasks`, with no lock met, `miniq dlq list` exits with 0, changes
-- nothing and prints a list of rows that holds the failed rows of the table, each as often as the
-- table does, and no other row, those that ended last first.
pub cmd_dlq_list_lem :
    (db : Database) (rows : Table)
    → db.tasks ≡ some rows
    → (shown : Table) × (cmd_dlq_list free (some db) ≡ (ok (0, listing shown), some db))
      × Perm shown (select is_failed rows)
      × IsLatestFirst shown
unfolding cmd_dlq_list on_database transaction
cmd_dlq_list_lem db rows h = (
  order_by_finished (select is_failed rows),
  rw h refl,
  order-perm (select is_failed rows),
  order-IsLatestFirst (select is_failed rows),
)
