-- ===== src/Cli/Status.antt =====
-- `miniq status` of src/miniq/cli.py: the counts that it prints.
use miniq.Base.{ℕ, suc, ◌+◌, if◌then◌else◌, ◌≡◌, refl, some, [], ◌∷◌, map, length, arith}
use miniq.Exceptions.{ok}
use miniq.Task.{TaskStatus, pending, running, success, failed}
use miniq.Sqlite.{free, transaction}
use miniq.SqliteQueue.{Row, Table, has_status}
use miniq.Cli.{
  Database, status_report, on_database, statuses, count_status, groups_of, count_of, report,
  cmd_status,
}

-- Every status is one of the four.
one_status :
    (s : TaskStatus) (a b c d : ℕ)
    → (if has_status pending s then suc a else a)
        + (if has_status running s then suc b else b)
        + (if has_status success s then suc c else c)
        + (if has_status failed s then suc d else d)
      ≡ suc (a + b + c + d)
one_status pending a b c d = omega arith
one_status running a b c d = omega arith
one_status success a b c d = omega arith
one_status failed a b c d = omega arith

count_nil : (s : TaskStatus) → count_status s [] ≡ 0
unfolding count_status
count_nil s = refl

count_cons :
    (s : TaskStatus) (row : Row) (rows : Table)
    → count_status s (row ∷ rows)
      ≡ (if has_status s row.status then suc (count_status s rows) else count_status s rows)
unfolding count_status
count_cons s row rows = ground arith

-- Every row is counted under one status.
counts_total :
    (rows : Table)
    → 0
        + count_status pending rows
        + count_status running rows
        + count_status success rows
        + count_status failed rows
      ≡ length rows
counts_total [] =
    omega (arith, count_nil pending, count_nil running, count_nil success, count_nil failed)
counts_total (row ∷ rows) =
    rw
      (
        count_cons pending row rows,
        count_cons running row rows,
        count_cons success row rows,
        count_cons failed row rows,
      )
      omega
      (
        arith,
        one_status row.status (count_status pending rows) (count_status running rows)
            (count_status success rows) (count_status failed rows),
        counts_total rows,
      )

count_of-groups_of :
    (s : TaskStatus) (rows : Table) → count_of s (groups_of statuses rows) ≡ count_status s rows
unfolding count_of groups_of
count_of-groups_of pending rows = ground arith
count_of-groups_of running rows = ground arith
count_of-groups_of success rows = ground arith
count_of-groups_of failed rows = ground arith

-- On a file that has the table `tasks`, with no lock met, `miniq status` exits with 0, prints for
-- each status the number of rows with it and as total the number of all rows, and changes nothing.
pub cmd_status_lem :
    (db : Database) (rows : Table)
    → db.tasks ≡ some rows
    → cmd_status free (some db) ≡ (
      ok (0, status_report (map (λ s. (s, count_status s rows)) statuses) (length rows)),
      some db,
    )
unfolding cmd_status on_database transaction report
cmd_status_lem db rows h =
    rw
      (
        h,
        count_of-groups_of pending rows,
        count_of-groups_of running rows,
        count_of-groups_of success rows,
        count_of-groups_of failed rows,
        counts_total rows,
      )
      refl
