-- ===== src/Cli.antt =====
-- The commands of src/miniq/cli.py over the database file. What a command prints is a value of
-- `Output`; the text around it is not modelled.
pub mod Status
pub mod Dlq
pub mod Replay
pub mod Purge
pub mod TaskModules
pub mod RunWorkers
pub mod Main
mod Tests
use miniq.Base.{
  ℕ, suc, ◌+◌, ◌==◌, if◌then◌else◌, ℤ, pos, ◌-ℤ◌, ltb_ℤ, leb_ℤ, Bool, true, false, ◌&&◌, ◌||◌, not,
  Option, none, some, String, List, [], ◌∷◌, map, select, length,
}
use miniq.Exceptions.{Result, ok, err, ◌>>=◌, or_raise, operational_error}
use miniq.Task.{TaskId, TaskStatus, pending, running, success, failed, Time}
use miniq.Sqlite.{Lock, Statement, transaction}
use miniq.SqliteQueue.{Row, Table, has_status, has_id, update_where}
use miniq.Results.{ResultRow, ResultTable}

-- The tables of a database file; a file that no queue has opened has no table `tasks`.
pub record Database : Type 0 where
  pub tasks : Option Table
  pub results : Option ResultTable

-- The columns that `dlq list` prints.
pub record Entry : Type 0 where
  pub id : TaskId
  pub func_path : String
  pub error : Option String
  pub retries : ℤ
  pub max_retries : ℤ

pub data Output : Type 0 where
  database_not_found : Output
  status_report : List (TaskStatus × ℕ) → ℕ → Output
  dlq_empty : Output
  dlq_report : ℕ → List Entry → Output
  no_failed_task : TaskId → Output
  task_replayed : TaskId → Output
  purged : (tasks results : ℕ) → Output

-- A command's exit code and what it prints, or what it raises, and the file after it.
abbrev pub Outcome : Type 0
Outcome = Result (ℕ × Output) × Option Database

abbrev pub keep_file : {A : Type 0} → A × Database → A × Option Database
keep_file (a, db) = (a, some db)

-- `if not Path(args.db).exists()`, and else one transaction on the file.
unfoldable pub on_database : Lock → Statement Database (ℕ × Output) → Option Database → Outcome
on_database lock body none = (ok (1, database_not_found), none)
on_database lock body (some db) = keep_file (transaction false lock body db)

-- A SELECT from `tasks`, or the OperationalError of a missing table.
abbrev pub tasks_of : Database → Result Table
tasks_of db = or_raise db.tasks operational_error

-- The members of `TaskStatus`, in their order.
abbrev pub statuses : List TaskStatus
statuses = pending ∷ running ∷ success ∷ failed ∷ []

unfoldable pub count_status : TaskStatus → Table → ℕ
count_status s rows = length (select (λ row. has_status s row.status) rows)

-- `SELECT status, COUNT(*) FROM tasks GROUP BY status`: a status with no row has no group.
unfoldable pub groups_of : List TaskStatus → Table → List (TaskStatus × ℕ)
groups_of [] rows = []
groups_of (s ∷ ss) rows =
    if count_status s rows == 0
    then groups_of ss rows
    else (s, count_status s rows) ∷ groups_of ss rows

-- `counts.get(status.value, 0)`
unfoldable pub count_of : TaskStatus → List (TaskStatus × ℕ) → ℕ
count_of s [] = 0
count_of s (g ∷ gs) = if has_status s g.0 then g.1 else count_of s gs

-- The `for` loop of `cmd_status`: the printed counts, and the total.
unfoldable pub report : List TaskStatus → List (TaskStatus × ℕ) → ℕ → List (TaskStatus × ℕ) × ℕ
report [] counts total = ([], total)
report (s ∷ ss) counts total =
    let (lines, sum) = report ss counts (total + count_of s counts) in
    ((s, count_of s counts) ∷ lines, sum)

unfoldable pub cmd_status : Lock → Option Database → Outcome
cmd_status lock = on_database lock λ db. do
  rows ← tasks_of db
  let r = report statuses (groups_of statuses rows) 0
  ok ((0, status_report r.0 r.1), db)

-- `finished_at DESC`, strictly: SQLite takes NULL for the least value.
unfoldable pub finished_after : Option Time → Option Time → Bool
finished_after none b = false
finished_after (some a) none = true
finished_after (some a) (some b) = ltb_ℤ b a

-- `ORDER BY finished_at DESC`. Of rows that the order does not tell apart SQL may put any first;
-- this keeps the table's order.
unfoldable pub insert_by_finished : Row → Table → Table
insert_by_finished row [] = row ∷ []
insert_by_finished row (q ∷ rows) =
    if finished_after q.finished_at row.finished_at
    then q ∷ insert_by_finished row rows
    else row ∷ q ∷ rows

unfoldable pub order_by_finished : Table → Table
unfolding insert_by_finished
order_by_finished [] = []
order_by_finished (row ∷ rows) = insert_by_finished row (order_by_finished rows)

abbrev pub entry_of : Row → Entry
entry_of row = record {
  id = row.id;
  func_path = row.func_path;
  error = row.error;
  retries = row.retries;
  max_retries = row.max_retries;
}

abbrev pub listing : Table → Output
listing [] = dlq_empty
listing (row ∷ rows) = dlq_report (length (row ∷ rows)) (map entry_of (row ∷ rows))

abbrev pub is_failed : Row → Bool
is_failed row = has_status failed row.status

unfoldable pub cmd_dlq_list : Lock → Option Database → Outcome
cmd_dlq_list lock =
    on_database lock
      λ db. do rows ← tasks_of db; ok ((0, listing (order_by_finished (select is_failed rows))), db)

-- The row of a replayed task.
abbrev pub replay_row : Row → Row
replay_row row = record row {
  status = pending;
  retries = pos 0;
  error = none;
  finished_at = none;
  started_at = none;
  claimed_until = none;
  available_at = none;
}

-- `WHERE id = ? AND status = ?`
abbrev pub is_replayable : TaskId → Row → Bool
is_replayable tid row = has_id tid row && is_failed row

unfoldable pub cmd_dlq_replay : Lock → TaskId → Option Database → Outcome
cmd_dlq_replay lock tid = on_database lock λ db. do
  rows ← tasks_of db
  let affected = length (select (is_replayable tid) rows)
  let rows' = update_where (is_replayable tid) replay_row rows
  ok (
    if affected == 0 then (1, no_failed_task tid) else (0, task_replayed tid),
    record db { tasks = some rows' },
  )

-- `status IN (...)`: SUCCESS, and FAILED with --include-failed.
unfoldable pub is_purged_status : (include_failed : Bool) → TaskStatus → Bool
is_purged_status include_failed status =
    has_status success status || (include_failed && has_status failed status)

-- `finished_at IS NOT NULL AND finished_at <= ?`
unfoldable pub is_finished_by : Time → Option Time → Bool
is_finished_by cutoff none = false
is_finished_by cutoff (some at) = leb_ℤ at cutoff

unfoldable pub is_purged : Bool → Time → Row → Bool
is_purged include_failed cutoff row =
    is_purged_status include_failed row.status && is_finished_by cutoff row.finished_at

unfoldable pub is_purged_result : Bool → Time → ResultRow → Bool
is_purged_result include_failed cutoff row =
    is_purged_status include_failed row.status && leb_ℤ row.stored_at cutoff

-- `DELETE FROM ... WHERE ...`: the rows that are left, and `rowcount`.
abbrev pub delete_where : {A : Type 0} → (A → Bool) → List A → List A × ℕ
delete_where test rows = (select (λ row. not (test row)) rows, length (select test rows))

-- The second DELETE, where the file has the table.
abbrev pub purge_results : Bool → Time → Option ResultTable → Option ResultTable × ℕ
purge_results include_failed cutoff none = (none, 0)
purge_results include_failed cutoff (some rows) =
    let (left, deleted) = delete_where (is_purged_result include_failed cutoff) rows in
    (some left, deleted)

unfoldable pub cmd_purge :
    Lock → (older_than : Time) → Bool → (now : Time) → Option Database → Outcome
cmd_purge lock older_than include_failed now = on_database lock λ db. do
  rows ← tasks_of db
  let cutoff = now -ℤ older_than
  let tasks = delete_where (is_purged include_failed cutoff) rows
  let results = purge_results include_failed cutoff db.results
  ok ((0, purged tasks.1 results.1), record db { tasks = some tasks.0; results = results.0 })
