-- ===== src/SqliteQueue.antt =====
-- `SQLiteQueue` of src/miniq/queue/sqlite.py. The table `tasks` is the list of its rows, and a SQL
-- statement is the function on it that the statement denotes.
pub mod Polling
pub mod Choice
pub mod Rows
pub mod Events
pub mod Exclusive
pub mod Decoding
pub mod Recovery
pub mod Locks
pub mod Ends
pub mod RoundTrip
pub mod JsonArguments
pub mod Agreement
pub mod Phases
pub mod Lifecycle
pub mod Histories
pub mod Lawful
pub mod Limits
pub mod Order
mod Tests
mod Scenarios
mod JsonTests
use miniq.Base.{
  ℕ, suc, ◌+◌, Bool, true, false, ◌&&◌, ◌||◌, not, Option, none, some, String, List, [], ◌∷◌, ◌++◌,
  map, select, length, if◌then◌else◌, ◌==◌, ℤ, pos, ◌+ℤ◌, ◌-ℤ◌, ltb_ℤ, leb_ℤ, eqb_ℤ,
}
use miniq.Values.{Value, null, array, items, tuple_of}
use miniq.Exceptions.{
  Result, ok, err, ◌>>=◌, or_raise, type_error, integrity_error, operational_error,
}
use miniq.Task.{Task, TaskId, TaskStatus, pending, running, success, failed, Time}
use miniq.Serializers.{Bytes, Serializer}
use miniq.Sqlite.{Lock, Statement, transaction}

-- A row of the table `tasks`. The column `status` holds the value of a `TaskStatus`.
pub record Row : Type 0 where
  pub id : TaskId
  pub func_path : String
  pub args_json : Bytes
  pub kwargs_json : Bytes
  pub status : TaskStatus
  pub retries : ℤ
  pub max_retries : ℤ
  pub priority : ℤ
  pub created_at : Time
  pub started_at : Option Time
  pub finished_at : Option Time
  pub available_at : Option Time
  pub claimed_until : Option Time
  pub error : Option String

abbrev pub Table : Type 0
Table = List Row

-- `status = ?`
abbrev pub has_status : TaskStatus → TaskStatus → Bool
has_status pending pending = true
has_status running running = true
has_status success success = true
has_status failed failed = true
has_status _ _ = false

-- `UPDATE tasks SET ... WHERE ...`
abbrev pub update_where : (Row → Bool) → (Row → Row) → Table → Table
update_where test f [] = []
update_where test f (row ∷ rows) = (if test row then f row else row) ∷ update_where test f rows

-- `WHERE id = ?`
abbrev pub has_id : TaskId → Row → Bool
has_id tid row = row.id == tid

-- `INSERT INTO tasks`: the primary key must be new.
abbrev pub exists_id : TaskId → Table → Bool
exists_id tid [] = false
exists_id tid (row ∷ rows) = has_id tid row || exists_id tid rows

unfoldable pub insert_row : Row → Statement Table (Unit {0})
insert_row row rows =
    if exists_id row.id rows then err integrity_error else ok (tt, rows ++ row ∷ [])

-- The row that `enqueue` inserts: the columns that it does not list are NULL.
unfoldable pub row_of : Task → Bytes → Bytes → Row
row_of task args_blob kwargs_blob = record {
  id = task.id;
  func_path = task.func_path;
  args_json = args_blob;
  kwargs_json = kwargs_blob;
  status = task.status;
  retries = task.retries;
  max_retries = task.max_retries;
  priority = task.priority;
  created_at = task.created_at;
  started_at = none;
  finished_at = none;
  available_at = task.available_at;
  claimed_until = none;
  error = none;
}

-- `status = 'pending' AND (available_at IS NULL OR available_at <= now)`
unfoldable pub is_claimable : Time → Row → Bool
is_claimable now row =
    has_status pending row.status
    && (elim row.available_at [ none ↦ true | some at ↦ leb_ℤ at now ])

-- The order `priority DESC, created_at ASC`, strictly.
unfoldable pub precedes : Row → Row → Bool
precedes a b =
    ltb_ℤ b.priority a.priority || (eqb_ℤ a.priority b.priority && ltb_ℤ a.created_at b.created_at)

-- `ORDER BY priority DESC, created_at ASC LIMIT 1`. Of rows that the order does not tell apart SQL
-- may take any; this takes the first of the table.
unfoldable pub first_row : Table → Option Row
first_row [] = none
first_row (row ∷ rows) = elim (first_row rows) [
  | none ↦ some row
  | some best ↦ if precedes best row then some best else some row
]

-- The row of a claimed task.
abbrev pub claim_row : Time → Time → Row → Row
claim_row now claimed_until row = record row {
  status = running;
  started_at = some now;
  claimed_until = some claimed_until;
}

-- `WHERE status = 'running' AND claimed_until IS NOT NULL AND claimed_until <= now`
unfoldable pub is_overdue : Time → Row → Bool
is_overdue now row =
    has_status running row.status
    && (elim row.claimed_until [ none ↦ false | some until ↦ leb_ℤ until now ])

abbrev pub release_row : Row → Row
release_row row = record row { status = pending; started_at = none; claimed_until = none }

unfoldable pub reclaim_expired : Lock → Time → Table → Result (Unit {0}) × Table
reclaim_expired lock now =
    transaction false lock λ rows. ok (tt, update_where (is_overdue now) release_row rows)

-- The row of a task that has ended.
abbrev pub finish_row : Task → Row → Row
finish_row task row = record row {
  status = task.status;
  finished_at = task.finished_at;
  error = task.error;
  claimed_until = none;
}

unfoldable pub ack : Lock → Task → Table → Result (Unit {0}) × Table
ack lock task =
    transaction false lock λ rows. ok (tt, update_where (has_id task.id) (finish_row task) rows)

-- The row of a task that is put back.
abbrev pub requeue_row : Task → Row → Row
requeue_row task row = record row {
  status = pending;
  started_at = none;
  claimed_until = none;
  retries = task.retries;
  available_at = task.available_at;
}

unfoldable pub nack : Lock → Task → Bool → Table → Result (Unit {0}) × Table
nack lock task requeue = transaction false lock λ rows. ok (
  tt,
  if requeue
      then update_where (has_id task.id) (requeue_row task) rows
      else update_where (has_id task.id) (finish_row task) rows,
)

unfoldable pub size : Table → ℕ
size rows =
    length (select (λ row. has_status pending row.status || has_status running row.status) rows)

-- `except sqlite3.OperationalError: return None`
abbrev pub ignore_locked : Result (Option Task) × Table → Result (Option Task) × Table
ignore_locked (err operational_error, rows) = (ok none, rows)
ignore_locked (r, rows) = (r, rows)

module _ (serializer : Serializer) where
  -- What `enqueue` serializes before its transaction.
  unfoldable pub blobs_of : Task → Result (Bytes × Bytes)
  blobs_of task = do
    args_blob ← serializer.serialize (array (items task.args))
    kwargs_blob ← serializer.serialize task.kwargs
    ok (args_blob, kwargs_blob)

  unfoldable pub enqueue : Lock → Task → Table → Result (Unit {0}) × Table
  enqueue lock task rows = elim (blobs_of task) [
    | err e ↦ (err e, rows)
    | ok (args_blob, kwargs_blob) ↦
        transaction false lock (insert_row (row_of task args_blob kwargs_blob)) rows
  ]

  -- `_row_to_task`
  unfoldable pub row_to_task : Row → Result Task
  row_to_task row = do
    decoded ← serializer.deserialize row.args_json
    args ← or_raise (tuple_of decoded) type_error
    kwargs ← serializer.deserialize row.kwargs_json
    ok (record {
      func_path = row.func_path;
      args = args;
      kwargs = kwargs;
      id = row.id;
      status = row.status;
      retries = row.retries;
      max_retries = row.max_retries;
      priority = row.priority;
      created_at = row.created_at;
      started_at = row.started_at;
      finished_at = row.finished_at;
      available_at = row.available_at;
      result = null;
      error = row.error;
    })

  -- The body of the transaction of `_try_claim`.
  unfoldable pub claim : Time → Time → Statement Table (Option Task)
  claim now claimed_until rows = elim (first_row (select (is_claimable now) rows)) [
    | none ↦ ok (none, rows)
    | some row ↦ do
      let rows' = update_where (has_id row.id) (claim_row now claimed_until) rows
      task ← row_to_task row
      ok (some (record task { status = running; started_at = some now }), rows')
  ]

  unfoldable pub try_claim : Lock → Time → Time → Table → Result (Option Task) × Table
  try_claim lock visibility_timeout now rows =
      ignore_locked (transaction true lock (claim now (now +ℤ visibility_timeout)) rows)
