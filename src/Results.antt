-- ===== src/Results.antt =====
-- src/miniq/results.py: where finished tasks are kept, in memory and in the SQLite table
-- `task_results`.
pub mod Laws
pub mod Wait
mod Tests
use miniq.Base.{
  ℕ, ℤ, pos, Bool, true, false, Option, none, some, String, List, [], ◌∷◌, if◌then◌else◌, ◌==◌,
  ◌+ℤ◌, ◌-ℤ◌, leb_ℤ, Dict, lookup, insert,
}
use miniq.Values.{Value, null, dict, end}
use miniq.Exceptions.{Result, ok, err, ◌>>=◌, task_timeout}
use miniq.Task.{Task, TaskId, TaskStatus, pending, running, success, failed, Time}
use miniq.Heap.{Ref, Heap}
use miniq.Serializers.{Bytes, Serializer}
use miniq.Sqlite.{Lock, Statement, transaction}

-- `InMemoryResultBackend`: the dict `_results` of references to tasks.
abbrev pub MemoryResults : Type 0
MemoryResults = Dict Ref

unfoldable pub store_memory : Heap → Ref → MemoryResults → MemoryResults
store_memory heap r results = insert (heap.cell r).id r results

unfoldable pub get_memory : TaskId → MemoryResults → Option Ref
get_memory tid results = lookup tid results

-- A row of `task_results`.
pub record ResultRow : Type 0 where
  pub id : TaskId
  pub func_path : String
  pub status : TaskStatus
  pub result_json : Option Bytes
  pub error : Option String
  pub finished_at : Option Time
  pub stored_at : Time

abbrev pub ResultTable : Type 0
ResultTable = List ResultRow

-- `INSERT OR REPLACE`: a row with the id is replaced.
unfoldable pub replace_row : ResultRow → ResultTable → ResultTable
replace_row row [] = row ∷ []
replace_row row (r ∷ rows) = if r.id == row.id then row ∷ rows else r ∷ replace_row row rows

-- `SELECT * FROM task_results WHERE id = ?`
unfoldable pub find_result : TaskId → ResultTable → Option ResultRow
find_result tid [] = none
find_result tid (row ∷ rows) = if row.id == tid then some row else find_result tid rows

-- `task.status in (SUCCESS, FAILED)`
abbrev pub is_finished : TaskStatus → Bool
is_finished success = true
is_finished failed = true
is_finished _ = false

module _ (serializer : Serializer) where
  -- What `store` serializes before its transaction: only a successful task has a result.
  abbrev pub result_blob : TaskStatus → Value → Result (Option Bytes)
  result_blob success v = serializer.serialize v >>= λ blob. ok (some blob)
  result_blob _ v = ok none

  unfoldable pub result_row : Task → Option Bytes → Time → ResultRow
  result_row task blob stored_at = record {
    id = task.id;
    func_path = task.func_path;
    status = task.status;
    result_json = blob;
    error = task.error;
    finished_at = task.finished_at;
    stored_at = stored_at;
  }

  -- `store`, from the blob.
  abbrev pub write_result :
      Lock → Task → Time → Result (Option Bytes) → ResultTable → Result (Unit {0}) × ResultTable
  write_result lock task now (err e) rows = (err e, rows)
  write_result lock task now (ok blob) rows =
      transaction false lock (λ t. ok (tt, replace_row (result_row task blob now) t)) rows

  unfoldable pub store : Lock → Time → Task → ResultTable → Result (Unit {0}) × ResultTable
  store lock now task rows = write_result lock task now (result_blob task.status task.result) rows

  abbrev pub decode_result : Option Bytes → Result Value
  decode_result (some blob) = serializer.deserialize blob
  decode_result none = ok null

  -- `_row_to_task`: the other fields have the defaults of a task that is created at `now`.
  unfoldable pub result_to_task : Time → ResultRow → Result Task
  result_to_task now row = do
    result ← decode_result row.result_json
    ok (record {
      func_path = row.func_path;
      args = [];
      kwargs = dict end;
      id = row.id;
      status = row.status;
      retries = pos 0;
      max_retries = pos 0;
      priority = pos 0;
      created_at = now;
      started_at = none;
      finished_at = row.finished_at;
      available_at = none;
      result = result;
      error = row.error;
    })

  abbrev pub found_task : Time → Option ResultRow → Result (Option Task)
  found_task now none = ok none
  found_task now (some row) = result_to_task now row >>= λ task. ok (some task)

  unfoldable pub get : Time → TaskId → ResultTable → Result (Option Task)
  get now tid rows = found_task now (find_result tid rows)

-- One turn of the loop of `wait`: what `get` sees, and the monotonic clock at the check.
pub record Look : Type 0 where
  pub seen : Result (Option Task)
  pub checked_at : Time

-- `wait` has ended, or still waits when the given turns are over.
pub data Waiting : Type 0 where
  ended : Result Task → Waiting
  waits : Waiting

-- A turn that has seen no finished task: `rest` is the next turns.
abbrev pub check_deadline : TaskId → ℤ → Option Time → Look → Waiting → Waiting
check_deadline tid timeout none l rest = rest
check_deadline tid timeout (some d) l rest =
    if leb_ℤ (d -ℤ l.checked_at) (pos 0) then ended (err (task_timeout tid timeout)) else rest

abbrev pub turn : TaskId → ℤ → Option Time → Look → Result (Option Task) → Waiting → Waiting
turn tid timeout deadline l (err e) rest = ended (err e)
turn tid timeout deadline l (ok none) rest = check_deadline tid timeout deadline l rest
turn tid timeout deadline l (ok (some task)) rest =
    if is_finished task.status then ended (ok task) else check_deadline tid timeout deadline l rest

-- The `while True` loop of `wait`, of both backends.
unfoldable pub wait_loop : TaskId → ℤ → Option Time → List Look → Waiting
wait_loop tid timeout deadline [] = waits
wait_loop tid timeout deadline (l ∷ ls) =
    let rest = wait_loop tid timeout deadline ls in turn tid timeout deadline l l.seen rest

-- `timeout or 0.0`
abbrev pub or_zero : Option ℤ → ℤ
or_zero none = pos 0
or_zero (some t) = t

unfoldable pub wait : TaskId → Option Time → Time → List Look → Waiting
wait tid timeout called_at ls =
    wait_loop tid (or_zero timeout) (elim timeout [ none ↦ none | some t ↦ some (called_at +ℤ t) ])
      ls
