-- ===== src/Worker/SqliteTests.antt =====
-- A worker over SQLite that meets a lock when it puts its task back.
use miniq.Base.{
  ℕ, ◌≡◌, ◌≢◌, ◌+ℤ◌, ◌++◌, true, arith, refl, ℤ, pos, Option, none, some, String, List, [], ◌∷◌,
}
use miniq.Values.{Value, dict, end, null, array, items}
use miniq.Exceptions.{Exception, Result, ok, err, value_error}
use miniq.Task.{Task, Time, running, pending}
use miniq.Registry.{Registry, lookup}
use miniq.Serializers.{Serializer}
use miniq.Sqlite.{free, at_commit, transaction}
use miniq.SqliteQueue.{
  Row, Table, has_id, update_where, requeue_row, nack, try_claim, claim, first_row, is_claimable,
  row_to_task,
}
use miniq.SqliteQueue.Polling.{Pass}
use miniq.Backends.{Action}
use miniq.Worker.{schedule_retry, run_task, run_found, after_call, handle_failure, retry_or_bury}
use miniq.Worker.Persistent.{Process, Others, Dequeue, Turn, turn_worker, run_turns}
use miniq.Worker.Durable.{IsTurn, the_worker, run_task-IsTurn}
use miniq.SqliteQueue.Lawful.{IsHistory, stay}
use miniq.Worker.Ending.{has_put_back}
use miniq.Worker.Delays.{retry_waits}
use miniq.Heap.{modify}
use miniq.Worker.Lawful.{IsShared, run_turns-IsHistory}

abbrev pub serializer : Serializer
serializer = record { serialize = λ v. ok []; deserialize = λ blob. ok (array (items [])) }

abbrev task : Task
task = record {
  func_path = "tasks.add";
  args = [];
  kwargs = dict end;
  id = 12;
  status = running;
  retries = pos 1;
  max_retries = pos 3;
  priority = pos 0;
  created_at = pos 1;
  started_at = some (pos 7);
  finished_at = none;
  available_at = none;
  result = null;
  error = none;
}

abbrev row : Row
row = record {
  id = 12;
  func_path = "tasks.add";
  args_json = [];
  kwargs_json = [];
  status = running;
  retries = pos 1;
  max_retries = pos 3;
  priority = pos 0;
  created_at = pos 1;
  started_at = some (pos 7);
  finished_at = none;
  available_at = none;
  claimed_until = some (pos 37);
  error = none;
}

abbrev pub process : Process
process = record { heap = record { cell = λ r. task; next = 1 }; tasks = row ∷ []; results = [] }

abbrev locked_at_end : Others
locked_at_end = record {
  enqueue_lock = free;
  store_lock = free;
  end_lock = at_commit;
  stored_at = pos 10;
  before_end = λ t. t;
}

abbrev dequeue : Dequeue
dequeue v s w = (ok (some 0), w)

abbrev pub registry : Registry ℕ
registry = ("tasks.add", 0) ∷ []

abbrev pub call_raises : ℕ → List Value → Value → Action Process Value
call_raises f args kwargs w = (err value_error, w)

abbrev pub text : Exception → String
text e = "oops"

abbrev pub always : ℤ → Result (Option Time)
always n = ok (some (pos 5))

turn_example :
    IsTurn serializer locked_at_end dequeue
      (pos 30)
      (pos 1)
      always
      registry
      call_raises
      text
      text
      (pos 9)
      0
      process
      (run_task
        (the_worker serializer locked_at_end dequeue
          (pos 30)
          (pos 1)
          always
          registry
          call_raises
          text
          text
          (pos 9))
        (pos 9)
        0
        process)
turn_example =
    run_task-IsTurn serializer locked_at_end dequeue (pos 30) (pos 1) always registry call_raises
      text text (pos 9) 0 process

-- The sweep of the pass meets a lock.
abbrev pub pass : Pass
pass = record {
  first_lock = free;
  first_at = pos 40;
  before_reclaim = λ t. t;
  reclaim_lock = free;
  reclaim_at = pos 40;
  before_second = λ t. t;
  second_lock = free;
  second_at = pos 40;
  checked_at = pos 41;
  during_sleep = λ t. t;
}

abbrev turn : Turn
turn = record { now = pos 42; called_at = pos 40; passes = pass ∷ []; others = locked_at_end }

alone : IsShared serializer (pos 30) turn
alone = (
  λ rows. stay serializer refl,
  ((λ rows. stay serializer refl, λ rows. stay serializer refl, λ rows. stay serializer refl), tt),
)

worker_history_example :
    IsHistory serializer process.tasks
      (run_turns
        (turn_worker serializer (pos 30) (pos 1) always registry call_raises text text)
        (turn ∷ turn ∷ [])
        process).1.tasks
worker_history_example =
    run_turns-IsHistory serializer (pos 30) (pos 1) always registry call_raises text text
      (λ f args kwargs w. stay serializer refl) (turn ∷ turn ∷ []) process (alone, (alone, tt))

-- With no lock, the task is put back.
abbrev pub quiet : Others
quiet = record locked_at_end { end_lock = free }

abbrev retried_task : Task
retried_task = schedule_retry (pos 5) (pos 9) task

abbrev put_back_process : Process
put_back_process = record process {
  heap = modify 0 (schedule_retry (pos 5) (pos 9)) process.heap;
  tasks = update_where (has_id 12) (requeue_row retried_task) (row ∷ []);
}

puts_back :
    run_task
      (the_worker serializer quiet dequeue
        (pos 30)
        (pos 1)
        always
        registry
        call_raises
        text
        text
        (pos 9))
      (pos 9)
      0
      process
    ≡ (ok true, put_back_process)
unfolding run_task run_found after_call handle_failure retry_or_bury lookup nack transaction
puts_back = refl

-- Another task, that may be claimed.
abbrev other_row : Row
other_row = record row { id = 13; status = pending; started_at = none; claimed_until = none }

abbrev rows : Table
rows = put_back_process.tasks ++ other_row ∷ []

abbrev other : Task
other = record task { id = 13; kwargs = array (items []); started_at = some (pos 13) }

abbrev rows_after : Table
rows_after =
    put_back_process.tasks
    ++ record row { id = 13; started_at = some (pos 13); claimed_until = some (pos 43) } ∷ []

claims_other : try_claim serializer free (pos 30) (pos 13) rows ≡ (ok (some other), rows_after)
unfolding try_claim claim transaction first_row is_claimable row_to_task ◌+ℤ◌
claims_other = refl

retry_waits_example : ◌≢◌ {A = ℕ} 13 12
unfolding ◌+ℤ◌
retry_waits_example =
    retry_waits serializer quiet task (pos 5) (pos 9) process put_back_process row
      (has_put_back refl refl) refl free (pos 30) (pos 13) rows rows_after other (refl, (refl, tt))
      refl (omega arith) claims_other
