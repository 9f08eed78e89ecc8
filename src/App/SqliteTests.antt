-- ===== src/App/SqliteTests.antt =====
-- A producer and a worker over SQLite, of tasks with no arguments.
use miniq.Base.{ℕ, ◌≡◌, refl, ℤ, pos, Option, none, some, String, List, [], ◌∷◌, true}
use miniq.Values.{Value, Items, Fields, array, dict, null}
use miniq.Exceptions.{Exception, Result, ok, err, value_error}
use miniq.Task.{Task, Time, pending, running, failed}
use miniq.Serializers.{Bytes, Serializer}
use miniq.Sqlite.{free}
use miniq.Backends.{Action}
use miniq.SqliteQueue.{Row}
use miniq.SqliteQueue.Polling.{Pass}
use miniq.Worker.{Worker, run_once}
use miniq.Worker.Persistent.{Process, Others, new_object}
use miniq.App.{TaskWrapper, Miniq, delay, task_decorator}
use miniq.App.Persisted.{app, worker, IsDone, end_to_end_sqlite}
use miniq.SqliteQueue.{is_claimable}
use miniq.SqliteQueue.Rows.{find_row}
use miniq.Results.{ResultRow, replace_row, result_row}
use miniq.Cli.{Database, task_replayed, cmd_dlq_replay}
use miniq.Cli.Replay.{Replayed}
use miniq.Worker.Ending.{has_ended}
use miniq.App.DeadLetters.{FailsWith, dead_letter-Replayed}

abbrev serialize : Value → Result Bytes
serialize (array Items.nil) = ok []
serialize (dict Fields.end) = ok (1 ∷ [])
serialize null = ok (1 ∷ 1 ∷ [])
serialize _ = err value_error

abbrev deserialize : Bytes → Result Value
deserialize [] = ok (array Items.nil)
deserialize (_ ∷ []) = ok (dict Fields.end)
deserialize _ = ok null

abbrev serializer : Serializer
serializer = record { serialize = serialize; deserialize = deserialize }

abbrev task : Task
task = record {
  func_path = "tasks.add";
  args = [];
  kwargs = dict Fields.end;
  id = 7;
  status = pending;
  retries = pos 0;
  max_retries = pos 3;
  priority = pos 5;
  created_at = pos 100;
  started_at = none;
  finished_at = none;
  available_at = none;
  result = null;
  error = none;
}

-- A task that waits until 500.
abbrev later : Row
later = record {
  id = 6;
  func_path = "tasks.add";
  args_json = [];
  kwargs_json = 1 ∷ [];
  status = pending;
  retries = pos 0;
  max_retries = pos 3;
  priority = pos 9;
  created_at = pos 100;
  started_at = none;
  finished_at = none;
  available_at = some (pos 500);
  claimed_until = none;
  error = none;
}

abbrev pass : Pass
pass = record {
  first_lock = free;
  first_at = pos 200;
  before_reclaim = λ t. t;
  reclaim_lock = free;
  reclaim_at = pos 200;
  before_second = λ t. t;
  second_lock = free;
  second_at = pos 200;
  checked_at = pos 200;
  during_sleep = λ t. t;
}

abbrev answer : ℕ → List Value → Value → Action Process Value
answer n args kwargs w = (ok null, w)

abbrev no_text : Exception → String
no_text e = ""

abbrev never : ℤ → Result (Option Time)
never n = ok none

abbrev doing : Worker Process ℕ
doing =
    worker serializer "tasks.add" 3 (pos 0) (pos 2) [] answer no_text no_text never (pos 30) (pos 1)
      (pos 200) (pos 202) pass []

abbrev making : Miniq Process
making =
    app serializer "tasks.add" 3 (pos 0) (pos 2) [] answer no_text no_text never (pos 30) (pos 1)
      (pos 200) (pos 202) pass []

abbrev adding : TaskWrapper
adding = record { func_path = "tasks.add"; max_retries = pos 0; priority = pos 2 }

abbrev start : Process
start = record { heap = record { cell = λ q. task; next = 4 }; tasks = later ∷ []; results = [] }

end_to_end_sqlite_example :
    (w : Process) × (w' : Process) × (delay making.queue new_object adding 9
        (pos 199)
        []
        (dict Fields.end)
        start
      ≡ (ok 9, w))
    × (run_once doing (pos 201) w ≡ (ok true, w'))
    × IsDone serializer "tasks.add" 3
        (pos 0)
        (pos 2)
        []
        answer
        no_text
        no_text
        never
        (pos 30)
        (pos 1)
        (pos 200)
        (pos 202)
        pass
        []
        9
        null
        w'
unfolding task_decorator is_claimable
end_to_end_sqlite_example =
    end_to_end_sqlite serializer "tasks.add" 3 (pos 0) (pos 2) [] answer no_text no_text never
      (pos 30) (pos 1) (pos 200) (pos 202) pass [] 9 (pos 199) (pos 201) [] (dict Fields.end)
      start.heap (later ∷ []) [] null (λ w. refl) ([], refl, refl) (1 ∷ [], refl, refl) refl refl
      refl (1 ∷ 1 ∷ [], refl, refl)

-- The worker has run `later` as a task, which has failed for good.
abbrev failing : Task
failing = record task { id = 6; status = running }

abbrev quiet : Others
quiet = record {
  enqueue_lock = free;
  store_lock = free;
  end_lock = free;
  stored_at = pos 520;
  before_end = λ t. t;
}

abbrev dead_row : Row
dead_row = record later { status = failed; finished_at = some (pos 510); error = some "oops" }

abbrev dead_result : ResultRow
dead_result = record {
  id = 6;
  func_path = "tasks.add";
  status = failed;
  result_json = none;
  error = some "oops";
  finished_at = some (pos 510);
  stored_at = pos 520;
}

abbrev ended_process : Process
ended_process = record start { tasks = dead_row ∷ []; results = dead_result ∷ [] }

abbrev dead_file : Database
dead_file = record { tasks = some (dead_row ∷ []); results = some (dead_result ∷ []) }

dead_letter_example :
    FailsWith serializer 6 "oops" (dead_result ∷ [])
    × (find_row 6 (dead_row ∷ []) ≡ some dead_row)
    × ((db' : Database) × (cmd_dlq_replay free 6 (some dead_file)
          ≡ (ok (0, task_replayed 6), some db'))
        × Replayed 6 dead_file (dead_row ∷ []) db')
unfolding replace_row result_row
dead_letter_example =
    dead_letter-Replayed serializer quiet failing "oops" (pos 510) start ended_process later refl
      (has_ended refl (none, refl, refl)) refl (refl, tt)
