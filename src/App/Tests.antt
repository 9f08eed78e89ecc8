-- ===== src/App/Tests.antt =====
-- A producer of one kind of task.
use miniq.Base.{ℕ, ℤ, ◌≡◌, refl, pos, ◌+ℤ◌, true, Option, none, some, String, [], List}
use miniq.Values.{Value, dict, end, null, object}
use miniq.Exceptions.{Exception, Result, ok, err, value_error}
use miniq.Task.{Task, pending, Time}
use miniq.Heap.{Heap}
use miniq.Memory.{Pass}
use miniq.Backends.{Action}
use miniq.Worker.{Worker, run_once}
use miniq.Worker.InMemory.{World, new_object}
use miniq.App.{TaskWrapper, Miniq, scheduled, new_task, delay, task_decorator}
use miniq.App.EndToEnd.{app, worker, IsDone, end_to_end}

abbrev wrapper : TaskWrapper
wrapper = record { func_path = "tasks.add"; max_retries = pos 3; priority = pos 2 }

-- What `schedule(countdown=60, priority=5)` enqueues at 100.
abbrev task : Task
task = record {
  func_path = "tasks.add";
  args = [];
  kwargs = dict end;
  id = 7;
  status = pending;
  retries = pos 0;
  max_retries = pos 3;
  priority = pos 5;
  created_at = pos 100;
  started_at = none;
  finished_at = none;
  available_at = some (pos 160);
  result = null;
  error = none;
}

counts_down :
    scheduled wrapper 7 (pos 100) (pos 100) [] none (some (pos 60)) none (some (pos 5)) ≡ ok task
unfolding scheduled new_task ◌+ℤ◌
counts_down = refl

not_both :
    scheduled wrapper 7 (pos 100) (pos 100) [] none (some (pos 60)) (some (pos 200)) none
    ≡ err value_error
unfolding scheduled
not_both = refl

-- A pass of `dequeue` during which nothing else happens.
abbrev pass : Pass
pass = record {
  reclaim_at = pos 200;
  now_wall = pos 200;
  started_at = pos 201;
  claimed_at = pos 201;
  checked_at = pos 202;
  others = λ m. m;
}

abbrev answer : ℕ → List Value → Value → Action World Value
answer n args kwargs w = (ok (object n), w)

abbrev no_text : Exception → String
no_text e = ""

abbrev never : ℤ → Result (Option Time)
never n = ok none

abbrev heap : Heap
heap = record { cell = λ q. task; next = 4 }

abbrev doing : Worker World ℕ
doing =
    worker "tasks.add" 3 (pos 0) (pos 2) [] answer no_text no_text never (pos 30) (pos 1) (pos 200)
      pass []

abbrev making : Miniq World
making =
    app "tasks.add" 3 (pos 0) (pos 2) [] answer no_text no_text never (pos 30) (pos 1) (pos 200)
      pass []

-- `@app.task(priority=2)` on the function at "tasks.add"
abbrev adding : TaskWrapper
adding = record { func_path = "tasks.add"; max_retries = pos 0; priority = pos 2 }

abbrev empty : World
empty = record { memory = record { heap = heap; pending = []; claimed = [] }; results = [] }

end_to_end_example :
    (w₁ : World) × (w₂ : World) × (delay making.queue new_object adding 9
        (pos 199)
        []
        (dict end)
        empty
      ≡ (ok 9, w₁))
    × (run_once doing (pos 201) w₁ ≡ (ok true, w₂))
    × IsDone "tasks.add" 3
        (pos 0)
        (pos 2)
        []
        answer
        no_text
        no_text
        never
        (pos 30)
        (pos 1)
        (pos 200)
        pass
        []
        9
        (object 3)
        w₂
unfolding task_decorator
end_to_end_example =
    end_to_end "tasks.add" 3 (pos 0) (pos 2) [] answer no_text no_text never (pos 30) (pos 1)
      (pos 200) pass [] 9 (pos 199) (pos 201) [] (dict end) heap [] (object 3) (λ w. refl)
