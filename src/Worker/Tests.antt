-- ===== src/Worker/Tests.antt =====
-- A worker with one registered function.
use miniq.Base.{
  ℕ, ◌≡◌, refl, pos, ℤ, ◌+ℤ◌, ◌-ℤ◌, ◌≤ℤ◌, ltb_ℤ, leb_ℤ, none, some, Option, List, [], ◌∷◌, String,
  arith,
}
use miniq.Values.{Value, dict, end, null, object}
use miniq.Exceptions.{Exception, Result, ok, err, value_error, serialization_error, overflow_error}
use miniq.Task.{Task, running, Time, mark_success}
use miniq.Serializers.{Serializer}
use miniq.Sqlite.{free}
use miniq.Memory.{Claim, nack}
use miniq.Registry.{Registry, lookup}
use miniq.Results as Results
use miniq.Backends.{Action, ResultBackend}
use miniq.Worker.{Worker, run_task, run_found, after_call, handle_failure, retry_or_bury, run}
use miniq.Worker.Errors.{HasCalled, store_error_escapes}
use miniq.Worker.InMemory.{World, Dequeue, memory_queue, task_in, update_in}
use miniq.Retry.{Floats, fixed_next_delay}
use miniq.Worker.Outcome.{the_worker, TurnEnds, run_task-IsOutcome}
use miniq.Worker.Attempts.{Retries, no_more, once_more, retry_bound}

-- The task that is claimed: it has failed once, and may be retried twice more.
abbrev task : Task
task = record {
  func_path = "tasks.add";
  args = [];
  kwargs = dict end;
  id = 12;
  status = running;
  retries = pos 1;
  max_retries = pos 3;
  priority = pos 0;
  created_at = pos 1;
  started_at = some (pos 7);
  finished_at = none;
  available_at = none;
  result = null;
  error = none;
}

abbrev claim : Claim
claim = record { task = 0; expires_at = pos 50 }

abbrev world : World
world = record {
  memory = record {
    heap = record { cell = λ r. task; next = 1 };
    pending = [];
    claimed = (12, claim) ∷ [];
  };
  results = [];
}

abbrev dequeue : Dequeue
dequeue v s w = (ok (some 0), w)

abbrev registry : Registry ℕ
registry = ("tasks.add", 0) ∷ []

-- The function raises.
abbrev call_raises : ℕ → List Value → Value → Action World Value
call_raises f args kwargs w = (err value_error, w)

-- The function returns what no serializer takes.
abbrev call_returns : ℕ → List Value → Value → Action World Value
call_returns f args kwargs w = (ok (object 3), w)

abbrev text : Exception → String
text e = "oops"

-- `FixedDelay(5)`, over floats that are whole ticks.
abbrev ticks : Floats
ticks = record {
  Float = Time;
  zero = pos 0;
  one = pos 1;
  lt = ltb_ℤ;
  le = leb_ℤ;
  add = λ a b. a +ℤ b;
  mul = λ a b. a;
  neg = λ a. pos 0 -ℤ a;
  pow = λ a n. err overflow_error;
  uniform = λ a b. a;
}

abbrev always : ℤ → Result (Option Time)
always = fixed_next_delay ticks (pos 5)

outcome_example :
    TurnEnds dequeue (pos 30) (pos 1) always registry call_raises text text (pos 9) 0 world
outcome_example =
    run_task-IsOutcome dequeue (pos 30) (pos 1) always registry call_raises text text (pos 9) 0
      world (λ f. (err value_error, refl))

abbrev serializer : Serializer
serializer = record {
  serialize = λ v. err serialization_error;
  deserialize = λ blob. err serialization_error;
}

-- The results go to a SQLite table that is empty.
abbrev results : ResultBackend World
results = record {
  store = λ r w. ((Results.store serializer free (pos 9) (task_in r w) []).0, w);
  get = λ tid w. (ok none, w);
  close = λ w. (ok tt, w);
}

abbrev storing_worker : Worker World ℕ
storing_worker = record {
  queue = memory_queue dequeue;
  results = results;
  next_delay = always;
  visibility_timeout = pos 30;
  poll_wait_seconds = pos 1;
  registry = registry;
  call = call_returns;
  task_at = task_in;
  update = update_in;
  type_name = text;
  text = text;
}

has_returned : HasCalled storing_worker (pos 9) world 0 (ok (object 3), world)
unfolding lookup
has_returned = record { found = world; func = 0; dequeued = refl; registered = refl; called = refl }

abbrev marked : World
marked = update_in 0 (mark_success (object 3) (pos 9)) world

store_error_example :
    run storing_worker (pos 9 ∷ pos 10 ∷ []) world ≡ (err serialization_error, marked)
unfolding Results.store
store_error_example =
    store_error_escapes storing_worker (pos 9) (pos 10 ∷ []) world world marked 0 (object 3)
      serialization_error has_returned refl

-- The worker claims the task again that it has put back.
abbrev claimed_again : World → World
claimed_again w = record w { memory = record w.memory { claimed = (12, claim) ∷ [] } }

abbrev raising_worker : Worker World ℕ
raising_worker = the_worker dequeue (pos 30) (pos 1) always registry call_raises text text (pos 9)

abbrev after_turn : World → World
after_turn w = (run_task raising_worker (pos 9) 0 w).1

abbrev RetriesTwice : World → Type 0
RetriesTwice = Retries dequeue (pos 30) (pos 1) always registry call_raises text text 0 2 world

put_back_twice : RetriesTwice (after_turn (claimed_again (after_turn world)))
unfolding run_task run_found after_call handle_failure retry_or_bury lookup nack ◌+ℤ◌
    fixed_next_delay
put_back_twice = once_more {w'' = claimed_again (after_turn world)} (pos 9) refl refl refl refl (
    once_more {w'' = after_turn (claimed_again (after_turn world))} (pos 9) refl refl refl refl
      no_more)

retry_bound_example : pos 1 +ℤ pos 2 ≤ℤ pos 3
retry_bound_example =
    retry_bound dequeue (pos 30) (pos 1) always registry call_raises text text
      (λ f args kwargs w. (err value_error, refl)) 0 put_back_twice (omega arith)
