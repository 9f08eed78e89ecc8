-- ===== src/Worker.antt =====
-- src/miniq/worker.py, over any backends.
pub mod Errors
pub mod InMemory
pub mod Outcome
pub mod Attempts
pub mod Persistent
pub mod Ending
pub mod Durable
pub mod Delays
pub mod Lawful
pub mod Limits
mod Tests
mod SqliteTests
mod LimitsTests
use miniq.Base.{
  ℤ, pos, ◌+ℤ◌, ltb_ℤ, Bool, true, false, Option, none, some, String, List, [], ◌∷◌, if◌then◌else◌,
}
use Prim.Native.String.{◌++◌}
use miniq.Values.{Value}
use miniq.Exceptions.{Exception, Result, ok, err}
use miniq.Task.{Task, Time, mark_success, mark_failed}
use miniq.Heap.{Ref}
use miniq.Registry.{Registry, lookup}
use miniq.Backends.{Action, feed, ◌>>=◌, return, QueueBackend, ResultBackend}

-- A worker and what it works with: its fields, the registry, the call of a function with the
-- arguments of a task, the heap of tasks, and Python's `type(e).__name__` and `str(e)`.
pub record Worker (W F : Type 0) : Type 0 where
  pub queue : QueueBackend W
  pub results : ResultBackend W
  pub next_delay : ℤ → Result (Option Time)
  pub visibility_timeout : Time
  pub poll_wait_seconds : Time
  pub registry : Registry F
  pub call : F → List Value → Value → Action W Value
  pub task_at : Ref → W → Task
  pub update : Ref → (Task → Task) → W → W
  pub type_name : Exception → String
  pub text : Exception → String

-- `task.retries += 1; task.available_at = now + delay`
abbrev pub schedule_retry : Time → Time → Task → Task
schedule_retry delay now t = record t {
  retries = t.retries +ℤ pos 1;
  available_at = some (now +ℤ delay);
}

module _ {W F : Type 0} (worker : Worker W F) (now : Time) where
  open worker use {queue, results, next_delay, registry, call, task_at, update, type_name, text}

  -- Mutation of the task at `r`.
  abbrev pub set : Ref → (Task → Task) → Action W (Unit {0})
  set r f w = (ok tt, update r f w)

  -- `_dead_letter`
  unfoldable pub dead_letter : Ref → String → Action W (Unit {0})
  dead_letter r error_message =
      set r (mark_failed error_message now) >>= λ _. results.store r >>= λ _. queue.nack r false

  abbrev pub error_message : Exception → String
  error_message e = type_name e ++ ": " ++ text e

  -- `_handle_failure`, from what the policy says.
  unfoldable pub retry_or_bury : Ref → Exception → Result (Option Time) → Action W (Unit {0})
  retry_or_bury r exc (err e) w = (err e, w)
  retry_or_bury r exc (ok none) w = dead_letter r (error_message exc) w
  retry_or_bury r exc (ok (some delay)) w =
      (set r (schedule_retry delay now) >>= λ _. queue.nack r true) w

  -- `_handle_failure`: a task with no retries left is not put to the policy.
  unfoldable pub handle_failure : Ref → Exception → Action W (Unit {0})
  handle_failure r exc w =
      let task = task_at r w in
      if ltb_ℤ task.retries task.max_retries
      then retry_or_bury r exc (next_delay (task.retries +ℤ pos 1)) w
      else dead_letter r (error_message exc) w

  -- What `run_once` does after the call of the task's function.
  unfoldable pub after_call : Ref → Result Value × W → Result Bool × W
  after_call r (ok result, w) =
      (set r (mark_success result now) >>= λ _.
      results.store r >>= λ _. queue.ack r >>= λ _. return true)
        w
  after_call r (err e, w) = (handle_failure r e >>= λ _. return true) w

  -- `run_once` with the task that `dequeue` has returned, from what `lookup` says.
  unfoldable pub run_found : Ref → Result F → Action W Bool
  run_found r (err e) w = (dead_letter r (text e) >>= λ _. return true) w
  run_found r (ok func) w =
      let task = task_at r w in after_call r (call func task.args task.kwargs w)

  unfoldable pub run_task : Ref → Action W Bool
  run_task r w = run_found r (lookup (task_at r w).func_path registry) w

  abbrev pub run_dequeued : Option Ref → Action W Bool
  run_dequeued none = return false
  run_dequeued (some r) = run_task r

  unfoldable pub run_once : Action W Bool
  run_once = queue.dequeue worker.visibility_timeout worker.poll_wait_seconds >>= run_dequeued

-- `run`: `run_once` until `stop` is called, which the list of clocks, one for each turn, stands
-- for. An exception ends the loop.
unfoldable pub run : {W F : Type 0} → Worker W F → List Time → Action W (Unit {0})
run worker [] w = (ok tt, w)
run worker (now ∷ nows) w = (run_once worker now >>= λ _. run worker nows) w
