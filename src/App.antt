-- ===== src/App.antt =====
-- `TaskWrapper` and `Miniq` of src/miniq/app.py, and `AsyncResult` of src/miniq/task.py.
pub mod Laws
pub mod Single
pub mod EndToEnd
pub mod Sole
pub mod Persisted
pub mod DeadLetters
mod Tests
mod SqliteTests
use miniq.Base.{ℤ, pos, ◌+ℤ◌, Option, none, some, String, List}
use miniq.Values.{Value, null, dict, end}
use miniq.Exceptions.{Exception, Result, ok, err, value_error, runtime_error, task_failed}
use miniq.Task.{Task, TaskId, TaskStatus, pending, running, success, failed, Time}
use miniq.Heap.{Ref}
use miniq.Backends.{Action, feed, ◌>>=◌, return, QueueBackend, ResultBackend}
use miniq.Registry.{Registry, register}
use miniq.Worker.{Worker}

-- The fields of a wrapper that its tasks get.
pub record TaskWrapper : Type 0 where
  pub func_path : String
  pub max_retries : ℤ
  pub priority : ℤ

-- The task that `_enqueue` makes; its id and creation time are the defaults that Task makes.
unfoldable pub new_task : TaskWrapper → TaskId → Time → List Value → Value → Option Time → ℤ → Task
new_task wrapper tid now args kwargs available_at priority = record {
  func_path = wrapper.func_path;
  args = args;
  kwargs = kwargs;
  id = tid;
  status = pending;
  retries = pos 0;
  max_retries = wrapper.max_retries;
  priority = priority;
  created_at = now;
  started_at = none;
  finished_at = none;
  available_at = available_at;
  result = null;
  error = none;
}

-- What `delay` enqueues.
unfoldable pub delayed : TaskWrapper → TaskId → Time → List Value → Value → Task
unfolding new_task
delayed wrapper tid now args kwargs = new_task wrapper tid now args kwargs none wrapper.priority

-- `available_at` of `schedule`, which was called at `called_at`.
abbrev pub start_time : Time → (countdown at : Option Time) → Result (Option Time)
start_time called_at (some c) (some a) = err value_error
start_time called_at (some c) none = ok (some (called_at +ℤ c))
start_time called_at none (some a) = ok (some a)
start_time called_at none none = ok none

abbrev pub or_else {ℓ} : {A : Type ℓ} → Option A → A → A
or_else none b = b
or_else (some a) b = a

-- What `schedule` enqueues, or raises.
abbrev pub task_at_start :
    TaskWrapper → TaskId → Time → List Value → Value → ℤ → Result (Option Time) → Result Task
task_at_start wrapper tid now args kwargs priority (err e) = err e
task_at_start wrapper tid now args kwargs priority (ok available_at) =
    ok (new_task wrapper tid now args kwargs available_at priority)

unfoldable pub scheduled :
    TaskWrapper
    → TaskId
    → (called_at now : Time) → List Value
    → Option Value
    → (countdown at : Option Time) → Option ℤ
    → Result Task
scheduled wrapper tid called_at now args kwargs countdown at priority =
    task_at_start wrapper tid now args (or_else kwargs (dict end))
      (or_else priority wrapper.priority) (start_time called_at countdown at)

module _ {W : Type 0} (queue : QueueBackend W) (new_object : Task → Action W Ref) where
  -- `_enqueue`: the result is the id that the AsyncResult holds.
  unfoldable pub submit : Task → Action W TaskId
  submit task = new_object task >>= λ r. queue.enqueue r >>= λ _. return task.id

  unfoldable pub delay : TaskWrapper → TaskId → Time → List Value → Value → Action W TaskId
  delay wrapper tid now args kwargs = submit (delayed wrapper tid now args kwargs)

-- `AsyncResult.get`, from the task that `wait` has returned, or what it has raised.
abbrev pub outcome_of : TaskId → TaskStatus → Task → Result Value
outcome_of tid success task = ok task.result
outcome_of tid failed task = err (task_failed tid task.error)
outcome_of tid _ task = err runtime_error

abbrev pub async_get : TaskId → Result Task → Result Value
async_get tid (err e) = err e
async_get tid (ok task) = outcome_of tid task.status task

-- `Miniq`: the backends that it was given, or new ones in memory.
pub record Miniq (W : Type 0) : Type 0 where
  pub queue : QueueBackend W
  pub results : ResultBackend W

unfoldable pub new_app :
    {W : Type 0}
    → (new_queue : QueueBackend W) → (new_results : ResultBackend W) → Option (QueueBackend W)
    → Option (ResultBackend W)
    → Miniq W
new_app new_queue new_results queue results = record {
  queue = or_else queue new_queue;
  results = or_else results new_results;
}

-- `Miniq.task`, applied to the function `f` of this path: the wrapper, and the registry after it.
unfoldable pub task_decorator :
    {F : Type 0} → String → F → (max_retries priority : ℤ) → Registry F → TaskWrapper × Registry F
task_decorator func_path f max_retries priority registry = (
  record { func_path = func_path; max_retries = max_retries; priority = priority },
  register func_path f registry,
)

-- What a worker needs besides the backends: see `Worker`.
pub record Setting (W F : Type 0) : Type 0 where
  pub registry : Registry F
  pub call : F → List Value → Value → Action W Value
  pub task_at : Ref → W → Task
  pub update : Ref → (Task → Task) → W → W
  pub type_name : Exception → String
  pub text : Exception → String

-- `Miniq.worker`
unfoldable pub new_worker :
    {W F : Type 0}
    → Miniq W
    → Setting W F
    → (next_delay : ℤ → Result (Option Time)) → (visibility_timeout poll_wait_seconds : Time)
    → Worker W F
new_worker app setting next_delay visibility_timeout poll_wait_seconds = record {
  queue = app.queue;
  results = app.results;
  next_delay = next_delay;
  visibility_timeout = visibility_timeout;
  poll_wait_seconds = poll_wait_seconds;
  registry = setting.registry;
  call = setting.call;
  task_at = setting.task_at;
  update = setting.update;
  type_name = setting.type_name;
  text = setting.text;
}
