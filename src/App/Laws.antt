-- ===== src/App/Laws.antt =====
-- What a producer can rely on.
use miniq.Base.{
  ℤ, ◌≡◌, refl, sym, ap, inl, inr, ◌⊎◌, ◌+ℤ◌, leb_ℤ, arith, true, Option, none, some, List,
}
use miniq.Values.{Value, dict, end}
use miniq.Exceptions.{ok, err, task_failed}
use miniq.Task.{Task, TaskId, TaskStatus, pending, running, success, failed, Time}
use miniq.Serializers.{Bytes}
use miniq.Memory.{is_available}
use miniq.SqliteQueue.{row_of, is_claimable}
use miniq.Results.{Look, ended, is_finished, wait}
use miniq.Results.Wait.{wait-IsWaiting}
use miniq.App.{TaskWrapper, scheduled, new_task, or_else, async_get, outcome_of}

gates :
    (at t : Time) (task : Task) (a k : Bytes)
    → task.status ≡ pending
    → task.available_at ≡ some at
    → (is_available t task ≡ leb_ℤ at t) × (is_claimable t (row_of task a k) ≡ leb_ℤ at t)
unfolding is_available is_claimable row_of
gates at t task a k s e = (rw e (ground arith), rw (s, e) refl)

-- A task that is scheduled with a countdown and no time is available in the in-memory queue, and
-- its row is claimable in the SQLite queue, exactly from the call's time plus the countdown on.
pub countdown_gates :
    (wrapper : TaskWrapper) (tid : TaskId) (called_at now t : Time) (args : List Value)
    (kwargs : Option Value) (countdown : Time) (priority : Option ℤ) (a k : Bytes) (task : Task)
    → scheduled wrapper tid called_at now args kwargs (some countdown) none priority ≡ ok task
    → (is_available t task ≡ leb_ℤ (called_at +ℤ countdown) t)
      × (is_claimable t (row_of task a k) ≡ leb_ℤ (called_at +ℤ countdown) t)
unfolding scheduled new_task
countdown_gates wrapper tid called_at now t args kwargs countdown priority a k task e =
    let chosen = or_else priority wrapper.priority in
    let same : new_task wrapper tid now args (or_else kwargs (dict end))
          (some (called_at +ℤ countdown)) chosen
        ≡ task =
      cc in
    gates (called_at +ℤ countdown) t task a k (ap (λ (x : Task). x.status) (sym same))
      (ap (λ (x : Task). x.available_at) (sym same))

finished_cases :
    (tid : TaskId) (status : TaskStatus) (task : Task)
    → is_finished status ≡ true
    → (outcome_of tid status task ≡ ok task.result)
      ⊎ (outcome_of tid status task ≡ err (task_failed tid task.error))
finished_cases tid success task h = inl refl
finished_cases tid failed task h = inr refl
finished_cases tid pending task h = absurd (cc)
finished_cases tid running task h = absurd (cc)

-- Where `wait` has returned a task, `AsyncResult.get` returns the task's result or raises
-- TaskFailed with its error: never the RuntimeError of an unexpected status.
pub async_get-wait :
    (tid : TaskId) (timeout : Option Time) (called_at : Time) (ls : List Look) (task : Task)
    → wait tid timeout called_at ls ≡ ended (ok task)
    → (async_get tid (ok task) ≡ ok task.result)
      ⊎ (async_get tid (ok task) ≡ err (task_failed tid task.error))
async_get-wait tid timeout called_at ls task e =
    let w = rw e at (wait-IsWaiting tid timeout called_at ls) in
    finished_cases tid task.status task w.0
