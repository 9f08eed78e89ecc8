-- ===== src/Worker/Limits.antt =====
-- How often tasks are retried by any number of workers of src/miniq/worker.py over SQLite, which
-- share the table.
use miniq.Base.{
  ◌≡◌, ap, sym, ◌∙◌, inl, inr, ℤ, pos, ◌+ℤ◌, ◌<ℤ◌, ◌≤ℤ◌, +ℤ_parts, Bool, true, Option, none, some,
  String, List, [], ◌∷◌, All, arith, ==_iff, subst, eq_self,
}
use miniq.Values.{Value}
use miniq.Exceptions.{Exception, Result, ok, err}
use miniq.Task.{Task, TaskId, Time}
use miniq.Heap.{Ref, alloc}
use miniq.Registry.{Registry}
use miniq.Serializers.{Serializer}
use miniq.SqliteQueue.{Row, Table, has_id, finish_row, requeue_row}
use miniq.SqliteQueue.Polling.{Progress, polling, returned}
use miniq.SqliteQueue.Limits.{
  InLimit, WithinLimits, HasLimit, KeepLimits, KeepsLimits, IsDequeued, All-update_where,
  dequeue-IsDequeued,
}
use miniq.Backends.{Action, feed}
use miniq.Worker.{Worker, schedule_retry, run_once, run_dequeued}
use miniq.Worker.Ending.{
  Ends, not_stored, not_ended, has_ended, PutsBack, not_put_back, has_put_back,
}
use miniq.Worker.Durable.{IsTurn, AfterCall, run_task-IsTurn}
use miniq.Worker.Persistent.{
  Process, Others, Dequeue, cell_in, dequeued, dequeue_in, Turn, turn_worker, run_turns,
}

module _ (serializer : Serializer) (limit : TaskId → ℤ) where
  abbrev Within : Process → Type 0
  Within w = WithinLimits serializer limit w.tasks

  -- Other connections keep the rows within the limits during a turn.
  abbrev pub KeepsOthers : Time → Turn → Type 0
  KeepsOthers visibility_timeout t =
      KeepLimits serializer limit t.others.before_end
      × All (KeepsLimits serializer limit visibility_timeout) t.passes

  -- A function of a task keeps the rows within the limits, and changes no object's `max_retries`
  -- away from its limit.
  abbrev pub CallKeeps : Process → Process → Type 0
  CallKeeps w w' =
      (Within w → Within w')
      × ((r : Ref)
          → HasLimit serializer limit (cell_in r w)
          → HasLimit serializer limit (cell_in r w'))

  one_more :
      (delay now : Time) (task : Task) (row : Row)
      → task.retries <ℤ task.max_retries
      → HasLimit serializer limit task
      → has_id task.id row ≡ true
      → InLimit serializer limit row
      → InLimit serializer limit (requeue_row (schedule_retry delay now task) row)
  one_more delay now task row left has met h =
      let same : task.id ≡ row.id = sym ((==_iff row.id task.id).0 met) in
      let most : task.retries +ℤ pos 1 ≤ℤ task.max_retries =
        omega (arith, left, +ℤ_parts task.retries (pos 1)) in
      (h.0, subst (λ m. task.retries +ℤ pos 1 ≤ℤ m) (has ∙ ap limit same) most)

  module _ (others : Others) (keep : KeepLimits serializer limit others.before_end) where
    Ends-Within :
        {task : Task} {w : Process} {out : Result Bool × Process}
        → Ends serializer others task w out
        → Within w
        → Within out.1
    Ends-Within (not_stored e why same _) h = rw same h
    Ends-Within {w = w} (not_ended met left _) h = rw left (keep w.tasks h)
    Ends-Within {task} {w} (has_ended ended _) h = rw ended (
        All-update_where (InLimit serializer limit) (has_id task.id) (finish_row task) (λ r _ k. k)
          (others.before_end w.tasks) (keep w.tasks h))

    PutsBack-Within :
        (delay now : Time) (task : Task) {w : Process} {out : Result Bool × Process}
        → task.retries <ℤ task.max_retries
        → HasLimit serializer limit task
        → PutsBack serializer others (schedule_retry delay now task) w out
        → Within w
        → Within out.1
    PutsBack-Within delay now task {w = w} left has (not_put_back met same _) h =
        rw same (keep w.tasks h)
    PutsBack-Within delay now task {w} left has (has_put_back back _) h = rw back (
        All-update_where (InLimit serializer limit) (has_id task.id)
          (requeue_row (schedule_retry delay now task))
          (λ r met k. one_more delay now task r left has met k) (others.before_end w.tasks)
          (keep w.tasks h))

  module _ {F : Type 0} (visibility_timeout poll_wait_seconds : Time)
      (next_delay : ℤ → Result (Option Time)) (registry : Registry F)
      (call : F → List Value → Value → Action Process Value) (type_name text : Exception → String)
      (calls : (func : F) (args : List Value) (kwargs : Value) (w : Process)
        → CallKeeps w (call func args kwargs w).1) where
    abbrev worker_of : Turn → Worker Process F
    worker_of =
        turn_worker serializer visibility_timeout poll_wait_seconds next_delay registry call
          type_name text

    module _ (t : Turn) (keep : KeepsOthers visibility_timeout t) where
      abbrev its_dequeue : Dequeue
      its_dequeue = dequeue_in serializer t.called_at t.passes

      AfterCall-Within :
          (r : Ref) (w : Process) (result : Result Value) (out : Result Bool × Process)
          → HasLimit serializer limit (cell_in r w)
          → AfterCall serializer t.others its_dequeue visibility_timeout poll_wait_seconds
              next_delay registry call type_name text t.now r w result out
          → Within w
          → Within out.1
      AfterCall-Within r w (ok v) out has ends h = Ends-Within t.others keep.0 ends h
      AfterCall-Within r w (err x) out has (inl (e, _, _, same)) h = rw same h
      AfterCall-Within r w (err x) out has (inr (inl (delay, left, _, back))) h =
          PutsBack-Within t.others keep.0 delay t.now (cell_in r w) left has back h
      AfterCall-Within r w (err x) out has (inr (inr (_, ends))) h =
          Ends-Within t.others keep.0 ends h

      IsTurn-Within :
          (r : Ref) (w : Process) (out : Result Bool × Process)
          → HasLimit serializer limit (cell_in r w)
          → IsTurn serializer t.others its_dequeue visibility_timeout poll_wait_seconds next_delay
              registry call type_name text t.now r w out
          → Within w
          → Within out.1
      IsTurn-Within r w out has (inl (x, _, ends)) h = Ends-Within t.others keep.0 ends h
      IsTurn-Within r w out has (inr (func, result, w', _, called, after)) h =
          let kept = rw called at (calls func (cell_in r w).args (cell_in r w).kwargs w) in
          AfterCall-Within r w' result out (kept.1 r has) after (kept.0 h)

      run_task-Within :
          (x : Result Progress × Table) (w : Process)
          → IsDequeued serializer limit x
          → Within (feed (dequeued w x) (run_dequeued (worker_of t) t.now)).1
      run_task-Within (err e, rows) w h = h
      run_task-Within (ok polling, rows) w h = h
      run_task-Within (ok (returned none), rows) w h = h
      run_task-Within (ok (returned (some task)), rows) w h =
          let (r, heap) = alloc task w.heap in
          IsTurn-Within r (record w { heap = heap; tasks = rows }) _
            (rw (eq_self w.heap.next) (h.0))
            (run_task-IsTurn serializer t.others its_dequeue visibility_timeout poll_wait_seconds
              next_delay registry call type_name text t.now r _)
            h.1

      run_once-Within : (w : Process) → Within w → Within (run_once (worker_of t) t.now w).1
      unfolding run_once
      run_once-Within w h = run_task-Within _ w (
          dequeue-IsDequeued serializer limit visibility_timeout poll_wait_seconds t.called_at
            t.passes w.tasks keep.1 h)

    run_rest :
        (x : Result Bool × Process) (rest : Action Process (Unit {0}))
        → ((w : Process) → Within w → Within (rest w).1)
        → Within x.1
        → Within (feed x (λ _. rest)).1
    run_rest (err e, w) rest h i = i
    run_rest (ok b, w) rest h i = h w i

    -- Where every row is within its task's limit (it counts no more retries than its `max_retries`,
    -- which is what its id was enqueued with), and other connections keep the rows so, as do the
    -- functions of the tasks, which also keep their objects' `max_retries`: every row is within its
    -- limit after any turns of a worker, whatever locks and clocks they meet, however often claims
    -- expire and are swept, and also where the worker's `run` is ended by an exception.
    pub run_turns-WithinLimits :
        (ts : List Turn) (w : Process)
        → All (KeepsOthers visibility_timeout) ts
        → WithinLimits serializer limit w.tasks
        → WithinLimits serializer limit (run_turns worker_of ts w).1.tasks
    unfolding run_turns
    run_turns-WithinLimits [] w keep h = h
    run_turns-WithinLimits (t ∷ ts) w keep h =
        run_rest (run_once (worker_of t) t.now w) (run_turns worker_of ts)
          (λ w' i. run_turns-WithinLimits ts w' keep.1 i) (run_once-Within t keep.0 w h)
