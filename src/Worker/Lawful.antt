-- ===== src/Worker/Lawful.antt =====
-- What a worker of src/miniq/worker.py over the SQLite backends makes of the table `tasks`: only
-- what calls of SQLiteQueue make in which tasks have the status that belongs to the call.
use miniq.Base.{
  ◌≡◌, refl, ap, inl, inr, ℤ, Bool, true, Option, none, some, String, List, [], ◌∷◌, All,
}
use miniq.Values.{Value}
use miniq.Exceptions.{Exception, Result, ok, err}
use miniq.Task.{Task, Time}
use miniq.Heap.{Ref}
use miniq.Registry.{Registry}
use miniq.Serializers.{Serializer}
use miniq.Sqlite.{free, transaction}
use miniq.SqliteQueue.{Table, ack, nack}
use miniq.SqliteQueue.Events.{acks, nacks, after_event}
use miniq.SqliteQueue.Phases.{IsEnding}
use miniq.SqliteQueue.Polling.{Progress, polling, returned, dequeue}
use miniq.SqliteQueue.Lawful.{IsHistory, stay, one, also, KeepTo, KeepsTo, dequeue-IsHistory}
use miniq.Backends.{Action, feed}
use miniq.Worker.{Worker, run_once, run_dequeued}
use miniq.Worker.Ending.{
  Ends, not_stored, not_ended, has_ended, PutsBack, not_put_back, has_put_back,
}
use miniq.Worker.Durable.{IsTurn, AfterCall, run_task-IsTurn}
use miniq.Worker.Persistent.{
  Process, Others, Dequeue, cell_in, dequeued, dequeue_in, Turn, turn_worker, run_turns,
}

module _ (serializer : Serializer) where
  -- Other connections make such calls alone during a turn.
  abbrev pub IsShared : Time → Turn → Type 0
  IsShared visibility_timeout t =
      KeepTo serializer t.others.before_end × All (KeepsTo serializer visibility_timeout) t.passes

  module _ (others : Others) (lawful : KeepTo serializer others.before_end) where
    Ends-IsHistory :
        {task : Task} {w : Process} {out : Result Bool × Process}
        → IsEnding task.status
        → Ends serializer others task w out
        → IsHistory serializer w.tasks out.1.tasks
    unfolding after_event ack transaction
    Ends-IsHistory c (not_stored e why same _) = stay serializer same
    Ends-IsHistory {w = w} c (not_ended met left _) =
        also serializer (lawful w.tasks) (stay serializer left)
    Ends-IsHistory {task} {w} c (has_ended ended _) =
        also serializer (lawful w.tasks) (one serializer (acks free task) c ended)

    PutsBack-IsHistory :
        {task : Task} {w : Process} {out : Result Bool × Process}
        → PutsBack serializer others task w out
        → IsHistory serializer w.tasks out.1.tasks
    unfolding after_event nack transaction
    PutsBack-IsHistory {w = w} (not_put_back met left _) =
        also serializer (lawful w.tasks) (stay serializer left)
    PutsBack-IsHistory {task} {w} (has_put_back back _) =
        also serializer (lawful w.tasks) (one serializer (nacks free task true) tt back)

  dequeued_tasks : (w : Process) (x : Result Progress × Table) → (dequeued w x).1.tasks ≡ x.1
  dequeued_tasks w (err e, rows) = refl
  dequeued_tasks w (ok polling, rows) = refl
  dequeued_tasks w (ok (returned none), rows) = refl
  dequeued_tasks w (ok (returned (some task)), rows) = refl

  module _ {F : Type 0} (visibility_timeout poll_wait_seconds : Time)
      (next_delay : ℤ → Result (Option Time)) (registry : Registry F)
      (call : F → List Value → Value → Action Process Value) (type_name text : Exception → String)
      (calls : (func : F) (args : List Value) (kwargs : Value) (w : Process)
        → IsHistory serializer w.tasks (call func args kwargs w).1.tasks) where
    abbrev worker_of : Turn → Worker Process F
    worker_of =
        turn_worker serializer visibility_timeout poll_wait_seconds next_delay registry call
          type_name text

    module _ (t : Turn) (shared : IsShared visibility_timeout t) where
      abbrev its_dequeue : Dequeue
      its_dequeue = dequeue_in serializer t.called_at t.passes

      AfterCall-IsHistory :
          (r : Ref) (w : Process) (result : Result Value) (out : Result Bool × Process)
          → AfterCall serializer t.others its_dequeue visibility_timeout poll_wait_seconds
              next_delay registry call type_name text t.now r w result out
          → IsHistory serializer w.tasks out.1.tasks
      AfterCall-IsHistory r w (ok v) out ends = Ends-IsHistory t.others shared.0 (inl refl) ends
      AfterCall-IsHistory r w (err x) out (inl (e, _, _, same)) =
          stay serializer (ap (λ (o : Result Bool × Process). o.1.tasks) same)
      AfterCall-IsHistory r w (err x) out (inr (inl (_, _, _, back))) =
          PutsBack-IsHistory t.others shared.0 back
      AfterCall-IsHistory r w (err x) out (inr (inr (_, ends))) =
          Ends-IsHistory t.others shared.0 (inr refl) ends

      IsTurn-IsHistory :
          (r : Ref) (w : Process) (out : Result Bool × Process)
          → IsTurn serializer t.others its_dequeue visibility_timeout poll_wait_seconds next_delay
              registry call type_name text t.now r w out
          → IsHistory serializer w.tasks out.1.tasks
      IsTurn-IsHistory r w out (inl (x, _, ends)) = Ends-IsHistory t.others shared.0 (inr refl) ends
      IsTurn-IsHistory r w out (inr (func, result, w', _, called, after)) =
          also serializer (rw called at (calls func (cell_in r w).args (cell_in r w).kwargs w))
            (AfterCall-IsHistory r w' result out after)

      run_dequeued-IsHistory :
          (x : Result (Option Ref) × Process)
          → IsHistory serializer x.1.tasks (feed x (run_dequeued (worker_of t) t.now)).1.tasks
      run_dequeued-IsHistory (err e, w) = stay serializer refl
      run_dequeued-IsHistory (ok none, w) = stay serializer refl
      run_dequeued-IsHistory (ok (some r), w) = IsTurn-IsHistory r w _ (
          run_task-IsTurn serializer t.others its_dequeue visibility_timeout poll_wait_seconds
            next_delay registry call type_name text t.now r w)

      run_once-IsHistory :
          (w : Process) → IsHistory serializer w.tasks (run_once (worker_of t) t.now w).1.tasks
      unfolding run_once
      run_once-IsHistory w =
          let x =
            dequeue serializer visibility_timeout poll_wait_seconds t.called_at t.passes w.tasks in
          also serializer
            (rw (dequeued_tasks w x) (
              dequeue-IsHistory serializer visibility_timeout poll_wait_seconds t.called_at t.passes
                w.tasks shared.1))
            (run_dequeued-IsHistory (dequeued w x))

    run_rest :
        (x : Result Bool × Process) (rest : Action Process (Unit {0}))
        → ((w : Process) → IsHistory serializer w.tasks (rest w).1.tasks)
        → IsHistory serializer x.1.tasks (feed x (λ _. rest)).1.tasks
    run_rest (err e, w) rest h = stay serializer refl
    run_rest (ok b, w) rest h = h w

    -- Over any turns of a worker, with any locks met and any clocks, whether its functions and its
    -- policy return or raise, and also where its `run` is ended by an exception: what the table of
    -- tasks becomes, calls of the queue make of it in which tasks are PENDING when enqueued and have
    -- ended when acked or nacked for good, as long as the functions and the other connections make
    -- such calls alone.
    pub run_turns-IsHistory :
        (ts : List Turn) (w : Process)
        → All (IsShared visibility_timeout) ts
        → IsHistory serializer w.tasks (run_turns worker_of ts w).1.tasks
    unfolding run_turns
    run_turns-IsHistory [] w shared = stay serializer refl
    run_turns-IsHistory (t ∷ ts) w shared = also serializer (run_once-IsHistory t shared.0 w) (
        run_rest (run_once (worker_of t) t.now w) (run_turns worker_of ts)
          (λ w'. run_turns-IsHistory ts w' shared.1))
