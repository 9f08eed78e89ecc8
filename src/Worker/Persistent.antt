-- ===== src/Worker/Persistent.antt =====
-- A worker of src/miniq/worker.py over SQLiteQueue and SQLiteResultBackend, in one process: the
-- heap is its own, the tables are shared with other connections.
use miniq.Base.{Option, none, some, String, List, [], ◌∷◌, ℤ}
use miniq.Values.{Value}
use miniq.Exceptions.{Exception, Result, ok, err}
use miniq.Task.{Task, Time}
use miniq.Heap.{Ref, Heap, modify, alloc}
use miniq.Registry.{Registry}
use miniq.Serializers.{Serializer}
use miniq.Sqlite.{Lock}
use miniq.SqliteQueue as Queue
use miniq.SqliteQueue.{Table}
use miniq.SqliteQueue.Polling as Polling
use miniq.SqliteQueue.Polling.{Pass, Progress, returned, polling}
use miniq.Results as Results
use miniq.Results.{ResultTable}
use miniq.Backends.{Action, ◌>>=◌, QueueBackend, ResultBackend}
use miniq.Worker.{Worker, run_once}

pub record Process : Type 0 where
  pub heap : Heap
  pub tasks : Table
  pub results : ResultTable

-- The locks that the calls of a turn meet, the clock at `store`, and what other connections do to
-- the tasks between `store` and the `ack` or `nack`.
pub record Others : Type 0 where
  pub enqueue_lock : Lock
  pub store_lock : Lock
  pub end_lock : Lock
  pub stored_at : Time
  pub before_end : Table → Table

abbrev pub Dequeue : Type 0
Dequeue = (visibility_timeout wait_seconds : Time) → Action Process (Option Ref)

-- What a statement on the tasks makes of the process.
abbrev pub on_tasks : {A : Type 0} → Process → Result A × Table → Result A × Process
on_tasks w (r, rows) = (r, record w { tasks = rows })

abbrev pub on_results : {A : Type 0} → Process → Result A × ResultTable → Result A × Process
on_results w (r, rows) = (r, record w { results = rows })

abbrev pub cell_in : Ref → Process → Task
cell_in r w = w.heap.cell r

abbrev pub update_in : Ref → (Task → Task) → Process → Process
update_in r f w = record w { heap = modify r f w.heap }

abbrev pub new_object : Task → Action Process Ref
new_object task w = let (r, heap) = alloc task w.heap in (ok r, record w { heap = heap })

-- The task that `dequeue` has made of a row is a new object. A call that still polls when the
-- passes are over has returned no task yet.
abbrev pub dequeued : Process → Result Progress × Table → Result (Option Ref) × Process
dequeued w (err e, rows) = (err e, record w { tasks = rows })
dequeued w (ok polling, rows) = (ok none, record w { tasks = rows })
dequeued w (ok (returned none), rows) = (ok none, record w { tasks = rows })
dequeued w (ok (returned (some task)), rows) =
    let (r, heap) = alloc task w.heap in (ok (some r), record w { heap = heap; tasks = rows })

module _ (serializer : Serializer) where
  abbrev pub dequeue_in : (called_at : Time) → List Pass → Dequeue
  dequeue_in called_at ps visibility_timeout wait_seconds w =
      dequeued w (Polling.dequeue serializer visibility_timeout wait_seconds called_at ps w.tasks)

  module _ (others : Others) (dequeue : Dequeue) where
    open others use {enqueue_lock, store_lock, end_lock, stored_at, before_end}

    abbrev pub sqlite_queue : QueueBackend Process
    sqlite_queue = record {
      enqueue = λ r w. on_tasks w (Queue.enqueue serializer enqueue_lock (cell_in r w) w.tasks);
      dequeue = dequeue;
      ack = λ r w. on_tasks w (Queue.ack end_lock (cell_in r w) (before_end w.tasks));
      nack = λ r requeue w.
          on_tasks w (Queue.nack end_lock (cell_in r w) requeue (before_end w.tasks));
      size = λ w. (ok (Queue.size w.tasks), w);
      close = λ w. (ok tt, w);
    }

    abbrev pub sqlite_results : ResultBackend Process
    sqlite_results = record {
      store = λ r w.
          on_results w (Results.store serializer store_lock stored_at (cell_in r w) w.results);
      get = λ tid w. (Results.get serializer stored_at tid w.results, w);
      close = λ w. (ok tt, w);
    }

    module _ {F : Type 0} (visibility_timeout poll_wait_seconds : Time)
        (next_delay : ℤ → Result (Option Time)) (registry : Registry F)
        (call : F → List Value → Value → Action Process Value)
        (type_name text : Exception → String) where
      abbrev pub sqlite_worker : Worker Process F
      sqlite_worker = record {
        queue = sqlite_queue;
        results = sqlite_results;
        next_delay = next_delay;
        visibility_timeout = visibility_timeout;
        poll_wait_seconds = poll_wait_seconds;
        registry = registry;
        call = call;
        task_at = cell_in;
        update = update_in;
        type_name = type_name;
        text = text;
      }

-- What the environment of one turn is: the clock, the call of `dequeue` and the rest of the turn.
pub record Turn : Type 0 where
  pub now : Time
  pub called_at : Time
  pub passes : List Pass
  pub others : Others

abbrev pub turn_worker :
    Serializer
    → {F : Type 0} → (visibility_timeout poll_wait_seconds : Time)
    → (next_delay : ℤ → Result (Option Time)) → Registry F
    → (F → List Value → Value → Action Process Value)
    → (type_name text : Exception → String) → Turn
    → Worker Process F
turn_worker serializer visibility_timeout poll_wait_seconds next_delay registry call type_name text
      t =
    sqlite_worker serializer t.others (dequeue_in serializer t.called_at t.passes)
      visibility_timeout poll_wait_seconds next_delay registry call type_name text

-- `run`, each turn of which has its own environment.
unfoldable pub run_turns :
    {F : Type 0} → (Turn → Worker Process F) → List Turn → Action Process (Unit {0})
run_turns worker [] w = (ok tt, w)
run_turns worker (t ∷ ts) w = (run_once (worker t) t.now >>= λ _. run_turns worker ts) w
