-- ===== src/Worker/InMemory.antt =====
-- A worker over the in-memory queue and results, and the ways in which a task leaves it.
use miniq.Base.{◌≡◌, ℤ, Option, none, some, String, List, [], ◌∷◌, ◌++◌, arith, erase}
use miniq.Values.{Value}
use miniq.Exceptions.{Exception, Result, ok, err}
use miniq.Task.{Task, Time}
use miniq.Heap.{Ref, Heap, modify, alloc}
use miniq.Memory.{Memory, Pass, Progress, returned, waiting, dequeue, ack, nack, enqueue, size}
use miniq.Registry.{Registry}
use miniq.Results.{MemoryResults, store_memory, get_memory}
use miniq.Results.Laws.{get_memory-store_memory}
use miniq.Backends.{Action, QueueBackend, ResultBackend}
use miniq.Worker.{Worker}

-- The queue and the results share one heap of tasks.
pub record World : Type 0 where
  pub memory : Memory
  pub results : MemoryResults

abbrev pub Dequeue : Type 0
Dequeue = (visibility_timeout wait_seconds : Time) → Action World (Option Ref)

abbrev pub memory_queue : Dequeue → QueueBackend World
memory_queue dequeue = record {
  enqueue = λ r w. (ok tt, record w { memory = enqueue r w.memory });
  dequeue = dequeue;
  ack = λ r w. (ok tt, record w { memory = ack r w.memory });
  nack = λ r requeue w. (ok tt, record w { memory = nack r requeue w.memory });
  size = λ w. (ok (size w.memory), w);
  close = λ w. (ok tt, w);
}

abbrev pub memory_results : ResultBackend World
memory_results = record {
  store = λ r w. (ok tt, record w { results = store_memory w.memory.heap r w.results });
  get = λ tid w. (
    ok (elim (get_memory tid w.results) [ none ↦ none | some r ↦ some (w.memory.heap.cell r) ]),
    w,
  );
  close = λ w. (ok tt, w);
}

-- `dequeue` of the queue, called at `called_at`. A call that still waits when the passes are over
-- has returned no task yet.
abbrev pub dequeued : World → Result (Progress × Memory) → Result (Option Ref) × World
dequeued w (err e) = (err e, w)
dequeued w (ok (returned found, m)) = (ok found, record w { memory = m })
dequeued w (ok (waiting, m)) = (ok none, record w { memory = m })

abbrev pub dequeue_in : (called_at : Time) → List Pass → Dequeue
dequeue_in called_at ps visibility_timeout wait_seconds w =
    dequeued w (dequeue visibility_timeout wait_seconds called_at ps w.memory)

-- A new task object.
abbrev pub new_object : Task → Action World Ref
new_object task w =
    let (r, heap) = alloc task w.memory.heap in
    let m = w.memory in (ok r, record w { memory = record m { heap = heap } })

abbrev pub task_in : Ref → World → Task
task_in r w = w.memory.heap.cell r

abbrev pub update_in : Ref → (Task → Task) → World → World
update_in r f w = let m = w.memory in record w { memory = record m { heap = modify r f m.heap } }

module _ {F : Type 0} (dequeue : Dequeue) (visibility_timeout poll_wait_seconds : Time)
    (next_delay : ℤ → Result (Option Time)) (registry : Registry F)
    (call : F → List Value → Value → Action World Value) (type_name text : Exception → String) where
  abbrev pub memory_worker : Worker World F
  memory_worker = record {
    queue = memory_queue dequeue;
    results = memory_results;
    next_delay = next_delay;
    visibility_timeout = visibility_timeout;
    poll_wait_seconds = poll_wait_seconds;
    registry = registry;
    call = call;
    task_at = task_in;
    update = update_in;
    type_name = type_name;
    text = text;
  }

module _ (r : Ref) (w w' : World) where
  -- The task has left the queue as `task`, with its result stored, and nothing else has left it.
  pub record IsSettled (task : Task) : Type 0 where
    pub task_is : task_in r w' ≡ task
    pub unclaimed : w'.memory.claimed ≡ erase task.id w.memory.claimed
    pub pending_kept : w'.memory.pending ≡ w.memory.pending
    pub stored : get_memory task.id w'.results ≡ some r

  -- The task waits in the queue as `task`, and no result is stored.
  pub record IsPutBack (task : Task) : Type 0 where
    pub task_is : task_in r w' ≡ task
    pub unclaimed : w'.memory.claimed ≡ erase task.id w.memory.claimed
    pub put_back : w'.memory.pending ≡ w.memory.pending ++ r ∷ []
    pub results_kept : w'.results ≡ w.results

pub cell_modify : (r : Ref) (f : Task → Task) (h : Heap) → (modify r f h).cell r ≡ f (h.cell r)
cell_modify r f h = ground arith

pub stored_self :
    (heap : Heap) (r : Ref) (results : MemoryResults) {task : Task}
    → heap.cell r ≡ task
    → get_memory task.id (store_memory heap r results) ≡ some r
stored_self heap r results e = rw (← e, get_memory-store_memory) (ground arith)
