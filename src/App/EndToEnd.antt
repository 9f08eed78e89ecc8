-- ===== src/App/EndToEnd.antt =====
-- A task from `delay` to `AsyncResult.get`: an app with the in-memory backends and one worker.
use miniq.Base.{
  eq_self, ℤ, if◌then◌else◌, ◌+ℤ◌, ◌≡◌, refl, ap, subst, ◌∙◌, Option, none, some, String, List, [],
  ◌∷◌, true, Bool, erase,
}
use miniq.Values.{Value}
use miniq.Exceptions.{Exception, Result, ok}
use miniq.Task.{Task, TaskId, Time, mark_running}
use miniq.Heap.{Heap, alloc}
use miniq.Memory.{Pass, size, enqueue}
use miniq.Results.{MemoryResults, Look, ended, wait, wait_loop}
use miniq.Registry.{Registry, lookup}
use miniq.Backends.{Action, feed}
use miniq.Registry.Laws.{lookup-register_self}
use miniq.Worker.{Worker, run_once, run_dequeued}
use miniq.Worker.Outcome.{succeed, succeeded, run_called, success-IsSettled}
use miniq.Worker.InMemory.{
  World, dequeued, dequeue_in, IsSettled, memory_queue, memory_results, new_object, task_in,
  update_in, cell_modify,
}
use miniq.App.Single.{holding, claimed, dequeues}
use miniq.App.{
  TaskWrapper, Miniq, new_app, task_decorator, new_worker, delay, delayed, submit, new_task,
  async_get,
}

module _ {F : Type 0} (wrapped_path : String) (f : F) (max_retries priority : ℤ)
    (registry : Registry F) (call : F → List Value → Value → Action World Value)
    (type_name text : Exception → String) (next_delay : ℤ → Result (Option Time))
    (visibility_timeout poll_wait_seconds : Time) (called_at : Time) (p : Pass)
    (ps : List Pass) where
  abbrev pub app : Miniq World
  app = new_app (memory_queue (dequeue_in called_at (p ∷ ps))) memory_results none none

  abbrev pub wrapper : TaskWrapper
  wrapper = (task_decorator wrapped_path f max_retries priority registry).0

  abbrev pub worker : Worker World F
  worker =
      new_worker app
        (record {
          registry = (task_decorator wrapped_path f max_retries priority registry).1;
          call = call;
          task_at = task_in;
          update = update_in;
          type_name = type_name;
          text = text;
        })
        next_delay visibility_timeout poll_wait_seconds

  -- What `delay` makes of an app whose queue is empty.
  delayed_world :
      (tid : TaskId) (now : Time) (args : List Value) (kwargs : Value) (heap : Heap)
      (results : MemoryResults)
      → let task = delayed wrapper tid now args kwargs in
        let (r, heap') = alloc task heap in
        delay app.queue new_object wrapper tid now args kwargs (record {
          memory = record { heap = heap; pending = []; claimed = [] };
          results = results;
        })
        ≡ (ok tid, record { memory = holding heap' r p visibility_timeout; results = results })
  unfolding delay submit enqueue new_app delayed new_task
  delayed_world tid now args kwargs heap results = refl

  -- The task has been run, and nothing else is left: its result is what `AsyncResult.get` returns,
  -- whose `wait` ends at its first look.
  abbrev pub IsDone : TaskId → Value → World → Type 0
  IsDone tid v w =
      (size w.memory ≡ 0)
      × ((timeout : Option Time) (waits_at looked_at : Time) (looks : List Look)
          → let look : Look = record { seen = (app.results.get tid w).0; checked_at = looked_at } in
            (done : Task) × (wait tid timeout waits_at (look ∷ looks) ≡ ended (ok done))
            × (async_get tid (ok done) ≡ ok v))

  module _ (tid : TaskId) (now ran_at : Time) (args : List Value) (kwargs : Value) (heap : Heap)
      (results : MemoryResults) (v : Value)
      (pure : (w : World) → call f args kwargs w ≡ (ok v, w)) where
    abbrev task : Task
    task = delayed wrapper tid now args kwargs

    abbrev w₀ : World
    w₀ = record { memory = record { heap = heap; pending = []; claimed = [] }; results = results }

    claimed_world : World
    claimed_world = record {
      memory = claimed (alloc task heap).1 heap.next p visibility_timeout;
      results = results;
    }

    abbrev running_task : Task
    running_task = mark_running p.started_at task

    task_claimed : task_in heap.next claimed_world ≡ running_task
    unfolding claimed_world
    task_claimed =
        cell_modify heap.next (mark_running p.started_at) (alloc task heap).1
        ∙ ap (λ b. mark_running p.started_at (if b then task else heap.cell heap.next))
            (eq_self heap.next)

    called :
        call f
          (task_in heap.next claimed_world).args
          (task_in heap.next claimed_world).kwargs
          claimed_world
        ≡ (ok v, claimed_world)
    unfolding delayed new_task
    called = rw task_claimed (pure claimed_world)

    registered : lookup (task_in heap.next claimed_world).func_path worker.registry ≡ ok f
    unfolding delayed new_task new_worker task_decorator
    registered = rw task_claimed (lookup-register_self wrapped_path f registry)

    waits_for_nothing : ((alloc task heap).1.cell heap.next).available_at ≡ none
    unfolding delayed new_task
    waits_for_nothing =
        ap (λ b. (if b then task else heap.cell heap.next).available_at) (eq_self heap.next)

    abbrev delayed_to : World
    delayed_to = record {
      memory = holding (alloc task heap).1 heap.next p visibility_timeout;
      results = results;
    }

    abbrev succeeds : Result Bool × World
    succeeds =
        succeed (dequeue_in called_at (p ∷ ps)) visibility_timeout poll_wait_seconds next_delay
          worker.registry call type_name text ran_at heap.next v claimed_world

    turn_is : run_once worker ran_at delayed_to ≡ succeeds
    unfolding run_once new_worker new_app claimed_world
    turn_is =
        ap (λ d. feed (dequeued delayed_to d) (run_dequeued worker ran_at))
          (dequeues (alloc task heap).1 heap.next p visibility_timeout poll_wait_seconds called_at
            ps waits_for_nothing)
        ∙ run_called (dequeue_in called_at (p ∷ ps)) visibility_timeout poll_wait_seconds next_delay
            worker.registry call type_name text ran_at heap.next claimed_world registered called

    abbrev done_task : Task
    done_task = succeeded v ran_at running_task

    module _ (w : World) (s : IsSettled heap.next claimed_world w done_task) where
      nothing_claimed : w.memory.claimed ≡ []
      unfolding claimed_world
      nothing_claimed =
          s.unclaimed
          ∙ ap
              (λ t. erase task.id (
                (t.id, record { task = heap.next; expires_at = p.claimed_at +ℤ visibility_timeout })
                ∷ []))
              task_claimed
          ∙ rw (eq_self task.id) refl

      nothing_left : size w.memory ≡ 0
      unfolding size claimed_world
      nothing_left = rw (s.pending_kept, nothing_claimed) refl

      seen_is : (app.results.get tid w).0 ≡ ok (some done_task)
      unfolding new_app delayed new_task
      seen_is = rw (s.stored, s.task_is) refl

      settled-IsDone : IsDone tid v w
      unfolding wait wait_loop
      settled-IsDone =
          (nothing_left, λ timeout waits_at looked_at looks. (done_task, rw seen_is refl, refl))

    -- An app with the in-memory backends, whose queue is empty: `delay` returns the id of a new
    -- task; the next turn of a worker of the app, whose clock readings and waits may be any, runs
    -- the function that was wrapped, which returns `v` and does not touch the backends; after it the
    -- queue is empty, and `AsyncResult.get` of that id returns `v`.
    pub end_to_end :
        (w₁ : World) × (w₂ : World) × (delay app.queue new_object wrapper tid now args kwargs w₀
          ≡ (ok tid, w₁))
        × (run_once worker ran_at w₁ ≡ (ok true, w₂))
        × IsDone tid v w₂
    end_to_end =
        let (w₂, run, settled) =
          success-IsSettled (dequeue_in called_at (p ∷ ps)) visibility_timeout poll_wait_seconds
            next_delay worker.registry call type_name text ran_at heap.next v claimed_world in
        (
          delayed_to,
          w₂,
          delayed_world tid now args kwargs heap results,
          turn_is ∙ run,
          settled-IsDone w₂ (
              subst (λ t. IsSettled heap.next claimed_world w₂ (succeeded v ran_at t)) task_claimed
                settled),
        )
