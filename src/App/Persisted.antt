-- ===== src/App/Persisted.antt =====
-- A task from `delay` to `AsyncResult.get`: an app with the SQLite backends and one worker.
use miniq.Base.{
  eq_self, ℤ, if◌then◌else◌, ◌+ℤ◌, ◌≡◌, refl, ap, subst, ◌∙◌, Option, none, some, String, List, [],
  ◌∷◌, ◌++◌, true, false, Bool, select, inl, inr,
}
use miniq.Values.{Value, array, items}
use miniq.Exceptions.{Exception, Result, ok, ◌>>=◌}
use miniq.Task.{Task, TaskId, Time, success}
use miniq.Heap.{Ref, Heap, alloc}
use miniq.Registry.{Registry, lookup}
use miniq.Registry.Laws.{lookup-register_self}
use miniq.Serializers.{Bytes, Serializer}
use miniq.Sqlite.{free}
use miniq.SqliteQueue.{
  Row, Table, exists_id, row_of, is_claimable, first_row, row_to_task, update_where, has_id,
  finish_row, claim_row,
}
use miniq.SqliteQueue.Rows.{find_row-update_where, find_row-append_new}
use miniq.SqliteQueue.Phases.{phase, ended}
use miniq.SqliteQueue.RoundTrip.{RoundTrips, stored, decoded}
use miniq.SqliteQueue.Polling.{Pass}
use miniq.Results.Laws.{restored, get-replace_row}
use miniq.Results.{ResultTable, result_blob, wait_loop, Look, ended as finished, wait}
use miniq.Backends.{Action, feed}
use miniq.Worker.{Worker, run_once, run_dequeued, run_task, run_found, after_call}
use miniq.Worker.Outcome.{succeeded}
use miniq.Worker.Ending.{IsStored, Ends, not_stored, not_ended, has_ended}
use miniq.Worker.Durable.{succeeded-Ends}
use miniq.Worker.Persistent.{
  Process, Others, dequeued, dequeue_in, sqlite_queue, sqlite_results, new_object, cell_in,
  update_in,
}
use miniq.App.Sole.{enqueued, select-last, polls, claimed_task, claimed_rows}
use miniq.App.{
  TaskWrapper, Miniq, new_app, task_decorator, new_worker, delay, delayed, submit, new_task,
  async_get,
}

new_cell : (task : Task) (heap : Heap) → (alloc task heap).1.cell heap.next ≡ task
new_cell task heap = ap (λ b. if b then task else heap.cell heap.next) (eq_self heap.next)

module _ {F : Type 0} (serializer : Serializer) (wrapped_path : String) (f : F)
    (max_retries priority : ℤ) (registry : Registry F)
    (call : F → List Value → Value → Action Process Value) (type_name text : Exception → String)
    (next_delay : ℤ → Result (Option Time)) (visibility_timeout poll_wait_seconds : Time)
    (called_at stored_at : Time) (p : Pass) (ps : List Pass) where
  -- No lock is met, and no other connection touches the task.
  abbrev quiet : Others
  quiet = record {
    enqueue_lock = free;
    store_lock = free;
    end_lock = free;
    stored_at = stored_at;
    before_end = λ rows. rows;
  }

  abbrev pub app : Miniq Process
  app =
      new_app (sqlite_queue serializer quiet (dequeue_in serializer called_at (p ∷ ps)))
        (sqlite_results serializer quiet (dequeue_in serializer called_at (p ∷ ps))) none none

  abbrev pub wrapper : TaskWrapper
  wrapper = (task_decorator wrapped_path f max_retries priority registry).0

  abbrev pub worker : Worker Process F
  worker =
      new_worker app
        (record {
          registry = (task_decorator wrapped_path f max_retries priority registry).1;
          call = call;
          task_at = cell_in;
          update = update_in;
          type_name = type_name;
          text = text;
        })
        next_delay visibility_timeout poll_wait_seconds

  -- The task's row has ended, and its result is what `AsyncResult.get` returns, whose `wait` ends
  -- at its first look.
  abbrev pub IsDone : TaskId → Value → Process → Type 0
  IsDone tid v w =
      (phase tid w.tasks ≡ ended)
      × ((timeout : Option Time) (waits_at looked_at : Time) (looks : List Look)
          → let look : Look = record { seen = (app.results.get tid w).0; checked_at = looked_at } in
            (done : Task) × (wait tid timeout waits_at (look ∷ looks) ≡ finished (ok done))
            × (async_get tid (ok done) ≡ ok v))

  module _ (tid : TaskId) (now ran_at : Time) (args : List Value) (kwargs : Value) (heap : Heap)
      (rows : Table) (results : ResultTable) (v : Value)
      (pure : (w : Process) → call f args kwargs w ≡ (ok v, w))
      (args_trip : RoundTrips serializer (array (items args)))
      (kwargs_trip : RoundTrips serializer kwargs) (new : exists_id tid rows ≡ false)
      (sole : select (is_claimable p.first_at) rows ≡ []) (unlocked : p.first_lock ≡ free) where
    abbrev task : Task
    task = delayed wrapper tid now args kwargs

    abbrev w₀ : Process
    w₀ = record { heap = heap; tasks = rows; results = results }

    abbrev row : Row
    row = row_of task args_trip.0 kwargs_trip.0

    abbrev rows₁ : Table
    rows₁ = rows ++ row ∷ []

    abbrev w₁ : Process
    w₁ = record { heap = (alloc task heap).1; tasks = rows₁; results = results }

    delays : delay app.queue new_object wrapper tid now args kwargs w₀ ≡ (ok tid, w₁)
    unfolding delay submit new_app delayed new_task
    delays = rw (new_cell task heap, enqueued serializer task rows args_trip kwargs_trip new) refl

    row_found : first_row (select (is_claimable p.first_at) rows₁) ≡ some row
    unfolding first_row is_claimable row_of delayed new_task
    row_found = rw (select-last serializer (is_claimable p.first_at) rows row sole refl) refl

    row_decodes : row_to_task serializer row ≡ ok (stored task)
    unfolding delayed new_task
    row_decodes = decoded serializer task args_trip.0 kwargs_trip.0 args_trip.2 kwargs_trip.2

    abbrev run_as : Task
    run_as = claimed_task (stored task) p.first_at

    abbrev rows₂ : Table
    rows₂ = claimed_rows row rows₁ p.first_at visibility_timeout

    abbrev r : Ref
    r = w₁.heap.next

    abbrev w₂ : Process
    w₂ = record { heap = (alloc run_as w₁.heap).1; tasks = rows₂; results = results }

    cell_is : cell_in r w₂ ≡ run_as
    cell_is = new_cell run_as w₁.heap

    turn_is : run_once worker ran_at w₁ ≡ run_task worker ran_at r w₂
    unfolding run_once new_worker new_app
    turn_is =
        ap (λ d. feed (dequeued w₁ d) (run_dequeued worker ran_at))
          (polls serializer row rows₁ (stored task) p.first_at row_found row_decodes
            visibility_timeout poll_wait_seconds called_at p ps unlocked refl)

    registered : lookup (cell_in r w₂).func_path worker.registry ≡ ok f
    unfolding delayed new_task new_worker task_decorator
    registered = rw cell_is (lookup-register_self wrapped_path f registry)

    called : call f (cell_in r w₂).args (cell_in r w₂).kwargs w₂ ≡ (ok v, w₂)
    unfolding delayed new_task
    called = rw cell_is (pure w₂)

    abbrev done_task : Task
    done_task = succeeded v ran_at run_as

    -- The turn ends the task, whose function is found and returns.
    turn_calls : run_task worker ran_at r w₂ ≡ after_call worker ran_at r (ok v, w₂)
    unfolding run_task run_found new_worker
    turn_calls =
        ap (λ l. run_found worker ran_at r l w₂) registered ∙ ap (after_call worker ran_at r) called

    turn-Ends : Ends serializer quiet done_task w₂ (run_task worker ran_at r w₂)
    unfolding new_worker new_app
    turn-Ends = rw turn_calls (
        subst
          (λ t.
            Ends serializer quiet (succeeded v ran_at t) w₂ (after_call worker ran_at r (ok v, w₂)))
          cell_is
          (succeeded-Ends serializer quiet (dequeue_in serializer called_at (p ∷ ps))
            visibility_timeout poll_wait_seconds next_delay worker.registry call type_name text
            ran_at r v w₂))

    ends_row : phase tid (update_where (has_id tid) (finish_row done_task) rows₂) ≡ ended
    unfolding delayed new_task row_of
    ends_row =
        rw
          (
            find_row-update_where (has_id tid) (finish_row done_task) (λ _. refl) tid rows₂,
            find_row-update_where (has_id tid)
                (claim_row p.first_at (p.first_at +ℤ visibility_timeout)) (λ _. refl) tid rows₁,
            find_row-append_new tid rows row new,
          )
          (rw (eq_self tid) (rw (eq_self tid) (rw (eq_self tid) refl)))

    module _ (result_trip : RoundTrips serializer v) where
      blob_is :
          (blob : Option Bytes)
          → result_blob serializer success v ≡ ok blob
          → blob ≡ some result_trip.0
      blob_is blob e = let e' = rw (result_trip.1, ◌>>=◌) at e in cc

      reads :
          (w : Process)
          → IsStored serializer quiet done_task w₂ w
          → (app.results.get tid w).0 ≡ ok (some (restored stored_at done_task))
      unfolding new_app delayed new_task
      reads w (blob, made, results_are) =
          let b = blob_is blob made in
          rw (results_are, b)
            (get-replace_row serializer stored_at stored_at done_task results (some result_trip.0)
              (result_trip.1, result_trip.2))

      Ends-IsDone :
          (out : Result Bool × Process)
          → Ends serializer quiet done_task w₂ out
          → (w : Process) × (out ≡ (ok true, w)) × IsDone tid v w
      unfolding wait wait_loop delayed new_task
      Ends-IsDone out (not_stored e (inl fails) _ _) =
          absurd (let e' = rw (result_trip.1, ◌>>=◌) at fails in cc)
      Ends-IsDone out (not_stored e (inr (met, _)) _ _) = absurd (met refl)
      Ends-IsDone out (not_ended met _ _) = absurd (met refl)
      Ends-IsDone out (has_ended {w'} ends is_stored) = (
        w',
        refl,
        (
          rw ends ends_row,
          λ timeout waits_at looked_at looks.
              (restored stored_at done_task, rw (reads w' is_stored) refl, refl),
        ),
      )

      -- An app with the SQLite backends, on tables of which no row is claimable when the worker
      -- polls: `delay`, of a new id and arguments that the serializer reads back, returns the id;
      -- the next turn of a worker of the app, which meets no lock and which no other connection
      -- interferes with, runs the function that was wrapped, on the arguments; where it returns a
      -- value that the serializer reads back, and touches no table, the turn ends, after it the
      -- task's row has ended, and `AsyncResult.get` of that id returns the value.
      pub end_to_end_sqlite :
          (w : Process) × (w' : Process) × (delay app.queue new_object wrapper tid now args kwargs
              w₀
            ≡ (ok tid, w))
          × (run_once worker ran_at w ≡ (ok true, w'))
          × IsDone tid v w'
      end_to_end_sqlite =
          let (w', ran, done) = Ends-IsDone (run_task worker ran_at r w₂) turn-Ends in
          (w₁, w', delays, turn_is ∙ ran, done)
