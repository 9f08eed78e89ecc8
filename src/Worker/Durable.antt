-- ===== src/Worker/Durable.antt =====
-- A turn of a worker of src/miniq/worker.py over the SQLite backends, whatever locks it meets.
use miniq.Base.{
  ◌≡◌, refl, ap, subst, inl, inr, ◌⊎◌, pos, ◌+ℤ◌, ◌<ℤ◌, ltb_ℤ, ℤ, Bool, true, false, Option, none,
  some, String, List, arith, Bool-cases,
}
use Prim.Native.String.{◌++◌}
use miniq.Values.{Value}
use miniq.Exceptions.{Exception, Result, ok, err, Result-cases}
use miniq.Task.{Task, Time, mark_success, mark_failed}
use miniq.Heap.{Ref}
use miniq.Registry.{Registry, lookup}
use miniq.Serializers.{Serializer}
use miniq.SqliteQueue.{ack}
use miniq.Results.{ResultTable, replace_row, result_row}
use miniq.Backends.{Action, feed, ◌>>=◌, return}
use miniq.Worker.{
  Worker, schedule_retry, run_task, run_found, after_call, handle_failure, retry_or_bury,
  dead_letter, error_message,
}
use miniq.Worker.InMemory.{cell_modify}
use miniq.Worker.Outcome.{succeeded, buried}
use miniq.Worker.Ending.{
  Ends, not_stored, not_ended, has_ended, PutsBack, not_put_back, has_put_back, stores, finished,
  nack_finishes, requeued,
}
use miniq.Worker.Persistent.{Process, Others, Dequeue, cell_in, update_in, sqlite_worker, on_tasks}

feed_twice :
    {W A B C : Type 0} (x : Result A × W) (f : A → Action W B) (g : B → Action W C)
    → feed (feed x f) g ≡ feed x (λ a. f a >>= g)
feed_twice (ok a, w) f g = refl
feed_twice (err e, w) f g = refl

module _ (serializer : Serializer) (others : Others) (dequeue : Dequeue) {F : Type 0}
    (visibility_timeout poll_wait_seconds : Time) (next_delay : ℤ → Result (Option Time))
    (registry : Registry F) (call : F → List Value → Value → Action Process Value)
    (type_name text : Exception → String) (now : Time) where
  open others use {store_lock, end_lock, stored_at, before_end}

  abbrev pub the_worker : Worker Process F
  the_worker =
      sqlite_worker serializer others dequeue visibility_timeout poll_wait_seconds next_delay
        registry call type_name text

  module _ (r : Ref) (w : Process) (f : Task → Task) where
    abbrev marked : Process
    marked = update_in r f w

    -- `store`, and then what ends the task as `ack` does.
    abbrev stored_as : ResultTable → Process
    stored_as results = record marked { results = results }

    store_then :
        (finish : Action Process Bool)
        → ((results : ResultTable)
            → finish (stored_as results)
              ≡ feed
                  (on_tasks
                    (stored_as results)
                    (ack end_lock (cell_in r marked) (before_end w.tasks)))
                  (λ _. return true))
        → Ends serializer others
            (cell_in r marked)
            w
            (feed (the_worker.results.store r marked) (λ _. finish))
    store_then finish is_ack = elim (stores serializer others (cell_in r marked) w.results) [
      | inl (e, why, fails) ↦ rw fails (not_stored e why refl refl)
      | inr (blob, b, made) ↦
          rw
            (
              made,
              is_ack
                  (replace_row (result_row serializer (cell_in r marked) blob stored_at) w.results),
            )
            (elim (finished serializer others (cell_in r marked) (before_end w.tasks)) [
              | inl made' ↦ rw made' (has_ended refl (blob, b, refl))
              | inr (met, fails) ↦ rw fails (not_ended met refl (blob, b, refl))
            ])
    ]

  by_task :
      (r : Ref) (w : Process) (f : Task → Task) {out : Result Bool × Process}
      → Ends serializer others (cell_in r (update_in r f w)) w out
      → Ends serializer others (f (cell_in r w)) w out
  by_task r w f {out} h = subst (λ t. Ends serializer others t w out) (cell_modify r f w.heap) h

  buried-Ends :
      (r : Ref) (message : String) (w : Process)
      → Ends serializer others
          (buried message now (cell_in r w))
          w
          (feed (dead_letter the_worker now r message w) (λ _. return true))
  unfolding dead_letter
  buried-Ends r message w =
      let f = mark_failed message now in
      by_task r w f (
        rw
          (feed_twice (the_worker.results.store r (update_in r f w))
            (λ _. the_worker.queue.nack r false) (λ _. return true))
          (store_then r w f (the_worker.queue.nack r false >>= λ _. return true) (λ results.
            ap (λ y. feed (on_tasks (stored_as r w f results) y) (λ _. return true))
              (nack_finishes serializer others (cell_in r (update_in r f w))
                (before_end w.tasks)))))

  pub succeeded-Ends :
      (r : Ref) (v : Value) (w : Process)
      → Ends serializer others
          (succeeded v now (cell_in r w))
          w
          (after_call the_worker now r (ok v, w))
  unfolding after_call
  succeeded-Ends r v w =
      let f = mark_success v now in
      by_task r w f
        (store_then r w f (the_worker.queue.ack r >>= λ _. return true) (λ results. refl))

  put_back-PutsBack :
      (r : Ref) (x : Exception) (delay : Time) (w : Process)
      → PutsBack serializer others
          (schedule_retry delay now (cell_in r w))
          w
          (feed (retry_or_bury the_worker now r x (ok (some delay)) w) (λ _. return true))
  unfolding retry_or_bury
  put_back-PutsBack r x delay w =
      let f = schedule_retry delay now in
      let same = cell_modify r f w.heap in
      elim (requeued serializer others (cell_in r (update_in r f w)) (before_end w.tasks)) [
        | inl made ↦ rw made (has_put_back (rw same refl) refl)
        | inr (met, fails) ↦ rw fails (not_put_back met refl refl)
      ]

  module _ (r : Ref) (w : Process) where
    abbrev pub HasRetries : Type 0
    HasRetries = (cell_in r w).retries <ℤ (cell_in r w).max_retries

    -- The policy's answer for the next attempt.
    abbrev pub Answers : Result (Option Time) → Type 0
    Answers o = next_delay ((cell_in r w).retries +ℤ pos 1) ≡ o

    -- A task that has failed with `x` and has retries left is put back with one more retry, to wait
    -- for the delay that the policy says, unless the policy raises; with none left, or a policy that
    -- declines, it ends FAILED with the error.
    abbrev pub IsFailure : Exception → Result Bool × Process → Type 0
    IsFailure x out =
        ((e : Exception) × HasRetries × Answers (err e) × (out ≡ (err e, w)))
        ⊎ (((delay : Time) × HasRetries
              × Answers (ok (some delay))
              × PutsBack serializer others (schedule_retry delay now (cell_in r w)) w out)
            ⊎ ((¬ HasRetries) ⊎ Answers (ok none))
              × Ends serializer others (buried (type_name x ++ ": " ++ text x) now (cell_in r w)) w
                  out)

    -- What the result of the call makes of the task.
    abbrev pub AfterCall : Result Value → Result Bool × Process → Type 0
    AfterCall (ok v) out = Ends serializer others (succeeded v now (cell_in r w)) w out
    AfterCall (err x) out = IsFailure x out

    failed-IsFailure : (x : Exception) → IsFailure x (after_call the_worker now r (err x, w))
    unfolding after_call handle_failure retry_or_bury
    failed-IsFailure x = elim (Bool-cases (ltb_ℤ (cell_in r w).retries (cell_in r w).max_retries)) [
      | inr none_left ↦
          rw (handle_failure, none_left)
            (inr (
              inr (
                inl (λ (h : HasRetries). ground arith),
                buried-Ends r (error_message the_worker now x) w,
              )))
      | inl left ↦ by_answer left (next_delay ((cell_in r w).retries +ℤ pos 1)) refl
    ]
      where
        by_answer :
            ltb_ℤ (cell_in r w).retries (cell_in r w).max_retries ≡ true
            → (o : Result (Option Time)) → Answers o
            → IsFailure x (feed (handle_failure the_worker now r x w) (λ _. return true))
        by_answer left (err e) answer =
            rw (handle_failure, left, answer) (inl (e, ground arith, refl, refl))
        by_answer left (ok (some delay)) answer =
            rw (handle_failure, left, answer)
              (inr (inl (delay, ground arith, refl, put_back-PutsBack r x delay w)))
        by_answer left (ok none) answer =
            rw (handle_failure, left, answer)
              (inr (inr (inr refl, buried-Ends r (error_message the_worker now x) w)))

  -- A task whose function is not registered ends FAILED; otherwise its function is called, which
  -- may leave any process behind.
  abbrev pub IsTurn : Ref → Process → Result Bool × Process → Type 0
  IsTurn r w out =
      ((x : Exception) × (lookup (cell_in r w).func_path registry ≡ err x)
        × Ends serializer others (buried (text x) now (cell_in r w)) w out)
      ⊎ ((func : F) × (result : Result Value) × (w' : Process) × (lookup (cell_in r w).func_path
              registry
            ≡ ok func)
          × (call func (cell_in r w).args (cell_in r w).kwargs w ≡ (result, w'))
          × AfterCall r w' result out)

  after_call-AfterCall :
      (r : Ref) (w : Process) (result : Result Value)
      → AfterCall r w result (after_call the_worker now r (result, w))
  after_call-AfterCall r w (ok v) = succeeded-Ends r v w
  after_call-AfterCall r w (err x) = failed-IsFailure r w x

  -- A turn of a worker over the SQLite backends, whatever locks it meets, and whatever the task's
  -- function, the policy and other connections do. Where the function is not registered, or has
  -- raised and no retry is left or the policy declines, the task is to end FAILED with the error;
  -- where the function has returned, SUCCESS with its result. Its result is stored, and then its
  -- row ends; `store` may raise, for a result that is not serialized or on a lock, with neither
  -- table changed, and then a lock may make the turn raise with the tasks as other connections have
  -- left them. Where the function has raised with retries left, the policy may raise, with nothing
  -- changed; otherwise the row is put back with one more retry and the delay, unless a lock makes
  -- the turn raise with the tasks as other connections have left them, and no result changes.
  pub run_task-IsTurn : (r : Ref) (w : Process) → IsTurn r w (run_task the_worker now r w)
  unfolding run_task run_found
  run_task-IsTurn r w = elim (Result-cases (lookup (cell_in r w).func_path registry)) [
    | inr (x, missing) ↦ rw missing (inl (x, refl, buried-Ends r (text x) w))
    | inl (func, found) ↦
        let (result, w') = call func (cell_in r w).args (cell_in r w).kwargs w in
        rw found (inr (func, result, w', refl, refl, after_call-AfterCall r w' result))
  ]
