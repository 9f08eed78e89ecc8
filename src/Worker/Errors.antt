-- ===== src/Worker/Errors.antt =====
-- What a worker does not catch.
use miniq.Base.{◌≡◌, refl, ap, ◌∙◌, pos, ◌+ℤ◌, ◌<ℤ◌, ltb_ℤ, true, some, List, ◌∷◌, arith}
use miniq.Values.{Value}
use miniq.Exceptions.{Exception, Result, ok, err}
use miniq.Task.{Time, mark_success}
use miniq.Heap.{Ref}
use miniq.Registry.{lookup}
use miniq.Backends.{feed, ◌>>=◌, return}
use miniq.Worker.{
  Worker, run_once, run_task, run_found, run_dequeued, after_call, handle_failure, retry_or_bury,
  run,
}

module _ {W F : Type 0} (worker : Worker W F) (now : Time) where
  open worker use {queue, results, next_delay, registry, call, task_at, update}

  -- The worker has dequeued the task at `r`, and the call of its function has left `result`.
  pub record HasCalled (w : W) (r : Ref) (result : Result Value × W) : Type 0 where
    pub found : W
    pub func : F
    pub dequeued :
        queue.dequeue worker.visibility_timeout worker.poll_wait_seconds w ≡ (ok (some r), found)
    pub registered : lookup (task_at r found).func_path registry ≡ ok func
    pub called : call func (task_at r found).args (task_at r found).kwargs found ≡ result

  run_once-after_call :
      {w : W} {r : Ref} {result : Result Value × W}
      → HasCalled w r result
      → run_once worker now w ≡ after_call worker now r result
  unfolding run_once run_task run_found
  run_once-after_call {w} {r} {result} h =
      ap (λ x. feed x (run_dequeued worker now)) h.dequeued
      ∙ ap (λ x. run_found worker now r x h.found) h.registered
      ∙ ap (after_call worker now r) h.called

  ends_run :
      (w : W) {w' : W} {e : Exception} (nows : List Time)
      → run_once worker now w ≡ (err e, w')
      → run worker (now ∷ nows) w ≡ (err e, w')
  unfolding run
  ends_run w nows h = ap (λ x. feed x (λ _. run worker nows)) h

  -- Where the worker has dequeued a task whose function is registered and has returned, and
  -- `store` raises for the task marked SUCCESS, `run` raises that error, in the state that `store`
  -- has left: there is no `ack`, no `nack` and no further turn.
  pub store_error_escapes :
      (nows : List Time) (w w' w'' : W) (r : Ref) (v : Value) (e : Exception)
      → HasCalled w r (ok v, w')
      → results.store r (update r (mark_success v now) w') ≡ (err e, w'')
      → run worker (now ∷ nows) w ≡ (err e, w'')
  unfolding after_call
  store_error_escapes nows w w' w'' r v e h failed =
      ends_run w nows
        (run_once-after_call h ∙ ap (λ x. feed x (λ _. queue.ack r >>= λ _. return true)) failed)

  failure_raises :
      (w : W) (r : Ref) (x e : Exception)
      → (task_at r w).retries <ℤ (task_at r w).max_retries
      → next_delay ((task_at r w).retries +ℤ pos 1) ≡ err e
      → handle_failure worker now r x w ≡ (err e, w)
  unfolding handle_failure retry_or_bury
  failure_raises w r x e left failed =
      let more : ltb_ℤ (task_at r w).retries (task_at r w).max_retries ≡ true = ground arith in
      rw (handle_failure, more, failed, retry_or_bury) refl

  -- Where the worker has dequeued a task whose function is registered and has raised, with retries
  -- left, and the retry policy raises, `run` raises that error, in the state that the function has
  -- left: there is no `store`, no `nack` and no further turn.
  pub policy_error_escapes :
      (nows : List Time) (w w' : W) (r : Ref) (x e : Exception)
      → HasCalled w r (err x, w')
      → (task_at r w').retries <ℤ (task_at r w').max_retries
      → next_delay ((task_at r w').retries +ℤ pos 1) ≡ err e
      → run worker (now ∷ nows) w ≡ (err e, w')
  unfolding after_call
  policy_error_escapes nows w w' r x e h left failed = ends_run w nows (
      run_once-after_call h
      ∙ ap (λ y. feed y (λ _. return true)) (failure_raises w' r x e left failed))
