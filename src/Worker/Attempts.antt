-- ===== src/Worker/Attempts.antt =====
-- How often the worker of src/miniq/worker.py retries one task, over the in-memory queue.
use miniq.Base.{
  ℕ, suc, ◌≡◌, ◌≢◌, sym, ap, subst, ◌∙◌, inl, inr, ℤ, pos, ◌+ℤ◌, ◌<ℤ◌, ◌≤ℤ◌, +ℤ_parts, Bool, true,
  Option, String, List, arith,
}
use miniq.Values.{Value}
use miniq.Exceptions.{Exception, Result, ok, err}
use miniq.Task.{Task, pending, success, failed, Time}
use miniq.Heap.{Ref}
use miniq.Registry.{Registry}
use miniq.Backends.{Action}
use miniq.Worker.{run_task}
use miniq.Worker.InMemory.{World, Dequeue, task_in}
use miniq.Worker.Outcome.{the_worker, run_task-IsOutcome, IsOutcome}

module _ {F : Type 0} (dequeue : Dequeue) (visibility_timeout poll_wait_seconds : Time)
    (next_delay : ℤ → Result (Option Time)) (registry : Registry F)
    (call : F → List Value → Value → Action World Value) (type_name text : Exception → String) where
  -- A turn of the worker at `now` with the task at `r`.
  abbrev pub Turn : Time → Ref → World → World → Type 0
  Turn now r w w' =
      run_task
        (the_worker dequeue visibility_timeout poll_wait_seconds next_delay registry call type_name
          text now)
        now r w
      ≡ (ok true, w')

  -- `n` turns in a row that have each put the task back. Between two of them the world may change,
  -- but neither the retries nor the `max_retries` of the task.
  pub data Retries (r : Ref) : ℕ → World → World → Type 0 where
    no_more : {w : World} → Retries r 0 w w
    once_more :
        {n : ℕ} {w w' w'' v : World} (now : Time)
        → Turn now r w w'
        → (task_in r w').status ≡ pending
        → (task_in r w'').retries ≡ (task_in r w').retries
        → (task_in r w'').max_retries ≡ (task_in r w').max_retries
        → Retries r n w'' v
        → Retries r (suc n) w v

  module _
      (calm : (func : F) (args : List Value) (kwargs : Value) (w : World)
        → (v : Result Value) × (call func args kwargs w ≡ (v, w))) where
    -- What a turn that puts the task back has done to it.
    abbrev Counted : Ref → World → World → Type 0
    Counted r w w' =
        ((task_in r w).retries <ℤ (task_in r w).max_retries)
        × ((task_in r w').retries ≡ (task_in r w).retries +ℤ pos 1)
        × ((task_in r w').max_retries ≡ (task_in r w).max_retries)

    err_not_ok : {x : Exception} → ◌≡◌ {A = Result Bool} (err x) (ok true) → ⊥
    err_not_ok e = cc

    failed_not_pending : failed ≢ pending
    failed_not_pending e = cc

    success_not_pending : success ≢ pending
    success_not_pending e = cc

    outcome-Counted :
        (now : Time) (r : Ref) (w w' : World)
        → IsOutcome dequeue visibility_timeout poll_wait_seconds next_delay registry call type_name
            text now r w w'
        → (task_in r w').status ≡ pending
        → Counted r w w'
    outcome-Counted now r w w' (inl (x, _, settled)) e =
        let s : (task_in r w').status ≡ failed = ap (λ (t : Task). t.status) settled.task_is in
        absurd (failed_not_pending (sym s ∙ e))
    outcome-Counted now r w w' (inr (func, _, inl (v, _, settled))) e =
        let s : (task_in r w').status ≡ success = ap (λ (t : Task). t.status) settled.task_is in
        absurd (success_not_pending (sym s ∙ e))
    outcome-Counted now r w w' (inr (func, _, inr (x, _, inl (delay, left, _, back)))) e = (
      left,
      ap (λ (t : Task). t.retries) back.task_is,
      ap (λ (t : Task). t.max_retries) back.task_is,
    )
    outcome-Counted now r w w' (inr (func, _, inr (x, _, inr (_, settled)))) e =
        let s : (task_in r w').status ≡ failed = ap (λ (t : Task). t.status) settled.task_is in
        absurd (failed_not_pending (sym s ∙ e))

    Turn-Counted :
        (now : Time) (r : Ref) (w w' : World)
        → Turn now r w w'
        → (task_in r w').status ≡ pending
        → Counted r w w'
    Turn-Counted now r w w' ran e =
        elim (run_task-IsOutcome dequeue visibility_timeout poll_wait_seconds next_delay registry
          call type_name text now r w (λ func. calm func _ _ w)) [
            | inl (w₁, ran', outcome) ↦
                let both : (ok true, w₁) ≡ (ok true, w') = sym ran' ∙ ran in
                let same : w₁ ≡ w' = ap (λ o. o.1) both in
                outcome-Counted now r w w'
                  (subst
                    (IsOutcome dequeue visibility_timeout poll_wait_seconds next_delay registry call
                      type_name text now r w)
                    same outcome)
                  e
            | inr (x, _, raised) ↦
                let both : ◌≡◌ {A = Result Bool × World} (err x, w) (ok true, w') =
                  sym raised ∙ ran in
                absurd (err_not_ok (ap (λ o. o.0) both))
          ]

    -- Where the functions leave the backends alone, a task that
    -- starts with no more retries than its `max_retries` is put back by `n` turns, between which
    -- the two stay as they are, only where its retries plus `n` are at most `max_retries`.
    pub retry_bound :
        (r : Ref) {n : ℕ} {w v : World}
        → Retries r n w v
        → (task_in r w).retries ≤ℤ (task_in r w).max_retries
        → (task_in r w).retries +ℤ pos n ≤ℤ (task_in r w).max_retries
    retry_bound r {w = w} no_more h = omega (arith, h, +ℤ_parts (task_in r w).retries (pos 0))
    retry_bound r (once_more {n} {w} {w'} {w''} now ran e same same' rest) h =
        let (left, counted, kept) = Turn-Counted now r w w' ran e in
        let n₀ = (task_in r w).retries in
        let more = retry_bound r rest in
        let fits : (task_in r w'').retries ≤ℤ (task_in r w'').max_retries =
          rw (same, same', counted, kept) (omega (arith, left, +ℤ_parts n₀ (pos 1))) in
        let bound = rw (same, same', counted, kept) at (more fits) in
        omega (
          arith,
          bound,
          +ℤ_parts n₀ (pos 1),
          +ℤ_parts (n₀ +ℤ pos 1) (pos n),
          +ℤ_parts n₀ (pos (suc n)),
        )
