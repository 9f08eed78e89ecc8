-- ===== src/Worker/Outcome.antt =====
-- A worker over the in-memory queue and results: what becomes of the task that it has dequeued.
use miniq.Base.{
  ◌≡◌, refl, ap, ◌∙◌, inl, inr, ◌⊎◌, pos, ◌+ℤ◌, ◌<ℤ◌, ltb_ℤ, ℤ, Bool, true, Option, none, some,
  String, List, arith, Bool-cases,
}
use Prim.Native.String.{◌++◌}
use miniq.Values.{Value}
use miniq.Exceptions.{Exception, Result, ok, err, Result-cases}
use miniq.Task.{Task, Time, pending, success, failed, mark_success, mark_failed, mark_pending}
use miniq.Heap.{Ref, modify}
use miniq.Memory.{ack, nack}
use miniq.Registry.{Registry, lookup}
use miniq.Backends.{Action, feed, return}
use miniq.Worker.{
  Worker, schedule_retry, run_task, run_found, after_call, handle_failure, retry_or_bury,
  dead_letter, error_message,
}
use miniq.Worker.InMemory.{
  World, Dequeue, memory_worker, task_in, IsSettled, IsPutBack, cell_modify, stored_self,
}

-- A task whose function has returned `v`, one that has failed for good, and one that waits for its
-- next attempt.
abbrev pub succeeded : Value → Time → Task → Task
succeeded v now t = record t { status = success; result = v; finished_at = some now }

abbrev pub buried : String → Time → Task → Task
buried message now t = record t { status = failed; error = some message; finished_at = some now }

abbrev pub retried : Time → Time → Task → Task
retried delay now t = record t {
  status = pending;
  started_at = none;
  retries = t.retries +ℤ pos 1;
  available_at = some (now +ℤ delay);
}

module _ {F : Type 0} (dequeue : Dequeue) (visibility_timeout poll_wait_seconds : Time)
    (next_delay : ℤ → Result (Option Time)) (registry : Registry F)
    (call : F → List Value → Value → Action World Value) (type_name text : Exception → String)
    (now : Time) where
  abbrev pub the_worker : Worker World F
  the_worker =
      memory_worker dequeue visibility_timeout poll_wait_seconds next_delay registry call type_name
        text

  dead_letter-IsSettled :
      (r : Ref) (message : String) (w : World)
      → (w' : World) × (dead_letter the_worker now r message w ≡ (ok tt, w'))
        × IsSettled r w w' (buried message now (task_in r w))
  unfolding dead_letter nack
  dead_letter-IsSettled r message w =
      let same = cell_modify r (mark_failed message now) w.memory.heap in
      (
        _,
        refl,
        record {
          task_is = same;
          unclaimed = rw same refl;
          pending_kept = refl;
          stored = stored_self _ r w.results same;
        },
      )

  abbrev pub succeed : Ref → Value → World → Result Bool × World
  succeed r v w = after_call the_worker now r (ok v, w)

  pub success-IsSettled :
      (r : Ref) (v : Value) (w : World)
      → (w' : World) × (succeed r v w ≡ (ok true, w'))
        × IsSettled r w w' (succeeded v now (task_in r w))
  unfolding after_call ack
  success-IsSettled r v w =
      let same = cell_modify r (mark_success v now) w.memory.heap in
      (
        _,
        refl,
        record {
          task_is = same;
          unclaimed = rw same refl;
          pending_kept = refl;
          stored = stored_self _ r w.results same;
        },
      )

  retried-IsPutBack :
      (r : Ref) (x : Exception) (delay : Time) (w : World)
      → (w' : World) × (retry_or_bury the_worker now r x (ok (some delay)) w ≡ (ok tt, w'))
        × IsPutBack r w w' (retried delay now (task_in r w))
  unfolding retry_or_bury nack
  retried-IsPutBack r x delay w =
      let same = cell_modify r (schedule_retry delay now) w.memory.heap in
      (
        _,
        refl,
        record {
          task_is =
              cell_modify r mark_pending (modify r (schedule_retry delay now) w.memory.heap)
              ∙ ap mark_pending same;
          unclaimed = rw same refl;
          put_back = refl;
          results_kept = refl;
        },
      )

  module _ (r : Ref) (w w' : World) where
    abbrev pub HasRetries : Type 0
    HasRetries = (task_in r w).retries <ℤ (task_in r w).max_retries

    -- The policy's answer for the next attempt.
    abbrev pub Answers : Option Time → Type 0
    Answers o = next_delay ((task_in r w).retries +ℤ pos 1) ≡ ok o

    -- A task that has failed with `x` and has retries left waits for the delay that the policy
    -- says, PENDING and with one more retry counted; with none left, or a policy that declines, it
    -- is FAILED with the error, and stored.
    abbrev pub AfterFailure : Exception → Type 0
    AfterFailure x =
        ((delay : Time) × HasRetries
          × Answers (some delay)
          × IsPutBack r w w' (retried delay now (task_in r w)))
        ⊎ ((¬ HasRetries) ⊎ Answers none)
          × IsSettled r w w' (buried (type_name x ++ ": " ++ text x) now (task_in r w))

    -- A task whose function is not registered is FAILED; one whose function returns is SUCCESS with
    -- its result; and one whose function raises is retried or FAILED.
    abbrev pub IsOutcome : Type 0
    IsOutcome =
        ((x : Exception) × (lookup (task_in r w).func_path registry ≡ err x)
          × IsSettled r w w' (buried (text x) now (task_in r w)))
        ⊎ ((func : F) × (lookup (task_in r w).func_path registry ≡ ok func)
            × (((v : Value) × (call func (task_in r w).args (task_in r w).kwargs w ≡ (ok v, w))
                  × IsSettled r w w' (succeeded v now (task_in r w)))
                ⊎ ((x : Exception) × (call func (task_in r w).args (task_in r w).kwargs w
                      ≡ (err x, w))
                    × AfterFailure x)))

  -- How a turn ends whose function has raised `x`.
  abbrev AfterRaise : Ref → World → Exception → Type 0
  AfterRaise r w x =
      ((w' : World) × (handle_failure the_worker now r x w ≡ (ok tt, w')) × AfterFailure r w w' x)
      ⊎ ((e : Exception) × ((task_in r w).retries <ℤ (task_in r w).max_retries)
          × (next_delay ((task_in r w).retries +ℤ pos 1) ≡ err e)
          × (handle_failure the_worker now r x w ≡ (err e, w)))

  failed-AfterFailure : (r : Ref) (x : Exception) (w : World) → AfterRaise r w x
  unfolding handle_failure retry_or_bury
  failed-AfterFailure r x w =
      elim (Bool-cases (ltb_ℤ (task_in r w).retries (task_in r w).max_retries)) [
        | inr none_left ↦
            let (w', run, settled) = dead_letter-IsSettled r (error_message the_worker now x) w in
            inl (
              w',
              rw (handle_failure, none_left) run,
              inr (inl (λ (h : HasRetries r w w'). ground arith), settled),
            )
        | inl left ↦ by_answer left (next_delay ((task_in r w).retries +ℤ pos 1)) refl
      ]
    where
      by_answer :
          ltb_ℤ (task_in r w).retries (task_in r w).max_retries ≡ true
          → (o : Result (Option Time)) → next_delay ((task_in r w).retries +ℤ pos 1) ≡ o
          → AfterRaise r w x
      by_answer left (err e) answer =
          inr (e, ground arith, answer, rw (handle_failure, left, answer, retry_or_bury) refl)
      by_answer left (ok none) answer =
          let (w', run, settled) = dead_letter-IsSettled r (error_message the_worker now x) w in
          inl (w', rw (handle_failure, left, answer, retry_or_bury) run, inr (inr answer, settled))
      by_answer left (ok (some delay)) answer =
          let (w', run, back) = retried-IsPutBack r x delay w in
          inl (w', rw (handle_failure, left, answer) run, inl (delay, ground arith, answer, back))

  unregistered :
      (r : Ref) (w : World) {x : Exception} {w' : World}
      → lookup (task_in r w).func_path registry ≡ err x
      → dead_letter the_worker now r (text x) w ≡ (ok tt, w')
      → run_task the_worker now r w ≡ (ok true, w')
  unfolding run_task run_found
  unregistered r w missing run =
      ap (λ l. run_found the_worker now r l w) missing ∙ ap (λ y. feed y (λ _. return true)) run

  pub run_called :
      (r : Ref) (w : World) {func : F} {result : Result Value × World}
      → lookup (task_in r w).func_path registry ≡ ok func
      → call func (task_in r w).args (task_in r w).kwargs w ≡ result
      → run_task the_worker now r w ≡ after_call the_worker now r result
  unfolding run_task run_found
  run_called r w found called =
      ap (λ l. run_found the_worker now r l w) found ∙ ap (after_call the_worker now r) called

  called_failed :
      (r : Ref) (x : Exception) (w : World) {left : Result (Unit {0})} {w' : World}
      → handle_failure the_worker now r x w ≡ (left, w')
      → after_call the_worker now r (err x, w) ≡ feed (left, w') (λ _. return true)
  unfolding after_call
  called_failed r x w run = ap (λ y. feed y (λ _. return true)) run

  module _ (r : Ref) (w : World) where
    -- The function has raised with retries left, and the policy has raised `e` for the next
    -- attempt.
    abbrev pub PolicyRaises : Exception → Type 0
    PolicyRaises e =
        (func : F) × (x : Exception) × (lookup (task_in r w).func_path registry ≡ ok func)
        × (call func (task_in r w).args (task_in r w).kwargs w ≡ (err x, w))
        × ((task_in r w).retries <ℤ (task_in r w).max_retries)
        × (next_delay ((task_in r w).retries +ℤ pos 1) ≡ err e)

    -- How a turn may end.
    abbrev pub TurnEnds : Type 0
    TurnEnds =
        ((w' : World) × (run_task the_worker now r w ≡ (ok true, w')) × IsOutcome r w w')
        ⊎ ((e : Exception) × PolicyRaises e × (run_task the_worker now r w ≡ (err e, w)))

  -- A worker over the in-memory backends has dequeued a task, whose function returns or raises
  -- without touching the backends. A task whose function returns is SUCCESS with its result, stored
  -- and unclaimed; one whose function raises, with retries left and a delay from the policy, is
  -- PENDING after that delay with one more retry, back in the queue and not stored; with retries
  -- left and a policy that raises, the turn raises the policy's error and leaves the task, the queue
  -- and the results as they were; any other task is FAILED with the error, stored and unclaimed.
  pub run_task-IsOutcome :
      (r : Ref) (w : World)
      → ((func : F)
          → (v : Result Value) × (call func (task_in r w).args (task_in r w).kwargs w ≡ (v, w)))
      → TurnEnds r w
  run_task-IsOutcome r w calls = elim (Result-cases (lookup (task_in r w).func_path registry)) [
    | inr (x, missing) ↦
        let (w', run, settled) = dead_letter-IsSettled r (text x) w in
        inl (w', unregistered r w missing run, inl (x, missing, settled))
    | inl (func, found) ↦ by_result func found (calls func).0 (calls func).1
  ]
    where
      by_result :
          (func : F)
          → lookup (task_in r w).func_path registry ≡ ok func
          → (v : Result Value) → call func (task_in r w).args (task_in r w).kwargs w ≡ (v, w)
          → TurnEnds r w
      by_result func found (ok v) called =
          let (w', run, settled) = success-IsSettled r v w in
          inl (w', run_called r w found called ∙ run, inr (func, found, inl (v, called, settled)))
      by_result func found (err x) called = elim (failed-AfterFailure r x w) [
        | inl (w', run, after) ↦ inl (
          w',
          run_called r w found called ∙ called_failed r x w run,
          inr (func, found, inr (x, called, after)),
        )
        | inr (e, left, answer, run) ↦ inr (
          e,
          (func, x, found, called, left, answer),
          run_called r w found called ∙ called_failed r x w run,
        )
      ]
