-- ===== src/Pool/Entry.antt =====
-- `_worker_process_entry` of src/miniq/pool.py: what runs inside a worker process.
use miniq.Base.{◌≡◌, ap, ◌∙◌, String, List, [], ◌∷◌}
use miniq.Exceptions.{Result, ok, err}
use miniq.Task.{Time}
use miniq.Backends.{Action, feed, ◌>>=◌, return, QueueBackend, ResultBackend}
use miniq.Worker.{Worker, run}

-- `try: body` with `finally: cleanup`: what the cleanup raises replaces what the body has left.
abbrev pub after_cleanup : {W A : Type 0} → Result A → Result (Unit {0}) × W → Result A × W
after_cleanup left (ok _, w) = (left, w)
after_cleanup left (err e, w) = (err e, w)

abbrev pub cleaned_up : {W A : Type 0} → Action W (Unit {0}) → Result A × W → Result A × W
cleaned_up cleanup (left, w) = after_cleanup left (cleanup w)

-- `for module_name in task_modules: __import__(module_name)`
unfoldable pub import_each :
    {W : Type 0} → (String → Action W (Unit {0})) → List String → Action W (Unit {0})
import_each import_module [] = return tt
import_each import_module (m ∷ ms) = import_module m >>= λ _. import_each import_module ms

-- The arguments of the entry point: what an import does, the two factories, and `Worker(...)`.
pub record Entry (W F : Type 0) : Type 0 where
  pub import_module : String → Action W (Unit {0})
  pub queue_factory : Action W (QueueBackend W)
  pub results_factory : Action W (ResultBackend W)
  pub worker : QueueBackend W → ResultBackend W → Worker W F

module _ {W F : Type 0} (entry : Entry W F) (task_modules : List String) where
  open entry use {import_module, queue_factory, results_factory, worker}

  abbrev pub close_both : QueueBackend W → ResultBackend W → Action W (Unit {0})
  close_both queue results = queue.close >>= λ _. results.close

  abbrev pub run_and_close : List Time → QueueBackend W → ResultBackend W → Action W (Unit {0})
  run_and_close nows queue results w =
      cleaned_up (close_both queue results) (run (worker queue results) nows w)

  -- The turns of the worker's loop up to the signal, one for each of its clocks.
  unfoldable pub worker_process : List Time → Action W (Unit {0})
  worker_process nows = import_each import_module task_modules >>= λ _.
      queue_factory >>= λ queue. results_factory >>= λ results. run_and_close nows queue results

  -- The process as far as its worker's loop.
  pub record HasBegun (w : W) (queue : QueueBackend W) (results : ResultBackend W) (w' : W)
      : Type 0 where
    pub imported : W
    pub connected : W
    pub imports : import_each import_module task_modules w ≡ (ok tt, imported)
    pub makes_queue : queue_factory imported ≡ (ok queue, connected)
    pub makes_results : results_factory connected ≡ (ok results, w')

  -- A process whose imports and factories succeed, and whose worker's loop ends, by a signal or by
  -- what it raises: the queue is closed, and then, unless that raises, the results; and the process
  -- ends as the loop did, unless a close raises.
  pub worker_process_closes :
      (w w₁ w₂ w₃ w₄ : W) (queue : QueueBackend W) (results : ResultBackend W) (nows : List Time)
      (left : Result (Unit {0}))
      → HasBegun w queue results w₁
      → run (worker queue results) nows w₁ ≡ (left, w₂)
      → queue.close w₂ ≡ (ok tt, w₃)
      → results.close w₃ ≡ (ok tt, w₄)
      → worker_process nows w ≡ (left, w₄)
  unfolding worker_process
  worker_process_closes w w₁ w₂ w₃ w₄ queue results nows left b ran closed closed' =
      ap (λ y. feed y (λ _. queue_factory >>= λ q. results_factory >>= λ r. run_and_close nows q r))
        b.imports
      ∙ ap (λ y. feed y (λ q. results_factory >>= λ r. run_and_close nows q r)) b.makes_queue
      ∙ ap (λ y. feed y (λ r. run_and_close nows queue r)) b.makes_results
      ∙ ap (cleaned_up (close_both queue results)) ran
      ∙ ap (λ y. after_cleanup left (feed y (λ _. results.close))) closed
      ∙ ap (after_cleanup left) closed'
