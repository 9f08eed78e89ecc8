-- ===== src/Cli/RunWorkers.antt =====
-- `miniq worker` of src/miniq/cli.py: a pool from its start to the signal that stops it.
use miniq.Base.{
  ℕ, suc, ◌<◌, subst, ℤ, pos, pos_part, ◌+ℤ◌, ◌≤ℤ◌, ◌≡◌, refl, sym, ap, ◌∙◌, inl, inr, true, false,
  Option, none, String, List, [], ◌∷◌, All, All2, length, arith,
}
use miniq.Exceptions.{Exception, Result, ok, err}
use miniq.Task.{Time}
use miniq.Pool.{Process, WorkerPool, Spawn, is_alive, worker_pool, start, stop}
use miniq.Pool.Duration.{times}
use miniq.Pool.Joins.{IsNotNegative}
use miniq.Pool.Start.{IsSpawned, start-IsStart}
use miniq.Pool.Stop.{DiesOfKill, IsStopped, stop-IsStopped}

-- The options of the command; `second` is one second.
pub record WorkerOptions : Type 0 where
  pub app : Option String
  pub workers : ℤ
  pub poll_interval : Time
  pub visibility_timeout : Time
  pub shutdown_timeout : Time

abbrev pub default_options : (second : Time) → WorkerOptions
default_options second = record {
  app = none;
  workers = pos 4;
  poll_interval = second;
  visibility_timeout = times 30 second;
  shutdown_timeout = times 30 second;
}

-- The exit code or what is raised, the processes as the command leaves them, and when it ends.
abbrev pub Run : Type 0
Run = Result ℕ × (List Process × Time)

module _ (second : Time) (pause : Process → Time) (now stopped_at : Time) where
  -- `stop_event.wait()` returns at `stopped_at`, and `finally` stops the pool.
  abbrev pub after_start : (shutdown_timeout : Time) → Result (Unit {0}) × WorkerPool → Run
  after_start shutdown_timeout (err e, pool) = (err e, (pool.processes, now))
  after_start shutdown_timeout (ok _, pool) =
      (ok 0, (stop second pause shutdown_timeout stopped_at pool).1)

  abbrev pub run_pool : Spawn → (shutdown_timeout : Time) → Result WorkerPool → Run
  run_pool spawn shutdown_timeout (err e) = (err e, ([], now))
  run_pool spawn shutdown_timeout (ok pool) = after_start shutdown_timeout (start spawn pool)

  -- Called at `now`.
  unfoldable pub cmd_worker : Spawn → WorkerOptions → Run
  cmd_worker spawn options = run_pool spawn options.shutdown_timeout (worker_pool options.workers)

module _ (stopped_at : Time) (spawn : Spawn) (options : WorkerOptions) where
  -- The command has ended well: it has started the workers asked for, and stopped each of them.
  pub record HasRun (run : Run) : Type 0 where
    pub workers : List Process
    pub spawned : IsSpawned spawn 0 workers
    pub as_many : length workers ≡ pos_part options.workers
    pub exits : run.0 ≡ ok 0
    pub stopped :
        All2 (IsStopped stopped_at (stopped_at +ℤ options.shutdown_timeout) run.1.1) workers run.1.0
    pub dead : All (λ p. is_alive run.1.1 p ≡ false) run.1.0

module _ (second : Time) (pause : Process → Time) (now stopped_at : Time)
    (positive : pos 0 ≤ℤ second) (not_negative : IsNotNegative pause) (spawn : Spawn)
    (options : WorkerOptions) (timed : pos 0 ≤ℤ options.shutdown_timeout) where
  each_dies :
      (i : ℕ) (ps : List Process)
      → ((i : ℕ) (p : Process) → spawn i ≡ ok p → DiesOfKill second p)
      → IsSpawned spawn i ps
      → All (DiesOfKill second) ps
  each_dies i [] dies s = tt
  each_dies i (p ∷ ps) dies s = (dies i p s.0, each_dies (suc i) ps dies s.1)

  abbrev fresh : WorkerPool
  fresh = record { workers_count = pos_part options.workers; processes = []; started = false }

  made : pos 1 ≤ℤ options.workers → worker_pool options.workers ≡ ok fresh
  unfolding worker_pool
  made h = ground arith

  -- The pool when all its workers are started.
  abbrev filled : List Process → WorkerPool
  filled new = record fresh { processes = new; started = true }

  run_is :
      (new : List Process)
      → pos 1 ≤ℤ options.workers
      → start spawn fresh ≡ (ok tt, filled new)
      → cmd_worker second pause now stopped_at spawn options
        ≡ (ok 0, (stop second pause options.shutdown_timeout stopped_at (filled new)).1)
  unfolding cmd_worker
  run_is new h done =
      ap (run_pool second pause now stopped_at spawn options.shutdown_timeout) (made h)
      ∙ ap (after_start second pause now stopped_at options.shutdown_timeout) done

  -- `miniq worker` with at least one worker, where each of them can be started and dies within a
  -- second of SIGKILL, and a shutdown timeout that is not negative: it exits with 0 after the first
  -- signal, has started as many workers as were asked for, has sent SIGTERM to each that was alive,
  -- and SIGKILL only from the shutdown timeout on; and when it exits none of them is alive.
  pub cmd_worker-HasRun :
      pos 1 ≤ℤ options.workers
      → ((i : ℕ) → i < pos_part options.workers → (p : Process) × (spawn i ≡ ok p))
      → ((i : ℕ) (p : Process) → spawn i ≡ ok p → DiesOfKill second p)
      → HasRun stopped_at spawn options (cmd_worker second pause now stopped_at spawn options)
  cmd_worker-HasRun h starts dies = elim (start-IsStart spawn fresh) [
    | inl (started, _) ↦ absurd (cc started)
    | inr (_, (new, spawned, inr (few, (e, fails, _)))) ↦
        let (p, e') = starts (length new) few in absurd (contrary fails e')
    | inr (_, (new, spawned, inl (all, done))) ↦
        let (_, stopped, dead) =
          stop-IsStopped second pause options.shutdown_timeout stopped_at positive not_negative
            timed (filled new) refl (each_dies 0 new dies spawned) in
        subst (HasRun stopped_at spawn options) (sym (run_is new h done)) (record {
          workers = new;
          spawned = spawned;
          as_many = all;
          exits = refl;
          stopped = stopped;
          dead = dead;
        })
  ]
    where
      contrary : {r : Result Process} {e : Exception} {p : Process} → r ≡ err e → r ≡ ok p → ⊥
      contrary f g = cc
