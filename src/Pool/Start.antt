-- ===== src/Pool/Start.antt =====
-- `WorkerPool.start` of src/miniq/pool.py, and what `stop` makes of a start that has failed.
use mathlib.Core.List.{append-nil}
use miniq.Base.{
  ℕ, zero, suc, ◌+◌, ◌<◌, ◌≡◌, ◌⊎◌, inl, inr, refl, ap, sym, subst, ◌∙◌, Bool, Bool-cases, true,
  false, List, [], ◌∷◌, ◌++◌, length, append-append_snoc, if◌then◌else◌, arith,
}
use miniq.Exceptions.{Exception, Result, Result-cases, ok, err, runtime_error}
use miniq.Task.{Time}
use miniq.Pool.{Process, WorkerPool, Spawn, launch, launched, start, stop_processes, stop}

module _ (spawn : Spawn) where
  -- The processes started from the number `i` on.
  abbrev pub IsSpawned : ℕ → List Process → Type 0
  IsSpawned i [] = Unit
  IsSpawned i (p ∷ ps) = (spawn i ≡ ok p) × IsSpawned (suc i) ps

  -- The loop has started `n` processes from `i` on, or one of them has failed to start.
  abbrev IsLaunched : (n i : ℕ) → List Process → Result (Unit {0}) × List Process → Type 0
  IsLaunched n i before out =
      (new : List Process) × IsSpawned i new
      × ((length new ≡ n) × (out ≡ (ok tt, before ++ new))
          ⊎ (length new < n)
            × ((e : Exception) × (spawn (i + length new) ≡ err e) × (out ≡ (err e, before ++ new))))

  one_more :
      (n i : ℕ) (before : List Process) (p : Process) (out : Result (Unit {0}) × List Process)
      → spawn i ≡ ok p
      → IsLaunched n (suc i) (before ++ p ∷ []) out
      → IsLaunched (suc n) i before out
  one_more n i before p out first (new, spawned, inl (all, done)) = (
    p ∷ new,
    (first, spawned),
    inl (ap suc all, done ∙ ap (λ ps. (ok tt, ps)) (append-append_snoc before p new)),
  )
  one_more n i before p out first (new, spawned, inr (few, (e, fails, done))) = (
    p ∷ new,
    (first, spawned),
    inr (
      omega (arith, few),
      (
        e,
        ap spawn (omega arith) ∙ fails,
        done ∙ ap (λ ps. (err e, ps)) (append-append_snoc before p new),
      ),
    ),
  )

  launch-IsLaunched :
      (n i : ℕ) (before : List Process) → IsLaunched n i before (launch spawn n i before)
  unfolding launch
  launch-IsLaunched zero i before =
      ([], tt, inl (refl, ap (λ ps. (ok tt, ps)) (sym (append-nil before))))
  launch-IsLaunched (suc n) i before = elim (Result-cases (spawn i)) [
    | inl (p, e) ↦
        rw (launch, e) (one_more n i before p _ e (launch-IsLaunched n (suc i) (before ++ p ∷ [])))
    | inr (x, e) ↦
        rw (launch, e)
          (
            [],
            tt,
            inr (
              omega arith,
              (x, ap spawn (omega arith) ∙ e, ap (λ ps. (err x, ps)) (sym (append-nil before))),
            ),
          )
  ]

  -- What `start` may make of a pool: it is refused, or all workers are started, or the first ones
  -- are and the next has raised.
  abbrev pub Launches : WorkerPool → Result (Unit {0}) × WorkerPool → Type 0
  Launches pool out =
      (new : List Process) × IsSpawned 0 new
      × ((length new ≡ pool.workers_count)
            × (out ≡ (ok tt, record pool { processes = pool.processes ++ new; started = true }))
          ⊎ (length new < pool.workers_count)
            × ((e : Exception) × (spawn (length new) ≡ err e)
                × (out ≡ (err e, record pool { processes = pool.processes ++ new }))))

  abbrev pub IsStart : WorkerPool → Result (Unit {0}) × WorkerPool → Type 0
  IsStart pool out =
      (pool.started ≡ true) × (out ≡ (err runtime_error, pool))
      ⊎ (pool.started ≡ false) × Launches pool out

  launched-Launches :
      (pool : WorkerPool) (out : Result (Unit {0}) × List Process)
      → IsLaunched pool.workers_count 0 pool.processes out
      → Launches pool (launched pool out)
  launched-Launches pool out (new, spawned, inl (all, done)) =
      (new, spawned, inl (all, ap (launched pool) done))
  launched-Launches pool out (new, spawned, inr (few, (e, fails, done))) =
      (new, spawned, inr (few, (e, ap spawn (omega arith) ∙ fails, ap (launched pool) done)))

  -- `start` of a started pool raises RuntimeError and changes nothing. Of one that is not, it
  -- starts workers in the order of their numbers, and adds them to the pool's processes: all
  -- `workers_count` of them, and then the pool is started; or, where one cannot be started, those
  -- before it, and then it raises what that one has raised, and the pool is not started.
  pub start-IsStart : (pool : WorkerPool) → IsStart pool (start spawn pool)
  unfolding start
  start-IsStart pool = elim (Bool-cases pool.started) [
    | inl e ↦ inl (e, by_flag e)
    | inr e ↦ inr (
      e,
      subst (Launches pool) (sym (by_flag e)) (
          launched-Launches pool (launch spawn pool.workers_count 0 pool.processes)
            (launch-IsLaunched pool.workers_count 0 pool.processes)),
    )
  ]
    where
      by_flag :
          {b : Bool}
          → pool.started ≡ b
          → start spawn pool ≡ (
              if b
              then (err runtime_error, pool)
              else launched pool (launch spawn pool.workers_count 0 pool.processes))
      by_flag e =
          ap
            (λ b.
              if b
              then (err runtime_error, pool)
              else launched pool (launch spawn pool.workers_count 0 pool.processes))
            e

-- A `stop` of the pool sends no signal and waits for nothing.
abbrev pub StopsNothing : WorkerPool → Type 0
StopsNothing pool =
    (second : Time) (pause : Process → Time) (timeout now : Time)
    → stop second pause timeout now pool ≡ (pool, (pool.processes, now))

not_started_StopsNothing : (pool : WorkerPool) → pool.started ≡ false → StopsNothing pool
unfolding stop
not_started_StopsNothing pool e second pause timeout now =
    ap
      (λ b.
        if b
        then (
          record pool { processes = []; started = false },
          stop_processes second pause timeout pool.processes now,
        )
        else (pool, (pool.processes, now)))
      e

-- The workers that run, and that a `stop` leaves running.
abbrev pub IsLeak : Spawn → WorkerPool → Exception → WorkerPool → Type 0
IsLeak spawn pool e pool' =
    (new : List Process) × IsSpawned spawn 0 new
    × (spawn (length new) ≡ err e)
    × (pool'.processes ≡ pool.processes ++ new)
    × StopsNothing pool'

-- Where `start` of a pool that is not started raises, it is since a worker could not be started.
-- The workers before it are running, and a `stop` of the pool sends them no signal and waits for
-- nothing, since the pool counts as not started.
pub failed_start_leaks :
    (spawn : Spawn) (pool : WorkerPool) (e : Exception)
    → pool.started ≡ false
    → (start spawn pool).0 ≡ err e
    → IsLeak spawn pool e (start spawn pool).1
failed_start_leaks spawn pool e fresh raises = elim (start-IsStart spawn pool) [
  | inl (started, _) ↦ cc
  | inr (_, (new, spawned, inl (all, done))) ↦
      let r : (start spawn pool).0 ≡ ok tt = ap (λ o. o.0) done in cc
  | inr (_, (new, spawned, inr (few, (x, fails, done)))) ↦
      let r : (start spawn pool).0 ≡ err x = ap (λ o. o.0) done in
      let same : x ≡ e = cc in
      (
        new,
        spawned,
        fails ∙ ap err same,
        ap (λ o. o.1.processes) done,
        not_started_StopsNothing (start spawn pool).1 (ap (λ o. o.1.started) done ∙ fresh),
      )
]
