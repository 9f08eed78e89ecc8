-- ===== src/Pool.antt =====
-- `WorkerPool` of src/miniq/pool.py. The processes that it starts are those of Python's
-- multiprocessing: what one does of itself and on a signal is part of its value, and the calls that
-- wait are functions of the clock.
pub mod Entry
pub mod Start
pub mod Joins
pub mod Kills
pub mod Stop
pub mod Duration
pub mod Samples
mod Tests
use miniq.Base.{
  ℕ, zero, suc, ℤ, pos, ◌+ℤ◌, ◌-ℤ◌, pos_part, ltb_ℤ, leb_ℤ, Bool, true, false, Option, none, some,
  List, [], ◌∷◌, ◌++◌, map, select, length, if◌then◌else◌,
}
use miniq.Exceptions.{Result, ok, err, value_error, runtime_error}
use miniq.Task.{Time}

-- A started process: when it exits, given the instants at which SIGTERM and SIGKILL were sent to
-- it, and those instants. `exit` is none where it never exits.
pub record Process : Type 0 where
  pub name : ℕ
  pub exit : (sigterm sigkill : Option Time) → Option Time
  pub sigterm : Option Time
  pub sigkill : Option Time

abbrev pub exit_time : Process → Option Time
exit_time p = p.exit p.sigterm p.sigkill

-- `process.is_alive()`
abbrev pub lives_at : Time → Option Time → Bool
lives_at now none = true
lives_at now (some at) = ltb_ℤ now at

abbrev pub is_alive : Time → Process → Bool
is_alive now p = lives_at now (exit_time p)

abbrev pub max_ℤ : ℤ → ℤ → ℤ
max_ℤ a b = if leb_ℤ a b then b else a

abbrev pub min_ℤ : ℤ → ℤ → ℤ
min_ℤ a b = if leb_ℤ a b then a else b

-- `process.join(timeout)`, called at `now`: when it returns.
abbrev pub joined_at : Time → Time → Option Time → Time
joined_at timeout now none = now +ℤ timeout
joined_at timeout now (some at) = max_ℤ now (min_ℤ at (now +ℤ timeout))

abbrev pub join : Time → Process → Time → Time
join timeout p now = joined_at timeout now (exit_time p)

-- `process.terminate()` and `process.kill()`
abbrev pub terminate : Time → Process → Process
terminate now p = record p { sigterm = some now }

abbrev pub kill : Time → Process → Process
kill now p = record p { sigkill = some now }

-- The fields that change, and the number of workers.
pub record WorkerPool : Type 0 where
  pub workers_count : ℕ
  pub processes : List Process
  pub started : Bool

-- `__init__`
unfoldable pub worker_pool : (workers : ℤ) → Result WorkerPool
worker_pool workers =
    if ltb_ℤ workers (pos 1)
    then err value_error
    else ok (record { workers_count = pos_part workers; processes = []; started = false })

-- What becomes of `Process(..., name=f"miniq-worker-{i}").start()` for each `i`.
abbrev pub Spawn : Type 0
Spawn = ℕ → Result Process

-- The loop of `start` from `i`, with `n` workers to go.
unfoldable pub launch : Spawn → (n i : ℕ) → List Process → Result (Unit {0}) × List Process
launch spawn zero i processes = (ok tt, processes)
launch spawn (suc n) i processes = elim (spawn i) [
  | err e ↦ (err e, processes)
  | ok process ↦ launch spawn n (suc i) (processes ++ process ∷ [])
]

abbrev pub launched : WorkerPool → Result (Unit {0}) × List Process → Result (Unit {0}) × WorkerPool
launched pool (err e, processes) = (err e, record pool { processes = processes })
launched pool (ok _, processes) = (ok tt, record pool { processes = processes; started = true })

unfoldable pub start : Spawn → WorkerPool → Result (Unit {0}) × WorkerPool
start spawn pool =
    if pool.started
    then (err runtime_error, pool)
    else launched pool (launch spawn pool.workers_count 0 pool.processes)

-- Phase 1 of `stop`.
abbrev pub terminate_alive : Time → List Process → List Process
terminate_alive now = map (λ p. if is_alive now p then terminate now p else p)

-- `max(0.0, deadline - time.monotonic())`
abbrev pub remaining : (deadline now : Time) → Time
remaining deadline now = max_ℤ (pos 0) (deadline -ℤ now)

-- Phase 2 of `stop`: when its loop is over. `pause p` passes after the join of `p`.
unfoldable pub join_each : (deadline : Time) → (pause : Process → Time) → List Process → Time → Time
join_each deadline pause [] now = now
join_each deadline pause (p ∷ ps) now =
    join_each deadline pause ps (join (remaining deadline now) p now +ℤ pause p)

-- Phase 3 of `stop`: the processes after it, and when it is over. `second` is one second.
unfoldable pub kill_alive :
    (second : Time) → (pause : Process → Time) → List Process → Time → List Process × Time
kill_alive second pause [] now = ([], now)
kill_alive second pause (p ∷ ps) now =
    let killed = kill now p in
    let joined = if is_alive now p then join second killed now else now in
    let rest = kill_alive second pause ps (joined +ℤ pause p) in
    ((if is_alive now p then killed else p) ∷ rest.0, rest.1)

-- The three phases.
unfoldable pub stop_processes :
    (second : Time)
    → (pause : Process → Time) → (timeout : Time) → List Process
    → (now : Time) → List Process × Time
stop_processes second pause timeout ps now =
    let ps' = terminate_alive now ps in
    kill_alive second pause ps' (join_each (now +ℤ timeout) pause ps' now)

-- `stop`: the pool after it, the processes as it leaves them, and when it returns.
unfoldable pub stop :
    (second : Time)
    → (pause : Process → Time) → (timeout now : Time) → WorkerPool
    → WorkerPool × (List Process × Time)
stop second pause timeout now pool =
    if pool.started
    then (
      record pool { processes = []; started = false },
      stop_processes second pause timeout pool.processes now,
    )
    else (pool, (pool.processes, now))

unfoldable pub alive_workers : Time → WorkerPool → ℕ
alive_workers now pool = length (select (is_alive now) pool.processes)
