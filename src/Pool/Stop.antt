-- ===== src/Pool/Stop.antt =====
-- `WorkerPool.stop` of src/miniq/pool.py: what becomes of each process, and how long it takes.
use miniq.Base.{
  ◌≡◌, refl, pos, ◌+ℤ◌, ◌≤ℤ◌, +ℤ_parts, Bool, true, false, Option, some, List, [], ◌∷◌, All, All2,
  if◌then◌else◌, arith,
}
use miniq.Task.{Time}
use miniq.Pool.{
  Process, WorkerPool, is_alive, terminate, terminate_alive, join_each, stop_processes, stop,
}
use miniq.Pool.Joins.{IsNotNegative, join_each_later, join_each-IsWaitedFor}
use miniq.Pool.Kills.{
  IsKillable, IsReaped, dead_after, let_be, killed, kill_alive_later, kill_alive-IsReaped,
}

-- SIGKILL ends the process within a second, whatever SIGTERM has done.
abbrev pub DiesOfKill : (second : Time) → Process → Type 0
DiesOfKill second p =
    (sigterm : Option Time) (t : Time)
    → (e : Time) × (p.exit sigterm (some t) ≡ some e) × (e ≤ℤ t +ℤ second)

-- What `stop`, called at `now`, makes of a process: one that has exited is left alone, and one
-- that has not is sent SIGTERM, and SIGKILL only where it is alive at the deadline or later.
pub data IsStopped (now deadline end : Time) (p : Process) : Process → Type 0 where
  had_exited : is_alive now p ≡ false → IsStopped now deadline end p p
  was_alive :
      {p' : Process}
      → is_alive now p ≡ true
      → IsReaped deadline end (terminate now p) p'
      → IsStopped now deadline end p p'

abbrev terminated : Time → Process → Process
terminated now p = if is_alive now p then terminate now p else p

module _ (second : Time) (pause : Process → Time) (timeout now : Time) (positive : pos 0 ≤ℤ second)
    (not_negative : IsNotNegative pause) (timed : pos 0 ≤ℤ timeout) where
  abbrev deadline : Time
  deadline = now +ℤ timeout

  terminated-IsKillable :
      (ps : List Process)
      → All (DiesOfKill second) ps
      → All (IsKillable second) (terminate_alive now ps)
  terminated-IsKillable [] h = tt
  terminated-IsKillable (p ∷ ps) h =
      (λ t. by_alive (is_alive now p) t, terminated-IsKillable ps h.1)
    where
      by_alive : (alive : Bool) → IsKillable second (if alive then terminate now p else p)
      by_alive true t = h.0 (some now) t
      by_alive false t = h.0 p.sigterm t

  -- A process that had exited is not killed.
  had_exited_IsStopped :
      (p p' : Process) (end : Time)
      → is_alive now p ≡ false
      → IsReaped deadline end p p'
      → IsStopped now deadline end p p'
  had_exited_IsStopped p p' end e (let_be dead) = had_exited e
  had_exited_IsStopped p p' end e (killed t late lives _) =
      let later : now ≤ℤ t = omega (arith, late, timed, +ℤ_parts now timeout) in
      let e' : is_alive t p ≡ false = dead_after now t p later e in cc

  stopped :
      (p p' : Process) (end : Time) (alive : Bool)
      → is_alive now p ≡ alive
      → IsReaped deadline end (if alive then terminate now p else p) p'
      → IsStopped now deadline end p p'
  stopped p p' end true e r = was_alive e r
  stopped p p' end false e r = had_exited_IsStopped p p' end e r

  each-IsStopped :
      (ps ps' : List Process) (end : Time)
      → All2 (IsReaped deadline end) (terminate_alive now ps) ps'
      → All2 (IsStopped now deadline end) ps ps'
  each-IsStopped [] [] end r = tt
  each-IsStopped [] (p' ∷ ps') end r = elim r [ ]
  each-IsStopped (p ∷ ps) [] end r = elim r [ ]
  each-IsStopped (p ∷ ps) (p' ∷ ps') end r =
      (stopped p p' end (is_alive now p) refl r.0, each-IsStopped ps ps' end r.1)

  stop_processes-IsStopped :
      (ps : List Process)
      → All (DiesOfKill second) ps
      → let (ps', end) = stop_processes second pause timeout ps now in
        All2 (IsStopped now deadline end) ps ps'
  unfolding stop_processes
  stop_processes-IsStopped ps dies =
      let joined = join_each deadline pause (terminate_alive now ps) now in
      each-IsStopped ps _ _ (
        kill_alive-IsReaped pause not_negative second positive deadline joined
          (terminate_alive now ps) joined (omega arith)
          (join_each-IsWaitedFor pause not_negative deadline (terminate_alive now ps) now)
          (terminated-IsKillable ps dies))

  dead_at_end :
      (p p' : Process) (end : Time)
      → IsStopped now deadline end p p'
      → now ≤ℤ end
      → is_alive end p' ≡ false
  dead_at_end p p' end (had_exited dead) k = dead_after now end p k dead
  dead_at_end p p' end (was_alive lives (let_be dead)) k = dead
  dead_at_end p p' end (was_alive lives (killed t late lives' dead)) k = dead

  each_dead :
      (ps ps' : List Process) (end : Time)
      → now ≤ℤ end
      → All2 (IsStopped now deadline end) ps ps'
      → All (λ p. is_alive end p ≡ false) ps'
  each_dead [] [] end k h = tt
  each_dead [] (p' ∷ ps') end k h = elim h [ ]
  each_dead (p ∷ ps) [] end k h = elim h [ ]
  each_dead (p ∷ ps) (p' ∷ ps') end k h = (dead_at_end p p' end h.0 k, each_dead ps ps' end k h.1)

  stop_processes_later : (ps : List Process) → now ≤ℤ (stop_processes second pause timeout ps now).1
  unfolding stop_processes
  stop_processes_later ps =
      let joined = join_each deadline pause (terminate_alive now ps) now in
      omega (
        arith,
        join_each_later pause not_negative deadline (terminate_alive now ps) now,
        kill_alive_later pause not_negative second positive (terminate_alive now ps) joined,
      )

  -- `stop` of a started pool with a timeout that is not negative, whose processes die within a
  -- second of SIGKILL: a process that has exited before is left alone; one that has not is sent
  -- SIGTERM, and SIGKILL only where it is alive at the kill, which is at the deadline or later.
  -- When `stop` returns no process is alive, and the pool is empty and can be started again.
  pub stop-IsStopped :
      (pool : WorkerPool)
      → pool.started ≡ true
      → All (DiesOfKill second) pool.processes
      → let (pool', (ps', end)) = stop second pause timeout now pool in
        (pool' ≡ record { workers_count = pool.workers_count; processes = []; started = false })
        × All2 (IsStopped now deadline end) pool.processes ps'
        × All (λ p. is_alive end p ≡ false) ps'
  unfolding stop
  stop-IsStopped pool started dies =
      let stopped = stop_processes-IsStopped pool.processes dies in
      rw started
        (refl, stopped, each_dead pool.processes _ _ (stop_processes_later pool.processes) stopped)
