-- ===== src/Pool/Duration.antt =====
-- How long `WorkerPool.stop` of src/miniq/pool.py takes.
use miniq.Base.{
  ℕ, zero, suc, ◌≡◌, refl, ap, pos, ◌+ℤ◌, ◌≤ℤ◌, +ℤ_parts, true, List, [], ◌∷◌, length, arith,
}
use miniq.Task.{Time}
use miniq.Pool.{Process, WorkerPool, max_ℤ, terminate_alive, join_each, stop_processes, stop}
use miniq.Pool.Joins.{total, IsNotNegative, join_each_by}
use miniq.Pool.Kills.{kill_alive_by}

-- `n` times the duration
abbrev pub times : ℕ → Time → Time
times zero t = pos 0
times (suc n) t = t +ℤ times n t

module _ (second : Time) (pause : Process → Time) (most : Time)
    (at_most : (p : Process) → pause p ≤ℤ most) where
  total_pause : (ps : List Process) → total pause ps ≤ℤ times (length ps) most
  total_pause [] = omega arith
  total_pause (p ∷ ps) = omega (
    arith,
    total_pause ps,
    at_most p,
    +ℤ_parts (pause p) (total pause ps),
    +ℤ_parts most (times (length ps) most),
  )

  total_kill :
      (ps : List Process) → total (λ p. second +ℤ pause p) ps ≤ℤ times (length ps) (second +ℤ most)
  total_kill [] = omega arith
  total_kill (p ∷ ps) = omega (
    arith,
    total_kill ps,
    at_most p,
    +ℤ_parts second (pause p),
    +ℤ_parts second most,
    +ℤ_parts (second +ℤ pause p) (total (λ p. second +ℤ pause p) ps),
    +ℤ_parts (second +ℤ most) (times (length ps) (second +ℤ most)),
  )

length-terminate_alive :
    (now : Time) (ps : List Process) → length (terminate_alive now ps) ≡ length ps
length-terminate_alive now [] = refl
length-terminate_alive now (p ∷ ps) = ap suc (length-terminate_alive now ps)

module _ (second : Time) (pause : Process → Time) (most timeout now : Time)
    (positive : pos 0 ≤ℤ second) (not_negative : IsNotNegative pause)
    (at_most : (p : Process) → pause p ≤ℤ most) (timed : pos 0 ≤ℤ timeout) where
  -- `stop` of a started pool with a timeout that is not negative, where at most `most` passes
  -- between one wait and the next, returns: at the latest after the timeout and, for each process,
  -- `most` after its first join, and a second and `most` after its check for SIGKILL.
  pub stop_ends :
      (pool : WorkerPool)
      → pool.started ≡ true
      → let n = length pool.processes in
        (stop second pause timeout now pool).1.1
        ≤ℤ now +ℤ timeout +ℤ times n most +ℤ times n (second +ℤ most)
  unfolding stop stop_processes
  stop_ends pool started =
      let ps = terminate_alive now pool.processes in
      let joined = join_each (now +ℤ timeout) pause ps now in
      let later : max_ℤ now (now +ℤ timeout) ≤ℤ now +ℤ timeout =
        ground (arith, timed, +ℤ_parts now timeout) in
      rw (started, ← length-terminate_alive now pool.processes)
        (omega (
          arith,
          kill_alive_by pause not_negative second positive ps joined,
          join_each_by pause not_negative (now +ℤ timeout) ps now,
          total_pause second pause most at_most ps,
          total_kill second pause most at_most ps,
          +ℤ_parts now timeout,
          +ℤ_parts (now +ℤ timeout) (times (length ps) most),
          +ℤ_parts (now +ℤ timeout +ℤ times (length ps) most) (times (length ps) (second +ℤ most)),
          +ℤ_parts joined (total (λ p. second +ℤ pause p) ps),
          +ℤ_parts (max_ℤ now (now +ℤ timeout)) (total pause ps),
          later,
          timed,
        ))
