-- ===== src/Pool/Tests.antt =====
-- A pool of two workers: one that exits on SIGTERM, and one that only SIGKILL ends.
use miniq.Base.{ℕ, zero, suc, pos, ◌+ℤ◌, ◌≤ℤ◌, ◌≡◌, refl, true, false, [], ◌∷◌, All, All2, arith}
use miniq.Exceptions.{Result, ok, err, runtime_error}
use miniq.Pool.{Process, WorkerPool, is_alive, launch, start, stop}
use miniq.Pool.Start.{IsLeak, failed_start_leaks}
use miniq.Pool.Stop.{IsStopped, stop-IsStopped}
use miniq.Pool.Duration.{times, stop_ends}
use miniq.Pool.Samples.{
  polite, stubborn, polite-DiesOfKill, stubborn-DiesOfKill, no_pause, no_pause-IsNotNegative,
}

abbrev pool : WorkerPool
pool = record { workers_count = 2; processes = polite ∷ stubborn ∷ []; started = true }

stop_example :
    let (pool', (ps', end)) = stop (pos 1) no_pause (pos 30) (pos 100) pool in
    (pool' ≡ record { workers_count = 2; processes = []; started = false })
    × All2 (IsStopped (pos 100) (pos 130) end) (polite ∷ stubborn ∷ []) ps'
    × All (λ p. is_alive end p ≡ false) ps'
unfolding ◌+ℤ◌
stop_example =
    stop-IsStopped (pos 1) no_pause (pos 30) (pos 100) (omega arith) no_pause-IsNotNegative
      (omega arith) pool refl (polite-DiesOfKill, (stubborn-DiesOfKill, tt))

stop_ends_example :
    (stop (pos 1) no_pause (pos 30) (pos 100) pool).1.1
    ≤ℤ pos 130 +ℤ times 2 (pos 0) +ℤ times 2 (pos 1 +ℤ pos 0)
unfolding ◌+ℤ◌
stop_ends_example =
    stop_ends (pos 1) no_pause (pos 0) (pos 30) (pos 100) (omega arith) no_pause-IsNotNegative
      (λ p. omega arith) (omega arith) pool refl

abbrev fresh : WorkerPool
fresh = record { workers_count = 2; processes = []; started = false }

-- The second process cannot be started.
abbrev one_only : ℕ → Result Process
one_only zero = ok polite
one_only (suc i) = err runtime_error

failed_start_example : IsLeak one_only fresh runtime_error (start one_only fresh).1
unfolding start launch
failed_start_example = failed_start_leaks one_only fresh runtime_error refl refl
