-- ===== src/Pool/Kills.antt =====
-- The third phase of `WorkerPool.stop` of src/miniq/pool.py: SIGKILL for the processes left.
use miniq.Base.{
  ◌≡◌, inl, inr, refl, pos, ◌+ℤ◌, ◌≤ℤ◌, +ℤ_parts, Bool, Bool-cases, true, false, Option, none, some,
  List, [], ◌∷◌, All, All2, if◌then◌else◌, arith,
}
use miniq.Task.{Time}
use miniq.Pool.{Process, exit_time, lives_at, is_alive, joined_at, join, kill, kill_alive}
use miniq.Pool.Joins.{total, IsNotNegative, lives_before, before_pause, IsWaitedFor}

module _ (timeout : Time) (positive : pos 0 ≤ℤ timeout) (now : Time) where
  timed_later : (e : Option Time) → now ≤ℤ joined_at timeout now e
  timed_later none = ground (arith, +ℤ_parts now timeout)
  timed_later (some at) = ground (arith, +ℤ_parts now timeout)

  timed_by : (e : Option Time) → joined_at timeout now e ≤ℤ now +ℤ timeout
  timed_by none = ground (arith, +ℤ_parts now timeout)
  timed_by (some at) = ground (arith, +ℤ_parts now timeout)

  timed_out :
      (at : Time)
      → at ≤ℤ now +ℤ timeout
      → lives_at (joined_at timeout now (some at)) (some at) ≡ false
  timed_out at k = ground (arith, +ℤ_parts now timeout)

-- SIGKILL ends the process within a second.
abbrev pub IsKillable : (second : Time) → Process → Type 0
IsKillable second p = (t : Time) → (e : Time) × (exit_time (kill t p) ≡ some e) × (e ≤ℤ t +ℤ second)

-- What phase 3 makes of a process, where it is over at `end` and the deadline was `deadline`.
pub data IsReaped (deadline end : Time) (p : Process) : Process → Type 0 where
  let_be : is_alive end p ≡ false → IsReaped deadline end p p
  killed :
      (t : Time)
      → deadline ≤ℤ t
      → is_alive t p ≡ true
      → is_alive end (kill t p) ≡ false
      → IsReaped deadline end p (kill t p)

pub dead_after :
    (now later : Time) (p : Process)
    → now ≤ℤ later
    → is_alive now p ≡ false
    → is_alive later p ≡ false
dead_after now later p k dead = elim (Bool-cases (is_alive later p)) [
  | inl e ↦ let e' : is_alive now p ≡ true = lives_before now later (exit_time p) k e in cc
  | inr e ↦ e
]

module _ (pause : Process → Time) (h : IsNotNegative pause) (second : Time)
    (positive : pos 0 ≤ℤ second) where
  after_check : (alive : Bool) → Process → Time → Time
  after_check alive p now = if alive then join second (kill now p) now else now

  check_later : (alive : Bool) (p : Process) (now : Time) → now ≤ℤ after_check alive p now
  unfolding after_check
  check_later true p now = timed_later second positive now (exit_time (kill now p))
  check_later false p now = omega arith

  check_by : (alive : Bool) (p : Process) (now : Time) → after_check alive p now ≤ℤ now +ℤ second
  unfolding after_check
  check_by true p now = timed_by second positive now (exit_time (kill now p))
  check_by false p now = omega (arith, +ℤ_parts now second)

  pub kill_alive_later :
      (ps : List Process) (now : Time) → now ≤ℤ (kill_alive second pause ps now).1
  unfolding kill_alive after_check
  kill_alive_later [] now = omega arith
  kill_alive_later (p ∷ ps) now =
      let at = after_check (is_alive now p) p now in
      let later = before_pause pause h p at _ (kill_alive_later ps (at +ℤ pause p)) in
      omega (arith, later, check_later (is_alive now p) p now)

  pub kill_alive_by :
      (ps : List Process) (now : Time)
      → (kill_alive second pause ps now).1 ≤ℤ now +ℤ total (λ p. second +ℤ pause p) ps
  unfolding kill_alive after_check
  kill_alive_by [] now = ground (arith, +ℤ_parts now (pos 0))
  kill_alive_by (p ∷ ps) now =
      let at = after_check (is_alive now p) p now in
      let rest = total (λ p. second +ℤ pause p) ps in
      omega (
        arith,
        kill_alive_by ps (at +ℤ pause p),
        check_by (is_alive now p) p now,
        +ℤ_parts at (pause p),
        +ℤ_parts (at +ℤ pause p) rest,
        +ℤ_parts now second,
        +ℤ_parts second (pause p),
        +ℤ_parts (second +ℤ pause p) rest,
        +ℤ_parts now (second +ℤ pause p +ℤ rest),
      )

  module _ (deadline start : Time) where
    killed_dead :
        (p : Process) (now end : Time)
        → IsKillable second p
        → join second (kill now p) now ≤ℤ end
        → is_alive end (kill now p) ≡ false
    killed_dead p now end killable k =
        let (e, exits, soon) = killable now in
        dead_after (join second (kill now p) now) end (kill now p) k
          (rw exits (timed_out second positive now e soon))

    reaped :
        (p : Process) (alive : Bool) (now end : Time)
        → is_alive now p ≡ alive
        → IsWaitedFor deadline start p
        → IsKillable second p
        → start ≤ℤ now
        → after_check alive p now ≤ℤ end
        → IsReaped deadline end p (if alive then kill now p else p)
    unfolding after_check
    reaped p true now end lives waited killable k k' =
        let late = waited (lives_before start now (exit_time p) k lives) in
        killed now (omega (arith, late, k)) lives (killed_dead p now end killable k')
    reaped p false now end dead waited killable k k' = let_be (dead_after now end p k' dead)

    pub kill_alive-IsReaped :
        (ps : List Process) (now : Time)
        → start ≤ℤ now
        → All (IsWaitedFor deadline start) ps
        → All (IsKillable second) ps
        → let (ps', end) = kill_alive second pause ps now in All2 (IsReaped deadline end) ps ps'
    unfolding kill_alive after_check
    kill_alive-IsReaped [] now k waited killable = tt
    kill_alive-IsReaped (p ∷ ps) now k waited killable =
        let at = after_check (is_alive now p) p now in
        let later = check_later (is_alive now p) p now in
        let k' = before_pause pause h p at _ (kill_alive_later ps (at +ℤ pause p)) in
        (
          reaped p (is_alive now p) now _ refl waited.0 killable.0 k k',
          kill_alive-IsReaped ps (at +ℤ pause p)
              (omega (arith, k, later, h p, +ℤ_parts at (pause p))) waited.1 killable.1,
        )
