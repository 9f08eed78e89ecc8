-- ===== src/Pool/Joins.antt =====
-- The second phase of `WorkerPool.stop` of src/miniq/pool.py: the joins up to one deadline.
use miniq.Base.{
  ◌≡◌, refl, pos, ◌+ℤ◌, ◌≤ℤ◌, +ℤ_parts, -ℤ_parts, true, Option, none, some, List, [], ◌∷◌, All,
  arith,
}
use miniq.Task.{Time}
use miniq.Pool.{
  Process, exit_time, lives_at, is_alive, max_ℤ, remaining, joined_at, join, join_each,
}

-- A join never goes back in time.
pub joined_later :
    (deadline now : Time) (e : Option Time) → now ≤ℤ joined_at (remaining deadline now) now e
joined_later deadline now none =
    ground (arith, +ℤ_parts now (remaining deadline now), -ℤ_parts deadline now)
joined_later deadline now (some at) =
    ground (arith, +ℤ_parts now (remaining deadline now), -ℤ_parts deadline now)

-- and ends by the deadline, unless that has passed
pub joined_by :
    (deadline now : Time) (e : Option Time)
    → joined_at (remaining deadline now) now e ≤ℤ max_ℤ now deadline
joined_by deadline now none =
    ground (arith, +ℤ_parts now (remaining deadline now), -ℤ_parts deadline now)
joined_by deadline now (some at) =
    ground (arith, +ℤ_parts now (remaining deadline now), -ℤ_parts deadline now)

-- a process that has not exited has been waited for until the deadline
joined_waits :
    (deadline now : Time) (e : Option Time)
    → lives_at (joined_at (remaining deadline now) now e) e ≡ true
    → deadline ≤ℤ joined_at (remaining deadline now) now e
joined_waits deadline now none h =
    ground (arith, +ℤ_parts now (remaining deadline now), -ℤ_parts deadline now)
joined_waits deadline now (some at) h =
    ground (arith, +ℤ_parts now (remaining deadline now), -ℤ_parts deadline now)

abbrev pub total : (Process → Time) → List Process → Time
total f [] = pos 0
total f (p ∷ ps) = f p +ℤ total f ps

abbrev pub IsNotNegative : (Process → Time) → Type 0
IsNotNegative f = (p : Process) → pos 0 ≤ℤ f p

pub lives_before :
    (now later : Time) (e : Option Time)
    → now ≤ℤ later
    → lives_at later e ≡ true
    → lives_at now e ≡ true
lives_before now later none h k = refl
lives_before now later (some at) h k = ground arith

-- A process that has not exited yet has had until the deadline.
abbrev pub IsWaitedFor : (deadline now : Time) → Process → Type 0
IsWaitedFor deadline now p = is_alive now p ≡ true → deadline ≤ℤ now

module _ (pause : Process → Time) (h : IsNotNegative pause) where
  pub before_pause : (p : Process) (at end : Time) → at +ℤ pause p ≤ℤ end → at ≤ℤ end
  before_pause p at end k = omega (arith, k, h p, +ℤ_parts at (pause p))

  module _ (deadline : Time) where
    pub join_each_later : (ps : List Process) (now : Time) → now ≤ℤ join_each deadline pause ps now
    unfolding join_each
    join_each_later [] now = omega arith
    join_each_later (p ∷ ps) now =
        let at = join (remaining deadline now) p now in
        let end = join_each deadline pause ps (at +ℤ pause p) in
        omega (
          arith,
          before_pause p at end (join_each_later ps (at +ℤ pause p)),
          joined_later deadline now (exit_time p),
        )

    waited_for :
        (p : Process) (now end : Time)
        → join (remaining deadline now) p now ≤ℤ end
        → IsWaitedFor deadline end p
    waited_for p now end k lives =
        let at = join (remaining deadline now) p now in
        let late =
          joined_waits deadline now (exit_time p) (lives_before at end (exit_time p) k lives) in
        omega (arith, late, k)

    pub join_each-IsWaitedFor :
        (ps : List Process) (now : Time)
        → All (IsWaitedFor deadline (join_each deadline pause ps now)) ps
    unfolding join_each
    join_each-IsWaitedFor [] now = tt
    join_each-IsWaitedFor (p ∷ ps) now =
        let at = join (remaining deadline now) p now in
        let end = join_each deadline pause ps (at +ℤ pause p) in
        (
          waited_for p now end (before_pause p at end (join_each_later ps (at +ℤ pause p))),
          join_each-IsWaitedFor ps (at +ℤ pause p),
        )

    pub join_each_by :
        (ps : List Process) (now : Time)
        → join_each deadline pause ps now ≤ℤ max_ℤ now deadline +ℤ total pause ps
    unfolding join_each
    join_each_by [] now = ground (arith, +ℤ_parts (max_ℤ now deadline) (pos 0))
    join_each_by (p ∷ ps) now =
        let at = join (remaining deadline now) p now in
        ground (
          arith,
          join_each_by ps (at +ℤ pause p),
          joined_by deadline now (exit_time p),
          +ℤ_parts (max_ℤ (at +ℤ pause p) deadline) (total pause ps),
          +ℤ_parts (max_ℤ now deadline) (pause p +ℤ total pause ps),
          +ℤ_parts (pause p) (total pause ps),
          +ℤ_parts at (pause p),
          h p,
        )
