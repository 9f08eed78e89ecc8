-- ===== src/SqliteQueue/Phases.antt =====
-- The phases that a task goes through in a queue, what QueueBackend of src/miniq/queue/base.py lets
-- each call change, and what else the calls do that do not look at who holds the lease.
use miniq.Base.{
  ◌≡◌, ◌≢◌, refl, ap, ◌⊎◌, inl, inr, true, false, Option, none, some, ◌+ℤ◌, ◌≤ℤ◌, eqb_ℤ,
  eq_of_parts, ==_iff, eq_self, Bool-cases,
}
use miniq.Task.{TaskId, TaskStatus, pending, running, success, failed, Time}
use miniq.SqliteQueue.{Row, Table}
use miniq.SqliteQueue.Rows.{find_row}
use miniq.SqliteQueue.Events.{Event, enqueues, claims, reclaims, acks, nacks}

-- A task is not in the queue, waits in it, is leased to a worker until an instant, or has ended.
pub data Phase : Type 0 where
  absent waiting ended : Phase
  leased : (until : Option Time) → Phase

abbrev pub phase_at : TaskStatus → Option Time → Phase
phase_at pending until = waiting
phase_at running until = leased until
phase_at success until = ended
phase_at failed until = ended

abbrev pub phase_in : Option Row → Phase
phase_in none = absent
phase_in (some row) = phase_at row.status row.claimed_until

abbrev pub phase : TaskId → Table → Phase
phase tid rows = phase_in (find_row tid rows)

abbrev pub IsEnding : TaskStatus → Type 0
IsEnding status = (status ≡ success) ⊎ (status ≡ failed)

-- The status of the task when it is passed to the queue: PENDING for `enqueue`, and ended for `ack`,
-- or `nack` for good.
abbrev pub IsCall : Event → Type 0
IsCall (enqueues _ task) = task.status ≡ pending
IsCall (claims _ _ _) = Unit
IsCall (reclaims _ _) = Unit
IsCall (acks _ task) = IsEnding task.status
IsCall (nacks _ task true) = Unit
IsCall (nacks _ task false) = IsEnding task.status

-- How a call may change the phase of the task `tid`, whoever calls.
abbrev pub Changes : TaskId → Event → Phase → Phase → Type 0
Changes tid (enqueues _ task) p p' = (task.id ≡ tid) × (p ≡ absent) × (p' ≡ waiting)
Changes tid (claims _ visibility_timeout now) p p' =
    (p ≡ waiting) × (p' ≡ leased (some (now +ℤ visibility_timeout)))
Changes tid (reclaims _ now) p p' =
    (until : Time) × (p ≡ leased (some until)) × (until ≤ℤ now) × (p' ≡ waiting)
Changes tid (acks _ task) p p' = (task.id ≡ tid) × (p ≢ absent) × (p' ≡ ended)
Changes tid (nacks _ task true) p p' = (task.id ≡ tid) × (p ≢ absent) × (p' ≡ waiting)
Changes tid (nacks _ task false) p p' = (task.id ≡ tid) × (p ≢ absent) × (p' ≡ ended)

abbrev pub IsStep : TaskId → Event → Phase → Phase → Type 0
IsStep tid event p p' = (p' ≡ p) ⊎ Changes tid event p p'

-- The same for a caller whose claim of the task it passes to `ack` or `nack` was until `held`: the
-- interface lets these end the caller's own lease.
abbrev pub Promised : Option Time → TaskId → Event → Phase → Phase → Type 0
Promised held tid (enqueues lock task) p p' = Changes tid (enqueues lock task) p p'
Promised held tid (claims lock v now) p p' = Changes tid (claims lock v now) p p'
Promised held tid (reclaims lock now) p p' = Changes tid (reclaims lock now) p p'
Promised held tid (acks _ task) p p' = (task.id ≡ tid) × (p ≡ leased held) × (p' ≡ ended)
Promised held tid (nacks _ task true) p p' = (task.id ≡ tid) × (p ≡ leased held) × (p' ≡ waiting)
Promised held tid (nacks _ task false) p p' = (task.id ≡ tid) × (p ≡ leased held) × (p' ≡ ended)

-- An `ack` or `nack` whose caller has no lease of the task any more: the task waits, or has ended,
-- or is leased to another.
abbrev pub Unguarded : Option Time → TaskId → Event → Phase → Phase → Type 0
Unguarded held tid (enqueues _ _) p p' = ⊥
Unguarded held tid (claims _ _ _) p p' = ⊥
Unguarded held tid (reclaims _ _) p p' = ⊥
Unguarded held tid (acks _ task) p p' =
    (task.id ≡ tid) × (p ≢ absent) × (p ≢ leased held) × (p' ≡ ended)
Unguarded held tid (nacks _ task true) p p' =
    (task.id ≡ tid) × (p ≢ absent) × (p ≢ leased held) × (p' ≡ waiting)
Unguarded held tid (nacks _ task false) p p' =
    (task.id ≡ tid) × (p ≢ absent) × (p ≢ leased held) × (p' ≡ ended)

abbrev pub IsGuardedStep : Option Time → TaskId → Event → Phase → Phase → Type 0
IsGuardedStep held tid event p p' =
    (p' ≡ p) ⊎ (Promised held tid event p p' ⊎ Unguarded held tid event p p')

lease_cases : (a b : Option Time) → (a ≡ b) ⊎ (a ≢ b)
lease_cases none none = inl refl
lease_cases none (some b) = inr (λ e. cc)
lease_cases (some a) none = inr (λ e. cc)
lease_cases (some a) (some b) = elim (Bool-cases (eqb_ℤ a b)) [
  | inl same ↦ inl (ap some (eq_of_parts a b ((==_iff _ _).0 same)))
  | inr other ↦
      inr (λ e. let e' : a ≡ b = cc in let hit : eqb_ℤ a b ≡ true = rw e' (eq_self _) in cc)
]

holds : (held : Option Time) (p : Phase) → (p ≡ leased held) ⊎ (p ≢ leased held)
holds held absent = inr (λ e. cc)
holds held waiting = inr (λ e. cc)
holds held ended = inr (λ e. cc)
holds held (leased until) = elim (lease_cases until held) [
  | inl same ↦ inl (ap leased same)
  | inr other ↦ inr (λ e. other (let e' : until ≡ held = cc in e'))
]

-- An `ack` or `nack` ends the caller's lease, or is without one.
pub guard-IsGuardedStep :
    (held : Option Time) (tid : TaskId) (event : Event) (p p' : Phase)
    → IsStep tid event p p'
    → IsGuardedStep held tid event p p'
guard-IsGuardedStep held tid event p p' (inl same) = inl same
guard-IsGuardedStep held tid (enqueues lock task) p p' (inr changes) = inr (inl changes)
guard-IsGuardedStep held tid (claims lock v now) p p' (inr changes) = inr (inl changes)
guard-IsGuardedStep held tid (reclaims lock now) p p' (inr changes) = inr (inl changes)
guard-IsGuardedStep held tid (acks _ task) p p' (inr (own, there, e)) = elim (holds held p) [
  | inl holder ↦ inr (inl (own, holder, e))
  | inr none_held ↦ inr (inr (own, there, none_held, e))
]
guard-IsGuardedStep held tid (nacks _ task true) p p' (inr (own, there, e)) = elim (holds held p) [
  | inl holder ↦ inr (inl (own, holder, e))
  | inr none_held ↦ inr (inr (own, there, none_held, e))
]
guard-IsGuardedStep held tid (nacks _ task false) p p' (inr (own, there, e)) = elim (holds held p) [
  | inl holder ↦ inr (inl (own, holder, e))
  | inr none_held ↦ inr (inr (own, there, none_held, e))
]
