-- ===== src/Memory/Lifecycle.antt =====
-- InMemoryQueue of src/miniq/queue/memory.py against the phases of SqliteQueue/Phases,
-- the same that SQLiteQueue is proved against.
use miniq.Base.{◌≡◌, Option, true, false, ◌⊎◌}
use miniq.Task.{TaskId, Time}
use miniq.Heap.{Ref}
use miniq.Sqlite.{free}
use miniq.Memory.{Memory}
use miniq.Memory.Histories.{Call, enqueues, passes, acks, nacks}
use miniq.Memory.Phases.{memory_phase, forget}
use miniq.SqliteQueue.Phases.{Phase, absent, waiting, ended, IsGuardedStep}
use miniq.SqliteQueue.Events as Events

module _ (tid : TaskId) where
  -- A phase that is `p`, or that of the ended task at `r`.
  abbrev Ended : Ref → Memory → Phase → Type 0
  Ended r m p' =
      (q : Phase) × ((q ≡ memory_phase tid m) ⊎ ((m.heap.cell r).id ≡ tid) × (q ≡ ended))
      × (p' ≡ forget q)

  -- A task that is in the queue no more, and is put back.
  abbrev Returns : Memory → Ref → Phase → Phase → Type 0
  Returns m r p p' = ((m.heap.cell r).id ≡ tid) × (p ≡ absent) × (p' ≡ waiting)

  -- How a call of the in-memory queue may change the phase of a task: a pass of `dequeue` is a
  -- sweep and a claim, and a task that has ended is forgotten, so that one which is put back after
  -- that comes back from nowhere.
  abbrev pub IsMemoryStep : Option Time → Memory → Call → Phase → Phase → Type 0
  IsMemoryStep held m (enqueues r) p p' =
      IsGuardedStep held tid (Events.enqueues free (m.heap.cell r)) p p'
  IsMemoryStep held m (passes visibility_timeout s) p p' =
      (q : Phase) × IsGuardedStep held tid (Events.reclaims free s.reclaim_at) p q
      × IsGuardedStep held tid (Events.claims free visibility_timeout s.claimed_at) q p'
  IsMemoryStep held m (acks r) p p' =
      (q : Phase) × IsGuardedStep held tid (Events.acks free (m.heap.cell r)) p q × (p' ≡ forget q)
  IsMemoryStep held m (nacks r true) p p' =
      IsGuardedStep held tid (Events.nacks free (m.heap.cell r) true) p p' ⊎ Returns m r p p'
  IsMemoryStep held m (nacks r false) p p' =
      (q : Phase) × IsGuardedStep held tid (Events.nacks free (m.heap.cell r) false) p q
      × (p' ≡ forget q)
