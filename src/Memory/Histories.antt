-- ===== src/Memory/Histories.antt =====
-- Any sequence of calls of InMemoryQueue of src/miniq/queue/memory.py, by any number of threads:
-- which tasks are in the queue after it.
use mathlib.Core.List.{Mem, Perm, append_assoc, perm_append_comm}
use mathlib.Core.List.Perm
use miniq.Base.{
  ◌≡◌, Bool, true, false, Option, none, some, List, [], ◌∷◌, ◌++◌, lookup, Option-cases, inl, inr,
}
use miniq.Exceptions.{Result, ok, err}
use miniq.Task.{TaskId, Time, pending}
use miniq.Heap.{Ref}
use miniq.Memory.{Claim, Memory, Pass, enqueue, ack, nack, try_claim}
use miniq.Memory.Ids.{ids, ids_of}
use miniq.Memory.Invariant.{IsValid}
use miniq.Memory.Loop.{try_claim-Passes}
use miniq.Memory.Methods.{
  enqueue-IsValid, enqueue-ids-perm, ack-IsValid, ack_lem, ack_absent, nack_requeue-IsValid,
  nack_absent-IsValid,
}

-- One step of the queue: a call, or one pass of `dequeue`.
pub data Call : Type 0 where
  enqueues : Ref → Call
  passes : (visibility_timeout : Time) → Pass → Call
  acks : Ref → Call
  nacks : Ref → (requeue : Bool) → Call

abbrev pub left_by : Memory → Result (Option Ref × Memory) → Memory
left_by m (ok (_, m')) = m'
left_by m (err _) = m

unfoldable pub after_call : Call → Memory → Memory
after_call (enqueues r) m = enqueue r m
after_call (passes visibility_timeout p) m = left_by m (try_claim visibility_timeout p m)
after_call (acks r) m = ack r m
after_call (nacks r requeue) m = nack r requeue m

unfoldable pub after_calls : List Call → Memory → Memory
after_calls [] m = m
after_calls (c ∷ cs) m = after_calls cs (after_call c m)

-- A call after which the queue is sure to be valid: a task is PENDING and new when it is enqueued,
-- and is not pending in the queue when it is nacked with `requeue`. An `ack`, and a `nack` for good,
-- may be of any task, claimed or not.
abbrev pub IsCall : Memory → Call → Type 0
IsCall m (enqueues r) = ((m.heap.cell r).status ≡ pending) × ¬ Mem (m.heap.cell r).id (ids m)
IsCall m (passes _ _) = Unit
IsCall m (acks r) = Unit
IsCall m (nacks r true) = ¬ Mem (m.heap.cell r).id (ids_of m.heap m.pending)
IsCall m (nacks r false) = Unit

abbrev pub AreCalls : Memory → List Call → Type 0
AreCalls m [] = Unit
AreCalls m (c ∷ cs) = IsCall m c × AreCalls (after_call c m) cs

-- The id, where the task is claimed.
abbrev if_claimed : TaskId → Option Claim → List TaskId
if_claimed k none = []
if_claimed k (some c) = k ∷ []

-- The id, where the task is not claimed.
abbrev if_unclaimed : TaskId → Option Claim → List TaskId
if_unclaimed k none = k ∷ []
if_unclaimed k (some c) = []

abbrev claim_at : Memory → Ref → Option Claim
claim_at m r = lookup (m.heap.cell r).id m.claimed

-- The ids of the tasks that come in, and of those that are done with. A task that is nacked with
-- `requeue` when it is no more in the queue comes in again.
abbrev pub comes_in : Memory → Call → List TaskId
comes_in m (enqueues r) = (m.heap.cell r).id ∷ []
comes_in m (nacks r true) = if_unclaimed (m.heap.cell r).id (claim_at m r)
comes_in m _ = []

abbrev pub goes_out : Memory → Call → List TaskId
goes_out m (acks r) = if_claimed (m.heap.cell r).id (claim_at m r)
goes_out m (nacks r false) = if_claimed (m.heap.cell r).id (claim_at m r)
goes_out m _ = []

abbrev pub come_in : Memory → List Call → List TaskId
come_in m [] = []
come_in m (c ∷ cs) = comes_in m c ++ come_in (after_call c m) cs

abbrev pub go_out : Memory → List Call → List TaskId
go_out m [] = []
go_out m (c ∷ cs) = goes_out m c ++ go_out (after_call c m) cs

abbrev Balances : Memory → Call → Memory → Type 0
Balances m c m' = IsValid m' × Perm (goes_out m c ++ ids m') (comes_in m c ++ ids m)

ack-Balances :
    (m : Memory) (r : Ref)
    → IsValid m
    → IsValid (ack r m)
      × Perm (if_claimed (m.heap.cell r).id (claim_at m r) ++ ids (ack r m)) ([] ++ ids m)
ack-Balances m r v = elim (Option-cases (claim_at m r)) [
  | inl absent ↦ rw absent (ack-IsValid m v r, rw (ack_absent m v r absent) Perm.rfl)
  | inr (c, claimed) ↦ rw claimed (ack_lem m v r c claimed)
]

nack-Balances :
    (m : Memory) (r : Ref)
    → IsValid m
    → ¬ Mem (m.heap.cell r).id (ids_of m.heap m.pending)
    → IsValid (nack r true m)
      × Perm (ids (nack r true m)) (if_unclaimed (m.heap.cell r).id (claim_at m r) ++ ids m)
nack-Balances m r v h = elim (Option-cases (claim_at m r)) [
  | inl absent ↦ rw absent (nack_absent-IsValid m v r absent h)
  | inr (c, claimed) ↦ rw claimed (nack_requeue-IsValid m v r c claimed)
]

after_call-Balances :
    (m : Memory) (c : Call) → IsValid m → IsCall m c → Balances m c (after_call c m)
unfolding after_call nack ack
after_call-Balances m (enqueues r) v h = (enqueue-IsValid m v r h.0 h.1, enqueue-ids-perm m v r)
after_call-Balances m (passes visibility_timeout p) v h =
    let q = try_claim-Passes visibility_timeout p v in rw q.returns (q.valid, q.conserved)
after_call-Balances m (acks r) v h = ack-Balances m r v
after_call-Balances m (nacks r true) v h = nack-Balances m r v h
after_call-Balances m (nacks r false) v h = ack-Balances m r v

-- What comes in and goes out over two steps.
two_steps :
    {A : Type 0} (i o i' o' x y z : List A)
    → Perm (o ++ y) (i ++ x)
    → Perm (o' ++ z) (i' ++ y)
    → Perm ((o ++ o') ++ z) ((i ++ i') ++ x)
two_steps i o i' o' x y z p q =
    let outer : Perm (o ++ (o' ++ z)) (o ++ (i' ++ y)) = Perm.append_left o q in
    let swapped : Perm ((o ++ i') ++ y) ((i' ++ o) ++ y) =
      Perm.append_right y (perm_append_comm o i') in
    let inner : Perm (i' ++ (o ++ y)) (i' ++ (i ++ x)) = Perm.append_left i' p in
    let swapped' : Perm ((i' ++ i) ++ x) ((i ++ i') ++ x) =
      Perm.append_right x (perm_append_comm i' i) in
    rw (append_assoc o o' z, append_assoc i i' x)
      (Perm.trans outer (
        Perm.trans (rw (append_assoc o i' y, append_assoc i' o y) at swapped)
          (Perm.trans inner (rw (append_assoc i' i x, append_assoc i i' x) at swapped'))))

-- Over any sequence of calls of a valid queue, where each task that is enqueued is PENDING and new,
-- and none is nacked with `requeue` while it is pending in the queue (its claim may have expired, or
-- it may have left the queue): the queue stays valid; and the ids of the tasks that are done with,
-- those acked or nacked for good while claimed, and of those in the queue at the end are the ids of
-- those enqueued, of those nacked with `requeue` when they had left the queue, and of those in the
-- queue at the beginning, each as often.
pub after_calls-perm :
    (cs : List Call) (m : Memory)
    → IsValid m
    → AreCalls m cs
    → IsValid (after_calls cs m)
      × Perm (go_out m cs ++ ids (after_calls cs m)) (come_in m cs ++ ids m)
unfolding after_calls
after_calls-perm [] m v h = (v, Perm.rfl)
after_calls-perm (c ∷ cs) m v h =
    let (v', here) = after_call-Balances m c v h.0 in
    let m' = after_call c m in
    let (v'', later) = after_calls-perm cs m' v' h.1 in
    (
      v'',
      two_steps (comes_in m c) (goes_out m c) (come_in m' cs) (go_out m' cs) (ids m) (ids m')
          (ids (after_calls cs m')) here later,
    )
