-- ===== src/Memory/Tests.antt =====
-- The in-memory queue on concrete tasks.
use mathlib.Core.List.{
  Mem, Memᴰ, Nodup, Perm, Nodup-cons, Pairwise, eq-or-mem_of_mem-cons, not-mem-nil,
}
use mathlib.Core.Logic.Or
use mathlib.Core.HLevel.{⊥_prop}
use mathlib.Core.Logic.{∥∥₁_elim}
use miniq.Base.{
  ◌++◌, ℕ, zero, suc, Bool, ◌&&◌, ◌≡◌, refl, ◌+ℤ◌, inl, pos, true, false, none, some, Option, List,
  [], ◌∷◌, ◌==◌, if◌then◌else◌, arith,
}
use miniq.Values.{dict, end, null}
use miniq.Task.{Task, TaskId, TaskStatus, pending, running}
use miniq.Heap.{Ref}
use miniq.Memory.{
  Memory, Claim, Pass, Progress, returned, ack, nack, size, expired, reclaim_each, reclaim_expired,
  is_available, is_better, consider, scan, claim_at, try_claim, dequeue,
}
use miniq.Memory.Choice.{Chosen, scan-Chosen}
use miniq.Memory.Reclaim.{swept, reclaim_expired_lem}
use miniq.Memory.Loop.{Ended, dequeue_lem, dequeue_returns}
use miniq.Memory.Histories.{
  Call, passes, acks, nacks, AreCalls, after_call, after_calls, come_in, go_out, after_calls-perm,
}
use miniq.Memory.Exclusive.{nack_stale_duplicates}
use miniq.Exceptions.{ok}
use miniq.Memory.Ids.{ids, ids_of, keys}
use miniq.Memory.Invariant.{IsValid}

-- The task with this id, status and priority.
abbrev task_of : TaskId → TaskStatus → ℕ → Task
task_of i status priority = record {
  func_path = "tasks.add";
  args = [];
  kwargs = dict end;
  id = i;
  status = status;
  retries = pos 0;
  max_retries = pos 3;
  priority = pos priority;
  created_at = pos i;
  started_at = none;
  finished_at = none;
  available_at = none;
  result = null;
  error = none;
}

-- Two pending tasks, the second of a higher priority, one claimed until 50, and a new one.
abbrev cells : Ref → Task
cells zero = task_of 10 pending 1
cells (suc zero) = task_of 11 pending 2
cells (suc (suc zero)) = task_of 12 running 1
cells _ = task_of 13 pending 0

abbrev claim : Claim
claim = record { task = 2; expires_at = pos 50 }

abbrev queue : Memory
queue = record {
  heap = record { cell = cells; next = 4 };
  pending = 0 ∷ 1 ∷ [];
  claimed = (12, claim) ∷ [];
}

-- A number in no place of the list, and a list with no number twice.
abbrev is_new : ℕ → List ℕ → Bool
is_new n [] = true
is_new n (k ∷ ks) = if n == k then false else is_new n ks

abbrev all_new : List ℕ → Bool
all_new [] = true
all_new (k ∷ ks) = is_new k ks && all_new ks

not_memᴰ : (n : ℕ) (ks : List ℕ) → is_new n ks ≡ true → ¬ Memᴰ n ks
not_memᴰ n [] e i = elim i [ ]
not_memᴰ n (k ∷ ks) e (Memᴰ.head same) = ground arith
not_memᴰ n (k ∷ ks) e (Memᴰ.tail i) = ground (arith, not_memᴰ n ks)

not_mem : (n : ℕ) (ks : List ℕ) → is_new n ks ≡ true → ¬ Mem n ks
not_mem n ks e i = ∥∥₁_elim i ⊥_prop (not_memᴰ n ks e)

all_new-Nodup : (ks : List ℕ) → all_new ks ≡ true → Nodup ks
all_new-Nodup [] e = Pairwise.nil
all_new-Nodup (k ∷ ks) e =
    Nodup-cons.1 (not_mem k ks (ground arith), all_new-Nodup ks (ground arith))

queue-IsValid : IsValid queue
unfolding ids_of keys
queue-IsValid = record {
  unique = all_new-Nodup (10 ∷ 11 ∷ 12 ∷ []) refl;
  keyed = (refl, tt);
  all_pending = (refl, (refl, tt));
  all_active = (λ e. cc, tt);
}

-- A pass at 7, at which no other thread does anything.
abbrev pass : Pass
pass = record {
  reclaim_at = pos 7;
  now_wall = pos 7;
  started_at = pos 7;
  claimed_at = pos 7;
  checked_at = pos 7;
  others = λ m. m;
}

-- The pass claims the task of the higher priority.
abbrev claimed_queue : Memory
claimed_queue = record {
  heap = record {
    cell = λ q.
        if 1 == q
        then record (cells 1) { status = running; started_at = some (pos 7) }
        else cells q;
    next = 4;
  };
  pending = 0 ∷ [];
  claimed = (12, claim) ∷ (11, record { task = 1; expires_at = pos 37 }) ∷ [];
}

try_claim_test : try_claim (pos 30) pass queue ≡ ok (some 1, claimed_queue)
unfolding try_claim reclaim_expired expired reclaim_each scan consider is_available is_better
    claim_at ◌+ℤ◌
try_claim_test = refl

expired_test : expired (pos 50) queue.claimed ≡ 12 ∷ []
unfolding expired
expired_test = refl

size_test : size queue ≡ 3
unfolding size
size_test = refl

scan_example :
    Chosen (pos 7) queue.heap queue.pending (scan (pos 7) queue.heap 0 queue.pending none)
scan_example = scan-Chosen (pos 7) queue.heap queue.pending

reclaim_expired_example : reclaim_expired (pos 50) queue ≡ ok (swept (pos 50) queue)
reclaim_expired_example = reclaim_expired_lem (pos 50) queue (refl, tt)

dequeue_example :
    (progress : Progress) × (m' : Memory) × (dequeue (pos 30) (pos 0) (pos 7) (pass ∷ []) queue
      ≡ ok (progress, m'))
    × IsValid m'
    × Ended (pos 30) (pass ∷ []) progress m'
dequeue_example =
    dequeue_lem (pos 30) (pos 0) (pos 7) (pass ∷ []) queue ((λ m v. v), tt) queue-IsValid

dequeue_returns_example :
    (r : Option Ref) × (m' : Memory) × (dequeue (pos 30) (pos 0) (pos 7) (pass ∷ []) queue
      ≡ ok (returned r, m'))
dequeue_returns_example =
    dequeue_returns (pos 30) (pos 0) (pos 7) (pass ∷ []) queue ((λ m v. v), tt) queue-IsValid
      (inl (inl (ground arith)))

nack_stale_example : ¬ Nodup (ids (nack 0 true queue))
nack_stale_example = nack_stale_duplicates queue 0 (Memᴰ.head refl)

-- A pass claims the task 11, and both claimed tasks are acked, one of them twice; then a late worker
-- puts that one back.
abbrev calls : List Call
calls = passes (pos 30) pass ∷ acks 1 ∷ acks 2 ∷ acks 2 ∷ nacks 2 true ∷ []

only_ten : ¬ Mem {A = TaskId} 12 (10 ∷ [])
only_ten i = Or.elim ⊥_prop (eq-or-mem_of_mem-cons i) (λ e. ground arith) not-mem-nil

calls_allowed : AreCalls queue calls
unfolding after_call try_claim reclaim_expired expired reclaim_each scan consider is_available
    is_better claim_at ack ids_of ◌+ℤ◌
calls_allowed = (tt, (tt, (tt, (tt, (only_ten, tt)))))

history_example :
    IsValid (after_calls calls queue)
    × Perm (go_out queue calls ++ ids (after_calls calls queue)) (come_in queue calls ++ ids queue)
history_example = after_calls-perm calls queue queue-IsValid calls_allowed
