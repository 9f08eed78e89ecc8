-- ===== src/Memory.antt =====
-- `InMemoryQueue` of src/miniq/queue/memory.py. Each method runs under the one lock, so it is one
-- step; what other threads do while `dequeue` waits, and so gives up the lock, is an argument of
-- the loop, beside the clocks' readings.
pub mod Choice
pub mod Reclaim
pub mod Ids
pub mod Invariant
pub mod Dequeue
pub mod Loop
pub mod Methods
pub mod Histories
pub mod Exclusive
pub mod Phases
pub mod Moves
pub mod Lifecycle
mod Tests
use miniq.Base.{
  ℕ, suc, ◌+◌, Bool, true, false, ◌&&◌, ◌||◌, not, Option, none, some, List, [], ◌∷◌, ◌++◌, Dict,
  lookup, insert, erase, get_elem?, erase_idx, length, if◌then◌else◌, ℤ, pos, ◌+ℤ◌, ◌-ℤ◌, ltb_ℤ,
  leb_ℤ, eqb_ℤ,
}
use miniq.Exceptions.{Result, ok, ◌>>=◌, or_raise, key_error, index_error}
use miniq.Task.{Task, TaskId, Time, mark_running, mark_pending}
use miniq.Heap.{Ref, Heap, modify}

-- `_Claim`
pub record Claim : Type 0 where
  pub task : Ref
  pub expires_at : Time

-- The queue's fields `_pending` and `_claimed`, beside the heap that they refer to.
pub record Memory : Type 0 where
  pub heap : Heap
  pub pending : List Ref
  pub claimed : Dict Claim

-- `self._pending.append(task)`
abbrev pub append : Ref → Memory → Memory
append r m = record m { pending = m.pending ++ r ∷ [] }

-- `self._claimed.pop(task.id, None)`
abbrev pub unclaim : TaskId → Memory → Memory
unclaim tid m = record m { claimed = erase tid m.claimed }

unfoldable pub enqueue : Ref → Memory → Memory
enqueue r m = append r m

unfoldable pub ack : Ref → Memory → Memory
ack r m = unclaim (m.heap.cell r).id m

unfoldable pub nack : Ref → Bool → Memory → Memory
nack r requeue m =
    let m' = unclaim (m.heap.cell r).id m in
    if requeue then append r (record m' { heap = modify r mark_pending m'.heap }) else m'

unfoldable pub size : Memory → ℕ
size m = length m.pending + length m.claimed

-- The ids of the claims that have expired, in the dict's order.
unfoldable pub expired : Time → Dict Claim → List TaskId
expired now [] = []
expired now (e ∷ d) = if leb_ℤ e.1.expires_at now then e.0 ∷ expired now d else expired now d

-- The `for` loop of `_reclaim_expired_locked`.
unfoldable pub reclaim_each : List TaskId → Memory → Result Memory
reclaim_each [] m = ok m
reclaim_each (tid ∷ tids) m = do
  claim ← or_raise (lookup tid m.claimed) key_error
  let m' = unclaim tid m
  reclaim_each tids
      (append claim.task (record m' { heap = modify claim.task mark_pending m'.heap }))

unfoldable pub reclaim_expired : Time → Memory → Result Memory
unfolding expired reclaim_each
reclaim_expired now m = reclaim_each (expired now m.claimed) m

-- Not scheduled, or scheduled for a time that has come.
unfoldable pub is_available : Time → Task → Bool
is_available now t = elim t.available_at [ none ↦ true | some at ↦ not (ltb_ℤ now at) ]

-- `best_index`, `best_priority` and `best_created_at`. Before the first candidate `best_index` is
-- None and the other two are infinite, so that any task is better: `none`.
pub record Best : Type 0 where
  pub index : ℕ
  pub priority : ℤ
  pub created_at : Time

unfoldable pub is_better : Task → Option Best → Bool
is_better t none = true
is_better t (some b) =
    ltb_ℤ b.priority t.priority || (eqb_ℤ t.priority b.priority && ltb_ℤ t.created_at b.created_at)

-- The body of the scan over `enumerate(self._pending)`.
unfoldable pub consider : Time → ℕ → Task → Option Best → Option Best
unfolding is_available is_better
consider now i t best =
    if is_available now t && is_better t best
    then some (record { index = i; priority = t.priority; created_at = t.created_at })
    else best

unfoldable pub scan : Time → Heap → ℕ → List Ref → Option Best → Option Best
unfolding consider
scan now h i [] best = best
scan now h i (r ∷ rs) best = scan now h (suc i) rs (consider now i (h.cell r) best)

-- What one pass of the `while True` loop reads from the clocks (`reclaim_at`, `claimed_at` and
-- `checked_at` from the monotonic one), and what other threads do during its wait.
pub record Pass : Type 0 where
  pub reclaim_at : Time
  pub now_wall : Time
  pub started_at : Time
  pub claimed_at : Time
  pub checked_at : Time
  pub others : Memory → Memory

-- The body of `if best_index is not None`.
unfoldable pub claim_at : Time → Pass → ℕ → Memory → Result (Ref × Memory)
claim_at visibility_timeout p index m = do
  r ← or_raise (get_elem? m.pending index) index_error
  let h = modify r (mark_running p.started_at) m.heap
  let claim : Claim = record { task = r; expires_at = p.claimed_at +ℤ visibility_timeout }
  ok (
    r,
    record {
      heap = h;
      pending = erase_idx m.pending index;
      claimed = insert (h.cell r).id claim m.claimed;
    },
  )

-- A pass, up to the point where it has claimed a task or found none.
unfoldable pub try_claim : Time → Pass → Memory → Result (Option Ref × Memory)
try_claim visibility_timeout p m = do
  m' ← reclaim_expired p.reclaim_at m
  elim (scan p.now_wall m'.heap 0 m'.pending none) [
    | none ↦ ok (none, m')
    | some best ↦ do (r, m'') ← claim_at visibility_timeout p best.index m'; ok (some r, m'')
  ]

-- How far a call has come: it has returned, or still waits when the given passes are over.
pub data Progress : Type 0 where
  returned : Option Ref → Progress
  waiting : Progress

unfoldable pub dequeue_loop : Option Time → Time → List Pass → Memory → Result (Progress × Memory)
dequeue_loop deadline visibility_timeout [] m = ok (waiting, m)
dequeue_loop deadline visibility_timeout (p ∷ ps) m = do
  (found, m') ← try_claim visibility_timeout p m
  elim found [
    | some r ↦ ok (returned (some r), m')
    | none ↦ elim deadline [
      | none ↦ ok (returned none, m')
      | some d ↦ elim (leb_ℤ (d -ℤ p.checked_at) (pos 0)) [
        | true ↦ ok (returned none, m')
        | false ↦ dequeue_loop deadline visibility_timeout ps (p.others m')
      ]
    ]
  ]

-- `called_at` is the monotonic clock at the call.
unfoldable pub dequeue : Time → Time → Time → List Pass → Memory → Result (Progress × Memory)
dequeue visibility_timeout wait_seconds called_at ps m =
    let deadline : Option Time =
      if ltb_ℤ (pos 0) wait_seconds then some (called_at +ℤ wait_seconds) else none in
    dequeue_loop deadline visibility_timeout ps m
