-- ===== src/App/Single.antt =====
-- `dequeue` of src/miniq/queue/memory.py from a queue that holds one task.
use miniq.Base.{
  if◌then◌else◌, ◌+ℤ◌, ◌≡◌, refl, ap, Option, none, some, List, [], ◌∷◌, true, not, ◌&&◌, ltb_ℤ,
}
use miniq.Exceptions.{Result, ok, ◌>>=◌}
use miniq.Task.{Time, mark_running}
use miniq.Heap.{Ref, Heap, modify}
use miniq.Memory.{
  Memory, Best, returned, Pass, dequeue, dequeue_loop, try_claim, claim_at, scan, consider,
  is_available, is_better, reclaim_expired, reclaim_each, expired,
}

-- A queue that holds one task, at `r`, which waits for no time; and after its claim.
module _ (heap : Heap) (r : Ref) (p : Pass) (visibility_timeout : Time) where
  abbrev pub holding : Memory
  holding = record { heap = heap; pending = r ∷ []; claimed = [] }

  abbrev pub claimed : Memory
  claimed = record {
    heap = modify r (mark_running p.started_at) heap;
    pending = [];
    claimed =
        (
          ((modify r (mark_running p.started_at) heap).cell r).id,
          record { task = r; expires_at = p.claimed_at +ℤ visibility_timeout },
        )
        ∷ [];
  }

  first_best : Option Best
  first_best = some (record {
    index = 0;
    priority = (heap.cell r).priority;
    created_at = (heap.cell r).created_at;
  })

  found : (heap.cell r).available_at ≡ none → scan p.now_wall heap 0 (r ∷ []) none ≡ first_best
  unfolding scan consider is_available is_better first_best
  found e =
      ap
        (λ (at : Option Time).
          if (elim at [ none ↦ true | some a ↦ not (ltb_ℤ p.now_wall a) ]) && true
          then first_best
          else none)
        e

  picked : Option Best → Result (Option Ref × Memory)
  picked best = elim best [
    | none ↦ ok (none, holding)
    | some best ↦ do (q, m) ← claim_at visibility_timeout p best.index holding; ok (some q, m)
  ]

  claims :
      (heap.cell r).available_at ≡ none
      → try_claim visibility_timeout p holding ≡ ok (some r, claimed)
  unfolding try_claim claim_at reclaim_expired reclaim_each expired first_best picked
  claims e = ap picked (found e)

  pub dequeues :
      (wait_seconds called_at : Time) (ps : List Pass)
      → (heap.cell r).available_at ≡ none
      → dequeue visibility_timeout wait_seconds called_at (p ∷ ps) holding
        ≡ ok (returned (some r), claimed)
  unfolding dequeue dequeue_loop
  dequeues wait_seconds called_at ps e = rw (dequeue_loop, claims e) refl
