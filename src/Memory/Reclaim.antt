-- ===== src/Memory/Reclaim.antt =====
-- `_reclaim_expired_locked`: what becomes of the claims.
use mathlib.Core.List.{append-nil}
use miniq.Base.{
  ◌≡◌, inl, inr, Bool, not, List, [], ◌∷◌, ◌++◌, map, select, Dict, IsDict, lookup-middle,
  erase-middle, append-append_snoc, lookup-none_before, IsDict-erase, leb_ℤ, Bool-cases,
}
use miniq.Exceptions.{ok}
use miniq.Task.{TaskId, Time, mark_pending}
use miniq.Heap.{Ref, Heap, modify}
use miniq.Memory.{Claim, Memory, expired, reclaim_each, reclaim_expired}

module _ (now : Time) where
  abbrev pub is_expired : TaskId × Claim → Bool
  is_expired e = leb_ℤ e.1.expires_at now

  -- The claims that have expired, and those that have not.
  abbrev pub stale : Dict Claim → Dict Claim
  stale = select is_expired

  abbrev pub live : Dict Claim → Dict Claim
  live = select (λ e. not (is_expired e))

abbrev pub tasks_of : Dict Claim → List Ref
tasks_of = map (λ e. e.1.task)

-- Each of the tasks is marked pending.
abbrev pub release : List Ref → Heap → Heap
release [] h = h
release (r ∷ rs) h = release rs (modify r mark_pending h)

-- The queue after a sweep at `now`.
abbrev pub swept : Time → Memory → Memory
swept now m = record {
  heap = release (tasks_of (stale now m.claimed)) m.heap;
  pending = m.pending ++ tasks_of (stale now m.claimed);
  claimed = live now m.claimed;
}

module _ (now : Time) where
  -- The sweep has seen `kept`, and goes on with `rest`.
  reclaim_each_lem :
      (rest kept : Dict Claim) (h : Heap) (pending : List Ref)
      → IsDict (kept ++ rest)
      → reclaim_each
          (expired now rest)
          (record { heap = h; pending = pending; claimed = kept ++ rest })
        ≡ ok (record {
          heap = release (tasks_of (stale now rest)) h;
          pending = pending ++ tasks_of (stale now rest);
          claimed = kept ++ live now rest;
        })
  unfolding reclaim_each expired
  reclaim_each_lem [] kept h pending d = simp append-nil
  reclaim_each_lem ((tid, c) ∷ rest) kept h pending d =
      elim (Bool-cases (is_expired now (tid, c))) [
        | inl old ↦
            let absent = lookup-none_before kept tid c rest d in
            let split = erase-middle tid c kept rest absent in
            let d' = rw split at (IsDict-erase tid (kept ++ (tid, c) ∷ rest) d) in
            let ih =
              reclaim_each_lem rest kept (modify c.task mark_pending h) (pending ++ c.task ∷ [])
                d' in
            rw (old, lookup-middle tid c kept rest absent, split) (rw append-append_snoc at ih)
        | inr fresh ↦
            let ih =
              reclaim_each_lem rest (kept ++ (tid, c) ∷ []) h pending
                (rw (append-append_snoc kept (tid, c) rest) d) in
            rw fresh (simp (append-append_snoc) at ih)
      ]

-- The sweep of a dict cannot fail: it moves exactly the claims that have expired, in their order,
-- to the end of the pending tasks, marks those tasks pending, and keeps the other claims.
pub reclaim_expired_lem :
    (now : Time) (m : Memory) → IsDict m.claimed → reclaim_expired now m ≡ ok (swept now m)
unfolding reclaim_expired
reclaim_expired_lem now m d = reclaim_each_lem now m.claimed [] m.heap m.pending d
