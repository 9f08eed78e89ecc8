-- ===== src/Memory/Dequeue.antt =====
-- What `dequeue` of the in-memory queue does, on every path through its loop.
use miniq.Base.{
  ◌≡◌, refl, ◌⊎◌, inl, inr, Option, none, some, ◌++◌, get_elem?, erase_idx, get_elem?-middle,
  erase_idx-middle, insert_new, arith, ◌+ℤ◌,
}
use miniq.Exceptions.{ok, ◌>>=◌}
use miniq.Task.{Time, mark_running}
use miniq.Heap.{modify}
use miniq.Memory.{Memory, Pass, Best, scan, reclaim_expired, claim_at, try_claim}
use miniq.Memory.Choice.{NoneAvailable, IsChoice, Chosen, scan-Chosen}
use miniq.Memory.Reclaim.{swept, reclaim_expired_lem}
use miniq.Memory.Invariant.{IsValid, IsValid-IsDict, swept-IsValid, claim_of, not_claimed}

-- The claim at the scan's index.
claim_at_lem :
    (visibility_timeout : Time) (p : Pass) {m : Memory} {best : Best}
    → IsValid m
    → (c : IsChoice p.now_wall m.heap m.pending best)
    → claim_at visibility_timeout p best.index m
      ≡ ok (
        c.ref,
        claim_of p.started_at (p.claimed_at +ℤ visibility_timeout) c.before c.ref c.after m,
      )
unfolding claim_at
claim_at_lem visibility_timeout p {m} {best} v c =
    let found : get_elem? m.pending best.index ≡ some c.ref =
      rw (c.split, c.index) (get_elem?-middle c.before c.ref c.after) in
    let rest : erase_idx m.pending best.index ≡ c.before ++ c.after =
      rw (c.split, c.index) (erase_idx-middle c.before c.ref c.after) in
    let same : ((modify c.ref (mark_running p.started_at) m.heap).cell c.ref).id
        ≡ (m.heap.cell c.ref).id =
      ground arith in
    rw (found, rest, same, insert_new _ _ m.claimed (not_claimed v c.before c.ref c.after c.split))

-- A pass either finds no available task and only sweeps, or claims the best one.
abbrev pub Attempt : Time → Pass → Memory → Type 0
Attempt visibility_timeout p m =
    let s = swept p.reclaim_at m in
    (try_claim visibility_timeout p m ≡ ok (none, s)) × NoneAvailable p.now_wall s.heap s.pending
    ⊎ ((best : Best) × (c : IsChoice p.now_wall s.heap s.pending best) × (try_claim
            visibility_timeout p m
          ≡ ok (
            some c.ref,
            claim_of p.started_at (p.claimed_at +ℤ visibility_timeout) c.before c.ref c.after s,
          )))

module _ (visibility_timeout : Time) (p : Pass) {m : Memory} (v : IsValid m) where
  -- A pass over a valid queue sweeps, and then either finds no available task and returns none, or
  -- claims and returns the task that the scan has chosen.
  pub try_claim-Attempt : Attempt visibility_timeout p m
  unfolding try_claim
  try_claim-Attempt =
      let s = swept p.reclaim_at m in
      go (scan p.now_wall s.heap 0 s.pending none) refl (scan-Chosen _ s.heap s.pending)
    where
      sweep : reclaim_expired p.reclaim_at m ≡ ok (swept p.reclaim_at m)
      sweep = reclaim_expired_lem p.reclaim_at m (IsValid-IsDict v)

      go :
          (found : Option Best)
          → scan p.now_wall (swept p.reclaim_at m).heap 0 (swept p.reclaim_at m).pending none
            ≡ found
          → Chosen p.now_wall (swept p.reclaim_at m).heap (swept p.reclaim_at m).pending found
          → Attempt visibility_timeout p m
      go none e unavailable = inl (rw (sweep, ◌>>=◌, e), unavailable)
      go (some best) e c =
          let claimed = claim_at_lem visibility_timeout p (swept-IsValid p.reclaim_at m v) c in
          inr (best, c, rw (sweep, ◌>>=◌, e, claimed))
