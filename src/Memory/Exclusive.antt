-- ===== src/Memory/Exclusive.antt =====
-- Claims: nobody else is given a claimed task before its claim expires, and after that the task
-- comes back.
use mathlib.Core.List.{
  Mem, Memᴰ, Nodup, Nodup-cons, append-nil, mem-append_left, mem-cons_self, mem-cons_of_mem,
}
use mathlib.Core.List.Perm
use miniq.Base.{
  ◌≡◌, ◌≢◌, refl, sym, ap, true, none, some, Option, List, [], ◌∷◌, ◌++◌, Dict, All, lookup, erase,
  ◌==◌, ==_iff, arith, Bool-cases, inl, inr, ◌≤ℤ◌, ◌<ℤ◌, IsDict, ◌+ℤ◌,
}
use miniq.Exceptions.{ok}
use miniq.Task.{TaskId, Time, pending, mark_pending}
use miniq.Heap.{Ref, Heap, modify}
use miniq.Memory.{reclaim_expired, Claim, Memory, Pass, try_claim, nack}
use miniq.Memory.Reclaim.{is_expired, stale, live, tasks_of, swept, reclaim_expired_lem}
use miniq.Memory.Ids.{ids, ids_of, keys, ids-middle-perm}
use miniq.Memory.Invariant.{IsValid, IsValid-IsDict, swept-IsValid, claim_of, not_claimed}
use miniq.Memory.Dequeue.{try_claim-Attempt}

-- The entry that a lookup finds is one of the dict's.
lookup-All :
    (P : TaskId × Claim → Type 0) (k : TaskId) (c : Claim) (d : Dict Claim)
    → All P d
    → lookup k d ≡ some c
    → P (k, c)
lookup-All P k c [] h e = cc
lookup-All P k c ((j, b) ∷ d) h e = elim (Bool-cases (k == j)) [
  | inl here ↦
      let same : b ≡ c = (let e' = rw here at e in cc) in rw ((==_iff k j).0 here, ← same) h.0
  | inr there ↦ lookup-All P k c d h.1 (rw there at e)
]

pub lookup-live :
    (now : Time) (k : TaskId) (c : Claim) (d : Dict Claim)
    → lookup k d ≡ some c
    → now <ℤ c.expires_at
    → lookup k (live now d) ≡ some c
lookup-live now k c [] e later = e
lookup-live now k c (x ∷ d) e later = ground (arith, lookup-live now k c d)

pub lookup-append_some :
    (k : TaskId) (c : Claim) (d d' : Dict Claim) → lookup k d ≡ some c → lookup k (d ++ d') ≡ some c
lookup-append_some k c [] d' h = cc
lookup-append_some k c (x ∷ d) d' h = ground (arith, lookup-append_some k c d d')

All-mem : (P : Ref → Type 0) (xs : List Ref) {x : Ref} → All P xs → Memᴰ x xs → P x
All-mem P [] h i = elim i [ ]
All-mem P (y ∷ xs) h (Memᴰ.head e) = rw e h.0
All-mem P (y ∷ xs) h (Memᴰ.tail i) = All-mem P xs h.1 i

Memᴰ-append_right : (xs : List Ref) {ys : List Ref} {x : Ref} → Memᴰ x ys → Memᴰ x (xs ++ ys)
Memᴰ-append_right [] i = i
Memᴰ-append_right (y ∷ xs) i = Memᴰ.tail (Memᴰ-append_right xs i)

stale_mem :
    (now : Time) (k : TaskId) (c : Claim) (d : Dict Claim)
    → lookup k d ≡ some c
    → c.expires_at ≤ℤ now
    → Memᴰ c.task (tasks_of (stale now d))
stale_mem now k c [] e over = cc
stale_mem now k c ((j, b) ∷ d) e over = elim (Bool-cases (k == j)) [
  | inl here ↦
      let same : b ≡ c = (let e' = rw here at e in cc) in
      let old : is_expired now (j, b) ≡ true = ground arith in
      rw old (Memᴰ.head (ap (λ (x : Claim). x.task) (sym same)))
  | inr there ↦
      let later = stale_mem now k c d (rw there at e) over in
      elim (Bool-cases (is_expired now (j, b))) [
        | inl old ↦ rw old (Memᴰ.tail later)
        | inr fresh ↦ rw fresh later
      ]
]

pub lookup-live_absent :
    (now : Time) (k : TaskId) (d : Dict Claim) → lookup k d ≡ none → lookup k (live now d) ≡ none
lookup-live_absent now k [] e = refl
lookup-live_absent now k (x ∷ d) e = ground (arith, lookup-live_absent now k d)

pub lookup-live-none :
    (now : Time) (k : TaskId) (c : Claim) (d : Dict Claim)
    → IsDict d
    → lookup k d ≡ some c
    → c.expires_at ≤ℤ now
    → lookup k (live now d) ≡ none
lookup-live-none now k c [] u e over = refl
lookup-live-none now k c (x ∷ d) u e over =
    ground (arith, lookup-live-none now k c d u.1, lookup-live_absent now k d)

module _ (visibility_timeout : Time) (p : Pass) {m : Memory} (v : IsValid m) (k : TaskId)
    (c : Claim) (claimed : lookup k m.claimed ≡ some c) where
  -- In a valid queue, while a claim has not expired at the sweep of a pass, the pass does not return
  -- its task, and the claim stays as it is.
  pub try_claim_respects :
      {found : Option Ref} {m' : Memory}
      → p.reclaim_at <ℤ c.expires_at
      → try_claim visibility_timeout p m ≡ ok (found, m')
      → (found ≢ some c.task) × (lookup k m'.claimed ≡ some c)
  try_claim_respects {found} {m'} later e = elim (try_claim-Attempt visibility_timeout p v) [
    | inl (returns, _) ↦
        let f : found ≡ none = cc in
        let s : m' ≡ swept p.reclaim_at m = cc in
        (λ same. cc, rw s (lookup-live p.reclaim_at k c m.claimed claimed later))
    | inr (best, ch, returns) ↦
        let held = lookup-live p.reclaim_at k c m.claimed claimed later in
        let valid = swept-IsValid p.reclaim_at m v in
        let f : found ≡ some ch.ref = cc in
        let s : m'
            ≡ claim_of p.started_at (p.claimed_at +ℤ visibility_timeout) ch.before ch.ref ch.after
                (swept p.reclaim_at m) =
          cc in
        (
          λ same.
              let ref : ch.ref ≡ c.task = cc in
              let keyed = lookup-All _ k c _ valid.keyed held in
              let absent = not_claimed valid ch.before ch.ref ch.after ch.split in
              let gone : lookup k (live p.reclaim_at m.claimed) ≡ none =
                rw (ref, keyed) at absent in
              cc,
          rw s (lookup-append_some k c _ _ held),
        )
  ]

module _ {m : Memory} (v : IsValid m) (k : TaskId) (c : Claim)
    (claimed : lookup k m.claimed ≡ some c) where
  -- In a valid queue, once a claim has expired, a sweep returns and takes the claim back: the task
  -- is pending again, and not claimed.
  pub swept_takes_back :
      (now : Time)
      → c.expires_at ≤ℤ now
      → (m' : Memory) × (reclaim_expired now m ≡ ok m')
        × Memᴰ c.task m'.pending
        × ((m'.heap.cell c.task).status ≡ pending)
        × (lookup k m'.claimed ≡ none)
  swept_takes_back now over =
      let back = Memᴰ-append_right m.pending (stale_mem now k c m.claimed claimed over) in
      (
        swept now m,
        reclaim_expired_lem now m (IsValid-IsDict v),
        back,
        All-mem _ (swept now m).pending (swept-IsValid now m v).all_pending back,
        lookup-live-none now k c m.claimed (IsValid-IsDict v) claimed over,
      )

ids_of-mem : (h : Heap) (l : List Ref) {r : Ref} → Memᴰ r l → Mem (h.cell r).id (ids_of h l)
unfolding ids_of
ids_of-mem h [] i = elim i [ ]
ids_of-mem h (q ∷ l) (Memᴰ.head e) = rw e mem-cons_self
ids_of-mem h (q ∷ l) (Memᴰ.tail i) = mem-cons_of_mem _ (ids_of-mem h l i)

-- After a `nack` with `requeue` of a task that is pending already (its claim has expired and been
-- taken back, say) the ids of the queue's tasks are not distinct.
pub nack_stale_duplicates :
    (m : Memory) (r : Ref) → Memᴰ r m.pending → ¬ Nodup (ids (nack r true m))
unfolding nack
nack_stale_duplicates m r waiting distinct =
    let h = modify r mark_pending m.heap in
    let ks = keys (erase (m.heap.cell r).id m.claimed) in
    let front = rw append-nil at (ids-middle-perm h m.pending [] r ks) in
    let (absent, _) = Nodup-cons.0 (Perm.nodup front distinct) in
    absent (mem-append_left ks (ids_of-mem h m.pending waiting))
