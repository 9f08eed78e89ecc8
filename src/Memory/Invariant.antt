-- ===== src/Memory/Invariant.antt =====
-- The invariant of the in-memory queue.
use mathlib.Core.List.{
  Nodup, Mem, Nodup-cons, mem-cons_self, mem-cons_of_mem, mem-append_right, mem-append_left,
}
use mathlib.Core.List.Perm
use mathlib.Core.List.Nodup
use miniq.Base.{
  ◌≡◌, ◌≢◌, refl, ◌∙◌, not, none, List, [], ◌∷◌, ◌++◌, Dict, IsDict, All, All-append, All-map,
  All-zip, All-drop_middle, lookup, arith, Bool-cases, inl, inr,
}
use miniq.Task.{TaskId, pending, Time, mark_pending, mark_running}
use miniq.Heap.{Ref, Heap, modify}
use miniq.Memory.{Claim, Memory}
use miniq.Memory.Reclaim.{is_expired, stale, live, tasks_of, release, swept}
use miniq.Memory.Ids.{
  ids_of, keys, ids, IsKeyed, ids-swept-perm, ids-claim-perm, id-release, select-IsKeyed,
  ids-middle-perm,
}

abbrev pub AllPending : Heap → List Ref → Type 0
AllPending h = All (λ r. (h.cell r).status ≡ pending)

abbrev pub AllActive : Heap → Dict Claim → Type 0
AllActive h = All (λ e. (h.cell e.1.task).status ≢ pending)

-- No two tasks in the queue have the same id, each claim is held under the id of its task, and
-- the tasks with the status PENDING are those that are not claimed. (A claimed task is RUNNING, and
-- SUCCESS or FAILED for the moment between the worker's mark and its `ack` or `nack`.)
pub record IsValid (m : Memory) : Type 0 where
  pub unique : Nodup (ids m)
  pub keyed : IsKeyed m.heap m.claimed
  pub all_pending : AllPending m.heap m.pending
  pub all_active : AllActive m.heap m.claimed

pub lookup-none_of_not_mem : (i : TaskId) (d : Dict Claim) → ¬ Mem i (keys d) → lookup i d ≡ none
unfolding keys
lookup-none_of_not_mem i [] h = refl
lookup-none_of_not_mem i (e ∷ d) h = ground (
  arith,
  lookup-none_of_not_mem i d (λ m. h (mem-cons_of_mem e.0 m)),
  λ (p : i ≡ e.0). h (rw p mem-cons_self),
)

Nodup-IsDict : (d : Dict Claim) → Nodup (keys d) → IsDict d
unfolding keys
Nodup-IsDict [] h = tt
Nodup-IsDict (e ∷ d) h =
    let (absent, rest) = Nodup-cons.0 h in
    (lookup-none_of_not_mem e.0 d absent, Nodup-IsDict d rest)

pub IsValid-IsDict : {m : Memory} → IsValid m → IsDict m.claimed
IsValid-IsDict {m} v =
    Nodup-IsDict m.claimed (Nodup.of_append_right (ids_of m.heap m.pending) v.unique)

-- References to tasks with other ids are other references.
other_refs :
    (h : Heap) (l : List Ref) (r : Ref) → ¬ Mem (h.cell r).id (ids_of h l) → All (λ q. q ≢ r) l
unfolding ids_of
other_refs h [] r absent = tt
other_refs h (q ∷ l) r absent =
    (λ e. absent (rw e mem-cons_self), other_refs h l r (λ m. absent (mem-cons_of_mem _ m)))

-- A task that is pending stays so in the sweep.
release-keeps_pending :
    (rs : List Ref) (h : Heap) (q : Ref)
    → (h.cell q).status ≡ pending
    → ((release rs h).cell q).status ≡ pending
release-keeps_pending [] h q p = p
release-keeps_pending (r ∷ rs) h q p =
    release-keeps_pending rs (modify r mark_pending h) q (ground arith)

release-AllPending : (rs : List Ref) (h : Heap) → AllPending (release rs h) rs
release-AllPending [] h = tt
release-AllPending (r ∷ rs) h = (
  release-keeps_pending rs (modify r mark_pending h) r (ground arith),
  release-AllPending rs (modify r mark_pending h),
)

-- A task that is not among those released stays as it is.
release-frame :
    (rs : List Ref) (h : Heap) (q : Ref) → All (λ r. r ≢ q) rs → (release rs h).cell q ≡ h.cell q
release-frame [] h q others = refl
release-frame (r ∷ rs) h q others =
    release-frame rs (modify r mark_pending h) q others.1 ∙ ground arith

-- Under different keys stand different tasks.
other_tasks :
    (h : Heap) (e : TaskId × Claim) (d : Dict Claim)
    → IsKeyed h (e ∷ d)
    → lookup e.0 d ≡ none
    → All (λ f. f.1.task ≢ e.1.task) d
other_tasks h e [] k absent = tt
other_tasks h e (f ∷ d) k absent =
    (λ same. ground arith, other_tasks h e d (k.0, k.1.1) (ground arith))

stale-others :
    (now : Time) (q : Ref) (d : Dict Claim)
    → All (λ f. f.1.task ≢ q) d
    → All (λ r. r ≢ q) (tasks_of (stale now d))
stale-others now q [] h = tt
stale-others now q (e ∷ d) h = ground (arith, stale-others now q d h.1)

-- The claims that the sweep keeps are of tasks that are not pending still.
live-AllActive :
    (now : Time) (d : Dict Claim) (h : Heap)
    → IsDict d
    → IsKeyed h d
    → AllActive h d
    → AllActive (release (tasks_of (stale now d)) h) (live now d)
live-AllActive now [] h u k a = tt
live-AllActive now (e ∷ d) h u k a = elim (Bool-cases (is_expired now e)) [
  | inl old ↦
      let h' = modify e.1.task mark_pending h in
      rw old (
        live-AllActive now d h' u.1 (All-map _ _ d (λ f keyed. ground arith) k.1)
          (All-zip _ _ _ d (λ f apart run. ground arith) (other_tasks h e d k u.0) a.1))
  | inr fresh ↦ rw fresh (
    rw
        (release-frame (tasks_of (stale now d)) h e.1.task
          (stale-others now e.1.task d (other_tasks h e d k u.0)))
        a.0,
    live-AllActive now d h u.1 k.1 a.1,
  )
]

release-IsKeyed :
    (rs : List Ref) (h : Heap) (d : Dict Claim) → IsKeyed h d → IsKeyed (release rs h) d
release-IsKeyed rs h [] k = tt
release-IsKeyed rs h (e ∷ d) k = (id-release rs h e.1.task ∙ k.0, release-IsKeyed rs h d k.1)

-- The sweep keeps the invariant.
pub swept-IsValid : (now : Time) (m : Memory) → IsValid m → IsValid (swept now m)
swept-IsValid now m v =
    let rs = tasks_of (stale now m.claimed) in
    record {
      unique = Perm.nodup (Perm.symm (ids-swept-perm now m v.keyed)) v.unique;
      keyed =
          release-IsKeyed rs m.heap _
            (select-IsKeyed (λ e. not (is_expired now e)) m.heap m.claimed v.keyed);
      all_pending =
          All-append _ m.pending rs
            (All-map _ _ m.pending (release-keeps_pending rs m.heap) v.all_pending)
            (release-AllPending rs m.heap);
      all_active = live-AllActive now m.claimed m.heap (IsValid-IsDict v) v.keyed v.all_active;
    }

-- The queue after the claim of `r`, which stood between `before` and `after`.
abbrev pub claim_of : Time → Time → List Ref → Ref → List Ref → Memory → Memory
claim_of started_at expires_at before r after m = record {
  heap = modify r (mark_running started_at) m.heap;
  pending = before ++ after;
  claimed = m.claimed ++ ((m.heap.cell r).id, record { task = r; expires_at = expires_at }) ∷ [];
}

module _ {m : Memory} (v : IsValid m) (before : List Ref) (r : Ref) (after : List Ref)
    (split : m.pending ≡ before ++ r ∷ after) where
  -- The id of a pending task is that of no other task in the queue.
  pub others_differ : ¬ Mem (m.heap.cell r).id (ids_of m.heap (before ++ after) ++ keys m.claimed)
  others_differ =
      let whole = rw split at v.unique in
      (Nodup-cons.0 (Perm.nodup (ids-middle-perm m.heap before after r (keys m.claimed)) whole)).0

  pub not_claimed : lookup (m.heap.cell r).id m.claimed ≡ none
  not_claimed =
      lookup-none_of_not_mem _ m.claimed
        (λ i. others_differ (mem-append_right (ids_of m.heap (before ++ after)) i))

  -- A claim keeps the invariant.
  pub claim_of-IsValid :
      (started_at expires_at : Time) → IsValid (claim_of started_at expires_at before r after m)
  claim_of-IsValid started_at expires_at =
      let others =
        other_refs m.heap (before ++ after) r
          (λ i. others_differ (mem-append_left (keys m.claimed) i)) in
      let waiting = rw split at v.all_pending in
      record {
        unique =
            Perm.nodup (Perm.symm (ids-claim-perm m.heap before after r started_at _ m.claimed))
              (rw split at v.unique);
        keyed =
            All-append _ m.claimed _ (All-map _ _ m.claimed (λ e k. ground arith) v.keyed)
              (ground arith, tt);
        all_pending =
            All-zip _ _ _ (before ++ after) (λ q ne p. ground arith) others
              (All-drop_middle _ before r after waiting);
        all_active =
            All-append _ m.claimed _ (All-map _ _ m.claimed (λ e k. ground arith) v.all_active)
              (ground arith, tt);
      }
