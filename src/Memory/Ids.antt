-- ===== src/Memory/Ids.antt =====
-- The ids of the tasks in the queue: no operation but `enqueue`, `ack` and a `nack` without requeue
-- changes which there are.
use mathlib.Core.Path.{fun_ext}
use mathlib.Core.List.{Perm, append_assoc, perm_middle, perm_append_singleton}
use mathlib.Core.List.Perm
use miniq.Base.{
  ◌≡◌, refl, ap, ◌∙◌, Bool, List, [], ◌∷◌, ◌++◌, map, select, Dict, All, arith, Bool-cases, inl,
  inr,
}
use miniq.Task.{TaskId, Time, mark_pending, mark_running}
use miniq.Heap.{Ref, Heap, modify}
use miniq.Memory.{Claim, Memory}
use miniq.Memory.Reclaim.{is_expired, stale, live, tasks_of, release, swept}

-- The ids of the tasks at some references.
unfoldable pub ids_of : Heap → List Ref → List TaskId
ids_of h [] = []
ids_of h (r ∷ rs) = (h.cell r).id ∷ ids_of h rs

unfoldable pub keys : Dict Claim → List TaskId
keys [] = []
keys (e ∷ d) = e.0 ∷ keys d

pub ids_of-append : (h : Heap) (xs ys : List Ref) → ids_of h (xs ++ ys) ≡ ids_of h xs ++ ids_of h ys
unfolding ids_of
ids_of-append h [] ys = refl
ids_of-append h (x ∷ xs) ys = ap (◌∷◌ (h.cell x).id) (ids_of-append h xs ys)

pub keys-append : (d d' : Dict Claim) → keys (d ++ d') ≡ keys d ++ keys d'
unfolding keys
keys-append [] d' = refl
keys-append (e ∷ d) d' = ap (◌∷◌ e.0) (keys-append d d')

keys-perm : {d d' : Dict Claim} → Perm d d' → Perm (keys d) (keys d')
unfolding keys
keys-perm {d} {d'} p = rw (keys-map d, keys-map d') (Perm.map (λ e. e.0) p)
  where
    keys-map : (d : Dict Claim) → keys d ≡ map (λ e. e.0) d
    keys-map [] = refl
    keys-map (e ∷ d) = ap (◌∷◌ e.0) (keys-map d)

-- The ids of all tasks in the queue, pending and claimed.
abbrev pub ids : Memory → List TaskId
ids m = ids_of m.heap m.pending ++ keys m.claimed

-- Each claim is held under the id of its task.
abbrev pub IsKeyed : Heap → Dict Claim → Type 0
IsKeyed h = All (λ e. (h.cell e.1.task).id ≡ e.0)

pub ids_of_congr :
    (h h' : Heap)
    → ((q : Ref) → (h.cell q).id ≡ (h'.cell q).id)
    → (l : List Ref) → ids_of h l ≡ ids_of h' l
unfolding ids_of
ids_of_congr h h' same [] = refl
ids_of_congr h h' same (r ∷ rs) = rw (same r, ids_of_congr h h' same rs)

-- The marks leave the ids alone.
pub ids_of-mark_running :
    (r : Ref) (now : Time) (h : Heap) → ids_of (modify r (mark_running now) h) ≡ ids_of h
ids_of-mark_running r now h = fun_ext (ids_of_congr _ h (λ q. ground arith))

pub id-release : (rs : List Ref) (h : Heap) (q : Ref) → ((release rs h).cell q).id ≡ (h.cell q).id
id-release [] h q = refl
id-release (r ∷ rs) h q = id-release rs (modify r mark_pending h) q ∙ ground arith

pub ids_of-release : (rs : List Ref) (h : Heap) → ids_of (release rs h) ≡ ids_of h
ids_of-release rs h = fun_ext (ids_of_congr _ h (id-release rs h))

pub ids_of-tasks_of : (h : Heap) (d : Dict Claim) → IsKeyed h d → ids_of h (tasks_of d) ≡ keys d
unfolding ids_of keys
ids_of-tasks_of h [] k = refl
ids_of-tasks_of h (e ∷ d) k = rw (k.0, ids_of-tasks_of h d k.1)

pub select-IsKeyed :
    (p : TaskId × Claim → Bool) (h : Heap) (d : Dict Claim) → IsKeyed h d → IsKeyed h (select p d)
select-IsKeyed p h [] k = tt
select-IsKeyed p h (e ∷ d) k = ground (arith, select-IsKeyed p h d k.1)

stale-append-live-perm : (now : Time) (d : Dict Claim) → Perm (stale now d ++ live now d) d
stale-append-live-perm now [] = Perm.rfl
stale-append-live-perm now (e ∷ d) = elim (Bool-cases (is_expired now e)) [
  | inl old ↦ rw old (Perm.cons e (stale-append-live-perm now d))
  | inr fresh ↦ rw fresh (
      Perm.trans (perm_middle (stale now d) (live now d))
        (Perm.cons e (stale-append-live-perm now d)))
]

ids-swept :
    (now : Time) (m : Memory)
    → IsKeyed m.heap m.claimed
    → ids (swept now m)
      ≡ ids_of m.heap m.pending ++ keys (stale now m.claimed ++ live now m.claimed)
ids-swept now m k =
    let d = stale now m.claimed in
    rw (
      ids_of-release (tasks_of d) m.heap,
      ids_of-append,
      append_assoc,
      keys-append,
      ids_of-tasks_of m.heap d (select-IsKeyed (is_expired now) m.heap m.claimed k),
    )

-- The sweep keeps the ids.
pub ids-swept-perm :
    (now : Time) (m : Memory) → IsKeyed m.heap m.claimed → Perm (ids (swept now m)) (ids m)
ids-swept-perm now m k =
    rw (ids-swept now m k) (
      Perm.append_left (ids_of m.heap m.pending) (keys-perm (stale-append-live-perm now m.claimed)))

-- A task is taken out of the pending ones, and claimed under its id.
pub ids-claim-perm :
    (h : Heap) (before after : List Ref) (r : Ref) (started_at : Time) (c : Claim) (d : Dict Claim)
    → Perm
        (ids (record {
          heap = modify r (mark_running started_at) h;
          pending = before ++ after;
          claimed = d ++ ((h.cell r).id, c) ∷ [];
        }))
        (ids (record { heap = h; pending = before ++ r ∷ after; claimed = d }))
unfolding ids_of keys
ids-claim-perm h before after r started_at c d =
    let rest = ids_of h after ++ keys d in
    let i = (h.cell r).id in
    let last : Perm (ids_of h after ++ (keys d ++ i ∷ [])) (i ∷ rest) =
      rw (← append_assoc) (perm_append_singleton i rest) in
    rw (ids_of-mark_running r started_at h, ids_of-append, append_assoc, ids_of-append, keys-append)
      (rw append_assoc (Perm.append_left (ids_of h before) last))

-- A pending task, taken to the front.
pub ids-middle-perm :
    (h : Heap) (before after : List Ref) (r : Ref) (ks : List TaskId)
    → Perm
        (ids_of h (before ++ r ∷ after) ++ ks)
        ((h.cell r).id ∷ (ids_of h (before ++ after) ++ ks))
unfolding ids_of
ids-middle-perm h before after r ks =
    rw (ids_of-append, ids_of-append)
      (Perm.append_right ks (perm_middle (ids_of h before) (ids_of h after)))
