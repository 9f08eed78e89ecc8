-- ===== src/Memory/Methods.antt =====
-- `enqueue`, `ack`, `nack` and `size` of the in-memory queue.
use mathlib.Core.Path.{fun_ext}
use mathlib.Core.List.{
  Perm, append-nil, Mem, Nodup, Nodup-cons, perm_middle, mem-append, not-mem-nil,
  eq-or-mem_of_mem-cons,
}
use mathlib.Core.Logic.Or
use mathlib.Core.HLevel.{⊥_prop}
use mathlib.Core.List.Perm
use miniq.Base.{
  suc, ◌≡◌, ◌≢◌, refl, sym, ap, ◌∙◌, true, none, some, List, [], ◌∷◌, Dict, IsDict, All, All-append,
  All-map, All-zip, lookup, erase, length, length-append, arith, Bool-cases, Option-cases, inl, inr,
  ◌==◌, ==_iff,
}
use miniq.Task.{TaskId, pending, mark_pending}
use miniq.Heap.{Ref, Heap, modify}
use miniq.Memory.{Claim, Memory, enqueue, ack, nack, size, unclaim}
use miniq.Memory.Ids.{ids_of, keys, ids, ids-middle-perm, ids_of_congr}
use miniq.Memory.Invariant.{IsValid, IsValid-IsDict}

keys_absent : (k : TaskId) (d : Dict Claim) → lookup k d ≡ none → ¬ Mem k (keys d)
unfolding keys
keys_absent k [] h i = not-mem-nil i
keys_absent k (e ∷ d) h i = elim (Bool-cases (k == e.0)) [
  | inl here ↦ absurd (let h' = rw here at h in cc)
  | inr there ↦
      Or.elim ⊥_prop (eq-or-mem_of_mem-cons i) (λ same. ground arith)
        (keys_absent k d (rw there at h))
]

-- Popping a claim.
module _ (k : TaskId) where
  pub erase_absent : (d : Dict Claim) → lookup k d ≡ none → erase k d ≡ d
  erase_absent [] h = refl
  erase_absent (e ∷ d) h = ground (arith, erase_absent d)

  keys-erase-perm :
      (d : Dict Claim) (c : Claim) → lookup k d ≡ some c → Perm (keys d) (k ∷ keys (erase k d))
  unfolding keys
  keys-erase-perm [] c h = cc
  keys-erase-perm (e ∷ d) c h = elim (Bool-cases (k == e.0)) [
    | inl here ↦ rw here (Perm.cons' (sym ((==_iff k e.0).0 here)) Perm.rfl)
    | inr there ↦
        rw there
          (Perm.trans (Perm.cons e.0 (keys-erase-perm d c (rw there at h))) (Perm.swap k e.0 _))
  ]

  All-erase : (P : TaskId × Claim → Type 0) (d : Dict Claim) → All P d → All P (erase k d)
  All-erase P [] h = tt
  All-erase P (e ∷ d) h = elim (Bool-cases (k == e.0)) [
    | inl here ↦ rw here h.1
    | inr there ↦ rw there (h.0, All-erase P d h.1)
  ]

length-ids_of : (h : Heap) (l : List Ref) → length (ids_of h l) ≡ length l
unfolding ids_of
length-ids_of h [] = refl
length-ids_of h (r ∷ l) = ap suc (length-ids_of h l)

length-keys : (d : Dict Claim) → length (keys d) ≡ length d
unfolding keys
length-keys [] = refl
length-keys (e ∷ d) = ap suc (length-keys d)

-- In a dict the key that is popped is gone.
All-erase_ne : (k : TaskId) (d : Dict Claim) → IsDict d → All (λ e. e.0 ≢ k) (erase k d)
All-erase_ne k [] u = tt
All-erase_ne k (e ∷ d) u = elim (Bool-cases (k == e.0)) [
  | inl here ↦ rw here (absent_ne k d (rw (← (==_iff k e.0).0 here) at u.0))
  | inr there ↦ rw there (ground arith, All-erase_ne k d u.1)
]
  where
    absent_ne : (k : TaskId) (d : Dict Claim) → lookup k d ≡ none → All (λ e. e.0 ≢ k) d
    absent_ne k [] h = tt
    absent_ne k (e ∷ d) h = (ground arith, absent_ne k d (ground arith))

pub size-ids : (m : Memory) → size m ≡ length (ids m)
unfolding size
size-ids m = rw (length-append, length-ids_of, length-keys)

module _ (m : Memory) (v : IsValid m) (r : Ref) where
  open v use {unique, keyed, all_pending, all_active}

  abbrev id : TaskId
  id = (m.heap.cell r).id

  -- A task whose id is new, and which is PENDING, can be enqueued: the queue stays valid.
  pub enqueue-IsValid : (m.heap.cell r).status ≡ pending → ¬ Mem id (ids m) → IsValid (enqueue r m)
  unfolding enqueue ids_of
  enqueue-IsValid p fresh = record {
    unique =
        Perm.nodup (Perm.symm (ids-middle-perm m.heap m.pending [] r (keys m.claimed)))
          (Nodup-cons.1 (rw append-nil fresh, rw append-nil unique));
    keyed = keyed;
    all_pending = All-append _ m.pending (r ∷ []) all_pending (p, tt);
    all_active = all_active;
  }

  pub enqueue-ids-perm : Perm (ids (enqueue r m)) (id ∷ ids m)
  unfolding enqueue
  enqueue-ids-perm = rw append-nil at (ids-middle-perm m.heap m.pending [] r (keys m.claimed))

  ids-unclaim-perm :
      (c : Claim) → lookup id m.claimed ≡ some c → Perm (id ∷ ids (unclaim id m)) (ids m)
  ids-unclaim-perm c claimed =
      Perm.trans (Perm.symm (perm_middle (ids_of m.heap m.pending) (keys (erase id m.claimed)))) (
        Perm.append_left (ids_of m.heap m.pending)
          (Perm.symm (keys-erase-perm id m.claimed c claimed)))

  unclaim-IsValid : IsValid (unclaim id m)
  unclaim-IsValid = record {
    unique = elim (Option-cases (lookup id m.claimed)) [
      | inl absent ↦ rw (erase_absent id m.claimed absent) unique
      | inr (c, claimed) ↦
          (Nodup-cons.0 (Perm.nodup (Perm.symm (ids-unclaim-perm c claimed)) unique)).1
    ];
    keyed = All-erase id _ m.claimed keyed;
    all_pending = all_pending;
    all_active = All-erase id _ m.claimed all_active;
  }

  pub ack-IsValid : IsValid (ack r m)
  unfolding ack
  ack-IsValid = unclaim-IsValid

  ack-ids-perm : (c : Claim) → lookup id m.claimed ≡ some c → Perm (id ∷ ids (ack r m)) (ids m)
  unfolding ack
  ack-ids-perm = ids-unclaim-perm

  -- The `ack` of a claimed task keeps the queue valid, and takes the task, and no other, out of it.
  pub ack_lem :
      (c : Claim)
      → lookup id m.claimed ≡ some c
      → IsValid (ack r m) × Perm (id ∷ ids (ack r m)) (ids m)
  ack_lem c claimed = (ack-IsValid, ack-ids-perm c claimed)

  -- The `ack` of a task that is not claimed does nothing.
  pub ack_absent : lookup id m.claimed ≡ none → ack r m ≡ m
  unfolding ack
  ack_absent absent = rw (erase_absent id m.claimed absent) refl

  requeued-IsValid : Nodup (ids (nack r true m)) → IsValid (nack r true m)
  unfolding nack
  requeued-IsValid distinct =
      let u = unclaim-IsValid in
      let d = erase id m.claimed in
      let apart : All (λ e. e.1.task ≢ r) d =
        All-zip _ _ _ d (λ e k ne same. ne (sym k ∙ ap (λ q. (m.heap.cell q).id) same)) u.keyed
          (All-erase_ne id m.claimed (IsValid-IsDict v)) in
      record {
        unique = distinct;
        keyed = All-map _ _ d (λ e k. ground arith) u.keyed;
        all_pending =
            All-append _ m.pending (r ∷ [])
              (All-map _ _ m.pending (λ q p. ground arith) all_pending) (ground arith, tt);
        all_active = All-zip _ _ _ d (λ e ne act. ground arith) apart u.all_active;
      }

  requeued-perm : Perm (ids (nack r true m)) (id ∷ ids (unclaim id m))
  unfolding nack
  requeued-perm =
      let h = modify r mark_pending m.heap in
      let same = fun_ext (ids_of_congr h m.heap (λ q. ground arith)) in
      rw same (rw append-nil at (ids-middle-perm m.heap m.pending [] r (keys (erase id m.claimed))))

  -- The `nack` of a claimed task with `requeue` keeps the queue valid and its tasks the same.
  pub nack_requeue-IsValid :
      (c : Claim)
      → lookup id m.claimed ≡ some c
      → IsValid (nack r true m) × Perm (ids (nack r true m)) (ids m)
  nack_requeue-IsValid c claimed =
      let all = Perm.trans requeued-perm (ids-unclaim-perm c claimed) in
      (requeued-IsValid (Perm.nodup (Perm.symm all) unique), all)

  -- That of a task that is not in the queue keeps it valid, and puts the task into it.
  pub nack_absent-IsValid :
      lookup id m.claimed ≡ none
      → ¬ Mem id (ids_of m.heap m.pending)
      → IsValid (nack r true m) × Perm (ids (nack r true m)) (id ∷ ids m)
  nack_absent-IsValid absent apart =
      let all : Perm (ids (nack r true m)) (id ∷ ids m) =
        rw (erase_absent id m.claimed absent) at requeued-perm in
      let fresh : ¬ Mem id (ids m) =
        λ i. Or.elim ⊥_prop (mem-append.0 i) apart (keys_absent id m.claimed absent) in
      (requeued-IsValid (Perm.nodup (Perm.symm all) (Nodup-cons.1 (fresh, unique))), all)
