-- ===== src/Memory/Phases.antt =====
-- The phase of a task in InMemoryQueue of src/miniq/queue/memory.py, among those of
-- SqliteQueue/Phases. A task that has ended leaves this queue.
use mathlib.Core.List.{Mem, Nodup, Nodup-cons, mem-cons_self, mem-cons_of_mem, mem-append_right}
use miniq.Base.{
  ◌≡◌, refl, Bool, true, false, ◌||◌, Option, none, some, List, [], ◌∷◌, ◌++◌, Dict, lookup, erase,
  IsDict, ◌==◌, ==_iff, arith, Bool-cases, inl, inr, ◌≤ℤ◌,
}
use miniq.Task.{TaskId, Time}
use miniq.Memory.{Claim, Memory}
use miniq.Memory.Reclaim.{stale}
use miniq.Memory.Ids.{ids_of, keys}
use miniq.Memory.Invariant.{IsValid}
use miniq.SqliteQueue.Phases.{Phase, absent, waiting, ended, leased}

abbrev pub elem : TaskId → List TaskId → Bool
elem k [] = false
elem k (i ∷ is) = (i == k) || elem k is

abbrev pub phase_of : Option Claim → Bool → Phase
phase_of (some c) waits = leased (some c.expires_at)
phase_of none true = waiting
phase_of none false = absent

abbrev pub waits_in : TaskId → Memory → Bool
waits_in tid m = elem tid (ids_of m.heap m.pending)

abbrev pub memory_phase : TaskId → Memory → Phase
memory_phase tid m = phase_of (lookup tid m.claimed) (waits_in tid m)

-- The phase that is left of a task which has ended.
abbrev pub forget : Phase → Phase
forget ended = absent
forget p = p

pub forget-phase_of : (o : Option Claim) (b : Bool) → forget (phase_of o b) ≡ phase_of o b
forget-phase_of (some c) b = refl
forget-phase_of none true = refl
forget-phase_of none false = refl

pub elem-append : (k : TaskId) (xs ys : List TaskId) → elem k (xs ++ ys) ≡ (elem k xs || elem k ys)
elem-append k [] ys = refl
elem-append k (x ∷ xs) ys = ground (arith, elem-append k xs ys)

pub elem_snoc : (k i : TaskId) (xs : List TaskId) → elem k (xs ++ i ∷ []) ≡ (elem k xs || (i == k))
elem_snoc k i xs = ground (arith, elem-append k xs (i ∷ []))

pub elem_other :
    (k i : TaskId) (xs ys : List TaskId)
    → (i == k) ≡ false
    → elem k (xs ++ i ∷ ys) ≡ elem k (xs ++ ys)
elem_other k i [] ys h = ground arith
elem_other k i (x ∷ xs) ys h = ground (arith, elem_other k i xs ys)

pub elem_self : (k : TaskId) (xs ys : List TaskId) → elem k (xs ++ k ∷ ys) ≡ true
elem_self k [] ys = ground arith
elem_self k (x ∷ xs) ys = ground (arith, elem_self k xs ys)

elem-Mem : (k : TaskId) (xs : List TaskId) → elem k xs ≡ true → Mem k xs
elem-Mem k [] h = cc
elem-Mem k (x ∷ xs) h = elim (Bool-cases (x == k)) [
  | inl here ↦ rw ((==_iff x k).0 here) mem-cons_self
  | inr there ↦ mem-cons_of_mem x (elem-Mem k xs (rw there at h))
]

pub not_elem : (k : TaskId) (xs : List TaskId) → ¬ Mem k xs → elem k xs ≡ false
not_elem k xs h = elim (Bool-cases (elem k xs)) [ inl e ↦ absurd (h (elem-Mem k xs e)) | inr e ↦ e ]

lookup-Mem : (k : TaskId) (c : Claim) (d : Dict Claim) → lookup k d ≡ some c → Mem k (keys d)
unfolding keys
lookup-Mem k c [] h = cc
lookup-Mem k c (e ∷ d) h = elim (Bool-cases (k == e.0)) [
  | inl here ↦ rw ((==_iff k e.0).0 here) mem-cons_self
  | inr there ↦ mem-cons_of_mem e.0 (lookup-Mem k c d (rw there at h))
]

apart : (k : TaskId) (xs ys : List TaskId) → Nodup (xs ++ ys) → Mem k ys → elem k xs ≡ false
apart k [] ys h i = refl
apart k (x ∷ xs) ys h i =
    let (fresh, rest) = Nodup-cons.0 h in
    elim (Bool-cases (x == k)) [
      | inl here ↦ absurd (fresh (mem-append_right xs (rw ((==_iff x k).0 here) i)))
      | inr there ↦ rw there (apart k xs ys rest i)
    ]

-- A claimed task does not wait.
pub claimed_not_waiting :
    {m : Memory} {c : Claim} (k : TaskId)
    → IsValid m
    → lookup k m.claimed ≡ some c
    → waits_in k m ≡ false
claimed_not_waiting {m} {c} k v h =
    apart k (ids_of m.heap m.pending) (keys m.claimed) v.unique (lookup-Mem k c m.claimed h)

-- A claim that has expired is among the stale ones, and no other is.
pub stale-none :
    (now : Time) (k : TaskId) (d : Dict Claim)
    → lookup k d ≡ none
    → elem k (keys (stale now d)) ≡ false
unfolding keys
stale-none now k [] h = refl
stale-none now k (e ∷ d) h = ground (arith, stale-none now k d)

pub stale-some :
    (now : Time) (k : TaskId) (c : Claim) (d : Dict Claim)
    → lookup k d ≡ some c
    → c.expires_at ≤ℤ now
    → elem k (keys (stale now d)) ≡ true
unfolding keys
stale-some now k c [] h over = cc
stale-some now k c (e ∷ d) h over = ground (arith, stale-some now k c d)

pub lookup-erase_self : (k : TaskId) (d : Dict Claim) → IsDict d → lookup k (erase k d) ≡ none
lookup-erase_self k [] h = refl
lookup-erase_self k (e ∷ d) h = ground (arith, lookup-erase_self k d h.1)

pub lookup-append_other :
    (k i : TaskId) (c : Claim) (d : Dict Claim)
    → (i == k) ≡ false
    → lookup k (d ++ (i, c) ∷ []) ≡ lookup k d
lookup-append_other k i c [] h = ground arith
lookup-append_other k i c (e ∷ d) h = ground (arith, lookup-append_other k i c d)
