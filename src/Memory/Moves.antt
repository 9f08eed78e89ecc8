-- ===== src/Memory/Moves.antt =====
-- What the sweep and the claim of `dequeue` of src/miniq/queue/memory.py do to the phase of a task.
use miniq.Base.{
  ◌≡◌, refl, ap, sym, ◌∙◌, Bool, true, false, ◌||◌, some, List, [], ◌∷◌, ◌++◌, lookup, ◌==◌, ==_iff,
  arith, Bool-cases, Option-cases, inl, inr, Option, leb_ℤ, ◌+ℤ◌, lookup-middle,
}
use miniq.Task.{TaskId, Time}
use miniq.Heap.{Ref}
use miniq.Sqlite.{free}
use miniq.Memory.{Claim, Memory}
use miniq.Memory.Reclaim.{is_expired, stale, tasks_of, swept}
use miniq.Memory.Ids.{
  ids_of, keys, ids_of-append, ids_of-release, ids_of-tasks_of, ids_of-mark_running, select-IsKeyed,
}
use miniq.Memory.Invariant.{IsValid, IsValid-IsDict, claim_of, not_claimed}
use miniq.Memory.Exclusive.{lookup-live, lookup-live_absent, lookup-live-none}
use miniq.Memory.Phases.{
  elem, phase_of, waits_in, memory_phase, elem-append, elem_other, elem_self, stale-none,
  stale-some, lookup-append_other,
}
use miniq.SqliteQueue.Phases.{leased, IsStep}
use miniq.SqliteQueue.Events as Events

pub or_none : (a b : Bool) → b ≡ false → (a || b) ≡ a
or_none a b h = ground arith

pub or_some : (a b : Bool) → b ≡ true → (a || b) ≡ true
or_some a b h = ground arith

module _ (tid : TaskId) where
  pub phase_is :
      (m : Memory) {o : Option Claim} {b : Bool}
      → lookup tid m.claimed ≡ o
      → waits_in tid m ≡ b
      → memory_phase tid m ≡ phase_of o b
  phase_is m e f = ap (λ o. phase_of o (waits_in tid m)) e ∙ ap (phase_of _) f

  pub same_phase :
      (m m' : Memory)
      → lookup tid m'.claimed ≡ lookup tid m.claimed
      → waits_in tid m' ≡ waits_in tid m
      → memory_phase tid m' ≡ memory_phase tid m
  same_phase m m' e f = phase_is m' e f

  module _ (now : Time) (m : Memory) (v : IsValid m) where
    waits_swept :
        waits_in tid (swept now m) ≡ (waits_in tid m || elem tid (keys (stale now m.claimed)))
    waits_swept =
        rw
          (
            ids_of-release (tasks_of (stale now m.claimed)) m.heap,
            ids_of-append,
            ids_of-tasks_of m.heap (stale now m.claimed)
                (select-IsKeyed (is_expired now) m.heap m.claimed v.keyed),
          )
          (elem-append tid _ _)

    -- What the sweep does to the phase.
    pub sweep-IsStep :
        IsStep tid (Events.reclaims free now) (memory_phase tid m) (memory_phase tid (swept now m))
    sweep-IsStep = elim (Option-cases (lookup tid m.claimed)) [
      | inl unclaimed ↦ inl (
          same_phase m (swept now m)
            (lookup-live_absent now tid m.claimed unclaimed ∙ sym unclaimed)
            (waits_swept ∙ or_none _ _ (stale-none now tid m.claimed unclaimed)))
      | inr (c, claimed) ↦ elim (Bool-cases (leb_ℤ c.expires_at now)) [
        | inl over ↦ inr (
          c.expires_at,
          phase_is m claimed refl,
          ground arith,
          phase_is (swept now m)
              (lookup-live-none now tid c m.claimed (IsValid-IsDict v) claimed (ground arith))
              (waits_swept ∙ or_some _ _ (stale-some now tid c m.claimed claimed (ground arith))),
        )
        | inr held ↦
            let held' = lookup-live now tid c m.claimed claimed (ground arith) in
            inl (phase_is (swept now m) held' refl ∙ sym (phase_is m claimed refl))
      ]
    ]

  module _ {m : Memory} (v : IsValid m) (before : List Ref) (r : Ref) (after : List Ref)
      (split : m.pending ≡ before ++ r ∷ after) (started_at expires_at : Time) where
    abbrev pub claimed_m : Memory
    claimed_m = claim_of started_at expires_at before r after m

    waits_before :
        waits_in tid m ≡ elem tid (ids_of m.heap before ++ (m.heap.cell r).id ∷ ids_of m.heap after)
    unfolding ids_of
    waits_before = rw (split, ids_of-append) refl

    waits_after : waits_in tid claimed_m ≡ elem tid (ids_of m.heap before ++ ids_of m.heap after)
    waits_after = rw (ids_of-mark_running r started_at m.heap, ids_of-append) refl

    leased_lookup :
        (m.heap.cell r).id ≡ tid
        → lookup tid claimed_m.claimed ≡ some (record { task = r; expires_at = expires_at })
    leased_lookup same =
        ap (λ k. lookup k claimed_m.claimed) (sym same)
        ∙ lookup-middle (m.heap.cell r).id _ m.claimed [] (not_claimed v before r after split)

    -- What a claim does to the phase.
    pub claim-IsStep :
        (visibility_timeout now : Time)
        → expires_at ≡ now +ℤ visibility_timeout
        → IsStep tid
            (Events.claims free visibility_timeout now)
            (memory_phase tid m)
            (memory_phase tid claimed_m)
    claim-IsStep visibility_timeout now e = elim (Bool-cases ((m.heap.cell r).id == tid)) [
      | inl here ↦
          let same = (==_iff (m.heap.cell r).id tid).0 here in
          inr (
            phase_is m
                (ap (λ k. lookup k m.claimed) (sym same) ∙ not_claimed v before r after split)
                (waits_before
                  ∙ ap
                      (λ k.
                        elem k (ids_of m.heap before ++ (m.heap.cell r).id ∷ ids_of m.heap after))
                      (sym same)
                  ∙ elem_self (m.heap.cell r).id (ids_of m.heap before) (ids_of m.heap after)),
            phase_is claimed_m (leased_lookup same) refl ∙ ap (λ t. leased (some t)) e,
          )
      | inr other ↦ inl (
          same_phase m claimed_m (lookup-append_other tid _ _ m.claimed other) (
            waits_after
            ∙ sym (elem_other tid _ (ids_of m.heap before) (ids_of m.heap after) other)
            ∙ sym waits_before))
    ]
