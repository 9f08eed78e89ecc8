-- ===== src/Memory/Loop.antt =====
-- The loop of `dequeue`: what one pass keeps, and how the loop ends.
use mathlib.Core.List.{Perm}
use mathlib.Core.List.Perm
use miniq.Base.{
  ◌≡◌, refl, ◌⊎◌, inl, inr, false, Option, none, some, List, [], ◌∷◌, ◌++◌, All, Any, Any-map,
  if◌then◌else◌, lookup, lookup-middle, arith, int_laws, pos, ◌+ℤ◌, ◌-ℤ◌, ◌≤ℤ◌, ltb_ℤ, leb_ℤ, ◌≢◌,
  Bool-cases, Option-cases,
}
use miniq.Exceptions.{ok, ◌>>=◌}
use miniq.Task.{Time, running}
use miniq.Heap.{Ref}
use miniq.Memory.{Memory, Pass, Progress, returned, waiting, try_claim, dequeue_loop, dequeue}
use miniq.Memory.Reclaim.{swept}
use miniq.Memory.Ids.{ids, ids-swept-perm, ids-claim-perm}
use miniq.Memory.Invariant.{IsValid, swept-IsValid, claim_of, not_claimed, claim_of-IsValid}
use miniq.Memory.Dequeue.{try_claim-Attempt}

-- A task that a call returns is RUNNING, and claimed for the caller until `expires_at`.
abbrev pub IsHeld : Time → Option Ref → Memory → Type 0
IsHeld expires_at none m = Unit
IsHeld expires_at (some r) m =
    ((m.heap.cell r).status ≡ running)
    × (lookup (m.heap.cell r).id m.claimed ≡ some (record { task = r; expires_at = expires_at }))

-- What a pass that began at `m` leaves.
pub record Passes (visibility_timeout : Time) (p : Pass) (m : Memory) : Type 0 where
  pub found : Option Ref
  pub after : Memory
  pub returns : try_claim visibility_timeout p m ≡ ok (found, after)
  pub valid : IsValid after
  pub conserved : Perm (ids after) (ids m)
  pub held : IsHeld (p.claimed_at +ℤ visibility_timeout) found after

module _ {m : Memory} (v : IsValid m) (before : List Ref) (r : Ref) (after : List Ref)
    (split : m.pending ≡ before ++ r ∷ after) (started_at expires_at : Time) where
  claim_of-perm : Perm (ids (claim_of started_at expires_at before r after m)) (ids m)
  claim_of-perm = rw split (ids-claim-perm m.heap before after r started_at _ m.claimed)

  claim_of-IsHeld : IsHeld expires_at (some r) (claim_of started_at expires_at before r after m)
  claim_of-IsHeld =
      let absent = not_claimed v before r after split in
      (
        ground arith,
        ground (
          arith,
          lookup-middle (m.heap.cell r).id (record { task = r; expires_at = expires_at }) m.claimed
              [] absent,
        ),
      )

module _ (visibility_timeout : Time) (p : Pass) {m : Memory} (v : IsValid m) where
  -- A pass over a valid queue raises nothing, keeps the queue valid and its tasks the same, and
  -- the task that it returns is claimed for the caller.
  pub try_claim-Passes : Passes visibility_timeout p m
  try_claim-Passes = elim (try_claim-Attempt visibility_timeout p v) [
    | inl (e, _) ↦ record {
      found = none;
      after = swept p.reclaim_at m;
      returns = e;
      valid = swept-IsValid p.reclaim_at m v;
      conserved = ids-swept-perm p.reclaim_at m v.keyed;
      held = tt;
    }
    | inr (best, c, e) ↦
        let s = swept p.reclaim_at m in
        let valid = swept-IsValid p.reclaim_at m v in
        record {
          found = some c.ref;
          after =
              claim_of p.started_at (p.claimed_at +ℤ visibility_timeout) c.before c.ref c.after s;
          returns = e;
          valid = claim_of-IsValid valid c.before c.ref c.after c.split p.started_at _;
          conserved =
              Perm.trans (claim_of-perm valid c.before c.ref c.after c.split p.started_at _)
                (ids-swept-perm p.reclaim_at m v.keyed);
          held = claim_of-IsHeld valid c.before c.ref c.after c.split p.started_at _;
        }
  ]

-- A pass over a valid queue loses no task and doubles none: the ids in the queue, pending and
-- claimed, are the same after it.
pub try_claim-ids-perm :
    (visibility_timeout : Time) (p : Pass) (m : Memory) (found : Option Ref) (m' : Memory)
    → IsValid m
    → try_claim visibility_timeout p m ≡ ok (found, m')
    → Perm (ids m') (ids m)
try_claim-ids-perm visibility_timeout p m found m' v e =
    let q = try_claim-Passes visibility_timeout p v in
    let returns = q.returns in let same : q.after ≡ m' = cc in rw (← same) q.conserved

-- What other threads do during a wait keeps the queue valid.
abbrev pub Behaves : Pass → Type 0
Behaves p = (m : Memory) → IsValid m → IsValid (p.others m)

-- How a call ends: a task that it returns is held for the caller, by one of the passes.
abbrev pub Ended : Time → List Pass → Progress → Memory → Type 0
Ended visibility_timeout ps waiting m = Unit
Ended visibility_timeout ps (returned none) m = Unit
Ended visibility_timeout ps (returned (some r)) m =
    Any (λ p. IsHeld (p.claimed_at +ℤ visibility_timeout) (some r) m) ps

later_pass :
    (visibility_timeout : Time) (p : Pass) (ps : List Pass) (progress : Progress) (m : Memory)
    → Ended visibility_timeout ps progress m
    → Ended visibility_timeout (p ∷ ps) progress m
later_pass visibility_timeout p ps waiting m h = tt
later_pass visibility_timeout p ps (returned none) m h = tt
later_pass visibility_timeout p ps (returned (some r)) m h = inr h

not_expired :
    (d : Time) (p : Pass) → leb_ℤ (d -ℤ p.checked_at) (pos 0) ≡ false → ¬ (d ≤ℤ p.checked_at)
not_expired d p left h = grind int_laws

module _ (deadline : Option Time) (visibility_timeout : Time) where
  -- A pass that finds no task ends the call: there is no deadline, or it has come.
  abbrev Expires : Pass → Type 0
  Expires p = elim deadline [ none ↦ Unit | some d ↦ d ≤ℤ p.checked_at ]

  -- The loop raises nothing, and it has returned if one of the passes ends it.
  abbrev Runs : List Pass → Memory → Type 0
  Runs ps m =
      (progress : Progress) × (m' : Memory) × (dequeue_loop deadline visibility_timeout ps m
        ≡ ok (progress, m'))
      × IsValid m'
      × Ended visibility_timeout ps progress m'
      × (Any Expires ps → progress ≢ waiting)

  -- One pass, and then the rest of the loop.
  pass-Runs :
      (p : Pass) (ps : List Pass) (m : Memory) (found : Option Ref) (m' : Memory)
      → try_claim visibility_timeout p m ≡ ok (found, m')
      → IsValid m'
      → IsHeld (p.claimed_at +ℤ visibility_timeout) found m'
      → Runs ps (p.others m')
      → Runs (p ∷ ps) m
  unfolding dequeue_loop
  pass-Runs p ps m (some r) m' e v held rest =
      (returned (some r), m', rw (e, ◌>>=◌), v, inl held, λ _ w. cc)
  pass-Runs p ps m none m' e v held (progress, m'', run, v', ended, ends) =
      elim (Option-cases deadline) [
        | inl unbounded ↦ (returned none, m', rw (e, ◌>>=◌, unbounded), v, tt, λ _ w. cc)
        | inr (d, bounded) ↦ elim (Bool-cases (leb_ℤ (d -ℤ p.checked_at) (pos 0))) [
          | inl over ↦ (returned none, m', rw (e, ◌>>=◌, bounded, over), v, tt, λ _ w. cc)
          | inr left ↦ (
            progress,
            m'',
            rw (e, ◌>>=◌, bounded, left) run,
            v',
            later_pass visibility_timeout p ps progress m'' ended,
            λ x w. elim x [
              | inl expires ↦ absurd (not_expired d p left (rw bounded at expires))
              | inr later ↦ ends later w
            ],
          )
        ]
      ]

  dequeue_loop-Runs : (ps : List Pass) (m : Memory) → All Behaves ps → IsValid m → Runs ps m
  unfolding dequeue_loop
  dequeue_loop-Runs [] m b v = (waiting, m, refl, v, tt, λ x w. x)
  dequeue_loop-Runs (p ∷ ps) m b v =
      let q = try_claim-Passes visibility_timeout p v in
      pass-Runs p ps m q.found q.after q.returns q.valid q.held
        (dequeue_loop-Runs ps (p.others q.after) b.1 (b.0 q.after q.valid))

deadline-Expires :
    (wait_seconds called_at visibility_timeout : Time) (p : Pass)
    → (wait_seconds ≤ℤ pos 0) ⊎ (called_at +ℤ wait_seconds ≤ℤ p.checked_at)
    → Expires
        (if ltb_ℤ (pos 0) wait_seconds then some (called_at +ℤ wait_seconds) else none)
        visibility_timeout
        p
deadline-Expires wait_seconds called_at visibility_timeout p h =
    elim (Bool-cases (ltb_ℤ (pos 0) wait_seconds)) [
      | inl bounded ↦ rw bounded (ground arith)
      | inr unbounded ↦ rw unbounded tt
    ]

returned_of :
    (progress : Progress) → progress ≢ waiting → (r : Option Ref) × (progress ≡ returned r)
returned_of (returned r) h = (r, refl)
returned_of waiting h = absurd (h refl)

-- `dequeue` over a valid queue raises nothing and keeps the queue valid, also where other threads
-- change it during the waits, as long as they keep it valid. A task that it returns is RUNNING and
-- claimed for the caller, for the visibility timeout from the moment of the claim.
pub dequeue_lem :
    (visibility_timeout wait_seconds called_at : Time) (ps : List Pass) (m : Memory)
    → All Behaves ps
    → IsValid m
    → (progress : Progress) × (m' : Memory) × (dequeue visibility_timeout wait_seconds called_at ps
          m
        ≡ ok (progress, m'))
      × IsValid m'
      × Ended visibility_timeout ps progress m'
unfolding dequeue
dequeue_lem visibility_timeout wait_seconds called_at ps m b v =
    let (progress, m', run, v', ended, _) = dequeue_loop-Runs _ visibility_timeout ps m b v in
    (progress, m', run, v', ended)

-- `dequeue` over a valid queue returns: without a wait in its first pass, and with one at the
-- latest in the first pass whose check of the clock is not before the deadline.
pub dequeue_returns :
    (visibility_timeout wait_seconds called_at : Time) (ps : List Pass) (m : Memory)
    → All Behaves ps
    → IsValid m
    → Any (λ p. (wait_seconds ≤ℤ pos 0) ⊎ (called_at +ℤ wait_seconds ≤ℤ p.checked_at)) ps
    → (r : Option Ref) × (m' : Memory) × (dequeue visibility_timeout wait_seconds called_at ps m
        ≡ ok (returned r, m'))
unfolding dequeue
dequeue_returns visibility_timeout wait_seconds called_at ps m b v x =
    let (progress, m', run, _, _, ends) = dequeue_loop-Runs _ visibility_timeout ps m b v in
    let (r, e) =
      returned_of progress
        (ends (Any-map _ _ ps (deadline-Expires wait_seconds called_at visibility_timeout) x)) in
    (r, m', rw e at run)
