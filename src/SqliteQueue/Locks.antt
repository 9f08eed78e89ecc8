-- ===== src/SqliteQueue/Locks.antt =====
-- Which locks `dequeue` of src/miniq/queue/sqlite.py lets out.
use miniq.Base.{
  ◌≡◌, ◌≢◌, ap, inl, inr, Option, none, some, List, [], ◌∷◌, Any, leb_ℤ, pos, ◌-ℤ◌, ◌+ℤ◌,
  Bool-cases, true,
}
use miniq.Exceptions.{Result, ok, err, operational_error}
use miniq.Task.{Task, Time}
use miniq.Serializers.{Serializer}
use miniq.Sqlite.{Lock, free, transaction}
use miniq.SqliteQueue.{Table, try_claim, reclaim_expired, claim, ignore_locked}
use miniq.SqliteQueue.Polling.{
  Pass, poll, after_first, second_claim, reclaim_and_claim, after_poll, dequeue_loop, dequeue,
}

abbrev IsLockError : {A : Type 0} → Result A → Type 0
IsLockError r = r ≡ err operational_error

-- The sweep of the pass meets a lock.
abbrev pub SweepIsLocked : Pass → Type 0
SweepIsLocked p = p.reclaim_lock ≢ free

ignored : (r : Result (Option Task) × Table) → ¬ IsLockError (ignore_locked r).0
ignored (ok found, rows) e = cc
ignored (err operational_error, rows) e = cc
ignored (err x, rows) e = cc

module _ (serializer : Serializer) (visibility_timeout : Time) where
  claim_ignores :
      (lock : Lock) (now : Time) (rows : Table)
      → ¬ IsLockError (try_claim serializer lock visibility_timeout now rows).0
  unfolding try_claim
  claim_ignores lock now rows =
      ignored (transaction true lock (claim serializer now (now +ℤ visibility_timeout)) rows)

  swept :
      (p : Pass) (rows : Table)
      → p.reclaim_lock ≡ free
      → ¬ IsLockError (reclaim_and_claim serializer visibility_timeout p rows).0
  unfolding reclaim_and_claim reclaim_expired transaction second_claim
  swept p rows unlocked e = claim_ignores p.second_lock p.second_at _ (rw unlocked at e)

  poll_raises :
      (p : Pass) (rows : Table)
      → IsLockError (poll serializer visibility_timeout p rows).0
      → SweepIsLocked p
  unfolding poll
  poll_raises p rows e unlocked =
      first (try_claim serializer p.first_lock visibility_timeout p.first_at rows)
        (claim_ignores p.first_lock p.first_at rows) e
    where
      first :
          (x : Result (Option Task) × Table)
          → ¬ IsLockError x.0
          → ¬ IsLockError (after_first serializer visibility_timeout p x).0
      first (err x, t) h e = h e
      first (ok (some task), t) h e = cc
      first (ok none, t) h e = swept p (p.before_reclaim t) unlocked e

  loop_raises :
      (deadline : Option Time) (ps : List Pass) (rows : Table)
      → IsLockError (dequeue_loop serializer visibility_timeout deadline ps rows).0
      → Any SweepIsLocked ps
  unfolding dequeue_loop
  loop_raises deadline [] rows e = absurd (cc)
  loop_raises deadline (p ∷ ps) rows e =
      polled deadline (λ t. loop_raises deadline ps t) (poll serializer visibility_timeout p rows)
        (poll_raises p rows) e
    where
      polled :
          (deadline' : Option Time)
          → ((t : Table)
              → IsLockError (dequeue_loop serializer visibility_timeout deadline ps t).0
              → Any SweepIsLocked ps)
          → (x : Result (Option Task) × Table) → (IsLockError x.0 → SweepIsLocked p)
          → IsLockError
              (after_poll serializer visibility_timeout deadline' p
                (λ t. dequeue_loop serializer visibility_timeout deadline ps t)
                x).0
          → Any SweepIsLocked (p ∷ ps)
      polled d rest (err x, t) h e = inl (h (let e' : x ≡ operational_error = cc in ap err e'))
      polled d rest (ok (some task), t) h e = absurd (cc)
      polled none rest (ok none, t) h e = absurd (cc)
      polled (some d) rest (ok none, t) h e =
          elim (Bool-cases (leb_ℤ (d -ℤ p.checked_at) (pos 0))) [
            | inl over ↦ absurd (let e' = rw over at e in cc)
            | inr left ↦ inr (rest (p.during_sleep t) (rw left at e))
          ]

  -- Where `dequeue` raises OperationalError, whatever the locks, the clocks and the other
  -- connections, one of its sweeps has met a lock: those that its claims meet it never lets out.
  pub dequeue_raises :
      (wait_seconds called_at : Time) (ps : List Pass) (rows rows' : Table)
      → dequeue serializer visibility_timeout wait_seconds called_at ps rows
        ≡ (err operational_error, rows')
      → Any SweepIsLocked ps
  unfolding dequeue
  dequeue_raises wait_seconds called_at ps rows rows' e = loop_raises _ ps rows (ap (λ x. x.0) e)
