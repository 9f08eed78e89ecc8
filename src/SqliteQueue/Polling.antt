-- ===== src/SqliteQueue/Polling.antt =====
-- The `while True` loop of `SQLiteQueue.dequeue`. Its transactions are separate: what other
-- connections do between them, and during the sleep, is an argument.
use miniq.Base.{Option, none, some, List, [], ◌∷◌, if◌then◌else◌, pos, ◌+ℤ◌, ◌-ℤ◌, ltb_ℤ, leb_ℤ}
use miniq.Exceptions.{Result, ok, err}
use miniq.Task.{Task, Time}
use miniq.Serializers.{Serializer}
use miniq.Sqlite.{Lock}
use miniq.SqliteQueue.{Table, try_claim, reclaim_expired}

-- One pass: the lock and the wall clock at each of its three transactions, the monotonic clock at
-- its check, and what other connections do.
pub record Pass : Type 0 where
  pub first_lock : Lock
  pub first_at : Time
  pub before_reclaim : Table → Table
  pub reclaim_lock : Lock
  pub reclaim_at : Time
  pub before_second : Table → Table
  pub second_lock : Lock
  pub second_at : Time
  pub checked_at : Time
  pub during_sleep : Table → Table

-- A call has returned, or still polls when the given passes are over.
pub data Progress : Type 0 where
  returned : Option Task → Progress
  polling : Progress

module _ (serializer : Serializer) (visibility_timeout : Time) where
  -- The second claim of a pass, after the sweep.
  unfoldable pub second_claim : Pass → Table → Result (Option Task) × Table
  second_claim p rows = try_claim serializer p.second_lock visibility_timeout p.second_at rows

  -- The rest of a pass, after its sweep.
  abbrev pub after_sweep : Pass → Result (Unit {0}) × Table → Result (Option Task) × Table
  after_sweep p (err e, rows) = (err e, rows)
  after_sweep p (ok _, rows) = second_claim p (p.before_second rows)

  unfoldable pub reclaim_and_claim : Pass → Table → Result (Option Task) × Table
  reclaim_and_claim p rows = after_sweep p (reclaim_expired p.reclaim_lock p.reclaim_at rows)

  -- The rest of a pass, after its first claim.
  abbrev pub after_first : Pass → Result (Option Task) × Table → Result (Option Task) × Table
  after_first p (err e, rows) = (err e, rows)
  after_first p (ok (some task), rows) = (ok (some task), rows)
  after_first p (ok none, rows) = reclaim_and_claim p (p.before_reclaim rows)

  -- The two claims and the sweep of a pass.
  unfoldable pub poll : Pass → Table → Result (Option Task) × Table
  poll p rows = after_first p (try_claim serializer p.first_lock visibility_timeout p.first_at rows)

  -- The rest of the loop, after the polls of a pass: `rest` is the next passes.
  abbrev pub after_poll :
      Option Time
      → Pass
      → (Table → Result Progress × Table)
      → Result (Option Task) × Table
      → Result Progress × Table
  after_poll deadline p rest (err e, rows) = (err e, rows)
  after_poll deadline p rest (ok (some task), rows) = (ok (returned (some task)), rows)
  after_poll none p rest (ok none, rows) = (ok (returned none), rows)
  after_poll (some d) p rest (ok none, rows) =
      if leb_ℤ (d -ℤ p.checked_at) (pos 0)
      then (ok (returned none), rows)
      else rest (p.during_sleep rows)

  unfoldable pub dequeue_loop : Option Time → List Pass → Table → Result Progress × Table
  dequeue_loop deadline [] rows = (ok polling, rows)
  dequeue_loop deadline (p ∷ ps) rows =
      after_poll deadline p (λ t. dequeue_loop deadline ps t) (poll p rows)

  unfoldable pub dequeue : Time → Time → List Pass → Table → Result Progress × Table
  dequeue wait_seconds called_at ps rows =
      let deadline : Option Time =
        if ltb_ℤ (pos 0) wait_seconds then some (called_at +ℤ wait_seconds) else none in
      dequeue_loop deadline ps rows
