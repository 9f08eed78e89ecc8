-- ===== src/SqliteQueue/Limits.antt =====
-- The retries that the rows of src/miniq/queue/sqlite.py count: a claim and a sweep add none, so
-- that no `dequeue` does.
use miniq.Base.{
  ◌≡◌, inl, inr, Bool, true, Option, none, some, List, [], ◌∷◌, All, All-mem, ℤ, ◌≤ℤ◌, pos, ◌+ℤ◌,
  ◌-ℤ◌, leb_ℤ, arith, Bool-cases,
}
use miniq.Exceptions.{Exception, Result, ok, err, operational_error}
use miniq.Task.{Task, TaskId, Time}
use miniq.Serializers.{Serializer}
use miniq.Sqlite.{Lock}
use miniq.Sqlite.Atomic.{IsAtomic, transaction-IsAtomic}
use miniq.SqliteQueue.{
  Row, Table, update_where, is_overdue, release_row, reclaim_expired, claim, try_claim,
  ignore_locked, row_to_task,
}
use miniq.SqliteQueue.Choice.{claim_cases}
use miniq.SqliteQueue.Events.{update_table}
use miniq.SqliteQueue.Polling.{
  Pass, Progress, returned, poll, after_first, after_sweep, second_claim, reclaim_and_claim,
  after_poll, dequeue_loop, dequeue,
}

module _ (P : Row → Type 0) where
  pub All-update_where :
      (test : Row → Bool) (f : Row → Row)
      → ((row : Row) → test row ≡ true → P row → P (f row))
      → (rows : Table) → All P rows
      → All P (update_where test f rows)
  All-update_where test f step [] h = tt
  All-update_where test f step (row ∷ rows) h = elim (Bool-cases (test row)) [
    | inl met ↦ rw met (step row met h.0, All-update_where test f step rows h.1)
    | inr not_met ↦ rw not_met (h.0, All-update_where test f step rows h.1)
  ]

-- `limit` says of each id the `max_retries` that the task was enqueued with.
module _ (serializer : Serializer) (limit : TaskId → ℤ) where
  -- The row counts no more retries than its task may take.
  abbrev pub InLimit : Row → Type 0
  InLimit row = (row.max_retries ≡ limit row.id) × (row.retries ≤ℤ limit row.id)

  abbrev pub WithinLimits : Table → Type 0
  WithinLimits = All InLimit

  abbrev pub HasLimit : Task → Type 0
  HasLimit task = task.max_retries ≡ limit task.id

  -- Other connections keep the rows within the limits.
  abbrev pub KeepLimits : (Table → Table) → Type 0
  KeepLimits f = (rows : Table) → WithinLimits rows → WithinLimits (f rows)

  -- A task that is handed out has the limit of its id.
  abbrev HandsOut : Result (Option Task) → Type 0
  HandsOut (ok (some task)) = HasLimit task
  HandsOut _ = Unit

  abbrev IsPolled : Result (Option Task) × Table → Type 0
  IsPolled x = HandsOut x.0 × WithinLimits x.1

  row_to_task-HasLimit :
      (row : Row) {task : Task} → row_to_task serializer row ≡ ok task → InLimit row → HasLimit task
  unfolding row_to_task
  row_to_task-HasLimit row e h = ground arith

  ignored-IsPolled :
      (x : Exception) (rows : Table) → WithinLimits rows → IsPolled (ignore_locked (err x, rows))
  ignored-IsPolled operational_error rows h = (tt, h)
  ignored-IsPolled x rows h = (tt, h)

  try_claim-IsPolled :
      (lock : Lock) (visibility_timeout now : Time) (rows : Table)
      → WithinLimits rows
      → IsPolled (try_claim serializer lock visibility_timeout now rows)
  unfolding try_claim
  try_claim-IsPolled lock visibility_timeout now rows h =
      go _ (transaction-IsAtomic true lock (claim serializer now (now +ℤ visibility_timeout)) rows)
    where
      go :
          (r : Result (Option Task) × Table)
          → IsAtomic (claim serializer now (now +ℤ visibility_timeout)) rows r
          → IsPolled (ignore_locked r)
      go (ok found, t) body =
          elim (claim_cases serializer now (now +ℤ visibility_timeout) rows body) [
            | inl (nothing, same) ↦ rw (nothing, same) (tt, h)
            | inr (row, task, (i, _, _), decoded, some_task, marked) ↦
                rw (some_task, marked)
                  (
                    row_to_task-HasLimit row decoded (All-mem InLimit rows i h),
                    All-update_where InLimit _ _ (λ r _ k. k) rows h,
                  )
          ]
      go (err x, t) same = ignored-IsPolled x t (rw same h)

  reclaim_expired-WithinLimits :
      (lock : Lock) (now : Time) (rows : Table)
      → WithinLimits rows
      → WithinLimits (reclaim_expired lock now rows).1
  unfolding reclaim_expired
  reclaim_expired-WithinLimits lock now rows h =
      update_table lock (update_where (is_overdue now) release_row) rows WithinLimits h
        (All-update_where InLimit _ _ (λ r _ k. k) rows h)

  -- What a call of `dequeue` has handed out, where it has returned.
  abbrev pub IsDequeued : Result Progress × Table → Type 0
  IsDequeued (ok (returned (some task)), rows) = HasLimit task × WithinLimits rows
  IsDequeued (_, rows) = WithinLimits rows

  module _ (visibility_timeout : Time) where
    -- Other connections keep the rows within the limits during a pass of `dequeue`.
    abbrev pub KeepsLimits : Pass → Type 0
    KeepsLimits p =
        KeepLimits p.before_reclaim × KeepLimits p.before_second × KeepLimits p.during_sleep

    poll-IsPolled :
        (p : Pass) (rows : Table)
        → KeepsLimits p
        → WithinLimits rows
        → IsPolled (poll serializer visibility_timeout p rows)
    unfolding poll reclaim_and_claim second_claim
    poll-IsPolled p rows k h =
        first _ (try_claim-IsPolled p.first_lock visibility_timeout p.first_at rows h)
      where
        swept :
            (x : Result (Unit {0}) × Table)
            → WithinLimits x.1
            → IsPolled (after_sweep serializer visibility_timeout p x)
        swept (err e, t) i = (tt, i)
        swept (ok _, t) i =
            try_claim-IsPolled p.second_lock visibility_timeout p.second_at (p.before_second t)
              (k.1 t i)

        first :
            (x : Result (Option Task) × Table)
            → IsPolled x
            → IsPolled (after_first serializer visibility_timeout p x)
        first (err e, t) i = i
        first (ok (some task), t) i = i
        first (ok none, t) i = swept _ (
            reclaim_expired-WithinLimits p.reclaim_lock p.reclaim_at (p.before_reclaim t)
              (k.0 t i.1))

    dequeue_loop-IsDequeued :
        (deadline : Option Time) (ps : List Pass) (rows : Table)
        → All KeepsLimits ps
        → WithinLimits rows
        → IsDequeued (dequeue_loop serializer visibility_timeout deadline ps rows)
    unfolding dequeue_loop
    dequeue_loop-IsDequeued deadline [] rows k h = h
    dequeue_loop-IsDequeued deadline (p ∷ ps) rows k h =
        polled deadline (λ t i. dequeue_loop-IsDequeued deadline ps t k.1 i)
          (poll serializer visibility_timeout p rows) (poll-IsPolled p rows k.0 h)
      where
        polled :
            (deadline' : Option Time)
            → ((t : Table)
                → WithinLimits t
                → IsDequeued (dequeue_loop serializer visibility_timeout deadline ps t))
            → (x : Result (Option Task) × Table) → IsPolled x
            → IsDequeued (
                after_poll serializer visibility_timeout deadline' p
                  (λ t. dequeue_loop serializer visibility_timeout deadline ps t)
                  x)
        polled d rest (err e, t) i = i.1
        polled d rest (ok (some task), t) i = i
        polled none rest (ok none, t) i = i.1
        polled (some d) rest (ok none, t) i =
            elim (Bool-cases (leb_ℤ (d -ℤ p.checked_at) (pos 0))) [
              | inl over ↦ rw over (i.1)
              | inr left ↦ rw left (rest _ (k.0.2 t i.1))
            ]

    pub dequeue-IsDequeued :
        (wait_seconds called_at : Time) (ps : List Pass) (rows : Table)
        → All KeepsLimits ps
        → WithinLimits rows
        → IsDequeued (dequeue serializer visibility_timeout wait_seconds called_at ps rows)
    unfolding dequeue
    dequeue-IsDequeued wait_seconds called_at ps rows k h = dequeue_loop-IsDequeued _ ps rows k h
