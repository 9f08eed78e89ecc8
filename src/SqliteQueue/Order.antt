-- ===== src/SqliteQueue/Order.antt =====
-- The order in which `_try_claim` of src/miniq/queue/sqlite.py hands out tasks over many calls.
use mathlib.Core.List.{Memᴰ}
use miniq.Base.{
  ◌≡◌, ◌≢◌, sym, ap, ◌∙◌, inl, inr, ◌⊎◌, Bool, true, false, Option, none, some, List, [], ◌∷◌, ◌++◌,
  All, All-mem, subst, not, ltb_ℤ, ◌+ℤ◌, arith, Bool-cases, ==_iff,
}
use miniq.Exceptions.{ok}
use miniq.Task.{Task, TaskId, TaskStatus, pending, running, Time}
use miniq.Serializers.{Serializer}
use miniq.Sqlite.{Lock, transaction}
use miniq.Memory.{is_available}
use miniq.Memory.Choice as Queued
use miniq.SqliteQueue.{
  Row, Table, has_id, is_claimable, finish_row, requeue_row, claim_row, update_where, row_to_task,
  try_claim, ack, nack,
}
use miniq.SqliteQueue.Choice.{Outranks, IsClaimable}
use miniq.SqliteQueue.Phases.{IsEnding}
use miniq.SqliteQueue.Events.{
  Event, enqueues, claims, reclaims, acks, nacks, after_event, after_events, enqueue_table,
  try_claim_table, update_table,
}
use miniq.SqliteQueue.Exclusive.{try_claim-Marks, row_to_task-id, some_id}

-- The row is there, and waits.
abbrev Waits : Row → Table → Type 0
Waits row rows = Memᴰ row rows × (row.status ≡ pending)

-- A call that does not make the task wait: no sweep, and no `enqueue` or `nack` with `requeue` of
-- it.
abbrev pub NotReturned : TaskId → Event → Type 0
NotReturned tid (enqueues _ task) = task.id ≢ tid
NotReturned tid (claims _ _ _) = Unit
NotReturned tid (reclaims _ _) = ⊥
NotReturned tid (acks _ task) = IsEnding task.status
NotReturned tid (nacks _ task true) = task.id ≢ tid
NotReturned tid (nacks _ task false) = IsEnding task.status

-- A row after an UPDATE is one of before, or is rewritten.
mem-update_where :
    {row : Row} (test : Row → Bool) (f : Row → Row) (rows : Table)
    → Memᴰ row (update_where test f rows)
    → Memᴰ row rows ⊎ ((r : Row) × (test r ≡ true) × (row ≡ f r))
mem-update_where test f [] i = elim i [ ]
mem-update_where {row} test f (r ∷ rows) (Memᴰ.head e) = elim (Bool-cases (test r)) [
  | inl met ↦ inr (r, met, rw met at e)
  | inr not_met ↦ inl (Memᴰ.head (rw not_met at e))
]
mem-update_where test f (r ∷ rows) (Memᴰ.tail i) = elim (mem-update_where test f rows i) [
  | inl before ↦ inl (Memᴰ.tail before)
  | inr rewritten ↦ inr rewritten
]

mem-append_new :
    {row : Row} (rows : Table) (new : Row)
    → Memᴰ row (rows ++ new ∷ [])
    → Memᴰ row rows ⊎ (row ≡ new)
mem-append_new [] new (Memᴰ.head e) = inr e
mem-append_new [] new (Memᴰ.tail i) = elim i [ ]
mem-append_new (r ∷ rows) new (Memᴰ.head e) = inl (Memᴰ.head e)
mem-append_new (r ∷ rows) new (Memᴰ.tail i) = elim (mem-append_new rows new i) [
  | inl before ↦ inl (Memᴰ.tail before)
  | inr same ↦ inr same
]

-- What waits after an UPDATE that makes no such row has waited before.
waited_before :
    {row : Row} (test : Row → Bool) (f : Row → Row) (rows : Table)
    → ((r : Row) → test r ≡ true → row ≡ f r → row.status ≢ pending)
    → Waits row (update_where test f rows)
    → Waits row rows
waited_before test f rows no_more h = elim (mem-update_where test f rows h.0) [
  | inl before ↦ (before, h.1)
  | inr (r, met, e) ↦ absurd (no_more r met e h.1)
]

ended_not_pending : (s s' : TaskStatus) → IsEnding s → s' ≡ s → s' ≢ pending
ended_not_pending s s' (inl e) same e' = cc
ended_not_pending s s' (inr e) same e' = cc

-- The UPDATE that ends a task.
waited_end :
    (lock : Lock) (task : Task) (rows : Table) (row : Row)
    → IsEnding task.status
    → Waits row
        (transaction false lock
          (λ rows. ok (tt {0}, update_where (has_id task.id) (finish_row task) rows))
          rows).1
    → Waits row rows
waited_end lock task rows row ends h =
    update_table lock (update_where (has_id task.id) (finish_row task)) rows
      (λ t. Waits row t → Waits row rows) (λ h. h)
      (waited_before (has_id task.id) (finish_row task) rows
        (λ r met e. ended_not_pending task.status row.status ends (ap (λ (r : Row). r.status) e)))
      h

claimable_waits : (now : Time) (row : Row) → IsClaimable now row → row.status ≡ pending
unfolding is_claimable
claimable_waits now row h = ground arith

-- The test of the in-memory queue on the start time.
abbrev IsDue : Time → Option Time → Type 0
IsDue now start = (elim start [ none ↦ true | some at ↦ not (ltb_ℤ now at) ]) ≡ true

available-IsClaimable :
    (now : Time) (row : Row)
    → row.status ≡ pending
    → IsDue now row.available_at
    → IsClaimable now row
unfolding is_claimable
available-IsClaimable now row e h = ground arith

module _ (serializer : Serializer) where
  -- What waits after a call that has not made it wait has waited before.
  waited_event :
      (event : Event) (rows : Table) (row : Row)
      → NotReturned row.id event
      → Waits row (after_event serializer event rows)
      → Waits row rows
  unfolding after_event ack nack
  waited_event (enqueues lock task) rows row other h =
      enqueue_table serializer lock task rows (λ t. Waits row t → Waits row rows) (λ h. h)
        (λ new same fresh h. elim (mem-append_new rows new h.0) [
          | inl before ↦ (before, h.1)
          | inr e ↦ absurd (other (sym same ∙ sym (ap (λ (r : Row). r.id) e)))
        ])
        h
  waited_event (claims lock v now) rows row other h =
      try_claim_table serializer lock v now rows (λ t. Waits row t → Waits row rows) (λ h. h)
        (λ best _ h. waited_before (has_id best.id) _ rows (λ r met e waits. cc) h) h
  waited_event (reclaims lock now) rows row other h = absurd other
  waited_event (acks lock task) rows row ends h = waited_end lock task rows row ends h
  waited_event (nacks lock task true) rows row other h =
      update_table lock (update_where (has_id task.id) (requeue_row task)) rows
        (λ t. Waits row t → Waits row rows) (λ h. h)
        (waited_before (has_id task.id) (requeue_row task) rows (λ r met e waits.
          other (sym ((==_iff r.id task.id).0 met) ∙ sym (ap (λ (r : Row). r.id) e))))
        h
  waited_event (nacks lock task false) rows row ends h = waited_end lock task rows row ends h

  waited :
      (events : List Event) (rows : Table) (row : Row)
      → All (NotReturned row.id) events
      → Waits row (after_events serializer events rows)
      → Waits row rows
  unfolding after_events
  waited [] rows row other h = h
  waited (event ∷ events) rows row other h =
      waited_event event rows row other.0
        (waited events (after_event serializer event rows) row other.1 h)

  row_to_task-fields :
      (row : Row) {t : Task}
      → row_to_task serializer row ≡ ok t
      → (t.priority ≡ row.priority)
        × (t.created_at ≡ row.created_at)
        × (t.available_at ≡ row.available_at)
  unfolding row_to_task
  row_to_task-fields row decoded = (ground arith, ground arith, ground arith)

  -- A task that a claim has made of a row has the row's rank and start time.
  handed_out :
      (row : Row) {t task : Task} {at : Option Time}
      → row_to_task serializer row ≡ ok t
      → some task ≡ some (record t { status = running; started_at = at })
      → (task.priority ≡ row.priority)
        × (task.created_at ≡ row.created_at)
        × (task.available_at ≡ row.available_at)
  handed_out row {t} {task} {at} decoded e =
      let same : task ≡ record t { status = running; started_at = at } = cc in
      let (p, c, a) = row_to_task-fields row decoded in
      (
        ap (λ (x : Task). x.priority) same ∙ p,
        ap (λ (x : Task). x.created_at) same ∙ c,
        ap (λ (x : Task). x.available_at) same ∙ a,
      )

  -- Of two claims that hand out tasks, with any calls between that have not made the second task
  -- wait (no sweep, and no `enqueue` or `nack` with `requeue` of it), whatever locks are met: the
  -- second task does not outrank the first (by a higher priority, or the same one and an earlier
  -- creation) unless its start time had not come at the first claim.
  pub claims_in_order :
      (lock lock' : Lock) (visibility_timeout visibility_timeout' now now' : Time)
      (rows rows' rows'' : Table) (task task' : Task) (events : List Event)
      → try_claim serializer lock visibility_timeout now rows ≡ (ok (some task), rows')
      → All (NotReturned task'.id) events
      → try_claim serializer lock' visibility_timeout' now' (after_events serializer events rows')
        ≡ (ok (some task'), rows'')
      → is_available now task' ≡ true
      → ¬ Queued.Outranks task' task
  unfolding is_available
  claims_in_order lock lock' visibility_timeout visibility_timeout' now now' rows rows' rows'' task
        task' events first others second available =
      let (row, t, (i, claimable, best), decoded, e, marked) =
        try_claim-Marks serializer lock visibility_timeout now rows first in
      let (row', t', (i', claimable', _), decoded', e', _) =
        try_claim-Marks serializer lock' visibility_timeout' now'
          (after_events serializer events rows') second in
      let (p, c, _) = handed_out row decoded e in
      let (p', c', a') = handed_out row' decoded' e' in
      let id : task'.id ≡ row'.id =
        some_id serializer t' e' ∙ row_to_task-id serializer row' decoded' in
      let later : Waits row' rows' =
        waited events rows' row' (subst (λ i. All (NotReturned i) events) id others)
          (i', claimable_waits now' row' claimable') in
      let before =
        waited_before (has_id row.id) (claim_row now (now +ℤ visibility_timeout)) rows
          (λ r met e waits. cc) (rw marked at later) in
      let claimable_now = available-IsClaimable now row' before.1 (rw a' at available) in
      let unbeaten =
        All-mem (λ q. IsClaimable now q → ¬ Outranks q row) rows before.0 best claimable_now in
      rw (p, c, p', c') unbeaten
