-- ===== src/SqliteQueue/Events.antt =====
-- What any sequence of transactions, of any number of connections, keeps.
use miniq.Base.{
  ◌≡◌, refl, inl, inr, Bool, true, false, Option, List, [], ◌∷◌, ◌++◌, Bool-cases, ◌+ℤ◌,
}
use miniq.Exceptions.{Result, ok, err, operational_error, Result-cases}
use miniq.Task.{Task, Time}
use miniq.Serializers.{Bytes, Serializer}
use miniq.Sqlite.{Lock, transaction}
use miniq.Sqlite.Atomic.{transaction_table}
use miniq.SqliteQueue.{
  Row, Table, has_id, exists_id, update_where, insert_row, row_of, enqueue, blobs_of, try_claim,
  claim, claim_row, ignore_locked, reclaim_expired, ack, nack,
}
use miniq.SqliteQueue.Choice.{IsBest, claim_cases}
use miniq.SqliteQueue.Rows.{IsTable, update_where-IsTable, append-IsTable}

-- One call of a queue method, as far as the table goes.
pub data Event : Type 0 where
  enqueues : Lock → Task → Event
  claims : Lock → (visibility_timeout now : Time) → Event
  reclaims : Lock → Time → Event
  acks : Lock → Task → Event
  nacks : Lock → Task → Bool → Event

module _ (serializer : Serializer) where
  unfoldable pub after_event : Event → Table → Table
  after_event (enqueues lock task) rows = (enqueue serializer lock task rows).1
  after_event (claims lock visibility_timeout now) rows =
      (try_claim serializer lock visibility_timeout now rows).1
  after_event (reclaims lock now) rows = (reclaim_expired lock now rows).1
  after_event (acks lock task) rows = (ack lock task rows).1
  after_event (nacks lock task requeue) rows = (nack lock task requeue rows).1

  unfoldable pub after_events : List Event → Table → Table
  after_events [] rows = rows
  after_events (e ∷ es) rows = after_events es (after_event e rows)

ignore_locked-table : (r : Result (Option Task) × Table) → (ignore_locked r).1 ≡ r.1
ignore_locked-table (err operational_error, rows) = refl
ignore_locked-table (r, rows) = refl

-- An UPDATE in a transaction is made or not.
pub update_table :
    (lock : Lock) (f : Table → Table) (rows : Table) (P : Table → Type 0)
    → P rows
    → P (f rows)
    → P (transaction false lock (λ rows. ok (tt, f rows)) rows).1
update_table lock f rows P before after =
    transaction_table false lock _ rows P before
      λ a rows' e. let same : rows' ≡ f rows = cc in rw same after

-- A claim leaves the table alone, or marks the best row.
module _ (serializer : Serializer) where
  -- An `enqueue` leaves the table alone, or appends the task's row, whose id is new.
  pub enqueue_row_table :
      (lock : Lock) (task : Task) (rows : Table) (P : Table → Type 0)
      → P rows
      → ((a k : Bytes) → exists_id task.id rows ≡ false → P (rows ++ row_of task a k ∷ []))
      → P (enqueue serializer lock task rows).1
  unfolding enqueue insert_row row_of
  enqueue_row_table lock task rows P before appended =
      elim (Result-cases (blobs_of serializer task)) [
        | inr (x, failed) ↦ rw (enqueue, failed) before
        | inl ((a, k), done) ↦
            rw (enqueue, done)
              (transaction_table false lock (insert_row (row_of task a k)) rows P before
                λ _ rows' e. elim (Bool-cases (exists_id task.id rows)) [
                  | inl old ↦ absurd (let e' = rw (insert_row, old) at e in cc)
                  | inr new ↦
                      let e' = rw (insert_row, new) at e in
                      let same : rows' ≡ rows ++ row_of task a k ∷ [] = cc in
                      rw same (appended a k new)
                ])
      ]

  pub enqueue_table :
      (lock : Lock) (task : Task) (rows : Table) (P : Table → Type 0)
      → P rows
      → ((row : Row) → row.id ≡ task.id → exists_id row.id rows ≡ false → P (rows ++ row ∷ []))
      → P (enqueue serializer lock task rows).1
  unfolding row_of
  enqueue_table lock task rows P before appended =
      enqueue_row_table lock task rows P before (λ a k new. appended (row_of task a k) refl new)

  pub try_claim_table :
      (lock : Lock) (visibility_timeout now : Time) (rows : Table) (P : Table → Type 0)
      → P rows
      → ((row : Row)
          → IsBest now rows row
          → P (update_where (has_id row.id) (claim_row now (now +ℤ visibility_timeout)) rows))
      → P (try_claim serializer lock visibility_timeout now rows).1
  unfolding try_claim
  try_claim_table lock visibility_timeout now rows P before marked = rw ignore_locked-table (
      transaction_table true lock (claim serializer now (now +ℤ visibility_timeout)) rows P before
        λ found rows' e. elim (claim_cases serializer now (now +ℤ visibility_timeout) rows e) [
          | inl (_, same) ↦ rw same before
          | inr (row, task, best, _, _, table) ↦ rw table (marked row best)
        ])

  -- Where no two rows have one id, no two have after any call of a method, whatever lock it meets,
  -- and also where it raises.
  pub after_event-IsTable :
      (event : Event) (rows : Table) → IsTable rows → IsTable (after_event serializer event rows)
  unfolding after_event reclaim_expired ack nack
  after_event-IsTable (enqueues lock task) rows h =
      enqueue_table lock task rows IsTable h (λ row _ new. append-IsTable rows row h new)
  after_event-IsTable (claims lock visibility_timeout now) rows h =
      try_claim_table lock visibility_timeout now rows IsTable h
        (λ row _. update_where-IsTable _ _ (λ _. refl) rows h)
  after_event-IsTable (reclaims lock now) rows h =
      update_table lock _ rows IsTable h (update_where-IsTable _ _ (λ _. refl) rows h)
  after_event-IsTable (acks lock task) rows h =
      update_table lock _ rows IsTable h (update_where-IsTable _ _ (λ _. refl) rows h)
  after_event-IsTable (nacks lock task true) rows h =
      update_table lock _ rows IsTable h (update_where-IsTable _ _ (λ _. refl) rows h)
  after_event-IsTable (nacks lock task false) rows h =
      update_table lock _ rows IsTable h (update_where-IsTable _ _ (λ _. refl) rows h)
