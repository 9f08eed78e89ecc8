-- ===== src/Worker/Ending.antt =====
-- How the row and the result of a task may be left by a turn of a worker of src/miniq/worker.py
-- over the SQLite backends.
use miniq.Base.{◌≡◌, ◌≢◌, refl, inl, inr, ◌⊎◌, Bool, true, false, Option}
use miniq.Exceptions.{Exception, Result, ok, err, operational_error, Result-cases}
use miniq.Task.{Task}
use miniq.Serializers.{Bytes, Serializer}
use miniq.Sqlite.{Lock, free, at_first, at_commit, transaction}
use miniq.SqliteQueue.{Table, has_id, update_where, finish_row, requeue_row, ack, nack}
use miniq.Results.{ResultTable, replace_row, result_row, result_blob, store}
use miniq.Worker.Persistent.{Process, Others}

-- A transaction of one UPDATE or INSERT OR REPLACE: it is made, or a lock is met.
written :
    {S : Type 0} (lock : Lock) (f : S → S) (s : S)
    → (transaction false lock (λ s. ok (tt {0}, f s)) s ≡ (ok tt, f s))
      ⊎ (lock ≢ free)
        × (transaction false lock (λ s. ok (tt {0}, f s)) s ≡ (err operational_error, s))
unfolding transaction
written free f s = inl refl
written at_first f s = inr (λ e. cc, refl)
written at_commit f s = inr (λ e. cc, refl)

module _ (serializer : Serializer) (others : Others) where
  open others use {store_lock, end_lock, stored_at, before_end}

  -- Why `store` has raised: the result has no JSON, or a lock.
  abbrev pub StoreFails : Task → Exception → Type 0
  StoreFails task e =
      (result_blob serializer task.status task.result ≡ err e)
      ⊎ (store_lock ≢ free) × (e ≡ operational_error)

  -- The results with the task's.
  abbrev pub IsStored : Task → Process → Process → Type 0
  IsStored task w w' =
      (blob : Option Bytes) × (result_blob serializer task.status task.result ≡ ok blob)
      × (w'.results ≡ replace_row (result_row serializer task blob stored_at) w.results)

  -- How a turn ends the task: `store` raises, and neither table is changed; or the result is
  -- stored, and then a lock leaves the tasks to the others, or the task's row ends.
  pub data Ends (task : Task) (w : Process) : Result Bool × Process → Type 0 where
    not_stored :
        {w' : Process} (e : Exception)
        → StoreFails task e
        → w'.tasks ≡ w.tasks
        → w'.results ≡ w.results
        → Ends task w (err e, w')
    not_ended :
        {w' : Process}
        → end_lock ≢ free
        → w'.tasks ≡ before_end w.tasks
        → IsStored task w w'
        → Ends task w (err operational_error, w')
    has_ended :
        {w' : Process}
        → w'.tasks ≡ update_where (has_id task.id) (finish_row task) (before_end w.tasks)
        → IsStored task w w'
        → Ends task w (ok true, w')

  -- How a turn puts the task back, storing nothing.
  pub data PutsBack (task : Task) (w : Process) : Result Bool × Process → Type 0 where
    not_put_back :
        {w' : Process}
        → end_lock ≢ free
        → w'.tasks ≡ before_end w.tasks
        → w'.results ≡ w.results
        → PutsBack task w (err operational_error, w')
    has_put_back :
        {w' : Process}
        → w'.tasks ≡ update_where (has_id task.id) (requeue_row task) (before_end w.tasks)
        → w'.results ≡ w.results
        → PutsBack task w (ok true, w')

  pub stores :
      (task : Task) (rows : ResultTable)
      → ((e : Exception) × StoreFails task e
          × (store serializer store_lock stored_at task rows ≡ (err e, rows)))
        ⊎ ((blob : Option Bytes) × (result_blob serializer task.status task.result ≡ ok blob)
            × (store serializer store_lock stored_at task rows
                ≡ (ok tt, replace_row (result_row serializer task blob stored_at) rows)))
  unfolding store
  stores task rows = elim (Result-cases (result_blob serializer task.status task.result)) [
    | inr (e, fails) ↦ inl (e, inl fails, rw fails refl)
    | inl (blob, b) ↦
        elim (written store_lock (replace_row (result_row serializer task blob stored_at)) rows) [
          | inl made ↦ inr (blob, b, rw b made)
          | inr (met, fails) ↦ inl (operational_error, inr (met, refl), rw b fails)
        ]
  ]

  -- The UPDATE that ends a task, in a transaction.
  pub finished :
      (task : Task) (rows : Table)
      → (ack end_lock task rows ≡ (ok tt, update_where (has_id task.id) (finish_row task) rows))
        ⊎ (end_lock ≢ free) × (ack end_lock task rows ≡ (err operational_error, rows))
  unfolding ack
  finished task rows = written end_lock (update_where (has_id task.id) (finish_row task)) rows

  pub nack_finishes :
      (task : Task) (rows : Table) → nack end_lock task false rows ≡ ack end_lock task rows
  unfolding ack nack
  nack_finishes task rows = refl

  pub requeued :
      (task : Task) (rows : Table)
      → (nack end_lock task true rows
          ≡ (ok tt, update_where (has_id task.id) (requeue_row task) rows))
        ⊎ (end_lock ≢ free) × (nack end_lock task true rows ≡ (err operational_error, rows))
  unfolding nack
  requeued task rows = written end_lock (update_where (has_id task.id) (requeue_row task)) rows
