-- ===== src/Worker/Delays.antt =====
-- When a task that the worker of src/miniq/worker.py has put back over SQLite is run again.
use miniq.Base.{◌≡◌, ◌≢◌, refl, sym, ap, ◌∙◌, eq_self, arith, pos, ◌+ℤ◌, ◌<ℤ◌, leb_ℤ, true, some}
use miniq.Exceptions.{ok}
use miniq.Task.{Task, Time}
use miniq.Serializers.{Serializer}
use miniq.SqliteQueue.{Row, Table, has_id, update_where, requeue_row, is_claimable}
use miniq.SqliteQueue.Rows.{find_row, find_row-update_where, find_row-id}
use miniq.Sqlite.{Lock}
use miniq.SqliteQueue.{try_claim}
use miniq.SqliteQueue.Rows.{IsTable}
use miniq.SqliteQueue.Exclusive.{try_claim-Marks, find_row-mem, some_id, row_to_task-id}
use miniq.Worker.{schedule_retry}
use miniq.Worker.Ending.{PutsBack, has_put_back}
use miniq.Worker.Persistent.{Process, Others}

same_row : {a b : Row} → some a ≡ some b → a ≡ b
same_row e = cc

module _ (serializer : Serializer) (others : Others) (task : Task) (delay now : Time)
    (w w' : Process) (row : Row)
    (back : PutsBack serializer others (schedule_retry delay now task) w (ok true, w'))
    (found : find_row task.id (others.before_end w.tasks) ≡ some row) where
  abbrev waiting_row : Row
  waiting_row = requeue_row (schedule_retry delay now task) row

  row_is : find_row task.id w'.tasks ≡ some waiting_row
  row_is =
      let same = find_row-id task.id (others.before_end w.tasks) row found in
      rw
        (
          tasks_are,
          find_row-update_where (has_id task.id) (requeue_row (schedule_retry delay now task))
              (λ _. refl) task.id (others.before_end w.tasks),
          found,
        )
        (rw same (rw (eq_self task.id) refl))
    where
      tasks_are :
          w'.tasks
          ≡ update_where
              (has_id task.id)
              (requeue_row (schedule_retry delay now task))
              (others.before_end w.tasks)
      tasks_are = elim back [ has_put_back t _ ↦ t ]

  pub put_back_gates :
      (row' : Row) × (find_row task.id w'.tasks ≡ some row')
      × (row'.retries ≡ task.retries +ℤ pos 1)
      × ((at : Time) → is_claimable at row' ≡ leb_ℤ (now +ℤ delay) at)
  unfolding is_claimable
  put_back_gates = (waiting_row, row_is, refl, λ at. refl)

  too_early : (at : Time) → at <ℤ now +ℤ delay → is_claimable at waiting_row ≢ true
  unfolding is_claimable
  too_early at early claimable = ground arith

  -- Where a turn of a worker over SQLite has put back a task with a delay, and its row was in the
  -- table: until that delay after the turn's clock is over, no claim, whatever lock it meets, hands
  -- out the task from a table that holds each id once and still has the task's row as the turn has
  -- left it.
  pub retry_waits :
      (lock : Lock) (visibility_timeout at : Time) (rows rows' : Table) (other : Task)
      → IsTable rows
      → find_row task.id rows ≡ find_row task.id w'.tasks
      → at <ℤ now +ℤ delay
      → try_claim serializer lock visibility_timeout at rows ≡ (ok (some other), rows')
      → other.id ≢ task.id
  retry_waits lock visibility_timeout at rows rows' other h kept early claimed same =
      let (best, t, (i, claimable, _), decoded, e, _) =
        try_claim-Marks serializer lock visibility_timeout at rows claimed in
      let id : best.id ≡ task.id =
        sym (some_id serializer t e ∙ row_to_task-id serializer best decoded) ∙ same in
      let its_row : some best ≡ some waiting_row =
        sym (find_row-mem rows h i) ∙ ap (λ k. find_row k rows) id ∙ kept ∙ row_is in
      let now_claimable : is_claimable at waiting_row ≡ true = rw (same_row its_row) at claimable in
      too_early at early now_claimable
