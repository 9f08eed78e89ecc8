-- ===== src/App/Sole.antt =====
-- A SQLite table of src/miniq/queue/sqlite.py in which one row is claimable.
use miniq.Base.{
  ◌+ℤ◌, ◌≡◌, refl, ap, Option, some, List, [], ◌∷◌, ◌++◌, true, false, Bool, arith, select,
}
use miniq.Values.{array, items}
use miniq.Exceptions.{Result, ok, ◌>>=◌}
use miniq.Task.{Task, Time, running}
use miniq.Serializers.{Serializer}
use miniq.Sqlite.{free, transaction}
use miniq.SqliteQueue.{
  Row, Table, exists_id, has_id, row_of, enqueue, is_claimable, first_row, claim, claim_row,
  ignore_locked, try_claim, update_where, row_to_task,
}
use miniq.SqliteQueue.Polling.{Pass, returned, poll, dequeue_loop, dequeue}
use miniq.SqliteQueue.RoundTrip.{RoundTrips, blobs, inserted}

abbrev pub claimed_task : Task → Time → Task
claimed_task task now = record task { status = running; started_at = some now }

abbrev pub claimed_rows : Row → Table → (now visibility_timeout : Time) → Table
claimed_rows row rows now visibility_timeout =
    update_where (has_id row.id) (claim_row now (now +ℤ visibility_timeout)) rows

module _ (serializer : Serializer) where
  -- What `enqueue` makes of a task with a new id.
  pub enqueued :
      (task : Task) (rows : Table) (args : RoundTrips serializer (array (items task.args)))
      (kwargs : RoundTrips serializer task.kwargs)
      → exists_id task.id rows ≡ false
      → enqueue serializer free task rows ≡ (ok tt, rows ++ row_of task args.0 kwargs.0 ∷ [])
  unfolding enqueue row_of
  enqueued task rows (a, sa, da) (k, sk, dk) new =
      rw (enqueue, blobs serializer task a k sa sk) (inserted (row_of task a k) rows new)

  pub select-last :
      (test : Row → Bool) (rows : Table) (row : Row)
      → select test rows ≡ []
      → test row ≡ true
      → select test (rows ++ row ∷ []) ≡ row ∷ []
  select-last test [] row h t = ground arith
  select-last test (q ∷ rows) row h t = ground (arith, select-last test rows row)

  module _ (row : Row) (rows : Table) (task : Task) (now : Time)
      (found : first_row (select (is_claimable now) rows) ≡ some row)
      (decodes : row_to_task serializer row ≡ ok task) where
    claims_row :
        (visibility_timeout : Time)
        → claim serializer now (now +ℤ visibility_timeout) rows
          ≡ ok (some (claimed_task task now), claimed_rows row rows now visibility_timeout)
    unfolding claim
    claims_row visibility_timeout = rw (claim, found) (rw (decodes, ◌>>=◌) refl)

    in_transaction : (body : Result (Option Task × Table)) → Result (Option Task) × Table
    in_transaction body = ignore_locked (transaction true free (λ _. body) rows)

    claims :
        (visibility_timeout : Time)
        → try_claim serializer free visibility_timeout now rows
          ≡ (ok (some (claimed_task task now)), claimed_rows row rows now visibility_timeout)
    unfolding try_claim transaction in_transaction
    claims visibility_timeout = ap in_transaction (claims_row visibility_timeout)

    pub polls :
        (visibility_timeout wait_seconds called_at : Time) (p : Pass) (ps : List Pass)
        → p.first_lock ≡ free
        → p.first_at ≡ now
        → dequeue serializer visibility_timeout wait_seconds called_at (p ∷ ps) rows ≡ (
          ok (returned (some (claimed_task task now))),
          claimed_rows row rows now visibility_timeout,
        )
    unfolding dequeue dequeue_loop poll
    polls visibility_timeout wait_seconds called_at p ps unlocked at =
        rw (dequeue_loop, poll, unlocked, at, claims visibility_timeout) refl
