-- ===== src/SqliteQueue/Scenarios.antt =====
-- Sequences of calls on the table of SqliteQueue/Tests.
use miniq.Base.{◌≡◌, ◌≢◌, refl, inl, pos, true, Option, some, ◌+ℤ◌, [], ◌∷◌, List}
use miniq.Task.{Task, pending, success}
use miniq.Sqlite.{free, at_first, transaction}
use miniq.SqliteQueue.{
  Table, ack, nack, enqueue, try_claim, claim, first_row, is_claimable, precedes, row_to_task,
  insert_row, row_of, blobs_of,
}
use miniq.SqliteQueue.Order.{claims_in_order}
use miniq.Memory.{is_available}
use miniq.Memory.Choice.{Outranks}
use miniq.Exceptions.{Result, ok}
use miniq.SqliteQueue.Events.{Event, enqueues, claims, reclaims, acks, after_event, after_events}
use miniq.SqliteQueue.Phases.{absent, waiting, ended, phase, IsGuardedStep}
use miniq.SqliteQueue.Lifecycle.{after_event-IsGuardedStep}
use miniq.SqliteQueue.Histories.{never_lost, late_nack_revives}
use miniq.SqliteQueue.Tests.{
  serializer, task_of, running_task, rows, rows_after, rows-IsTable, first_claim,
}

abbrev finished : Task
finished = record (task_of 12 success 3) { finished_at = some (pos 55) }

-- The worker that has claimed 12 until 50 acks it.
ack_example :
    IsGuardedStep
      (some (pos 50))
      12
      (acks free finished)
      (phase 12 rows)
      (phase 12 (after_event serializer (acks free finished) rows))
ack_example =
    after_event-IsGuardedStep serializer (some (pos 50)) (acks free finished) rows 12 rows-IsTable
      (inl refl)

-- Another task comes in, the claim of 12 expires and it is claimed again, and then it is acked, at
-- first in vain.
abbrev calls : List Event
calls =
    enqueues free (task_of 13 pending 1)
    ∷ reclaims free (pos 60)
    ∷ claims free (pos 30) (pos 61)
    ∷ acks at_first finished
    ∷ acks free finished
    ∷ []

present_example : phase 12 (after_events serializer calls rows) ≢ absent
present_example =
    never_lost serializer 12 calls rows rows-IsTable (refl, (tt, (tt, (inl refl, (inl refl, tt)))))
      (λ e. cc)

late_nack_example :
    (phase 12 (ack free finished rows).1 ≡ ended)
    × (phase 12 (nack free (task_of 12 pending 3) true (ack free finished rows).1).1 ≡ waiting)
late_nack_example = late_nack_revives rows finished (task_of 12 pending 3) (inl refl) refl (λ e. cc)

-- Between two claims another worker acks 12, and 13 comes in.
abbrev calls_between : List Event
calls_between = acks free finished ∷ enqueues free (task_of 13 pending 0) ∷ []

abbrev later_claim : Result (Option Task) × Table
later_claim =
    try_claim serializer free (pos 30) (pos 8) (after_events serializer calls_between rows_after)

later_claim_lem : later_claim ≡ (ok (some (running_task 10 1 8)), later_claim.1)
unfolding try_claim transaction claim first_row is_claimable precedes row_to_task ◌+ℤ◌ after_events
    after_event ack enqueue insert_row row_of blobs_of
later_claim_lem = refl

order_example : ¬ Outranks (running_task 10 1 8) (running_task 11 2 7)
unfolding is_available
order_example =
    claims_in_order serializer free free (pos 30) (pos 30) (pos 7) (pos 8) rows rows_after
      (later_claim.1) (running_task 11 2 7) (running_task 10 1 8) calls_between first_claim
      (inl refl, ((λ e. cc), tt)) later_claim_lem refl
