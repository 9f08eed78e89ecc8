-- ===== src/App/DeadLetters.antt =====
-- A dead letter of a worker over SQLite: what AsyncResult of src/miniq/task.py says of it, and
-- `miniq dlq replay` of src/miniq/cli.py does to it.
use miniq.Base.{◌≡◌, refl, eq_self, inl, inr, true, Option, none, some, String, List, ◌∷◌}
use miniq.Values.{null}
use miniq.Exceptions.{ok, err, task_failed}
use miniq.Task.{Task, TaskId, Time}
use miniq.Serializers.{Serializer}
use miniq.Sqlite.{free}
use miniq.SqliteQueue.{Row, has_id, update_where, finish_row}
use miniq.SqliteQueue.Rows.{
  find_row, IsTable, find_row-update_where, find_row-id, update_where-IsTable,
}
use miniq.Results.{ResultTable, Look, ended, wait, wait_loop, get}
use miniq.Results.Laws.{restored, get-replace_row}
use miniq.Cli.{Database, task_replayed, cmd_dlq_replay}
use miniq.Cli.Replay.{Replayed, cmd_dlq_replay-IsReplay}
use miniq.Worker.Outcome.{buried}
use miniq.Worker.Ending.{IsStored, Ends, has_ended}
use miniq.Worker.Persistent.{Process, Others}
use miniq.App.{async_get}

module _ (serializer : Serializer) where
  -- `AsyncResult.get` raises TaskFailed with the message, at the first look of its `wait`.
  abbrev pub FailsWith : TaskId → String → ResultTable → Type 0
  FailsWith tid message results =
      (timeout : Option Time) (waits_at looked_at created_at : Time) (looks : List Look)
      → let look : Look = record {
        seen = get serializer created_at tid results;
        checked_at = looked_at;
      } in
        (done : Task) × (wait tid timeout waits_at (look ∷ looks) ≡ ended (ok done))
        × (async_get tid (ok done) ≡ err (task_failed tid (some message)))

  module _ (others : Others) (task : Task) (message : String) (now : Time) (w w' : Process)
      (row : Row) (no_result : task.result ≡ null)
      (ends : Ends serializer others (buried message now task) w (ok true, w'))
      (found : find_row task.id (others.before_end w.tasks) ≡ some row)
      (valid : IsTable (others.before_end w.tasks)) where
    abbrev dead : Task
    dead = buried message now task

    abbrev file : Database
    file = record { tasks = some w'.tasks; results = some w'.results }

    tasks_are :
        w'.tasks ≡ update_where (has_id task.id) (finish_row dead) (others.before_end w.tasks)
    tasks_are = elim ends [ has_ended t s ↦ t ]

    is_stored : IsStored serializer others dead w w'
    is_stored = elim ends [ has_ended t s ↦ s ]

    seen_is :
        (created_at : Time)
        → get serializer created_at task.id w'.results ≡ ok (some (restored created_at dead))
    seen_is created_at =
        let (blob, made, results_are) = is_stored in
        let empty : blob ≡ none = cc in
        rw (results_are, empty)
          (get-replace_row serializer others.stored_at created_at dead w.results none no_result)

    fails : FailsWith task.id message w'.results
    unfolding wait wait_loop
    fails timeout waits_at looked_at created_at looks =
        (restored created_at dead, rw (seen_is created_at) refl, refl)

    row_is : find_row task.id w'.tasks ≡ some (finish_row dead row)
    row_is =
        let same = find_row-id task.id (others.before_end w.tasks) row found in
        rw
          (
            tasks_are,
            find_row-update_where (has_id task.id) (finish_row dead) (λ _. refl) task.id
                (others.before_end w.tasks),
            found,
          )
          (rw same (rw (eq_self task.id) refl))

    valid_after : IsTable w'.tasks
    valid_after = rw tasks_are (
        update_where-IsTable (has_id task.id) (finish_row dead) (λ _. refl)
          (others.before_end w.tasks) valid)

    -- Where a turn of a worker over SQLite has ended with `message` a task that had no result, and
    -- whose row was in the table, `AsyncResult.get` raises TaskFailed with the message; the row is
    -- FAILED with it; and `miniq dlq replay` of its id, which meets no lock, exits with 0, makes it
    -- pending, claimable at any time, with no retries and no error, touches no other row, and leaves
    -- the results as they are: `AsyncResult.get` of the replayed task still raises that failure.
    pub dead_letter-Replayed :
        FailsWith task.id message w'.results
        × (find_row task.id w'.tasks ≡ some (finish_row dead row))
        × ((db' : Database) × (cmd_dlq_replay free task.id (some file)
              ≡ (ok (0, task_replayed task.id), some db'))
            × Replayed task.id file w'.tasks db')
    dead_letter-Replayed = (
      fails,
      row_is,
      elim (cmd_dlq_replay-IsReplay task.id file w'.tasks refl valid_after) [
        | inl (db', ran, replayed) ↦ (db', ran, replayed)
        | inr (not_failed, _) ↦ absurd (not_failed _ row_is refl)
      ],
    )
