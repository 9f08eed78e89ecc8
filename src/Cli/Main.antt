-- ===== src/Cli/Main.antt =====
-- `main` of src/miniq/cli.py: the command that the arguments name, and its exit code. The parsing
-- is argparse's, a parameter.
use miniq.Base.{
  false, ℕ, ◌≡◌, refl, ◌⊎◌, inl, inr, Bool, Bool-cases, Option, none, some, String, List, [], ◌∷◌,
  ◌==◌, ==_iff, if◌then◌else◌, length, select,
}
use miniq.Exceptions.{Exception, Result, ok, err, ◌>>=◌, or_raise, operational_error}
use miniq.Task.{TaskId, Time}
use miniq.Sqlite.{Lock, free, at_first, at_commit, Statement, transaction, body_and_commit}
use miniq.SqliteQueue.{Table, update_where}
use miniq.Cli.{
  Database, Output, Outcome, database_not_found, no_failed_task, task_replayed, on_database,
  tasks_of, listing, cmd_status, cmd_dlq_list, cmd_dlq_replay, cmd_purge, keep_file,
  order_by_finished, is_failed, is_replayable, replay_row,
}
use miniq.Cli.Replay.{update_none}
use miniq.Cli.RunWorkers.{WorkerOptions, Run}

-- The subcommands, with their arguments: `set_defaults(func=...)`.
pub data Command : Type 0 where
  worker : WorkerOptions → Command
  status dlq_list : Command
  dlq_replay : TaskId → Command
  purge : (older_than : Time) → (include_failed : Bool) → Command

-- What a command is run with: the locks that it meets, the clock, the file, and the worker command.
pub record Call : Type 0 where
  pub lock : Lock
  pub now : Time
  pub file : Option Database
  pub run_workers : WorkerOptions → Run

-- What a command has done.
pub data Done : Type 0 where
  on_file : Outcome → Done
  workers_run : Run → Done

-- `args.func(args)`
unfoldable pub run_command : Call → Command → Done
run_command call (worker options) = workers_run (call.run_workers options)
run_command call status = on_file (cmd_status call.lock call.file)
run_command call dlq_list = on_file (cmd_dlq_list call.lock call.file)
run_command call (dlq_replay tid) = on_file (cmd_dlq_replay call.lock tid call.file)
run_command call (purge older_than include_failed) =
    on_file (cmd_purge call.lock older_than include_failed call.now call.file)

abbrev pub exit_code_of : Result (ℕ × Output) → Result ℕ
exit_code_of (ok (n, _)) = ok n
exit_code_of (err e) = err e

abbrev pub exit_code : Done → Result ℕ
exit_code (on_file outcome) = exit_code_of outcome.0
exit_code (workers_run run) = run.0

-- `main`, from what the parser makes of the arguments: a command, or the exit code with which it
-- exits itself.
abbrev pub parsed_code : Call → Command ⊎ ℕ → Result ℕ
parsed_code call (inl command) = exit_code (run_command call command)
parsed_code call (inr code) = ok code

unfoldable pub main : (parse_args : List String → Command ⊎ ℕ) → Call → List String → Result ℕ
main parse_args call argv = parsed_code call (parse_args argv)

-- An exit code tells what was printed: 1 where there is no file, or no failed task to replay.
abbrev pub FitsOutput : ℕ → Output → Type 0
FitsOutput n database_not_found = n ≡ 1
FitsOutput n (no_failed_task _) = n ≡ 1
FitsOutput n _ = n ≡ 0

-- A command that has raised, or exits with 1, has left the file as it was.
pub data IsHonest (file : Option Database) : Outcome → Type 0 where
  raised : (e : Exception) → IsHonest file (err e, file)
  refused : (out : Output) → FitsOutput 1 out → IsHonest file (ok (1, out), file)
  carried_out :
      (out : Output) (db db' : Database)
      → file ≡ some db
      → FitsOutput 0 out
      → IsHonest file (ok (0, out), some db')

-- The body of a command on the tables of a file.
abbrev IsHonestBody : Database → Result ((ℕ × Output) × Database) → Type 0
IsHonestBody db (err e) = Unit
IsHonestBody db (ok ((n, out), db')) =
    (n ≡ 0) × FitsOutput 0 out ⊎ (n ≡ 1) × FitsOutput 1 out × (db' ≡ db)

on_database-IsHonest :
    (lock : Lock) (body : Statement Database (ℕ × Output)) (file : Option Database)
    → ((db : Database) → IsHonestBody db (body db))
    → IsHonest file (on_database lock body file)
unfolding on_database transaction
on_database-IsHonest lock body none h = refused database_not_found refl
on_database-IsHonest lock body (some db) h = by_result lock (body db) refl (h db)
  where
    by_result :
        (lock : Lock) (r : Result ((ℕ × Output) × Database))
        → body db ≡ r
        → IsHonestBody db r
        → IsHonest (some db) (keep_file (transaction false lock body db))
    by_result at_first r e b = raised _
    by_result at_commit (err x) e b = rw (transaction, body_and_commit, e) (raised x)
    by_result at_commit (ok a) e b = rw (transaction, body_and_commit, e) (raised _)
    by_result free (err x) e b = rw (transaction, body_and_commit, e) (raised x)
    by_result free (ok ((n, out), db')) e (inl (zero', fits)) =
        rw (transaction, body_and_commit, e, zero') (carried_out out db db' refl fits)
    by_result free (ok ((n, out), db')) e (inr (one, fits, same)) =
        rw (transaction, body_and_commit, e, one, same) (refused out fits)

with_tasks :
    (db : Database) (rest : Table → Result ((ℕ × Output) × Database))
    → ((rows : Table) → db.tasks ≡ some rows → IsHonestBody db (rest rows))
    → IsHonestBody db (tasks_of db >>= rest)
with_tasks db rest h = by_tasks db.tasks refl
  where
    by_tasks :
        (o : Option Table) → db.tasks ≡ o → IsHonestBody db (or_raise o operational_error >>= rest)
    by_tasks none e = tt
    by_tasks (some rows) e = h rows e

listing_fits : (rows : Table) → FitsOutput 0 (listing rows)
listing_fits [] = refl
listing_fits (row ∷ rows) = refl

replay_honest :
    (db : Database) (tid : TaskId) (rows : Table)
    → db.tasks ≡ some rows
    → IsHonestBody db (
        ok (
          if length (select (is_replayable tid) rows) == 0
              then (1, no_failed_task tid)
              else (0, task_replayed tid),
          record db { tasks = some (update_where (is_replayable tid) replay_row rows) },
        ))
replay_honest db tid rows e = elim (Bool-cases (length (select (is_replayable tid) rows) == 0)) [
  | inl none' ↦
      let same = update_none (is_replayable tid) replay_row rows ((==_iff _ 0).0 none') in
      rw (none', same, e) (inr (refl, refl, refl))
  | inr some' ↦ rw some' (inl (refl, refl))
]

abbrev pub IsHonestDone : Option Database → Done → Type 0
IsHonestDone file (on_file outcome) = IsHonest file outcome
IsHonestDone file (workers_run run) = Unit

-- A command other than `worker`, whatever lock it meets, raises and leaves the file as it was; or
-- exits with 1, says that there is no file or no failed task with the id, and leaves the file as it
-- was; or exits with 0, and says neither.
pub run_command-IsHonest :
    (call : Call) (command : Command) → IsHonestDone call.file (run_command call command)
unfolding run_command cmd_status cmd_dlq_list cmd_dlq_replay cmd_purge
run_command-IsHonest call (worker options) = tt
run_command-IsHonest call status =
    on_database-IsHonest call.lock _ call.file λ db. with_tasks db _ λ rows e. inl (refl, refl)
run_command-IsHonest call dlq_list = on_database-IsHonest call.lock _ call.file λ db.
    with_tasks db _ λ rows e. inl (refl, listing_fits (order_by_finished (select is_failed rows)))
run_command-IsHonest call (dlq_replay tid) =
    on_database-IsHonest call.lock _ call.file
      λ db. with_tasks db _ λ rows e. replay_honest db tid rows e
run_command-IsHonest call (purge older_than include_failed) =
    on_database-IsHonest call.lock _ call.file λ db. with_tasks db _ λ rows e. inl (refl, refl)
