-- ===== src/Files/Ready.antt =====
-- A file on which connections have set up the queue and the results, of src/miniq/queue/sqlite.py
-- and src/miniq/results.py, with the commands of src/miniq/cli.py.
use miniq.Base.{ℕ, ◌≡◌, refl, ◌∙◌, Option, none, some, List, [], ◌∷◌, ◌++◌}
use miniq.Exceptions.{ok}
use miniq.Task.{Time}
use miniq.Sqlite.{free, transaction}
use miniq.SqliteQueue.{Table}
use miniq.Results.{ResultTable}
use miniq.Cli.{Database, on_database, cmd_status, cmd_dlq_list, cmd_dlq_replay, cmd_purge}
use miniq.Cli.RunWorkers.{WorkerOptions, Run}
use miniq.Cli.Main.{
  Command, worker, status, dlq_list, dlq_replay, purge, run_command, exit_code, on_file, Done,
  workers_run,
}
use miniq.Files.{
  SetUpLock, unlocked, before_table, after_table, create_table, open_connection, new_queue,
  new_results,
}

-- A connection's set-up, with the lock that it meets.
pub data SetUp : Type 0 where
  set_up_queue set_up_results : SetUpLock → SetUp

unfoldable pub after_set_up : SetUp → Option Database → Option Database
after_set_up (set_up_queue lock) file = (new_queue lock file).1
after_set_up (set_up_results lock) file = (new_results lock file).1

-- Set-ups one after the other.
unfoldable pub after_set_ups : List SetUp → Option Database → Option Database
after_set_ups [] file = file
after_set_ups (s ∷ ss) file = after_set_ups ss (after_set_up s file)

abbrev pub rows_of : {A : Type 0} → Option (List A) → List A
rows_of none = []
rows_of (some rows) = rows

abbrev pub tasks_in : Option Database → Table
tasks_in file = rows_of (open_connection file).tasks

abbrev pub results_in : Option Database → ResultTable
results_in file = rows_of (open_connection file).results

rows_of-create_table : {A : Type 0} (o : Option (List A)) → rows_of (create_table o) ≡ rows_of o
unfolding create_table
rows_of-create_table none = refl
rows_of-create_table (some rows) = refl

create_table_rows : {A : Type 0} (o : Option (List A)) → create_table o ≡ some (rows_of o)
unfolding create_table
create_table_rows none = refl
create_table_rows (some rows) = refl

-- The rows of both tables of a file are those of another.
abbrev pub IsSame : (file file' : Option Database) → Type 0
IsSame file file' = (tasks_in file' ≡ tasks_in file) × (results_in file' ≡ results_in file)

after_set_up-IsSame : (s : SetUp) (file : Option Database) → IsSame file (after_set_up s file)
unfolding after_set_up new_queue new_results
after_set_up-IsSame (set_up_queue unlocked) file = (rows_of-create_table _, refl)
after_set_up-IsSame (set_up_queue before_table) file = (refl, refl)
after_set_up-IsSame (set_up_queue after_table) file = (rows_of-create_table _, refl)
after_set_up-IsSame (set_up_results unlocked) file = (refl, rows_of-create_table _)
after_set_up-IsSame (set_up_results before_table) file = (refl, refl)
after_set_up-IsSame (set_up_results after_table) file = (refl, rows_of-create_table _)

after_set_ups-IsSame :
    (ss : List SetUp) (file : Option Database) → IsSame file (after_set_ups ss file)
unfolding after_set_ups
after_set_ups-IsSame [] file = (refl, refl)
after_set_ups-IsSame (s ∷ ss) file =
    let (t, r) = after_set_up-IsSame s file in
    let (t', r') = after_set_ups-IsSame ss (after_set_up s file) in (t' ∙ t, r' ∙ r)

some-rows_of :
    {A : Type 0} (o : Option (List A)) {rows : List A} → o ≡ some rows → o ≡ some (rows_of o)
some-rows_of none e = absurd cc
some-rows_of (some rows) e = refl

-- The file is there with its table `tasks`.
pub data HasTasks : Option Database → Type 0 where
  there : (db : Database) → db.tasks ≡ some (rows_of db.tasks) → HasTasks (some db)

set_up_queue-HasTasks :
    (file : Option Database) → HasTasks (after_set_up (set_up_queue unlocked) file)
unfolding after_set_up new_queue
set_up_queue-HasTasks file =
    there _ (some-rows_of _ (create_table_rows (open_connection file).tasks))

after_set_up-HasTasks :
    (s : SetUp) (file : Option Database) → HasTasks file → HasTasks (after_set_up s file)
unfolding after_set_up new_queue new_results
after_set_up-HasTasks (set_up_queue unlocked) file h = set_up_queue-HasTasks file
after_set_up-HasTasks (set_up_queue before_table) file (there db e) = there db e
after_set_up-HasTasks (set_up_queue after_table) file h = set_up_queue-HasTasks file
after_set_up-HasTasks (set_up_results unlocked) file (there db e) = there _ e
after_set_up-HasTasks (set_up_results before_table) file (there db e) = there db e
after_set_up-HasTasks (set_up_results after_table) file (there db e) = there _ e

after_set_ups-HasTasks :
    (ss : List SetUp) (file : Option Database) → HasTasks file → HasTasks (after_set_ups ss file)
unfolding after_set_ups
after_set_ups-HasTasks [] file h = h
after_set_ups-HasTasks (s ∷ ss) file h =
    after_set_ups-HasTasks ss (after_set_up s file) (after_set_up-HasTasks s file h)

after_set_ups-++ :
    (ss ts : List SetUp) (file : Option Database)
    → after_set_ups (ss ++ ts) file ≡ after_set_ups ts (after_set_ups ss file)
unfolding after_set_ups
after_set_ups-++ [] ts file = refl
after_set_ups-++ (s ∷ ss) ts file = after_set_ups-++ ss ts (after_set_up s file)

-- A command on a file that raises nothing.
abbrev pub Returns : Done → Type 0
Returns (on_file outcome) = (n : ℕ) × (exit_code (on_file outcome) ≡ ok n)
Returns (workers_run run) = Unit

run_command-Returns :
    (now : Time) (run_workers : WorkerOptions → Run) (command : Command) (file : Option Database)
    → HasTasks file
    → Returns (
        run_command
          (record { lock = free; now = now; file = file; run_workers = run_workers })
          command)
unfolding run_command cmd_status cmd_dlq_list cmd_dlq_replay cmd_purge on_database transaction
run_command-Returns now run_workers (worker options) file h = tt
run_command-Returns now run_workers status file (there db e) = rw e (_, refl)
run_command-Returns now run_workers dlq_list file (there db e) = rw e (_, refl)
run_command-Returns now run_workers (dlq_replay tid) file (there db e) = rw e (_, refl)
run_command-Returns now run_workers (purge older_than include_failed) file (there db e) =
    rw e (_, refl)

-- Queues and results backends are set up on a file one after the other, and each may fail on a
-- lock. Then the rows of both tables are those that the file had, none where it had no table or was
-- not there. Where one queue among them has met no lock, a command other than `worker` that meets
-- no lock raises nothing.
pub after_set_ups-IsReady :
    (before after : List SetUp) (file : Option Database) (now : Time)
    (run_workers : WorkerOptions → Run) (command : Command)
    → let file' = after_set_ups (before ++ (set_up_queue unlocked ∷ after)) file in
      IsSame file file'
      × Returns (
          run_command
            (record { lock = free; now = now; file = file'; run_workers = run_workers })
            command)
unfolding after_set_ups
after_set_ups-IsReady before after file now run_workers command =
    let ss = before ++ (set_up_queue unlocked ∷ after) in
    let before' = after_set_ups before file in
    let at_queue = set_up_queue-HasTasks before' in
    (
      after_set_ups-IsSame ss file,
      run_command-Returns now run_workers command _ (
          rw (after_set_ups-++ before (set_up_queue unlocked ∷ after) file)
            (after_set_ups-HasTasks after _ at_queue)),
    )
