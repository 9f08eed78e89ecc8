-- ===== src/Files/Tests.antt =====
-- A file that does not exist yet, and three connections that set it up.
use miniq.Base.{◌≡◌, refl, true, pos, Option, none, some, List, [], ◌∷◌, ◌++◌}
use miniq.Exceptions.{ok, err, operational_error}
use miniq.Sqlite.{free, transaction}
use miniq.Cli.{Database, on_database, cmd_status}
use miniq.Cli.Main.{purge, run_command}
use miniq.Cli.RunWorkers.{Run, WorkerOptions}
use miniq.Files.{unlocked, before_table, after_table, create_table, new_queue, new_results}
use miniq.Files.Ready.{
  SetUp, set_up_queue, set_up_results, after_set_up, after_set_ups, IsSame, Returns,
  after_set_ups-IsReady,
}

-- The results come first, and one queue meets a lock.
abbrev before : List SetUp
before = set_up_results unlocked ∷ set_up_queue before_table ∷ []

abbrev after : List SetUp
after = set_up_results after_table ∷ []

abbrev file : Option Database
file = after_set_ups (before ++ (set_up_queue unlocked ∷ after)) none

set_up : file ≡ some (record { tasks = some []; results = some [] })
unfolding after_set_ups after_set_up new_queue new_results create_table
set_up = refl

-- Before that, the file has no table `tasks`.
unready :
    cmd_status free (after_set_ups before none) ≡ (err operational_error, after_set_ups before none)
unfolding cmd_status on_database transaction after_set_ups after_set_up new_queue new_results
    create_table
unready = refl

abbrev no_workers : WorkerOptions → Run
no_workers options = (ok 0, ([], pos 0))

ready_example :
    IsSame none file
    × Returns (
        run_command
          (record { lock = free; now = pos 9; file = file; run_workers = no_workers })
          (purge (pos 3) true))
ready_example = after_set_ups-IsReady before after none (pos 9) no_workers (purge (pos 3) true)
