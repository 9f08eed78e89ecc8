-- ===== src/Cli/Tests.antt =====
-- The commands on a small file.
use miniq.Base.{
  ℕ, zero, suc, ◌<◌, subst, pos, ◌+ℤ◌, ◌≡◌, refl, All, true, none, some, [], ◌∷◌, arith,
}
use miniq.Exceptions.{ok}
use miniq.Task.{TaskStatus, pending, running, success, failed, TaskId}
use miniq.Sqlite.{free, transaction}
use miniq.SqliteQueue.{Row, Table}
use miniq.SqliteQueue.Rows.{IsTable}
use miniq.Results.{ResultRow}
use miniq.Cli.{
  Database, status_report, groups_of, count_of, report, on_database, count_status, cmd_status,
  cmd_dlq_replay, cmd_purge,
}
use miniq.Cli.Replay.{IsReplay, cmd_dlq_replay-IsReplay}
use miniq.Cli.Purge.{IsPurge, cmd_purge-IsPurge}
use miniq.Pool.{Process, Spawn}
use miniq.Pool.Stop.{DiesOfKill}
use miniq.Pool.Samples.{
  polite, stubborn, polite-DiesOfKill, stubborn-DiesOfKill, no_pause, no_pause-IsNotNegative,
}
use miniq.Cli.Main.{Call, dlq_replay, run_command, IsHonestDone, run_command-IsHonest}
use miniq.Cli.RunWorkers.{WorkerOptions, default_options, cmd_worker, HasRun, cmd_worker-HasRun}
use miniq.Cli.TaskModules.{
  task_modules, split_commas, strip, strip_left, strip_right, is_space, IsModuleName,
  task_modules-IsModuleName,
}

abbrev row_at : TaskId → TaskStatus → ℕ → Row
row_at tid status at = record {
  id = tid;
  func_path = "jobs.send";
  args_json = [];
  kwargs_json = [];
  status = status;
  retries = pos 1;
  max_retries = pos 1;
  priority = pos 0;
  created_at = pos 0;
  started_at = none;
  finished_at = some (pos at);
  available_at = none;
  claimed_until = none;
  error = some "no route";
}

abbrev rows : Table
rows = row_at 1 failed 10 ∷ row_at 2 success 20 ∷ row_at 3 failed 30 ∷ []

abbrev result_at : TaskId → TaskStatus → ℕ → ResultRow
result_at tid status at = record {
  id = tid;
  func_path = "jobs.send";
  status = status;
  result_json = none;
  error = none;
  finished_at = some (pos at);
  stored_at = pos at;
}

abbrev file : Database
file = record { tasks = some rows; results = some (result_at 2 success 20 ∷ []) }

counts : cmd_status free (some file) ≡ (
  ok (0, status_report ((pending, 0) ∷ (running, 0) ∷ (success, 1) ∷ (failed, 2) ∷ []) 3),
  some file,
)
unfolding cmd_status on_database transaction report groups_of count_of count_status
counts = refl

rows-IsTable : IsTable rows
rows-IsTable = (refl, (refl, (refl, tt)))

cmd_dlq_replay_example : IsReplay 3 file rows (cmd_dlq_replay free 3 (some file))
cmd_dlq_replay_example = cmd_dlq_replay-IsReplay 3 file rows refl rows-IsTable

cmd_purge_example :
    IsPurge true (pos 15) (pos 40) file rows (cmd_purge free (pos 15) true (pos 40) (some file))
cmd_purge_example = cmd_purge-IsPurge true (pos 15) (pos 40) file rows refl

-- Two workers, of which one only dies of SIGKILL, and a signal at 100.
abbrev options : WorkerOptions
options = record (default_options (pos 1)) { workers = pos 2 }

abbrev two : Spawn
two zero = ok polite
two (suc i) = ok stubborn

two-dies : (i : ℕ) (p : Process) → two i ≡ ok p → DiesOfKill (pos 1) p
two-dies zero p e = let e' : polite ≡ p = cc in subst (DiesOfKill (pos 1)) e' polite-DiesOfKill
two-dies (suc i) p e =
    let e' : stubborn ≡ p = cc in subst (DiesOfKill (pos 1)) e' stubborn-DiesOfKill

two-starts : (i : ℕ) → i < 2 → (p : Process) × (two i ≡ ok p)
two-starts zero h = (polite, refl)
two-starts (suc i) h = (stubborn, refl)

cmd_worker_example :
    HasRun (pos 100) two options (cmd_worker (pos 1) no_pause (pos 5) (pos 100) two options)
unfolding ◌+ℤ◌
cmd_worker_example =
    cmd_worker-HasRun (pos 1) no_pause (pos 5) (pos 100) (omega arith) no_pause-IsNotNegative two
      options (omega arith) (omega arith) two-starts two-dies

modules : task_modules (some "jobs, ,  mail.tasks ") ≡ "jobs" ∷ "mail.tasks" ∷ []
unfolding task_modules split_commas strip strip_left strip_right is_space
modules = refl

task_modules_example : All IsModuleName (task_modules (some "jobs, ,  mail.tasks "))
task_modules_example = task_modules-IsModuleName (some "jobs, ,  mail.tasks ")

abbrev call : Call
call = record {
  lock = free;
  now = pos 40;
  file = some file;
  run_workers = cmd_worker (pos 1) no_pause (pos 5) (pos 100) two;
}

honest_example : IsHonestDone (some file) (run_command call (dlq_replay 2))
honest_example = run_command-IsHonest call (dlq_replay 2)
