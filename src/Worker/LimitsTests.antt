-- ===== src/Worker/LimitsTests.antt =====
-- Two workers over SQLite that share a table.
use miniq.Base.{ℕ, refl, pos, arith, List, [], ◌∷◌, ℤ}
use miniq.Values.{Value}
use miniq.Task.{TaskId}
use miniq.Sqlite.{free}
use miniq.Worker.{Worker}
use miniq.Worker.Persistent.{Process, Turn, turn_worker, run_turns}
use miniq.SqliteQueue.Limits.{WithinLimits}
use miniq.Worker.Limits.{KeepsOthers, CallKeeps, run_turns-WithinLimits}
use miniq.Worker.SqliteTests.{serializer, pass, quiet, process, always, registry, call_raises, text}

-- Two turns of a worker: the first sweeps the expired claim, claims the task and puts it back.
-- During its second turn another worker has a turn.
abbrev open_turn : Turn
open_turn = record {
  now = pos 42;
  called_at = pos 40;
  passes = record pass { reclaim_lock = free } ∷ [];
  others = quiet;
}

abbrev three : TaskId → ℤ
three tid = pos 3

abbrev a_worker : Turn → Worker Process ℕ
a_worker = turn_worker serializer (pos 30) (pos 1) always registry call_raises text text

raises_keeps :
    (f : ℕ) (args : List Value) (kwargs : Value) (w : Process)
    → CallKeeps serializer three w (call_raises f args kwargs w).1
raises_keeps f args kwargs w = (λ h. h, λ r h. h)

quiet_keeps : KeepsOthers serializer three (pos 30) open_turn
quiet_keeps = (λ rows h. h, ((λ rows h. h, λ rows h. h, λ rows h. h), tt))

abbrev shared_turn : Turn
shared_turn = record open_turn {
  now = pos 60;
  called_at = pos 50;
  others = record quiet {
    before_end = λ rows.
        let after = run_turns a_worker (open_turn ∷ []) (record process { tasks = rows }) in
        after.1.tasks;
  };
}

worker_keeps : KeepsOthers serializer three (pos 30) shared_turn
worker_keeps = (
  λ rows h.
      run_turns-WithinLimits serializer three (pos 30) (pos 1) always registry call_raises text text
        raises_keeps (open_turn ∷ []) (record process { tasks = rows }) (quiet_keeps, tt) h,
  quiet_keeps.1,
)

retry_limits_example :
    WithinLimits serializer three
      (run_turns a_worker (open_turn ∷ shared_turn ∷ []) process).1.tasks
retry_limits_example =
    run_turns-WithinLimits serializer three (pos 30) (pos 1) always registry call_raises text text
      raises_keeps (open_turn ∷ shared_turn ∷ []) process (quiet_keeps, (worker_keeps, tt))
      ((refl, omega arith), tt)
