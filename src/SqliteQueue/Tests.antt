-- ===== src/SqliteQueue/Tests.antt =====
-- The SQLite queue on concrete rows.
use mathlib.Core.List.{Memᴰ}
use miniq.Base.{
  Any, ℕ, ◌+◌, map, select, ◌≡◌, ◌≢◌, refl, inl, ◌⊎◌, pos, ◌+ℤ◌, true, none, some, [], ◌∷◌, arith,
  int_laws, ◌<ℤ◌, ◌≤◌,
}
use miniq.Values.{Value, Items, Fields, array, dict, nil, end, null}
use miniq.Exceptions.{Result, ok, err, value_error, operational_error}
use miniq.Task.{Task, TaskId, TaskStatus, pending, running}
use miniq.Serializers.{Bytes, Serializer}
use miniq.Sqlite.{Lock, free, at_first, transaction}
use miniq.SqliteQueue.{
  Row, Table, is_claimable, precedes, first_row, is_overdue, reclaim_expired, row_to_task, claim,
  try_claim,
}
use miniq.SqliteQueue.Polling.{Pass, polling, poll, dequeue}
use miniq.SqliteQueue.Choice.{NoneClaimable, IsBest, Claims, Fails, try_claim_cases}
use miniq.SqliteQueue.Rows.{IsTable}
use miniq.SqliteQueue.Events.{reclaims, after_event, after_events}
use miniq.SqliteQueue.Exclusive.{claim_is_exclusive}
use miniq.SqliteQueue.Recovery.{IsQuiet, poll_redelivers, locked_sweep_raises}
use miniq.SqliteQueue.Locks.{SweepIsLocked, dequeue_raises}
use miniq.SqliteQueue.Ends.{dequeue_ends}
use miniq.SqliteQueue.Agreement.{row_at, found_row, first_row-scan}
use miniq.Heap.{Ref, Heap}
use miniq.Memory.{scan}

-- A serializer of no arguments.
abbrev serialize : Value → Result Bytes
serialize (array Items.nil) = ok []
serialize (dict Fields.end) = ok (1 ∷ [])
serialize _ = err value_error

abbrev deserialize : Bytes → Result Value
deserialize [] = ok (array nil)
deserialize _ = ok (dict end)

abbrev pub serializer : Serializer
serializer = record { serialize = serialize; deserialize = deserialize }

-- The task with this id, status and priority.
abbrev pub task_of : TaskId → TaskStatus → ℕ → Task
task_of i status priority = record {
  func_path = "tasks.add";
  args = [];
  kwargs = dict end;
  id = i;
  status = status;
  retries = pos 0;
  max_retries = pos 3;
  priority = pos priority;
  created_at = pos i;
  started_at = none;
  finished_at = none;
  available_at = none;
  result = null;
  error = none;
}

abbrev pub running_task : TaskId → ℕ → ℕ → Task
running_task i priority at = record (task_of i running priority) { started_at = some (pos at) }

abbrev pub waiting_row : TaskId → ℕ → Row
waiting_row i priority = record {
  id = i;
  func_path = "tasks.add";
  args_json = [];
  kwargs_json = 1 ∷ [];
  status = pending;
  retries = pos 0;
  max_retries = pos 3;
  priority = pos priority;
  created_at = pos i;
  started_at = none;
  finished_at = none;
  available_at = none;
  claimed_until = none;
  error = none;
}

abbrev claimed_row : TaskId → ℕ → ℕ → ℕ → Row
claimed_row i priority at until = record (waiting_row i priority) {
  status = running;
  started_at = some (pos at);
  claimed_until = some (pos until);
}

-- Two waiting rows, the second of a higher priority, and one claimed until 50.
abbrev pub rows : Table
rows = waiting_row 10 1 ∷ waiting_row 11 2 ∷ claimed_row 12 1 3 50 ∷ []

abbrev pub rows_after : Table
rows_after = waiting_row 10 1 ∷ claimed_row 11 2 7 37 ∷ claimed_row 12 1 3 50 ∷ []

abbrev rows_at_last : Table
rows_at_last = claimed_row 10 1 8 38 ∷ claimed_row 11 2 7 37 ∷ claimed_row 12 1 3 50 ∷ []

abbrev expired_rows : Table
expired_rows = claimed_row 12 1 3 50 ∷ []

pub rows-IsTable : IsTable rows
rows-IsTable = (refl, (refl, (refl, tt)))

pub first_claim :
    try_claim serializer free (pos 30) (pos 7) rows ≡ (ok (some (running_task 11 2 7)), rows_after)
unfolding try_claim transaction claim first_row is_claimable precedes row_to_task ◌+ℤ◌
first_claim = refl

second_claim :
    try_claim serializer free
      (pos 30)
      (pos 8)
      (after_events serializer (reclaims free (pos 20) ∷ []) rows_after)
    ≡ (ok (some (running_task 10 1 8)), rows_at_last)
unfolding try_claim transaction claim first_row is_claimable precedes row_to_task ◌+ℤ◌ after_events
    after_event reclaim_expired is_overdue
second_claim = refl

spared : pos 20 <ℤ (pos 7 +ℤ pos 30)
spared = grind int_laws

exclusive_example : (running_task 10 1 8).id ≢ (running_task 11 2 7).id
exclusive_example =
    claim_is_exclusive serializer free free (pos 30) (pos 30) (pos 7) (pos 8) rows rows_after
      rows_at_last (running_task 11 2 7) (running_task 10 1 8) (reclaims free (pos 20) ∷ [])
      rows-IsTable first_claim (spared, tt) second_claim

sqlite_claim_example :
    NoneClaimable (pos 7) rows × (try_claim serializer free (pos 30) (pos 7) rows ≡ (ok none, rows))
    ⊎ ((row : Row) × IsBest (pos 7) rows row
        × (Claims serializer (pos 30) (pos 7) rows row
            ⊎ Fails serializer (pos 30) (pos 7) rows row))
sqlite_claim_example = try_claim_cases serializer (pos 30) (pos 7) rows

-- A pass at this time, with this lock at its sweep.
abbrev pass : ℕ → Lock → Pass
pass now lock = record {
  first_lock = free;
  first_at = pos now;
  before_reclaim = λ t. t;
  reclaim_lock = lock;
  reclaim_at = pos now;
  before_second = λ t. t;
  second_lock = free;
  second_at = pos now;
  checked_at = pos now;
  during_sleep = λ t. t;
}

quiet : IsQuiet (pass 60 free)
quiet = record {
  first = refl;
  sweep = refl;
  second = refl;
  before_sweep = λ t. refl;
  after_sweep = λ t. refl;
}

decodes : row_to_task serializer (claimed_row 12 1 3 50) ≡ ok (running_task 12 1 3)
unfolding row_to_task
decodes = refl

overdue : (now : ℕ) → 50 ≤ now → is_overdue (pos now) (claimed_row 12 1 3 50) ≡ true
unfolding is_overdue
overdue now h = ground arith

redelivers_example :
    (task : Task) × ((poll serializer (pos 30) (pass 60 free) expired_rows).0 ≡ ok (some task))
redelivers_example =
    poll_redelivers serializer (pos 30) (pass 60 free) expired_rows {row = claimed_row 12 1 3 50}
      quiet ((running_task 12 1 3, decodes), tt) (Memᴰ.head refl) (overdue 60 (ground arith)) tt

abbrev rows_at_60 : Table
rows_at_60 = waiting_row 10 1 ∷ claimed_row 11 2 60 90 ∷ claimed_row 12 1 3 50 ∷ []

late_claim :
    try_claim serializer free (pos 30) (pos 60) rows
    ≡ (ok (some (running_task 11 2 60)), rows_at_60)
unfolding try_claim transaction claim first_row is_claimable precedes row_to_task ◌+ℤ◌
late_claim = refl

no_claim : try_claim serializer free (pos 30) (pos 60) expired_rows ≡ (ok none, expired_rows)
unfolding try_claim transaction claim first_row is_claimable
no_claim = refl

at_first_ne_free : at_first ≢ free
at_first_ne_free e = cc

locked_sweep :
    dequeue serializer (pos 30) (pos 5) (pos 60) (pass 60 at_first ∷ []) expired_rows
    ≡ (err operational_error, expired_rows)
locked_sweep =
    locked_sweep_raises serializer (pos 30) (pos 5) (pos 60) (pass 60 at_first) [] expired_rows
      no_claim at_first_ne_free

-- The sweep's UPDATE meets the lock, since its BEGIN needs none.
dequeue_raises_example : Any SweepIsLocked (pass 60 at_first ∷ [])
dequeue_raises_example =
    dequeue_raises serializer (pos 30) (pos 5) (pos 60) (pass 60 at_first ∷ []) expired_rows
      expired_rows locked_sweep

dequeue_ends_example :
    (dequeue serializer (pos 30) (pos 0) (pos 60) (pass 60 at_first ∷ []) expired_rows).0
    ≢ ok polling
dequeue_ends_example =
    dequeue_ends serializer (pos 30) (pos 0) (pos 60) (pass 60 at_first ∷ []) expired_rows
      (inl (inl (ground arith)))

-- Three PENDING tasks, of priorities 0, 1 and 2, and their rows.
abbrev three : Heap
three = record { cell = λ r. task_of (10 + r) pending r; next = 3 }

abbrev no_blobs : Ref → Bytes × Bytes
no_blobs r = ([], 1 ∷ [])

agreement_example :
    first_row (select (is_claimable (pos 7)) (map (row_at three no_blobs) (0 ∷ 2 ∷ 1 ∷ [])))
    ≡ found_row three no_blobs (pos 7) (0 ∷ 2 ∷ 1 ∷ []) (scan (pos 7) three 0 (0 ∷ 2 ∷ 1 ∷ []) none)
agreement_example =
    first_row-scan three no_blobs (pos 7) (0 ∷ 2 ∷ 1 ∷ []) (refl, (refl, (refl, tt)))
