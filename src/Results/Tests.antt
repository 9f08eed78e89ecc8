-- ===== src/Results/Tests.antt =====
-- The result backends on concrete tasks.
use miniq.Base.{
  ◌≡◌, refl, inl, inr, pos, none, some, List, [], ◌∷◌, if◌then◌else◌, ◌==◌, ◌+ℤ◌, ◌-ℤ◌, ◌≤ℤ◌,
  int_laws,
}
use miniq.Values.{Value, dict, end, null}
use miniq.Exceptions.{Result, ok, err, type_error}
use miniq.Task.{Task, TaskId, TaskStatus, success, running}
use miniq.Heap.{Heap}
use miniq.Serializers.{Bytes, Serializer}
use miniq.Sqlite.{free}
use miniq.Results.{ResultTable, store, get, Look, ended, wait_loop, wait}
use miniq.Results.Laws.{restored, get-store_all}
use miniq.Results.Wait.{IsOutcome, wait-IsOutcome}

-- A serializer of null alone.
abbrev serialize : Value → Result Bytes
serialize null = ok (7 ∷ [])
serialize _ = err type_error

abbrev serializer : Serializer
serializer = record { serialize = serialize; deserialize = λ blob. ok null }

-- A task with this id and status, that has ended at 9.
abbrev task_of : TaskId → TaskStatus → Task
task_of i status = record {
  func_path = "tasks.add";
  args = [];
  kwargs = dict end;
  id = i;
  status = status;
  retries = pos 0;
  max_retries = pos 3;
  priority = pos 0;
  created_at = pos 1;
  started_at = some (pos 3);
  finished_at = some (pos 9);
  available_at = none;
  result = null;
  error = none;
}

abbrev heap : Heap
heap = record { cell = λ r. task_of r success; next = 5 }

store_example :
    (rows' : ResultTable) × (store serializer free (pos 10) (task_of 4 success) [] ≡ (ok tt, rows'))
    × ((tid : TaskId)
        → get serializer (pos 20) tid rows' ≡ (
            if tid == 4
            then ok (some (restored (pos 20) (task_of 4 success)))
            else get serializer (pos 20) tid []))
store_example =
    get-store_all serializer (pos 10) (pos 20) (task_of 4 success) [] (some (7 ∷ [])) (refl, refl)

abbrev looks : List Look
looks =
    record { seen = ok (some (task_of 4 running)); checked_at = pos 11 }
    ∷ record { seen = ok (some (task_of 4 success)); checked_at = pos 12 }
    ∷ record { seen = ok none; checked_at = pos 40 }
    ∷ []

waited : wait 4 (some (pos 20)) (pos 10) looks ≡ ended (ok (task_of 4 success))
unfolding wait wait_loop ◌+ℤ◌ ◌-ℤ◌
waited = refl

due : (pos 10 +ℤ pos 20) ≤ℤ pos 40
due = grind int_laws

wait_example :
    (r : Result Task) × (wait 4 (some (pos 20)) (pos 10) looks ≡ ended r)
    × IsOutcome 4 (pos 20) (some (pos 10 +ℤ pos 20)) looks r
wait_example = wait-IsOutcome 4 (pos 20) (pos 10) looks (inr (inr (inl due)))
