-- ===== src/Results/Laws.antt =====
-- `store` and `get`.
use miniq.Base.{
  false, pos, ◌≡◌, ◌≢◌, refl, ap, sym, inl, inr, Bool-cases, ==_iff, ◌∙◌, Option, none, some, [],
  ◌∷◌, if◌then◌else◌, ◌==◌, arith, lookup-insert,
}
use miniq.Values.{Value, null, dict, end}
use miniq.Exceptions.{Result, ok, err, ◌>>=◌}
use miniq.Task.{Task, TaskId, TaskStatus, pending, running, success, failed, Time}
use miniq.Heap.{Ref, Heap}
use miniq.Serializers.{Bytes, Serializer}
use miniq.Sqlite.{Lock, free, transaction}
use miniq.Sqlite.Atomic.{transaction_table}
use miniq.Results.{
  MemoryResults, store_memory, get_memory, ResultRow, ResultTable, replace_row, find_result,
  result_row, result_blob, write_result, store, decode_result, result_to_task, found_task, get,
}

pub get_memory-store_memory :
    (heap : Heap) (r : Ref) (tid : TaskId) (results : MemoryResults)
    → get_memory tid (store_memory heap r results)
      ≡ (if tid == (heap.cell r).id then some r else get_memory tid results)
unfolding get_memory store_memory
get_memory-store_memory heap r tid results = lookup-insert tid (heap.cell r).id r results

find_result-replace_row_self :
    (row : ResultRow) (rows : ResultTable) → find_result row.id (replace_row row rows) ≡ some row
unfolding find_result replace_row
find_result-replace_row_self row [] = ground arith
find_result-replace_row_self row (r ∷ rows) = ground (arith, find_result-replace_row_self row rows)

find_result-replace_row_other :
    (tid : TaskId) (row : ResultRow) (rows : ResultTable)
    → tid ≢ row.id
    → find_result tid (replace_row row rows) ≡ find_result tid rows
unfolding find_result replace_row
find_result-replace_row_other tid row [] ne = ground arith
find_result-replace_row_other tid row (r ∷ rows) ne =
    ground (arith, find_result-replace_row_other tid row rows)

-- What is left of a task that `task_results` kept: the other fields have their defaults.
abbrev pub restored : Time → Task → Task
restored now task = record task {
  args = [];
  kwargs = dict end;
  retries = pos 0;
  max_retries = pos 0;
  priority = pos 0;
  created_at = now;
  started_at = none;
  available_at = none;
}

module _ (serializer : Serializer) where
  open serializer use {serialize, deserialize}

  -- The result of a successful task is serialized, and reads back the same; another has none.
  abbrev pub Stores : TaskStatus → Value → Option Bytes → Type 0
  Stores success v (some blob) = (serialize v ≡ ok blob) × (deserialize blob ≡ ok v)
  Stores success v none = ⊥
  Stores _ v (some blob) = ⊥
  Stores _ v none = v ≡ null

  blob_written :
      (status : TaskStatus) (v : Value) (blob : Option Bytes)
      → Stores status v blob
      → (result_blob serializer status v ≡ ok blob) × (decode_result serializer blob ≡ ok v)
  blob_written success v (some blob) (s, d) = (rw s refl, d)
  blob_written success v none h = absurd h
  blob_written pending v none h = (refl, rw h refl)
  blob_written running v none h = (refl, rw h refl)
  blob_written failed v none h = (refl, rw h refl)
  blob_written pending v (some blob) h = absurd h
  blob_written running v (some blob) h = absurd h
  blob_written failed v (some blob) h = absurd h

  replaced :
      (row : ResultRow) (rows : ResultTable)
      → transaction false free (λ t. ok (tt, replace_row row t)) rows
        ≡ (ok (tt {0}), replace_row row rows)
  unfolding transaction
  replaced row rows = refl

  stored_row :
      (now : Time) (task : Task) (rows : ResultTable) (blob : Option Bytes)
      → Stores task.status task.result blob
      → store serializer free now task rows
        ≡ (ok tt, replace_row (result_row serializer task blob now) rows)
  unfolding store
  stored_row now task rows blob h =
      rw (store, (blob_written task.status task.result blob h).0)
        (replaced (result_row serializer task blob now) rows)

  decoded_result :
      (now now' : Time) (task : Task) (blob : Option Bytes)
      → Stores task.status task.result blob
      → result_to_task serializer now' (result_row serializer task blob now)
        ≡ ok (restored now' task)
  unfolding result_to_task result_row
  decoded_result now now' task blob h =
      rw ((blob_written task.status task.result blob h).1, ◌>>=◌) refl

  pub get-replace_row :
      (now now' : Time) (task : Task) (rows : ResultTable) (blob : Option Bytes)
      → Stores task.status task.result blob
      → get serializer now' task.id (replace_row (result_row serializer task blob now) rows)
        ≡ ok (some (restored now' task))
  unfolding get result_row
  get-replace_row now now' task rows blob h =
      ap (found_task serializer now')
        (find_result-replace_row_self (result_row serializer task blob now) rows)
      ∙ rw (decoded_result now now' task blob h, ◌>>=◌) refl

  get-store :
      (now now' : Time) (task : Task) (rows : ResultTable) (blob : Option Bytes)
      → Stores task.status task.result blob
      → (rows' : ResultTable) × (store serializer free now task rows ≡ (ok tt, rows'))
        × (get serializer now' task.id rows' ≡ ok (some (restored now' task)))
  get-store now now' task rows blob h =
      (_, stored_row now task rows blob h, get-replace_row now now' task rows blob h)

  -- whatever the lock, and also where the store raises
  get-store_other :
      (lock : Lock) (now now' : Time) (task : Task) (rows : ResultTable) (tid : TaskId)
      → tid ≢ task.id
      → get serializer now' tid (store serializer lock now task rows).1
        ≡ get serializer now' tid rows
  unfolding get store result_row
  get-store_other lock now now' task rows tid ne =
      ap (found_task serializer now') (go (result_blob serializer task.status task.result))
    where
      go :
          (blob : Result (Option Bytes))
          → find_result tid (write_result serializer lock task now blob rows).1
            ≡ find_result tid rows
      go (err e) = refl
      go (ok blob) =
          transaction_table false lock _ rows (λ t. find_result tid t ≡ find_result tid rows) refl
            λ a rows' e.
              let same : rows' ≡ replace_row (result_row serializer task blob now) rows = cc in
              rw same (find_result-replace_row_other tid _ rows ne)

  -- A SQLite `store` that meets no lock, of a task whose result reads back the same if it was
  -- successful, and which has no result otherwise: after it `get` returns for the task's id the
  -- task, with its id, path, status, result, error and finish time, and the defaults elsewhere, and
  -- for any other id what it returned before.
  pub get-store_all :
      (now now' : Time) (task : Task) (rows : ResultTable) (blob : Option Bytes)
      → Stores task.status task.result blob
      → (rows' : ResultTable) × (store serializer free now task rows ≡ (ok tt, rows'))
        × ((tid : TaskId)
            → get serializer now' tid rows' ≡ (
                if tid == task.id
                then ok (some (restored now' task))
                else get serializer now' tid rows))
  get-store_all now now' task rows blob h =
      let (rows', stored, self) = get-store now now' task rows blob h in
      (
        rows',
        stored,
        λ tid. elim (Bool-cases (tid == task.id)) [
          | inl e ↦ rw (e, (==_iff tid task.id).0 e) self
          | inr e ↦ rw e (
              ap (λ o. get serializer now' tid o.1) (sym stored)
              ∙ get-store_other free now now' task rows tid (ground arith))
        ],
      )
