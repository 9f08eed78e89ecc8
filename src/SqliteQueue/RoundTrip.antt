-- ===== src/SqliteQueue/RoundTrip.antt =====
-- What `enqueue` writes of a task, `_row_to_task` reads back.
use miniq.Base.{◌≡◌, refl, ap, none, some, List, [], ◌∷◌, ◌++◌, ◌∙◌, arith, false}
use miniq.Values.{Value, null, array, items, values}
use miniq.Exceptions.{ok, ◌>>=◌}
use miniq.Task.{Task}
use miniq.Serializers.{Bytes, Serializer}
use miniq.Sqlite.{free, transaction}
use miniq.SqliteQueue.{Row, Table, exists_id, insert_row, row_of, row_to_task, enqueue, blobs_of}
use miniq.SqliteQueue.Rows.{find_row, find_row-append_new}

values-items : (vs : List Value) → values (items vs) ≡ vs
values-items [] = refl
values-items (v ∷ vs) = ap (λ l. v ∷ l) (values-items vs)

-- The fields of a task that has not started, and that the table keeps.
abbrev pub stored : Task → Task
stored task = record task { started_at = none; finished_at = none; result = null; error = none }

insert_new :
    (row : Row) (rows : Table)
    → exists_id row.id rows ≡ false
    → insert_row row rows ≡ ok (tt, rows ++ row ∷ [])
unfolding insert_row
insert_new row rows new = rw (insert_row, new) refl

pub inserted :
    (row : Row) (rows : Table)
    → exists_id row.id rows ≡ false
    → transaction false free (insert_row row) rows ≡ (ok tt, rows ++ row ∷ [])
unfolding transaction
inserted row rows new =
    ap (λ r. transaction {A = Unit {0}} false free (λ _. r) rows) (insert_new row rows new)

module _ (serializer : Serializer) where
  open serializer use {serialize, deserialize}

  -- The value is serialized, and reads back as `v'`.
  abbrev pub ReadsBack : (v v' : Value) → Type 0
  ReadsBack v v' = (blob : Bytes) × (serialize v ≡ ok blob) × (deserialize blob ≡ ok v')

  abbrev pub RoundTrips : Value → Type 0
  RoundTrips v = ReadsBack v v

  -- The task as it comes back with these arguments.
  abbrev pub stored_with : List Value → Value → Task → Task
  stored_with args kwargs task = record (stored task) { args = args; kwargs = kwargs }

  decoded_as :
      (task : Task) (args : List Value) (kwargs : Value) (a k : Bytes)
      → deserialize a ≡ ok (array (items args))
      → deserialize k ≡ ok kwargs
      → row_to_task serializer (row_of task a k) ≡ ok (stored_with args kwargs task)
  unfolding row_to_task row_of
  decoded_as task args kwargs a k da dk = rw (da, ◌>>=◌, values-items, dk) refl

  pub decoded :
      (task : Task) (a k : Bytes)
      → deserialize a ≡ ok (array (items task.args))
      → deserialize k ≡ ok task.kwargs
      → row_to_task serializer (row_of task a k) ≡ ok (stored task)
  decoded task a k da dk = decoded_as task task.args task.kwargs a k da dk

  pub blobs :
      (task : Task) (a k : Bytes)
      → serialize (array (items task.args)) ≡ ok a
      → serialize task.kwargs ≡ ok k
      → blobs_of serializer task ≡ ok (a, k)
  unfolding blobs_of
  blobs task a k sa sk = rw (sa, ◌>>=◌, sk) refl

  -- The row of an `enqueue` that meets no lock, of a task with a new id.
  pub row_to_task-enqueue_as :
      (task : Task) (rows : Table) (args : List Value) (kwargs : Value)
      → ReadsBack (array (items task.args)) (array (items args))
      → ReadsBack task.kwargs kwargs
      → exists_id task.id rows ≡ false
      → (row : Row) × (rows' : Table) × (enqueue serializer free task rows ≡ (ok tt, rows'))
        × (find_row task.id rows' ≡ some row)
        × (row_to_task serializer row ≡ ok (stored_with args kwargs task))
  unfolding enqueue row_of
  row_to_task-enqueue_as task rows args kwargs (a, sa, da) (k, sk, dk) new = (
    row_of task a k,
    rows ++ row_of task a k ∷ [],
    rw (enqueue, blobs task a k sa sk) (inserted (row_of task a k) rows new),
    find_row-append_new task.id rows (row_of task a k) new ∙ ground arith,
    decoded_as task args kwargs a k da dk,
  )

  -- An `enqueue` that meets no lock, of a task with a new id whose arguments the serializer reads
  -- back, returns, and the row that the id then finds decodes to the task, its tuple of arguments
  -- included; the columns that `enqueue` does not write come back empty.
  pub row_to_task-enqueue :
      (task : Task) (rows : Table)
      → RoundTrips (array (items task.args))
      → RoundTrips task.kwargs
      → exists_id task.id rows ≡ false
      → (row : Row) × (rows' : Table) × (enqueue serializer free task rows ≡ (ok tt, rows'))
        × (find_row task.id rows' ≡ some row)
        × (row_to_task serializer row ≡ ok (stored task))
  row_to_task-enqueue task rows ra rk new =
      row_to_task-enqueue_as task rows task.args task.kwargs ra rk new
