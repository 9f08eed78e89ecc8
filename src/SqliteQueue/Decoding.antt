-- ===== src/SqliteQueue/Decoding.antt =====
-- Rows whose texts decode, also after a sweep.
use miniq.Base.{◌≡◌, refl, inl, inr, List, [], ◌∷◌, All, Bool-cases}
use miniq.Exceptions.{Result, ok, err, ◌>>=◌, or_raise, type_error}
use miniq.Values.{Value, tuple_of}
use miniq.Task.{Task, Time}
use miniq.Serializers.{Serializer}
use miniq.SqliteQueue.{Row, Table, update_where, is_overdue, release_row, row_to_task}

-- Whether a row decodes does not depend on what is built from its texts.
builds_alike :
    (r : Result (List Value)) (r' : Result Value) (build build' : List Value → Value → Task)
    {task : Task}
    → (r >>= λ a. r' >>= λ k. ok (build a k)) ≡ ok task
    → (task' : Task) × ((r >>= λ a. r' >>= λ k. ok (build' a k)) ≡ ok task')
builds_alike (ok a) (ok k) build build' e = (build' a k, refl)
builds_alike (ok a) (err x) build build' e = absurd (cc)
builds_alike (err x) r' build build' e = absurd (cc)

decodes_alike :
    (r r' : Result Value) (build build' : List Value → Value → Task) {task : Task}
    → (r >>= λ d. or_raise (tuple_of d) type_error >>= λ a. r' >>= λ k. ok (build a k)) ≡ ok task
    → (task' : Task) × ((r >>= λ d.
          or_raise (tuple_of d) type_error >>= λ a. r' >>= λ k. ok (build' a k))
        ≡ ok task')
decodes_alike (ok d) r' build build' e =
    builds_alike (or_raise (tuple_of d) type_error) r' build build' e
decodes_alike (err x) r' build build' e = absurd (cc)

module _ (serializer : Serializer) where
  -- The texts of the row decode.
  abbrev pub Decodes : Row → Type 0
  Decodes row = (task : Task) × (row_to_task serializer row ≡ ok task)

  released-Decodes : (row : Row) → Decodes row → Decodes (release_row row)
  unfolding row_to_task
  released-Decodes row (task, e) =
      decodes_alike (serializer.deserialize row.args_json) (serializer.deserialize row.kwargs_json)
        _ _ e

  pub swept-Decodes :
      (now : Time) (rows : Table)
      → All Decodes rows
      → All Decodes (update_where (is_overdue now) release_row rows)
  swept-Decodes now [] h = tt
  swept-Decodes now (row ∷ rows) h = elim (Bool-cases (is_overdue now row)) [
    | inl over ↦ (rw over (released-Decodes row h.0), swept-Decodes now rows h.1)
    | inr live ↦ (rw live h.0, swept-Decodes now rows h.1)
  ]
