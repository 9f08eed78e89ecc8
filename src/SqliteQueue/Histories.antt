-- ===== src/SqliteQueue/Histories.antt =====
-- Any sequence of calls of SQLiteQueue of src/miniq/queue/sqlite.py, by any number of processes:
-- what becomes of one task.
use miniq.Base.{
  ◌≡◌, ◌≢◌, refl, sym, ap, ◌∙◌, inl, inr, true, false, Option-cases, none, some, List, [], ◌∷◌, All,
  arith,
}
use miniq.Task.{Task, TaskId}
use miniq.Serializers.{Serializer}
use miniq.Sqlite.{free, transaction}
use miniq.SqliteQueue.{Row, Table, has_id, update_where, finish_row, requeue_row, ack, nack}
use miniq.SqliteQueue.Rows.{find_row, IsTable, KeepsId, updated, find_row-update_where, find_row-id}
use miniq.SqliteQueue.Events.{
  Event, enqueues, claims, reclaims, acks, nacks, after_event, after_events, after_event-IsTable,
}
use miniq.SqliteQueue.Phases.{
  Phase, absent, waiting, ended, phase_in, phase, IsEnding, IsCall, IsStep,
}
use miniq.SqliteQueue.Lifecycle.{after_event-IsStep, ending}

-- The phases that a sequence of calls may lead to.
data Reaches (tid : TaskId) : Phase → List Event → Phase → Type 0 where
  stop : {p : Phase} → Reaches tid p [] p
  go :
      {p q r : Phase} {event : Event} {events : List Event}
      → IsStep tid event p q
      → Reaches tid q events r
      → Reaches tid p (event ∷ events) r

-- A call that does not put the task back.
abbrev pub NotRequeued : TaskId → Event → Type 0
NotRequeued tid (nacks _ task true) = task.id ≢ tid
NotRequeued tid _ = Unit

module _ (tid : TaskId) where
  step_present : (event : Event) (p q : Phase) → IsStep tid event p q → p ≢ absent → q ≢ absent
  step_present event p q (inl same) there e = there (sym same ∙ e)
  step_present (enqueues _ task) p q (inr (_, _, e')) there e = cc
  step_present (claims _ v now) p q (inr (_, e')) there e = cc
  step_present (reclaims _ now) p q (inr (_, _, _, e')) there e = cc
  step_present (acks _ task) p q (inr (_, _, e')) there e = cc
  step_present (nacks _ task true) p q (inr (_, _, e')) there e = cc
  step_present (nacks _ task false) p q (inr (_, _, e')) there e = cc

  step_ended :
      (event : Event) (p q : Phase)
      → IsStep tid event p q
      → NotRequeued tid event
      → p ≡ ended
      → q ≡ ended
  step_ended event p q (inl same) kept e = same ∙ e
  step_ended (enqueues _ task) p q (inr (_, e', _)) kept e = cc
  step_ended (claims _ v now) p q (inr (e', _)) kept e = cc
  step_ended (reclaims _ now) p q (inr (_, e', _, _)) kept e = cc
  step_ended (acks _ task) p q (inr (_, _, e')) kept e = e'
  step_ended (nacks _ task true) p q (inr (e', _, _)) kept e = absurd (kept e')
  step_ended (nacks _ task false) p q (inr (_, _, e')) kept e = e'

  Reaches-present :
      {p r : Phase} {events : List Event} → Reaches tid p events r → p ≢ absent → r ≢ absent
  Reaches-present stop there = there
  Reaches-present (go {p} {q} {r} {event} s rest) there =
      Reaches-present rest (step_present event p q s there)

  Reaches-ended :
      {p r : Phase} {events : List Event}
      → Reaches tid p events r
      → All (NotRequeued tid) events
      → p ≡ ended
      → r ≡ ended
  Reaches-ended stop kept e = e
  Reaches-ended (go {p} {q} {r} {event} s rest) kept e =
      Reaches-ended rest kept.1 (step_ended event p q s kept.0 e)

module _ (serializer : Serializer) (tid : TaskId) where
  after_events-Reaches :
      (events : List Event) (rows : Table)
      → IsTable rows
      → All IsCall events
      → Reaches tid (phase tid rows) events (phase tid (after_events serializer events rows))
  unfolding after_events
  after_events-Reaches [] rows h c = stop
  after_events-Reaches (event ∷ events) rows h c =
      go (after_event-IsStep serializer event rows tid h c.0) (
        after_events-Reaches events (after_event serializer event rows)
          (after_event-IsTable serializer event rows h) c.1)

  -- A task in a table that holds each id once is in it after any sequence of calls of the queue, in
  -- which tasks are PENDING when enqueued and have ended when acked or nacked for good, whatever
  -- locks they meet, and wherever they raise: no task is lost.
  pub never_lost :
      (events : List Event) (rows : Table)
      → IsTable rows
      → All IsCall events
      → phase tid rows ≢ absent
      → phase tid (after_events serializer events rows) ≢ absent
  never_lost events rows h c = Reaches-present tid (after_events-Reaches events rows h c)

  -- A task that has ended stays so over any such sequence of calls in which no `nack` requeues it.
  pub stays_ended :
      (events : List Event) (rows : Table)
      → IsTable rows
      → All IsCall events
      → All (NotRequeued tid) events
      → phase tid rows ≡ ended
      → phase tid (after_events serializer events rows) ≡ ended
  stays_ended events rows h c kept = Reaches-ended tid (after_events-Reaches events rows h c) kept

-- An UPDATE of the row of a task that is in the table.
update_present :
    (tid : TaskId) (rows : Table) (f : Row → Row) (keeps : KeepsId f) (q : Phase)
    → ((row : Row) → phase_in (some (f row)) ≡ q)
    → phase tid rows ≢ absent
    → phase tid (update_where (has_id tid) f rows) ≡ q
update_present tid rows f keeps q after there =
    ap phase_in (find_row-update_where (has_id tid) f keeps tid rows)
    ∙ elim (Option-cases (find_row tid rows)) [
      | inl e ↦ absurd (there (ap phase_in e))
      | inr (row, e) ↦
          let met : has_id tid row ≡ true = ground (arith, find_row-id tid rows row e) in
          rw (e, updated, met) (after row)
    ]

ended_present : {p : Phase} → p ≡ ended → p ≢ absent
ended_present e e' = cc

-- Of one task, `done` is the object of the worker that acks it, and `late` that of a worker whose
-- claim has expired before. Where no lock is met and the task is in the table, the late worker's
-- `nack` with `requeue` makes the task wait again, though it has ended.
pub late_nack_revives :
    (rows : Table) (done late : Task)
    → IsEnding done.status
    → late.id ≡ done.id
    → phase done.id rows ≢ absent
    → let acked = (ack free done rows).1 in
      (phase done.id acked ≡ ended) × (phase done.id (nack free late true acked).1 ≡ waiting)
unfolding ack nack transaction
late_nack_revives rows done late ends same there =
    let acked =
      update_present done.id rows (finish_row done) (λ _. refl) ended
        (λ row. ending done.id rows done.status none ends) there in
    (
      acked,
      ap
            (λ i. phase done.id (
              update_where (has_id i) (requeue_row late)
                (update_where (has_id done.id) (finish_row done) rows)))
            same
          ∙ update_present done.id (update_where (has_id done.id) (finish_row done) rows)
              (requeue_row late) (λ _. refl) waiting (λ row. refl) (ended_present acked),
    )
