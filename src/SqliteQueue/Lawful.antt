-- ===== src/SqliteQueue/Lawful.antt =====
-- What calls of SQLiteQueue of src/miniq/queue/sqlite.py make of the table in which tasks have the
-- status that belongs to the call, and that its `dequeue` does no more.
use miniq.Base.{
  ◌≡◌, refl, ap, ◌∙◌, inl, inr, Option, none, some, List, [], ◌∷◌, ◌++◌, All, All-append, leb_ℤ,
  pos, ◌-ℤ◌, Bool-cases,
}
use miniq.Exceptions.{Result, ok, err}
use miniq.Task.{Task, Time}
use miniq.Serializers.{Serializer}
use miniq.SqliteQueue.{Table}
use miniq.SqliteQueue.Events.{Event, claims, reclaims, after_event, after_events}
use miniq.SqliteQueue.Phases.{IsCall}
use miniq.SqliteQueue.Polling.{
  Pass, poll, after_first, after_sweep, second_claim, reclaim_and_claim, after_poll, dequeue_loop,
  dequeue,
}

module _ (serializer : Serializer) where
  -- The second table is what such calls have made of the first: a task is PENDING when it is
  -- enqueued, and has ended when it is acked, or nacked for good.
  pub record IsHistory (rows rows' : Table) : Type 0 where
    pub events : List Event
    pub are_calls : All IsCall events
    pub made : rows' ≡ after_events serializer events rows

  pub stay : {rows rows' : Table} → rows' ≡ rows → IsHistory rows rows'
  unfolding after_events
  stay e = record { events = []; are_calls = tt; made = e }

  pub one :
      {rows rows' : Table} (event : Event)
      → IsCall event
      → rows' ≡ after_event serializer event rows
      → IsHistory rows rows'
  unfolding after_events
  one event c e = record { events = event ∷ []; are_calls = (c, tt); made = e }

  after_events-++ :
      (es fs : List Event) (rows : Table)
      → after_events serializer (es ++ fs) rows
        ≡ after_events serializer fs (after_events serializer es rows)
  unfolding after_events
  after_events-++ [] fs rows = refl
  after_events-++ (e ∷ es) fs rows = after_events-++ es fs (after_event serializer e rows)

  pub also :
      {rows rows' rows'' : Table}
      → IsHistory rows rows'
      → IsHistory rows' rows''
      → IsHistory rows rows''
  also {rows} h k = record {
    events = h.events ++ k.events;
    are_calls = All-append IsCall h.events k.events h.are_calls k.are_calls;
    made =
        k.made
        ∙ ap (after_events serializer k.events) h.made
        ∙ rw (after_events-++ h.events k.events rows) refl;
  }

  -- Other connections make such calls alone.
  abbrev pub KeepTo : (Table → Table) → Type 0
  KeepTo f = (rows : Table) → IsHistory rows (f rows)

  module _ (visibility_timeout : Time) where
    -- Other connections make such calls alone during a pass of `dequeue`.
    abbrev pub KeepsTo : Pass → Type 0
    KeepsTo p = KeepTo p.before_reclaim × KeepTo p.before_second × KeepTo p.during_sleep

    poll-IsHistory :
        (p : Pass) (rows : Table)
        → KeepsTo p
        → IsHistory rows (poll serializer visibility_timeout p rows).1
    unfolding poll after_event reclaim_and_claim second_claim
    poll-IsHistory p rows h =
        first _ (one (claims p.first_lock visibility_timeout p.first_at) tt refl)
      where
        swept :
            (x : Result (Unit {0}) × Table)
            → IsHistory rows x.1
            → IsHistory rows (after_sweep serializer visibility_timeout p x).1
        swept (err e, t) k = k
        swept (ok _, t) k =
            also (also k (h.1 t))
              (one (claims p.second_lock visibility_timeout p.second_at) tt refl)

        first :
            (x : Result (Option Task) × Table)
            → IsHistory rows x.1
            → IsHistory rows (after_first serializer visibility_timeout p x).1
        first (err e, t) k = k
        first (ok (some task), t) k = k
        first (ok none, t) k =
            swept _ (also (also k (h.0 t)) (one (reclaims p.reclaim_lock p.reclaim_at) tt refl))

    dequeue_loop-IsHistory :
        (deadline : Option Time) (ps : List Pass) (rows : Table)
        → All KeepsTo ps
        → IsHistory rows (dequeue_loop serializer visibility_timeout deadline ps rows).1
    unfolding dequeue_loop
    dequeue_loop-IsHistory deadline [] rows h = stay refl
    dequeue_loop-IsHistory deadline (p ∷ ps) rows h =
        polled deadline (λ t. dequeue_loop-IsHistory deadline ps t h.1)
          (poll serializer visibility_timeout p rows) (poll-IsHistory p rows h.0)
      where
        polled :
            (deadline' : Option Time)
            → ((t : Table)
                → IsHistory t (dequeue_loop serializer visibility_timeout deadline ps t).1)
            → (x : Result (Option Task) × Table) → IsHistory rows x.1
            → IsHistory rows
                (after_poll serializer visibility_timeout deadline' p
                  (λ t. dequeue_loop serializer visibility_timeout deadline ps t)
                  x).1
        polled d rest (err e, t) k = k
        polled d rest (ok (some task), t) k = k
        polled none rest (ok none, t) k = k
        polled (some d) rest (ok none, t) k =
            elim (Bool-cases (leb_ℤ (d -ℤ p.checked_at) (pos 0))) [
              | inl over ↦ rw over k
              | inr left ↦ rw left (also (also k (h.0.2 t)) (rest _))
            ]

    pub dequeue-IsHistory :
        (wait_seconds called_at : Time) (ps : List Pass) (rows : Table)
        → All KeepsTo ps
        → IsHistory rows (dequeue serializer visibility_timeout wait_seconds called_at ps rows).1
    unfolding dequeue
    dequeue-IsHistory wait_seconds called_at ps rows h = dequeue_loop-IsHistory _ ps rows h
