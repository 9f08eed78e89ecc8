-- ===== src/SqliteQueue/Lifecycle.antt =====
-- SQLiteQueue of src/miniq/queue/sqlite.py against the phases of SqliteQueue/Phases.
use miniq.Base.{
  ◌≡◌, ◌≢◌, refl, sym, ap, ◌∙◌, inl, inr, Bool, true, false, Option, none, some, [], ◌∷◌, ◌++◌,
  arith, Bool-cases, ◌&&◌, leb_ℤ, ◌+ℤ◌, ◌≤ℤ◌, ◌==◌, ==_iff,
}
use miniq.Task.{Task, TaskId, TaskStatus, pending, running, success, failed, Time}
use miniq.Serializers.{Bytes, Serializer}
use miniq.Sqlite.{Lock}
use miniq.SqliteQueue.{
  Row, Table, has_id, has_status, exists_id, update_where, row_of, is_claimable, is_overdue,
  claim_row, release_row, finish_row, requeue_row, reclaim_expired, ack, nack,
}
use miniq.SqliteQueue.Choice.{IsBest}
use miniq.SqliteQueue.Rows.{
  find_row, IsTable, KeepsId, updated, find_row-update_where, find_row-append_new, find_row-id,
}
use miniq.SqliteQueue.Phases.{
  Phase, absent, waiting, ended, leased, phase_at, phase_in, phase, IsEnding, IsCall, IsStep,
  IsGuardedStep, guard-IsGuardedStep,
}
use miniq.SqliteQueue.Exclusive.{find_row-mem}
use miniq.SqliteQueue.Events.{
  Event, enqueues, claims, reclaims, acks, nacks, after_event, enqueue_row_table, try_claim_table,
  update_table,
}

module _ (tid : TaskId) (rows : Table) where
  -- An UPDATE leaves the phase, or changes it as it changes the task's row.
  pub update_phase :
      (test : Row → Bool) (f : Row → Row) (keeps : KeepsId f) (Q : Phase → Phase → Type 0)
      → ((p : Phase) → Q p p)
      → ((row : Row)
          → find_row tid rows ≡ some row
          → test row ≡ true
          → Q (phase_in (some row)) (phase_in (some (f row))))
      → Q (phase tid rows) (phase tid (update_where test f rows))
  update_phase test f keeps Q stay hit =
      rw (find_row-update_where test f keeps tid rows) (by_found (find_row tid rows) refl)
    where
      by_found :
          (found : Option Row)
          → find_row tid rows ≡ found
          → Q (phase_in found) (phase_in (updated test f keeps found))
      by_found none e = stay absent
      by_found (some row) e = elim (Bool-cases (test row)) [
        | inl met ↦ rw met (hit row e met)
        | inr passed ↦ rw passed (stay (phase_in (some row)))
      ]

  pub present : (row : Row) → phase_in (some row) ≢ absent
  present row = by_status row.status row.claimed_until
    where
      by_status : (s : TaskStatus) (until : Option Time) → phase_at s until ≢ absent
      by_status pending until e = cc
      by_status running until e = cc
      by_status success until e = cc
      by_status failed until e = cc

  pub ending :
      (status : TaskStatus) (until : Option Time) → IsEnding status → phase_at status until ≡ ended
  ending status until (inl e) = rw e refl
  ending status until (inr e) = rw e refl

  -- An `ack`, or a `nack` for good.
  finish_step :
      (task : Task) (Q : Phase → Phase → Type 0)
      → IsEnding task.status
      → ((p : Phase) → Q p p)
      → ((p : Phase) → task.id ≡ tid → p ≢ absent → Q p ended)
      → Q (phase tid rows) (phase tid (update_where (has_id task.id) (finish_row task) rows))
  finish_step task Q e stay change =
      update_phase (has_id task.id) (finish_row task) (λ _. refl) Q stay
        λ row found met.
          rw (ending task.status none e)
            (change (phase_in (some row)) (same row found met) (present row))
    where
      same : (row : Row) → find_row tid rows ≡ some row → has_id task.id row ≡ true → task.id ≡ tid
      same row found met = ground (arith, find_row-id tid rows row found)

  requeue_step :
      (task : Task) (Q : Phase → Phase → Type 0)
      → ((p : Phase) → Q p p)
      → ((p : Phase) → task.id ≡ tid → p ≢ absent → Q p waiting)
      → Q (phase tid rows) (phase tid (update_where (has_id task.id) (requeue_row task) rows))
  requeue_step task Q stay change =
      update_phase (has_id task.id) (requeue_row task) (λ _. refl) Q stay
        λ row found met. change (phase_in (some row)) (same row found met) (present row)
    where
      same : (row : Row) → find_row tid rows ≡ some row → has_id task.id row ≡ true → task.id ≡ tid
      same row found met = ground (arith, find_row-id tid rows row found)

  overdue_phase :
      (now : Time) (row : Row)
      → is_overdue now row ≡ true
      → (until : Time) × (phase_in (some row) ≡ leased (some until)) × (until ≤ℤ now)
  unfolding is_overdue
  overdue_phase now row h = by_columns row.status row.claimed_until h
    where
      by_columns :
          (s : TaskStatus) (until : Option Time)
          → (has_status running s && (elim until [ none ↦ false | some u ↦ leb_ℤ u now ])) ≡ true
          → (u : Time) × (phase_at s until ≡ leased (some u)) × (u ≤ℤ now)
      by_columns running (some u) h = (u, refl, ground arith)
      by_columns running none h = cc
      by_columns pending until h = cc
      by_columns success until h = cc
      by_columns failed until h = cc

  claimable_phase :
      (now : Time) (row : Row) → is_claimable now row ≡ true → phase_in (some row) ≡ waiting
  unfolding is_claimable
  claimable_phase now row h = by_status row.status h
    where
      by_status :
          (s : TaskStatus)
          → (has_status pending s
              && (elim row.available_at [ none ↦ true | some at ↦ leb_ℤ at now ]))
            ≡ true
          → phase_at s row.claimed_until ≡ waiting
      by_status pending h = refl
      by_status running h = cc
      by_status success h = cc
      by_status failed h = cc

absent_new : (rows : Table) (tid : TaskId) → exists_id tid rows ≡ false → find_row tid rows ≡ none
absent_new [] tid h = refl
absent_new (row ∷ rows) tid h = ground (arith, absent_new rows tid)

arrived :
    (task : Task) (rows : Table) (tid : TaskId) (lock : Lock) (a k : Bytes)
    → task.status ≡ pending
    → exists_id task.id rows ≡ false
    → IsStep tid (enqueues lock task) (phase tid rows) (phase tid (rows ++ row_of task a k ∷ []))
unfolding row_of
arrived task rows tid lock a k waits new =
    rw (find_row-append_new tid rows (row_of task a k) new) (elim (Bool-cases (task.id == tid)) [
      | inl here ↦
          let same = (==_iff task.id tid).0 here in
          rw here (
            inr (
              same,
              ap phase_in (absent_new rows tid (ap (λ i. exists_id i rows) (sym same) ∙ new)),
              rw waits refl,
            ))
      | inr other ↦ rw other (inl refl)
    ])

best_waits :
    (rows : Table) (tid : TaskId) (now : Time) (row q : Row)
    → IsTable rows
    → IsBest now rows row
    → find_row tid rows ≡ some q
    → has_id row.id q ≡ true
    → phase_in (some q) ≡ waiting
best_waits rows tid now row q h (i, o, _) found met =
    let same : tid ≡ row.id = ground (arith, find_row-id tid rows q found) in
    let found' : find_row tid rows ≡ some row =
      ap (λ t. find_row t rows) same ∙ find_row-mem rows h i in
    let e : some q ≡ some row = sym found ∙ found' in
    ap phase_in e ∙ claimable_phase tid rows now row o

module _ (serializer : Serializer) where
  -- What any call does to the phase, whoever calls.
  pub after_event-IsStep :
      (event : Event) (rows : Table) (tid : TaskId)
      → IsTable rows
      → IsCall event
      → IsStep tid event (phase tid rows) (phase tid (after_event serializer event rows))
  unfolding after_event reclaim_expired ack nack
  after_event-IsStep (enqueues lock task) rows tid h c =
      enqueue_row_table serializer lock task rows
        (λ t. IsStep tid (enqueues lock task) (phase tid rows) (phase tid t)) (inl refl)
        λ a k new. arrived task rows tid lock a k c new
  after_event-IsStep (claims lock v now) rows tid h c =
      try_claim_table serializer lock v now rows
        (λ t. IsStep tid (claims lock v now) (phase tid rows) (phase tid t)) (inl refl)
        λ row best.
          update_phase tid rows (has_id row.id) (claim_row now (now +ℤ v)) (λ _. refl)
            (λ p p'. IsStep tid (claims lock v now) p p') (λ p. inl refl)
            λ q found met. inr (best_waits rows tid now row q h best found met, refl)
  after_event-IsStep (reclaims lock now) rows tid h c =
      update_table lock _ rows (λ t. IsStep tid (reclaims lock now) (phase tid rows) (phase tid t))
        (inl refl)
        (update_phase tid rows (is_overdue now) release_row (λ _. refl)
          (λ p p'. IsStep tid (reclaims lock now) p p') (λ p. inl refl)
          λ row found met.
            let (until, leased', due) = overdue_phase tid rows now row met in
            inr (until, leased', due, refl))
  after_event-IsStep (acks lock task) rows tid h c =
      update_table lock _ rows (λ t. IsStep tid (acks lock task) (phase tid rows) (phase tid t))
        (inl refl)
        (finish_step tid rows task (λ p p'. IsStep tid (acks lock task) p p') c (λ p. inl refl)
          (λ p e there. inr (e, there, refl)))
  after_event-IsStep (nacks lock task true) rows tid h c =
      update_table lock _ rows
        (λ t. IsStep tid (nacks lock task true) (phase tid rows) (phase tid t)) (inl refl)
        (requeue_step tid rows task (λ p p'. IsStep tid (nacks lock task true) p p') (λ p. inl refl)
          (λ p e there. inr (e, there, refl)))
  after_event-IsStep (nacks lock task false) rows tid h c =
      update_table lock _ rows
        (λ t. IsStep tid (nacks lock task false) (phase tid rows) (phase tid t)) (inl refl)
        (finish_step tid rows task (λ p p'. IsStep tid (nacks lock task false) p p') c
          (λ p. inl refl) (λ p e there. inr (e, there, refl)))

  -- Of a table that holds each id once, any call of the SQLite queue, with any lock met, that is
  -- passed a PENDING task to enqueue and an ended one to ack or to nack for good, by a caller whose
  -- claim of that task, if it has one, was until `held`: the call leaves the phase of each task; or
  -- changes it as the interface says (`enqueue` makes an absent task wait, a claim leases a waiting
  -- one until its visibility timeout, a sweep makes a leased one wait whose time has come, and `ack`
  -- and `nack` end the caller's own lease, after which the task has ended or waits); or it is an
  -- `ack` or `nack` of a task that is in the table and on which the caller has no lease any more,
  -- since it waits, has ended or is leased until another time, and that task ends or waits all the
  -- same.
  pub after_event-IsGuardedStep :
      (held : Option Time) (event : Event) (rows : Table) (tid : TaskId)
      → IsTable rows
      → IsCall event
      → IsGuardedStep held tid event
          (phase tid rows)
          (phase tid (after_event serializer event rows))
  after_event-IsGuardedStep held event rows tid h c =
      guard-IsGuardedStep held tid event _ _ (after_event-IsStep event rows tid h c)
