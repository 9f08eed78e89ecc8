-- ===== src/SqliteQueue/Exclusive.antt =====
-- Claims of the SQLite queue: nobody else is given a claimed task before its claim expires, and
-- after that a sweep takes it back.
use mathlib.Core.List.{Memᴰ}
use miniq.Base.{
  ◌≡◌, ◌≢◌, refl, sym, ap, ◌∙◌, inl, inr, Bool, true, false, Option, none, some, List, [], ◌∷◌,
  ◌++◌, All, arith, Bool-cases, if◌then◌else◌, ◌==◌, ==_iff, ◌<ℤ◌, ◌+ℤ◌,
}
use miniq.Exceptions.{Result, ok, err, operational_error}
use miniq.Task.{Task, TaskId, running, Time}
use miniq.Serializers.{Serializer}
use miniq.Sqlite.{Lock}
use miniq.SqliteQueue.{
  Row, Table, has_id, exists_id, is_claimable, is_overdue, reclaim_expired, ack, nack, try_claim,
  update_where, row_to_task, claim, claim_row, ignore_locked,
}
use miniq.Sqlite.Atomic.{IsAtomic, transaction-IsAtomic}
use miniq.SqliteQueue.Choice.{IsClaimable, Marks, claim_cases}
use miniq.SqliteQueue.Rows.{
  find_row, IsTable, update_where-IsTable, find_row-update_where, find_row-append_new, find_row-id,
}
use miniq.SqliteQueue.Events.{
  Event, enqueues, claims, reclaims, acks, nacks, after_event, after_events, after_event-IsTable,
  enqueue_table, try_claim_table, update_table,
}

-- The task with this id is claimed until `until`.
pub record IsClaimed (rows : Table) (tid : TaskId) (until : Time) : Type 0 where
  pub row : Row
  pub found : find_row tid rows ≡ some row
  pub status : row.status ≡ running
  pub claimed_until : row.claimed_until ≡ some until

-- Events that do not end this claim: sweeps before it expires, and the `ack`s and `nack`s of other
-- tasks.
abbrev pub Spares : TaskId → Time → Event → Type 0
Spares tid until (enqueues _ _) = Unit
Spares tid until (claims _ _ _) = Unit
Spares tid until (reclaims _ now) = now <ℤ until
Spares tid until (acks _ task) = task.id ≢ tid
Spares tid until (nacks _ task _) = task.id ≢ tid

exists_id-mem : {row : Row} (rows : Table) → Memᴰ row rows → exists_id row.id rows ≡ true
exists_id-mem [] i = elim i [ ]
exists_id-mem (r ∷ rows) (Memᴰ.head e) = rw e (ground arith)
exists_id-mem (r ∷ rows) (Memᴰ.tail i) = ground (arith, exists_id-mem rows i)

-- In a table a row is the one that its id finds.
pub find_row-mem :
    {row : Row} (rows : Table) → IsTable rows → Memᴰ row rows → find_row row.id rows ≡ some row
find_row-mem [] h i = elim i [ ]
find_row-mem (r ∷ rows) h (Memᴰ.head e) = rw e (ground arith)
find_row-mem (r ∷ rows) h (Memᴰ.tail i) =
    ground (arith, find_row-mem rows h.1 i, exists_id-mem rows i)

find_row-absent :
    (tid : TaskId) (rows : Table) → exists_id tid rows ≡ false → find_row tid rows ≡ none
find_row-absent tid [] h = refl
find_row-absent tid (r ∷ rows) h = ground (arith, find_row-absent tid rows)

claimable_status : (now : Time) (row : Row) → IsClaimable now row → row.status ≢ running
unfolding is_claimable
claimable_status now row o s = ground arith

not_overdue :
    (now until : Time) (row : Row)
    → row.claimed_until ≡ some until
    → now <ℤ until
    → is_overdue now row ≡ false
unfolding is_overdue
not_overdue now until row e later = ground arith

module _ {rows : Table} {tid : TaskId} {until : Time} (h : IsTable rows)
    (c : IsClaimed rows tid until) where
  -- A claimable row is another than the claimed one.
  claimable_other : (now : Time) {row : Row} → Memᴰ row rows → IsClaimable now row → row.id ≢ tid
  claimable_other now {row} i o same =
      let here : find_row tid rows ≡ some row =
        ap (λ t. find_row t rows) (sym same) ∙ find_row-mem rows h i in
      let e : row ≡ c.row = cc (c.found) in
      claimable_status now row o (ap (λ (r : Row). r.status) e ∙ c.status)

  -- An UPDATE that passes over the claimed row keeps the claim.
  passed_over :
      (test : Row → Bool) (f : Row → Row)
      → ((row : Row) → (f row).id ≡ row.id)
      → test c.row ≡ false
      → IsClaimed (update_where test f rows) tid until
  passed_over test f keeps no_hit = record {
    row = c.row;
    found = find_row-update_where test f keeps tid rows ∙ rw (c.found, no_hit);
    status = c.status;
    claimed_until = c.claimed_until;
  }

  other_id : (j : TaskId) → j ≢ tid → has_id j c.row ≡ false
  other_id j ne = ground (arith, find_row-id tid rows c.row c.found)

  appended : (row : Row) → exists_id row.id rows ≡ false → IsClaimed (rows ++ row ∷ []) tid until
  appended row new = record {
    row = c.row;
    found = find_row-append_new tid rows row new ∙ still;
    status = c.status;
    claimed_until = c.claimed_until;
  }
    where
      still : (if row.id == tid then some row else find_row tid rows) ≡ some c.row
      still = elim (Bool-cases (row.id == tid)) [
        | inl clash ↦
            let gone = find_row-absent row.id rows new in
            let e = ap (λ t. find_row t rows) ((==_iff row.id tid).0 clash) in absurd (cc (c.found))
        | inr other ↦ rw other c.found
      ]

-- The row that a claim marks is claimed.
marked-IsClaimed :
    (now until : Time) (rows : Table) {row : Row}
    → IsTable rows
    → Memᴰ row rows
    → IsClaimed (update_where (has_id row.id) (claim_row now until) rows) row.id until
marked-IsClaimed now until rows {row} h i = record {
  row = claim_row now until row;
  found =
      find_row-update_where (has_id row.id) (claim_row now until) (λ _. refl) row.id rows
      ∙ rw (find_row-mem rows h i) (ground arith);
  status = refl;
  claimed_until = refl;
}

module _ (serializer : Serializer) where
  -- A claim outlasts any event that spares it.
  after_event-IsClaimed :
      (event : Event) {rows : Table} {tid : TaskId} {until : Time}
      → IsTable rows
      → Spares tid until event
      → IsClaimed rows tid until
      → IsClaimed (after_event serializer event rows) tid until
  unfolding after_event reclaim_expired ack nack
  after_event-IsClaimed (enqueues lock task) {rows} {tid} {until} h s c =
      enqueue_table serializer lock task rows (λ t. IsClaimed t tid until) c
        (λ row _ new. appended h c row new)
  after_event-IsClaimed (claims lock visibility_timeout now) {rows} {tid} {until} h s c =
      try_claim_table serializer lock visibility_timeout now rows (λ t. IsClaimed t tid until) c
        (λ row (i, o, _).
          passed_over h c _ _ (λ _. refl) (other_id h c row.id (claimable_other h c now i o)))
  after_event-IsClaimed (reclaims lock now) {rows} {tid} {until} h s c =
      update_table lock _ rows (λ t. IsClaimed t tid until) c
        (passed_over h c _ _ (λ _. refl) (not_overdue now until c.row c.claimed_until s))
  after_event-IsClaimed (acks lock task) {rows} {tid} {until} h s c =
      update_table lock _ rows (λ t. IsClaimed t tid until) c
        (passed_over h c _ _ (λ _. refl) (other_id h c task.id s))
  after_event-IsClaimed (nacks lock task true) {rows} {tid} {until} h s c =
      update_table lock _ rows (λ t. IsClaimed t tid until) c
        (passed_over h c _ _ (λ _. refl) (other_id h c task.id s))
  after_event-IsClaimed (nacks lock task false) {rows} {tid} {until} h s c =
      update_table lock _ rows (λ t. IsClaimed t tid until) c
        (passed_over h c _ _ (λ _. refl) (other_id h c task.id s))

  after_events-IsClaimed :
      (events : List Event) {rows : Table} {tid : TaskId} {until : Time}
      → IsTable rows
      → All (Spares tid until) events
      → IsClaimed rows tid until
      → IsTable (after_events serializer events rows)
        × IsClaimed (after_events serializer events rows) tid until
  unfolding after_events
  after_events-IsClaimed [] h s c = (h, c)
  after_events-IsClaimed (e ∷ es) {rows} h s c =
      after_events-IsClaimed es (after_event-IsTable serializer e rows h) s.1
        (after_event-IsClaimed e h s.0 c)

  pub row_to_task-id :
      (row : Row) {task : Task} → row_to_task serializer row ≡ ok task → task.id ≡ row.id
  unfolding row_to_task
  row_to_task-id row {task} e = ground arith

  -- A claim that hands out a task has marked its row.
  pub try_claim-Marks :
      (lock : Lock) (visibility_timeout now : Time) (rows : Table) {task : Task} {rows' : Table}
      → try_claim serializer lock visibility_timeout now rows ≡ (ok (some task), rows')
      → Marks serializer now (now +ℤ visibility_timeout) rows (some task) rows'
  unfolding try_claim
  try_claim-Marks lock visibility_timeout now rows {task} {rows'} e =
      go _ (transaction-IsAtomic true lock (claim serializer now (now +ℤ visibility_timeout)) rows)
        e
    where
      go :
          (r : Result (Option Task) × Table)
          → IsAtomic (claim serializer now (now +ℤ visibility_timeout)) rows r
          → ignore_locked r ≡ (ok (some task), rows')
          → Marks serializer now (now +ℤ visibility_timeout) rows (some task) rows'
      go (ok found, t) body f =
          let f' : ◌≡◌ {A = Result (Option Task × Table)} (ok (found, t)) (ok (some task, rows')) =
            cc in
          elim (claim_cases serializer now (now +ℤ visibility_timeout) rows {found = some task}
            {rows' = rows'} (body ∙ f')) [ inl (nothing, _) ↦ absurd (cc) | inr marks ↦ marks ]
      go (err operational_error, t) body f = absurd (cc)
      go (err x, t) body f = absurd (cc)

  pub some_id :
      {task : Task} (t : Task) {at : Option Time}
      → some task ≡ some (record t { status = running; started_at = at })
      → task.id ≡ t.id
  some_id {task} t {at} e =
      let e' : task ≡ record t { status = running; started_at = at } = cc in
      ap (λ (x : Task). x.id) e'

  -- A claim that hands out a task leaves the task claimed.
  try_claim-IsClaimed :
      (lock : Lock) (visibility_timeout now : Time) (rows : Table) {task : Task} {rows' : Table}
      → IsTable rows
      → try_claim serializer lock visibility_timeout now rows ≡ (ok (some task), rows')
      → IsTable rows' × IsClaimed rows' task.id (now +ℤ visibility_timeout)
  try_claim-IsClaimed lock visibility_timeout now rows {task} h first =
      let (row, t, (i, _, _), decoded, same, table) =
        try_claim-Marks lock visibility_timeout now rows first in
      let id = some_id t same ∙ row_to_task-id row decoded in
      (
        rw table (update_where-IsTable _ _ (λ _. refl) rows h),
        rw (table, id) (marked-IsClaimed now (now +ℤ visibility_timeout) rows h i),
      )

  -- In a table where no two rows have one id: after a claim that hands out a task, whatever events
  -- follow that spare it (no sweep once the claim has expired, no `ack` and no `nack` of the
  -- task), a further claim that hands out a task hands out one with another id.
  pub claim_is_exclusive :
      (lock lock' : Lock) (visibility_timeout visibility_timeout' now now' : Time)
      (rows rows' rows'' : Table) (task task' : Task) (events : List Event)
      → IsTable rows
      → try_claim serializer lock visibility_timeout now rows ≡ (ok (some task), rows')
      → All (Spares task.id (now +ℤ visibility_timeout)) events
      → try_claim serializer lock' visibility_timeout' now' (after_events serializer events rows')
        ≡ (ok (some task'), rows'')
      → task'.id ≢ task.id
  claim_is_exclusive lock lock' visibility_timeout visibility_timeout' now now' rows rows' rows''
        task task' events h first spares second =
      let (h1, c1) = try_claim-IsClaimed lock visibility_timeout now rows h first in
      let (h', c) = after_events-IsClaimed events h1 spares c1 in
      let (row, t, (i, o, _), decoded, same, _) =
        try_claim-Marks lock' visibility_timeout' now' (after_events serializer events rows')
          second in
      let id = some_id t same ∙ row_to_task-id row decoded in
      λ clash. claimable_other h' c now' i o (sym id ∙ clash)
