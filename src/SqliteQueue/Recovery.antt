-- ===== src/SqliteQueue/Recovery.antt =====
-- What one pass of the loop of `SQLiteQueue.dequeue` does about expired claims.
use mathlib.Core.List.{Memᴰ}
use miniq.Base.{
  ◌≡◌, ◌≢◌, refl, sym, ap, ◌∙◌, inl, inr, true, false, Option, none, some, List, [], ◌∷◌, All,
  arith, Bool-cases, ==_iff, ◌≤ℤ◌, ◌+ℤ◌,
}
use miniq.Exceptions.{Result, ok, err, operational_error}
use miniq.Task.{Task, Time, running}
use miniq.Serializers.{Serializer}
use miniq.Sqlite.{Lock, free, at_first, at_commit, transaction}
use miniq.SqliteQueue.{
  Row, Table, has_id, update_where, is_claimable, is_overdue, release_row, reclaim_expired,
  try_claim, claim_row,
}
use miniq.SqliteQueue.Choice.{IsClaimable, try_claim_cases}
use miniq.SqliteQueue.Polling.{
  Pass, poll, after_first, after_sweep, reclaim_and_claim, second_claim, dequeue, dequeue_loop,
  after_poll,
}
use miniq.SqliteQueue.Rows.{find_row, IsTable, find_row-update_where}
use miniq.SqliteQueue.Decoding.{Decodes, swept-Decodes}
use miniq.SqliteQueue.Exclusive.{try_claim-Marks, find_row-mem}

-- A pass that meets no lock, while no other connection writes.
pub record IsQuiet (p : Pass) : Type 0 where
  pub first : p.first_lock ≡ free
  pub sweep : p.reclaim_lock ≡ free
  pub second : p.second_lock ≡ free
  pub before_sweep : (rows : Table) → p.before_reclaim rows ≡ rows
  pub after_sweep : (rows : Table) → p.before_second rows ≡ rows

-- `available_at IS NULL OR available_at <= now`
abbrev pub IsAvailable : Time → Row → Type 0
IsAvailable now row = elim row.available_at [ none ↦ Unit | some at ↦ at ≤ℤ now ]

released_claimable :
    (now : Time) (row : Row) → IsAvailable now row → is_claimable now (release_row row) ≡ true
unfolding is_claimable
released_claimable now row h = ground arith

released-mem :
    (now : Time) (rows : Table) {row : Row}
    → Memᴰ row rows
    → is_overdue now row ≡ true
    → Memᴰ (release_row row) (update_where (is_overdue now) release_row rows)
released-mem now [] i over = elim i [ ]
released-mem now (r ∷ rows) {row} (Memᴰ.head e) over =
    let over' : is_overdue now r ≡ true = ap (is_overdue now) (sym e) ∙ over in
    rw over' (Memᴰ.head (ap release_row e))
released-mem now (r ∷ rows) (Memᴰ.tail i) over = Memᴰ.tail (released-mem now rows i over)

not_both : (now : Time) (row : Row) → IsClaimable now row → is_overdue now row ≢ true
unfolding is_overdue is_claimable
not_both now row o over = ground arith

overdue_other :
    (now : Time) (rows : Table) (best row : Row)
    → find_row best.id rows ≡ some best
    → find_row row.id rows ≡ some row
    → IsClaimable now best
    → is_overdue now row ≡ true
    → has_id best.id row ≡ false
unfolding is_overdue is_claimable
overdue_other now rows best row f g o over = elim (Bool-cases (has_id best.id row)) [
  | inl same ↦
      let g' = ap (λ t. find_row t rows) ((==_iff row.id best.id).0 same) in
      let e : row ≡ best = cc in absurd (not_both now best o (ap (is_overdue now) (sym e) ∙ over))
  | inr ne ↦ ne
]

locked_reclaim :
    (lock : Lock) (now : Time) (rows : Table)
    → lock ≢ free
    → reclaim_expired lock now rows ≡ (err operational_error, rows)
unfolding reclaim_expired transaction
locked_reclaim free now rows locked = absurd (locked refl)
locked_reclaim at_first now rows locked = refl
locked_reclaim at_commit now rows locked = refl

module _ (serializer : Serializer) where
  All-mem : (P : Row → Type 0) (rows : Table) {row : Row} → All P rows → Memᴰ row rows → P row
  All-mem P [] h i = elim i [ ]
  All-mem P (r ∷ rows) h (Memᴰ.head e) = rw e h.0
  All-mem P (r ∷ rows) h (Memᴰ.tail i) = All-mem P rows h.1 i

  -- Where a row is claimable and all rows decode, a claim with no lock in the way hands out a
  -- task.
  claims_some :
      (visibility_timeout now : Time) (rows : Table) {row : Row}
      → All (Decodes serializer) rows
      → Memᴰ row rows
      → IsClaimable now row
      → (task : Task) × ((try_claim serializer free visibility_timeout now rows).0 ≡ ok (some task))
  claims_some visibility_timeout now rows {row} d i o =
      elim (try_claim_cases serializer visibility_timeout now rows) [
        | inl (empty, _) ↦ absurd (All-mem _ rows empty i o)
        | inr (best, _, inl (task, _, e)) ↦ (_, ap (λ r. r.0) e)
        | inr (best, (j, _, _), inr (x, failed, _)) ↦
            let (_, decoded) = All-mem (Decodes serializer) rows d j in absurd (cc)
      ]

  -- The sweep and the second claim of a quiet pass hand out a task where a row is overdue.
  reclaim_and_claim-some :
      (visibility_timeout : Time) (p : Pass) (rows : Table) {row : Row}
      → IsQuiet p
      → All (Decodes serializer) rows
      → Memᴰ row rows
      → is_overdue p.reclaim_at row ≡ true
      → IsAvailable p.second_at row
      → (task : Task) × ((reclaim_and_claim serializer visibility_timeout p rows).0
          ≡ ok (some task))
  unfolding reclaim_and_claim reclaim_expired second_claim transaction
  reclaim_and_claim-some visibility_timeout p rows {row} q d i over av =
      let (task, e) =
        claims_some visibility_timeout p.second_at
          (update_where (is_overdue p.reclaim_at) release_row rows)
          (swept-Decodes serializer p.reclaim_at rows d) (released-mem p.reclaim_at rows i over)
          (released_claimable p.second_at row av) in
      (task, rw (q.sweep, q.after_sweep, q.second) e)

  module _ (visibility_timeout : Time) (p : Pass) (rows : Table) where
    -- The first claim of a pass, as the table and the lock are.
    abbrev pub First : Result (Option Task) × Table → Type 0
    First r = try_claim serializer p.first_lock visibility_timeout p.first_at rows ≡ r

    poll-none :
        {rows' : Table}
        → First (ok none, rows')
        → poll serializer visibility_timeout p rows
          ≡ reclaim_and_claim serializer visibility_timeout p (p.before_reclaim rows')
    unfolding poll
    poll-none e = ap (after_first serializer visibility_timeout p) e

    poll-some :
        {task : Task} {rows' : Table}
        → First (ok (some task), rows')
        → poll serializer visibility_timeout p rows ≡ (ok (some task), rows')
    unfolding poll
    poll-some e = ap (after_first serializer visibility_timeout p) e

  -- A pass that meets no lock, while no other connection writes, over rows that all decode, hands
  -- out a task where some row's claim has expired at the sweep and the row is due at the second
  -- claim.
  pub poll_redelivers :
      (visibility_timeout : Time) (p : Pass) (rows : Table) {row : Row}
      → IsQuiet p
      → All (Decodes serializer) rows
      → Memᴰ row rows
      → is_overdue p.reclaim_at row ≡ true
      → IsAvailable p.second_at row
      → (task : Task) × ((poll serializer visibility_timeout p rows).0 ≡ ok (some task))
  poll_redelivers visibility_timeout p rows {row} q d i over av =
      let (task', e') = reclaim_and_claim-some visibility_timeout p rows q d i over av in
      elim (try_claim_cases serializer visibility_timeout p.first_at rows) [
        | inl (_, e) ↦
            let e'' = poll-none visibility_timeout p rows {rows' = rows} (rw q.first e) in
            (task', rw (e'', q.before_sweep) e')
        | inr (best, _, inl (task, _, e)) ↦
            let e'' =
              poll-some visibility_timeout p rows
                {task = record task { status = running; started_at = some p.first_at }}
                {rows' = update_where (has_id best.id)
                  (claim_row p.first_at (p.first_at +ℤ visibility_timeout)) rows}
                (rw q.first e) in
            (_, ap (λ r. r.0) e'')
        | inr (best, (j, _, _), inr (x, failed, _)) ↦
            let (_, decoded) = All-mem (Decodes serializer) rows d j in absurd (cc)
      ]

  -- A claim that hands out a task passes over an overdue row.
  claim_keeps_overdue :
      (lock : Lock) (visibility_timeout now : Time) (rows : Table) {task : Task} {rows' : Table}
      {row : Row}
      → try_claim serializer lock visibility_timeout now rows ≡ (ok (some task), rows')
      → IsTable rows
      → Memᴰ row rows
      → is_overdue now row ≡ true
      → find_row row.id rows' ≡ some row
  claim_keeps_overdue lock visibility_timeout now rows {task} {rows'} {row} e h i over =
      let (best, t, (j, o, _), _, _, table) =
        try_claim-Marks serializer lock visibility_timeout now rows e in
      let here = find_row-mem rows h i in
      let other : has_id best.id row ≡ false =
        overdue_other now rows best row (find_row-mem rows h j) here o over in
      rw table
        (find_row-update_where (has_id best.id) _ (λ _. refl) row.id rows ∙ rw (here, other) refl)

  locked_sweep :
      (visibility_timeout : Time) (p : Pass) (rows : Table)
      → p.reclaim_lock ≢ free
      → reclaim_and_claim serializer visibility_timeout p rows ≡ (err operational_error, rows)
  unfolding reclaim_and_claim
  locked_sweep visibility_timeout p rows locked =
      ap (after_sweep serializer visibility_timeout p)
        (locked_reclaim p.reclaim_lock p.reclaim_at rows locked)

  -- Where no two rows have one id and the first claim of a pass hands out a task, the pass returns
  -- that task and leaves any row whose claim has expired as it was.
  pub poll_skips_sweep :
      (visibility_timeout : Time) (p : Pass) (rows : Table) (task : Task) (rows' : Table)
      {row : Row}
      → IsTable rows
      → try_claim serializer p.first_lock visibility_timeout p.first_at rows
        ≡ (ok (some task), rows')
      → Memᴰ row rows
      → is_overdue p.first_at row ≡ true
      → ((poll serializer visibility_timeout p rows).0 ≡ ok (some task))
        × (find_row row.id (poll serializer visibility_timeout p rows).1 ≡ some row)
  poll_skips_sweep visibility_timeout p rows task rows' {row} h e i over =
      let e' = poll-some visibility_timeout p rows e in
      (
        rw e' refl,
        rw e' (claim_keeps_overdue p.first_lock visibility_timeout p.first_at rows e h i over),
      )

  -- Where the first claim of the first pass finds no task, a lock that the sweep then meets makes
  -- the whole `dequeue` raise OperationalError; the table is as the other connections have left it.
  pub locked_sweep_raises :
      (visibility_timeout wait_seconds called_at : Time) (p : Pass) (ps : List Pass) (rows : Table)
      → try_claim serializer p.first_lock visibility_timeout p.first_at rows ≡ (ok none, rows)
      → p.reclaim_lock ≢ free
      → dequeue serializer visibility_timeout wait_seconds called_at (p ∷ ps) rows
        ≡ (err operational_error, p.before_reclaim rows)
  unfolding dequeue dequeue_loop
  locked_sweep_raises visibility_timeout wait_seconds called_at p ps rows e locked =
      let e' = poll-none visibility_timeout p rows e in
      let locked' = locked_sweep visibility_timeout p (p.before_reclaim rows) locked in
      ap (after_poll serializer visibility_timeout _ p _) (e' ∙ locked')
