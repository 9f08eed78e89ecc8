-- ===== src/Cli/Replay.antt =====
-- `miniq dlq replay` of src/miniq/cli.py.
use miniq.Base.{
  ℕ, zero, suc, ◌==◌, ◌≡◌, ◌≢◌, refl, ◌∙◌, ◌⊎◌, inl, inr, Bool, Bool-cases, Option-cases, true,
  false, Option, some, [], ◌∷◌, select, length, arith,
}
use miniq.Exceptions.{ok}
use miniq.Task.{TaskId, Time, failed}
use miniq.Sqlite.{free, transaction}
use miniq.SqliteQueue.{Row, Table, exists_id, update_where, is_claimable}
use miniq.SqliteQueue.Rows.{
  find_row, IsTable, find_row-update_where, find_row-id, update_where-IsTable, updated,
}
use miniq.Cli.{
  Database, Outcome, no_failed_task, task_replayed, on_database, is_failed, replay_row,
  is_replayable, cmd_dlq_replay,
}

-- An UPDATE that meets no row changes nothing.
pub update_none :
    (test : Row → Bool) (f : Row → Row) (rows : Table)
    → length (select test rows) ≡ 0
    → update_where test f rows ≡ rows
update_none test f [] h = refl
update_none test f (row ∷ rows) h = ground (arith, update_none test f rows)

-- No row with the id has failed.
none_failed :
    (tid : TaskId) (rows : Table) (row : Row)
    → length (select (is_replayable tid) rows) ≡ 0
    → find_row tid rows ≡ some row
    → row.status ≢ failed
none_failed tid [] row h found = cc
none_failed tid (r ∷ rows) row h found = ground (arith, none_failed tid rows row)

found_exists :
    (tid : TaskId) (rows : Table) (row : Row)
    → find_row tid rows ≡ some row
    → exists_id tid rows ≡ true
found_exists tid [] row h = cc
found_exists tid (r ∷ rows) row h = ground (arith, found_exists tid rows row)

is_failed→failed : (row : Row) → is_failed row ≡ true → row.status ≡ failed
is_failed→failed row h = ground arith

abbrev FailedRow : TaskId → Table → Type 0
FailedRow tid rows = (row : Row) × (find_row tid rows ≡ some row) × (row.status ≡ failed)

some_failed :
    (tid : TaskId) (rows : Table)
    → IsTable rows
    → (n : ℕ) → length (select (is_replayable tid) rows) ≡ suc n
    → FailedRow tid rows
some_failed tid [] h n e = cc
some_failed tid (r ∷ rows) h n e = elim (Bool-cases (is_replayable tid r)) [
  | inl here ↦ (r, ground arith, ground arith)
  | inr there ↦
      let (row, found, dead) = some_failed tid rows h.1 n (ground arith) in
      (row, ground (arith, found_exists tid rows row), dead)
]

not_zero : (n : ℕ) → (suc n == 0) ≡ false
not_zero n = ground arith

always_claimable : (row : Row) (now : Time) → is_claimable now (replay_row row) ≡ true
unfolding is_claimable
always_claimable row now = refl

keeps : (row : Row) → (replay_row row).id ≡ row.id
keeps row = refl

abbrev replayed_row : TaskId → Option Row → Option Row
replayed_row tid = updated (is_replayable tid) replay_row keeps

found_updated :
    (tid : TaskId) (rows : Table) (row : Row)
    → find_row tid rows ≡ some row
    → row.status ≡ failed
    → replayed_row tid (find_row tid rows) ≡ some (replay_row row)
found_updated tid rows row found dead =
    rw (found, dead) ground (arith, find_row-id tid rows row found)

other_updated :
    (tid : TaskId) (rows : Table) (other : TaskId)
    → other ≢ tid
    → replayed_row tid (find_row other rows) ≡ find_row other rows
other_updated tid rows other ne = elim (Option-cases (find_row other rows)) [
  | inl e ↦ rw e refl
  | inr (row, e) ↦ rw e ground (arith, find_row-id other rows row e)
]

after_update :
    (tid other : TaskId) (rows : Table)
    → find_row other (update_where (is_replayable tid) replay_row rows)
      ≡ replayed_row tid (find_row other rows)
after_update tid other rows = find_row-update_where (is_replayable tid) replay_row keeps other rows

module _ (tid : TaskId) (db : Database) (rows : Table) where
  -- The task with the id has failed: its row is replayed, and no other row is touched.
  pub record Replayed (db' : Database) : Type 0 where
    pub row : Row
    pub rows' : Table
    pub found : find_row tid rows ≡ some row
    pub has_failed : row.status ≡ failed
    pub replayed : find_row tid rows' ≡ some (replay_row row)
    pub claimable : (now : Time) → is_claimable now (replay_row row) ≡ true
    pub others : (other : TaskId) → other ≢ tid → find_row other rows' ≡ find_row other rows
    pub tasks : db'.tasks ≡ some rows'
    pub valid : IsTable rows'
    pub results : db'.results ≡ db.results

  -- No task with the id has failed.
  abbrev pub NotFailed : Type 0
  NotFailed = (row : Row) → find_row tid rows ≡ some row → row.status ≢ failed

  -- What the command makes of the file.
  abbrev pub IsReplay : Outcome → Type 0
  IsReplay outcome =
      ((db' : Database) × (outcome ≡ (ok (0, task_replayed tid), some db')) × Replayed db')
      ⊎ NotFailed × (outcome ≡ (ok (1, no_failed_task tid), some db))

  by_count :
      db.tasks ≡ some rows
      → IsTable rows
      → (n : ℕ) → length (select (is_replayable tid) rows) ≡ n
      → IsReplay (cmd_dlq_replay free tid (some db))
  unfolding cmd_dlq_replay on_database transaction
  by_count h valid zero e = inr (
    λ row. none_failed tid rows row e,
    rw (h, e, update_none (is_replayable tid) replay_row rows e) refl,
  )
  by_count h valid (suc n) e =
      let (row, found, dead) = some_failed tid rows valid n e in
      inl (
        record db { tasks = some (update_where (is_replayable tid) replay_row rows) },
        rw (h, e, not_zero n) refl,
        record {
          row = row;
          rows' = update_where (is_replayable tid) replay_row rows;
          found = found;
          has_failed = dead;
          replayed = after_update tid tid rows ∙ found_updated tid rows row found dead;
          claimable = always_claimable row;
          others = λ other ne. after_update tid other rows ∙ other_updated tid rows other ne;
          tasks = refl;
          valid = update_where-IsTable (is_replayable tid) replay_row keeps rows valid;
          results = refl;
        },
      )

  -- On a file whose table holds each id once, with no lock met, `miniq dlq replay` of a task that
  -- has failed exits with 0 and makes it pending, claimable at any time, with no retries counted and
  -- no error; no other row of the file is touched, and the stored results are not. For any other
  -- task it exits with 1 and changes nothing.
  pub cmd_dlq_replay-IsReplay :
      db.tasks ≡ some rows → IsTable rows → IsReplay (cmd_dlq_replay free tid (some db))
  cmd_dlq_replay-IsReplay h valid = by_count h valid _ refl
