-- ===== src/Sqlite.antt =====
-- src/miniq/_sqlite.py: transactions. The database is a value; whether another connection's lock
-- makes a statement fail, with sqlite3.OperationalError, is an argument.
pub mod Atomic
mod Tests
use miniq.Base.{Bool, true, false}
use miniq.Exceptions.{Result, ok, err, operational_error}

-- Where the lock is met: nowhere; by the first thing that needs it, a BEGIN IMMEDIATE or else the
-- body's first statement; or at a later statement up to COMMIT.
pub data Lock : Type 0 where
  free at_first at_commit : Lock

-- A statement on a database: its result, and the database after it.
abbrev pub Statement : Type 0 → Type 0 → Type 0
Statement S A = S → Result (A × S)

-- `BEGIN IMMEDIATE` or `BEGIN`. The latter needs no lock.
abbrev pub begin : (immediate : Bool) → Lock → Result (Unit {0})
begin true at_first = err operational_error
begin true _ = ok tt
begin false _ = ok tt

-- The body and COMMIT. A failing body is rolled back, and so is one whose COMMIT fails.
abbrev pub body_and_commit : {S A : Type 0} → Lock → Statement S A → S → Result A × S
body_and_commit at_first body s = (err operational_error, s)
body_and_commit at_commit body s =
    (elim (body s) [ ok _ ↦ err operational_error | err e ↦ err e ], s)
body_and_commit free body s = elim (body s) [ ok (a, s') ↦ (ok a, s') | err e ↦ (err e, s) ]

-- `with transaction(conn, immediate): body`
unfoldable pub transaction :
    {S A : Type 0} (immediate : Bool) → Lock → Statement S A → S → Result A × S
transaction immediate lock body s = elim (begin immediate lock) [
  | ok _ ↦ body_and_commit lock body s
  | err e ↦ (err e, s)
]
