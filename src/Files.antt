-- ===== src/Files.antt =====
-- The set-up of a database file: `SQLiteQueue.__init__` of src/miniq/queue/sqlite.py and
-- `SQLiteResultBackend.__init__` of src/miniq/results.py, with `open_connection` of
-- src/miniq/_sqlite.py. The pragmas and the indexes change no table.
pub mod Ready
mod Tests
use miniq.Base.{Option, none, some, List, [], ◌∷◌}
use miniq.Exceptions.{Result, ok, err, operational_error}
use miniq.Cli.{Database, keep_file}

-- Where a set-up meets another connection's lock: nowhere, up to CREATE TABLE, or after it.
pub data SetUpLock : Type 0 where
  unlocked before_table after_table : SetUpLock

-- `sqlite3.connect` makes a file that is missing.
abbrev pub open_connection : Option Database → Database
open_connection none = record { tasks = none; results = none }
open_connection (some db) = db

-- `CREATE TABLE IF NOT EXISTS`
unfoldable pub create_table : {A : Type 0} → Option (List A) → Option (List A)
create_table none = some []
create_table (some rows) = some rows

-- `executescript`, each statement of which is a transaction of its own.
abbrev pub execute_script :
    SetUpLock → (Database → Database) → Database → Result (Unit {0}) × Database
execute_script unlocked create db = (ok tt, create db)
execute_script before_table create db = (err operational_error, db)
execute_script after_table create db = (err operational_error, create db)

unfoldable pub new_queue : SetUpLock → Option Database → Result (Unit {0}) × Option Database
new_queue lock file =
    keep_file (
      execute_script lock (λ db. record db { tasks = create_table db.tasks })
        (open_connection file))

unfoldable pub new_results : SetUpLock → Option Database → Result (Unit {0}) × Option Database
new_results lock file = keep_file (
    execute_script lock (λ db. record db { results = create_table db.results })
      (open_connection file))
