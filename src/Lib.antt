-- ===== src/Lib.antt =====
-- A model of miniq, a task queue library: its queues, its worker and what they stand on.
--
-- A producer makes a `Task` and calls `enqueue` of a queue backend. A worker calls `dequeue`, which
-- claims a task for a visibility timeout, looks the task's function up in the registry, calls it,
-- stores the outcome in a result backend and ends the claim by `ack` or `nack`; a failed task with
-- retries left is put back, for the delay that the retry policy says. A claim whose timeout expires
-- is taken back by a sweep, which `dequeue` runs. A caller waits for the outcome by `wait` of the
-- result backend. Both backends come in memory and over SQLite.
--
-- Which file models which part (paths are the repository's):
--   Base, Base/*        Boolean tests, lists, integers and dicts that the parts share
--   Values              the Python values of arguments and results
--   Exceptions          src/miniq/exceptions.py, and the exceptions of Python and sqlite3
--   Task, Heap          src/miniq/task.py: Task and its mark_* methods; the objects of class Task,
--                       which the in-memory backends and the worker share, are cells of a heap
--   Memory, Memory/*    src/miniq/queue/memory.py: InMemoryQueue. `reclaim_expired` is
--                       `_reclaim_expired_locked`, `scan` the loop over `enumerate(self._pending)`,
--                       `claim_at` the claim, `dequeue_loop` the `while True` loop
--   Sqlite, Sqlite/*    src/miniq/_sqlite.py: transaction
--   SqliteQueue,        src/miniq/queue/sqlite.py: SQLiteQueue. The table `tasks` is the list of its
--   SqliteQueue/*       rows; each SQL statement is the function on it that it denotes; `try_claim`,
--                       `reclaim_expired` and `row_to_task` are `_try_claim`, `_reclaim_expired` and
--                       `_row_to_task`; the loop of `dequeue` is in SqliteQueue/Polling, and
--                       SqliteQueue/Phases has what src/miniq/queue/base.py lets each call do to a
--                       task, and what an `ack` or `nack` without a lease does
--   Serializers,        src/miniq/serializers.py: Serializer and JSONSerializer
--   Serializers/*
--   Backends            src/miniq/queue/base.py and ResultBackend of src/miniq/results.py
--   Results, Results/*  src/miniq/results.py: both backends. `store_memory` and `get_memory` are
--                       InMemoryResultBackend's, `store` and `get` SQLiteResultBackend's, and
--                       `wait` is the loop of both
--   Registry,           src/miniq/registry.py: register, lookup, clear
--   Registry/*
--   Retry, Retry/*      src/miniq/retry.py: the four policies
--   App, App/*          src/miniq/app.py: TaskWrapper and Miniq (`new_app`, `task_decorator` and
--                       `new_worker` are its constructor, `task` and `worker`); and AsyncResult.get
--                       of src/miniq/task.py. App/EndToEnd composes it with the worker,
--                       App/Persisted does so over SQLite, and App/DeadLetters composes the worker
--                       with the command that replays a dead letter
--   Worker, Worker/*    src/miniq/worker.py: run_once, _handle_failure, _dead_letter and run, over
--                       any backends; Worker/InMemory puts it over the in-memory backends, and
--                       Worker/Persistent over the SQLite backends, on tables that other
--                       connections share; Worker/Delays is about the claims after a retry
--   Cli, Cli/*          src/miniq/cli.py: status, dlq list, dlq replay and purge, on the tables of
--                       one database file; the worker command is in Cli/RunWorkers, and its
--                       task modules in Cli/TaskModules
--   Files, Files/*      the constructors of SQLiteQueue and SQLiteResultBackend, on the file that
--                       the commands of Cli run on
--   Pool, Pool/*        src/miniq/pool.py: WorkerPool. `launch` is the loop of start;
--                       `terminate_alive`, `join_each` and `kill_alive` are the phases of stop.
--                       Pool/Entry is what runs inside a worker process
--
-- How state and time are modelled. A method is a function from the state to its result and the next
-- state; what it raises is a value of `Result`. A method of InMemoryQueue runs under its one lock,
-- so it is one step; a method of SQLiteQueue is its transaction. A clock's reading is an argument.
-- A loop that waits runs over a list of passes, each with the clocks' readings, the locks that it
-- meets and what others do meanwhile; where the list is too short the result says that the call
-- still waits, and the theorems on termination say which lists are long enough. Times are integers
-- that count ticks of any length, the integers of Python are unbounded, and ids, which the program
-- only compares, are numbers.
--
-- Parameters, since their code is not miniq's: the json module and the UTF-8 codec (`Json`; what
-- Python documents of the values they read back is `JsonLaws` of Serializers/ReadBack), floats
-- and the random module in the retry policies (`Floats`; their laws, NaN and infinity included, are
-- `FloatLaws` of Retry/Laws), the task functions (`call`) and the text
-- of an exception. Of rows that an ORDER BY does not tell apart, the model takes the first.
--
-- A process of the pool is given by when it exits, as a function of the signals sent to it, and
-- a call that waits for it by the time at which it returns.
--
-- Not modelled: the parsing of the command line, which is argparse's, and the package files; the
-- pragmas, the indexes and the closing of SQLite connections, the OverflowError of an integer that
-- does not fit the 64 bits of an INTEGER column, logging, and the text of messages.
pub mod Base
pub mod Values
pub mod Exceptions
pub mod Task
pub mod Heap
pub mod Memory
pub mod Serializers
pub mod Sqlite
pub mod SqliteQueue
pub mod Backends
pub mod Worker
pub mod Registry
pub mod Results
pub mod Retry
pub mod App
pub mod Cli
pub mod Files
pub mod Pool
