-- ===== src/Task.antt =====
-- `TaskStatus` and `Task` of src/miniq/task.py. What a method reads from the clock is its
-- argument `now`.
use miniq.Base.{ℕ, ℤ, Option, none, some, String, List}
use miniq.Values.{Value}

pub data TaskStatus : Type 0 where
  pending running success failed : TaskStatus

-- Ids are UUID texts, which the program only compares: they are numbers here.
abbrev pub TaskId : Type 0
TaskId = ℕ

-- An instant of a clock, or a duration.
abbrev pub Time : Type 0
Time = ℤ

pub record Task : Type 0 where
  pub func_path : String
  pub args : List Value
  pub kwargs : Value
  pub id : TaskId
  pub status : TaskStatus
  pub retries : ℤ
  pub max_retries : ℤ
  pub priority : ℤ
  pub created_at : Time
  pub started_at : Option Time
  pub finished_at : Option Time
  pub available_at : Option Time
  pub result : Value
  pub error : Option String

abbrev pub mark_running : Time → Task → Task
mark_running now t = record t { status = running; started_at = some now }

abbrev pub mark_success : Value → Time → Task → Task
mark_success result now t = record t { status = success; result = result; finished_at = some now }

abbrev pub mark_failed : String → Time → Task → Task
mark_failed error now t = record t { status = failed; error = some error; finished_at = some now }

abbrev pub mark_pending : Task → Task
mark_pending t = record t { status = pending; started_at = none }
