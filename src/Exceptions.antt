-- ===== src/Exceptions.antt =====
-- The exceptions of src/miniq/exceptions.py, and those of Python and sqlite3 that miniq raises or
-- lets through. An exception holds the values that its message is formatted from.
use miniq.Base.{ℕ, ℤ, Option, none, some, String, ◌≡◌, refl, inl, inr, ◌⊎◌}

pub data Exception : Type 0 where
  -- miniq's own
  serialization_error : Exception
  task_failed : (task_id : ℕ) (error : Option String) → Exception
  task_timeout : (task_id : ℕ) (timeout_seconds : ℤ) → Exception
  task_not_registered : (func_path : String) → Exception
  -- Python's
  value_error type_error runtime_error recursion_error : Exception
  key_error index_error overflow_error : Exception
  json_decode_error unicode_decode_error : Exception
  -- sqlite3's
  operational_error integrity_error : Exception
  -- what a task's function raises: the name of its type, and its text
  raised : (type_name message : String) → Exception

-- A call returns or raises.
pub data Result {ℓ} (A : Type ℓ) : Type ℓ where
  ok : A → Result A
  err : Exception → Result A

infixl 5 ◌>>=◌
abbrev pub ◌>>=◌ {ℓ κ} : {A : Type ℓ} {B : Type κ} → Result A → (A → Result B) → Result B
ok a >>= f = f a
err e >>= f = err e

-- `raise e` where the value is missing
abbrev pub or_raise {ℓ} : {A : Type ℓ} → Option A → Exception → Result A
or_raise (some a) e = ok a
or_raise none e = err e

pub Result-cases {ℓ} :
    {A : Type ℓ} (r : Result A) → ((a : A) × (r ≡ ok a)) ⊎ ((e : Exception) × (r ≡ err e))
Result-cases (ok a) = inl (a, refl)
Result-cases (err e) = inr (e, refl)
