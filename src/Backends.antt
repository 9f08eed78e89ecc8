-- ===== src/Backends.antt =====
-- The interfaces `QueueBackend` of src/miniq/queue/base.py and `ResultBackend` of
-- src/miniq/results.py, as far as the worker and the pool call them. A method acts on the state of the world,
-- and what it has changed stays changed when it raises.
use miniq.Base.{ℕ, Bool, Option}
use miniq.Exceptions.{Result, ok, err}
use miniq.Task.{Task, TaskId, Time}
use miniq.Heap.{Ref}

abbrev pub Action : Type 0 → Type 0 → Type 0
Action W A = W → Result A × W

-- What a call left, and then the rest of the method, unless the call raised.
abbrev pub feed : {W A B : Type 0} → Result A × W → (A → Action W B) → Result B × W
feed (ok a, w) f = f a w
feed (err e, w) f = (err e, w)

infixl 5 ◌>>=◌
abbrev pub ◌>>=◌ : {W A B : Type 0} → Action W A → (A → Action W B) → Action W B
(m >>= f) w = feed (m w) f

abbrev pub return : {W A : Type 0} → A → Action W A
return a w = (ok a, w)

pub record QueueBackend (W : Type 0) : Type 0 where
  pub enqueue : Ref → Action W (Unit {0})
  pub dequeue : (visibility_timeout wait_seconds : Time) → Action W (Option Ref)
  pub ack : Ref → Action W (Unit {0})
  pub nack : Ref → Bool → Action W (Unit {0})
  pub size : Action W ℕ
  pub close : Action W (Unit {0})

pub record ResultBackend (W : Type 0) : Type 0 where
  pub store : Ref → Action W (Unit {0})
  pub get : TaskId → Action W (Option Task)
  pub close : Action W (Unit {0})
