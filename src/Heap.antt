-- ===== src/Heap.antt =====
-- Python's objects of class `Task`: a heap, since the in-memory queue, the in-memory results and
-- the worker hold references to one object.
use miniq.Base.{ℕ, suc, ◌==◌, if◌then◌else◌}
use miniq.Task.{Task}

abbrev pub Ref : Type 0
Ref = ℕ

-- A reference that the program holds is below `next`: Python has no dangling references.
pub record Heap : Type 0 where
  pub cell : Ref → Task
  pub next : Ref

-- Mutation of the object at `r`.
abbrev pub modify : Ref → (Task → Task) → Heap → Heap
modify r f h = record h { cell = λ q. if r == q then f (h.cell r) else h.cell q }

-- A new object, and the heap with it.
abbrev pub alloc : Task → Heap → Ref × Heap
alloc task h =
    (h.next, record { cell = λ q. if h.next == q then task else h.cell q; next = suc h.next })
