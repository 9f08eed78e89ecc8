-- ===== src/Sqlite/Atomic.antt =====
-- Transactions are atomic.
use miniq.Base.{◌≡◌, refl, Bool, true, false}
use miniq.Exceptions.{Result, ok, err}
use miniq.Sqlite.{Lock, free, at_first, at_commit, Statement, transaction, body_and_commit}

module _ {S A : Type 0} where
  -- A transaction that raises leaves the database as it was, and one that returns has run its
  -- whole body.
  abbrev pub IsAtomic : Statement S A → S → Result A × S → Type 0
  IsAtomic body s (err _, s') = s' ≡ s
  IsAtomic body s (ok a, s') = body s ≡ ok (a, s')

  free-IsAtomic :
      (body : Statement S A) (s : S) (r : Result (A × S))
      → body s ≡ r
      → IsAtomic body s (body_and_commit free (λ _. r) s)
  free-IsAtomic body s (ok (a, s')) e = e
  free-IsAtomic body s (err x) e = refl

  commit-IsAtomic :
      (body : Statement S A) (s : S) (r : Result (A × S))
      → IsAtomic body s (body_and_commit at_commit (λ _. r) s)
  commit-IsAtomic body s (ok a) = refl
  commit-IsAtomic body s (err x) = refl

  -- Whatever lock it meets, a transaction that raises leaves the database as it was, and one that
  -- returns has run its whole body.
  pub transaction-IsAtomic :
      (immediate : Bool) (lock : Lock) (body : Statement S A) (s : S)
      → IsAtomic body s (transaction immediate lock body s)
  unfolding transaction
  transaction-IsAtomic true free body s = free-IsAtomic body s (body s) refl
  transaction-IsAtomic false free body s = free-IsAtomic body s (body s) refl
  transaction-IsAtomic true at_first body s = refl
  transaction-IsAtomic false at_first body s = refl
  transaction-IsAtomic true at_commit body s = commit-IsAtomic body s (body s)
  transaction-IsAtomic false at_commit body s = commit-IsAtomic body s (body s)

  table_of_atomic :
      (body : Statement S A) (s : S) (P : S → Type 0) (r : Result A × S)
      → IsAtomic body s r
      → P s
      → ((a : A) (s' : S) → body s ≡ ok (a, s') → P s')
      → P r.1
  table_of_atomic body s P (err _, s') same before after = rw same before
  table_of_atomic body s P (ok a, s') e before after = after a s' e

  -- What holds of the database before a transaction, and after its body, holds after it.
  pub transaction_table :
      (immediate : Bool) (lock : Lock) (body : Statement S A) (s : S) (P : S → Type 0)
      → P s
      → ((a : A) (s' : S) → body s ≡ ok (a, s') → P s')
      → P (transaction immediate lock body s).1
  transaction_table immediate lock body s P before after =
      table_of_atomic body s P (transaction immediate lock body s)
        (transaction-IsAtomic immediate lock body s) before after
