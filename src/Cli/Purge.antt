-- ===== src/Cli/Purge.antt =====
-- `miniq purge` of src/miniq/cli.py.
use mathlib.Core.List.{Memᴰ}
use miniq.Base.{
  ℕ, ◌+◌, ◌≡◌, ◌↔◌, ◌⊎◌, refl, sym, ap, ◌∙◌, subst, inl, inr, Bool, Bool-cases, true, false, ◌&&◌,
  not, if◌then◌else◌, ◌+ℤ◌, ◌-ℤ◌, ◌≤ℤ◌, leb_ℤ, +ℤ_parts, -ℤ_parts, Option, none, some, List, [],
  ◌∷◌, length, arith,
}
use miniq.Exceptions.{ok}
use miniq.Task.{Time, TaskStatus, success, failed}
use miniq.Sqlite.{free, transaction}
use miniq.SqliteQueue.{Row, Table}
use miniq.Results.{ResultRow, ResultTable}
use miniq.Cli.{
  Database, Outcome, purged, on_database, is_purged_status, is_finished_by, is_purged,
  is_purged_result, delete_where, purge_results, cmd_purge,
}

-- A status that the command purges.
abbrev pub IsEnded : (include_failed : Bool) → TaskStatus → Type 0
IsEnded include_failed s = (s ≡ success) ⊎ ((include_failed ≡ true) × (s ≡ failed))

is_purged_status_iff :
    (include_failed : Bool) (s : TaskStatus)
    → (is_purged_status include_failed s ≡ true) ↔ IsEnded include_failed s
unfolding is_purged_status
is_purged_status_iff include_failed s = ground arith

and_iff :
    {a b : Bool} {P Q : Type 0} → (a ≡ true) ↔ P → (b ≡ true) ↔ Q → ((a && b) ≡ true) ↔ (P × Q)
and_iff {a} h k = elim (Bool-cases a) [
  | inl e ↦ rw e (λ f. (h.0 e, k.0 f), λ f. k.1 f.1)
  | inr e ↦ rw e (λ f. cc, λ f. let e' : a ≡ true = h.1 f.0 in cc)
]

-- It happened at least `older_than` before `now`.
abbrev pub IsOld : (older_than now at : Time) → Type 0
IsOld older_than now at = at +ℤ older_than ≤ℤ now

cutoff_iff :
    (older_than now at : Time) → (leb_ℤ at (now -ℤ older_than) ≡ true) ↔ IsOld older_than now at
cutoff_iff older_than now at = ground (arith, +ℤ_parts at older_than, -ℤ_parts now older_than)

module _ (include_failed : Bool) (older_than now : Time) where
  -- The rows that the command is to delete.
  abbrev pub IsPurgeable : Row → Type 0
  IsPurgeable row =
      IsEnded include_failed row.status
      × ((at : Time) × (row.finished_at ≡ some at) × IsOld older_than now at)

  abbrev pub IsPurgeableResult : ResultRow → Type 0
  IsPurgeableResult row = IsEnded include_failed row.status × IsOld older_than now row.stored_at

  finished_iff :
      (finished_at : Option Time)
      → (is_finished_by (now -ℤ older_than) finished_at ≡ true)
        ↔ ((at : Time) × (finished_at ≡ some at) × IsOld older_than now at)
  unfolding is_finished_by
  finished_iff none = ground arith
  finished_iff (some at) = (λ h. (at, refl, old.0 h), λ h. old.1 (same h.0 h.1 h.2))
    where
      old : (leb_ℤ at (now -ℤ older_than) ≡ true) ↔ IsOld older_than now at
      old = cutoff_iff older_than now at

      same : (at' : Time) → some at ≡ some at' → IsOld older_than now at' → IsOld older_than now at
      same at' e h = let e' : at ≡ at' = cc in subst (IsOld older_than now) (sym e') h

  purged_iff :
      (row : Row) → (is_purged include_failed (now -ℤ older_than) row ≡ true) ↔ IsPurgeable row
  unfolding is_purged
  purged_iff row =
      and_iff (is_purged_status_iff include_failed row.status) (finished_iff row.finished_at)

  purged_result_iff :
      (row : ResultRow)
      → (is_purged_result include_failed (now -ℤ older_than) row ≡ true) ↔ IsPurgeableResult row
  unfolding is_purged_result
  purged_result_iff row =
      and_iff (is_purged_status_iff include_failed row.status)
        (cutoff_iff older_than now row.stored_at)

-- Of `xs` exactly the elements without `P` are left, and `n` elements are gone.
abbrev pub IsDeleted : {A : Type 0} → (A → Type 0) → List A → List A → ℕ → Type 0
IsDeleted P xs left n =
    (n + length left ≡ length xs) × ((x : _) → Memᴰ x left ↔ (Memᴰ x xs × ¬ P x))

module _ {A : Type 0} (test : A → Bool) (P : A → Type 0)
    (iff : (x : A) → (test x ≡ true) ↔ P x) where
  abbrev left_of : List A → List A
  left_of xs = (delete_where test xs).0

  deleted_length : (xs : List A) → (delete_where test xs).1 + length (left_of xs) ≡ length xs
  deleted_length [] = omega arith
  deleted_length (x ∷ xs) = ground (arith, deleted_length xs)

  left_cons :
      {x : A} (y : A) (b : Bool) {xs : List A}
      → Memᴰ x (if not b then y ∷ xs else xs)
      → ((x ≡ y) × (b ≡ false)) ⊎ Memᴰ x xs
  left_cons y true m = inr m
  left_cons y false (Memᴰ.head e) = inl (e, refl)
  left_cons y false (Memᴰ.tail m) = inr m

  left_head : (x y : A) (xs : List A) → x ≡ y → test y ≡ false → Memᴰ x (left_of (y ∷ xs))
  left_head x y xs e h = rw h (Memᴰ.head e)

  left_tail : (x y : A) (xs : List A) → Memᴰ x (left_of xs) → Memᴰ x (left_of (y ∷ xs))
  left_tail x y xs m = elim (Bool-cases (test y)) [ inl e ↦ rw e m | inr e ↦ rw e (Memᴰ.tail m) ]

  spared : (x y : A) → x ≡ y → test y ≡ false → ¬ P x
  spared x y e h p = let h' : test x ≡ true = (iff x).1 p in cc

  left_in : (x : A) (xs : List A) → Memᴰ x (left_of xs) → Memᴰ x xs × ¬ P x
  left_in x [] h = elim h [ ]
  left_in x (y ∷ xs) h = elim (left_cons y (test y) h) [
    | inl (e, kept) ↦ (Memᴰ.head e, spared x y e kept)
    | inr m ↦ let (m', spares) = left_in x xs m in (Memᴰ.tail m', spares)
  ]

  in_left : (x : A) (xs : List A) → Memᴰ x xs → ¬ P x → Memᴰ x (left_of xs)
  in_left x [] h spares = elim h [ ]
  in_left x (y ∷ xs) (Memᴰ.head e) spares = elim (Bool-cases (test y)) [
    | inl h ↦ elim (spares ((iff x).0 (ap test e ∙ h))) [ ]
    | inr h ↦ left_head x y xs e h
  ]
  in_left x (y ∷ xs) (Memᴰ.tail m) spares = left_tail x y xs (in_left x xs m spares)

  delete_where-IsDeleted : (xs : List A) → IsDeleted P xs (left_of xs) (delete_where test xs).1
  delete_where-IsDeleted xs = (deleted_length xs, λ x. (left_in x xs, λ h. in_left x xs h.0 h.1))

module _ (include_failed : Bool) (older_than now : Time) where
  -- The stored results, where the file has them.
  abbrev pub IsDeletedResults : Option ResultTable → Option ResultTable → ℕ → Type 0
  IsDeletedResults none left m = (left ≡ none) × (m ≡ 0)
  IsDeletedResults (some results) left m =
      (left' : ResultTable) × (left ≡ some left')
      × IsDeleted (IsPurgeableResult include_failed older_than now) results left' m

  purge_results-IsDeleted :
      (results : Option ResultTable)
      → let (left, m) = purge_results include_failed (now -ℤ older_than) results in
        IsDeletedResults results left m
  purge_results-IsDeleted none = (refl, refl)
  purge_results-IsDeleted (some results) = (
    _,
    refl,
    delete_where-IsDeleted _ _ (purged_result_iff include_failed older_than now) results,
  )

  -- What the command makes of the file.
  pub record IsPurge (db : Database) (rows : Table) (outcome : Outcome) : Type 0 where
    pub left : Table
    pub results : Option ResultTable
    pub deleted : ℕ
    pub deleted_results : ℕ
    pub outcome_is : outcome ≡ (
      ok (0, purged deleted deleted_results),
      some (record { tasks = some left; results = results }),
    )
    pub tasks_deleted : IsDeleted (IsPurgeable include_failed older_than now) rows left deleted
    pub results_deleted : IsDeletedResults db.results results deleted_results

  -- On a file that has the table `tasks`, with no lock met, `miniq purge` exits with 0 and deletes
  -- exactly the rows of status SUCCESS, or FAILED with --include-failed, that ended at least
  -- `older_than` ago; every other row is left. Of the stored results, where the file has them, it
  -- deletes exactly those of such a status that were stored at least that long ago. The two numbers
  -- that it prints are the numbers of rows that it has deleted.
  pub cmd_purge-IsPurge :
      (db : Database) (rows : Table)
      → db.tasks ≡ some rows
      → IsPurge db rows (cmd_purge free older_than include_failed now (some db))
  unfolding cmd_purge on_database transaction
  cmd_purge-IsPurge db rows h = record {
    left = _;
    results = _;
    deleted = _;
    deleted_results = _;
    outcome_is = rw h refl;
    tasks_deleted = delete_where-IsDeleted _ _ (purged_iff include_failed older_than now) rows;
    results_deleted = purge_results-IsDeleted db.results;
  }
