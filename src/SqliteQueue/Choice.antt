-- ===== src/SqliteQueue/Choice.antt =====
-- Which row `_try_claim` takes, and what its transaction does to the table.
use mathlib.Core.List.{Memᴰ, cons≢nil}
use miniq.Base.{
  ◌≡◌, refl, ap, ◌⊎◌, inl, inr, Bool, true, false, Option, none, some, [], ◌∷◌, All, All-map,
  select, arith, if◌then◌else◌, ◌<ℤ◌, ◌+ℤ◌, Bool-cases,
}
use miniq.Exceptions.{Exception, Result, ok, err, ◌>>=◌, Result-cases}
use miniq.Task.{Task, Time, running}
use miniq.Serializers.{Serializer}
use miniq.Sqlite.{free, transaction}
use miniq.SqliteQueue.{
  Row, Table, has_id, update_where, is_claimable, precedes, first_row, claim_row, row_to_task,
  claim, ignore_locked, try_claim,
}

-- A higher priority, or the same one and an earlier creation.
abbrev pub Outranks : Row → Row → Type 0
Outranks a b =
    (b.priority <ℤ a.priority) ⊎ (a.priority ≡ b.priority) × (a.created_at <ℤ b.created_at)

not_precedes : (a b : Row) → precedes a b ≡ false → ¬ Outranks a b
unfolding precedes
not_precedes a b h k = ground arith

precedes-Outranks : (a b : Row) → precedes a b ≡ true → Outranks a b
unfolding precedes
precedes-Outranks a b h = ground arith

Outranks-asymm : (a b : Row) → Outranks a b → ¬ Outranks b a
Outranks-asymm a b h k = ground arith

Outranks-irrefl : (a : Row) → ¬ Outranks a a
Outranks-irrefl a h = ground arith

not_Outranks-weaken : (a b c : Row) → ¬ Outranks a b → ¬ Outranks b c → ¬ Outranks a c
not_Outranks-weaken a b c h k l = ground arith

-- `row` is one of the rows, and none of them outranks it.
abbrev pub IsTop : Table → Row → Type 0
IsTop rows row = Memᴰ row rows × All (λ q. ¬ Outranks q row) rows

abbrev Top : Table → Option Row → Type 0
Top rows none = rows ≡ []
Top rows (some row) = IsTop rows row

-- The step of `first_row`, from what it found in the rest.
Top-cons :
    (row : Row) (rows : Table) (found : Option Row)
    → Top rows found
    → Top (row ∷ rows) (elim found [
      | none ↦ some row
      | some best ↦ if precedes best row then some best else some row
    ])
Top-cons row rows none empty = (Memᴰ.head refl, (Outranks-irrefl row, rw empty tt))
Top-cons row rows (some best) (i, top) = elim (Bool-cases (precedes best row)) [
  | inl better ↦
      rw better (Memᴰ.tail i, (Outranks-asymm best row (precedes-Outranks best row better), top))
  | inr worse ↦
      let below = not_precedes best row worse in
      rw worse (
        Memᴰ.head refl,
        (
          Outranks-irrefl row,
          All-map _ _ rows (λ q low. not_Outranks-weaken q best row low below) top,
        ),
      )
]

first_row-Top : (rows : Table) → Top rows (first_row rows)
unfolding first_row
first_row-Top [] = refl
first_row-Top (row ∷ rows) = Top-cons row rows (first_row rows) (first_row-Top rows)

module _ (now : Time) where
  abbrev pub IsClaimable : Row → Type 0
  IsClaimable row = is_claimable now row ≡ true

  abbrev pub NoneClaimable : Table → Type 0
  NoneClaimable = All (λ row. ¬ IsClaimable row)

  -- `row` is claimable, and no claimable row outranks it.
  abbrev pub IsBest : Table → Row → Type 0
  IsBest rows row =
      Memᴰ row rows × IsClaimable row × All (λ q. IsClaimable q → ¬ Outranks q row) rows

  select-empty : (rows : Table) → select (is_claimable now) rows ≡ [] → NoneClaimable rows
  select-empty [] h = tt
  select-empty (q ∷ rows) h = elim (Bool-cases (is_claimable now q)) [
    | inl open' ↦ absurd (cons≢nil (rw open' at h))
    | inr shut ↦ (λ o. cc, select-empty rows (rw shut at h))
  ]

  select-All :
      (P : Row → Type 0) (rows : Table)
      → All P (select (is_claimable now) rows)
      → All (λ q. IsClaimable q → P q) rows
  select-All P [] h = tt
  select-All P (q ∷ rows) h = elim (Bool-cases (is_claimable now q)) [
    | inl open' ↦ let h' = rw open' at h in (λ o. h'.0, select-All P rows h'.1)
    | inr shut ↦ (λ o. absurd (cc), select-All P rows (rw shut at h))
  ]

  select-mem_cons :
      {row : Row} (q : Row) (rest rows : Table) (b : Bool)
      → is_claimable now q ≡ b
      → (Memᴰ row rest → Memᴰ row rows × IsClaimable row)
      → Memᴰ row (if b then q ∷ rest else rest)
      → Memᴰ row (q ∷ rows) × IsClaimable row
  select-mem_cons q rest rows true e later (Memᴰ.head same) = (Memᴰ.head same, rw same e)
  select-mem_cons q rest rows true e later (Memᴰ.tail i) = let (j, c) = later i in (Memᴰ.tail j, c)
  select-mem_cons q rest rows false e later i = let (j, c) = later i in (Memᴰ.tail j, c)

  select-mem :
      {row : Row} (rows : Table)
      → Memᴰ row (select (is_claimable now) rows)
      → Memᴰ row rows × IsClaimable row
  select-mem [] i = elim i [ ]
  select-mem (q ∷ rows) i = select-mem_cons q _ rows (is_claimable now q) refl (select-mem rows) i

  abbrev FoundBest : Table → Option Row → Type 0
  FoundBest rows none = NoneClaimable rows
  FoundBest rows (some row) = IsBest rows row

  candidates-FoundBest :
      (rows : Table) → FoundBest rows (first_row (select (is_claimable now) rows))
  candidates-FoundBest rows = go _ (first_row-Top (select (is_claimable now) rows))
    where
      go : (found : Option Row) → Top (select (is_claimable now) rows) found → FoundBest rows found
      go none empty = select-empty rows empty
      go (some row) (i, top) = let (j, c) = select-mem rows i in (j, c, select-All _ rows top)

-- What a claim with no lock in the way does.
module _ (serializer : Serializer) (visibility_timeout now : Time) (rows : Table) where
  -- The task is handed out RUNNING, and its row, and no other, is marked so.
  abbrev pub Claims : Row → Type 0
  Claims row =
      (task : Task) × (row_to_task serializer row ≡ ok task)
      × (try_claim serializer free visibility_timeout now rows ≡ (
        ok (some (record task { status = running; started_at = some now })),
        update_where (has_id row.id) (claim_row now (now +ℤ visibility_timeout)) rows,
      ))

  -- A row whose texts do not decode stays as it is, and the error is the caller's.
  abbrev pub Fails : Row → Type 0
  Fails row =
      (e : Exception) × (row_to_task serializer row ≡ err e)
      × (try_claim serializer free visibility_timeout now rows ≡ ignore_locked (err e, rows))

  -- The claim, from what its transaction's body does.
  try_claim_free :
      {r : Result (Option Task × Table)}
      → claim serializer now (now +ℤ visibility_timeout) rows ≡ r
      → try_claim serializer free visibility_timeout now rows
        ≡ ignore_locked (transaction true free (λ _. r) rows)
  unfolding try_claim transaction
  try_claim_free e = ap (λ r. ignore_locked (transaction true free (λ _. r) rows)) e

  -- With no lock in the way a claim finds no claimable row and changes nothing; or it takes a
  -- claimable row that no claimable row outranks, hands out its task as RUNNING and marks that
  -- row; or, where the row does not decode, it leaves the table as it was.
  pub try_claim_cases :
      NoneClaimable now rows
        × (try_claim serializer free visibility_timeout now rows ≡ (ok none, rows))
      ⊎ ((row : Row) × IsBest now rows row × (Claims row ⊎ Fails row))
  unfolding claim transaction
  try_claim_cases = go _ refl (candidates-FoundBest now rows)
    where
      go :
          (found : Option Row)
          → first_row (select (is_claimable now) rows) ≡ found
          → FoundBest now rows found
          → NoneClaimable now rows
              × (try_claim serializer free visibility_timeout now rows ≡ (ok none, rows))
            ⊎ ((row : Row) × IsBest now rows row × (Claims row ⊎ Fails row))
      go none e empty = inl (empty, try_claim_free {r = ok (none, rows)} (rw (claim, e)))
      go (some row) e best = elim (Result-cases (row_to_task serializer row)) [
        | inl (task, decoded) ↦ inr (
          row,
          best,
          inl (
            task,
            decoded,
            try_claim_free
                {r = ok (
                  some (record task { status = running; started_at = some now }),
                  update_where (has_id row.id) (claim_row now (now +ℤ visibility_timeout)) rows,
                )}
                (rw (claim, e, decoded, ◌>>=◌)),
          ),
        )
        | inr (x, failed) ↦
            inr (
              row,
              best,
              inr (x, failed, try_claim_free {r = err x} (rw (claim, e, failed, ◌>>=◌))),
            )
      ]

-- The body of the claim's transaction, where it returns: it has found nothing, or it has marked
-- the best row.
module _ (serializer : Serializer) (now claimed_until : Time) (rows : Table) where
  abbrev pub Marks : Option Task → Table → Type 0
  Marks found rows' =
      (row : Row) × (task : Task) × IsBest now rows row
      × (row_to_task serializer row ≡ ok task)
      × (found ≡ some (record task { status = running; started_at = some now }))
      × (rows' ≡ update_where (has_id row.id) (claim_row now claimed_until) rows)

  pub claim_cases :
      {found : Option Task} {rows' : Table}
      → claim serializer now claimed_until rows ≡ ok (found, rows')
      → (found ≡ none) × (rows' ≡ rows) ⊎ Marks found rows'
  unfolding claim
  claim_cases {found} {rows'} e = go _ refl (candidates-FoundBest now rows)
    where
      go :
          (best : Option Row)
          → first_row (select (is_claimable now) rows) ≡ best
          → FoundBest now rows best
          → (found ≡ none) × (rows' ≡ rows) ⊎ Marks found rows'
      go none f empty = let e' = rw (claim, f) at e in inl (cc, cc)
      go (some row) f best = elim (Result-cases (row_to_task serializer row)) [
        | inl (task, decoded) ↦
            let e' = rw (claim, f, decoded, ◌>>=◌) at e in inr (row, task, best, decoded, cc, cc)
        | inr (x, failed) ↦ absurd (let e' = rw (claim, f, failed, ◌>>=◌) at e in cc)
      ]
