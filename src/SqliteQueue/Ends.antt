-- ===== src/SqliteQueue/Ends.antt =====
-- The loop of `SQLiteQueue.dequeue` ends.
use miniq.Base.{
  ◌≡◌, ◌≢◌, inl, inr, false, Option, none, some, List, [], ◌∷◌, Any, Any-map, ◌⊎◌, arith,
  Bool-cases, if◌then◌else◌, pos, int_laws, ltb_ℤ, leb_ℤ, ◌≤ℤ◌, ◌+ℤ◌, ◌-ℤ◌,
}
use miniq.Exceptions.{Result, ok, err}
use miniq.Task.{Task, Time}
use miniq.Serializers.{Serializer}
use miniq.SqliteQueue.{Table}
use miniq.SqliteQueue.Polling.{Pass, Progress, polling, poll, after_poll, dequeue_loop, dequeue}

-- A pass that finds no task ends the call: there is no deadline, or it has come.
abbrev Expires : Option Time → Pass → Type 0
Expires none p = Unit
Expires (some d) p = d ≤ℤ p.checked_at

not_expired :
    (d : Time) (p : Pass) → leb_ℤ (d -ℤ p.checked_at) (pos 0) ≡ false → ¬ (d ≤ℤ p.checked_at)
not_expired d p left h = grind int_laws

module _ (serializer : Serializer) (visibility_timeout : Time) where
  expired_ends :
      (deadline : Option Time) (p : Pass) (rest : Table → Result Progress × Table)
      (r : Result (Option Task) × Table)
      → Expires deadline p
      → (after_poll serializer visibility_timeout deadline p rest r).0 ≢ ok polling
  expired_ends deadline p rest (err e, rows) x h = cc
  expired_ends deadline p rest (ok (some task), rows) x h = cc
  expired_ends none p rest (ok none, rows) x h = cc
  expired_ends (some d) p rest (ok none, rows) x h =
      elim (Bool-cases (leb_ℤ (d -ℤ p.checked_at) (pos 0))) [
        | inl over ↦ let h' = rw over at h in cc
        | inr left ↦ not_expired d p left x
      ]

  rest_ends :
      (deadline : Option Time) (p : Pass) (rest : Table → Result Progress × Table)
      (r : Result (Option Task) × Table)
      → ((rows : Table) → (rest rows).0 ≢ ok polling)
      → (after_poll serializer visibility_timeout deadline p rest r).0 ≢ ok polling
  rest_ends deadline p rest (err e, rows) x h = cc
  rest_ends deadline p rest (ok (some task), rows) x h = cc
  rest_ends none p rest (ok none, rows) x h = cc
  rest_ends (some d) p rest (ok none, rows) x h =
      elim (Bool-cases (leb_ℤ (d -ℤ p.checked_at) (pos 0))) [
        | inl over ↦ let h' = rw over at h in cc
        | inr left ↦ x (p.during_sleep rows) (rw left at h)
      ]

  dequeue_loop_ends :
      (deadline : Option Time) (ps : List Pass) (rows : Table)
      → Any (Expires deadline) ps
      → (dequeue_loop serializer visibility_timeout deadline ps rows).0 ≢ ok polling
  unfolding dequeue_loop
  dequeue_loop_ends deadline [] rows x = elim x [ ]
  dequeue_loop_ends deadline (p ∷ ps) rows (inl now) = expired_ends deadline p _ _ now
  dequeue_loop_ends deadline (p ∷ ps) rows (inr later) =
      rest_ends deadline p _ (poll serializer visibility_timeout p rows)
        (λ t. dequeue_loop_ends deadline ps t later)

  deadline-Expires :
      (wait_seconds called_at : Time) (p : Pass)
      → (wait_seconds ≤ℤ pos 0) ⊎ (called_at +ℤ wait_seconds ≤ℤ p.checked_at)
      → Expires (if ltb_ℤ (pos 0) wait_seconds then some (called_at +ℤ wait_seconds) else none) p
  deadline-Expires wait_seconds called_at p h = elim (Bool-cases (ltb_ℤ (pos 0) wait_seconds)) [
    | inl bounded ↦ rw bounded (ground arith)
    | inr unbounded ↦ rw unbounded tt
  ]

  -- `dequeue` is over, whatever the locks and the other connections do: without a wait after its
  -- first pass, and with one at the latest after the first pass whose check of the clock is not
  -- before the deadline.
  pub dequeue_ends :
      (wait_seconds called_at : Time) (ps : List Pass) (rows : Table)
      → Any (λ p. (wait_seconds ≤ℤ pos 0) ⊎ (called_at +ℤ wait_seconds ≤ℤ p.checked_at)) ps
      → (dequeue serializer visibility_timeout wait_seconds called_at ps rows).0 ≢ ok polling
  unfolding dequeue
  dequeue_ends wait_seconds called_at ps rows x =
      dequeue_loop_ends _ ps rows (Any-map _ _ ps (deadline-Expires wait_seconds called_at) x)
