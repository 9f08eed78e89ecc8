-- ===== src/Results/Wait.antt =====
-- The loop of `wait`, of both result backends.
use miniq.Base.{
  ℤ, pos, ◌≡◌, ◌≢◌, refl, inl, inr, ◌⊎◌, true, false, Option, none, some, List, [], ◌∷◌, Any,
  Bool-cases, int_laws, leb_ℤ, ◌-ℤ◌, ◌+ℤ◌, ◌≤ℤ◌,
}
use miniq.Exceptions.{Result, ok, err, task_timeout}
use miniq.Task.{Task, TaskId, Time}
use miniq.Results.{
  Look, Waiting, ended, waits, or_zero, is_finished, check_deadline, turn, wait_loop, wait,
}

-- A check of the clock was not before the deadline.
abbrev pub HasExpired : Option Time → List Look → Type 0
HasExpired none ls = ⊥
HasExpired (some d) ls = Any (λ (l : Look). d ≤ℤ l.checked_at) ls

-- What a call of `wait` may end with: a finished task that a turn has seen, a timeout where the
-- deadline is over, or an error of `get`.
abbrev pub IsOutcome : TaskId → ℤ → Option Time → List Look → Result Task → Type 0
IsOutcome tid timeout deadline ls (ok task) =
    (is_finished task.status ≡ true) × Any (λ (l : Look). l.seen ≡ ok (some task)) ls
IsOutcome tid timeout deadline ls (err e) =
    (e ≡ task_timeout tid timeout) × HasExpired deadline ls ⊎ Any (λ (l : Look). l.seen ≡ err e) ls

abbrev pub IsWaiting : TaskId → ℤ → Option Time → List Look → Waiting → Type 0
IsWaiting tid timeout deadline ls waits = Unit
IsWaiting tid timeout deadline ls (ended r) = IsOutcome tid timeout deadline ls r

expired_later :
    (deadline : Option Time) (l : Look) (ls : List Look)
    → HasExpired deadline ls
    → HasExpired deadline (l ∷ ls)
expired_later none l ls h = h
expired_later (some d) l ls h = inr h

later :
    (tid : TaskId) (timeout : ℤ) (deadline : Option Time) (l : Look) (ls : List Look) (w : Waiting)
    → IsWaiting tid timeout deadline ls w
    → IsWaiting tid timeout deadline (l ∷ ls) w
later tid timeout deadline l ls waits h = tt
later tid timeout deadline l ls (ended (ok task)) (f, x) = (f, inr x)
later tid timeout deadline l ls (ended (err e)) (inl (t, x)) =
    inl (t, expired_later deadline l ls x)
later tid timeout deadline l ls (ended (err e)) (inr x) = inr (inr x)

expired : (d : Time) (l : Look) → leb_ℤ (d -ℤ l.checked_at) (pos 0) ≡ true → d ≤ℤ l.checked_at
expired d l over = grind int_laws

checked :
    (tid : TaskId) (timeout : ℤ) (deadline : Option Time) (l : Look) (ls : List Look)
    (rest : Waiting)
    → IsWaiting tid timeout deadline ls rest
    → IsWaiting tid timeout deadline (l ∷ ls) (check_deadline tid timeout deadline l rest)
checked tid timeout none l ls rest h = later tid timeout none l ls rest h
checked tid timeout (some d) l ls rest h = elim (Bool-cases (leb_ℤ (d -ℤ l.checked_at) (pos 0))) [
  | inl over ↦ rw over (inl (refl, inl (expired d l over)))
  | inr left ↦ rw left (later tid timeout (some d) l ls rest h)
]

turned :
    (tid : TaskId) (timeout : ℤ) (deadline : Option Time) (l : Look) (ls : List Look)
    (rest : Waiting) (seen : Result (Option Task))
    → l.seen ≡ seen
    → IsWaiting tid timeout deadline ls rest
    → IsWaiting tid timeout deadline (l ∷ ls) (turn tid timeout deadline l seen rest)
turned tid timeout deadline l ls rest (err e) s h = inr (inl s)
turned tid timeout deadline l ls rest (ok none) s h = checked tid timeout deadline l ls rest h
turned tid timeout deadline l ls rest (ok (some task)) s h =
    elim (Bool-cases (is_finished task.status)) [
      | inl finished ↦ rw finished (finished, inl s)
      | inr not_yet ↦ rw not_yet (checked tid timeout deadline l ls rest h)
    ]

wait_loop-IsWaiting :
    (tid : TaskId) (timeout : ℤ) (deadline : Option Time) (ls : List Look)
    → IsWaiting tid timeout deadline ls (wait_loop tid timeout deadline ls)
unfolding wait_loop
wait_loop-IsWaiting tid timeout deadline [] = tt
wait_loop-IsWaiting tid timeout deadline (l ∷ ls) =
    turned tid timeout deadline l ls _ l.seen refl (wait_loop-IsWaiting tid timeout deadline ls)

abbrev pub deadline_of : Option Time → Time → Option Time
deadline_of none called_at = none
deadline_of (some t) called_at = some (called_at +ℤ t)

-- A `wait` that ends returns a finished task that `get` has seen, and otherwise raises an error of
-- `get`, or a timeout, after a check of the clock that is not before the deadline: it never returns
-- a task that is still pending or running.
pub wait-IsWaiting :
    (tid : TaskId) (timeout : Option Time) (called_at : Time) (ls : List Look)
    → IsWaiting tid
        (or_zero timeout)
        (deadline_of timeout called_at)
        ls
        (wait tid timeout called_at ls)
unfolding wait
wait-IsWaiting tid none called_at ls = wait_loop-IsWaiting tid _ _ ls
wait-IsWaiting tid (some t) called_at ls = wait_loop-IsWaiting tid _ _ ls

-- A turn after which a `wait` with a timeout is over.
not_expired :
    (d : Time) (l : Look) → leb_ℤ (d -ℤ l.checked_at) (pos 0) ≡ false → ¬ (d ≤ℤ l.checked_at)
not_expired d l left h = grind int_laws

checked_ends :
    (tid : TaskId) (timeout : ℤ) (d : Time) (l : Look) (rest : Waiting)
    → (d ≤ℤ l.checked_at) ⊎ (rest ≢ waits)
    → check_deadline tid timeout (some d) l rest ≢ waits
checked_ends tid timeout d l rest h w = elim (Bool-cases (leb_ℤ (d -ℤ l.checked_at) (pos 0))) [
  | inl over ↦ let w' = rw over at w in cc
  | inr left ↦ elim h [ inl now ↦ not_expired d l left now | inr x ↦ x (rw left at w) ]
]

turn_ends :
    (tid : TaskId) (timeout : ℤ) (d : Time) (l : Look) (rest : Waiting)
    (seen : Result (Option Task))
    → (d ≤ℤ l.checked_at) ⊎ (rest ≢ waits)
    → turn tid timeout (some d) l seen rest ≢ waits
turn_ends tid timeout d l rest (err e) h w = cc
turn_ends tid timeout d l rest (ok none) h w = checked_ends tid timeout d l rest h w
turn_ends tid timeout d l rest (ok (some task)) h w = elim (Bool-cases (is_finished task.status)) [
  | inl finished ↦ let w' = rw finished at w in cc
  | inr not_yet ↦ checked_ends tid timeout d l rest h (rw not_yet at w)
]

wait_loop_ends :
    (tid : TaskId) (timeout : ℤ) (d : Time) (ls : List Look)
    → Any (λ (l : Look). d ≤ℤ l.checked_at) ls
    → wait_loop tid timeout (some d) ls ≢ waits
unfolding wait_loop
wait_loop_ends tid timeout d [] x = elim x [ ]
wait_loop_ends tid timeout d (l ∷ ls) (inl now) = turn_ends tid timeout d l _ l.seen (inl now)
wait_loop_ends tid timeout d (l ∷ ls) (inr after) =
    turn_ends tid timeout d l _ l.seen (inr (wait_loop_ends tid timeout d ls after))

pub wait_ends :
    (tid : TaskId) (timeout called_at : Time) (ls : List Look)
    → Any (λ (l : Look). called_at +ℤ timeout ≤ℤ l.checked_at) ls
    → wait tid (some timeout) called_at ls ≢ waits
unfolding wait
wait_ends tid timeout called_at ls x = wait_loop_ends tid timeout (called_at +ℤ timeout) ls x

ended_or_waits : (w : Waiting) → w ≢ waits → (r : Result Task) × (w ≡ ended r)
ended_or_waits waits not_over = absurd (not_over refl)
ended_or_waits (ended r) not_over = (r, refl)

-- A `wait` with a timeout, some turn of which checks the clock not before the deadline, ends: it
-- returns a finished task that a turn's `get` has seen, or raises what a turn's `get` has raised,
-- or the timeout, with its length. It never returns a task that is still pending or running.
pub wait-IsOutcome :
    (tid : TaskId) (timeout called_at : Time) (ls : List Look)
    → Any (λ (l : Look). called_at +ℤ timeout ≤ℤ l.checked_at) ls
    → (r : Result Task) × (wait tid (some timeout) called_at ls ≡ ended r)
      × IsOutcome tid timeout (some (called_at +ℤ timeout)) ls r
wait-IsOutcome tid timeout called_at ls x =
    let (r, e) = ended_or_waits _ (wait_ends tid timeout called_at ls x) in
    (r, e, rw e at (wait-IsWaiting tid (some timeout) called_at ls))
