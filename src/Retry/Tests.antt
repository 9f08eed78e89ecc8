-- ===== src/Retry/Tests.antt =====
-- The policies over floats that are whole numbers below 2 to the power 10, infinite or NaN.
use miniq.Base.{
  ℕ, zero, suc, ◌+◌, ◌≡◌, refl, Bool, true, false, some, pos, pos_part, leb, ltb, arith, leb→le,
  if◌then◌else◌, Bool-cases, inl, inr, ◌-ℤ◌, ◌≤ℤ◌, ℤ,
}
use Prim.Native.Nat.{◌*◌, ◌≤◌}
use native.Mathlib.Nat.{one-le-mul}
use miniq.Exceptions.{Result, ok, err, overflow_error}
use miniq.Retry.{
  Floats, Backoff, exponential_backoff, backoff_next_delay, Jittered, jittered_next_delay,
}
use miniq.Retry.Laws.{FloatLaws, backoff_bounds}

data Whole : Type 0 where
  finite : ℕ → Whole
  infinite nan : Whole

abbrev rounded : ℕ → Whole
rounded n = if ltb n 1024 then finite n else infinite

abbrev lt : Whole → Whole → Bool
lt (finite a) (finite b) = ltb a b
lt (finite a) infinite = true
lt _ _ = false

abbrev le : Whole → Whole → Bool
le (finite a) (finite b) = leb a b
le (finite a) infinite = true
le infinite infinite = true
le _ _ = false

abbrev times : Whole → Whole → Whole
times (finite a) (finite b) = rounded (a * b)
times (finite zero) infinite = nan
times infinite (finite zero) = nan
times nan _ = nan
times _ nan = nan
times _ _ = infinite

abbrev plus : Whole → Whole → Whole
plus (finite a) (finite b) = rounded (a + b)
plus nan _ = nan
plus _ nan = nan
plus _ _ = infinite

abbrev power : ℕ → ℕ → ℕ
power a zero = 1
power a (suc n) = a * power a n

-- The power, or the OverflowError of one that is too large.
abbrev pow : Whole → ℤ → Result Whole
pow (finite a) n =
    if ltb (power a (pos_part n)) 1024
    then ok (finite (power a (pos_part n)))
    else err overflow_error
pow x n = ok x

abbrev floats : Floats
floats = record {
  Float = Whole;
  zero = finite 0;
  one = finite 1;
  lt = lt;
  le = le;
  add = plus;
  mul = times;
  neg = λ a. finite 0;
  pow = pow;
  uniform = λ a b. b;
}

abbrev IsFinite : Whole → Type 0
IsFinite (finite n) = Unit
IsFinite _ = ⊥

abbrev IsNumber : Whole → Type 0
IsNumber nan = ⊥
IsNumber _ = Unit

power_ge_one : (a n : ℕ) → 1 ≤ a → 1 ≤ power a n
power_ge_one a zero h = ground arith
power_ge_one a (suc n) h = one-le-mul h (power_ge_one a n h)

le→leb : (a b : ℕ) → a ≤ b → leb a b ≡ true
le→leb a b h = ground arith

rounded-IsNumber : (n : ℕ) → IsNumber (rounded n)
rounded-IsNumber n = elim (Bool-cases (ltb n 1024)) [
  | inl small ↦ rw small tt
  | inr large ↦ rw large tt
]

rounded_nonneg : (n : ℕ) → le (finite 0) (rounded n) ≡ true
rounded_nonneg n = elim (Bool-cases (ltb n 1024)) [
  | inl small ↦ rw small (ground arith)
  | inr large ↦ rw large refl
]

laws : FloatLaws floats
laws = record {
  IsNumber = IsNumber;
  IsFinite = IsFinite;
  finite-IsNumber = finite-IsNumber;
  zero-IsFinite = tt;
  one-IsFinite = tt;
  one_nonneg = refl;
  le_refl = le_refl;
  le_of = le_of;
  le_of_lt = le_of_lt;
  le_trans = le_trans;
  mul-IsNumber = mul-IsNumber;
  mul_nonneg = mul_nonneg;
  pow-IsFinite = pow-IsFinite;
}
  where
    finite-IsNumber : (a : Whole) → IsFinite a → IsNumber a
    finite-IsNumber (finite n) h = tt
    finite-IsNumber infinite h = absurd h
    finite-IsNumber nan h = absurd h

    le_refl : (a : Whole) → IsNumber a → le a a ≡ true
    le_refl (finite n) h = ground arith
    le_refl infinite h = refl
    le_refl nan h = absurd h

    le_of : (a b : Whole) → IsNumber a → IsNumber b → lt b a ≡ false → le a b ≡ true
    le_of (finite a) (finite b) h k e = ground arith
    le_of (finite a) infinite h k e = refl
    le_of infinite (finite b) h k e = absurd (cc)
    le_of infinite infinite h k e = refl
    le_of nan b h k e = absurd h
    le_of a nan h k e = absurd k

    le_of_lt : (a b : Whole) → lt a b ≡ true → le a b ≡ true
    le_of_lt (finite a) (finite b) e = ground arith
    le_of_lt (finite a) infinite e = refl
    le_of_lt (finite a) nan e = absurd (cc)
    le_of_lt infinite b e = absurd (cc)
    le_of_lt nan b e = absurd (cc)

    le_trans : (a b c : Whole) → le a b ≡ true → le b c ≡ true → le a c ≡ true
    le_trans (finite a) (finite b) (finite c) h k = ground arith
    le_trans (finite a) b infinite h k = refl
    le_trans infinite b infinite h k = refl
    le_trans (finite a) infinite (finite c) h k = absurd (cc)
    le_trans infinite infinite (finite c) h k = absurd (cc)
    le_trans infinite (finite b) c h k = absurd (cc)
    le_trans nan b c h k = absurd (cc)
    le_trans a nan c h k = absurd (cc)
    le_trans a (finite b) nan h k = absurd (cc)
    le_trans a infinite nan h k = absurd (cc)

    mul-IsNumber : (a b : Whole) → IsFinite a → IsFinite b → IsNumber (times a b)
    mul-IsNumber (finite a) (finite b) h k = rounded-IsNumber (a * b)
    mul-IsNumber infinite b h k = absurd h
    mul-IsNumber nan b h k = absurd h
    mul-IsNumber a infinite h k = absurd k
    mul-IsNumber a nan h k = absurd k

    mul_nonneg :
        (a b : Whole)
        → IsFinite a
        → IsFinite b
        → le (finite 0) a ≡ true
        → le (finite 0) b ≡ true
        → le (finite 0) (times a b) ≡ true
    mul_nonneg (finite a) (finite b) h k i j = rounded_nonneg (a * b)
    mul_nonneg infinite b h k i j = absurd h
    mul_nonneg nan b h k i j = absurd h
    mul_nonneg a infinite h k i j = absurd k
    mul_nonneg a nan h k i j = absurd k

    pow-IsFinite :
        (f g : Whole) (n : ℤ)
        → IsFinite f
        → le (finite 1) f ≡ true
        → pos 0 ≤ℤ n
        → pow f n ≡ ok g
        → IsFinite g × (le (finite 1) g ≡ true)
    pow-IsFinite (finite a) g n h one_le i e = elim (Bool-cases (ltb (power a (pos_part n)) 1024)) [
      | inl small ↦
          let e' = rw small at e in
          let same : finite (power a (pos_part n)) ≡ g = cc in
          rw (← same) (tt, le→leb _ _ (power_ge_one a (pos_part n) (leb→le 1 a one_le)))
      | inr large ↦ absurd (let e' = rw large at e in cc)
    ]
    pow-IsFinite infinite g n h one_le i e = absurd h
    pow-IsFinite nan g n h one_le i e = absurd h

abbrev policy : Backoff floats
policy = record { base_seconds = finite 3; factor = finite 2; max_delay_seconds = finite 20 }

made : exponential_backoff floats (finite 3) (finite 2) (finite 20) ≡ ok policy
unfolding exponential_backoff
made = refl

second_delay : backoff_next_delay floats policy (pos 2) ≡ ok (some (finite 6))
unfolding backoff_next_delay ◌-ℤ◌
second_delay = refl

fifth_delay : backoff_next_delay floats policy (pos 5) ≡ ok (some (finite 20))
unfolding backoff_next_delay ◌-ℤ◌
fifth_delay = refl

bounds_example : (leb 0 20 ≡ true) × (leb 20 20 ≡ true)
unfolding laws
bounds_example =
    backoff_bounds floats laws (finite 3) (finite 2) (finite 20) policy (pos 5) (finite 20) made tt
      tt tt fifth_delay

abbrev jittered : Jittered floats
jittered = record { inner = backoff_next_delay floats policy; jitter_fraction = finite 1 }

jittered_delay : jittered_next_delay floats jittered (pos 2) ≡ ok (some (finite 12))
unfolding jittered_next_delay backoff_next_delay ◌-ℤ◌
jittered_delay = refl

-- The cap does not help where the growth is too large for a float.
overflows : backoff_next_delay floats policy (pos 20) ≡ err overflow_error
unfolding backoff_next_delay ◌-ℤ◌
overflows = refl

-- With a base of 0 and an infinite factor the delay is NaN.
abbrev endless : Backoff floats
endless = record { base_seconds = finite 0; factor = infinite; max_delay_seconds = finite 20 }

endless_delay : backoff_next_delay floats endless (pos 2) ≡ ok (some nan)
unfolding backoff_next_delay ◌-ℤ◌
endless_delay = refl
