-- ===== src/Retry/Laws.antt =====
-- The delays of the policies, from laws of Python's floats, which may be infinite or NaN.
use miniq.Base.{
  ◌≡◌, subst, inl, inr, true, false, none, some, ℤ, pos, ◌-ℤ◌, ◌≤ℤ◌, ltb_ℤ, int_laws, arith,
  Bool-cases,
}
use miniq.Exceptions.{ok, ◌>>=◌, Result-cases}
use miniq.Retry.{
  Floats, Backoff, exponential_backoff, backoff_next_delay, min, max, Jittered, jittered_next_delay,
  jitter,
}

-- What the policies rely on: NaN is below nothing; the others are in an order; a product of two
-- finite floats may be infinite, but is not NaN; and `**` raises where a power of a finite float is
-- too large.
module _ (floats : Floats) where
  open floats use {Float, zero, one, lt, le, mul, pow}

  pub record FloatLaws : Type 1 where
    pub IsNumber : Float → Type 0
    pub IsFinite : Float → Type 0
    pub finite-IsNumber : (a : Float) → IsFinite a → IsNumber a
    pub zero-IsFinite : IsFinite zero
    pub one-IsFinite : IsFinite one
    pub one_nonneg : le zero one ≡ true
    pub le_refl : (a : Float) → IsNumber a → le a a ≡ true
    pub le_of : (a b : Float) → IsNumber a → IsNumber b → lt b a ≡ false → le a b ≡ true
    pub le_of_lt : (a b : Float) → lt a b ≡ true → le a b ≡ true
    pub le_trans : (a b c : Float) → le a b ≡ true → le b c ≡ true → le a c ≡ true
    pub mul-IsNumber : (a b : Float) → IsFinite a → IsFinite b → IsNumber (mul a b)
    pub mul_nonneg :
        (a b : Float)
        → IsFinite a
        → IsFinite b
        → le zero a ≡ true
        → le zero b ≡ true
        → le zero (mul a b) ≡ true
    pub pow-IsFinite :
        (f g : Float) (n : ℤ)
        → IsFinite f
        → le one f ≡ true
        → pos 0 ≤ℤ n
        → pow f n ≡ ok g
        → IsFinite g × (le one g ≡ true)

module _ (floats : Floats) (laws : FloatLaws floats) where
  open floats use {Float, zero, one, lt, le, mul, pow}
  open laws use {
    IsNumber, IsFinite, finite-IsNumber, zero-IsFinite, one-IsFinite, one_nonneg, le_refl, le_of,
    le_of_lt, le_trans, mul-IsNumber, mul_nonneg, pow-IsFinite,
  }

  min_le_right : (a b : Float) → IsNumber a → IsNumber b → le (min floats a b) b ≡ true
  min_le_right a b ha hb = elim (Bool-cases (lt b a)) [
    | inl less ↦ rw less (le_refl b hb)
    | inr more ↦ rw more (le_of a b ha hb more)
  ]

  le_min : (a b c : Float) → le c a ≡ true → le c b ≡ true → le c (min floats a b) ≡ true
  le_min a b c h k = elim (Bool-cases (lt b a)) [ inl less ↦ rw less k | inr more ↦ rw more h ]

  -- `max(a, b)` is at least `a`, also where `b` is NaN.
  le_max_left : (a b : Float) → IsNumber a → le a (max floats a b) ≡ true
  le_max_left a b ha = elim (Bool-cases (lt a b)) [
    | inl less ↦ rw less (le_of_lt a b less)
    | inr more ↦ rw more (le_refl a ha)
  ]

  -- What the constructor of `ExponentialBackoff` has checked.
  abbrev IsBackoff : Backoff floats → Type 0
  IsBackoff p =
      (lt p.base_seconds zero ≡ false)
      × (lt p.factor one ≡ false)
      × (lt p.max_delay_seconds p.base_seconds ≡ false)

  exponential_backoff-IsBackoff :
      (b f m : Float) {p : Backoff floats} → exponential_backoff floats b f m ≡ ok p → IsBackoff p
  unfolding exponential_backoff
  exponential_backoff-IsBackoff b f m {p} e = elim (Bool-cases (lt b zero)) [
    | inl bad ↦ absurd (let e' = rw (exponential_backoff, bad) at e in cc)
    | inr base ↦ elim (Bool-cases (lt f one)) [
      | inl bad ↦ absurd (let e' = rw (exponential_backoff, base, bad) at e in cc)
      | inr factor ↦ elim (Bool-cases (lt m b)) [
        | inl bad ↦ absurd (let e' = rw (exponential_backoff, base, factor, bad) at e in cc)
        | inr cap ↦
            let e' = rw (exponential_backoff, base, factor, cap) at e in
            let same : record { base_seconds = b; factor = f; max_delay_seconds = m } ≡ p = cc in
            subst IsBackoff same (base, factor, cap)
      ]
    ]
  ]

  -- The delay of an attempt.
  backoff_delay :
      (p : Backoff floats) (attempt : ℤ) {d : Float}
      → backoff_next_delay floats p attempt ≡ ok (some d)
      → (pos 1 ≤ℤ attempt)
        × (growth : Float) × (pow p.factor (attempt -ℤ pos 1) ≡ ok growth)
        × (d ≡ min floats (mul p.base_seconds growth) p.max_delay_seconds)
  unfolding backoff_next_delay
  backoff_delay p attempt {d} e = elim (Bool-cases (ltb_ℤ attempt (pos 1))) [
    | inl bad ↦ absurd (let e' = rw (backoff_next_delay, bad) at e in cc)
    | inr good ↦ elim (Result-cases (pow p.factor (attempt -ℤ pos 1))) [
      | inl (growth, r) ↦
          let e' = rw (backoff_next_delay, good, r, ◌>>=◌) at e in (ground arith, growth, r, cc)
      | inr (x, r) ↦ absurd (let e' = rw (backoff_next_delay, good, r, ◌>>=◌) at e in cc)
    ]
  ]

  -- Where the base and the factor that the constructor has accepted are finite, and the cap is not
  -- NaN: a delay of an exponential backoff is between 0 and the cap.
  pub backoff_bounds :
      (b f m : Float) (p : Backoff floats) (attempt : ℤ) (d : Float)
      → exponential_backoff floats b f m ≡ ok p
      → IsFinite p.base_seconds
      → IsFinite p.factor
      → IsNumber p.max_delay_seconds
      → backoff_next_delay floats p attempt ≡ ok (some d)
      → (le zero d ≡ true) × (le d p.max_delay_seconds ≡ true)
  backoff_bounds b f m p attempt d made fb ff nm e =
      let (base, factor, cap) = exponential_backoff-IsBackoff b f m made in
      let (first, growth, grown, d_eq) = backoff_delay p attempt e in
      let nb = finite-IsNumber p.base_seconds fb in
      let base' = le_of zero p.base_seconds (finite-IsNumber zero zero-IsFinite) nb base in
      let factor' =
        le_of one p.factor (finite-IsNumber one one-IsFinite) (finite-IsNumber p.factor ff)
          factor in
      let cap' = le_of p.base_seconds p.max_delay_seconds nb nm cap in
      let (fg, growth') =
        pow-IsFinite p.factor growth (attempt -ℤ pos 1) ff factor' (grind int_laws) grown in
      let growth_nonneg = le_trans zero one growth one_nonneg growth' in
      rw d_eq (
        le_min _ _ zero (mul_nonneg _ _ fb fg base' growth_nonneg) (le_trans _ _ _ base' cap'),
        min_le_right _ _ (mul-IsNumber _ _ fb fg) nm,
      )

  -- A delay with jitter is not negative, whatever the inner policy, the fraction and the draw.
  pub jitter_nonneg :
      (p : Jittered floats) (attempt : ℤ) (d : Float)
      → jittered_next_delay floats p attempt ≡ ok (some d)
      → le zero d ≡ true
  unfolding jittered_next_delay
  jitter_nonneg p attempt d e = elim (Result-cases (p.inner attempt)) [
    | inr (x, r) ↦ absurd (let e' = rw (jittered_next_delay, r, ◌>>=◌) at e in cc)
    | inl (none, r) ↦ absurd (let e' = rw (jittered_next_delay, r, ◌>>=◌) at e in cc)
    | inl (some base, r) ↦
        let e' = rw (jittered_next_delay, r, ◌>>=◌) at e in
        let same : jitter floats base p.jitter_fraction ≡ d = cc in
        rw (← same) (le_max_left zero _ (finite-IsNumber zero zero-IsFinite))
  ]
