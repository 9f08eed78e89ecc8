-- ===== src/Retry.antt =====
-- src/miniq/retry.py: the retry policies. Python's floats and the random module are parameters.
pub mod Laws
mod Tests
use miniq.Base.{
  ◌≡◌, Bool, true, false, ◌&&◌, Option, none, some, ℤ, pos, ◌-ℤ◌, ltb_ℤ, if◌then◌else◌,
}
use miniq.Exceptions.{Result, ok, err, ◌>>=◌, value_error}

-- The operations on floats that the policies call. `pow` may raise: `2.0 ** 1024` is an
-- OverflowError.
pub record Floats : Type 1 where
  pub Float : Type 0
  pub zero : Float
  pub one : Float
  pub lt : Float → Float → Bool
  pub le : Float → Float → Bool
  pub add : Float → Float → Float
  pub mul : Float → Float → Float
  pub neg : Float → Float
  pub pow : Float → ℤ → Result Float
  pub uniform : Float → Float → Float

module _ (floats : Floats) where
  open floats use {Float, zero, one, lt, le, add, mul, neg, pow, uniform}

  -- `next_delay` of a policy: `none` declines the retry.
  abbrev pub RetryPolicy : Type 0
  RetryPolicy = ℤ → Result (Option Float)

  -- `NoRetry`
  unfoldable pub no_retry : RetryPolicy
  no_retry attempt = ok none

  -- `FixedDelay`: the constructor's check, and then the policy.
  unfoldable pub fixed_next_delay : Float → RetryPolicy
  fixed_next_delay delay_seconds attempt =
      if ltb_ℤ attempt (pos 1) then err value_error else ok (some delay_seconds)

  unfoldable pub fixed_delay : Float → Result RetryPolicy
  fixed_delay delay_seconds =
      if lt delay_seconds zero then err value_error else ok (fixed_next_delay delay_seconds)

  -- Python's `min(a, b)` and `max(a, b)`.
  abbrev pub min : Float → Float → Float
  min a b = if lt b a then b else a

  abbrev pub max : Float → Float → Float
  max a b = if lt a b then b else a

  -- `ExponentialBackoff`
  pub record Backoff : Type 0 where
    pub base_seconds : Float
    pub factor : Float
    pub max_delay_seconds : Float

  unfoldable pub exponential_backoff : Float → Float → Float → Result Backoff
  exponential_backoff base_seconds factor max_delay_seconds =
      if lt base_seconds zero
      then err value_error
      else if lt factor one
      then err value_error
      else if lt max_delay_seconds base_seconds
      then err value_error
      else ok (record {
        base_seconds = base_seconds;
        factor = factor;
        max_delay_seconds = max_delay_seconds;
      })

  unfoldable pub backoff_next_delay : Backoff → RetryPolicy
  backoff_next_delay policy attempt =
      if ltb_ℤ attempt (pos 1)
      then err value_error
      else (pow policy.factor (attempt -ℤ pos 1) >>= λ growth.
          ok (some (min (mul policy.base_seconds growth) policy.max_delay_seconds)))

  -- `JitteredBackoff`
  pub record Jittered : Type 0 where
    pub inner : RetryPolicy
    pub jitter_fraction : Float

  unfoldable pub jittered_backoff : RetryPolicy → Float → Result Jittered
  jittered_backoff inner jitter_fraction =
      if le zero jitter_fraction && le jitter_fraction one
      then ok (record { inner = inner; jitter_fraction = jitter_fraction })
      else err value_error

  -- The delay around `base`: `uniform` draws from the interval.
  abbrev pub jitter : Float → Float → Float
  jitter base jitter_fraction =
      let spread = mul base jitter_fraction in max zero (add base (uniform (neg spread) spread))

  unfoldable pub jittered_next_delay : Jittered → RetryPolicy
  jittered_next_delay policy attempt = policy.inner attempt >>= λ base.
      ok (elim base [ none ↦ none | some b ↦ some (jitter b policy.jitter_fraction) ])
