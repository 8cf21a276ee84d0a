-- ===== src/Storage/Retry.antt =====
-- `RetryPolicy` of pkg/storage/plugin.go. `scale` is the multiplication of a duration with the
-- multiplier: through float64 and back, as the processor's floating-point unit does it.
mod Examples
use extend_game_telemetry_co.Prelude.{
  ℕ, zero, suc, ◌≡◌, refl, Bool, true, false, ℤ, pos, negsuc, leℤ, ltℤ, not, arith, if◌then◌else◌,
  ◌⊎◌, inl, inr, Bool-cases,
}
use extend_game_telemetry_co.Events.{Float64}

pub record RetryPolicy : Type 0 where
  pub max_retries : ℤ
  pub initial_backoff : ℤ
  pub max_backoff : ℤ
  pub multiplier : Float64

-- Durations in nanoseconds; 2.0 by its IEEE 754 bits.
abbrev pub default_retry_policy : RetryPolicy
default_retry_policy = record {
  max_retries = pos 3;
  initial_backoff = pos 100000000;
  max_backoff = pos 10000000000;
  multiplier = 0x4000000000000000;
}

module _ (scale : ℤ → Float64 → ℤ) where
  -- The loop with `left` rounds to go.
  back_off : RetryPolicy → ℕ → ℤ → ℤ
  back_off policy zero backoff = backoff
  back_off policy (suc left) backoff =
      let next = scale backoff policy.multiplier in
      let later = back_off policy left next in
      if ltℤ policy.max_backoff next then policy.max_backoff else later

  pub next_backoff : RetryPolicy → ℤ → ℤ
  unfolding back_off
  next_backoff policy (negsuc n) = policy.initial_backoff
  next_backoff policy (pos attempt) = back_off policy attempt policy.initial_backoff

  leℤ_refl : (z : ℤ) → leℤ z z ≡ true
  leℤ_refl (pos n) = ground arith
  leℤ_refl (negsuc n) = ground arith

  back_off-bounded :
      (policy : RetryPolicy) (left : ℕ) (backoff : ℤ)
      → leℤ backoff policy.max_backoff ≡ true
      → leℤ (back_off policy left backoff) policy.max_backoff ≡ true
  unfolding back_off
  back_off-bounded policy zero backoff h = h
  back_off-bounded policy (suc left) backoff h =
      elim (Bool-cases (leℤ (scale backoff policy.multiplier) policy.max_backoff)) [
        | inl fits ↦ rw fits (back_off-bounded policy left (scale backoff policy.multiplier) fits)
        | inr exceeds ↦ rw exceeds (leℤ_refl policy.max_backoff)
      ]

  -- From the first retry on, no delay is longer than `MaxBackoff`, whatever the multiplication
  -- yields.
  pub next_backoff-bounded :
      (policy : RetryPolicy) (attempt : ℕ)
      → leℤ (next_backoff policy (pos (suc attempt))) policy.max_backoff ≡ true
  unfolding next_backoff back_off
  next_backoff-bounded policy attempt =
      elim (Bool-cases (leℤ (scale policy.initial_backoff policy.multiplier) policy.max_backoff)) [
        | inl fits ↦
            rw fits (
              back_off-bounded policy attempt (scale policy.initial_backoff policy.multiplier) fits)
        | inr exceeds ↦ rw exceeds (leℤ_refl policy.max_backoff)
      ]
