-- ===== src/Retry/Bounds.antt =====
-- What a retry policy guarantees once `RetryPolicy::new` has accepted it.
use linguamesh_core.Base.{
  ◌↔◌, ◌⊎◌, inl, inr, Bool-cases, Option, refl, ℕ, ◌≤◌, ◌≡◌, true, false, none, some, min, ok,
  arith,
}
use linguamesh_core.Retry.{RetryPolicy, deserialize_fields, standard, bounded_retry_after_ms}

-- The ranges of the fields.
pub record IsBounded (p : RetryPolicy) : Type 0 where
  pub base_positive : 1 ≤ p.base_delay_ms
  pub base_le_max : p.base_delay_ms ≤ p.max_backoff_ms
  pub max_le_minute : p.max_backoff_ms ≤ 60_000
  pub jitter_le_hundred : p.jitter_percent ≤ 100
  pub threshold_positive : 1 ≤ p.circuit_failure_threshold
  pub threshold_le : p.circuit_failure_threshold ≤ 32
  pub cooldown_positive : 1 ≤ p.circuit_cooldown_ms
  pub cooldown_le : p.circuit_cooldown_ms ≤ 300_000

-- A decoded policy is accepted exactly when its fields are in range, and is then unchanged.
pub deserialize_fields_iff :
    (f p : RetryPolicy) → (deserialize_fields f ≡ ok p) ↔ ((p ≡ f) × IsBounded f)
unfolding deserialize_fields
deserialize_fields_iff f p = (λ h. ground arith, λ h. ground arith)

standard-IsBounded : IsBounded standard
unfolding standard
standard-IsBounded = omega arith

-- Under an accepted policy a hint either is followed, for the smaller of the hint and the maximum
-- and never for more than a minute, or is absent or ignored, and then there is no wait to follow.
bounded_retry_after_ms-min :
    (p : RetryPolicy) (hint : Option ℕ)
    → IsBounded p
    → ((value : ℕ) × (hint ≡ some value)
        × (p.respect_retry_after ≡ true)
        × (bounded_retry_after_ms p hint ≡ some (min value p.max_backoff_ms))
        × (min value p.max_backoff_ms ≤ 60_000))
      ⊎ (((hint ≡ none) ⊎ (p.respect_retry_after ≡ false)) × (bounded_retry_after_ms p hint ≡ none))
unfolding bounded_retry_after_ms
bounded_retry_after_ms-min p none h = inr (inl refl, ground arith)
bounded_retry_after_ms-min p (some v) h = elim (Bool-cases p.respect_retry_after) [
  | inl e ↦ inl (v, refl, e, ground arith, omega arith)
  | inr e ↦ inr (inr e, ground arith)
]
