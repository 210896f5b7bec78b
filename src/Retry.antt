-- ===== src/Retry.antt =====
-- crates/linguamesh-domain/src/retry.rs: the retry policy that clients share.
-- A `u64`, `u32` or `u8` field is a number; none of the code below computes a new one.
pub mod Bounds
mod Tests
use linguamesh_core.Base.{
  ℕ, Bool, true, ◌||◌, Option, none, some, Result, ok, err, ◌>>=◌, ◌>>◌, reject_if, ltb, ◌==◌,
  if◌then◌else◌,
}

abbrev pub default_retry_base_delay_ms : ℕ
default_retry_base_delay_ms = 100

abbrev pub default_retry_max_backoff_ms : ℕ
default_retry_max_backoff_ms = 8_000

abbrev pub default_retry_jitter_percent : ℕ
default_retry_jitter_percent = 50

abbrev pub default_retry_circuit_failure_threshold : ℕ
default_retry_circuit_failure_threshold = 2

abbrev pub default_retry_circuit_cooldown_ms : ℕ
default_retry_circuit_cooldown_ms = 30_000

pub record RetryPolicy : Type 0 where
  pub base_delay_ms : ℕ
  pub max_backoff_ms : ℕ
  pub jitter_percent : ℕ
  pub circuit_failure_threshold : ℕ
  pub circuit_cooldown_ms : ℕ
  pub respect_retry_after : Bool

pub data RetryPolicyError : Type 0 where
  invalid_delay_bounds : RetryPolicyError
  max_backoff_too_large : RetryPolicyError
  jitter_out_of_range : RetryPolicyError
  circuit_threshold_out_of_range : RetryPolicyError
  circuit_cooldown_out_of_range : RetryPolicyError

-- `RetryPolicy::new`.
pub new_policy :
    (base_delay_ms max_backoff_ms jitter_percent : ℕ)
    → (circuit_failure_threshold circuit_cooldown_ms : ℕ) → (respect_retry_after : Bool)
    → Result RetryPolicy RetryPolicyError
new_policy base backoff jitter threshold cooldown respect = do
  reject_if (base == 0 || ltb backoff base) invalid_delay_bounds
  reject_if (ltb 60_000 backoff) max_backoff_too_large
  reject_if (ltb 100 jitter) jitter_out_of_range
  reject_if (ltb threshold 1 || ltb 32 threshold) circuit_threshold_out_of_range
  reject_if (cooldown == 0 || ltb 300_000 cooldown) circuit_cooldown_out_of_range
  ok (record {
    base_delay_ms = base;
    max_backoff_ms = backoff;
    jitter_percent = jitter;
    circuit_failure_threshold = threshold;
    circuit_cooldown_ms = cooldown;
    respect_retry_after = respect;
  })

-- `Deserialize for RetryPolicy`, past the decoder of `RetryPolicyFields`: the fields that were
-- decoded go through the constructor.
pub deserialize_fields : RetryPolicy → Result RetryPolicy RetryPolicyError
unfolding new_policy
deserialize_fields f =
    new_policy f.base_delay_ms f.max_backoff_ms f.jitter_percent f.circuit_failure_threshold
      f.circuit_cooldown_ms f.respect_retry_after

-- `RetryPolicy::standard`, also `Default`.
pub standard : RetryPolicy
standard = record {
  base_delay_ms = default_retry_base_delay_ms;
  max_backoff_ms = default_retry_max_backoff_ms;
  jitter_percent = default_retry_jitter_percent;
  circuit_failure_threshold = default_retry_circuit_failure_threshold;
  circuit_cooldown_ms = default_retry_circuit_cooldown_ms;
  respect_retry_after = true;
}

-- `RetryPolicy::bounded_retry_after_ms`.
pub bounded_retry_after_ms : RetryPolicy → Option ℕ → Option ℕ
bounded_retry_after_ms p hint =
    if p.respect_retry_after
    then elim hint [
      | some value ↦ some (if ltb p.max_backoff_ms value then p.max_backoff_ms else value)
      | none ↦ none
    ]
    else none
