-- ===== src/Retry/Tests.antt =====
-- Runs of the retry policy, and its theorems at concrete inputs.
use linguamesh_core.Base.{◌≡◌, ◌↔◌, refl, true, some, ok, err}
use linguamesh_core.Retry.{
  standard, deserialize_fields, bounded_retry_after_ms, new_policy, max_backoff_too_large,
  invalid_delay_bounds,
}
use linguamesh_core.Retry.Bounds.{IsBounded, deserialize_fields_iff}

refused : new_policy 0 10 0 1 1 true ≡ err invalid_delay_bounds
unfolding new_policy
refused = refl

unbounded : new_policy 1 60_001 101 1 1 true ≡ err max_backoff_too_large
unfolding new_policy
unbounded = refl

clamped : bounded_retry_after_ms standard (some 20_000) ≡ some 8_000
unfolding bounded_retry_after_ms standard
clamped = refl

deserialize_fields_iff_example :
    (deserialize_fields standard ≡ ok standard) ↔ ((standard ≡ standard) × IsBounded standard)
deserialize_fields_iff_example = deserialize_fields_iff standard standard
