-- ===== src/Provider/Waits.antt =====
-- The wait that a provider asks for in crates/linguamesh-provider-api/src/lib.rs.
use linguamesh_core.Base.{
  ◌≡◌, ◌≤◌, inl, inr, ℕ, ◌*◌, Option, none, some, Text, trim, Option-cases, arith,
}
use linguamesh_core.Provider.{bounded, max_wait_ms, parse_u64, retry_after_ms}

bounded-le : (o : Option ℕ) (ms : ℕ) → bounded o ≡ some ms → ms ≤ max_wait_ms
bounded-le none ms h = cc
bounded-le (some n) ms h = ground arith

-- A wait is at most a minute.
retry_after_ms_bounded :
    (ms_until : Text → Option ℕ) (value : Text) (ms : ℕ)
    → retry_after_ms ms_until value ≡ some ms
    → ms ≤ max_wait_ms
unfolding retry_after_ms
retry_after_ms_bounded ms_until value ms h = elim (Option-cases (parse_u64 (trim value))) [
  | inl e ↦ bounded-le (ms_until (trim value)) ms (rw (retry_after_ms, e) at h)
  | inr (seconds, e) ↦ bounded-le (some (seconds * 1000)) ms (rw (retry_after_ms, e) at h)
]
