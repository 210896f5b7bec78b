-- ===== src/Failure.antt =====
-- `ErrorKind` and `TranslationError` of crates/linguamesh-domain/src/lib.rs.
use linguamesh_core.Base.{ℕ, Option, none, Text}

pub data ErrorKind : Type 0 where
  cancelled invalid_endpoint_kind network timeout authentication rate_limited : ErrorKind
  model_unavailable malformed_response persistence protocol_incompatible : ErrorKind
  invalid_configuration_kind unsupported_capability secret_unavailable : ErrorKind
  secure_storage_unavailable internal : ErrorKind

pub record TranslationError : Type 0 where
  pub kind : ErrorKind
  pub message : Text
  pub retry_after_ms : Option ℕ

-- `TranslationError::new` and `TranslationError::with_retry_after_ms`.
abbrev pub new_error : ErrorKind → Text → TranslationError
new_error kind message = record { kind = kind; message = message; retry_after_ms = none }

abbrev pub with_retry_after_ms : TranslationError → Option ℕ → TranslationError
with_retry_after_ms e hint = record e { retry_after_ms = hint }
