-- ===== src/Event.antt =====
-- Usage records and translation events of crates/linguamesh-domain/src/lib.rs. A `u64` is a
-- number; a saturating sum is cut at its maximum.
use linguamesh_core.Base.{
  ℕ, ◌+◌, ◌/◌, min, Bool, true, false, Option, none, some, Text, len, ltb, if◌then◌else◌,
}
use linguamesh_core.Failure.{TranslationError}

pub data UsageSource : Type 0 where
  provider_reported_usage locally_estimated_usage unknown_usage : UsageSource

pub record UsageRecord : Type 0 where
  pub source : UsageSource
  pub input_tokens : Option ℕ
  pub output_tokens : Option ℕ
  pub total_tokens : Option ℕ

abbrev pub max_usage_tokens : ℕ
max_usage_tokens = 16777216

abbrev pub u64_max : ℕ
u64_max = 18446744073709551615

abbrev pub saturating_add : ℕ → ℕ → ℕ
saturating_add a b = min (a + b) u64_max

abbrev pub unknown : UsageRecord
unknown = record {
  source = unknown_usage;
  input_tokens = none;
  output_tokens = none;
  total_tokens = none;
}

unfoldable pub cap_usage_tokens : Option ℕ → Option ℕ
cap_usage_tokens none = none
cap_usage_tokens (some value) =
    some (if ltb max_usage_tokens value then max_usage_tokens else value)

-- `UsageRecord::provider_reported`.
unfoldable pub provider_reported : Option ℕ → Option ℕ → Option ℕ → UsageRecord
provider_reported input_tokens output_tokens total_tokens = record {
  source = provider_reported_usage;
  input_tokens = cap_usage_tokens input_tokens;
  output_tokens = cap_usage_tokens output_tokens;
  total_tokens = cap_usage_tokens total_tokens;
}

unfoldable pub approximate_token_count : Text → ℕ
approximate_token_count text = min (saturating_add (min (len text) u64_max) 3 / 4) max_usage_tokens

-- `UsageRecord::locally_estimated`.
unfoldable pub locally_estimated : Text → Text → UsageRecord
locally_estimated input output = record {
  source = locally_estimated_usage;
  input_tokens = some (approximate_token_count input);
  output_tokens = some (approximate_token_count output);
  total_tokens = some (
      min (saturating_add (approximate_token_count input) (approximate_token_count output))
        max_usage_tokens);
}

pub data TranslationEvent : Type 0 where
  started : ℕ → TranslationEvent
  text_delta : ℕ → Text → TranslationEvent
  completed : ℕ → Option UsageRecord → TranslationEvent
  cancelled_event : ℕ → TranslationEvent
  failed : ℕ → TranslationError → TranslationEvent

-- `TranslationEvent::sequence`.
abbrev pub sequence : TranslationEvent → ℕ
sequence (started n) = n
sequence (text_delta n text) = n
sequence (completed n usage) = n
sequence (cancelled_event n) = n
sequence (failed n error) = n

abbrev pub is_terminal : TranslationEvent → Bool
is_terminal (started n) = false
is_terminal (text_delta n text) = false
is_terminal (completed n usage) = true
is_terminal (cancelled_event n) = true
is_terminal (failed n error) = true
