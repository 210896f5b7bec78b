-- ===== src/Adapter.antt =====
-- The streams of the provider adapters: the messages of their events and the arms of the loop in
-- `translate_protected_stream`. The reader of JSON is a parameter: it gives the fields that the
-- adapter's types name, or nothing.
pub mod OpenAi
pub mod Anthropic
pub mod Gemini
pub mod Ollama
pub mod Cuts
mod Tests
use linguamesh_core.Base.{
  ℕ, Bool, Option, none, some, List, [], ◌∷◌, Text, codes, Result, ok, err, is_empty, if◌then◌else◌,
}
use linguamesh_core.Failure.{ErrorKind, malformed_response, TranslationError, new_error}
use linguamesh_core.Event.{UsageRecord, provider_reported}
use linguamesh_core.Stream.{Bytes, push_bytes}
use linguamesh_core.Stream.Run.{Action, push_delta, Decoder}

pub record UsageResponse : Type 0 where
  pub input_tokens : Option ℕ
  pub output_tokens : Option ℕ
  pub total_tokens : Option ℕ

-- `UsageResponse::into_record`.
abbrev pub into_record : UsageResponse → UsageRecord
into_record self = provider_reported self.input_tokens self.output_tokens self.total_tokens

abbrev pub read_json : {A : Type 0} → (Text → Option A) → Text → Text → Result A TranslationError
read_json from_str message source = elim (from_str source) [
  | none ↦ err (new_error malformed_response message)
  | some a ↦ ok a
]

-- `unwrap_or_default` of a text.
abbrev pub or_default : Option Text → Text
or_default none = []
or_default (some t) = t

-- `if !text.is_empty()` around the push of a delta.
abbrev pub push_if_any : Text → List Action
push_if_any text = if is_empty text then [] else push_delta text ∷ []

-- A decoder of server-sent events has nothing to say at the end of the stream.
abbrev pub sse_decoder :
    {M : Type 0} → (Bytes → Result (Option M) TranslationError) → (M → List Action) → Decoder M
sse_decoder parse_event arm = record {
  push_chunk = push_bytes parse_event;
  at_end = λ buffer. ok [];
  arm = arm;
}
