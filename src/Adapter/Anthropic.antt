-- ===== src/Adapter/Anthropic.antt =====
-- The events of crates/linguamesh-provider-anthropic/src/lib.rs.
use linguamesh_core.Base.{
  Option, none, some, List, [], ◌∷◌, Text, codes, text_eq, Result, ok, ◌>>=◌, is_empty,
  if◌then◌else◌,
}
use linguamesh_core.Failure.{TranslationError}
use linguamesh_core.Event.{UsageRecord}
use linguamesh_core.Stream.{Bytes}
use linguamesh_core.Stream.Utf8.{event_data}
use linguamesh_core.Stream.Run.{Action, report_usage, complete, Decoder}
use linguamesh_core.Adapter.{
  UsageResponse, into_record, read_json, or_default, push_if_any, sse_decoder,
}

pub data SseMessage : Type 0 where
  delta : Text → SseMessage
  usage : UsageRecord → SseMessage
  done : SseMessage

pub record StreamDelta : Type 0 where
  pub delta_type : Text
  pub text : Option Text

-- `StreamResponse`: of `message`, the usage that it has.
pub record StreamResponse : Type 0 where
  pub event_type : Text
  pub delta_response : Option StreamDelta
  pub message : Option (Option UsageResponse)
  pub usage_response : Option UsageResponse

-- `response.message.and_then(|message| message.usage).or(response.usage)`.
abbrev pub any_usage : Option (Option UsageResponse) → Option UsageResponse → Option UsageResponse
any_usage (some (some u)) later = some u
any_usage (some none) later = later
any_usage none later = later

abbrev pub text_message : Option StreamDelta → Option SseMessage
text_message none = none
text_message (some d) =
    if text_eq d.delta_type (codes "text_delta") then some (delta (or_default d.text)) else none

abbrev pub response_message : StreamResponse → Option SseMessage
response_message response = elim (any_usage response.message response.usage_response) [
  | some u ↦ some (usage (into_record u))
  | none ↦
      if text_eq response.event_type (codes "message_stop")
      then some done
      else if text_eq response.event_type (codes "content_block_delta")
      then text_message response.delta_response
      else none
]

unfoldable pub parse_event :
    (Text → Option StreamResponse) → Bytes → Result (Option SseMessage) TranslationError
parse_event from_str event = do
  source ← event_data event
  if is_empty source then ok none else (do
    response ← read_json from_str (codes "Provider stream contained malformed JSON.") source
    ok (response_message response))

-- The arms of the loop in `translate_protected_stream`.
unfoldable pub arm : SseMessage → List Action
arm (delta text) = push_if_any text
arm (usage u) = report_usage u ∷ []
arm done = complete ∷ []

abbrev pub decoder : (Text → Option StreamResponse) → Decoder SseMessage
decoder from_str = sse_decoder (parse_event from_str) arm
