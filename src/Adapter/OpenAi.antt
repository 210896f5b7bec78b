-- ===== src/Adapter/OpenAi.antt =====
-- The events of crates/linguamesh-provider-openai/src/lib.rs, for chat completions and for the
-- Responses protocol.
use linguamesh_core.Base.{
  Option, none, some, List, [], ◌∷◌, Text, codes, text_eq, Result, ok, err, ◌>>=◌, is_empty,
  if◌then◌else◌, ◌||◌,
}
use linguamesh_core.Failure.{network, TranslationError, new_error}
use linguamesh_core.Event.{UsageRecord}
use linguamesh_core.Stream.{Bytes}
use linguamesh_core.Stream.Utf8.{event_data}
use linguamesh_core.Stream.Run.{Action, report_usage, complete, Decoder}
use linguamesh_core.Adapter.{
  UsageResponse, into_record, read_json, or_default, push_if_any, sse_decoder,
}

pub data SseMessage : Type 0 where
  delta : Text → SseMessage
  usage : UsageRecord → SseMessage
  usage_and_done : UsageRecord → SseMessage
  done : SseMessage

-- `StreamResponse`: the content of the delta of each choice, and the usage.
pub record StreamResponse : Type 0 where
  pub choices : List (Option Text)
  pub usage_response : Option UsageResponse

-- `ResponsesStreamEvent`: of `response`, the usage that it has.
pub record ResponsesStreamEvent : Type 0 where
  pub event_type : Text
  pub delta_text : Option Text
  pub response : Option (Option UsageResponse)

abbrev pub first_content : List (Option Text) → Text
first_content [] = []
first_content (content ∷ rest) = or_default content

abbrev pub response_message : StreamResponse → SseMessage
response_message response = elim response.usage_response [
  | some u ↦ usage (into_record u)
  | none ↦ delta (first_content response.choices)
]

unfoldable pub parse_event :
    (Text → Option StreamResponse) → Bytes → Result (Option SseMessage) TranslationError
parse_event from_str event = do
  source ← event_data event
  if is_empty source
      then ok none
      else if text_eq source (codes "[DONE]")
      then ok (some done)
      else (do
        response ← read_json from_str (codes "Provider stream contained malformed JSON.") source
        ok (some (response_message response)))

abbrev pub completed_message : Option (Option UsageResponse) → SseMessage
completed_message (some (some u)) = usage_and_done (into_record u)
completed_message (some none) = done
completed_message none = done

abbrev pub responses_message : ResponsesStreamEvent → Result (Option SseMessage) TranslationError
responses_message response =
    if text_eq response.event_type (codes "response.output_text.delta")
    then ok (some (delta (or_default response.delta_text)))
    else if text_eq response.event_type (codes "response.completed")
    then ok (some (completed_message response.response))
    else if text_eq response.event_type (codes "error")
        || text_eq response.event_type (codes "response.failed")
    then err (new_error network (codes "Provider Responses stream reported an error."))
    else ok none

unfoldable pub parse_responses_event :
    (Text → Option ResponsesStreamEvent) → Bytes → Result (Option SseMessage) TranslationError
parse_responses_event from_str event = do
  source ← event_data event
  if is_empty source then ok none else (do
    response ←
        read_json from_str (codes "Provider Responses stream contained malformed JSON.") source
    responses_message response)

-- The arms of the loop in `translate_protected_stream`.
unfoldable pub arm : SseMessage → List Action
arm (delta text) = push_if_any text
arm (usage u) = report_usage u ∷ []
arm (usage_and_done u) = report_usage u ∷ complete ∷ []
arm done = complete ∷ []

abbrev pub chat_decoder : (Text → Option StreamResponse) → Decoder SseMessage
chat_decoder from_str = sse_decoder (parse_event from_str) arm

abbrev pub responses_decoder : (Text → Option ResponsesStreamEvent) → Decoder SseMessage
responses_decoder from_str = sse_decoder (parse_responses_event from_str) arm
