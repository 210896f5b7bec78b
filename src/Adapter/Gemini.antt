-- ===== src/Adapter/Gemini.antt =====
-- The events of crates/linguamesh-provider-gemini/src/lib.rs.
use linguamesh_core.Base.{
  Bool, true, false, ◌||◌, Option, none, some, List, [], ◌∷◌, ◌++◌, any, all, Text, len, codes,
  is_ascii_alphanumeric, Result, ok, ◌>>=◌, ◌>>◌, reject_if, is_empty, ltb, not, ◌==◌,
  if◌then◌else◌,
}
use linguamesh_core.Failure.{TranslationError, new_error, invalid_configuration_kind}
use linguamesh_core.Event.{UsageRecord}
use linguamesh_core.Stream.{Bytes}
use linguamesh_core.Stream.Utf8.{event_data}
use linguamesh_core.Stream.Run.{Action, report_usage, complete, Decoder}
use linguamesh_core.Adapter.{
  UsageResponse, into_record, read_json, or_default, push_if_any, sse_decoder,
}

pub data SseMessage : Type 0 where
  delta : Text → SseMessage
  delta_and_done : Text → SseMessage
  delta_and_usage_and_done : Text → UsageRecord → SseMessage
  usage : UsageRecord → SseMessage
  usage_and_done : UsageRecord → SseMessage
  done : SseMessage

-- `Candidate`: the texts of the parts of its content, and the reason why it finished.
pub record Candidate : Type 0 where
  pub content : Option (List (Option Text))
  pub finish_reason : Option Text

pub record StreamResponse : Type 0 where
  pub candidates : List Candidate
  pub usage_metadata : Option UsageResponse

abbrev pub part_texts : List (Option Text) → Text
part_texts [] = []
part_texts (part ∷ parts) = or_default part ++ part_texts parts

abbrev pub output_text : List Candidate → Text
output_text [] = []
output_text (candidate ∷ rest) = elim candidate.content [
  | none ↦ output_text rest
  | some parts ↦ part_texts parts ++ output_text rest
]

abbrev pub is_finished : Candidate → Bool
is_finished candidate = elim candidate.finish_reason [ none ↦ false | some _ ↦ true ]

abbrev pub with_usage : UsageRecord → Text → Bool → SseMessage
with_usage u [] true = usage_and_done u
with_usage u (c ∷ s) true = delta_and_usage_and_done (c ∷ s) u
with_usage u [] false = usage u
with_usage u (c ∷ s) false = delta (c ∷ s)

abbrev pub without_usage : Text → Bool → SseMessage
without_usage [] true = done
without_usage (c ∷ s) true = delta_and_done (c ∷ s)
without_usage s false = delta s

unfoldable pub response_message : StreamResponse → SseMessage
response_message response =
    let output = output_text response.candidates in
    let finished = any is_finished response.candidates in
    elim response.usage_metadata [
      | some u ↦ with_usage (into_record u) output finished
      | none ↦ without_usage output finished
    ]

unfoldable pub parse_event :
    (Text → Option StreamResponse) → Bytes → Result (Option SseMessage) TranslationError
parse_event from_str event = do
  source ← event_data event
  if is_empty source then ok none else (do
    response ← read_json from_str (codes "Provider stream contained malformed JSON.") source
    ok (some (response_message response)))

-- The arms of the loop in `translate_protected_stream`.
unfoldable pub arm : SseMessage → List Action
arm (delta text) = push_if_any text
arm (delta_and_done text) = push_if_any text ++ (complete ∷ [])
arm (delta_and_usage_and_done text u) = push_if_any text ++ (report_usage u ∷ complete ∷ [])
arm (usage u) = report_usage u ∷ []
arm (usage_and_done u) = report_usage u ∷ complete ∷ []
arm done = complete ∷ []

abbrev pub decoder : (Text → Option StreamResponse) → Decoder SseMessage
decoder from_str = sse_decoder (parse_event from_str) arm

unfoldable pub valid_model_id : Text → Result Text TranslationError
valid_model_id model_id = do
  reject_if
      (is_empty model_id
        || ltb 128 (len model_id)
        || not (all (λ c. is_ascii_alphanumeric c || c == b'-' || c == b'_' || c == b'.') model_id))
      (new_error invalid_configuration_kind (codes "The Gemini model identifier is invalid."))
  ok model_id
