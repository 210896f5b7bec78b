-- ===== src/Adapter/Ollama.antt =====
-- The lines of crates/linguamesh-provider-ollama/src/lib.rs. A turn of the loop on lines takes a
-- line feed, so that the number of bytes is enough fuel.
use linguamesh_core.Base.{
  ℕ, zero, suc, Bool, true, false, ◌||◌, Option, none, some, List, [], ◌∷◌, ◌++◌, all, length, Text,
  codes, Result, ok, err, ◌>>=◌, ◌==◌, if◌then◌else◌,
}
use linguamesh_core.Failure.{TranslationError, new_error, malformed_response}
use linguamesh_core.Event.{UsageRecord, provider_reported, saturating_add}
use linguamesh_core.Protection.{find, behind}
use linguamesh_core.Stream.{Bytes}
use linguamesh_core.Stream.Run.{Action, push_delta, report_usage, complete, Decoder}

-- `OllamaStreamResponse`: of `message`, the content that it has.
pub record OllamaStreamResponse : Type 0 where
  pub message : Option (Option Text)
  pub is_done : Bool
  pub prompt_eval_count : Option ℕ
  pub eval_count : Option ℕ

pub record OllamaStreamMessage : Type 0 where
  pub content : Option Text
  pub usage : Option UsageRecord
  pub done : Bool

abbrev pub message_content : Option (Option Text) → Option Text
message_content none = none
message_content (some content) = content

abbrev pub total_count : Option ℕ → Option ℕ → Option ℕ
total_count none output = none
total_count (some input) none = none
total_count (some input) (some output) = some (saturating_add input output)

unfoldable pub stream_message : OllamaStreamResponse → OllamaStreamMessage
stream_message response = record {
  content = message_content response.message;
  usage =
      if response.is_done
      then some (
          provider_reported response.prompt_eval_count response.eval_count
            (total_count response.prompt_eval_count response.eval_count))
      else none;
  done = response.is_done;
}

-- `u8::is_ascii_whitespace`.
abbrev pub is_ascii_whitespace : ℕ → Bool
is_ascii_whitespace b = b == 32 || b == 9 || b == 10 || b == 12 || b == 13

abbrev pub without_return : Bytes → Bytes
without_return [] = []
without_return (b ∷ []) = if b == 13 then [] else b ∷ []
without_return (b ∷ c ∷ s) = b ∷ without_return (c ∷ s)

module _ (from_slice : Bytes → Option OllamaStreamResponse) where
  unfoldable pub parse_line : Bytes → Result OllamaStreamMessage TranslationError
  parse_line line = elim (from_slice line) [
    | none ↦ err (new_error malformed_response (codes "Provider stream contained malformed JSON."))
    | some response ↦ ok (stream_message response)
  ]

  -- The last line of a response, when it has no line feed.
  abbrev pub last_line : Bool → Bytes → Result (List OllamaStreamMessage × Bytes) TranslationError
  last_line false buffer = ok ([], buffer)
  last_line true [] = ok ([], [])
  last_line true (b ∷ s) = do message ← parse_line (b ∷ s); ok (message ∷ [], [])

  unfoldable pub drain_lines :
      ℕ → Bool → Bytes → Result (List OllamaStreamMessage × Bytes) TranslationError
  drain_lines zero final_line buffer = ok ([], buffer)
  drain_lines (suc fuel) final_line buffer = elim (find (10 ∷ []) buffer) [
    | none ↦ last_line final_line buffer
    | some front ↦
        let line = without_return front in
        let later = drain_lines fuel final_line (behind (front ++ (10 ∷ [])) buffer) in
        if all is_ascii_whitespace line
        then later
        else (do message ← parse_line line; rest ← later; ok (message ∷ rest.0, rest.1))
  ]

  -- `NdjsonDecoder::push` and `NdjsonDecoder::finish`.
  unfoldable pub push_lines :
      Bytes → Bytes → Result (List OllamaStreamMessage × Bytes) TranslationError
  push_lines buffer chunk = drain_lines (suc (length (buffer ++ chunk))) false (buffer ++ chunk)

  unfoldable pub finish_lines : Bytes → Result (List OllamaStreamMessage) TranslationError
  finish_lines buffer = do drained ← drain_lines (suc (length buffer)) true buffer; ok drained.0

abbrev pub usage_actions : Option UsageRecord → List Action
usage_actions none = []
usage_actions (some u) = report_usage u ∷ []

abbrev pub content_actions : Option Text → List Action
content_actions none = []
content_actions (some text) = push_delta text ∷ []

-- The body of the loops on messages in `translate_protected_stream`.
unfoldable pub arm : OllamaStreamMessage → List Action
arm message =
    usage_actions message.usage
    ++ (content_actions message.content ++ (if message.done then complete ∷ [] else []))

abbrev pub decoder : (Bytes → Option OllamaStreamResponse) → Decoder OllamaStreamMessage
decoder from_slice = record {
  push_chunk = push_lines from_slice;
  at_end = finish_lines from_slice;
  arm = arm;
}
