-- ===== src/Stream/Run.antt =====
-- The stream of `translate_protected_stream` in the adapters, such as
-- crates/linguamesh-provider-openai/src/lib.rs: the loop on the chunks of a response, the arms of
-- the messages and the completion. The network is the list of what it gives next. A run is the
-- events that it yields and how it ends.
use linguamesh_core.Base.{
  ℕ, ◌+◌, min, Bool, true, false, List, [], ◌∷◌, ◌++◌, length, is_empty, Text, codes, Result, ok,
  err, ltb, if◌then◌else◌,
}
use linguamesh_core.Failure.{
  cancelled, network, timeout, malformed_response, invalid_configuration_kind, TranslationError,
  new_error,
}
use linguamesh_core.Event.{UsageRecord}
use linguamesh_core.Engine.{TranslationStreamEvent, text_item, usage_item}
use linguamesh_core.Protection.{
  ProtectedSource, ChunkingError, invalid_limit, protected_span_too_large, protected_span_split,
}
use linguamesh_core.Protection.Restorer.{
  ProtectedTextError, duplicate_marker, missing_marker, invalid_marker, ProtectedTextRestorer,
  restorer, push, finish,
}
use linguamesh_core.Stream.{Bytes}

abbrev pub max_response_bytes : ℕ
max_response_bytes = 1048576

-- The messages of the errors, and `map_protected_error` and `map_chunking_error`.
abbrev pub protected_message : ProtectedTextError → Text
protected_message duplicate_marker = codes "Provider output repeated a protected marker."
protected_message missing_marker = codes "Provider output omitted a protected marker."
protected_message invalid_marker = codes "Provider output contained an invalid protected marker."

unfoldable pub map_protected_error : ProtectedTextError → TranslationError
map_protected_error error = new_error malformed_response (protected_message error)

abbrev pub chunking_message : ChunkingError → Text
chunking_message invalid_limit = codes "Translation chunk size must be greater than zero."
chunking_message protected_span_too_large =
    codes "A protected span exceeds the translation chunk size."
chunking_message protected_span_split = codes "Translation chunking would split a protected span."

unfoldable pub map_chunking_error : ChunkingError → TranslationError
map_chunking_error error = new_error invalid_configuration_kind (chunking_message error)

-- `map_reqwest_error`, of whether the error is a timeout.
unfoldable pub map_reqwest_error : Bool → TranslationError
map_reqwest_error true = new_error timeout (codes "Provider request timed out.")
map_reqwest_error false = new_error network (codes "Provider network request failed.")

-- What the arm of a message does.
pub data Action : Type 0 where
  push_delta : Text → Action
  report_usage : UsageRecord → Action
  complete : Action

-- What the adapter waits for.
pub data Next : Type 0 where
  chunk : Bytes → Next
  transport_failed : Bool → Next
  token_cancelled idle_timeout : Next

pub record Run (A : Type 0) : Type 0 where
  pub yields : List TranslationStreamEvent
  pub ends : Result A TranslationError

abbrev pub fail : {A : Type 0} → TranslationError → Run A
fail error = record { yields = []; ends = err error }

abbrev pub yield_event : {A : Type 0} → TranslationStreamEvent → Run A → Run A
yield_event event run = record { yields = event ∷ run.yields; ends = run.ends }

-- `if !text.is_empty() { yield Text(text) }`.
abbrev pub yield_text : {A : Type 0} → Text → Run A → Run A
yield_text text run = if is_empty text then run else yield_event (text_item text) run

abbrev pub and_then : {A B : Type 0} → Run A → (A → Run B) → Run B
and_then run next = elim run.ends [
  | err error ↦ record { yields = run.yields; ends = err error }
  | ok a ↦ let later = next a in record { yields = run.yields ++ later.yields; ends = later.ends }
]

-- The arms of the messages of a chunk: the restorer, and whether the response is complete.
unfoldable pub perform : List Action → ProtectedTextRestorer → Run (ProtectedTextRestorer × Bool)
perform [] span_restorer = record { yields = []; ends = ok (span_restorer, false) }
perform (push_delta text ∷ actions) span_restorer = elim (push span_restorer text) [
  | err error ↦ fail (map_protected_error error)
  | ok (safe_delta, span_restorer') ↦ yield_text safe_delta (perform actions span_restorer')
]
perform (report_usage usage ∷ actions) span_restorer =
    yield_event (usage_item usage) (perform actions span_restorer)
perform (complete ∷ actions) span_restorer = record { yields = []; ends = ok (span_restorer, true) }

abbrev pub actions_of : {M : Type 0} → (M → List Action) → List M → List Action
actions_of arm [] = []
actions_of arm (m ∷ ms) = arm m ++ actions_of arm ms

-- `saturating_add` on a `usize` of 64 bits.
abbrev pub add_bytes : ℕ → Bytes → ℕ
add_bytes total c = min (total + length c) 18446744073709551615

-- An adapter's decoder: `push`, and what it makes of the bytes that are left at the end; and the
-- arms of its messages.
pub record Decoder (M : Type 0) : Type 0 where
  pub push_chunk : Bytes → Bytes → Result (List M × Bytes) TranslationError
  pub at_end : Bytes → Result (List M) TranslationError
  pub arm : M → List Action

module _ {M : Type 0} (decoder : Decoder M) where
  -- The messages of a chunk, unless they are in error.
  abbrev pub handle :
      {A : Type 0}
      → Result A TranslationError
      → (A → Run (ProtectedTextRestorer × Bool))
      → Run (ProtectedTextRestorer × Bool)
  handle (err error) next = fail error
  handle (ok a) next = next a

  -- At the end of the network's stream.
  unfoldable pub last_messages : Bytes → ProtectedTextRestorer → Run (ProtectedTextRestorer × Bool)
  last_messages buffer span_restorer =
      handle (decoder.at_end buffer) (λ ms. perform (actions_of decoder.arm ms) span_restorer)

  unfoldable pub stream_loop :
      List Next → Bytes → ℕ → ProtectedTextRestorer → Run (ProtectedTextRestorer × Bool)
  stream_loop [] buffer total_bytes span_restorer = last_messages buffer span_restorer
  stream_loop (token_cancelled ∷ items) buffer total_bytes span_restorer =
      fail (new_error cancelled (codes "Translation was cancelled."))
  stream_loop (idle_timeout ∷ items) buffer total_bytes span_restorer =
      fail (new_error timeout (codes "Provider stream timed out waiting for the next chunk."))
  stream_loop (transport_failed is_timeout ∷ items) buffer total_bytes span_restorer =
      fail (map_reqwest_error is_timeout)
  stream_loop (chunk c ∷ items) buffer total_bytes span_restorer =
      if ltb max_response_bytes (add_bytes total_bytes c)
      then fail
          (new_error malformed_response (codes "Provider stream exceeded the response-size limit."))
      else handle (decoder.push_chunk buffer c) (λ pushed.
        and_then (perform (actions_of decoder.arm pushed.0) span_restorer) (λ state. elim state.1 [
          | true ↦ record { yields = []; ends = ok state }
          | false ↦ stream_loop items pushed.1 (add_bytes total_bytes c) state.0
        ]))

  abbrev pub finish_stream : ProtectedTextRestorer × Bool → Run (Unit {0})
  finish_stream (span_restorer, false) =
      fail
        (new_error malformed_response (codes "Provider stream ended before the completion marker."))
  finish_stream (span_restorer, true) = elim (finish span_restorer) [
    | err error ↦ fail (map_protected_error error)
    | ok safe_tail ↦ yield_text safe_tail (record { yields = []; ends = ok tt })
  ]

  -- The stream of `translate_protected_stream`.
  unfoldable pub translate_protected_stream : ProtectedSource → List Next → Run (Unit {0})
  translate_protected_stream protected items =
      and_then (stream_loop items [] 0 (restorer protected)) finish_stream

  -- The stream of `translate_stream`: one response for each chunk of the source.
  unfoldable pub translate_chunks : List (ProtectedSource × List Next) → Run (Unit {0})
  translate_chunks [] = record { yields = []; ends = ok tt }
  translate_chunks ((protected, items) ∷ rest) =
      and_then (translate_protected_stream protected items) (λ _. translate_chunks rest)
