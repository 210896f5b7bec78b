-- ===== src/Adapter/Tests.antt =====
-- Streams of responses at concrete inputs.
use linguamesh_core.Base.{
  ◌>>=◌, ◌>>◌, ap, ◌≡◌, refl, inl, inr, Option, none, some, List, map, arith, [], ◌∷◌, ◌++◌, Text,
  codes, text_eq, Result, ok, err, true, false, if◌then◌else◌,
}
use linguamesh_core.Failure.{new_error, malformed_response}
use linguamesh_core.Engine.{text_item}
use linguamesh_core.Protection.{ProtectedSpan, ProtectedSource}
use linguamesh_core.Protection.Boundaries.{join}
use linguamesh_core.Protection.Restorer.{append_plain_text, restorer}
use linguamesh_core.Protection.Restorer.Pieces.{Accounts}
use linguamesh_core.Stream.{Bytes, push_bytes}
use linguamesh_core.Adapter.Cuts.{translate_protected_stream-join}
use linguamesh_core.Stream.Run.{
  fail, map_protected_error, Next, chunk, and_then, perform, finish_stream, actions_of, Run,
  translate_protected_stream,
}
use linguamesh_core.Stream.Restored.{Decoded, completes, deltas_of, texts_of}
use linguamesh_core.Stream.Completed.{translate_protected_stream-Accounts}
use linguamesh_core.Adapter.OpenAi.{
  SseMessage, delta, done, StreamResponse, parse_event, chat_decoder, arm,
}

-- A reader for the one kind of JSON in these streams: the content without its frame.
abbrev read : Text → Option StreamResponse
read t = some (record { choices = some t ∷ []; usage_response = none })

abbrev span : ProtectedSpan
span = record {
  token = codes "__LINGUAMESH_PROTECTED_0__";
  source = codes "`x`";
  replacement = codes "`x`";
}

abbrev source : ProtectedSource
source = record { text = codes "Nimm __LINGUAMESH_PROTECTED_0__"; spans = span ∷ [] }

abbrev event : Text → Bytes
event t = codes "data: " ++ (t ++ (10 ∷ 10 ∷ []))

abbrev parts : List Bytes
parts =
    (event (codes "Use __LINGUA") ++ codes "data: MESH_PROTEC")
    ∷ (codes "TED_0__" ++ (10 ∷ 10 ∷ []))
    ∷ event (codes "[DONE]")
    ∷ []

abbrev items : List Next
items = chunk (join parts) ∷ []

decodes :
    push_bytes (parse_event read) [] (join parts)
    ≡ ok (delta (codes "Use __LINGUA") ∷ delta (codes "MESH_PROTECTED_0__") ∷ done ∷ [], [])
unfolding translate_protected_stream linguamesh_core.Stream.Run.stream_loop
    linguamesh_core.Stream.Run.last_messages linguamesh_core.Stream.Run.perform
    linguamesh_core.Stream.Run.map_protected_error push_bytes linguamesh_core.Stream.decode_loop
    linguamesh_core.Stream.find_event_boundary parse_event arm
    linguamesh_core.Stream.Utf8.event_data linguamesh_core.Stream.Utf8.from_utf8
    linguamesh_core.Stream.Utf8.lines linguamesh_core.Base.trim_start
    linguamesh_core.Base.is_whitespace linguamesh_core.Protection.Restorer.push
    linguamesh_core.Protection.Restorer.finish linguamesh_core.Protection.Restorer.restorer
    linguamesh_core.Protection.Restorer.restore_loop linguamesh_core.Protection.Restorer.release
    linguamesh_core.Protection.Restorer.pass linguamesh_core.Protection.Restorer.next_marker
    linguamesh_core.Protection.Restorer.append_plain_text
    linguamesh_core.Protection.Restorer.longest_marker_prefix_suffix
decodes = refl

streams :
    translate_protected_stream (chat_decoder read) source items
    ≡ record { yields = text_item (codes "Use ") ∷ text_item (codes "`x`") ∷ []; ends = ok tt }
unfolding translate_protected_stream linguamesh_core.Stream.Run.stream_loop
    linguamesh_core.Stream.Run.last_messages linguamesh_core.Stream.Run.perform
    linguamesh_core.Stream.Run.map_protected_error push_bytes linguamesh_core.Stream.decode_loop
    linguamesh_core.Stream.find_event_boundary parse_event arm
    linguamesh_core.Stream.Utf8.event_data linguamesh_core.Stream.Utf8.from_utf8
    linguamesh_core.Stream.Utf8.lines linguamesh_core.Base.trim_start
    linguamesh_core.Base.is_whitespace linguamesh_core.Protection.Restorer.push
    linguamesh_core.Protection.Restorer.finish linguamesh_core.Protection.Restorer.restorer
    linguamesh_core.Protection.Restorer.restore_loop linguamesh_core.Protection.Restorer.release
    linguamesh_core.Protection.Restorer.pass linguamesh_core.Protection.Restorer.next_marker
    linguamesh_core.Protection.Restorer.append_plain_text
    linguamesh_core.Protection.Restorer.longest_marker_prefix_suffix
streams = refl

ends : (translate_protected_stream (chat_decoder read) source items).ends ≡ ok tt
ends = ap (λ run. run.ends) streams

-- Without the completion marker.
unfinished :
    (translate_protected_stream (chat_decoder read) source (chunk (event (codes "Use")) ∷ [])).ends
    ≡ err
        (new_error malformed_response (codes "Provider stream ended before the completion marker."))
unfolding translate_protected_stream linguamesh_core.Stream.Run.stream_loop
    linguamesh_core.Stream.Run.last_messages linguamesh_core.Stream.Run.perform
    linguamesh_core.Stream.Run.map_protected_error push_bytes linguamesh_core.Stream.decode_loop
    linguamesh_core.Stream.find_event_boundary parse_event arm
    linguamesh_core.Stream.Utf8.event_data linguamesh_core.Stream.Utf8.from_utf8
    linguamesh_core.Stream.Utf8.lines linguamesh_core.Base.trim_start
    linguamesh_core.Base.is_whitespace linguamesh_core.Protection.Restorer.push
    linguamesh_core.Protection.Restorer.finish linguamesh_core.Protection.Restorer.restorer
    linguamesh_core.Protection.Restorer.restore_loop linguamesh_core.Protection.Restorer.release
    linguamesh_core.Protection.Restorer.pass linguamesh_core.Protection.Restorer.next_marker
    linguamesh_core.Protection.Restorer.append_plain_text
    linguamesh_core.Protection.Restorer.longest_marker_prefix_suffix
unfinished = refl

abbrev messages : List SseMessage
messages = delta (codes "Use __LINGUA") ∷ delta (codes "MESH_PROTECTED_0__") ∷ done ∷ []

translate_protected_stream-join_example :
    (translate_protected_stream (chat_decoder read) source (map chunk parts)
      ≡ and_then
          (perform (actions_of arm messages) (restorer source))
          (finish_stream (chat_decoder read)))
    × (translate_protected_stream (chat_decoder read) source (map chunk parts)
        ≡ translate_protected_stream (chat_decoder read) source items)
translate_protected_stream-join_example =
    translate_protected_stream-join (parse_event read) arm parts source (messages, []) (inr refl)
      (omega arith) decodes

-- Behind the completion, an event in error is not looked at when it comes in a chunk of its own.
abbrev plain : ProtectedSource
plain = record { text = codes "Nimm"; spans = [] }

late_error :
    (translate_protected_stream
      (chat_decoder (λ t. none))
      plain
      (chunk (event (codes "[DONE]")) ∷ chunk (event (codes "x")) ∷ [])).ends
    ≡ ok tt
unfolding translate_protected_stream linguamesh_core.Stream.Run.stream_loop
    linguamesh_core.Stream.Run.last_messages linguamesh_core.Stream.Run.perform
    linguamesh_core.Stream.Run.map_protected_error push_bytes linguamesh_core.Stream.decode_loop
    linguamesh_core.Stream.find_event_boundary parse_event arm
    linguamesh_core.Stream.Utf8.event_data linguamesh_core.Stream.Utf8.from_utf8
    linguamesh_core.Stream.Utf8.lines linguamesh_core.Base.trim_start
    linguamesh_core.Base.is_whitespace linguamesh_core.Protection.Restorer.push
    linguamesh_core.Protection.Restorer.finish linguamesh_core.Protection.Restorer.restorer
    linguamesh_core.Protection.Restorer.restore_loop linguamesh_core.Protection.Restorer.release
    linguamesh_core.Protection.Restorer.pass linguamesh_core.Protection.Restorer.next_marker
    linguamesh_core.Protection.Restorer.append_plain_text
    linguamesh_core.Protection.Restorer.longest_marker_prefix_suffix
late_error = refl

-- In one chunk with the completion, it ends the response with an error.
early_error :
    (translate_protected_stream
      (chat_decoder (λ t. none))
      plain
      (chunk (event (codes "[DONE]") ++ event (codes "x")) ∷ [])).ends
    ≡ err (new_error malformed_response (codes "Provider stream contained malformed JSON."))
unfolding translate_protected_stream linguamesh_core.Stream.Run.stream_loop push_bytes
    linguamesh_core.Stream.decode_loop linguamesh_core.Stream.find_event_boundary parse_event
    linguamesh_core.Stream.Utf8.event_data linguamesh_core.Stream.Utf8.from_utf8
    linguamesh_core.Stream.Utf8.lines linguamesh_core.Base.trim_start
    linguamesh_core.Base.is_whitespace
early_error = refl

translate_protected_stream-Accounts_example :
    (ms : List SseMessage) × Decoded (chat_decoder read) items [] ms
    × (completes (actions_of arm ms) ≡ true)
    × Accounts
        (join (deltas_of (actions_of arm ms)))
        (texts_of (translate_protected_stream (chat_decoder read) source items).yields)
        (span ∷ [])
        []
translate_protected_stream-Accounts_example =
    translate_protected_stream-Accounts (chat_decoder read) source items ends
