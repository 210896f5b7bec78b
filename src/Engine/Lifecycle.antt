-- ===== src/Engine/Lifecycle.antt =====
-- The worker of crates/linguamesh-engine/src/lib.rs sends what the story of its stream says.
use linguamesh_core.Base.{
  ◌≡◌, refl, ap, ◌∙◌, ℕ, suc, zero, Bool, true, false, Option, none, some, List, [], ◌∷◌, ◌++◌,
  Text, length, Result, ok, err, ltb, arith,
}
use mathlib.Core.List.{append_assoc, append-nil}
use linguamesh_core.Failure.{TranslationError}
use linguamesh_core.Request.{TranslationRequest, validate_request}
use linguamesh_core.Event.{UsageRecord, TranslationEvent, started, text_delta}
use linguamesh_core.Engine.{
  text_item, usage_item, Items, Outcome, send_error_terminal, add_usage,
  validate_translation_output, next_sequence, complete, relay, serve, admit,
  translate_with_sequence_offset,
}
use linguamesh_core.Engine.Story.{
  answer, heard, texts, usages, failure, concat, deltas, advance, terminal, verdict, ending,
  opening, last_event, before_drop, is_dropped,
}

before_drop-nil : (room : Option ℕ) → before_drop room [] ≡ []
before_drop-nil none = refl
before_drop-nil (some zero) = refl
before_drop-nil (some (suc n)) = refl

not_dropped : (room : Option ℕ) → is_dropped room 0 ≡ false
not_dropped none = refl
not_dropped (some n) = ground arith

send_error_terminal_lem :
    (sent : List TranslationEvent) (room : Option ℕ) (n : ℕ) (error : TranslationError)
    → send_error_terminal (record { sent = sent; room = room }) n error
      ≡ record { events = sent ++ before_drop room (terminal n error ∷ []); cancels = false }
unfolding send_error_terminal
send_error_terminal_lem sent none n error = refl
send_error_terminal_lem sent (some zero) n error = rw append-nil
send_error_terminal_lem sent (some (suc k)) n error = rw before_drop-nil

dropped_suc : (k m : ℕ) → ltb k m ≡ ltb (suc k) (suc m)
dropped_suc k m = ground arith

outcome_eq :
    {l l' : List TranslationEvent} {b b' : Bool}
    → l ≡ l'
    → b ≡ b'
    → ◌≡◌ {A = Outcome} (record { events = l; cancels = b }) (record { events = l'; cancels = b' })
outcome_eq e f = rw (e, f)

zero_dropped : (k : ℕ) → ltb 0 (suc k) ≡ true
zero_dropped k = ground arith

complete_lem :
    (request : TranslationRequest) (sent : List TranslationEvent) (room : Option ℕ) (n : ℕ)
    (output : Text) (usage : Option UsageRecord) (checked : Result (Unit {0}) TranslationError)
    → complete request (record { sent = sent; room = room }) n output usage checked ≡ record {
      events = sent ++ before_drop room (verdict request n output usage checked ∷ []);
      cancels = false;
    }
unfolding complete
complete_lem request sent room n output usage (err error) =
    send_error_terminal_lem sent room n error
complete_lem request sent none n output usage (ok valid) = refl
complete_lem request sent (some zero) n output usage (ok valid) = rw append-nil
complete_lem request sent (some (suc k)) n output usage (ok valid) = rw before_drop-nil

relay_lem :
    (request : TranslationRequest) (items : Items) (sent : List TranslationEvent) (room : Option ℕ)
    (n : ℕ) (output : Text) (usage : Option UsageRecord)
    → relay request (record { sent = sent; room = room }) n output usage items ≡ record {
      events =
          sent
          ++ before_drop room (
              deltas n (texts items)
              ++ (ending request
                    (advance n (texts items))
                    (output ++ concat (texts items))
                    (usages usage items)
                    (failure items)
                  ∷ []));
      cancels = is_dropped room (length (texts items));
    }
unfolding relay
relay_lem request [] sent room n output usage = rw (
  append-nil,
  complete_lem request sent room n output usage (validate_translation_output request output),
  not_dropped,
)
relay_lem request (err error ∷ items) sent room n output usage =
    rw (send_error_terminal_lem sent room n error, not_dropped)
relay_lem request (ok (usage_item next) ∷ items) sent room n output usage =
    relay_lem request items sent room n output (some (add_usage usage next))
relay_lem request (ok (text_item text) ∷ items) sent none n output usage = rw (
  relay_lem request items (sent ++ (text_delta n text ∷ [])) none (next_sequence n) (output ++ text)
      usage,
  append_assoc,
  append_assoc,
)
relay_lem request (ok (text_item text) ∷ items) sent (some zero) n output usage =
    rw (append-nil, zero_dropped (length (texts items)))
relay_lem request (ok (text_item text) ∷ items) sent (some (suc k)) n output usage =
    relay_lem request items (sent ++ (text_delta n text ∷ [])) (some k) (next_sequence n)
      (output ++ text) usage
    ∙ outcome_eq
        (append_assoc sent (text_delta n text ∷ []) _
          ∙ ap
              (λ o.
                sent
                ++ (text_delta n text
                    ∷ before_drop (some k) (
                        deltas (next_sequence n) (texts items)
                        ++ (ending request (advance (next_sequence n) (texts items)) o
                              (usages usage items) (failure items)
                            ∷ []))))
              (append_assoc output text (concat (texts items))))
        (dropped_suc k (length (texts items)))

-- The relay of a stream, from its first item on.
abbrev story : TranslationRequest → List TranslationEvent → Option ℕ → ℕ → Items → Outcome
story request sent room n items = record {
  events =
      sent
      ++ before_drop room (
          deltas n (texts items)
          ++ (ending request (advance n (texts items)) (concat (texts items)) (usages none items)
                (failure items)
              ∷ []));
  cancels = is_dropped room (length (texts items));
}

serve_lem :
    (request : TranslationRequest) (sent : List TranslationEvent) (room : Option ℕ) (n : ℕ)
    (reply : Result Items TranslationError)
    → serve request (record { sent = sent; room = room }) n reply
      ≡ story request sent room n (answer (ok tt) reply)
unfolding serve
serve_lem request sent room n (err error) =
    rw (send_error_terminal_lem sent room n error, not_dropped)
serve_lem request sent room n (ok items) = relay_lem request items sent room n [] none

admit_lem :
    (request : TranslationRequest) (sent : List TranslationEvent) (room : Option ℕ) (n : ℕ)
    (checked : Result (Unit {0}) TranslationError)
    (translate_stream : TranslationRequest → Result Items TranslationError)
    → admit request (record { sent = sent; room = room }) n checked translate_stream
      ≡ story request sent room n (answer checked (translate_stream request))
unfolding admit
admit_lem request sent room n (err error) translate_stream =
    rw (send_error_terminal_lem sent room n error, not_dropped)
admit_lem request sent room n (ok valid) translate_stream =
    serve_lem request sent room n (translate_stream request)

length-deltas : (n : ℕ) (ts : List Text) → length (deltas n ts) ≡ length ts
length-deltas n [] = refl
length-deltas n (t ∷ ts) = ap suc (length-deltas (next_sequence n) ts)

-- What the worker sends is the opening and the ending of what it hears, cut where the receiver is
-- dropped; it cancels the provider exactly if that happens before the ending is due.
pub translate-before_drop :
    (translate_stream : TranslationRequest → Result Items TranslationError) (room : Option ℕ)
    (request : TranslationRequest) (offset : ℕ)
    → translate_with_sequence_offset translate_stream room request offset ≡ record {
      events = before_drop room (
          opening offset (heard translate_stream request)
          ++ (last_event request offset (heard translate_stream request) ∷ []));
      cancels = is_dropped room (length (opening offset (heard translate_stream request)));
    }
unfolding translate_with_sequence_offset
translate-before_drop translate_stream none request offset =
    admit_lem request (started offset ∷ []) none (next_sequence offset) (validate_request request)
      translate_stream
translate-before_drop translate_stream (some zero) request offset =
    ap (λ b. record { events = []; cancels = b }) (ground arith)
translate-before_drop translate_stream (some (suc k)) request offset = rw (
  admit_lem request (started offset ∷ []) (some k) (next_sequence offset) (validate_request request)
      translate_stream,
  length-deltas,
  dropped_suc k,
)
