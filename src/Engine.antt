-- ===== src/Engine.antt =====
-- The worker of crates/linguamesh-engine/src/lib.rs, which turns the stream of a provider into
-- the events of an operation. A provider is known by what its stream yields before it ends; the
-- receiver by the number of sends before it is dropped, where it ever is.
pub mod Story
pub mod Lifecycle
pub mod Protocol
pub mod Completion
pub mod Metering
pub mod Refusal
mod Tests
use linguamesh_core.Base.{
  ℕ, ◌+◌, ◌%◌, suc, zero, Bool, true, false, Option, none, some, List, [], ◌∷◌, ◌++◌, Text, codes,
  is_empty, trim, contains_char, Result, ok, err, if◌then◌else◌,
}
use linguamesh_core.Failure.{ErrorKind, cancelled, malformed_response, TranslationError, new_error}
use linguamesh_core.Request.{TranslationRequest, validate_request}
use linguamesh_core.Event.{
  UsageRecord, provider_reported, locally_estimated, TranslationEvent, started, text_delta,
  completed, cancelled_event, failed,
}

-- `TranslationStreamEvent` of crates/linguamesh-provider-api/src/lib.rs.
pub data TranslationStreamEvent : Type 0 where
  text_item : Text → TranslationStreamEvent
  usage_item : UsageRecord → TranslationStreamEvent

abbrev pub Items : Type 0
Items = List (Result TranslationStreamEvent TranslationError)

-- The sending end of the channel, with what was sent.
pub record Sender : Type 0 where
  pub sent : List TranslationEvent
  pub room : Option ℕ

-- `sender.send(event).await`; a send fails when the receiver is gone.
abbrev pub send_within : Option ℕ → Sender → TranslationEvent → Option Sender
send_within none sender event = some (record sender { sent = sender.sent ++ (event ∷ []) })
send_within (some zero) sender event = none
send_within (some (suc room)) sender event =
    some (record { sent = sender.sent ++ (event ∷ []); room = some room })

abbrev pub send : Sender → TranslationEvent → Option Sender
send sender event = send_within sender.room sender event

-- How the worker ends: what was sent, and whether it cancelled the provider's token.
pub record Outcome : Type 0 where
  pub events : List TranslationEvent
  pub cancels : Bool

-- A send after which the worker returns, whether it fails or not.
abbrev pub finish : Sender → Option Sender → Outcome
finish sender none = record { events = sender.sent; cancels = false }
finish sender (some sender') = record { events = sender'.sent; cancels = false }

abbrev pub is_cancelled : ErrorKind → Bool
is_cancelled cancelled = true
is_cancelled kind = false

unfoldable pub send_error_terminal : Sender → ℕ → TranslationError → Outcome
send_error_terminal sender sequence error =
    let event =
      if is_cancelled error.kind then cancelled_event sequence else failed sequence error in
    finish sender (send sender event)

abbrev pub option_or {ℓ} : {A : Type ℓ} → Option A → Option A → Option A
option_or none b = b
option_or (some a) b = some a

unfoldable pub merge_usage_records : UsageRecord → UsageRecord → UsageRecord
merge_usage_records previous next =
    provider_reported (option_or next.input_tokens previous.input_tokens)
      (option_or next.output_tokens previous.output_tokens)
      (option_or next.total_tokens previous.total_tokens)

unfoldable pub validate_translation_output :
    TranslationRequest → Text → Result (Unit {0}) TranslationError
validate_translation_output request output =
    if is_empty (trim request.source_text)
    then ok tt
    else if is_empty (trim output)
    then err (new_error malformed_response (codes "Provider returned an empty translation."))
    else if contains_char 0xFFFD output
    then err (
        new_error malformed_response
          (codes "Provider returned invalid UTF-8 replacement characters."))
    else ok tt

-- `sequence += 1` on a `u64`.
abbrev pub next_sequence : ℕ → ℕ
next_sequence sequence = (sequence + 1) % 18446744073709551616

abbrev pub add_usage : Option UsageRecord → UsageRecord → UsageRecord
add_usage none usage = usage
add_usage (some previous) usage = merge_usage_records previous usage

-- Behind the loop.
unfoldable pub complete :
    TranslationRequest
    → Sender
    → ℕ
    → Text
    → Option UsageRecord
    → Result (Unit {0}) TranslationError
    → Outcome
unfolding send_error_terminal
complete request sender sequence output usage (err error) =
    send_error_terminal sender sequence error
complete request sender sequence output usage (ok valid) =
    let usage' = option_or usage (some (locally_estimated request.source_text output)) in
    finish sender (send sender (completed sequence usage'))

-- The loop over the items of the stream.
unfoldable pub relay : TranslationRequest → Sender → ℕ → Text → Option UsageRecord → Items → Outcome
unfolding send_error_terminal complete
relay request sender sequence output usage [] =
    complete request sender sequence output usage (validate_translation_output request output)
relay request sender sequence output usage (err error ∷ items) =
    send_error_terminal sender sequence error
relay request sender sequence output usage (ok (usage_item next) ∷ items) =
    relay request sender sequence output (some (add_usage usage next)) items
relay request sender sequence output usage (ok (text_item text) ∷ items) =
    elim (send sender (text_delta sequence text)) [
      | none ↦ record { events = sender.sent; cancels = true }
      | some sender' ↦ relay request sender' (next_sequence sequence) (output ++ text) usage items
    ]

-- From the answer of the provider on.
unfoldable pub serve : TranslationRequest → Sender → ℕ → Result Items TranslationError → Outcome
serve request sender sequence (err error) = send_error_terminal sender sequence error
serve request sender sequence (ok items) = relay request sender sequence [] none items

-- From the validation of the request on.
unfoldable pub admit :
    TranslationRequest
    → Sender
    → ℕ
    → Result (Unit {0}) TranslationError
    → (TranslationRequest → Result Items TranslationError)
    → Outcome
admit request sender sequence (err error) translate_stream =
    send_error_terminal sender sequence error
admit request sender sequence (ok valid) translate_stream =
    serve request sender sequence (translate_stream request)

-- `TranslationEngine::translate_with_sequence_offset`: the task that it spawns.
unfoldable pub translate_with_sequence_offset :
    (TranslationRequest → Result Items TranslationError)
    → Option ℕ
    → TranslationRequest
    → ℕ
    → Outcome
translate_with_sequence_offset translate_stream room request sequence_offset =
    let sender : Sender = record { sent = []; room = room } in
    elim (send sender (started sequence_offset)) [
      | none ↦ record { events = sender.sent; cancels = true }
      | some sender' ↦
          admit request sender' (next_sequence sequence_offset) (validate_request request)
            translate_stream
    ]

-- `TranslationEngine::translate`.
abbrev pub translate :
    (TranslationRequest → Result Items TranslationError) → Option ℕ → TranslationRequest → Outcome
translate translate_stream room request =
    translate_with_sequence_offset translate_stream room request 0
