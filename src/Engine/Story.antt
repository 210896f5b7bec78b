-- ===== src/Engine/Story.antt =====
-- What the worker of crates/linguamesh-engine/src/lib.rs sends, told without its loop: an opening
-- event, an event for each text before the first error, and one ending.
use linguamesh_core.Base.{
  ℕ, suc, zero, Bool, false, Option, none, some, List, [], ◌∷◌, ◌++◌, Text, Result, ok, err,
  if◌then◌else◌, ltb,
}
use linguamesh_core.Failure.{TranslationError}
use linguamesh_core.Request.{TranslationRequest, validate_request}
use linguamesh_core.Event.{
  UsageRecord, locally_estimated, TranslationEvent, started, text_delta, completed, cancelled_event,
  failed,
}
use linguamesh_core.Engine.{
  text_item, usage_item, Items, is_cancelled, option_or, add_usage, validate_translation_output,
  next_sequence,
}

-- What an operation hears: a request that is refused, or a call that fails, is a stream that
-- yields the error.
abbrev pub answer : Result (Unit {0}) TranslationError → Result Items TranslationError → Items
answer (err error) reply = err error ∷ []
answer (ok valid) (err error) = err error ∷ []
answer (ok valid) (ok items) = items

abbrev pub heard : (TranslationRequest → Result Items TranslationError) → TranslationRequest → Items
heard translate_stream request = answer (validate_request request) (translate_stream request)

-- Of the items before the first error: the texts, the merged usage, and that error.
abbrev pub texts : Items → List Text
texts [] = []
texts (err error ∷ items) = []
texts (ok (usage_item next) ∷ items) = texts items
texts (ok (text_item text) ∷ items) = text ∷ texts items

abbrev pub usages : Option UsageRecord → Items → Option UsageRecord
usages usage [] = usage
usages usage (err error ∷ items) = usage
usages usage (ok (usage_item next) ∷ items) = usages (some (add_usage usage next)) items
usages usage (ok (text_item text) ∷ items) = usages usage items

abbrev pub failure : Items → Option TranslationError
failure [] = none
failure (err error ∷ items) = some error
failure (ok item ∷ items) = failure items

abbrev pub concat : List Text → Text
concat [] = []
concat (t ∷ ts) = t ++ concat ts

-- The events of texts, numbered from a sequence number on, and the number behind them.
abbrev pub deltas : ℕ → List Text → List TranslationEvent
deltas n [] = []
deltas n (t ∷ ts) = text_delta n t ∷ deltas (next_sequence n) ts

abbrev pub advance : ℕ → List Text → ℕ
advance n [] = n
advance n (t ∷ ts) = advance (next_sequence n) ts

abbrev pub terminal : ℕ → TranslationError → TranslationEvent
terminal n error = if is_cancelled error.kind then cancelled_event n else failed n error

abbrev pub verdict :
    TranslationRequest
    → ℕ
    → Text
    → Option UsageRecord
    → Result (Unit {0}) TranslationError
    → TranslationEvent
verdict request n output usage (err error) = terminal n error
verdict request n output usage (ok valid) =
    completed n (option_or usage (some (locally_estimated request.source_text output)))

abbrev pub ending :
    TranslationRequest → ℕ → Text → Option UsageRecord → Option TranslationError → TranslationEvent
ending request n output usage (some error) = terminal n error
ending request n output usage none =
    verdict request n output usage (validate_translation_output request output)

-- The whole operation, with a receiver that stays.
abbrev pub opening : ℕ → Items → List TranslationEvent
opening offset items = started offset ∷ deltas (next_sequence offset) (texts items)

abbrev pub last_event : TranslationRequest → ℕ → Items → TranslationEvent
last_event request offset items =
    ending request (advance (next_sequence offset) (texts items)) (concat (texts items))
      (usages none items) (failure items)

-- The events that are sent before the receiver is dropped, and whether it is dropped before `k`.
abbrev pub before_drop : Option ℕ → List TranslationEvent → List TranslationEvent
before_drop none events = events
before_drop (some zero) events = []
before_drop (some (suc n)) [] = []
before_drop (some (suc n)) (e ∷ events) = e ∷ before_drop (some n) events

abbrev pub is_dropped : Option ℕ → ℕ → Bool
is_dropped none k = false
is_dropped (some n) k = ltb n k
