-- ===== src/Engine/Completion.antt =====
-- How an operation of crates/linguamesh-engine/src/lib.rs ends, and what a completed one delivered.
use linguamesh_core.Base.{
  ◌≡◌, ◌≢◌, ◌⊎◌, refl, sym, ap, ◌∙◌, ℕ, true, false, Option, none, some, List, [], ◌∷◌, ◌++◌, All,
  Text, length, trim, contains_char, Result, ok, err, arith,
}
use linguamesh_core.Failure.{TranslationError}
use linguamesh_core.Request.{TranslationRequest, validate_request}
use linguamesh_core.Event.{
  UsageRecord, locally_estimated, TranslationEvent, started, text_delta, completed, cancelled_event,
  failed, is_terminal,
}
use linguamesh_core.Engine.{
  Items, option_or, validate_translation_output, next_sequence, translate_with_sequence_offset,
}
use linguamesh_core.Engine.Lifecycle.{translate-before_drop}
use linguamesh_core.Engine.Story.{
  answer, heard, texts, usages, failure, concat, deltas, terminal, verdict, ending, opening,
  last_event, before_drop, is_dropped,
}
use linguamesh_core.Engine.Protocol.{texts_of, sequence-ending}

some-injective :
    {a b : TranslationEvent} → ◌≡◌ {A = Option TranslationEvent} (some a) (some b) → a ≡ b
some-injective h = cc

deltas_open : (n : ℕ) (ts : List Text) → All (λ e. is_terminal e ≡ false) (deltas n ts)
deltas_open n [] = tt
deltas_open n (t ∷ ts) = (refl, deltas_open (next_sequence n) ts)

-- Whatever the provider does, an operation has one terminal event, behind all others: a receiver
-- that stays gets it, one that is dropped gets the events before the drop, and the provider's
-- token is cancelled exactly if the drop comes before the terminal event is due.
pub translate_ends :
    (translate_stream : TranslationRequest → Result Items TranslationError)
    (request : TranslationRequest) (offset : ℕ)
    → (events : List TranslationEvent) × (last : TranslationEvent) × All
        (λ e. is_terminal e ≡ false)
        events
      × (is_terminal last ≡ true)
      × ((room : Option ℕ)
          → ((translate_with_sequence_offset translate_stream room request offset).events
              ≡ before_drop room (events ++ (last ∷ [])))
            × ((translate_with_sequence_offset translate_stream room request offset).cancels
                ≡ is_dropped room (length events)))
translate_ends translate_stream request offset =
    let items : Items = heard translate_stream request in
    (
      opening offset items,
      last_event request offset items,
      (refl, deltas_open (next_sequence offset) (texts items)),
      (sequence-ending request _ _ _ (failure items)).1,
      (λ room. (
        ap (λ o. o.events) (translate-before_drop translate_stream room request offset),
        ap (λ o. o.cancels) (translate-before_drop translate_stream room request offset),
      )),
    )

abbrev pub final : List TranslationEvent → Option TranslationEvent
final [] = none
final (e ∷ []) = some e
final (e ∷ d ∷ es) = final (d ∷ es)

final-append : (es : List TranslationEvent) (e : TranslationEvent) → final (es ++ (e ∷ [])) ≡ some e
final-append [] e = refl
final-append (d ∷ []) e = refl
final-append (d ∷ c ∷ es) e = final-append (c ∷ es) e

texts_of-append :
    (es : List TranslationEvent) (e : TranslationEvent)
    → is_terminal e ≡ true
    → texts_of (es ++ (e ∷ [])) ≡ texts_of es
texts_of-append [] (started n) h = cc
texts_of-append [] (text_delta n t) h = cc
texts_of-append [] (completed n usage) h = refl
texts_of-append [] (cancelled_event n) h = refl
texts_of-append [] (failed n error) h = refl
texts_of-append (started n ∷ es) e h = texts_of-append es e h
texts_of-append (text_delta n t ∷ es) e h = ap (λ s. t ++ s) (texts_of-append es e h)
texts_of-append (completed n usage ∷ es) e h = texts_of-append es e h
texts_of-append (cancelled_event n ∷ es) e h = texts_of-append es e h
texts_of-append (failed n error ∷ es) e h = texts_of-append es e h

texts_of-deltas : (n : ℕ) (ts : List Text) → texts_of (deltas n ts) ≡ concat ts
texts_of-deltas n [] = refl
texts_of-deltas n (t ∷ ts) = ap (λ s. t ++ s) (texts_of-deltas (next_sequence n) ts)

terminal-completed :
    (n m : ℕ) (error : TranslationError) (u : Option UsageRecord) → terminal n error ≢ completed m u
terminal-completed n m error u h = ground arith

verdict-completed :
    (request : TranslationRequest) (n m : ℕ) (output : Text) (usage u : Option UsageRecord)
    (checked : Result (Unit {0}) TranslationError)
    → verdict request n output usage checked ≡ completed m u
    → (checked ≡ ok tt)
      × (option_or usage (some (locally_estimated request.source_text output)) ≡ u)
verdict-completed request n m output usage u (err error) h =
    absurd (terminal-completed n m error u h)
verdict-completed request n m output usage u (ok valid) h = (refl, ground arith)

ending-completed :
    (request : TranslationRequest) (n m : ℕ) (output : Text) (usage u : Option UsageRecord)
    (o : Option TranslationError)
    → ending request n output usage o ≡ completed m u
    → (o ≡ none)
      × (validate_translation_output request output ≡ ok tt)
      × (option_or usage (some (locally_estimated request.source_text output)) ≡ u)
ending-completed request n m output usage u (some error) h =
    absurd (terminal-completed n m error u h)
ending-completed request n m output usage u none h =
    let (a, b) =
      verdict-completed request n m output usage u (validate_translation_output request output) h in
    (refl, a, b)

answer-cases :
    (checked : Result (Unit {0}) TranslationError) (reply : Result Items TranslationError)
    → failure (answer checked reply) ≡ none
    → (checked ≡ ok tt) × (reply ≡ ok (answer checked reply))
answer-cases (err error) reply h = cc
answer-cases (ok valid) (err error) h = cc
answer-cases (ok valid) (ok items) h = (refl, refl)

output_checked :
    (request : TranslationRequest) (output : Text)
    → validate_translation_output request output ≡ ok tt
    → (trim request.source_text ≡ []) ⊎ ((trim output ≢ []) × (contains_char 0xFFFD output ≡ false))
unfolding validate_translation_output
output_checked request output h = ground arith

-- An operation whose receiver stays and whose last event is a completion: the request was valid,
-- the provider's stream ended without an error, the texts of the events are the texts that it
-- yielded, and for a source that is not blank they are not blank and have no replacement character.
pub translate-completed :
    (translate_stream : TranslationRequest → Result Items TranslationError)
    (request : TranslationRequest) (offset n : ℕ) (usage : Option UsageRecord)
    → final (translate_with_sequence_offset translate_stream none request offset).events
      ≡ some (completed n usage)
    → (validate_request request ≡ ok tt)
      × ((items : Items) × (translate_stream request ≡ ok items)
          × (failure items ≡ none)
          × (texts_of (translate_with_sequence_offset translate_stream none request offset).events
              ≡ concat (texts items))
          × (option_or
                (usages none items)
                (some (locally_estimated request.source_text (concat (texts items))))
              ≡ usage)
          × ((trim request.source_text ≡ [])
              ⊎ ((trim (concat (texts items)) ≢ [])
                  × (contains_char 0xFFFD (concat (texts items)) ≡ false))))
translate-completed translate_stream request offset n usage h =
    let items : Items = heard translate_stream request in
    let told = ap (λ o. o.events) (translate-before_drop translate_stream none request offset) in
    let (b, k, l) =
      ending-completed request _ n (concat (texts items)) (usages none items) usage (failure items)
        (some-injective (
          sym (final-append (opening offset items) (last_event request offset items))
          ∙ (sym (ap final told) ∙ h))) in
    let (valid, reply) = answer-cases (validate_request request) (translate_stream request) b in
    (
      valid,
      (
        items,
        reply,
        b,
        ap texts_of told
            ∙ (texts_of-append (opening offset items) (last_event request offset items)
                  (sequence-ending request _ _ _ (failure items)).1
                ∙ texts_of-deltas (next_sequence offset) (texts items)),
        l,
        output_checked request (concat (texts items)) k,
      ),
    )
