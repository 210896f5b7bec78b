-- ===== src/Engine/Protocol.antt =====
-- The protocol that a client of crates/linguamesh-engine/src/lib.rs sees: numbering, endings, the
-- text, and the usage.
use linguamesh_core.Base.{
  ◌≡◌, ◌<◌, refl, ℕ, ◌+◌, suc, zero, true, Option, none, some, List, [], ◌∷◌, ◌++◌, Text, length,
  Result, ok, err, arith,
}
use linguamesh_core.Failure.{TranslationError}
use linguamesh_core.Request.{TranslationRequest}
use linguamesh_core.Event.{
  UsageRecord, TranslationEvent, started, text_delta, completed, cancelled_event, failed, sequence,
  is_terminal,
}
use linguamesh_core.Engine.{
  Items, validate_translation_output, next_sequence, translate_with_sequence_offset,
}
use linguamesh_core.Engine.Lifecycle.{translate-before_drop}
use linguamesh_core.Engine.Story.{
  heard, texts, usages, failure, concat, deltas, advance, verdict, ending, before_drop,
}

-- Events that carry the numbers from `n` on, one after the other.
abbrev pub Numbered : ℕ → List TranslationEvent → Type 0
Numbered n [] = Unit
Numbered n (e ∷ es) = (sequence e ≡ n) × Numbered (suc n) es

abbrev pub texts_of : List TranslationEvent → Text
texts_of [] = []
texts_of (text_delta n t ∷ es) = t ++ texts_of es
texts_of (started n ∷ es) = texts_of es
texts_of (completed n usage ∷ es) = texts_of es
texts_of (cancelled_event n ∷ es) = texts_of es
texts_of (failed n error ∷ es) = texts_of es

before_drop-Numbered :
    (room : Option ℕ) (n : ℕ) (es : List TranslationEvent)
    → Numbered n es
    → Numbered n (before_drop room es)
before_drop-Numbered none n es h = h
before_drop-Numbered (some zero) n es h = tt
before_drop-Numbered (some (suc k)) n [] h = tt
before_drop-Numbered (some (suc k)) n (e ∷ es) h =
    (h.0, before_drop-Numbered (some k) (suc n) es h.1)

next_sequence-suc : (n : ℕ) → n < 18446744073709551615 → next_sequence n ≡ suc n
next_sequence-suc n h = omega arith

sequence-verdict :
    (request : TranslationRequest) (n : ℕ) (output : Text) (usage : Option UsageRecord)
    (checked : Result (Unit {0}) TranslationError)
    → (sequence (verdict request n output usage checked) ≡ n)
      × (is_terminal (verdict request n output usage checked) ≡ true)
sequence-verdict request n output usage (err error) = ground arith
sequence-verdict request n output usage (ok valid) = ground arith

pub sequence-ending :
    (request : TranslationRequest) (n : ℕ) (output : Text) (usage : Option UsageRecord)
    (o : Option TranslationError)
    → (sequence (ending request n output usage o) ≡ n)
      × (is_terminal (ending request n output usage o) ≡ true)
sequence-ending request n output usage (some error) = ground arith
sequence-ending request n output usage none =
    sequence-verdict request n output usage (validate_translation_output request output)

deltas-Numbered :
    (n : ℕ) (ts : List Text) (e : ℕ → TranslationEvent)
    → ((k : ℕ) → sequence (e k) ≡ k)
    → n + length ts < 18446744073709551615
    → Numbered n (deltas n ts ++ (e (advance n ts) ∷ []))
deltas-Numbered n [] e h b = (h n, tt)
deltas-Numbered n (t ∷ ts) e h b =
    rw (next_sequence-suc n (ground arith)) (refl, deltas-Numbered (suc n) ts e h (ground arith))

-- While a `u64` can count them, the events that a receiver gets carry the numbers from the offset
-- on without a gap, whatever the provider yields and whenever the receiver is dropped.
pub translate-Numbered :
    (translate_stream : TranslationRequest → Result Items TranslationError) (room : Option ℕ)
    (request : TranslationRequest) (offset : ℕ)
    → suc offset + length (texts (heard translate_stream request)) < 18446744073709551615
    → Numbered offset (translate_with_sequence_offset translate_stream room request offset).events
translate-Numbered translate_stream room request offset h =
    rw (translate-before_drop translate_stream room request offset) (
      before_drop-Numbered room offset _ (
        refl,
        (rw (next_sequence-suc offset (ground arith)) (
            deltas-Numbered (suc offset) (texts (heard translate_stream request))
              (λ n.
                ending request n (concat (texts (heard translate_stream request)))
                  (usages none (heard translate_stream request))
                  (failure (heard translate_stream request)))
              (λ n. (sequence-ending request n _ _ _).0) h)),
      ))
