-- ===== src/Engine/Metering.antt =====
-- The usage that an operation of crates/linguamesh-engine/src/lib.rs reports.
use linguamesh_core.Base.{
  ◌≡◌, ◌≤◌, refl, sym, ◌∙◌, ℕ, Option, none, some, [], ◌∷◌, All, Text, Result, ok, err, arith,
}
use linguamesh_core.Failure.{TranslationError}
use linguamesh_core.Request.{TranslationRequest}
use linguamesh_core.Event.{
  UsageRecord, locally_estimated, provider_reported, cap_usage_tokens, approximate_token_count,
  completed,
}
use linguamesh_core.Engine.{
  TranslationStreamEvent, text_item, usage_item, Items, option_or, add_usage, merge_usage_records,
  translate_with_sequence_offset,
}
use linguamesh_core.Engine.Story.{usages, texts, concat}
use linguamesh_core.Engine.Completion.{final, translate-completed}

abbrev pub Fits : Option ℕ → Type 0
Fits none = Unit
Fits (some n) = n ≤ 16777216

-- No count of a record is above the cap.
pub record IsCapped (u : UsageRecord) : Type 0 where
  pub input : Fits u.input_tokens
  pub output : Fits u.output_tokens
  pub total : Fits u.total_tokens

abbrev pub IsCappedItem : Result TranslationStreamEvent TranslationError → Type 0
IsCappedItem (err error) = Unit
IsCappedItem (ok (text_item text)) = Unit
IsCappedItem (ok (usage_item usage)) = IsCapped usage

cap_usage_tokens-Fits : (o : Option ℕ) → Fits (cap_usage_tokens o)
unfolding cap_usage_tokens
cap_usage_tokens-Fits none = tt
cap_usage_tokens-Fits (some n) = ground arith

pub provider_reported-IsCapped : (a b c : Option ℕ) → IsCapped (provider_reported a b c)
unfolding provider_reported
provider_reported-IsCapped a b c = record {
  input = cap_usage_tokens-Fits a;
  output = cap_usage_tokens-Fits b;
  total = cap_usage_tokens-Fits c;
}

locally_estimated-IsCapped : (s t : Text) → IsCapped (locally_estimated s t)
unfolding locally_estimated approximate_token_count
locally_estimated-IsCapped s t = record {
  input = ground arith;
  output = ground arith;
  total = ground arith;
}

abbrev CappedOption : Option UsageRecord → Type 0
CappedOption none = Unit
CappedOption (some u) = IsCapped u

add_usage-IsCapped :
    (o : Option UsageRecord) (u : UsageRecord) → IsCapped u → IsCapped (add_usage o u)
unfolding merge_usage_records
add_usage-IsCapped none u h = h
add_usage-IsCapped (some p) u h = provider_reported-IsCapped _ _ _

usages-CappedOption :
    (o : Option UsageRecord) (items : Items)
    → CappedOption o
    → All IsCappedItem items
    → CappedOption (usages o items)
usages-CappedOption o [] h k = h
usages-CappedOption o (err error ∷ items) h k = h
usages-CappedOption o (ok (text_item text) ∷ items) h k = usages-CappedOption o items h k.1
usages-CappedOption o (ok (usage_item u) ∷ items) h k =
    usages-CappedOption (some (add_usage o u)) items (add_usage-IsCapped o u k.0) k.1

reported :
    (o : Option UsageRecord) (u : UsageRecord)
    → CappedOption o
    → IsCapped u
    → (v : UsageRecord) × (option_or o (some u) ≡ some v) × IsCapped v
reported none u h k = (u, refl, k)
reported (some p) u h k = (p, refl, h)

-- A completed operation always reports a usage, and where the records of the provider are capped
-- so is the report, however many records it merges or how long the texts are.
pub translate-IsCapped :
    (translate_stream : TranslationRequest → Result Items TranslationError)
    (request : TranslationRequest) (offset n : ℕ) (usage : Option UsageRecord)
    → final (translate_with_sequence_offset translate_stream none request offset).events
      ≡ some (completed n usage)
    → ((items : Items) → translate_stream request ≡ ok items → All IsCappedItem items)
    → (u : UsageRecord) × (usage ≡ some u) × IsCapped u
translate-IsCapped translate_stream request offset n usage h k =
    let (valid, (items, reply, b, same, l, sound)) =
      translate-completed translate_stream request offset n usage h in
    let (v, e, f) =
      reported (usages none items) (locally_estimated request.source_text (concat (texts items)))
        (usages-CappedOption none items tt (k items reply)) (locally_estimated-IsCapped _ _) in
    (v, sym l ∙ e, f)
