-- ===== src/Engine/Tests.antt =====
-- The engine's theorems at concrete inputs.
use linguamesh_core.Base.{
  ◌≡◌, ◌≢◌, ◌⊎◌, ◌<◌, refl, arith, ℕ, ◌+◌, subst, true, false, Option, none, some, List, [], ◌∷◌,
  ◌++◌, All, codes, length, trim, contains_char, Result, ok, err,
}
use linguamesh_core.Failure.{TranslationError, new_error, network, invalid_configuration_kind}
use linguamesh_core.Profile.Checks.{invalid_field}
use linguamesh_core.Request.{
  TranslationRequest, new_request, default_preset, validate_request, describe,
}
use linguamesh_core.Event.{
  UsageRecord, unknown, locally_estimated, TranslationEvent, started, text_delta, completed, failed,
  is_terminal,
}
use linguamesh_core.Engine.{
  text_item, usage_item, Items, Outcome, option_or, next_sequence, translate_with_sequence_offset,
}
use linguamesh_core.Engine.Lifecycle.{translate-before_drop}
use linguamesh_core.Engine.Story.{
  heard, texts, usages, failure, concat, opening, last_event, before_drop, is_dropped,
}
use linguamesh_core.Engine.Protocol.{Numbered, texts_of, translate-Numbered}
use linguamesh_core.Engine.Completion.{final, translate_ends, translate-completed}
use linguamesh_core.Engine.Metering.{IsCapped, IsCappedItem, translate-IsCapped}
use linguamesh_core.Engine.Refusal.{translate_without_preset}

abbrev request : TranslationRequest
request = new_request (codes "o") (codes "c") (codes "hello") (codes "es") (codes "m")

abbrev items : Items
items = ok (text_item (codes "ho")) ∷ ok (usage_item unknown) ∷ ok (text_item (codes "la")) ∷ []

abbrev provider : TranslationRequest → Result Items TranslationError
provider r = ok items

abbrev broken : TranslationRequest → Result Items TranslationError
broken r = ok (ok (text_item (codes "ho")) ∷ err (new_error network (codes "lost")) ∷ [])

runs : translate_with_sequence_offset provider none request 7 ≡ record {
  events =
      started 7
      ∷ text_delta 8 (codes "ho")
      ∷ text_delta 9 (codes "la")
      ∷ completed 10 (some unknown)
      ∷ [];
  cancels = false;
}
unfolding translate_with_sequence_offset linguamesh_core.Engine.admit validate_request
    linguamesh_core.Request.validate_preset linguamesh_core.Profile.Checks.is_stable_identifier
    linguamesh_core.Engine.serve linguamesh_core.Engine.relay
    linguamesh_core.Engine.validate_translation_output trim
runs = refl

drops :
    translate_with_sequence_offset provider (some 2) request 0
    ≡ record { events = started 0 ∷ text_delta 1 (codes "ho") ∷ []; cancels = true }
unfolding translate_with_sequence_offset linguamesh_core.Engine.admit validate_request
    linguamesh_core.Request.validate_preset linguamesh_core.Profile.Checks.is_stable_identifier
    linguamesh_core.Engine.serve linguamesh_core.Engine.relay
drops = refl

breaks :
    (translate_with_sequence_offset broken none request 0).events
    ≡ started 0 ∷ text_delta 1 (codes "ho") ∷ failed 2 (new_error network (codes "lost")) ∷ []
unfolding translate_with_sequence_offset linguamesh_core.Engine.admit validate_request
    linguamesh_core.Request.validate_preset linguamesh_core.Profile.Checks.is_stable_identifier
    linguamesh_core.Engine.serve linguamesh_core.Engine.relay
breaks = refl

completes :
    final (translate_with_sequence_offset provider none request 7).events
    ≡ some (completed 10 (some unknown))
unfolding translate_with_sequence_offset linguamesh_core.Engine.admit validate_request
    linguamesh_core.Request.validate_preset linguamesh_core.Profile.Checks.is_stable_identifier
    linguamesh_core.Engine.serve linguamesh_core.Engine.relay
    linguamesh_core.Engine.validate_translation_output trim
completes = refl

hears : heard provider request ≡ items
unfolding validate_request linguamesh_core.Request.validate_preset
    linguamesh_core.Profile.Checks.is_stable_identifier
hears = refl

translate-before_drop_example :
    translate_with_sequence_offset provider (some 2) request 0 ≡ record {
      events = before_drop (some 2) (
          opening 0 (heard provider request)
          ++ (last_event request 0 (heard provider request) ∷ []));
      cancels = is_dropped (some 2) (length (opening 0 (heard provider request)));
    }
translate-before_drop_example = translate-before_drop provider (some 2) request 0

few : 8 + length (texts (heard provider request)) < 18446744073709551615
few = rw hears (omega arith)

translate-Numbered_example :
    Numbered 7 (translate_with_sequence_offset provider none request 7).events
translate-Numbered_example = translate-Numbered provider none request 7 few

translate_ends_example :
    (events : List TranslationEvent) × (last : TranslationEvent) × All
      (λ e. is_terminal e ≡ false)
      events
    × (is_terminal last ≡ true)
    × ((room : Option ℕ)
        → ((translate_with_sequence_offset broken room request 0).events
            ≡ before_drop room (events ++ (last ∷ [])))
          × ((translate_with_sequence_offset broken room request 0).cancels
              ≡ is_dropped room (length events)))
translate_ends_example = translate_ends broken request 0

translate-completed_example :
    (validate_request request ≡ ok tt)
    × ((items' : Items) × (provider request ≡ ok items')
        × (failure items' ≡ none)
        × (texts_of (translate_with_sequence_offset provider none request 7).events
            ≡ concat (texts items'))
        × (option_or
              (usages none items')
              (some (locally_estimated request.source_text (concat (texts items'))))
            ≡ some unknown)
        × ((trim request.source_text ≡ [])
            ⊎ ((trim (concat (texts items')) ≢ [])
                × (contains_char 0xFFFD (concat (texts items')) ≡ false))))
translate-completed_example = translate-completed provider request 7 10 (some unknown) completes

capped_items : (l : Items) → provider request ≡ ok l → All IsCappedItem l
capped_items l h =
    subst (λ l'. All IsCappedItem l') (ok-injective h)
      (tt, (record { input = tt; output = tt; total = tt }, (tt, tt)))
  where
    ok-injective : {a b : Items} → ◌≡◌ {A = Result Items TranslationError} (ok a) (ok b) → a ≡ b
    ok-injective e = cc

translate-IsCapped_example : (u : UsageRecord) × (some unknown ≡ some u) × IsCapped u
translate-IsCapped_example =
    translate-IsCapped provider request 7 10 (some unknown) completes capped_items

translate_without_preset_example :
    (translate_with_sequence_offset provider none
      (record request { preset = default_preset })
      0).events
    ≡ started 0
      ∷ failed
          (next_sequence 0)
          (new_error invalid_configuration_kind (describe (invalid_field "preset_id")))
      ∷ []
translate_without_preset_example =
    translate_without_preset provider (record request { preset = default_preset }) 0 refl
