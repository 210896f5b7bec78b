-- ===== src/Engine/Refusal.antt =====
-- Operations of crates/linguamesh-engine/src/lib.rs that end without asking the provider.
use linguamesh_core.Base.{◌≡◌, ℕ, none, [], ◌∷◌, Result, err, arith}
use linguamesh_core.Failure.{TranslationError, new_error, invalid_configuration_kind}
use linguamesh_core.Profile.Checks.{is_stable_identifier, invalid_field}
use linguamesh_core.Request.{TranslationRequest, validate_request, validate_preset, describe}
use linguamesh_core.Event.{started, failed}
use linguamesh_core.Engine.{
  Items, next_sequence, translate_with_sequence_offset, admit, send_error_terminal,
}

refused :
    (request : TranslationRequest)
    → request.preset.id ≡ []
    → validate_request request
      ≡ err (new_error invalid_configuration_kind (describe (invalid_field "preset_id")))
unfolding validate_request validate_preset is_stable_identifier
refused request h = ground (arith, h)

-- A request whose preset has an empty identifier, as the default of a request without a preset
-- does, starts and fails at once with an invalid configuration, whatever the provider is.
pub translate_without_preset :
    (translate_stream : TranslationRequest → Result Items TranslationError)
    (request : TranslationRequest) (offset : ℕ)
    → request.preset.id ≡ []
    → (translate_with_sequence_offset translate_stream none request offset).events
      ≡ started offset
        ∷ failed
            (next_sequence offset)
            (new_error invalid_configuration_kind (describe (invalid_field "preset_id")))
        ∷ []
unfolding translate_with_sequence_offset admit send_error_terminal
translate_without_preset translate_stream request offset h = rw (refused request h)
