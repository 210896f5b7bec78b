-- ===== src/Request.antt =====
-- Presets and translation requests of crates/linguamesh-domain/src/lib.rs. An operation or
-- correlation identifier is its text.
pub mod Presets
mod Tests
use Prim.Native.String.{String}
use linguamesh_core.Base.{
  ℕ, Bool, true, false, ◌||◌, not, Option, none, some, [], ◌∷◌, ◌++◌, Text, codes, len, is_empty,
  any, trim, is_control, text_eq, Result, ok, err, ◌>>◌, reject_if, for_each, ltb, if◌then◌else◌,
}
use linguamesh_core.Failure.{invalid_configuration_kind, TranslationError, new_error}
use linguamesh_core.Profile.Credential.{looks_like_credential}
use linguamesh_core.Profile.Checks.{
  ProfileValidationError, invalid_profile_id, invalid_secret_ref, invalid_endpoint, invalid_field,
  credential_like_value, is_stable_identifier,
}
use linguamesh_core.Glossary.{Glossary}

-- The display of `ProfileValidationError`.
unfoldable pub describe : ProfileValidationError → Text
describe invalid_profile_id = codes "Provider profile ID is invalid."
describe invalid_secret_ref = codes "Provider secret reference is invalid."
describe invalid_endpoint = codes "Provider endpoint is invalid or unsafe."
describe (invalid_field field) =
    codes "Provider profile field is invalid: " ++ (codes field ++ codes ".")
describe (credential_like_value field) =
    codes "Provider profile field resembles a credential: " ++ (codes field ++ codes ".")

pub data TranslationPrivacyMode : Type 0 where
  standard_privacy incognito : TranslationPrivacyMode

pub data TranslationQualityMode : Type 0 where
  fast balanced best : TranslationQualityMode

pub record TranslationPreset : Type 0 where
  pub id : Text
  pub domain : Option Text
  pub tone : Option Text
  pub formality : Option Text
  pub intended_audience : Option Text
  pub regional_locale : Option Text
  pub script : Option Text
  pub custom_context : Option Text
  pub custom_instructions : Option Text

abbrev pub default_preset : TranslationPreset
default_preset = record {
  id = [];
  domain = none;
  tone = none;
  formality = none;
  intended_audience = none;
  regional_locale = none;
  script = none;
  custom_context = none;
  custom_instructions = none;
}

abbrev pub general : TranslationPreset
general = record default_preset { id = codes "general" }

abbrev pub technical : TranslationPreset
technical = record default_preset {
  id = codes "technical";
  domain = some (codes "software and technical documentation");
  tone = some (codes "precise and neutral");
  formality = some (codes "formal");
  intended_audience = some (codes "technical readers");
}

abbrev pub marketing : TranslationPreset
marketing = record default_preset {
  id = codes "marketing";
  domain = some (codes "marketing and product copy");
  tone = some (codes "engaging and natural");
  formality = some (codes "friendly");
  intended_audience = some (codes "customers");
}

abbrev pub english_us : TranslationPreset
english_us = record default_preset {
  id = codes "english_us";
  regional_locale = some (codes "en-US");
  script = some (codes "Latn");
}

abbrev pub chinese_simplified : TranslationPreset
chinese_simplified = record default_preset {
  id = codes "chinese_simplified";
  regional_locale = some (codes "zh-CN");
  script = some (codes "Hans");
}

-- `TranslationPreset::from_id`.
unfoldable pub from_id : Text → Option TranslationPreset
from_id id =
    if text_eq id (codes "general")
    then some general
    else if text_eq id (codes "technical")
    then some technical
    else if text_eq id (codes "marketing")
    then some marketing
    else if text_eq id (codes "english_us")
    then some english_us
    else if text_eq id (codes "chinese_simplified")
    then some chinese_simplified
    else none

abbrev pub max_translation_preset_text_bytes : ℕ
max_translation_preset_text_bytes = 512

unfoldable pub validate_preset_text : Text → String → Result (Unit {0}) ProfileValidationError
validate_preset_text value field = do
  reject_if
      (is_empty (trim value)
        || ltb max_translation_preset_text_bytes (len value)
        || any is_control value)
      (invalid_field field)
  reject_if (looks_like_credential value) (credential_like_value field)

-- The body of the loop in `TranslationPreset::validate`.
abbrev pub validate_preset_field : String × Option Text → Result (Unit {0}) ProfileValidationError
validate_preset_field (field, none) = ok tt
validate_preset_field (field, some value) = validate_preset_text value field

-- `TranslationPreset::validate`.
unfoldable pub validate_preset : TranslationPreset → Result (Unit {0}) ProfileValidationError
validate_preset preset = do
  reject_if (not (is_stable_identifier preset.id)) (invalid_field "preset_id")
  for_each validate_preset_field (
      ("preset_domain", preset.domain)
      ∷ ("preset_tone", preset.tone)
      ∷ ("preset_formality", preset.formality)
      ∷ ("preset_intended_audience", preset.intended_audience)
      ∷ ("preset_regional_locale", preset.regional_locale)
      ∷ ("preset_script", preset.script)
      ∷ ("preset_custom_context", preset.custom_context)
      ∷ ("preset_custom_instructions", preset.custom_instructions)
      ∷ [])

pub record TranslationRequest : Type 0 where
  pub operation_id : Text
  pub correlation_id : Text
  pub source_text : Text
  pub source_locale : Option Text
  pub target_locale : Text
  pub model_id : Text
  pub provider_identity : Option Text
  pub glossary : Option Glossary
  pub max_chunk_bytes : Option ℕ
  pub privacy_mode : TranslationPrivacyMode
  pub quality_mode : TranslationQualityMode
  pub preset : TranslationPreset

-- `TranslationRequest::new`, with the identifiers that it draws.
abbrev pub new_request : Text → Text → Text → Text → Text → TranslationRequest
new_request operation_id correlation_id source_text target_locale model_id = record {
  operation_id = operation_id;
  correlation_id = correlation_id;
  source_text = source_text;
  source_locale = none;
  target_locale = target_locale;
  model_id = model_id;
  provider_identity = none;
  glossary = none;
  max_chunk_bytes = none;
  privacy_mode = standard_privacy;
  quality_mode = balanced;
  preset = general;
}

abbrev pub map_err {ℓ κ μ} :
    {A : Type ℓ} {E : Type κ} {F : Type μ} → (E → F) → Result A E → Result A F
map_err f (ok a) = ok a
map_err f (err e) = err (f e)

-- `TranslationRequest::validate`.
unfoldable pub validate_request : TranslationRequest → Result (Unit {0}) TranslationError
validate_request request =
    map_err (λ error. new_error invalid_configuration_kind (describe error))
      (validate_preset request.preset)

abbrev pub is_incognito : TranslationRequest → Bool
is_incognito request = is_incognito_mode request.privacy_mode
  where
    is_incognito_mode : TranslationPrivacyMode → Bool
    is_incognito_mode standard_privacy = false
    is_incognito_mode incognito = true
