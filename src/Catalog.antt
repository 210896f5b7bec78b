-- ===== src/Catalog.antt =====
-- The provider catalogue of crates/linguamesh-provider-catalog/src/lib.rs. The reader of JSON is a
-- parameter: it gives a catalogue, or the text of its error.
pub mod Shapes
pub mod Validity
mod Tests
use linguamesh_core.Base.{
  ℕ, Bool, true, false, ◌&&◌, ◌||◌, not, Option, none, some, List, [], ◌∷◌, all, any, length,
  is_empty, Text, codes, trim, text_eq, starts_with, is_whitespace, Result, ok, err, ◌>>=◌, ◌>>◌,
  reject_if, for_each, leb, ◌==◌, if◌then◌else◌,
}

abbrev pub catalog_schema_version : ℕ
catalog_schema_version = 1

pub record ProviderPreset : Type 0 where
  pub id : Text
  pub display_name : Text
  pub adapter : Text
  pub model_listing : Text
  pub documentation_url : Option Text
  pub loopback_only : Bool

pub record ProviderCatalog : Type 0 where
  pub schema_version : ℕ
  pub catalog_version : Text
  pub providers : List ProviderPreset

pub data CatalogError : Type 0 where
  invalid_json : Text → CatalogError
  unsupported_schema : ℕ → ℕ → CatalogError
  invalid_catalog_version : CatalogError
  invalid_preset_id : Text → CatalogError
  empty_required_field : Text → CatalogError
  invalid_documentation_url : Text → CatalogError

-- `str::split` at a character.
abbrev pub put_part : ℕ → List Text → List Text
put_part c [] = (c ∷ []) ∷ []
put_part c (part ∷ parts) = (c ∷ part) ∷ parts

abbrev pub split_at : ℕ → Text → List Text
split_at d [] = [] ∷ []
split_at d (c ∷ s) = let rest = split_at d s in if c == d then [] ∷ rest else put_part c rest

abbrev pub is_ascii_digit : ℕ → Bool
is_ascii_digit c = leb b'0' c && leb c b'9'

unfoldable pub is_semantic_version : Text → Bool
is_semantic_version value =
    let parts = split_at b'.' value in
    length parts == 3 && all (λ part. not (is_empty part) && all is_ascii_digit part) parts

unfoldable pub is_stable_id : Text → Bool
is_stable_id value =
    not (is_empty value)
    && all (λ c. (leb b'a' c && leb c b'z') || is_ascii_digit c || c == b'-') value

abbrev pub require_text : Text × Text → Result (Unit {0}) CatalogError
require_text (name, value) = reject_if (is_empty (trim value)) (empty_required_field name)

abbrev pub is_unsafe_url : Text → Bool
is_unsafe_url url = not (starts_with url (codes "https://")) || any is_whitespace url

abbrev pub check_url : Option Text → Result (Unit {0}) CatalogError
check_url none = ok tt
check_url (some url) = reject_if (is_unsafe_url url) (invalid_documentation_url url)

abbrev pub required_fields : ProviderPreset → List (Text × Text)
required_fields provider =
    (codes "display_name", provider.display_name)
    ∷ (codes "adapter", provider.adapter)
    ∷ (codes "model_listing", provider.model_listing)
    ∷ []

-- A turn of the loop: `ids` are those of the providers in front.
unfoldable pub check_provider : List Text → ProviderPreset → Result (Unit {0}) CatalogError
check_provider ids provider = do
  reject_if (not (is_stable_id provider.id) || any (text_eq provider.id) ids)
      (invalid_preset_id provider.id)
  for_each require_text (required_fields provider)
  check_url provider.documentation_url

unfoldable pub check_providers : List Text → List ProviderPreset → Result (Unit {0}) CatalogError
check_providers ids [] = ok tt
check_providers ids (provider ∷ rest) = do
  check_provider ids provider
  check_providers (provider.id ∷ ids) rest

-- `ProviderCatalog::validate`.
unfoldable pub validate_catalog : ProviderCatalog → Result (Unit {0}) CatalogError
validate_catalog self = do
  reject_if (not (self.schema_version == catalog_schema_version))
      (unsupported_schema catalog_schema_version self.schema_version)
  reject_if (not (is_semantic_version self.catalog_version)) invalid_catalog_version
  check_providers [] self.providers

-- `ProviderCatalog::parse`.
abbrev pub map_json_error : Result ProviderCatalog Text → Result ProviderCatalog CatalogError
map_json_error (ok catalog) = ok catalog
map_json_error (err message) = err (invalid_json message)

unfoldable pub parse_catalog :
    (Text → Result ProviderCatalog Text) → Text → Result ProviderCatalog CatalogError
parse_catalog from_str input = do
  catalog ← map_json_error (from_str input)
  validate_catalog catalog
  ok catalog
