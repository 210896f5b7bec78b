-- ===== src/Catalog/Tests.antt =====
-- Catalogues at concrete inputs.
use linguamesh_core.Base.{
  ◌≡◌, refl, some, none, false, true, List, [], ◌∷◌, Text, codes, Result, ok, err,
}
use linguamesh_core.Catalog.{
  ProviderPreset, ProviderCatalog, CatalogError, invalid_preset_id, invalid_documentation_url,
  parse_catalog,
}
use linguamesh_core.Catalog.Validity.{IsCatalog, parse_catalog-IsCatalog}

abbrev first : ProviderPreset
first = record {
  id = codes "ollama-1";
  display_name = codes "Ollama";
  adapter = codes "ollama_chat";
  model_listing = codes "remote";
  documentation_url = some (codes "https://a.b");
  loopback_only = true;
}

abbrev catalog : ProviderCatalog
catalog = record { schema_version = 1; catalog_version = codes "1.0.12"; providers = first ∷ [] }

abbrev twice : ProviderCatalog
twice = record catalog { providers = first ∷ first ∷ [] }

parses : parse_catalog (λ t. ok catalog) [] ≡ ok catalog
unfolding parse_catalog linguamesh_core.Catalog.validate_catalog
    linguamesh_core.Catalog.check_providers linguamesh_core.Catalog.check_provider
    linguamesh_core.Catalog.is_stable_id linguamesh_core.Catalog.is_semantic_version
    linguamesh_core.Base.trim linguamesh_core.Base.trim_start linguamesh_core.Base.is_whitespace
parses = refl

duplicate_id : parse_catalog (λ t. ok twice) [] ≡ err (invalid_preset_id (codes "ollama-1"))
unfolding parse_catalog linguamesh_core.Catalog.validate_catalog
    linguamesh_core.Catalog.check_providers linguamesh_core.Catalog.check_provider
    linguamesh_core.Catalog.is_stable_id linguamesh_core.Catalog.is_semantic_version
    linguamesh_core.Base.trim linguamesh_core.Base.trim_start linguamesh_core.Base.is_whitespace
duplicate_id = refl

parse_catalog-IsCatalog_example :
    (◌≡◌ {A = Result ProviderCatalog Text} (ok catalog) (ok catalog)) × IsCatalog catalog
parse_catalog-IsCatalog_example = parse_catalog-IsCatalog (λ t. ok catalog) [] catalog parses
