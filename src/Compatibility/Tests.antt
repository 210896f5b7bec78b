-- ===== src/Compatibility/Tests.antt =====
-- The start-up check at concrete inputs.
use linguamesh_core.Base.{◌≡◌, ◌↔◌, refl, [], ◌∷◌, codes, ok, err}
use linguamesh_core.Compatibility.{
  CoreCompatibility, CompatibilityRequirements, missing_feature, validate_compatibility,
}
use linguamesh_core.Compatibility.Acceptance.{IsAccepted, validate_compatibility-IsAccepted}

abbrev core : CoreCompatibility
core = record {
  core_version = codes "0.1.0";
  abi_major = 1;
  protocol_version = 1;
  provider_catalog_version = codes "2024-01";
  enabled_features = codes "cancellation_v1" ∷ codes "file_lease_v1" ∷ [];
}

abbrev client : CompatibilityRequirements
client = record {
  core_version = codes "0.1.0";
  abi_major = 1;
  protocol_version = 1;
  provider_catalog_version = codes "2024-01";
  required_features = codes "file_lease_v1" ∷ [];
}

accepted : validate_compatibility client core ≡ ok tt
unfolding validate_compatibility
accepted = refl

missing :
    validate_compatibility (record client { required_features = codes "x" ∷ [] }) core
    ≡ err (missing_feature (codes "x"))
unfolding validate_compatibility
missing = refl

validate_compatibility-IsAccepted_example :
    (validate_compatibility client core ≡ ok tt) ↔ IsAccepted client core
validate_compatibility-IsAccepted_example = validate_compatibility-IsAccepted client core
