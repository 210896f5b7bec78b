-- ===== src/Compatibility.antt =====
-- The start-up check of a client against the core in crates/linguamesh-domain/src/lib.rs.
pub mod Acceptance
mod Tests
use linguamesh_core.Base.{
  ℕ, Bool, not, List, any, Text, text_eq, Result, ok, ◌>>◌, reject_if, for_each, ◌==◌,
}

pub record CoreCompatibility : Type 0 where
  pub core_version : Text
  pub abi_major : ℕ
  pub protocol_version : ℕ
  pub provider_catalog_version : Text
  pub enabled_features : List Text

pub record CompatibilityRequirements : Type 0 where
  pub core_version : Text
  pub abi_major : ℕ
  pub protocol_version : ℕ
  pub provider_catalog_version : Text
  pub required_features : List Text

pub data CompatibilityError : Type 0 where
  core_version_mismatch provider_catalog_version_mismatch : Text → Text → CompatibilityError
  abi_major_mismatch protocol_version_mismatch : ℕ → ℕ → CompatibilityError
  missing_feature : Text → CompatibilityError

-- `CompatibilityRequirements::validate`.
unfoldable pub validate_compatibility :
    CompatibilityRequirements → CoreCompatibility → Result (Unit {0}) CompatibilityError
validate_compatibility self actual = do
  reject_if (not (text_eq actual.core_version self.core_version))
      (core_version_mismatch self.core_version actual.core_version)
  reject_if (not (actual.abi_major == self.abi_major))
      (abi_major_mismatch self.abi_major actual.abi_major)
  reject_if (not (actual.protocol_version == self.protocol_version))
      (protocol_version_mismatch self.protocol_version actual.protocol_version)
  reject_if (not (text_eq actual.provider_catalog_version self.provider_catalog_version)) (
      provider_catalog_version_mismatch self.provider_catalog_version
        actual.provider_catalog_version)
  for_each
      (λ required.
        reject_if (not (any (λ feature. text_eq feature required) actual.enabled_features))
          (missing_feature required))
      self.required_features
