-- ===== src/Compatibility/Acceptance.antt =====
-- Which cores a client of crates/linguamesh-domain/src/lib.rs accepts.
use linguamesh_core.Base.{
  ◌≡◌, ◌↔◌, ◌⊎◌, true, not, List, [], ◌∷◌, All, any, Text, text_eq, text_eq_iff, ==_iff, ok,
  reject_if, for_each, arith,
}
use linguamesh_core.Compatibility.{
  CoreCompatibility, CompatibilityRequirements, missing_feature, validate_compatibility,
}

-- A text is among the features.
abbrev pub Has : List Text → Text → Type 0
Has [] t = ⊥
Has (f ∷ fs) t = (f ≡ t) ⊎ Has fs t

-- The core is exactly the reviewed one and has the features that the client needs.
pub record IsAccepted (self : CompatibilityRequirements) (actual : CoreCompatibility) : Type 0 where
  pub core_version : actual.core_version ≡ self.core_version
  pub abi_major : actual.abi_major ≡ self.abi_major
  pub protocol_version : actual.protocol_version ≡ self.protocol_version
  pub provider_catalog_version : actual.provider_catalog_version ≡ self.provider_catalog_version
  pub features : All (Has actual.enabled_features) self.required_features

any-Has : (fs : List Text) (t : Text) → (any (λ f. text_eq f t) fs ≡ true) ↔ Has fs t
any-Has [] t = ground arith
any-Has (f ∷ fs) t = ground (arith, text_eq_iff f t, any-Has fs t)

features-All :
    (fs ts : List Text)
    → (for_each (λ t. reject_if (not (any (λ f. text_eq f t) fs)) (missing_feature t)) ts ≡ ok tt)
      ↔ All (Has fs) ts
features-All fs [] = ground arith
features-All fs (t ∷ ts) = ground (arith, any-Has fs t, features-All fs ts)

-- The check passes exactly for a core with the reviewed versions and the needed features.
pub validate_compatibility-IsAccepted :
    (self : CompatibilityRequirements) (actual : CoreCompatibility)
    → (validate_compatibility self actual ≡ ok tt) ↔ IsAccepted self actual
unfolding validate_compatibility
validate_compatibility-IsAccepted self actual = (forth, back)
  where
    forth : validate_compatibility self actual ≡ ok tt → IsAccepted self actual
    forth h = record {
      core_version = ground (arith, text_eq_iff actual.core_version self.core_version);
      abi_major = ground (arith, ==_iff actual.abi_major self.abi_major);
      protocol_version = ground (arith, ==_iff actual.protocol_version self.protocol_version);
      provider_catalog_version =
          ground (arith, text_eq_iff actual.provider_catalog_version self.provider_catalog_version);
      features = ground (arith, features-All actual.enabled_features self.required_features);
    }

    back : IsAccepted self actual → validate_compatibility self actual ≡ ok tt
    back h = ground (
      arith,
      h.core_version,
      h.abi_major,
      h.protocol_version,
      h.provider_catalog_version,
      h.features,
      text_eq_iff actual.core_version self.core_version,
      ==_iff actual.abi_major self.abi_major,
      ==_iff actual.protocol_version self.protocol_version,
      text_eq_iff actual.provider_catalog_version self.provider_catalog_version,
      features-All actual.enabled_features self.required_features,
    )
