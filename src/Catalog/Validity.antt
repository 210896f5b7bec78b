-- ===== src/Catalog/Validity.antt =====
-- What `parse` of crates/linguamesh-provider-catalog/src/lib.rs accepts.
use linguamesh_core.Base.{
  ◌≡◌, ◌≢◌, ◌∙◌, subst, false, ◌||◌, not, Option, none, some, List, [], ◌∷◌, map, All, any, Text,
  codes, trim, text_eq, text_eq_iff, Result, ok, err, >>=-eq-ok, >>-eq-ok, reject_if,
  reject_if-eq-ok, for_each, ==_iff, or-eq-false, not-eq-false, ◌==◌, arith,
}
use linguamesh_core.Catalog.{
  catalog_schema_version, ProviderPreset, ProviderCatalog, is_semantic_version, is_stable_id,
  require_text, is_unsafe_url, check_url, required_fields, check_provider, check_providers,
  validate_catalog, map_json_error, parse_catalog,
}
use linguamesh_core.Catalog.Shapes.{
  IsVersion, IsStableId, IsSafeUrl, is_empty-ne, is_stable_id-IsStableId,
  is_semantic_version-IsVersion, is_unsafe_url-IsSafeUrl,
}

pub record IsUsableProvider (provider : ProviderPreset) : Type 0 where
  pub stable : IsStableId provider.id
  pub named : trim provider.display_name ≢ []
  pub adapted : trim provider.adapter ≢ []
  pub listed : trim provider.model_listing ≢ []
  pub documented : IsSafeUrl provider.documentation_url

-- No two texts are equal, and none is one of those in front.
abbrev pub AreNew : List Text → List Text → Type 0
AreNew ids [] = Unit
AreNew ids (t ∷ ts) = All (λ u. t ≢ u) ids × AreNew (t ∷ ids) ts

not_any-All : (t : Text) (ids : List Text) → any (text_eq t) ids ≡ false → All (λ u. t ≢ u) ids
not_any-All t [] h = tt
not_any-All t (u ∷ ids) h =
    let (a, b) = or-eq-false (text_eq t u) (any (text_eq t) ids) h in
    ((λ e. absurd (ground (arith, a, (text_eq_iff t u).1 e))), not_any-All t ids b)

check_url-IsSafeUrl : (o : Option Text) → check_url o ≡ ok tt → IsSafeUrl o
check_url-IsSafeUrl none h = tt
check_url-IsSafeUrl (some url) h =
    is_unsafe_url-IsSafeUrl url (reject_if-eq-ok (is_unsafe_url url) _ h)

check_provider-IsUsableProvider :
    (ids : List Text) (provider : ProviderPreset)
    → check_provider ids provider ≡ ok tt
    → IsUsableProvider provider × All (λ u. provider.id ≢ u) ids
unfolding check_provider
check_provider-IsUsableProvider ids provider h =
    let (a, f) =
      >>-eq-ok (reject_if (not (is_stable_id provider.id) || any (text_eq provider.id) ids) _) _
        h in
    let (b, g) = >>-eq-ok (for_each require_text (required_fields provider)) _ f in
    let (c, d) = or-eq-false (not (is_stable_id provider.id)) _ (reject_if-eq-ok _ _ a) in
    let (p, q) = >>-eq-ok (require_text (codes "display_name", provider.display_name)) _ b in
    let (r, s) = >>-eq-ok (require_text (codes "adapter", provider.adapter)) _ q in
    let (t, _) = >>-eq-ok (require_text (codes "model_listing", provider.model_listing)) _ s in
    (
      record {
        stable = is_stable_id-IsStableId provider.id (not-eq-false (is_stable_id provider.id) c);
        named = is_empty-ne _ (reject_if-eq-ok _ _ p);
        adapted = is_empty-ne _ (reject_if-eq-ok _ _ r);
        listed = is_empty-ne _ (reject_if-eq-ok _ _ t);
        documented = check_url-IsSafeUrl provider.documentation_url g;
      },
      not_any-All provider.id ids d,
    )

check_providers-AreNew :
    (ids : List Text) (providers : List ProviderPreset)
    → check_providers ids providers ≡ ok tt
    → All IsUsableProvider providers × AreNew ids (map (λ p. p.id) providers)
unfolding check_providers
check_providers-AreNew ids [] h = (tt, tt)
check_providers-AreNew ids (provider ∷ rest) h =
    let (a, b) = >>-eq-ok (check_provider ids provider) _ h in
    let (c, d) = check_provider-IsUsableProvider ids provider a in
    let (e, f) = check_providers-AreNew (provider.id ∷ ids) rest b in ((c, e), (d, f))

-- A catalogue of the supported version whose providers are usable and have distinct identifiers.
pub record IsCatalog (self : ProviderCatalog) : Type 0 where
  pub supported : self.schema_version ≡ catalog_schema_version
  pub versioned : IsVersion self.catalog_version
  pub usable : All IsUsableProvider self.providers
  pub distinct : AreNew [] (map (λ p. p.id) self.providers)

validate_catalog-IsCatalog :
    (self : ProviderCatalog) → validate_catalog self ≡ ok tt → IsCatalog self
unfolding validate_catalog
validate_catalog-IsCatalog self h =
    let (a, f) = >>-eq-ok (reject_if (not (self.schema_version == catalog_schema_version)) _) _ h in
    let (b, g) = >>-eq-ok (reject_if (not (is_semantic_version self.catalog_version)) _) _ f in
    let (c, d) = check_providers-AreNew [] self.providers g in
    record {
      supported =
          (==_iff self.schema_version catalog_schema_version).0
            (not-eq-false (self.schema_version == catalog_schema_version) (reject_if-eq-ok _ _ a));
      versioned =
          is_semantic_version-IsVersion self.catalog_version
            (not-eq-false _ (reject_if-eq-ok _ _ b));
      usable = c;
      distinct = d;
    }

-- A catalogue that is parsed is what the reader of JSON gave. Its schema is the supported one, its
-- version three numbers with dots between them. Each provider has an identifier of its own, of small
-- letters, digits and dashes, a name, an adapter and a listing that are not blank, and if it has an
-- address for its documentation, one that starts with https:// and has no white space.
pub parse_catalog-IsCatalog :
    (from_str : Text → Result ProviderCatalog Text) (input : Text) (self : ProviderCatalog)
    → parse_catalog from_str input ≡ ok self
    → (from_str input ≡ ok self) × IsCatalog self
unfolding parse_catalog
parse_catalog-IsCatalog from_str input self h =
    let (catalog, e, f) = >>=-eq-ok (map_json_error (from_str input)) _ h in
    let (g, k) = >>-eq-ok (validate_catalog catalog) _ f in
    let same : catalog ≡ self = ground (arith, k) in
    (read (from_str input) (e ∙ k), subst IsCatalog same (validate_catalog-IsCatalog catalog g))
  where
    read : (r : Result ProviderCatalog Text) → map_json_error r ≡ ok self → r ≡ ok self
    read (ok c) m = ground (arith, m)
    read (err e) m = cc
