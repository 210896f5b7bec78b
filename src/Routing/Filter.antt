-- ===== src/Routing/Filter.antt =====
-- `RoutingProfile::rejection_reason` of crates/linguamesh-domain/src/routing.rs, and the loop of
-- `select` that it drives.
use linguamesh_core.Base.{
  Bool, false, ◌&&◌, ◌||◌, not, Option, none, some, List, [], ◌∷◌, Text, is_empty, any, text_eq,
  eq_ignore_ascii_case, ltb, if◌then◌else◌,
}
use linguamesh_core.Routing.Types.{
  RoutingCandidate, RoutingContext, RoutingConstraints, RoutingProfile, RoutingRejection,
  RoutingRejectionReason, provider_not_allowed, provider_denied, model_not_allowed, model_denied,
  remote_disallowed, privacy_remote_disallowed, streaming_unsupported, document_unsupported,
  context_too_small, quality_too_low, source_locale_unsupported, target_locale_unsupported,
  request_too_large,
}

-- `Option::is_some_and`.
abbrev pub is_some_and {ℓ} : {A : Type ℓ} → (A → Bool) → Option A → Bool
is_some_and p none = false
is_some_and p (some a) = p a

abbrev pub listed : List Text → Text → Bool
listed ids id = any (λ entry. text_eq entry id) ids

abbrev pub lists_locale : List Text → Text → Bool
lists_locale locales locale = any (λ entry. eq_ignore_ascii_case entry locale) locales

-- The tests on identifiers and on where the candidate runs.
unfoldable pub placement_reason :
    RoutingConstraints → RoutingCandidate → RoutingContext → Option RoutingRejectionReason
placement_reason k c x =
    if not (is_empty k.provider_allowlist) && not (listed k.provider_allowlist c.provider_id)
    then some provider_not_allowed
    else if listed k.provider_denylist c.provider_id
    then some provider_denied
    else if not (is_empty k.model_allowlist) && not (listed k.model_allowlist c.model_id)
    then some model_not_allowed
    else if listed k.model_denylist c.model_id
    then some model_denied
    else if k.local_only && not c.is_local
    then some remote_disallowed
    else if (not k.allow_remote || (k.privacy_sensitive && x.privacy_sensitive)) && not c.is_local
    then some (
        if k.privacy_sensitive && x.privacy_sensitive
        then privacy_remote_disallowed
        else remote_disallowed)
    else none

-- The tests on what the candidate is able to do.
unfoldable pub capability_reason :
    RoutingConstraints → RoutingCandidate → RoutingContext → Option RoutingRejectionReason
capability_reason k c x =
    if (k.require_streaming || x.require_streaming) && not c.supports_streaming
    then some streaming_unsupported
    else if (k.require_document || x.require_document) && not c.supports_document
    then some document_unsupported
    else if ltb c.context_capacity_bytes x.request_bytes
    then some context_too_small
    else if is_some_and (λ limit. ltb limit x.request_bytes) k.max_request_bytes
    then some request_too_large
    else if is_some_and (λ minimum. ltb c.quality_tier minimum) k.minimum_quality_tier
    then some quality_too_low
    else if is_some_and
        (λ locale. not (is_empty c.source_locales) && not (lists_locale c.source_locales locale))
        x.source_locale
    then some source_locale_unsupported
    else if not (is_empty c.target_locales) && not (lists_locale c.target_locales x.target_locale)
    then some target_locale_unsupported
    else none

-- `rejection_reason`: the first test that fails, in the order of the source.
unfoldable pub rejection_reason :
    RoutingProfile → RoutingCandidate → RoutingContext → Option RoutingRejectionReason
rejection_reason p c x = elim (placement_reason p.constraints c x) [
  | some reason ↦ some reason
  | none ↦ capability_reason p.constraints c x
]

abbrev pub add_verdict :
    RoutingCandidate
    → Option RoutingRejectionReason
    → List RoutingCandidate × List RoutingRejection
    → List RoutingCandidate × List RoutingRejection
add_verdict c none (eligible, rejected) = (c ∷ eligible, rejected)
add_verdict c (some reason) (eligible, rejected) =
    (eligible, record { candidate = c; reason = reason } ∷ rejected)

-- The loop of `select` over the candidates: those accepted and those rejected, both in order.
unfoldable pub classify :
    RoutingProfile
    → RoutingContext
    → List RoutingCandidate
    → List RoutingCandidate × List RoutingRejection
classify p x [] = ([], [])
classify p x (c ∷ cs) = add_verdict c (rejection_reason p c x) (classify p x cs)
