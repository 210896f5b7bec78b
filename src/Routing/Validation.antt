-- ===== src/Routing/Validation.antt =====
-- `RoutingProfile::validate` and `RoutingCandidate::new` of crates/linguamesh-domain/src/routing.rs.
use Prim.Native.String.{String}
use linguamesh_core.Base.{
  ℕ, Bool, true, false, ◌&&◌, ◌||◌, not, Option, none, some, List, [], ◌++◌, ◌∷◌, Text, len,
  is_empty, length, any, all, text_eq, is_ascii_alphanumeric, Result, ok, ◌>>◌, reject_if, for_each,
  ltb, ◌==◌,
}
use linguamesh_core.Routing.Types.{
  RoutingCandidate, RoutingConstraints, RoutingMode, RoutingProfile, RoutingError,
  invalid_configuration, Checked, max_routing_candidates, max_routing_identifier_bytes,
}

abbrev pub is_identifier_byte : ℕ → Bool
is_identifier_byte c = is_ascii_alphanumeric c || c == b'.' || c == b'_' || c == b'-'

unfoldable pub validate_identifier : Text → String → Checked
validate_identifier value field =
    reject_if
      (is_empty value
        || ltb max_routing_identifier_bytes (len value)
        || not (all is_identifier_byte value))
      (invalid_configuration field)

unfoldable pub validate_identifier_list : List Text → String → Checked
unfolding validate_identifier
validate_identifier_list values field = for_each (λ value. validate_identifier value field) values

abbrev pub is_locale_byte : ℕ → Bool
is_locale_byte c = is_ascii_alphanumeric c || c == b'-' || c == b'_'

unfoldable pub validate_locale_list : List Text → String → Checked
validate_locale_list values field =
    for_each
      (λ value.
        reject_if (is_empty value || ltb 64 (len value) || not (all is_locale_byte value))
          (invalid_configuration field))
      values

-- The first loop of `validate_candidates`, at one candidate.
unfoldable pub validate_candidate : RoutingCandidate → Checked
unfolding validate_identifier validate_locale_list
validate_candidate c = do
  validate_identifier c.provider_id "provider_id"
  validate_identifier c.model_id "model_id"
  reject_if (c.context_capacity_bytes == 0)
      (invalid_configuration "context capacity must be greater than zero")
  validate_locale_list c.source_locales "source locale"
  validate_locale_list c.target_locales "target locale"

abbrev pub same_pair : RoutingCandidate → RoutingCandidate → Bool
same_pair c previous =
    text_eq previous.provider_id c.provider_id && text_eq previous.model_id c.model_id

-- The second loop of `validate_candidates`: `previous` is `candidates[..index]`.
unfoldable pub validate_unique : List RoutingCandidate → List RoutingCandidate → Checked
validate_unique previous [] = ok tt
validate_unique previous (c ∷ rest) = do
  reject_if (any (same_pair c) previous)
      (invalid_configuration "routing candidates must have unique provider/model pairs")
  validate_unique (previous ++ c ∷ []) rest

unfoldable pub validate_candidates : List RoutingCandidate → Checked
unfolding validate_candidate validate_unique
validate_candidates cs = do
  reject_if (is_empty cs) (invalid_configuration "at least one routing candidate is required")
  reject_if (ltb max_routing_candidates (length cs))
      (invalid_configuration "routing candidate count exceeds the limit")
  for_each validate_candidate cs
  validate_unique [] cs

abbrev pub is_zero_limit : Option ℕ → Bool
is_zero_limit none = false
is_zero_limit (some limit) = limit == 0

unfoldable pub validate : RoutingProfile → Checked
unfolding validate_identifier validate_candidates validate_identifier_list
validate p = do
  validate_identifier p.id "routing profile id"
  validate_candidates p.candidates
  validate_identifier_list p.constraints.provider_allowlist "provider allowlist"
  validate_identifier_list p.constraints.provider_denylist "provider denylist"
  validate_identifier_list p.constraints.model_allowlist "model allowlist"
  validate_identifier_list p.constraints.model_denylist "model denylist"
  reject_if (is_zero_limit p.constraints.max_request_bytes)
      (invalid_configuration "maximum request bytes must be greater than zero")

-- `RoutingProfile::new`.
unfoldable pub new_profile :
    Text
    → RoutingMode
    → List RoutingCandidate
    → RoutingConstraints
    → Result RoutingProfile RoutingError
unfolding validate
new_profile id mode candidates constraints = do
  let profile : RoutingProfile = record {
    id = id;
    mode = mode;
    candidates = candidates;
    constraints = constraints;
  }
  validate profile
  ok profile

-- `RoutingCandidate::new`.
unfoldable pub new_candidate : Text → Text → Bool → ℕ → Result RoutingCandidate RoutingError
unfolding validate_identifier
new_candidate provider_id model_id is_local capacity = do
  validate_identifier provider_id "provider_id"
  validate_identifier model_id "model_id"
  reject_if (capacity == 0) (invalid_configuration "context capacity must be greater than zero")
  ok (record {
    provider_id = provider_id;
    model_id = model_id;
    is_local = is_local;
    supports_streaming = true;
    supports_document = false;
    context_capacity_bytes = capacity;
    quality_tier = 0;
    estimated_latency_ms = none;
    estimated_cost_micros = none;
    source_locales = [];
    target_locales = [];
  })
