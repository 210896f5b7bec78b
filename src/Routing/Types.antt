-- ===== src/Routing/Types.antt =====
-- The data of crates/linguamesh-domain/src/routing.rs. `usize`, `u64` and `u8` fields are numbers.
use linguamesh_core.Base.{ℕ, Bool, true, false, Option, none, List, [], ◌++◌, ◌∷◌, Text, Result, ℤ}
use Prim.Native.String.{String}

abbrev pub max_routing_candidates : ℕ
max_routing_candidates = 32

abbrev pub max_routing_identifier_bytes : ℕ
max_routing_identifier_bytes = 128

pub data RoutingMode : Type 0 where
  manual ordered automatic : RoutingMode

-- `RoutingPreference::None` is `no_preference`.
pub data RoutingPreference : Type 0 where
  no_preference local quality latency cost : RoutingPreference

pub record RoutingConstraints : Type 0 where
  pub local_only : Bool
  pub allow_remote : Bool
  pub provider_allowlist : List Text
  pub provider_denylist : List Text
  pub model_allowlist : List Text
  pub model_denylist : List Text
  pub require_streaming : Bool
  pub require_document : Bool
  pub minimum_quality_tier : Option ℕ
  pub max_request_bytes : Option ℕ
  pub preference : RoutingPreference
  pub privacy_sensitive : Bool
  pub explicit_fallback_allowed : Bool

-- `Default for RoutingConstraints`.
abbrev pub default_constraints : RoutingConstraints
default_constraints = record {
  local_only = false;
  allow_remote = true;
  provider_allowlist = [];
  provider_denylist = [];
  model_allowlist = [];
  model_denylist = [];
  require_streaming = false;
  require_document = false;
  minimum_quality_tier = none;
  max_request_bytes = none;
  preference = no_preference;
  privacy_sensitive = false;
  explicit_fallback_allowed = false;
}

pub record RoutingCandidate : Type 0 where
  pub provider_id : Text
  pub model_id : Text
  pub is_local : Bool
  pub supports_streaming : Bool
  pub supports_document : Bool
  pub context_capacity_bytes : ℕ
  pub quality_tier : ℕ
  pub estimated_latency_ms : Option ℕ
  pub estimated_cost_micros : Option ℕ
  pub source_locales : List Text
  pub target_locales : List Text

-- `RoutingCandidate::key`.
unfoldable pub key : RoutingCandidate → Text
key c = c.provider_id ++ (b'@' ∷ c.model_id)

pub record RoutingContext : Type 0 where
  pub source_locale : Option Text
  pub target_locale : Text
  pub request_bytes : ℕ
  pub require_streaming : Bool
  pub require_document : Bool
  pub privacy_sensitive : Bool

pub data RoutingRejectionReason : Type 0 where
  provider_not_allowed provider_denied model_not_allowed model_denied : RoutingRejectionReason
  remote_disallowed privacy_remote_disallowed : RoutingRejectionReason
  streaming_unsupported document_unsupported context_too_small quality_too_low :
      RoutingRejectionReason
  source_locale_unsupported target_locale_unsupported request_too_large : RoutingRejectionReason

pub record RoutingRejection : Type 0 where
  pub candidate : RoutingCandidate
  pub reason : RoutingRejectionReason

pub record RoutingRank : Type 0 where
  pub candidate : RoutingCandidate
  pub score_components : List ℤ

pub record RoutingDecision : Type 0 where
  pub selected : RoutingCandidate
  pub eligible_candidates : List RoutingCandidate
  pub rejected_candidates : List RoutingRejection
  pub ranking : List RoutingRank
  pub fallback_order : List RoutingCandidate

pub record RoutingProfile : Type 0 where
  pub id : Text
  pub mode : RoutingMode
  pub candidates : List RoutingCandidate
  pub constraints : RoutingConstraints

pub data RoutingError : Type 0 where
  invalid_configuration : String → RoutingError
  no_eligible_candidates : List RoutingRejection → RoutingError

abbrev pub Checked : Type 0
Checked = Result (Unit {0}) RoutingError
