-- ===== src/Routing/Ranking.antt =====
-- `RoutingProfile::score_components` of crates/linguamesh-domain/src/routing.rs, and the comparison
-- by which `select` sorts.
use Prim.Native.Nat.{compare, Ordering}
use linguamesh_core.Base.{
  cmp_int, ℕ, ◌-◌, ◌^◌, Bool, true, false, Option, none, some, List, [], ◌∷◌, ℤ, pos, negsuc, neg,
  ltb, if◌then◌else◌, cmp_list, then_with,
}
use linguamesh_core.Routing.Types.{
  RoutingCandidate, RoutingPreference, no_preference, local, quality, latency, cost, RoutingRank,
  key,
}

abbrev pub i64_max : ℕ
i64_max = 2 ^ 63 - 1

-- `i64::MIN`.
abbrev pub i64_min : ℤ
i64_min = negsuc i64_max

abbrev pub from_bool : Bool → ℤ
from_bool true = pos 1
from_bool false = pos 0

-- `map_or(i64::MIN, |value| -i64::try_from(value).unwrap_or(i64::MAX))`
unfoldable pub estimate_score : Option ℕ → ℤ
estimate_score none = i64_min
estimate_score (some value) = neg (if ltb i64_max value then i64_max else value)

unfoldable pub score_components : RoutingPreference → RoutingCandidate → List ℤ
score_components local c = from_bool c.is_local ∷ pos c.quality_tier ∷ []
score_components quality c = pos c.quality_tier ∷ from_bool c.is_local ∷ []
score_components latency c = estimate_score c.estimated_latency_ms ∷ from_bool c.is_local ∷ []
score_components cost c = estimate_score c.estimated_cost_micros ∷ from_bool c.is_local ∷ []
score_components no_preference c = from_bool c.is_local ∷ []

-- The closure of `sort_by`: the higher score first, then the smaller key.
unfoldable pub compare_ranks : RoutingRank → RoutingRank → Ordering
compare_ranks left right =
    then_with (cmp_list cmp_int right.score_components left.score_components)
      (cmp_list compare (key left.candidate) (key right.candidate))
