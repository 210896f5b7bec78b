-- ===== src/Routing/Tests.antt =====
-- Runs of the routing, and its theorems at concrete inputs.
use linguamesh_core.Base.{
  ℕ, ◌≡◌, ◌≢◌, ◌⊎◌, inl, inr, ◌↔◌, refl, Bool, true, false, none, ok, err, codes, List, [], ◌∷◌,
  Text, Permᴰ, map, All, Sorted, trim,
}
use linguamesh_core.Routing.Types.{
  RoutingMode, manual, ordered, automatic, RoutingCandidate, RoutingContext, RoutingConstraints,
  RoutingProfile, RoutingDecision, RoutingRejection, default_constraints, quality,
  remote_disallowed, no_eligible_candidates,
}
use linguamesh_core.Routing.Validation.{validate}
use linguamesh_core.Routing.Filter.{classify, rejection_reason, placement_reason, capability_reason}
use linguamesh_core.Routing.Ranking.{compare_ranks}
use linguamesh_core.Routing.Preference.{AreRanked}
use linguamesh_core.Routing.Selection.{select, rank}
use linguamesh_core.Routing.Acceptance.{IsPlaced, IsCapable, rejection_reason-IsAccepted}
use linguamesh_core.Routing.Verdicts.{Splits}
use linguamesh_core.Routing.Guarantees.{
  IsSuitable, select-IsSuitable, select-KeepsLocal, select_fallback, select_in_order, select_best,
}
use linguamesh_core.Routing.Answers.{select_total, manual_skips_rejected}
use linguamesh_core.Routing.Keys.{HasDistinctKeys, validate-HasDistinctKeys}
use linguamesh_core.Routing.Determinism.{relist, select_order_independent}

abbrev candidate : Text → Bool → ℕ → RoutingCandidate
candidate provider is_local tier = record {
  provider_id = provider;
  model_id = codes "m";
  is_local = is_local;
  supports_streaming = true;
  supports_document = false;
  context_capacity_bytes = 4096;
  quality_tier = tier;
  estimated_latency_ms = none;
  estimated_cost_micros = none;
  source_locales = [];
  target_locales = codes "zh-CN" ∷ [];
}

abbrev cloud : RoutingCandidate
cloud = candidate (codes "cloud") false 9

abbrev laptop : RoutingCandidate
laptop = candidate (codes "laptop") true 3

abbrev request : RoutingContext
request = record {
  source_locale = none;
  target_locale = codes "ZH-cn";
  request_bytes = 100;
  require_streaming = true;
  require_document = false;
  privacy_sensitive = true;
}

abbrev profile : RoutingMode → RoutingConstraints → RoutingProfile
profile mode constraints = record {
  id = codes "default";
  mode = mode;
  candidates = cloud ∷ laptop ∷ [];
  constraints = constraints;
}

abbrev guarded : RoutingConstraints
guarded = record default_constraints { allow_remote = false; explicit_fallback_allowed = true }

abbrev open_to_all : RoutingConstraints
open_to_all = record default_constraints { preference = quality; explicit_fallback_allowed = true }

abbrev kept_local : RoutingDecision
kept_local = record {
  selected = laptop;
  eligible_candidates = laptop ∷ [];
  rejected_candidates = record { candidate = cloud; reason = remote_disallowed } ∷ [];
  ranking = [];
  fallback_order = [];
}

local_chosen :
    (m : RoutingMode) → m ≢ automatic → select (profile m guarded) request ≡ ok kept_local
unfolding select rejection_reason placement_reason capability_reason
local_chosen manual n = refl
local_chosen ordered n = refl
local_chosen automatic n = absurd (n refl)

abbrev best_first : RoutingDecision
best_first = record {
  selected = cloud;
  eligible_candidates = cloud ∷ laptop ∷ [];
  rejected_candidates = [];
  ranking = rank quality cloud ∷ rank quality laptop ∷ [];
  fallback_order = laptop ∷ [];
}

best_chosen : select (profile automatic open_to_all) request ≡ ok best_first
unfolding select rank rejection_reason placement_reason capability_reason
best_chosen = refl

best_chosen_relisted :
    select (relist (profile automatic open_to_all) (laptop ∷ cloud ∷ [])) request ≡ ok best_first
unfolding select rank rejection_reason placement_reason capability_reason
best_chosen_relisted = refl

profile_valid : (m : RoutingMode) → validate (profile m default_constraints) ≡ ok tt
unfolding validate
profile_valid m = refl

rejection_reason-IsAccepted_example :
    (rejection_reason (profile manual guarded) laptop request ≡ none)
    ↔ (IsPlaced guarded laptop request × IsCapable guarded laptop request)
rejection_reason-IsAccepted_example =
    rejection_reason-IsAccepted (profile manual guarded) laptop request

select-IsSuitable_example :
    IsSuitable (profile automatic open_to_all) request cloud
    × All (IsSuitable (profile automatic open_to_all) request) (cloud ∷ laptop ∷ [])
    × All (IsSuitable (profile automatic open_to_all) request) (laptop ∷ [])
select-IsSuitable_example =
    select-IsSuitable (profile automatic open_to_all) request best_first best_chosen

select-KeepsLocal_example :
    (laptop.is_local ≡ true)
    × All (λ c. c.is_local ≡ true) (laptop ∷ [])
    × All (λ c. c.is_local ≡ true) kept_local.fallback_order
select-KeepsLocal_example =
    select-KeepsLocal (profile manual guarded) request kept_local (inr (inl refl))
      (local_chosen manual (λ e. cc))

select_fallback_example :
    ((open_to_all.explicit_fallback_allowed ≡ true)
      × (RoutingMode.automatic ≢ manual)
      × (best_first.eligible_candidates ≡ cloud ∷ laptop ∷ []))
    ⊎ (((open_to_all.explicit_fallback_allowed ≡ false) ⊎ (RoutingMode.automatic ≡ manual))
        × (best_first.fallback_order ≡ []))
select_fallback_example =
    select_fallback (profile automatic open_to_all) request best_first best_chosen

select_in_order_example :
    Splits
      (profile manual guarded)
      request
      (cloud ∷ laptop ∷ [])
      (laptop ∷ [])
      kept_local.rejected_candidates
    × ((rest : List RoutingCandidate) × (kept_local.eligible_candidates ≡ laptop ∷ rest))
    × (kept_local.ranking ≡ [])
select_in_order_example =
    select_in_order (profile manual guarded) request kept_local (λ e. cc)
      (local_chosen manual (λ e. cc))

select_best_example :
    Sorted compare_ranks best_first.ranking
    × Permᴰ
        (map
          (rank quality)
          (classify (profile automatic open_to_all) request (cloud ∷ laptop ∷ [])).0)
        best_first.ranking
    × (map (λ r. r.candidate) best_first.ranking ≡ cloud ∷ laptop ∷ [])
    × ((rest : List RoutingCandidate) × (best_first.eligible_candidates ≡ cloud ∷ rest))
    × AreRanked quality (cloud ∷ laptop ∷ [])
select_best_example =
    select_best (profile automatic open_to_all) request best_first refl best_chosen

select_total_example :
    ((d : RoutingDecision) × (select (profile manual default_constraints) request ≡ ok d))
    ⊎ ((rejected : List RoutingRejection) × Splits
          (profile manual default_constraints)
          request
          (cloud ∷ laptop ∷ [])
          []
          rejected
        × (select (profile manual default_constraints) request
            ≡ err (no_eligible_candidates rejected)))
unfolding trim
select_total_example =
    select_total (profile manual default_constraints) request (profile_valid manual) refl

manual_skips_rejected_example :
    (d : RoutingDecision) × (select (profile manual guarded) request ≡ ok d) × (d.selected ≡ laptop)
unfolding trim validate rejection_reason placement_reason capability_reason
manual_skips_rejected_example =
    manual_skips_rejected (profile manual guarded) request cloud laptop [] remote_disallowed refl
      refl refl refl refl refl

validate-HasDistinctKeys_example : HasDistinctKeys (cloud ∷ laptop ∷ [])
validate-HasDistinctKeys_example =
    validate-HasDistinctKeys (profile manual default_constraints) (profile_valid manual)

select_order_independent_example :
    (best_first.selected ≡ cloud)
    × (best_first.eligible_candidates ≡ cloud ∷ laptop ∷ [])
    × (best_first.ranking ≡ rank quality cloud ∷ rank quality laptop ∷ [])
    × (best_first.fallback_order ≡ laptop ∷ [])
select_order_independent_example =
    select_order_independent (profile automatic open_to_all) request (laptop ∷ cloud ∷ [])
      best_first best_first refl (Permᴰ.swap refl refl) best_chosen best_chosen_relisted
