-- ===== src/Routing/Selection.antt =====
-- `RoutingProfile::select` of crates/linguamesh-domain/src/routing.rs.
use linguamesh_core.Base.{
  Bool, true, false, ◌&&◌, not, List, [], ◌∷◌, map, is_empty, trim, Result, ok, err, ◌>>◌,
  reject_if, if◌then◌else◌, sort_by,
}
use linguamesh_core.Routing.Types.{
  RoutingMode, manual, automatic, RoutingPreference, RoutingCandidate, RoutingContext,
  RoutingProfile, RoutingRank, RoutingRejection, RoutingDecision, RoutingError,
  invalid_configuration, no_eligible_candidates,
}
use linguamesh_core.Routing.Validation.{validate}
use linguamesh_core.Routing.Filter.{classify}
use linguamesh_core.Routing.Ranking.{score_components, compare_ranks}

abbrev pub is_manual : RoutingMode → Bool
is_manual manual = true
is_manual mode = false

unfoldable pub rank : RoutingPreference → RoutingCandidate → RoutingRank
unfolding score_components
rank preference c = record { candidate = c; score_components = score_components preference c }

-- The ranks in order, for the automatic mode.
unfoldable pub ranked : RoutingPreference → List RoutingCandidate → List RoutingRank
unfolding rank compare_ranks sort_by
ranked preference eligible = sort_by compare_ranks (map (rank preference) eligible)

-- `ranking`, and `eligible` as the ranking leaves it.
unfoldable pub arrange :
    RoutingMode
    → RoutingPreference
    → List RoutingCandidate
    → List RoutingRank × List RoutingCandidate
unfolding ranked
arrange automatic preference eligible =
    let ranking = ranked preference eligible in (ranking, map (λ r. r.candidate) ranking)
arrange _ _ eligible = ([], eligible)

-- `eligible[0]`; the candidate given stands for the panic on an empty vector.
abbrev pub first_or : RoutingCandidate → List RoutingCandidate → RoutingCandidate
first_or c [] = c
first_or c (e ∷ es) = e

-- `eligible.iter().skip(1)`.
abbrev pub skip_first : List RoutingCandidate → List RoutingCandidate
skip_first [] = []
skip_first (e ∷ es) = es

-- The part of `select` behind the loop.
unfoldable pub decide :
    RoutingProfile
    → List RoutingCandidate
    → List RoutingRejection
    → Result RoutingDecision RoutingError
unfolding arrange
decide p [] rejected = err (no_eligible_candidates rejected)
decide p (c ∷ cs) rejected =
    let (ranking, eligible) = arrange p.mode p.constraints.preference (c ∷ cs) in
    ok (record {
      selected = first_or c eligible;
      eligible_candidates = eligible;
      rejected_candidates = rejected;
      ranking = ranking;
      fallback_order =
          if p.constraints.explicit_fallback_allowed && not (is_manual p.mode)
          then skip_first eligible
          else [];
    })

unfoldable pub select : RoutingProfile → RoutingContext → Result RoutingDecision RoutingError
unfolding validate classify decide trim
select p x = do
  validate p
  reject_if (is_empty (trim x.target_locale))
      (invalid_configuration "target locale must not be empty")
  let (eligible, rejected) = classify p x p.candidates
  decide p eligible rejected
