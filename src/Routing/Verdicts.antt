-- ===== src/Routing/Verdicts.antt =====
-- What the loop of `select` and the ranking do to the list of candidates.
use linguamesh_core.Base.{
  Permᴰ-refl, Permᴰ-map, ◌≡◌, inl, inr, refl, ap, subst, none, some, List, [], ◌∷◌, map, Memᴰ, All,
  Permᴰ, Option-cases, sort_by-perm,
}
use linguamesh_core.Routing.Types.{
  RoutingMode, manual, ordered, automatic, RoutingCandidate, RoutingContext, RoutingProfile,
  RoutingRank, RoutingRejection, RoutingPreference,
}
use linguamesh_core.Routing.Filter.{rejection_reason, classify}
use linguamesh_core.Routing.Ranking.{compare_ranks}
use linguamesh_core.Routing.Selection.{rank, ranked, arrange}

-- The verdicts on a list of candidates: each one stands, in its place, on one side.
pub data Splits (p : RoutingProfile) (x : RoutingContext)
    : List RoutingCandidate → List RoutingCandidate → List RoutingRejection → Type 0 where
  done : Splits p x [] [] []
  accept :
      {c : RoutingCandidate} {cs eligible : List RoutingCandidate}
      {rejected : List RoutingRejection}
      → rejection_reason p c x ≡ none
      → Splits p x cs eligible rejected
      → Splits p x (c ∷ cs) (c ∷ eligible) rejected
  reject :
      {c : RoutingCandidate} {cs eligible : List RoutingCandidate}
      {rejected : List RoutingRejection} {r : RoutingRejection}
      → r.candidate ≡ c
      → rejection_reason p c x ≡ some r.reason
      → Splits p x cs eligible rejected
      → Splits p x (c ∷ cs) eligible (r ∷ rejected)

pub classify-Splits :
    (p : RoutingProfile) (x : RoutingContext) (cs : List RoutingCandidate)
    → Splits p x cs (classify p x cs).0 (classify p x cs).1
unfolding classify
classify-Splits p x [] = done
classify-Splits p x (c ∷ cs) = elim (Option-cases (rejection_reason p c x)) [
  | inl e ↦ rw e (accept e (classify-Splits p x cs))
  | inr (r, e) ↦ rw e (reject refl e (classify-Splits p x cs))
]

Memᴰ-weaken :
    (P : RoutingCandidate → Type 0) (c : RoutingCandidate) (cs l : List RoutingCandidate)
    → All (λ d. Memᴰ d cs × P d) l
    → All (λ d. Memᴰ d (c ∷ cs) × P d) l
Memᴰ-weaken P c cs [] h = tt
Memᴰ-weaken P c cs (d ∷ l) h = ((Memᴰ.tail h.0.0, h.0.1), Memᴰ-weaken P c cs l h.1)

pub Splits-accepted :
    {p : RoutingProfile} {x : RoutingContext} {cs eligible : List RoutingCandidate}
    {rejected : List RoutingRejection}
    → Splits p x cs eligible rejected
    → All (λ c. Memᴰ c cs × (rejection_reason p c x ≡ none)) eligible
Splits-accepted done = tt
Splits-accepted (accept {c} {cs} {eligible} e s) =
    ((Memᴰ.head refl, e), Memᴰ-weaken _ c cs eligible (Splits-accepted s))
Splits-accepted (reject {c} {cs} {eligible} _ e s) = Memᴰ-weaken _ c cs eligible (Splits-accepted s)

map-candidate-rank :
    (wish : RoutingPreference) (cs : List RoutingCandidate)
    → map (λ (r : RoutingRank). r.candidate) (map (rank wish) cs) ≡ cs
unfolding rank
map-candidate-rank wish [] = refl
map-candidate-rank wish (c ∷ cs) = ap (◌∷◌ c) (map-candidate-rank wish cs)

pub ranked-perm :
    (wish : RoutingPreference) (cs : List RoutingCandidate)
    → Permᴰ (map (rank wish) cs) (ranked wish cs)
unfolding ranked
ranked-perm wish cs = sort_by-perm compare_ranks (map (rank wish) cs)

-- What `arrange` does: it keeps the candidates, and in the automatic mode the ranking says how.
pub arrange-perm :
    (mode : RoutingMode) (wish : RoutingPreference) (cs : List RoutingCandidate)
    → Permᴰ cs (arrange mode wish cs).1
unfolding arrange
arrange-perm automatic wish cs =
    subst (λ l. Permᴰ l (map (λ (r : RoutingRank). r.candidate) (ranked wish cs)))
      (map-candidate-rank wish cs)
      (Permᴰ-map (λ (r : RoutingRank). r.candidate) (ranked-perm wish cs))
arrange-perm manual wish cs = Permᴰ-refl cs
arrange-perm ordered wish cs = Permᴰ-refl cs
