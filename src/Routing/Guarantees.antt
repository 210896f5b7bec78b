-- ===== src/Routing/Guarantees.antt =====
-- The promises of `select`: whom it chooses, in which order, and when it refuses.
use linguamesh_core.Base.{
  ◌≡◌, ◌≢◌, ◌⊎◌, inl, inr, subst, true, false, ◌&&◌, not, List, [], ◌∷◌, map, Memᴰ, All, All-perm,
  Permᴰ, arith, ok, Bool-cases, sort_by-Sorted, Sorted,
}
use linguamesh_core.Routing.Types.{
  manual, automatic, RoutingCandidate, RoutingContext, RoutingProfile, RoutingRank, RoutingDecision,
}
use linguamesh_core.Routing.Filter.{classify}
use linguamesh_core.Routing.Ranking.{compare_ranks}
use linguamesh_core.Routing.Selection.{rank, ranked, arrange, select, is_manual}
use linguamesh_core.Routing.Acceptance.{IsPlaced, IsCapable, rejection_reason-IsAccepted}
use linguamesh_core.Routing.Preference.{AreRanked, ranks-AreRanked}
use linguamesh_core.Routing.Order.{compare_ranks-IsOrder}
use linguamesh_core.Routing.Verdicts.{Splits, Splits-accepted, arrange-perm, ranked-perm}
use linguamesh_core.Routing.Choice.{IsDecision, select-IsDecision}

All-impl :
    {P Q : RoutingCandidate → Type 0} (f : (c : RoutingCandidate) → P c → Q c)
    (cs : List RoutingCandidate)
    → All P cs
    → All Q cs
All-impl f [] h = tt
All-impl f (c ∷ cs) h = (f c h.0, All-impl f cs h.1)

abbrev pub IsSuitable : RoutingProfile → RoutingContext → RoutingCandidate → Type 0
IsSuitable p x c = Memᴰ c p.candidates × IsPlaced p.constraints c x × IsCapable p.constraints c x

suitable :
    (p : RoutingProfile) (x : RoutingContext) (d : RoutingDecision)
    → IsDecision p x d
    → All (IsSuitable p x) d.eligible_candidates
suitable p x d i =
    All-impl
      (λ c h.
        let (placed, capable) = (rejection_reason-IsAccepted p c x).0 h.1 in (h.0, placed, capable))
      d.eligible_candidates
      (All-perm _
        (subst (λ (r : List RoutingRank × List RoutingCandidate). Permᴰ i.accepted r.1) i.arranged
          (arrange-perm p.mode p.constraints.preference i.accepted))
        (Splits-accepted i.splits))

-- The candidate that is selected, and every one that may be fallen back on, is a candidate of the
-- profile that meets every condition of the constraints for this request, as `IsPlaced` and
-- `IsCapable` list them.
pub select-IsSuitable :
    (p : RoutingProfile) (x : RoutingContext) (d : RoutingDecision)
    → select p x ≡ ok d
    → IsSuitable p x d.selected
      × All (IsSuitable p x) d.eligible_candidates
      × All (IsSuitable p x) d.fallback_order
select-IsSuitable p x d h =
    let i = select-IsDecision p x d h in
    let all' = suitable p x d i in
    let split = subst (All (IsSuitable p x)) i.first all' in
    (
      split.0,
      all',
      elim (Bool-cases (p.constraints.explicit_fallback_allowed && not (is_manual p.mode))) [
        | inl e ↦ rw (i.fallback, e) split.1
        | inr e ↦ rw (i.fallback, e) tt
      ],
    )

-- The profile or the request keeps the text on this machine.
abbrev pub KeepsLocal : RoutingProfile → RoutingContext → Type 0
KeepsLocal p x =
    (p.constraints.local_only ≡ true)
    ⊎ ((p.constraints.allow_remote ≡ false)
        ⊎ ((p.constraints.privacy_sensitive ≡ true) × (x.privacy_sensitive ≡ true)))

local_of_IsPlaced :
    (p : RoutingProfile) (x : RoutingContext) (c : RoutingCandidate)
    → KeepsLocal p x
    → IsSuitable p x c
    → c.is_local ≡ true
local_of_IsPlaced p x c k s = ground (arith, s.1.local_or_remote)

-- Where the constraints admit local candidates only, or the profile and the request are both
-- privacy-sensitive, no remote candidate is selected, eligible or a fallback. The comment of the
-- field `privacy_sensitive` of the constraints says that it allows remote candidates for such
-- requests; in the code it forbids them.
pub select-KeepsLocal :
    (p : RoutingProfile) (x : RoutingContext) (d : RoutingDecision)
    → KeepsLocal p x
    → select p x ≡ ok d
    → (d.selected.is_local ≡ true)
      × All (λ c. c.is_local ≡ true) d.eligible_candidates
      × All (λ c. c.is_local ≡ true) d.fallback_order
select-KeepsLocal p x d k h =
    let (a, b, c) = select-IsSuitable p x d h in
    (
      local_of_IsPlaced p x d.selected k a,
      All-impl (λ y s. local_of_IsPlaced p x y k s) d.eligible_candidates b,
      All-impl (λ y s. local_of_IsPlaced p x y k s) d.fallback_order c,
    )

-- A fallback order is given only by an ordered or automatic profile that allows it, and is then
-- the eligible candidates behind the selected one; otherwise it is empty.
pub select_fallback :
    (p : RoutingProfile) (x : RoutingContext) (d : RoutingDecision)
    → select p x ≡ ok d
    → ((p.constraints.explicit_fallback_allowed ≡ true)
        × (p.mode ≢ manual)
        × (d.eligible_candidates ≡ d.selected ∷ d.fallback_order))
      ⊎ (((p.constraints.explicit_fallback_allowed ≡ false) ⊎ (p.mode ≡ manual))
          × (d.fallback_order ≡ []))
select_fallback p x d h =
    ground (arith, (select-IsDecision p x d h).fallback, (select-IsDecision p x d h).first)

-- In the manual and the ordered mode the eligible candidates are those accepted, in the order of
-- the profile; the selected one is the first of them, and there is no ranking.
pub select_in_order :
    (p : RoutingProfile) (x : RoutingContext) (d : RoutingDecision)
    → p.mode ≢ automatic
    → select p x ≡ ok d
    → Splits p x p.candidates d.eligible_candidates d.rejected_candidates
      × ((rest : List RoutingCandidate) × (d.eligible_candidates ≡ d.selected ∷ rest))
      × (d.ranking ≡ [])
unfolding arrange
select_in_order p x d m h =
    let i = select-IsDecision p x d h in
    (
      subst (λ l. Splits p x p.candidates l d.rejected_candidates) (ground (arith, i.arranged))
          i.splits,
      (i.rest, i.first),
      ground (arith, i.arranged),
    )

-- In the automatic mode the ranking holds each accepted candidate with its score, is sorted, and
-- gives the order of the eligible candidates; the selected candidate is that of its first rank. Each
-- eligible candidate, the selected one first, precedes every later one by the preference: local
-- ones, or those of the higher quality, or of the smaller estimate, then local ones or those of the
-- higher quality, then by the key. Without a preference too, local ones are in front.
pub select_best :
    (p : RoutingProfile) (x : RoutingContext) (d : RoutingDecision)
    → p.mode ≡ automatic
    → select p x ≡ ok d
    → Sorted compare_ranks d.ranking
      × Permᴰ (map (rank p.constraints.preference) (classify p x p.candidates).0) d.ranking
      × (map (λ r. r.candidate) d.ranking ≡ d.eligible_candidates)
      × ((rest : List RoutingCandidate) × (d.eligible_candidates ≡ d.selected ∷ rest))
      × AreRanked p.constraints.preference d.eligible_candidates
unfolding arrange ranked
select_best p x d m h =
    let i = select-IsDecision p x d h in
    let r : ranked p.constraints.preference i.accepted ≡ d.ranking = ground (arith, i.arranged) in
    let sorted : Sorted compare_ranks d.ranking =
      subst (Sorted compare_ranks) r
        (sort_by-Sorted compare_ranks-IsOrder (map (rank p.constraints.preference) i.accepted)) in
    let held : Permᴰ (map (rank p.constraints.preference) i.accepted) d.ranking =
      subst (Permᴰ _) r (ranked-perm p.constraints.preference i.accepted) in
    let order : map (λ r. r.candidate) d.ranking ≡ d.eligible_candidates =
      ground (arith, i.arranged) in
    (
      sorted,
      rw i.classified held,
      order,
      (i.rest, i.first),
      subst (AreRanked p.constraints.preference) order
          (ranks-AreRanked p.constraints.preference i.accepted d.ranking held sorted),
    )
