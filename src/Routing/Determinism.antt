-- ===== src/Routing/Determinism.antt =====
-- The automatic mode does not depend on the order in which a profile lists its candidates.
use Prim.Native.Nat.{Ordering}
use linguamesh_core.Routing.Keys.{HasDistinctKeys, validate-HasDistinctKeys}
use linguamesh_core.Routing.Verdicts.{accept, reject, done as finished}
use linguamesh_core.Routing.Filter.{add_verdict}
use linguamesh_core.Base.{
  ◌≡◌, ◌≢◌, refl, sym, ap, ◌∙◌, subst, Option, none, some, List, [], ◌∷◌, map, All, Permᴰ,
  Permᴰ-refl, Permᴰ-map, arith, ok, sort_by_unique, NoTies,
}
use linguamesh_core.Routing.Choice.{IsDecision, select-IsDecision, select-validate}
use linguamesh_core.Routing.Types.{
  automatic, RoutingCandidate, RoutingContext, RoutingProfile, RoutingRejection,
  RoutingRejectionReason, RoutingDecision, RoutingPreference, key,
}
use linguamesh_core.Routing.Filter.{rejection_reason, classify}
use linguamesh_core.Routing.Ranking.{compare_ranks}
use linguamesh_core.Routing.Selection.{rank, ranked, arrange, select}
use linguamesh_core.Routing.Order.{compare_ranks-IsOrder, compare_ranks-eq}
use linguamesh_core.Routing.Verdicts.{Splits}
use linguamesh_core.Routing.Choice.{IsDecision, select-IsDecision, select-validate}

Splits-All :
    (P : RoutingCandidate → Type 0) {p : RoutingProfile} {x : RoutingContext}
    {cs eligible : List RoutingCandidate} {rejected : List RoutingRejection}
    → Splits p x cs eligible rejected
    → All P cs
    → All P eligible
Splits-All P finished h = tt
Splits-All P (accept e s) h = (h.0, Splits-All P s h.1)
Splits-All P (reject q e s) h = Splits-All P s h.1

Splits-HasDistinctKeys :
    {p : RoutingProfile} {x : RoutingContext} {cs eligible : List RoutingCandidate}
    {rejected : List RoutingRejection}
    → Splits p x cs eligible rejected
    → HasDistinctKeys cs
    → HasDistinctKeys eligible
Splits-HasDistinctKeys finished h = tt
Splits-HasDistinctKeys (accept {c} e s) h =
    (Splits-All (λ d. key c ≢ key d) s h.0, Splits-HasDistinctKeys s h.1)
Splits-HasDistinctKeys (reject q e s) h = Splits-HasDistinctKeys s h.1

ranks-NoTies :
    (wish : RoutingPreference) (cs : List RoutingCandidate)
    → HasDistinctKeys cs
    → NoTies compare_ranks (map (rank wish) cs)
unfolding rank
ranks-NoTies wish [] h = tt
ranks-NoTies wish (c ∷ cs) h = (each cs h.0, ranks-NoTies wish cs h.1)
  where
    each :
        (l : List RoutingCandidate)
        → All (λ d. key c ≢ key d) l
        → All (λ r. compare_ranks (rank wish c) r ≢ Ordering.eq) (map (rank wish) l)
    each [] k = tt
    each (d ∷ l) k = (λ e. k.0 (compare_ranks-eq (rank wish c) (rank wish d) e), each l k.1)

classify-perm :
    (p : RoutingProfile) (x : RoutingContext) {cs ds : List RoutingCandidate}
    → Permᴰ cs ds
    → Permᴰ (classify p x cs).0 (classify p x ds).0
unfolding classify
classify-perm p x Permᴰ.nil = Permᴰ.nil
classify-perm p x (Permᴰ.cons {a} {b} {l₁ = l} {l₂ = m} e q) =
    rw e (verdict (rejection_reason p b x) (classify-perm p x q))
  where
    verdict :
        (o : Option RoutingRejectionReason)
        → Permᴰ (classify p x l).0 (classify p x m).0
        → Permᴰ (add_verdict b o (classify p x l)).0 (add_verdict b o (classify p x m)).0
    verdict none ih = Permᴰ.cons refl ih
    verdict (some r) ih = ih
classify-perm p x (Permᴰ.swap {a} {b} {l} e f) =
    rw (← e, ← f) (verdicts (rejection_reason p a x) (rejection_reason p b x))
  where
    verdicts :
        (o u : Option RoutingRejectionReason)
        → Permᴰ
            (add_verdict a o (add_verdict b u (classify p x l))).0
            (add_verdict b u (add_verdict a o (classify p x l))).0
    verdicts none none = Permᴰ.swap refl refl
    verdicts none (some _) = Permᴰ-refl _
    verdicts (some _) none = Permᴰ-refl _
    verdicts (some _) (some _) = Permᴰ-refl _
classify-perm p x (Permᴰ.trans q r) = Permᴰ.trans (classify-perm p x q) (classify-perm p x r)

-- The same profile with its candidates listed otherwise.
abbrev pub relist : RoutingProfile → List RoutingCandidate → RoutingProfile
relist p cs = record p { candidates = cs }

classify-relist :
    (p : RoutingProfile) (x : RoutingContext) (ds cs : List RoutingCandidate)
    → classify (relist p ds) x cs ≡ classify p x cs
unfolding classify rejection_reason
classify-relist p x ds [] = refl
classify-relist p x ds (c ∷ cs) =
    ap (add_verdict c (rejection_reason p c x)) (classify-relist p x ds cs)

accepted-relist :
    (p : RoutingProfile) (x : RoutingContext) (d e : RoutingDecision) (cs : List RoutingCandidate)
    (i : IsDecision p x d) (j : IsDecision (relist p cs) x e)
    → Permᴰ p.candidates cs
    → Permᴰ i.accepted j.accepted
accepted-relist p x d e cs i j q =
    subst (λ l. Permᴰ i.accepted l)
      (ap (λ (v : List RoutingCandidate × List RoutingRejection). v.0)
        (sym (classify-relist p x cs cs) ∙ j.classified))
      (subst (λ l. Permᴰ l (classify p x cs).0)
        (ap (λ (v : List RoutingCandidate × List RoutingRejection). v.0) i.classified)
        (classify-perm p x q))

-- In the automatic mode two listings of the same candidates get the same selection, the same order
-- of eligible candidates, the same ranking and the same fallbacks.
pub select_order_independent :
    (p : RoutingProfile) (x : RoutingContext) (cs : List RoutingCandidate) (d e : RoutingDecision)
    → p.mode ≡ automatic
    → Permᴰ p.candidates cs
    → select p x ≡ ok d
    → select (relist p cs) x ≡ ok e
    → (d.selected ≡ e.selected)
      × (d.eligible_candidates ≡ e.eligible_candidates)
      × (d.ranking ≡ e.ranking)
      × (d.fallback_order ≡ e.fallback_order)
unfolding arrange ranked
select_order_independent p x cs d e m q h k =
    let i = select-IsDecision p x d h in
    let j = select-IsDecision (relist p cs) x e k in
    let valid = validate-HasDistinctKeys p (select-validate p x d h) in
    let same : ranked p.constraints.preference i.accepted
        ≡ ranked p.constraints.preference j.accepted =
      sort_by_unique compare_ranks-IsOrder
        (Permᴰ-map (rank p.constraints.preference) (accepted-relist p x d e cs i j q))
        (ranks-NoTies p.constraints.preference i.accepted
          (Splits-HasDistinctKeys i.splits valid)) in
    ground (arith, same, i.arranged, j.arranged, i.first, j.first, i.fallback, j.fallback)
