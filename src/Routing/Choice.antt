-- ===== src/Routing/Choice.antt =====
-- What a routing decision guarantees.
use linguamesh_core.Base.{
  ◌≡◌, refl, sym, subst, ◌&&◌, not, List, [], ◌∷◌, All-perm, Permᴰ, arith, ok, reject_if, >>-eq-ok,
  is_empty, trim, if◌then◌else◌,
}
use linguamesh_core.Routing.Types.{
  RoutingCandidate, RoutingContext, RoutingProfile, RoutingRejection, RoutingDecision,
}
use linguamesh_core.Routing.Validation.{validate}
use linguamesh_core.Routing.Filter.{classify}
use linguamesh_core.Routing.Selection.{arrange, decide, select, is_manual}
use linguamesh_core.Routing.Verdicts.{Splits, classify-Splits, arrange-perm}

-- The decision that `decide` builds, in terms of the candidates that were accepted.
pub record IsDecision (p : RoutingProfile) (x : RoutingContext) (d : RoutingDecision) : Type 0 where
  pub accepted : List RoutingCandidate
  pub classified : classify p x p.candidates ≡ (accepted, d.rejected_candidates)
  pub splits : Splits p x p.candidates accepted d.rejected_candidates
  pub arranged :
      arrange p.mode p.constraints.preference accepted ≡ (d.ranking, d.eligible_candidates)
  pub rest : List RoutingCandidate
  pub first : d.eligible_candidates ≡ d.selected ∷ rest
  pub fallback :
      d.fallback_order
      ≡ (if p.constraints.explicit_fallback_allowed && not (is_manual p.mode) then rest else [])

Permᴰ-ne-nil :
    {c : RoutingCandidate} {cs ds : List RoutingCandidate}
    → Permᴰ (c ∷ cs) ds
    → (e : RoutingCandidate) × (es : List RoutingCandidate) × (ds ≡ e ∷ es)
Permᴰ-ne-nil {c} {cs} {ds = []} q = absurd (All-perm (λ _. ⊥) (Permᴰ-symm q) tt).0
  where
    Permᴰ-symm : {xs ys : List RoutingCandidate} → Permᴰ xs ys → Permᴰ ys xs
    Permᴰ-symm Permᴰ.nil = Permᴰ.nil
    Permᴰ-symm (Permᴰ.cons e r) = Permᴰ.cons (sym e) (Permᴰ-symm r)
    Permᴰ-symm (Permᴰ.swap e f) = Permᴰ.swap (sym f) (sym e)
    Permᴰ-symm (Permᴰ.trans r s) = Permᴰ.trans (Permᴰ-symm s) (Permᴰ-symm r)
Permᴰ-ne-nil {ds = e ∷ es} q = (e, es, refl)

decide-IsDecision :
    (p : RoutingProfile) (x : RoutingContext) (accepted : List RoutingCandidate)
    (rejected : List RoutingRejection) (d : RoutingDecision)
    → classify p x p.candidates ≡ (accepted, rejected)
    → Splits p x p.candidates accepted rejected
    → decide p accepted rejected ≡ ok d
    → IsDecision p x d
unfolding decide
decide-IsDecision p x [] rejected d k s h = cc
decide-IsDecision p x (c ∷ cs) rejected d k s h =
    let (e, es, q) = Permᴰ-ne-nil (arrange-perm p.mode p.constraints.preference (c ∷ cs)) in
    record {
      accepted = c ∷ cs;
      classified = subst (λ r. classify p x p.candidates ≡ (c ∷ cs, r)) (ground arith) k;
      splits = subst (λ r. Splits p x p.candidates (c ∷ cs) r) (ground arith) s;
      arranged = ground arith;
      rest = es;
      first = ground arith;
      fallback = ground arith;
    }

pub select-IsDecision :
    (p : RoutingProfile) (x : RoutingContext) (d : RoutingDecision)
    → select p x ≡ ok d
    → IsDecision p x d
unfolding select
select-IsDecision p x d h =
    let (_, h1) = >>-eq-ok (validate p) _ h in
    let (_, h2) = >>-eq-ok (reject_if (is_empty (trim x.target_locale)) _) _ h1 in
    decide-IsDecision p x (classify p x p.candidates).0 (classify p x p.candidates).1 d refl
      (classify-Splits p x p.candidates) h2

pub select-validate :
    (p : RoutingProfile) (x : RoutingContext) (d : RoutingDecision)
    → select p x ≡ ok d
    → validate p ≡ ok tt
unfolding select
select-validate p x d h = (>>-eq-ok (validate p) _ h).0
