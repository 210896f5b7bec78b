-- ===== src/Routing/Answers.antt =====
-- When `select` answers, and the manual mode's answer behind a rejected candidate.
use linguamesh_core.Base.{
  ◌≡◌, ◌⊎◌, inl, inr, refl, false, none, some, List, [], ◌∷◌, arith, ok, err, is_empty, trim,
}
use linguamesh_core.Routing.Types.{
  manual, RoutingCandidate, RoutingContext, RoutingProfile, RoutingRejection,
  RoutingRejectionReason, RoutingDecision, no_eligible_candidates,
}
use linguamesh_core.Routing.Validation.{validate}
use linguamesh_core.Routing.Filter.{rejection_reason, classify}
use linguamesh_core.Routing.Selection.{arrange, decide, select}
use linguamesh_core.Routing.Verdicts.{Splits, classify-Splits}

decide_total :
    (p : RoutingProfile) (x : RoutingContext) (accepted : List RoutingCandidate)
    (rejected : List RoutingRejection)
    → Splits p x p.candidates accepted rejected
    → ((d : RoutingDecision) × (decide p accepted rejected ≡ ok d))
      ⊎ (Splits p x p.candidates [] rejected
          × (decide p accepted rejected ≡ err (no_eligible_candidates rejected)))
unfolding decide
decide_total p x [] rejected s = inr (s, refl)
decide_total p x (c ∷ cs) rejected s = inl (_, refl)

-- For a valid profile and a target locale that is not blank, `select` decides or, if the
-- constraints reject every candidate, says so with the reason for each, in order.
pub select_total :
    (p : RoutingProfile) (x : RoutingContext)
    → validate p ≡ ok tt
    → is_empty (trim x.target_locale) ≡ false
    → ((d : RoutingDecision) × (select p x ≡ ok d))
      ⊎ ((rejected : List RoutingRejection) × Splits p x p.candidates [] rejected
          × (select p x ≡ err (no_eligible_candidates rejected)))
unfolding select
select_total p x v t =
    elim (decide_total p x (classify p x p.candidates).0 (classify p x p.candidates).1
      (classify-Splits p x p.candidates)) [
        | inl (d, e) ↦ inl (d, rw (v, t) e)
        | inr (s, e) ↦ inr ((classify p x p.candidates).1, s, rw (v, t) e)
      ]

-- The manual mode does not stop at the first candidate: where that one is rejected and the second
-- is accepted, `select` answers with the second.
pub manual_skips_rejected :
    (p : RoutingProfile) (x : RoutingContext) (c₁ c₂ : RoutingCandidate)
    (cs : List RoutingCandidate) (r : RoutingRejectionReason)
    → p.mode ≡ manual
    → p.candidates ≡ c₁ ∷ c₂ ∷ cs
    → rejection_reason p c₁ x ≡ some r
    → rejection_reason p c₂ x ≡ none
    → validate p ≡ ok tt
    → is_empty (trim x.target_locale) ≡ false
    → (d : RoutingDecision) × (select p x ≡ ok d) × (d.selected ≡ c₂)
unfolding select classify decide arrange rejection_reason
manual_skips_rejected p x c₁ c₂ cs r m c e₁ e₂ v t = (
  record {
    selected = c₂;
    eligible_candidates = c₂ ∷ (classify p x cs).0;
    rejected_candidates = record { candidate = c₁; reason = r } ∷ (classify p x cs).1;
    ranking = [];
    fallback_order = [];
  },
  rw (v, t, c, e₁, e₂) (ground arith),
  refl,
)
