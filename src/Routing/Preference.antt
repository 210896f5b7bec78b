-- ===== src/Routing/Preference.antt =====
-- Which of two candidates the automatic mode of crates/linguamesh-domain/src/routing.rs prefers, in
-- words of the candidates and without their scores.
use Prim.Native.Nat.{compare, Ordering}
use linguamesh_core.Base.{
  ◌≡◌, ◌<◌, ◌⊎◌, inl, inr, refl, ℕ, min, Bool, true, false, Option, none, some, List, [], ◌∷◌, map,
  All, arith, cmp_int, cmp_list, then_with, is_gt, Sorted, Permᴰ, All-perm, pos, subst,
}
use linguamesh_core.Routing.Types.{
  RoutingCandidate, RoutingPreference, no_preference, local, quality, latency, cost, RoutingRank,
  key,
}
use linguamesh_core.Routing.Ranking.{
  i64_max, from_bool, estimate_score, score_components, compare_ranks,
}
use linguamesh_core.Routing.Selection.{rank}

-- The local one of two candidates; where both are, or none is, the next rule.
abbrev pub LocalFirst : Bool → Bool → Type 0 → Type 0
LocalFirst a b next = ((a ≡ true) × (b ≡ false)) ⊎ ((a ≡ b) × next)

-- The one of the higher quality.
abbrev pub MoreFirst : ℕ → ℕ → Type 0 → Type 0
MoreFirst a b next = (b < a) ⊎ ((a ≡ b) × next)

-- The one of the smaller estimate, where those that an `i64` does not hold are all its greatest
-- value; one that is not known comes last.
abbrev pub LessFirst : Option ℕ → Option ℕ → Type 0 → Type 0
LessFirst none none next = next
LessFirst none (some n) next = ⊥
LessFirst (some m) none next = Unit
LessFirst (some m) (some n) next =
    (min m i64_max < min n i64_max) ⊎ ((min m i64_max ≡ min n i64_max) × next)

-- The one whose key is not the greater text.
abbrev pub KeyFirst : RoutingCandidate → RoutingCandidate → Type 0
KeyFirst a b = is_gt (cmp_list compare (key a) (key b)) ≡ false

-- The first may stand in front of the second.
abbrev pub Precedes : RoutingPreference → RoutingCandidate → RoutingCandidate → Type 0
Precedes local a b =
    LocalFirst a.is_local b.is_local (MoreFirst a.quality_tier b.quality_tier (KeyFirst a b))
Precedes quality a b =
    MoreFirst a.quality_tier b.quality_tier (LocalFirst a.is_local b.is_local (KeyFirst a b))
Precedes latency a b =
    LessFirst a.estimated_latency_ms b.estimated_latency_ms
      (LocalFirst a.is_local b.is_local (KeyFirst a b))
Precedes cost a b =
    LessFirst a.estimated_cost_micros b.estimated_cost_micros
      (LocalFirst a.is_local b.is_local (KeyFirst a b))
Precedes no_preference a b = LocalFirst a.is_local b.is_local (KeyFirst a b)

-- Each candidate precedes every later one.
abbrev pub AreRanked : RoutingPreference → List RoutingCandidate → Type 0
AreRanked wish [] = Unit
AreRanked wish (c ∷ cs) = All (Precedes wish c) cs × AreRanked wish cs

first_decides :
    (o p : Ordering)
    → is_gt (then_with o p) ≡ false
    → (o ≡ Ordering.lt) ⊎ ((o ≡ Ordering.eq) × (is_gt p ≡ false))
first_decides Ordering.lt p h = inl refl
first_decides Ordering.eq p h = inr (refl, h)
first_decides Ordering.gt p h = cc

LocalFirst-score :
    (a b : Bool) (p : Ordering) (P : Type 0)
    → (is_gt p ≡ false → P)
    → is_gt (then_with (cmp_int (from_bool b) (from_bool a)) p) ≡ false
    → LocalFirst a b P
LocalFirst-score true true p P f h = inr (refl, f h)
LocalFirst-score true false p P f h = inl (refl, refl)
LocalFirst-score false true p P f h = cc
LocalFirst-score false false p P f h = inr (refl, f h)

MoreFirst-score :
    (a b : ℕ) (p : Ordering) (P : Type 0)
    → (is_gt p ≡ false → P)
    → is_gt (then_with (cmp_int (pos b) (pos a)) p) ≡ false
    → MoreFirst a b P
MoreFirst-score a b p P f h = elim (first_decides (compare b a) p h) [
  | inl e ↦ inl (ground arith)
  | inr (e, k) ↦ inr (ground arith, f k)
]

LessFirst-score :
    (a b : Option ℕ) (p : Ordering) (P : Type 0)
    → (is_gt p ≡ false → P)
    → is_gt (then_with (cmp_int (estimate_score b) (estimate_score a)) p) ≡ false
    → LessFirst a b P
unfolding estimate_score
LessFirst-score none none p P f h = f h
LessFirst-score none (some n) p P f h = absurd (ground arith)
LessFirst-score (some m) none p P f h = tt
LessFirst-score (some m) (some n) p P f h = elim (first_decides _ p h) [
  | inl e ↦ inl (ground arith)
  | inr (e, k) ↦ inr (ground arith, f k)
]

-- The comparison of two scores and then of a key.
two_scores :
    (o p q : Ordering)
    → then_with (then_with o (then_with p Ordering.eq)) q ≡ then_with o (then_with p q)
two_scores o p q = ground arith

one_score : (o q : Ordering) → then_with (then_with o Ordering.eq) q ≡ then_with o q
one_score o q = ground arith

compare_ranks-Precedes :
    (wish : RoutingPreference) (a b : RoutingCandidate)
    → is_gt (compare_ranks (rank wish a) (rank wish b)) ≡ false
    → Precedes wish a b
unfolding compare_ranks rank score_components
compare_ranks-Precedes local a b h =
    LocalFirst-score a.is_local b.is_local _ _
      (MoreFirst-score a.quality_tier b.quality_tier _ (KeyFirst a b) (λ k. k))
      (rw (two_scores _ _ _) at h)
compare_ranks-Precedes quality a b h =
    MoreFirst-score a.quality_tier b.quality_tier _ _
      (LocalFirst-score a.is_local b.is_local _ (KeyFirst a b) (λ k. k))
      (rw (two_scores _ _ _) at h)
compare_ranks-Precedes latency a b h =
    LessFirst-score a.estimated_latency_ms b.estimated_latency_ms _ _
      (LocalFirst-score a.is_local b.is_local _ (KeyFirst a b) (λ k. k))
      (rw (two_scores _ _ _) at h)
compare_ranks-Precedes cost a b h =
    LessFirst-score a.estimated_cost_micros b.estimated_cost_micros _ _
      (LocalFirst-score a.is_local b.is_local _ (KeyFirst a b) (λ k. k))
      (rw (two_scores _ _ _) at h)
compare_ranks-Precedes no_preference a b h =
    LocalFirst-score a.is_local b.is_local _ (KeyFirst a b) (λ k. k) (rw (one_score _ _) at h)

abbrev pub IsRank : RoutingPreference → RoutingRank → Type 0
IsRank wish r = r ≡ rank wish r.candidate

map-IsRank :
    (wish : RoutingPreference) (cs : List RoutingCandidate) → All (IsRank wish) (map (rank wish) cs)
unfolding rank
map-IsRank wish [] = tt
map-IsRank wish (c ∷ cs) = (refl, map-IsRank wish cs)

Sorted-AreRanked :
    (wish : RoutingPreference) (rs : List RoutingRank)
    → All (IsRank wish) rs
    → Sorted compare_ranks rs
    → AreRanked wish (map (λ r. r.candidate) rs)
Sorted-AreRanked wish [] i s = tt
Sorted-AreRanked wish (r ∷ rs) i s = (later rs i.1 s.0, Sorted-AreRanked wish rs i.1 s.1)
  where
    later :
        (ys : List RoutingRank)
        → All (IsRank wish) ys
        → All (λ y. is_gt (compare_ranks r y) ≡ false) ys
        → All (Precedes wish r.candidate) (map (λ y. y.candidate) ys)
    later [] j k = tt
    later (y ∷ ys) j k = (
      compare_ranks-Precedes wish r.candidate y.candidate (
          subst (λ x. is_gt (compare_ranks (rank wish r.candidate) x) ≡ false) j.0
            (subst (λ x. is_gt (compare_ranks x y) ≡ false) i.0 k.0)),
      later ys j.1 k.1,
    )

-- Ranks in order, of the candidates of a list, are candidates in the order of the preference.
pub ranks-AreRanked :
    (wish : RoutingPreference) (cs : List RoutingCandidate) (rs : List RoutingRank)
    → Permᴰ (map (rank wish) cs) rs
    → Sorted compare_ranks rs
    → AreRanked wish (map (λ r. r.candidate) rs)
ranks-AreRanked wish cs rs p s =
    Sorted-AreRanked wish rs (All-perm (IsRank wish) p (map-IsRank wish cs)) s
