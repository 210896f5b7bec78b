-- ===== src/Routing/Keys.antt =====
-- The candidates of a valid profile have distinct keys, so no two of them tie in the ranking.
use linguamesh_core.Base.{
  ◌≡◌, ◌≢◌, refl, ap, false, List, [], ◌∷◌, ◌++◌, Memᴰ, All, All-lookup, Text, text_eq,
  text_eq_refl, arith, ok,
}
use linguamesh_core.Routing.Types.{RoutingCandidate, RoutingProfile, key}
use linguamesh_core.Routing.Validation.{validate, same_pair}
use linguamesh_core.Routing.Identifiers.{
  IsWellFormed, IsUnique, done, next, validate-IsValid, key_injective,
}

seen-differs :
    (previous cs : List RoutingCandidate) (d : RoutingCandidate)
    → Memᴰ d previous
    → IsUnique previous cs
    → All (λ c. same_pair c d ≡ false) cs
seen-differs previous [] d m done = tt
seen-differs previous (c ∷ cs) d m (next a u) = (
  All-lookup (λ e. same_pair c e ≡ false) m a,
  seen-differs (previous ++ c ∷ []) cs d (left previous m) u,
)
  where
    left : (l : List RoutingCandidate) → Memᴰ d l → Memᴰ d (l ++ c ∷ [])
    left [] n = elim n [ ]
    left (y ∷ l) (Memᴰ.head e) = Memᴰ.head e
    left (y ∷ l) (Memᴰ.tail n) = Memᴰ.tail (left l n)

last-Memᴰ : (l : List RoutingCandidate) (c : RoutingCandidate) → Memᴰ c (l ++ c ∷ [])
last-Memᴰ [] c = Memᴰ.head refl
last-Memᴰ (y ∷ l) c = Memᴰ.tail (last-Memᴰ l c)

-- No two candidates have one key.
abbrev pub HasDistinctKeys : List RoutingCandidate → Type 0
HasDistinctKeys [] = Unit {0}
HasDistinctKeys (c ∷ cs) = All (λ d. key c ≢ key d) cs × HasDistinctKeys cs

keys-differ :
    (c : RoutingCandidate) (cs : List RoutingCandidate)
    → IsWellFormed c
    → All IsWellFormed cs
    → All (λ d. same_pair d c ≡ false) cs
    → All (λ d. key c ≢ key d) cs
keys-differ c [] w ws h = tt
keys-differ c (d ∷ cs) w ws h = (
  λ e.
      let (p, m) = key_injective c d w ws.0 e in
      ground (
        arith,
        h.0,
        ap (λ (t : Text). text_eq t d.provider_id) p,
        ap (λ (t : Text). text_eq t d.model_id) m,
        text_eq_refl d.provider_id,
        text_eq_refl d.model_id,
      ),
  keys-differ c cs w ws.1 h.1,
)

unique-HasDistinctKeys :
    (previous cs : List RoutingCandidate)
    → All IsWellFormed cs
    → IsUnique previous cs
    → HasDistinctKeys cs
unique-HasDistinctKeys previous [] w done = tt
unique-HasDistinctKeys previous (c ∷ cs) w (next a u) = (
  keys-differ c cs w.0 w.1 (seen-differs (previous ++ c ∷ []) cs c (last-Memᴰ previous c) u),
  unique-HasDistinctKeys (previous ++ c ∷ []) cs w.1 u,
)

-- In a profile that passes validation, no two candidates have the same key.
pub validate-HasDistinctKeys :
    (p : RoutingProfile) → validate p ≡ ok tt → HasDistinctKeys p.candidates
validate-HasDistinctKeys p h =
    let v = validate-IsValid p h in unique-HasDistinctKeys [] p.candidates v.well_formed v.unique
