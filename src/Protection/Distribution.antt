-- ===== src/Protection/Distribution.antt =====
-- How `chunks` of crates/linguamesh-domain/src/lib.rs gives the protected spans to the chunks.
use linguamesh_core.Base.{
  ◌≡◌, refl, sym, ap, ◌∙◌, subst, ℕ, ◌+◌, Bool, true, false, ◌&&◌, not, List, [], ◌∷◌, All, any,
  map, Text, contains, Result, ok, >>=-eq-ok, >>-eq-ok, reject_if, reject_if-eq-ok, Bool-cases, inl,
  inr, arith,
}
use linguamesh_core.Protection.{
  ProtectedSpan, ProtectedSource, ChunkingError, protected_span_split, Flagged, claim, distribute,
  chunks, split_protected_text,
}
use linguamesh_core.Protection.Boundaries.{IsSplit, split_protected_text-IsSplit}

abbrev pub bit : Bool → ℕ
bit true = 1
bit false = 0

abbrev pub chunk_texts : List ProtectedSource → List Text
chunk_texts cs = map (λ c. c.text) cs

-- How many texts contain a token.
abbrev pub count_containing : Text → List Text → ℕ
count_containing token [] = 0
count_containing token (t ∷ ts) = bit (contains t token) + count_containing token ts

-- The flags behind some pieces count, for each span, the pieces that contain its token.
abbrev Counts : List Text → Flagged → Flagged → Type 0
Counts ps [] [] = Unit
Counts ps [] (y ∷ ys) = ⊥
Counts ps (x ∷ xs) [] = ⊥
Counts ps ((s, u) ∷ xs) ((s', u') ∷ ys) =
    (s ≡ s') × (count_containing s.token ps + bit u ≡ bit u') × Counts ps xs ys

Counts-refl : (xs : Flagged) → Counts [] xs xs
Counts-refl [] = tt
Counts-refl ((s, u) ∷ xs) = (refl, ground arith, Counts-refl xs)

claim-Counts :
    (p : Text) (xs ys : Flagged) (mine : List ProtectedSpan)
    → claim p xs ≡ ok (mine, ys)
    → Counts (p ∷ []) xs ys
unfolding claim
claim-Counts p [] ys mine h = subst (λ y. Counts (p ∷ []) [] y) {x = []} (ground arith) tt
claim-Counts p ((s, u) ∷ xs) ys mine h =
    let (free, f) = >>-eq-ok (reject_if (contains p s.token && u) protected_span_split) _ h in
    let ((mine', ys'), g, k) = >>=-eq-ok (claim p xs) _ f in
    let rest : Counts (p ∷ []) xs ys' = claim-Counts p xs ys' mine' g in
    elim (Bool-cases (contains p s.token)) [
      | inl e ↦
          subst (λ y. Counts (p ∷ []) ((s, u) ∷ xs) y) {x = (s, true) ∷ ys'} (ground (arith, e, k))
            (refl, ground (arith, e, free), rest)
      | inr e ↦
          subst (λ y. Counts (p ∷ []) ((s, u) ∷ xs) y) {x = (s, u) ∷ ys'} (ground (arith, e, k))
            (refl, ground (arith, e), rest)
    ]

Counts-trans :
    (p : Text) (ps : List Text) (xs ys zs : Flagged)
    → Counts (p ∷ []) xs ys
    → Counts ps ys zs
    → Counts (p ∷ ps) xs zs
Counts-trans p ps [] [] [] h k = tt
Counts-trans p ps [] [] (z ∷ zs) h k = k
Counts-trans p ps [] (y ∷ ys) zs h k = absurd h
Counts-trans p ps (x ∷ xs) [] zs h k = absurd h
Counts-trans p ps (x ∷ xs) (y ∷ ys) [] h k = absurd k
Counts-trans p ps ((s, u) ∷ xs) ((s', u') ∷ ys) ((s'', u'') ∷ zs) (a, b, c) (d, e, f) =
    (a ∙ d, ground (arith, ap (λ x. count_containing x.token ps) a), Counts-trans p ps xs ys zs c f)

distribute-Counts :
    (ps : List Text) (xs ys : Flagged) (cs : List ProtectedSource)
    → distribute ps xs ≡ ok (cs, ys)
    → (chunk_texts cs ≡ ps) × Counts ps xs ys
unfolding distribute
distribute-Counts [] xs ys cs h =
    subst (λ c. (chunk_texts c ≡ []) × Counts [] xs ys) {x = []} (ground arith)
      (refl, subst (λ y. Counts [] xs y) {x = xs} (ground arith) (Counts-refl xs))
distribute-Counts (p ∷ ps) xs ys cs h =
    let ((mine, xs'), e, f) = >>=-eq-ok (claim p xs) _ h in
    let ((cs', ys'), g, k) = >>=-eq-ok (distribute ps xs') _ f in
    let (same, rest) = distribute-Counts ps xs' ys' cs' g in
    subst (λ c. (chunk_texts c ≡ p ∷ ps) × Counts (p ∷ ps) xs ys)
      {x = record { text = p; spans = mine } ∷ cs'} (ground arith)
      (
        ap (λ t. p ∷ t) same,
        subst (λ y. Counts (p ∷ ps) xs y) {x = ys'} (ground arith)
            (Counts-trans p ps xs xs' ys' (claim-Counts p xs xs' mine e) rest),
      )

sources-injective :
    {a b : List ProtectedSource}
    → ◌≡◌ {A = Result (List ProtectedSource) ChunkingError} (ok a) (ok b)
    → a ≡ b
sources-injective h = cc

once :
    (ps : List Text) (spans : List ProtectedSpan) (ys : Flagged)
    → Counts ps (map (λ s. (s, false)) spans) ys
    → any (λ f. not f.1) ys ≡ false
    → All (λ s. count_containing s.token ps ≡ 1) spans
once ps [] ys h k = tt
once ps (s ∷ spans) [] h k = absurd h
once ps (s ∷ spans) ((s', true) ∷ ys) h k = (ground arith, once ps spans ys h.2 k)
once ps (s ∷ spans) ((s', false) ∷ ys) h k = cc

-- The chunks of a protected source make up its text within the limit, and the token of each of its
-- spans stands in exactly one of them.
pub chunks-IsSplit :
    (self : ProtectedSource) (max_bytes : ℕ) (cs : List ProtectedSource)
    → chunks self max_bytes ≡ ok cs
    → IsSplit self.text max_bytes (chunk_texts cs)
      × All (λ s. count_containing s.token (chunk_texts cs) ≡ 1) self.spans
unfolding chunks
chunks-IsSplit self max_bytes cs h =
    let (ps, e, f) =
      >>=-eq-ok (split_protected_text self.text max_bytes (map (λ s. s.token) self.spans)) _ h in
    let ((cs', ys), g, k) = >>=-eq-ok (distribute ps (map (λ s. (s, false)) self.spans)) _ f in
    let (all_used, l) = >>-eq-ok (reject_if (any (λ y. not y.1) ys) protected_span_split) _ k in
    let (same, counted) = distribute-Counts ps (map (λ s. (s, false)) self.spans) ys cs' g in
    let texts : chunk_texts cs ≡ ps = ap chunk_texts (sym (sources-injective l)) ∙ same in
    rw texts (
      split_protected_text-IsSplit self.text max_bytes (map (λ s. s.token) self.spans) ps e,
      once ps self.spans ys counted (reject_if-eq-ok _ _ all_used),
    )
