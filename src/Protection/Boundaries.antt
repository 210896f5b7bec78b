-- ===== src/Protection/Boundaries.antt =====
-- What the loop that splits a text in crates/linguamesh-domain/src/lib.rs gives: whole chunks in
-- bounds that make up the text.
use linguamesh_core.Base.{
  ◌≡◌, ◌≢◌, ◌≤◌, ◌⊎◌, inl, inr, refl, sym, ap, ◌∙◌, subst, ℕ, zero, suc, List, [], ◌∷◌, ◌++◌, All,
  Text, len, length, is_empty, Result, ok, >>=-eq-ok, leb, leb→le, ◌==◌, if◌then◌else◌, Bool-cases,
  arith,
}
use mathlib.Core.List.{append-nil}
use linguamesh_core.Protection.{ChunkingError, next_chunk, behind, split_loop, split_protected_text}
use linguamesh_core.Protection.Starts.{next_chunk-IsStart}

pub behind-append : (p r : Text) → behind p (p ++ r) ≡ r
behind-append [] r = refl
behind-append (x ∷ p) r = behind-append p r

-- A chunk has a character and is within the limit.
pub record IsChunk (max_bytes : ℕ) (piece : Text) : Type 0 where
  pub not_empty : piece ≢ []
  pub bounded : len piece ≤ max_bytes

abbrev pub join : List Text → Text
join [] = []
join (t ∷ ts) = t ++ join ts

length-behind : (p r : Text) → length r ≤ length (p ++ r)
length-behind [] r = ground arith
length-behind (x ∷ p) r = ground (arith, length-behind p r)

shorter : (p r : Text) (fuel : ℕ) → p ≢ [] → length (p ++ r) ≤ suc fuel → length r ≤ fuel
shorter [] r fuel h k = absurd (h refl)
shorter (x ∷ p) r fuel h k = ground (arith, length-behind p r)

no_pieces : (n : ℕ) (pieces : List Text) → [] ≡ pieces → (join pieces ≡ []) × All (IsChunk n) pieces
no_pieces n [] h = (refl, tt)
no_pieces n (p ∷ pieces) h = cc

split_loop-join :
    (fuel : ℕ) (rest : Text) (max_bytes : ℕ) (tokens pieces : List Text)
    → length rest ≤ fuel
    → split_loop fuel rest max_bytes tokens ≡ ok pieces
    → (join pieces ≡ rest) × All (IsChunk max_bytes) pieces
unfolding split_loop
split_loop-join zero [] max_bytes tokens pieces b h = no_pieces max_bytes pieces (ground arith)
split_loop-join zero (c ∷ rest) max_bytes tokens pieces b h = absurd (ground arith)
split_loop-join (suc fuel) [] max_bytes tokens pieces b h =
    no_pieces max_bytes pieces (ground arith)
split_loop-join (suc fuel) (c ∷ rest) max_bytes tokens pieces b h =
    let (piece, e, f) = >>=-eq-ok (next_chunk (c ∷ rest) max_bytes tokens) _ h in
    let (pieces', g, k) =
      >>=-eq-ok (split_loop fuel (behind piece (c ∷ rest)) max_bytes tokens) _ f in
    let ((r, i), l, m) = next_chunk-IsStart (c ∷ rest) piece max_bytes tokens e in
    let same : behind piece (c ∷ rest) ≡ r = ap (behind piece) i ∙ behind-append piece r in
    let (j, all) =
      split_loop-join fuel r max_bytes tokens pieces'
        (shorter piece r fuel m (subst (λ t. length t ≤ suc fuel) i b)) (rw same at g) in
    subst (λ ps. (join ps ≡ c ∷ rest) × All (IsChunk max_bytes) ps) {x = piece ∷ pieces'}
      (ground arith) (ap (λ t. piece ++ t) j ∙ sym i, (record { not_empty = m; bounded = l }, all))

-- Pieces that make up a text, none above the limit, each with a character unless it is empty.
abbrev pub IsSplit : Text → ℕ → List Text → Type 0
IsSplit text max_bytes pieces =
    (join pieces ≡ text)
    × All (λ piece. len piece ≤ max_bytes) pieces
    × ((text ≡ []) ⊎ All (λ piece. piece ≢ []) pieces)

pieces_bounded :
    (n : ℕ) (ps : List Text) → All (IsChunk n) ps → All (λ p. len p ≤ n) ps × All (λ p. p ≢ []) ps
pieces_bounded n [] h = (tt, tt)
pieces_bounded n (p ∷ ps) h =
    let (a, b) = pieces_bounded n ps h.1 in ((h.0.bounded, a), (h.0.not_empty, b))

single-IsSplit : (t : Text) (n : ℕ) → len t ≤ n → IsSplit t n (t ∷ [])
single-IsSplit [] n h = (refl, (h, tt), inl refl)
single-IsSplit (c ∷ t) n h = (append-nil (c ∷ t), (h, tt), inr ((λ e. cc), tt))

split_loop-IsSplit :
    (text : Text) (max_bytes : ℕ) (tokens pieces : List Text)
    → split_loop (length text) text max_bytes tokens ≡ ok pieces
    → IsSplit text max_bytes pieces
split_loop-IsSplit text max_bytes tokens pieces h =
    let (j, all) = split_loop-join (length text) text max_bytes tokens pieces (ground arith) h in
    let (a, b) = pieces_bounded max_bytes pieces all in (j, a, inr b)

ok-injective : {a b : List Text} → ◌≡◌ {A = Result (List Text) ChunkingError} (ok a) (ok b) → a ≡ b
ok-injective h = cc

-- The chunks of a text that is split make it up, none is above the limit, and, unless the text is
-- empty, each has a character.
pub split_protected_text-IsSplit :
    (text : Text) (max_bytes : ℕ) (tokens pieces : List Text)
    → split_protected_text text max_bytes tokens ≡ ok pieces
    → IsSplit text max_bytes pieces
unfolding split_protected_text
split_protected_text-IsSplit text max_bytes tokens pieces h = elim (Bool-cases (max_bytes == 0)) [
  | inl z ↦ absurd (ground arith)
  | inr z ↦ from_text text (rw z at h)
]
  where
    from_text :
        (t : Text)
        → (if is_empty t
            then ok ([] ∷ [])
            else if leb (len t) max_bytes
            then ok (t ∷ [])
            else split_loop (length t) t max_bytes tokens)
          ≡ ok pieces
        → IsSplit t max_bytes pieces
    from_text [] k =
        subst (IsSplit [] max_bytes) (ok-injective k) (single-IsSplit [] max_bytes (ground arith))
    from_text (c ∷ t) k = elim (Bool-cases (leb (len (c ∷ t)) max_bytes)) [
      | inl e ↦
          subst (IsSplit (c ∷ t) max_bytes) (ok-injective (rw e at k))
            (single-IsSplit (c ∷ t) max_bytes (leb→le (len (c ∷ t)) max_bytes e))
      | inr e ↦ split_loop-IsSplit (c ∷ t) max_bytes tokens pieces (rw e at k)
    ]
