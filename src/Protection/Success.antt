-- ===== src/Protection/Success.antt =====
-- When the split of crates/linguamesh-domain/src/lib.rs succeeds.
use linguamesh_core.Base.{
  ◌≡◌, ◌≢◌, ◌≤◌, ◌<◌, inl, inr, refl, ap, subst, ℕ, zero, suc, ◌+◌, ◌-◌, true, false, Option, none,
  some, List, [], ◌∷◌, ◌++◌, All, Text, len, len_utf8, len_utf8_bounds, length, is_empty,
  starts_with, ok, leb, ltb→lt, ◌==◌, if◌then◌else◌, Bool-cases, and-eq-true, Option-cases, arith,
}
use linguamesh_core.Protection.{
  take_bytes, put_char, find, crosses, or_empty, crossing_span, last_break, semantic_boundary,
  checked_piece, cut_window, next_chunk, behind, split_loop, split_protected_text,
}
use linguamesh_core.Protection.Starts.{IsStart}

pub starts_with-IsStart : (s t : Text) → starts_with s t ≡ true → IsStart t s
starts_with-IsStart s [] h = (s, refl)
starts_with-IsStart [] (d ∷ t) h = cc
starts_with-IsStart (c ∷ s) (d ∷ t) h =
    let (e, f) = and-eq-true (c == d) (starts_with s t) h in
    let (r, g) = starts_with-IsStart s t f in
    let same : c ≡ d = ground (arith, e) in (r, rw (same, g))

len-take_bytes : (n : ℕ) (t r : Text) → len t ≤ n → len t ≤ len (take_bytes n (t ++ r))
len-take_bytes n [] r h = ground arith
len-take_bytes n (c ∷ t) r h =
    let fits : leb (len_utf8 c) n ≡ true = ground arith in
    rw fits (ground (arith, len-take_bytes (n - len_utf8 c) t r (ground arith)))

take_bytes-ne : (n c : ℕ) (s : Text) → 4 ≤ n → take_bytes n (c ∷ s) ≢ []
take_bytes-ne n c s h =
    let fits : leb (len_utf8 c) n ≡ true = ground (arith, len_utf8_bounds c) in rw fits (λ e. cc)

find-nil :
    (token : Text) (c : ℕ) (s : Text)
    → find token (c ∷ s) ≡ some []
    → starts_with (c ∷ s) token ≡ true
find-nil token c s h = elim (Bool-cases (starts_with (c ∷ s) token)) [
  | inl e ↦ e
  | inr e ↦ absurd (put_char-ne c (find token s) (rw e at h))
]
  where
    put_char-ne : (d : ℕ) (o : Option Text) → put_char d o ≡ some [] → ⊥
    put_char-ne d none k = cc
    put_char-ne d (some q) k = ground arith

crossing_span-find :
    (n : ℕ) (tokens : List Text) (rest : Text) (limit : ℕ) (front token : Text)
    → All (λ t. len t ≤ n) tokens
    → crossing_span tokens rest limit ≡ some (front, token)
    → (len token ≤ n) × (find token rest ≡ some front) × (limit < len front + len token)
crossing_span-find n [] rest limit front token a h = cc
crossing_span-find n (t ∷ tokens) rest limit front token a h =
    elim (Bool-cases (crosses limit t (find t rest))) [
      | inl e ↦ found (find t rest) refl e (rw e at h)
      | inr e ↦ crossing_span-find n tokens rest limit front token a.1 (rw e at h)
    ]
  where
    found :
        (o : Option Text)
        → find t rest ≡ o
        → crosses limit t o ≡ true
        → ◌≡◌ {A = Option (Text × Text)} (some (or_empty o, t)) (some (front, token))
        → (len token ≤ n) × (find token rest ≡ some front) × (limit < len front + len token)
    found none k e f = cc
    found (some q) k e f =
        let same : q ≡ front = ground arith in
        let this : t ≡ token = ground arith in
        subst (λ u. (len u ≤ n) × (find u rest ≡ some front) × (limit < len front + len u)) this
          (subst (λ v. (len t ≤ n) × (find t rest ≡ some v) × (limit < len v + len t)) same
            (a.0, k, ground (arith, ltb→lt limit (len q + len t))))

cut_window_ok :
    (n c : ℕ) (s : Text) (tokens : List Text)
    → 4 ≤ n
    → All (λ t. len t ≤ n) tokens
    → (w : Text) × (cut_window n
          (take_bytes n (c ∷ s))
          (crossing_span tokens (c ∷ s) (len (take_bytes n (c ∷ s))))
        ≡ ok w)
      × (w ≢ [])
cut_window_ok n c s tokens h a =
    inside (crossing_span tokens (c ∷ s) (len (take_bytes n (c ∷ s))))
      (λ f t. crossing_span-find n tokens (c ∷ s) (len (take_bytes n (c ∷ s))) f t a)
  where
    inside :
        (o : Option (Text × Text))
        → ((f t : Text)
            → o ≡ some (f, t)
            → (len t ≤ n)
              × (find t (c ∷ s) ≡ some f)
              × (len (take_bytes n (c ∷ s)) < len f + len t))
        → (w : Text) × (cut_window n (take_bytes n (c ∷ s)) o ≡ ok w) × (w ≢ [])
    inside none k = (take_bytes n (c ∷ s), refl, take_bytes-ne n c s h)
    inside (some ([], t)) k =
        let (b, e, l) = k [] t refl in
        let (r, g) = starts_with-IsStart (c ∷ s) t (find-nil t c s e) in
        absurd (ground (arith, l, ap (λ v. len (take_bytes n v)) g, len-take_bytes n t r b))
    inside (some (d ∷ f, t)) k =
        let (b, e, l) = k (d ∷ f) t refl in (d ∷ f, ground arith, (λ u. cc))

semantic_boundary-ne : (s : Text) → s ≢ [] → semantic_boundary s ≢ []
unfolding semantic_boundary
semantic_boundary-ne [] h e = h refl
semantic_boundary-ne (c ∷ s) h e = elim (Option-cases (last_break s)) [
  | inl k ↦ ground arith
  | inr (p, k) ↦ ground arith
]

next_chunk_ok :
    (n c : ℕ) (s : Text) (tokens : List Text)
    → 4 ≤ n
    → All (λ t. len t ≤ n) tokens
    → (p : Text) × (next_chunk (c ∷ s) n tokens ≡ ok p)
unfolding next_chunk
next_chunk_ok n c s tokens h a =
    let (w, e, f) = cut_window_ok n c s tokens h a in
    (semantic_boundary w, rw e (checked_ok (semantic_boundary w) (semantic_boundary-ne w f)))
  where
    checked_ok : (p : Text) → p ≢ [] → checked_piece p ≡ ok p
    checked_ok [] k = absurd (k refl)
    checked_ok (d ∷ p) k = refl

split_loop_ok :
    (fuel n : ℕ) (s : Text) (tokens : List Text)
    → 4 ≤ n
    → All (λ t. len t ≤ n) tokens
    → (ps : List Text) × (split_loop fuel s n tokens ≡ ok ps)
unfolding split_loop
split_loop_ok zero n s tokens h a = ([], refl)
split_loop_ok (suc fuel) n [] tokens h a = ([], refl)
split_loop_ok (suc fuel) n (c ∷ s) tokens h a =
    let (p, e) = next_chunk_ok n c s tokens h a in
    let (ps, f) = split_loop_ok fuel n (behind p (c ∷ s)) tokens h a in (p ∷ ps, rw e (rw f refl))

-- A limit of at least four bytes, which no token is above, is enough to split any text.
pub split_protected_text_ok :
    (text : Text) (max_bytes : ℕ) (tokens : List Text)
    → 4 ≤ max_bytes
    → All (λ t. len t ≤ max_bytes) tokens
    → (pieces : List Text) × (split_protected_text text max_bytes tokens ≡ ok pieces)
unfolding split_protected_text
split_protected_text_ok text n tokens h a =
    let positive : (n == 0) ≡ false = ground arith in rw positive (from_text text)
  where
    from_text :
        (t : Text)
        → (pieces : List Text) × ((if is_empty t
              then ok ([] ∷ [])
              else if leb (len t) n
              then ok (t ∷ [])
              else split_loop (length t) t n tokens)
            ≡ ok pieces)
    from_text [] = ([] ∷ [], refl)
    from_text (c ∷ t) = elim (Bool-cases (leb (len (c ∷ t)) n)) [
      | inl e ↦ ((c ∷ t) ∷ [], rw e refl)
      | inr e ↦ let (ps, f) = split_loop_ok (length (c ∷ t)) n (c ∷ t) tokens h a in (ps, rw e f)
    ]
