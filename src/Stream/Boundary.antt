-- ===== src/Stream/Boundary.antt =====
-- Where the decoders of the adapters' streams cut: `find_event_boundary` in
-- crates/linguamesh-provider-openai/src/lib.rs.
use linguamesh_core.Base.{
  ◌≡◌, ◌≤◌, ◌⊎◌, inl, inr, refl, ap, ◌∙◌, subst, ℕ, true, false, Option, none, some, [], ◌∷◌, ◌++◌,
  length, length-append, Text, starts_with, contains, ◌==◌, Bool-cases, Option-cases, or-eq-false,
  arith,
}
use linguamesh_core.Protection.{find, put_char, behind}
use linguamesh_core.Protection.Boundaries.{behind-append}
use linguamesh_core.Protection.Restorer.Markers.{find-occurs}
use linguamesh_core.Stream.{Bytes, line_feeds, return_line_feeds, find_event_boundary}

starts_with-extend : (s p t : Text) → starts_with s p ≡ true → starts_with (s ++ t) p ≡ true
starts_with-extend [] [] [] h = refl
starts_with-extend [] [] (c ∷ t) h = refl
starts_with-extend [] (d ∷ p) t h = cc
starts_with-extend (c ∷ s) [] t h = refl
starts_with-extend (c ∷ s) (d ∷ p) t h = ground (arith, starts_with-extend s p t)

not-starts_with-extend :
    (s p t : Text) → length p ≤ length s → starts_with s p ≡ false → starts_with (s ++ t) p ≡ false
not-starts_with-extend [] [] t l h = cc
not-starts_with-extend [] (d ∷ p) t l h = absurd (ground arith)
not-starts_with-extend (c ∷ s) [] t l h = cc
not-starts_with-extend (c ∷ s) (d ∷ p) t l h = elim (Bool-cases (c == d)) [
  | inl e ↦ rw e (not-starts_with-extend s p t (ground arith) (rw e at h))
  | inr e ↦ rw e refl
]

length-found : (p s q : Text) → find p s ≡ some q → length p ≤ length s
length-found p s q h =
    let (r, e) = find-occurs p s q h in
    ground (arith, ap length e, length-append (q ++ p) r, length-append q p)

put_char-some :
    (c : ℕ) (o : Option Text) (q : Text) → put_char c o ≡ some q → (r : Text) × (o ≡ some r)
put_char-some c none q h = cc
put_char-some c (some r) q h = (r, refl)

-- A match in the front of a text stays the first one when the text grows.
find-extend : (p s t q : Text) → find p s ≡ some q → find p (s ++ t) ≡ some q
find-extend [] [] [] q h = h
find-extend [] [] (c ∷ t) q h = h
find-extend (d ∷ p) [] t q h = cc
find-extend p (c ∷ s) t q h = elim (Bool-cases (starts_with (c ∷ s) p)) [
  | inl e ↦ rw (starts_with-extend (c ∷ s) p t e) (rw e at h)
  | inr e ↦
      let short = length-found p (c ∷ s) q h in
      let later : put_char c (find p s) ≡ some q = rw e at h in
      let (r, f) = put_char-some c (find p s) q later in
      rw (not-starts_with-extend (c ∷ s) p t short e, find-extend p s t r f) (rw f at later)
]

-- A text that does not contain another one has no match of it.
contains-found : (p s q : Text) → find p s ≡ some q → contains s p ≡ true
contains-found [] [] q h = refl
contains-found (d ∷ p) [] q h = cc
contains-found p (c ∷ s) q h = elim (Bool-cases (starts_with (c ∷ s) p)) [
  | inl e ↦ rw e refl
  | inr e ↦
      let (r, f) = put_char-some c (find p s) q (rw e at h) in rw (e, contains-found p s r f) refl
]

none-found : (p s : Text) → contains s p ≡ false → find p s ≡ none
none-found p s h = elim (Option-cases (find p s)) [
  | inl e ↦ e
  | inr (q, e) ↦ absurd (ground (arith, h, contains-found p s q e))
]

contains-front : (p s t : Text) → contains (s ++ t) p ≡ false → contains s p ≡ false
contains-front p s t h = elim (Bool-cases (contains s p)) [
  | inl e ↦ absurd (ground (arith, contains-extend p s t e))
  | inr e ↦ e
]
  where
    contains-extend : (p s t : Text) → contains s p ≡ true → contains (s ++ t) p ≡ true
    contains-extend [] [] [] k = refl
    contains-extend [] [] (c ∷ t) k = refl
    contains-extend (d ∷ p) [] t k = cc
    contains-extend p (c ∷ s) t k = elim (Bool-cases (starts_with (c ∷ s) p)) [
      | inl e ↦ rw (starts_with-extend (c ∷ s) p t e) refl
      | inr e ↦ ground (arith, contains-extend p s t (rw e at k))
    ]

contains-back : (p s t : Text) → contains (s ++ t) p ≡ false → contains t p ≡ false
contains-back p [] t h = h
contains-back p (c ∷ s) t h =
    contains-back p s t (or-eq-false (starts_with (c ∷ (s ++ t)) p) (contains (s ++ t) p) h).1

-- The stream keeps to one of the two delimiters.
abbrev pub HasOneDelimiter : Bytes → Type 0
HasOneDelimiter s = (contains s line_feeds ≡ false) ⊎ (contains s return_line_feeds ≡ false)

pub HasOneDelimiter-back : (s t : Bytes) → HasOneDelimiter (s ++ t) → HasOneDelimiter t
HasOneDelimiter-back s t (inl h) = inl (contains-back line_feeds s t h)
HasOneDelimiter-back s t (inr h) = inr (contains-back return_line_feeds s t h)

-- What follows a boundary does not move it.
pub find_event_boundary-extend :
    (s t : Bytes) (b : Bytes × Bytes)
    → HasOneDelimiter (s ++ t)
    → find_event_boundary s ≡ some b
    → find_event_boundary (s ++ t) ≡ some b
unfolding find_event_boundary
find_event_boundary-extend s t b h k = elim (Option-cases (find line_feeds s)) [
  | inr (p, e) ↦ rw (find-extend line_feeds s t p e) (rw e at k)
  | inl e ↦ elim (Option-cases (find return_line_feeds s)) [
    | inl f ↦ absurd (nothing (rw (e, f) at k))
    | inr (p, f) ↦ rw (no_line_feeds h f, find-extend return_line_feeds s t p f) (rw (e, f) at k)
  ]
]
  where
    nothing : ◌≡◌ {A = Option (Bytes × Bytes)} none (some b) → ⊥
    nothing m = cc

    no_line_feeds :
        {p : Bytes}
        → HasOneDelimiter (s ++ t)
        → find return_line_feeds s ≡ some p
        → find line_feeds (s ++ t) ≡ none
    no_line_feeds (inl m) f = none-found line_feeds (s ++ t) m
    no_line_feeds {p} (inr m) f = absurd (
        ground
          (arith, contains-found return_line_feeds s p f, contains-front return_line_feeds s t m))

-- An event, its delimiter and what is behind it make up the buffer.
pub find_event_boundary-append :
    (s : Bytes) (b : Bytes × Bytes)
    → find_event_boundary s ≡ some b
    → (s ≡ (b.0 ++ b.1) ++ behind (b.0 ++ b.1) s) × (2 ≤ length b.1)
unfolding find_event_boundary
find_event_boundary-append s b k = elim (Option-cases (find line_feeds s)) [
  | inr (p, e) ↦ at_delimiter line_feeds p e (omega arith) (rw e at k)
  | inl e ↦ elim (Option-cases (find return_line_feeds s)) [
    | inl f ↦ absurd (nothing (rw (e, f) at k))
    | inr (p, f) ↦ at_delimiter return_line_feeds p f (omega arith) (rw (e, f) at k)
  ]
]
  where
    nothing : ◌≡◌ {A = Option (Bytes × Bytes)} none (some b) → ⊥
    nothing m = cc

    at_delimiter :
        (d p : Bytes)
        → find d s ≡ some p
        → 2 ≤ length d
        → ◌≡◌ {A = Option (Bytes × Bytes)} (some (p, d)) (some b)
        → (s ≡ (b.0 ++ b.1) ++ behind (b.0 ++ b.1) s) × (2 ≤ length b.1)
    at_delimiter d p e l m =
        let (r, f) = find-occurs d s p e in
        let rest : behind (p ++ d) s ≡ r = ap (behind (p ++ d)) f ∙ behind-append (p ++ d) r in
        subst
          (λ (x : Bytes × Bytes). (s ≡ (x.0 ++ x.1) ++ behind (x.0 ++ x.1) s) × (2 ≤ length x.1))
          {x = (p, d)} (ground arith) (rw rest f, l)
