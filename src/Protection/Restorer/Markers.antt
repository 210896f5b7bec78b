-- ===== src/Protection/Restorer/Markers.antt =====
-- The marker that the restorer of crates/linguamesh-domain/src/lib.rs takes next.
use linguamesh_core.Base.{
  ◌≡◌, ◌⊎◌, inl, inr, refl, ap, ◌∙◌, subst, Bool, true, false, Option, none, some, List, [], ◌∷◌,
  ◌++◌, Permᴰ, Permᴰ-refl, Text, length, starts_with, Bool-cases, arith,
}
use mathlib.Core.List.{append_assoc}
use linguamesh_core.Protection.{ProtectedSpan, Flagged, find, put_char, behind}
use linguamesh_core.Protection.Boundaries.{behind-append}
use linguamesh_core.Protection.Success.{starts_with-IsStart}
use linguamesh_core.Protection.Restorer.{Marker, found, under, earlier, next_marker}

-- The spans whose markers are still to come.
abbrev pub unseen : Flagged → List ProtectedSpan
unseen [] = []
unseen ((s, true) ∷ rest) = unseen rest
unseen ((s, false) ∷ rest) = s ∷ unseen rest

append-behind :
    (p q s : Text) → ((r : Text) × (s ≡ (p ++ q) ++ r)) → s ≡ p ++ (q ++ behind (p ++ q) s)
append-behind p q s (r, e) =
    let b : behind (p ++ q) s ≡ r = ap (behind (p ++ q)) e ∙ behind-append (p ++ q) r in
    rw b (e ∙ append_assoc p q r)

pub find-occurs : (token s p : Text) → find token s ≡ some p → (r : Text) × (s ≡ (p ++ token) ++ r)
find-occurs [] [] p h = ([], subst (λ q. [] ≡ (q ++ []) ++ []) {x = []} (ground arith) refl)
find-occurs (t ∷ token) [] p h = cc
find-occurs token (c ∷ s) p h = elim (Bool-cases (starts_with (c ∷ s) token)) [
  | inl e ↦
      let (r, f) = starts_with-IsStart (c ∷ s) token e in
      let same : [] ≡ p = ground (arith, h, e) in
      subst (λ q. (r : Text) × (c ∷ s ≡ (q ++ token) ++ r)) same (r, f)
  | inr e ↦ later (find token s) refl (λ q. find-occurs token s q) (rw e at h)
]
  where
    later :
        (o : Option Text)
        → find token s ≡ o
        → ((q : Text) → find token s ≡ some q → (r : Text) × (s ≡ (q ++ token) ++ r))
        → put_char c o ≡ some p
        → (r : Text) × (c ∷ s ≡ (p ++ token) ++ r)
    later none e f k = cc
    later (some q) e g k =
        let (r, f) = g q e in
        subst (λ q'. (r : Text) × (c ∷ s ≡ (q' ++ token) ++ r)) {x = c ∷ q} (ground arith)
          (r, ap (λ t. c ∷ t) f)

-- What a marker says of the text and the spans it was taken from.
pub record IsMarker (text : Text) (spans : Flagged) (m : Marker) : Type 0 where
  pub found_at : find m.span.token text ≡ some m.front
  pub same_length : length m.marked ≡ length spans
  pub takes : m.used ≡ false → Permᴰ (unseen spans) (m.span ∷ unseen m.marked)

under-IsMarker :
    (text : Text) (s : ProtectedSpan) (u : Bool) (rest : Flagged) (o : Option Marker) (m : Marker)
    → ((m' : Marker) → o ≡ some m' → IsMarker text rest m')
    → under (s, u) o ≡ some m
    → IsMarker text ((s, u) ∷ rest) m
under-IsMarker text s u rest none m k h = cc
under-IsMarker text s u rest (some m') m k h =
    subst (IsMarker text ((s, u) ∷ rest)) {x = below} (ground arith) (record {
      found_at = i.found_at;
      same_length = ground (arith, i.same_length);
      takes = moved u i.takes;
    })
  where
    i : IsMarker text rest m'
    i = k m' refl

    below : Marker
    below = record { front = m'.front; span = m'.span; used = m'.used; marked = (s, u) ∷ m'.marked }

    moved :
        (v : Bool)
        → (m'.used ≡ false → Permᴰ (unseen rest) (m'.span ∷ unseen m'.marked))
        → m'.used ≡ false
        → Permᴰ (unseen ((s, v) ∷ rest)) (m'.span ∷ unseen ((s, v) ∷ m'.marked))
    moved true t e = t e
    moved false t e = Permᴰ.trans (Permᴰ.cons refl (t e)) (Permᴰ.swap refl refl)

found-IsMarker :
    (text : Text) (s : ProtectedSpan) (u : Bool) (rest : Flagged) (o : Option Text) (m : Marker)
    → find s.token text ≡ o
    → found s u rest o ≡ some m
    → IsMarker text ((s, u) ∷ rest) m
found-IsMarker text s u rest none m e h = cc
found-IsMarker text s u rest (some p) m e h =
    subst (IsMarker text ((s, u) ∷ rest)) {x = here} (ground arith)
      (record { found_at = e; same_length = refl; takes = free u })
  where
    here : Marker
    here = record { front = p; span = s; used = u; marked = (s, true) ∷ rest }

    free : (v : Bool) → v ≡ false → Permᴰ (unseen ((s, v) ∷ rest)) (s ∷ unseen rest)
    free true k = cc
    free false k = Permᴰ-refl (s ∷ unseen rest)

earlier-cases :
    (o o' : Option Marker) (m : Marker) → earlier o o' ≡ some m → (o ≡ some m) ⊎ (o' ≡ some m)
earlier-cases none o' m h = inr h
earlier-cases (some a) none m h = inl h
earlier-cases (some a) (some b) m h = ground arith

pub next_marker-IsMarker :
    (text : Text) (spans : Flagged) (m : Marker)
    → next_marker text spans ≡ some m
    → IsMarker text spans m
unfolding next_marker
next_marker-IsMarker text [] m h = cc
next_marker-IsMarker text ((s, u) ∷ rest) m h =
    elim (earlier-cases (found s u rest (find s.token text)) (under (s, u) (next_marker text rest))
      m h) [
        | inl e ↦ found-IsMarker text s u rest (find s.token text) m refl e
        | inr e ↦
            under-IsMarker text s u rest (next_marker text rest) m
              (λ m'. next_marker-IsMarker text rest m') e
      ]

-- The text up to the end of a marker, and what is behind it.
pub marker-append :
    (text : Text) (spans : Flagged) (m : Marker)
    → IsMarker text spans m
    → text ≡ m.front ++ (m.span.token ++ behind (m.front ++ m.span.token) text)
marker-append text spans m i =
    append-behind m.front m.span.token text (find-occurs m.span.token text m.front i.found_at)
