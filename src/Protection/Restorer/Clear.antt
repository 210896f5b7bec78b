-- ===== src/Protection/Restorer/Clear.antt =====
-- Where the restorer of crates/linguamesh-domain/src/lib.rs finds a marker in a text whose other
-- parts have no `_`.
use linguamesh_core.Base.{
  ◌≡◌, inl, inr, ◌<◌, refl, ap, ◌∙◌, ℕ, Bool, true, false, ◌||◌, Option, none, some, [], ◌∷◌, ◌++◌,
  All, Text, len, len-append, len_utf8_bounds, starts_with, ◌==◌, Bool-cases, arith,
}
use mathlib.Core.List.{append-nil}
use linguamesh_core.Protection.{ProtectedSpan, Flagged, put_char, find}
use linguamesh_core.Protection.Restorer.{Marker, found, under, earlier, next_marker}

-- A text without the character that every token begins with.
abbrev pub IsClear : Text → Type 0
IsClear t = All (λ c. (c == b'_') ≡ false) t

-- A token begins with `_`.
abbrev pub IsToken : Text → Type 0
IsToken [] = ⊥
IsToken (c ∷ t) = c ≡ b'_'

abbrev pub prepend : Text → Option Text → Option Text
prepend p none = none
prepend p (some q) = some (p ++ q)

find_clear : (p t s : Text) → IsClear p → IsToken t → find t (p ++ s) ≡ prepend p (find t s)
find_clear [] t s h k = same (find t s)
  where
    same : (o : Option Text) → o ≡ prepend [] o
    same none = refl
    same (some q) = refl
find_clear (c ∷ p) [] s h k = absurd k
find_clear (c ∷ p) (d ∷ t) s h k =
    let differs : (c == d) ≡ false = ground (arith, h.0, k) in
    rw (differs, find_clear p (d ∷ t) s h.1 k) (pushed (find (d ∷ t) s))
  where
    pushed : (o : Option Text) → put_char c (prepend p o) ≡ prepend (c ∷ p) o
    pushed none = refl
    pushed (some q) = refl

starts_with-append : (t r : Text) → starts_with (t ++ r) t ≡ true
starts_with-append [] [] = refl
starts_with-append [] (c ∷ r) = refl
starts_with-append (c ∷ t) r = ground (arith, starts_with-append t r)

pub find-append : (p t r : Text) → IsClear p → IsToken t → find t (p ++ (t ++ r)) ≡ some p
find-append p [] r h k = absurd k
find-append p (c ∷ t) r h k = find_clear p (c ∷ t) ((c ∷ t) ++ r) h k ∙ here
  where
    here : prepend p (find (c ∷ t) ((c ∷ t) ++ r)) ≡ some p
    here = rw (starts_with-append (c ∷ t) r) (ap some (append-nil p))

-- Neither token is a start of the other.
abbrev pub Unrelated : Text → Text → Type 0
Unrelated t u = (starts_with t u || starts_with u t) ≡ false

not-starts_with-append : (t u r : Text) → Unrelated t u → starts_with (t ++ r) u ≡ false
not-starts_with-append [] [] r h = ground arith
not-starts_with-append [] (d ∷ u) r h = ground arith
not-starts_with-append (c ∷ t) [] r h = ground arith
not-starts_with-append (c ∷ t) (d ∷ u) r h = elim (Bool-cases (c == d)) [
  | inl e ↦ ground (arith, not-starts_with-append t u r)
  | inr e ↦ rw e refl
]

-- Found behind a text, or nowhere.
abbrev pub Behind : Text → Option Text → Type 0
Behind p none = Unit
Behind p (some q) = len p < len q

prepend-Behind : (p : Text) (c : ℕ) (o : Option Text) → Behind p (prepend p (put_char c o))
prepend-Behind p c none = tt
prepend-Behind p c (some q) = ground (arith, len-append p (c ∷ q), len_utf8_bounds c)

pub find-Behind :
    (p t u r : Text)
    → IsClear p
    → IsToken t
    → IsToken u
    → Unrelated t u
    → Behind p (find u (p ++ (t ++ r)))
find-Behind p [] u r h k l f = absurd k
find-Behind p (c ∷ t) u r h k l f =
    rw (find_clear p u ((c ∷ t) ++ r) h l, not-starts_with-append (c ∷ t) u r f)
      (prepend-Behind p c (find u (t ++ r)))

abbrev pub BehindMarker : Text → Option Marker → Type 0
BehindMarker p none = Unit
BehindMarker p (some m) = len p < len m.front

earlier-BehindMarker :
    (p : Text) (s : ProtectedSpan) (u : Bool) (rest : Flagged) (o : Option Text)
    (o' : Option Marker)
    → Behind p o
    → BehindMarker p o'
    → BehindMarker p (earlier (found s u rest o) (under (s, u) o'))
earlier-BehindMarker p s u rest none none h k = tt
earlier-BehindMarker p s u rest none (some m) h k = k
earlier-BehindMarker p s u rest (some q) none h k = h
earlier-BehindMarker p s u rest (some q) (some m) h k = ground (arith, h, k)

next_marker-BehindMarker :
    (p text : Text) (spans : Flagged)
    → All (λ x. Behind p (find x.0.token text)) spans
    → BehindMarker p (next_marker text spans)
unfolding next_marker
next_marker-BehindMarker p text [] h = tt
next_marker-BehindMarker p text ((s, u) ∷ spans) h =
    earlier-BehindMarker p s u spans (find s.token text) (next_marker text spans) h.0
      (next_marker-BehindMarker p text spans h.1)

earlier-found :
    (p : Text) (s : ProtectedSpan) (u : Bool) (rest : Flagged) (o : Option Marker)
    → BehindMarker p o
    → earlier (found s u rest (some p)) (under (s, u) o) ≡ found s u rest (some p)
earlier-found p s u rest none h = refl
earlier-found p s u rest (some m) h = ground (arith, h)

earlier-under :
    (p : Text) (x : ProtectedSpan × Bool) (rest : Flagged) (o : Option Text) (m : Marker)
    → Behind p o
    → m.front ≡ p
    → earlier (found x.0 x.1 rest o) (under x (some m)) ≡ under x (some m)
earlier-under p x rest none m h e = refl
earlier-under p x rest (some q) m h e = ground (arith, h, ap len e)

-- The first marker is that of the span whose token stands behind the clear text.
pub next_marker-found :
    (p text : Text) (before after : Flagged) (s : ProtectedSpan) (u : Bool)
    → All (λ x. Behind p (find x.0.token text)) before
    → All (λ x. Behind p (find x.0.token text)) after
    → find s.token text ≡ some p
    → next_marker text (before ++ ((s, u) ∷ after))
      ≡ some (record { front = p; span = s; used = u; marked = before ++ ((s, true) ∷ after) })
unfolding next_marker
next_marker-found p text [] after s u h k e =
    rw e
      (earlier-found p s u after (next_marker text after) (next_marker-BehindMarker p text after k))
next_marker-found p text ((s', u') ∷ before) after s u h k e =
    rw (next_marker-found p text before after s u h.1 k e) (
      earlier-under p (s', u') (before ++ ((s, u) ∷ after)) (find s'.token text)
        (record { front = p; span = s; used = u; marked = before ++ ((s, true) ∷ after) }) h.0 refl)

-- No token stands in a clear text.
find-clear_none : (t p : Text) → IsClear p → IsToken t → find t p ≡ none
find-clear_none [] p h k = absurd k
find-clear_none (d ∷ t) [] h k = refl
find-clear_none (d ∷ t) (c ∷ p) h k =
    let differs : (c == d) ≡ false = ground (arith, h.0, k) in
    rw (differs, find-clear_none (d ∷ t) p h.1 k) refl

pub next_marker-none :
    (p : Text) (spans : Flagged)
    → IsClear p
    → All (λ x. IsToken x.0.token) spans
    → next_marker p spans ≡ none
unfolding next_marker
next_marker-none p [] h k = refl
next_marker-none p ((s, u) ∷ spans) h k =
    rw (find-clear_none s.token p h k.0, next_marker-none p spans h k.1) refl
