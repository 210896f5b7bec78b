-- ===== src/Protection/Starts.antt =====
-- The next chunk of a text that crates/linguamesh-domain/src/lib.rs splits is a start of it.
use linguamesh_core.Base.{
  ◌≡◌, ◌≢◌, ◌≤◌, ◌<◌, ◌⊎◌, inl, inr, refl, sym, ap, ◌∙◌, subst, ℕ, ◌-◌, Bool, true, Option, none,
  some, List, [], ◌∷◌, ◌++◌, Text, len, len_utf8, len-append, starts_with, ok, >>=-eq-ok, leb,
  leb→le, ltb→lt, if◌then◌else◌, Bool-cases, Option-cases, arith,
}
use mathlib.Core.List.{append_assoc, append-nil}
use linguamesh_core.Protection.{
  take_bytes, put_char, find, crosses, or_empty, crossing_span, last_break, semantic_boundary,
  checked_piece, cut_window, next_chunk,
}

abbrev pub IsStart : Text → Text → Type 0
IsStart p s = (r : Text) × (s ≡ p ++ r)

pub IsStart-trans : (p q s : Text) → IsStart p q → IsStart q s → IsStart p s
IsStart-trans p q s (r, e) (t, f) = (r ++ t, f ∙ rw (e, append_assoc))

len-IsStart : (p s : Text) → IsStart p s → len p ≤ len s
len-IsStart p s (r, e) = ground (arith, len-append p r, ap len e)

pub take_bytes-IsStart :
    (n : ℕ) (s : Text) → IsStart (take_bytes n s) s × (len (take_bytes n s) ≤ n)
take_bytes-IsStart n [] = (([], refl), ground arith)
take_bytes-IsStart n (c ∷ s) = elim (Bool-cases (leb (len_utf8 c) n)) [
  | inl e ↦
      let ((r, f), b) = take_bytes-IsStart (n - len_utf8 c) s in
      rw e ((r, ap (λ t. c ∷ t) f), ground (arith, leb→le (len_utf8 c) n e))
  | inr e ↦ rw e ((c ∷ s, refl), ground arith)
]

either_match :
    (b : Bool) (o : Option Text) (p : Text)
    → (if b then some [] else o) ≡ some p
    → ([] ≡ p) ⊎ (o ≡ some p)
either_match b o p h = ground arith

put_char-IsStart :
    (c : ℕ) (s : Text) (o : Option Text) (p : Text)
    → put_char c o ≡ some p
    → ((q : Text) → o ≡ some q → IsStart q s)
    → IsStart p (c ∷ s)
put_char-IsStart c s none p h k = cc
put_char-IsStart c s (some q) p h k =
    let (r, e) = k q refl in
    subst (λ t. IsStart t (c ∷ s)) {x = c ∷ q} (ground arith) (r, ap (λ t. c ∷ t) e)

find-IsStart : (token s p : Text) → find token s ≡ some p → IsStart p s
find-IsStart token [] p h = subst (λ q. IsStart q []) {x = []} (ground arith) ([], refl)
find-IsStart token (c ∷ s) p h =
    elim (either_match (starts_with (c ∷ s) token) (put_char c (find token s)) p h) [
      | inl e ↦ subst (λ q. IsStart q (c ∷ s)) e (c ∷ s, refl)
      | inr e ↦ put_char-IsStart c s (find token s) p e (λ q. find-IsStart token s q)
    ]

crossing_span-IsStart :
    (tokens : List Text) (rest : Text) (limit : ℕ) (front token : Text)
    → crossing_span tokens rest limit ≡ some (front, token)
    → IsStart front rest × (len front < limit)
crossing_span-IsStart [] rest limit front token h = cc
crossing_span-IsStart (t ∷ tokens) rest limit front token h =
    elim (Bool-cases (crosses limit t (find t rest))) [
      | inl e ↦
          found t rest limit front token (find t rest) (λ q. find-IsStart t rest q) e (rw e at h)
      | inr e ↦ crossing_span-IsStart tokens rest limit front token (rw e at h)
    ]
  where
    found :
        (t rest : Text) (limit : ℕ) (front token : Text) (o : Option Text)
        → ((q : Text) → o ≡ some q → IsStart q rest)
        → crosses limit t o ≡ true
        → ◌≡◌ {A = Option (Text × Text)} (some (or_empty o, t)) (some (front, token))
        → IsStart front rest × (len front < limit)
    found t rest limit front token none k e f = cc
    found t rest limit front token (some q) k e f =
        subst (λ r. IsStart r rest × (len r < limit)) {x = q} (ground arith)
          (k q refl, ground (arith, ltb→lt (len q) limit))

last_break-IsStart : (s p : Text) → last_break s ≡ some p → IsStart p s
last_break-IsStart [] p h = cc
last_break-IsStart (c ∷ s) p h = elim (Option-cases (last_break s)) [
  | inl e ↦ subst (λ q. IsStart q (c ∷ s)) {x = c ∷ []} (ground arith) (s, refl)
  | inr (q, e) ↦
      put_char-IsStart c s (last_break s) p (ground arith) (λ q'. last_break-IsStart s q')
]

semantic_boundary-IsStart : (s : Text) → IsStart (semantic_boundary s) s
unfolding semantic_boundary
semantic_boundary-IsStart s = elim (Option-cases (last_break s)) [
  | inl e ↦ rw e ([], sym (append-nil s))
  | inr (p, e) ↦ rw e (last_break-IsStart s p e)
]

cut_window-IsStart :
    (tokens : List Text) (rest window window' : Text) (max_bytes : ℕ)
    → IsStart window rest
    → len window ≤ max_bytes
    → cut_window max_bytes window (crossing_span tokens rest (len window)) ≡ ok window'
    → IsStart window' rest × (len window' ≤ max_bytes)
cut_window-IsStart tokens rest window window' max_bytes i b h =
    inside (crossing_span tokens rest (len window))
      (λ f t. crossing_span-IsStart tokens rest (len window) f t) h
  where
    inside :
        (o : Option (Text × Text))
        → ((f t : Text) → o ≡ some (f, t) → IsStart f rest × (len f < len window))
        → cut_window max_bytes window o ≡ ok window'
        → IsStart window' rest × (len window' ≤ max_bytes)
    inside none k e =
        subst (λ w. IsStart w rest × (len w ≤ max_bytes)) {x = window} (ground arith) (i, b)
    inside (some (f, t)) k e =
        let (l, m) = k f t refl in
        subst (λ w. IsStart w rest × (len w ≤ max_bytes)) {x = f} (ground arith) (l, ground arith)

checked_piece-eq : (p q : Text) → checked_piece p ≡ ok q → p ≡ q
checked_piece-eq p q h = ground arith

checked_piece-ne : (p q : Text) → checked_piece p ≡ ok q → q ≢ []
checked_piece-ne [] q h e = cc
checked_piece-ne (c ∷ p) q h e = cc

pub next_chunk-IsStart :
    (rest piece : Text) (max_bytes : ℕ) (tokens : List Text)
    → next_chunk rest max_bytes tokens ≡ ok piece
    → IsStart piece rest × (len piece ≤ max_bytes) × (piece ≢ [])
unfolding next_chunk
next_chunk-IsStart rest piece max_bytes tokens h =
    let (window', e, f) =
      >>=-eq-ok
        (cut_window max_bytes (take_bytes max_bytes rest)
          (crossing_span tokens rest (len (take_bytes max_bytes rest))))
        _ h in
    let (i, b) = take_bytes-IsStart max_bytes rest in
    let (i', b') =
      cut_window-IsStart tokens rest (take_bytes max_bytes rest) window' max_bytes i b e in
    let j = semantic_boundary-IsStart window' in
    let same : semantic_boundary window' ≡ piece =
      checked_piece-eq (semantic_boundary window') piece f in
    (
      subst (λ q. IsStart q rest) same (IsStart-trans _ _ _ j i'),
      ground (arith, len-IsStart (semantic_boundary window') window' j, ap len same),
      checked_piece-ne (semantic_boundary window') piece f,
    )
