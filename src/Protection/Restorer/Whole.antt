-- ===== src/Protection/Restorer/Whole.antt =====
-- The restorer of crates/linguamesh-domain/src/lib.rs on a response that keeps every marker.
use linguamesh_core.Base.{
  ◌≡◌, ◌≤◌, refl, sym, ap, ◌∙◌, subst, suc, ◌-◌, Bool, true, false, List, [], ◌∷◌, ◌++◌, All, map,
  Text, len, length, contains, ok, arith,
}
use linguamesh_core.Protection.{ProtectedSpan, Flagged, find, take_bytes, behind}
use linguamesh_core.Protection.Starts.{take_bytes-IsStart}
use linguamesh_core.Protection.Boundaries.{behind-append}
use linguamesh_core.Protection.Restorer.{
  protected_token_prefix, append_plain_text, longest_marker_prefix_suffix, release,
}
use linguamesh_core.Protection.Restorer.Markers.{unseen}
use linguamesh_core.Protection.Restorer.Pieces.{Piece, plain, marker}
use linguamesh_core.Protection.Restorer.Clear.{IsClear, IsToken, Unrelated, Behind, find-Behind}

abbrev pub tokens : Flagged → List Text
tokens spans = map (λ x. x.0.token) spans

-- Every text begins as a token does, and none is a start of another.
abbrev pub ArePrefixFree : List Text → Type 0
ArePrefixFree [] = Unit
ArePrefixFree (t ∷ ts) = IsToken t × All (λ u. Unrelated t u) ts × ArePrefixFree ts

-- The pieces have, between clear texts, one marker for each of the spans that are not used yet.
abbrev pub Answers : Flagged → List Piece → Type 0
Answers spans [] = unseen spans ≡ []
Answers spans (plain t ∷ ps) = IsClear t × Answers spans ps
Answers spans (marker s ∷ ps) =
    (before : Flagged) × (after : Flagged) × (spans ≡ before ++ ((s, false) ∷ after))
    × Answers (before ++ ((s, true) ∷ after)) ps

pub IsClear-append : (p q : Text) → IsClear p → IsClear q → IsClear (p ++ q)
IsClear-append [] q h k = k
IsClear-append (c ∷ p) q h k = (h.0, IsClear-append p q h.1 k)

pub IsClear-parts : (p q : Text) → IsClear (p ++ q) → IsClear p × IsClear q
IsClear-parts [] q h = (tt, h)
IsClear-parts (c ∷ p) q h = let (a, b) = IsClear-parts p q h.1 in ((h.0, a), b)

pub append_plain_text-IsClear : (p : Text) → IsClear p → append_plain_text p ≡ ok p
unfolding append_plain_text
append_plain_text-IsClear p h = rw (no_prefix p h) refl
  where
    no_prefix : (q : Text) → IsClear q → contains q protected_token_prefix ≡ false
    no_prefix [] k = refl
    no_prefix (c ∷ q) k = rw (k.0, no_prefix q k.1) refl

pub release_clear :
    (spans : Flagged) (p : Text)
    → IsClear p
    → (a : Text) × (b : Text) × (a ++ b ≡ p)
      × (release (record { spans = spans; pending = p })
          ≡ ok (a, record { spans = spans; pending = b }))
unfolding release
release_clear spans p h =
    let n = len p - longest_marker_prefix_suffix p spans in
    let a = take_bytes n p in
    let ((b, e), _) = take_bytes-IsStart n p in
    let rest : behind a p ≡ b = ap (behind a) e ∙ behind-append a b in
    let clear = (IsClear-parts a b (subst IsClear e h)).0 in
    (a, b, sym e, rw (append_plain_text-IsClear a clear, rest) refl)

-- What the spans beside one are to it.
abbrev pub Apart : Text → ProtectedSpan × Bool → Type 0
Apart t x = IsToken x.0.token × Unrelated t x.0.token

All-tokens :
    (t : Text) (xs : Flagged)
    → All (λ u. Unrelated t u) (tokens xs)
    → ArePrefixFree (tokens xs)
    → All (Apart t) xs
All-tokens t [] h k = tt
All-tokens t (x ∷ xs) h k = ((k.0, h.0), All-tokens t xs h.1 k.2)

at_span :
    (P : Text → Type 0) (before after : Flagged) (s : ProtectedSpan) (u : Bool)
    → All P (tokens (before ++ ((s, u) ∷ after)))
    → P s.token
at_span P [] after s u h = h.0
at_span P (x ∷ before) after s u h = at_span P before after s u h.1

pub apart :
    (before after : Flagged) (s : ProtectedSpan) (u : Bool)
    → ArePrefixFree (tokens (before ++ ((s, u) ∷ after)))
    → IsToken s.token × All (Apart s.token) before × All (Apart s.token) after
apart [] after s u h = (h.0, tt, All-tokens s.token after h.1 h.2)
apart (x ∷ before) after s u (h, k, l) =
    let (a, b, c) = apart before after s u l in
    let this : Unrelated x.0.token s.token =
      at_span (λ t. Unrelated x.0.token t) before after s u k in
    (a, ((h, ground arith), b), c)

pub tokens-marked :
    (before after : Flagged) (s : ProtectedSpan)
    → tokens (before ++ ((s, false) ∷ after)) ≡ tokens (before ++ ((s, true) ∷ after))
tokens-marked [] after s = refl
tokens-marked (x ∷ before) after s = ap (λ l. x.0.token ∷ l) (tokens-marked before after s)

pub length-unseen : (spans : Flagged) → length (unseen spans) ≤ length spans
length-unseen [] = ground arith
length-unseen ((s, true) ∷ spans) = ground (arith, length-unseen spans)
length-unseen ((s, false) ∷ spans) = ground (arith, length-unseen spans)

pub length-unseen-marked :
    (before after : Flagged) (s : ProtectedSpan)
    → length (unseen (before ++ ((s, false) ∷ after)))
      ≡ suc (length (unseen (before ++ ((s, true) ∷ after))))
length-unseen-marked [] after s = refl
length-unseen-marked ((x, true) ∷ before) after s = length-unseen-marked before after s
length-unseen-marked ((x, false) ∷ before) after s = ap suc (length-unseen-marked before after s)

pub All-Behind :
    (p t r : Text) (xs : Flagged)
    → IsClear p
    → IsToken t
    → All (Apart t) xs
    → All (λ x. Behind p (find x.0.token (p ++ (t ++ r)))) xs
All-Behind p t r [] h k l = tt
All-Behind p t r (x ∷ xs) h k l =
    (find-Behind p t x.0.token r h k l.0.0 l.0.1, All-Behind p t r xs h k l.1)
