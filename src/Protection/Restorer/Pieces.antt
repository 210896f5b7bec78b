-- ===== src/Protection/Restorer/Pieces.antt =====
-- What the restorer of crates/linguamesh-domain/src/lib.rs makes of the deltas of a response.
use linguamesh_core.Base.{
  ◌≡◌, refl, sym, ap, ◌∙◌, false, List, [], ◌∷◌, ◌++◌, Permᴰ, Permᴰ-refl, Text, contains, ok,
  >>-eq-ok, reject_if, arith,
}
use mathlib.Core.List.{append_assoc, append-nil}
use linguamesh_core.Protection.{ProtectedSpan, Flagged}
use linguamesh_core.Protection.Restorer.{
  protected_token_prefix, invalid_marker, Marker, append_plain_text,
}
use linguamesh_core.Protection.Restorer.Markers.{unseen, IsMarker}

-- A response as plain text and markers.
pub data Piece : Type 0 where
  plain : Text → Piece
  marker : ProtectedSpan → Piece

-- The text that the pieces stand for in the response, and in the output.
abbrev pub source_of : List Piece → Text
source_of [] = []
source_of (plain t ∷ ps) = t ++ source_of ps
source_of (marker s ∷ ps) = s.token ++ source_of ps

abbrev pub output_of : List Piece → Text
output_of [] = []
output_of (plain t ∷ ps) = t ++ output_of ps
output_of (marker s ∷ ps) = s.replacement ++ output_of ps

abbrev pub markers : List Piece → List ProtectedSpan
markers [] = []
markers (plain t ∷ ps) = markers ps
markers (marker s ∷ ps) = s ∷ markers ps

source_of-append : (ps qs : List Piece) → source_of (ps ++ qs) ≡ source_of ps ++ source_of qs
source_of-append [] qs = refl
source_of-append (plain t ∷ ps) qs = rw (source_of-append ps qs, append_assoc) refl
source_of-append (marker s ∷ ps) qs = rw (source_of-append ps qs, append_assoc) refl

output_of-append : (ps qs : List Piece) → output_of (ps ++ qs) ≡ output_of ps ++ output_of qs
output_of-append [] qs = refl
output_of-append (plain t ∷ ps) qs = rw (output_of-append ps qs, append_assoc) refl
output_of-append (marker s ∷ ps) qs = rw (output_of-append ps qs, append_assoc) refl

markers-append : (ps qs : List Piece) → markers (ps ++ qs) ≡ markers ps ++ markers qs
markers-append [] qs = refl
markers-append (plain t ∷ ps) qs = markers-append ps qs
markers-append (marker s ∷ ps) qs = ap (λ l. s ∷ l) (markers-append ps qs)

append-Permᴰ :
    {a b : List ProtectedSpan} (l : List ProtectedSpan) → Permᴰ a b → Permᴰ (l ++ a) (l ++ b)
append-Permᴰ [] h = h
append-Permᴰ (s ∷ l) h = Permᴰ.cons refl (append-Permᴰ l h)

pub regroup : (f k t p s s' : Text) → s ≡ f ++ (k ++ s') → s' ≡ t ++ p → s ≡ ((f ++ k) ++ t) ++ p
regroup f k t p s s' e e' =
    e ∙ ap (λ x. f ++ (k ++ x)) e' ∙ sym (append_assoc (f ++ k) t p ∙ append_assoc f k (t ++ p))

-- Some pieces account for a step: they make up the text that it took, and its output, and they
-- use up markers.
pub record Accounts (text output : Text) (before after : List ProtectedSpan) : Type 0 where
  pub pieces : List Piece
  pub taken : source_of pieces ≡ text
  pub given : output_of pieces ≡ output
  pub used_up : Permᴰ before (markers pieces ++ after)

pub Accounts-append :
    {s t o p : Text} {a b c : List ProtectedSpan}
    → Accounts s o a b
    → Accounts t p b c
    → Accounts (s ++ t) (o ++ p) a c
Accounts-append {c} x y = record {
  pieces = x.pieces ++ y.pieces;
  taken = rw (source_of-append x.pieces y.pieces, x.taken, y.taken) refl;
  given = rw (output_of-append x.pieces y.pieces, x.given, y.given) refl;
  used_up =
      rw (markers-append x.pieces y.pieces, append_assoc)
        (Permᴰ.trans x.used_up (append-Permᴰ (markers x.pieces) y.used_up));
}

pub plain-Accounts : (t : Text) (a : List ProtectedSpan) → Accounts t t a a
plain-Accounts t a = record {
  pieces = plain t ∷ [];
  taken = append-nil t;
  given = append-nil t;
  used_up = Permᴰ-refl a;
}

pub append_plain_text-eq : (t u : Text) → append_plain_text t ≡ ok u → t ≡ u
unfolding append_plain_text
append_plain_text-eq t u h =
    let (a, b) = >>-eq-ok (reject_if (contains t protected_token_prefix) invalid_marker) _ h in
    ground arith

-- A turn of the loop for a marker.
pub marker-Accounts :
    (text : Text) (spans : Flagged) (m : Marker)
    → IsMarker text spans m
    → m.used ≡ false
    → Accounts
        (m.front ++ m.span.token)
        (m.front ++ m.span.replacement)
        (unseen spans)
        (unseen m.marked)
marker-Accounts text spans m i e = record {
  pieces = plain m.front ∷ marker m.span ∷ [];
  taken = ap (λ t. m.front ++ t) (append-nil m.span.token);
  given = ap (λ t. m.front ++ t) (append-nil m.span.replacement);
  used_up = i.takes e;
}
