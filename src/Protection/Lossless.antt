-- ===== src/Protection/Lossless.antt =====
-- The protection of a source text by `build_protected_source` in
-- crates/linguamesh-domain/src/lib.rs loses nothing.
use mathlib.Core.List.{append_assoc, append-nil}
use linguamesh_core.Protection.Boundaries.{behind-append}
use linguamesh_core.Protection.{ProtectedSpan, ProtectedSource, behind}
use linguamesh_core.Protection.Candidates.{IsPlaced, collect_candidates-IsPlaced}
use linguamesh_core.Glossary.{Glossary}
use linguamesh_core.Base.{
  len-append, subst, sort_by-perm, All-perm, sort_by, >>-eq-ok, ◌∙◌, sym, ok, Option, len_utf8, ◌≡◌,
  ◌≢◌, ◌≤◌, ◌<◌, inl, inr, refl, ap, ℕ, zero, suc, ◌+◌, Bool, true, false, ◌&&◌, List, [], ◌∷◌,
  ◌++◌, All, Text, len, len_utf8_bounds, length, length-append, starts_with, contains, ltb, leb,
  ltb→lt, leb→le, Bool-cases, and-eq-true, arith,
}
use linguamesh_core.Protection.Restorer.Pieces.{markers, source_of, Piece, plain, marker}
use linguamesh_core.Protection.Building.{
  compare_candidates, collect_candidates, check_glossary, token_of, replace_loop,
  build_protected_source, ProtectedCandidate, start_of, end_of, select_loop, free_token,
}

-- The text that the pieces stand for in the source.
abbrev pub originals_of : List Piece → Text
originals_of [] = []
originals_of (plain t ∷ ps) = t ++ originals_of ps
originals_of (marker s ∷ ps) = s.source ++ originals_of ps

-- Of two starts of a text, the one with fewer bytes is a start of the other.
shorter_start : (a b x y : Text) → a ++ x ≡ b ++ y → len a ≤ len b → (gap : Text) × (b ≡ a ++ gap)
shorter_start [] b x y e h = (b, refl)
shorter_start (c ∷ a) [] x y e h = absurd (ground (arith, h, len_utf8_bounds c))
shorter_start (c ∷ a) (d ∷ b) x y e h =
    let same : c ≡ d = ground arith in
    let rest : a ++ x ≡ b ++ y = ground arith in
    let (gap, f) = shorter_start a b x y rest (ground (arith, h, ap len_utf8 same)) in
    (gap, rw same (ap (λ t. d ∷ t) f))

-- Each candidate begins behind the end of the one before it, and has a character.
abbrev pub AreApart : ℕ → List ProtectedCandidate → Type 0
AreApart last_end [] = Unit
AreApart last_end (c ∷ cs) = (last_end ≤ start_of c) × (c.original ≢ []) × AreApart (end_of c) cs

module _ (is_alphanumeric : ℕ → Bool) where
  select_loop-lem :
      (P : ProtectedCandidate → Type 0) (last_end : ℕ) (cs : List ProtectedCandidate)
      → All P cs
      → All P (select_loop is_alphanumeric last_end cs)
        × AreApart last_end (select_loop is_alphanumeric last_end cs)
  unfolding select_loop
  select_loop-lem P last_end [] h = (tt, tt)
  select_loop-lem P last_end (c ∷ cs) h =
      elim (Bool-cases (ltb (start_of c) (end_of c) && leb last_end (start_of c))) [
        | inl e ↦
            let (a, b) = and-eq-true (ltb (start_of c) (end_of c)) (leb last_end (start_of c)) e in
            let (p, q) = select_loop-lem P (end_of c) cs h.1 in
            rw (select_loop, e)
              (
                (h.0, p),
                (
                  leb→le last_end (start_of c) b,
                  filled c.original (ltb→lt (start_of c) (end_of c) a),
                  q,
                ),
              )
        | inr e ↦ rw (select_loop, e) (select_loop-lem P last_end cs h.1)
      ]
    where
      filled : (t : Text) → len c.front < len c.front + len t → t ≢ []
      filled [] k m = absurd (ground arith)
      filled (d ∷ t) k m = cc

  contains-length : (s p : Text) → contains s p ≡ true → length p ≤ length s
  contains-length [] [] h = ground arith
  contains-length [] (d ∷ p) h = cc
  contains-length (c ∷ s) p h = elim (Bool-cases (starts_with (c ∷ s) p)) [
    | inl e ↦ starts_with-length (c ∷ s) p e
    | inr e ↦ ground (arith, contains-length s p (rw e at h))
  ]
    where
      starts_with-length : (t q : Text) → starts_with t q ≡ true → length q ≤ length t
      starts_with-length t [] k = ground arith
      starts_with-length [] (d ∷ q) k = cc
      starts_with-length (c ∷ t) (d ∷ q) k =
          ground (arith, starts_with-length t q (and-eq-true _ (starts_with t q) k).1)

  free_token-lem :
      (fuel : ℕ) (source token : Text)
      → length source < length token + fuel
      → contains source (free_token is_alphanumeric fuel source token) ≡ false
  unfolding free_token
  free_token-lem zero source token h = elim (Bool-cases (contains source token)) [
    | inl e ↦ absurd (ground (arith, contains-length source token e))
    | inr e ↦ e
  ]
  free_token-lem (suc fuel) source token h = elim (Bool-cases (contains source token)) [
    | inl e ↦
        rw (free_token, e)
          (free_token-lem fuel source (token ++ (b'_' ∷ []))
            (ground (arith, length-append token (b'_' ∷ []))))
    | inr e ↦ rw (free_token, e) e
  ]

-- What a protected text says of the source, from a position on.
pub record Protects (source rest : Text) (text : Text) (spans : List ProtectedSpan) : Type 0 where
  pub pieces : List Piece
  pub shown : source_of pieces ≡ text
  pub marked : markers pieces ≡ spans
  pub kept : originals_of pieces ≡ rest
  pub fresh : All (λ s. (contains source s.token ≡ false) × (s.source ≢ [])) spans

last_piece :
    (source cursor rest : Text)
    → source ≡ cursor ++ rest
    → Protects source rest (behind cursor source) []
last_piece source cursor rest e =
    let same : behind cursor source ≡ rest = ap (behind cursor) e ∙ behind-append cursor rest in
    record {
      pieces = plain (behind cursor source) ∷ [];
      shown = append-nil (behind cursor source);
      marked = refl;
      kept = append-nil (behind cursor source) ∙ same;
      fresh = tt;
    }

next_piece :
    (source rest gap after text : Text) (s : ProtectedSpan) (spans : List ProtectedSpan)
    → rest ≡ gap ++ (s.source ++ after)
    → contains source s.token ≡ false
    → s.source ≢ []
    → Protects source after text spans
    → Protects source rest (gap ++ (s.token ++ text)) (s ∷ spans)
next_piece source rest gap after text s spans e h k p = record {
  pieces = plain gap ∷ marker s ∷ p.pieces;
  shown = ap (λ t. gap ++ (s.token ++ t)) p.shown;
  marked = ap (λ l. s ∷ l) p.marked;
  kept = ap (λ t. gap ++ (s.source ++ t)) p.kept ∙ sym e;
  fresh = ((h, k), p.fresh);
}

module _ (is_alphanumeric : ℕ → Bool) where
  token_of-lem :
      (index : ℕ) (source : Text) → contains source (token_of is_alphanumeric index source) ≡ false
  token_of-lem index source =
      free_token-lem is_alphanumeric (suc (length source)) source _ (ground arith)

  replace_loop-Protects :
      (source : Text) (index : ℕ) (cursor rest : Text) (cs : List ProtectedCandidate)
      → source ≡ cursor ++ rest
      → All (IsPlaced source) cs
      → AreApart (len cursor) cs
      → Protects source rest
          (replace_loop is_alphanumeric source index cursor cs).0
          (replace_loop is_alphanumeric source index cursor cs).1
  unfolding replace_loop
  replace_loop-Protects source index cursor rest [] e h k = last_piece source cursor rest e
  replace_loop-Protects source index cursor rest (c ∷ cs) e ((after, f), h) (b, m, k) =
      let (gap, g) = shorter_start cursor c.front rest (c.original ++ after) (sym e ∙ f) b in
      let gap_is : behind cursor c.front ≡ gap = ap (behind cursor) g ∙ behind-append cursor gap in
      let whole : rest ≡ gap ++ (c.original ++ after) =
        sym (behind-append cursor rest)
        ∙ ap (behind cursor) (
            sym e
            ∙ f
            ∙ ap (λ t. t ++ (c.original ++ after)) g
            ∙ append_assoc cursor gap (c.original ++ after))
        ∙ behind-append cursor (gap ++ (c.original ++ after)) in
      let later =
        replace_loop-Protects source (suc index) (c.front ++ c.original) after cs
          (f ∙ sym (append_assoc c.front c.original after)) h
          (subst (λ n. AreApart n cs) (sym (len-append c.front c.original)) k) in
      next_piece source rest (behind cursor c.front) after _
        (record {
          token = token_of is_alphanumeric index source;
          source = c.original;
          replacement = c.replacement;
        })
        _ (whole ∙ ap (λ t. t ++ (c.original ++ after)) (sym gap_is)) (token_of-lem index source) m
        later

  -- A protected text is the source with a marker in place of each span: with the originals of the
  -- spans put back it is the source. Each span has a character, and no token stands in the source.
  pub build_protected_source-Protects :
      (source : Text) (source_locale target_locale : Option Text) (glossary : Option Glossary)
      (self : ProtectedSource)
      → build_protected_source is_alphanumeric source source_locale target_locale glossary ≡ ok self
      → Protects source source self.text self.spans
  unfolding build_protected_source
  build_protected_source-Protects source source_locale target_locale glossary self h =
      let (_, e) = >>-eq-ok (check_glossary is_alphanumeric glossary) _ h in
      let found = collect_candidates is_alphanumeric source source_locale target_locale glossary in
      let sorted = sort_by (compare_candidates is_alphanumeric) found in
      let placed =
        All-perm (IsPlaced source) (sort_by-perm (compare_candidates is_alphanumeric) found) (
          collect_candidates-IsPlaced is_alphanumeric source source_locale target_locale
            glossary) in
      let (a, b) = select_loop-lem is_alphanumeric (IsPlaced source) 0 sorted placed in
      let replaced =
        replace_loop is_alphanumeric source 0 [] (select_loop is_alphanumeric 0 sorted) in
      subst (λ (s : ProtectedSource). Protects source source s.text s.spans)
        {x = record { text = replaced.0; spans = replaced.1 }} {y = self} (ground arith)
        (replace_loop-Protects source 0 [] source (select_loop is_alphanumeric 0 sorted) refl a b)
