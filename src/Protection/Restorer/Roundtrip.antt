-- ===== src/Protection/Restorer/Roundtrip.antt =====
-- The restorer of crates/linguamesh-domain/src/lib.rs gives back what a response with every marker
-- stands for.
use linguamesh_core.Protection.Restorer.Pieces.{Piece, plain, marker, source_of, output_of}
use linguamesh_core.Base.{
  zero, arith, ◌≤◌, length, not, map, any, List, ◌≡◌, refl, sym, ap, ◌∙◌, subst, ℕ, suc, true,
  false, [], ◌∷◌, ◌++◌, All, Text, Result, ok, ◌>>=◌,
}
use mathlib.Core.List.{append-nil, append_assoc}
use linguamesh_core.Protection.{ProtectedSource, ProtectedSpan, Flagged, behind}
use linguamesh_core.Protection.Boundaries.{behind-append}
use linguamesh_core.Protection.Restorer.{
  restorer, restore, push, finish, ProtectedTextError, ProtectedTextRestorer, pass, restore_loop,
}
use linguamesh_core.Protection.Restorer.Markers.{unseen}
use linguamesh_core.Protection.Restorer.Clear.{
  IsClear, IsToken, find-append, next_marker-found, next_marker-none,
}
use linguamesh_core.Protection.Restorer.Whole.{
  tokens-marked, length-unseen-marked, IsClear-append, length-unseen, Answers, tokens,
  ArePrefixFree, IsClear-parts, append_plain_text-IsClear, release_clear, apart, All-Behind,
}

-- All markers are restored, and what is left is clear.
record IsDone (self : ProtectedTextRestorer) : Type 0 where
  clear : IsClear self.pending
  prefix_free : ArePrefixFree (tokens self.spans)
  all_seen : unseen self.spans ≡ []

-- A result that gives, with what is left, an output.
abbrev Gives : Result (Text × ProtectedTextRestorer) ProtectedTextError → Text → Type 0
Gives r output =
    (a : Text) × (self : ProtectedTextRestorer) × (r ≡ ok (a, self))
    × (a ++ self.pending ≡ output)
    × IsDone self

tokens-IsToken :
    (spans : Flagged) → ArePrefixFree (tokens spans) → All (λ x. IsToken x.0.token) spans
tokens-IsToken [] h = tt
tokens-IsToken (x ∷ spans) h = (h.0, tokens-IsToken spans h.2)

restore_loop_done :
    (fuel : ℕ) (spans : Flagged) (p : Text)
    → IsDone (record { spans = spans; pending = p })
    → Gives (restore_loop (suc fuel) (record { spans = spans; pending = p })) p
unfolding restore_loop
restore_loop_done fuel spans p d =
    let (a, b, e, f) = release_clear spans p d.clear in
    (
      a,
      record { spans = spans; pending = b },
      rw (restore_loop, next_marker-none p spans d.clear (tokens-IsToken spans d.prefix_free)) f,
      e,
      record {
        clear = (IsClear-parts a b (subst IsClear (sym e) d.clear)).1;
        prefix_free = d.prefix_free;
        all_seen = d.all_seen;
      },
    )

Gives-prepend :
    (r : Result (Text × ProtectedTextRestorer) ProtectedTextError) (x output : Text)
    → Gives r output
    → Gives (do rest ← r; ok (x ++ rest.0, rest.1)) (x ++ output)
Gives-prepend r x output (a, self, e, f, d) =
    (x ++ a, self, rw e refl, append_assoc x a self.pending ∙ ap (λ t. x ++ t) f, d)

-- A turn of the loop for the marker behind a clear text.
restore_loop_marker :
    (fuel : ℕ) (before after : Flagged) (s : ProtectedSpan) (p rest output : Text)
    → IsClear p
    → ArePrefixFree (tokens (before ++ ((s, false) ∷ after)))
    → Gives
        (restore_loop fuel (record { spans = before ++ ((s, true) ∷ after); pending = rest }))
        output
    → Gives
        (restore_loop
          (suc fuel)
          (record { spans = before ++ ((s, false) ∷ after); pending = p ++ (s.token ++ rest) }))
        ((p ++ s.replacement) ++ output)
unfolding restore_loop pass
restore_loop_marker fuel before after s p rest output h k g =
    let (t, b, c) = apart before after s false k in
    let text = p ++ (s.token ++ rest) in
    let next =
      next_marker-found p text before after s false (All-Behind p s.token rest before h t b)
        (All-Behind p s.token rest after h t c) (find-append p s.token rest h t) in
    let left : behind (p ++ s.token) text ≡ rest =
      ap (behind (p ++ s.token)) (sym (append_assoc p s.token rest))
      ∙ behind-append (p ++ s.token) rest in
    let same : restore_loop (suc fuel)
          (record { spans = before ++ ((s, false) ∷ after); pending = text })
        ≡ (do
          rest' ←
              restore_loop fuel (record { spans = before ++ ((s, true) ∷ after); pending = rest })
          ok ((p ++ s.replacement) ++ rest'.0, rest'.1)) =
      rw (restore_loop, next, append_plain_text-IsClear p h, left) refl in
    subst (λ r. Gives r ((p ++ s.replacement) ++ output)) (sym same)
      (Gives-prepend
        (restore_loop fuel (record { spans = before ++ ((s, true) ∷ after); pending = rest }))
        (p ++ s.replacement) output g)

restore_loop-Answers :
    (ps : List Piece) (fuel : ℕ) (spans : Flagged) (p : Text)
    → IsClear p
    → ArePrefixFree (tokens spans)
    → Answers spans ps
    → length (unseen spans) ≤ fuel
    → Gives
        (restore_loop (suc fuel) (record { spans = spans; pending = p ++ source_of ps }))
        (p ++ output_of ps)
restore_loop-Answers [] fuel spans p h k a b =
    rw (append-nil p)
      (restore_loop_done fuel spans p (record { clear = h; prefix_free = k; all_seen = a }))
restore_loop-Answers (plain t ∷ ps) fuel spans p h k a b =
    subst
      (λ x.
        Gives (restore_loop (suc fuel) (record { spans = spans; pending = x }))
          (p ++ (t ++ output_of ps)))
      (append_assoc p t (source_of ps))
      (subst
        (λ o.
          Gives
            (restore_loop (suc fuel) (record { spans = spans; pending = (p ++ t) ++ source_of ps }))
            o)
        (append_assoc p t (output_of ps))
        (restore_loop-Answers ps fuel spans (p ++ t) (IsClear-append p t h a.0) k a.1 b))
restore_loop-Answers (marker s ∷ ps) zero spans p h k (before, after, e, a) b =
    absurd (ground (arith, ap (λ x. length (unseen x)) e, length-unseen-marked before after s))
restore_loop-Answers (marker s ∷ ps) (suc fuel) spans p h k (before, after, e, a) b =
    let free = subst (λ x. ArePrefixFree (tokens x)) e k in
    let later =
      restore_loop-Answers ps fuel (before ++ ((s, true) ∷ after)) [] tt
        (subst ArePrefixFree (tokens-marked before after s) free) a
        (ground (arith, ap (λ x. length (unseen x)) e, length-unseen-marked before after s)) in
    subst
      (λ x.
        Gives
          (restore_loop (suc (suc fuel))
            (record { spans = x; pending = p ++ (s.token ++ source_of ps) }))
          (p ++ (s.replacement ++ output_of ps)))
      (sym e)
      (subst
        (Gives (
          restore_loop (suc (suc fuel)) (record {
            spans = before ++ ((s, false) ∷ after);
            pending = p ++ (s.token ++ source_of ps);
          })))
        (append_assoc p s.replacement (output_of ps))
        (restore_loop_marker (suc fuel) before after s p (source_of ps) (output_of ps) h free
          later))

unseen-any : (spans : Flagged) → unseen spans ≡ [] → any (λ s. not s.1) spans ≡ false
unseen-any [] h = refl
unseen-any ((s, true) ∷ spans) h = unseen-any spans h
unseen-any ((s, false) ∷ spans) h = cc

finish-IsDone :
    (spans : Flagged) (p : Text)
    → IsDone (record { spans = spans; pending = p })
    → finish (record { spans = spans; pending = p }) ≡ ok p
unfolding finish push
finish-IsDone [] p d =
    rw (append_plain_text-IsClear [] tt) (ap ok (append-nil (p ++ []) ∙ append-nil p))
finish-IsDone (x ∷ spans) p d =
    let (a, self, e, f, d') =
      restore_loop_done (length (x ∷ spans)) (x ∷ spans) (p ++ []) (rw (append-nil p) d) in
    rw (e, append_plain_text-IsClear self.pending d'.clear, unseen-any self.spans d'.all_seen)
      (ap ok (f ∙ append-nil p))

Answers-nil : (ps : List Piece) → Answers [] ps → source_of ps ≡ output_of ps
Answers-nil [] h = refl
Answers-nil (plain t ∷ ps) h = ap (λ x. t ++ x) (Answers-nil ps h.1)
Answers-nil (marker s ∷ ps) ([], after, e, h) = cc
Answers-nil (marker s ∷ ps) (x ∷ before, after, e, h) = cc

restore-one :
    (self : ProtectedTextRestorer) (delta output : Text)
    → Gives (push self delta) output
    → restore self (delta ∷ []) ≡ ok output
unfolding restore
restore-one self delta output (a, self', e, f, d) =
    rw (e, finish-IsDone self'.spans self'.pending d) (ap ok f)

push-Answers :
    (spans : Flagged) (ps : List Piece)
    → ArePrefixFree (tokens spans)
    → Answers spans ps
    → restore (record { spans = spans; pending = [] }) (source_of ps ∷ []) ≡ ok (output_of ps)
unfolding push restore
push-Answers [] ps h k =
    rw (finish-IsDone [] [] (record { clear = tt; prefix_free = tt; all_seen = refl }))
      (ap ok (append-nil (source_of ps) ∙ Answers-nil ps k))
push-Answers (x ∷ spans) ps h k =
    restore-one (record { spans = x ∷ spans; pending = [] }) (source_of ps) (output_of ps)
      (restore_loop-Answers ps (length (x ∷ spans)) (x ∷ spans) [] tt h k
        (length-unseen (x ∷ spans)))

tokens-fresh :
    (spans : List ProtectedSpan) → tokens (map (λ s. (s, false)) spans) ≡ map (λ s. s.token) spans
tokens-fresh [] = refl
tokens-fresh (s ∷ spans) = ap (λ l. s.token ∷ l) (tokens-fresh spans)

-- When no token is a start of another, a response that has one marker for each span of the source,
-- in any order, with texts without `_` between them, is restored when it comes in one delta.
pub restore-Answers :
    (self : ProtectedSource) (ps : List Piece)
    → ArePrefixFree (map (λ s. s.token) self.spans)
    → Answers (restorer self).spans ps
    → restore (restorer self) (source_of ps ∷ []) ≡ ok (output_of ps)
unfolding restorer
restore-Answers self ps h k =
    push-Answers (map (λ s. (s, false)) self.spans) ps
      (subst ArePrefixFree (sym (tokens-fresh self.spans)) h) k
