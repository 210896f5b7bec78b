-- ===== src/Protection/Restorer/Steps.antt =====
-- What the operations of the restorer in crates/linguamesh-domain/src/lib.rs do to the pieces of a
-- response.
use linguamesh_core.Base.{
  ◌≡◌, inl, inr, refl, sym, ap, ◌∙◌, subst, ℕ, zero, suc, ◌-◌, true, false, not, List, [], ◌∷◌,
  ◌++◌, map, Text, len, length, is_empty, any, Result, ok, ◌>>=◌, ◌>>◌, >>=-eq-ok, >>-eq-ok,
  reject_if, reject_if-eq-ok, Bool-cases, Option-cases, arith,
}
use mathlib.Core.List.{append_assoc, append-nil}
use linguamesh_core.Protection.{ProtectedSpan, ProtectedSource, Flagged, take_bytes, behind}
use linguamesh_core.Protection.Starts.{take_bytes-IsStart}
use linguamesh_core.Protection.Boundaries.{behind-append, join}
use linguamesh_core.Protection.Restorer.{
  ProtectedTextError, duplicate_marker, missing_marker, ProtectedTextRestorer, Marker, restorer,
  next_marker, append_plain_text, longest_marker_prefix_suffix, release, pass, restore_loop, push,
  finish, restore,
}
use linguamesh_core.Protection.Restorer.Markers.{
  unseen, IsMarker, next_marker-IsMarker, marker-append,
}
use linguamesh_core.Protection.Restorer.Pieces.{
  Accounts, Accounts-append, plain-Accounts, append_plain_text-eq, marker-Accounts, regroup,
}

-- What an operation that succeeds has done to the restorer.
abbrev pub Steps : Text → Text → ProtectedTextRestorer → ProtectedTextRestorer → Type 0
Steps text output self self' =
    (t : Text) × (text ≡ t ++ self'.pending)
    × Accounts t output (unseen self.spans) (unseen self'.spans)

results :
    {a : Text} {b : ProtectedTextRestorer} {r : Text × ProtectedTextRestorer}
    → ◌≡◌ {A = Result (Text × ProtectedTextRestorer) ProtectedTextError} (ok (a, b)) (ok r)
    → (a ≡ r.0) × (b ≡ r.1)
results h = (ground arith, ground arith)

release-Steps :
    (self : ProtectedTextRestorer) (r : Text × ProtectedTextRestorer)
    → release self ≡ ok r
    → Steps self.pending r.0 self r.1
unfolding release
release-Steps self r h =
    let keep = longest_marker_prefix_suffix self.pending self.spans in
    let front = take_bytes (len self.pending - keep) self.pending in
    let (shown, e, f) = >>=-eq-ok (append_plain_text front) _ h in
    let (a, b) = results f in
    let ((rest, g), _) = take_bytes-IsStart (len self.pending - keep) self.pending in
    let same : behind front self.pending ≡ rest = ap (behind front) g ∙ behind-append front rest in
    subst (Steps self.pending r.0 self) b (
      front,
      g ∙ ap (λ t. front ++ t) (sym same),
      subst (λ o. Accounts front o (unseen self.spans) (unseen self.spans))
          (append_plain_text-eq front shown e ∙ a) (plain-Accounts front (unseen self.spans)),
    )

marker-Steps :
    (fuel : ℕ) (self : ProtectedTextRestorer) (r : Text × ProtectedTextRestorer) (m : Marker)
    → IsMarker self.pending self.spans m
    → ((r' : Text × ProtectedTextRestorer)
        → restore_loop fuel (pass m self.pending) ≡ ok r'
        → Steps (pass m self.pending).pending r'.0 (pass m self.pending) r'.1)
    → (do
      reject_if m.used duplicate_marker
      shown ← append_plain_text m.front
      rest ← restore_loop fuel (pass m self.pending)
      ok (shown ++ m.span.replacement ++ rest.0, rest.1))
      ≡ ok r
    → Steps self.pending r.0 self r.1
unfolding pass
marker-Steps fuel self r m i ih h =
    let (free, f) = >>-eq-ok (reject_if m.used duplicate_marker) _ h in
    let (shown, e, g) = >>=-eq-ok (append_plain_text m.front) _ f in
    let (r', l, n) = >>=-eq-ok (restore_loop fuel (pass m self.pending)) _ g in
    let (a, b) = results n in
    let (t, k, rest) = ih r' l in
    let here =
      marker-Accounts self.pending self.spans m i (reject_if-eq-ok m.used duplicate_marker free) in
    let given : (m.front ++ m.span.replacement) ++ r'.0 ≡ r.0 =
      ap (λ p. (p ++ m.span.replacement) ++ r'.0) (append_plain_text-eq m.front shown e) ∙ a in
    subst (Steps self.pending r.0 self) b (
      (m.front ++ m.span.token) ++ t,
      regroup m.front m.span.token t r'.1.pending self.pending _
          (marker-append self.pending self.spans m i) k,
      subst
          (λ o. Accounts ((m.front ++ m.span.token) ++ t) o (unseen self.spans) (unseen r'.1.spans))
          given (Accounts-append here rest),
    )

restore_loop-Steps :
    (fuel : ℕ) (self : ProtectedTextRestorer) (r : Text × ProtectedTextRestorer)
    → restore_loop fuel self ≡ ok r
    → Steps self.pending r.0 self r.1
unfolding restore_loop
restore_loop-Steps zero self r h =
    let (a, b) = results h in
    subst (Steps self.pending r.0 self) b (
      [],
      refl,
      subst (λ o. Accounts [] o (unseen self.spans) (unseen self.spans)) a
          (plain-Accounts [] (unseen self.spans)),
    )
restore_loop-Steps (suc fuel) self r h = elim (Option-cases (next_marker self.pending self.spans)) [
  | inl e ↦ release-Steps self r (rw (restore_loop, e) at h)
  | inr (m, e) ↦
      marker-Steps fuel self r m (next_marker-IsMarker self.pending self.spans m e)
        (λ r'. restore_loop-Steps fuel (pass m self.pending) r') (rw (restore_loop, e) at h)
]

pub push-Steps :
    (self : ProtectedTextRestorer) (delta : Text) (r : Text × ProtectedTextRestorer)
    → push self delta ≡ ok r
    → Steps (self.pending ++ delta) r.0 self r.1
unfolding push
push-Steps self delta r h = elim (Bool-cases (is_empty self.spans)) [
  | inl e ↦
      let (a, b) = results (rw e at h) in
      subst (Steps (self.pending ++ delta) r.0 self) b (
        self.pending ++ delta,
        sym (append-nil (self.pending ++ delta)),
        subst (λ o. Accounts (self.pending ++ delta) o (unseen self.spans) (unseen self.spans)) a
            (plain-Accounts (self.pending ++ delta) (unseen self.spans)),
      )
  | inr e ↦
      restore_loop-Steps (suc (length self.spans))
        (record { spans = self.spans; pending = self.pending ++ delta }) r (rw e at h)
]

unseen-nil : (spans : Flagged) → any (λ s. not s.1) spans ≡ false → unseen spans ≡ []
unseen-nil [] h = refl
unseen-nil ((s, true) ∷ spans) h = unseen-nil spans h
unseen-nil ((s, false) ∷ spans) h = cc

pub finish-Accounts :
    (self : ProtectedTextRestorer) (output : Text)
    → finish self ≡ ok output
    → Accounts self.pending output (unseen self.spans) []
unfolding finish
finish-Accounts self output h =
    let (r, e, f) = >>=-eq-ok (push self []) _ h in
    let (shown, g, k) = >>=-eq-ok (append_plain_text r.1.pending) _ f in
    let (none_left, l) = >>-eq-ok (reject_if (any (λ s. not s.1) r.1.spans) missing_marker) _ k in
    let (t, m, acc) = push-Steps self [] r e in
    let last = plain-Accounts r.1.pending (unseen r.1.spans) in
    let nothing = unseen-nil r.1.spans (reject_if-eq-ok _ missing_marker none_left) in
    let given : r.0 ++ r.1.pending ≡ output =
      ap (λ p. r.0 ++ p) (append_plain_text-eq r.1.pending shown g) ∙ texts l in
    subst (λ u. Accounts self.pending output (unseen self.spans) u) nothing
      (subst (λ o. Accounts self.pending o (unseen self.spans) (unseen r.1.spans)) given
        (subst (λ s. Accounts s (r.0 ++ r.1.pending) (unseen self.spans) (unseen r.1.spans))
          (sym m ∙ append-nil self.pending) (Accounts-append acc last)))
  where
    texts : {a b : Text} → ◌≡◌ {A = Result Text ProtectedTextError} (ok a) (ok b) → a ≡ b
    texts k = ground arith

restore-Accounts :
    (deltas : List Text) (self : ProtectedTextRestorer) (output : Text)
    → restore self deltas ≡ ok output
    → Accounts (self.pending ++ join deltas) output (unseen self.spans) []
unfolding restore
restore-Accounts [] self output h =
    subst (λ t. Accounts t output (unseen self.spans) []) (sym (append-nil self.pending))
      (finish-Accounts self output h)
restore-Accounts (delta ∷ deltas) self output h =
    let (r, e, f) = >>=-eq-ok (push self delta) _ h in
    let (rest, g, k) = >>=-eq-ok (restore r.1 deltas) _ f in
    let (t, m, acc) = push-Steps self delta r e in
    let later = restore-Accounts deltas r.1 rest g in
    let given : r.0 ++ rest ≡ output = ground arith in
    let taken : t ++ (r.1.pending ++ join deltas) ≡ self.pending ++ (delta ++ join deltas) =
      sym (append_assoc t r.1.pending (join deltas))
      ∙ ap (λ x. x ++ join deltas) (sym m)
      ∙ append_assoc self.pending delta (join deltas) in
    subst (λ x. Accounts x output (unseen self.spans) []) taken
      (subst (λ o. Accounts (t ++ (r.1.pending ++ join deltas)) o (unseen self.spans) []) given
        (Accounts-append acc later))

pub unseen-fresh : (spans : List ProtectedSpan) → unseen (map (λ s. (s, false)) spans) ≡ spans
unseen-fresh [] = refl
unseen-fresh (s ∷ spans) = ap (λ l. s ∷ l) (unseen-fresh spans)

-- When the deltas of a response are all restored, the response is a sequence of plain texts and
-- markers, each span of the source has exactly one of the markers, and the output is that sequence
-- with each marker replaced by the replacement of its span.
pub restore-Accounts_fresh :
    (self : ProtectedSource) (deltas : List Text) (output : Text)
    → restore (restorer self) deltas ≡ ok output
    → Accounts (join deltas) output self.spans []
unfolding restorer
restore-Accounts_fresh self deltas output h =
    subst (λ u. Accounts (join deltas) output u []) (unseen-fresh self.spans)
      (restore-Accounts deltas (restorer self) output h)
