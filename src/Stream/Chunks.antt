-- ===== src/Stream/Chunks.antt =====
-- The loop of the decoders of the adapters' streams, on a stream that comes in two parts.
use linguamesh_core.Base.{
  ◌≡◌, ◌≤◌, inl, inr, refl, sym, ap, ◌∙◌, subst, ℕ, zero, suc, Option, none, some, List, [], ◌++◌,
  length, length-append, Result, ok, err, ◌>>=◌, >>=-eq-ok, Option-cases, arith,
}
use mathlib.Core.List.{append_assoc}
use linguamesh_core.Protection.{behind}
use linguamesh_core.Protection.Boundaries.{behind-append}
use linguamesh_core.Stream.{Bytes, find_event_boundary, keep, decode_loop}
use linguamesh_core.Stream.Boundary.{
  HasOneDelimiter, HasOneDelimiter-back, find_event_boundary-extend, find_event_boundary-append,
}

-- What is behind an event is shorter.
length-behind_event :
    (s : Bytes) (b : Bytes × Bytes) (n : ℕ)
    → find_event_boundary s ≡ some b
    → length s ≤ suc n
    → length (behind (b.0 ++ b.1) s) ≤ n
length-behind_event s b n h l =
    let (e, m) = find_event_boundary-append s b h in
    ground (
      arith,
      ap length e,
      length-append (b.0 ++ b.1) (behind (b.0 ++ b.1) s),
      length-append b.0 b.1,
    )

no_event : (s : Bytes) (b : Bytes × Bytes) → find_event_boundary s ≡ some b → length s ≤ 0 → ⊥
no_event s b h l =
    let (e, m) = find_event_boundary-append s b h in
    absurd (
      ground (
        arith,
        ap length e,
        length-append (b.0 ++ b.1) (behind (b.0 ++ b.1) s),
        length-append b.0 b.1,
      ))

behind_event-append :
    (s t : Bytes) (b : Bytes × Bytes)
    → find_event_boundary s ≡ some b
    → behind (b.0 ++ b.1) (s ++ t) ≡ behind (b.0 ++ b.1) s ++ t
behind_event-append s t b e =
    let (f, _) = find_event_boundary-append s b e in
    ap (λ x. behind (b.0 ++ b.1) (x ++ t)) f
    ∙ ap (behind (b.0 ++ b.1)) (append_assoc (b.0 ++ b.1) (behind (b.0 ++ b.1) s) t)
    ∙ behind-append (b.0 ++ b.1) (behind (b.0 ++ b.1) s ++ t)

module _ {ℓ κ} {M : Type ℓ} {E : Type κ} (parse_event : Bytes → Result (Option M) E) where
  -- The messages of a run and of what follows it.
  abbrev pub continue : List M × Bytes → Result (List M × Bytes) E → Result (List M × Bytes) E
  continue x r = do rest ← r; ok (x.0 ++ rest.0, rest.1)

  pub decode_loop-none :
      (fuel : ℕ) (s : Bytes)
      → find_event_boundary s ≡ none
      → decode_loop parse_event fuel s ≡ ok ([], s)
  unfolding decode_loop
  decode_loop-none zero s e = refl
  decode_loop-none (suc fuel) s e = rw (decode_loop, e) refl

  decode_loop-some :
      (fuel : ℕ) (s : Bytes) (b : Bytes × Bytes)
      → find_event_boundary s ≡ some b
      → decode_loop parse_event (suc fuel) s ≡ (do
        message ← parse_event b.0
        rest ← decode_loop parse_event fuel (behind (b.0 ++ b.1) s)
        ok (keep message rest.0, rest.1))
  unfolding decode_loop
  decode_loop-some fuel s b e = rw (decode_loop, e) refl

  -- The loop does not depend on its fuel when that is at least the number of bytes.
  pub decode_loop-enough :
      (fuel more : ℕ) (s : Bytes)
      → length s ≤ fuel
      → length s ≤ more
      → decode_loop parse_event fuel s ≡ decode_loop parse_event more s
  unfolding decode_loop
  decode_loop-enough zero zero s h k = refl
  decode_loop-enough zero (suc more) s h k = elim (Option-cases (find_event_boundary s)) [
    | inl e ↦ rw (decode_loop, e) refl
    | inr (b, e) ↦ absurd (no_event s b e h)
  ]
  decode_loop-enough (suc fuel) zero s h k = elim (Option-cases (find_event_boundary s)) [
    | inl e ↦ rw (decode_loop, e) refl
    | inr (b, e) ↦ absurd (no_event s b e k)
  ]
  decode_loop-enough (suc fuel) (suc more) s h k = elim (Option-cases (find_event_boundary s)) [
    | inl e ↦ rw (decode_loop, e) refl
    | inr (b, e) ↦
        let later =
          decode_loop-enough fuel more (behind (b.0 ++ b.1) s) (length-behind_event s b fuel e h)
            (length-behind_event s b more e k) in
        rw (decode_loop, e, later) refl
  ]

  continue-nil : (r : Result (List M × Bytes) E) → r ≡ continue ([], []) r
  continue-nil (ok (ms, s)) = refl
  continue-nil (err e) = refl

  regroup :
      (p : Result (Option M) E) (r : Result (List M × Bytes) E)
      (f : Bytes → Result (List M × Bytes) E)
      → (do m ← p; rest ← (r >>= λ x. continue x (f x.1)); ok (keep m rest.0, rest.1))
        ≡ ((do m ← p; rest ← r; ok (keep m rest.0, rest.1)) >>= λ x. continue x (f x.1))
  regroup (err e) r f = refl
  regroup (ok m) (err e) f = refl
  regroup (ok m) (ok (ms, s)) f = with_rest m (f s)
    where
      with_rest :
          (m : Option M) (r : Result (List M × Bytes) E)
          → (do rest ← continue (ms, s) r; ok (keep m rest.0, rest.1)) ≡ continue (keep m ms, s) r
      with_rest m (err e) = refl
      with_rest none (ok (ns, t)) = refl
      with_rest (some a) (ok (ns, t)) = refl

  -- A turn on a text that has an event in its front.
  turn :
      (fuel more last : ℕ) (s t : Bytes) (b : Bytes × Bytes)
      → HasOneDelimiter (s ++ t)
      → find_event_boundary s ≡ some b
      → decode_loop parse_event more (behind (b.0 ++ b.1) s ++ t) ≡ (
          decode_loop parse_event fuel (behind (b.0 ++ b.1) s) >>= λ x.
          continue x (decode_loop parse_event last (x.1 ++ t)))
      → decode_loop parse_event (suc more) (s ++ t) ≡ (
          decode_loop parse_event (suc fuel) s >>= λ x.
          continue x (decode_loop parse_event last (x.1 ++ t)))
  turn fuel more last s t b h e ih =
      let same : behind (b.0 ++ b.1) (s ++ t) ≡ behind (b.0 ++ b.1) s ++ t =
        behind_event-append s t b e in
      rw (decode_loop-some more (s ++ t) b (find_event_boundary-extend s t b h e), same, ih)
        (regroup (parse_event b.0) (decode_loop parse_event fuel (behind (b.0 ++ b.1) s))
            (λ x. decode_loop parse_event last (x ++ t))
          ∙ ap (λ r. r >>= λ x. continue x (decode_loop parse_event last (x.1 ++ t)))
              (sym (decode_loop-some fuel s b e)))

  quiet :
      (fuel more last : ℕ) (s t : Bytes)
      → length (s ++ t) ≤ more
      → length (s ++ t) ≤ last
      → find_event_boundary s ≡ none
      → decode_loop parse_event more (s ++ t) ≡ (
          decode_loop parse_event fuel s >>= λ x.
          continue x (decode_loop parse_event last (x.1 ++ t)))
  quiet fuel more last s t l m e =
      subst
        (λ r.
          decode_loop parse_event more (s ++ t)
          ≡ (r >>= λ x. continue x (decode_loop parse_event last (x.1 ++ t))))
        (sym (decode_loop-none fuel s e))
        (decode_loop-enough more last (s ++ t) l m
          ∙ continue-nil (decode_loop parse_event last (s ++ t)))

  -- A loop on a text is a loop on a front of it, and one on what that leaves and the rest.
  pub decode_loop-append :
      (fuel more last : ℕ) (s t : Bytes)
      → HasOneDelimiter (s ++ t)
      → length s ≤ fuel
      → length (s ++ t) ≤ more
      → length (s ++ t) ≤ last
      → decode_loop parse_event more (s ++ t) ≡ (
          decode_loop parse_event fuel s >>= λ x.
          continue x (decode_loop parse_event last (x.1 ++ t)))
  decode_loop-append zero more last s t h k l m = elim (Option-cases (find_event_boundary s)) [
    | inl e ↦ quiet zero more last s t l m e
    | inr (b, e) ↦ absurd (no_event s b e k)
  ]
  decode_loop-append (suc fuel) zero last s t h k l m =
      elim (Option-cases (find_event_boundary s)) [
        | inl e ↦ quiet (suc fuel) zero last s t l m e
        | inr (b, e) ↦ absurd (no_event (s ++ t) b (find_event_boundary-extend s t b h e) l)
      ]
  decode_loop-append (suc fuel) (suc more) last s t h k l m =
      elim (Option-cases (find_event_boundary s)) [
        | inl e ↦ quiet (suc fuel) (suc more) last s t l m e
        | inr (b, e) ↦
            let rest = behind (b.0 ++ b.1) s in
            let (f, _) = find_event_boundary-append s b e in
            let whole : s ++ t ≡ (b.0 ++ b.1) ++ (rest ++ t) =
              ap (λ x. x ++ t) f ∙ append_assoc (b.0 ++ b.1) rest t in
            let shorter : length (rest ++ t) ≤ more =
              subst (λ x. length x ≤ more) (behind_event-append s t b e)
                (length-behind_event (s ++ t) b more (find_event_boundary-extend s t b h e) l) in
            turn fuel more last s t b h e (
              decode_loop-append fuel more last rest t
                (HasOneDelimiter-back (b.0 ++ b.1) (rest ++ t) (subst HasOneDelimiter whole h))
                (length-behind_event s b fuel e k) shorter
                (ground (arith, ap length whole, length-append (b.0 ++ b.1) (rest ++ t))))
      ]

  left_over :
      (s : Bytes) (x : List M × Bytes)
      → find_event_boundary s ≡ none
      → ◌≡◌ {A = Result (List M × Bytes) E} (ok ([], s)) (ok x)
      → (find_event_boundary x.1 ≡ none) × ((y : Bytes) × (s ≡ y ++ x.1))
  left_over s x e g =
      let same : s ≡ x.1 = ground (arith, g) in
      (subst (λ t. find_event_boundary t ≡ none) same e, ([], same))

  -- What a loop leaves is the end of the text, and has no event.
  pub decode_loop-rest :
      (fuel : ℕ) (s : Bytes) (x : List M × Bytes)
      → length s ≤ fuel
      → decode_loop parse_event fuel s ≡ ok x
      → (find_event_boundary x.1 ≡ none) × ((y : Bytes) × (s ≡ y ++ x.1))
  decode_loop-rest zero s x k h = elim (Option-cases (find_event_boundary s)) [
    | inl e ↦ left_over s x e (sym (decode_loop-none zero s e) ∙ h)
    | inr (b, e) ↦ absurd (no_event s b e k)
  ]
  decode_loop-rest (suc fuel) s x k h = elim (Option-cases (find_event_boundary s)) [
    | inl e ↦ left_over s x e (sym (decode_loop-none (suc fuel) s e) ∙ h)
    | inr (b, e) ↦
        let (m, _, f) = >>=-eq-ok (parse_event b.0) _ (sym (decode_loop-some fuel s b e) ∙ h) in
        let (y, g, i) = >>=-eq-ok (decode_loop parse_event fuel (behind (b.0 ++ b.1) s)) _ f in
        let (none_left, (z, j)) =
          decode_loop-rest fuel (behind (b.0 ++ b.1) s) y (length-behind_event s b fuel e k) g in
        let same : y.1 ≡ x.1 = ground (arith, i) in
        let (whole, _) = find_event_boundary-append s b e in
        let all : s ≡ ((b.0 ++ b.1) ++ z) ++ y.1 =
          whole ∙ ap (λ t. (b.0 ++ b.1) ++ t) j ∙ sym (append_assoc (b.0 ++ b.1) z y.1) in
        subst (λ t. (find_event_boundary t ≡ none) × ((w : Bytes) × (s ≡ w ++ t))) same
          (none_left, ((b.0 ++ b.1) ++ z, all))
  ]
