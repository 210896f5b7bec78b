-- ===== src/Protection/Places.antt =====
-- What the scanners of crates/linguamesh-domain/src/lib.rs find stands where they say.
use linguamesh_core.Base.{
  ◌≡◌, ◌⊎◌, inl, inr, refl, sym, ap, ◌∙◌, subst, ℕ, zero, suc, Bool, true, false, ◌&&◌, Option,
  none, some, List, [], ◌∷◌, ◌++◌, All, Text, codes, len, starts_with, contains_char, ltb, ◌==◌,
  if◌then◌else◌, Bool-cases, Option-cases, arith,
}
use mathlib.Core.List.{append_assoc}
use linguamesh_core.Protection.{find, behind}
use linguamesh_core.Protection.Starts.{IsStart}
use linguamesh_core.Protection.Boundaries.{behind-append}
use linguamesh_core.Protection.Success.{starts_with-IsStart}
use linguamesh_core.Protection.Restorer.Markers.{find-occurs}
use linguamesh_core.Protection.Scanners.{
  Range, fence, tick, add_range, at_positions, with_front, fenced_loop, inline_loop, up_to, only_if,
  named_end, placeholder_percent_end, is_placeholder_body, braced, placeholder_end,
}

-- The text stands behind the front of the range.
abbrev pub IsAt : Text → Range → Type 0
IsAt source x = (r : Text) × (source ≡ x.0 ++ (x.1 ++ r))

found-append :
    (token s p : Text) → find token s ≡ some p → s ≡ (p ++ token) ++ behind (p ++ token) s
found-append token s p h =
    let (r, e) = find-occurs token s p h in
    let same : behind (p ++ token) s ≡ r =
      ap (behind (p ++ token)) e ∙ behind-append (p ++ token) r in
    rw same e

regroup_item : (f p k m a : Text) → f ++ ((p ++ k) ++ (m ++ a)) ≡ (f ++ p) ++ ((k ++ m) ++ a)
regroup_item f p k m a = rw (append_assoc, append_assoc, append_assoc) refl

regroup_rest : (f x y a : Text) → f ++ (x ++ (y ++ a)) ≡ (f ++ (x ++ y)) ++ a
regroup_rest f x y a = rw (append_assoc, append_assoc) refl

-- Two matches in turn, the second one behind the first: the range round the second, and the rest.
two_found :
    (source front rest k p l q : Text)
    → source ≡ front ++ rest
    → find k rest ≡ some p
    → find l (behind (p ++ k) rest) ≡ some q
    → IsAt source (front ++ p, k ++ (q ++ l))
      × (source ≡ (front ++ ((p ++ k) ++ (q ++ l))) ++ behind (q ++ l) (behind (p ++ k) rest))
two_found source front rest k p l q h e f =
    let last = behind (q ++ l) (behind (p ++ k) rest) in
    let whole : source ≡ front ++ ((p ++ k) ++ ((q ++ l) ++ last)) =
      h
      ∙ ap (λ x. front ++ x)
          (found-append k rest p e
            ∙ ap (λ x. (p ++ k) ++ x) (found-append l (behind (p ++ k) rest) q f)) in
    (
      (last, whole ∙ regroup_item front p k (q ++ l) last),
      whole ∙ regroup_rest front (p ++ k) (q ++ l) last,
    )

pub fenced_loop-IsAt :
    (fuel : ℕ) (source front rest : Text)
    → source ≡ front ++ rest
    → All (IsAt source) (fenced_loop fuel front rest)
unfolding fenced_loop
fenced_loop-IsAt zero source front rest h = tt
fenced_loop-IsAt (suc fuel) source front rest h = elim (Option-cases (find fence rest)) [
  | inl e ↦ rw (fenced_loop, e) tt
  | inr (p, e) ↦ elim (Option-cases (find fence (behind (p ++ fence) rest))) [
    | inl f ↦ rw (fenced_loop, e, f) tt
    | inr (q, f) ↦
        let (i, j) = two_found source front rest fence p fence q h e f in
        rw (fenced_loop, e, f)
          (
            i,
            fenced_loop-IsAt fuel source (front ++ ((p ++ fence) ++ (q ++ fence)))
                (behind (q ++ fence) (behind (p ++ fence) rest)) j,
          )
  ]
]

passed_fence :
    (source front rest p : Text)
    → source ≡ front ++ rest
    → find tick rest ≡ some p
    → starts_with (behind p rest) fence ≡ true
    → source ≡ (front ++ (p ++ fence)) ++ behind (p ++ fence) rest
passed_fence source front rest p h e g =
    let (r, f) = find-occurs tick rest p e in
    let (t, k) = starts_with-IsStart (behind p rest) fence g in
    let open_at : rest ≡ p ++ (tick ++ r) = f ∙ append_assoc p tick r in
    let same : behind p rest ≡ tick ++ r = ap (behind p) open_at ∙ behind-append p (tick ++ r) in
    let whole : rest ≡ (p ++ fence) ++ t =
      open_at ∙ ap (λ x. p ++ x) (sym same ∙ k) ∙ sym (append_assoc p fence t) in
    let left : behind (p ++ fence) rest ≡ t =
      ap (behind (p ++ fence)) whole ∙ behind-append (p ++ fence) t in
    rw left (h ∙ ap (λ x. front ++ x) whole ∙ sym (append_assoc front (p ++ fence) t))

pub inline_loop-IsAt :
    (fuel : ℕ) (source front rest : Text)
    → source ≡ front ++ rest
    → All (IsAt source) (inline_loop fuel front rest)
unfolding inline_loop
inline_loop-IsAt zero source front rest h = tt
inline_loop-IsAt (suc fuel) source front rest h = elim (Option-cases (find tick rest)) [
  | inl e ↦ rw (inline_loop, e) tt
  | inr (p, e) ↦ elim (Bool-cases (starts_with (behind p rest) fence)) [
    | inl g ↦
        rw (inline_loop, e, g)
          (inline_loop-IsAt fuel source (front ++ (p ++ fence)) (behind (p ++ fence) rest)
            (passed_fence source front rest p h e g))
    | inr g ↦ elim (Option-cases (find tick (behind (p ++ tick) rest))) [
      | inl f ↦ rw (inline_loop, e, g, f) tt
      | inr (q, f) ↦
          let (i, j) = two_found source front rest tick p tick q h e f in
          rw (inline_loop, e, g, f)
            (
              i,
              inline_loop-IsAt fuel source (front ++ ((p ++ tick) ++ (q ++ tick)))
                  (behind (q ++ tick) (behind (p ++ tick) rest)) j,
            )
    ]
  ]
]

-- A scanner at a position gives ranges that stand where they say.
abbrev pub Places : (Text → Text → Option Range) → Type 0
Places scan =
    (source front rest : Text) (x : Range)
    → source ≡ front ++ rest
    → scan front rest ≡ some x
    → IsAt source x

add_range-IsAt :
    (source : Text) (o : Option Range) (later : List Range)
    → ((x : Range) → o ≡ some x → IsAt source x)
    → All (IsAt source) later
    → All (IsAt source) (add_range o later)
add_range-IsAt source none later h k = k
add_range-IsAt source (some x) later h k = (h x refl, k)

pub at_positions-IsAt :
    (scan : Text → Text → Option Range) (source front rest : Text)
    → Places scan
    → source ≡ front ++ rest
    → All (IsAt source) (at_positions scan front rest)
at_positions-IsAt scan source front [] h e = tt
at_positions-IsAt scan source front (c ∷ s) h e =
    add_range-IsAt source (scan front (c ∷ s)) (at_positions scan (front ++ (c ∷ [])) s)
      (λ x. h source front (c ∷ s) x e)
      (at_positions-IsAt scan source (front ++ (c ∷ [])) s h
        (e ∙ sym (append_assoc front (c ∷ []) s)))

pub with_front-Places :
    (scan : Text → Option Text)
    → ((rest m : Text) → scan rest ≡ some m → IsStart m rest)
    → Places (λ front rest. with_front front (scan rest))
with_front-Places scan h source front rest x e k = inside (scan rest) (h rest) k
  where
    inside :
        (o : Option Text)
        → ((m : Text) → o ≡ some m → IsStart m rest)
        → with_front front o ≡ some x
        → IsAt source x
    inside none g l = cc
    inside (some m) g l =
        let (r, f) = g m refl in
        subst (IsAt source) {x = (front, m)} {y = x} (ground arith) (r, e ∙ ap (λ t. front ++ t) f)

pub either_some :
    {A : Type 0} (b : Bool) (o o' : Option A) (a : A)
    → (if b then o else o') ≡ some a
    → (o ≡ some a) ⊎ (o' ≡ some a)
either_some true o o' a h = inl h
either_some false o o' a h = inr h

up_to-IsStart : (token rest m : Text) → up_to token (find token rest) ≡ some m → IsStart m rest
up_to-IsStart token rest m h = inside (find token rest) refl h
  where
    inside : (o : Option Text) → find token rest ≡ o → up_to token o ≡ some m → IsStart m rest
    inside none e k = cc
    inside (some p) e k =
        subst (λ t. IsStart t rest) {x = p ++ token} (ground arith) (find-occurs token rest p e)

only_if-some : (b : Bool) (t m : Text) → only_if b (some t) ≡ some m → t ≡ m
only_if-some b t m h = ground arith

named_end-IsStart : (rest m : Text) → named_end (find (codes ")s") rest) ≡ some m → IsStart m rest
named_end-IsStart rest m h = inside (find (codes ")s") rest) refl h
  where
    inside : (o : Option Text) → find (codes ")s") rest ≡ o → named_end o ≡ some m → IsStart m rest
    inside none e k = cc
    inside (some p) e k =
        subst (λ t. IsStart t rest) (only_if-some (ltb 2 (len p)) (p ++ codes ")s") m k)
          (find-occurs (codes ")s") rest p e)

braced-IsStart : (rest m : Text) → braced rest (find (codes "}") rest) ≡ some m → IsStart m rest
braced-IsStart rest m h = inside (find (codes "}") rest) refl h
  where
    inside : (o : Option Text) → find (codes "}") rest ≡ o → braced rest o ≡ some m → IsStart m rest
    inside none e k = cc
    inside (some p) e k =
        subst (λ t. IsStart t rest)
          (only_if-some (is_placeholder_body (behind (codes "{") p)) (p ++ codes "}") m k)
          (find-occurs (codes "}") rest p e)

placeholder_percent_end-IsStart :
    (rest m : Text) → placeholder_percent_end rest ≡ some m → IsStart m rest
placeholder_percent_end-IsStart [] m h = cc
placeholder_percent_end-IsStart (a ∷ []) m h = cc
placeholder_percent_end-IsStart (a ∷ b ∷ s) m h =
    elim (either_some (a == b'%' && contains_char b (codes "sduif%@")) _ _ m h) [
      | inl e ↦ subst (λ t. IsStart t (a ∷ b ∷ s)) {x = a ∷ b ∷ []} {y = m} (ground arith) (s, refl)
      | inr e ↦ elim (either_some (starts_with (a ∷ b ∷ s) (codes "%(")) _ _ m e) [
        | inl f ↦ named_end-IsStart (a ∷ b ∷ s) m f
        | inr f ↦ absurd (nothing f)
      ]
    ]
  where
    nothing : ◌≡◌ {A = Option Text} none (some m) → ⊥
    nothing k = cc

pub placeholder_end-IsStart : (rest m : Text) → placeholder_end rest ≡ some m → IsStart m rest
unfolding placeholder_end
placeholder_end-IsStart rest m h = elim (either_some (starts_with rest (codes "{{")) _ _ m h) [
  | inl e ↦ up_to-IsStart (codes "}}") rest m e
  | inr e ↦ elim (either_some (starts_with rest (codes "${")) _ _ m e) [
    | inl f ↦ up_to-IsStart (codes "}") rest m f
    | inr f ↦ elim (either_some (starts_with rest (codes "{")) _ _ m f) [
      | inl g ↦ braced-IsStart rest m g
      | inr g ↦ placeholder_percent_end-IsStart rest m g
    ]
  ]
]
