-- ===== src/Protection/Restorer/Enough.antt =====
-- The fuel of the loop of the restorer in crates/linguamesh-domain/src/lib.rs.
use linguamesh_core.Base.{
  ◌≡◌, inl, inr, ◌≤◌, refl, ap, ◌∙◌, ℕ, zero, suc, Bool, true, false, List, ◌++◌, Permᴰ, length,
  Result, ok, ◌>>=◌, ◌>>◌, reject_if, Option-cases, arith, Text,
}
use linguamesh_core.Protection.{ProtectedSpan}
use linguamesh_core.Protection.Restorer.{
  duplicate_marker, ProtectedTextError, ProtectedTextRestorer, Marker, next_marker,
  append_plain_text, pass, restore_loop,
}
use linguamesh_core.Protection.Restorer.Markers.{unseen, IsMarker, next_marker-IsMarker}

length-Permᴰ : {xs ys : List ProtectedSpan} → Permᴰ xs ys → length xs ≡ length ys
length-Permᴰ Permᴰ.nil = refl
length-Permᴰ (Permᴰ.cons e p) = ap suc (length-Permᴰ p)
length-Permᴰ (Permᴰ.swap e f) = refl
length-Permᴰ (Permᴰ.trans p q) = length-Permᴰ p ∙ length-Permᴰ q

unseen-pass :
    (text : Text) (self : ProtectedTextRestorer) (m : Marker) (fuel : ℕ)
    → IsMarker self.pending self.spans m
    → m.used ≡ false
    → length (unseen self.spans) ≤ suc fuel
    → length (unseen (pass m text).spans) ≤ fuel
unfolding pass
unseen-pass text self m fuel i e b = ground (arith, length-Permᴰ (i.takes e))

no_unseen :
    (self : ProtectedTextRestorer) (m : Marker)
    → IsMarker self.pending self.spans m
    → m.used ≡ false
    → length (unseen self.spans) ≤ 0
    → ⊥
no_unseen self m i e b = absurd (ground (arith, length-Permᴰ (i.takes e)))

-- A turn of the loop for a marker.
abbrev turn :
    Bool
    → ProtectedTextRestorer
    → Marker
    → Result (Text × ProtectedTextRestorer) ProtectedTextError
    → Result (Text × ProtectedTextRestorer) ProtectedTextError
turn used self m later = do
  reject_if used duplicate_marker
  shown ← append_plain_text m.front
  rest ← later
  ok (shown ++ m.span.replacement ++ rest.0, rest.1)

same_turn :
    (used : Bool) (self : ProtectedTextRestorer) (m : Marker)
    (a b : Result (Text × ProtectedTextRestorer) ProtectedTextError)
    → (used ≡ false → a ≡ b)
    → turn used self m a ≡ turn used self m b
same_turn true self m a b h = refl
same_turn false self m a b h = rw (h refl) refl

by_turns :
    (fuel more : ℕ) (self : ProtectedTextRestorer)
    → ((m : Marker)
        → IsMarker self.pending self.spans m
        → m.used ≡ false
        → restore_loop fuel (pass m self.pending) ≡ restore_loop more (pass m self.pending))
    → restore_loop (suc fuel) self ≡ restore_loop (suc more) self
unfolding restore_loop
by_turns fuel more self h = elim (Option-cases (next_marker self.pending self.spans)) [
  | inl e ↦ rw (restore_loop, e) refl
  | inr (m, e) ↦
      rw (restore_loop, e)
        (same_turn m.used self m (restore_loop fuel (pass m self.pending))
          (restore_loop more (pass m self.pending))
          (h m (next_marker-IsMarker self.pending self.spans m e)))
]

-- The loop does not depend on its fuel when that is more than the number of spans whose marker is
-- still to come: every turn for a marker takes one of them.
pub restore_loop-enough :
    (fuel more : ℕ) (self : ProtectedTextRestorer)
    → length (unseen self.spans) ≤ fuel
    → length (unseen self.spans) ≤ more
    → restore_loop (suc fuel) self ≡ restore_loop (suc more) self
restore_loop-enough zero more self h k =
    by_turns zero more self (λ m i f. absurd (no_unseen self m i f h))
restore_loop-enough (suc fuel) zero self h k =
    by_turns (suc fuel) zero self (λ m i f. absurd (no_unseen self m i f k))
restore_loop-enough (suc fuel) (suc more) self h k = by_turns (suc fuel) (suc more) self (λ m i f.
    restore_loop-enough fuel more (pass m self.pending) (unseen-pass self.pending self m fuel i f h)
      (unseen-pass self.pending self m more i f k))
