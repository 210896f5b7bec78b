-- ===== src/Protection/Candidates.antt =====
-- The candidates of `build_protected_source` in crates/linguamesh-domain/src/lib.rs stand where they
-- say.
use linguamesh_core.Base.{
  ◌≡◌, inl, inr, refl, ap, ◌∙◌, subst, ℕ, Bool, true, false, ◌&&◌, Option, none, some, List, [],
  ◌∷◌, ◌++◌, map, All, Text, len, length, ◌==◌, if◌then◌else◌, Bool-cases, arith,
}
use linguamesh_core.Glossary.{GlossaryEntry, Glossary}
use linguamesh_core.Protection.{take_bytes}
use linguamesh_core.Protection.Starts.{IsStart, take_bytes-IsStart}
use linguamesh_core.Protection.Scanners.{
  at_positions, placeholder_end, url_end, email_at, collect_fenced_code_candidates,
  collect_inline_code_candidates, collect_placeholder_candidates, collect_url_candidates,
  collect_email_candidates,
}
use linguamesh_core.Protection.Building.{
  ProtectedCandidate, automatic, locale_matches, get_bytes, term_match, term_at, as_candidate,
  entry_candidates, collect_glossary_candidates, glossary_candidates, collect_candidates,
}
use linguamesh_core.Protection.Places.{
  IsAt, Places, at_positions-IsAt, with_front-Places, either_some, placeholder_end-IsStart,
  fenced_loop-IsAt, inline_loop-IsAt,
}
use linguamesh_core.Protection.Addresses.{url_end-IsStart, email_at-Places}

get_bytes-IsStart : (n : ℕ) (rest m : Text) → get_bytes n rest ≡ some m → IsStart m rest
get_bytes-IsStart n rest m h = elim (either_some _ (some (take_bytes n rest)) none m h) [
  | inl e ↦
      subst (λ t. IsStart t rest) {x = take_bytes n rest} (ground arith)
        (take_bytes-IsStart n rest).0
  | inr e ↦ absurd (nothing e)
]
  where
    nothing : ◌≡◌ {A = Option Text} none (some m) → ⊥
    nothing k = cc

All-append : {A : Type 0} (P : A → Type 0) (xs ys : List A) → All P xs → All P ys → All P (xs ++ ys)
All-append P [] ys h k = k
All-append P (x ∷ xs) ys h k = (h.0, All-append P xs ys h.1 k)

All-map :
    {A B : Type 0} (P : A → Type 0) (Q : B → Type 0) (f : A → B) (xs : List A)
    → ((a : A) → P a → Q (f a))
    → All P xs
    → All Q (map f xs)
All-map P Q f [] h k = tt
All-map P Q f (x ∷ xs) h k = (h x k.0, All-map P Q f xs h k.1)

-- The candidate stands behind its front.
abbrev pub IsPlaced : Text → ProtectedCandidate → Type 0
IsPlaced source c = IsAt source (c.front, c.original)

module _ (is_alphanumeric : ℕ → Bool) where
  term_at-Places : (entry : GlossaryEntry) → Places (term_at is_alphanumeric entry)
  term_at-Places entry source front rest x e h =
      inside (get_bytes (len entry.source_term) rest)
        (get_bytes-IsStart (len entry.source_term) rest) h
    where
      inside :
          (o : Option Text)
          → ((m : Text) → o ≡ some m → IsStart m rest)
          → term_match is_alphanumeric entry front rest o ≡ some x
          → IsAt source x
      inside none g k = cc
      inside (some m) g k =
          let (r, f) = g m refl in
          elim (either_some _ none (some (front, m)) x k) [
            | inl l ↦ absurd (ground (arith, l))
            | inr l ↦
                subst (IsAt source) {x = (front, m)} {y = x} (ground (arith, l))
                  (r, e ∙ ap (λ t. front ++ t) f)
          ]

  entry_candidates-IsPlaced :
      (entry : GlossaryEntry) (source : Text)
      → All (IsPlaced source) (entry_candidates is_alphanumeric entry source)
  unfolding entry_candidates
  entry_candidates-IsPlaced entry source = elim (Bool-cases (len entry.source_term == 0)) [
    | inl e ↦ rw e tt
    | inr e ↦ rw e (
        All-map (IsAt source) (IsPlaced source) (as_candidate is_alphanumeric entry)
          (at_positions (term_at is_alphanumeric entry) [] source) (λ x h. h)
          (at_positions-IsAt (term_at is_alphanumeric entry) source [] source (term_at-Places entry)
            refl))
  ]

  collect_glossary_candidates-IsPlaced :
      (source : Text) (source_locale : Option Text) (target_locale : Text)
      (entries : List GlossaryEntry)
      → All
          (IsPlaced source)
          (collect_glossary_candidates is_alphanumeric source source_locale target_locale entries)
  unfolding collect_glossary_candidates
  collect_glossary_candidates-IsPlaced source source_locale target_locale [] = tt
  collect_glossary_candidates-IsPlaced source source_locale target_locale (entry ∷ entries) =
      choose
        (entry.enabled
          && locale_matches entry.source_locale source_locale
          && locale_matches entry.target_locale (some target_locale))
        _ _
        (All-append (IsPlaced source) (entry_candidates is_alphanumeric entry source) _
          (entry_candidates-IsPlaced entry source)
          (collect_glossary_candidates-IsPlaced source source_locale target_locale entries))
        (collect_glossary_candidates-IsPlaced source source_locale target_locale entries)
    where
      choose :
          (b : Bool) (xs ys : List ProtectedCandidate)
          → All (IsPlaced source) xs
          → All (IsPlaced source) ys
          → All (IsPlaced source) (if b then xs else ys)
      choose true xs ys h k = h
      choose false xs ys h k = k

  pub collect_candidates-IsPlaced :
      (source : Text) (source_locale target_locale : Option Text) (glossary : Option Glossary)
      → All
          (IsPlaced source)
          (collect_candidates is_alphanumeric source source_locale target_locale glossary)
  unfolding collect_candidates collect_fenced_code_candidates collect_inline_code_candidates
      collect_placeholder_candidates collect_url_candidates collect_email_candidates
  collect_candidates-IsPlaced source source_locale target_locale glossary =
      All-append (IsPlaced source) _ _
        (All-map (IsAt source) (IsPlaced source) automatic _ (λ x h. h)
          (All-append (IsAt source) _ _ (fenced_loop-IsAt (length source) source [] source refl) (
            All-append (IsAt source) _ _ (inline_loop-IsAt (length source) source [] source refl) (
              All-append (IsAt source) _ _
                (at_positions-IsAt _ source [] source
                  (with_front-Places placeholder_end placeholder_end-IsStart) refl)
                (All-append (IsAt source) _ _
                  (at_positions-IsAt _ source [] source (with_front-Places url_end url_end-IsStart)
                    refl)
                  (at_positions-IsAt email_at source [] source email_at-Places refl))))))
        (of_glossary target_locale glossary)
    where
      of_glossary :
          (target : Option Text) (g : Option Glossary)
          → All
              (IsPlaced source)
              (glossary_candidates is_alphanumeric source source_locale target g)
      of_glossary none none = tt
      of_glossary none (some g) = tt
      of_glossary (some t) none = tt
      of_glossary (some t) (some g) =
          collect_glossary_candidates-IsPlaced source source_locale t g.entries
