-- ===== src/Catalog/Shapes.antt =====
-- What the tests of texts in crates/linguamesh-provider-catalog/src/lib.rs accept.
use linguamesh_core.Base.{
  inr, inl, ◌≡◌, ◌≢◌, ◌≤◌, ◌⊎◌, refl, sym, ap, ◌∙◌, ℕ, Bool, true, false, not, ◌&&◌, Option, none,
  some, List, [], ◌∷◌, ◌++◌, All, all, any, length, is_empty, Text, codes, starts_with,
  is_whitespace, or-eq-false, and-eq-true, not-eq-false, ==_iff, ◌==◌, Bool-cases, arith,
}
use linguamesh_core.Protection.Success.{starts_with-IsStart}
use linguamesh_core.Catalog.{
  put_part, split_at, is_ascii_digit, is_semantic_version, is_stable_id, is_unsafe_url,
}

abbrev pub IsDigit : ℕ → Type 0
IsDigit c = (48 ≤ c) × (c ≤ 57)

-- A number in decimal digits.
abbrev pub IsNumber : Text → Type 0
IsNumber t = (t ≢ []) × All IsDigit t

-- Three numbers with dots between them.
abbrev pub IsVersion : Text → Type 0
IsVersion t =
    (major : Text) × (minor : Text) × (patch : Text) × IsNumber major
    × IsNumber minor
    × IsNumber patch
    × (t ≡ major ++ (46 ∷ (minor ++ (46 ∷ patch))))

-- Small letters, digits and dashes.
abbrev pub IsStableId : Text → Type 0
IsStableId t = (t ≢ []) × All (λ c. ((97 ≤ c) × (c ≤ 122)) ⊎ IsDigit c ⊎ (c ≡ 45)) t

-- An encrypted address without a space of any kind.
abbrev pub IsSafeUrl : Option Text → Type 0
IsSafeUrl none = Unit
IsSafeUrl (some url) =
    ((rest : Text) × (url ≡ codes "https://" ++ rest)) × All (λ c. is_whitespace c ≡ false) url

pub is_empty-ne : (t : Text) → is_empty t ≡ false → t ≢ []
is_empty-ne [] h = cc
is_empty-ne (c ∷ t) h = λ e. cc

all-All :
    {A : Type 0} (p : A → Bool) (P : A → Type 0)
    → ((a : A) → p a ≡ true → P a)
    → (xs : List A) → all p xs ≡ true
    → All P xs
all-All p P f [] h = tt
all-All p P f (x ∷ xs) h =
    let (a, b) = and-eq-true (p x) (all p xs) h in (f x a, all-All p P f xs b)

any-All : (p : ℕ → Bool) (t : Text) → any p t ≡ false → All (λ c. p c ≡ false) t
any-All p [] h = tt
any-All p (c ∷ t) h = let (a, b) = or-eq-false (p c) (any p t) h in (a, any-All p t b)

is_ascii_digit-IsDigit : (c : ℕ) → is_ascii_digit c ≡ true → IsDigit c
is_ascii_digit-IsDigit c h = ground arith

all_digits-IsNumber : (t : Text) → (not (is_empty t) && all is_ascii_digit t) ≡ true → IsNumber t
all_digits-IsNumber t h =
    let (a, b) = and-eq-true (not (is_empty t)) (all is_ascii_digit t) h in
    (is_empty-ne t (ground arith), all-All is_ascii_digit IsDigit is_ascii_digit-IsDigit t b)

pub is_stable_id-IsStableId : (t : Text) → is_stable_id t ≡ true → IsStableId t
unfolding is_stable_id
is_stable_id-IsStableId t h =
    let (a, b) = and-eq-true (not (is_empty t)) _ h in
    (is_empty-ne t (ground arith), all-All _ _ (λ c e. ground arith) t b)

-- The parts with the separator put back between them.
join_parts : ℕ → List Text → Text
join_parts d [] = []
join_parts d (part ∷ []) = part
join_parts d (part ∷ next ∷ parts) = part ++ (d ∷ join_parts d (next ∷ parts))

put_part-join_parts :
    (d c : ℕ) (parts : List Text) → join_parts d (put_part c parts) ≡ c ∷ join_parts d parts
unfolding join_parts
put_part-join_parts d c [] = refl
put_part-join_parts d c (part ∷ []) = refl
put_part-join_parts d c (part ∷ next ∷ parts) = refl

new_part-join_parts :
    (d : ℕ) (parts : List Text) → parts ≢ [] → join_parts d ([] ∷ parts) ≡ d ∷ join_parts d parts
unfolding join_parts
new_part-join_parts d [] h = absurd (h refl)
new_part-join_parts d (part ∷ parts) h = refl

put_part-ne : (c : ℕ) (parts : List Text) → put_part c parts ≢ []
put_part-ne c [] = λ e. cc
put_part-ne c (part ∷ parts) = λ e. cc

split_at-ne : (d : ℕ) (s : Text) → split_at d s ≢ []
split_at-ne d [] = λ e. cc
split_at-ne d (c ∷ s) = elim (Bool-cases (c == d)) [
  | inl e ↦ rw e (λ f. cc)
  | inr e ↦ rw e (put_part-ne c (split_at d s))
]

split_at-join_parts : (d : ℕ) (s : Text) → join_parts d (split_at d s) ≡ s
unfolding join_parts
split_at-join_parts d [] = refl
split_at-join_parts d (c ∷ s) = elim (Bool-cases (c == d)) [
  | inl e ↦
      let same : c ≡ d = (==_iff c d).0 e in
      rw e (
        new_part-join_parts d (split_at d s) (split_at-ne d s)
        ∙ ap (λ t. d ∷ t) (split_at-join_parts d s)
        ∙ ap (λ x. x ∷ s) (sym same))
  | inr e ↦
      rw e (put_part-join_parts d c (split_at d s) ∙ ap (λ t. c ∷ t) (split_at-join_parts d s))
]

pub is_semantic_version-IsVersion : (t : Text) → is_semantic_version t ≡ true → IsVersion t
unfolding is_semantic_version join_parts
is_semantic_version-IsVersion t h =
    let (a, b) = and-eq-true (length (split_at 46 t) == 3) _ h in
    three (split_at 46 t) (split_at-join_parts 46 t) ((==_iff _ 3).0 a)
      (all-All _ IsNumber all_digits-IsNumber (split_at 46 t) b)
  where
    three :
        (parts : List Text)
        → join_parts 46 parts ≡ t
        → length parts ≡ 3
        → All IsNumber parts
        → IsVersion t
    three [] e l n = ground arith
    three (a ∷ []) e l n = ground arith
    three (a ∷ b ∷ []) e l n = ground arith
    three (a ∷ b ∷ c ∷ []) e l n = (a, b, c, n.0, n.1.0, n.1.1.0, sym e)
    three (a ∷ b ∷ c ∷ d ∷ rest) e l n = ground arith

pub is_unsafe_url-IsSafeUrl : (url : Text) → is_unsafe_url url ≡ false → IsSafeUrl (some url)
is_unsafe_url-IsSafeUrl url h =
    let (a, b) = or-eq-false (not (starts_with url (codes "https://"))) _ h in
    (starts_with-IsStart url (codes "https://") (not-eq-false _ a), any-All is_whitespace url b)
