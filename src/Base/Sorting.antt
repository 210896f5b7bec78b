-- ===== src/Base/Sorting.antt =====
-- The stable `sort_by` of the standard library, as insertion from the right: an element goes
-- before the first one that it is not greater than, so equal elements keep their order.
use Prim.Native.Nat.{Ordering}
use mathlib.Core.Path.{◌≡◌, refl, ap, ◌∙◌, subst}
use mathlib.Core.Logic.{◌≢◌, inl, inr}
use mathlib.Core.Bool.{Bool, true, false}
use mathlib.Core.List.{List, [], ◌∷◌, map, Permᴰ}
use native.Mathlib.Omega.{arith}
use linguamesh_core.Base.Tests.{if◌then◌else◌, Bool-cases}
use linguamesh_core.Base.Lists.{All}
use linguamesh_core.Base.Orders.{IsOrder}

abbrev pub is_gt : Ordering → Bool
is_gt Ordering.gt = true
is_gt o = false

pub Permᴰ-refl {ℓ} : {A : Type ℓ} (l : List A) → Permᴰ l l
Permᴰ-refl [] = Permᴰ.nil
Permᴰ-refl (z ∷ l) = Permᴰ.cons refl (Permᴰ-refl l)

module _ {ℓ} {A : Type ℓ} where
  unfoldable pub insert_by : (A → A → Ordering) → A → List A → List A
  insert_by cmp x [] = x ∷ []
  insert_by cmp x (y ∷ ys) = if is_gt (cmp x y) then y ∷ insert_by cmp x ys else x ∷ y ∷ ys

  unfoldable pub sort_by : (A → A → Ordering) → List A → List A
  unfolding insert_by
  sort_by cmp [] = []
  sort_by cmp (x ∷ xs) = insert_by cmp x (sort_by cmp xs)

  -- Every element is related to those behind it.
  abbrev pub Sorted : (A → A → Ordering) → List A → Type 0
  Sorted cmp [] = Unit {0}
  Sorted cmp (x ∷ xs) = All (λ y. is_gt (cmp x y) ≡ false) xs × Sorted cmp xs

  -- No two elements compare equal.
  abbrev pub NoTies : (A → A → Ordering) → List A → Type 0
  NoTies cmp [] = Unit {0}
  NoTies cmp (x ∷ xs) = All (λ y. cmp x y ≢ Ordering.eq) xs × NoTies cmp xs

  insert_by-perm :
      (cmp : A → A → Ordering) (x : A) (xs : List A) → Permᴰ (x ∷ xs) (insert_by cmp x xs)
  unfolding insert_by
  insert_by-perm cmp x [] = Permᴰ.cons refl Permᴰ.nil
  insert_by-perm cmp x (y ∷ ys) = elim (Bool-cases (is_gt (cmp x y))) [
    | inl g ↦ rw g (Permᴰ.trans (Permᴰ.swap refl refl) (Permᴰ.cons refl (insert_by-perm cmp x ys)))
    | inr l ↦ rw l (Permᴰ-refl (x ∷ y ∷ ys))
  ]

  pub sort_by-perm : (cmp : A → A → Ordering) (xs : List A) → Permᴰ xs (sort_by cmp xs)
  unfolding sort_by
  sort_by-perm cmp [] = Permᴰ.nil
  sort_by-perm cmp (x ∷ xs) =
      Permᴰ.trans (Permᴰ.cons refl (sort_by-perm cmp xs)) (insert_by-perm cmp x (sort_by cmp xs))

  pub All-perm {κ} : (P : A → Type κ) {xs ys : List A} → Permᴰ xs ys → All P xs → All P ys
  All-perm P Permᴰ.nil h = h
  All-perm P (Permᴰ.cons e p) h = (rw e at h.0, All-perm P p h.1)
  All-perm P (Permᴰ.swap e f) h = (rw f at h.1.0, (rw e at h.0, h.1.1))
  All-perm P (Permᴰ.trans p q) h = All-perm P q (All-perm P p h)

module _ {ℓ} {A : Type ℓ} {cmp : A → A → Ordering} (ord : IsOrder cmp) where
  not_gt_trans :
      (a b c : A) → is_gt (cmp a b) ≡ false → is_gt (cmp b c) ≡ false → is_gt (cmp a c) ≡ false
  not_gt_trans a b c h k = ground (arith, ord.chain a b c)

  All-not_gt :
      (a b : A) (xs : List A)
      → is_gt (cmp a b) ≡ false
      → All (λ y. is_gt (cmp b y) ≡ false) xs
      → All (λ y. is_gt (cmp a y) ≡ false) xs
  All-not_gt a b [] h k = tt
  All-not_gt a b (x ∷ xs) h k = (not_gt_trans a b x h k.0, All-not_gt a b xs h k.1)

  insert_by-Sorted : (x : A) (xs : List A) → Sorted cmp xs → Sorted cmp (insert_by cmp x xs)
  unfolding insert_by
  insert_by-Sorted x [] h = (tt, tt)
  insert_by-Sorted x (y ∷ ys) h = elim (Bool-cases (is_gt (cmp x y))) [
    | inl g ↦ rw g (
      All-perm (λ z. is_gt (cmp y z) ≡ false) (insert_by-perm cmp x ys)
          (ground (arith, ord.flip x y), h.0),
      insert_by-Sorted x ys h.1,
    )
    | inr l ↦ rw l ((l, All-not_gt x y ys l h.0), h)
  ]

  pub sort_by-Sorted : (xs : List A) → Sorted cmp (sort_by cmp xs)
  unfolding sort_by
  sort_by-Sorted [] = tt
  sort_by-Sorted (x ∷ xs) = insert_by-Sorted x (sort_by cmp xs) (sort_by-Sorted xs)

  insert_by_comm :
      (x y : A) (zs : List A)
      → cmp x y ≢ Ordering.eq
      → insert_by cmp x (insert_by cmp y zs) ≡ insert_by cmp y (insert_by cmp x zs)
  unfolding insert_by
  insert_by_comm x y [] h = ground (arith, ord.flip x y)
  insert_by_comm x y (z ∷ zs) h =
      ground (arith, ord.flip x y, ord.chain x y z, ord.chain y x z, insert_by_comm x y zs)

  NoTies-perm : {xs ys : List A} → Permᴰ xs ys → NoTies cmp xs → NoTies cmp ys
  NoTies-perm Permᴰ.nil h = h
  NoTies-perm (Permᴰ.cons {a} {b} {l₁ = l} e p) h = (
    All-perm (λ y. cmp b y ≢ Ordering.eq) p (subst (λ c. All (λ y. cmp c y ≢ Ordering.eq) l) e h.0),
    NoTies-perm p h.1,
  )
  NoTies-perm (Permᴰ.swap {a} {b} {a'} {b'} {l} e f) h = (
    (
      ground (arith, ord.flip a b, h.0.0, e, f),
      subst (λ c. All (λ y. cmp c y ≢ Ordering.eq) l) f h.1.0,
    ),
    (subst (λ c. All (λ y. cmp c y ≢ Ordering.eq) l) e h.0.1, h.1.1),
  )
  NoTies-perm (Permᴰ.trans p q) h = NoTies-perm q (NoTies-perm p h)

  -- Without ties the outcome does not depend on the order in which the elements come.
  pub sort_by_unique :
      {xs ys : List A} → Permᴰ xs ys → NoTies cmp xs → sort_by cmp xs ≡ sort_by cmp ys
  unfolding sort_by
  sort_by_unique Permᴰ.nil h = refl
  sort_by_unique (Permᴰ.cons e p) h = rw (e, sort_by_unique p h.1)
  sort_by_unique (Permᴰ.swap {a} {b} {a'} {b'} {l} e f) h =
      rw (← e, ← f) (insert_by_comm a b (sort_by cmp l) h.0.0)
  sort_by_unique (Permᴰ.trans p q) h = sort_by_unique p h ∙ sort_by_unique q (NoTies-perm p h)

pub Permᴰ-map {ℓ κ} :
    {A : Type ℓ} {B : Type κ} (f : A → B) {xs ys : List A}
    → Permᴰ xs ys
    → Permᴰ (map f xs) (map f ys)
Permᴰ-map f Permᴰ.nil = Permᴰ.nil
Permᴰ-map f (Permᴰ.cons e q) = Permᴰ.cons (ap f e) (Permᴰ-map f q)
Permᴰ-map f (Permᴰ.swap e g) = Permᴰ.swap (ap f e) (ap f g)
Permᴰ-map f (Permᴰ.trans q r) = Permᴰ.trans (Permᴰ-map f q) (Permᴰ-map f r)
