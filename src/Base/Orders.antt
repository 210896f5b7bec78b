-- ===== src/Base/Orders.antt =====
-- Comparisons as functions into `Ordering`, with `Ordering::then_with` and the order of vectors.
use Prim.Native.Nat.{compare, Ordering}
use mathlib.Core.Path.{◌≡◌, refl, sym}
use mathlib.Core.List.{List, [], ◌∷◌}
use native.Mathlib.Omega.{arith}

-- `Ordering::reverse` and `Ordering::then_with`.
abbrev pub reverse_order : Ordering → Ordering
reverse_order Ordering.lt = Ordering.gt
reverse_order Ordering.eq = Ordering.eq
reverse_order Ordering.gt = Ordering.lt

abbrev pub then_with : Ordering → Ordering → Ordering
then_with Ordering.eq p = p
then_with o p = o

-- What the outcomes at `a b` and at `b c` say of the one at `a c`.
abbrev pub Chain : Ordering → Ordering → Ordering → Type 0
Chain Ordering.lt Ordering.gt r = Unit
Chain Ordering.gt Ordering.lt r = Unit
Chain Ordering.eq p r = r ≡ p
Chain o p r = r ≡ o

pub record IsOrder {ℓ} {A : Type ℓ} (cmp : A → A → Ordering) : Type ℓ where
  pub flip : (a b : A) → cmp b a ≡ reverse_order (cmp a b)
  pub chain : (a b c : A) → Chain (cmp a b) (cmp b c) (cmp a c)

pub Chain-then_with :
    (o p r o' p' r' : Ordering)
    → Chain o p r
    → Chain o' p' r'
    → Chain (then_with o o') (then_with p p') (then_with r r')
Chain-then_with Ordering.lt Ordering.lt r o' p' r' h h' = ground arith
Chain-then_with Ordering.lt Ordering.eq r o' p' r' h h' = ground arith
Chain-then_with Ordering.lt Ordering.gt r o' p' r' h h' = tt
Chain-then_with Ordering.eq Ordering.lt r o' p' r' h h' = ground arith
Chain-then_with Ordering.eq Ordering.eq r o' p' r' h h' = rw h h'
Chain-then_with Ordering.eq Ordering.gt r o' p' r' h h' = ground arith
Chain-then_with Ordering.gt Ordering.lt r o' p' r' h h' = tt
Chain-then_with Ordering.gt Ordering.eq r o' p' r' h h' = ground arith
Chain-then_with Ordering.gt Ordering.gt r o' p' r' h h' = ground arith

pub compare-IsOrder : IsOrder compare
compare-IsOrder = record { flip = λ a b. ground arith; chain = λ a b c. ground arith }

-- The order of `Vec<T>` and of `str`: the first elements that differ decide, then the length.
abbrev pub cmp_list {ℓ} : {A : Type ℓ} → (A → A → Ordering) → List A → List A → Ordering
cmp_list cmp [] [] = Ordering.eq
cmp_list cmp [] (y ∷ ys) = Ordering.lt
cmp_list cmp (x ∷ xs) [] = Ordering.gt
cmp_list cmp (x ∷ xs) (y ∷ ys) = then_with (cmp x y) (cmp_list cmp xs ys)

reverse_order-then_with :
    (o p : Ordering) → reverse_order (then_with o p) ≡ then_with (reverse_order o) (reverse_order p)
reverse_order-then_with o p = ground arith

module _ {ℓ} {A : Type ℓ} {cmp : A → A → Ordering} (ord : IsOrder cmp) where
  cmp_list-flip : (xs ys : List A) → cmp_list cmp ys xs ≡ reverse_order (cmp_list cmp xs ys)
  cmp_list-flip [] [] = refl
  cmp_list-flip [] (y ∷ ys) = refl
  cmp_list-flip (x ∷ xs) [] = refl
  cmp_list-flip (x ∷ xs) (y ∷ ys) =
      rw (ord.flip x y, cmp_list-flip xs ys)
        (sym (reverse_order-then_with (cmp x y) (cmp_list cmp xs ys)))

  cmp_list-Chain :
      (xs ys zs : List A) → Chain (cmp_list cmp xs ys) (cmp_list cmp ys zs) (cmp_list cmp xs zs)
  cmp_list-Chain [] [] [] = refl
  cmp_list-Chain [] [] (z ∷ zs) = refl
  cmp_list-Chain [] (y ∷ ys) [] = tt
  cmp_list-Chain [] (y ∷ ys) (z ∷ zs) =
      elim (then_with (cmp y z) (cmp_list cmp ys zs)) as (λ p. Chain Ordering.lt p Ordering.lt) [
        | Ordering.lt ↦ refl
        | Ordering.eq ↦ refl
        | Ordering.gt ↦ tt
      ]
  cmp_list-Chain (x ∷ xs) [] [] = refl
  cmp_list-Chain (x ∷ xs) [] (z ∷ zs) = tt
  cmp_list-Chain (x ∷ xs) (y ∷ ys) [] =
      elim (then_with (cmp x y) (cmp_list cmp xs ys)) as (λ p. Chain p Ordering.gt Ordering.gt) [
        | Ordering.lt ↦ tt
        | Ordering.eq ↦ refl
        | Ordering.gt ↦ refl
      ]
  cmp_list-Chain (x ∷ xs) (y ∷ ys) (z ∷ zs) =
      Chain-then_with (cmp x y) (cmp y z) (cmp x z) (cmp_list cmp xs ys) (cmp_list cmp ys zs)
        (cmp_list cmp xs zs) (ord.chain x y z) (cmp_list-Chain xs ys zs)

  pub cmp_list-IsOrder : IsOrder (cmp_list cmp)
  cmp_list-IsOrder = record { flip = cmp_list-flip; chain = cmp_list-Chain }

-- Two comparisons in turn, each of a key of the element.
abbrev pub cmp_by {ℓ κ} :
    {A : Type ℓ} {B : Type κ} → (B → B → Ordering) → (A → B) → A → A → Ordering
cmp_by cmp f a b = cmp (f a) (f b)

abbrev pub cmp_then {ℓ} : {A : Type ℓ} → (A → A → Ordering) → (A → A → Ordering) → A → A → Ordering
cmp_then c d a b = then_with (c a b) (d a b)

pub cmp_then-IsOrder {ℓ} :
    {A : Type ℓ} {c d : A → A → Ordering} → IsOrder c → IsOrder d → IsOrder (cmp_then c d)
cmp_then-IsOrder {c} {d} oc od = record {
  flip = λ a b. rw (oc.flip a b, od.flip a b) (sym (reverse_order-then_with (c a b) (d a b)));
  chain = λ x y z.
      Chain-then_with (c x y) (c y z) (c x z) (d x y) (d y z) (d x z) (oc.chain x y z)
        (od.chain x y z);
}

-- `|a, b| cmp(b, a)`.
pub reversed-IsOrder {ℓ} : {A : Type ℓ} {c : A → A → Ordering} → IsOrder c → IsOrder (λ a b. c b a)
reversed-IsOrder {c} oc = record {
  flip = λ a b. oc.flip b a;
  chain = λ x y z. Chain-swap (c y x) (c z y) (c z x) (oc.chain z y x);
}
  where
    Chain-swap : (o p r : Ordering) → Chain p o r → Chain o p r
    Chain-swap Ordering.lt Ordering.lt r h = h
    Chain-swap Ordering.lt Ordering.eq r h = h
    Chain-swap Ordering.lt Ordering.gt r h = tt
    Chain-swap Ordering.eq Ordering.lt r h = h
    Chain-swap Ordering.eq Ordering.eq r h = h
    Chain-swap Ordering.eq Ordering.gt r h = h
    Chain-swap Ordering.gt Ordering.lt r h = tt
    Chain-swap Ordering.gt Ordering.eq r h = h
    Chain-swap Ordering.gt Ordering.gt r h = h
