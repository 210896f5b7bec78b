-- ===== src/Routing/Order.antt =====
-- The comparison of ranks is an order, whose ties are candidates with the same key.
use Prim.Native.Nat.{compare, Ordering}
use linguamesh_core.Base.{
  cmp_int, ◌≡◌, refl, [], ◌∷◌, Text, ℤ, pos, negsuc, arith, cmp_list, cmp_list-IsOrder, Chain,
  IsOrder, compare-IsOrder, cmp_then-IsOrder, cmp_by, reversed-IsOrder,
}
use linguamesh_core.Routing.Types.{RoutingRank, key}
use linguamesh_core.Routing.Ranking.{compare_ranks}

cmp_int-Chain : (a b c : ℤ) → Chain (cmp_int a b) (cmp_int b c) (cmp_int a c)
cmp_int-Chain (pos a) (pos b) (pos c) = ground arith
cmp_int-Chain (pos a) (pos b) (negsuc c) = ground arith
cmp_int-Chain (pos a) (negsuc b) (pos c) = ground arith
cmp_int-Chain (pos a) (negsuc b) (negsuc c) = ground arith
cmp_int-Chain (negsuc a) (pos b) (pos c) = ground arith
cmp_int-Chain (negsuc a) (pos b) (negsuc c) = ground arith
cmp_int-Chain (negsuc a) (negsuc b) (pos c) = ground arith
cmp_int-Chain (negsuc a) (negsuc b) (negsuc c) = ground arith

cmp_int-IsOrder : IsOrder cmp_int
cmp_int-IsOrder = record { flip = λ a b. ground arith; chain = cmp_int-Chain }

pub by_key-IsOrder {ℓ κ} :
    {A : Type ℓ} {B : Type κ} {cmp : B → B → Ordering} (f : A → B)
    → IsOrder cmp
    → IsOrder (cmp_by cmp f)
by_key-IsOrder f ord = record {
  flip = λ a b. ord.flip (f a) (f b);
  chain = λ a b c. ord.chain (f a) (f b) (f c);
}

pub compare_ranks-IsOrder : IsOrder compare_ranks
unfolding compare_ranks
compare_ranks-IsOrder =
    cmp_then-IsOrder {c = λ a b. cmp_list cmp_int b.score_components a.score_components}
      {d = λ a b. cmp_list compare (key a.candidate) (key b.candidate)}
      (reversed-IsOrder (
        by_key-IsOrder (λ (r : RoutingRank). r.score_components)
          (cmp_list-IsOrder cmp_int-IsOrder)))
      (by_key-IsOrder (λ (r : RoutingRank). key r.candidate) (cmp_list-IsOrder compare-IsOrder))

cmp_list-eq : (s t : Text) → cmp_list compare s t ≡ Ordering.eq → s ≡ t
cmp_list-eq [] [] h = refl
cmp_list-eq [] (d ∷ t) h = cc
cmp_list-eq (c ∷ s) [] h = cc
cmp_list-eq (c ∷ s) (d ∷ t) h = ground (arith, cmp_list-eq s t)

-- Only equal keys tie.
pub compare_ranks-eq :
    (a b : RoutingRank) → compare_ranks a b ≡ Ordering.eq → key a.candidate ≡ key b.candidate
unfolding compare_ranks
compare_ranks-eq a b h = cmp_list-eq (key a.candidate) (key b.candidate) (ground arith)
