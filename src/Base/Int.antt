-- ===== src/Base/Int.antt =====
-- Signed integers over the native numbers, with the tests that the program makes on them.
use Prim.Native.Nat.{compare, Ordering, ℕ, zero, suc}
use mathlib.Core.Bool.{Bool, true, false}
use linguamesh_core.Base.Tests.{ltb, ◌==◌}

-- `negsuc n` is -(n + 1).
pub data ℤ : Type 0 where
  pos : ℕ → ℤ
  negsuc : ℕ → ℤ

abbrev pub is_negative : ℤ → Bool
is_negative (pos n) = false
is_negative (negsuc n) = true

-- `<` and `==`.
abbrev pub int_ltb : ℤ → ℤ → Bool
int_ltb (pos m) (pos n) = ltb m n
int_ltb (pos m) (negsuc n) = false
int_ltb (negsuc m) (pos n) = true
int_ltb (negsuc m) (negsuc n) = ltb n m

abbrev pub int_eq : ℤ → ℤ → Bool
int_eq (pos m) (pos n) = m == n
int_eq (negsuc m) (negsuc n) = m == n
int_eq _ _ = false

-- The negation of a natural number.
abbrev pub neg : ℕ → ℤ
neg zero = pos 0
neg (suc n) = negsuc n

-- The order of signed integers.
abbrev pub cmp_int : ℤ → ℤ → Ordering
cmp_int (pos m) (pos n) = compare m n
cmp_int (pos m) (negsuc n) = Ordering.gt
cmp_int (negsuc m) (pos n) = Ordering.lt
cmp_int (negsuc m) (negsuc n) = compare n m
