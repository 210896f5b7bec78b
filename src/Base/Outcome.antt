-- ===== src/Base/Outcome.antt =====
-- Rust's `Result`, with the operator `?` as the bind of a `do` block.
use mathlib.Core.Path.{◌≡◌, refl}
use mathlib.Core.Bool.{Bool, true, false}
use mathlib.Core.List.{List, [], ◌∷◌}
use linguamesh_core.Base.Lists.{All}

pub data Result {ℓ κ} (A : Type ℓ) (E : Type κ) : Type (ℓ ⊔ κ) where
  ok : A → Result A E
  err : E → Result A E

infixl 5 ◌>>=◌ ◌>>◌
abbrev pub ◌>>=◌ {ℓ κ μ} :
    {T : Type ℓ} {U : Type κ} {E : Type μ} → (r : Result T E) → (next : T → Result U E) → Result U E
r >>= next = elim r [ ok value ↦ next value | err failure ↦ err failure ]

abbrev pub ◌>>◌ {ℓ κ} :
    {U : Type ℓ} {E : Type κ} → (r : Result (Unit {0}) E) → (rest : Result U E) → Result U E
r >> rest = elim r [ ok _ ↦ rest | err failure ↦ err failure ]

-- `if test { return Err(e); }`
abbrev pub reject_if {κ} : {E : Type κ} → Bool → E → Result (Unit {0}) E
reject_if true e = err e
reject_if false e = ok tt

-- A chain that succeeds has succeeded in its first step.
pub >>=-eq-ok {ℓ κ μ} :
    {T : Type ℓ} {U : Type κ} {E : Type μ} (r : Result T E) (next : T → Result U E) {u : U}
    → (r >>= next) ≡ ok u
    → (value : T) × (r ≡ ok value) × (next value ≡ ok u)
>>=-eq-ok (ok value) next success = (value, refl, success)
>>=-eq-ok (err failure) next success = cc

pub >>-eq-ok {ℓ κ} :
    {U : Type ℓ} {E : Type κ} (r : Result (Unit {0}) E) (rest : Result U E) {u : U}
    → (r >> rest) ≡ ok u
    → (r ≡ ok tt) × (rest ≡ ok u)
>>-eq-ok (ok _) rest success = (refl, success)
>>-eq-ok (err failure) rest success = cc

pub reject_if-eq-ok {κ} : {E : Type κ} (b : Bool) (e : E) → reject_if b e ≡ ok tt → b ≡ false
reject_if-eq-ok true e h = cc
reject_if-eq-ok false e h = refl

-- `for x in xs { f(x)?; }`
abbrev pub for_each {ℓ κ} :
    {A : Type ℓ} {E : Type κ} → (A → Result (Unit {0}) E) → List A → Result (Unit {0}) E
for_each f [] = ok tt
for_each f (x ∷ xs) = f x >> for_each f xs

pub for_each-eq-ok {ℓ κ} :
    {A : Type ℓ} {E : Type κ} (f : A → Result (Unit {0}) E) (xs : List A)
    → for_each f xs ≡ ok tt
    → All (λ x. f x ≡ ok tt) xs
for_each-eq-ok f [] h = tt
for_each-eq-ok f (x ∷ xs) h =
    let (a, b) = >>-eq-ok (f x) (for_each f xs) h in (a, for_each-eq-ok f xs b)
