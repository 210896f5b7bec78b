-- ===== src/Routing/Identifiers.antt =====
-- What validation secures for the identifiers of a routing profile.
use linguamesh_core.Base.{
  ◌≤◌, ◌≡◌, ◌≢◌, ◌↔◌, refl, true, false, List, [], ◌++◌, ◌∷◌, Text, len, length, all, any, All,
  arith, ok, reject_if, reject_if-eq-ok, >>-eq-ok, not-ltb→le, for_each, for_each-eq-ok, ltb,
  not-any-All,
}
use Prim.Native.String.{String}
use linguamesh_core.Routing.Types.{RoutingCandidate, RoutingProfile, key}
use linguamesh_core.Routing.Validation.{
  is_identifier_byte, validate_identifier, validate_candidate, validate_unique, validate_candidates,
  validate, same_pair,
}

-- An identifier is not empty, has at most 128 bytes, and only bytes that are allowed.
pub record IsIdentifier (s : Text) : Type 0 where
  pub not_empty : s ≢ []
  pub bounded : len s ≤ 128
  pub allowed : all is_identifier_byte s ≡ true

pub validate_identifier-IsIdentifier :
    (s : Text) (field : String) → (validate_identifier s field ≡ ok tt) ↔ IsIdentifier s
unfolding validate_identifier
validate_identifier-IsIdentifier [] field = (λ h. ground arith, λ h. absurd (h.not_empty refl))
validate_identifier-IsIdentifier (c ∷ s) field = (λ h. ground arith, λ h. ground arith)

-- The first '@' ends the provider's identifier.
split_key :
    (s t u v : Text)
    → all is_identifier_byte s ≡ true
    → all is_identifier_byte t ≡ true
    → s ++ (b'@' ∷ u) ≡ t ++ (b'@' ∷ v)
    → (s ≡ t) × (u ≡ v)
split_key [] [] u v hs ht e = (refl, cc)
split_key [] (d ∷ t) u v hs ht e = absurd (ground arith)
split_key (c ∷ s) [] u v hs ht e = absurd (ground arith)
split_key (c ∷ s) (d ∷ t) u v hs ht e =
    let (p, q) = split_key s t u v (ground arith) (ground arith) (cc) in (ground arith, q)

-- A candidate as validation leaves it.
pub record IsWellFormed (c : RoutingCandidate) : Type 0 where
  pub provider : IsIdentifier c.provider_id
  pub model : IsIdentifier c.model_id
  pub capacity : 1 ≤ c.context_capacity_bytes

-- Well-formed candidates with the same key are of the same provider and model.
pub key_injective :
    (c d : RoutingCandidate)
    → IsWellFormed c
    → IsWellFormed d
    → key c ≡ key d
    → (c.provider_id ≡ d.provider_id) × (c.model_id ≡ d.model_id)
unfolding key
key_injective c d wc wd e =
    split_key c.provider_id d.provider_id c.model_id d.model_id wc.provider.allowed
      wd.provider.allowed e

validate_candidate-IsWellFormed :
    (c : RoutingCandidate) → validate_candidate c ≡ ok tt → IsWellFormed c
unfolding validate_candidate
validate_candidate-IsWellFormed c h =
    let (p, h1) = >>-eq-ok (validate_identifier c.provider_id "provider_id") _ h in
    let (m, h2) = >>-eq-ok (validate_identifier c.model_id "model_id") _ h1 in
    record {
      provider = (validate_identifier-IsIdentifier c.provider_id "provider_id").0 p;
      model = (validate_identifier-IsIdentifier c.model_id "model_id").0 m;
      capacity = ground arith;
    }

-- Each candidate differs from those before it.
pub data IsUnique : List RoutingCandidate → List RoutingCandidate → Type 0 where
  done : {previous : List RoutingCandidate} → IsUnique previous []
  next :
      {previous rest : List RoutingCandidate} {c : RoutingCandidate}
      → All (λ d. same_pair c d ≡ false) previous
      → IsUnique (previous ++ c ∷ []) rest
      → IsUnique previous (c ∷ rest)

validate_unique-IsUnique :
    (previous cs : List RoutingCandidate)
    → validate_unique previous cs ≡ ok tt
    → IsUnique previous cs
unfolding validate_unique
validate_unique-IsUnique previous [] h = done
validate_unique-IsUnique previous (c ∷ cs) h =
    let (a, b) = >>-eq-ok (reject_if (any (same_pair c) previous) _) _ h in
    next (not-any-All (same_pair c) previous (reject_if-eq-ok _ _ a))
      (validate_unique-IsUnique (previous ++ c ∷ []) cs b)

-- What holds of the candidates of a profile that passes `validate`.
pub record IsValid (cs : List RoutingCandidate) : Type 0 where
  pub some_candidate : cs ≢ []
  pub few : length cs ≤ 32
  pub well_formed : All IsWellFormed cs
  pub unique : IsUnique [] cs

All-map {ℓ κ μ} :
    {A : Type ℓ} {P : A → Type κ} {Q : A → Type μ} (f : (a : A) → P a → Q a) (xs : List A)
    → All P xs
    → All Q xs
All-map f [] h = tt
All-map f (x ∷ xs) h = (f x h.0, All-map f xs h.1)

validate_candidates-IsValid :
    (cs : List RoutingCandidate) → validate_candidates cs ≡ ok tt → IsValid cs
unfolding validate_candidates
validate_candidates-IsValid [] h = absurd (ground arith)
validate_candidates-IsValid (c ∷ cs) h =
    let (few, h1) = >>-eq-ok (reject_if (ltb 32 (length (c ∷ cs))) _) _ h in
    let (each, h2) = >>-eq-ok (for_each validate_candidate (c ∷ cs)) _ h1 in
    record {
      some_candidate = λ e. cc;
      few = not-ltb→le 32 (length (c ∷ cs)) (reject_if-eq-ok _ _ few);
      well_formed =
          All-map validate_candidate-IsWellFormed (c ∷ cs)
            (for_each-eq-ok validate_candidate (c ∷ cs) each);
      unique = validate_unique-IsUnique [] (c ∷ cs) h2;
    }

-- The candidates of a profile that passes validation are one to 32, well formed, and of distinct
-- provider and model.
pub validate-IsValid : (p : RoutingProfile) → validate p ≡ ok tt → IsValid p.candidates
unfolding validate
validate-IsValid p h =
    let (_, h1) = >>-eq-ok (validate_identifier p.id "routing profile id") _ h in
    validate_candidates-IsValid p.candidates (>>-eq-ok (validate_candidates p.candidates) _ h1).0
