-- ===== src/Routing/Acceptance.antt =====
-- The conditions under which a candidate is accepted, stated without the order of the tests.
use linguamesh_core.Base.{
  ℕ, ◌≤◌, ◌≡◌, ◌↔◌, ◌⊎◌, inl, inr, refl, sym, true, false, ◌&&◌, not, Option, none, some, List, [],
  ◌∷◌, Memᴰ, Text, text_eq, text_eq_iff, text_eq_refl, arith, Bool-cases, is_empty,
}
use linguamesh_core.Routing.Types.{
  RoutingCandidate, RoutingConstraints, RoutingContext, RoutingProfile,
}
use linguamesh_core.Routing.Filter.{
  listed, lists_locale, is_some_and, placement_reason, capability_reason, rejection_reason,
}

listed-Memᴰ : (ids : List Text) (id : Text) → (listed ids id ≡ true) ↔ Memᴰ id ids
listed-Memᴰ ids id = (to ids, from ids)
  where
    to : (l : List Text) → listed l id ≡ true → Memᴰ id l
    to [] h = cc
    to (x ∷ l) h = elim (Bool-cases (text_eq x id)) [
      | inl e ↦ Memᴰ.head (sym ((text_eq_iff x id).0 e))
      | inr e ↦ Memᴰ.tail (to l (rw e at h))
    ]

    from : (l : List Text) → Memᴰ id l → listed l id ≡ true
    from [] m = elim m [ ]
    from (x ∷ l) (Memᴰ.head e) = rw (← e, text_eq_refl id)
    from (x ∷ l) (Memᴰ.tail m) = ground (arith, from l m)

abbrev pub AtMost : ℕ → Option ℕ → Type 0
AtMost n none = Unit
AtMost n (some limit) = n ≤ limit

abbrev pub AtLeast : ℕ → Option ℕ → Type 0
AtLeast n none = Unit
AtLeast n (some minimum) = minimum ≤ n

-- A list that is empty says that the candidate's locales are not known.
abbrev pub Speaks : List Text → Option Text → Type 0
Speaks locales none = Unit
Speaks locales (some locale) = (locales ≡ []) ⊎ (lists_locale locales locale ≡ true)

-- A remote candidate is refused where both the constraints and the request are privacy-sensitive,
-- as the code and its test have it, although the comment of the field of the constraints says that
-- it allows remote candidates for such requests.
pub record IsPlaced (k : RoutingConstraints) (c : RoutingCandidate) (x : RoutingContext)
    : Type 0 where
  pub provider_allowed : (k.provider_allowlist ≡ []) ⊎ Memᴰ c.provider_id k.provider_allowlist
  pub provider_not_denied : ¬ Memᴰ c.provider_id k.provider_denylist
  pub model_allowed : (k.model_allowlist ≡ []) ⊎ Memᴰ c.model_id k.model_allowlist
  pub model_not_denied : ¬ Memᴰ c.model_id k.model_denylist
  pub local_or_remote :
      (c.is_local ≡ true)
      ⊎ ((k.local_only ≡ false)
          × (k.allow_remote ≡ true)
          × ((k.privacy_sensitive ≡ false) ⊎ (x.privacy_sensitive ≡ false)))

pub record IsCapable (k : RoutingConstraints) (c : RoutingCandidate) (x : RoutingContext)
    : Type 0 where
  pub streams :
      (c.supports_streaming ≡ true)
      ⊎ ((k.require_streaming ≡ false) × (x.require_streaming ≡ false))
  pub reads_documents :
      (c.supports_document ≡ true) ⊎ ((k.require_document ≡ false) × (x.require_document ≡ false))
  pub fits : x.request_bytes ≤ c.context_capacity_bytes
  pub within_limit : AtMost x.request_bytes k.max_request_bytes
  pub good_enough : AtLeast c.quality_tier k.minimum_quality_tier
  pub speaks_source : Speaks c.source_locales x.source_locale
  pub speaks_target : Speaks c.target_locales (some x.target_locale)

allowlist_iff :
    (ids : List Text) (id : Text)
    → ((not (is_empty ids) && not (listed ids id)) ≡ false) ↔ ((ids ≡ []) ⊎ Memᴰ id ids)
allowlist_iff [] id = (λ h. inl refl, λ h. refl)
allowlist_iff (x ∷ ids) id = (
  λ h. inr ((listed-Memᴰ (x ∷ ids) id).0 (ground arith)),
  elim [ inl e ↦ cc | inr m ↦ ground (arith, (listed-Memᴰ (x ∷ ids) id).1 m) ],
)

denylist_iff : (ids : List Text) (id : Text) → (listed ids id ≡ false) ↔ (¬ Memᴰ id ids)
denylist_iff ids id = (
  λ h m. ground (arith, (listed-Memᴰ ids id).1 m),
  λ n. elim (Bool-cases (listed ids id)) [
    | inl t ↦ absurd (n ((listed-Memᴰ ids id).0 t))
    | inr f ↦ f
  ],
)

placement_reason-IsPlaced :
    (k : RoutingConstraints) (c : RoutingCandidate) (x : RoutingContext)
    → (placement_reason k c x ≡ none) ↔ IsPlaced k c x
unfolding placement_reason
placement_reason-IsPlaced k c x = (
  λ h. record {
    provider_allowed = (allowlist_iff k.provider_allowlist c.provider_id).0 (ground arith);
    provider_not_denied = (denylist_iff k.provider_denylist c.provider_id).0 (ground arith);
    model_allowed = (allowlist_iff k.model_allowlist c.model_id).0 (ground arith);
    model_not_denied = (denylist_iff k.model_denylist c.model_id).0 (ground arith);
    local_or_remote = ground arith;
  },
  λ s. ground (
    arith,
    (allowlist_iff k.provider_allowlist c.provider_id).1 s.provider_allowed,
    (denylist_iff k.provider_denylist c.provider_id).1 s.provider_not_denied,
    (allowlist_iff k.model_allowlist c.model_id).1 s.model_allowed,
    (denylist_iff k.model_denylist c.model_id).1 s.model_not_denied,
    s.local_or_remote,
  ),
)

Speaks-iff :
    (locales : List Text) (locale : Option Text)
    → (is_some_and (λ l. not (is_empty locales) && not (lists_locale locales l)) locale ≡ false)
      ↔ Speaks locales locale
Speaks-iff locales none = (λ h. tt, λ h. refl)
Speaks-iff [] (some l) = (λ h. inl refl, λ h. refl)
Speaks-iff (y ∷ locales) (some l) = (λ h. ground arith, λ h. ground arith)

capability_reason-IsCapable :
    (k : RoutingConstraints) (c : RoutingCandidate) (x : RoutingContext)
    → (capability_reason k c x ≡ none) ↔ IsCapable k c x
unfolding capability_reason
capability_reason-IsCapable k c x = (
  λ h. record {
    streams = ground arith;
    reads_documents = ground arith;
    fits = ground arith;
    within_limit = ground arith;
    good_enough = ground arith;
    speaks_source = (Speaks-iff c.source_locales x.source_locale).0 (ground arith);
    speaks_target = (Speaks-iff c.target_locales (some x.target_locale)).0 (ground arith);
  },
  λ s. ground (
    arith,
    s.streams,
    s.reads_documents,
    s.fits,
    s.within_limit,
    s.good_enough,
    (Speaks-iff c.source_locales x.source_locale).1 s.speaks_source,
    (Speaks-iff c.target_locales (some x.target_locale)).1 s.speaks_target,
  ),
)

-- A candidate is accepted exactly when it meets every condition: its provider and model are
-- allowed and not denied, it is local unless remote candidates are admitted for this request, which
-- they are not where the constraints and the request are both privacy-sensitive, it has the features asked for, the request fits it and the limit, its quality is high enough, and
-- its locales, where known, include those of the request.
pub rejection_reason-IsAccepted :
    (p : RoutingProfile) (c : RoutingCandidate) (x : RoutingContext)
    → (rejection_reason p c x ≡ none) ↔ (IsPlaced p.constraints c x × IsCapable p.constraints c x)
unfolding rejection_reason
rejection_reason-IsAccepted p c x =
    let k = p.constraints in
    let placed = placement_reason-IsPlaced k c x in
    let capable = capability_reason-IsCapable k c x in
    (
      λ h. (placed.0 (ground arith), capable.0 (ground arith)),
      λ s. ground (arith, placed.1 s.0, capable.1 s.1),
    )
