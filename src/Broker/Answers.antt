-- ===== src/Broker/Answers.antt =====
-- What a secret request can get, whatever the threads of crates/linguamesh-application/src/lib.rs do.
use linguamesh_core.Base.{
  Text, ◌≡◌, ◌≤◌, ◌<◌, ◌⊎◌, inl, inr, refl, sym, ◌∙◌, subst, ℕ, Bool, true, false, some, List, [],
  ◌∷◌, length, Memᴰ, Result, ok, err, ◌==◌, Bool-cases, arith,
}
use linguamesh_core.Failure.{TranslationError}
use linguamesh_core.Broker.{
  provided, unavailable, secure_storage_unavailable_resolution, resolution, provided, resolution,
  SecretResolution, Channel, open_channel, answered, sender_dropped, receiver_dropped, Broker,
  host_secret_channel, BrokerAction, answer, step, run_actions,
}
use linguamesh_core.Broker.Steps.{IsWellFormed, step-IsStep}

run_actions-IsWellFormed :
    (actions : List BrokerAction) (self : Broker)
    → IsWellFormed self
    → IsWellFormed (run_actions actions self)
      × ((run_actions actions self).capacity ≡ self.capacity)
run_actions-IsWellFormed [] self w = (w, refl)
run_actions-IsWellFormed (a ∷ actions) self w =
    let s = step-IsStep a self w in
    let (x, e) = run_actions-IsWellFormed actions (step a self) s.well_formed in
    (x, e ∙ s.same_capacity)

below : (a b : ℕ) → (a < b) ⊎ (b ≤ a)
below a b = ground arith

step_given :
    (a : BrokerAction) (self : Broker) (id : ℕ) (r : SecretResolution)
    → IsWellFormed self
    → (step a self).channel id ≡ answered r
    → (self.channel id ≡ answered r) ⊎ (a ≡ answer id r)
step_given a self id r w h = elim (below id self.next) [
  | inl l ↦ ((step-IsStep a self w).changes id l).given r h
  | inr l ↦ elim ((step-IsStep a self w).unused id l) [
    | inl e ↦ absurd (clash receiver_dropped (λ k. cc) (sym e ∙ h))
    | inr e ↦ absurd (clash open_channel (λ k. cc) (sym e ∙ h))
  ]
]
  where
    clash : (c : Channel) → (c ≡ answered r → ⊥) → c ≡ answered r → ⊥
    clash c f k = f k

run_given :
    (actions : List BrokerAction) (self : Broker) (id : ℕ) (r : SecretResolution)
    → IsWellFormed self
    → (run_actions actions self).channel id ≡ answered r
    → (self.channel id ≡ answered r) ⊎ Memᴰ (answer id r) actions
run_given [] self id r w h = inl h
run_given (a ∷ actions) self id r w h =
    elim (run_given actions (step a self) id r (step-IsStep a self w).well_formed h) [
      | inr m ↦ inr (Memᴰ.tail m)
      | inl e ↦ elim (step_given a self id r w e) [
        | inl f ↦ inl f
        | inr f ↦ inr (Memᴰ.head (sym f))
      ]
    ]

run_closed :
    (actions : List BrokerAction) (self : Broker) (id : ℕ)
    → IsWellFormed self
    → id < self.next
    → self.channel id ≡ receiver_dropped
    → (run_actions actions self).channel id ≡ receiver_dropped
run_closed [] self id w l h = h
run_closed (a ∷ actions) self id w l h =
    let s = step-IsStep a self w in
    run_closed actions (step a self) id s.well_formed (ground (arith, s.later))
      ((s.changes id l).closed h)

run_kept :
    (actions : List BrokerAction) (self : Broker) (id : ℕ) (r : SecretResolution)
    → IsWellFormed self
    → id < self.next
    → self.channel id ≡ answered r
    → ((run_actions actions self).channel id ≡ answered r)
      ⊎ ((run_actions actions self).channel id ≡ receiver_dropped)
run_kept [] self id r w l h = inl h
run_kept (a ∷ actions) self id r w l h =
    let s = step-IsStep a self w in
    let l' : id < (step a self).next = ground (arith, s.later) in
    elim ((s.changes id l).kept r h) [
      | inl e ↦ run_kept actions (step a self) id r s.well_formed l' e
      | inr e ↦ inr (run_closed actions (step a self) id s.well_formed l' e)
    ]

new-IsWellFormed :
    (capacity : ℕ) (self : Broker)
    → host_secret_channel capacity ≡ ok self
    → IsWellFormed self
      × (self.capacity ≡ capacity)
      × ((id : ℕ) → self.channel id ≡ receiver_dropped)
unfolding host_secret_channel
new-IsWellFormed capacity self h = elim (Bool-cases (capacity == 0)) [
  | inl e ↦ refused _ (rw (host_secret_channel, e) at h)
  | inr e ↦ made (rw (host_secret_channel, e) at h)
]
  where
    empty : Broker
    empty = record {
      capacity = capacity;
      next = 0;
      channel = λ id. receiver_dropped;
      queue = [];
      held = [];
      is_closed = false;
    }

    IsNew : Broker → Type 0
    IsNew b =
        IsWellFormed b × (b.capacity ≡ capacity) × ((id : ℕ) → b.channel id ≡ receiver_dropped)

    refused :
        (x : TranslationError)
        → ◌≡◌ {A = Result Broker TranslationError} (err x) (ok self)
        → IsNew self
    refused x k = cc

    made : ◌≡◌ {A = Result Broker TranslationError} (ok empty) (ok self) → IsNew self
    made k =
        subst IsNew {x = empty} {y = self} (ground arith)
          (record { fresh = λ id l. refl; roomy = ground arith }, refl, λ id. refl)

run_answered :
    (capacity : ℕ) (self : Broker) (actions later : List BrokerAction) (id : ℕ)
    (r : SecretResolution)
    → host_secret_channel capacity ≡ ok self
    → (run_actions actions self).channel id ≡ answered r
    → Memᴰ (answer id r) actions
      × (length (run_actions actions self).queue ≤ capacity)
      × (((run_actions later (run_actions actions self)).channel id ≡ answered r)
          ⊎ ((run_actions later (run_actions actions self)).channel id ≡ receiver_dropped))
run_answered capacity self actions later id r h k =
    let (w, c, closed) = new-IsWellFormed capacity self h in
    let (v, d) = run_actions-IsWellFormed actions self w in
    (
      elim (run_given actions self id r w k) [ inl e ↦ cc (closed id) | inr m ↦ m ],
      ground (arith, v.roomy, d, c),
      elim (below id (run_actions actions self).next) [
        | inl l ↦ run_kept later (run_actions actions self) id r v l k
        | inr l ↦ cc (v.fresh id l)
      ],
    )

resolution-provided :
    (is_cancelled : Bool) (c : Channel) (secret : Text)
    → resolution is_cancelled c ≡ some (ok secret)
    → (is_cancelled ≡ false) × (c ≡ answered (provided secret))
unfolding resolution
resolution-provided true c secret h = cc
resolution-provided false open_channel secret h = cc
resolution-provided false (answered (provided s)) secret h = (refl, cc)
resolution-provided false (answered unavailable) secret h = cc
resolution-provided false (answered secure_storage_unavailable_resolution) secret h = cc
resolution-provided false sender_dropped secret h = cc
resolution-provided false receiver_dropped secret h = cc

-- On a channel of some capacity, whatever its threads have done: a request that resolves to a secret
-- is not cancelled, the host has answered that request with that secret, the queue is within the
-- capacity, and later actions leave the answer in its channel, or the receiver is dropped.
pub run_actions-resolution :
    (capacity : ℕ) (self : Broker) (actions later : List BrokerAction) (id : ℕ)
    (is_cancelled : Bool) (secret : Text)
    → host_secret_channel capacity ≡ ok self
    → resolution is_cancelled ((run_actions actions self).channel id) ≡ some (ok secret)
    → (is_cancelled ≡ false)
      × Memᴰ (answer id (provided secret)) actions
      × (length (run_actions actions self).queue ≤ capacity)
      × (((run_actions later (run_actions actions self)).channel id ≡ answered (provided secret))
          ⊎ ((run_actions later (run_actions actions self)).channel id ≡ receiver_dropped))
run_actions-resolution capacity self actions later id is_cancelled secret h k =
    let (c, e) =
      resolution-provided is_cancelled ((run_actions actions self).channel id) secret k in
    let (m, q, l) = run_answered capacity self actions later id (provided secret) h e in
    (c, m, q, l)
