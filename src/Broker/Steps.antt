-- ===== src/Broker/Steps.antt =====
-- What one action changes of the requests of crates/linguamesh-application/src/lib.rs.
use mathlib.Core.Bool.{true}
use linguamesh_core.Failure.{TranslationError}
use linguamesh_core.Base.{
  ◌++◌, suc, Bool, if◌then◌else◌, err, ok, Result, ◌≡◌, ◌≤◌, ◌<◌, ◌⊎◌, inl, inr, refl, subst, ℕ,
  false, Option, some, List, [], ◌∷◌, length, length-append, any, ltb, ltb→lt, ◌==◌, Bool-cases,
  Option-cases, arith,
}
use linguamesh_core.Broker.{
  close, queued_or, drop_requests, SecretResolution, Channel, open_channel, receiver_dropped,
  Broker, set_channel, is_open_lease, without, enqueue, drop_receiver, first_active, recv,
  send_resolution, respond, close_sender, drop_lease, BrokerAction, request, receive, cancel, drop,
  answer, step,
}
use linguamesh_core.Broker.Channels.{
  IsNext, same-IsNext, dropped-IsNext, close_sender-IsNext, send_resolution-IsNext,
  set_channel-IsNext,
}

-- The channels of requests to come have no receiver yet, and the queue has room for what is in it.
pub record IsWellFormed (self : Broker) : Type 0 where
  pub fresh : (id : ℕ) → self.next ≤ id → self.channel id ≡ receiver_dropped
  pub roomy : length self.queue ≤ self.capacity

-- A step on a channel that is in use.
pub record IsStep (a : BrokerAction) (self after : Broker) : Type 0 where
  pub changes : (id : ℕ) → id < self.next → IsNext a id (self.channel id) (after.channel id)
  pub unused :
      (id : ℕ)
      → self.next ≤ id
      → (after.channel id ≡ receiver_dropped) ⊎ (after.channel id ≡ open_channel)
  pub well_formed : IsWellFormed after
  pub same_capacity : after.capacity ≡ self.capacity
  pub later : self.next ≤ after.next

room-IsStep :
    (self : Broker)
    → IsWellFormed self
    → IsStep request self (
        if ltb (length self.queue) self.capacity
        then record self {
          next = suc self.next;
          channel = set_channel self.channel self.next open_channel;
          queue = self.queue ++ (self.next ∷ []);
        }
        else self)
room-IsStep self w = elim (Bool-cases (ltb (length self.queue) self.capacity)) [
  | inr e ↦ rw e (record {
    changes = λ id h. same-IsNext request id (self.channel id);
    unused = λ id h. inl (w.fresh id h);
    well_formed = w;
    same_capacity = refl;
    later = ground arith;
  })
  | inl e ↦ rw e (record {
    changes = λ id h.
        let other : (id == self.next) ≡ false = ground arith in
        rw other (same-IsNext request id (self.channel id));
    unused = λ id h. opened id h;
    well_formed = record {
      fresh = λ id h.
          let other : (id == self.next) ≡ false = ground arith in
          rw other (w.fresh id (ground arith));
      roomy = ground (
        arith,
        ltb→lt (length self.queue) self.capacity e,
        length-append self.queue (self.next ∷ []),
      );
    };
    same_capacity = refl;
    later = ground arith;
  })
]
  where
    opened :
        (id : ℕ)
        → self.next ≤ id
        → (set_channel self.channel self.next open_channel id ≡ receiver_dropped)
          ⊎ (set_channel self.channel self.next open_channel id ≡ open_channel)
    opened id h = elim (Bool-cases (id == self.next)) [
      | inl f ↦ rw f (inr refl)
      | inr f ↦ rw f (inl (w.fresh id h))
    ]

-- A step that changes one channel, and the leases that the host holds.
channel-IsStep :
    (a : BrokerAction) (self : Broker) (at_id : ℕ) (c : Channel) (held : List ℕ)
    → IsWellFormed self
    → IsNext a at_id (self.channel at_id) c
    → IsStep a self (record self { channel = set_channel self.channel at_id c; held = held })
channel-IsStep a self at_id c held w h = record {
  changes = λ id k. set_channel-IsNext a self.channel at_id id c h;
  unused = λ id k. inl ((set_channel-IsNext a self.channel at_id id c h).closed (w.fresh id k));
  well_formed = record {
    fresh = λ id k. (set_channel-IsNext a self.channel at_id id c h).closed (w.fresh id k);
    roomy = w.roomy;
  };
  same_capacity = refl;
  later = ground arith;
}

-- A step that changes the queue and the leases only.
queue-IsStep :
    (a : BrokerAction) (self : Broker) (queue held : List ℕ)
    → IsWellFormed self
    → length queue ≤ length self.queue
    → IsStep a self (record self { queue = queue; held = held })
queue-IsStep a self queue held w h = record {
  changes = λ id k. same-IsNext a id (self.channel id);
  unused = λ id k. inl (w.fresh id k);
  well_formed = record { fresh = w.fresh; roomy = ground (arith, w.roomy) };
  same_capacity = refl;
  later = ground arith;
}

enqueue-IsStep :
    (self : Broker) → IsWellFormed self → IsStep request self (queued_or self (enqueue self))
unfolding enqueue
enqueue-IsStep self w =
    refused self.is_closed _ self _
      (queue-IsStep request self self.queue self.held w (ground arith)) (room-IsStep self w)
  where
    refused :
        (is_closed : Bool) (error : TranslationError) (before after : Broker)
        → IsStep request before before
        → IsStep request before after
        → IsStep request before (queued_or before (if is_closed then err error else ok after))
    refused true error before after h k = h
    refused false error before after h k = k

drop_requests-IsStep : (self : Broker) → IsWellFormed self → IsStep close self (drop_requests self)
unfolding drop_requests
drop_requests-IsStep self w = record {
  changes = λ id h. next id;
  unused = λ id h. inl ((next id).closed (w.fresh id h));
  well_formed = record { fresh = λ id h. (next id).closed (w.fresh id h); roomy = ground arith };
  same_capacity = refl;
  later = ground arith;
}
  where
    next :
        (id : ℕ)
        → IsNext close id (self.channel id) (
            if any (λ x. id == x) self.queue
            then close_sender (self.channel id)
            else self.channel id)
    next id = elim (Bool-cases (any (λ x. id == x) self.queue)) [
      | inl e ↦ rw e (close_sender-IsNext close id (self.channel id))
      | inr e ↦ rw e (same-IsNext close id (self.channel id))
    ]

first_active-length :
    (channel : ℕ → Channel) (ids : List ℕ) (x : ℕ × List ℕ)
    → first_active channel ids ≡ some x
    → length x.1 ≤ length ids
first_active-length channel [] x h = cc
first_active-length channel (id ∷ ids) x h = elim (Bool-cases (is_open_lease (channel id))) [
  | inl e ↦ taken (rw (first_active, e) at h)
  | inr e ↦ ground (arith, first_active-length channel ids x (rw (first_active, e) at h))
]
  where
    taken : ◌≡◌ {A = Option (ℕ × List ℕ)} (some (id, ids)) (some x) → length x.1 ≤ length (id ∷ ids)
    taken k =
        subst (λ (y : ℕ × List ℕ). length y.1 ≤ length (id ∷ ids)) {x = (id, ids)} {y = x}
          (ground arith) (ground arith)

recv-IsStep : (self : Broker) → IsWellFormed self → IsStep receive self (recv self).1
unfolding recv
recv-IsStep self w = elim (Option-cases (first_active self.channel self.queue)) [
  | inl e ↦ rw (recv, e) (queue-IsStep receive self [] self.held w (ground arith))
  | inr ((id, rest), e) ↦
      rw (recv, e)
        (queue-IsStep receive self rest (id ∷ self.held) w
          (first_active-length self.channel self.queue (id, rest) e))
]

respond-IsStep :
    (id : ℕ) (r : SecretResolution) (self : Broker)
    → IsWellFormed self
    → IsStep (answer id r) self (respond id r self).1
unfolding respond
respond-IsStep id r self w = elim (Bool-cases (any (λ x. id == x) self.held)) [
  | inr e ↦ rw (respond, e) (queue-IsStep (answer id r) self self.queue self.held w (ground arith))
  | inl e ↦ rw (respond, e) (sent (send_resolution (self.channel id) r) refl)
]
  where
    sent :
        (o : Result Channel (Unit {0}))
        → send_resolution (self.channel id) r ≡ o
        → IsStep
            (answer id r)
            self
            (elim o as (λ _. Result (Unit {0}) (Unit {0}) × Broker) [
              | err e ↦ (err tt, record self { held = without id self.held })
              | ok c ↦ (
                ok tt,
                record self {
                  channel = set_channel self.channel id c;
                  held = without id self.held;
                },
              )
            ]).1
    sent (err e) k =
        queue-IsStep (answer id r) self self.queue (without id self.held) w (ground arith)
    sent (ok c) k =
        channel-IsStep (answer id r) self id c (without id self.held) w
          (send_resolution-IsNext id r (self.channel id) c k)

drop_lease-IsStep :
    (id : ℕ) (self : Broker) → IsWellFormed self → IsStep (drop id) self (drop_lease id self)
unfolding drop_lease
drop_lease-IsStep id self w = elim (Bool-cases (any (λ x. id == x) self.held)) [
  | inr e ↦ rw (drop_lease, e) (queue-IsStep (drop id) self self.queue self.held w (ground arith))
  | inl e ↦
      rw (drop_lease, e)
        (channel-IsStep (drop id) self id (close_sender (self.channel id)) (without id self.held) w
          (close_sender-IsNext (drop id) id (self.channel id)))
]

pub step-IsStep :
    (a : BrokerAction) (self : Broker) → IsWellFormed self → IsStep a self (step a self)
unfolding step drop_receiver
step-IsStep request self w = enqueue-IsStep self w
step-IsStep close self w = drop_requests-IsStep self w
step-IsStep receive self w = recv-IsStep self w
step-IsStep (cancel id) self w =
    channel-IsStep (cancel id) self id receiver_dropped self.held w
      (dropped-IsNext (cancel id) id (self.channel id))
step-IsStep (drop id) self w = drop_lease-IsStep id self w
step-IsStep (answer id r) self w = respond-IsStep id r self w
