-- ===== src/Broker.antt =====
-- The secret requests between the core and its host in crates/linguamesh-application/src/lib.rs:
-- `HostSecretBroker`, `HostSecretRequests` and `SecretRequestLease`. A one-shot channel is a cell
-- of a store, named by the request that made it, and the threads that share the channels are a list
-- of atomic actions. A request is its number; the host's leases are consumed when they are used.
pub mod Channels
pub mod Steps
pub mod Answers
mod Tests
use linguamesh_core.Base.{
  ℕ, suc, Bool, true, false, Option, none, some, List, [], ◌∷◌, ◌++◌, length, any, Text, codes,
  Result, ok, err, ltb, ◌==◌, if◌then◌else◌,
}
use linguamesh_core.Failure.{
  cancelled, secret_unavailable, secure_storage_unavailable, invalid_configuration_kind,
  TranslationError, new_error,
}

pub data SecretResolution : Type 0 where
  provided : Text → SecretResolution
  unavailable secure_storage_unavailable_resolution : SecretResolution

-- A one-shot channel: open, with an answer, without a sender, or without a receiver.
pub data Channel : Type 0 where
  open_channel : Channel
  answered : SecretResolution → Channel
  sender_dropped receiver_dropped : Channel

-- The channels, the number of the next request, the queue, the leases that the host holds, and
-- whether the host has dropped its end of the queue.
pub record Broker : Type 0 where
  pub capacity : ℕ
  pub next : ℕ
  pub channel : ℕ → Channel
  pub queue : List ℕ
  pub held : List ℕ
  pub is_closed : Bool

abbrev pub set_channel : (ℕ → Channel) → ℕ → Channel → ℕ → Channel
set_channel channel id value other = if other == id then value else channel other

-- `SecretRequestLease::is_active`.
abbrev pub is_open_lease : Channel → Bool
is_open_lease receiver_dropped = false
is_open_lease c = true

abbrev pub without : ℕ → List ℕ → List ℕ
without id [] = []
without id (x ∷ xs) = let rest = without id xs in if x == id then rest else x ∷ rest

-- `host_secret_channel`.
unfoldable pub host_secret_channel : ℕ → Result Broker TranslationError
host_secret_channel capacity =
    if capacity == 0
    then err (
        new_error invalid_configuration_kind
          (codes "The host secret request capacity must be greater than zero."))
    else ok (record {
      capacity = capacity;
      next = 0;
      channel = λ id. receiver_dropped;
      queue = [];
      held = [];
      is_closed = false;
    })

-- The first half of `HostSecretBroker::resolve`: the request is queued while there is room. One that
-- waits for room is tried again; one that is cancelled before makes no action. A host that has
-- dropped its end of the queue refuses it.
unfoldable pub enqueue : Broker → Result Broker TranslationError
enqueue self =
    if self.is_closed
    then err (new_error secret_unavailable (codes "The host secret service is unavailable."))
    else ok (
        if ltb (length self.queue) self.capacity
        then record self {
          next = suc self.next;
          channel = set_channel self.channel self.next open_channel;
          queue = self.queue ++ (self.next ∷ []);
        }
        else self)

-- A `resolve` that returns, cancelled or with its answer, drops its receiver.
unfoldable pub drop_receiver : ℕ → Broker → Broker
drop_receiver id self = record self { channel = set_channel self.channel id receiver_dropped }

-- `HostSecretRequests::recv`, when a request is queued: the first active one.
abbrev pub first_active : (ℕ → Channel) → List ℕ → Option (ℕ × List ℕ)
first_active channel [] = none
first_active channel (id ∷ ids) = elim (is_open_lease (channel id)) [
  | true ↦ some (id, ids)
  | false ↦ first_active channel ids
]

unfoldable pub recv : Broker → Option ℕ × Broker
recv self = elim (first_active self.channel self.queue) [
  | none ↦ (none, record self { queue = [] })
  | some (id, rest) ↦ (some id, record self { queue = rest; held = id ∷ self.held })
]

-- `SecretRequestLease::respond`, which the three answers of a lease call; the lease is consumed.
-- The sender of a lease that the host does not hold any more is gone.
abbrev pub send_resolution : Channel → SecretResolution → Result Channel (Unit {0})
send_resolution open_channel resolution = ok (answered resolution)
send_resolution c resolution = err tt

unfoldable pub respond : ℕ → SecretResolution → Broker → Result (Unit {0}) (Unit {0}) × Broker
respond id resolution self = elim (any (λ x. id == x) self.held) [
  | false ↦ (err tt, self)
  | true ↦ elim (send_resolution (self.channel id) resolution) [
    | err e ↦ (err tt, record self { held = without id self.held })
    | ok c ↦ (
      ok tt,
      record self { channel = set_channel self.channel id c; held = without id self.held },
    )
  ]
]

-- A lease that the host drops without an answer.
abbrev pub close_sender : Channel → Channel
close_sender open_channel = sender_dropped
close_sender c = c

unfoldable pub drop_lease : ℕ → Broker → Broker
drop_lease id self = elim (any (λ x. id == x) self.held) [
  | false ↦ self
  | true ↦ record self {
    channel = set_channel self.channel id (close_sender (self.channel id));
    held = without id self.held;
  }
]

-- A host that drops its end of the queue drops the leases in it.
unfoldable pub drop_requests : Broker → Broker
drop_requests self = record self {
  channel = λ id.
      if any (λ x. id == x) self.queue then close_sender (self.channel id) else self.channel id;
  queue = [];
  is_closed = true;
}

-- The second half of `resolve`: what it returns, if it does, from the state of the cancellation and
-- its channel. Without a receiver it has returned already.
unfoldable pub resolution : Bool → Channel → Option (Result Text TranslationError)
resolution true c = some (err (new_error cancelled (codes "Translation was cancelled.")))
resolution false open_channel = none
resolution false (answered (provided secret)) = some (ok secret)
resolution false (answered unavailable) =
    some (err (new_error secret_unavailable (codes "The provider credential is unavailable.")))
resolution false (answered secure_storage_unavailable_resolution) =
    some (
      err
        (new_error secure_storage_unavailable (codes "Secure credential storage is unavailable.")))
resolution false sender_dropped =
    some
      (err (new_error secret_unavailable (codes "The host did not complete the secret request.")))
resolution false receiver_dropped = none

-- The atomic actions of the threads.
pub data BrokerAction : Type 0 where
  request receive close : BrokerAction
  cancel drop : ℕ → BrokerAction
  answer : ℕ → SecretResolution → BrokerAction

-- A request that is refused changes nothing.
abbrev pub queued_or : Broker → Result Broker TranslationError → Broker
queued_or self (ok after) = after
queued_or self (err error) = self

unfoldable pub step : BrokerAction → Broker → Broker
step request self = queued_or self (enqueue self)
step close self = drop_requests self
step receive self = (recv self).1
step (cancel id) self = drop_receiver id self
step (drop id) self = drop_lease id self
step (answer id r) self = (respond id r self).1

abbrev pub run_actions : List BrokerAction → Broker → Broker
run_actions [] self = self
run_actions (a ∷ actions) self = run_actions actions (step a self)
