-- ===== src/Broker/Channels.antt =====
-- What becomes of one channel of crates/linguamesh-application/src/lib.rs in an action.
use linguamesh_core.Base.{ok, ◌≡◌, ◌⊎◌, inl, inr, refl, subst, ℕ, ◌==◌, Bool-cases, arith}
use linguamesh_core.Broker.{
  SecretResolution, Channel, open_channel, answered, sender_dropped, receiver_dropped, set_channel,
  send_resolution, close_sender, BrokerAction, answer,
}

-- What a channel may become: an answer stays, unless its receiver is dropped; an answer that is new
-- is the one of the action.
pub record IsNext (a : BrokerAction) (id : ℕ) (before after : Channel) : Type 0 where
  pub given :
      (r : SecretResolution) → after ≡ answered r → (before ≡ answered r) ⊎ (a ≡ answer id r)
  pub kept :
      (r : SecretResolution)
      → before ≡ answered r
      → (after ≡ answered r) ⊎ (after ≡ receiver_dropped)
  pub closed : before ≡ receiver_dropped → after ≡ receiver_dropped

pub same-IsNext : (a : BrokerAction) (id : ℕ) (c : Channel) → IsNext a id c c
same-IsNext a id c = record { given = λ r h. inl h; kept = λ r h. inl h; closed = λ h. h }

pub dropped-IsNext : (a : BrokerAction) (id : ℕ) (c : Channel) → IsNext a id c receiver_dropped
dropped-IsNext a id c = record { given = λ r h. cc; kept = λ r h. inr refl; closed = λ h. refl }

pub close_sender-IsNext : (a : BrokerAction) (id : ℕ) (c : Channel) → IsNext a id c (close_sender c)
close_sender-IsNext a id open_channel = record {
  given = λ r h. cc;
  kept = λ r h. cc;
  closed = λ h. cc;
}
close_sender-IsNext a id (answered r) = same-IsNext a id (answered r)
close_sender-IsNext a id sender_dropped = same-IsNext a id sender_dropped
close_sender-IsNext a id receiver_dropped = same-IsNext a id receiver_dropped

pub send_resolution-IsNext :
    (id : ℕ) (r : SecretResolution) (c d : Channel)
    → send_resolution c r ≡ ok d
    → IsNext (answer id r) id c d
send_resolution-IsNext id r open_channel d h =
    subst (IsNext (answer id r) id open_channel) {x = answered r} {y = d} (ground arith)
      (record { given = λ s k. inr (ground arith); kept = λ s k. cc; closed = λ k. cc })
send_resolution-IsNext id r (answered s) d h = cc
send_resolution-IsNext id r sender_dropped d h = cc
send_resolution-IsNext id r receiver_dropped d h = cc

pub set_channel-IsNext :
    (a : BrokerAction) (channel : ℕ → Channel) (at_id id : ℕ) (c : Channel)
    → IsNext a at_id (channel at_id) c
    → IsNext a id (channel id) (set_channel channel at_id c id)
set_channel-IsNext a channel at_id id c h = elim (Bool-cases (id == at_id)) [
  | inl e ↦
      let same : at_id ≡ id = ground (arith, e) in
      rw e (subst (λ x. IsNext a x (channel x) c) same h)
  | inr e ↦ rw e (same-IsNext a id (channel id))
]
