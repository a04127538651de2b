-- ===== src/Messages/Inbound/State.antt =====
-- What `receive_state_update` does to a valid lane (modules/messages/src/inbound_lane.rs).
use parity_bridges_common.Common.{
  ◌+◌, ◌≤◌, ◌<◌, ◌≡◌, refl, sym, ◌∙◌, ◌⊎◌, inl, inr, ◌&&◌, none, some, u64_mod, arith, ◌==◌,
  is_some, length,
}
use parity_bridges_common.Messages.Types.{MessageNonce, OutboundLaneData, last_delivered_nonce}
use parity_bridges_common.Messages.Inbound.{
  InboundLane, receive_state_update, drop_confirmed, trim_front,
}
use parity_bridges_common.Messages.Inbound.Chain.{
  IsQueueFrom, last_from, deliverer, last_delivered-last_from, trim-IsQueueFrom, deliverer-trim,
  length-trim, starts_longer, confirmed-trim,
}

-- The queue is a chain from the confirmed nonce, within the limits of the configuration.
pub record IsValid (lane : InboundLane) : Type 0 where
  pub queue : IsQueueFrom lane.lane_data.last_confirmed_nonce lane.lane_data.relayers
  pub entries : length lane.lane_data.relayers ≤ lane.max_unrewarded_relayer_entries
  pub unconfirmed :
      last_delivered_nonce lane.lane_data
      ≤ lane.lane_data.last_confirmed_nonce + lane.max_unconfirmed_messages
  pub fits : last_delivered_nonce lane.lane_data + 1 < u64_mod

-- The lane's `last_delivered_nonce`, read off the chain.
pub delivered_last_from :
    (lane : InboundLane)
    → last_delivered_nonce lane.lane_data
      ≡ last_from lane.lane_data.last_confirmed_nonce lane.lane_data.relayers
delivered_last_from lane = last_delivered-last_from _ lane.lane_data.relayers

-- The two lanes have one configuration.
pub record SameLimits (lane after : InboundLane) : Type 0 where
  pub entries : after.max_unrewarded_relayer_entries ≡ lane.max_unrewarded_relayer_entries
  pub messages : after.max_unconfirmed_messages ≡ lane.max_unconfirmed_messages

pub SameLimits-trans : (a b c : InboundLane) → SameLimits a b → SameLimits b c → SameLimits a c
SameLimits-trans a b c p q = record {
  entries = q.entries ∙ p.entries;
  messages = q.messages ∙ p.messages;
}

pub receive_state_update-SameLimits :
    (lane : InboundLane) (outbound : OutboundLaneData)
    → SameLimits lane (receive_state_update lane outbound).0
unfolding receive_state_update
receive_state_update-SameLimits lane outbound = ground arith

-- Validity is a matter of the data and the limits.
pub IsValid-SameLimits :
    (lane after : InboundLane)
    → SameLimits lane after
    → IsValid after
    → IsValid (record lane { lane_data = after.lane_data })
IsValid-SameLimits lane after same v = record {
  queue = v.queue;
  entries = omega (arith, v.entries, same.entries);
  unconfirmed = omega (arith, v.unconfirmed, same.messages);
  fits = v.fits;
}

-- Does the state bring a confirmation that the lane does not have?
abbrev pub IsNewConfirmation : InboundLane → MessageNonce → Type 0
IsNewConfirmation lane n =
    (lane.lane_data.last_confirmed_nonce < n) × (n ≤ last_delivered_nonce lane.lane_data)

abbrev pub trimmed : InboundLane → MessageNonce → InboundLane
trimmed lane n = record lane {
  lane_data = record {
    relayers = trim_front n (drop_confirmed n lane.lane_data.relayers);
    last_confirmed_nonce = n;
  };
}

pub receive_state_update-cases :
    (lane : InboundLane) (outbound : OutboundLaneData)
    → (IsNewConfirmation lane outbound.latest_received_nonce
        × (receive_state_update lane outbound
            ≡ (trimmed lane outbound.latest_received_nonce, some outbound.latest_received_nonce)))
      ⊎ ((¬ IsNewConfirmation lane outbound.latest_received_nonce)
          × (receive_state_update lane outbound ≡ (lane, none)))
unfolding receive_state_update
receive_state_update-cases lane outbound = ground arith

module _ (lane : InboundLane) (outbound : OutboundLaneData) (v : IsValid lane) where
  trimmed-IsQueueFrom :
      (n : MessageNonce)
      → IsNewConfirmation lane n
      → IsQueueFrom n (trimmed lane n).lane_data.relayers
        × (last_delivered_nonce (trimmed lane n).lane_data ≡ last_delivered_nonce lane.lane_data)
  trimmed-IsQueueFrom n new =
      let reach : n ≤ last_from lane.lane_data.last_confirmed_nonce lane.lane_data.relayers =
        omega (arith, delivered_last_from lane) in
      let room : n + 1 < u64_mod = omega (arith, v.fits) in
      let (q, e) =
        trim-IsQueueFrom n lane.lane_data.last_confirmed_nonce lane.lane_data.relayers room new.0
          reach v.queue in
      (q, delivered_last_from (trimmed lane n) ∙ e ∙ sym (delivered_last_from lane))

  -- Whatever state of the other side it is given, a valid lane stays valid and goes on from the
  -- same last delivered nonce.
  pub receive_state_update-IsValid :
      IsValid (receive_state_update lane outbound).0
      × (last_delivered_nonce (receive_state_update lane outbound).0.lane_data
          ≡ last_delivered_nonce lane.lane_data)
  receive_state_update-IsValid = elim (receive_state_update-cases lane outbound) [
    | inr (_, e) ↦ rw e (v, refl)
    | inl (new, e) ↦
        let n = outbound.latest_received_nonce in
        let (q, same) = trimmed-IsQueueFrom n new in
        rw e (
          record {
            queue = q;
            entries = omega (arith, length-trim n lane.lane_data.relayers, v.entries);
            unconfirmed = omega (arith, same, v.unconfirmed);
            fits = omega (arith, same, v.fits);
          },
          same,
        )
  ]

  -- A valid lane takes over the other side's nonce if it is a new confirmation of delivered
  -- messages, and keeps who delivered each later message; any other state is ignored.
  pub receive_state_update-confirms :
      (IsNewConfirmation lane outbound.latest_received_nonce
        × ((receive_state_update lane outbound).1 ≡ some outbound.latest_received_nonce)
        × ((receive_state_update lane outbound).0.lane_data.last_confirmed_nonce
            ≡ outbound.latest_received_nonce)
        × ((m : MessageNonce)
            → outbound.latest_received_nonce < m
            → deliverer m (receive_state_update lane outbound).0.lane_data.relayers
              ≡ deliverer m lane.lane_data.relayers))
      ⊎ ((¬ IsNewConfirmation lane outbound.latest_received_nonce)
          × (receive_state_update lane outbound ≡ (lane, none)))
  receive_state_update-confirms = elim (receive_state_update-cases lane outbound) [
    | inr old ↦ inr old
    | inl (new, e) ↦ inl (
      new,
      rw e refl,
      rw e refl,
      λ m lt.
          rw e (
            deliverer-trim outbound.latest_received_nonce _ m _ (omega (arith, v.fits)) lt v.queue),
    )
  ]

  -- In a valid lane, after a new confirmation of the nonce `n`, of the nonces up to `n` only `n`
  -- itself may still be in the queue of unrewarded relayers, and it is exactly when it was the
  -- first of an entry with more messages.
  pub receive_state_update-forgets :
      (m : MessageNonce)
      → IsNewConfirmation lane outbound.latest_received_nonce
      → m ≤ outbound.latest_received_nonce
      → is_some (deliverer m (receive_state_update lane outbound).0.lane_data.relayers) ≡ (
          m == outbound.latest_received_nonce
          && starts_longer outbound.latest_received_nonce lane.lane_data.relayers)
  receive_state_update-forgets m new le = elim (receive_state_update-cases lane outbound) [
    | inr (old, _) ↦ absurd (old new)
    | inl (_, e) ↦
        rw e
          (confirmed-trim outbound.latest_received_nonce _ m _ (omega (arith, v.fits)) le v.queue)
  ]
