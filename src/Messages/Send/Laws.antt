-- ===== src/Messages/Send/Laws.antt =====
-- What sending does to the pallet (`send_message` of modules/messages/src/lib.rs), and the outbound
-- lanes' invariant over all operations of the sending side.
use native.Mathlib.Decide.{ℕ_discrete}
use parity_bridges_common.Common.{
  ◌+◌, ◌≤◌, ◌<◌, ◌≡◌, ◌≢◌, refl, ◌⊎◌, inl, inr, true, some, [], ◌∷◌, ◌++◌, Result, ok, err, length,
  u64_mod, arith, update_self, update_ne, contains,
}
use parity_bridges_common.Runtime.{Origin, normal}
use parity_bridges_common.Messages.Types.{LaneId, MessageNonce, basic}
use parity_bridges_common.Messages.Outbound.{OutboundLane}
use parity_bridges_common.Messages.Outbound
use parity_bridges_common.Messages.Outbound.Prune.{IsValid, send_message-IsValid}
use parity_bridges_common.Messages.Pallet.{
  Config, Error, deposit_event, Chain, State, outbound_lane, save_outbound, message_accepted,
}
use parity_bridges_common.Messages.Send.{
  SendMessageArtifacts, send_message, check_message, ensure_normal_operating_mode,
}

module _ {World W R : Type 0} where
  -- Every outbound lane of the pallet is valid.
  abbrev pub OutboundLanesAreValid : State World W R → Type 0
  OutboundLanesAreValid s = (id : LaneId) → IsValid (outbound_lane s id)

  pub save_outbound-IsValid :
      (s : State World W R) (id : LaneId) (lane : OutboundLane)
      → OutboundLanesAreValid s
      → IsValid lane
      → OutboundLanesAreValid (save_outbound s id lane)
  save_outbound-IsValid s id lane v l j = elim (ℕ_discrete id j) [
    | yes e ↦
        rw
          (
            ← e,
            update_self s.outbound_lanes id lane.lane_data,
            update_self s.outbound_messages id lane.stored,
          )
          l
    | no ne ↦
        rw
          (
            update_ne s.outbound_lanes id j lane.lane_data ne,
            update_ne s.outbound_messages id j lane.stored ne,
          )
          (v j)
  ]

module _ (c : Config) where
  -- The conditions for sending a message.
  pub record IsSendable (s : Chain c) (who : Origin) (id : LaneId) (payload : c.OutboundPayload)
      : Type 0 where
    pub mode : s.owned.mode ≡ basic normal
    pub active : contains c.active_outbound_lanes id ≡ true
    pub chain : c.verify_message payload ≡ true
    pub lane : c.verify_lane_message who id (s.outbound_lanes id) payload ≡ true
    pub size : length (c.encode payload) ≤ c.maximal_outbound_payload_size

  check_message-ok :
      (s : Chain c) (who : Origin) (id : LaneId) (payload : c.OutboundPayload)
      → check_message c s who id payload ≡ ok tt
      → IsSendable s who id payload
  unfolding check_message ensure_normal_operating_mode
  check_message-ok s who id payload h = ground arith

  check_message-IsSendable :
      (s : Chain c) (who : Origin) (id : LaneId) (payload : c.OutboundPayload)
      → IsSendable s who id payload
      → check_message c s who id payload ≡ ok tt
  unfolding check_message ensure_normal_operating_mode
  check_message-IsSendable s who id payload h = ground (arith, h)

  -- The effect of sending.
  pub record Sent (s after : Chain c) (id : LaneId) (payload : c.OutboundPayload)
      (nonce : MessageNonce) : Type 0 where
    pub next : nonce ≡ (s.outbound_lanes id).latest_generated_nonce + 1
    pub generated : (after.outbound_lanes id).latest_generated_nonce ≡ nonce
    pub stored : after.outbound_messages id nonce ≡ some (c.encode payload)
    pub kept :
        (j : LaneId) (n : MessageNonce)
        → (j ≢ id)
        → (after.outbound_messages j n ≡ s.outbound_messages j n)
          × (after.outbound_lanes j ≡ s.outbound_lanes j)
    pub older :
        (n : MessageNonce) → n ≢ nonce → after.outbound_messages id n ≡ s.outbound_messages id n
    pub inbound : after.inbound_lanes ≡ s.inbound_lanes
    pub events : after.events ≡ s.events ++ message_accepted id nonce ∷ []
    pub valid : OutboundLanesAreValid after

  sent_state : (s : Chain c) (id : LaneId) (payload : c.OutboundPayload) → Chain c
  sent_state s id payload =
      let (lane, nonce) = Outbound.send_message (outbound_lane s id) (c.encode payload) in
      deposit_event (save_outbound s id lane) (message_accepted id nonce)

  sent_state-Sent :
      (s : Chain c) (id : LaneId) (payload : c.OutboundPayload)
      → OutboundLanesAreValid s
      → (s.outbound_lanes id).latest_generated_nonce + 2 < u64_mod
      → Sent s
          (sent_state s id payload)
          id
          payload
          (Outbound.send_message (outbound_lane s id) (c.encode payload)).1
  unfolding sent_state Outbound.send_message
  sent_state-Sent s id payload v room = record {
    next = omega arith;
    generated = ground arith;
    stored = ground arith;
    kept = λ j n ne. (ground arith, ground arith);
    older = λ n ne. ground arith;
    inbound = refl;
    events = refl;
    valid =
        save_outbound-IsValid s id _ v
          (send_message-IsValid (outbound_lane s id) (c.encode payload) room (v id));
  }

  -- From valid outbound lanes, and where two more nonces fit into 64 bits, a message is accepted
  -- exactly when it meets the conditions for sending; then it is stored under the next nonce of
  -- its lane, an event tells the nonce, no other message or lane changes and every lane stays
  -- valid. Otherwise the call fails.
  pub send_message-Sent :
      (s : Chain c) (who : Origin) (id : LaneId) (payload : c.OutboundPayload)
      → OutboundLanesAreValid s
      → (s.outbound_lanes id).latest_generated_nonce + 2 < u64_mod
      → (IsSendable s who id payload
          × (after : Chain c) × (sent : SendMessageArtifacts c.Weight) × (send_message c s who id
                payload
              ≡ ok (after, sent))
          × Sent s after id payload sent.nonce)
        ⊎ ((¬ IsSendable s who id payload)
            × (e : Error) × (send_message c s who id payload ≡ err e))
  unfolding send_message sent_state
  send_message-Sent s who id payload v room = go (check_message c s who id payload) refl
    where
      go :
          (r : Result Error (Unit {0}))
          → check_message c s who id payload ≡ r
          → (IsSendable s who id payload
              × (after : Chain c) × (sent : SendMessageArtifacts c.Weight) × (send_message c s who
                    id payload
                  ≡ ok (after, sent))
              × Sent s after id payload sent.nonce)
            ⊎ ((¬ IsSendable s who id payload)
                × (e : Error) × (send_message c s who id payload ≡ err e))
      go (ok _) e = inl (
        check_message-ok s who id payload e,
        sent_state s id payload,
        record {
          nonce = (Outbound.send_message (outbound_lane s id) (c.encode payload)).1;
          weight = c.weights.reads_writes 2 2;
        },
        rw e refl,
        sent_state-Sent s id payload v room,
      )
      go (err x) e = inr (λ h. cc (check_message-IsSendable s who id payload h), x, rw e refl)
