-- ===== src/Messages/Confirm/Laws.antt =====
-- What a delivery proof does to the pallet (`receive_messages_delivery_proof` of
-- modules/messages/src/lib.rs).
use parity_bridges_common.Common.{
  ◌≤◌, ◌<◌, ◌≡◌, ◌≢◌, refl, sym, ◌⊎◌, inl, inr, true, false, some, List, ok, >>=-eq-ok,
  ok-injective, map_err-eq-ok, u64_mod, arith,
}
use parity_bridges_common.Runtime.{Origin, ensure_not_halted}
use parity_bridges_common.Messages.Types.{
  LaneId, MessageNonce, AccountId, InboundLaneData, UnrewardedRelayer, UnrewardedRelayersState,
  DeliveredMessages, is_halted, last_delivered_nonce,
}
use parity_bridges_common.Messages.Outbound.{
  OutboundLane, confirm_delivery, ReceivalConfirmationResult, confirmed_messages,
  no_new_confirmations, failed_to_confirm_future_messages, empty_unrewarded_relayer_entry,
  non_consecutive_unrewarded_relayer_entries, trying_to_confirm_more_messages_than_expected,
}
use parity_bridges_common.Messages.Outbound.Confirm.{
  IsConfirmable, confirmed_up_to, newly_confirmed, confirm_delivery-decides,
  confirm_delivery-no_new,
}
use parity_bridges_common.Messages.Pallet.{
  Config, Chain, outbound_lane, save_outbound, messages_delivered, deposit_event,
}
use parity_bridges_common.Messages.Send.Laws.{OutboundLanesAreValid, save_outbound-IsValid}
use parity_bridges_common.Messages.Confirm.{
  check_confirmation, settle, is_declared, receive_messages_delivery_proof,
}

module _ (c : Config) where
  -- The pallet once the lane's messages up to `last` are confirmed.
  abbrev pub confirmed_state : Chain c → AccountId → LaneId → InboundLaneData → Chain c
  confirmed_state s who id d =
      let lane = outbound_lane s id in
      let last = last_delivered_nonce d in
      let m = newly_confirmed lane last in
      let saved =
        deposit_event (save_outbound s id (confirmed_up_to lane last)) (messages_delivered id m) in
      record saved { world = c.pay_confirmation saved.world id d.relayers who m.begin m.end }

  settle-unconfirmed :
      (s : Chain c) (who : AccountId) (id : LaneId) (relayers : List UnrewardedRelayer)
      (lane : OutboundLane) (r : ReceivalConfirmationResult) {after : Chain c}
      → ((m : DeliveredMessages) → r ≢ confirmed_messages m)
      → settle c s who id relayers (lane, r) ≡ ok after
      → (r ≡ no_new_confirmations) × (after ≡ s)
  unfolding settle
  settle-unconfirmed s who id relayers lane (confirmed_messages m) no_way e = absurd (no_way m refl)
  settle-unconfirmed s who id relayers lane no_new_confirmations no_way e =
      (refl, sym (ok-injective e))
  settle-unconfirmed s who id relayers lane failed_to_confirm_future_messages no_way e = cc
  settle-unconfirmed s who id relayers lane empty_unrewarded_relayer_entry no_way e = cc
  settle-unconfirmed s who id relayers lane non_consecutive_unrewarded_relayer_entries no_way e = cc
  settle-unconfirmed s who id relayers lane (trying_to_confirm_more_messages_than_expected n) no_way
        e =
      cc

  -- What a delivery proof does that is settled without an error.
  abbrev pub Settled :
      Chain c → Chain c → AccountId → LaneId → InboundLaneData → MessageNonce → Type 0
  Settled s after who id d allowed =
      (IsConfirmable (outbound_lane s id) allowed (last_delivered_nonce d) d.relayers
        × (after ≡ confirmed_state s who id d))
      ⊎ ((last_delivered_nonce d ≤ (s.outbound_lanes id).latest_received_nonce) × (after ≡ s))

  check_confirmation-ok :
      (s : Chain c) (origin : Origin) (proof : c.MessagesDeliveryProof)
      (state : UnrewardedRelayersState) {who : AccountId} {id : LaneId} {d : InboundLaneData}
      → check_confirmation c s origin proof state ≡ ok (who, id, d)
      → (c.verify_messages_delivery_proof proof ≡ some (id, d))
        × (is_halted s.owned.mode ≡ false)
        × (is_declared d state ≡ true)
  unfolding check_confirmation ensure_not_halted
  check_confirmation-ok s origin proof state h = ground arith

  settle-Settled :
      (s : Chain c) (who : AccountId) (id : LaneId) (d : InboundLaneData) (allowed : MessageNonce)
      {after : Chain c}
      → (s.outbound_lanes id).latest_generated_nonce < u64_mod
      → settle c s who id d.relayers
          (confirm_delivery (outbound_lane s id) allowed (last_delivered_nonce d) d.relayers)
        ≡ ok after
      → Settled s after who id d allowed
  unfolding settle
  settle-Settled s who id d allowed fits e =
      let lane = outbound_lane s id in
      let last = last_delivered_nonce d in
      elim (confirm_delivery-decides lane allowed last d.relayers fits) [
        | inl (can, r) ↦ inl (can, sym (ok-injective (rw r at e)))
        | inr (_, _, no_way) ↦
            let (old, same) = settle-unconfirmed s who id d.relayers _ _ no_way e in
            inr (confirm_delivery-no_new lane allowed last d.relayers old, same)
      ]

  -- Where the latest nonces are numbers of 64 bits, a delivery proof that the pallet accepts
  -- verifies, came while the pallet was not halted and has the relayers that were declared.
  -- Either it is confirmable, and the lane's messages up to the last delivered one become
  -- confirmed, with an event and a payment, or it ends where the lane is or before and changes
  -- nothing.
  pub receive_messages_delivery_proof-Settled :
      (s : Chain c) (origin : Origin) (proof : c.MessagesDeliveryProof)
      (state : UnrewardedRelayersState) {after : Chain c}
      → ((id : LaneId) → (s.outbound_lanes id).latest_generated_nonce < u64_mod)
      → receive_messages_delivery_proof c s origin proof state ≡ ok after
      → (who : AccountId) × (id : LaneId) × (d : InboundLaneData)
        × (c.verify_messages_delivery_proof proof ≡ some (id, d))
        × (is_halted s.owned.mode ≡ false)
        × (is_declared d state ≡ true)
        × Settled s after who id d state.total_messages
  unfolding receive_messages_delivery_proof
  receive_messages_delivery_proof-Settled s origin proof state fits done =
      let ((who, id, d), checked, e) =
        >>=-eq-ok (check_confirmation c s origin proof state) _ done in
      let (verified, running, declared) = check_confirmation-ok s origin proof state checked in
      (
        who,
        id,
        d,
        verified,
        running,
        declared,
        settle-Settled s who id d state.total_messages (fits id) (map_err-eq-ok _ _ e),
      )

  Settled-valid :
      (s : Chain c) (who : AccountId) (id : LaneId) (d : InboundLaneData) (allowed : MessageNonce)
      {after : Chain c}
      → OutboundLanesAreValid s
      → Settled s after who id d allowed
      → OutboundLanesAreValid after
  Settled-valid s who id d allowed v (inr (_, same)) = rw same v
  Settled-valid s who id d allowed v (inl (can, e)) =
      let l = v id in
      rw e (
        save_outbound-IsValid s id _ v (record {
          pruned = omega (arith, l.pruned, can.new);
          received = can.sent;
          fits = l.fits;
          queued = l.queued;
        }))

  -- A delivery proof that is accepted leaves valid outbound lanes valid.
  pub receive_messages_delivery_proof-valid :
      (s : Chain c) (origin : Origin) (proof : c.MessagesDeliveryProof)
      (state : UnrewardedRelayersState) {after : Chain c}
      → OutboundLanesAreValid s
      → receive_messages_delivery_proof c s origin proof state ≡ ok after
      → OutboundLanesAreValid after
  receive_messages_delivery_proof-valid s origin proof state v done =
      let (who, id, d, _, _, _, settled) =
        receive_messages_delivery_proof-Settled s origin proof state
          (λ id. omega (arith, (v id).fits)) done in
      Settled-valid s who id d state.total_messages v settled
