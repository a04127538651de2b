-- ===== src/Messages/Confirm.antt =====
-- `receive_messages_delivery_proof` of modules/messages/src/lib.rs: the source chain learns what has
-- been delivered.
pub mod Laws
use parity_bridges_common.Common.{
  ℕ, ◌-◌, ◌+◌, Bool, true, false, ◌&&◌, Option, none, some, List, Result, ok, err, map_err, ok_or,
  ◌>>=◌, ◌>>◌, ◌==◌, length, ensure, u64_mod,
}
use parity_bridges_common.Runtime.{
  Origin, DispatchError, from_origin, from_pallet, ensure_signed, ensure_not_halted,
}
use parity_bridges_common.Messages.Types.{
  LaneId, MessageNonce, AccountId, messages_mode, UnrewardedRelayer, InboundLaneData,
  UnrewardedRelayersState, last_delivered_nonce, total_unrewarded_messages,
}
use parity_bridges_common.Messages.Outbound.{
  OutboundLane, ReceivalConfirmationResult, confirmed_messages, no_new_confirmations,
  failed_to_confirm_future_messages, empty_unrewarded_relayer_entry,
  non_consecutive_unrewarded_relayer_entries, confirm_delivery,
}
use parity_bridges_common.Messages.Outbound
use parity_bridges_common.Messages.Pallet.{
  Config, Chain, Error, messages_delivered, deposit_event, outbound_lane, save_outbound,
  bridge_module, invalid_messages_delivery_proof, invalid_unrewarded_relayers_state,
  invalid_unrewarded_relayers, trying_to_confirm_more_messages_than_expected,
}

-- `Option::unwrap_or(MessageNonce::MAX)`.
abbrev or_max : Option MessageNonce → MessageNonce
or_max none = u64_mod - 1
or_max (some n) = n

unfoldable pub is_declared : InboundLaneData → UnrewardedRelayersState → Bool
is_declared d state =
    or_max (total_unrewarded_messages d.relayers) == state.total_messages
    && length d.relayers == state.unrewarded_relayer_entries

module _ (c : Config) where
  -- The checks of `receive_messages_delivery_proof`: the submitter, the lane and its inbound data.
  unfoldable pub check_confirmation :
      Chain c
      → Origin
      → c.MessagesDeliveryProof
      → UnrewardedRelayersState
      → Result (DispatchError Error) (AccountId × LaneId × InboundLaneData)
  check_confirmation s origin proof state = do
    map_err (λ e. from_pallet (bridge_module e)) (ensure_not_halted s.owned)
    who ← map_err from_origin (ensure_signed origin)
    (lane_id, d) ←
        ok_or (c.verify_messages_delivery_proof proof) (from_pallet invalid_messages_delivery_proof)
    ensure (is_declared d state) (from_pallet invalid_unrewarded_relayers_state)
    ensure (last_delivered_nonce d == state.last_delivered_nonce)
        (from_pallet invalid_unrewarded_relayers_state)
    ok (who, lane_id, d)

  -- The `match` on the result of `confirm_delivery`, the event and the payment.
  unfoldable pub settle :
      Chain c
      → AccountId
      → LaneId
      → List UnrewardedRelayer
      → OutboundLane × ReceivalConfirmationResult
      → Result Error (Chain c)
  settle s who lane_id relayers (lane, confirmed_messages m) =
      let saved = deposit_event (save_outbound s lane_id lane) (messages_delivered lane_id m) in
      ok
        (record saved { world = c.pay_confirmation saved.world lane_id relayers who m.begin m.end })
  settle s who lane_id relayers (lane, no_new_confirmations) = ok s
  settle s who lane_id relayers (lane, Outbound.trying_to_confirm_more_messages_than_expected n) =
      err trying_to_confirm_more_messages_than_expected
  settle s who lane_id relayers (lane, failed_to_confirm_future_messages) =
      err invalid_unrewarded_relayers
  settle s who lane_id relayers (lane, empty_unrewarded_relayer_entry) =
      err invalid_unrewarded_relayers
  settle s who lane_id relayers (lane, non_consecutive_unrewarded_relayer_entries) =
      err invalid_unrewarded_relayers

  unfoldable pub receive_messages_delivery_proof :
      Chain c
      → Origin
      → c.MessagesDeliveryProof
      → UnrewardedRelayersState
      → Result (DispatchError Error) (Chain c)
  receive_messages_delivery_proof s origin proof state = do
    (who, lane_id, d) ← check_confirmation s origin proof state
    map_err from_pallet (
        settle s who lane_id d.relayers (
          confirm_delivery (outbound_lane s lane_id) state.total_messages (last_delivered_nonce d)
            d.relayers))
