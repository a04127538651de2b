-- ===== src/Tests/Inbound.antt =====
-- Runs of the receiving end of a lane.
use parity_bridges_common.Common.{
  ℕ, ◌+◌, ◌<◌, ◌≡◌, ◌≢◌, refl, ◌⊎◌, ◌&&◌, none, some, arith, is_some, ◌==◌, if◌then◌else◌,
}
use parity_bridges_common.Messages.Types.{
  OutboundLaneData, MessageNonce, MessageDispatchResult, dispatched, last_delivered_nonce,
}
use parity_bridges_common.Messages.Inbound.{InboundLane, receive_state_update, receive_message}
use parity_bridges_common.Messages.Inbound.Chain.{deliverer, starts_longer}
use parity_bridges_common.Messages.Inbound.State.{
  IsValid, IsNewConfirmation, receive_state_update-confirms, receive_state_update-forgets,
}
use parity_bridges_common.Messages.Inbound.Receive.{
  IsAcceptable, noted, receive_message-decides, receive_message-rewards,
}
use parity_bridges_common.Messages.Pallet.{inbound_lane}
use parity_bridges_common.Tests.Runtime.{runtime, chain}

abbrev pub lane : InboundLane
lane = inbound_lane runtime chain 0

pub lane-IsValid : IsValid lane
unfolding last_delivered_nonce
lane-IsValid = record {
  queue = ground arith;
  entries = omega arith;
  unconfirmed = omega arith;
  fits = omega arith;
}

-- The other side has seen the confirmation of the first nonce.
abbrev pub confirmation : OutboundLaneData
confirmation = record {
  oldest_unpruned_nonce = 1;
  latest_received_nonce = 1;
  latest_generated_nonce = 4;
}

is_new : IsNewConfirmation lane 1
unfolding last_delivered_nonce
is_new = (omega arith, omega arith)

receive_state_update-confirms_example :
    (IsNewConfirmation lane 1
      × ((receive_state_update lane confirmation).1 ≡ some 1)
      × ((receive_state_update lane confirmation).0.lane_data.last_confirmed_nonce ≡ 1)
      × ((m : MessageNonce)
          → 1 < m
          → deliverer m (receive_state_update lane confirmation).0.lane_data.relayers
            ≡ deliverer m lane.lane_data.relayers))
    ⊎ ((¬ IsNewConfirmation lane 1) × (receive_state_update lane confirmation ≡ (lane, none)))
receive_state_update-confirms_example = receive_state_update-confirms lane confirmation lane-IsValid

receive_state_update-forgets_example :
    is_some (deliverer 1 (receive_state_update lane confirmation).0.lane_data.relayers)
    ≡ (1 == 1 && starts_longer 1 lane.lane_data.relayers)
receive_state_update-forgets_example =
    receive_state_update-forgets lane confirmation lane-IsValid 1 is_new (omega arith)

room : last_delivered_nonce lane.lane_data + 2 < 18446744073709551616
unfolding last_delivered_nonce
room = omega arith

fourth-IsAcceptable : IsAcceptable lane 4
unfolding last_delivered_nonce
fourth-IsAcceptable = record { next = refl; entries = omega arith; unconfirmed = omega arith }

receive_message-decides_example :
    (IsAcceptable lane 4
      × (receive_message runtime.dispatcher lane 0 9 5 4 1 ≡ (
        noted lane 9 4,
        1,
        dispatched (record { unspent_weight = 0; dispatch_level_result = tt }),
      )))
    ⊎ ((¬ IsAcceptable lane 4)
        × ((receive_message runtime.dispatcher lane 0 9 5 4 1).0 ≡ lane)
        × ((receive_message runtime.dispatcher lane 0 9 5 4 1).1 ≡ 0)
        × ((r : MessageDispatchResult ℕ Unit)
            → (receive_message runtime.dispatcher lane 0 9 5 4 1).2 ≢ dispatched r))
receive_message-decides_example =
    receive_message-decides runtime.dispatcher lane 0 9 5 4 1 room lane-IsValid

receive_message-rewards_example :
    (last_delivered_nonce (receive_message runtime.dispatcher lane 0 9 5 4 1).0.lane_data ≡ 4)
    × ((m : MessageNonce)
        → deliverer m (receive_message runtime.dispatcher lane 0 9 5 4 1).0.lane_data.relayers
          ≡ (if m == 4 then some 9 else deliverer m lane.lane_data.relayers))
receive_message-rewards_example =
    receive_message-rewards runtime.dispatcher lane 0 9 5 4 1 room lane-IsValid fourth-IsAcceptable
