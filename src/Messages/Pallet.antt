-- ===== src/Messages/Pallet.antt =====
-- The state and the configuration of the messages pallet (modules/messages/src/lib.rs), and the
-- lanes as views of the pallet's storage.
use parity_bridges_common.Common.{ℕ, Bool, Option, List, [], ◌∷◌, ◌++◌, update}
use parity_bridges_common.Runtime.{Owned, OwnedBridgeModuleError, Origin}
use parity_bridges_common.Messages.Types.{
  LaneId, MessageNonce, MessagePayload, MessageKey, AccountId, DeliveredMessages, UnrewardedRelayer,
  InboundLaneData, OutboundLaneData, MessagesOperatingMode, ReceivedMessages, MessageDispatch,
  ProvedLaneMessages,
}
use parity_bridges_common.Messages.Weights.{WeightOps}
use parity_bridges_common.Messages.Outbound.{OutboundLane}
use parity_bridges_common.Messages.Inbound.{InboundLane}

-- `Message` of primitives/messages/src/lib.rs.
pub record Message : Type 0 where
  pub key : MessageKey
  pub payload : MessagePayload

-- The trait `Config`: what the runtime plugs into the pallet. `World` is the rest of the chain's
-- state, which dispatches and payments change.
pub record Config : Type 1 where
  pub World : Type 0
  pub Weight : Type 0
  pub DispatchPayload : Type 0
  pub DispatchLevelResult : Type 0
  pub OutboundPayload : Type 0
  pub MessagesProof : Type 0
  pub MessagesDeliveryProof : Type 0
  pub weights : WeightOps Weight
  pub active_outbound_lanes : List LaneId
  pub max_unrewarded_relayer_entries : MessageNonce
  pub max_unconfirmed_messages : MessageNonce
  pub maximal_outbound_payload_size : ℕ
  pub encode : OutboundPayload → MessagePayload
  pub decode : MessagePayload → DispatchPayload
  pub dispatcher : MessageDispatch World Weight DispatchPayload DispatchLevelResult
  -- `TargetHeaderChain` and `LaneMessageVerifier`.
  pub verify_message : OutboundPayload → Bool
  pub verify_lane_message : Origin → LaneId → OutboundLaneData → OutboundPayload → Bool
  pub verify_messages_delivery_proof : MessagesDeliveryProof → Option (LaneId × InboundLaneData)
  -- `SourceHeaderChain`.
  pub verify_messages_proof :
      MessagesProof → ℕ → Option (List (LaneId × ProvedLaneMessages Message))
  -- `DeliveryPayments` and `DeliveryConfirmationPayments`.
  pub pay_delivery : World → AccountId → MessageNonce → MessageNonce → Weight → World
  pub pay_confirmation :
      World → LaneId → List UnrewardedRelayer → AccountId → MessageNonce → MessageNonce → World
  pub receive_messages_proof_weight : MessagesProof → ℕ → Weight → Weight
  -- `MaxEncodedLen` of a relayer id and of a nonce, and `usize::MAX`.
  pub relayer_max_encoded_len : ℕ
  pub nonce_max_encoded_len : ℕ
  pub usize_max : ℕ

pub data Event (W R : Type 0) : Type 0 where
  message_accepted : LaneId → MessageNonce → Event W R
  messages_received : List (ReceivedMessages W R) → Event W R
  messages_delivered : LaneId → DeliveredMessages → Event W R

pub data Error : Type 0 where
  not_operating_normally : Error
  inactive_outbound_lane : Error
  message_is_too_large : Error
  message_rejected_by_chain_verifier : Error
  message_rejected_by_lane_verifier : Error
  failed_to_withdraw_message_fee : Error
  too_many_messages_in_the_proof : Error
  invalid_messages_proof : Error
  invalid_messages_delivery_proof : Error
  invalid_unrewarded_relayers : Error
  invalid_unrewarded_relayers_state : Error
  message_is_already_delivered : Error
  message_is_not_yet_sent : Error
  trying_to_confirm_more_messages_than_expected : Error
  bridge_module : OwnedBridgeModuleError → Error

pub record State (World W R : Type 0) : Type 0 where
  pub owned : Owned MessagesOperatingMode
  pub inbound_lanes : LaneId → InboundLaneData
  pub outbound_lanes : LaneId → OutboundLaneData
  pub outbound_messages : LaneId → MessageNonce → Option MessagePayload
  pub world : World
  pub events : List (Event W R)

module _ {World W R : Type 0} where
  abbrev pub deposit_event : State World W R → Event W R → State World W R
  deposit_event s e = record s { events = s.events ++ e ∷ [] }

  -- `OutboundLane` over `RuntimeOutboundLaneStorage`, and what writing through it changes.
  abbrev pub outbound_lane : State World W R → LaneId → OutboundLane
  outbound_lane s id = record { lane_data = s.outbound_lanes id; stored = s.outbound_messages id }

  abbrev pub save_outbound : State World W R → LaneId → OutboundLane → State World W R
  save_outbound s id lane = record s {
    outbound_lanes = update s.outbound_lanes id lane.lane_data;
    outbound_messages = update s.outbound_messages id lane.stored;
  }

module _ (c : Config) where
  abbrev pub Chain : Type 0
  Chain = State c.World c.Weight c.DispatchLevelResult

  -- `InboundLane` over `RuntimeInboundLaneStorage`.
  abbrev pub inbound_lane : Chain → LaneId → InboundLane
  inbound_lane s id = record {
    id = id;
    max_unrewarded_relayer_entries = c.max_unrewarded_relayer_entries;
    max_unconfirmed_messages = c.max_unconfirmed_messages;
    lane_data = s.inbound_lanes id;
  }

  abbrev pub save_inbound : Chain → LaneId → InboundLane → Chain
  save_inbound s id lane = record s { inbound_lanes = update s.inbound_lanes id lane.lane_data }
