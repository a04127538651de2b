-- ===== src/Messages/Inbound.antt =====
-- modules/messages/src/inbound_lane.rs: the receiving end of a lane. `InboundLane` holds what the
-- trait `InboundLaneStorage` gives access to.
pub mod Chain
pub mod State
pub mod Receive
use parity_bridges_common.Common.{
  ℕ, ◌-◌, Bool, true, false, Option, none, some, List, [], ◌∷◌, length, if◌then◌else◌, leb, ltb,
  ◌==◌, add_u64, not,
}
use parity_bridges_common.Messages.Types.{
  LaneId, MessageKey, MessageNonce, AccountId, DeliveredMessages, UnrewardedRelayer,
  InboundLaneData, OutboundLaneData, ReceivalResult, dispatched, invalid_nonce,
  too_many_unrewarded_relayers, too_many_unconfirmed_messages, DispatchMessage, MessageDispatch,
  delivered_new, note_dispatched_message, last_delivered_nonce,
}

pub record InboundLane : Type 0 where
  pub id : LaneId
  pub max_unrewarded_relayer_entries : MessageNonce
  pub max_unconfirmed_messages : MessageNonce
  pub lane_data : InboundLaneData

-- The `while` loop of `receive_state_update`.
unfoldable pub drop_confirmed : MessageNonce → List UnrewardedRelayer → List UnrewardedRelayer
drop_confirmed confirmed [] = []
drop_confirmed confirmed (entry ∷ entries) =
    if leb entry.messages.end confirmed then drop_confirmed confirmed entries else entry ∷ entries

-- The `match` on the front entry below it.
unfoldable pub trim_front : MessageNonce → List UnrewardedRelayer → List UnrewardedRelayer
trim_front confirmed [] = []
trim_front confirmed (entry ∷ entries) =
    (if ltb entry.messages.begin confirmed
      then record entry { messages = record entry.messages { begin = add_u64 confirmed 1 } }
      else entry)
    ∷ entries

unfoldable pub receive_state_update :
    InboundLane → OutboundLaneData → InboundLane × Option MessageNonce
receive_state_update lane outbound =
    let confirmed = outbound.latest_received_nonce in
    let d = lane.lane_data in
    if ltb (last_delivered_nonce d) confirmed
    then (lane, none)
    else if leb confirmed d.last_confirmed_nonce
    then (lane, none)
    else (
      record lane {
        lane_data = record {
          relayers = trim_front confirmed (drop_confirmed confirmed d.relayers);
          last_confirmed_nonce = confirmed;
        };
      },
      some confirmed,
    )

-- The last entry is extended if it belongs to the relayer, and a new one is added if not.
unfoldable pub note_delivery :
    AccountId → MessageNonce → List UnrewardedRelayer → List UnrewardedRelayer
unfolding delivered_new note_dispatched_message
note_delivery relayer nonce [] = record { relayer = relayer; messages = delivered_new nonce } ∷ []
note_delivery relayer nonce (entry ∷ []) =
    if entry.relayer == relayer
    then record entry { messages = note_dispatched_message entry.messages } ∷ []
    else entry ∷ record { relayer = relayer; messages = delivered_new nonce } ∷ []
note_delivery relayer nonce (entry ∷ next ∷ entries) =
    entry ∷ note_delivery relayer nonce (next ∷ entries)

-- The guards of `receive_message`, in order.
pub data Acceptance : Type 0 where
  accept : Acceptance
  bad_nonce : Acceptance
  too_many_relayers : Acceptance
  too_many_unconfirmed : Acceptance

unfoldable pub acceptance : InboundLane → MessageNonce → Acceptance
acceptance lane nonce =
    if not (nonce == add_u64 (last_delivered_nonce lane.lane_data) 1)
    then bad_nonce
    else if leb lane.max_unrewarded_relayer_entries (length lane.lane_data.relayers)
    then too_many_relayers
    else if ltb lane.max_unconfirmed_messages (nonce - lane.lane_data.last_confirmed_nonce)
    then too_many_unconfirmed
    else accept

module _ {World W P R : Type 0} (D : MessageDispatch World W P R) where
  after_guards :
      Acceptance
      → InboundLane
      → World
      → AccountId
      → AccountId
      → MessageNonce
      → P
      → InboundLane × World × ReceivalResult W R
  after_guards bad_nonce lane world _ _ nonce msg = (lane, world, invalid_nonce)
  after_guards too_many_relayers lane world _ _ nonce msg =
      (lane, world, too_many_unrewarded_relayers)
  after_guards too_many_unconfirmed lane world _ _ nonce msg =
      (lane, world, too_many_unconfirmed_messages)
  after_guards accept lane world at_bridged at_this nonce msg =
      let key : MessageKey = record { lane_id = lane.id; nonce = nonce } in
      let (world', result) = D.dispatch world at_this (record { key = key; message_data = msg }) in
      (
        record lane {
          lane_data = record lane.lane_data {
            relayers = note_delivery at_bridged nonce lane.lane_data.relayers;
          };
        },
        world',
        dispatched result,
      )

  unfoldable pub receive_message :
      InboundLane
      → World
      → AccountId
      → AccountId
      → MessageNonce
      → P
      → InboundLane × World × ReceivalResult W R
  unfolding after_guards
  receive_message lane world at_bridged at_this nonce msg =
      after_guards (acceptance lane nonce) lane world at_bridged at_this nonce msg
