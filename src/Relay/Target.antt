-- ===== src/Relay/Target.antt =====
-- What the relayer reads of an inbound lane: relays/lib-substrate-relay/src/messages_target.rs, put
-- together as in `TargetClient::nonces` of relays/messages/src/message_race_delivery.rs.
pub mod Accepted
use parity_bridges_common.Common.{
  ℕ, ◌-◌, Option, none, some, length, head?, add_u64, sub_u64, u64_mod,
}
use parity_bridges_common.Messages.Types.{
  MessageNonce, UnrewardedRelayer, InboundLaneData, UnrewardedRelayersState, inbound_default,
  last_delivered_nonce, total_unrewarded_messages,
}
use parity_bridges_common.Relay.Race.{TargetClientNonces}
use parity_bridges_common.Relay.Strategy.{nonce_or}
use parity_bridges_common.Relay.Delivery.{DeliveryRaceTargetNoncesData}

-- Data missing from the storage is that of a lane without messages.
abbrev lane_data_or_default : Option InboundLaneData → InboundLaneData
lane_data_or_default none = inbound_default
lane_data_or_default (some d) = d

messages_in : Option UnrewardedRelayer → MessageNonce
messages_in none = 0
messages_in (some entry) = sub_u64 (add_u64 1 entry.messages.end) entry.messages.begin

unfoldable pub unrewarded_relayers_state : Option InboundLaneData → UnrewardedRelayersState
unfolding messages_in
unrewarded_relayers_state stored =
    let d = lane_data_or_default stored in
    record {
      unrewarded_relayer_entries = length d.relayers;
      messages_in_oldest_entry = messages_in (head? d.relayers);
      total_messages = nonce_or (total_unrewarded_messages d.relayers) (u64_mod - 1);
      last_delivered_nonce = last_delivered_nonce d;
    }

unfoldable pub target_nonces :
    Option InboundLaneData → TargetClientNonces DeliveryRaceTargetNoncesData
target_nonces stored =
    let d = lane_data_or_default stored in
    record {
      latest_nonce = last_delivered_nonce d;
      nonces_data = record {
        confirmed_nonce = d.last_confirmed_nonce;
        unrewarded_relayers = unrewarded_relayers_state stored;
      };
    }
