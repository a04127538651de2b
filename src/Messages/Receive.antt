-- ===== src/Messages/Receive.antt =====
-- `receive_messages_proof` of modules/messages/src/lib.rs: delivery of the messages of a proof.
pub mod Lane
pub mod Lanes
use parity_bridges_common.Common.{
  ℕ, ◌-◌, ◌+◌, ◌*◌, ◌%◌, Bool, true, false, Option, none, some, List, [], ◌∷◌, ◌++◌, map, Result,
  ok, err, map_err, ok_or, ◌>>=◌, ◌>>◌, if◌then◌else◌, leb, ltb, ◌==◌, update, length, ensure,
  contains, add_u64,
}
use mathlib.Core.Option
use parity_bridges_common.Runtime.{
  Origin, normal, DispatchError, from_origin, from_pallet, ensure_signed, ensure_not_halted,
}
use parity_bridges_common.Messages.Types.{
  LaneId, MessageNonce, AccountId, MessagesOperatingMode, messages_mode, DispatchMessage,
  ProvedLaneMessages, ReceivedMessages, OutboundLaneData, InboundLaneData, ReceivalResult,
  dispatched, invalid_nonce, too_many_unrewarded_relayers, too_many_unconfirmed_messages,
  received_new, push, encoded_size_hint, push_skipped_for_not_enough_weight,
}
use parity_bridges_common.Messages.Inbound.{InboundLane, receive_message, receive_state_update}
use parity_bridges_common.Messages.Pallet.{
  Config, Chain, State, Message, Error, Event, messages_received, deposit_event, inbound_lane,
  save_inbound, bridge_module, too_many_messages_in_the_proof, invalid_messages_proof,
}

module _ (c : Config) where
  abbrev pub DispatchMessages : Type 0
  DispatchMessages = List (LaneId × ProvedLaneMessages (DispatchMessage c.DispatchPayload))

  abbrev pub Received : Type 0
  Received = ReceivedMessages c.Weight c.DispatchLevelResult

-- The variables of the loop over the messages of one lane.
pub record LaneLoop (c : Config) : Type 0 where
  pub lane : InboundLane
  pub world : c.World
  pub status : ReceivedMessages c.Weight c.DispatchLevelResult
  pub stopped : Bool
  pub total : MessageNonce
  pub valid : MessageNonce
  pub weight_left : c.Weight
  pub actual_weight : c.Weight

-- The variables of the loop over the lanes.
pub record ProofLoop (c : Config) : Type 0 where
  pub chain : Chain c
  pub statuses : List (ReceivedMessages c.Weight c.DispatchLevelResult)
  pub total : MessageNonce
  pub valid : MessageNonce
  pub weight_left : c.Weight
  pub actual_weight : c.Weight

abbrev pub apply_state : InboundLane → Option OutboundLaneData → InboundLane
apply_state lane none = lane
apply_state lane (some lane_state) = (receive_state_update lane lane_state).0

module _ (c : Config) where
  -- `RuntimeInboundLaneStorage::extra_proof_size_bytes`.
  unfoldable pub extra_proof_size_bytes : InboundLane → ℕ
  extra_proof_size_bytes lane =
      size_or_max lane.max_unrewarded_relayer_entries - size_or_max (length lane.lane_data.relayers)
    where
      size_or_max : ℕ → ℕ
      size_or_max entries =
          elim (encoded_size_hint c.usize_max c.relayer_max_encoded_len c.nonce_max_encoded_len
            entries) [ some size ↦ size | none ↦ c.usize_max ]

  -- `verify_and_decode_messages_proof`.
  unfoldable pub decode_message : Message → DispatchMessage c.DispatchPayload
  decode_message m = record { key = m.key; message_data = c.decode m.payload }

  decode_lane :
      LaneId × ProvedLaneMessages Message
      → LaneId × ProvedLaneMessages (DispatchMessage c.DispatchPayload)
  unfolding decode_message
  decode_lane (lane_id, proved) = (
    lane_id,
    record { lane_state = proved.lane_state; messages = map decode_message proved.messages },
  )

  unfoldable pub verify_and_decode_messages_proof :
      c.MessagesProof → ℕ → Option (DispatchMessages c)
  unfolding decode_lane
  verify_and_decode_messages_proof proof messages_count =
      Option.map (map decode_lane) (c.verify_messages_proof proof messages_count)

  abbrev pub unspent_of : ReceivalResult c.Weight c.DispatchLevelResult → c.Weight → c.Weight
  unspent_of (dispatched r) weight = r.unspent_weight
  unspent_of invalid_nonce weight = weight
  unspent_of too_many_unrewarded_relayers weight = weight
  unspent_of too_many_unconfirmed_messages weight = weight

  abbrev pub count_valid : ReceivalResult c.Weight c.DispatchLevelResult → ℕ → ℕ
  count_valid (dispatched r) valid = add_u64 valid 1
  count_valid invalid_nonce valid = valid
  count_valid too_many_unrewarded_relayers valid = valid
  count_valid too_many_unconfirmed_messages valid = valid

  -- What the loop over a lane's messages starts from.
  unfoldable pub start_lane : ProofLoop c → LaneId → Option OutboundLaneData → LaneLoop c
  start_lane p lane_id lane_state =
      let lane = inbound_lane c p.chain lane_id in
      let extra = extra_proof_size_bytes lane in
      record {
        lane = apply_state lane lane_state;
        world = p.chain.world;
        status = received_new lane_id [];
        stopped = false;
        total = p.total;
        valid = p.valid;
        weight_left = p.weight_left;
        actual_weight =
            c.weights.set_proof_size p.actual_weight (c.weights.proof_size p.actual_weight - extra);
      }

  module _ (at_bridged at_this : AccountId) where
    -- The part of the loop's body from `receive_message` on.
    unfoldable pub deliver_one :
        LaneLoop c → MessageNonce → c.DispatchPayload → c.Weight → LaneLoop c
    deliver_one st nonce payload message_weight =
        let (lane, world, result) =
          receive_message c.dispatcher st.lane st.world at_bridged at_this nonce payload in
        let unspent = c.weights.min (unspent_of result message_weight) message_weight in
        record st {
          lane = lane;
          world = world;
          status = push st.status nonce result;
          valid = count_valid result st.valid;
          weight_left = c.weights.sub st.weight_left (c.weights.sub message_weight unspent);
          actual_weight = c.weights.saturating_sub st.actual_weight unspent;
        }

    skip_one : LaneLoop c → MessageNonce → LaneLoop c
    skip_one st nonce = record st {
      status = push_skipped_for_not_enough_weight st.status nonce;
      stopped = true;
    }

    -- The body of the loop over the messages of a lane.
    unfoldable pub receive_one : LaneLoop c → DispatchMessage c.DispatchPayload → LaneLoop c
    unfolding skip_one
    receive_one st message =
        let counted = record st { total = add_u64 st.total 1 } in
        let (payload, message_weight) = c.dispatcher.dispatch_weight message in
        if st.stopped
        then skip_one counted message.key.nonce
        else if c.weights.any_gt message_weight st.weight_left
        then skip_one counted message.key.nonce
        else deliver_one counted message.key.nonce payload message_weight

    unfoldable pub receive_all : LaneLoop c → List (DispatchMessage c.DispatchPayload) → LaneLoop c
    receive_all st [] = st
    receive_all st (message ∷ messages) = receive_all (receive_one st message) messages

    -- The body of the loop over the lanes.
    unfoldable pub receive_lane :
        ProofLoop c → LaneId × ProvedLaneMessages (DispatchMessage c.DispatchPayload) → ProofLoop c
    receive_lane p (lane_id, proved) =
        let st = receive_all (start_lane p lane_id proved.lane_state) proved.messages in
        record {
          chain = record (save_inbound c p.chain lane_id st.lane) { world = st.world };
          statuses = p.statuses ++ st.status ∷ [];
          total = st.total;
          valid = st.valid;
          weight_left = st.weight_left;
          actual_weight = st.actual_weight;
        }

    unfoldable pub receive_lanes : ProofLoop c → DispatchMessages c → ProofLoop c
    receive_lanes p [] = p
    receive_lanes p (lane ∷ lanes) = receive_lanes (receive_lane p lane) lanes

  -- Payment and event, once all messages are through.
  unfoldable pub finish_receiving : ProofLoop c → AccountId → Chain c × c.Weight
  finish_receiving p at_this =
      let paid = c.pay_delivery p.chain.world at_this p.total p.valid p.actual_weight in
      (
        deposit_event (record p.chain { world = paid }) (messages_received p.statuses),
        p.actual_weight,
      )

  -- The checks of `receive_messages_proof`: the relayer and the messages of the proof.
  unfoldable pub check_delivery :
      Chain c
      → Origin
      → c.MessagesProof
      → ℕ
      → Result (DispatchError Error) (AccountId × DispatchMessages c)
  check_delivery s origin proof messages_count = do
    map_err (λ e. from_pallet (bridge_module e)) (ensure_not_halted s.owned)
    at_this ← map_err from_origin (ensure_signed origin)
    ensure (leb messages_count c.max_unconfirmed_messages)
        (from_pallet too_many_messages_in_the_proof)
    messages ←
        ok_or (verify_and_decode_messages_proof proof messages_count)
          (from_pallet invalid_messages_proof)
    ok (at_this, messages)

  abbrev pub start_proof : Chain c → c.MessagesProof → ℕ → c.Weight → ProofLoop c
  start_proof s proof messages_count dispatch_weight = record {
    chain = s;
    statuses = [];
    total = 0;
    valid = 0;
    weight_left = dispatch_weight;
    actual_weight = c.receive_messages_proof_weight proof messages_count dispatch_weight;
  }

  -- The result is the new state and the actual weight of the call.
  unfoldable pub receive_messages_proof :
      Chain c
      → Origin
      → AccountId
      → c.MessagesProof
      → ℕ
      → c.Weight
      → Result (DispatchError Error) (Chain c × c.Weight)
  receive_messages_proof s origin at_bridged proof messages_count dispatch_weight = do
    (at_this, messages) ← check_delivery s origin proof messages_count
    let start = start_proof s proof messages_count dispatch_weight
    ok (finish_receiving (receive_lanes at_bridged at_this start messages) at_this)
