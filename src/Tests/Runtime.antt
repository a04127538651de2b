-- ===== src/Tests/Runtime.antt =====
-- A runtime for modules/messages: weights are numbers, a dispatch counts, a proof is what it proves.
use parity_bridges_common.Common.{
  ℕ, ◌+◌, ◌-◌, true, ◌&&◌, Option, none, some, List, [], ◌∷◌, leb, ltb, ◌==◌, min, if◌then◌else◌,
  length,
}
use parity_bridges_common.Runtime.{normal}
use parity_bridges_common.Messages.Types.{
  LaneId, OutboundLaneData, InboundLaneData, UnrewardedRelayer, ProvedLaneMessages, basic,
}
use parity_bridges_common.Messages.Weights.{WeightOps}
use parity_bridges_common.Messages.Pallet.{Config, Chain, Message}

abbrev pub metered : WeightOps ℕ
metered = record {
  zero = 0;
  add = λ a b. a + b;
  sub = λ a b. a - b;
  saturating_sub = λ a b. a - b;
  min = λ a b. min a b;
  all_gte = λ a b. leb b a;
  any_gt = λ a b. ltb b a;
  is_zero = λ a. a == 0;
  proof_size = λ a. a;
  set_proof_size = λ a b. b;
  reads = λ n. n;
  writes = λ n. n;
  reads_writes = λ r w. r + w;
}

abbrev pub runtime : Config
runtime = record {
  World = ℕ;
  Weight = ℕ;
  DispatchPayload = ℕ;
  DispatchLevelResult = Unit;
  OutboundPayload = List ℕ;
  MessagesProof = List (LaneId × ProvedLaneMessages Message);
  MessagesDeliveryProof = LaneId × InboundLaneData;
  weights = metered;
  active_outbound_lanes = 0 ∷ 1 ∷ [];
  max_unrewarded_relayer_entries = 4;
  max_unconfirmed_messages = 8;
  maximal_outbound_payload_size = 16;
  encode = λ payload. payload;
  decode = λ payload. length payload;
  dispatcher = record {
    dispatch_weight = λ m. (m.message_data, 1);
    dispatch =
        λ world who m. (world + 1, record { unspent_weight = 0; dispatch_level_result = tt });
  };
  verify_message = λ payload. true;
  verify_lane_message = λ who id d payload. true;
  verify_messages_delivery_proof = λ proof. some proof;
  verify_messages_proof = λ proof count. some proof;
  pay_delivery = λ world who total valid weight. world;
  pay_confirmation = λ world id relayers who first last. world + 100;
  receive_messages_proof_weight = λ proof count weight. weight;
  relayer_max_encoded_len = 32;
  nonce_max_encoded_len = 8;
  usize_max = 4294967295;
}

-- Two messages are sent, and one of them is received.
abbrev pub two_sent : OutboundLaneData
two_sent = record {
  oldest_unpruned_nonce = 1;
  latest_received_nonce = 1;
  latest_generated_nonce = 2;
}

abbrev pub two_stored : ℕ → Option (List ℕ)
two_stored n = if leb 1 n && leb n 2 then some (n ∷ []) else none

abbrev pub entry : ℕ → ℕ → ℕ → UnrewardedRelayer
entry relayer first last = record {
  relayer = relayer;
  messages = record { begin = first; end = last };
}

-- Nonces 1 to 3 are delivered, by two relayers.
abbrev pub three_delivered : InboundLaneData
three_delivered = record { relayers = entry 7 1 2 ∷ entry 8 3 3 ∷ []; last_confirmed_nonce = 0 }

abbrev pub chain : Chain runtime
chain = record {
  owned = record { owner = none; mode = basic normal };
  inbound_lanes = λ id. three_delivered;
  outbound_lanes = λ id. two_sent;
  outbound_messages = λ id n. two_stored n;
  world = 0;
  events = [];
}
