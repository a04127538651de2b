-- ===== src/Messages/Types.antt =====
-- The data of primitives/messages/src/lib.rs and of primitives/messages/src/target_chain.rs.
-- Lane ids, account ids and payload bytes are read as numbers; a nonce is a `u64`.
use parity_bridges_common.Common.{
  ℕ, ◌+◌, ◌*◌, Bool, true, false, ◌&&◌, Option, none, some, List, [], ◌∷◌, ◌++◌, head?, back,
  if◌then◌else◌, leb, add_u64, sub_u64, checked_add_u64, checked_sub_u64,
}
use parity_bridges_common.Runtime.{BasicOperatingMode, OperatingMode, normal, halted}

abbrev pub LaneId : Type 0
LaneId = ℕ

abbrev pub MessageNonce : Type 0
MessageNonce = ℕ

abbrev pub MessagePayload : Type 0
MessagePayload = List ℕ

abbrev pub AccountId : Type 0
AccountId = ℕ

pub data MessagesOperatingMode : Type 0 where
  basic : BasicOperatingMode → MessagesOperatingMode
  rejecting_outbound_messages : MessagesOperatingMode

abbrev pub is_halted : MessagesOperatingMode → Bool
is_halted (basic halted) = true
is_halted (basic normal) = false
is_halted rejecting_outbound_messages = false

instance abbrev pub messages_mode : OperatingMode MessagesOperatingMode
messages_mode = record { is_halted = is_halted }

pub record MessageKey : Type 0 where
  pub lane_id : LaneId
  pub nonce : MessageNonce

-- The range from `begin` to `end`, both included.
pub record DeliveredMessages : Type 0 where
  pub begin : MessageNonce
  pub end : MessageNonce

unfoldable pub delivered_new : MessageNonce → DeliveredMessages
delivered_new nonce = record { begin = nonce; end = nonce }

unfoldable pub total_messages : DeliveredMessages → MessageNonce
total_messages d = if leb d.begin d.end then add_u64 (sub_u64 d.end d.begin) 1 else 0

unfoldable pub note_dispatched_message : DeliveredMessages → DeliveredMessages
note_dispatched_message d = record d { end = add_u64 d.end 1 }

abbrev pub contains_message : DeliveredMessages → MessageNonce → Bool
contains_message d nonce = leb d.begin nonce && leb nonce d.end

pub record UnrewardedRelayer : Type 0 where
  pub relayer : AccountId
  pub messages : DeliveredMessages

pub record InboundLaneData : Type 0 where
  pub relayers : List UnrewardedRelayer
  pub last_confirmed_nonce : MessageNonce

-- `InboundLaneData::default`.
abbrev pub inbound_default : InboundLaneData
inbound_default = record { relayers = []; last_confirmed_nonce = 0 }

abbrev end_or : Option UnrewardedRelayer → MessageNonce → MessageNonce
end_or none n = n
end_or (some e) n = e.messages.end

unfoldable pub last_delivered_nonce : InboundLaneData → MessageNonce
last_delivered_nonce d = end_or (back d.relayers) d.last_confirmed_nonce

abbrev fits_usize : ℕ → ℕ → Option ℕ
fits_usize usize_max n = if leb n usize_max then some n else none

add_usize : ℕ → ℕ → Option ℕ → Option ℕ
add_usize usize_max n none = none
add_usize usize_max n (some m) = fits_usize usize_max (m + n)

mul_usize : ℕ → ℕ → Option ℕ → Option ℕ
mul_usize usize_max n none = none
mul_usize usize_max n (some m) = fits_usize usize_max (n * m)

-- `InboundLaneData::encoded_size_hint`, given `usize::MAX` and the maximal encoded lengths of a
-- relayer id and of a nonce.
unfoldable pub encoded_size_hint : ℕ → ℕ → ℕ → ℕ → Option ℕ
unfolding add_usize mul_usize
encoded_size_hint usize_max relayer_len nonce_len relayers_entries =
    add_usize usize_max nonce_len (
      mul_usize usize_max relayers_entries (add_usize usize_max (2 * nonce_len) (some relayer_len)))

pub record OutboundLaneData : Type 0 where
  pub oldest_unpruned_nonce : MessageNonce
  pub latest_received_nonce : MessageNonce
  pub latest_generated_nonce : MessageNonce

-- `OutboundLaneData::default`.
abbrev pub outbound_default : OutboundLaneData
outbound_default = record {
  oldest_unpruned_nonce = 1;
  latest_received_nonce = 0;
  latest_generated_nonce = 0;
}

pub record UnrewardedRelayersState : Type 0 where
  pub unrewarded_relayer_entries : MessageNonce
  pub messages_in_oldest_entry : MessageNonce
  pub total_messages : MessageNonce
  pub last_delivered_nonce : MessageNonce

range_size : UnrewardedRelayer → UnrewardedRelayer → Option MessageNonce
range_size front last = elim (checked_sub_u64 last.messages.end front.messages.begin) [
  | some difference ↦ checked_add_u64 difference 1
  | none ↦ some 0
]

total_of_ends : Option UnrewardedRelayer → Option UnrewardedRelayer → Option MessageNonce
unfolding range_size
total_of_ends (some front) (some last) = range_size front last
total_of_ends _ _ = some 0

unfoldable pub total_unrewarded_messages : List UnrewardedRelayer → Option MessageNonce
unfolding total_of_ends
total_unrewarded_messages relayers = total_of_ends (head? relayers) (back relayers)

-- `MessageDispatchResult` of primitives/runtime/src/messages.rs.
pub record MessageDispatchResult (W R : Type 0) : Type 0 where
  pub unspent_weight : W
  pub dispatch_level_result : R

pub data ReceivalResult (W R : Type 0) : Type 0 where
  dispatched : MessageDispatchResult W R → ReceivalResult W R
  invalid_nonce : ReceivalResult W R
  too_many_unrewarded_relayers : ReceivalResult W R
  too_many_unconfirmed_messages : ReceivalResult W R

pub record ReceivedMessages (W R : Type 0) : Type 0 where
  pub lane : LaneId
  pub receive_results : List (MessageNonce × ReceivalResult W R)
  pub skipped_for_not_enough_weight : List MessageNonce

module _ {W R : Type 0} where
  -- `ReceivedMessages::new`.
  abbrev pub received_new : LaneId → List (MessageNonce × ReceivalResult W R) → ReceivedMessages W R
  received_new lane results = record {
    lane = lane;
    receive_results = results;
    skipped_for_not_enough_weight = [];
  }

  abbrev pub push : ReceivedMessages W R → MessageNonce → ReceivalResult W R → ReceivedMessages W R
  push s message result = record s { receive_results = s.receive_results ++ (message, result) ∷ [] }

  abbrev pub push_skipped_for_not_enough_weight :
      ReceivedMessages W R → MessageNonce → ReceivedMessages W R
  push_skipped_for_not_enough_weight s message = record s {
    skipped_for_not_enough_weight = s.skipped_for_not_enough_weight ++ message ∷ [];
  }

-- `DispatchMessage` of primitives/messages/src/target_chain.rs.
pub record DispatchMessage (P : Type 0) : Type 0 where
  pub key : MessageKey
  pub message_data : P

-- The proved state of one lane.
pub record ProvedLaneMessages (M : Type 0) : Type 0 where
  pub lane_state : Option OutboundLaneData
  pub messages : List M

-- The trait `MessageDispatch`. `dispatch_weight` may change the message it is given; `World` is the
-- rest of the chain's state, which a dispatch may change.
pub record MessageDispatch (World W P R : Type 0) : Type 0 where
  pub dispatch_weight : DispatchMessage P → P × W
  pub dispatch : World → AccountId → DispatchMessage P → World × MessageDispatchResult W R
