-- ===== src/RuntimeCommon/CallExt.antt =====
-- bin/runtime-common/src/messages_call_ext.rs: what the calls of the messages pallet want to achieve.
use parity_bridges_common.Common.{Bool, Option, none, some, leb, ltb, ◌==◌, if◌then◌else◌}
use parity_bridges_common.Common.Options.{◌>>=◌, or}
use parity_bridges_common.Messages.Types.{LaneId, MessageNonce, last_delivered_nonce}
use parity_bridges_common.Messages.Pallet
use parity_bridges_common.Grandpa.CallExt.{TransactionValidity, valid, stale}
use parity_bridges_common.RuntimeCommon.{
  RuntimeCall, submit_finality_proof_call, submit_parachain_heads_call, receive_messages_proof_call,
  receive_messages_delivery_proof_call, other_call,
}

pub record BaseMessagesProofInfo : Type 0 where
  pub lane_id : LaneId
  pub best_bundled_nonce : MessageNonce
  pub best_stored_nonce : MessageNonce

abbrev pub is_obsolete : BaseMessagesProofInfo → Bool
is_obsolete info = leb info.best_bundled_nonce info.best_stored_nonce

-- `CallInfo`, with `ReceiveMessagesProofInfo` and `ReceiveMessagesDeliveryProofInfo` opened.
pub data MessagesCallInfo : Type 0 where
  delivery confirmation : BaseMessagesProofInfo → MessagesCallInfo

abbrev pub base_info : MessagesCallInfo → BaseMessagesProofInfo
base_info (delivery info) = info
base_info (confirmation info) = info

module _ {World W R : Type 0} (s : Pallet.State World W R) where
  -- `CallHelper::was_partially_successful`.
  unfoldable pub was_partially_successful : MessagesCallInfo → Bool
  was_partially_successful (delivery info) =
      ltb info.best_stored_nonce (last_delivered_nonce (s.inbound_lanes info.lane_id))
  was_partially_successful (confirmation info) =
      ltb info.best_stored_nonce (s.outbound_lanes info.lane_id).latest_received_nonce

  module _ {Header ParaHeads V : Type 0} where
    receive_messages_proof_info : RuntimeCall Header ParaHeads V → Option MessagesCallInfo
    receive_messages_proof_info (receive_messages_proof_call relayer proof count weight) = some (
        delivery (record {
          lane_id = proof.lane;
          best_bundled_nonce = proof.nonces_end;
          best_stored_nonce = last_delivered_nonce (s.inbound_lanes proof.lane);
        }))
    receive_messages_proof_info (submit_finality_proof_call target justification) = none
    receive_messages_proof_info (submit_parachain_heads_call at parachains proof) = none
    receive_messages_proof_info (receive_messages_delivery_proof_call proof relayers) = none
    receive_messages_proof_info other_call = none

    receive_messages_delivery_proof_info : RuntimeCall Header ParaHeads V → Option MessagesCallInfo
    receive_messages_delivery_proof_info (receive_messages_delivery_proof_call proof relayers) =
        some (
          confirmation (record {
            lane_id = proof.lane;
            best_bundled_nonce = relayers.last_delivered_nonce;
            best_stored_nonce = (s.outbound_lanes proof.lane).latest_received_nonce;
          }))
    receive_messages_delivery_proof_info (submit_finality_proof_call target justification) = none
    receive_messages_delivery_proof_info (submit_parachain_heads_call at parachains proof) = none
    receive_messages_delivery_proof_info (receive_messages_proof_call relayer proof n weight) = none
    receive_messages_delivery_proof_info other_call = none

    unfoldable pub call_info : RuntimeCall Header ParaHeads V → Option MessagesCallInfo
    unfolding receive_messages_proof_info receive_messages_delivery_proof_info
    call_info c = or (receive_messages_proof_info c) (receive_messages_delivery_proof_info c)

    unfoldable pub call_info_for : LaneId → RuntimeCall Header ParaHeads V → Option MessagesCallInfo
    call_info_for lane_id c = do
      info ← call_info c
      if (base_info info).lane_id == lane_id then some info else none

    unfoldable pub check_obsolete_call : RuntimeCall Header ParaHeads V → TransactionValidity
    check_obsolete_call c = elim (call_info c) [
      | none ↦ valid
      | some info ↦ if is_obsolete (base_info info) then stale else valid
    ]
