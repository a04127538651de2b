-- ===== src/RuntimeCommon.antt =====
-- What the bridge runtimes share (bin/runtime-common/src): the calls of the bridge pallets as the
-- signed extensions see them, and the state that they read.
pub mod CallExt
pub mod Refund
use parity_bridges_common.Common.{ℕ, List}
use parity_bridges_common.Justification.{Hash, BlockNumber, GrandpaJustification}
use parity_bridges_common.Messages.Types.{LaneId, MessageNonce, AccountId, UnrewardedRelayersState}
use parity_bridges_common.Messages.Pallet
use parity_bridges_common.Parachains.{ParaId}
use parity_bridges_common.Parachains
use parity_bridges_common.Relayers

-- The two proofs of messages.rs.
pub record FromBridgedChainMessagesProof : Type 0 where
  pub bridged_header_hash : Hash
  pub storage_proof : List (List ℕ)
  pub lane : LaneId
  pub nonces_start : MessageNonce
  pub nonces_end : MessageNonce

pub record FromBridgedChainMessagesDeliveryProof : Type 0 where
  pub bridged_header_hash : Hash
  pub storage_proof : List (List ℕ)
  pub lane : LaneId

-- The runtime's call, as far as the bridge pallets go: any other one, batches in a batch included, is
-- an `other_call`. `ParaHeads` is the proof of parachain heads and `W` the weight of messages.
pub data RuntimeCall (Header ParaHeads W : Type 0) : Type 0 where
  submit_finality_proof_call : Header → GrandpaJustification Header → RuntimeCall Header ParaHeads W
  submit_parachain_heads_call :
      BlockNumber × Hash → List (ParaId × Hash) → ParaHeads → RuntimeCall Header ParaHeads W
  receive_messages_proof_call :
      AccountId → FromBridgedChainMessagesProof → ℕ → W → RuntimeCall Header ParaHeads W
  receive_messages_delivery_proof_call :
      FromBridgedChainMessagesDeliveryProof
      → UnrewardedRelayersState
      → RuntimeCall Header ParaHeads W
  other_call : RuntimeCall Header ParaHeads W

-- The storage of the pallets; that of the GRANDPA pallet is part of the parachains pallet's.
pub record State (Data World W R Paying : Type 0) : Type 0 where
  pub paras : Parachains.State Data
  pub messages : Pallet.State World W R
  pub relayers : Relayers.State Paying
