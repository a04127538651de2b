-- ===== src/Beefy.antt =====
-- The BEEFY pallet (modules/beefy/src/lib.rs): its data, configuration, storage and errors. Validator
-- ids, signatures and hashes are numbers; encodings are lists of bytes.
pub mod Utils
pub mod Pallet
pub mod Signatures
pub mod Submit
pub mod RingBuffer
pub mod History
use parity_bridges_common.Common.{ℕ, Bool, Option, List}
use parity_bridges_common.Runtime.{Owned, BasicOperatingMode, OwnedBridgeModuleError}

abbrev pub BlockNumber : Type 0
BlockNumber = ℕ

abbrev pub Hash : Type 0
Hash = ℕ

abbrev pub AuthorityId : Type 0
AuthorityId = ℕ

abbrev pub Signature : Type 0
Signature = ℕ

abbrev pub Bytes : Type 0
Bytes = List ℕ

-- `sp_consensus_beefy::Commitment`; a payload is a list of items with their ids.
pub record Commitment : Type 0 where
  pub payload : List (ℕ × Bytes)
  pub block_number : BlockNumber
  pub validator_set_id : ℕ

-- `sp_consensus_beefy::SignedCommitment`.
pub record SignedCommitment : Type 0 where
  pub commitment : Commitment
  pub signatures : List (Option Signature)

-- `sp_consensus_beefy::mmr::BeefyAuthoritySet`, the `BridgedBeefyAuthoritySetInfo`.
pub record AuthoritySetInfo : Type 0 where
  pub id : ℕ
  pub len : ℕ
  pub root : Hash

-- `sp_consensus_beefy::ValidatorSet`.
pub record ValidatorSet : Type 0 where
  pub validators : List AuthorityId
  pub id : ℕ

-- `sp_consensus_beefy::mmr::MmrLeaf`.
pub record MmrLeaf : Type 0 where
  pub version : ℕ
  pub parent_number_and_hash : BlockNumber × Hash
  pub beefy_next_authority_set : AuthoritySetInfo
  pub leaf_extra : Bytes

-- `sp_mmr_primitives::Proof`.
pub record MmrProof : Type 0 where
  pub leaf_indices : List ℕ
  pub leaf_count : ℕ
  pub items : List Hash

-- `InitializationData` and `ImportedCommitment` of primitives/beefy/src/lib.rs.
pub record InitializationData : Type 0 where
  pub operating_mode : BasicOperatingMode
  pub best_block_number : BlockNumber
  pub authority_set : AuthoritySetInfo

pub record ImportedCommitment : Type 0 where
  pub parent_number_and_hash : BlockNumber × Hash
  pub mmr_root : Hash

pub record ImportedCommitmentsInfoData : Type 0 where
  pub best_block_number : BlockNumber
  pub next_block_number_index : ℕ

pub data Error : Type 0 where
  not_initialized already_initialized invalid_initial_authority_set too_many_requests old_commitment
        invalid_commitment_validator_set_id invalid_validator_set_id
        invalid_commitment_signatures_len invalid_validator_set_len not_enough_correct_signatures
        mmr_root_missing_from_commitment mmr_proof_verification_failed invalid_validator_set_root :
      Error
  bridge_module : OwnedBridgeModuleError → Error

-- The trait `Config`, and what `ChainWithBeefy` and the crates for BEEFY and the MMR compute:
-- `get_decoded` is `Payload::get_decoded` at the id of the MMR root, and `verify_mmr_leaves_proof`
-- says whether the verification succeeds.
pub record Config : Type 0 where
  pub max_requests : ℕ
  pub commitments_to_keep : ℕ
  pub encode : Commitment → Bytes
  pub verify : AuthorityId → Signature → Bytes → Bool
  pub get_decoded : List (ℕ × Bytes) → Option Hash
  pub authority_id_to_merkle_leaf : AuthorityId → Bytes
  pub merkle_root : List Bytes → Hash
  pub encode_leaf : MmrLeaf → Bytes
  pub mmr_hash : Bytes → Hash
  pub verify_mmr_leaves_proof : Hash → List Hash → MmrProof → Bool

pub record State : Type 0 where
  pub request_count : ℕ
  pub imported_commitments_info : Option ImportedCommitmentsInfoData
  pub imported_block_numbers : ℕ → Option BlockNumber
  pub imported_commitments : BlockNumber → Option ImportedCommitment
  pub current_authority_set_info : AuthoritySetInfo
  pub owned : Owned BasicOperatingMode
