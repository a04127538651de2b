-- ===== src/Grandpa.antt =====
-- The GRANDPA pallet (modules/grandpa/src/lib.rs, storage_types.rs): its configuration, storage and
-- errors. Encoded sizes, weights and the digest's items are what the runtime gives.
pub mod CallExt
pub mod Pallet
pub mod Submit
pub mod RingBuffer
pub mod Requests
use parity_bridges_common.Common.{
  ℕ, ◌-◌, ◌*◌, Bool, Option, none, some, List, [], ◌∷◌, Result, ok, err, ◌>>=◌, ◌>>◌, ensure, leb,
  length, min, u64_mod,
}
use parity_bridges_common.Runtime.{Owned, BasicOperatingMode, OwnedBridgeModuleError, DispatchError}
use parity_bridges_common.Justification.{
  Hash, BlockNumber, AuthorityId, SetId, HeaderOps, Precommit, GrandpaJustification, ChainSizes,
}
use parity_bridges_common.Justification.Verify.{VoterSet}

abbrev pub AuthorityList : Type 0
AuthorityList = List (AuthorityId × ℕ)

-- `sp_consensus_grandpa::ScheduledChange`.
pub record ScheduledChange : Type 0 where
  pub next_authorities : AuthorityList
  pub delay : BlockNumber

-- `sp_consensus_grandpa::ConsensusLog`.
pub data ConsensusLog : Type 0 where
  scheduled_change : ScheduledChange → ConsensusLog
  forced_change : BlockNumber → ScheduledChange → ConsensusLog
  other_log : ConsensusLog

pub record Weight : Type 0 where
  pub ref_time : ℕ
  pub proof_size : ℕ

pub record HeaderId : Type 0 where
  pub number : BlockNumber
  pub hash : Hash

-- `StoredHeaderData` of primitives/header-chain/src/lib.rs.
pub record StoredHeaderData : Type 0 where
  pub number : BlockNumber
  pub state_root : Hash

pub record StoredAuthoritySet : Type 0 where
  pub authorities : AuthorityList
  pub set_id : SetId

-- `InitializationData` of primitives/header-chain/src/lib.rs.
pub record InitializationData (Header : Type 0) : Type 0 where
  pub header : Header
  pub authority_list : AuthorityList
  pub set_id : SetId
  pub operating_mode : BasicOperatingMode

pub data Error : Type 0 where
  invalid_justification invalid_authority_set too_many_requests old_header
        unsupported_scheduled_change not_initialized already_initialized
        too_many_authorities_in_set :
      Error
  bridge_module : OwnedBridgeModuleError → Error

-- A call that does not succeed: an error, or a panic of the verification.
pub data CallError : Type 0 where
  dispatch_error : DispatchError Error → CallError
  panicked_call : CallError

-- The trait `Config` and what the code reads of a header: `consensus_logs` is the result of `try_to`
-- with the GRANDPA id for each item of the digest.
pub record Config (Header : Type 0) : Type 0 where
  pub ops : HeaderOps Header
  pub state_root : Header → Hash
  pub consensus_logs : Header → List (Option ConsensusLog)
  pub header_encoded_size : Header → ℕ
  pub justification_encoded_size : GrandpaJustification Header → ℕ
  pub max_requests : ℕ
  pub headers_to_keep : ℕ
  pub max_authorities_count : ℕ
  pub max_header_size : ℕ
  pub authority_max_encoded_len : ℕ
  pub sizes : ChainSizes
  pub submit_finality_proof_weight : ℕ → ℕ → Weight
  pub new_voter_set : AuthorityList → Option VoterSet
  pub check_signature : Precommit → AuthorityId → ℕ → ℕ → SetId → Bool

pub record State : Type 0 where
  pub request_count : ℕ
  pub initial_hash : Hash
  pub best_finalized : Option HeaderId
  pub imported_hashes : ℕ → Option Hash
  pub imported_hashes_pointer : ℕ
  pub imported_headers : Hash → Option StoredHeaderData
  pub current_authority_set : StoredAuthoritySet
  pub owned : Owned BasicOperatingMode

module _ {Header : Type 0} (c : Config Header) where
  -- `StoredAuthoritySet::try_new`.
  unfoldable pub try_new : AuthorityList → SetId → Result Error StoredAuthoritySet
  try_new authorities set_id = do
    ensure (leb (length authorities) c.max_authorities_count) too_many_authorities_in_set
    ok (record { authorities = authorities; set_id = set_id })

  -- `StoredAuthoritySet::unused_proof_size`.
  unfoldable pub unused_proof_size : StoredAuthoritySet → ℕ
  unused_proof_size set =
      min (c.authority_max_encoded_len * (c.max_authorities_count - length set.authorities))
        (u64_mod - 1)

  -- `StoredHeaderDataBuilder::build` of primitives/header-chain/src/lib.rs.
  abbrev pub build : Header → StoredHeaderData
  build header = record { number = c.ops.number header; state_root = c.state_root header }
