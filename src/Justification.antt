-- ===== src/Justification.antt =====
-- GRANDPA justifications (primitives/header-chain/src/justification.rs): the data, the errors and
-- the sizes. `finality_grandpa` and the hashing of headers are not of this repository: a header is
-- read through `HeaderOps`.
pub mod Ancestry
pub mod Verify
pub mod Size
use parity_bridges_common.Common.{ℕ, ◌+◌, ◌-◌, ◌*◌, ◌/◌, List, min, u32_mod}

abbrev pub Hash : Type 0
Hash = ℕ

abbrev pub BlockNumber : Type 0
BlockNumber = ℕ

abbrev pub AuthorityId : Type 0
AuthorityId = ℕ

abbrev pub SetId : Type 0
SetId = ℕ

-- What the code reads of a header.
pub record HeaderOps (Header : Type 0) : Type 0 where
  pub hash : Header → Hash
  pub parent_hash : Header → Hash
  pub number : Header → BlockNumber

pub record Precommit : Type 0 where
  pub target_hash : Hash
  pub target_number : BlockNumber

-- The signature is the number that its bytes encode.
pub record SignedPrecommit : Type 0 where
  pub precommit : Precommit
  pub signature : ℕ
  pub id : AuthorityId

pub record Commit : Type 0 where
  pub target_hash : Hash
  pub target_number : BlockNumber
  pub precommits : List SignedPrecommit

pub record GrandpaJustification (Header : Type 0) : Type 0 where
  pub round : ℕ
  pub commit : Commit
  pub votes_ancestries : List Header

pub data Error : Type 0 where
  justification_decode invalid_justification_target redundant_votes_in_justification
        unknown_authority_vote duplicate_authority_vote invalid_authority_signature
        precommit_is_not_commit_descendant too_low_cumulative_weight
        extra_headers_in_votes_ancestries :
      Error

unfoldable pub required_justification_precommits : ℕ → ℕ
required_justification_precommits authorities_set_length =
    authorities_set_length - (authorities_set_length - 1) / 3

-- `saturating_add`, `saturating_mul` and `saturated_into` on `u32`.
abbrev pub saturate_u32 : ℕ → ℕ
saturate_u32 n = min n (u32_mod - 1)

-- The constants of the bridged chain that a size depends on.
pub record ChainSizes : Type 0 where
  pub block_number_size : ℕ
  pub hash_size : ℕ
  pub authority_id_size : ℕ
  pub reasonable_headers_in_justificaton_ancestry : ℕ
  pub average_header_size_in_justification : ℕ

module _ (c : ChainSizes) where
  unfoldable pub max_reasonable_size : ℕ → ℕ
  max_reasonable_size required_precommits =
      let signed_precommit_size =
        saturate_u32 (
          c.block_number_size + saturate_u32 c.hash_size + 64 + saturate_u32 c.authority_id_size) in
      let max_expected_signed_commit_size = saturate_u32 (
        saturate_u32 (
          saturate_u32 (signed_precommit_size * required_precommits)
          + saturate_u32 c.block_number_size)
        + saturate_u32 c.hash_size) in
      let max_expected_votes_ancestries_size =
        saturate_u32 (
          c.reasonable_headers_in_justificaton_ancestry * c.average_header_size_in_justification) in
      saturate_u32
        (saturate_u32 (8 + max_expected_signed_commit_size) + max_expected_votes_ancestries_size)
