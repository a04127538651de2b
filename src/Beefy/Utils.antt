-- ===== src/Beefy/Utils.antt =====
-- The verification of a commitment and of its MMR leaf (modules/beefy/src/utils.rs).
use parity_bridges_common.Common.{
  ℕ, ◌-◌, ◌/◌, Option, none, some, List, [], ◌∷◌, map, Result, ◌>>◌, ensure, ok_or, length, ◌==◌,
  if◌then◌else◌,
}
use parity_bridges_common.Beefy.{
  AuthorityId, Signature, Bytes, Hash, SignedCommitment, AuthoritySetInfo, ValidatorSet, MmrLeaf,
  MmrProof, Config, Error, invalid_commitment_validator_set_id, invalid_validator_set_id,
  invalid_commitment_signatures_len, invalid_validator_set_len, not_enough_correct_signatures,
  mmr_root_missing_from_commitment, mmr_proof_verification_failed, invalid_validator_set_root,
}

-- `signatures_required`.
abbrev pub signatures_required : ℕ → ℕ
signatures_required validators_len = validators_len - (validators_len - 1) / 3

-- `Iterator::zip`.
abbrev pub zip : List AuthorityId → List (Option Signature) → List (AuthorityId × Option Signature)
zip [] signatures = []
zip (a ∷ authorities) [] = []
zip (a ∷ authorities) (s ∷ signatures) = (a, s) ∷ zip authorities signatures

module _ (c : Config) where
  abbrev pub get_authorities_mmr_root : List AuthorityId → Hash
  get_authorities_mmr_root authorities =
      c.merkle_root (map c.authority_id_to_merkle_leaf authorities)

  unfoldable pub verify_authority_set : AuthoritySetInfo → ValidatorSet → Result Error (Unit {0})
  verify_authority_set authority_set_info authority_set = do
    ensure (authority_set.id == authority_set_info.id) invalid_validator_set_id
    ensure (length authority_set.validators == authority_set_info.len) invalid_validator_set_len
    ensure (get_authorities_mmr_root authority_set.validators == authority_set_info.root)
        invalid_validator_set_root

  -- The loop over the validators and their signatures; what it returns is `missing_signatures`.
  unfoldable pub count_missing : Bytes → ℕ → List (AuthorityId × Option Signature) → ℕ
  count_missing msg missing [] = missing
  count_missing msg missing ((authority, none) ∷ votes) = count_missing msg missing votes
  count_missing msg missing ((authority, some sig) ∷ votes) =
      let skipped = count_missing msg missing votes in
      let counted = count_missing msg (missing - 1) votes in
      if c.verify authority sig msg then (if missing - 1 == 0 then 0 else counted) else skipped

  unfoldable pub verify_signatures : SignedCommitment → ValidatorSet → Result Error (Unit {0})
  verify_signatures commitment authority_set = do
    ensure (length commitment.signatures == length authority_set.validators)
        invalid_commitment_signatures_len
    let msg = c.encode commitment.commitment
    let missing_signatures =
        count_missing msg (signatures_required (length authority_set.validators))
          (zip authority_set.validators commitment.signatures)
    ensure (missing_signatures == 0) not_enough_correct_signatures

  abbrev pub extract_mmr_root : SignedCommitment → Result Error Hash
  extract_mmr_root commitment =
      ok_or (c.get_decoded commitment.commitment.payload) mmr_root_missing_from_commitment

  unfoldable pub verify_commitment :
      SignedCommitment → AuthoritySetInfo → ValidatorSet → Result Error Hash
  verify_commitment commitment authority_set_info authority_set = do
    ensure (commitment.commitment.validator_set_id == authority_set_info.id)
        invalid_commitment_validator_set_id
    ensure (length commitment.signatures == authority_set_info.len)
        invalid_commitment_signatures_len
    verify_authority_set authority_set_info authority_set
    verify_signatures commitment authority_set
    extract_mmr_root commitment

  unfoldable pub verify_beefy_mmr_leaf : MmrLeaf → MmrProof → Hash → Result Error (Unit {0})
  verify_beefy_mmr_leaf mmr_leaf mmr_proof mmr_root =
      ensure
        (c.verify_mmr_leaves_proof mmr_root (c.mmr_hash (c.encode_leaf mmr_leaf) ∷ []) mmr_proof)
        mmr_proof_verification_failed
