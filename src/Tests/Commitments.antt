-- ===== src/Tests/Commitments.antt =====
-- Runs of the BEEFY pallet.
use parity_bridges_common.Common.{
  ℕ, ◌+◌, ◌≡◌, refl, ◌⊎◌, Option, none, some, List, [], ◌∷◌, ok, err, is_ok-ok, length, arith, ◌==◌,
}
use parity_bridges_common.Runtime.{normal, signed, ensure_not_halted}
use parity_bridges_common.Beefy.{
  Bytes, SignedCommitment, AuthoritySetInfo, ValidatorSet, MmrLeaf, MmrProof, InitializationData,
  ImportedCommitmentsInfoData, Hash, Config, State, Error,
}
use parity_bridges_common.Beefy.Utils.{
  verify_authority_set, count_missing, verify_signatures, verify_commitment, verify_beefy_mmr_leaf,
}
use parity_bridges_common.Beefy.Pallet.{
  initialize_pallet, genesis_build, import_commitment, submit_commitment,
}
use parity_bridges_common.Beefy.Signatures.{IsSigned, verify_signatures-decides}
use parity_bridges_common.Beefy.Submit.{Accepted, submit_commitment-Accepted}
use parity_bridges_common.Beefy.RingBuffer.{default_state}
use parity_bridges_common.Beefy.History.{genesis, Imports, submit_commitment-Imports}

abbrev first_id : List (ℕ × Bytes) → Option Hash
first_id [] = none
first_id ((id, bytes) ∷ items) = some id

-- A signature is the sum of the validator and the length of what it signs.
abbrev config : Config
config = record {
  max_requests = 2;
  commitments_to_keep = 2;
  encode = λ c. c.block_number ∷ [];
  verify = λ authority sig msg. sig == authority + length msg;
  get_decoded = first_id;
  authority_id_to_merkle_leaf = λ authority. authority ∷ [];
  merkle_root = λ leaves. length leaves;
  encode_leaf = λ leaf. leaf.version ∷ [];
  mmr_hash = λ bytes. length bytes;
  verify_mmr_leaves_proof = λ root leaves proof. root == 77;
}

abbrev known : AuthoritySetInfo
known = record { id = 1; len = 4; root = 4 }

abbrev set : ValidatorSet
set = record { validators = 10 ∷ 20 ∷ 30 ∷ 40 ∷ []; id = 1 }

-- Three of the four validators have signed.
abbrev commitment : SignedCommitment
commitment = record {
  commitment = record { payload = (77, []) ∷ []; block_number = 5; validator_set_id = 1 };
  signatures = some 11 ∷ none ∷ some 31 ∷ some 41 ∷ [];
}

abbrev mmr_leaf : MmrLeaf
mmr_leaf = record {
  version = 0;
  parent_number_and_hash = (4, 104);
  beefy_next_authority_set = record { id = 2; len = 4; root = 4 };
  leaf_extra = [];
}

abbrev mmr_proof : MmrProof
mmr_proof = record { leaf_indices = 0 ∷ []; leaf_count = 1; items = [] }

abbrev init_data : InitializationData
init_data = record { operating_mode = normal; best_block_number = 2; authority_set = known }

abbrev at_genesis : State
at_genesis = record default_state {
  imported_commitments_info = some (record { best_block_number = 2; next_block_number_index = 0 });
  current_authority_set_info = known;
}

genesis_run : genesis_build default_state none (some init_data) ≡ ok at_genesis
unfolding genesis_build initialize_pallet
genesis_run = refl

verify_signatures-decides_example :
    ((verify_signatures config commitment set ≡ ok tt) × IsSigned config commitment set)
    ⊎ ((e : Error) × (verify_signatures config commitment set ≡ err e)
        × (¬ IsSigned config commitment set))
verify_signatures-decides_example = verify_signatures-decides config commitment set

submit_run :
    (s : State) × (submit_commitment config at_genesis (signed 3) commitment set mmr_leaf mmr_proof
      ≡ ok s)
unfolding submit_commitment ensure_not_halted verify_commitment verify_authority_set
    verify_signatures count_missing verify_beefy_mmr_leaf
submit_run =
    is_ok-ok (submit_commitment config at_genesis (signed 3) commitment set mmr_leaf mmr_proof) refl

submit_commitment-Accepted_example :
    (info : ImportedCommitmentsInfoData) × (mmr_root : Hash) × Accepted config at_genesis
      (signed 3)
      commitment
      set
      mmr_leaf
      mmr_proof
      info
      mmr_root
    × (submit_run.0 ≡ import_commitment config at_genesis info 5 mmr_leaf mmr_root)
submit_commitment-Accepted_example =
    submit_commitment-Accepted config at_genesis submit_run.0 (signed 3) commitment set mmr_leaf
      mmr_proof submit_run.1

submit_commitment-Imports_example :
    Imports config (omega arith) (omega arith) at_genesis submit_run.0 5 mmr_leaf
submit_commitment-Imports_example =
    submit_commitment-Imports config (omega arith) (omega arith) at_genesis submit_run.0 (signed 3)
      commitment set mmr_leaf mmr_proof (genesis none (some init_data) genesis_run) submit_run.1
