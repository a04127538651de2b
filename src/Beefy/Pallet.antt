-- ===== src/Beefy/Pallet.antt =====
-- The calls and the hook of the BEEFY pallet (modules/beefy/src/lib.rs).
use parity_bridges_common.Common.{
  ℕ, ◌-◌, ◌%◌, not, Option, none, some, Result, ok, map_err, ◌>>=◌, ◌>>◌, ensure, ok_or, ltb, ◌==◌,
  if◌then◌else◌, update, add_u32, is_some,
}
use parity_bridges_common.Runtime.{
  Origin, BasicOperatingMode, basic_mode, halted, DispatchError, from_origin, from_pallet,
  ensure_not_halted, ensure_signed, ensure_owner_or_root,
}
use parity_bridges_common.Runtime
use parity_bridges_common.Beefy.{
  BlockNumber, Hash, SignedCommitment, AuthoritySetInfo, ValidatorSet, MmrLeaf, MmrProof,
  InitializationData, ImportedCommitment, ImportedCommitmentsInfoData, Config, State, Error,
  not_initialized, already_initialized, invalid_initial_authority_set, too_many_requests,
  old_commitment, bridge_module,
}
use parity_bridges_common.Beefy.Utils.{verify_commitment, verify_beefy_mmr_leaf}

-- The function `initialize` behind the call and the genesis.
unfoldable pub initialize_pallet : State → InitializationData → Result Error State
initialize_pallet s init_data = do
  ensure (not (init_data.authority_set.len == 0)) invalid_initial_authority_set
  ok (record s {
    current_authority_set_info = init_data.authority_set;
    owned = record s.owned { mode = init_data.operating_mode };
    imported_commitments_info =
        some
          (record { best_block_number = init_data.best_block_number; next_block_number_index = 0 });
  })

-- The call `initialize`.
unfoldable pub initialize : State → Origin → InitializationData → Result (DispatchError Error) State
initialize s origin init_data = do
  map_err from_origin (ensure_owner_or_root s.owned origin)
  map_err from_pallet (ensure (not (is_some s.imported_commitments_info)) already_initialized)
  map_err from_pallet (initialize_pallet s init_data)

-- `GenesisBuild::build`; an error is the panic of its `expect`.
unfoldable pub genesis_build : State → Option ℕ → Option InitializationData → Result Error State
genesis_build s owner init_data =
    let owned = record s {
      owned = record s.owned { owner = elim owner [ none ↦ s.owned.owner | some o ↦ some o ] };
    } in
    elim init_data [
      | some params ↦ initialize_pallet owned params
      | none ↦ ok (record owned { owned = record owned.owned { mode = halted } })
    ]

unfoldable pub set_owner : State → Origin → Option ℕ → Result (DispatchError Error) State
set_owner s origin new_owner = do
  owned ← map_err from_origin (Runtime.set_owner s.owned origin new_owner)
  ok (record s { owned = owned })

unfoldable pub set_operating_mode :
    State → Origin → BasicOperatingMode → Result (DispatchError Error) State
set_operating_mode s origin operating_mode = do
  owned ← map_err from_origin (Runtime.set_operating_mode s.owned origin operating_mode)
  ok (record s { owned = owned })

-- The hook `on_initialize`.
unfoldable pub on_initialize : State → State
on_initialize s = record s { request_count = s.request_count - 1 }

-- The authority set of the leaf, where it is a later one.
abbrev pub next_authority_set : AuthoritySetInfo → MmrLeaf → AuthoritySetInfo
next_authority_set current mmr_leaf =
    if ltb current.id mmr_leaf.beefy_next_authority_set.id
    then mmr_leaf.beefy_next_authority_set
    else current

module _ (c : Config) where
  -- The last part of `submit_commitment`; `CommitmentsToKeep` is above 0.
  unfoldable pub import_commitment :
      State → ImportedCommitmentsInfoData → BlockNumber → MmrLeaf → Hash → State
  import_commitment s info block_number mmr_leaf mmr_root =
      let index = info.next_block_number_index in
      let to_prune = s.imported_block_numbers index in
      let imported : ImportedCommitment = record {
        parent_number_and_hash = mmr_leaf.parent_number_and_hash;
        mmr_root = mmr_root;
      } in
      let commitments = update s.imported_commitments block_number (some imported) in
      record s {
        request_count = add_u32 s.request_count 1;
        current_authority_set_info = next_authority_set s.current_authority_set_info mmr_leaf;
        imported_commitments = elim to_prune [
          | some old ↦ update commitments old none
          | none ↦ commitments
        ];
        imported_block_numbers = update s.imported_block_numbers index (some block_number);
        imported_commitments_info = some (record {
          best_block_number = block_number;
          next_block_number_index = add_u32 index 1 % c.commitments_to_keep;
        });
      }

  unfoldable pub submit_commitment :
      State
      → Origin
      → SignedCommitment
      → ValidatorSet
      → MmrLeaf
      → MmrProof
      → Result (DispatchError Error) State
  submit_commitment s origin commitment validator_set mmr_leaf mmr_proof = do
    map_err from_pallet (map_err bridge_module (ensure_not_halted s.owned))
    who ← map_err from_origin (ensure_signed origin)
    map_err from_pallet (ensure (ltb s.request_count c.max_requests) too_many_requests)
    let block_number = commitment.commitment.block_number
    info ← map_err from_pallet (ok_or s.imported_commitments_info not_initialized)
    map_err from_pallet (ensure (ltb info.best_block_number block_number) old_commitment)
    mmr_root ←
        map_err from_pallet
          (verify_commitment c commitment s.current_authority_set_info validator_set)
    map_err from_pallet (verify_beefy_mmr_leaf c mmr_leaf mmr_proof mmr_root)
    ok (import_commitment s info block_number mmr_leaf mmr_root)
