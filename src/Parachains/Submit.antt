-- ===== src/Parachains/Submit.antt =====
-- The calls of the parachains pallet (modules/parachains/src/lib.rs) and the check of a transaction
-- (call_ext.rs).
pub mod Order
use parity_bridges_common.Common.{
  ℕ, ◌+◌, ◌-◌, Bool, true, false, Option, none, some, List, [], ◌∷◌, Result, ok, err, map_err,
  ok_or, ensure, ◌>>=◌, ◌>>◌, ◌==◌, not, if◌then◌else◌, update, length,
}
use parity_bridges_common.Runtime.{
  Owned, BasicOperatingMode, basic_mode, Origin, DispatchError, from_origin, OwnedBridgeModuleError,
  ensure_not_halted,
}
use parity_bridges_common.Runtime
use parity_bridges_common.Justification.{Hash, BlockNumber, saturate_u32}
use parity_bridges_common.Grandpa.{Weight}
use parity_bridges_common.Grandpa.CallExt.{TransactionValidity, valid, stale}
use parity_bridges_common.Grandpa.Pallet.{finalized_header_state_root}
use parity_bridges_common.Parachains.{
  ParaId, ParaInfo, Event, Config, State, SubmitParachainHeadsInfo, UpdateParachainHeadArtifacts,
  deposit_event, missing_parachain_head, incorrect_parachain_head_hash,
  untracked_parachain_rejected, is_obsolete, update_parachain_head,
}

-- `HeaderChainError` of primitives/header-chain/src/lib.rs.
pub data HeaderChainError (E : Type 0) : Type 0 where
  unknown_header : HeaderChainError E
  storage_proof : E → HeaderChainError E

pub data Error (E : Type 0) : Type 0 where
  unknown_relay_chain_block invalid_relay_chain_block_number unknown_para_head storage_root_mismatch
        failed_to_extract_state_root :
      Error E
  header_chain : HeaderChainError E → Error E
  bridge_module : OwnedBridgeModuleError → Error E

-- `Weight::saturating_sub`.
abbrev pub sub_weight : Weight → Weight → Weight
sub_weight a b = record {
  ref_time = a.ref_time - b.ref_time;
  proof_size = a.proof_size - b.proof_size;
}

module _ (c : Config) where
  abbrev pub Pallet : Type 0
  Pallet = State c.ParaStoredHeaderData

  -- The end of `try_mutate`, and the weight that is refunded.
  pub store_artifacts :
      ParaId → Pallet → Weight → Option UpdateParachainHeadArtifacts → Pallet × Weight
  store_artifacts parachain s weight none = (
    s,
    sub_weight (sub_weight weight c.parachain_head_storage_write_weight)
        c.parachain_head_pruning_weight,
  )
  store_artifacts parachain s weight (some a) = (
    record s { paras_info = update s.paras_info parachain (some a.best_head) },
    if a.prune_happened then weight else sub_weight weight c.parachain_head_pruning_weight,
  )

  -- A head that was read from the proof, has the declared hash and is of a tracked parachain.
  pub store_head :
      BlockNumber → ParaId → Hash → c.ParaStoredHeaderData → Pallet × Weight → Pallet × Weight
  unfolding store_artifacts
  store_head relay_number parachain head_hash head_data (s, weight) =
      let (s', artifacts) =
        update_parachain_head c s parachain (s.paras_info parachain) relay_number head_data
          head_hash in
      store_artifacts parachain s' weight artifacts

  -- One parachain of the loop in `submit_parachain_heads`, after its head has been read.
  pub submit_head :
      BlockNumber
      → ParaId
      → Hash
      → Result c.StorageProofError (Option c.ParaHead)
      → Pallet × Weight
      → Pallet × Weight
  unfolding store_head
  submit_head relay_number parachain head_hash (err e) (s, weight) =
      (deposit_event s (missing_parachain_head parachain), weight)
  submit_head relay_number parachain head_hash (ok none) (s, weight) =
      (deposit_event s (missing_parachain_head parachain), weight)
  submit_head relay_number parachain head_hash (ok (some head)) (s, weight) =
      let actual = c.head_hash head in
      if not (head_hash == actual)
      then (deposit_event s (incorrect_parachain_head_hash parachain head_hash actual), weight)
      else elim (c.try_build parachain head) [
        | none ↦ (deposit_event s (untracked_parachain_rejected parachain), weight)
        | some head_data ↦ store_head relay_number parachain head_hash head_data (s, weight)
      ]

  pub submit_loop :
      BlockNumber
      → List (ParaId × Hash)
      → c.Checker
      → Pallet × Weight
      → c.Checker × (Pallet × Weight)
  submit_loop relay_number [] storage sw = (storage, sw)
  submit_loop relay_number ((parachain, head_hash) ∷ parachains) storage sw =
      let (storage', head) = c.read_parachain_head storage parachain in
      submit_loop relay_number parachains storage'
        (submit_head relay_number parachain head_hash head sw)

  -- `parse_finalized_storage_proof` of primitives/header-chain/src/lib.rs, up to `parse`.
  pub finalized_checker :
      Pallet → Hash → c.Proof → Result (HeaderChainError c.StorageProofError) c.Checker
  finalized_checker s header_hash proof = do
    state_root ← ok_or (finalized_header_state_root s.relay header_hash) unknown_header
    map_err storage_proof (c.new_checker state_root proof)

  unfoldable pub submit_parachain_heads :
      Pallet
      → BlockNumber × Hash
      → List (ParaId × Hash)
      → c.Proof
      → Result (Error c.StorageProofError) (Pallet × Weight)
  unfolding submit_loop submit_head finalized_checker
  submit_parachain_heads s (relay_block_number, relay_block_hash) parachains proof = do
    map_err bridge_module (ensure_not_halted s.owned)
    relay_block ← ok_or (s.relay.imported_headers relay_block_hash) unknown_relay_chain_block
    ensure (relay_block.number == relay_block_number) invalid_relay_chain_block_number
    storage ← map_err header_chain (finalized_checker s relay_block_hash proof)
    let weight = c.submit_parachain_heads_weight proof (saturate_u32 (length parachains))
    let (storage', result) = submit_loop relay_block_number parachains storage (s, weight)
    map_err (λ e. header_chain (storage_proof e)) (c.ensure_no_unused_nodes storage')
    ok result

  unfoldable pub set_owner :
      Pallet → Origin → Option ℕ → Result (DispatchError (Error c.StorageProofError)) Pallet
  set_owner s origin new_owner = do
    owned ← map_err from_origin (Runtime.set_owner s.owned origin new_owner)
    ok (record s { owned = owned })

  unfoldable pub set_operating_mode :
      Pallet
      → Origin
      → BasicOperatingMode
      → Result (DispatchError (Error c.StorageProofError)) Pallet
  set_operating_mode s origin operating_mode = do
    owned ← map_err from_origin (Runtime.set_operating_mode s.owned origin operating_mode)
    ok (record s { owned = owned })

  -- `best_parachain_head`.
  unfoldable pub best_parachain_head : Pallet → ParaId → Option c.ParaStoredHeaderData
  best_parachain_head s parachain = elim (s.paras_info parachain) [
    | none ↦ none
    | some info ↦ s.imported_para_heads parachain info.best_head_hash.head_hash
  ]

-- `one_entry_submit_parachain_heads_info`, for the arguments of a call.
unfoldable pub one_entry_submit_parachain_heads_info :
    BlockNumber → List (ParaId × Hash) → Option SubmitParachainHeadsInfo
one_entry_submit_parachain_heads_info relay_number [] = none
one_entry_submit_parachain_heads_info relay_number ((para_id, para_head_hash) ∷ []) = some (record {
  at_relay_block_number = relay_number;
  para_id = para_id;
  para_head_hash = para_head_hash;
})
one_entry_submit_parachain_heads_info relay_number (a ∷ b ∷ parachains) = none

-- `check_obsolete_submit_parachain_heads`.
unfoldable pub check_obsolete_submit_parachain_heads :
    {Data : Type 0} → State Data → BlockNumber → List (ParaId × Hash) → TransactionValidity
check_obsolete_submit_parachain_heads s relay_number parachains =
    elim (one_entry_submit_parachain_heads_info relay_number parachains) [
      | none ↦ valid
      | some info ↦ if is_obsolete s info then stale else valid
    ]
