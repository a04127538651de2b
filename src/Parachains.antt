-- ===== src/Parachains.antt =====
-- The parachains pallet (modules/parachains/src/lib.rs, call_ext.rs): configuration, storage and the
-- update of one parachain's head. The checker of storage proofs and the data of heads are parameters.
pub mod Submit
pub mod Update
use parity_bridges_common.Common.{
  ℕ, ◌+◌, ◌%◌, Bool, true, false, ◌&&◌, Option, none, some, List, [], ◌∷◌, ◌++◌, Result, ok, err,
  leb, ltb, ◌==◌, if◌then◌else◌, update, add_u32, is_some,
}
use parity_bridges_common.Runtime.{Owned, BasicOperatingMode, OwnedBridgeModuleError}
use parity_bridges_common.Justification.{Hash, BlockNumber}
use parity_bridges_common.Grandpa.{Weight}
use parity_bridges_common.Grandpa

abbrev pub ParaId : Type 0
ParaId = ℕ

-- `BestParaHeadHash` and `ParaInfo` of primitives/parachains/src/lib.rs.
pub record BestParaHeadHash : Type 0 where
  pub at_relay_block_number : BlockNumber
  pub head_hash : Hash

pub record ParaInfo : Type 0 where
  pub best_head_hash : BestParaHeadHash
  pub next_imported_hash_position : ℕ

pub data Event : Type 0 where
  untracked_parachain_rejected missing_parachain_head : ParaId → Event
  incorrect_parachain_head_hash : ParaId → Hash → Hash → Event
  rejected_obsolete_parachain_head : ParaId → Hash → Event
  rejected_large_parachain_head : ParaId → Hash → ℕ → Event
  updated_parachain_head : ParaId → Hash → Event

-- The trait `Config`, the storage proofs' checker and the weights.
pub record Config : Type 1 where
  pub ParaHead : Type 0
  pub ParaStoredHeaderData : Type 0
  pub Checker : Type 0
  pub Proof : Type 0
  pub StorageProofError : Type 0
  pub head_hash : ParaHead → Hash
  pub try_build : ParaId → ParaHead → Option ParaStoredHeaderData
  pub encoded_size : ParaStoredHeaderData → ℕ
  pub max_para_head_data_size : ℕ
  pub heads_to_keep : ℕ
  pub new_checker : Hash → Proof → Result StorageProofError Checker
  pub read_parachain_head : Checker → ParaId → Checker × Result StorageProofError (Option ParaHead)
  pub ensure_no_unused_nodes : Checker → Result StorageProofError (Unit {0})
  pub submit_parachain_heads_weight : Proof → ℕ → Weight
  pub parachain_head_storage_write_weight : Weight
  pub parachain_head_pruning_weight : Weight

-- The storage of the pallet, and that of the GRANDPA pallet, which it reads.
pub record State (Data : Type 0) : Type 0 where
  pub owned : Owned BasicOperatingMode
  pub paras_info : ParaId → Option ParaInfo
  pub imported_para_heads : ParaId → Hash → Option Data
  pub imported_para_hashes : ParaId → ℕ → Option Hash
  pub events : List Event
  pub relay : Grandpa.State

abbrev pub deposit_event : {Data : Type 0} → State Data → Event → State Data
deposit_event s e = record s { events = s.events ++ e ∷ [] }

-- `SubmitParachainHeadsInfo` of call_ext.rs.
pub record SubmitParachainHeadsInfo : Type 0 where
  pub at_relay_block_number : BlockNumber
  pub para_id : ParaId
  pub para_head_hash : Hash

module _ {Data : Type 0} where
  -- `SubmitParachainHeadsHelper::is_obsolete`.
  unfoldable pub is_obsolete : State Data → SubmitParachainHeadsInfo → Bool
  is_obsolete s u = elim (s.paras_info u.para_id) [
    | none ↦ false
    | some stored ↦
        if leb u.at_relay_block_number stored.best_head_hash.at_relay_block_number
        then true
        else if stored.best_head_hash.head_hash == u.para_head_hash
        then true
        else false
  ]

  -- `SubmitParachainHeadsHelper::was_successful`.
  unfoldable pub was_successful : State Data → SubmitParachainHeadsInfo → Bool
  was_successful s u = elim (s.paras_info u.para_id) [
    | none ↦ false
    | some stored ↦
        stored.best_head_hash.at_relay_block_number == u.at_relay_block_number
        && stored.best_head_hash.head_hash == u.para_head_hash
  ]

-- `UpdateParachainHeadArtifacts`.
pub record UpdateParachainHeadArtifacts : Type 0 where
  pub best_head : ParaInfo
  pub prune_happened : Bool

abbrev pub next_position : Option ParaInfo → ℕ
next_position none = 0
next_position (some info) = info.next_imported_hash_position

module _ (c : Config) where
  -- What follows the checks of `update_parachain_head`: the ring buffer takes the new head.
  pub import_head :
      State c.ParaStoredHeaderData
      → ParaId
      → Option ParaInfo
      → BlockNumber
      → c.ParaStoredHeaderData
      → Hash
      → State c.ParaStoredHeaderData × UpdateParachainHeadArtifacts
  import_head s parachain stored_best_head relay_number head_data head_hash =
      let position = next_position stored_best_head in
      let to_prune = s.imported_para_hashes parachain position in
      let heads = update (s.imported_para_heads parachain) head_hash (some head_data) in
      let imported = record s {
        imported_para_hashes =
            update s.imported_para_hashes parachain
              (update (s.imported_para_hashes parachain) position (some head_hash));
        imported_para_heads =
            update s.imported_para_heads parachain
              (elim to_prune [ none ↦ heads | some old ↦ update heads old none ]);
      } in
      (
        deposit_event imported (updated_parachain_head parachain head_hash),
        record {
          best_head = record {
            best_head_hash = record { at_relay_block_number = relay_number; head_hash = head_hash };
            next_imported_hash_position = add_u32 position 1 % c.heads_to_keep;
          };
          prune_happened = is_some to_prune;
        },
      )

  -- `update_parachain_head`, where `none` stands for `Err(())`; the events stay.
  unfoldable pub update_parachain_head :
      State c.ParaStoredHeaderData
      → ParaId
      → Option ParaInfo
      → BlockNumber
      → c.ParaStoredHeaderData
      → Hash
      → State c.ParaStoredHeaderData × Option UpdateParachainHeadArtifacts
  unfolding import_head
  update_parachain_head s parachain stored_best_head relay_number head_data head_hash =
      let info : SubmitParachainHeadsInfo = record {
        at_relay_block_number = relay_number;
        para_id = parachain;
        para_head_hash = head_hash;
      } in
      if is_obsolete s info
      then (deposit_event s (rejected_obsolete_parachain_head parachain head_hash), none)
      else if ltb c.max_para_head_data_size (c.encoded_size head_data)
      then (
        deposit_event s
            (rejected_large_parachain_head parachain head_hash (c.encoded_size head_data)),
        none,
      )
      else let (imported, artifacts) =
          import_head s parachain stored_best_head relay_number head_data head_hash in
        (imported, some artifacts)
