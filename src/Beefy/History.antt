-- ===== src/Beefy/History.antt =====
-- The BEEFY pallet from its genesis on (modules/beefy/src/lib.rs).
use parity_bridges_common.Common.{
  ℕ, ◌<◌, ◌≡◌, ◌≢◌, refl, sym, subst, not, Option, none, some, ok, map_err, ensure, >>=-eq-ok,
  map_err-eq-ok, ok-injective, ensure-eq-ok, some_is_not_none, u32_mod, is_some, not-is_some, ◌==◌,
  IsRing,
}
use parity_bridges_common.Runtime.{
  Owned, Origin, BasicOperatingMode, from_origin, from_pallet, ensure_owner_or_root,
}
use parity_bridges_common.Runtime
use parity_bridges_common.Beefy.{
  BlockNumber, Hash, SignedCommitment, ValidatorSet, MmrLeaf, MmrProof, InitializationData,
  ImportedCommitment, ImportedCommitmentsInfoData, Config, State, already_initialized,
  invalid_initial_authority_set,
}
use parity_bridges_common.Beefy.Pallet.{
  initialize_pallet, initialize, genesis_build, set_owner, set_operating_mode, on_initialize,
  submit_commitment,
}
use parity_bridges_common.Beefy.Submit.{submit_commitment-Accepted}
use parity_bridges_common.Beefy.RingBuffer.{
  IsValid, default_state, imported, import_commitment-IsValid, import_commitment-stored,
  import_commitment-kept,
}

module _ (c : Config) (some_kept : 0 < c.commitments_to_keep)
    (small : c.commitments_to_keep < u32_mod) where
  -- The states that the pallet's calls and its hook reach from a genesis.
  pub data Run : State → Type 0 where
    genesis :
        {s : State} (owner : Option ℕ) (init_data : Option InitializationData)
        → genesis_build default_state owner init_data ≡ ok s
        → Run s
    initialized :
        {s after : State} (origin : Origin) (init_data : InitializationData)
        → Run s
        → initialize s origin init_data ≡ ok after
        → Run after
    submitted :
        {s after : State} (origin : Origin) (commitment : SignedCommitment) (set : ValidatorSet)
        (mmr_leaf : MmrLeaf) (mmr_proof : MmrProof)
        → Run s
        → submit_commitment c s origin commitment set mmr_leaf mmr_proof ≡ ok after
        → Run after
    owner_set :
        {s after : State} (origin : Origin) (owner : Option ℕ)
        → Run s
        → set_owner s origin owner ≡ ok after
        → Run after
    mode_set :
        {s after : State} (origin : Origin) (mode : BasicOperatingMode)
        → Run s
        → set_operating_mode s origin mode ≡ ok after
        → Run after
    next_block : {s : State} → Run s → Run (on_initialize s)

  -- The ring buffer does not read the other storage items.
  owned-IsValid :
      (s : State) (owned : Owned BasicOperatingMode) (count : ℕ)
      → IsValid c s
      → IsValid c (record s { owned = owned; request_count = count })
  owned-IsValid s owned count v = record { index = v.index; ring = v.ring; below = v.below }

  initialize_pallet-IsValid :
      (s after : State) (init_data : InitializationData)
      → s.imported_commitments_info ≡ none
      → IsValid c s
      → initialize_pallet s init_data ≡ ok after
      → IsValid c after
  unfolding initialize_pallet
  initialize_pallet-IsValid s after init_data fresh v e =
      let (u, some_set, e1) =
        >>=-eq-ok (ensure (not (init_data.authority_set.len == 0)) invalid_initial_authority_set) _
          e in
      subst (IsValid c) (ok-injective e1) (record {
        index = λ info known.
            subst (λ t. t.next_block_number_index < c.commitments_to_keep) (same_info known)
              some_kept;
        ring = v.ring;
        below =
            λ n d found. let (info, known, le) = v.below n d found in some_is_not_none known fresh;
      })
    where
      same_info :
          {a b : ImportedCommitmentsInfoData}
          → ◌≡◌ {A = Option ImportedCommitmentsInfoData} (some a) (some b)
          → a ≡ b
      same_info h = cc

  default_state-IsValid :
      (owned : Owned BasicOperatingMode) → IsValid c (record default_state { owned = owned })
  default_state-IsValid owned = record {
    index = λ info e. some_is_not_none e refl;
    ring = record {
      bounded = λ i k e. some_is_not_none e refl;
      held = λ i k e. some_is_not_none e refl;
      slot = λ k v e. some_is_not_none e refl;
      unique = λ i j k e e'. some_is_not_none e refl;
    };
    below = λ n d e. some_is_not_none e refl;
  }

  genesis_build-IsValid :
      (s : State) (owner : Option ℕ) (init_data : Option InitializationData)
      → genesis_build default_state owner init_data ≡ ok s
      → IsValid c s
  unfolding genesis_build
  genesis_build-IsValid s owner none e =
      subst (IsValid c) (ok-injective e) (default_state-IsValid _)
  genesis_build-IsValid s owner (some params) e =
      initialize_pallet-IsValid _ s params refl (default_state-IsValid _) e

  initialize-IsValid :
      (s after : State) (origin : Origin) (init_data : InitializationData)
      → IsValid c s
      → initialize s origin init_data ≡ ok after
      → IsValid c after
  unfolding initialize
  initialize-IsValid s after origin init_data v e =
      let (u, allowed, e1) =
        >>=-eq-ok (map_err from_origin (ensure_owner_or_root s.owned origin)) _ e in
      let (w, once, e2) =
        >>=-eq-ok
          (map_err from_pallet
            (ensure (not (is_some s.imported_commitments_info)) already_initialized))
          _ e1 in
      initialize_pallet-IsValid s after init_data
        (not-is_some s.imported_commitments_info (ensure-eq-ok _ _ (map_err-eq-ok _ _ once))) v
        (map_err-eq-ok _ _ e2)

  submit_commitment-IsValid :
      (s after : State) (origin : Origin) (commitment : SignedCommitment) (set : ValidatorSet)
      (mmr_leaf : MmrLeaf) (mmr_proof : MmrProof)
      → IsValid c s
      → submit_commitment c s origin commitment set mmr_leaf mmr_proof ≡ ok after
      → IsValid c after
  submit_commitment-IsValid s after origin commitment set mmr_leaf mmr_proof v e =
      let (info, mmr_root, a, same) =
        submit_commitment-Accepted c s after origin commitment set mmr_leaf mmr_proof e in
      subst (IsValid c) (sym same) (
        import_commitment-IsValid c s info commitment.commitment.block_number mmr_leaf mmr_root
          a.initialized a.newer v small)

  Run-IsValid : (s : State) → Run s → IsValid c s
  unfolding set_owner set_operating_mode on_initialize
  Run-IsValid s (genesis owner init_data e) = genesis_build-IsValid s owner init_data e
  Run-IsValid s (initialized {s = before} origin init_data run e) =
      initialize-IsValid before s origin init_data (Run-IsValid before run) e
  Run-IsValid s (submitted {s = before} origin commitment set mmr_leaf mmr_proof run e) =
      submit_commitment-IsValid before s origin commitment set mmr_leaf mmr_proof
        (Run-IsValid before run) e
  Run-IsValid s (owner_set {s = before} origin owner run e) =
      let (owned, changed, e1) =
        >>=-eq-ok (map_err from_origin (Runtime.set_owner before.owned origin owner)) _ e in
      subst (IsValid c) (ok-injective e1)
        (owned-IsValid before owned before.request_count (Run-IsValid before run))
  Run-IsValid s (mode_set {s = before} origin mode run e) =
      let (owned, changed, e1) =
        >>=-eq-ok (map_err from_origin (Runtime.set_operating_mode before.owned origin mode)) _ e in
      subst (IsValid c) (ok-injective e1)
        (owned-IsValid before owned before.request_count (Run-IsValid before run))
  Run-IsValid s (next_block {s = before} run) =
      owned-IsValid before before.owned _ (Run-IsValid before run)

  -- What a commitment that the pallet accepts changes of the stored ones.
  pub record Imports (s after : State) (block_number : BlockNumber) (mmr_leaf : MmrLeaf)
      : Type 0 where
    pub info : ImportedCommitmentsInfoData
    pub known : s.imported_commitments_info ≡ some info
    pub newer : info.best_block_number < block_number
    pub mmr_root : Hash
    pub stored : after.imported_commitments block_number ≡ some (imported mmr_leaf mmr_root)
    pub kept :
        (n : BlockNumber) (d : ImportedCommitment)
        → s.imported_commitments n ≡ some d
        → s.imported_block_numbers info.next_block_number_index ≢ some n
        → after.imported_commitments n ≡ some d
    pub ring : IsRing c.commitments_to_keep after.imported_block_numbers after.imported_commitments

  -- Where `CommitmentsToKeep` is above 0 and a number of 32 bits, after any calls and blocks from
  -- a genesis, a commitment that is accepted is for a block above the best one and is stored,
  -- every other stored commitment stays unless it is the one in the slot that comes next, and the
  -- slots below `CommitmentsToKeep` hold exactly the numbers of the stored commitments, each of
  -- them once.
  pub submit_commitment-Imports :
      (s after : State) (origin : Origin) (commitment : SignedCommitment) (set : ValidatorSet)
      (mmr_leaf : MmrLeaf) (mmr_proof : MmrProof)
      → Run s
      → submit_commitment c s origin commitment set mmr_leaf mmr_proof ≡ ok after
      → Imports s after commitment.commitment.block_number mmr_leaf
  submit_commitment-Imports s after origin commitment set mmr_leaf mmr_proof run e =
      let (info, mmr_root, a, same) =
        submit_commitment-Accepted c s after origin commitment set mmr_leaf mmr_proof e in
      let v = Run-IsValid s run in
      let n = commitment.commitment.block_number in
      subst (λ t. Imports s t n mmr_leaf) (sym same)
        (record {
          info = info;
          known = a.initialized;
          newer = a.newer;
          mmr_root = mmr_root;
          stored = import_commitment-stored c s info n mmr_leaf mmr_root a.initialized a.newer v;
          kept = import_commitment-kept c s info n mmr_leaf mmr_root a.initialized a.newer v;
          ring =
              (import_commitment-IsValid c s info n mmr_leaf mmr_root a.initialized a.newer v
                small).ring;
        })
