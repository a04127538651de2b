-- ===== src/Beefy/RingBuffer.antt =====
-- The commitments that the BEEFY pallet keeps over time (modules/beefy/src/lib.rs).
use parity_bridges_common.Common.{
  ◌≤◌, ◌<◌, ◌≡◌, ◌≢◌, refl, sym, ap, ◌∙◌, subst, inl, inr, Option, none, some, some_is_not_none,
  same_some, arith, u32_mod, pushed, IsRing, pushed-new, pushed-kept, pushed_found, pushed-IsRing,
}
use parity_bridges_common.Runtime.{normal}
use parity_bridges_common.Beefy.{
  BlockNumber, Hash, MmrLeaf, ImportedCommitment, ImportedCommitmentsInfoData, Config, State,
}
use parity_bridges_common.Beefy.Pallet.{import_commitment}

abbrev pub imported : MmrLeaf → Hash → ImportedCommitment
imported mmr_leaf mmr_root = record {
  parent_number_and_hash = mmr_leaf.parent_number_and_hash;
  mmr_root = mmr_root;
}

-- The storage before the genesis.
abbrev pub default_state : State
default_state = record {
  request_count = 0;
  imported_commitments_info = none;
  imported_block_numbers = λ i. none;
  imported_commitments = λ n. none;
  current_authority_set_info = record { id = 0; len = 0; root = 0 };
  owned = record { owner = none; mode = normal };
}

module _ (c : Config) where
  -- The block numbers in the ring buffer are those of the stored commitments, none of them above the
  -- best one.
  pub record IsValid (s : State) : Type 0 where
    pub index :
        (info : ImportedCommitmentsInfoData)
        → s.imported_commitments_info ≡ some info
        → info.next_block_number_index < c.commitments_to_keep
    pub ring : IsRing c.commitments_to_keep s.imported_block_numbers s.imported_commitments
    pub below :
        (n : BlockNumber) (d : ImportedCommitment)
        → s.imported_commitments n ≡ some d
        → (info : ImportedCommitmentsInfoData) × (s.imported_commitments_info ≡ some info)
          × (n ≤ info.best_block_number)

  module _ (s : State) (info : ImportedCommitmentsInfoData) (block_number : BlockNumber)
      (mmr_leaf : MmrLeaf) (mmr_root : Hash) (initialized : s.imported_commitments_info ≡ some info)
      (newer : info.best_block_number < block_number) (v : IsValid s) where
    abbrev after_import : State
    after_import = import_commitment c s info block_number mmr_leaf mmr_root

    not_stored : s.imported_commitments block_number ≡ none
    not_stored = go (s.imported_commitments block_number) refl
      where
        go : (o : Option ImportedCommitment) → s.imported_commitments block_number ≡ o → o ≡ none
        go none e = refl
        go (some d) e =
            let (best, known, le) = v.below block_number d e in
            let same = same_some initialized known in
            absurd (omega (arith, le, newer, ap (λ i. i.best_block_number) same))

    numbers_below :
        (n : BlockNumber) (d : ImportedCommitment)
        → pushed s.imported_block_numbers s.imported_commitments info.next_block_number_index
            block_number
            (imported mmr_leaf mmr_root)
            n
          ≡ some d
        → n ≤ block_number
    numbers_below n d e =
        elim (pushed_found s.imported_block_numbers s.imported_commitments
          info.next_block_number_index block_number (imported mmr_leaf mmr_root) n d e) [
            | inl same ↦ omega (arith, same)
            | inr (found, stays) ↦
                let (best, known, le) = v.below n d found in
                let same = same_some initialized known in
                omega (arith, le, newer, ap (λ i. i.best_block_number) same)
          ]

    pub import_commitment-IsValid : c.commitments_to_keep < u32_mod → IsValid after_import
    unfolding import_commitment
    import_commitment-IsValid small =
        let within = v.index info initialized in
        record {
          index = λ i e.
              subst (λ t. t.next_block_number_index < c.commitments_to_keep) (same_some refl e)
                (ground (arith, within, small));
          ring =
              pushed-IsRing s.imported_block_numbers s.imported_commitments
                info.next_block_number_index block_number (imported mmr_leaf mmr_root)
                c.commitments_to_keep within not_stored v.ring;
          below = λ n d e. (_, refl, numbers_below n d e);
        }

    pub import_commitment-stored :
        after_import.imported_commitments block_number ≡ some (imported mmr_leaf mmr_root)
    unfolding import_commitment
    import_commitment-stored =
        pushed-new s.imported_block_numbers s.imported_commitments info.next_block_number_index
          block_number (imported mmr_leaf mmr_root)
          (λ old at same.
            some_is_not_none (v.ring.held info.next_block_number_index old at).1
              (ap s.imported_commitments same ∙ not_stored))

    pub import_commitment-kept :
        (n : BlockNumber) (d : ImportedCommitment)
        → s.imported_commitments n ≡ some d
        → s.imported_block_numbers info.next_block_number_index ≢ some n
        → after_import.imported_commitments n ≡ some d
    unfolding import_commitment
    import_commitment-kept n d found stays =
        pushed-kept s.imported_block_numbers s.imported_commitments info.next_block_number_index
          block_number (imported mmr_leaf mmr_root) n d
          (λ same. some_is_not_none found (ap s.imported_commitments (sym same) ∙ not_stored)) stays
          found
