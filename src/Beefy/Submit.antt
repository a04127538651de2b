-- ===== src/Beefy/Submit.antt =====
-- What a submitted commitment has passed (`submit_commitment` of modules/beefy/src/lib.rs).
use parity_bridges_common.Common.{
  ℕ, ◌<◌, ◌≡◌, sym, inl, inr, true, false, some, [], ◌∷◌, length, ok, map_err, ensure, ok_or, ltb,
  ◌==◌, arith, >>=-eq-ok, map_err-eq-ok, ok-injective, ensure-eq-ok, ok_or-eq-ok, err_is_not_ok,
}
use parity_bridges_common.Runtime.{
  Origin, signed, from_origin, from_pallet, ensure_not_halted, ensure_signed, is_halted, basic_mode,
}
use parity_bridges_common.Runtime.Owner.{ensure_not_halted-running, ensure_signed-signed}
use parity_bridges_common.Beefy.{
  Hash, SignedCommitment, AuthoritySetInfo, ValidatorSet, MmrLeaf, MmrProof,
  ImportedCommitmentsInfoData, Config, State, bridge_module, too_many_requests, not_initialized,
  old_commitment,
}
use parity_bridges_common.Beefy.Utils.{
  get_authorities_mmr_root, verify_authority_set, verify_signatures, verify_commitment,
  verify_beefy_mmr_leaf,
}
use parity_bridges_common.Beefy.Signatures.{IsSigned, verify_signatures-decides}
use parity_bridges_common.Beefy.Pallet.{import_commitment, submit_commitment}

module _ (c : Config) where
  -- The validators are the ones of the known set, and enough of them have signed the commitment.
  pub record IsCommitted (commitment : SignedCommitment) (known : AuthoritySetInfo)
      (set : ValidatorSet) (mmr_root : Hash) : Type 0 where
    pub set_of_commitment : commitment.commitment.validator_set_id ≡ known.id
    pub set_id : set.id ≡ known.id
    pub set_len : length set.validators ≡ known.len
    pub set_root : get_authorities_mmr_root c set.validators ≡ known.root
    pub signed_by : IsSigned c commitment set
    pub root : c.get_decoded commitment.commitment.payload ≡ some mmr_root

  verify_authority_set-known :
      (known : AuthoritySetInfo) (set : ValidatorSet)
      → verify_authority_set c known set ≡ ok tt
      → (set.id ≡ known.id)
        × (length set.validators ≡ known.len)
        × (get_authorities_mmr_root c set.validators ≡ known.root)
  unfolding verify_authority_set
  verify_authority_set-known known set e =
      let (u, id, e1) = >>=-eq-ok (ensure (set.id == known.id) _) _ e in
      let (v, len, e2) = >>=-eq-ok (ensure (length set.validators == known.len) _) _ e1 in
      (
        ground (arith, ensure-eq-ok _ _ id),
        ground (arith, ensure-eq-ok _ _ len),
        ground (arith, ensure-eq-ok _ _ e2),
      )

  verify_signatures-IsSigned :
      (commitment : SignedCommitment) (set : ValidatorSet)
      → verify_signatures c commitment set ≡ ok tt
      → IsSigned c commitment set
  verify_signatures-IsSigned commitment set e = elim (verify_signatures-decides c commitment set) [
    | inl (accepted, s) ↦ s
    | inr (reason, refused, short) ↦ err_is_not_ok refused e
  ]

  verify_commitment-IsCommitted :
      (commitment : SignedCommitment) (known : AuthoritySetInfo) (set : ValidatorSet)
      (mmr_root : Hash)
      → verify_commitment c commitment known set ≡ ok mmr_root
      → IsCommitted commitment known set mmr_root
  unfolding verify_commitment
  verify_commitment-IsCommitted commitment known set mmr_root e =
      let (u, id, e1) =
        >>=-eq-ok (ensure (commitment.commitment.validator_set_id == known.id) _) _ e in
      let (v, len, e2) = >>=-eq-ok (ensure (length commitment.signatures == known.len) _) _ e1 in
      let (w, same, e3) = >>=-eq-ok (verify_authority_set c known set) _ e2 in
      let (x, signatures, e4) = >>=-eq-ok (verify_signatures c commitment set) _ e3 in
      let (set_id, set_len, set_root) = verify_authority_set-known known set same in
      record {
        set_of_commitment = ground (arith, ensure-eq-ok _ _ id);
        set_id = set_id;
        set_len = set_len;
        set_root = set_root;
        signed_by = verify_signatures-IsSigned commitment set signatures;
        root = ok_or-eq-ok _ _ e4;
      }

  -- What an accepted commitment has passed.
  pub record Accepted (s : State) (origin : Origin) (commitment : SignedCommitment)
      (set : ValidatorSet) (mmr_leaf : MmrLeaf) (mmr_proof : MmrProof)
      (info : ImportedCommitmentsInfoData) (mmr_root : Hash) : Type 0 where
    pub running : is_halted s.owned.mode ≡ false
    pub who : ℕ
    pub signed_call : origin ≡ signed who
    pub capacity : s.request_count < c.max_requests
    pub initialized : s.imported_commitments_info ≡ some info
    pub newer : info.best_block_number < commitment.commitment.block_number
    pub committed : IsCommitted commitment s.current_authority_set_info set mmr_root
    pub leaf :
        c.verify_mmr_leaves_proof mmr_root (c.mmr_hash (c.encode_leaf mmr_leaf) ∷ []) mmr_proof
        ≡ true

  -- A commitment that the pallet accepts was submitted by a signed account while the pallet was
  -- running, initialized and below the limit of requests; it is for a block above the best one
  -- and for the known authority set, the given validators have this set's id, number and root,
  -- enough of them have signed it, the proof of the leaf verifies against the MMR root of its
  -- payload, and the state after it is the one with this import.
  pub submit_commitment-Accepted :
      (s after : State) (origin : Origin) (commitment : SignedCommitment) (set : ValidatorSet)
      (mmr_leaf : MmrLeaf) (mmr_proof : MmrProof)
      → submit_commitment c s origin commitment set mmr_leaf mmr_proof ≡ ok after
      → (info : ImportedCommitmentsInfoData) × (mmr_root : Hash) × Accepted s origin commitment set
          mmr_leaf mmr_proof info mmr_root
        × (after ≡ import_commitment c s info commitment.commitment.block_number mmr_leaf mmr_root)
  unfolding submit_commitment verify_beefy_mmr_leaf
  submit_commitment-Accepted s after origin commitment set mmr_leaf mmr_proof e =
      let (u1, running, e1) =
        >>=-eq-ok (map_err from_pallet (map_err bridge_module (ensure_not_halted s.owned))) _ e in
      let (who, call, e2) = >>=-eq-ok (map_err from_origin (ensure_signed origin)) _ e1 in
      let (u3, capacity, e3) =
        >>=-eq-ok
          (map_err from_pallet (ensure (ltb s.request_count c.max_requests) too_many_requests)) _
          e2 in
      let (info, initialized, e4) =
        >>=-eq-ok (map_err from_pallet (ok_or s.imported_commitments_info not_initialized)) _ e3 in
      let (u5, newer, e5) =
        >>=-eq-ok
          (map_err from_pallet
            (ensure (ltb info.best_block_number commitment.commitment.block_number) old_commitment))
          _ e4 in
      let (mmr_root, committed, e6) =
        >>=-eq-ok
          (map_err from_pallet (verify_commitment c commitment s.current_authority_set_info set)) _
          e5 in
      let (u7, leaf, e7) =
        >>=-eq-ok (map_err from_pallet (verify_beefy_mmr_leaf c mmr_leaf mmr_proof mmr_root)) _
          e6 in
      (
        info,
        mmr_root,
        record {
          running =
              ensure_not_halted-running s.owned (map_err-eq-ok _ _ (map_err-eq-ok _ _ running));
          who = who;
          signed_call = ensure_signed-signed origin who (map_err-eq-ok _ _ call);
          capacity = ground (arith, ensure-eq-ok _ _ (map_err-eq-ok _ _ capacity));
          initialized = ok_or-eq-ok _ _ (map_err-eq-ok _ _ initialized);
          newer = ground (arith, ensure-eq-ok _ _ (map_err-eq-ok _ _ newer));
          committed =
              verify_commitment-IsCommitted commitment s.current_authority_set_info set mmr_root
                (map_err-eq-ok _ _ committed);
          leaf = ensure-eq-ok _ _ (map_err-eq-ok _ _ leaf);
        },
        sym (ok-injective e7),
      )
