-- ===== src/Parachains/Submit/Order.antt =====
-- The order of a parachain's heads over the calls (`submit_parachain_heads` of
-- modules/parachains/src/lib.rs).
use parity_bridges_common.Common.{
  ◌<◌, ◌≡◌, refl, ap, ◌∙◌, subst, ◌⊎◌, inl, inr, Option, none, some, List, [], ◌∷◌, Result, ok, err,
  map_err, ensure, ok_or, ◌==◌, arith, Bool-cases, Option-cases, update_self, update_ne, >>=-eq-ok,
  ok-injective, is_some, true, sym, ensure-eq-ok, ok_or-eq-ok, length,
}
use parity_bridges_common.Runtime.{ensure_not_halted, basic_mode}
use parity_bridges_common.Justification.{Hash, BlockNumber, saturate_u32}
use parity_bridges_common.Grandpa.{Weight, StoredHeaderData}
use parity_bridges_common.Grandpa.Pallet.{finalized_header_state_root}
use parity_bridges_common.Parachains.{
  ParaId, ParaInfo, Config, UpdateParachainHeadArtifacts, update_parachain_head,
}
use parity_bridges_common.Parachains.Submit.{
  Error, Pallet, bridge_module, unknown_relay_chain_block, invalid_relay_chain_block_number,
  header_chain, storage_proof, store_artifacts, store_head, submit_head, submit_loop,
  finalized_checker, submit_parachain_heads,
}
use parity_bridges_common.Parachains.Update.{Updated, refused, made, update_parachain_head-Updated}

module _ (c : Config) where
  -- The checker after heads have been read, from which `start` is the new one.
  pub data ReadFrom (start : c.Checker) : c.Checker → Type 0 where
    begin : ReadFrom start start
    then_read :
        {storage after : c.Checker}
        → ReadFrom start storage
        → (p : ParaId) → (c.read_parachain_head storage p).0 ≡ after
        → ReadFrom start after

  -- The hash is that of a head which the checker has given for the parachain, a tracked one.
  pub record IsRead (start : c.Checker) (p : ParaId) (hash : Hash) : Type 0 where
    pub storage : c.Checker
    pub follows : ReadFrom start storage
    pub head : c.ParaHead
    pub read : (c.read_parachain_head storage p).1 ≡ ok (some head)
    pub hashed : c.head_hash head ≡ hash
    pub tracked : is_some (c.try_build p head) ≡ true

  -- The best head of the parachain is the same, or it is one read at the relay block, which is above
  -- the block of the previous one.
  abbrev pub Advances : c.Checker → BlockNumber → Pallet c → Pallet c → ParaId → Type 0
  Advances start n s after p =
      (after.paras_info p ≡ s.paras_info p)
      ⊎ ((info : ParaInfo) × (after.paras_info p ≡ some info)
          × (info.best_head_hash.at_relay_block_number ≡ n)
          × IsRead start p info.best_head_hash.head_hash
          × ((old : ParaInfo)
              → s.paras_info p ≡ some old
              → old.best_head_hash.at_relay_block_number < n))

  Advances-trans :
      (start : c.Checker) (n : BlockNumber) (s t u : Pallet c) (p : ParaId)
      → Advances start n s t p
      → Advances start n t u p
      → Advances start n s u p
  Advances-trans start n s t u p (inl a) (inl b) = inl (b ∙ a)
  Advances-trans start n s t u p (inl a) (inr (info, e, at, read, above)) =
      inr (info, e, at, read, λ old h. above old (a ∙ h))
  Advances-trans start n s t u p (inr (info, e, at, read, above)) (inl b) =
      inr (info, b ∙ e, at, read, above)
  Advances-trans start n s t u p (inr (info, e, at, read, above))
        (inr (info', e', at', read', above')) =
      absurd (omega (arith, at, above' info e))

  store_artifacts-Advances :
      (start : c.Checker) (s s' : Pallet c) (p : ParaId) (n : BlockNumber)
      (head_data : c.ParaStoredHeaderData) (hash : Hash) (w : Weight)
      (a : Option UpdateParachainHeadArtifacts) (q : ParaId)
      → IsRead start p hash
      → Updated c s s' p n head_data hash a
      → Advances start n s (store_artifacts c p s' w a).0 q
  unfolding store_artifacts
  store_artifacts-Advances start s s' p n head_data hash w none q read
        (refused why relay info heads hashes) =
      inl (ap (λ m. m q) info)
  store_artifacts-Advances start s s' p n head_data hash w (some a) q read
        (made new fits relay info at hashed others) =
      elim (Bool-cases (p == q)) [
        | inl own ↦
            let same : p ≡ q = ground (arith, own) in
            subst (λ t. Advances start n s (store_artifacts c p s' w (some a)).0 t) same
              (inr (
                a.best_head,
                update_self s'.paras_info p (some a.best_head),
                at,
                subst (IsRead start p) (sym hashed) read,
                λ old k. (new old k).0,
              ))
        | inr other ↦ inl (
            update_ne s'.paras_info p q (some a.best_head) (ground (arith, other))
            ∙ ap (λ m. m q) info)
      ]

  store_head-Advances :
      (start : c.Checker) (n : BlockNumber) (p : ParaId) (hash : Hash)
      (head_data : c.ParaStoredHeaderData) (s : Pallet c) (w : Weight) (q : ParaId)
      → IsRead start p hash
      → Advances start n s (store_head c n p hash head_data (s, w)).0 q
  unfolding store_head
  store_head-Advances start n p hash head_data s w q read =
      let (s', a) = update_parachain_head c s p (s.paras_info p) n head_data hash in
      store_artifacts-Advances start s s' p n head_data hash w a q read
        (update_parachain_head-Updated c s p (s.paras_info p) n head_data hash)

  submit_head-Advances :
      (start storage : c.Checker) (n : BlockNumber) (p : ParaId) (hash : Hash)
      (head : Result c.StorageProofError (Option c.ParaHead)) (s : Pallet c) (w : Weight)
      (q : ParaId)
      → ReadFrom start storage
      → (c.read_parachain_head storage p).1 ≡ head
      → Advances start n s (submit_head c n p hash head (s, w)).0 q
  unfolding submit_head
  submit_head-Advances start storage n p hash (err e) s w q from read = inl refl
  submit_head-Advances start storage n p hash (ok none) s w q from read = inl refl
  submit_head-Advances start storage n p hash (ok (some head)) s w q from read =
      elim (Bool-cases (hash == c.head_hash head)) [
        | inr wrong ↦ rw wrong (inl refl)
        | inl right ↦ elim (Option-cases (c.try_build p head)) [
          | inl untracked ↦ rw (right, untracked) (inl refl)
          | inr (head_data, built) ↦
              rw (right, built)
                (store_head-Advances start n p hash head_data s w q (record {
                  storage = storage;
                  follows = from;
                  head = head;
                  read = read;
                  hashed = ground (arith, right);
                  tracked = ap is_some built;
                }))
        ]
      ]

  submit_loop-Advances :
      (start : c.Checker) (n : BlockNumber) (parachains : List (ParaId × Hash))
      (storage : c.Checker) (s : Pallet c) (w : Weight) (q : ParaId)
      → ReadFrom start storage
      → Advances start n s (submit_loop c n parachains storage (s, w)).1.0 q
  unfolding submit_loop
  submit_loop-Advances start n [] storage s w q from = inl refl
  submit_loop-Advances start n ((p, hash) ∷ parachains) storage s w q from =
      let (storage', head) = c.read_parachain_head storage p in
      let (t, w') = submit_head c n p hash head (s, w) in
      Advances-trans start n s t (submit_loop c n parachains storage' (t, w')).1.0 q
        (submit_head-Advances start storage n p hash head s w q from refl)
        (submit_loop-Advances start n parachains storage' t w' q (then_read from p refl))

  finalized_checker-new :
      (s : Pallet c) (hash : Hash) (proof : c.Proof) (relay_block : StoredHeaderData)
      (storage : c.Checker)
      → s.relay.imported_headers hash ≡ some relay_block
      → map_err {F = Error c.StorageProofError} header_chain (finalized_checker c s hash proof)
        ≡ ok storage
      → c.new_checker relay_block.state_root proof ≡ ok storage
  unfolding finalized_checker finalized_header_state_root
  finalized_checker-new s hash proof relay_block storage imported e = ground (arith, imported, e)

  -- A call of `submit_parachain_heads` that succeeds was made at an imported relay chain header
  -- with the given number and with a proof for the header's state root. For every parachain,
  -- whether the call names it or not, either its best head stays, or its new best head is one of
  -- that relay block, which is above the block of the head before, and has the hash of a head of
  -- this parachain, a tracked one, that was read from the proof.
  pub submit_parachain_heads-Advances :
      (s after : Pallet c) (at_relay_block : BlockNumber × Hash) (parachains : List (ParaId × Hash))
      (proof : c.Proof) (weight : Weight)
      → submit_parachain_heads c s at_relay_block parachains proof ≡ ok (after, weight)
      → ((relay_block : StoredHeaderData) × (s.relay.imported_headers at_relay_block.1
            ≡ some relay_block)
          × (relay_block.number ≡ at_relay_block.0)
          × (start : c.Checker) × (c.new_checker relay_block.state_root proof ≡ ok start)
          × ((p : ParaId) → Advances start at_relay_block.0 s after p))
  unfolding submit_parachain_heads
  submit_parachain_heads-Advances s after (number, hash) parachains proof weight e =
      let (u1, running, e1) =
        >>=-eq-ok (map_err bridge_module (ensure_not_halted ⦃m = basic_mode⦄ s.owned)) _ e in
      let (relay_block, known, e2) =
        >>=-eq-ok (ok_or (s.relay.imported_headers hash) unknown_relay_chain_block) _ e1 in
      let (u2, numbered, e3) =
        >>=-eq-ok (ensure (relay_block.number == number) invalid_relay_chain_block_number) _ e2 in
      let (storage, checker, e4) =
        >>=-eq-ok (map_err header_chain (finalized_checker c s hash proof)) _ e3 in
      let weight_due = c.submit_parachain_heads_weight proof (saturate_u32 (length parachains)) in
      let (storage', result) = submit_loop c number parachains storage (s, weight_due) in
      let (u3, unused, e5) =
        >>=-eq-ok
          (map_err (λ x. header_chain (storage_proof x)) (c.ensure_no_unused_nodes storage')) _
          e4 in
      let imported = ok_or-eq-ok _ _ known in
      (
        relay_block,
        imported,
        ground (arith, ensure-eq-ok _ _ numbered),
        storage,
        finalized_checker-new s hash proof relay_block storage imported checker,
        λ p.
            subst (λ r. Advances storage number s r.0 p) (ok-injective e5)
              (submit_loop-Advances storage number parachains storage s weight_due p begin),
      )
