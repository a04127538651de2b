-- ===== src/Parachains/Update.antt =====
-- What one update does (`update_parachain_head` of modules/parachains/src/lib.rs).
use parity_bridges_common.Common.{
  ◌<◌, ◌≤◌, ◌≡◌, ◌≢◌, refl, ◌⊎◌, inl, inr, true, false, Option, none, some, ltb, arith, Bool-cases,
  Option-cases,
}
use parity_bridges_common.Justification.{Hash, BlockNumber}
use parity_bridges_common.Parachains.{
  ParaId, ParaInfo, Config, State, SubmitParachainHeadsInfo, UpdateParachainHeadArtifacts,
  is_obsolete, import_head, update_parachain_head,
}

-- The head that is stored for the parachain is of an earlier relay block and another one.
abbrev pub IsNewHead : {Data : Type 0} → State Data → ParaId → BlockNumber → Hash → Type 0
IsNewHead s p n hash =
    (info : ParaInfo)
    → s.paras_info p ≡ some info
    → (info.best_head_hash.at_relay_block_number < n) × (info.best_head_hash.head_hash ≢ hash)

pub is_obsolete-IsNewHead :
    {Data : Type 0} (s : State Data) (p : ParaId) (n : BlockNumber) (hash : Hash)
    → is_obsolete s (record { at_relay_block_number = n; para_id = p; para_head_hash = hash })
      ≡ false
    → IsNewHead s p n hash
unfolding is_obsolete
is_obsolete-IsNewHead s p n hash e info known = ground (arith, rw (known, is_obsolete) at e)

is_obsolete-not_new :
    {Data : Type 0} (s : State Data) (p : ParaId) (n : BlockNumber) (hash : Hash)
    → is_obsolete s (record { at_relay_block_number = n; para_id = p; para_head_hash = hash })
      ≡ true
    → ¬ IsNewHead s p n hash
unfolding is_obsolete
is_obsolete-not_new s p n hash e new = elim (Option-cases (s.paras_info p)) [
  | inl empty ↦ cc (rw (empty, is_obsolete) at e)
  | inr (info, known) ↦
      let (later, other) = new info known in absurd (ground (arith, rw (known, is_obsolete) at e))
]

module _ (c : Config) where
  -- An update that is refused, of an old head or of one that is too large, only leaves an event. One
  -- that is made is of a newer head within the size, and leaves the other parachains, the best
  -- heads' storage item and the relay chain's headers.
  pub data Updated (s after : State c.ParaStoredHeaderData) (p : ParaId) (n : BlockNumber)
      (head_data : c.ParaStoredHeaderData) (hash : Hash)
      : Option UpdateParachainHeadArtifacts → Type 0 where
    refused :
        (¬ IsNewHead s p n hash) ⊎ (c.max_para_head_data_size < c.encoded_size head_data)
        → after.relay ≡ s.relay
        → after.paras_info ≡ s.paras_info
        → after.imported_para_heads ≡ s.imported_para_heads
        → after.imported_para_hashes ≡ s.imported_para_hashes
        → Updated s after p n head_data hash none
    made :
        {a : UpdateParachainHeadArtifacts}
        → IsNewHead s p n hash
        → c.encoded_size head_data ≤ c.max_para_head_data_size
        → after.relay ≡ s.relay
        → after.paras_info ≡ s.paras_info
        → a.best_head.best_head_hash.at_relay_block_number ≡ n
        → a.best_head.best_head_hash.head_hash ≡ hash
        → ((q : ParaId)
            → p ≢ q
            → (after.imported_para_heads q ≡ s.imported_para_heads q)
              × (after.imported_para_hashes q ≡ s.imported_para_hashes q))
        → Updated s after p n head_data hash (some a)

  -- An update of a parachain's head is refused when the head is not new or is larger than the
  -- limit, and then it changes neither the best heads nor the stored heads and hashes. One that
  -- is made is within the limit, of another head, of a later relay block than the stored best
  -- one, names this block and this hash as the new best head, and leaves the heads and hashes of
  -- the other parachains. Neither changes the relay chain's headers.
  pub update_parachain_head-Updated :
      (s : State c.ParaStoredHeaderData) (p : ParaId) (stored : Option ParaInfo) (n : BlockNumber)
      (head_data : c.ParaStoredHeaderData) (hash : Hash)
      → Updated s
          (update_parachain_head c s p stored n head_data hash).0
          p
          n
          head_data
          hash
          (update_parachain_head c s p stored n head_data hash).1
  unfolding update_parachain_head import_head
  update_parachain_head-Updated s p stored n head_data hash =
      let info : SubmitParachainHeadsInfo = record {
        at_relay_block_number = n;
        para_id = p;
        para_head_hash = hash;
      } in
      elim (Bool-cases (is_obsolete s info)) [
        | inl old ↦ rw old (refused (inl (is_obsolete-not_new s p n hash old)) refl refl refl refl)
        | inr new ↦ elim (Bool-cases (ltb c.max_para_head_data_size (c.encoded_size head_data))) [
          | inl large ↦ rw (new, large) (refused (inr (ground (arith, large))) refl refl refl refl)
          | inr fits ↦
              rw (new, fits)
                (made (is_obsolete-IsNewHead s p n hash new) (ground (arith, fits)) refl refl refl
                  refl (λ q ne. (ground (arith, ne), ground (arith, ne))))
        ]
      ]
