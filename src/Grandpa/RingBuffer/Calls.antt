-- ===== src/Grandpa/RingBuffer/Calls.antt =====
-- The calls of the GRANDPA pallet against its ring buffer, and the best header over time.
use parity_bridges_common.Common.{
  ◌<◌, ◌≡◌, refl, sym, subst, not, none, some, ok, map_err, ensure, >>=-eq-ok, map_err-eq-ok,
  ok-injective, ensure-eq-ok, some_is_not_none, same_some, arith, u32_mod, add_u32, is_some,
  not-is_some,
}
use parity_bridges_common.Runtime.{Origin, from_origin, from_pallet, ensure_owner_or_root}
use parity_bridges_common.Justification.{GrandpaJustification}
use parity_bridges_common.Grandpa.{
  Config, State, InitializationData, try_new, build, already_initialized,
}
use parity_bridges_common.Grandpa.Pallet.{
  PostDispatchInfo, insert_header, submit_finality_proof, initialize_bridge, initialize,
  finalized_header_state_root,
}
use parity_bridges_common.Grandpa.Submit.{Accepted, submit_finality_proof-Accepted}
use parity_bridges_common.Grandpa.RingBuffer.{
  IsCollisionFree, IsValid, IsNewer, insert_header-IsValid, insert_header-stored,
}

module _ {Header : Type 0} (c : Config Header) where
  insert_header-best :
      (s : State) (header : Header)
      → (insert_header c s header (c.ops.hash header)).best_finalized
        ≡ some (record { number = c.ops.number header; hash = c.ops.hash header })
  unfolding insert_header
  insert_header-best s header = refl

  state_root_of :
      (s : State) (header : Header)
      → s.imported_headers (c.ops.hash header) ≡ some (build c header)
      → finalized_header_state_root s (c.ops.hash header) ≡ some (c.state_root header)
  unfolding finalized_header_state_root
  state_root_of s header found = rw (found, finalized_header_state_root) refl

  -- The ring buffer does not read the other storage items.
  IsValid-rest :
      (s t : State)
      → t.imported_hashes_pointer < c.headers_to_keep
      → t.imported_hashes ≡ s.imported_hashes
      → t.imported_headers ≡ s.imported_headers
      → t.best_finalized ≡ s.best_finalized
      → IsValid c s
      → IsValid c t
  IsValid-rest s t pointer hashes headers best v = record {
    pointer = pointer;
    ring = rw (hashes, headers) v.ring;
    held = rw headers (λ h d e.
        let held = v.held h d e in
        record {
          header = held.header;
          hashed = held.hashed;
          stored = held.stored;
          best = held.best;
          known_best = rw best held.known_best;
          below = held.below;
        });
    best = rw (hashes, best) v.best;
  }

  -- What was accepted before the header is inserted leaves the ring buffer as it is.
  Accepted-IsValid :
      (s counted : State) (header : Header) (justification : GrandpaJustification Header)
      → Accepted c s header justification counted
      → IsValid c s
      → IsValid c counted × IsNewer c counted header
  Accepted-IsValid s counted header justification a v =
      subst (λ t. IsValid c t × IsNewer c t header) (sym a.state)
        (
          IsValid-rest s
              (record s {
                current_authority_set = a.set;
                request_count = add_u32 s.request_count 1;
              })
              v.pointer refl refl refl v,
          λ id e. subst (λ b. b.number < c.ops.number header) (same_some a.initialized e) a.newer,
        )

  -- Where headers with the same hash have the same number and `HeadersToKeep` is a number of 32
  -- bits, a finality proof that is accepted in a state with a valid ring buffer leaves one; the
  -- new header is above the best one before, becomes the best one, and its state root can be
  -- looked up.
  pub submit_finality_proof-IsValid :
      (s after : State) (header : Header) (justification : GrandpaJustification Header)
      (info : PostDispatchInfo)
      → c.headers_to_keep < u32_mod
      → IsCollisionFree c
      → IsValid c s
      → submit_finality_proof c s header justification ≡ ok (after, info)
      → IsValid c after
        × IsNewer c s header
        × (after.best_finalized
            ≡ some (record { number = c.ops.number header; hash = c.ops.hash header }))
        × (finalized_header_state_root after (c.ops.hash header) ≡ some (c.state_root header))
  submit_finality_proof-IsValid s after header justification info small free v e =
      let (counted, a, inserted) =
        submit_finality_proof-Accepted c s after header justification info e in
      let (valid, newer) = Accepted-IsValid s counted header justification a v in
      let valid' = insert_header-IsValid c counted header free newer valid small in
      subst
        (λ t.
          IsValid c t
          × IsNewer c s header
          × (t.best_finalized
              ≡ some (record { number = c.ops.number header; hash = c.ops.hash header }))
          × (finalized_header_state_root t (c.ops.hash header) ≡ some (c.state_root header)))
        (sym inserted)
        (
          valid',
          λ id k. subst (λ b. b.number < c.ops.number header) (same_some a.initialized k) a.newer,
          insert_header-best counted header,
          state_root_of (insert_header c counted header (c.ops.hash header)) header
              (insert_header-stored c counted header free newer valid),
        )

  -- Where headers with the same hash have the same number and `HeadersToKeep` is a number of 32
  -- bits, an initialization of a state with a valid ring buffer leaves one; it needs a pallet
  -- without a best header and makes the given header the best one.
  pub initialize-IsValid :
      (s after : State) (origin : Origin) (init_data : InitializationData Header)
      → c.headers_to_keep < u32_mod
      → IsCollisionFree c
      → IsValid c s
      → initialize c s origin init_data ≡ ok after
      → IsValid c after
        × (s.best_finalized ≡ none)
        × (after.best_finalized
            ≡ some (record {
              number = c.ops.number init_data.header;
              hash = c.ops.hash init_data.header;
            }))
  unfolding initialize initialize_bridge
  initialize-IsValid s after origin init_data small free v e =
      let (u1, allowed, e1) =
        >>=-eq-ok (map_err from_origin (ensure_owner_or_root s.owned origin)) _ e in
      let (u2, once, e2) =
        >>=-eq-ok
          (map_err from_pallet (ensure (not (is_some s.best_finalized)) already_initialized)) _
          e1 in
      let (set, tried, e3) =
        >>=-eq-ok (try_new c init_data.authority_list init_data.set_id) _ (map_err-eq-ok _ _ e2) in
      let empty = not-is_some s.best_finalized (ensure-eq-ok _ _ (map_err-eq-ok _ _ once)) in
      let hash = c.ops.hash init_data.header in
      let begun = record s { initial_hash = hash; imported_hashes_pointer = 0 } in
      let valid = IsValid-rest s begun (omega (arith, v.pointer)) refl refl refl v in
      let inserted = insert_header c begun init_data.header hash in
      let valid' =
        insert_header-IsValid c begun init_data.header free (λ id k. some_is_not_none k empty) valid
          small in
      subst
        (λ t.
          IsValid c t
          × (s.best_finalized ≡ none)
          × (t.best_finalized
              ≡ some (record { number = c.ops.number init_data.header; hash = hash })))
        (ok-injective e3)
        (
          IsValid-rest inserted
              (record inserted {
                current_authority_set = set;
                owned = record inserted.owned { mode = init_data.operating_mode };
              })
              valid'.pointer refl refl refl valid',
          empty,
          insert_header-best begun init_data.header,
        )
