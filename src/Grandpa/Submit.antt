-- ===== src/Grandpa/Submit.antt =====
-- What a submitted finality proof does (`submit_finality_proof` of modules/grandpa/src/lib.rs).
use parity_bridges_common.Common.{
  ◌≤◌, ◌<◌, ◌≡◌, refl, sym, ap, subst, inl, inr, Bool, false, not, none, some, ok, map_err, ensure,
  ok_or, ltb, leb, ◌==◌, arith, >>=-eq-ok, map_err-eq-ok, ok-injective, Option-cases, add_u32,
  add_u64, is_some, not-is_some, length, ensure-eq-ok, ok_or-eq-ok,
}
use parity_bridges_common.Runtime.{ensure_not_halted, is_halted, basic_mode}
use parity_bridges_common.Runtime.Owner.{ensure_not_halted-running}
use parity_bridges_common.Justification.{Hash, BlockNumber, SetId, GrandpaJustification}
use parity_bridges_common.Justification.Verify.{VoterSet}
use parity_bridges_common.Justification.Verify
use parity_bridges_common.Grandpa.{
  Config, State, HeaderId, StoredAuthoritySet, ScheduledChange, AuthorityList,
  unsupported_scheduled_change, try_new, bridge_module, too_many_requests, invalid_authority_set,
}
use parity_bridges_common.Grandpa.CallExt.{check_obsolete}
use parity_bridges_common.Grandpa.Pallet.{
  PostDispatchInfo, find_scheduled_change, find_forced_change, try_enact_authority_change,
  verify_justification, insert_header, submit_finality_proof, in_pallet,
}

pub check_obsolete-newer :
    (s : State) (n : BlockNumber)
    → check_obsolete s n ≡ ok tt
    → (best : HeaderId) × (s.best_finalized ≡ some best) × (best.number < n)
unfolding check_obsolete
check_obsolete-newer s n e =
    let (best, found, checked) = >>=-eq-ok (ok_or s.best_finalized _) _ e in
    (best, ok_or-eq-ok _ _ found, ground (arith, ensure-eq-ok _ _ checked))

module _ {Header : Type 0} (c : Config Header) where
  -- The authority set after a header: the same one, or the scheduled one with the next identifier.
  pub data NextSet (header : Header) (current after : StoredAuthoritySet) : Type 0 where
    unchanged :
        find_scheduled_change c header ≡ none → after ≡ current → NextSet header current after
    changed :
        (change : ScheduledChange)
        → find_scheduled_change c header ≡ some change
        → change.delay ≡ 0
        → after.authorities ≡ change.next_authorities
        → length after.authorities ≤ c.max_authorities_count
        → after.set_id ≡ add_u64 current.set_id 1
        → NextSet header current after

  try_new-eq_ok :
      (authorities : AuthorityList) (set_id : SetId) (set : StoredAuthoritySet)
      → try_new c authorities set_id ≡ ok set
      → (length authorities ≤ c.max_authorities_count)
        × (set.authorities ≡ authorities)
        × (set.set_id ≡ set_id)
  unfolding try_new
  try_new-eq_ok authorities set_id set e =
      let (u, fits, e') =
        >>=-eq-ok (ensure (leb (length authorities) c.max_authorities_count) _) _ e in
      let same = ok-injective e' in
      (
        ground (arith, ensure-eq-ok _ _ fits),
        ap (λ t. t.authorities) (sym same),
        ap (λ t. t.set_id) (sym same),
      )

  try_enact_authority_change-NextSet :
      (header : Header) (current after : StoredAuthoritySet) (enacted : Bool)
      → try_enact_authority_change c header current.set_id current ≡ ok (after, enacted)
      → (find_forced_change c header ≡ none) × NextSet header current after
  unfolding try_enact_authority_change
  try_enact_authority_change-NextSet header current after enacted e =
      let (u, unforced, e') =
        >>=-eq-ok (ensure (not (is_some (find_forced_change c header))) _) _ e in
      (
        not-is_some (find_forced_change c header) (ensure-eq-ok _ _ unforced),
        elim (Option-cases (find_scheduled_change c header)) [
          | inl none_scheduled ↦
              unchanged none_scheduled
                (ap (λ r. r.0) (sym (ok-injective (rw none_scheduled at e'))))
          | inr (change, scheduled) ↦
              let (v, undelayed, e3) =
                >>=-eq-ok (ensure (change.delay == 0) unsupported_scheduled_change) _
                  (rw scheduled at e') in
              let (set, tried, e4) =
                >>=-eq-ok (try_new c change.next_authorities (add_u64 current.set_id 1)) _ e3 in
              let same : set ≡ after = ap (λ r. r.0) (ok-injective e4) in
              let (fits, authorities, id) =
                try_new-eq_ok change.next_authorities (add_u64 current.set_id 1) set tried in
              subst (λ t. NextSet header current t) same
                (changed change scheduled (ground (arith, ensure-eq-ok _ _ undelayed)) authorities
                  (rw authorities fits) id)
        ],
      )

  -- What an accepted proof has passed, and what it changed before the header is inserted.
  pub record Accepted (s : State) (header : Header) (justification : GrandpaJustification Header)
      (counted : State) : Type 0 where
    pub running : is_halted s.owned.mode ≡ false
    pub capacity : s.request_count < c.max_requests
    pub best : HeaderId
    pub initialized : s.best_finalized ≡ some best
    pub newer : best.number < c.ops.number header
    pub voters : VoterSet
    pub voters_of : c.new_voter_set s.current_authority_set.authorities ≡ some voters
    pub justified :
        Verify.verify_justification c.ops c.check_signature s.current_authority_set.set_id voters
          (c.ops.hash header, c.ops.number header)
          justification
        ≡ ok tt
    pub unforced : find_forced_change c header ≡ none
    pub set : StoredAuthoritySet
    pub next : NextSet header s.current_authority_set set
    pub state :
        counted
        ≡ record s { current_authority_set = set; request_count = add_u32 s.request_count 1 }

  verify_justification-voters :
      (justification : GrandpaJustification Header) (hash : Hash) (number : BlockNumber)
      (set : StoredAuthoritySet)
      → verify_justification c justification hash number set ≡ ok tt
      → (voters : VoterSet) × (c.new_voter_set set.authorities ≡ some voters)
        × (Verify.verify_justification c.ops c.check_signature set.set_id voters
              (hash, number)
              justification
            ≡ ok tt)
  unfolding verify_justification
  verify_justification-voters justification hash number set e =
      let (voters, known, e') =
        >>=-eq-ok (in_pallet (ok_or (c.new_voter_set set.authorities) invalid_authority_set)) _ e in
      (voters, ok_or-eq-ok _ _ (map_err-eq-ok _ _ known), map_err-eq-ok _ _ e')

  -- A finality proof that is accepted was submitted while the pallet was running, below the limit
  -- of requests, for a header above the best one, with a justification that the current authority
  -- set verifies and without a forced change of authorities. It counts the request, moves to the
  -- scheduled authority set when there is one, which has no delay, is within the limit and has
  -- the next identifier, and inserts the header.
  pub submit_finality_proof-Accepted :
      (s after : State) (header : Header) (justification : GrandpaJustification Header)
      (info : PostDispatchInfo)
      → submit_finality_proof c s header justification ≡ ok (after, info)
      → (counted : State) × Accepted s header justification counted
        × (after ≡ insert_header c counted header (c.ops.hash header))
  unfolding submit_finality_proof
  submit_finality_proof-Accepted s after header justification info e =
      let (u1, running, e1) =
        >>=-eq-ok (in_pallet (map_err bridge_module (ensure_not_halted ⦃m = basic_mode⦄ s.owned))) _
          e in
      let (u2, capacity, e2) =
        >>=-eq-ok (in_pallet (ensure (ltb s.request_count c.max_requests) too_many_requests)) _
          e1 in
      let (u3, newer, e3) = >>=-eq-ok (in_pallet (check_obsolete s (c.ops.number header))) _ e2 in
      let (u4, justified, e4) =
        >>=-eq-ok
          (verify_justification c justification (c.ops.hash header) (c.ops.number header)
            s.current_authority_set)
          _ e3 in
      let ((set, enacted), change, e5) =
        >>=-eq-ok
          (in_pallet (
            try_enact_authority_change c header s.current_authority_set.set_id
              s.current_authority_set))
          _ e4 in
      let (best, initialized, lt) =
        check_obsolete-newer s (c.ops.number header) (map_err-eq-ok _ _ newer) in
      let (voters, known, verified) =
        verify_justification-voters justification (c.ops.hash header) (c.ops.number header)
          s.current_authority_set justified in
      let (unforced, next) =
        try_enact_authority_change-NextSet header s.current_authority_set set enacted
          (map_err-eq-ok _ _ change) in
      (
        record s { current_authority_set = set; request_count = add_u32 s.request_count 1 },
        record {
          running =
              ensure_not_halted-running s.owned (map_err-eq-ok _ _ (map_err-eq-ok _ _ running));
          capacity = ground (arith, ensure-eq-ok _ _ (map_err-eq-ok _ _ capacity));
          best = best;
          initialized = initialized;
          newer = lt;
          voters = voters;
          voters_of = known;
          justified = verified;
          unforced = unforced;
          set = set;
          next = next;
          state = refl;
        },
        ap (λ r. r.0) (sym (ok-injective e5)),
      )
