-- ===== src/Grandpa/Pallet.antt =====
-- The calls and hooks of the GRANDPA pallet (modules/grandpa/src/lib.rs).
use parity_bridges_common.Common.{
  ℕ, ◌-◌, ◌%◌, Bool, true, false, ◌&&◌, not, Option, none, some, List, [], ◌∷◌, Result, ok, map_err,
  ◌>>=◌, ◌>>◌, ensure, ok_or, ltb, ◌==◌, length, update, add_u32, add_u64, is_some,
}
use parity_bridges_common.Runtime.{
  Owned, Origin, BasicOperatingMode, basic_mode, halted, DispatchError, from_origin, from_pallet,
  ensure_not_halted, ensure_owner_or_root,
}
use parity_bridges_common.Runtime
use parity_bridges_common.Justification.{
  Hash, BlockNumber, SetId, GrandpaJustification, saturate_u32,
}
use parity_bridges_common.Justification.Verify.{Failure, failed, panicked}
use parity_bridges_common.Justification.Verify
use parity_bridges_common.Grandpa.{
  Config, State, Weight, Error, CallError, dispatch_error, panicked_call, ScheduledChange,
  ConsensusLog, scheduled_change, forced_change, other_log, StoredAuthoritySet, InitializationData,
  try_new, unused_proof_size, build, invalid_justification, invalid_authority_set,
  too_many_requests, unsupported_scheduled_change, already_initialized, bridge_module,
}
use parity_bridges_common.Grandpa.CallExt.{
  check_obsolete, fits_limits, submit_finality_proof_info_from_args,
}

-- `frame_support::dispatch::PostDispatchInfo`.
pub record PostDispatchInfo : Type 0 where
  pub actual_weight : Weight
  pub pays_fee : Bool

-- `Digest::convert_first` for the items that pass `try_to`.
convert_first {ℓ} : {A : Type ℓ} → (ConsensusLog → Option A) → List (Option ConsensusLog) → Option A
convert_first filter_log [] = none
convert_first filter_log (none ∷ logs) = convert_first filter_log logs
convert_first filter_log (some log ∷ logs) =
    let rest = convert_first filter_log logs in
    elim (filter_log log) [ some a ↦ some a | none ↦ rest ]

as_scheduled : ConsensusLog → Option ScheduledChange
as_scheduled (scheduled_change change) = some change
as_scheduled (forced_change delay change) = none
as_scheduled other_log = none

as_forced : ConsensusLog → Option (BlockNumber × ScheduledChange)
as_forced (scheduled_change change) = none
as_forced (forced_change delay change) = some (delay, change)
as_forced other_log = none

abbrev pub in_pallet {ℓ} : {A : Type ℓ} → Result Error A → Result CallError A
in_pallet r = map_err (λ e. dispatch_error (from_pallet e)) r

module _ {Header : Type 0} (c : Config Header) where
  unfoldable pub find_scheduled_change : Header → Option ScheduledChange
  unfolding convert_first as_scheduled
  find_scheduled_change header = convert_first as_scheduled (c.consensus_logs header)

  unfoldable pub find_forced_change : Header → Option (BlockNumber × ScheduledChange)
  unfolding convert_first as_forced
  find_forced_change header = convert_first as_forced (c.consensus_logs header)

  -- The new authority set, and whether it is a change.
  unfoldable pub try_enact_authority_change :
      Header → SetId → StoredAuthoritySet → Result Error (StoredAuthoritySet × Bool)
  try_enact_authority_change header current_set_id current = do
    ensure (not (is_some (find_forced_change header))) unsupported_scheduled_change
    elim (find_scheduled_change header) [
      | none ↦ ok (current, false)
      | some change ↦ do
        ensure (change.delay == 0) unsupported_scheduled_change
        next_authorities ← try_new c change.next_authorities (add_u64 current_set_id 1)
        ok (next_authorities, true)
    ]

  unfoldable pub verify_justification :
      GrandpaJustification Header
      → Hash
      → BlockNumber
      → StoredAuthoritySet
      → Result CallError (Unit {0})
  verify_justification justification hash number authority_set = do
    voter_set ← in_pallet (ok_or (c.new_voter_set authority_set.authorities) invalid_authority_set)
    map_err
        (λ e. elim e [
          | failed reason ↦ dispatch_error (from_pallet invalid_justification)
          | panicked ↦ panicked_call
        ])
        (Verify.verify_justification c.ops c.check_signature authority_set.set_id voter_set
          (hash, number) justification)

  -- The ring buffer's oldest header gives way; `HeadersToKeep` is above 0.
  unfoldable pub insert_header : State → Header → Hash → State
  insert_header s header hash =
      let index = s.imported_hashes_pointer in
      let pruning = s.imported_hashes index in
      let headers = update s.imported_headers hash (some (build c header)) in
      record s {
        best_finalized = some (record { number = c.ops.number header; hash = hash });
        imported_headers = elim pruning [ some old ↦ update headers old none | none ↦ headers ];
        imported_hashes = update s.imported_hashes index (some hash);
        imported_hashes_pointer = add_u32 index 1 % c.headers_to_keep;
      }

  unfoldable pub initialize_bridge : State → InitializationData Header → Result Error State
  initialize_bridge s init_params = do
    authority_set ← try_new c init_params.authority_list init_params.set_id
    let initial_hash = c.ops.hash init_params.header
    let begun = record s { initial_hash = initial_hash; imported_hashes_pointer = 0 }
    let inserted = insert_header begun init_params.header initial_hash
    ok (record inserted {
      current_authority_set = authority_set;
      owned = record inserted.owned { mode = init_params.operating_mode };
    })

  unfoldable pub submit_finality_proof :
      State → Header → GrandpaJustification Header → Result CallError (State × PostDispatchInfo)
  submit_finality_proof s finality_target justification = do
    in_pallet (map_err bridge_module (ensure_not_halted s.owned))
    in_pallet (ensure (ltb s.request_count c.max_requests) too_many_requests)
    let hash = c.ops.hash finality_target
    let number = c.ops.number finality_target
    in_pallet (check_obsolete s number)
    let authority_set = s.current_authority_set
    verify_justification justification hash number authority_set
    change ←
        in_pallet (try_enact_authority_change finality_target authority_set.set_id authority_set)
    let (set, is_authorities_change_enacted) = change
    let may_refund_call_fee =
        is_authorities_change_enacted
        && fits_limits (submit_finality_proof_info_from_args c finality_target justification)
    let counted = record s {
      current_authority_set = set;
      request_count = add_u32 s.request_count 1;
    }
    let pre_dispatch_weight =
        c.submit_finality_proof_weight (saturate_u32 (length justification.commit.precommits))
          (saturate_u32 (length justification.votes_ancestries))
    ok (
      insert_header counted finality_target hash,
      record {
        actual_weight = record pre_dispatch_weight {
          proof_size = pre_dispatch_weight.proof_size - unused_proof_size c authority_set;
        };
        pays_fee = not may_refund_call_fee;
      },
    )

  unfoldable pub initialize :
      State → Origin → InitializationData Header → Result (DispatchError Error) State
  initialize s origin init_data = do
    map_err from_origin (ensure_owner_or_root s.owned origin)
    map_err from_pallet (ensure (not (is_some s.best_finalized)) already_initialized)
    map_err from_pallet (initialize_bridge s init_data)

  -- `GenesisBuild::build`; an error is the panic of its `expect`.
  unfoldable pub genesis_build :
      State → Option ℕ → Option (InitializationData Header) → Result Error State
  genesis_build s owner init_data =
      let owned = record s {
        owned = record s.owned { owner = elim owner [ none ↦ s.owned.owner | some o ↦ some o ] };
      } in
      elim init_data [
        | some params ↦ initialize_bridge owned params
        | none ↦ ok (record owned { owned = record owned.owned { mode = halted } })
      ]

-- The hook `on_initialize`.
unfoldable pub on_initialize : State → State
on_initialize s = record s { request_count = s.request_count - 1 }

unfoldable pub set_owner : State → Origin → Option ℕ → Result (DispatchError Error) State
set_owner s origin new_owner = do
  owned ← map_err from_origin (Runtime.set_owner s.owned origin new_owner)
  ok (record s { owned = owned })

unfoldable pub set_operating_mode :
    State → Origin → BasicOperatingMode → Result (DispatchError Error) State
set_operating_mode s origin operating_mode = do
  owned ← map_err from_origin (Runtime.set_operating_mode s.owned origin operating_mode)
  ok (record s { owned = owned })

-- `HeaderChain::finalized_header_state_root`.
unfoldable pub finalized_header_state_root : State → Hash → Option Hash
finalized_header_state_root s header_hash = elim (s.imported_headers header_hash) [
  | none ↦ none
  | some h ↦ some h.state_root
]
