-- ===== src/Tests/Headers.antt =====
-- Runs of the GRANDPA and the parachains pallet.
use parity_bridges_common.Common.{
  ℕ, ◌+◌, ◌-◌, ◌≤◌, ◌≡◌, refl, none, some, List, [], ◌∷◌, ok, is_ok-ok, arith, if◌then◌else◌, ◌==◌,
  some_is_not_none,
}
use parity_bridges_common.Runtime.{root, normal, ensure_not_halted, ensure_owner_or_root}
use parity_bridges_common.Justification.{Hash}
use parity_bridges_common.Justification.Ancestry.{new, ensure_descendant}
use parity_bridges_common.Justification.Verify.{precommit_step, verify_justification_with_callbacks}
use parity_bridges_common.Justification.Verify
use parity_bridges_common.Grandpa.{
  Config, State, InitializationData, StoredHeaderData, Weight, try_new,
}
use parity_bridges_common.Grandpa.CallExt.{check_obsolete}
use parity_bridges_common.Grandpa.Pallet.{
  PostDispatchInfo, submit_finality_proof, initialize, initialize_bridge, insert_header,
  verify_justification, try_enact_authority_change, find_scheduled_change, find_forced_change,
  finalized_header_state_root,
}
use parity_bridges_common.Grandpa.Submit.{Accepted, submit_finality_proof-Accepted}
use parity_bridges_common.Grandpa.RingBuffer.{IsCollisionFree, IsValid, IsNewer}
use parity_bridges_common.Grandpa.RingBuffer.Calls.{submit_finality_proof-IsValid}
use parity_bridges_common.Grandpa.Requests.{start, import, Run-limit}
use parity_bridges_common.Parachains
use parity_bridges_common.Parachains.{ParaId, is_obsolete, update_parachain_head}
use parity_bridges_common.Parachains.Update.{Updated, update_parachain_head-Updated}
use parity_bridges_common.Parachains.Submit.{submit_parachain_heads}
use parity_bridges_common.Parachains.Submit.Order.{Advances, submit_parachain_heads-Advances}
use parity_bridges_common.Tests.Votes.{ops, voters, check_signature, justification}

-- Two headers are kept; no header changes the authorities.
abbrev pub config : Config ℕ
config = record {
  ops = ops;
  state_root = λ n. n + 1000;
  consensus_logs = λ n. [];
  header_encoded_size = λ n. 10;
  justification_encoded_size = λ j. 100;
  max_requests = 2;
  headers_to_keep = 2;
  max_authorities_count = 4;
  max_header_size = 100;
  authority_max_encoded_len = 40;
  sizes = record {
    block_number_size = 4;
    hash_size = 32;
    authority_id_size = 32;
    reasonable_headers_in_justificaton_ancestry = 8;
    average_header_size_in_justification = 300;
  };
  submit_finality_proof_weight = λ p v. record { ref_time = 1000; proof_size = 500 };
  new_voter_set = λ authorities. some voters;
  check_signature = check_signature;
}

abbrev empty : State
empty = record {
  request_count = 0;
  initial_hash = 0;
  best_finalized = none;
  imported_hashes = λ i. none;
  imported_hashes_pointer = 0;
  imported_headers = λ h. none;
  current_authority_set = record { authorities = []; set_id = 0 };
  owned = record { owner = none; mode = normal };
}

empty-IsValid : IsValid config empty
empty-IsValid = record {
  pointer = omega arith;
  ring = record {
    bounded = λ i h e. some_is_not_none e refl;
    held = λ i h e. some_is_not_none e refl;
    slot = λ h d e. some_is_not_none e refl;
    unique = λ i j h e e'. some_is_not_none e refl;
  };
  held = λ h d e. some_is_not_none e refl;
  best = λ id e. some_is_not_none e refl;
}

no_collisions : IsCollisionFree config
no_collisions x y e = omega (arith, e)

abbrev init_data : InitializationData ℕ
init_data = record {
  header = 4;
  authority_list = (1, 1) ∷ (2, 1) ∷ (3, 1) ∷ [];
  set_id = 0;
  operating_mode = normal;
}

init_run : (s : State) × (initialize config empty root init_data ≡ ok s)
unfolding initialize initialize_bridge try_new ensure_owner_or_root
init_run = is_ok-ok (initialize config empty root init_data) refl

-- The pallet with header 4 as the best one.
abbrev at_four : State
at_four = record empty {
  request_count = 1;
  best_finalized = some (record { number = 4; hash = 104 });
  imported_hashes = λ i. if i == 0 then some 104 else none;
  imported_hashes_pointer = 1;
  imported_headers =
      λ h. if h == 104 then some (record { number = 4; state_root = 1004 }) else none;
}

at_four_slot : (i : ℕ) (h : Hash) → at_four.imported_hashes i ≡ some h → (i ≡ 0) × (h ≡ 104)
at_four_slot i h e = ground (arith, e)

at_four-IsValid : IsValid config at_four
at_four-IsValid = record {
  pointer = omega arith;
  ring = record {
    bounded = λ i h e. omega (arith, (at_four_slot i h e).0);
    held =
        λ i h e. (record { number = 4; state_root = 1004 }, ground (arith, (at_four_slot i h e).1));
    slot = λ h d e. (0, ground (arith, e));
    unique = λ i j h e e'. omega (arith, (at_four_slot i h e).0, (at_four_slot j h e').0);
  };
  held = λ h d e. record {
    header = 4;
    hashed = ground (arith, e);
    stored = ground (arith, e);
    best = record { number = 4; hash = 104 };
    known_best = refl;
    below = omega arith;
  };
  best = λ id e. (0, ground (arith, e));
}

submit_run :
    (r : State × PostDispatchInfo) × (submit_finality_proof config at_four 5 justification ≡ ok r)
unfolding submit_finality_proof ensure_not_halted check_obsolete verify_justification
    Verify.verify_justification verify_justification_with_callbacks precommit_step new
    ensure_descendant try_enact_authority_change find_forced_change find_scheduled_change
submit_run = is_ok-ok (submit_finality_proof config at_four 5 justification) refl

submit_finality_proof-Accepted_example :
    (counted : State) × Accepted config at_four 5 justification counted
    × (submit_run.0.0 ≡ insert_header config counted 5 105)
submit_finality_proof-Accepted_example =
    submit_finality_proof-Accepted config at_four submit_run.0.0 5 justification submit_run.0.1
      submit_run.1

submit_finality_proof-IsValid_example :
    IsValid config submit_run.0.0
    × IsNewer config at_four 5
    × (submit_run.0.0.best_finalized ≡ some (record { number = 5; hash = 105 }))
    × (finalized_header_state_root submit_run.0.0 105 ≡ some 1005)
submit_finality_proof-IsValid_example =
    submit_finality_proof-IsValid config at_four submit_run.0.0 5 justification submit_run.0.1
      (omega arith) no_collisions at_four-IsValid submit_run.1

Run-limit_example :
    (submit_run.0.0.request_count ≤ 2)
    × (1 + 1 ≤ submit_run.0.0.request_count + 0)
    × (1 ≤ 2 - 1 + 0)
Run-limit_example =
    Run-limit config at_four submit_run.0.0 0 1 (omega arith) (omega arith)
      (import 5 justification submit_run.0.1 start submit_run.1)

-- A relay chain's header is read as its state root, a proof lists the heads.
abbrev para_config : Parachains.Config
para_config = record {
  ParaHead = ℕ;
  ParaStoredHeaderData = ℕ;
  Checker = List ℕ;
  Proof = List ℕ;
  StorageProofError = Unit;
  head_hash = λ head. head + 500;
  try_build = λ p head. some head;
  encoded_size = λ d. 32;
  max_para_head_data_size = 64;
  heads_to_keep = 2;
  new_checker = λ root proof. ok proof;
  read_parachain_head = λ checker p. (checker, ok (some p));
  ensure_no_unused_nodes = λ checker. ok tt;
  submit_parachain_heads_weight = λ proof n. record { ref_time = 100; proof_size = 100 };
  parachain_head_storage_write_weight = record { ref_time = 10; proof_size = 10 };
  parachain_head_pruning_weight = record { ref_time = 10; proof_size = 0 };
}

abbrev pub paras : Parachains.State ℕ
paras = record {
  owned = record { owner = none; mode = normal };
  paras_info = λ p. none;
  imported_para_heads = λ p h. none;
  imported_para_hashes = λ p i. none;
  events = [];
  relay = at_four;
}

update_parachain_head-Updated_example :
    Updated para_config paras
      (update_parachain_head para_config paras 3 none 4 3 503).0
      3
      4
      3
      503
      (update_parachain_head para_config paras 3 none 4 3 503).1
update_parachain_head-Updated_example =
    update_parachain_head-Updated para_config paras 3 none 4 3 503

paras_run :
    (r : Parachains.State ℕ × Weight) × (submit_parachain_heads para_config paras
        (4, 104)
        ((3, 503) ∷ (3, 503) ∷ [])
        []
      ≡ ok r)
unfolding submit_parachain_heads ensure_not_halted finalized_header_state_root
paras_run =
    is_ok-ok (submit_parachain_heads para_config paras (4, 104) ((3, 503) ∷ (3, 503) ∷ []) []) refl

submit_parachain_heads-Advances_example :
    ((relay_block : StoredHeaderData) × (at_four.imported_headers 104 ≡ some relay_block)
      × (relay_block.number ≡ 4)
      × (start : List ℕ) × (para_config.new_checker relay_block.state_root [] ≡ ok start)
      × ((p : ParaId) → Advances para_config start 4 paras paras_run.0.0 p))
submit_parachain_heads-Advances_example =
    submit_parachain_heads-Advances para_config paras paras_run.0.0 (4, 104)
      ((3, 503) ∷ (3, 503) ∷ []) [] paras_run.0.1 paras_run.1
