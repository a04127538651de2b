-- ===== src/Tests/Refund.antt =====
-- A refund for the delivery of messages.
use parity_bridges_common.Common.{
  ℕ, ◌+◌, ◌≡◌, ◌≢◌, refl, ap, ◌⊎◌, true, some, none, [], ◌∷◌, ok, some_is_not_none,
}
use parity_bridges_common.Messages.Types.{last_delivered_nonce}
use parity_bridges_common.Relayers.{this_chain, register_relayer_reward}
use parity_bridges_common.RuntimeCommon.{State, receive_messages_proof_call}
use parity_bridges_common.RuntimeCommon.CallExt.{
  delivery, call_info_for, check_obsolete_call, call_info, was_partially_successful,
}
use parity_bridges_common.RuntimeCommon.Refund.{
  Transaction, single, Config, PreDispatchData, DispatchInfo, PostDispatchInfo, msgs, pre_dispatch,
  validate, check_calls, parse_call, post_dispatch, account_for,
}
use parity_bridges_common.RuntimeCommon.Refund.Paid.{IsHelpful, post_dispatch-decides}
use parity_bridges_common.RuntimeCommon.Refund.Progress.{Progress, post_dispatch-Progress}
use parity_bridges_common.Tests.Runtime.{entry, chain}
use parity_bridges_common.Tests.Headers.{paras}
use parity_bridges_common.Tests.Headers
use parity_bridges_common.Tests.Relayers as Rewards

-- The refund is the length of the transaction.
abbrev config : Config ℕ ℕ
config = record {
  grandpa = Headers.config;
  relayers = Rewards.config;
  para_id = 3;
  lane_id = 0;
  bridged_chain_id = 2;
  compute_refund = λ info post_info len tip. len + tip;
}

abbrev before : State ℕ ℕ ℕ (Unit {0}) ℕ
before = record { paras = paras; messages = chain; relayers = Rewards.state }

-- Two more messages have been delivered.
abbrev after : State ℕ ℕ ℕ (Unit {0}) ℕ
after = record before {
  messages = record chain {
    inbound_lanes = λ id. record {
      relayers = entry 7 1 2 ∷ entry 8 3 3 ∷ entry 9 4 5 ∷ [];
      last_confirmed_nonce = 0;
    };
  };
}

abbrev transaction : Transaction ℕ ℕ ℕ
transaction = single (
    receive_messages_proof_call 9
      (record {
        bridged_header_hash = 105;
        storage_proof = [];
        lane = 0;
        nonces_start = 4;
        nonces_end = 5;
      })
      2 100)

abbrev parsed : PreDispatchData
parsed = record {
  relayer = 9;
  call_info =
      msgs (delivery (record { lane_id = 0; best_bundled_nonce = 5; best_stored_nonce = 3 }));
}

abbrev info : DispatchInfo
info = record { weight = record { ref_time = 1000; proof_size = 10 }; pays_fee = true }

abbrev post_info : PostDispatchInfo
post_info = record { actual_weight = none; pays_fee = true }

dispatches : pre_dispatch config before 9 transaction ≡ ok (some parsed)
unfolding pre_dispatch validate check_calls check_obsolete_call call_info parse_call call_info_for
    last_delivered_nonce
dispatches = refl

refunds : post_dispatch config after (some (some parsed)) info post_info 40 true ≢ after
unfolding post_dispatch was_partially_successful register_relayer_reward last_delivered_nonce
refunds same = some_is_not_none refl (
    ap
      (λ (s : State ℕ ℕ ℕ (Unit {0}) ℕ).
        s.relayers.rewards 9 (account_for config after parsed.call_info))
      same)

post_dispatch-decides_example :
    (IsHelpful config after parsed.call_info
      × (post_dispatch config after (some (some parsed)) info post_info 40 true ≡ record after {
        relayers =
            register_relayer_reward Rewards.config Rewards.state
              (record {
                lane_id = 0;
                bridged_chain_id = config.bridged_chain_id;
                owner = this_chain;
              })
              9
              (config.compute_refund info
                (record post_info { actual_weight = some info.weight })
                40
                0);
      }))
    ⊎ ((¬ IsHelpful config after parsed.call_info)
        × (post_dispatch config after (some (some parsed)) info post_info 40 true ≡ after))
post_dispatch-decides_example = post_dispatch-decides config after parsed info post_info 40

post_dispatch-Progress_example :
    (true ≡ true)
    × (p : PreDispatchData) × (some parsed ≡ some p)
    × Progress config before after 9 p
post_dispatch-Progress_example =
    post_dispatch-Progress config before after 9 transaction (some parsed) info post_info 40 true
      dispatches refunds
