-- ===== src/Tests/Relayers.antt =====
-- Runs of the relayers pallet and of the rewards.
use parity_bridges_common.Common.{
  ℕ, ◌*◌, ◌-◌, min, ◌≡◌, refl, ◌⊎◌, none, some, List, [], ◌∷◌, ok, err, is_ok-ok, arith, ◌==◌,
  if◌then◌else◌,
}
use parity_bridges_common.Runtime.{signed, from_pallet}
use parity_bridges_common.Messages.Types.{UnrewardedRelayer}
use parity_bridges_common.Messages.Rewards.{calc_relayers_rewards}
use parity_bridges_common.Messages.Rewards.Fair.{
  IsRun, reward_of, delivered_by, calc_relayers_rewards-delivered,
}
use parity_bridges_common.Relayers.{
  Config, State, RewardsAccountParams, this_chain, no_reward_for_relayer, failed_to_pay_reward,
  claim_rewards, pay_reward,
}
use parity_bridges_common.Relayers.Register.{reward_at, grow}
use parity_bridges_common.Relayers.Claim.{Claimed, claim_rewards-cases}
use parity_bridges_common.Relayers.Delivery.{delivery_account, pay_reward-delivered}
use parity_bridges_common.Tests.Runtime.{entry}

-- Paying takes from the account's 1,000 units.
abbrev pub config : Config ℕ
config = record {
  reward_max = 4294967295;
  pay_reward = λ world who params reward. if reward == 0 then none else some (world - reward);
}

abbrev lane_account : RewardsAccountParams
lane_account = delivery_account config 2 0

abbrev pub state : State ℕ
state = record {
  rewards = λ who params. if who == 7 then some 30 else none;
  events = [];
  world = 1000;
}

abbrev queue : List UnrewardedRelayer
queue = entry 7 1 2 ∷ entry 8 3 3 ∷ entry 7 4 6 ∷ []

queue-IsRun : IsRun queue
queue-IsRun = ground arith

calc_relayers_rewards-delivered_example :
    reward_of 7 (calc_relayers_rewards queue 2 5) ≡ delivered_by 7 queue 2 5
calc_relayers_rewards-delivered_example =
    calc_relayers_rewards-delivered 7 queue 2 5 (omega arith) (omega arith) queue-IsRun

pay_reward-delivered_example :
    reward_at config lane_account (pay_reward config state 2 10 0 queue 9 2 5) 7
    ≡ grow config lane_account
        (reward_at config lane_account state 7)
        (min (min (delivered_by 7 queue 2 5) config.reward_max * 10) config.reward_max)
pay_reward-delivered_example =
    pay_reward-delivered config state 2 10 0 queue 9 2 5 7 (omega arith) (omega arith) queue-IsRun

abbrev other_account : RewardsAccountParams
other_account = record { lane_id = 1; bridged_chain_id = 2; owner = this_chain }

claim_rewards-cases_example :
    ((state.rewards 7 lane_account ≡ none)
      × (claim_rewards config state (signed 7) lane_account
          ≡ err (from_pallet no_reward_for_relayer)))
    ⊎ ((reward : ℕ) × (state.rewards 7 lane_account ≡ some reward)
        × (config.pay_reward 1000 7 lane_account reward ≡ none)
        × (claim_rewards config state (signed 7) lane_account
            ≡ err (from_pallet failed_to_pay_reward)))
    ⊎ ((reward : ℕ) × (after : State ℕ) × (claim_rewards config state (signed 7) lane_account
          ≡ ok after)
        × Claimed config state after 7 lane_account reward)
claim_rewards-cases_example = claim_rewards-cases config state 7 lane_account

claim_run : (after : State ℕ) × (claim_rewards config state (signed 7) lane_account ≡ ok after)
unfolding claim_rewards
claim_run = is_ok-ok (claim_rewards config state (signed 7) lane_account) refl
