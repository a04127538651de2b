-- ===== src/Relayers/Delivery.antt =====
-- The payment adapter against the queue of relayers (`pay_reward` of
-- modules/relayers/src/payment_adapter.rs over `calc_relayers_rewards`).
use parity_bridges_common.Common.{ℕ, ◌+◌, ◌*◌, min, ◌≤◌, ◌<◌, ◌≡◌, ◌∙◌, ap, List, u64_mod, false}
use parity_bridges_common.Relayers.{
  State, Config, RewardsAccountParams, bridged_chain, params_eq, relayer_reward, pay_reward,
}
use parity_bridges_common.Relayers.Register.{
  reward_at, grow, register_relayers_rewards-reward_at, register_relayers_rewards-others,
}
use parity_bridges_common.Messages.Types.{LaneId, AccountId, MessageNonce, UnrewardedRelayer}
use parity_bridges_common.Messages.Rewards.{calc_relayers_rewards}
use parity_bridges_common.Messages.Rewards.Fair.{
  IsRun, delivered_by, calc_relayers_rewards-delivered, calc_relayers_rewards-IsSorted,
}

module _ {World : Type 0} (c : Config World) where
  -- The account that the rewards for delivering messages of the lane are paid from.
  abbrev pub delivery_account : ℕ → LaneId → RewardsAccountParams
  delivery_account chain lane = record {
    lane_id = lane;
    bridged_chain_id = chain;
    owner = bridged_chain;
  }

  -- Where the queue's entries are consecutive and not empty and the range of nonces is one of 64
  -- bits, after `pay_reward` every relayer, the confirming one included, has had its reward of
  -- the lane's account grow by the product of the fee and the number of messages of the range
  -- that it delivered, where this number, the product and the sum stop at the largest reward.
  pub pay_reward-delivered :
      (s : State World) (chain fee : ℕ) (lane : LaneId) (relayers : List UnrewardedRelayer)
      (confirmer : AccountId) (first last : MessageNonce) (r : AccountId)
      → first ≤ last + 1
      → last + 1 < u64_mod
      → IsRun relayers
      → reward_at c
          (delivery_account chain lane)
          (pay_reward c s chain fee lane relayers confirmer first last)
          r
        ≡ grow c
            (delivery_account chain lane)
            (reward_at c (delivery_account chain lane) s r)
            (min (min (delivered_by r relayers first last) c.reward_max * fee) c.reward_max)
  unfolding pay_reward
  pay_reward-delivered s chain fee lane relayers confirmer first last r le fits run =
      let params = delivery_account chain lane in
      register_relayers_rewards-reward_at c params confirmer fee s
        (calc_relayers_rewards relayers first last) r
        (calc_relayers_rewards-IsSorted relayers first last)
      ∙ ap (λ n. grow c params (reward_at c params s r) (relayer_reward c confirmer params fee n))
          (calc_relayers_rewards-delivered r relayers first last le fits run)

  -- The payment for one account leaves the rewards of every other account as they are.
  pub pay_reward-others :
      (s : State World) (chain fee : ℕ) (lane : LaneId) (relayers : List UnrewardedRelayer)
      (confirmer : AccountId) (first last : MessageNonce) (r : AccountId) (p : RewardsAccountParams)
      → params_eq (delivery_account chain lane) p ≡ false
      → (pay_reward c s chain fee lane relayers confirmer first last).rewards r p ≡ s.rewards r p
  unfolding pay_reward
  pay_reward-others s chain fee lane relayers confirmer first last r p h =
      register_relayers_rewards-others c (delivery_account chain lane) confirmer fee s
        (calc_relayers_rewards relayers first last) r p h
