-- ===== src/Relayers.antt =====
-- The relayers pallet (modules/relayers/src/lib.rs and payment_adapter.rs) and its primitives
-- (primitives/relayers/src/lib.rs). A reward is a number up to the reward type's maximum.
pub mod Claim
pub mod Register
pub mod Delivery
use parity_bridges_common.Common.{
  ℕ, ◌+◌, ◌*◌, min, Bool, true, false, ◌&&◌, Option, none, some, List, [], ◌∷◌, ◌++◌, Result, ok,
  err, map_err, ok_or, ◌>>=◌, ◌==◌, if◌then◌else◌, not,
}
use parity_bridges_common.Runtime.{Origin, DispatchError, from_origin, from_pallet, ensure_signed}
use parity_bridges_common.Messages.Types.{LaneId, MessageNonce, AccountId, UnrewardedRelayer}
use parity_bridges_common.Messages.Rewards.{RelayersRewards, calc_relayers_rewards}

pub data RewardsAccountOwner : Type 0 where
  this_chain bridged_chain : RewardsAccountOwner

pub record RewardsAccountParams : Type 0 where
  pub lane_id : LaneId
  pub bridged_chain_id : ℕ
  pub owner : RewardsAccountOwner

abbrev owner_eq : RewardsAccountOwner → RewardsAccountOwner → Bool
owner_eq this_chain this_chain = true
owner_eq this_chain bridged_chain = false
owner_eq bridged_chain this_chain = false
owner_eq bridged_chain bridged_chain = true

-- The derived `PartialEq`.
abbrev pub params_eq : RewardsAccountParams → RewardsAccountParams → Bool
params_eq a b =
    a.lane_id == b.lane_id && a.bridged_chain_id == b.bridged_chain_id && owner_eq a.owner b.owner

pub data Error : Type 0 where
  no_reward_for_relayer failed_to_pay_reward : Error

pub data Event : Type 0 where
  reward_paid : AccountId → RewardsAccountParams → ℕ → Event

-- `RelayerRewards`, the events and the rest of the chain's state.
pub record State (World : Type 0) : Type 0 where
  pub rewards : AccountId → RewardsAccountParams → Option ℕ
  pub events : List Event
  pub world : World

-- The trait `Config`: the largest `Reward`, and the payment procedure, which fails with `none`.
pub record Config (World : Type 0) : Type 0 where
  pub reward_max : ℕ
  pub pay_reward : World → AccountId → RewardsAccountParams → ℕ → Option World

-- A write to the double map `RelayerRewards`.
abbrev pub write_reward :
    (AccountId → RewardsAccountParams → Option ℕ)
    → AccountId
    → RewardsAccountParams
    → Option ℕ
    → AccountId
    → RewardsAccountParams
    → Option ℕ
write_reward m relayer params v r p = if relayer == r && params_eq params p then v else m r p

-- `unwrap_or_else(Zero::zero)`.
abbrev pub or_zero : Option ℕ → ℕ
or_zero none = 0
or_zero (some n) = n

module _ {World : Type 0} (c : Config World) where
  abbrev pub saturate : ℕ → ℕ
  saturate n = min n c.reward_max

  unfoldable pub claim_rewards :
      State World → Origin → RewardsAccountParams → Result (DispatchError Error) (State World)
  claim_rewards s origin params = do
    relayer ← map_err from_origin (ensure_signed origin)
    reward ← ok_or (s.rewards relayer params) (from_pallet no_reward_for_relayer)
    world ← ok_or (c.pay_reward s.world relayer params reward) (from_pallet failed_to_pay_reward)
    ok (record {
      rewards = write_reward s.rewards relayer params none;
      events = s.events ++ reward_paid relayer params reward ∷ [];
      world = world;
    })

  unfoldable pub register_relayer_reward :
      State World → RewardsAccountParams → AccountId → ℕ → State World
  register_relayer_reward s params relayer reward = if reward == 0 then s else record s {
    rewards =
        write_reward s.rewards relayer params
          (some (saturate (or_zero (s.rewards relayer params) + reward)));
  }

  module _ (confirmation_relayer : AccountId) (params : RewardsAccountParams)
      (delivery_fee : ℕ) where
    -- What a relayer is to get for a number of messages.
    abbrev pub relayer_reward : MessageNonce → ℕ
    relayer_reward messages = saturate (saturate messages * delivery_fee)

    -- The loop of `register_relayers_rewards`, with its variable `confirmation_relayer_reward`.
    unfoldable pub register_loop : State World → ℕ → RelayersRewards → State World × ℕ
    register_loop s own [] = (s, own)
    register_loop s own ((relayer, messages) ∷ rewards) =
        let reward = relayer_reward messages in
        let is_own = relayer == confirmation_relayer in
        register_loop (if is_own then s else register_relayer_reward s params relayer reward)
          (if is_own then saturate (own + reward) else own) rewards

    unfoldable pub register_relayers_rewards : State World → RelayersRewards → State World
    register_relayers_rewards s rewards =
        let (s', own) = register_loop s 0 rewards in
        register_relayer_reward s' params confirmation_relayer own

  -- `DeliveryConfirmationPaymentsAdapter::pay_reward`.
  unfoldable pub pay_reward :
      State World
      → ℕ
      → ℕ
      → LaneId
      → List UnrewardedRelayer
      → AccountId
      → MessageNonce
      → MessageNonce
      → State World
  pay_reward s bridged_chain_id delivery_reward lane_id messages_relayers confirmation_relayer first
        last =
      register_relayers_rewards confirmation_relayer
        (record { lane_id = lane_id; bridged_chain_id = bridged_chain_id; owner = bridged_chain })
        delivery_reward s (calc_relayers_rewards messages_relayers first last)
