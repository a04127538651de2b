-- ===== src/Relayers/Register.antt =====
-- Registering rewards (`register_relayers_rewards` of modules/relayers/src/payment_adapter.rs).
use parity_bridges_common.Common.{
  ℕ, ◌+◌, ◌≤◌, ◌≡◌, refl, ◌∙◌, false, [], ◌∷◌, arith, ◌==◌, if◌then◌else◌, if_elim,
}
use parity_bridges_common.Relayers.{
  State, Config, RewardsAccountParams, params_eq, or_zero, saturate, register_relayer_reward,
  relayer_reward, register_loop, register_relayers_rewards,
}
use parity_bridges_common.Relayers.Claim.{params_eq_self}
use parity_bridges_common.Messages.Types.{AccountId, MessageNonce}
use parity_bridges_common.Messages.Rewards.{RelayersRewards}
use parity_bridges_common.Messages.Rewards.Fair.{
  reward_of, IsSorted, Above, Above-IsSorted, reward_of-Above,
}

module _ {World : Type 0} (c : Config World) (params : RewardsAccountParams) where
  -- The registered reward of a relayer.
  abbrev pub reward_at : State World → AccountId → ℕ
  reward_at s r = or_zero (s.rewards r params)

  -- A reward that grows, up to the largest number of its type.
  abbrev pub grow : ℕ → ℕ → ℕ
  grow old n = if n == 0 then old else saturate c (old + n)

  pub register_relayer_reward-reward_at :
      (s : State World) (who : AccountId) (n : ℕ) (r : AccountId)
      → reward_at (register_relayer_reward c s params who n) r
        ≡ (if who == r then grow (reward_at s r) n else reward_at s r)
  unfolding register_relayer_reward
  register_relayer_reward-reward_at s who n r = ground (arith, params_eq_self params)

  pub register_relayer_reward-others :
      (s : State World) (who : AccountId) (n : ℕ) (r : AccountId) (p : RewardsAccountParams)
      → params_eq params p ≡ false
      → (register_relayer_reward c s params who n).rewards r p ≡ s.rewards r p
  unfolding register_relayer_reward
  register_relayer_reward-others s who n r p h = ground (arith, h)

  module _ (confirmer : AccountId) (fee : ℕ) where
    abbrev owed : MessageNonce → ℕ
    owed n = relayer_reward c confirmer params fee n

    abbrev loop : State World → ℕ → RelayersRewards → State World × ℕ
    loop s own rewards = register_loop c confirmer params fee s own rewards

    register_loop-own_cons :
        (k n : ℕ) (rewards : RelayersRewards) (own : ℕ) {after : ℕ}
        → own ≤ c.reward_max
        → Above k rewards
        → after
          ≡ saturate c (
              (if k == confirmer then saturate c (own + owed n) else own)
              + owed (reward_of confirmer rewards))
        → after ≡ saturate c (own + owed (reward_of confirmer ((k, n) ∷ rewards)))
    register_loop-own_cons k n rewards own le h e =
        ground (arith, reward_of-Above confirmer k rewards)

    register_loop-reward_at_cons :
        (s : State World) (k n : ℕ) (rewards : RelayersRewards) (r : AccountId) {after : ℕ}
        → Above k rewards
        → after ≡ (
            if r == confirmer
            then reward_at
                (if k == confirmer then s else register_relayer_reward c s params k (owed n))
                r
            else grow
                (reward_at
                  (if k == confirmer then s else register_relayer_reward c s params k (owed n))
                  r)
                (owed (reward_of r rewards)))
        → after ≡ (
            if r == confirmer
            then reward_at s r
            else grow (reward_at s r) (owed (reward_of r ((k, n) ∷ rewards))))
    register_loop-reward_at_cons s k n rewards r h e =
        ground
          (arith, reward_of-Above r k rewards, register_relayer_reward-reward_at s k (owed n) r)

    register_loop-own :
        (s : State World) (own : ℕ) (rewards : RelayersRewards)
        → own ≤ c.reward_max
        → IsSorted rewards
        → (loop s own rewards).1 ≡ saturate c (own + owed (reward_of confirmer rewards))
    unfolding register_loop
    register_loop-own s own [] le h = ground arith
    register_loop-own s own ((k, n) ∷ rewards) le h =
        let reward = owed n in
        let is_own = k == confirmer in
        register_loop-own_cons k n rewards own le h (
          register_loop-own (if is_own then s else register_relayer_reward c s params k reward)
            (if is_own then saturate c (own + reward) else own) rewards (ground arith)
            (Above-IsSorted k rewards h))

    register_loop-reward_at :
        (s : State World) (own : ℕ) (rewards : RelayersRewards) (r : AccountId)
        → IsSorted rewards
        → reward_at (loop s own rewards).0 r ≡ (
            if r == confirmer
            then reward_at s r
            else grow (reward_at s r) (owed (reward_of r rewards)))
    unfolding register_loop
    register_loop-reward_at s own [] r h = ground arith
    register_loop-reward_at s own ((k, n) ∷ rewards) r h =
        let reward = owed n in
        let is_own = k == confirmer in
        register_loop-reward_at_cons s k n rewards r h (
          register_loop-reward_at
            (if is_own then s else register_relayer_reward c s params k reward)
            (if is_own then saturate c (own + reward) else own) rewards r
            (Above-IsSorted k rewards h))

    -- The relayer that confirms gets the messages that it delivered under the same formula.
    pub register_relayers_rewards-reward_at :
        (s : State World) (rewards : RelayersRewards) (r : AccountId)
        → IsSorted rewards
        → reward_at (register_relayers_rewards c confirmer params fee s rewards) r
          ≡ grow (reward_at s r) (owed (reward_of r rewards))
    unfolding register_relayers_rewards
    register_relayers_rewards-reward_at s rewards r h =
        let (s', own) = loop s 0 rewards in
        ground (
          arith,
          register_relayer_reward-reward_at s' confirmer own r,
          register_loop-reward_at s 0 rewards r h,
          register_loop-own s 0 rewards (omega arith) h,
        )

    register_loop-others :
        (s : State World) (own : ℕ) (rewards : RelayersRewards) (r : AccountId)
        (p : RewardsAccountParams)
        → params_eq params p ≡ false
        → (loop s own rewards).0.rewards r p ≡ s.rewards r p
    unfolding register_loop
    register_loop-others s own [] r p h = refl
    register_loop-others s own ((k, n) ∷ rewards) r p h =
        let is_own = k == confirmer in
        register_loop-others (if is_own then s else register_relayer_reward c s params k (owed n))
          (if is_own then saturate c (own + owed n) else own) rewards r p h
        ∙ if_elim (λ t. t.rewards r p ≡ s.rewards r p) is_own s
            (register_relayer_reward c s params k (owed n)) refl
            (register_relayer_reward-others s k (owed n) r p h)

    pub register_relayers_rewards-others :
        (s : State World) (rewards : RelayersRewards) (r : AccountId) (p : RewardsAccountParams)
        → params_eq params p ≡ false
        → (register_relayers_rewards c confirmer params fee s rewards).rewards r p ≡ s.rewards r p
    unfolding register_relayers_rewards
    register_relayers_rewards-others s rewards r p h =
        let (s', own) = loop s 0 rewards in
        register_relayer_reward-others s' confirmer own r p h
        ∙ register_loop-others s 0 rewards r p h
