-- ===== src/Relayers/Claim.antt =====
-- Claiming rewards (`claim_rewards` of modules/relayers/src/lib.rs).
use parity_bridges_common.Common.{
  ℕ, ◌≡◌, refl, ◌⊎◌, inl, inr, true, false, ◌&&◌, none, some, [], ◌∷◌, ◌++◌, ok, err, arith, ◌==◌,
  ok-injective, Option-cases, err_is_not_ok, sym, subst, ◌∙◌,
}
use parity_bridges_common.Runtime.{signed, from_pallet}
use parity_bridges_common.Relayers.{
  State, Config, RewardsAccountParams, RewardsAccountOwner, this_chain, bridged_chain, owner_eq,
  params_eq, write_reward, claim_rewards, reward_paid, no_reward_for_relayer, failed_to_pay_reward,
}
use parity_bridges_common.Messages.Types.{AccountId}

owner_eq_self : (o : RewardsAccountOwner) → owner_eq o o ≡ true
owner_eq_self this_chain = refl
owner_eq_self bridged_chain = refl

pub params_eq_self : (p : RewardsAccountParams) → params_eq p p ≡ true
params_eq_self p = ground (arith, owner_eq_self p.owner)

module _ {World : Type 0} (c : Config World) where
  -- What a claim that succeeds has done: it paid the registered reward, forgot it, and touched no
  -- other reward.
  pub record Claimed (s after : State World) (who : AccountId) (params : RewardsAccountParams)
      (reward : ℕ) : Type 0 where
    pub registered : s.rewards who params ≡ some reward
    pub paid : c.pay_reward s.world who params reward ≡ some after.world
    pub forgotten : after.rewards who params ≡ none
    pub others :
        (r : AccountId) (p : RewardsAccountParams)
        → (who == r && params_eq params p) ≡ false
        → after.rewards r p ≡ s.rewards r p
    pub events : after.events ≡ s.events ++ reward_paid who params reward ∷ []

  -- A claim of a signed relayer fails without a registered reward, fails when the payment of the
  -- registered reward does, and otherwise pays it, forgets it, tells an event and touches no
  -- other reward.
  pub claim_rewards-cases :
      (s : State World) (who : AccountId) (params : RewardsAccountParams)
      → ((s.rewards who params ≡ none)
          × (claim_rewards c s (signed who) params ≡ err (from_pallet no_reward_for_relayer)))
        ⊎ ((reward : ℕ) × (s.rewards who params ≡ some reward)
            × (c.pay_reward s.world who params reward ≡ none)
            × (claim_rewards c s (signed who) params ≡ err (from_pallet failed_to_pay_reward)))
        ⊎ ((reward : ℕ) × (after : State World) × (claim_rewards c s (signed who) params ≡ ok after)
            × Claimed s after who params reward)
  unfolding claim_rewards
  claim_rewards-cases s who params = elim (Option-cases (s.rewards who params)) [
    | inl nothing ↦ inl (nothing, rw nothing refl)
    | inr (reward, e) ↦ elim (Option-cases (c.pay_reward s.world who params reward)) [
      | inl unpaid ↦ inr (inl (reward, e, unpaid, rw (e, unpaid) refl))
      | inr (world, paid) ↦
          let after : State World = record {
            rewards = write_reward s.rewards who params none;
            events = s.events ++ reward_paid who params reward ∷ [];
            world = world;
          } in
          inr (
            inr (
              reward,
              after,
              rw (e, paid) refl,
              record {
                registered = e;
                paid = paid;
                forgotten = ground (arith, params_eq_self params);
                others = λ r p h. rw h refl;
                events = refl;
              },
            ))
    ]
  ]

  claim_rewards-none :
      (s : State World) (who : AccountId) (params : RewardsAccountParams)
      → s.rewards who params ≡ none
      → claim_rewards c s (signed who) params ≡ err (from_pallet no_reward_for_relayer)
  unfolding claim_rewards
  claim_rewards-none s who params nothing = rw nothing refl

  -- After a claim that succeeded, the same claim fails with `NoRewardForRelayer`.
  pub claim_rewards_twice :
      (s after : State World) (who : AccountId) (params : RewardsAccountParams)
      → claim_rewards c s (signed who) params ≡ ok after
      → claim_rewards c after (signed who) params ≡ err (from_pallet no_reward_for_relayer)
  claim_rewards_twice s after who params done = elim (claim_rewards-cases s who params) [
    | inl (nothing, failed) ↦ err_is_not_ok failed done
    | inr (inl (reward, known, unpaid, failed)) ↦ err_is_not_ok failed done
    | inr (inr (reward, after', done', claimed)) ↦
        let same : after' ≡ after = ok-injective (sym done' ∙ done) in
        claim_rewards-none after who params
          (subst (λ t. t.rewards who params ≡ none) same claimed.forgotten)
  ]
