-- ===== src/Messages/Rewards.antt =====
-- `calc_relayers_rewards` of primitives/messages/src/lib.rs: how many messages each relayer is to be
-- rewarded for.
pub mod Counting
pub mod Fair
use parity_bridges_common.Common.{
  ℕ, ◌-◌, ◌+◌, List, [], ◌∷◌, if◌then◌else◌, leb, ltb, ◌==◌, add_u64, min, max,
}
use parity_bridges_common.Messages.Types.{MessageNonce, AccountId, UnrewardedRelayer}

-- `BTreeMap<AccountId, MessageNonce>`: the entries in the order of their keys.
abbrev pub RelayersRewards : Type 0
RelayersRewards = List (AccountId × MessageNonce)

-- `*rewards.entry(relayer).or_default() += n`.
unfoldable pub add_reward : AccountId → MessageNonce → RelayersRewards → RelayersRewards
add_reward relayer n [] = (relayer, add_u64 0 n) ∷ []
add_reward relayer n ((other, old) ∷ rewards) =
    if relayer == other
    then (other, add_u64 old n) ∷ rewards
    else if ltb relayer other
    then (relayer, add_u64 0 n) ∷ (other, old) ∷ rewards
    else (other, old) ∷ add_reward relayer n rewards

-- The body of the loop of `calc_relayers_rewards`, over the range from `first` to `last`.
calc_step : MessageNonce → MessageNonce → UnrewardedRelayer → RelayersRewards → RelayersRewards
calc_step first last entry rewards =
    let nonce_begin = max entry.messages.begin first in
    let nonce_end = min entry.messages.end last in
    if leb nonce_begin nonce_end
    then add_reward entry.relayer (add_u64 (nonce_end - nonce_begin) 1) rewards
    else rewards

calc_loop : MessageNonce → MessageNonce → List UnrewardedRelayer → RelayersRewards → RelayersRewards
calc_loop first last [] rewards = rewards
calc_loop first last (entry ∷ entries) rewards =
    calc_loop first last entries (calc_step first last entry rewards)

unfoldable pub calc_relayers_rewards :
    List UnrewardedRelayer → MessageNonce → MessageNonce → RelayersRewards
unfolding calc_loop calc_step
calc_relayers_rewards relayers first last = calc_loop first last relayers []
