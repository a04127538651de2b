-- ===== src/Messages/Rewards/Fair.antt =====
-- The rewards against the queue: each relayer is rewarded for the nonces that it delivered.
use parity_bridges_common.Common.{
  ℕ, ◌-◌, ◌+◌, ◌≤◌, ◌<◌, ◌≡◌, refl, ap, ◌∙◌, Bool, false, ◌&&◌, ◌||◌, List, [], ◌∷◌, Option, none,
  some, if◌then◌else◌, ◌==◌, min, max, arith, u64_mod, add_u64, Bool-cases, inl, inr,
}
use parity_bridges_common.Messages.Types.{
  MessageNonce, AccountId, UnrewardedRelayer, contains_message,
}
use parity_bridges_common.Messages.Inbound.Chain.{Linked, deliverer, deliverer-Linked_below}
use parity_bridges_common.Messages.Rewards.{
  RelayersRewards, add_reward, calc_loop, calc_step, calc_relayers_rewards,
}
use parity_bridges_common.Messages.Rewards.Counting.{
  count_from, count_from-le, count_from-cong, count_from-or, count_from-none, count_from-between,
}

-- What the map holds for the relayer.
abbrev pub reward_of : AccountId → RelayersRewards → MessageNonce
reward_of r [] = 0
reward_of r ((k, n) ∷ rewards) = if r == k then n else reward_of r rewards

-- The keys rise from the first key, which is above `k`.
abbrev pub Above : ℕ → RelayersRewards → Type 0
Above k [] = Unit
Above k ((j, n) ∷ rewards) = (k < j) × Above j rewards

abbrev pub IsSorted : RelayersRewards → Type 0
IsSorted [] = Unit
IsSorted ((k, n) ∷ rewards) = Above k rewards

pub reward_of-Above : (r k : ℕ) (m : RelayersRewards) → r ≤ k → Above k m → reward_of r m ≡ 0
reward_of-Above r k [] le a = refl
reward_of-Above r k ((j, n) ∷ m) le a = ground (arith, reward_of-Above r j m)

add_reward-Above :
    (k s n : ℕ) (m : RelayersRewards) → k < s → Above k m → Above k (add_reward s n m)
unfolding add_reward
add_reward-Above k s n [] lt a = (lt, tt)
add_reward-Above k s n ((j, old) ∷ m) lt a = ground (arith, add_reward-Above j s n m)

pub add_reward-IsSorted : (s n : ℕ) (m : RelayersRewards) → IsSorted m → IsSorted (add_reward s n m)
unfolding add_reward
add_reward-IsSorted s n [] h = tt
add_reward-IsSorted s n ((j, old) ∷ m) h = ground (arith, add_reward-Above j s n m)

pub Above-IsSorted : (k : ℕ) (m : RelayersRewards) → Above k m → IsSorted m
Above-IsSorted k [] a = tt
Above-IsSorted k ((j, n) ∷ m) a = a.1

reward_of-add_reward_cons :
    (r s n j old : ℕ) (m : RelayersRewards)
    → Above j m
    → reward_of r (add_reward s n m) ≡ (if r == s then add_u64 (reward_of r m) n else reward_of r m)
    → reward_of r (add_reward s n ((j, old) ∷ m))
      ≡ (if r == s then add_u64 (reward_of r ((j, old) ∷ m)) n else reward_of r ((j, old) ∷ m))
unfolding add_reward
reward_of-add_reward_cons r s n j old m a ih = ground (arith, ih, reward_of-Above r j m)

pub reward_of-add_reward :
    (r s n : ℕ) (m : RelayersRewards)
    → IsSorted m
    → reward_of r (add_reward s n m) ≡ (if r == s then add_u64 (reward_of r m) n else reward_of r m)
unfolding add_reward
reward_of-add_reward r s n [] h = refl
reward_of-add_reward r s n ((j, old) ∷ m) h =
    reward_of-add_reward_cons r s n j old m h (reward_of-add_reward r s n m (Above-IsSorted j m h))

abbrev is_account : AccountId → Option AccountId → Bool
is_account r none = false
is_account r (some s) = s == r

-- Was the nonce delivered by the relayer?
abbrev pub is_by : AccountId → List UnrewardedRelayer → MessageNonce → Bool
is_by r es m = is_account r (deliverer m es)

-- A queue whose first entry may begin anywhere.
abbrev pub IsRun : List UnrewardedRelayer → Type 0
IsRun [] = Unit
IsRun (e ∷ es) = (e.messages.begin ≤ e.messages.end) × Linked e.messages.end es

Linked-IsRun : (k : ℕ) (es : List UnrewardedRelayer) → Linked k es → IsRun es
Linked-IsRun k [] l = tt
Linked-IsRun k (e ∷ es) l = (l.1, l.2)

is_by-split :
    (r : AccountId) (e : UnrewardedRelayer) (es : List UnrewardedRelayer) (m : MessageNonce)
    → IsRun (e ∷ es)
    → is_by r (e ∷ es) m ≡ ((contains_message e.messages m && e.relayer == r) || is_by r es m)
is_by-split r e es m l = ground (arith, deliverer-Linked_below m e.messages.end es)

is_by-disjoint :
    (r : AccountId) (e : UnrewardedRelayer) (es : List UnrewardedRelayer) (m : MessageNonce)
    → IsRun (e ∷ es)
    → ((contains_message e.messages m && e.relayer == r) && is_by r es m) ≡ false
is_by-disjoint r e es m l = ground (arith, deliverer-Linked_below m e.messages.end es)

count_from-contains :
    (r : AccountId) (e : UnrewardedRelayer) (first n : ℕ)
    → count_from (λ m. contains_message e.messages m && e.relayer == r) first n ≡ (
        if e.relayer == r
        then min (e.messages.end + 1) (first + n) - max e.messages.begin first
        else 0)
count_from-contains r e first n = elim (Bool-cases (e.relayer == r)) [
  | inl own ↦ rw own (
      count_from-cong _ _ first n (λ m. ground arith)
      ∙ count_from-between e.messages.begin e.messages.end first n)
  | inr other ↦
      rw other
        (count_from-cong _ (λ m. false) first n (λ m. ground arith) ∙ count_from-none first n)
]

count_from-is_by :
    (r : AccountId) (e : UnrewardedRelayer) (es : List UnrewardedRelayer) (first n : ℕ)
    → IsRun (e ∷ es)
    → count_from (is_by r (e ∷ es)) first n
      ≡ (if e.relayer == r
          then min (e.messages.end + 1) (first + n) - max e.messages.begin first
          else 0)
        + count_from (is_by r es) first n
count_from-is_by r e es first n l =
    count_from-cong _ _ first n (λ m. is_by-split r e es m l)
    ∙ count_from-or _ _ first n (λ m. is_by-disjoint r e es m l)
    ∙ ap (λ k. k + count_from (is_by r es) first n) (count_from-contains r e first n)

-- The number of nonces of the range that the relayer delivered.
abbrev pub delivered_by : AccountId → List UnrewardedRelayer → MessageNonce → MessageNonce → ℕ
delivered_by r es first last = count_from (is_by r es) first (last + 1 - first)

-- What an entry adds to the relayer's reward.
abbrev share : AccountId → UnrewardedRelayer → MessageNonce → MessageNonce → ℕ
share r e first last =
    if e.relayer == r then min (e.messages.end + 1) (last + 1) - max e.messages.begin first else 0

reward_of-calc_step :
    (r : AccountId) (e : UnrewardedRelayer) (first last : MessageNonce) (m : RelayersRewards)
    → first ≤ last + 1
    → last + 1 < u64_mod
    → IsSorted m
    → reward_of r m + share r e first last < u64_mod
    → reward_of r (calc_step first last e m) ≡ reward_of r m + share r e first last
unfolding calc_step
reward_of-calc_step r e first last m le fits h room =
    let n = add_u64 (min e.messages.end last - max e.messages.begin first) 1 in
    ground (arith, reward_of-add_reward r e.relayer n m h)

calc_step-IsSorted :
    (first last : MessageNonce) (e : UnrewardedRelayer) (m : RelayersRewards)
    → IsSorted m
    → IsSorted (calc_step first last e m)
unfolding calc_step
calc_step-IsSorted first last e m h =
    let n = add_u64 (min e.messages.end last - max e.messages.begin first) 1 in
    ground (arith, add_reward-IsSorted e.relayer n m h)

delivered_by-cons :
    (r : AccountId) (e : UnrewardedRelayer) (es : List UnrewardedRelayer)
    (first last : MessageNonce)
    → first ≤ last + 1
    → IsRun (e ∷ es)
    → delivered_by r (e ∷ es) first last ≡ share r e first last + delivered_by r es first last
delivered_by-cons r e es first last le l =
    let whole : first + (last + 1 - first) ≡ last + 1 = omega arith in
    rw whole at (count_from-is_by r e es first (last + 1 - first) l)

calc_loop-delivered :
    (r : AccountId) (es : List UnrewardedRelayer) (first last : MessageNonce) (m : RelayersRewards)
    → first ≤ last + 1
    → last + 1 < u64_mod
    → IsSorted m
    → IsRun es
    → reward_of r m + delivered_by r es first last < u64_mod
    → reward_of r (calc_loop first last es m) ≡ reward_of r m + delivered_by r es first last
unfolding calc_loop
calc_loop-delivered r [] first last m le fits h l room =
    omega (arith, count_from-none first (last + 1 - first))
calc_loop-delivered r (e ∷ es) first last m le fits h l room =
    let parts = delivered_by-cons r e es first last le l in
    let step = reward_of-calc_step r e first last m le fits h (omega arith) in
    let rest =
      calc_loop-delivered r es first last (calc_step first last e m) le fits
        (calc_step-IsSorted first last e m h) (Linked-IsRun e.messages.end es l.1) (omega arith) in
    omega arith

calc_loop-IsSorted :
    (first last : MessageNonce) (es : List UnrewardedRelayer) (m : RelayersRewards)
    → IsSorted m
    → IsSorted (calc_loop first last es m)
unfolding calc_loop
calc_loop-IsSorted first last [] m h = h
calc_loop-IsSorted first last (e ∷ es) m h =
    calc_loop-IsSorted first last es (calc_step first last e m)
      (calc_step-IsSorted first last e m h)

pub calc_relayers_rewards-IsSorted :
    (es : List UnrewardedRelayer) (first last : MessageNonce)
    → IsSorted (calc_relayers_rewards es first last)
unfolding calc_relayers_rewards
calc_relayers_rewards-IsSorted es first last = calc_loop-IsSorted first last es [] tt

-- Where the entries are consecutive and not empty and the range of nonces is one of 64 bits, each
-- relayer is rewarded for as many messages of the range as it delivered.
pub calc_relayers_rewards-delivered :
    (r : AccountId) (es : List UnrewardedRelayer) (first last : MessageNonce)
    → first ≤ last + 1
    → last + 1 < u64_mod
    → IsRun es
    → reward_of r (calc_relayers_rewards es first last) ≡ delivered_by r es first last
unfolding calc_relayers_rewards
calc_relayers_rewards-delivered r es first last le fits l =
    calc_loop-delivered r es first last [] le fits tt l
      (omega (arith, count_from-le (is_by r es) first (last + 1 - first)))
    ∙ omega arith
