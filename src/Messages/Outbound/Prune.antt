-- ===== src/Messages/Outbound/Prune.antt =====
-- Pruning of delivered messages, and the invariant of the sending end.
use parity_bridges_common.Common.{
  ℕ, zero, suc, ◌+◌, ◌≤◌, ◌<◌, ◌≡◌, refl, ◌⊎◌, inl, inr, true, false, ◌&&◌, List, u64_mod, arith,
  leb, Bool-cases, is_some,
}
use parity_bridges_common.Messages.Types.{MessageNonce, MessagePayload, UnrewardedRelayer}
use parity_bridges_common.Messages.Weights.{WeightOps}
use parity_bridges_common.Messages.Outbound.{
  OutboundLane, Pruning, send_message, confirm_delivery, may_prune, prune_one, prune_loop,
  prune_rounds, prune_messages,
}

-- The lane stores exactly the messages from `oldest_unpruned_nonce` to `latest_generated_nonce`.
pub record IsValid (lane : OutboundLane) : Type 0 where
  pub pruned : lane.lane_data.oldest_unpruned_nonce ≤ lane.lane_data.latest_received_nonce + 1
  pub received : lane.lane_data.latest_received_nonce ≤ lane.lane_data.latest_generated_nonce
  pub fits : lane.lane_data.latest_generated_nonce + 1 < u64_mod
  pub queued :
      (n : MessageNonce)
      → is_some (lane.stored n) ≡ (
          leb lane.lane_data.oldest_unpruned_nonce n && leb n lane.lane_data.latest_generated_nonce)

pub send_message-IsValid :
    (lane : OutboundLane) (payload : MessagePayload)
    → lane.lane_data.latest_generated_nonce + 2 < u64_mod
    → IsValid lane
    → IsValid (send_message lane payload).0
unfolding send_message
send_message-IsValid lane payload room v = record {
  pruned = ground arith;
  received = ground arith;
  fits = ground arith;
  queued = λ n. ground (arith, v.queued n);
}

pub confirm_delivery-IsValid :
    (lane : OutboundLane) (allowed last : MessageNonce) (es : List UnrewardedRelayer)
    → IsValid lane
    → IsValid (confirm_delivery lane allowed last es).0
unfolding confirm_delivery
confirm_delivery-IsValid lane allowed last es v = record {
  pruned = ground (arith, v.pruned);
  received = ground (arith, v.received);
  fits = ground (arith, v.fits);
  queued = λ n. ground (arith, v.queued n);
}

module _ {W : Type 0} (w : WeightOps W) where
  prune_one-IsValid :
      (p : Pruning W) → may_prune w p ≡ true → IsValid p.lane → IsValid (prune_one w p).lane
  unfolding prune_one may_prune
  prune_one-IsValid p h v = record {
    pruned = ground (arith, v.pruned, v.received, v.fits);
    received = v.received;
    fits = v.fits;
    queued = λ n. ground (arith, v.queued n, v.received, v.fits);
  }

  -- What the loop leaves alone.
  pub record KeepsUnconfirmed (lane after : OutboundLane) : Type 0 where
    pub received : after.lane_data.latest_received_nonce ≡ lane.lane_data.latest_received_nonce
    pub generated : after.lane_data.latest_generated_nonce ≡ lane.lane_data.latest_generated_nonce
    pub messages :
        (n : MessageNonce)
        → lane.lane_data.latest_received_nonce < n
        → after.stored n ≡ lane.stored n

  prune_loop-IsValid :
      (rounds : ℕ) (p : Pruning W) → IsValid p.lane → IsValid (prune_loop w rounds p).lane
  unfolding prune_loop
  prune_loop-IsValid zero p v = v
  prune_loop-IsValid (suc rounds) p v = elim (Bool-cases (may_prune w p)) [
    | inl go ↦
        rw (go, prune_loop) (prune_loop-IsValid rounds (prune_one w p) (prune_one-IsValid p go v))
    | inr stop ↦ rw (stop, prune_loop) v
  ]

  prune_loop-KeepsUnconfirmed :
      (rounds : ℕ) (p : Pruning W) → KeepsUnconfirmed p.lane (prune_loop w rounds p).lane
  unfolding prune_loop prune_one may_prune
  prune_loop-KeepsUnconfirmed zero p = record {
    received = refl;
    generated = refl;
    messages = λ n h. refl;
  }
  prune_loop-KeepsUnconfirmed (suc rounds) p =
      let ih = prune_loop-KeepsUnconfirmed rounds (prune_one w p) in
      record {
        received = ground (arith, ih.received);
        generated = ground (arith, ih.generated);
        messages = λ n h. ground (arith, ih.messages n);
      }

  -- Where the nonce after the confirmed one fits into 64 bits, the loop of `prune_messages` ends
  -- by its own test within a round for each nonce that may be pruned.
  prune_loop-stops :
      (rounds : ℕ) (p : Pruning W)
      → p.lane.lane_data.latest_received_nonce + 1 < u64_mod
      → prune_rounds p.lane.lane_data ≤ rounds
      → may_prune w (prune_loop w rounds p) ≡ false
  unfolding prune_loop prune_one may_prune
  prune_loop-stops zero p room enough = ground arith
  prune_loop-stops (suc rounds) p room enough =
      ground (arith, prune_loop-stops rounds (prune_one w p))

  -- The remaining weight after a number of further writes.
  abbrev pub left_after : W → ℕ → W
  left_after left zero = left
  left_after left (suc writes) = left_after (w.sub left (w.writes 1)) writes

  -- The remaining weight allows two writes in each of the rounds.
  abbrev pub IsPlenty : W → ℕ → Type 0
  IsPlenty left rounds =
      (k : ℕ) → k < rounds → w.all_gte (left_after left k) (w.add (w.writes 1) (w.writes 1)) ≡ true

  module _ (pays : (spent : W) → w.is_zero (w.add spent (w.writes 1)) ≡ false) where
    prune_loop-saves :
        (rounds : ℕ) (p : Pruning W)
        → (w.is_zero (prune_loop w rounds p).spent ≡ false) ⊎ (prune_loop w rounds p ≡ p)
    unfolding prune_loop
    prune_loop-saves zero p = inr refl
    prune_loop-saves (suc rounds) p = elim (Bool-cases (may_prune w p)) [
      | inr stop ↦ inr (rw (stop, prune_loop) refl)
      | inl go ↦ elim (prune_loop-saves rounds (prune_one w p)) [
        | inl spent ↦ inl (rw (go, prune_loop) spent)
        | inr same ↦ inl (rw (go, prune_loop) (rw same (unfold prune_one in pays p.spent)))
      ]
    ]

    module _ (lane : OutboundLane) (remaining : W) (v : IsValid lane) where
      -- Where a write makes a weight that is not zero, pruning keeps a valid lane valid, and
      -- removes no message that is not yet confirmed.
      pub prune_messages-IsValid :
          IsValid (prune_messages w lane remaining).0
          × KeepsUnconfirmed lane (prune_messages w lane remaining).0
      unfolding prune_messages
      prune_messages-IsValid =
          let start : Pruning W = record { lane = lane; spent = w.zero; remaining = remaining } in
          let rounds = prune_rounds lane.lane_data in
          elim (Bool-cases (w.is_zero (prune_loop w rounds start).spent)) [
            | inr some_spent ↦
                rw some_spent
                  (prune_loop-IsValid rounds start v, prune_loop-KeepsUnconfirmed rounds start)
            | inl none_spent ↦ elim (prune_loop-saves rounds start) [
              | inl spent ↦ cc
              | inr same ↦
                  rw (none_spent, same)
                    (v, record { received = refl; generated = refl; messages = λ n h. refl })
            ]
          ]
