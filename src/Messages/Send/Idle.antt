-- ===== src/Messages/Send/Idle.antt =====
-- What `on_idle` does to the outbound lanes (modules/messages/src/lib.rs).
use native.Mathlib.Decide.{ℕ_discrete}
use mathlib.Core.Option.{some-injective}
use parity_bridges_common.Common.{
  ℕ, ◌<◌, ◌≡◌, refl, ap, inl, inr, false, some, arith, update_self, update_ne, Option-cases,
  Bool-cases,
}
use parity_bridges_common.Messages.Types.{LaneId, MessageNonce}
use parity_bridges_common.Messages.Outbound.Prune.{prune_messages-IsValid}
use parity_bridges_common.Messages.Pallet.{Config, Chain, outbound_lane}
use parity_bridges_common.Messages.Send.{on_idle, active_lane, prune_lane}
use parity_bridges_common.Messages.Send.Laws.{OutboundLanesAreValid, save_outbound-IsValid}

module _ (c : Config)
    (pays : (spent : c.Weight)
      → c.weights.is_zero (c.weights.add spent (c.weights.writes 1)) ≡ false) where
  prune_lane-valid :
      (s : Chain c) (weight : c.Weight) (id : LaneId)
      → OutboundLanesAreValid s
      → OutboundLanesAreValid (prune_lane c s weight id).0
  unfolding prune_lane
  prune_lane-valid s weight id v =
      save_outbound-IsValid s id _ v
        (prune_messages-IsValid c.weights pays (outbound_lane s id) _ (v id)).0

  prune_lane-unconfirmed :
      (s : Chain c) (weight : c.Weight) (id : LaneId)
      → OutboundLanesAreValid s
      → (j : LaneId) (n : MessageNonce) → (s.outbound_lanes j).latest_received_nonce < n
      → (prune_lane c s weight id).0.outbound_messages j n ≡ s.outbound_messages j n
  unfolding prune_lane
  prune_lane-unconfirmed s weight id v j n lt = elim (ℕ_discrete id j) [
    | no ne ↦ rw (update_ne s.outbound_messages id j _ ne) refl
    | yes e ↦
        rw (← e, update_self s.outbound_messages id)
          ((prune_messages-IsValid c.weights pays (outbound_lane s id) _ (v id)).1.messages n
            (rw e lt))
  ]

  -- Where a write makes a weight that is not zero, an `on_idle` that does not panic keeps every
  -- outbound lane valid, and keeps every message that the other chain has not confirmed.
  pub on_idle-valid :
      (s : Chain c) (block_number : ℕ) (weight : c.Weight) {after : Chain c} {used : c.Weight}
      → on_idle c s block_number weight ≡ some (after, used)
      → OutboundLanesAreValid s
      → OutboundLanesAreValid after
        × ((j : LaneId) (n : MessageNonce)
            → (s.outbound_lanes j).latest_received_nonce < n
            → after.outbound_messages j n ≡ s.outbound_messages j n)
  unfolding on_idle
  on_idle-valid s block_number weight {after} {used} done v =
      elim (Bool-cases (c.weights.all_gte weight (c.weights.reads_writes 1 2))) [
        | inr poor ↦
            let same : some (s, c.weights.zero) ≡ some (after, used) = rw poor at done in
            rw (← ap (λ (r : Chain c × c.Weight). r.0) (some-injective _ _ same))
              (v, λ j n lt. refl)
        | inl rich ↦ elim (Option-cases (active_lane c block_number)) [
          | inl no_lane ↦ ground arith
          | inr (id, e) ↦
              let same : some (prune_lane c s weight id) ≡ some (after, used) =
                rw (rich, e) at done in
              rw (← ap (λ (r : Chain c × c.Weight). r.0) (some-injective _ _ same))
                (prune_lane-valid s weight id v, prune_lane-unconfirmed s weight id v)
        ]
      ]
