-- ===== src/Tests/Outbound.antt =====
-- Runs of the sending end of a lane.
use parity_bridges_common.Common.{ℕ, ◌≡◌, ◌≢◌, ◌⊎◌, false, [], ◌∷◌, arith}
use parity_bridges_common.Messages.Types.{DeliveredMessages}
use parity_bridges_common.Messages.Outbound.{
  OutboundLane, Pruning, confirm_delivery, confirmed_messages, prune_messages,
}
use parity_bridges_common.Messages.Outbound.Confirm.{
  IsConfirmable, confirmed_up_to, newly_confirmed, confirm_delivery-decides,
}
use parity_bridges_common.Messages.Outbound.Prune.{
  IsValid, KeepsUnconfirmed, prune_messages-IsValid,
}
use parity_bridges_common.Tests.Runtime.{metered, two_sent, two_stored, entry}

abbrev lane : OutboundLane
lane = record { lane_data = two_sent; stored = two_stored }

lane-IsValid : IsValid lane
lane-IsValid = record {
  pruned = omega arith;
  received = omega arith;
  fits = omega arith;
  queued = λ n. ground arith;
}

confirm_delivery-decides_example :
    (IsConfirmable lane 1 2 (entry 7 2 2 ∷ [])
      × (confirm_delivery lane 1 2 (entry 7 2 2 ∷ [])
          ≡ (confirmed_up_to lane 2, confirmed_messages (newly_confirmed lane 2))))
    ⊎ ((¬ IsConfirmable lane 1 2 (entry 7 2 2 ∷ []))
        × ((confirm_delivery lane 1 2 (entry 7 2 2 ∷ [])).0 ≡ lane)
        × ((m : DeliveredMessages)
            → (confirm_delivery lane 1 2 (entry 7 2 2 ∷ [])).1 ≢ confirmed_messages m))
confirm_delivery-decides_example =
    confirm_delivery-decides lane 1 2 (entry 7 2 2 ∷ []) (omega arith)

abbrev pruning : Pruning ℕ
pruning = record { lane = lane; spent = 0; remaining = 10 }

metered_pays : (spent : ℕ) → metered.is_zero (metered.add spent (metered.writes 1)) ≡ false
metered_pays spent = ground arith

prune_messages-IsValid_example :
    IsValid (prune_messages metered lane 10).0
    × KeepsUnconfirmed metered lane (prune_messages metered lane 10).0
prune_messages-IsValid_example = prune_messages-IsValid metered metered_pays lane 10 lane-IsValid
