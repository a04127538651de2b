-- ===== src/Tests/Source.antt =====
-- Runs of what the relayer does with the details of messages.
use parity_bridges_common.Common.{ℕ, ◌≡◌, refl, ◌⊎◌, some, List, [], ◌∷◌, ok, err, Result, length}
use parity_bridges_common.Relay.Race.{RangeInclusive}
use parity_bridges_common.Relay.Source.{
  OutboundMessageDetails, DetailsError, SplitError, nonces_of, validate_out_msgs_details, walk_back,
  shrink, split_loop, split_msgs_to_refine,
}
use parity_bridges_common.Relay.Source.Details.{IsTail, validate_out_msgs_details-decides}
use parity_bridges_common.Relay.Source.Batches.{IsSplit, split_msgs_to_refine-IsSplit}

abbrev details : ℕ → OutboundMessageDetails ℕ
details n = record { nonce = n; dispatch_weight = 0; size = 0 }

abbrev three : RangeInclusive
three = record { start = 1; end = 3 }

validate_out_msgs_details-decides_example :
    ((validate_out_msgs_details (details 2 ∷ details 3 ∷ []) three ≡ ok tt)
      × IsTail (details 2 ∷ details 3 ∷ []) (nonces_of three))
    ⊎ ((e : DetailsError) × (validate_out_msgs_details (details 2 ∷ details 3 ∷ []) three ≡ err e)
        × (¬ IsTail (details 2 ∷ details 3 ∷ []) (nonces_of three)))
validate_out_msgs_details-decides_example =
    validate_out_msgs_details-decides (details 2 ∷ details 3 ∷ []) three

-- The message in the middle is missing.
middle_is_missing :
    validate_out_msgs_details (details 1 ∷ details 3 ∷ []) three
    ≡ err (DetailsError.missing_nonce 2)
unfolding validate_out_msgs_details walk_back
middle_is_missing = refl

-- A call takes two messages.
split_msgs_to_refine-IsSplit_example :
    (r : Result SplitError (List (List ℕ))) × (split_msgs_to_refine {M = ℕ} length 2
        (1 ∷ 2 ∷ 3 ∷ [])
      ≡ some r)
    × IsSplit length 2 (1 ∷ 2 ∷ 3 ∷ []) [] r
split_msgs_to_refine-IsSplit_example = split_msgs_to_refine-IsSplit length 2 (1 ∷ 2 ∷ 3 ∷ [])

two_batches :
    split_msgs_to_refine {M = ℕ} length 2 (1 ∷ 2 ∷ 3 ∷ [])
    ≡ some (ok ((1 ∷ 2 ∷ []) ∷ (3 ∷ []) ∷ []))
unfolding split_loop shrink
two_batches = refl
