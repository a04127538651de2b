-- ===== src/Relay/Source.antt =====
-- relays/lib-substrate-relay/src/messages_source.rs: the checks of the message details that the
-- source node returns, and the batches in which they are sent to the target node.
pub mod Details
pub mod Batches
use mathlib.Core.List.{reverse}
use parity_bridges_common.Common.{
  ℕ, zero, suc, ◌+◌, ◌-◌, Bool, true, false, not, ◌&&◌, Option, none, some, List, [], ◌∷◌, ◌++◌,
  Result, ok, err, ◌>>=◌, ◌>>◌, ensure, length, range_from, leb, ltb, ◌==◌, if◌then◌else◌,
}
use parity_bridges_common.Messages.Types.{MessageNonce}
use parity_bridges_common.Relay.Race.{RangeInclusive}

-- `OutboundMessageDetails` of primitives/messages/src/lib.rs.
pub record OutboundMessageDetails (W : Type 0) : Type 0 where
  pub nonce : MessageNonce
  pub dispatch_weight : W
  pub size : ℕ

-- What the `SubstrateError::Custom` messages say.
pub data DetailsError : Type 0 where
  more_than_requested : DetailsError
  missing_nonce : MessageNonce → DetailsError

abbrev pub is_nil {ℓ} : {A : Type ℓ} → List A → Bool
is_nil [] = true
is_nil (x ∷ xs) = false

-- The nonces of an inclusive range, in order.
abbrev pub nonces_of : RangeInclusive → List MessageNonce
nonces_of range = range_from range.start (range.end + 1 - range.start)

module _ {W : Type 0} where
  -- The `while` loop, over both sequences from their ends; what it returns are the nonces left.
  unfoldable pub walk_back :
      List (OutboundMessageDetails W) → List MessageNonce → Result DetailsError (List MessageNonce)
  walk_back [] nonces = ok nonces
  walk_back (details ∷ out) [] = ok []
  walk_back (details ∷ out) (nonce ∷ nonces) =
      if details.nonce == nonce then walk_back out nonces else err (missing_nonce nonce)

  unfoldable pub validate_out_msgs_details :
      List (OutboundMessageDetails W) → RangeInclusive → Result DetailsError (Unit {0})
  validate_out_msgs_details out_msgs_details nonces = do
    ensure (leb (length out_msgs_details) (length (nonces_of nonces))) more_than_requested
    ensure (not (is_nil out_msgs_details && not (is_nil (nonces_of nonces))))
        (missing_nonce nonces.end)
    left ← walk_back (reverse out_msgs_details) (reverse (nonces_of nonces))
    ok tt

pub data SplitError : Type 0 where
  message_too_large : SplitError

-- `encoded_size` is that of a call with the messages of a batch.
module _ {M : Type 0} (encoded_size : List M → ℕ) (max_batch_size : ℕ) where
  -- The inner loop: messages are moved from the end of the batch to the next one. The batch is given
  -- from its end.
  unfoldable pub shrink : List M → List M → Result SplitError (List M × List M)
  shrink [] next =
      if ltb max_batch_size (encoded_size []) then err message_too_large else ok ([], next)
  shrink (msg ∷ before) next =
      let smaller = if is_nil before then err message_too_large else shrink before (msg ∷ next) in
      if ltb max_batch_size (encoded_size (reverse (msg ∷ before)))
      then smaller
      else ok (reverse (msg ∷ before), next)

  -- The outer loop, on fuel: `none` is that it has not ended.
  unfoldable pub split_loop :
      ℕ → List M → List (List M) → Option (Result SplitError (List (List M)))
  split_loop fuel [] batches = some (ok batches)
  split_loop zero (msg ∷ msgs) batches = none
  split_loop (suc fuel) (msg ∷ msgs) batches = elim (shrink (reverse (msg ∷ msgs)) []) [
    | err e ↦ some (err e)
    | ok (current, next) ↦ split_loop fuel next (batches ++ current ∷ [])
  ]

  abbrev pub split_msgs_to_refine : List M → Option (Result SplitError (List (List M)))
  split_msgs_to_refine msgs = split_loop (length msgs) msgs []
