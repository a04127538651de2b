-- ===== src/Messages/Outbound/Confirm.antt =====
-- When a delivery proof is accepted (`confirm_delivery` of modules/messages/src/outbound_lane.rs).
use parity_bridges_common.Common.{
  ◌+◌, ◌≤◌, ◌<◌, ◌≡◌, refl, ap, ◌⊎◌, inl, inr, Option, none, some, ◌≢◌, List, [], ◌∷◌, ok, err, All,
  u64_mod, arith,
}
use parity_bridges_common.Messages.Types.{MessageNonce, DeliveredMessages, UnrewardedRelayer}
use parity_bridges_common.Messages.Outbound.{
  OutboundLane, ReceivalConfirmationResult, confirmed_messages, empty_unrewarded_relayer_entry,
  no_new_confirmations, failed_to_confirm_future_messages,
  non_consecutive_unrewarded_relayer_entries, trying_to_confirm_more_messages_than_expected,
  check_entries, ensure_unrewarded_relayers_are_correct, confirm_delivery,
}

-- Each entry begins right behind the end of the one before it.
abbrev pub Consecutive : List UnrewardedRelayer → Type 0
Consecutive [] = Unit
Consecutive (e ∷ []) = Unit
Consecutive (e ∷ f ∷ es) = (e.messages.end + 1 ≡ f.messages.begin) × Consecutive (f ∷ es)

-- The entry is not empty and ends at `last` or before.
abbrev pub IsEntryUpTo : MessageNonce → UnrewardedRelayer → Type 0
IsEntryUpTo last e = (e.messages.begin ≤ e.messages.end) × (e.messages.end ≤ last)

-- What the relayers of a proof with the last delivered nonce `last` must look like.
abbrev pub IsProofUpTo : MessageNonce → List UnrewardedRelayer → Type 0
IsProofUpTo last es = All (IsEntryUpTo last) es × Consecutive es

abbrev Behind : Option MessageNonce → List UnrewardedRelayer → Type 0
Behind none es = Unit
Behind (some n) [] = Unit
Behind (some n) (e ∷ es) = n + 1 ≡ e.messages.begin

check_entries_sound :
    (last : MessageNonce) (prev : Option MessageNonce) (es : List UnrewardedRelayer)
    → check_entries last prev es ≡ ok tt
    → Behind prev es × IsProofUpTo last es
unfolding check_entries
check_entries_sound last none [] h = (tt, (tt, tt))
check_entries_sound last (some n) [] h = (tt, (tt, tt))
check_entries_sound last none (e ∷ []) h = ground arith
check_entries_sound last (some n) (e ∷ []) h = ground arith
check_entries_sound last none (e ∷ f ∷ es) h =
    ground (arith, check_entries_sound last (some e.messages.end) (f ∷ es))
check_entries_sound last (some n) (e ∷ f ∷ es) h =
    ground (arith, check_entries_sound last (some e.messages.end) (f ∷ es))

check_entries_complete :
    (last : MessageNonce) (prev : Option MessageNonce) (es : List UnrewardedRelayer)
    → last < u64_mod
    → Behind prev es
    → IsProofUpTo last es
    → check_entries last prev es ≡ ok tt
unfolding check_entries
check_entries_complete last prev [] b h p = refl
check_entries_complete last none (e ∷ []) b h p = ground arith
check_entries_complete last (some n) (e ∷ []) b h p = ground arith
check_entries_complete last none (e ∷ f ∷ es) b h p =
    ground (arith, check_entries_complete last (some e.messages.end) (f ∷ es))
check_entries_complete last (some n) (e ∷ f ∷ es) b h p =
    ground (arith, check_entries_complete last (some e.messages.end) (f ∷ es))

check_entries-ne-confirmed :
    (last : MessageNonce) (prev : Option MessageNonce) (es : List UnrewardedRelayer)
    (m : DeliveredMessages)
    → check_entries last prev es ≢ err (confirmed_messages m)
unfolding check_entries
check_entries-ne-confirmed last prev [] m h = cc
check_entries-ne-confirmed last none (e ∷ es) m h =
    ground (arith, check_entries-ne-confirmed last (some e.messages.end) es m)
check_entries-ne-confirmed last (some n) (e ∷ es) m h =
    ground (arith, check_entries-ne-confirmed last (some e.messages.end) es m)

check_entries-ne-no_new :
    (last : MessageNonce) (prev : Option MessageNonce) (es : List UnrewardedRelayer)
    → check_entries last prev es ≢ err no_new_confirmations
unfolding check_entries
check_entries-ne-no_new last prev [] h = cc
check_entries-ne-no_new last none (e ∷ es) h =
    ground (arith, check_entries-ne-no_new last (some e.messages.end) es)
check_entries-ne-no_new last (some n) (e ∷ es) h =
    ground (arith, check_entries-ne-no_new last (some e.messages.end) es)

-- A proof brings no new confirmation only if it ends where the lane is or before.
pub confirm_delivery-no_new :
    (lane : OutboundLane) (allowed last : MessageNonce) (es : List UnrewardedRelayer)
    → (confirm_delivery lane allowed last es).1 ≡ no_new_confirmations
    → last ≤ lane.lane_data.latest_received_nonce
unfolding confirm_delivery ensure_unrewarded_relayers_are_correct
confirm_delivery-no_new lane allowed last es h =
    ground (arith, check_entries-ne-no_new last none es)

confirmed-or :
    (r : ReceivalConfirmationResult)
    → ((m : DeliveredMessages) × (r ≡ confirmed_messages m))
      ⊎ ((m : DeliveredMessages) → r ≢ confirmed_messages m)
confirmed-or (confirmed_messages m) = inl (m, refl)
confirmed-or no_new_confirmations = inr (λ m e. cc)
confirmed-or failed_to_confirm_future_messages = inr (λ m e. cc)
confirmed-or empty_unrewarded_relayer_entry = inr (λ m e. cc)
confirmed-or non_consecutive_unrewarded_relayer_entries = inr (λ m e. cc)
confirmed-or (trying_to_confirm_more_messages_than_expected n) = inr (λ m e. cc)

-- When a proof that the bridged chain has received everything up to `last` confirms something.
pub record IsConfirmable (lane : OutboundLane) (allowed last : MessageNonce)
    (es : List UnrewardedRelayer) : Type 0 where
  pub new : lane.lane_data.latest_received_nonce < last
  pub sent : last ≤ lane.lane_data.latest_generated_nonce
  pub declared : last ≤ lane.lane_data.latest_received_nonce + allowed
  pub entries : IsProofUpTo last es

abbrev pub confirmed_up_to : OutboundLane → MessageNonce → OutboundLane
confirmed_up_to lane last = record lane {
  lane_data = record lane.lane_data { latest_received_nonce = last };
}

abbrev pub newly_confirmed : OutboundLane → MessageNonce → DeliveredMessages
newly_confirmed lane last = record { begin = lane.lane_data.latest_received_nonce + 1; end = last }

module _ (lane : OutboundLane) (allowed last : MessageNonce) (es : List UnrewardedRelayer)
    (fits : lane.lane_data.latest_generated_nonce < u64_mod) where
  confirm_delivery-accepts :
      IsConfirmable lane allowed last es
      → confirm_delivery lane allowed last es
        ≡ (confirmed_up_to lane last, confirmed_messages (newly_confirmed lane last))
  unfolding confirm_delivery ensure_unrewarded_relayers_are_correct
  confirm_delivery-accepts c = ground (arith, check_entries_complete last none es)

  confirm_delivery-confirmed :
      (m : DeliveredMessages)
      → (confirm_delivery lane allowed last es).1 ≡ confirmed_messages m
      → IsConfirmable lane allowed last es
  unfolding confirm_delivery ensure_unrewarded_relayers_are_correct
  confirm_delivery-confirmed m h =
      ground (arith, check_entries_sound last none es, check_entries-ne-confirmed last none es m)

  confirm_delivery-refuses :
      ((confirm_delivery lane allowed last es).0 ≡ lane) ⊎ IsConfirmable lane allowed last es
  unfolding confirm_delivery ensure_unrewarded_relayers_are_correct
  confirm_delivery-refuses = ground (arith, check_entries_sound last none es)

  -- Where the latest generated nonce is a number of 64 bits, `confirm_delivery` accepts a proof
  -- exactly when it is confirmable, and then it moves the lane's `latest_received_nonce` to the
  -- last nonce of the proof and reports the nonces in between; any other proof leaves the lane as
  -- it was and reports no messages.
  pub confirm_delivery-decides :
      (IsConfirmable lane allowed last es
        × (confirm_delivery lane allowed last es
            ≡ (confirmed_up_to lane last, confirmed_messages (newly_confirmed lane last))))
      ⊎ ((¬ IsConfirmable lane allowed last es)
          × ((confirm_delivery lane allowed last es).0 ≡ lane)
          × ((m : DeliveredMessages)
              → (confirm_delivery lane allowed last es).1 ≢ confirmed_messages m))
  confirm_delivery-decides = elim (confirmed-or (confirm_delivery lane allowed last es).1) [
    | inl (m, h) ↦ let c = confirm_delivery-confirmed m h in inl (c, confirm_delivery-accepts c)
    | inr other ↦ inr (
      λ c. other _ (ap (λ r. r.1) (confirm_delivery-accepts c)),
      elim confirm_delivery-refuses [
        | inl same ↦ same
        | inr c ↦ absurd (other _ (ap (λ r. r.1) (confirm_delivery-accepts c)))
      ],
      other,
    )
  ]
