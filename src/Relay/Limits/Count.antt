-- ===== src/Relay/Limits/Count.antt =====
-- How many messages `decide` takes at most (relays/messages/src/message_race_limits.rs).
use parity_bridges_common.Common.{
  ℕ, ◌+◌, ◌≤◌, ◌<◌, ◌≡◌, inl, inr, some, [], ◌∷◌, max, u64_mod, arith, add_u64, get_elem?,
  Option-cases, refl,
}
use parity_bridges_common.Common.Options.{◌>>=◌, >>=-eq-some}
use parity_bridges_common.Relay.Race.{HeaderId, RangeInclusive}
use parity_bridges_common.Relay.Ranges.{MessageDetails, MessageDetailsMap, details_maps}
use parity_bridges_common.Relay.Limits.{
  BatchWeights, BatchReference, Selection, select_one, select_loop, new_weight, new_size,
  take_message, ready_from, range_of, empty_selection, decide,
}

module _ {W : Type 0} (w : BatchWeights W) (reference : BatchReference W) where
  -- So many messages have been taken, and the limit allows for them.
  record Counts (index : ℕ) (s : Selection W) : Type 0 where
    hard : s.hard_selected_count ≡ index
    count : s.selected_count ≡ index
    within : index ≤ reference.max_messages_in_this_batch

  module _ (fits : reference.max_messages_in_this_batch + 1 < u64_mod) where
    select_one-Counts :
        (index : ℕ) (details : MessageDetails W) (s s' : Selection W)
        → Counts index s
        → select_one w reference index details s ≡ some s'
        → Counts (index + 1) s'
    unfolding select_one
    select_one-Counts index details s s' c e =
        let (weight, _, e₁) =
          >>=-eq-some (new_weight w reference details s)
            (λ weight. new_size w reference details s >>= take_message w reference index s weight)
            e in
        let (size, _, e₂) =
          >>=-eq-some (new_size w reference details s) (take_message w reference index s weight)
            e₁ in
        ground (arith, c.count, c.within, e₂)

    select_loop-within :
        (index : ℕ) (messages : MessageDetailsMap W) (s : Selection W)
        → Counts index s
        → (select_loop w reference index messages s).hard_selected_count
          ≤ reference.max_messages_in_this_batch
    unfolding select_loop
    select_loop-within index [] s c = omega (arith, c.hard, c.within)
    select_loop-within index ((nonce, details) ∷ messages) s c =
        elim (Option-cases (select_one w reference index details s)) [
          | inl e ↦ rw (e, select_loop) (omega (arith, c.hard, c.within))
          | inr (s', e) ↦
              rw (e, select_loop)
                (select_loop-within (index + 1) messages s'
                  (select_one-Counts index details s s' c e))
        ]

    -- The range is not empty, and no longer than the limit.
    pub decide-within :
        (range : RangeInclusive)
        → range.start + reference.max_messages_in_this_batch < u64_mod
        → decide w reference ≡ some range
        → (range.start ≤ range.end)
          × (range.end + 1 ≤ range.start + reference.max_messages_in_this_batch)
    unfolding decide
    decide-within range room e =
        let after = λ (first : HeaderId × MessageDetailsMap W).
          let begin = max (add_u64 reference.best_target_nonce 1) (details_maps.begin first.1) in
          range_of begin
            (select_loop w reference 0 (ready_from reference begin) (empty_selection w)) in
        let (first, _, e₁) =
          >>=-eq-some (get_elem? reference.nonces_queue reference.nonces_queue_range.0) after e in
        let begin = max (add_u64 reference.best_target_nonce 1) (details_maps.begin first.1) in
        ground (
          arith,
          e₁,
          room,
          select_loop-within 0 (ready_from reference begin) (empty_selection w)
              (record { hard = refl; count = refl; within = omega arith }),
        )
