-- ===== src/Relay/Limits.antt =====
-- relays/messages/src/message_race_limits.rs: how many of the available messages go into one
-- delivery transaction.
pub mod Batch
pub mod Count
use parity_bridges_common.Common.{
  ℕ, zero, suc, ◌+◌, ◌-◌, ◌<◌, Bool, Option, none, some, List, [], ◌∷◌, ◌++◌, max, drop, get_elem?,
  add_u64, sub_u64, u32_mod, leb, ltb, ◌==◌, if◌then◌else◌,
}
use parity_bridges_common.Common.Options.{◌>>=◌}
use parity_bridges_common.Messages.Types.{MessageNonce}
use parity_bridges_common.Relay.Race.{HeaderId, RangeInclusive, NoncesRange}
use parity_bridges_common.Relay.Ranges.{MessageDetails, MessageDetailsMap, details_maps}
use parity_bridges_common.Relay.Strategy.{SourceRangesQueue}

-- The operations of `Weight` that the relayer uses.
pub record BatchWeights (W : Type 0) : Type 0 where
  pub zero : W
  pub max_value : W
  pub checked_add : W → W → Option W
  pub saturating_add : W → W → W
  pub all_lte : W → W → Bool

-- `u32::checked_add` and `u32::MAX`.
abbrev pub checked_add_u32 : ℕ → ℕ → Option ℕ
checked_add_u32 a b = if ltb (a + b) u32_mod then some (a + b) else none

abbrev pub u32_max : ℕ
u32_max = u32_mod - 1

-- `RelayMessagesBatchReference`, less the clients and the metrics, which are not used.
pub record BatchReference (W : Type 0) : Type 0 where
  pub max_messages_in_this_batch : MessageNonce
  pub max_messages_weight_in_single_batch : W
  pub max_messages_size_in_single_batch : ℕ
  pub best_target_nonce : MessageNonce
  pub nonces_queue : SourceRangesQueue (MessageDetailsMap W)
  pub nonces_queue_range : ℕ × ℕ

-- The variables of the loop.
pub record Selection (W : Type 0) : Type 0 where
  pub hard_selected_count : ℕ
  pub selected_weight : W
  pub selected_count : MessageNonce
  pub selected_size : ℕ

-- The first two `match`es: a sum that overflows its limit is still taken for the first message.
abbrev pub or_first : {A : Type 0} → Option A → (A → Bool) → Bool → A → Option A
or_first (some sum) fits is_first most =
    if fits sum then some sum else if is_first then some sum else none
or_first none fits is_first most = if is_first then some most else none

module _ {W : Type 0} where
  -- `flat_map` over the entries.
  abbrev pub all_messages : SourceRangesQueue (MessageDetailsMap W) → MessageDetailsMap W
  all_messages [] = []
  all_messages ((at, messages) ∷ queue) = messages ++ all_messages queue

  -- The entries from the first index to the last one, `VecDeque::range`.
  abbrev pub first_entries :
      ℕ → SourceRangesQueue (MessageDetailsMap W) → SourceRangesQueue (MessageDetailsMap W)
  first_entries n [] = []
  first_entries zero (e ∷ queue) = []
  first_entries (suc n) (e ∷ queue) = e ∷ first_entries n queue

  -- `filter` on the nonces.
  unfoldable pub from_nonce : MessageNonce → MessageDetailsMap W → MessageDetailsMap W
  from_nonce begin [] = []
  from_nonce begin ((nonce, details) ∷ messages) =
      if leb begin nonce
      then (nonce, details) ∷ from_nonce begin messages
      else from_nonce begin messages

  abbrev pub available : BatchReference W → SourceRangesQueue (MessageDetailsMap W)
  available reference =
      let (first, last) = reference.nonces_queue_range in
      first_entries (last + 1 - first) (drop first reference.nonces_queue)

  abbrev pub ready_from : BatchReference W → MessageNonce → MessageDetailsMap W
  ready_from reference begin = from_nonce begin (all_messages (available reference))

  abbrev pub range_of : MessageNonce → Selection W → Option RangeInclusive
  range_of begin s =
      if s.hard_selected_count == 0
      then none
      else some (record { start = begin; end = sub_u64 (add_u64 begin s.hard_selected_count) 1 })

module _ {W : Type 0} (w : BatchWeights W) where
  unfoldable pub new_weight : BatchReference W → MessageDetails W → Selection W → Option W
  new_weight reference details s =
      or_first (w.checked_add s.selected_weight details.dispatch_weight)
        (λ sum. w.all_lte sum reference.max_messages_weight_in_single_batch) (s.selected_count == 0)
        w.max_value

  unfoldable pub new_size : BatchReference W → MessageDetails W → Selection W → Option ℕ
  new_size reference details s =
      or_first (checked_add_u32 s.selected_size details.size)
        (λ sum. leb sum reference.max_messages_size_in_single_batch) (s.selected_count == 0) u32_max

  abbrev pub take_message : BatchReference W → ℕ → Selection W → W → ℕ → Option (Selection W)
  take_message reference index s weight size =
      let count = add_u64 s.selected_count 1 in
      if ltb reference.max_messages_in_this_batch count
      then none
      else some (record {
        hard_selected_count = index + 1;
        selected_weight = weight;
        selected_count = count;
        selected_size = size;
      })

  -- One round; `none` is a `break`.
  unfoldable pub select_one :
      BatchReference W → ℕ → MessageDetails W → Selection W → Option (Selection W)
  unfolding new_weight new_size
  select_one reference index details s = do
    weight ← new_weight reference details s
    size ← new_size reference details s
    take_message reference index s weight size

  unfoldable pub select_loop :
      BatchReference W → ℕ → MessageDetailsMap W → Selection W → Selection W
  select_loop reference index [] s = s
  select_loop reference index ((nonce, details) ∷ messages) s =
      elim (select_one reference index details s) [
        | some s' ↦ select_loop reference (index + 1) messages s'
        | none ↦ s
      ]

  abbrev pub empty_selection : Selection W
  empty_selection = record {
    hard_selected_count = 0;
    selected_weight = w.zero;
    selected_count = 0;
    selected_size = 0;
  }

  -- `MessageRaceLimits::decide`. Indexing panics out of range, which is `none`.
  unfoldable pub decide : BatchReference W → Option RangeInclusive
  decide reference = do
    first ← get_elem? reference.nonces_queue reference.nonces_queue_range.0
    let begin = max (add_u64 reference.best_target_nonce 1) (details_maps.begin first.1)
    range_of begin (select_loop reference 0 (ready_from reference begin) empty_selection)
