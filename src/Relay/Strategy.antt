-- ===== src/Relay/Strategy.antt =====
-- `BasicStrategy` of relays/messages/src/message_race_strategy.rs: the queue of nonces that a race
-- has seen at its source and not yet finalized at its target.
pub mod Queue
pub mod Available
use parity_bridges_common.Common.{
  ℕ, ◌+◌, Bool, true, false, Option, none, some, List, [], ◌∷◌, ◌++◌, back, max, drop, get_elem?,
  add_u64, leb, ltb, if◌then◌else◌, is_some,
}
use parity_bridges_common.Common.Options.{◌>>=◌, or}
use parity_bridges_common.Messages.Types.{MessageNonce}
use parity_bridges_common.Relay.Race.{
  HeaderId, RangeInclusive, NoncesRange, SourceClientNonces, TargetClientNonces, RaceState,
  nonces_to_submit, reset_nonces_to_submit, reset_nonces_submitted,
}

abbrev pub SourceRangesQueue : Type 0 → Type 0
SourceRangesQueue R = List (HeaderId × R)

pub record BasicStrategy (R : Type 0) : Type 0 where
  pub source_queue : SourceRangesQueue R
  pub best_target_nonce : Option MessageNonce

-- `BasicStrategy::new`.
abbrev pub strategy_new : {R : Type 0} → BasicStrategy R
strategy_new = record { source_queue = []; best_target_nonce = none }

-- `Option::unwrap_or`.
abbrev pub nonce_or : Option MessageNonce → MessageNonce → MessageNonce
nonce_or none n = n
nonce_or (some m) n = m

-- Does a range of the race end at the nonce or below it?
abbrev pub ends_by : Option RangeInclusive → MessageNonce → Bool
ends_by none nonce = false
ends_by (some range) nonce = leb range.end nonce

abbrev later : ℕ → Option ℕ → ℕ
later index none = index
later index (some last) = last

best_of : Option MessageNonce → Option MessageNonce → Option MessageNonce
best_of (some best_in_queue) (some best_target_nonce) =
    if ltb best_target_nonce best_in_queue then some best_in_queue else some best_target_nonce
best_of none (some best_target_nonce) = some best_target_nonce
best_of best_in_queue none = none

module _ {R : Type 0} ⦃r : NoncesRange R⦄ where
  -- The first index, from `index` on, whose nonces are not all at the target.
  unfoldable pub first_undelivered : MessageNonce → ℕ → SourceRangesQueue R → Option ℕ
  first_undelivered best index [] = none
  first_undelivered best index ((at, nonces) ∷ queue) =
      if leb (r.end nonces) best then first_undelivered best (index + 1) queue else some index

  -- The last index, from `index` on, up to which the headers are known to the target.
  unfoldable pub last_finalized : HeaderId → ℕ → SourceRangesQueue R → Option ℕ
  last_finalized best index [] = none
  last_finalized best index ((at, nonces) ∷ queue) =
      if leb at.number best.number
      then some (later index (last_finalized best (index + 1) queue))
      else none

  -- `remove_le_nonces_from_source_queue`.
  unfoldable pub remove_le_nonces : MessageNonce → SourceRangesQueue R → SourceRangesQueue R
  remove_le_nonces nonce [] = []
  remove_le_nonces nonce ((at, range) ∷ queue) = elim (r.greater_than range nonce) [
    | some rest ↦ (at, rest) ∷ queue
    | none ↦ remove_le_nonces nonce queue
  ]

  abbrev pub end_of_last : Option (HeaderId × R) → Option MessageNonce
  end_of_last none = none
  end_of_last (some (at, range)) = some (r.end range)

  abbrev pub is_empty : BasicStrategy R → Bool
  is_empty s = elim s.source_queue [ [] ↦ true | entry ∷ queue ↦ false ]

  required_after : HeaderId → Option (HeaderId × R) → Option HeaderId
  required_after current_best none = none
  required_after current_best (some (h, range)) =
      if ltb current_best.number h.number then some h else none

  unfoldable pub required_source_header_at_target : BasicStrategy R → HeaderId → Option HeaderId
  unfolding required_after
  required_source_header_at_target s current_best =
      required_after current_best (back s.source_queue)

  unfoldable pub best_at_source : BasicStrategy R → Option MessageNonce
  unfolding best_of
  best_at_source s = best_of (end_of_last (back s.source_queue)) s.best_target_nonce

  abbrev pub best_at_target : BasicStrategy R → Option MessageNonce
  best_at_target s = s.best_target_nonce

  abbrev queued : HeaderId → Option R → SourceRangesQueue R
  queued at none = []
  queued at (some range) = (at, range) ∷ []

  -- The nonce after which new ones are put into the queue.
  abbrev pub best_in_queue : BasicStrategy R → MessageNonce
  best_in_queue s = nonce_or (or (end_of_last (back s.source_queue)) s.best_target_nonce) 0

  unfoldable pub source_nonces_updated :
      BasicStrategy R → HeaderId → SourceClientNonces R → BasicStrategy R
  source_nonces_updated s at_block nonces = record s {
    source_queue =
        s.source_queue ++ queued at_block (r.greater_than nonces.new_nonces (best_in_queue s));
  }

  unfoldable pub finalized_target_nonces_updated : BasicStrategy R → MessageNonce → BasicStrategy R
  finalized_target_nonces_updated s nonce = record {
    source_queue = remove_le_nonces nonce s.source_queue;
    best_target_nonce = some (max (nonce_or s.best_target_nonce nonce) nonce);
  }

  module _ {Proof BatchTx : Type 0} where
    -- Its part below the early returns.
    unfoldable pub indices_from :
        SourceRangesQueue R → RaceState Proof BatchTx → MessageNonce → Option (ℕ × ℕ)
    indices_from queue race_state best_target_nonce = do
      begin_index ← first_undelivered best_target_nonce 0 queue
      best_header_at_target ← race_state.best_finalized_source_header_id_at_best_target
      end_index ← last_finalized best_header_at_target begin_index (drop begin_index queue)
      some (begin_index, end_index)

    unfoldable pub available_source_queue_indices :
        BasicStrategy R → RaceState Proof BatchTx → Option (ℕ × ℕ)
    unfolding indices_from
    available_source_queue_indices s race_state = do
      best_target_nonce ← s.best_target_nonce
      if is_some (nonces_to_submit race_state)
          then none
          else if is_some race_state.nonces_submitted
          then none
          else indices_from s.source_queue race_state best_target_nonce

    unfoldable pub best_target_nonces_updated :
        BasicStrategy R
        → MessageNonce
        → RaceState Proof BatchTx
        → BasicStrategy R × RaceState Proof BatchTx
    best_target_nonces_updated s nonce race_state =
        let selected =
          if ends_by (nonces_to_submit race_state) nonce
          then reset_nonces_to_submit race_state
          else race_state in
        let submitted =
          if ends_by selected.nonces_submitted nonce
          then reset_nonces_submitted selected
          else selected in
        (record s { best_target_nonce = some nonce }, submitted)

    -- The ends of the available part of the queue; indexing panics out of range, which is `none`.
    unfoldable pub select_nonces_to_deliver :
        BasicStrategy R → RaceState Proof BatchTx → Option RangeInclusive
    select_nonces_to_deliver s race_state = do
      available ← available_source_queue_indices s race_state
      best ← s.best_target_nonce
      first ← get_elem? s.source_queue available.0
      last ← get_elem? s.source_queue available.1
      some (record { start = max (add_u64 best 1) (r.begin first.1); end = r.end last.1 })
