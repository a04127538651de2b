-- ===== src/Relay/Delivery.antt =====
-- `MessageDeliveryStrategy` of relays/messages/src/message_race_delivery.rs.
pub mod Selected
use parity_bridges_common.Common.{
  ℕ, ◌-◌, Bool, true, false, not, ◌&&◌, Option, none, some, List, [], ◌∷◌, ◌++◌, back, head?, max,
  min, leb, ltb, ◌==◌, if◌then◌else◌, is_some, checked_sub_u64,
}
use parity_bridges_common.Common.Options.{◌>>=◌, or}
use parity_bridges_common.Messages.Types.{MessageNonce, UnrewardedRelayersState}
use parity_bridges_common.Relay.Race.{
  HeaderId, RangeInclusive, SourceClientNonces, TargetClientNonces, RaceState,
}
use parity_bridges_common.Relay.Ranges.{MessageDetails, MessageDetailsMap, details_maps}
use parity_bridges_common.Relay.Strategy.{BasicStrategy, available_source_queue_indices}
use parity_bridges_common.Relay.Strategy
use parity_bridges_common.Relay.Limits.{BatchWeights, BatchReference, all_messages, decide}

pub record DeliveryRaceTargetNoncesData : Type 0 where
  pub confirmed_nonce : MessageNonce
  pub unrewarded_relayers : UnrewardedRelayersState

-- `MessageProofParameters` of message_lane_loop.rs.
pub record MessageProofParameters (W : Type 0) : Type 0 where
  pub outbound_state_proof_required : Bool
  pub dispatch_weight : W

-- Less the two clients and the metrics.
pub record MessageDeliveryStrategy (W : Type 0) : Type 0 where
  pub max_unrewarded_relayer_entries_at_target : MessageNonce
  pub max_unconfirmed_nonces_at_target : MessageNonce
  pub max_messages_in_single_batch : MessageNonce
  pub max_messages_weight_in_single_batch : W
  pub max_messages_size_in_single_batch : ℕ
  pub latest_confirmed_nonces_at_source : List (HeaderId × MessageNonce)
  pub target_nonces : Option (TargetClientNonces DeliveryRaceTargetNoncesData)
  pub strategy : BasicStrategy (MessageDetailsMap W)

-- `required_source_header_at_target` and its parts.
rewards_header : HeaderId → Option (HeaderId × MessageNonce) → Option HeaderId
rewards_header current_best none = none
rewards_header current_best (some (id, nonce)) =
    if not (nonce == 0) && ltb current_best.number id.number then some id else none

most_recent : Option HeaderId → Option HeaderId → Option HeaderId
most_recent (some id1) (some id2) = some (if ltb id2.number id1.number then id1 else id2)
most_recent a b = or a b

is_updated : MessageNonce → Option (HeaderId × MessageNonce) → Bool
is_updated confirmed none = true
is_updated confirmed (some (id, previous)) = not (previous == confirmed)

note_confirmed :
    List (HeaderId × MessageNonce) → HeaderId → Option MessageNonce → List (HeaderId × MessageNonce)
unfolding is_updated
note_confirmed known at none = known
note_confirmed known at (some confirmed) =
    if is_updated confirmed (back known) then known ++ (at, confirmed) ∷ [] else known

-- The `while` loop of `finalized_target_nonces_updated`.
drop_older : ℕ → List (HeaderId × MessageNonce) → List (HeaderId × MessageNonce)
drop_older oldest_to_keep [] = []
drop_older oldest_to_keep ((id, nonce) ∷ known) =
    if ltb id.number oldest_to_keep then drop_older oldest_to_keep known else (id, nonce) ∷ known

keep_known : Option HeaderId → List (HeaderId × MessageNonce) → List (HeaderId × MessageNonce)
unfolding drop_older
keep_known none known = known
keep_known (some best) known = drop_older best.number known

raise_latest :
    {T : Type 0} → MessageNonce → Option (TargetClientNonces T) → Option (TargetClientNonces T)
raise_latest nonce none = none
raise_latest nonce (some t) = some (record t { latest_nonce = max t.latest_nonce nonce })

-- The last confirmed nonce that is known at a header up to the given one.
unfoldable pub confirmed_by : ℕ → List (HeaderId × MessageNonce) → MessageNonce → MessageNonce
confirmed_by best [] otherwise = otherwise
confirmed_by best ((id, nonce) ∷ known) otherwise =
    if leb id.number best then confirmed_by best known nonce else otherwise

-- Are there too many messages at the target whose confirmation is missing?
unfoldable pub awaits_confirmations : MessageNonce → MessageNonce → MessageNonce → Bool
awaits_confirmations received confirmed_at_source most =
    elim (checked_sub_u64 received confirmed_at_source) [
      | some missing ↦ leb most missing
      | none ↦ false
    ]

-- Is the set of unrewarded relayers full, with too few rewards to be proved to make room in it?
unfoldable pub awaits_rewards :
    UnrewardedRelayersState → MessageNonce → MessageNonce → MessageNonce → Bool
awaits_rewards relayers confirmed_at_source confirmed_at_target most =
    leb most relayers.unrewarded_relayer_entries
    && ltb (confirmed_at_source - confirmed_at_target) relayers.messages_in_oldest_entry

-- The number of messages that the target has room for, once it sees the confirmed nonce.
unfoldable pub max_nonces_for : MessageNonce → MessageNonce → MessageNonce → MessageNonce
max_nonces_for received confirmed most = elim (checked_sub_u64 received confirmed) [
  | some diff ↦ most - diff
  | none ↦ 0
]

module _ {W : Type 0} (w : BatchWeights W) where
  -- `fold` over the messages of the range.
  weight_in : RangeInclusive → MessageDetailsMap W → W → W
  weight_in range [] total = total
  weight_in range ((nonce, details) ∷ messages) total = weight_in range messages (
      if leb range.start nonce && leb nonce range.end
      then w.saturating_add total details.dispatch_weight
      else total)

  unfoldable pub dispatch_weight_for_range : MessageDeliveryStrategy W → RangeInclusive → W
  unfolding weight_in
  dispatch_weight_for_range s range = weight_in range (all_messages s.strategy.source_queue) w.zero

  abbrev pub is_empty : MessageDeliveryStrategy W → Bool
  is_empty s = Strategy.is_empty s.strategy

  abbrev pub best_at_source : MessageDeliveryStrategy W → Option MessageNonce
  best_at_source s = Strategy.best_at_source s.strategy

  abbrev pub best_at_target : MessageDeliveryStrategy W → Option MessageNonce
  best_at_target s = Strategy.best_at_target s.strategy

  unfoldable pub source_nonces_updated :
      MessageDeliveryStrategy W
      → HeaderId
      → SourceClientNonces (MessageDetailsMap W)
      → MessageDeliveryStrategy W
  unfolding note_confirmed
  source_nonces_updated s at_block nonces = record s {
    latest_confirmed_nonces_at_source =
        note_confirmed s.latest_confirmed_nonces_at_source at_block nonces.confirmed_nonce;
    strategy = Strategy.source_nonces_updated s.strategy at_block nonces;
  }

  -- The part of `select_nonces_to_deliver` below its early returns.
  unfoldable pub select_from :
      MessageDeliveryStrategy W
      → MessageNonce
      → TargetClientNonces DeliveryRaceTargetNoncesData
      → MessageNonce
      → ℕ × ℕ
      → Option (RangeInclusive × MessageProofParameters W)
  select_from s best_target_nonce target at_source indices =
      let at_target = target.nonces_data.confirmed_nonce in
      let outbound_state_proof_required = ltb at_target at_source in
      let future = if outbound_state_proof_required then at_source else at_target in
      decide w (record {
        max_messages_in_this_batch =
            min (max_nonces_for target.latest_nonce future s.max_unconfirmed_nonces_at_target)
              s.max_messages_in_single_batch;
        max_messages_weight_in_single_batch = s.max_messages_weight_in_single_batch;
        max_messages_size_in_single_batch = s.max_messages_size_in_single_batch;
        best_target_nonce = best_target_nonce;
        nonces_queue = s.strategy.source_queue;
        nonces_queue_range = indices;
      })
      >>= λ range. some (
        range,
        record {
          outbound_state_proof_required = outbound_state_proof_required;
          dispatch_weight = dispatch_weight_for_range s range;
        },
      )

  module _ {Proof BatchTx : Type 0} where
    unfoldable pub required_source_header_at_target :
        MessageDeliveryStrategy W → HeaderId → RaceState Proof BatchTx → Option HeaderId
    unfolding rewards_header most_recent
    required_source_header_at_target s current_best race_state =
        if is_some race_state.nonces_submitted
        then none
        else if Strategy.is_empty s.strategy
        then none
        else most_recent (Strategy.required_source_header_at_target s.strategy current_best)
            (rewards_header current_best (back s.latest_confirmed_nonces_at_source))

    unfoldable pub best_target_nonces_updated :
        MessageDeliveryStrategy W
        → TargetClientNonces DeliveryRaceTargetNoncesData
        → RaceState Proof BatchTx
        → MessageDeliveryStrategy W × RaceState Proof BatchTx
    best_target_nonces_updated s nonces race_state =
        let (basic, after) =
          Strategy.best_target_nonces_updated s.strategy nonces.latest_nonce race_state in
        (record s { target_nonces = some nonces; strategy = basic }, after)

    unfoldable pub finalized_target_nonces_updated :
        MessageDeliveryStrategy W
        → TargetClientNonces DeliveryRaceTargetNoncesData
        → RaceState Proof BatchTx
        → MessageDeliveryStrategy W
    unfolding keep_known raise_latest
    finalized_target_nonces_updated s nonces race_state = record s {
      latest_confirmed_nonces_at_source =
          keep_known race_state.best_finalized_source_header_id_at_best_target
            s.latest_confirmed_nonces_at_source;
      target_nonces = raise_latest nonces.latest_nonce s.target_nonces;
      strategy = Strategy.finalized_target_nonces_updated s.strategy nonces.latest_nonce;
    }

    -- Its early returns, once the nonces at the target are known.
    unfoldable pub select_for_target :
        MessageDeliveryStrategy W
        → RaceState Proof BatchTx
        → MessageNonce
        → MessageNonce
        → TargetClientNonces DeliveryRaceTargetNoncesData
        → Option (RangeInclusive × MessageProofParameters W)
    unfolding select_from
    select_for_target s race_state best_target_nonce at_source target =
        if awaits_confirmations target.latest_nonce at_source s.max_unconfirmed_nonces_at_target
        then none
        else if awaits_rewards target.nonces_data.unrewarded_relayers at_source
            target.nonces_data.confirmed_nonce s.max_unrewarded_relayer_entries_at_target
        then none
        else available_source_queue_indices s.strategy race_state
          >>= select_from s best_target_nonce target at_source

    unfoldable pub select_nonces_to_deliver :
        MessageDeliveryStrategy W
        → RaceState Proof BatchTx
        → Option (RangeInclusive × MessageProofParameters W)
    unfolding select_for_target
    select_nonces_to_deliver s race_state = do
      best_target_nonce ← s.strategy.best_target_nonce
      best_header ← race_state.best_finalized_source_header_id_at_best_target
      target ← s.target_nonces
      select_for_target s race_state best_target_nonce
          (confirmed_by best_header.number s.latest_confirmed_nonces_at_source best_target_nonce)
          target
