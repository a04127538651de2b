-- ===== src/Tests/Relay.antt =====
-- Runs of the relayer of messages, against the lane of the tests of the receiving end.
use parity_bridges_common.Common.{
  add_u64, sub_u64, ℕ, ◌+◌, ◌≡◌, refl, ap, inl, true, ◌&&◌, ◌||◌, none, some, [], ◌∷◌, ◌++◌, length,
  min, leb, ltb, ◌==◌, if◌then◌else◌, arith,
}
use parity_bridges_common.Messages.Types.{MessageNonce, last_delivered_nonce}
use parity_bridges_common.Messages.Inbound.{receive_state_update, drop_confirmed, trim_front}
use parity_bridges_common.Relay.Race.{
  HeaderId, RangeInclusive, SourceClientNonces, RaceState, race_state_default,
}
use parity_bridges_common.Relay.Ranges.{
  MessageDetails, MessageDetailsMap, details_maps, inclusive_ranges,
}
use parity_bridges_common.Relay.Ranges.Laws.{details_laws}
use parity_bridges_common.Relay.Strategy.{
  BasicStrategy, available_source_queue_indices, first_undelivered, last_finalized,
  source_nonces_updated,
}
use parity_bridges_common.Relay.Strategy.Queue.{
  IsQueue, holds, covers, source_nonces_updated-IsQueue,
}
use parity_bridges_common.Relay.Strategy.Available.{
  IsAvailable, available_source_queue_indices-IsAvailable,
}
use parity_bridges_common.Relay.Limits.{
  BatchWeights, BatchReference, ready_from, select_loop, select_one, from_nonce, decide,
}
use parity_bridges_common.Relay.Limits.Batch.{Fits, IsFull, begin_of, decide-batch}
use parity_bridges_common.Relay.Delivery.{
  MessageDeliveryStrategy, MessageProofParameters, confirmed_by, awaits_confirmations,
  awaits_rewards, max_nonces_for, dispatch_weight_for_range, select_from, select_nonces_to_deliver,
}
use parity_bridges_common.Relay.Target.{target_nonces, unrewarded_relayers_state}
use parity_bridges_common.Relay.Target.Accepted.{
  IsInSync, HasRoom, Takes, updated, select_nonces_to_deliver-Takes,
}
use parity_bridges_common.Tests.Inbound.{lane, confirmation, lane-IsValid}

abbrev weights : BatchWeights ℕ
weights = record {
  zero = 0;
  max_value = 1000;
  checked_add = λ a b. some (a + b);
  saturating_add = λ a b. min 1000 (a + b);
  all_lte = λ a b. leb a b;
}

abbrev at : ℕ → HeaderId
at n = record { number = n; hash = n }

abbrev light : MessageDetails ℕ
light = record { dispatch_weight = 10; size = 5; reward = 1 }

-- Messages 4 and 5 are known at block 5, message 6 at block 9.
abbrev strategy : BasicStrategy (MessageDetailsMap ℕ)
strategy = record {
  source_queue = (at 5, (4, light) ∷ (5, light) ∷ []) ∷ (at 9, (6, light) ∷ []) ∷ [];
  best_target_nonce = some 3;
}

abbrev race : RaceState ℕ ℕ
race = record race_state_default { best_finalized_source_header_id_at_best_target = some (at 5) }

first_entry : available_source_queue_indices strategy race ≡ some (0, 0)
unfolding available_source_queue_indices first_undelivered last_finalized
first_entry = refl

available_source_queue_indices-IsAvailable_example : IsAvailable strategy race (0, 0)
available_source_queue_indices-IsAvailable_example =
    available_source_queue_indices-IsAvailable strategy race (0, 0) first_entry

abbrev new_nonces : SourceClientNonces (MessageDetailsMap ℕ)
new_nonces = record { new_nonces = (6, light) ∷ (7, light) ∷ []; confirmed_nonce = some 1 }

source_nonces_updated-IsQueue_example :
    IsQueue details_laws 3 (source_nonces_updated strategy (at 10) new_nonces).source_queue
    × ((m : MessageNonce)
        → holds details_laws (source_nonces_updated strategy (at 10) new_nonces).source_queue m ≡ (
            holds details_laws strategy.source_queue m
            || (ltb 6 m && covers details_laws new_nonces.new_nonces m)))
source_nonces_updated-IsQueue_example =
    source_nonces_updated-IsQueue details_laws strategy (at 10) new_nonces 3 (omega arith)
      (refl, tt) (omega arith) ((refl, tt), omega arith, (tt, omega arith, tt))

abbrev batch : BatchReference ℕ
batch = record {
  max_messages_in_this_batch = 6;
  max_messages_weight_in_single_batch = 15;
  max_messages_size_in_single_batch = 100;
  best_target_nonce = 3;
  nonces_queue = strategy.source_queue;
  nonces_queue_range = (0, 0);
}

decide-batch_example :
    let begin = begin_of weights batch (at 5, (4, light) ∷ (5, light) ∷ []) in
    (taken rest : MessageDetailsMap ℕ) × (ready_from batch begin ≡ taken ++ rest)
    × Fits weights batch taken
    × IsFull weights batch taken rest
    × (decide weights batch ≡ (
        if length taken == 0
        then none
        else some (record { start = begin; end = sub_u64 (add_u64 begin (length taken)) 1 })))
unfolding from_nonce
decide-batch_example =
    decide-batch weights batch (at 5, (4, light) ∷ (5, light) ∷ []) (λ a. ap some (omega arith))
      (omega arith) refl (omega arith) (omega arith, (omega arith, tt))

-- A single message respects the limit of weight.
one_message : decide weights batch ≡ some (record { start = 4; end = 4 })
unfolding decide select_loop select_one from_nonce
one_message = refl

abbrev delivery : MessageDeliveryStrategy ℕ
delivery = record {
  max_unrewarded_relayer_entries_at_target = 4;
  max_unconfirmed_nonces_at_target = 8;
  max_messages_in_single_batch = 10;
  max_messages_weight_in_single_batch = 100;
  max_messages_size_in_single_batch = 100;
  latest_confirmed_nonces_at_source = (at 4, 1) ∷ (at 8, 2) ∷ [];
  target_nonces = some (target_nonces (some lane.lane_data));
  strategy = strategy;
}

abbrev both : RangeInclusive
both = record { start = 4; end = 5 }

abbrev with_state : MessageProofParameters ℕ
with_state = record { outbound_state_proof_required = true; dispatch_weight = 20 }

delivery-IsInSync : IsInSync delivery race lane confirmation
unfolding last_delivered_nonce confirmed_by
delivery-IsInSync = record {
  header = at 5;
  header_known = refl;
  target_known = refl;
  best_known = refl;
  confirmed = refl;
  seen = omega arith;
  some_entries = omega arith;
  entries = omega arith;
  unconfirmed = omega arith;
  word = omega arith;
}

both_selected : select_nonces_to_deliver weights delivery race ≡ some (both, with_state)
unfolding select_nonces_to_deliver select_from confirmed_by awaits_confirmations awaits_rewards
    max_nonces_for dispatch_weight_for_range available_source_queue_indices first_undelivered
    last_finalized decide select_loop select_one from_nonce target_nonces unrewarded_relayers_state
    last_delivered_nonce
both_selected = refl

starts_next : both.start ≡ last_delivered_nonce lane.lane_data + 1
unfolding last_delivered_nonce
starts_next = refl

lane-HasRoom : HasRoom (updated lane confirmation true) 9
unfolding receive_state_update last_delivered_nonce drop_confirmed trim_front
lane-HasRoom = inl (omega arith)

select_nonces_to_deliver-Takes_example : Takes (updated lane confirmation true) 9 4 2
select_nonces_to_deliver-Takes_example =
    select_nonces_to_deliver-Takes weights delivery race lane confirmation both with_state
      delivery-IsInSync lane-IsValid both_selected (omega arith) 9 starts_next lane-HasRoom
