-- ===== src/Relay/Loop/Races.antt =====
-- The two races of a lane as instances of the loop: the delivery of messages
-- (relays/messages/src/message_race_delivery.rs) and that of confirmations
-- (message_race_receiving.rs).
use parity_bridges_common.Common.{
  ℕ, ◌≡◌, refl, inr, Option, none, some, max, add_u64, get_elem?, arith,
}
use parity_bridges_common.Common.Options.{◌>>=◌, >>=-eq-some}
use parity_bridges_common.Messages.Types.{MessageNonce}
use parity_bridges_common.Relay.Race.{
  HeaderId, RangeInclusive, TargetClientNonces, RaceState, NoncesRange, range_of,
}
use parity_bridges_common.Relay.Ranges.{MessageDetailsMap, inclusive_ranges, details_maps}
use parity_bridges_common.Relay.Strategy
use parity_bridges_common.Relay.Strategy.{BasicStrategy}
use parity_bridges_common.Relay.Strategy.Available.{available_source_queue_indices-IsAvailable}
use parity_bridges_common.Relay.Limits.{BatchWeights}
use parity_bridges_common.Relay.Delivery
use parity_bridges_common.Relay.Delivery.{
  MessageDeliveryStrategy, DeliveryRaceTargetNoncesData, MessageProofParameters,
}
use parity_bridges_common.Relay.Delivery.Selected.{select_nonces_to_deliver-Selected}
use parity_bridges_common.Relay.Loop.{RaceStrategy}
use parity_bridges_common.Relay.Loop.Sound.{Resets, StrategyLaws}

range_of-none :
    {Proof : Type 0} (o : Option (HeaderId × RangeInclusive × Proof)) → range_of o ≡ none → o ≡ none
range_of-none none e = refl
range_of-none (some (at, nonces, proof)) e = cc

unchanged-Resets : {Proof BatchTx : Type 0} (race : RaceState Proof BatchTx) → Resets race race
unchanged-Resets race = record {
  at_source = refl;
  best_target = refl;
  finalized_target = refl;
  selected = inr refl;
  submitted = inr refl;
}

module _ {R : Type 0} ⦃r : NoncesRange R⦄ {Proof BatchTx : Type 0} where
  available_idle :
      (s : BasicStrategy R) (race : RaceState Proof BatchTx) (indices : ℕ × ℕ)
      → Strategy.available_source_queue_indices s race ≡ some indices
      → (race.to_submit ≡ none) × (race.nonces_submitted ≡ none)
  available_idle s race indices e =
      let a = available_source_queue_indices-IsAvailable s race indices e in
      (range_of-none race.to_submit a.idle, a.settled)

  basic_best-Resets :
      (s : BasicStrategy R) (nonce : MessageNonce) (race : RaceState Proof BatchTx)
      → Resets race (Strategy.best_target_nonces_updated s nonce race).1
  unfolding Strategy.best_target_nonces_updated
  basic_best-Resets s nonce race = ground arith

module _ {Proof BatchTx : Type 0} where
  abbrev pub confirmation_race :
      RaceStrategy (BasicStrategy RangeInclusive) RangeInclusive (Unit {0}) (Unit {0}) Proof BatchTx
  confirmation_race = record {
    required_source_header_at_target =
        λ s best race. Strategy.required_source_header_at_target s best;
    best_at_source = Strategy.best_at_source;
    source_nonces_updated = Strategy.source_nonces_updated;
    best_target_nonces_updated =
        λ s nonces race. Strategy.best_target_nonces_updated s nonces.latest_nonce race;
    finalized_target_nonces_updated =
        λ s nonces race. (Strategy.finalized_target_nonces_updated s nonces.latest_nonce, race);
    select_nonces_to_deliver =
        λ s race. Strategy.select_nonces_to_deliver s race >>= λ range. some (range, tt);
  }

  confirmation_idle :
      (s : BasicStrategy RangeInclusive) (race : RaceState Proof BatchTx)
      (selected : RangeInclusive × Unit {0})
      → confirmation_race.select_nonces_to_deliver s race ≡ some selected
      → (race.to_submit ≡ none) × (race.nonces_submitted ≡ none)
  unfolding Strategy.select_nonces_to_deliver
  confirmation_idle s race selected e =
      let (range, selects, _) =
        >>=-eq-some (Strategy.select_nonces_to_deliver s race)
          (λ (range : RangeInclusive). some (range, tt)) e in
      let rest = λ (available : ℕ × ℕ). s.best_target_nonce >>= λ (best : MessageNonce).
      get_elem? s.source_queue available.0 >>= λ (first : HeaderId × RangeInclusive).
      get_elem? s.source_queue available.1 >>= λ (last : HeaderId × RangeInclusive).
      some (record { start = max (add_u64 best 1) first.1.start; end = last.1.end }) in
      let (indices, available, _) =
        >>=-eq-some (Strategy.available_source_queue_indices s race) rest selects in
      available_idle s race indices available

  pub confirmation_laws : StrategyLaws confirmation_race
  confirmation_laws = record {
    best_resets = λ s nonces race. basic_best-Resets s nonces.latest_nonce race;
    finalized_resets = λ s nonces race. unchanged-Resets race;
    selects_idle = confirmation_idle;
  }

  module _ {W : Type 0} (w : BatchWeights W) where
    abbrev pub delivery_race :
        RaceStrategy
          (MessageDeliveryStrategy W)
          (MessageDetailsMap W)
          DeliveryRaceTargetNoncesData
          (MessageProofParameters W)
          Proof
          BatchTx
    delivery_race = record {
      required_source_header_at_target = Delivery.required_source_header_at_target w;
      best_at_source = Delivery.best_at_source w;
      source_nonces_updated = Delivery.source_nonces_updated w;
      best_target_nonces_updated = Delivery.best_target_nonces_updated w;
      finalized_target_nonces_updated =
          λ s nonces race. (Delivery.finalized_target_nonces_updated w s nonces race, race);
      select_nonces_to_deliver = Delivery.select_nonces_to_deliver w;
    }

    delivery_best-Resets :
        (s : MessageDeliveryStrategy W) (nonces : TargetClientNonces DeliveryRaceTargetNoncesData)
        (race : RaceState Proof BatchTx)
        → Resets race (delivery_race.best_target_nonces_updated s nonces race).1
    unfolding Delivery.best_target_nonces_updated
    delivery_best-Resets s nonces race = basic_best-Resets s.strategy nonces.latest_nonce race

    delivery_idle :
        (s : MessageDeliveryStrategy W) (race : RaceState Proof BatchTx)
        (selected : RangeInclusive × MessageProofParameters W)
        → delivery_race.select_nonces_to_deliver s race ≡ some selected
        → (race.to_submit ≡ none) × (race.nonces_submitted ≡ none)
    delivery_idle s race (range, params) e =
        let sel = select_nonces_to_deliver-Selected w s race range params e in
        available_idle s.strategy race sel.indices sel.available

    pub delivery_laws : StrategyLaws delivery_race
    delivery_laws = record {
      best_resets = delivery_best-Resets;
      finalized_resets = λ s nonces race. unchanged-Resets race;
      selects_idle = delivery_idle;
    }
