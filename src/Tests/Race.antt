-- ===== src/Tests/Race.antt =====
-- Rounds of the race of confirmations.
use parity_bridges_common.Common.{ℕ, ◌≡◌, refl, true, false, none, some}
use parity_bridges_common.Relay.Race.{HeaderId, RangeInclusive}
use parity_bridges_common.Relay.Ranges.{inclusive_ranges}
use parity_bridges_common.Relay.Strategy.{BasicStrategy, strategy_new}
use parity_bridges_common.Relay.Strategy
use parity_bridges_common.Relay.Loop.{
  Loop, ClientState, race_target_updated, initial, running, round, handle, proceed_source,
  proceed_target, select_nonces,
}
use parity_bridges_common.Relay.Loop.Sound.{IsSound, Goes, start, next, Run-IsSound, round-Goes}
use parity_bridges_common.Relay.Loop.Races.{confirmation_race, confirmation_laws}

abbrev header : HeaderId
header = record { number = 4; hash = 4 }

abbrev seen : ClientState
seen = record {
  best_self = header;
  best_finalized_self = header;
  best_finalized_peer_at_best_self = none;
}

abbrev before : Loop (BasicStrategy RangeInclusive) (Unit {0}) ℕ HeaderId
before = initial confirmation_race (λ h. h) strategy_new

abbrev asked : Loop (BasicStrategy RangeInclusive) (Unit {0}) ℕ HeaderId
asked = record before {
  target_client_is_online = false;
  target_best_nonces_required = true;
  target_finalized_nonces_required = true;
  target_best_nonces = some header;
  race_state = record before.race_state {
    best_target_header_id = some header;
    best_finalized_target_header_id = some header;
  };
}

-- The target's state makes the loop ask for its best nonces.
asks : round confirmation_race (λ h. h) before (race_target_updated (some seen)) ≡ running asked
unfolding round handle proceed_source proceed_target select_nonces Strategy.best_at_source
asks = refl

Run-IsSound_example : IsSound confirmation_race (λ h. h) confirmation_laws asked
Run-IsSound_example =
    Run-IsSound confirmation_race (λ h. h) confirmation_laws strategy_new asked
      (next start (race_target_updated (some seen)) tt asks)

round-Goes_example :
    Goes confirmation_race
      (λ h. h)
      confirmation_laws
      (race_target_updated (some seen))
      (round confirmation_race (λ h. h) before (race_target_updated (some seen)))
round-Goes_example =
    round-Goes confirmation_race (λ h. h) confirmation_laws before (race_target_updated (some seen))
      (Run-IsSound confirmation_race (λ h. h) confirmation_laws strategy_new before start) tt
