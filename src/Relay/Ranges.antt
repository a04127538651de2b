-- ===== src/Relay/Ranges.antt =====
-- The two implementations of `NoncesRange`: `RangeInclusive<MessageNonce>` of
-- relays/messages/src/message_race_receiving.rs and `MessageDetailsMap` of message_race_delivery.rs.
pub mod Laws
use parity_bridges_common.Common.{
  ℕ, Bool, true, false, Option, none, some, List, [], ◌∷◌, head?, back, max, add_u64, ltb,
  if◌then◌else◌,
}
use parity_bridges_common.Messages.Types.{MessageNonce}
use parity_bridges_common.Relay.Race.{NoncesRange, RangeInclusive}

unfoldable pub range_greater_than : RangeInclusive → MessageNonce → Option RangeInclusive
range_greater_than range nonce =
    let next_nonce = add_u64 nonce 1 in
    if ltb range.end next_nonce
    then none
    else some (record { start = max range.start next_nonce; end = range.end })

instance abbrev pub inclusive_ranges : NoncesRange RangeInclusive
inclusive_ranges = record {
  begin = λ range. range.start;
  end = λ range. range.end;
  greater_than = range_greater_than;
}

-- `MessageDetails` of message_lane_loop.rs.
pub record MessageDetails (W : Type 0) : Type 0 where
  pub dispatch_weight : W
  pub size : ℕ
  pub reward : ℕ

-- A `BTreeMap`: its entries, in the order of the nonces.
abbrev pub MessageDetailsMap : Type 0 → Type 0
MessageDetailsMap W = List (MessageNonce × MessageDetails W)

module _ {W : Type 0} where
  -- `unwrap_or_default`.
  abbrev key_or_default : Option (MessageNonce × MessageDetails W) → MessageNonce
  key_or_default none = 0
  key_or_default (some (nonce, details)) = nonce

  -- `BTreeMap::split_off`.
  unfoldable pub split_off : MessageDetailsMap W → MessageNonce → MessageDetailsMap W
  split_off [] nonce = []
  split_off ((k, details) ∷ map) nonce =
      if ltb k nonce then split_off map nonce else (k, details) ∷ map

  abbrev some_if_any : MessageDetailsMap W → Option (MessageDetailsMap W)
  some_if_any [] = none
  some_if_any (m ∷ map) = some (m ∷ map)

  unfoldable pub map_greater_than :
      MessageDetailsMap W → MessageNonce → Option (MessageDetailsMap W)
  map_greater_than map nonce = some_if_any (split_off map (add_u64 nonce 1))

  instance abbrev pub details_maps : NoncesRange (MessageDetailsMap W)
  details_maps = record {
    begin = λ map. key_or_default (head? map);
    end = λ map. key_or_default (back map);
    greater_than = map_greater_than;
  }
