-- ===== src/Relay/Race.antt =====
-- The data of relays/messages/src/message_race_loop.rs: what both races of a lane, that of messages
-- and that of confirmations, know of the two chains. Block numbers and hashes are numbers.
use parity_bridges_common.Common.{ℕ, Option, none, some}
use parity_bridges_common.Messages.Types.{MessageNonce}

-- `HeaderId` of primitives/runtime/src/lib.rs.
pub record HeaderId : Type 0 where
  pub number : ℕ
  pub hash : ℕ

-- `RangeInclusive<MessageNonce>`.
pub record RangeInclusive : Type 0 where
  pub start : MessageNonce
  pub end : MessageNonce

-- The trait `NoncesRange`.
pub record NoncesRange (R : Type 0) : Type 0 where
  pub begin : R → MessageNonce
  pub end : R → MessageNonce
  pub greater_than : R → MessageNonce → Option R

pub record SourceClientNonces (R : Type 0) : Type 0 where
  pub new_nonces : R
  pub confirmed_nonce : Option MessageNonce

pub record TargetClientNonces (T : Type 0) : Type 0 where
  pub latest_nonce : MessageNonce
  pub nonces_data : T

-- `RaceStateImpl`, the one implementation of the trait `RaceState`.
pub record RaceState (Proof BatchTx : Type 0) : Type 0 where
  pub best_finalized_source_header_id_at_source : Option HeaderId
  pub best_finalized_source_header_id_at_best_target : Option HeaderId
  pub best_target_header_id : Option HeaderId
  pub best_finalized_target_header_id : Option HeaderId
  pub to_submit : Option (HeaderId × RangeInclusive × Proof)
  pub nonces_to_submit_batch : Option BatchTx
  pub nonces_submitted : Option RangeInclusive

abbrev pub range_of :
    {Proof : Type 0} → Option (HeaderId × RangeInclusive × Proof) → Option RangeInclusive
range_of none = none
range_of (some (at, nonces, proof)) = some nonces

module _ {Proof BatchTx : Type 0} where
  -- `RaceStateImpl::default`.
  abbrev pub race_state_default : RaceState Proof BatchTx
  race_state_default = record {
    best_finalized_source_header_id_at_source = none;
    best_finalized_source_header_id_at_best_target = none;
    best_target_header_id = none;
    best_finalized_target_header_id = none;
    to_submit = none;
    nonces_to_submit_batch = none;
    nonces_submitted = none;
  }

  abbrev pub nonces_to_submit : RaceState Proof BatchTx → Option RangeInclusive
  nonces_to_submit s = range_of s.to_submit

  abbrev pub reset_nonces_to_submit : RaceState Proof BatchTx → RaceState Proof BatchTx
  reset_nonces_to_submit s = record s { to_submit = none; nonces_to_submit_batch = none }

  abbrev pub reset_nonces_submitted : RaceState Proof BatchTx → RaceState Proof BatchTx
  reset_nonces_submitted s = record s { nonces_submitted = none }
