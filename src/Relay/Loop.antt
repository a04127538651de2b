-- ===== src/Relay/Loop.antt =====
-- The loop of a race, `run` of relays/messages/src/message_race_loop.rs. Its futures are fields that
-- say what has been asked for; an event is the completion of one of them. Logging, the delays of
-- the retries and the metrics are left out.
pub mod Sound
pub mod Races
use parity_bridges_common.Common.{
  ℕ, Bool, true, false, not, ◌&&◌, ◌||◌, Option, none, some, leb, ltb, ◌==◌, if◌then◌else◌, is_some,
}
use parity_bridges_common.Common.Options.{◌>>=◌}
use parity_bridges_common.Messages.Types.{MessageNonce}
use parity_bridges_common.Relay.Race.{
  HeaderId, RangeInclusive, SourceClientNonces, TargetClientNonces, RaceState, race_state_default,
  reset_nonces_to_submit, reset_nonces_submitted,
}

-- The trait `RaceStrategy`, as far as the loop uses it.
pub record RaceStrategy (S R T Params Proof BatchTx : Type 0) : Type 0 where
  pub required_source_header_at_target : S → HeaderId → RaceState Proof BatchTx → Option HeaderId
  pub best_at_source : S → Option MessageNonce
  pub source_nonces_updated : S → HeaderId → SourceClientNonces R → S
  pub best_target_nonces_updated :
      S → TargetClientNonces T → RaceState Proof BatchTx → S × RaceState Proof BatchTx
  pub finalized_target_nonces_updated :
      S → TargetClientNonces T → RaceState Proof BatchTx → S × RaceState Proof BatchTx
  pub select_nonces_to_deliver : S → RaceState Proof BatchTx → Option (RangeInclusive × Params)

-- `ClientState` of message_lane_loop.rs.
pub record ClientState : Type 0 where
  pub best_self : HeaderId
  pub best_finalized_self : HeaderId
  pub best_finalized_peer_at_best_self : Option HeaderId

pub data FailedClient : Type 0 where
  source_failed target_failed : FailedClient

-- The result of a future, by what `process_future_result` makes of it.
pub data Reply (A : Type 0) : Type 0 where
  success : A → Reply A
  failed : Reply A
  connection_failed : Reply A

-- `TrackedTransactionStatus`; at a finalized block the target's nonces are read, if they can be.
pub data TransactionStatus (T : Type 0) : Type 0 where
  lost : TransactionStatus T
  finalized : Option (TargetClientNonces T) → TransactionStatus T

pub data Event (R T Proof BatchTx : Type 0) : Type 0 where
  race_source_updated : Option ClientState → Event R T Proof BatchTx
  race_target_updated : Option ClientState → Event R T Proof BatchTx
  source_nonces_received : Reply (HeaderId × SourceClientNonces R) → Event R T Proof BatchTx
  target_best_nonces_received : Reply (TargetClientNonces T) → Event R T Proof BatchTx
  target_finalized_nonces_received : Reply (TargetClientNonces T) → Event R T Proof BatchTx
  source_header_required : Reply (Option BatchTx) → Event R T Proof BatchTx
  proof_generated : Reply (HeaderId × RangeInclusive × Proof) → Event R T Proof BatchTx
  proof_submitted : Reply RangeInclusive → Event R T Proof BatchTx
  transaction_tracked : TransactionStatus T → Event R T Proof BatchTx
  source_back_online : Event R T Proof BatchTx
  target_back_online : Event R T Proof BatchTx

-- The variables of the loop and its futures.
pub record Loop (S Params Proof BatchTx : Type 0) : Type 0 where
  pub strategy : S
  pub race_state : RaceState Proof BatchTx
  pub source_client_is_online : Bool
  pub source_nonces_required : Bool
  pub source_required_header : Option HeaderId
  pub source_nonces : Option (HeaderId × MessageNonce)
  pub source_generate_proof : Option (HeaderId × RangeInclusive × Params × Option BatchTx)
  pub source_go_offline : Bool
  pub target_client_is_online : Bool
  pub target_best_nonces_required : Bool
  pub target_finalized_nonces_required : Bool
  pub target_batch_transaction : Option BatchTx
  pub target_require_source_header : Option HeaderId
  pub target_best_nonces : Option HeaderId
  pub target_finalized_nonces : Option HeaderId
  pub target_submit_proof : Option (Option BatchTx × HeaderId × RangeInclusive × Proof)
  pub target_tx_tracker : Bool
  pub target_go_offline : Bool

-- The loop goes on, returns an error, or an `expect` of it panics.
pub data Outcome (A : Type 0) : Type 0 where
  running : A → Outcome A
  stopped : FailedClient → Outcome A
  panicked : Outcome A

abbrev pub and_then : {A B : Type 0} → Outcome A → (A → Outcome B) → Outcome B
and_then (running a) next = next a
and_then (stopped c) next = stopped c
and_then panicked next = panicked

-- `!=` of an `Option` with `Some(&id)`.
abbrev pub differs : Option HeaderId → HeaderId → Bool
differs none id = true
differs (some old) id = not (old.number == id.number && old.hash == id.hash)

module _ {S R T Params Proof BatchTx : Type 0} (strat : RaceStrategy S R T Params Proof BatchTx)
    (required_header_id : BatchTx → HeaderId) where
  -- The state before the loop.
  abbrev pub initial : S → Loop S Params Proof BatchTx
  initial strategy = record {
    strategy = strategy;
    race_state = race_state_default;
    source_client_is_online = true;
    source_nonces_required = false;
    source_required_header = none;
    source_nonces = none;
    source_generate_proof = none;
    source_go_offline = false;
    target_client_is_online = true;
    target_best_nonces_required = false;
    target_finalized_nonces_required = false;
    target_batch_transaction = none;
    target_require_source_header = none;
    target_best_nonces = none;
    target_finalized_nonces = none;
    target_submit_proof = none;
    target_tx_tracker = false;
    target_go_offline = false;
  }

  unfoldable pub source_updated :
      Loop S Params Proof BatchTx → ClientState → Loop S Params Proof BatchTx
  source_updated s state =
      if differs s.race_state.best_finalized_source_header_id_at_source state.best_finalized_self
      then record s {
        source_nonces_required = true;
        race_state = record s.race_state {
          best_finalized_source_header_id_at_source = some state.best_finalized_self;
        };
      }
      else s

  target_best_updated : Loop S Params Proof BatchTx → ClientState → Loop S Params Proof BatchTx
  target_best_updated s state =
      if differs s.race_state.best_target_header_id state.best_self
      then record s {
        target_best_nonces_required = true;
        race_state = record s.race_state {
          best_target_header_id = some state.best_self;
          best_finalized_source_header_id_at_best_target = state.best_finalized_peer_at_best_self;
        };
      }
      else s

  target_finalized_updated : Loop S Params Proof BatchTx → ClientState → Loop S Params Proof BatchTx
  target_finalized_updated s state =
      if differs s.race_state.best_finalized_target_header_id state.best_finalized_self
      then record s {
        target_finalized_nonces_required = true;
        race_state = record s.race_state {
          best_finalized_target_header_id = some state.best_finalized_self;
        };
      }
      else s

  -- A future of the source has completed; one of the target.
  abbrev source_replied : Loop S Params Proof BatchTx → Bool → Loop S Params Proof BatchTx
  source_replied s ok = record s { source_client_is_online = ok; source_go_offline = not ok }

  abbrev target_replied : Loop S Params Proof BatchTx → Bool → Loop S Params Proof BatchTx
  target_replied s ok = record s { target_client_is_online = ok; target_go_offline = not ok }

  ask_for_header : Loop S Params Proof BatchTx → Loop S Params Proof BatchTx
  ask_for_header s = record s {
    source_required_header = s.race_state.best_finalized_source_header_id_at_best_target >>= λ best.
        strat.required_source_header_at_target s.strategy best s.race_state;
  }

  on_source_nonces :
      Loop S Params Proof BatchTx
      → Reply (HeaderId × SourceClientNonces R)
      → Outcome (Loop S Params Proof BatchTx)
  unfolding ask_for_header
  on_source_nonces s (success (at_block, nonces)) = running (
      ask_for_header (record (source_replied s true) {
        strategy = strat.source_nonces_updated s.strategy at_block nonces;
      }))
  on_source_nonces s failed = running (ask_for_header (source_replied s false))
  on_source_nonces s connection_failed = stopped source_failed

  on_best_nonces :
      Loop S Params Proof BatchTx
      → Reply (TargetClientNonces T)
      → Outcome (Loop S Params Proof BatchTx)
  on_best_nonces s (success nonces) =
      let (strategy, race) = strat.best_target_nonces_updated s.strategy nonces s.race_state in
      running (record (target_replied s true) { strategy = strategy; race_state = race })
  on_best_nonces s failed = running (target_replied s false)
  on_best_nonces s connection_failed = stopped target_failed

  on_finalized_nonces :
      Loop S Params Proof BatchTx
      → Reply (TargetClientNonces T)
      → Outcome (Loop S Params Proof BatchTx)
  on_finalized_nonces s (success nonces) =
      let (strategy, race) = strat.finalized_target_nonces_updated s.strategy nonces s.race_state in
      running (record (target_replied s true) { strategy = strategy; race_state = race })
  on_finalized_nonces s failed = running (target_replied s false)
  on_finalized_nonces s connection_failed = stopped target_failed

  on_header_required :
      Loop S Params Proof BatchTx → Reply (Option BatchTx) → Outcome (Loop S Params Proof BatchTx)
  on_header_required s (success batch) =
      running (record (target_replied s true) { target_batch_transaction = batch })
  on_header_required s failed = running (target_replied s false)
  on_header_required s connection_failed = stopped target_failed

  abbrev batch_of : Option (HeaderId × RangeInclusive × Params × Option BatchTx) → Option BatchTx
  batch_of none = none
  batch_of (some (at, nonces, params, batch)) = batch

  -- The batch transaction is the one that the proof was asked for with.
  on_proof :
      Loop S Params Proof BatchTx
      → Option BatchTx
      → Reply (HeaderId × RangeInclusive × Proof)
      → Outcome (Loop S Params Proof BatchTx)
  on_proof s batch (success proof) = running (record (source_replied s true) {
    race_state = record s.race_state { to_submit = some proof; nonces_to_submit_batch = batch };
  })
  on_proof s batch failed = stopped source_failed
  on_proof s batch connection_failed = stopped source_failed

  on_submitted :
      Loop S Params Proof BatchTx → Reply RangeInclusive → Outcome (Loop S Params Proof BatchTx)
  on_submitted s (success nonces) = running (record (target_replied s true) {
    race_state = record (reset_nonces_to_submit s.race_state) { nonces_submitted = some nonces };
    target_tx_tracker = true;
  })
  on_submitted s failed = stopped target_failed
  on_submitted s connection_failed = stopped target_failed

  -- Has the target, at the transaction's block, the nonces that were submitted?
  has_nonces : Option (TargetClientNonces T) → RangeInclusive → Bool
  has_nonces none submitted = false
  has_nonces (some nonces) submitted = leb submitted.end nonces.latest_nonce

  still_submitted : TransactionStatus T → RaceState Proof BatchTx → RaceState Proof BatchTx
  unfolding has_nonces
  still_submitted lost race = reset_nonces_submitted race
  still_submitted (finalized nonces) race = elim race.nonces_submitted [
    | none ↦ race
    | some submitted ↦ if has_nonces nonces submitted then race else reset_nonces_submitted race
  ]

  -- The arms of `select!`.
  unfoldable pub handle :
      Loop S Params Proof BatchTx → Event R T Proof BatchTx → Outcome (Loop S Params Proof BatchTx)
  unfolding target_best_updated target_finalized_updated on_source_nonces on_best_nonces
      on_finalized_nonces on_header_required on_proof on_submitted still_submitted
  handle s (race_source_updated none) = running s
  handle s (race_source_updated (some state)) = running (source_updated s state)
  handle s (race_target_updated none) = running s
  handle s (race_target_updated (some state)) =
      running (target_finalized_updated (target_best_updated s state) state)
  handle s (source_nonces_received reply) =
      on_source_nonces (record s { source_nonces_required = false; source_nonces = none }) reply
  handle s (target_best_nonces_received reply) =
      on_best_nonces (record s { target_best_nonces_required = false; target_best_nonces = none })
        reply
  handle s (target_finalized_nonces_received reply) =
      on_finalized_nonces
        (record s { target_finalized_nonces_required = false; target_finalized_nonces = none })
        reply
  handle s (source_header_required reply) =
      on_header_required
        (record s { source_required_header = none; target_require_source_header = none }) reply
  handle s (proof_generated reply) =
      on_proof (record s { source_generate_proof = none }) (batch_of s.source_generate_proof) reply
  handle s (proof_submitted reply) = on_submitted (record s { target_submit_proof = none }) reply
  handle s (transaction_tracked status) =
      running
        (record s { race_state = still_submitted status s.race_state; target_tx_tracker = false })
  handle s source_back_online =
      running (record s { source_client_is_online = true; source_go_offline = false })
  handle s target_back_online =
      running (record s { target_client_is_online = true; target_go_offline = false })

  -- When nonces are selected for a batch transaction, its header is taken to be at the target.
  expected_race_state : RaceState Proof BatchTx → Option BatchTx → RaceState Proof BatchTx
  expected_race_state race none = race
  expected_race_state race (some batch) = record race {
    best_finalized_source_header_id_at_best_target = some (required_header_id batch);
  }

  -- `select_nonces_to_deliver`.
  unfoldable pub select_nonces :
      RaceState Proof BatchTx → S → Option (HeaderId × RangeInclusive × Params)
  select_nonces race strategy = do
    best ← race.best_finalized_source_header_id_at_best_target
    selected ← strat.select_nonces_to_deliver strategy race
    some (best, selected.0, selected.1)

  ask_for_nonces :
      Loop S Params Proof BatchTx → MessageNonce → Outcome (Loop S Params Proof BatchTx)
  ask_for_nonces s best_at_source = elim s.race_state.best_finalized_source_header_id_at_source [
    | none ↦ panicked
    | some at_block ↦ running (record s {
      source_client_is_online = false;
      target_batch_transaction = none;
      source_nonces = some (at_block, best_at_source);
    })
  ]

  source_idle : Loop S Params Proof BatchTx → Loop S Params Proof BatchTx
  source_idle s = record s { target_batch_transaction = none }

  -- The block under `if source_client_is_online`.
  unfoldable pub proceed_source :
      Loop S Params Proof BatchTx → Outcome (Loop S Params Proof BatchTx)
  unfolding expected_race_state ask_for_nonces source_idle
  proceed_source s =
      if not s.source_client_is_online
      then running s
      else elim (select_nonces (expected_race_state s.race_state s.target_batch_transaction)
          s.strategy) [
            | some (at_block, nonces_range, params) ↦ running (record s {
              source_client_is_online = false;
              target_batch_transaction = none;
              source_generate_proof =
                  some (at_block, nonces_range, params, s.target_batch_transaction);
            })
            | none ↦ elim (strat.best_at_source s.strategy) [
              | none ↦ running (source_idle s)
              | some best ↦
                  if s.source_nonces_required
                  then ask_for_nonces s best
                  else running (source_idle s)
            ]
          ]

  ask_for_finalized : Loop S Params Proof BatchTx → Outcome (Loop S Params Proof BatchTx)
  ask_for_finalized s =
      if not s.target_finalized_nonces_required
      then running s
      else elim s.race_state.best_finalized_target_header_id [
        | none ↦ panicked
        | some at_block ↦
            running (record s {
              target_client_is_online = false;
              target_finalized_nonces = some at_block;
            })
      ]

  ask_for_best : Loop S Params Proof BatchTx → Outcome (Loop S Params Proof BatchTx)
  unfolding ask_for_finalized
  ask_for_best s =
      if not s.target_best_nonces_required
      then ask_for_finalized s
      else elim s.race_state.best_target_header_id [
        | none ↦ panicked
        | some at_block ↦
            running
              (record s { target_client_is_online = false; target_best_nonces = some at_block })
      ]

  -- The block under `if target_client_is_online`.
  unfoldable pub proceed_target :
      Loop S Params Proof BatchTx → Outcome (Loop S Params Proof BatchTx)
  unfolding ask_for_best
  proceed_target s =
      if not s.target_client_is_online then running s else elim s.race_state.to_submit [
        | some (at_block, nonces_range, proof) ↦ running (record s {
          target_client_is_online = false;
          target_submit_proof =
              some (s.race_state.nonces_to_submit_batch, at_block, nonces_range, proof);
        })
        | none ↦ elim s.source_required_header [
          | some header ↦ running (record s {
            target_client_is_online = false;
            target_require_source_header = some header;
          })
          | none ↦ ask_for_best s
        ]
      ]

  -- One round of the loop.
  unfoldable pub round :
      Loop S Params Proof BatchTx → Event R T Proof BatchTx → Outcome (Loop S Params Proof BatchTx)
  round s event = and_then (and_then (handle s event) proceed_source) proceed_target
