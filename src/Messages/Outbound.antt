-- ===== src/Messages/Outbound.antt =====
-- modules/messages/src/outbound_lane.rs: the sending end of a lane. `OutboundLane` holds what the
-- trait `OutboundLaneStorage` gives access to.
pub mod Confirm
pub mod Prune
use parity_bridges_common.Common.{
  ℕ, zero, suc, ◌+◌, ◌-◌, ◌≡◌, Bool, true, false, Option, none, some, List, [], ◌∷◌, Result, ok,
  err, ◌>>=◌, ◌>>◌, if◌then◌else◌, leb, ltb, ◌==◌, add_u64, sub_u64, checked_add_u64, update,
  ensure,
}
use parity_bridges_common.Messages.Types.{
  MessageNonce, MessagePayload, DeliveredMessages, OutboundLaneData, UnrewardedRelayer,
}
use parity_bridges_common.Messages.Weights.{WeightOps}

pub record OutboundLane : Type 0 where
  pub lane_data : OutboundLaneData
  pub stored : MessageNonce → Option MessagePayload

pub data ReceivalConfirmationResult : Type 0 where
  confirmed_messages : DeliveredMessages → ReceivalConfirmationResult
  no_new_confirmations : ReceivalConfirmationResult
  failed_to_confirm_future_messages : ReceivalConfirmationResult
  empty_unrewarded_relayer_entry : ReceivalConfirmationResult
  non_consecutive_unrewarded_relayer_entries : ReceivalConfirmationResult
  trying_to_confirm_more_messages_than_expected : MessageNonce → ReceivalConfirmationResult

unfoldable pub send_message : OutboundLane → MessagePayload → OutboundLane × MessageNonce
send_message lane payload =
    let nonce = add_u64 lane.lane_data.latest_generated_nonce 1 in
    (
      record {
        lane_data = record lane.lane_data { latest_generated_nonce = nonce };
        stored = update lane.stored nonce (some payload);
      },
      nonce,
    )

-- Does the entry follow on the one before?
follows : Option MessageNonce → MessageNonce → Bool
follows none begin = true
follows (some last) begin = elim (checked_add_u64 last 1) [
  | none ↦ false
  | some expected ↦ expected == begin
]

-- The loop of `ensure_unrewarded_relayers_are_correct`, with its variable `last_entry_end`.
check_entries :
    MessageNonce
    → Option MessageNonce
    → List UnrewardedRelayer
    → Result ReceivalConfirmationResult (Unit {0})
unfolding follows
check_entries latest_received last_entry_end [] = ok tt
check_entries latest_received last_entry_end (entry ∷ entries) =
    let rest = check_entries latest_received (some entry.messages.end) entries in
    if ltb entry.messages.end entry.messages.begin
    then err empty_unrewarded_relayer_entry
    else if follows last_entry_end entry.messages.begin
    then (if ltb latest_received entry.messages.end
        then err failed_to_confirm_future_messages
        else rest)
    else err non_consecutive_unrewarded_relayer_entries

unfoldable pub ensure_unrewarded_relayers_are_correct :
    MessageNonce → List UnrewardedRelayer → Result ReceivalConfirmationResult (Unit {0})
unfolding check_entries
ensure_unrewarded_relayers_are_correct latest_received relayers =
    check_entries latest_received none relayers

confirm_checked :
    OutboundLane
    → MessageNonce
    → Result ReceivalConfirmationResult (Unit {0})
    → OutboundLane × ReceivalConfirmationResult
confirm_checked lane latest_delivered_nonce (err e) = (lane, e)
confirm_checked lane latest_delivered_nonce (ok _) =
    let prev = lane.lane_data.latest_received_nonce in
    (
      record lane {
        lane_data = record lane.lane_data { latest_received_nonce = latest_delivered_nonce };
      },
      confirmed_messages (record { begin = add_u64 prev 1; end = latest_delivered_nonce }),
    )

unfoldable pub confirm_delivery :
    OutboundLane
    → MessageNonce
    → MessageNonce
    → List UnrewardedRelayer
    → OutboundLane × ReceivalConfirmationResult
unfolding confirm_checked
confirm_delivery lane max_allowed latest_delivered relayers =
    if leb latest_delivered received
    then (lane, no_new_confirmations)
    else if ltb lane.lane_data.latest_generated_nonce latest_delivered
    then (lane, failed_to_confirm_future_messages)
    else if ltb max_allowed (sub_u64 latest_delivered received)
    then (lane, trying_to_confirm_more_messages_than_expected (sub_u64 latest_delivered received))
    else confirm_checked lane latest_delivered
        (ensure_unrewarded_relayers_are_correct latest_delivered relayers)
  where
    received : MessageNonce
    received = lane.lane_data.latest_received_nonce

-- The variables of the loop of `prune_messages`.
pub record Pruning (W : Type 0) : Type 0 where
  pub lane : OutboundLane
  pub spent : W
  pub remaining : W

-- One round for each nonce that may be pruned is enough.
abbrev pub prune_rounds : OutboundLaneData → ℕ
prune_rounds d = suc d.latest_received_nonce - d.oldest_unpruned_nonce

module _ {W : Type 0} (w : WeightOps W) where
  unfoldable pub may_prune : Pruning W → Bool
  may_prune p =
      if w.all_gte p.remaining (w.add (w.writes 1) (w.writes 1))
      then leb p.lane.lane_data.oldest_unpruned_nonce p.lane.lane_data.latest_received_nonce
      else false

  unfoldable pub prune_one : Pruning W → Pruning W
  prune_one p =
      let d = p.lane.lane_data in
      record {
        lane = record {
          lane_data = record d { oldest_unpruned_nonce = add_u64 d.oldest_unpruned_nonce 1 };
          stored = update p.lane.stored d.oldest_unpruned_nonce none;
        };
        spent = w.add p.spent (w.writes 1);
        remaining = w.sub p.remaining (w.writes 1);
      }

  -- The `while` loop, for at most the given number of rounds.
  unfoldable pub prune_loop : ℕ → Pruning W → Pruning W
  prune_loop zero p = p
  prune_loop (suc rounds) p = elim (may_prune p) [
    | true ↦ prune_loop rounds (prune_one p)
    | false ↦ p
  ]

  -- `set_data` is skipped where nothing is spent; the removals are not undone.
  unfoldable pub prune_messages : OutboundLane → W → OutboundLane × W
  prune_messages lane remaining =
      let start : Pruning W = record { lane = lane; spent = w.zero; remaining = remaining } in
      let p = prune_loop (prune_rounds lane.lane_data) start in
      if w.is_zero p.spent
      then (record p.lane { lane_data = lane.lane_data }, p.spent)
      else (p.lane, w.add p.spent (w.writes 1))
