-- ===== src/Messages/Send.antt =====
-- Sending, pruning and governance of the messages pallet (modules/messages/src/lib.rs): `send_message`,
-- `on_idle`, `set_owner` and `set_operating_mode`.
pub mod Laws
pub mod Idle
use parity_bridges_common.Common.{
  ℕ, ◌-◌, ◌+◌, ◌*◌, ◌%◌, Bool, true, false, Option, none, some, List, [], ◌∷◌, ◌++◌, Result, ok,
  err, map_err, ◌>>=◌, ◌>>◌, if◌then◌else◌, leb, ltb, ◌==◌, update, length, ensure, contains,
  get_elem?,
}
use parity_bridges_common.Runtime.{
  Owned, OwnedBridgeModuleError, Origin, normal, DispatchError, from_origin, from_pallet,
}
use parity_bridges_common.Runtime
use parity_bridges_common.Messages.Types.{
  LaneId, MessageNonce, MessagesOperatingMode, basic, rejecting_outbound_messages,
}
use parity_bridges_common.Messages.Outbound.{OutboundLane, prune_messages}
use parity_bridges_common.Messages.Outbound
use parity_bridges_common.Messages.Pallet.{
  Config, Chain, State, Error, Event, message_accepted, deposit_event, outbound_lane, save_outbound,
  not_operating_normally, inactive_outbound_lane, message_rejected_by_chain_verifier,
  message_rejected_by_lane_verifier, message_is_too_large,
}

pub record SendMessageArtifacts (W : Type 0) : Type 0 where
  pub nonce : MessageNonce
  pub weight : W

unfoldable pub ensure_normal_operating_mode : MessagesOperatingMode → Result Error (Unit {0})
ensure_normal_operating_mode (basic normal) = ok tt
ensure_normal_operating_mode (basic Runtime.halted) = err not_operating_normally
ensure_normal_operating_mode rejecting_outbound_messages = err not_operating_normally

module _ (c : Config) where
  -- The checks of `send_message`, in order.
  unfoldable pub check_message :
      Chain c → Origin → LaneId → c.OutboundPayload → Result Error (Unit {0})
  check_message s submitter lane_id payload = do
    ensure_normal_operating_mode s.owned.mode
    ensure (contains c.active_outbound_lanes lane_id) inactive_outbound_lane
    ensure (c.verify_message payload) message_rejected_by_chain_verifier
    ensure (c.verify_lane_message submitter lane_id (s.outbound_lanes lane_id) payload)
        message_rejected_by_lane_verifier
    ensure (leb (length (c.encode payload)) c.maximal_outbound_payload_size) message_is_too_large

  unfoldable pub send_message :
      Chain c
      → Origin
      → LaneId
      → c.OutboundPayload
      → Result Error (Chain c × SendMessageArtifacts c.Weight)
  send_message s submitter lane_id payload = do
    check_message s submitter lane_id payload
    let (lane, nonce) = Outbound.send_message (outbound_lane s lane_id) (c.encode payload)
    let sent = deposit_event (save_outbound s lane_id lane) (message_accepted lane_id nonce)
    ok (sent, record { nonce = nonce; weight = c.weights.reads_writes 2 2 })

  -- The active lane that `on_idle` prunes in this block; `none` is the panic of `% 0`.
  abbrev pub active_lane : ℕ → Option LaneId
  active_lane block_number =
      get_elem? c.active_outbound_lanes (block_number % length c.active_outbound_lanes)

  prune_lane : Chain c → c.Weight → LaneId → Chain c × c.Weight
  prune_lane s remaining_weight lane_id =
      let used_weight = c.weights.reads 1 in
      let (lane, spent) =
        prune_messages c.weights (outbound_lane s lane_id)
          (c.weights.sub remaining_weight used_weight) in
      (save_outbound s lane_id lane, c.weights.add used_weight spent)

  -- `none` where the code panics, as it does without an active lane.
  unfoldable pub on_idle : Chain c → ℕ → c.Weight → Option (Chain c × c.Weight)
  unfolding prune_lane
  on_idle s block_number remaining_weight =
      if c.weights.all_gte remaining_weight (c.weights.reads_writes 1 2)
      then elim (active_lane block_number) [
        | none ↦ none
        | some lane_id ↦ some (prune_lane s remaining_weight lane_id)
      ]
      else some (s, c.weights.zero)

  unfoldable pub set_owner : Chain c → Origin → Option ℕ → Result (DispatchError Error) (Chain c)
  set_owner s origin new_owner = do
    owned ← map_err from_origin (Runtime.set_owner s.owned origin new_owner)
    ok (record s { owned = owned })

  unfoldable pub set_operating_mode :
      Chain c → Origin → MessagesOperatingMode → Result (DispatchError Error) (Chain c)
  set_operating_mode s origin operating_mode = do
    owned ← map_err from_origin (Runtime.set_operating_mode s.owned origin operating_mode)
    ok (record s { owned = owned })
