-- ===== src/Tests/Pallet.antt =====
-- Runs of the messages pallet's calls.
use parity_bridges_common.Common.{
  ℕ, ◌+◌, ◌≤◌, ◌<◌, ◌≡◌, refl, ◌⊎◌, true, false, some, List, [], ◌∷◌, ok, err, is_ok-ok,
  is_some-some, arith, same_some, subst,
}
use parity_bridges_common.Runtime.{root, signed, ensure_not_halted}
use parity_bridges_common.Messages.Outbound.{
  confirm_delivery, ensure_unrewarded_relayers_are_correct,
}
use parity_bridges_common.Messages.Types.{
  LaneId, MessageNonce, InboundLaneData, UnrewardedRelayersState, ProvedLaneMessages,
  DispatchMessage, is_halted, last_delivered_nonce, total_unrewarded_messages,
}
use parity_bridges_common.Messages.Pallet.{Chain, Error, Message}
use parity_bridges_common.Messages.Send.{SendMessageArtifacts, send_message, on_idle}
use parity_bridges_common.Messages.Send.Laws.{
  OutboundLanesAreValid, IsSendable, Sent, send_message-Sent,
}
use parity_bridges_common.Messages.Send.Idle.{on_idle-valid}
use parity_bridges_common.Messages.Confirm.{
  is_declared, check_confirmation, settle, receive_messages_delivery_proof,
}
use parity_bridges_common.Messages.Confirm.Laws.{Settled, receive_messages_delivery_proof-Settled}
use parity_bridges_common.Messages.Receive.{
  ProofLoop, DispatchMessages, start_proof, check_delivery, receive_lane, receive_messages_proof,
  verify_and_decode_messages_proof,
}
use parity_bridges_common.Messages.Receive.Lanes.{
  LanesAreValid, LaneOutcome, Accepted, last_at, message_count, receive_lane-outcome,
  receive_messages_proof-Accepted,
}
use parity_bridges_common.Tests.Runtime.{runtime, metered, chain, entry, two_sent}
use parity_bridges_common.Tests.Inbound.{lane-IsValid}

sending_side_is_valid : OutboundLanesAreValid chain
sending_side_is_valid id = record {
  pruned = omega arith;
  received = omega arith;
  fits = omega arith;
  queued = λ n. ground arith;
}

receiving_side_is_valid : LanesAreValid runtime chain
receiving_side_is_valid id = record {
  queue = lane-IsValid.queue;
  entries = lane-IsValid.entries;
  unconfirmed = lane-IsValid.unconfirmed;
  fits = lane-IsValid.fits;
}

send_message-Sent_example :
    (IsSendable runtime chain root 0 (5 ∷ [])
      × (after : Chain runtime) × (sent : SendMessageArtifacts ℕ) × (send_message runtime chain root
            0
            (5 ∷ [])
          ≡ ok (after, sent))
      × Sent runtime chain after 0 (5 ∷ []) sent.nonce)
    ⊎ ((¬ IsSendable runtime chain root 0 (5 ∷ []))
        × (e : Error) × (send_message runtime chain root 0 (5 ∷ []) ≡ err e))
send_message-Sent_example =
    send_message-Sent runtime chain root 0 (5 ∷ []) sending_side_is_valid (omega arith)

idle_run : (r : Chain runtime × ℕ) × (on_idle runtime chain 4 10 ≡ some r)
unfolding on_idle
idle_run = is_some-some (on_idle runtime chain 4 10) refl

metered_pays : (spent : ℕ) → metered.is_zero (metered.add spent (metered.writes 1)) ≡ false
metered_pays spent = ground arith

on_idle-valid_example :
    OutboundLanesAreValid idle_run.0.0
    × ((j : LaneId) (n : MessageNonce)
        → (chain.outbound_lanes j).latest_received_nonce < n
        → idle_run.0.0.outbound_messages j n ≡ chain.outbound_messages j n)
on_idle-valid_example =
    on_idle-valid runtime metered_pays chain 4 10 {after = idle_run.0.0} {used = idle_run.0.1}
      idle_run.1 sending_side_is_valid

-- The other chain has received both messages.
abbrev delivery : LaneId × InboundLaneData
delivery = (0, record { relayers = entry 7 1 2 ∷ []; last_confirmed_nonce = 0 })

abbrev declared : UnrewardedRelayersState
declared = record {
  unrewarded_relayer_entries = 1;
  messages_in_oldest_entry = 2;
  total_messages = 2;
  last_delivered_nonce = 2;
}

delivery_run :
    (after : Chain runtime) × (receive_messages_delivery_proof runtime chain
        (signed 7)
        delivery
        declared
      ≡ ok after)
unfolding receive_messages_delivery_proof check_confirmation settle ensure_not_halted
    confirm_delivery ensure_unrewarded_relayers_are_correct last_delivered_nonce is_declared
    total_unrewarded_messages
delivery_run =
    is_ok-ok (receive_messages_delivery_proof runtime chain (signed 7) delivery declared) refl

receive_messages_delivery_proof-Settled_example :
    (who : ℕ) × (id : LaneId) × (d : InboundLaneData) × (runtime.verify_messages_delivery_proof
        delivery
      ≡ some (id, d))
    × (is_halted chain.owned.mode ≡ false)
    × (is_declared d declared ≡ true)
    × Settled runtime chain delivery_run.0 who id d 2
receive_messages_delivery_proof-Settled_example =
    receive_messages_delivery_proof-Settled runtime chain (signed 7) delivery declared
      {after = delivery_run.0} (λ id. omega arith) delivery_run.1

-- The fourth and the fifth message of lane 0, with the confirmation of the first.
abbrev message : ℕ → Message
message n = record { key = record { lane_id = 0; nonce = n }; payload = n ∷ [] }

abbrev proof : List (LaneId × ProvedLaneMessages Message)
proof =
    (
      0,
      record {
        lane_state = some (record two_sent { latest_generated_nonce = 5 });
        messages = message 4 ∷ message 5 ∷ [];
      },
    )
    ∷ []

abbrev proved : ProvedLaneMessages (DispatchMessage ℕ)
proved = record {
  lane_state = some (record two_sent { latest_generated_nonce = 5 });
  messages =
      record { key = (message 4).key; message_data = 1 }
      ∷ record { key = (message 5).key; message_data = 1 }
      ∷ [];
}

abbrev begin : ProofLoop runtime
begin = start_proof runtime chain proof 2 10

last_at_chain : (id : LaneId) → last_at runtime chain id ≡ 3
unfolding last_delivered_nonce
last_at_chain id = refl

receive_lane-outcome_example :
    (k : ℕ) × (k ≤ 2)
    × LaneOutcome runtime 9 5 begin (receive_lane runtime 9 5 begin (0, proved)) 0 proved.messages k
receive_lane-outcome_example =
    receive_lane-outcome runtime 9 5 begin 0 proved receiving_side_is_valid
      (omega (arith, last_at_chain 0)) (omega arith)

proof_run :
    (r : Chain runtime × ℕ) × (receive_messages_proof runtime chain (signed 5) 9 proof 2 10 ≡ ok r)
unfolding receive_messages_proof check_delivery ensure_not_halted verify_and_decode_messages_proof
proof_run = is_ok-ok (receive_messages_proof runtime chain (signed 5) 9 proof 2 10) refl

proof_fits :
    (lanes : DispatchMessages runtime) (id : LaneId)
    → verify_and_decode_messages_proof runtime proof 2 ≡ some lanes
    → last_at runtime chain id + message_count runtime lanes + 1 < 18446744073709551616
unfolding verify_and_decode_messages_proof last_delivered_nonce
proof_fits lanes id e =
    subst (λ l. 3 + message_count runtime l + 1 < 18446744073709551616) (same_some refl e)
      (omega arith)

receive_messages_proof-Accepted_example :
    (lanes : DispatchMessages runtime) × (verify_and_decode_messages_proof runtime proof 2
      ≡ some lanes)
    × (2 ≤ 8)
    × (is_halted chain.owned.mode ≡ false)
    × Accepted runtime chain proof_run.0.0 lanes
receive_messages_proof-Accepted_example =
    receive_messages_proof-Accepted runtime chain (signed 5) 9 proof 2 10 {after = proof_run.0.0}
      {actual = proof_run.0.1} proof_run.1 receiving_side_is_valid proof_fits
