-- ===== src/Messages/Protocol.antt =====
-- The two ends of a lane together (modules/messages/src/outbound_lane.rs and inbound_lane.rs), where
-- the proofs that relayers bring are of the current state of the other chain.
pub mod Order
use parity_bridges_common.Common.{
  ℕ, zero, suc, ◌+◌, ◌-◌, ◌≤◌, ◌<◌, ◌≡◌, ◌≢◌, refl, sym, ap, ◌∙◌, subst, ◌⊎◌, inl, inr, Bool, true,
  false, Option, none, some, List, [], ◌∷◌, ◌++◌, arith, length, get_elem?, length-append, u64_mod,
  same_some, add_u64, ◌==◌, if◌then◌else◌, Bool-cases,
}
use parity_bridges_common.Messages.Types.{
  MessageNonce, MessagePayload, AccountId, InboundLaneData, OutboundLaneData, last_delivered_nonce,
  MessageDispatch, ReceivalResult, dispatched, invalid_nonce, too_many_unrewarded_relayers,
  too_many_unconfirmed_messages, MessageDispatchResult,
}
use parity_bridges_common.Messages.Weights.{WeightOps}
use parity_bridges_common.Messages.Outbound.{
  OutboundLane, send_message, confirm_delivery, prune_messages,
}
use parity_bridges_common.Messages.Outbound
use parity_bridges_common.Messages.Outbound.Confirm.{confirm_delivery-decides}
use parity_bridges_common.Messages.Outbound.Prune
use parity_bridges_common.Messages.Outbound.Prune.{
  send_message-IsValid, confirm_delivery-IsValid, prune_messages-IsValid,
}
use parity_bridges_common.Messages.Inbound.{InboundLane, receive_state_update, receive_message}
use parity_bridges_common.Messages.Inbound.State
use parity_bridges_common.Messages.Inbound.State.{receive_state_update-IsValid}
use parity_bridges_common.Messages.Inbound.Receive.{
  IsAcceptable, receive_message-decides, receive_message-IsValid, receive_message-rewards,
}

-- Both ends, with the payloads that were sent and those that were dispatched, in order.
pub record Bridge (World : Type 0) : Type 0 where
  pub source : OutboundLane
  pub target : InboundLane
  pub world : World
  pub sent : List MessagePayload
  pub log : List MessagePayload

abbrev pub logged :
    {W R : Type 0} → List MessagePayload → MessagePayload → ReceivalResult W R → List MessagePayload
logged log payload (dispatched r) = log ++ payload ∷ []
logged log payload invalid_nonce = log
logged log payload too_many_unrewarded_relayers = log
logged log payload too_many_unconfirmed_messages = log

module _ {World W R : Type 0} (D : MessageDispatch World W MessagePayload R) (w : WeightOps W) where
  abbrev pub delivered :
      Bridge World → AccountId → AccountId → MessageNonce → MessagePayload → Bridge World
  delivered b relayer payer nonce payload =
      let (target, world, result) =
        receive_message D b.target b.world relayer payer nonce payload in
      record b { target = target; world = world; log = logged b.log payload result }

  abbrev pub confirmed : Bridge World → MessageNonce → Bridge World
  confirmed b allowed = record b {
    source =
        (confirm_delivery b.source allowed (last_delivered_nonce b.target.lane_data)
          b.target.lane_data.relayers).0;
  }

  -- What may happen: a message is sent, one that is stored is delivered by some relayer, whatever its
  -- nonce, the target sees the source's state, the source sees the target's, the source prunes.
  pub data Step (b : Bridge World) : Bridge World → Type 0 where
    send :
        (payload : MessagePayload)
        → b.source.lane_data.latest_generated_nonce + 3 < u64_mod
        → Step b
            (record b { source = (send_message b.source payload).0; sent = b.sent ++ payload ∷ [] })
    deliver :
        (relayer payer : AccountId) (nonce : MessageNonce) (payload : MessagePayload)
        → b.source.stored nonce ≡ some payload
        → Step b (delivered b relayer payer nonce payload)
    sync : Step b (record b { target = (receive_state_update b.target b.source.lane_data).0 })
    confirm : (allowed : MessageNonce) → Step b (confirmed b allowed)
    prune : (remaining : W) → Step b (record b { source = (prune_messages w b.source remaining).0 })

  pub data Run (b : Bridge World) : Bridge World → Type 0 where
    start : Run b b
    next : {m after : Bridge World} → Run b m → Step m after → Run b after

  -- The nonces of the two ends are in order, an unconfirmed message is stored as it was sent, and the
  -- dispatched payloads are those that were sent first.
  pub record IsFaithful (b : Bridge World) : Type 0 where
    pub source : Prune.IsValid b.source
    pub target : State.IsValid b.target
    pub room : b.source.lane_data.latest_generated_nonce + 2 < u64_mod
    pub received :
        b.source.lane_data.latest_received_nonce ≤ last_delivered_nonce b.target.lane_data
    pub delivered :
        last_delivered_nonce b.target.lane_data ≤ b.source.lane_data.latest_generated_nonce
    pub all_sent : length b.sent ≡ b.source.lane_data.latest_generated_nonce
    pub all_logged : length b.log ≡ last_delivered_nonce b.target.lane_data
    pub content :
        (n : MessageNonce)
        → b.source.lane_data.latest_received_nonce < n
        → n ≤ b.source.lane_data.latest_generated_nonce
        → b.source.stored n ≡ get_elem? b.sent (n - 1)
    pub pending : List MessagePayload
    pub in_order : b.sent ≡ b.log ++ pending
