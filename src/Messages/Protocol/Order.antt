-- ===== src/Messages/Protocol/Order.antt =====
-- What is sent over a lane and what is dispatched at its other end (outbound_lane.rs and inbound_lane.rs
-- of modules/messages/src).
use parity_bridges_common.Common.{
  ◌+◌, ◌-◌, ◌≤◌, ◌<◌, ◌≡◌, ◌≢◌, refl, sym, ap, ◌∙◌, inl, inr, false, some, List, [], ◌∷◌, ◌++◌,
  arith, length, get_elem?, length-append, u64_mod, append_assoc, get_elem?-append, get_elem?-next,
  split_first, add_u64, ◌==◌, Bool-cases,
}
use parity_bridges_common.Messages.Types.{
  MessageNonce, MessagePayload, AccountId, last_delivered_nonce, MessageDispatch, ReceivalResult,
  dispatched, invalid_nonce, too_many_unrewarded_relayers, too_many_unconfirmed_messages,
  MessageDispatchResult,
}
use parity_bridges_common.Messages.Weights.{WeightOps}
use parity_bridges_common.Messages.Outbound.{send_message, prune_messages}
use parity_bridges_common.Messages.Outbound.Confirm.{confirm_delivery-decides}
use parity_bridges_common.Messages.Outbound.Prune.{
  send_message-IsValid, confirm_delivery-IsValid, prune_messages-IsValid,
}
use parity_bridges_common.Messages.Inbound.{receive_state_update, receive_message}
use parity_bridges_common.Messages.Inbound.State.{receive_state_update-IsValid}
use parity_bridges_common.Messages.Inbound.Receive.{
  IsAcceptable, receive_message-decides, receive_message-IsValid, receive_message-rewards,
}
use parity_bridges_common.Messages.Protocol.{
  Bridge, logged, delivered, confirmed, Step, send, deliver, sync, confirm, prune, Run, start, next,
  IsFaithful,
}

module _ {World W R : Type 0} (D : MessageDispatch World W MessagePayload R) (w : WeightOps W) where
  logged_same :
      (log : List MessagePayload) (payload : MessagePayload) (r : ReceivalResult W R)
      → ((x : MessageDispatchResult W R) → r ≢ dispatched x)
      → logged log payload r ≡ log
  logged_same log payload (dispatched x) h = absurd (h x refl)
  logged_same log payload invalid_nonce h = refl
  logged_same log payload too_many_unrewarded_relayers h = refl
  logged_same log payload too_many_unconfirmed_messages h = refl

  send_content :
      (b : Bridge World) (payload : MessagePayload)
      → b.source.lane_data.latest_generated_nonce + 3 < u64_mod
      → IsFaithful D w b
      → (n : MessageNonce) → b.source.lane_data.latest_received_nonce < n
      → n ≤ (send_message b.source payload).0.lane_data.latest_generated_nonce
      → (send_message b.source payload).0.stored n ≡ get_elem? (b.sent ++ payload ∷ []) (n - 1)
  unfolding send_message
  send_content b payload room f n new old =
      elim (Bool-cases (add_u64 b.source.lane_data.latest_generated_nonce 1 == n)) [
        | inl own ↦
            rw own
              (sym (get_elem?-next b.sent (payload ∷ []) (n - 1) (ground (arith, own, f.all_sent))))
        | inr other ↦
            let below : n ≤ b.source.lane_data.latest_generated_nonce =
              ground (arith, other, old) in
            rw other (
              f.content n new below
              ∙ sym (
                  get_elem?-append b.sent (payload ∷ []) (n - 1)
                    (omega (arith, f.all_sent, below, new))))
      ]

  send-IsFaithful :
      (b : Bridge World) (payload : MessagePayload)
      → b.source.lane_data.latest_generated_nonce + 3 < u64_mod
      → IsFaithful D w b
      → IsFaithful D w
          (record b { source = (send_message b.source payload).0; sent = b.sent ++ payload ∷ [] })
  unfolding send_message
  send-IsFaithful b payload room f = record {
    source = send_message-IsValid b.source payload (omega (arith, room)) f.source;
    target = f.target;
    room = ground (arith, room);
    received = f.received;
    delivered = ground (arith, room, f.delivered);
    all_sent = ground (arith, room, f.all_sent, length-append b.sent (payload ∷ []));
    all_logged = f.all_logged;
    content = send_content b payload room f;
    pending = f.pending ++ payload ∷ [];
    in_order = ap (λ l. l ++ payload ∷ []) f.in_order ∙ append_assoc b.log f.pending (payload ∷ []);
  }

  -- The next message of the lane is the first one that is pending.
  next_pending :
      (b : Bridge World) (nonce : MessageNonce) (payload : MessagePayload)
      → b.source.stored nonce ≡ some payload
      → (f : IsFaithful D w b) → IsAcceptable b.target nonce
      → nonce ≤ b.source.lane_data.latest_generated_nonce
      → (rest : List MessagePayload) × (f.pending ≡ payload ∷ rest)
  next_pending b nonce payload stored f a known =
      let at : get_elem? b.sent (nonce - 1) ≡ some payload =
        sym (f.content nonce (omega (arith, f.received, a.next)) known) ∙ stored in
      let first : get_elem? f.pending 0 ≡ some payload =
        sym (get_elem?-next b.log f.pending (nonce - 1) (omega (arith, a.next, f.all_logged)))
        ∙ ap (λ l. get_elem? l (nonce - 1)) (sym f.in_order)
        ∙ at in
      split_first f.pending payload first

  deliver-IsFaithful :
      (b : Bridge World) (relayer payer : AccountId) (nonce : MessageNonce)
      (payload : MessagePayload)
      → b.source.stored nonce ≡ some payload
      → IsFaithful D w b
      → IsFaithful D w (delivered D w b relayer payer nonce payload)
  deliver-IsFaithful b relayer payer nonce payload stored f =
      let room : last_delivered_nonce b.target.lane_data + 2 < u64_mod =
        omega (arith, f.room, f.delivered) in
      elim (receive_message-decides D b.target b.world relayer payer nonce payload room f.target) [
        | inr (_, same, world, no_dispatch) ↦
            let log_same =
              logged_same b.log payload
                (receive_message D b.target b.world relayer payer nonce payload).2 no_dispatch in
            record {
              source = f.source;
              target = rw same f.target;
              room = f.room;
              received = rw same f.received;
              delivered = rw same f.delivered;
              all_sent = f.all_sent;
              all_logged =
                  ap length log_same
                  ∙ f.all_logged
                  ∙ ap (λ t. last_delivered_nonce t.lane_data) (sym same);
              content = f.content;
              pending = f.pending;
              in_order = f.in_order ∙ ap (λ l. l ++ f.pending) (sym log_same);
            }
        | inl (a, e) ↦
            let taken =
              receive_message-rewards D b.target b.world relayer payer nonce payload room f.target
                a in
            let known : nonce ≤ b.source.lane_data.latest_generated_nonce =
              ground (arith, stored, f.source.queued nonce) in
            let here = next_pending b nonce payload stored f a known in
            let log_next : logged b.log payload
                  (receive_message D b.target b.world relayer payer nonce payload).2
                ≡ b.log ++ payload ∷ [] =
              rw e refl in
            record {
              source = f.source;
              target =
                  receive_message-IsValid D b.target b.world relayer payer nonce payload room
                    f.target;
              room = f.room;
              received = omega (arith, taken.0, a.next, f.received);
              delivered = omega (arith, taken.0, known);
              all_sent = f.all_sent;
              all_logged =
                  ap length log_next
                  ∙ omega
                      (arith, length-append b.log (payload ∷ []), f.all_logged, taken.0, a.next);
              content = f.content;
              pending = here.0;
              in_order =
                  f.in_order
                  ∙ ap (λ l. b.log ++ l) here.1
                  ∙ sym (append_assoc b.log (payload ∷ []) here.0)
                  ∙ ap (λ l. l ++ here.0) (sym log_next);
            }
      ]

  sync-IsFaithful :
      (b : Bridge World)
      → IsFaithful D w b
      → IsFaithful D w (record b { target = (receive_state_update b.target b.source.lane_data).0 })
  sync-IsFaithful b f =
      let (valid, same) = receive_state_update-IsValid b.target b.source.lane_data f.target in
      record {
        source = f.source;
        target = valid;
        room = f.room;
        received = rw same f.received;
        delivered = rw same f.delivered;
        all_sent = f.all_sent;
        all_logged = f.all_logged ∙ sym same;
        content = f.content;
        pending = f.pending;
        in_order = f.in_order;
      }

  confirm-IsFaithful :
      (b : Bridge World) (allowed : MessageNonce)
      → IsFaithful D w b
      → IsFaithful D w (confirmed D w b allowed)
  confirm-IsFaithful b allowed f =
      let last = last_delivered_nonce b.target.lane_data in
      elim (confirm_delivery-decides b.source allowed last b.target.lane_data.relayers
        (omega (arith, f.room))) [
          | inl (can, e) ↦ record {
            source =
                confirm_delivery-IsValid b.source allowed last b.target.lane_data.relayers f.source;
            target = f.target;
            room = rw e f.room;
            received = rw e (omega arith);
            delivered = rw e f.delivered;
            all_sent = rw e f.all_sent;
            all_logged = f.all_logged;
            content = rw e (λ n new old. f.content n (omega (arith, f.received, new)) old);
            pending = f.pending;
            in_order = f.in_order;
          }
          | inr (_, same, _) ↦ record {
            source =
                confirm_delivery-IsValid b.source allowed last b.target.lane_data.relayers f.source;
            target = f.target;
            room = rw same f.room;
            received = rw same f.received;
            delivered = rw same f.delivered;
            all_sent = rw same f.all_sent;
            all_logged = f.all_logged;
            content = rw same f.content;
            pending = f.pending;
            in_order = f.in_order;
          }
        ]

  module _ (pays : (spent : W) → w.is_zero (w.add spent (w.writes 1)) ≡ false) where
    prune-IsFaithful :
        (b : Bridge World) (remaining : W)
        → IsFaithful D w b
        → IsFaithful D w (record b { source = (prune_messages w b.source remaining).0 })
    prune-IsFaithful b remaining f =
        let (valid, keeps) = prune_messages-IsValid w pays b.source remaining f.source in
        record {
          source = valid;
          target = f.target;
          room = omega (arith, keeps.generated, f.room);
          received = omega (arith, keeps.received, f.received);
          delivered = omega (arith, keeps.generated, f.delivered);
          all_sent = f.all_sent ∙ sym keeps.generated;
          all_logged = f.all_logged;
          content = λ n new old.
              keeps.messages n (omega (arith, new, keeps.received))
              ∙ f.content n (omega (arith, new, keeps.received))
                  (omega (arith, old, keeps.generated));
          pending = f.pending;
          in_order = f.in_order;
        }

    Step-IsFaithful :
        {b after : Bridge World} → Step D w b after → IsFaithful D w b → IsFaithful D w after
    Step-IsFaithful {b} (send payload room) f = send-IsFaithful b payload room f
    Step-IsFaithful {b} (deliver relayer payer nonce payload stored) f =
        deliver-IsFaithful b relayer payer nonce payload stored f
    Step-IsFaithful {b} sync f = sync-IsFaithful b f
    Step-IsFaithful {b} (confirm allowed) f = confirm-IsFaithful b allowed f
    Step-IsFaithful {b} (prune remaining) f = prune-IsFaithful b remaining f

    -- Where a write always makes a weight that is not zero, any run from a faithful state leads
    -- to a faithful one, a run being sends (with room for three more nonces), deliveries of
    -- stored messages by anyone under any stored nonce, and state updates, confirmations and
    -- prunings whose proofs show the current state of the other end. In a faithful state both
    -- ends are valid, the source's received nonce is at most the last delivered one and that at
    -- most the generated one, an unconfirmed message is stored as it was sent, and the dispatched
    -- payloads are those that were sent first, once each and in order.
    pub Run-IsFaithful :
        (b after : Bridge World) → Run D w b after → IsFaithful D w b → IsFaithful D w after
    Run-IsFaithful b after start f = f
    Run-IsFaithful b after (next {m = m} run step) f =
        Step-IsFaithful step (Run-IsFaithful b m run f)
