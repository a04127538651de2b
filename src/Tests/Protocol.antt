-- ===== src/Tests/Protocol.antt =====
-- A run of both ends of a lane.
use parity_bridges_common.Common.{ℕ, ◌+◌, refl, [], ◌∷◌, none, arith}
use parity_bridges_common.Messages.Types.{
  MessageDispatch, MessagePayload, inbound_default, outbound_default, last_delivered_nonce,
}
use parity_bridges_common.Messages.Protocol.{
  Bridge, send, deliver, confirm, Run, start, next, IsFaithful, delivered, confirmed,
}
use parity_bridges_common.Messages.Outbound.{send_message}
use parity_bridges_common.Messages.Protocol.Order.{Run-IsFaithful}
use parity_bridges_common.Tests.Runtime.{metered}

abbrev dispatcher : MessageDispatch ℕ ℕ MessagePayload Unit
dispatcher = record {
  dispatch_weight = λ m. (m.message_data, 1);
  dispatch = λ world who m. (world + 1, record { unspent_weight = 0; dispatch_level_result = tt });
}

abbrev empty : Bridge ℕ
empty = record {
  source = record { lane_data = outbound_default; stored = λ n. none };
  target = record {
    id = 0;
    max_unrewarded_relayer_entries = 4;
    max_unconfirmed_messages = 8;
    lane_data = inbound_default;
  };
  world = 0;
  sent = [];
  log = [];
}

empty-IsFaithful : IsFaithful dispatcher metered empty
unfolding last_delivered_nonce
empty-IsFaithful = record {
  source = record {
    pruned = omega arith;
    received = omega arith;
    fits = omega arith;
    queued = λ n. ground arith;
  };
  target = record {
    queue = ground arith;
    entries = omega arith;
    unconfirmed = omega arith;
    fits = omega arith;
  };
  room = omega arith;
  received = omega arith;
  delivered = omega arith;
  all_sent = refl;
  all_logged = refl;
  content = λ n new old. ground (arith, new, old);
  pending = [];
  in_order = refl;
}

abbrev one_sent : Bridge ℕ
one_sent = record empty { source = (send_message empty.source (5 ∷ [])).0; sent = (5 ∷ []) ∷ [] }

abbrev confirmed_back : Bridge ℕ
confirmed_back =
    confirmed dispatcher metered (delivered dispatcher metered one_sent 9 5 1 (5 ∷ [])) 1

-- One message is sent, delivered and confirmed.
one_message : Run dispatcher metered empty confirmed_back
unfolding send_message
one_message =
    next (next (next start (send (5 ∷ []) (omega arith))) (deliver 9 5 1 (5 ∷ []) refl)) (confirm 1)

Run-IsFaithful_example : IsFaithful dispatcher metered confirmed_back
Run-IsFaithful_example =
    Run-IsFaithful dispatcher metered (λ spent. ground arith) empty confirmed_back one_message
      empty-IsFaithful
