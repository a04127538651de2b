-- ===== src/Messages/Inbound/Receive.antt =====
-- What `receive_message` does to a valid lane (modules/messages/src/inbound_lane.rs).
use parity_bridges_common.Common.{
  ◌+◌, ◌≤◌, ◌<◌, ◌≡◌, ◌≢◌, refl, ◌∙◌, ◌⊎◌, inl, inr, some, u64_mod, arith, ◌==◌, length,
  if◌then◌else◌,
}
use parity_bridges_common.Messages.Types.{
  MessageNonce, AccountId, last_delivered_nonce, MessageDispatch, MessageDispatchResult, dispatched,
}
use parity_bridges_common.Messages.Inbound.{
  InboundLane, acceptance, accept, receive_message, note_delivery, Acceptance, bad_nonce,
  too_many_relayers, too_many_unconfirmed,
}
use parity_bridges_common.Messages.Inbound.Chain.{
  IsQueueFrom, last_from, deliverer, length-note_delivery, deliverer-note_delivery,
  note_delivery-IsQueueFrom,
}
use parity_bridges_common.Messages.Inbound.State.{IsValid, delivered_last_from}

-- When the lane takes a message.
pub record IsAcceptable (lane : InboundLane) (nonce : MessageNonce) : Type 0 where
  pub next : nonce ≡ last_delivered_nonce lane.lane_data + 1
  pub entries : length lane.lane_data.relayers < lane.max_unrewarded_relayer_entries
  pub unconfirmed : nonce ≤ lane.lane_data.last_confirmed_nonce + lane.max_unconfirmed_messages

abbrev pub noted : InboundLane → AccountId → MessageNonce → InboundLane
noted lane relayer nonce = record lane {
  lane_data = record lane.lane_data {
    relayers = note_delivery relayer nonce lane.lane_data.relayers;
  };
}

pub acceptance-IsAcceptable :
    (lane : InboundLane) (nonce : MessageNonce)
    → last_delivered_nonce lane.lane_data + 1 < u64_mod
    → ((acceptance lane nonce ≡ accept) × IsAcceptable lane nonce)
      ⊎ ((acceptance lane nonce ≢ accept) × (¬ IsAcceptable lane nonce))
unfolding acceptance
acceptance-IsAcceptable lane nonce room = ground arith

pub noted-IsValid :
    (lane : InboundLane) (relayer : AccountId) (nonce : MessageNonce)
    → nonce + 1 < u64_mod
    → IsValid lane
    → IsAcceptable lane nonce
    → IsValid (noted lane relayer nonce)
      × (last_delivered_nonce (noted lane relayer nonce).lane_data ≡ nonce)
noted-IsValid lane relayer nonce room v a =
    let es = lane.lane_data.relayers in
    let c = lane.lane_data.last_confirmed_nonce in
    let at : nonce ≡ last_from c es + 1 = omega (arith, a.next, delivered_last_from lane) in
    let (q, e) = note_delivery-IsQueueFrom relayer c es (omega arith) v.queue in
    let q' : IsQueueFrom c (note_delivery relayer nonce es) = rw at q in
    let e' : last_from c (note_delivery relayer nonce es) ≡ nonce = rw at e in
    let d : last_delivered_nonce (noted lane relayer nonce).lane_data ≡ nonce =
      delivered_last_from (noted lane relayer nonce) ∙ e' in
    (
      record {
        queue = q';
        entries = omega (arith, length-note_delivery relayer nonce es, a.entries);
        unconfirmed = omega (arith, d, a.unconfirmed);
        fits = omega (arith, d);
      },
      d,
    )

module _ {World W P R : Type 0} (D : MessageDispatch World W P R) (lane : InboundLane)
    (world : World) (relayer payer : AccountId) (nonce : MessageNonce) (msg : P)
    (room : last_delivered_nonce lane.lane_data + 2 < u64_mod) (v : IsValid lane) where
  abbrev dispatched_at : World × MessageDispatchResult W R
  dispatched_at =
      D.dispatch world payer
        (record { key = record { lane_id = lane.id; nonce = nonce }; message_data = msg })

  receive_message-accepts :
      acceptance lane nonce ≡ accept
      → receive_message D lane world relayer payer nonce msg
        ≡ (noted lane relayer nonce, dispatched_at.0, dispatched dispatched_at.1)
  unfolding receive_message
  receive_message-accepts e = rw e refl

  receive_message-rejects :
      acceptance lane nonce ≢ accept
      → ((receive_message D lane world relayer payer nonce msg).0 ≡ lane)
        × ((receive_message D lane world relayer payer nonce msg).1 ≡ world)
        × ((r : MessageDispatchResult W R)
            → (receive_message D lane world relayer payer nonce msg).2 ≢ dispatched r)
  unfolding receive_message
  receive_message-rejects no_way = go (acceptance lane nonce) refl no_way
    where
      go :
          (a : Acceptance)
          → acceptance lane nonce ≡ a
          → a ≢ accept
          → ((receive_message D lane world relayer payer nonce msg).0 ≡ lane)
            × ((receive_message D lane world relayer payer nonce msg).1 ≡ world)
            × ((r : MessageDispatchResult W R)
                → (receive_message D lane world relayer payer nonce msg).2 ≢ dispatched r)
      go accept e ne = absurd (ne refl)
      go bad_nonce e ne = rw (e, receive_message) (refl, refl, λ r h. cc)
      go too_many_relayers e ne = rw (e, receive_message) (refl, refl, λ r h. cc)
      go too_many_unconfirmed e ne = rw (e, receive_message) (refl, refl, λ r h. cc)

  -- In a valid lane that two more nonces fit into, a message is dispatched exactly when its nonce
  -- is the next one and the limits on relayers and on unconfirmed messages leave room, and then
  -- it is noted for the relayer; any other message leaves the lane and the rest of the chain as
  -- they were.
  pub receive_message-decides :
      (IsAcceptable lane nonce
        × (receive_message D lane world relayer payer nonce msg
            ≡ (noted lane relayer nonce, dispatched_at.0, dispatched dispatched_at.1)))
      ⊎ ((¬ IsAcceptable lane nonce)
          × ((receive_message D lane world relayer payer nonce msg).0 ≡ lane)
          × ((receive_message D lane world relayer payer nonce msg).1 ≡ world)
          × ((r : MessageDispatchResult W R)
              → (receive_message D lane world relayer payer nonce msg).2 ≢ dispatched r))
  receive_message-decides = elim (acceptance-IsAcceptable lane nonce v.fits) [
    | inl (e, a) ↦ inl (a, receive_message-accepts e)
    | inr (ne, no_way) ↦ let (l, w, r) = receive_message-rejects ne in inr (no_way, l, w, r)
  ]

  -- A valid lane that two more nonces fit into stays valid whatever message it receives.
  pub receive_message-IsValid : IsValid (receive_message D lane world relayer payer nonce msg).0
  receive_message-IsValid = elim receive_message-decides [
    | inl (a, e) ↦ rw e (noted-IsValid lane relayer nonce (omega (arith, a.next)) v a).0
    | inr (_, e, _, _) ↦ rw e v
  ]

  -- In a valid lane that two more nonces fit into, an acceptable message becomes the lane's last
  -- delivered one and its relayer the one to be rewarded for it; nobody's claim to another
  -- message changes.
  pub receive_message-rewards :
      IsAcceptable lane nonce
      → (last_delivered_nonce (receive_message D lane world relayer payer nonce msg).0.lane_data
          ≡ nonce)
        × ((m : MessageNonce)
            → deliverer m
                (receive_message D lane world relayer payer nonce msg).0.lane_data.relayers
              ≡ (if m == nonce then some relayer else deliverer m lane.lane_data.relayers))
  receive_message-rewards a = elim receive_message-decides [
    | inr (no_way, _, _, _) ↦ absurd (no_way a)
    | inl (_, e) ↦
        let c = lane.lane_data.last_confirmed_nonce in
        let at : nonce ≡ last_from c lane.lane_data.relayers + 1 =
          omega (arith, a.next, delivered_last_from lane) in
        (
          rw e (noted-IsValid lane relayer nonce (omega (arith, a.next)) v a).1,
          λ m.
              rw (e, at)
                (deliverer-note_delivery relayer c m lane.lane_data.relayers (omega arith) v.queue),
        )
  ]
