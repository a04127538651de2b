-- ===== src/Relay/Target/Accepted.antt =====
-- The messages that the delivery strategy selects against the inbound lane that they are sent to
-- (relays/messages/src/message_race_delivery.rs and modules/messages/src/inbound_lane.rs).
use parity_bridges_common.Common.{
  ℕ, zero, suc, ◌+◌, ◌-◌, ◌≤◌, ◌<◌, ◌≡◌, refl, sym, subst, ◌∙◌, ◌⊎◌, inl, inr, Bool, true, false,
  Option, none, some, List, [], ◌∷◌, length, min, back, head?, u64_mod, arith, leb, ltb, leb→le,
  leb→lt, ltb→lt, ◌==◌, if◌then◌else◌, same_some, Bool-cases,
}
use parity_bridges_common.Messages.Types.{
  MessageNonce, AccountId, UnrewardedRelayer, OutboundLaneData, last_delivered_nonce,
}
use parity_bridges_common.Messages.Inbound.{
  InboundLane, receive_state_update, drop_confirmed, trim_front, note_delivery,
}
use parity_bridges_common.Messages.Inbound.Chain.{
  IsQueueFrom, IsQueueFrom-le, Linked-le, length-trim, length-note_delivery, last_from,
}
use parity_bridges_common.Messages.Inbound.State
use parity_bridges_common.Messages.Inbound.State.{
  IsValid, trimmed, receive_state_update-cases, delivered_last_from, receive_state_update-IsValid,
  receive_state_update-SameLimits,
}
use parity_bridges_common.Messages.Inbound.Receive.{IsAcceptable, noted, noted-IsValid}
use parity_bridges_common.Relay.Race.{HeaderId, RangeInclusive, RaceState}
use parity_bridges_common.Relay.Limits.{BatchWeights}
use parity_bridges_common.Relay.Limits.Count.{decide-within}
use parity_bridges_common.Relay.Delivery.Selected.{reference_for, select_nonces_to_deliver-Selected}
use parity_bridges_common.Relay.Delivery.{
  MessageDeliveryStrategy, MessageProofParameters, confirmed_by, select_nonces_to_deliver,
  awaits_rewards, max_nonces_for,
}
use parity_bridges_common.Relay.Target.{messages_in, target_nonces, unrewarded_relayers_state}

-- The last entry of the lane is the relayer's.
abbrev IsOwner : Option UnrewardedRelayer → AccountId → Type 0
IsOwner none relayer = ⊥
IsOwner (some entry) relayer = entry.relayer ≡ relayer

abbrev pub HasRoom : InboundLane → AccountId → Type 0
HasRoom lane relayer =
    (length lane.lane_data.relayers + 1 < lane.max_unrewarded_relayer_entries)
    ⊎ ((length lane.lane_data.relayers < lane.max_unrewarded_relayer_entries)
        × IsOwner (back lane.lane_data.relayers) relayer)

back-note_delivery :
    (relayer : AccountId) (nonce : MessageNonce) (e f : UnrewardedRelayer)
    (es : List UnrewardedRelayer)
    → back (e ∷ note_delivery relayer nonce (f ∷ es)) ≡ back (note_delivery relayer nonce (f ∷ es))
unfolding note_delivery
back-note_delivery relayer nonce e f [] = ground arith
back-note_delivery relayer nonce e f (g ∷ es) = refl

note_delivery-IsOwner :
    (relayer : AccountId) (nonce : MessageNonce) (es : List UnrewardedRelayer)
    → IsOwner (back (note_delivery relayer nonce es)) relayer
unfolding note_delivery
note_delivery-IsOwner relayer nonce [] = refl
note_delivery-IsOwner relayer nonce (e ∷ []) = elim (Bool-cases (e.relayer == relayer)) [
  | inl own ↦ rw own (ground arith)
  | inr other ↦ rw other refl
]
note_delivery-IsOwner relayer nonce (e ∷ f ∷ es) =
    subst (λ o. IsOwner o relayer) (sym (back-note_delivery relayer nonce e f es))
      (note_delivery-IsOwner relayer nonce (f ∷ es))

length-note_owned :
    (relayer : AccountId) (nonce : MessageNonce) (es : List UnrewardedRelayer)
    → IsOwner (back es) relayer
    → length (note_delivery relayer nonce es) ≡ length es
unfolding note_delivery
length-note_owned relayer nonce [] own = absurd own
length-note_owned relayer nonce (e ∷ []) own = ground arith
length-note_owned relayer nonce (e ∷ f ∷ es) own =
    omega (arith, length-note_owned relayer nonce (f ∷ es) own)

-- The lane takes the `k` messages from the nonce on, one after the other.
abbrev pub Takes : InboundLane → AccountId → MessageNonce → ℕ → Type 0
Takes lane relayer nonce zero = Unit
Takes lane relayer nonce (suc k) =
    IsAcceptable lane nonce × Takes (noted lane relayer nonce) relayer (nonce + 1) k

noted-HasRoom :
    (lane : InboundLane) (relayer : AccountId) (nonce : MessageNonce)
    → HasRoom lane relayer
    → HasRoom (noted lane relayer nonce) relayer
noted-HasRoom lane relayer nonce (inl free) = inr (
  omega (arith, length-note_delivery relayer nonce lane.lane_data.relayers),
  note_delivery-IsOwner relayer nonce lane.lane_data.relayers,
)
noted-HasRoom lane relayer nonce (inr (free, own)) = inr (
  omega (arith, length-note_owned relayer nonce lane.lane_data.relayers own),
  note_delivery-IsOwner relayer nonce lane.lane_data.relayers,
)

-- A lane with room for the relayer takes all messages up to its limit on unconfirmed ones.
Takes-HasRoom :
    (k : ℕ) (lane : InboundLane) (relayer : AccountId) (nonce : MessageNonce)
    → IsValid lane
    → HasRoom lane relayer
    → nonce ≡ last_delivered_nonce lane.lane_data + 1
    → nonce + k < u64_mod
    → nonce + k ≤ lane.lane_data.last_confirmed_nonce + lane.max_unconfirmed_messages + 1
    → Takes lane relayer nonce k
Takes-HasRoom zero lane relayer nonce v free at fits limit = tt
Takes-HasRoom (suc k) lane relayer nonce v free at fits limit =
    let a : IsAcceptable lane nonce = record {
      next = at;
      entries = elim free [ inl two ↦ omega arith | inr (one, _) ↦ one ];
      unconfirmed = omega arith;
    } in
    let (v', last) = noted-IsValid lane relayer nonce (omega arith) v a in
    (
      a,
      Takes-HasRoom k (noted lane relayer nonce) relayer (nonce + 1) v'
          (noted-HasRoom lane relayer nonce free) (omega (arith, last)) (omega arith) (omega arith),
    )

-- A full queue of relayers loses its oldest entry when as many rewards are proved as it has messages.
length-trim_oldest :
    (confirmed n : MessageNonce) (es : List UnrewardedRelayer)
    → IsQueueFrom n es
    → last_from n es + 1 < u64_mod
    → 0 < length es
    → messages_in (head? es) ≤ confirmed - n
    → length (trim_front confirmed (drop_confirmed confirmed es)) < length es
unfolding drop_confirmed messages_in
length-trim_oldest confirmed n [] q fits some_entry enough = absurd (omega arith)
length-trim_oldest confirmed n (e ∷ es) q fits some_entry enough =
    let fits_end : e.messages.end + 1 < u64_mod = omega (arith, Linked-le e.messages.end es q.3) in
    let dropped : leb e.messages.end confirmed ≡ true = ground arith in
    rw (dropped) (omega (arith, length-trim confirmed es))

messages_in-pos :
    (n : MessageNonce) (es : List UnrewardedRelayer)
    → IsQueueFrom n es
    → last_from n es + 1 < u64_mod
    → 0 < length es
    → 0 < messages_in (head? es)
unfolding messages_in
messages_in-pos n [] q fits some_entry = absurd (omega arith)
messages_in-pos n (e ∷ es) q fits some_entry =
    let fits_end : e.messages.end + 1 < u64_mod = omega (arith, Linked-le e.messages.end es q.3) in
    ground arith

-- The lane that the messages are delivered to: the proof brings the source's state if it must.
abbrev pub updated : InboundLane → OutboundLaneData → Bool → InboundLane
updated lane outbound with_state =
    if with_state then (receive_state_update lane outbound).0 else lane

module _ (lane : InboundLane) (outbound : OutboundLaneData) (v : IsValid lane)
    (seen : outbound.latest_received_nonce ≤ last_delivered_nonce lane.lane_data) where
  -- The lane after the update: its data is valid, it goes on from the same nonce, and its queue of
  -- relayers is not full.
  record IsReady (after : InboundLane) (confirmed : MessageNonce) : Type 0 where
    valid : IsValid after
    last : last_delivered_nonce after.lane_data ≡ last_delivered_nonce lane.lane_data
    limits : State.SameLimits lane after
    free : length after.lane_data.relayers < lane.max_unrewarded_relayer_entries
    from : after.lane_data.last_confirmed_nonce ≡ confirmed

  updated-IsReady :
      (most : MessageNonce)
      → 0 < most
      → most ≤ lane.max_unrewarded_relayer_entries
      → awaits_rewards
          (unrewarded_relayers_state (some lane.lane_data))
          outbound.latest_received_nonce
          lane.lane_data.last_confirmed_nonce
          most
        ≡ false
      → let new = ltb lane.lane_data.last_confirmed_nonce outbound.latest_received_nonce in
        IsReady
          (updated lane outbound new)
          (if new then outbound.latest_received_nonce else lane.lane_data.last_confirmed_nonce)
  unfolding awaits_rewards unrewarded_relayers_state
  updated-IsReady most some_limit le rewarded =
      let c = lane.lane_data.last_confirmed_nonce in
      let n = outbound.latest_received_nonce in
      let es = lane.lane_data.relayers in
      let fits : last_from c es + 1 < u64_mod = omega (arith, v.fits, delivered_last_from lane) in
      let free_of = λ (m : ℕ) (held : m ≤ length es) (freed : most ≤ length es → m < length es).
        let go : m < lane.max_unrewarded_relayer_entries =
          elim (Bool-cases (leb most (length es))) [
            | inl full ↦ omega (arith, v.entries, freed (leb→le _ _ full))
            | inr not_full ↦ omega (arith, leb→lt most (length es) not_full)
          ] in
        go in
      elim (Bool-cases (ltb c n)) [
        | inr old ↦ rw old (record {
          valid = v;
          last = refl;
          limits = record { entries = refl; messages = refl };
          free =
              free_of (length es) (omega arith)
                (λ full. absurd (ground (arith, messages_in-pos c es v.queue fits (omega arith))));
          from = refl;
        })
        | inl new ↦
            let (v', last) = receive_state_update-IsValid lane outbound v in
            let state : receive_state_update lane outbound ≡ (trimmed lane n, some n) =
              elim (receive_state_update-cases lane outbound) [
                | inl (_, e) ↦ e
                | inr (old, _) ↦ absurd (old (ltb→lt c n new, seen))
              ] in
            rw new (record {
              valid = v';
              last = last;
              limits = receive_state_update-SameLimits lane outbound;
              free = rw state (
                  free_of (length (trim_front n (drop_confirmed n es))) (length-trim n es)
                    (λ full. length-trim_oldest n c es v.queue fits (omega arith) (ground arith)));
              from = rw state refl;
            })
      ]

-- The relayer's view of the target is that of the lane, its limits are no looser than the lane's,
-- and what it takes for confirmed is what the proved state of the source says.
pub record IsInSync {W Proof BatchTx : Type 0} (s : MessageDeliveryStrategy W)
    (race : RaceState Proof BatchTx) (lane : InboundLane) (outbound : OutboundLaneData)
    : Type 0 where
  pub header : HeaderId
  pub header_known : race.best_finalized_source_header_id_at_best_target ≡ some header
  pub target_known : s.target_nonces ≡ some (target_nonces (some lane.lane_data))
  pub best_known : s.strategy.best_target_nonce ≡ some (last_delivered_nonce lane.lane_data)
  pub confirmed :
      confirmed_by header.number s.latest_confirmed_nonces_at_source
        (last_delivered_nonce lane.lane_data)
      ≡ outbound.latest_received_nonce
  pub seen : outbound.latest_received_nonce ≤ last_delivered_nonce lane.lane_data
  pub some_entries : 0 < s.max_unrewarded_relayer_entries_at_target
  pub entries : s.max_unrewarded_relayer_entries_at_target ≤ lane.max_unrewarded_relayer_entries
  pub unconfirmed : s.max_unconfirmed_nonces_at_target ≤ lane.max_unconfirmed_messages
  pub word : s.max_unconfirmed_nonces_at_target + 1 < u64_mod

min-le : (a b : ℕ) → min a b ≤ a
min-le a b = omega arith

max_nonces_for-lem :
    (received confirmed most : MessageNonce)
    → confirmed ≤ received
    → max_nonces_for received confirmed most ≡ most - (received - confirmed)
unfolding max_nonces_for
max_nonces_for-lem received confirmed most le = ground arith

module _ {W Proof BatchTx : Type 0} (w : BatchWeights W) (s : MessageDeliveryStrategy W)
    (race : RaceState Proof BatchTx) (lane : InboundLane) (outbound : OutboundLaneData)
    (range : RangeInclusive) (params : MessageProofParameters W)
    (sync : IsInSync s race lane outbound) (v : IsValid lane)
    (selects : select_nonces_to_deliver w s race ≡ some (range, params))
    (space : range.start + s.max_unconfirmed_nonces_at_target < u64_mod) where
  record IsOffered : Type 0 where
    confirmed : MessageNonce
    ready :
        IsReady lane outbound v sync.seen
          (updated lane outbound params.outbound_state_proof_required)
          confirmed
    some_nonces : range.start ≤ range.end
    short :
        range.end + 1
        ≤ range.start
          + (s.max_unconfirmed_nonces_at_target - (last_delivered_nonce lane.lane_data - confirmed))
    below : confirmed ≤ last_delivered_nonce lane.lane_data

  offered : IsOffered
  unfolding target_nonces max_nonces_for
  offered =
      let sel = select_nonces_to_deliver-Selected w s race range params selects in
      let header = same_some sel.header_known sync.header_known in
      let target = same_some sel.target_known sync.target_known in
      let best = same_some sel.best_known sync.best_known in
      let at_source : sel.at_source ≡ outbound.latest_received_nonce =
        sel.at_source_known ∙ rw (header, best) sync.confirmed in
      let c = lane.lane_data.last_confirmed_nonce in
      let n = outbound.latest_received_nonce in
      let last = last_delivered_nonce lane.lane_data in
      let confirmed = if ltb c n then n else c in
      let rewarded = rw (target, at_source) at sel.rewarded in
      let with_state : params.outbound_state_proof_required ≡ ltb c n =
        rw (target, at_source) at sel.with_state in
      let room : (reference_for w s race sel.best sel.target sel.at_source
            sel.indices).max_messages_in_this_batch
          ≤ max_nonces_for last confirmed s.max_unconfirmed_nonces_at_target =
        rw (target, at_source) (min-le _ _) in
      let below : confirmed ≤ last = ground (
        arith,
        sync.seen,
        IsQueueFrom-le c lane.lane_data.relayers v.queue,
        delivered_last_from lane,
      ) in
      let limit = max_nonces_for-lem last confirmed s.max_unconfirmed_nonces_at_target below in
      let bounds =
        decide-within w (reference_for w s race sel.best sel.target sel.at_source sel.indices)
          (omega (arith, room, limit, sync.word)) range (omega (arith, room, limit, space))
          sel.decided in
      record {
        confirmed = confirmed;
        ready = rw with_state (
            updated-IsReady lane outbound v sync.seen s.max_unrewarded_relayer_entries_at_target
              sync.some_entries sync.entries rewarded);
        some_nonces = bounds.0;
        short = omega (arith, bounds.1, room, limit);
        below = below;
      }

  -- The first of the selected messages is acceptable, whoever delivers it.
  pub select_nonces_to_deliver-accepted :
      range.start ≡ last_delivered_nonce lane.lane_data + 1
      → IsAcceptable (updated lane outbound params.outbound_state_proof_required) range.start
  select_nonces_to_deliver-accepted at =
      let o = offered in
      record {
        next = at ∙ omega (arith, o.ready.last);
        entries = omega (arith, o.ready.free, o.ready.limits.entries);
        unconfirmed = omega (
          arith, o.short, o.below, o.ready.from, o.some_nonces, o.ready.limits.messages,
          sync.unconfirmed, at,
        );
      }

  -- Where what the relayer knows of the target is the lane's data and its limits are no looser
  -- than the lane's, the lane is valid, the source's confirmed nonce is not above the lane's last
  -- delivered one, and the selected range begins behind that one with room for the limit of
  -- unconfirmed nonces in 64 bits: once the lane has taken over the state that the proof carries,
  -- if it carries one, and if there is room for two more entries, or for one where the last entry
  -- is that of the delivering relayer, it accepts the messages that `select_nonces_to_deliver`
  -- selects one after the other, each of them being the lane's next message when it comes.
  pub select_nonces_to_deliver-Takes :
      (relayer : AccountId)
      → range.start ≡ last_delivered_nonce lane.lane_data + 1
      → HasRoom (updated lane outbound params.outbound_state_proof_required) relayer
      → Takes
          (updated lane outbound params.outbound_state_proof_required)
          relayer
          range.start
          (range.end + 1 - range.start)
  select_nonces_to_deliver-Takes relayer at free =
      let o = offered in
      Takes-HasRoom (range.end + 1 - range.start)
        (updated lane outbound params.outbound_state_proof_required) relayer range.start
        o.ready.valid free (omega (arith, at, o.ready.last))
        (omega (arith, o.some_nonces, o.short, space))
        (omega (
          arith, o.short, o.below, o.ready.from, o.some_nonces, o.ready.limits.messages,
          sync.unconfirmed, at,
        ))
