-- ===== src/Messages/Receive/Lanes.antt =====
-- `receive_messages_proof` as a whole (modules/messages/src/lib.rs): every lane stays valid, takes its
-- messages in order, and the lanes that the proof does not name stay as they are.
use mathlib.Core.List.{Sublist}
use native.Mathlib.Decide.{ℕ_discrete}
use parity_bridges_common.Common.{
  ℕ, ◌+◌, ◌≤◌, ◌<◌, ◌≡◌, ◌≢◌, refl, ap, ◌∙◌, ◌⊎◌, inl, inr, false, Option, none, some, List, [],
  ◌∷◌, ◌++◌, ok, >>=-eq-ok, ok-injective, subst, length, map, u64_mod, arith, range_from,
  update_self, update_ne, update,
}
use parity_bridges_common.Runtime.{Origin, ensure_not_halted}
use parity_bridges_common.Messages.Types.{
  LaneId, MessageNonce, AccountId, DispatchMessage, OutboundLaneData, last_delivered_nonce,
  ReceivedMessages, ProvedLaneMessages, is_halted,
}
use parity_bridges_common.Messages.Inbound.{InboundLane, receive_state_update}
use parity_bridges_common.Messages.Inbound.State.{
  IsValid, SameLimits, SameLimits-trans, IsValid-SameLimits, receive_state_update-SameLimits,
  receive_state_update-IsValid,
}
use parity_bridges_common.Messages.Pallet.{Config, Chain, inbound_lane}
use parity_bridges_common.Messages.Receive.{
  LaneLoop, ProofLoop, DispatchMessages, receive_all, start_lane, receive_lane, receive_lanes,
  apply_state, finish_receiving, receive_messages_proof, check_delivery, start_proof,
  verify_and_decode_messages_proof,
}
use parity_bridges_common.Messages.Receive.Lane.{
  Delivers, receive_all-Delivers, last_of, dispatched_nonces, dispatch_all, reported,
}

module _ (c : Config) where
  -- Every inbound lane of the pallet is valid.
  abbrev pub LanesAreValid : Chain c → Type 0
  LanesAreValid s = (id : LaneId) → IsValid (inbound_lane c s id)

  abbrev pub last_at : Chain c → LaneId → MessageNonce
  last_at s id = last_delivered_nonce (s.inbound_lanes id)

  -- How many messages the proof brings in all.
  abbrev pub message_count : DispatchMessages c → ℕ
  message_count [] = 0
  message_count ((id, proved) ∷ lanes) = length proved.messages + message_count lanes

  -- Is the lane one of those that the proof names?
  abbrev pub Names : DispatchMessages c → LaneId → Type 0
  Names [] j = ⊥
  Names ((id, proved) ∷ lanes) j = (id ≡ j) ⊎ Names lanes j

  start_IsValid :
      (lane : InboundLane) (state : Option OutboundLaneData)
      → IsValid lane
      → IsValid (apply_state lane state)
        × (last_delivered_nonce (apply_state lane state).lane_data
            ≡ last_delivered_nonce lane.lane_data)
  start_IsValid lane none v = (v, refl)
  start_IsValid lane (some state) v = receive_state_update-IsValid lane state v

  start_SameLimits :
      (lane : InboundLane) (state : Option OutboundLaneData)
      → SameLimits lane (apply_state lane state)
  start_SameLimits lane none = record { entries = refl; messages = refl }
  start_SameLimits lane (some state) = receive_state_update-SameLimits lane state

  apply_state-id :
      (lane : InboundLane) (state : Option OutboundLaneData) → (apply_state lane state).id ≡ lane.id
  unfolding receive_state_update
  apply_state-id lane none = refl
  apply_state-id lane (some state) = ground arith

  saved_valid :
      (p : ProofLoop c) (id : LaneId) (lane : InboundLane)
      → IsValid lane
      → SameLimits (inbound_lane c p.chain id) lane
      → LanesAreValid p.chain
      → (j : LaneId)
      → IsValid (record (inbound_lane c p.chain j) {
        lane_data = update p.chain.inbound_lanes id lane.lane_data j;
      })
  saved_valid p id lane v same others j = elim (ℕ_discrete id j) [
    | yes e ↦
        rw (← e, update_self p.chain.inbound_lanes id lane.lane_data)
          (IsValid-SameLimits (inbound_lane c p.chain id) lane same v)
    | no ne ↦ rw (update_ne p.chain.inbound_lanes id j lane.lane_data ne) (others j)
  ]

  module _ (at_bridged at_this : AccountId) where
    receive_lane-Delivers :
        (p : ProofLoop c) (id : LaneId)
        (proved : ProvedLaneMessages (DispatchMessage c.DispatchPayload))
        → LanesAreValid p.chain
        → last_at p.chain id + length proved.messages + 1 < u64_mod
        → p.valid + length proved.messages < u64_mod
        → let st = start_lane c p id proved.lane_state in
          (k : ℕ) × (k ≤ length proved.messages)
          × Delivers c at_this proved.messages st
              (receive_all c at_bridged at_this st proved.messages)
              k
          × (last_of c st ≡ last_at p.chain id)
          × (st.lane.id ≡ id)
    unfolding start_lane
    receive_lane-Delivers p id proved v room space =
        let st : LaneLoop c = start_lane c p id proved.lane_state in
        let (valid, same) = start_IsValid (inbound_lane c p.chain id) proved.lane_state (v id) in
        let (k, le, d) =
          receive_all-Delivers c at_bridged at_this st proved.messages valid (omega (arith, same))
            (omega arith) in
        (k, le, d, same, apply_state-id (inbound_lane c p.chain id) proved.lane_state)

    -- What delivering the messages of one lane does to the chain: `k` of the messages are dispatched,
    -- in their order, and these are the next ones of the lane.
    pub record LaneOutcome (p after : ProofLoop c) (id : LaneId)
        (ms : List (DispatchMessage c.DispatchPayload)) (k : ℕ) : Type 0 where
      pub taken : List (DispatchMessage c.DispatchPayload)
      pub among : Sublist taken ms
      pub numbered : map (λ m. m.key.nonce) taken ≡ range_from (last_at p.chain id + 1) k
      pub world : after.chain.world ≡ dispatch_all c id at_this p.chain.world taken
      pub status : ReceivedMessages c.Weight c.DispatchLevelResult
      pub all_reported : reported c status ≡ length ms
      pub added : after.statuses ≡ p.statuses ++ status ∷ []
      pub nonces : dispatched_nonces status.receive_results ≡ range_from (last_at p.chain id + 1) k
      pub moved : last_at after.chain id ≡ last_at p.chain id + k
      pub counted : after.valid ≡ p.valid + k
      pub valid : LanesAreValid after.chain
      pub others : (j : LaneId) → id ≢ j → after.chain.inbound_lanes j ≡ p.chain.inbound_lanes j

    -- From valid inbound lanes, and where neither the lane's nonces nor the count of valid
    -- messages overflow, the processing of one lane of a proof dispatches the next `k` messages
    -- of the lane, which are among those of the proof, one after the other and no others, which
    -- makes the rest of the chain's state. It reports as many messages as the proof has for the
    -- lane, with a result or as skipped, the dispatched ones being these, counts them, leaves
    -- every inbound lane valid and does not change the other lanes.
    pub receive_lane-outcome :
        (p : ProofLoop c) (id : LaneId)
        (proved : ProvedLaneMessages (DispatchMessage c.DispatchPayload))
        → LanesAreValid p.chain
        → last_at p.chain id + length proved.messages + 1 < u64_mod
        → p.valid + length proved.messages < u64_mod
        → (k : ℕ) × (k ≤ length proved.messages)
          × LaneOutcome p (receive_lane c at_bridged at_this p (id, proved)) id proved.messages k
    unfolding receive_lane start_lane
    receive_lane-outcome p id proved v room space =
        let st : LaneLoop c = start_lane c p id proved.lane_state in
        let (k, le, d, same, same_id) = receive_lane-Delivers p id proved v room space in
        (
          k,
          le,
          record {
            taken = d.taken;
            among = d.among;
            numbered = d.numbered ∙ ap (λ n. range_from (n + 1) k) same;
            world = d.world ∙ ap (λ i. dispatch_all c i at_this p.chain.world d.taken) same_id;
            status = (receive_all c at_bridged at_this st proved.messages).status;
            all_reported = d.all_reported ∙ omega arith;
            added = refl;
            nonces = d.nonces ∙ ap (λ n. range_from (n + 1) k) same;
            moved = rw (update_self p.chain.inbound_lanes id) (d.last ∙ ap (λ n. n + k) same);
            counted = d.counted;
            valid = λ j.
                saved_valid p id (receive_all c at_bridged at_this st proved.messages).lane d.lane
                  (SameLimits-trans _ _ _
                    (start_SameLimits (inbound_lane c p.chain id) proved.lane_state) d.limits)
                  v j;
            others = λ j ne. update_ne p.chain.inbound_lanes id j _ ne;
          },
        )

    -- Room for the nonces of all messages of the proof.
    pub record HasRoom (p : ProofLoop c) (n : ℕ) : Type 0 where
      pub nonces : (id : LaneId) → last_at p.chain id + n + 1 < u64_mod
      pub valid : p.valid + n < u64_mod

    moved_below :
        (p after : ProofLoop c) (id : LaneId) (ms : List (DispatchMessage c.DispatchPayload))
        (k n : ℕ)
        → LaneOutcome p after id ms k
        → k ≤ n
        → (j : LaneId) → last_at after.chain j ≤ last_at p.chain j + n
    moved_below p after id ms k n o le j = elim (ℕ_discrete id j) [
      | yes e ↦ rw (← e) (omega (arith, o.moved))
      | no ne ↦ omega (arith, ap last_delivered_nonce (o.others j ne))
    ]

    outcome_HasRoom :
        (p after : ProofLoop c) (id : LaneId) (ms : List (DispatchMessage c.DispatchPayload))
        (k n m : ℕ)
        → LaneOutcome p after id ms k
        → k ≤ n
        → HasRoom p (n + m)
        → HasRoom after m
    outcome_HasRoom p after id ms k n m o le room = record {
      nonces = λ j. omega (arith, moved_below p after id ms k n o le j, room.nonces j);
      valid = omega (arith, o.counted, room.valid);
    }

    pub receive_lanes-LanesAreValid :
        (p : ProofLoop c) (lanes : DispatchMessages c)
        → LanesAreValid p.chain
        → HasRoom p (message_count lanes)
        → LanesAreValid (receive_lanes c at_bridged at_this p lanes).chain
    unfolding receive_lanes
    receive_lanes-LanesAreValid p [] v room = v
    receive_lanes-LanesAreValid p ((id, proved) ∷ lanes) v room =
        let (k, le, o) =
          receive_lane-outcome p id proved v (omega (arith, room.nonces id))
            (omega (arith, room.valid)) in
        receive_lanes-LanesAreValid (receive_lane c at_bridged at_this p (id, proved)) lanes o.valid
          (outcome_HasRoom p _ id proved.messages k (length proved.messages) (message_count lanes) o
            le room)

    pub receive_lanes-others :
        (p : ProofLoop c) (lanes : DispatchMessages c) (j : LaneId)
        → ¬ Names lanes j
        → (receive_lanes c at_bridged at_this p lanes).chain.inbound_lanes j
          ≡ p.chain.inbound_lanes j
    unfolding receive_lanes receive_lane
    receive_lanes-others p [] j out = refl
    receive_lanes-others p ((id, proved) ∷ lanes) j out =
        receive_lanes-others (receive_lane c at_bridged at_this p (id, proved)) lanes j
          (λ n. out (inr n))
        ∙ update_ne p.chain.inbound_lanes id j _ (λ e. out (inl e))

    -- The sending side and the governance of the pallet are not touched.
    pub receive_lanes-outbound :
        (p : ProofLoop c) (lanes : DispatchMessages c)
        → let after = (receive_lanes c at_bridged at_this p lanes).chain in
          (after.outbound_lanes ≡ p.chain.outbound_lanes)
          × (after.outbound_messages ≡ p.chain.outbound_messages)
          × (after.owned ≡ p.chain.owned)
    unfolding receive_lanes receive_lane
    receive_lanes-outbound p [] = (refl, refl, refl)
    receive_lanes-outbound p (lane ∷ lanes) =
        receive_lanes-outbound (receive_lane c at_bridged at_this p lane) lanes

  -- What a proof that is accepted has done to the pallet.
  pub record Accepted (s after : Chain c) (lanes : DispatchMessages c) : Type 0 where
    pub valid : LanesAreValid after
    pub others : (j : LaneId) → ¬ Names lanes j → after.inbound_lanes j ≡ s.inbound_lanes j
    pub outbound : after.outbound_lanes ≡ s.outbound_lanes
    pub messages : after.outbound_messages ≡ s.outbound_messages
    pub owned : after.owned ≡ s.owned

  check_delivery-ok :
      (s : Chain c) (origin : Origin) (proof : c.MessagesProof) (count : ℕ) {at_this : AccountId}
      {lanes : DispatchMessages c}
      → check_delivery c s origin proof count ≡ ok (at_this, lanes)
      → (verify_and_decode_messages_proof c proof count ≡ some lanes)
        × (count ≤ c.max_unconfirmed_messages)
        × (is_halted s.owned.mode ≡ false)
  unfolding check_delivery ensure_not_halted
  check_delivery-ok s origin proof count h = ground arith

  finish_Accepted :
      (s : Chain c) (proof : c.MessagesProof) (count : ℕ) (weight : c.Weight)
      (lanes : DispatchMessages c) (at_bridged at_this : AccountId)
      → LanesAreValid s
      → ((id : LaneId) → last_at s id + message_count lanes + 1 < u64_mod)
      → let start = start_proof c s proof count weight in
        Accepted s
          (finish_receiving c (receive_lanes c at_bridged at_this start lanes) at_this).0
          lanes
  unfolding finish_receiving
  finish_Accepted s proof count weight lanes at_bridged at_this v room =
      let start : ProofLoop c = start_proof c s proof count weight in
      let (outbound, messages, owned) = receive_lanes-outbound at_bridged at_this start lanes in
      record {
        valid =
            receive_lanes-LanesAreValid at_bridged at_this start lanes v
              (record { nonces = room; valid = omega (arith, room 0) });
        others = receive_lanes-others at_bridged at_this start lanes;
        outbound = outbound;
        messages = messages;
        owned = owned;
      }

  -- A call of `receive_messages_proof` that succeeds was made while the pallet was not halted,
  -- within the limit on messages and with a proof that verifies. From valid inbound lanes, and
  -- where no lane runs out of nonces, it leaves every inbound lane valid, and changes neither the
  -- lanes that the proof does not name nor the outbound lanes, the stored messages and the owner
  -- and mode of the pallet.
  pub receive_messages_proof-Accepted :
      (s : Chain c) (origin : Origin) (at_bridged : AccountId) (proof : c.MessagesProof) (count : ℕ)
      (weight : c.Weight) {after : Chain c} {actual : c.Weight}
      → receive_messages_proof c s origin at_bridged proof count weight ≡ ok (after, actual)
      → LanesAreValid s
      → ((lanes : DispatchMessages c) (id : LaneId)
          → verify_and_decode_messages_proof c proof count ≡ some lanes
          → last_at s id + message_count lanes + 1 < u64_mod)
      → (lanes : DispatchMessages c) × (verify_and_decode_messages_proof c proof count ≡ some lanes)
        × (count ≤ c.max_unconfirmed_messages)
        × (is_halted s.owned.mode ≡ false)
        × Accepted s after lanes
  unfolding receive_messages_proof
  receive_messages_proof-Accepted s origin at_bridged proof count weight done v room =
      let ((at_this, lanes), checked, e) =
        >>=-eq-ok (check_delivery c s origin proof count) _ done in
      let (verified, within, running) = check_delivery-ok s origin proof count checked in
      (
        lanes,
        verified,
        within,
        running,
        subst (λ a. Accepted s a lanes) (ap (λ (r : Chain c × c.Weight). r.0) (ok-injective e))
            (finish_Accepted s proof count weight lanes at_bridged at_this v
              (λ id. room lanes id verified)),
      )
