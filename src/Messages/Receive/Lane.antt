-- ===== src/Messages/Receive/Lane.antt =====
-- What the loop over the messages of one lane does (`receive_messages_proof` of
-- modules/messages/src/lib.rs).
use mathlib.Core.List.{append-nil, append_assoc, map-append, Sublist, nil-sublist}
use mathlib.Core.List.Sublist
use parity_bridges_common.Common.{
  ℕ, zero, suc, ◌+◌, ◌≤◌, ◌<◌, ◌≡◌, ◌≢◌, refl, sym, ap, ◌∙◌, ◌⊎◌, inl, inr, List, [], ◌∷◌, ◌++◌,
  length, length-append, map, add_u64, u64_mod, arith, if_elim, range_from,
}
use parity_bridges_common.Messages.Types.{
  LaneId, MessageNonce, AccountId, DispatchMessage, last_delivered_nonce, ReceivedMessages,
  ReceivalResult, dispatched, invalid_nonce, too_many_unrewarded_relayers,
  too_many_unconfirmed_messages, MessageDispatchResult,
}
use parity_bridges_common.Messages.Inbound.{InboundLane}
use parity_bridges_common.Messages.Inbound.State.{IsValid, SameLimits, SameLimits-trans}
use parity_bridges_common.Messages.Inbound.Receive.{receive_message-decides, noted-IsValid}
use parity_bridges_common.Messages.Pallet.{Config}
use parity_bridges_common.Messages.Receive.{
  LaneLoop, count_valid, deliver_one, receive_one, receive_all,
}

range_from-append : (n j k : ℕ) → range_from n j ++ range_from (n + j) k ≡ range_from n (j + k)
range_from-append n zero k =
    let none_more : n + 0 ≡ n = omega arith in
    let same : k ≡ 0 + k = omega arith in
    ap (λ m. range_from m k) none_more ∙ ap (range_from n) same
range_from-append n (suc j) k =
    let shifted : n + suc j ≡ n + 1 + j = omega arith in
    let longer : suc (j + k) ≡ suc j + k = omega arith in
    ap (λ m. n ∷ (range_from (n + 1) j ++ range_from m k)) shifted
    ∙ ap (λ ns. n ∷ ns) (range_from-append (n + 1) j k)
    ∙ ap (range_from n) longer

module _ {W R : Type 0} where
  abbrev pub dispatched_nonces : List (MessageNonce × ReceivalResult W R) → List MessageNonce
  dispatched_nonces [] = []
  dispatched_nonces ((n, dispatched r) ∷ rs) = n ∷ dispatched_nonces rs
  dispatched_nonces ((n, invalid_nonce) ∷ rs) = dispatched_nonces rs
  dispatched_nonces ((n, too_many_unrewarded_relayers) ∷ rs) = dispatched_nonces rs
  dispatched_nonces ((n, too_many_unconfirmed_messages) ∷ rs) = dispatched_nonces rs

  dispatched_nonces-append :
      (rs qs : List (MessageNonce × ReceivalResult W R))
      → dispatched_nonces (rs ++ qs) ≡ dispatched_nonces rs ++ dispatched_nonces qs
  dispatched_nonces-append [] qs = refl
  dispatched_nonces-append ((n, dispatched r) ∷ rs) qs = ap (◌∷◌ n) (dispatched_nonces-append rs qs)
  dispatched_nonces-append ((n, invalid_nonce) ∷ rs) qs = dispatched_nonces-append rs qs
  dispatched_nonces-append ((n, too_many_unrewarded_relayers) ∷ rs) qs =
      dispatched_nonces-append rs qs
  dispatched_nonces-append ((n, too_many_unconfirmed_messages) ∷ rs) qs =
      dispatched_nonces-append rs qs

  not_dispatched :
      (rs : List (MessageNonce × ReceivalResult W R)) (n : MessageNonce) (r : ReceivalResult W R)
      → ((x : MessageDispatchResult W R) → r ≢ dispatched x)
      → dispatched_nonces (rs ++ (n, r) ∷ []) ≡ dispatched_nonces rs
  not_dispatched rs n (dispatched x) h = absurd (h x refl)
  not_dispatched rs n invalid_nonce h = dispatched_nonces-append rs _ ∙ append-nil _
  not_dispatched rs n too_many_unrewarded_relayers h = dispatched_nonces-append rs _ ∙ append-nil _
  not_dispatched rs n too_many_unconfirmed_messages h = dispatched_nonces-append rs _ ∙ append-nil _

module _ (c : Config) where
  count_valid-rejected :
      (r : ReceivalResult c.Weight c.DispatchLevelResult) (valid : ℕ)
      → ((x : MessageDispatchResult c.Weight c.DispatchLevelResult) → r ≢ dispatched x)
      → count_valid c r valid ≡ valid
  count_valid-rejected (dispatched x) valid h = absurd (h x refl)
  count_valid-rejected invalid_nonce valid h = refl
  count_valid-rejected too_many_unrewarded_relayers valid h = refl
  count_valid-rejected too_many_unconfirmed_messages valid h = refl

  abbrev pub last_of : LaneLoop c → MessageNonce
  last_of st = last_delivered_nonce st.lane.lane_data

  -- The rest of the chain after the messages have been dispatched one after the other, each as a
  -- message of the lane, with the payload that `dispatch_weight` makes of it.
  abbrev pub dispatch_all :
      LaneId → AccountId → c.World → List (DispatchMessage c.DispatchPayload) → c.World
  dispatch_all id at_this world [] = world
  dispatch_all id at_this world (m ∷ ms) =
      dispatch_all id at_this
        (c.dispatcher.dispatch world at_this (record {
          key = record { lane_id = id; nonce = m.key.nonce };
          message_data = (c.dispatcher.dispatch_weight m).0;
        })).0
        ms

  dispatch_all-append :
      (id : LaneId) (at_this : AccountId) (xs ys : List (DispatchMessage c.DispatchPayload))
      (world : c.World)
      → dispatch_all id at_this (dispatch_all id at_this world xs) ys
        ≡ dispatch_all id at_this world (xs ++ ys)
  dispatch_all-append id at_this [] ys world = refl
  dispatch_all-append id at_this (x ∷ xs) ys world = dispatch_all-append id at_this xs ys _

  -- How many messages the status tells of.
  abbrev pub reported : ReceivedMessages c.Weight c.DispatchLevelResult → ℕ
  reported status = length status.receive_results + length status.skipped_for_not_enough_weight

  -- From `st` to `after` the lane has taken `k` of the messages, the next ones of the lane, in order,
  -- has dispatched these and no others.
  pub record Delivers (at_this : AccountId) (ms : List (DispatchMessage c.DispatchPayload))
      (st after : LaneLoop c) (k : ℕ) : Type 0 where
    pub lane : IsValid after.lane
    pub last : last_of after ≡ last_of st + k
    pub nonces :
        dispatched_nonces after.status.receive_results
        ≡ dispatched_nonces st.status.receive_results ++ range_from (last_of st + 1) k
    pub counted : after.valid ≡ st.valid + k
    pub all_reported : reported after.status ≡ reported st.status + length ms
    pub limits : SameLimits st.lane after.lane
    pub same_id : after.lane.id ≡ st.lane.id
    pub taken : List (DispatchMessage c.DispatchPayload)
    pub among : Sublist taken ms
    pub numbered : map (λ m. m.key.nonce) taken ≡ range_from (last_of st + 1) k
    pub world : after.world ≡ dispatch_all st.lane.id at_this st.world taken

  Delivers-none :
      (at_this : AccountId) (ms : List (DispatchMessage c.DispatchPayload)) (st after : LaneLoop c)
      → IsValid st.lane
      → after.world ≡ st.world
      → after.lane ≡ st.lane
      → dispatched_nonces after.status.receive_results ≡ dispatched_nonces st.status.receive_results
      → after.valid ≡ st.valid
      → reported after.status ≡ reported st.status + length ms
      → Delivers at_this ms st after 0
  Delivers-none at_this ms st after v same l d n told = record {
    all_reported = told;
    lane = rw l v;
    last = ap (λ (x : InboundLane). last_delivered_nonce x.lane_data) l ∙ omega arith;
    nonces = d ∙ sym (append-nil _);
    counted = omega arith;
    limits = record {
      entries = ap (λ (x : InboundLane). x.max_unrewarded_relayer_entries) l;
      messages = ap (λ (x : InboundLane). x.max_unconfirmed_messages) l;
    };
    same_id = ap (λ (x : InboundLane). x.id) l;
    taken = [];
    among = nil-sublist ms;
    numbered = refl;
    world = same;
  }

  module _ (at_bridged at_this : AccountId) where
    deliver_one-Delivers :
        (st : LaneLoop c) (m : DispatchMessage c.DispatchPayload)
        → IsValid st.lane
        → last_of st + 2 < u64_mod
        → st.valid + 1 < u64_mod
        → let (msg, w) = c.dispatcher.dispatch_weight m in
          let after = deliver_one c at_bridged at_this st m.key.nonce msg w in
          Delivers at_this (m ∷ []) st after 0 ⊎ Delivers at_this (m ∷ []) st after 1
    unfolding deliver_one
    deliver_one-Delivers st m v room space =
        let nonce = m.key.nonce in
        let (msg, w) = c.dispatcher.dispatch_weight m in
        elim (receive_message-decides c.dispatcher st.lane st.world at_bridged at_this nonce msg
          room v) [
            | inl (a, e) ↦
                let taken = noted-IsValid st.lane at_bridged nonce (omega (arith, a.next)) v a in
                inr (
                  rw (e, deliver_one)
                    (record {
                      lane = taken.0;
                      last = taken.1 ∙ a.next;
                      nonces =
                          dispatched_nonces-append st.status.receive_results _
                          ∙ ap (λ n. dispatched_nonces st.status.receive_results ++ n ∷ []) a.next;
                      counted = omega arith;
                      all_reported =
                          ap (λ n. n + length st.status.skipped_for_not_enough_weight)
                            (length-append st.status.receive_results _)
                          ∙ omega arith;
                      limits = record { entries = refl; messages = refl };
                      same_id = refl;
                      taken = m ∷ [];
                      among = Sublist.refl (m ∷ []);
                      numbered = ap (λ n. n ∷ []) a.next;
                      world = refl;
                    }))
            | inr (_, l, same, r) ↦ inl (
                Delivers-none at_this (m ∷ []) st _ v same l
                  (not_dispatched st.status.receive_results nonce _ r)
                  (count_valid-rejected _ st.valid r)
                  (ap (λ n. n + length st.status.skipped_for_not_enough_weight)
                      (length-append st.status.receive_results _)
                    ∙ omega arith))
          ]

    receive_one-Delivers :
        (st : LaneLoop c) (m : DispatchMessage c.DispatchPayload)
        → IsValid st.lane
        → last_of st + 2 < u64_mod
        → st.valid + 1 < u64_mod
        → let after = receive_one c at_bridged at_this st m in
          Delivers at_this (m ∷ []) st after 0 ⊎ Delivers at_this (m ∷ []) st after 1
    unfolding receive_one
    receive_one-Delivers st m v room space =
        let P = λ (after : LaneLoop c).
          Delivers at_this (m ∷ []) st after 0 ⊎ Delivers at_this (m ∷ []) st after 1 in
        let skipped = inl (
          Delivers-none at_this (m ∷ []) st _ v refl refl refl refl (
            omega
              (arith, length-append st.status.skipped_for_not_enough_weight (m.key.nonce ∷ [])))) in
        let counted = record st { total = add_u64 st.total 1 } in
        let (payload, weight) = c.dispatcher.dispatch_weight m in
        if_elim P st.stopped _ _ skipped (
          if_elim P (c.weights.any_gt weight st.weight_left) _ _ skipped
            (counted_Delivers (deliver_one-Delivers counted m v room space)))
      where
        counted_Delivers :
            {after : LaneLoop c}
            → Delivers at_this (m ∷ []) (record st { total = add_u64 st.total 1 }) after 0
              ⊎ Delivers at_this (m ∷ []) (record st { total = add_u64 st.total 1 }) after 1
            → Delivers at_this (m ∷ []) st after 0 ⊎ Delivers at_this (m ∷ []) st after 1
        counted_Delivers (inl d) = inl (record {
          lane = d.lane;
          last = d.last;
          nonces = d.nonces;
          counted = d.counted;
          all_reported = d.all_reported;
          limits = d.limits;
          same_id = d.same_id;
          taken = d.taken;
          among = d.among;
          numbered = d.numbered;
          world = d.world;
        })
        counted_Delivers (inr d) = inr (record {
          lane = d.lane;
          last = d.last;
          nonces = d.nonces;
          counted = d.counted;
          all_reported = d.all_reported;
          limits = d.limits;
          same_id = d.same_id;
          taken = d.taken;
          among = d.among;
          numbered = d.numbered;
          world = d.world;
        })

    Delivers-append :
        (xs ys : List (DispatchMessage c.DispatchPayload)) (st mid after : LaneLoop c) (j k : ℕ)
        → Delivers at_this xs st mid j
        → Delivers at_this ys mid after k
        → Delivers at_this (xs ++ ys) st after (j + k)
    Delivers-append xs ys st mid after j k d e = record {
      lane = e.lane;
      last = omega (arith, d.last, e.last);
      nonces =
          e.nonces
          ∙ rw d.nonces (append_assoc before.0 before.1 _ ∙ ap (λ ns. before.0 ++ ns) numbers);
      counted = omega (arith, d.counted, e.counted);
      all_reported = omega (arith, d.all_reported, e.all_reported, length-append xs ys);
      limits = SameLimits-trans st.lane mid.lane after.lane d.limits e.limits;
      same_id = e.same_id ∙ d.same_id;
      taken = d.taken ++ e.taken;
      among = Sublist.append d.among e.among;
      numbered =
          map-append (λ (m : DispatchMessage c.DispatchPayload). m.key.nonce) d.taken e.taken
          ∙ rw (d.numbered, e.numbered) numbers;
      world =
          e.world
          ∙ rw (d.same_id, d.world)
              (dispatch_all-append st.lane.id at_this d.taken e.taken st.world);
    }
      where
        before : List MessageNonce × List MessageNonce
        before = (dispatched_nonces st.status.receive_results, range_from (last_of st + 1) j)

        numbers :
            range_from (last_of st + 1) j ++ range_from (last_of mid + 1) k
            ≡ range_from (last_of st + 1) (j + k)
        numbers =
            ap (λ n. range_from (last_of st + 1) j ++ range_from n k) (omega (arith, d.last))
            ∙ range_from-append (last_of st + 1) j k

    pub receive_all-Delivers :
        (st : LaneLoop c) (ms : List (DispatchMessage c.DispatchPayload))
        → IsValid st.lane
        → last_of st + length ms + 1 < u64_mod
        → st.valid + length ms < u64_mod
        → (k : ℕ) × (k ≤ length ms)
          × Delivers at_this ms st (receive_all c at_bridged at_this st ms) k
    unfolding receive_all
    receive_all-Delivers st [] v room space =
        (0, omega arith, Delivers-none at_this [] st st v refl refl refl refl (omega arith))
    receive_all-Delivers st (m ∷ ms) v room space =
        let mid = receive_one c at_bridged at_this st m in
        elim (receive_one-Delivers st m v (omega arith) (omega arith)) [
          | inl d ↦
              let (k, le, e) =
                receive_all-Delivers mid ms d.lane (omega (arith, d.last))
                  (omega (arith, d.counted)) in
              (0 + k, omega (arith, le), Delivers-append (m ∷ []) ms st mid _ 0 k d e)
          | inr d ↦
              let (k, le, e) =
                receive_all-Delivers mid ms d.lane (omega (arith, d.last))
                  (omega (arith, d.counted)) in
              (1 + k, omega (arith, le), Delivers-append (m ∷ []) ms st mid _ 1 k d e)
        ]
