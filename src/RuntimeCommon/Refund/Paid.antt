-- ===== src/RuntimeCommon/Refund/Paid.antt =====
-- Which transactions are refunded (bin/runtime-common/src/refund_relayer_extension.rs).
use parity_bridges_common.Common.{
  ℕ, ◌-◌, ◌<◌, ◌≡◌, refl, ap, ◌∙◌, subst, ◌⊎◌, inl, inr, true, false, ◌&&◌, Option, none, some, ltb,
  ◌==◌, arith, Bool-cases, Option-cases, same_some, some_is_not_none,
}
use parity_bridges_common.Messages.Types.{MessageNonce, last_delivered_nonce}
use parity_bridges_common.Messages.Pallet
use parity_bridges_common.Grandpa.{HeaderId, Weight}
use parity_bridges_common.Grandpa.CallExt.{
  SubmitFinalityProofInfo, TransactionValidity, valid, stale, call,
  submit_finality_proof_info_from_args, check_obsolete, check_obsolete_submit_finality_proof,
}
use parity_bridges_common.Grandpa.CallExt
use parity_bridges_common.Parachains.{ParaId, ParaInfo, SubmitParachainHeadsInfo, is_obsolete}
use parity_bridges_common.Parachains
use parity_bridges_common.Relayers.{
  RewardsAccountParams, this_chain, bridged_chain, register_relayer_reward,
}
use parity_bridges_common.RuntimeCommon.{State}
use parity_bridges_common.RuntimeCommon.CallExt.{
  MessagesCallInfo, delivery, confirmation, base_info, was_partially_successful,
}
use parity_bridges_common.RuntimeCommon.Refund.{
  CallInfo, all_finality_and_msgs, parachain_finality_and_msgs, msgs, owner_for, weight_or,
  weight_sub, no_extra, PreDispatchData, submit_finality_proof_info, submit_parachain_heads_info,
  messages_call_info, DispatchInfo, PostDispatchInfo, Config, relay_updated, para_updated,
  refund_of, account_for, post_dispatch,
}

-- The nonce up to which the lane has got.
abbrev pub nonce_at :
    {World W R : Type 0} → Pallet.State World W R → MessagesCallInfo → MessageNonce
nonce_at s (delivery info) = last_delivered_nonce (s.inbound_lanes info.lane_id)
nonce_at s (confirmation info) = (s.outbound_lanes info.lane_id).latest_received_nonce

-- The weight that the call has used: all that was declared, where it tells nothing else.
abbrev pub weight_spent : Option Weight → Weight → Weight
weight_spent none declared = declared
weight_spent (some actual) declared = actual

weight_or-spent :
    (o : Option Weight) (declared : Weight) → weight_or o declared ≡ weight_spent o declared
weight_or-spent none declared = refl
weight_or-spent (some actual) declared = refl

minus_zero : (n : ℕ) → n - 0 ≡ n
minus_zero n = omega arith

weight_sub-no_extra : (w : Weight) → weight_sub w no_extra.0 ≡ w
weight_sub-no_extra w =
    λ i. record { ref_time = minus_zero w.ref_time i; proof_size = minus_zero w.proof_size i }

was_partially_successful-moved :
    {World W R : Type 0} (s : Pallet.State World W R) (m : MessagesCallInfo)
    → was_partially_successful s m ≡ ltb (base_info m).best_stored_nonce (nonce_at s m)
unfolding was_partially_successful
was_partially_successful-moved s (delivery info) = refl
was_partially_successful-moved s (confirmation info) = refl

module _ {Header Data World W R Paying : Type 0} (c : Config Header Paying)
    (s : State Data World W R Paying) where
  abbrev pub RelayUpdated : Option SubmitFinalityProofInfo → Type 0
  RelayUpdated o =
      (f : SubmitFinalityProofInfo)
      → o ≡ some f
      → (best : HeaderId) × (s.paras.relay.best_finalized ≡ some best)
        × (best.number ≡ f.block_number)

  abbrev pub ParaUpdated : Option SubmitParachainHeadsInfo → Type 0
  ParaUpdated o =
      (p : SubmitParachainHeadsInfo)
      → o ≡ some p
      → (stored : ParaInfo) × (s.paras.paras_info p.para_id ≡ some stored)
        × (stored.best_head_hash.at_relay_block_number ≡ p.at_relay_block_number)
        × (stored.best_head_hash.head_hash ≡ p.para_head_hash)

  -- Every part of the call has changed the chain: the relay header and the parachain head of the call
  -- are the best ones, and the lane has got beyond the nonce that was stored before.
  pub record IsHelpful (call_info : CallInfo) : Type 0 where
    pub relay : RelayUpdated (submit_finality_proof_info call_info)
    pub para : ParaUpdated (submit_parachain_heads_info call_info)
    pub moved :
        (base_info (messages_call_info call_info)).best_stored_nonce
        < nonce_at s.messages (messages_call_info call_info)

  relay_updated-decides :
      (o : Option SubmitFinalityProofInfo)
      → ((relay_updated c s o ≡ true) × RelayUpdated o)
        ⊎ ((relay_updated c s o ≡ false) × (¬ RelayUpdated o))
  unfolding relay_updated CallExt.was_successful
  relay_updated-decides none = inl (refl, λ f e. some_is_not_none e refl)
  relay_updated-decides (some f) = elim (Option-cases s.paras.relay.best_finalized) [
    | inl empty ↦ inr (rw empty refl, λ u. some_is_not_none (u f refl).1 empty)
    | inr (best, known) ↦ elim (Bool-cases (best.number == f.block_number)) [
      | inl same ↦ inl (
        rw known same,
        λ g e. (best, known, ground (arith, same) ∙ ap (λ i. i.block_number) (same_some refl e)),
      )
      | inr other ↦ inr (
        rw known other,
        λ u.
            let (b, known', same) = u f refl in
            let best_same = same_some known known' in
            ground (arith, other, ap (λ i. i.number) best_same, same),
      )
    ]
  ]

  para_updated-decides :
      (o : Option SubmitParachainHeadsInfo)
      → ((para_updated c s o ≡ true) × ParaUpdated o)
        ⊎ ((para_updated c s o ≡ false) × (¬ ParaUpdated o))
  unfolding para_updated Parachains.was_successful
  para_updated-decides none = inl (refl, λ f e. some_is_not_none e refl)
  para_updated-decides (some p) = elim (Option-cases (s.paras.paras_info p.para_id)) [
    | inl empty ↦ inr (
      rw (empty, para_updated, Parachains.was_successful) refl,
      λ u. some_is_not_none (u p refl).1 empty,
    )
    | inr (stored, known) ↦
        let at = stored.best_head_hash.at_relay_block_number == p.at_relay_block_number in
        let hash = stored.best_head_hash.head_hash == p.para_head_hash in
        elim (Bool-cases (at && hash)) [
          | inl same ↦ inl (
            rw (known, para_updated, Parachains.was_successful) same,
            λ q e.
                subst
                  (λ q.
                    (stored : ParaInfo) × (s.paras.paras_info q.para_id ≡ some stored)
                    × (stored.best_head_hash.at_relay_block_number ≡ q.at_relay_block_number)
                    × (stored.best_head_hash.head_hash ≡ q.para_head_hash))
                  (same_some refl e) (stored, known, ground (arith, same), ground (arith, same)),
          )
          | inr other ↦ inr (
            rw (known, para_updated, Parachains.was_successful) other,
            λ u.
                let (t, known', at_same, hash_same) = u p refl in
                let same = same_some known known' in
                ground (
                  arith,
                  other,
                  at_same,
                  hash_same,
                  ap (λ i. i.best_head_hash.at_relay_block_number) same,
                  ap (λ i. i.best_head_hash.head_hash) same,
                ),
          )
        ]
  ]

  -- What the refund calculator gives for the transaction, where the tip is 0, and the extra weight and
  -- size of a finality proof do not count.
  abbrev pub refund_due : CallInfo → DispatchInfo → PostDispatchInfo → ℕ → ℕ
  refund_due (all_finality_and_msgs finality para m) info post_info len =
      let spent = weight_spent post_info.actual_weight info.weight in
      c.compute_refund info
        (record post_info {
          actual_weight = some (record {
            ref_time = spent.ref_time - finality.extra_weight.ref_time;
            proof_size = spent.proof_size - finality.extra_weight.proof_size;
          });
        })
        (len - finality.extra_size) 0
  refund_due (parachain_finality_and_msgs para m) info post_info len =
      c.compute_refund info
        (record post_info {
          actual_weight = some (weight_spent post_info.actual_weight info.weight);
        })
        len 0
  refund_due (msgs m) info post_info len =
      c.compute_refund info
        (record post_info {
          actual_weight = some (weight_spent post_info.actual_weight info.weight);
        })
        len 0

  -- The account that the relayer is paid from: of this chain for a delivery, of the bridged chain for
  -- a confirmation.
  abbrev pub account_due : MessagesCallInfo → RewardsAccountParams
  account_due (delivery m) = record {
    lane_id = c.lane_id;
    bridged_chain_id = c.bridged_chain_id;
    owner = this_chain;
  }
  account_due (confirmation m) = record {
    lane_id = c.lane_id;
    bridged_chain_id = c.bridged_chain_id;
    owner = bridged_chain;
  }

  refund_in_full :
      (info : DispatchInfo) (post_info : PostDispatchInfo) (len : ℕ)
      → c.compute_refund info
          (record post_info {
            actual_weight =
                some (weight_sub (weight_or post_info.actual_weight info.weight) no_extra.0);
          })
          (len - no_extra.1)
          0
        ≡ c.compute_refund info
            (record post_info {
              actual_weight = some (weight_spent post_info.actual_weight info.weight);
            })
            len
            0
  refund_in_full info post_info len =
      let spent : Weight = weight_or post_info.actual_weight info.weight in
      let same = weight_sub-no_extra spent ∙ weight_or-spent post_info.actual_weight info.weight in
      λ i.
        c.compute_refund info (record post_info { actual_weight = some (same i) })
          (minus_zero len i) 0

  refund_of-due :
      (call_info : CallInfo) (info : DispatchInfo) (post_info : PostDispatchInfo) (len : ℕ)
      → refund_of c s call_info info post_info len ≡ refund_due call_info info post_info len
  refund_of-due (all_finality_and_msgs finality para m) info post_info len =
      ap
        (λ (spent : Weight).
          c.compute_refund info
            (record post_info { actual_weight = some (weight_sub spent finality.extra_weight) })
            (len - finality.extra_size) 0)
        (weight_or-spent post_info.actual_weight info.weight)
  refund_of-due (parachain_finality_and_msgs para m) info post_info len =
      refund_in_full info post_info len
  refund_of-due (msgs m) info post_info len = refund_in_full info post_info len

  account_for-due :
      (call_info : CallInfo)
      → account_for c s call_info ≡ account_due (messages_call_info call_info)
  account_for-due call_info = by_messages (messages_call_info call_info)
    where
      by_messages :
          (m : MessagesCallInfo)
          → (record {
            lane_id = c.lane_id;
            bridged_chain_id = c.bridged_chain_id;
            owner = owner_for m;
          })
            ≡ account_due m
      by_messages (delivery m) = refl
      by_messages (confirmation m) = refl

  -- For a recognized transaction that has succeeded, `post_dispatch` registers for its signer
  -- what the refund calculator gives without a tip and without the extra weight and size of the
  -- finality proof, to be paid from the lane's account of this chain for a delivery and of the
  -- bridged chain for a confirmation, exactly when the relay chain header and the parachain head
  -- that it has are the best ones and its lane has got beyond the nonce stored before; otherwise
  -- it changes nothing.
  pub post_dispatch-decides :
      (pre : PreDispatchData) (info : DispatchInfo) (post_info : PostDispatchInfo) (len : ℕ)
      → (IsHelpful pre.call_info
          × (post_dispatch c s (some (some pre)) info post_info len true ≡ record s {
            relayers =
                register_relayer_reward c.relayers s.relayers
                  (account_due (messages_call_info pre.call_info))
                  pre.relayer
                  (refund_due pre.call_info info post_info len);
          }))
        ⊎ ((¬ IsHelpful pre.call_info)
            × (post_dispatch c s (some (some pre)) info post_info len true ≡ s))
  unfolding post_dispatch
  post_dispatch-decides pre info post_info len =
      let m = messages_call_info pre.call_info in
      elim (relay_updated-decides (submit_finality_proof_info pre.call_info)) [
        | inr (not_relay, never) ↦ inr (λ h. never h.relay, rw not_relay refl)
        | inl (relay, relay_holds) ↦
            elim (para_updated-decides (submit_parachain_heads_info pre.call_info)) [
              | inr (not_para, never) ↦ inr (λ h. never h.para, rw (relay, not_para) refl)
              | inl (para, para_holds) ↦
                  elim (Bool-cases (ltb (base_info m).best_stored_nonce (nonce_at s.messages m))) [
                    | inl moved ↦ inl (
                      record {
                        relay = relay_holds;
                        para = para_holds;
                        moved = ground (arith, moved);
                      },
                      rw (relay, para, was_partially_successful-moved s.messages m ∙ moved)
                          (λ i. record s {
                            relayers =
                                register_relayer_reward c.relayers s.relayers
                                  (account_for-due pre.call_info i) pre.relayer
                                  (refund_of-due pre.call_info info post_info len i);
                          }),
                    )
                    | inr stuck ↦ inr (
                      λ h. ground (arith, stuck, h.moved),
                      rw (relay, para, was_partially_successful-moved s.messages m ∙ stuck) refl,
                    )
                  ]
            ]
      ]
