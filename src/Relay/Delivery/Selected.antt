-- ===== src/Relay/Delivery/Selected.antt =====
-- When the delivery strategy selects messages (relays/messages/src/message_race_delivery.rs).
use parity_bridges_common.Common.{
  ℕ, ◌≡◌, refl, sym, ap, ◌∙◌, same_some, false, inl, inr, some, min, ltb, if◌then◌else◌, Bool-cases,
}
use parity_bridges_common.Common.Options.{◌>>=◌, >>=-eq-some}
use parity_bridges_common.Messages.Types.{MessageNonce}
use parity_bridges_common.Relay.Race.{HeaderId, RangeInclusive, TargetClientNonces, RaceState}
use parity_bridges_common.Relay.Ranges.{details_maps}
use parity_bridges_common.Relay.Strategy.{available_source_queue_indices}
use parity_bridges_common.Relay.Limits.{BatchWeights, BatchReference, decide}
use parity_bridges_common.Relay.Delivery.{
  MessageDeliveryStrategy, DeliveryRaceTargetNoncesData, MessageProofParameters, confirmed_by,
  awaits_confirmations, awaits_rewards, max_nonces_for, dispatch_weight_for_range, select_from,
  select_for_target, select_nonces_to_deliver,
}

module _ {W Proof BatchTx : Type 0} (w : BatchWeights W) (s : MessageDeliveryStrategy W)
    (race : RaceState Proof BatchTx) where
  abbrev pub reference_for :
      MessageNonce
      → TargetClientNonces DeliveryRaceTargetNoncesData
      → MessageNonce
      → ℕ × ℕ
      → BatchReference W
  reference_for best target at_source indices =
      let at_target = target.nonces_data.confirmed_nonce in
      record {
        max_messages_in_this_batch =
            min
              (max_nonces_for target.latest_nonce
                (if ltb at_target at_source then at_source else at_target)
                s.max_unconfirmed_nonces_at_target)
              s.max_messages_in_single_batch;
        max_messages_weight_in_single_batch = s.max_messages_weight_in_single_batch;
        max_messages_size_in_single_batch = s.max_messages_size_in_single_batch;
        best_target_nonce = best;
        nonces_queue = s.strategy.source_queue;
        nonces_queue_range = indices;
      }

  abbrev params_for :
      TargetClientNonces DeliveryRaceTargetNoncesData
      → MessageNonce
      → RangeInclusive
      → MessageProofParameters W
  params_for target at_source range = record {
    outbound_state_proof_required = ltb target.nonces_data.confirmed_nonce at_source;
    dispatch_weight = dispatch_weight_for_range w s range;
  }

  select_for_target-eq-some :
      (best at_source : MessageNonce) (target : TargetClientNonces DeliveryRaceTargetNoncesData)
      (selected : RangeInclusive × MessageProofParameters W)
      → select_for_target w s race best at_source target ≡ some selected
      → (awaits_confirmations target.latest_nonce at_source s.max_unconfirmed_nonces_at_target
          ≡ false)
        × (awaits_rewards target.nonces_data.unrewarded_relayers at_source
              target.nonces_data.confirmed_nonce s.max_unrewarded_relayer_entries_at_target
            ≡ false)
        × (indices : ℕ × ℕ) × (available_source_queue_indices s.strategy race ≡ some indices)
        × (select_from w s best target at_source indices ≡ some selected)
  unfolding select_for_target
  select_for_target-eq-some best at_source target selected e =
      elim (Bool-cases
        (awaits_confirmations target.latest_nonce at_source s.max_unconfirmed_nonces_at_target)) [
          | inl waits ↦ let stopped = rw waits at e in cc
          | inr confirmed ↦
              elim (Bool-cases (
                awaits_rewards target.nonces_data.unrewarded_relayers at_source
                  target.nonces_data.confirmed_nonce s.max_unrewarded_relayer_entries_at_target)) [
                    | inl waits ↦ let stopped = rw (confirmed, waits) at e in cc
                    | inr rewarded ↦
                        let (indices, available, e') =
                          >>=-eq-some (available_source_queue_indices s.strategy race)
                            (select_from w s best target at_source)
                            (rw (confirmed, rewarded) at e) in
                        (confirmed, rewarded, indices, available, e')
                  ]
        ]

  -- What is known when a range is selected.
  pub record Selected (range : RangeInclusive) (params : MessageProofParameters W) : Type 0 where
    pub best : MessageNonce
    pub header : HeaderId
    pub target : TargetClientNonces DeliveryRaceTargetNoncesData
    pub indices : ℕ × ℕ
    pub at_source : MessageNonce
    pub best_known : s.strategy.best_target_nonce ≡ some best
    pub header_known : race.best_finalized_source_header_id_at_best_target ≡ some header
    pub target_known : s.target_nonces ≡ some target
    pub at_source_known :
        at_source ≡ confirmed_by header.number s.latest_confirmed_nonces_at_source best
    pub confirmed :
        awaits_confirmations target.latest_nonce at_source s.max_unconfirmed_nonces_at_target
        ≡ false
    pub rewarded :
        awaits_rewards target.nonces_data.unrewarded_relayers at_source
          target.nonces_data.confirmed_nonce s.max_unrewarded_relayer_entries_at_target
        ≡ false
    pub available : available_source_queue_indices s.strategy race ≡ some indices
    pub decided : decide w (reference_for best target at_source indices) ≡ some range
    pub with_state :
        params.outbound_state_proof_required ≡ ltb target.nonces_data.confirmed_nonce at_source
    pub weighed : params.dispatch_weight ≡ dispatch_weight_for_range w s range

  pub select_nonces_to_deliver-Selected :
      (range : RangeInclusive) (params : MessageProofParameters W)
      → select_nonces_to_deliver w s race ≡ some (range, params)
      → Selected range params
  unfolding select_nonces_to_deliver select_from
  select_nonces_to_deliver-Selected range params e =
      let at = λ (best : MessageNonce) (header : HeaderId).
        confirmed_by header.number s.latest_confirmed_nonces_at_source best in
      let with_header = λ (best : MessageNonce) (header : HeaderId).
        s.target_nonces >>= select_for_target w s race best (at best header) in
      let with_best = λ (best : MessageNonce).
        race.best_finalized_source_header_id_at_best_target >>= with_header best in
      let (best, best_known, e₁) = >>=-eq-some s.strategy.best_target_nonce with_best e in
      let (header, header_known, e₂) =
        >>=-eq-some race.best_finalized_source_header_id_at_best_target (with_header best) e₁ in
      let (target, target_known, e₃) =
        >>=-eq-some s.target_nonces (select_for_target w s race best (at best header)) e₂ in
      let (confirmed, rewarded, indices, available, e₄) =
        select_for_target-eq-some best (at best header) target (range, params) e₃ in
      let (range', decided, e₅) =
        >>=-eq-some (decide w (reference_for best target (at best header) indices))
          (λ r. some (r, params_for target (at best header) r)) e₄ in
      let pair : (range' ≡ range) × (params_for target (at best header) range' ≡ params) =
        (ap (λ o. o.0) (same_some refl e₅), ap (λ o. o.1) (same_some refl e₅)) in
      record {
        best = best;
        header = header;
        target = target;
        indices = indices;
        at_source = at best header;
        best_known = best_known;
        header_known = header_known;
        target_known = target_known;
        at_source_known = refl;
        confirmed = confirmed;
        rewarded = rewarded;
        available = available;
        decided = decided ∙ ap some pair.0;
        with_state = ap (λ p. p.outbound_state_proof_required) (sym pair.1);
        weighed =
            ap (λ p. p.dispatch_weight) (sym pair.1) ∙ ap (dispatch_weight_for_range w s) pair.0;
      }
