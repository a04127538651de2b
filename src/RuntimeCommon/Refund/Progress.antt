-- ===== src/RuntimeCommon/Refund/Progress.antt =====
-- What a refunded transaction has done between its two ends: `pre_dispatch` in one state and
-- `post_dispatch` in a later one (bin/runtime-common/src/refund_relayer_extension.rs).
use parity_bridges_common.Common.{
  ℕ, ◌<◌, ◌≡◌, ◌≢◌, refl, inl, inr, Bool, true, false, Option, none, some, ok, arith,
}
use parity_bridges_common.Messages.Types.{AccountId}
use parity_bridges_common.Grandpa.CallExt.{SubmitFinalityProofInfo}
use parity_bridges_common.Parachains.{SubmitParachainHeadsInfo}
use parity_bridges_common.RuntimeCommon.{State}
use parity_bridges_common.RuntimeCommon.CallExt.{base_info}
use parity_bridges_common.RuntimeCommon.Refund.{
  Transaction, PreDispatchData, submit_finality_proof_info, submit_parachain_heads_info,
  messages_call_info, DispatchInfo, PostDispatchInfo, Config, pre_dispatch, post_dispatch,
}
use parity_bridges_common.RuntimeCommon.Refund.Paid.{
  nonce_at, RelayUpdated, ParaUpdated, post_dispatch-decides,
}
use parity_bridges_common.RuntimeCommon.Refund.Checked.{IsNewHead, IsNewHeader}
use parity_bridges_common.RuntimeCommon.Refund.Parsed.{pre_dispatch-Parsed}

module _ {Header Data World W R Paying : Type 0} (c : Config Header Paying)
    (s : State Data World W R Paying) where
  -- What has come about between the two states.
  pub record Progress (after : State Data World W R Paying) (who : AccountId)
      (parsed : PreDispatchData) : Type 0 where
    pub relayer : parsed.relayer ≡ who
    pub lane : (base_info (messages_call_info parsed.call_info)).lane_id ≡ c.lane_id
    pub new_nonces :
        nonce_at s.messages (messages_call_info parsed.call_info)
        < (base_info (messages_call_info parsed.call_info)).best_bundled_nonce
    pub moved :
        nonce_at s.messages (messages_call_info parsed.call_info)
        < nonce_at after.messages (messages_call_info parsed.call_info)
    pub new_header :
        (f : SubmitFinalityProofInfo)
        → submit_finality_proof_info parsed.call_info ≡ some f
        → IsNewHeader c s f
    pub relay : RelayUpdated c after (submit_finality_proof_info parsed.call_info)
    pub new_head :
        (p : SubmitParachainHeadsInfo)
        → submit_parachain_heads_info parsed.call_info ≡ some p
        → IsNewHead c s p
    pub para : ParaUpdated c after (submit_parachain_heads_info parsed.call_info)

module _ {Header ParaHeads V Data World W R Paying : Type 0} (c : Config Header Paying)
    (s : State Data World W R Paying) where
  -- Where `pre_dispatch` has let a transaction pass in one state and `post_dispatch` changes a
  -- later state, the transaction has succeeded and was recognized, and what is registered is for
  -- its signer. The messages call is for the configured lane and had nonces above the lane's, and
  -- the lane has got further between the two states. If the transaction has a relay chain header,
  -- it was above the best one and has become the best one; if it has a head of a parachain, this
  -- is the configured one, the head was not obsolete and is the best one.
  pub post_dispatch-Progress :
      (after : State Data World W R Paying) (who : AccountId)
      (transaction : Transaction Header ParaHeads V) (pre : Option PreDispatchData)
      (info : DispatchInfo) (post_info : PostDispatchInfo) (len : ℕ) (succeeded : Bool)
      → pre_dispatch c s who transaction ≡ ok pre
      → post_dispatch c after (some pre) info post_info len succeeded ≢ after
      → (succeeded ≡ true)
        × (parsed : PreDispatchData) × (pre ≡ some parsed)
        × Progress c s after who parsed
  unfolding post_dispatch
  post_dispatch-Progress after who transaction pre info post_info len false e changed =
      absurd (changed (unchanged pre))
    where
      unchanged :
          (pre : Option PreDispatchData)
          → post_dispatch c after (some pre) info post_info len false ≡ after
      unchanged none = refl
      unchanged (some parsed) = refl
  post_dispatch-Progress after who transaction none info post_info len true e changed =
      absurd (changed refl)
  post_dispatch-Progress after who transaction (some parsed) info post_info len true e changed =
      let (relayer, found) = pre_dispatch-Parsed c s who transaction parsed e in
      let (lane, stored, new) = found.fresh in
      elim (post_dispatch-decides c after parsed info post_info len) [
        | inr (unhelpful, same) ↦ absurd (changed same)
        | inl (helpful, paid) ↦ (
          refl,
          parsed,
          refl,
          record {
            relayer = relayer;
            lane = lane;
            new_nonces = omega (arith, stored, new);
            moved = omega (arith, stored, helpful.moved);
            new_header = found.relay;
            relay = helpful.relay;
            new_head = found.para;
            para = helpful.para;
          },
        )
      ]
