-- ===== src/RuntimeCommon/Refund/Checked.antt =====
-- What the checks of a nested call say (bin/runtime-common/src/refund_relayer_extension.rs).
use parity_bridges_common.Common.{
  ◌<◌, ◌≡◌, refl, sym, subst, inl, inr, false, none, some, Result, ok, err, leb, ◌==◌,
  if◌then◌else◌, arith, Bool-cases, same_some, some_is_not_none,
}
use parity_bridges_common.Common.Options.{>>=-eq-some}
use parity_bridges_common.Grandpa.{HeaderId, Error, old_header}
use parity_bridges_common.Grandpa.CallExt.{
  SubmitFinalityProofInfo, TransactionValidity, valid, stale, call,
  submit_finality_proof_info_from_args, check_obsolete, check_obsolete_submit_finality_proof,
}
use parity_bridges_common.Grandpa.Submit.{check_obsolete-newer}
use parity_bridges_common.Parachains.{SubmitParachainHeadsInfo, is_obsolete}
use parity_bridges_common.Parachains.Submit.{
  one_entry_submit_parachain_heads_info, check_obsolete_submit_parachain_heads,
}
use parity_bridges_common.RuntimeCommon.{
  RuntimeCall, submit_finality_proof_call, submit_parachain_heads_call, receive_messages_proof_call,
  receive_messages_delivery_proof_call, other_call, State,
}
use parity_bridges_common.RuntimeCommon.CallExt.{
  MessagesCallInfo, base_info, call_info, call_info_for, check_obsolete_call,
}
use parity_bridges_common.RuntimeCommon.Refund.{
  Config, check_finality, check_parachain, finality_info, heads_info,
  submit_parachain_heads_info_for,
}
use parity_bridges_common.RuntimeCommon.Refund.Paid.{nonce_at}

module _ {Header Data World W R Paying : Type 0} (c : Config Header Paying)
    (s : State Data World W R Paying) where
  -- The messages part of a call is for the lane and has nonces above the stored one.
  abbrev pub IsFresh : MessagesCallInfo → Type 0
  IsFresh m =
      ((base_info m).lane_id ≡ c.lane_id)
      × ((base_info m).best_stored_nonce ≡ nonce_at s.messages m)
      × ((base_info m).best_stored_nonce < (base_info m).best_bundled_nonce)

  -- The parachain head of a call is the configured parachain's and not known yet.
  abbrev pub IsNewHead : SubmitParachainHeadsInfo → Type 0
  IsNewHead p = (p.para_id ≡ c.para_id) × (is_obsolete s.paras p ≡ false)

  -- The relay chain header of a call is above the best one.
  abbrev pub IsNewHeader : SubmitFinalityProofInfo → Type 0
  IsNewHeader f =
      (old : HeaderId) × (s.paras.relay.best_finalized ≡ some old) × (old.number < f.block_number)

module _ {Header ParaHeads V Data World W R Paying : Type 0} (c : Config Header Paying)
    (s : State Data World W R Paying) where
  call_info_stored :
      (nested : RuntimeCall Header ParaHeads V) (m : MessagesCallInfo)
      → call_info s.messages nested ≡ some m
      → (base_info m).best_stored_nonce ≡ nonce_at s.messages m
  unfolding call_info
  call_info_stored (receive_messages_proof_call relayer proof count weight) m e =
      subst (λ t. (base_info t).best_stored_nonce ≡ nonce_at s.messages t) (same_some refl e) refl
  call_info_stored (receive_messages_delivery_proof_call proof relayers) m e =
      subst (λ t. (base_info t).best_stored_nonce ≡ nonce_at s.messages t) (same_some refl e) refl
  call_info_stored (submit_finality_proof_call target justification) m e = cc
  call_info_stored (submit_parachain_heads_call at parachains proof) m e = cc
  call_info_stored other_call m e = cc

  pub call_info_for-IsFresh :
      (nested : RuntimeCall Header ParaHeads V) (m : MessagesCallInfo)
      → call_info_for s.messages c.lane_id nested ≡ some m
      → check_obsolete_call s.messages nested ≡ valid
      → IsFresh c s m
  unfolding call_info_for check_obsolete_call
  call_info_for-IsFresh nested m e checked =
      let (info, found, e1) =
        >>=-eq-some (call_info s.messages nested)
          (λ (info : MessagesCallInfo).
            if (base_info info).lane_id == c.lane_id then some info else none)
          e in
      elim (Bool-cases ((base_info info).lane_id == c.lane_id)) [
        | inr other ↦ some_is_not_none e1 (rw other refl)
        | inl own ↦
            let same : info ≡ m = same_some (rw own refl) e1 in
            elim (Bool-cases
              (leb (base_info info).best_bundled_nonce (base_info info).best_stored_nonce)) [
                | inl old ↦
                    absurd (not_valid (sym (rw (found, old, check_obsolete_call) at checked)))
                | inr new ↦
                    subst (IsFresh c s) same
                      (ground (arith, own), call_info_stored nested info found, ground (arith, new))
              ]
      ]
    where
      not_valid : ¬ (◌≡◌ {A = TransactionValidity} valid stale)
      not_valid h = cc

  heads_info-checked :
      (nested : RuntimeCall Header ParaHeads V) (p : SubmitParachainHeadsInfo)
      → heads_info c s nested ≡ some p
      → check_parachain c s nested ≡ valid
      → is_obsolete s.paras p ≡ false
  unfolding check_parachain check_obsolete_submit_parachain_heads
  heads_info-checked (submit_parachain_heads_call (number, hash) parachains proof) p e checked =
      let found : one_entry_submit_parachain_heads_info number parachains ≡ some p = e in
      elim (Bool-cases (is_obsolete s.paras p)) [
        | inl old ↦ absurd (
            not_valid (
              sym (
                rw (found, old, check_parachain, check_obsolete_submit_parachain_heads) at
                  checked)))
        | inr new ↦ new
      ]
    where
      not_valid : ¬ (◌≡◌ {A = TransactionValidity} valid stale)
      not_valid h = cc
  heads_info-checked (submit_finality_proof_call target justification) p e checked = cc
  heads_info-checked (receive_messages_proof_call relayer proof count weight) p e checked = cc
  heads_info-checked (receive_messages_delivery_proof_call proof relayers) p e checked = cc
  heads_info-checked other_call p e checked = cc

  pub submit_parachain_heads_info_for-IsNewHead :
      (nested : RuntimeCall Header ParaHeads V) (p : SubmitParachainHeadsInfo)
      → submit_parachain_heads_info_for c s nested ≡ some p
      → check_parachain c s nested ≡ valid
      → IsNewHead c s p
  unfolding submit_parachain_heads_info_for
  submit_parachain_heads_info_for-IsNewHead nested p e checked =
      let (info, found, e1) =
        >>=-eq-some (heads_info c s nested)
          (λ (info : SubmitParachainHeadsInfo).
            if info.para_id == c.para_id then some info else none)
          e in
      elim (Bool-cases (info.para_id == c.para_id)) [
        | inr other ↦ some_is_not_none e1 (rw other refl)
        | inl own ↦
            subst (IsNewHead c s) (same_some (rw own refl) e1)
              (ground (arith, own), heads_info-checked nested info found checked)
      ]

  pub finality_info-IsNewHeader :
      (nested : RuntimeCall Header ParaHeads V) (f : SubmitFinalityProofInfo)
      → finality_info c s nested ≡ some f
      → check_finality c s nested ≡ valid
      → IsNewHeader c s f
  unfolding check_finality check_obsolete_submit_finality_proof
  finality_info-IsNewHeader (submit_finality_proof_call target justification) f e checked =
      let info = submit_finality_proof_info_from_args c.grandpa target justification in
      subst (IsNewHeader c s) (same_some refl e) (
        check_obsolete-newer s.paras.relay info.block_number
          (passed (check_obsolete s.paras.relay info.block_number) checked))
    where
      passed :
          (r : Result Error (Unit {0}))
          → (elim r [ ok u ↦ valid | err old_header ↦ stale | err e ↦ call ]) ≡ valid
          → r ≡ ok tt
      passed (ok u) h = refl
      passed (err old_header) h = cc
      passed (err e) h = cc
  finality_info-IsNewHeader (submit_parachain_heads_call at parachains proof) f e checked = cc
  finality_info-IsNewHeader (receive_messages_proof_call relayer proof count weight) f e checked =
      cc
  finality_info-IsNewHeader (receive_messages_delivery_proof_call proof relayers) f e checked = cc
  finality_info-IsNewHeader other_call f e checked = cc
