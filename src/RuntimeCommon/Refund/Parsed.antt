-- ===== src/RuntimeCommon/Refund/Parsed.antt =====
-- What `pre_dispatch` has found out of a transaction
-- (bin/runtime-common/src/refund_relayer_extension.rs).
use parity_bridges_common.Common.{
  ◌≡◌, refl, sym, ap, subst, some, List, [], ◌∷◌, Result, ok, err, same_some, some_is_not_none,
  ok-injective,
}
use parity_bridges_common.Common.Options.{◌>>=◌, >>=-eq-some}
use parity_bridges_common.Messages.Types.{AccountId}
use parity_bridges_common.Grandpa.CallExt.{
  SubmitFinalityProofInfo, TransactionValidity, valid, stale, call,
}
use parity_bridges_common.Parachains.{SubmitParachainHeadsInfo}
use parity_bridges_common.RuntimeCommon.{RuntimeCall, State}
use parity_bridges_common.RuntimeCommon.CallExt.{
  MessagesCallInfo, call_info_for, check_obsolete_call,
}
use parity_bridges_common.RuntimeCommon.Refund.{
  Transaction, CallInfo, all_finality_and_msgs, parachain_finality_and_msgs, msgs, PreDispatchData,
  submit_finality_proof_info, submit_parachain_heads_info, messages_call_info, Config, also,
  expand_call, check_finality, check_parachain, check_calls, validate, finality_info,
  submit_parachain_heads_info_for, parse_calls, parse_call, pre_dispatch,
}
use parity_bridges_common.RuntimeCommon.Refund.Checked.{
  IsFresh, IsNewHead, IsNewHeader, call_info_for-IsFresh, submit_parachain_heads_info_for-IsNewHead,
  finality_info-IsNewHeader,
}

also-valid : (v rest : TransactionValidity) → also v rest ≡ valid → (v ≡ valid) × (rest ≡ valid)
also-valid valid rest e = (refl, e)
also-valid stale rest e = cc
also-valid call rest e = cc

module _ {Header Data World W R Paying : Type 0} (c : Config Header Paying)
    (s : State Data World W R Paying) where
  -- What `pre_dispatch` has found.
  pub record Parsed (call_info : CallInfo) : Type 0 where
    pub relay :
        (f : SubmitFinalityProofInfo)
        → submit_finality_proof_info call_info ≡ some f
        → IsNewHeader c s f
    pub para :
        (p : SubmitParachainHeadsInfo)
        → submit_parachain_heads_info call_info ≡ some p
        → IsNewHead c s p
    pub fresh : IsFresh c s (messages_call_info call_info)

module _ {Header ParaHeads V Data World W R Paying : Type 0} (c : Config Header Paying)
    (s : State Data World W R Paying) where
  check_calls-valid :
      (nested : RuntimeCall Header ParaHeads V) (calls : List (RuntimeCall Header ParaHeads V))
      → check_calls c s (nested ∷ calls) ≡ valid
      → (check_finality c s nested ≡ valid)
        × (check_parachain c s nested ≡ valid)
        × (check_obsolete_call s.messages nested ≡ valid)
        × (check_calls c s calls ≡ valid)
  unfolding check_calls
  check_calls-valid nested calls e =
      let (finality, e1) = also-valid (check_finality c s nested) _ e in
      let (para, e2) = also-valid (check_parachain c s nested) _ e1 in
      let (message, e3) = also-valid (check_obsolete_call s.messages nested) _ e2 in
      (finality, para, message, e3)

  parse_calls-Parsed :
      (calls : List (RuntimeCall Header ParaHeads V)) (ci : CallInfo)
      → parse_calls c s calls ≡ some ci
      → check_calls c s calls ≡ valid
      → Parsed c s ci
  unfolding parse_calls
  parse_calls-Parsed [] ci e checked = cc
  parse_calls-Parsed (m ∷ []) ci e checked =
      let (_, _, message, _) = check_calls-valid m [] checked in
      let (info, found, e1) =
        >>=-eq-some (call_info_for s.messages c.lane_id m)
          (λ (info : MessagesCallInfo). some (msgs info)) e in
      subst (Parsed c s) (same_some refl e1) (record {
        relay = λ f h. some_is_not_none h refl;
        para = λ p h. some_is_not_none h refl;
        fresh = call_info_for-IsFresh c s m info found message;
      })
  parse_calls-Parsed (p ∷ m ∷ []) ci e checked =
      let (_, head, _, rest) = check_calls-valid p (m ∷ []) checked in
      let (_, _, message, _) = check_calls-valid m [] rest in
      let (para, at, e1) =
        >>=-eq-some (submit_parachain_heads_info_for c s p)
          (λ (para : SubmitParachainHeadsInfo).
            call_info_for s.messages c.lane_id m >>= λ (info : MessagesCallInfo).
            some (parachain_finality_and_msgs para info))
          e in
      let (info, found, e2) =
        >>=-eq-some (call_info_for s.messages c.lane_id m)
          (λ (info : MessagesCallInfo). some (parachain_finality_and_msgs para info)) e1 in
      subst (Parsed c s) (same_some refl e2) (record {
        relay = λ f h. some_is_not_none h refl;
        para = λ q h.
            subst (IsNewHead c s) (same_some refl h)
              (submit_parachain_heads_info_for-IsNewHead c s p para at head);
        fresh = call_info_for-IsFresh c s m info found message;
      })
  parse_calls-Parsed (f ∷ p ∷ m ∷ []) ci e checked =
      let (header, _, _, rest) = check_calls-valid f (p ∷ m ∷ []) checked in
      let (_, head, _, rest') = check_calls-valid p (m ∷ []) rest in
      let (_, _, message, _) = check_calls-valid m [] rest' in
      let (finality, given, e1) =
        >>=-eq-some (finality_info c s f)
          (λ (finality : SubmitFinalityProofInfo).
            submit_parachain_heads_info_for c s p >>= λ (para : SubmitParachainHeadsInfo).
            call_info_for s.messages c.lane_id m >>= λ (info : MessagesCallInfo).
            some (all_finality_and_msgs finality para info))
          e in
      let (para, at, e2) =
        >>=-eq-some (submit_parachain_heads_info_for c s p)
          (λ (para : SubmitParachainHeadsInfo).
            call_info_for s.messages c.lane_id m >>= λ (info : MessagesCallInfo).
            some (all_finality_and_msgs finality para info))
          e1 in
      let (info, found, e3) =
        >>=-eq-some (call_info_for s.messages c.lane_id m)
          (λ (info : MessagesCallInfo). some (all_finality_and_msgs finality para info)) e2 in
      subst (Parsed c s) (same_some refl e3) (record {
        relay = λ g h.
            subst (IsNewHeader c s) (same_some refl h)
              (finality_info-IsNewHeader c s f finality given header);
        para = λ q h.
            subst (IsNewHead c s) (same_some refl h)
              (submit_parachain_heads_info_for-IsNewHead c s p para at head);
        fresh = call_info_for-IsFresh c s m info found message;
      })
  parse_calls-Parsed (f ∷ p ∷ m ∷ n ∷ calls) ci e checked = cc

  pub pre_dispatch-Parsed :
      (who : AccountId) (transaction : Transaction Header ParaHeads V) (parsed : PreDispatchData)
      → pre_dispatch c s who transaction ≡ ok (some parsed)
      → (parsed.relayer ≡ who) × Parsed c s parsed.call_info
  unfolding pre_dispatch parse_call validate
  pre_dispatch-Parsed who transaction parsed e =
      let (checked, e1) = accepts (validate c s transaction) _ e in
      let (ci, found, e2) =
        >>=-eq-some (expand_call c s transaction >>= parse_calls c s)
          (λ (ci : CallInfo). some (record { relayer = who; call_info = ci })) e1 in
      let (calls, expanded, e3) =
        >>=-eq-some (expand_call c s transaction) (parse_calls c s) found in
      let same = same_some refl e2 in
      (
        sym (ap (λ d. d.relayer) same),
        subst (λ d. Parsed c s d.call_info) same
            (parse_calls-Parsed calls ci e3 (rw (expanded, validate) at checked)),
      )
    where
      accepts :
          {A : Type 0} (v : TransactionValidity) (x : A) {y : A}
          → ◌≡◌ {A = Result TransactionValidity A}
              (elim v [ valid ↦ ok x | refused ↦ err refused ])
              (ok y)
          → (v ≡ valid) × (x ≡ y)
      accepts valid x h = (refl, ok-injective h)
      accepts stale x h = cc
      accepts call x h = cc
