-- ===== src/RuntimeCommon/Refund.antt =====
-- The signed extension of bin/runtime-common/src/refund_relayer_extension.rs, which refunds the
-- relayers whose transactions have moved the bridge on.
pub mod Paid
pub mod Checked
pub mod Parsed
pub mod Progress
use parity_bridges_common.Common.{
  ℕ, ◌-◌, Bool, true, false, not, Option, none, some, List, [], ◌∷◌, Result, ok, err, ltb, ◌==◌,
  length, if◌then◌else◌,
}
use parity_bridges_common.Common.Options.{◌>>=◌}
use parity_bridges_common.Justification.{GrandpaJustification}
use parity_bridges_common.Messages.Types.{LaneId, AccountId}
use parity_bridges_common.Grandpa.{Weight}
use parity_bridges_common.Grandpa
use parity_bridges_common.Grandpa.CallExt.{
  SubmitFinalityProofInfo, TransactionValidity, valid, submit_finality_proof_info_from_args,
  check_obsolete_submit_finality_proof,
}
use parity_bridges_common.Grandpa.CallExt
use parity_bridges_common.Parachains.{ParaId, SubmitParachainHeadsInfo}
use parity_bridges_common.Parachains
use parity_bridges_common.Parachains.Submit.{
  one_entry_submit_parachain_heads_info, check_obsolete_submit_parachain_heads,
}
use parity_bridges_common.Relayers.{
  RewardsAccountOwner, this_chain, bridged_chain, RewardsAccountParams, register_relayer_reward,
}
use parity_bridges_common.Relayers
use parity_bridges_common.RuntimeCommon.{
  RuntimeCall, submit_finality_proof_call, submit_parachain_heads_call, receive_messages_proof_call,
  receive_messages_delivery_proof_call, other_call, State,
}
use parity_bridges_common.RuntimeCommon.CallExt.{
  MessagesCallInfo, delivery, confirmation, was_partially_successful, call_info_for,
  check_obsolete_call,
}

-- A transaction's call: a batch, another call of the utility pallet, or one of another pallet.
pub data Transaction (Header ParaHeads W : Type 0) : Type 0 where
  batch_all : List (RuntimeCall Header ParaHeads W) → Transaction Header ParaHeads W
  other_utility_call : Transaction Header ParaHeads W
  single : RuntimeCall Header ParaHeads W → Transaction Header ParaHeads W

pub data CallInfo : Type 0 where
  all_finality_and_msgs :
      SubmitFinalityProofInfo → SubmitParachainHeadsInfo → MessagesCallInfo → CallInfo
  parachain_finality_and_msgs : SubmitParachainHeadsInfo → MessagesCallInfo → CallInfo
  msgs : MessagesCallInfo → CallInfo

pub record PreDispatchData : Type 0 where
  pub relayer : AccountId
  pub call_info : CallInfo

abbrev pub submit_finality_proof_info : CallInfo → Option SubmitFinalityProofInfo
submit_finality_proof_info (all_finality_and_msgs finality para info) = some finality
submit_finality_proof_info (parachain_finality_and_msgs para info) = none
submit_finality_proof_info (msgs info) = none

abbrev pub submit_parachain_heads_info : CallInfo → Option SubmitParachainHeadsInfo
submit_parachain_heads_info (all_finality_and_msgs finality para info) = some para
submit_parachain_heads_info (parachain_finality_and_msgs para info) = some para
submit_parachain_heads_info (msgs info) = none

abbrev pub messages_call_info : CallInfo → MessagesCallInfo
messages_call_info (all_finality_and_msgs finality para info) = info
messages_call_info (parachain_finality_and_msgs para info) = info
messages_call_info (msgs info) = info

-- `frame_support::dispatch::DispatchInfo` and `PostDispatchInfo`.
pub record DispatchInfo : Type 0 where
  pub weight : Weight
  pub pays_fee : Bool

pub record PostDispatchInfo : Type 0 where
  pub actual_weight : Option Weight
  pub pays_fee : Bool

abbrev pub weight_or : Option Weight → Weight → Weight
weight_or none w = w
weight_or (some v) w = v

-- `Weight::saturating_sub`.
abbrev pub weight_sub : Weight → Weight → Weight
weight_sub a b = record {
  ref_time = a.ref_time - b.ref_time;
  proof_size = a.proof_size - b.proof_size;
}

abbrev pub no_extra : Weight × ℕ
no_extra = (record { ref_time = 0; proof_size = 0 }, 0)

abbrev pub extra_of : Option SubmitFinalityProofInfo → Weight × ℕ
extra_of none = no_extra
extra_of (some info) = (info.extra_weight, info.extra_size)

-- Whose sovereign account pays.
abbrev pub owner_for : MessagesCallInfo → RewardsAccountOwner
owner_for (delivery info) = this_chain
owner_for (confirmation info) = bridged_chain

-- The parameters of the extension: the parachain, the lane, the chain, the pallets' configurations
-- and the refund calculator, whose arguments end with the length and the tip.
pub record Config (Header Paying : Type 0) : Type 0 where
  pub grandpa : Grandpa.Config Header
  pub relayers : Relayers.Config Paying
  pub para_id : ParaId
  pub lane_id : LaneId
  pub bridged_chain_id : ℕ
  pub compute_refund : DispatchInfo → PostDispatchInfo → ℕ → ℕ → ℕ

-- The `?` after a check.
abbrev pub also : TransactionValidity → TransactionValidity → TransactionValidity
also v rest = elim v [ valid ↦ rest | refused ↦ refused ]

module _ {Header ParaHeads V Data World W R Paying : Type 0} (c : Config Header Paying)
    (s : State Data World W R Paying) where
  abbrev pub expand_call :
      Transaction Header ParaHeads V → Option (List (RuntimeCall Header ParaHeads V))
  expand_call (batch_all calls) = if ltb 3 (length calls) then none else some calls
  expand_call other_utility_call = none
  expand_call (single nested) = some (nested ∷ [])

  -- The checks of one nested call: those of the GRANDPA, the parachains and the messages pallet.
  pub check_finality : RuntimeCall Header ParaHeads V → TransactionValidity
  check_finality (submit_finality_proof_call target justification) =
      check_obsolete_submit_finality_proof c.grandpa s.paras.relay (some (target, justification))
  check_finality (submit_parachain_heads_call at parachains proof) = valid
  check_finality (receive_messages_proof_call relayer proof count weight) = valid
  check_finality (receive_messages_delivery_proof_call proof relayers) = valid
  check_finality other_call = valid

  pub check_parachain : RuntimeCall Header ParaHeads V → TransactionValidity
  check_parachain (submit_parachain_heads_call (number, hash) parachains proof) =
      check_obsolete_submit_parachain_heads s.paras number parachains
  check_parachain (submit_finality_proof_call target justification) = valid
  check_parachain (receive_messages_proof_call relayer proof count weight) = valid
  check_parachain (receive_messages_delivery_proof_call proof relayers) = valid
  check_parachain other_call = valid

  unfoldable pub check_calls : List (RuntimeCall Header ParaHeads V) → TransactionValidity
  unfolding check_finality check_parachain
  check_calls [] = valid
  check_calls (nested ∷ calls) = also (check_finality nested) (
      also (check_parachain nested)
        (also (check_obsolete_call s.messages nested) (check_calls calls)))

  unfoldable pub validate : Transaction Header ParaHeads V → TransactionValidity
  validate transaction = elim (expand_call transaction) [
    | none ↦ valid
    | some calls ↦ check_calls calls
  ]

  abbrev pub finality_info : RuntimeCall Header ParaHeads V → Option SubmitFinalityProofInfo
  finality_info (submit_finality_proof_call target justification) =
      some (submit_finality_proof_info_from_args c.grandpa target justification)
  finality_info (submit_parachain_heads_call at parachains proof) = none
  finality_info (receive_messages_proof_call relayer proof count weight) = none
  finality_info (receive_messages_delivery_proof_call proof relayers) = none
  finality_info other_call = none

  abbrev pub heads_info : RuntimeCall Header ParaHeads V → Option SubmitParachainHeadsInfo
  heads_info (submit_parachain_heads_call (number, hash) parachains proof) =
      one_entry_submit_parachain_heads_info number parachains
  heads_info (submit_finality_proof_call target justification) = none
  heads_info (receive_messages_proof_call relayer proof count weight) = none
  heads_info (receive_messages_delivery_proof_call proof relayers) = none
  heads_info other_call = none

  -- `submit_parachain_heads_info_for` of modules/parachains/src/call_ext.rs.
  unfoldable pub submit_parachain_heads_info_for :
      RuntimeCall Header ParaHeads V → Option SubmitParachainHeadsInfo
  submit_parachain_heads_info_for nested = do
    info ← heads_info nested
    if info.para_id == c.para_id then some info else none

  parse_calls : List (RuntimeCall Header ParaHeads V) → Option CallInfo
  parse_calls [] = none
  parse_calls (m ∷ []) = do info ← call_info_for s.messages c.lane_id m; some (msgs info)
  parse_calls (p ∷ m ∷ []) = do
    para ← submit_parachain_heads_info_for p
    info ← call_info_for s.messages c.lane_id m
    some (parachain_finality_and_msgs para info)
  parse_calls (f ∷ p ∷ m ∷ []) = do
    finality ← finality_info f
    para ← submit_parachain_heads_info_for p
    info ← call_info_for s.messages c.lane_id m
    some (all_finality_and_msgs finality para info)
  parse_calls (f ∷ p ∷ m ∷ n ∷ calls) = none

  unfoldable pub parse_call : Transaction Header ParaHeads V → Option CallInfo
  unfolding parse_calls
  parse_call transaction = expand_call transaction >>= parse_calls

  unfoldable pub pre_dispatch :
      AccountId
      → Transaction Header ParaHeads V
      → Result TransactionValidity (Option PreDispatchData)
  pre_dispatch who transaction = elim (validate transaction) [
    | valid ↦
        ok (do info ← parse_call transaction; some (record { relayer = who; call_info = info }))
    | refused ↦ err refused
  ]

module _ {Header Data World W R Paying : Type 0} (c : Config Header Paying)
    (s : State Data World W R Paying) where
  relay_updated : Option SubmitFinalityProofInfo → Bool
  relay_updated none = true
  relay_updated (some info) = CallExt.was_successful s.paras.relay info.block_number

  para_updated : Option SubmitParachainHeadsInfo → Bool
  para_updated none = true
  para_updated (some info) = Parachains.was_successful s.paras info

  -- The refund, with the extra weight and size of the finality proof taken off and without a tip.
  abbrev pub refund_of : CallInfo → DispatchInfo → PostDispatchInfo → ℕ → ℕ
  refund_of call_info info post_info len =
      let (extra_weight, extra_size) = extra_of (submit_finality_proof_info call_info) in
      c.compute_refund info
        (record post_info {
          actual_weight =
              some (weight_sub (weight_or post_info.actual_weight info.weight) extra_weight);
        })
        (len - extra_size) 0

  abbrev pub account_for : CallInfo → RewardsAccountParams
  account_for call_info = record {
    lane_id = c.lane_id;
    bridged_chain_id = c.bridged_chain_id;
    owner = owner_for (messages_call_info call_info);
  }

  -- What follows the tests of the transaction's result.
  unfoldable pub refund :
      PreDispatchData → DispatchInfo → PostDispatchInfo → ℕ → State Data World W R Paying
  unfolding relay_updated para_updated
  refund pre info post_info len =
      if not (relay_updated (submit_finality_proof_info pre.call_info))
      then s
      else if not (para_updated (submit_parachain_heads_info pre.call_info))
      then s
      else if not (was_partially_successful s.messages (messages_call_info pre.call_info))
      then s
      else record s {
        relayers =
            register_relayer_reward c.relayers s.relayers (account_for pre.call_info) pre.relayer
              (refund_of pre.call_info info post_info len);
      }

  -- `post_dispatch`, which always returns `Ok`; `pre` is missing where the transaction is not signed.
  unfoldable pub post_dispatch :
      Option (Option PreDispatchData)
      → DispatchInfo
      → PostDispatchInfo
      → ℕ
      → Bool
      → State Data World W R Paying
  unfolding refund
  post_dispatch pre info post_info len false = s
  post_dispatch none info post_info len true = s
  post_dispatch (some none) info post_info len true = s
  post_dispatch (some (some parsed)) info post_info len true = refund parsed info post_info len
