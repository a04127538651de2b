-- ===== src/Grandpa/CallExt.antt =====
-- modules/grandpa/src/call_ext.rs: the checks of a call before it is dispatched.
use parity_bridges_common.Common.{
  ℕ, ◌+◌, ◌-◌, Bool, false, ◌&&◌, Option, none, some, Result, ok, err, ◌>>=◌, ensure, ok_or, leb,
  ltb, ◌==◌, not, if◌then◌else◌, length,
}
use parity_bridges_common.Justification.{
  BlockNumber, GrandpaJustification, max_reasonable_size, saturate_u32,
}
use parity_bridges_common.Grandpa.{Config, State, Weight, Error, not_initialized, old_header}

pub record SubmitFinalityProofInfo : Type 0 where
  pub block_number : BlockNumber
  pub extra_weight : Weight
  pub extra_size : ℕ

unfoldable pub fits_limits : SubmitFinalityProofInfo → Bool
fits_limits info =
    info.extra_weight.ref_time == 0 && info.extra_weight.proof_size == 0 && info.extra_size == 0

-- `SubmitFinalityProofHelper::check_obsolete`.
unfoldable pub check_obsolete : State → BlockNumber → Result Error (Unit {0})
check_obsolete s finality_target = do
  best_finalized ← ok_or s.best_finalized not_initialized
  ensure (not (leb finality_target best_finalized.number)) old_header

-- `SubmitFinalityProofHelper::was_successful`.
unfoldable pub was_successful : State → BlockNumber → Bool
was_successful s finality_target = elim s.best_finalized [
  | some best_finalized ↦ best_finalized.number == finality_target
  | none ↦ false
]

-- `TransactionValidity`, as far as the check makes it.
pub data TransactionValidity : Type 0 where
  valid stale call : TransactionValidity

module _ {Header : Type 0} (c : Config Header) where
  unfoldable pub max_expected_call_size : ℕ → ℕ
  max_expected_call_size required_precommits =
      saturate_u32 (c.max_header_size + max_reasonable_size c.sizes required_precommits)

  unfoldable pub submit_finality_proof_info_from_args :
      Header → GrandpaJustification Header → SubmitFinalityProofInfo
  submit_finality_proof_info_from_args finality_target justification =
      let precommits_len = saturate_u32 (length justification.commit.precommits) in
      let votes_ancestries_len = saturate_u32 (length justification.votes_ancestries) in
      let actual_call_size =
        saturate_u32
          (c.header_encoded_size finality_target + c.justification_encoded_size justification) in
      record {
        block_number = c.ops.number finality_target;
        extra_weight =
            if ltb c.sizes.reasonable_headers_in_justificaton_ancestry votes_ancestries_len
            then c.submit_finality_proof_weight precommits_len votes_ancestries_len
            else record { ref_time = 0; proof_size = 0 };
        extra_size = actual_call_size - max_expected_call_size precommits_len;
      }

  -- `check_obsolete_submit_finality_proof`; `none` is a call of something else.
  unfoldable pub check_obsolete_submit_finality_proof :
      State → Option (Header × GrandpaJustification Header) → TransactionValidity
  check_obsolete_submit_finality_proof s none = valid
  check_obsolete_submit_finality_proof s (some (finality_target, justification)) =
      let info = submit_finality_proof_info_from_args finality_target justification in
      elim (check_obsolete s info.block_number) [
        | ok u ↦ valid
        | err old_header ↦ stale
        | err e ↦ call
      ]
