-- ===== src/Beefy/Signatures.antt =====
-- When the signatures of a commitment are enough (`verify_signatures` of modules/beefy/src/utils.rs).
use parity_bridges_common.Common.{
  ℕ, ◌+◌, ◌-◌, ◌*◌, ◌≤◌, ◌<◌, ◌≡◌, refl, ◌⊎◌, inl, inr, Option, none, some, List, [], ◌∷◌, ok, err,
  length, ◌==◌, if◌then◌else◌, arith, Bool-cases,
}
use parity_bridges_common.Beefy.{
  AuthorityId, Signature, Bytes, SignedCommitment, ValidatorSet, Config, Error,
  invalid_commitment_signatures_len, not_enough_correct_signatures,
}
use parity_bridges_common.Beefy.Utils.{signatures_required, zip, count_missing, verify_signatures}

module _ (c : Config) where
  -- The number of validators whose signature is there and correct.
  abbrev pub valid_signatures : Bytes → List (AuthorityId × Option Signature) → ℕ
  valid_signatures msg [] = 0
  valid_signatures msg ((authority, none) ∷ votes) = valid_signatures msg votes
  valid_signatures msg ((authority, some sig) ∷ votes) =
      if c.verify authority sig msg
      then valid_signatures msg votes + 1
      else valid_signatures msg votes

  -- The loop, with its early end, counts them down.
  count_missing-lem :
      (msg : Bytes) (missing : ℕ) (votes : List (AuthorityId × Option Signature))
      → count_missing c msg missing votes ≡ missing - valid_signatures msg votes
  unfolding count_missing
  count_missing-lem msg missing [] = omega arith
  count_missing-lem msg missing ((authority, none) ∷ votes) = count_missing-lem msg missing votes
  count_missing-lem msg missing ((authority, some sig) ∷ votes) =
      elim (Bool-cases (c.verify authority sig msg)) [
        | inl valid ↦ rw valid (ground (arith, count_missing-lem msg (missing - 1) votes))
        | inr invalid ↦ rw invalid (count_missing-lem msg missing votes)
      ]

  abbrev pub valid_of : SignedCommitment → ValidatorSet → ℕ
  valid_of commitment set =
      valid_signatures (c.encode commitment.commitment) (zip set.validators commitment.signatures)

  -- There is a place for each validator's signature, and the required number of them is correct; for
  -- a set that is not empty these are more than two thirds of it.
  pub record IsSigned (commitment : SignedCommitment) (set : ValidatorSet) : Type 0 where
    pub places : length commitment.signatures ≡ length set.validators
    pub enough : signatures_required (length set.validators) ≤ valid_of commitment set
    pub two_thirds :
        0 < length set.validators → 2 * length set.validators < 3 * valid_of commitment set

  signatures_required-two_thirds :
      (n valid : ℕ) → signatures_required n ≤ valid → 0 < n → 2 * n < 3 * valid
  signatures_required-two_thirds n valid enough some_validators = omega arith

  -- `verify_signatures`, whose loop stops early, accepts a commitment exactly when it has a place
  -- for each validator's signature and the correct signatures, all of them counted, are at least
  -- as many as required, and, for a set that is not empty, more than two thirds of it.
  pub verify_signatures-decides :
      (commitment : SignedCommitment) (set : ValidatorSet)
      → ((verify_signatures c commitment set ≡ ok tt) × IsSigned commitment set)
        ⊎ ((e : Error) × (verify_signatures c commitment set ≡ err e) × (¬ IsSigned commitment set))
  unfolding verify_signatures
  verify_signatures-decides commitment set =
      let msg = c.encode commitment.commitment in
      let n = length set.validators in
      let votes = zip set.validators commitment.signatures in
      let missing = count_missing-lem msg (signatures_required n) votes in
      elim (Bool-cases (length commitment.signatures == n)) [
        | inr other ↦
            inr (
              invalid_commitment_signatures_len,
              rw other refl,
              λ s. ground (arith, other, s.places),
            )
        | inl same ↦ elim (Bool-cases (count_missing c msg (signatures_required n) votes == 0)) [
          | inl done ↦
              let enough : signatures_required n ≤ valid_signatures msg votes =
                ground (arith, done, missing) in
              inl (
                rw (same, done) refl,
                record {
                  places = ground (arith, same);
                  enough = enough;
                  two_thirds = signatures_required-two_thirds n _ enough;
                },
              )
          | inr short ↦ inr (
            not_enough_correct_signatures,
            rw (same, short) refl,
            λ s. ground (arith, short, missing, s.enough),
          )
        ]
      ]
