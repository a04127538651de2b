-- ===== src/Justification/Verify.antt =====
-- `verify_justification_with_callbacks` of primitives/header-chain/src/justification.rs and its two
-- sets of callbacks. The voter set of `finality_grandpa` and the check of a signature are parameters.
pub mod Votes
pub mod Strict
pub mod Weights
pub mod Optimize
use parity_bridges_common.Common.{
  ℕ, ◌+◌, Bool, true, false, ◌&&◌, not, Option, none, some, List, [], ◌∷◌, ◌++◌, Result, ok, err,
  ensure, ok_or, map_err, ◌>>=◌, ◌>>◌, ◌==◌, leb, if◌then◌else◌, contains, checked_add_u64, zero,
  suc,
}
use parity_bridges_common.Justification.{
  Hash, BlockNumber, AuthorityId, SetId, HeaderOps, Precommit, SignedPrecommit, Commit,
  GrandpaJustification, Error, invalid_justification_target, redundant_votes_in_justification,
  unknown_authority_vote, duplicate_authority_vote, invalid_authority_signature,
  precommit_is_not_commit_descendant, too_low_cumulative_weight, extra_headers_in_votes_ancestries,
}
use parity_bridges_common.Justification.Ancestry.{AncestryChain, new, ensure_descendant}

-- What the code reads of `VoterSet<AuthorityId>`: `get` with the weight of the voter, `threshold`.
pub record VoterSet : Type 0 where
  pub get : AuthorityId → Option ℕ
  pub threshold : ℕ

-- A run that does not succeed: an error, or the `expect` on the sum of the weights.
pub data Failure : Type 0 where
  failed : Error → Failure
  panicked : Failure

-- The trait `VerificationCallbacks`, over the state of its implementation.
pub record VerificationCallbacks (S : Type 0) : Type 0 where
  pub on_unkown_authority : S → ℕ → Result Error S
  pub on_duplicate_authority_vote : S → ℕ → Result Error S
  pub on_redundant_authority_vote : S → ℕ → Result Error S

-- `StrictVerificationCallbacks`.
abbrev pub strict : VerificationCallbacks Unit
strict = record {
  on_unkown_authority = λ s i. err unknown_authority_vote;
  on_duplicate_authority_vote = λ s i. err duplicate_authority_vote;
  on_redundant_authority_vote = λ s i. err redundant_votes_in_justification;
}

-- `OptimizationCallbacks`: the indices of the precommits to leave out.
abbrev pub optimization : VerificationCallbacks (List ℕ)
optimization = record {
  on_unkown_authority = λ s i. ok (s ++ i ∷ []);
  on_duplicate_authority_vote = λ s i. ok (s ++ i ∷ []);
  on_redundant_authority_vote = λ s i. ok (s ++ i ∷ []);
}

abbrev pub is_empty {ℓ} : {A : Type ℓ} → List A → Bool
is_empty [] = true
is_empty (x ∷ xs) = false

-- `Vec::remove` at an index of the vector.
abbrev pub remove_at {ℓ} : {A : Type ℓ} → ℕ → List A → List A
remove_at i [] = []
remove_at zero (x ∷ xs) = xs
remove_at (suc i) (x ∷ xs) = x ∷ remove_at i xs

-- The indices from the last to the first.
abbrev pub remove_all {ℓ} : {A : Type ℓ} → List ℕ → List A → List A
remove_all [] xs = xs
remove_all (i ∷ is) xs = remove_at i (remove_all is xs)

-- `OptimizationCallbacks::optimize`.
unfoldable pub optimize :
    {Header : Type 0} → List ℕ → GrandpaJustification Header → GrandpaJustification Header
optimize removed justification = record justification {
  commit = record justification.commit {
    precommits = remove_all removed justification.commit.precommits;
  };
}

-- `chain`, `votes`, `cumulative_weight` and the callbacks' state.
pub record Progress (S : Type 0) : Type 0 where
  pub chain : AncestryChain
  pub votes : List AuthorityId
  pub cumulative_weight : ℕ
  pub callbacks : S

module _ {Header : Type 0} (ops : HeaderOps Header)
    (check_signature : Precommit → AuthorityId → ℕ → ℕ → SetId → Bool) (authorities_set_id : SetId)
    (authorities_set : VoterSet) where
  module _ {S : Type 0} (callbacks : VerificationCallbacks S) where
    -- The rest of a round after a callback.
    abbrev pub continue_with : Progress S → Result Error S → Result Failure (Progress S)
    continue_with p r = do s ← map_err failed r; ok (record p { callbacks = s })

    -- What follows the first vote of a known authority.
    pub count_vote :
        ℕ → Hash → BlockNumber → SignedPrecommit → ℕ → Progress S → Result Failure (Progress S)
    count_vote round target_hash target_number signed weight p = do
      ensure (leb target_number signed.precommit.target_number)
          (failed precommit_is_not_commit_descendant)
      chain ← map_err failed (ensure_descendant target_hash p.chain signed.precommit.target_hash)
      cumulative_weight ← ok_or (checked_add_u64 p.cumulative_weight weight) panicked
      ensure (check_signature signed.precommit signed.id signed.signature round authorities_set_id)
          (failed invalid_authority_signature)
      ok (record {
        chain = chain;
        votes = signed.id ∷ p.votes;
        cumulative_weight = cumulative_weight;
        callbacks = p.callbacks;
      })

    -- A round of the loop.
    unfoldable pub precommit_step :
        ℕ → Hash → BlockNumber → ℕ → SignedPrecommit → Progress S → Result Failure (Progress S)
    unfolding count_vote
    precommit_step round target_hash target_number precommit_idx signed p =
        if leb authorities_set.threshold p.cumulative_weight
        then continue_with p (callbacks.on_redundant_authority_vote p.callbacks precommit_idx)
        else elim (authorities_set.get signed.id) [
          | none ↦ continue_with p (callbacks.on_unkown_authority p.callbacks precommit_idx)
          | some weight ↦
              if contains p.votes signed.id
              then continue_with p (callbacks.on_duplicate_authority_vote p.callbacks precommit_idx)
              else count_vote round target_hash target_number signed weight p
        ]

    pub precommit_loop :
        ℕ → Hash → BlockNumber → ℕ → List SignedPrecommit → Progress S → Result Failure (Progress S)
    precommit_loop round target_hash target_number precommit_idx [] p = ok p
    precommit_loop round target_hash target_number precommit_idx (signed ∷ rest) p = do
      p' ← precommit_step round target_hash target_number precommit_idx signed p
      precommit_loop round target_hash target_number (precommit_idx + 1) rest p'

    -- The checks after the loop.
    pub finish : Progress S → Result Failure S
    finish p = do
      ensure (is_empty p.chain.unvisited) (failed extra_headers_in_votes_ancestries)
      ensure (leb authorities_set.threshold p.cumulative_weight) (failed too_low_cumulative_weight)
      ok p.callbacks

    unfoldable pub verify_justification_with_callbacks :
        Hash × BlockNumber → GrandpaJustification Header → S → Result Failure S
    unfolding precommit_loop finish
    verify_justification_with_callbacks (hash, number) justification s =
        let commit = justification.commit in
        do
          ensure (commit.target_hash == hash && commit.target_number == number)
              (failed invalid_justification_target)
          p ←
              precommit_loop justification.round commit.target_hash commit.target_number 0
                commit.precommits
                (record {
                  chain = new ops justification.votes_ancestries;
                  votes = [];
                  cumulative_weight = 0;
                  callbacks = s;
                })
          finish p

  unfoldable pub verify_justification :
      Hash × BlockNumber → GrandpaJustification Header → Result Failure (Unit {0})
  verify_justification finalized_target justification =
      verify_justification_with_callbacks strict finalized_target justification tt

  unfoldable pub verify_and_optimize_justification :
      Hash × BlockNumber
      → GrandpaJustification Header
      → Result Failure (GrandpaJustification Header)
  verify_and_optimize_justification finalized_target justification = do
    removed ← verify_justification_with_callbacks optimization finalized_target justification []
    ok (optimize removed justification)
