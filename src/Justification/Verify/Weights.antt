-- ===== src/Justification/Verify/Weights.antt =====
-- The sum of the weights in `verify_justification_with_callbacks`, which its `expect` says cannot
-- overflow.
use parity_bridges_common.Common.{
  ℕ, ◌+◌, ◌<◌, ◌≡◌, refl, sym, subst, Bool, true, false, Option, none, some, List, [], ◌∷◌, Result,
  ok, err, map_err, arith, contains, leb, ok-injective, err_is_not_ok, u64_mod, checked_add_u64,
  ensure, ok_or, ◌>>=◌, ◌==◌, ◌&&◌,
}
use parity_bridges_common.Justification.{
  Hash, BlockNumber, AuthorityId, SetId, HeaderOps, Precommit, SignedPrecommit,
  GrandpaJustification, Error,
}
use parity_bridges_common.Justification.Ancestry.{ensure_descendant}
use parity_bridges_common.Justification.Verify.{
  VoterSet, Failure, failed, panicked, VerificationCallbacks, Progress, count_vote, precommit_step,
  precommit_loop, finish, continue_with, verify_justification_with_callbacks, is_empty,
}
use parity_bridges_common.Justification.Verify.Strict.{weight_of}
use parity_bridges_common.Justification.Verify.Votes.{
  count_vote-Counted, redundant, unknown, duplicate, first, StepCases-total, start, run,
}

-- The run does not end in the `expect`.
abbrev pub NoPanic {ℓ} : {A : Type ℓ} → Result Failure A → Type 0
NoPanic (ok a) = Unit
NoPanic (err (failed e)) = Unit
NoPanic (err panicked) = ⊥

module _ {ℓ κ} {A : Type ℓ} {B : Type κ} where
  NoPanic-bind :
      (m : Result Failure A) (f : A → Result Failure B)
      → NoPanic m
      → ((a : A) → m ≡ ok a → NoPanic (f a))
      → NoPanic (m >>= f)
  NoPanic-bind (ok a) f h k = k a refl
  NoPanic-bind (err (failed e)) f h k = tt
  NoPanic-bind (err panicked) f h k = h

NoPanic-ensure : (b : Bool) (e : Error) → NoPanic (ensure b (failed e))
NoPanic-ensure true e = tt
NoPanic-ensure false e = tt

NoPanic-map_err {ℓ} : {A : Type ℓ} (r : Result Error A) → NoPanic (map_err failed r)
NoPanic-map_err (ok a) = tt
NoPanic-map_err (err e) = tt

NoPanic-some {ℓ} : {A : Type ℓ} (o : Option A) {a : A} → o ≡ some a → NoPanic (ok_or o panicked)
NoPanic-some none e = cc
NoPanic-some (some b) e = tt

abbrev pub AreDistinct : List AuthorityId → Type 0
AreDistinct [] = Unit
AreDistinct (v ∷ vs) = (contains vs v ≡ false) × AreDistinct vs

module _ {Header : Type 0} (ops : HeaderOps Header)
    (check_signature : Precommit → AuthorityId → ℕ → ℕ → SetId → Bool) (set_id : SetId)
    (voters : VoterSet) where
  abbrev pub sum_of : List AuthorityId → ℕ
  sum_of [] = 0
  sum_of (v ∷ vs) = weight_of check_signature set_id voters v + sum_of vs

  -- The weights of different authorities are a number of 64 bits together, as `VoterSet` ensures.
  abbrev pub SumsFit : Type 0
  SumsFit = (vs : List AuthorityId) → AreDistinct vs → sum_of vs < u64_mod

  module _ {S : Type 0} (callbacks : VerificationCallbacks S) where
    abbrev IsTally : Progress S → Type 0
    IsTally p = (p.cumulative_weight ≡ sum_of p.votes) × AreDistinct p.votes

    module _ (round : ℕ) (target_hash : Hash) (target_number : BlockNumber) where
      abbrev step : ℕ → SignedPrecommit → Progress S → Result Failure (Progress S)
      step =
          precommit_step ops check_signature set_id voters callbacks round target_hash target_number

      abbrev loop : ℕ → List SignedPrecommit → Progress S → Result Failure (Progress S)
      loop =
          precommit_loop ops check_signature set_id voters callbacks round target_hash target_number

      count_vote-NoPanic :
          (s : SignedPrecommit) (weight : ℕ) (p : Progress S)
          → p.cumulative_weight + weight < u64_mod
          → NoPanic (
              count_vote ops check_signature set_id voters callbacks round target_hash target_number
                s weight p)
      unfolding count_vote
      count_vote-NoPanic s weight p fits =
          let sum : checked_add_u64 p.cumulative_weight weight
              ≡ some (p.cumulative_weight + weight) =
            ground (arith, fits) in
          NoPanic-bind (ensure (leb target_number s.precommit.target_number) _) _
            (NoPanic-ensure _ _)
            (λ u e.
              NoPanic-bind
                (map_err failed (ensure_descendant target_hash p.chain s.precommit.target_hash)) _
                (NoPanic-map_err _)
                (λ chain e'.
                  NoPanic-bind (ok_or (checked_add_u64 p.cumulative_weight weight) panicked) _
                    (NoPanic-some _ sum)
                    (λ w e3.
                      NoPanic-bind
                        (ensure (check_signature s.precommit s.id s.signature round set_id) _) _
                        (NoPanic-ensure _ _) (λ v e4. tt))))

      abbrev KeepsTally : Result Failure (Progress S) → Type 0
      KeepsTally r = NoPanic r × ((after : Progress S) → r ≡ ok after → IsTally after)

      KeepsTally-continue_with :
          (p : Progress S) (r : Result Error S)
          → IsTally p
          → KeepsTally (continue_with ops check_signature set_id voters callbacks p r)
      KeepsTally-continue_with p (ok s) tally =
          (tt, λ after e. subst (λ t. IsTally t) (ok-injective e) tally)
      KeepsTally-continue_with p (err e) tally = (tt, λ after h. err_is_not_ok refl h)

      KeepsTally-count :
          (s : SignedPrecommit) (weight : ℕ) (p : Progress S)
          → SumsFit
          → IsTally p
          → voters.get s.id ≡ some weight
          → contains p.votes s.id ≡ false
          → KeepsTally (
              count_vote ops check_signature set_id voters callbacks round target_hash target_number
                s weight p)
      KeepsTally-count s weight p fits (sum, distinct) known once =
          let own : weight_of check_signature set_id voters s.id ≡ weight =
            rw (known, weight_of) refl in
          (
            count_vote-NoPanic s weight p
                (omega (arith, own, fits (s.id ∷ p.votes) (once, distinct))),
            λ after e.
                let c =
                  count_vote-Counted ops check_signature set_id voters round target_hash
                    target_number callbacks s weight p after e in
                rw c.votes (ground (arith, c.sum, own), (once, distinct)),
          )

      -- A round keeps the tally, and does not panic.
      step-KeepsTally :
          (i : ℕ) (s : SignedPrecommit) (p : Progress S)
          → SumsFit
          → IsTally p
          → KeepsTally (step i s p)
      step-KeepsTally i s p fits tally =
          elim (StepCases-total ops check_signature set_id voters round target_hash target_number
            callbacks i s p) [
              | redundant full e ↦
                  subst (λ r. KeepsTally r) (sym e) (KeepsTally-continue_with p _ tally)
              | unknown wanting absent e ↦
                  subst (λ r. KeepsTally r) (sym e) (KeepsTally-continue_with p _ tally)
              | duplicate weight wanting known again e ↦
                  subst (λ r. KeepsTally r) (sym e) (KeepsTally-continue_with p _ tally)
              | first weight wanting known once e ↦
                  subst (λ r. KeepsTally r) (sym e)
                    (KeepsTally-count s weight p fits tally known once)
            ]

      loop-NoPanic :
          (i : ℕ) (ps : List SignedPrecommit) (p : Progress S)
          → SumsFit
          → IsTally p
          → NoPanic (loop i ps p)
      unfolding precommit_loop
      loop-NoPanic i [] p fits tally = tt
      loop-NoPanic i (s ∷ ps) p fits tally =
          let (calm, keeps) = step-KeepsTally i s p fits tally in
          NoPanic-bind (step i s p) _ calm
            (λ middle e. loop-NoPanic (i + 1) ps middle fits (keeps middle e))

    finish-NoPanic :
        (p : Progress S) → NoPanic (finish ops check_signature set_id voters callbacks p)
    unfolding finish
    finish-NoPanic p =
        NoPanic-bind (ensure (is_empty p.chain.unvisited) _) _ (NoPanic-ensure _ _) (λ u e.
          NoPanic-bind (ensure (leb voters.threshold p.cumulative_weight) _) _ (NoPanic-ensure _ _)
            (λ v e'. tt))

    -- Where the weights of different authorities are a number of 64 bits together, no
    -- verification, with whichever callbacks, ends in the `expect` on the sum of the weights.
    pub verify_justification_with_callbacks-NoPanic :
        (target : Hash × BlockNumber) (justification : GrandpaJustification Header) (s : S)
        → SumsFit
        → NoPanic (
            verify_justification_with_callbacks ops check_signature set_id voters callbacks target
              justification s)
    unfolding verify_justification_with_callbacks
    verify_justification_with_callbacks-NoPanic (hash, number) justification s fits =
        let commit = justification.commit in
        let begin = start ops check_signature set_id voters callbacks justification s in
        NoPanic-bind (ensure (commit.target_hash == hash && commit.target_number == number) _) _
          (NoPanic-ensure _ _)
          (λ u e.
            NoPanic-bind (run ops check_signature set_id voters callbacks justification begin) _
              (loop-NoPanic justification.round commit.target_hash commit.target_number 0
                commit.precommits begin fits (refl, tt))
              (λ p e'. finish-NoPanic p))
