-- ===== src/Justification/Verify/Votes.antt =====
-- What a counted vote is, against the rounds of `verify_justification_with_callbacks`.
use parity_bridges_common.Common.{
  ℕ, ◌≤◌, ◌<◌, ◌≡◌, refl, sym, ap, inl, inr, Bool, true, false, none, some, [], ◌∷◌, Result, ok,
  ensure, leb, contains, arith, checked_add_u64, ensure-eq-ok, ok_or-eq-ok, >>=-eq-ok,
  map_err-eq-ok, ok-injective, Bool-cases, Option-cases, subst, ◌&&◌, ◌==◌,
}
use parity_bridges_common.Justification.{
  Hash, BlockNumber, AuthorityId, SetId, HeaderOps, Precommit, SignedPrecommit, Error,
  GrandpaJustification, invalid_justification_target,
}
use parity_bridges_common.Justification.Ancestry.{ensure_descendant, new}
use parity_bridges_common.Justification.Verify.{
  VoterSet, Failure, failed, VerificationCallbacks, Progress, count_vote, precommit_step,
  precommit_loop, finish, continue_with, verify_justification_with_callbacks, is_empty,
}

module _ {Header : Type 0} (ops : HeaderOps Header)
    (check_signature : Precommit → AuthorityId → ℕ → ℕ → SetId → Bool) (set_id : SetId)
    (voters : VoterSet) (round : ℕ) (target_hash : Hash) (target_number : BlockNumber) where
  -- What `count_vote` has checked and changed.
  pub record Counted {S : Type 0} (signed : SignedPrecommit) (weight : ℕ) (p after : Progress S)
      : Type 0 where
    pub above : leb target_number signed.precommit.target_number ≡ true
    pub descends :
        ensure_descendant target_hash p.chain signed.precommit.target_hash ≡ ok after.chain
    pub sum : checked_add_u64 p.cumulative_weight weight ≡ some after.cumulative_weight
    pub signature : check_signature signed.precommit signed.id signed.signature round set_id ≡ true
    pub votes : after.votes ≡ signed.id ∷ p.votes
    pub callbacks : after.callbacks ≡ p.callbacks

  module _ {S : Type 0} (callbacks : VerificationCallbacks S) where
    abbrev count : SignedPrecommit → ℕ → Progress S → Result Failure (Progress S)
    count = count_vote ops check_signature set_id voters callbacks round target_hash target_number

    pub count_vote-Counted :
        (signed : SignedPrecommit) (weight : ℕ) (p after : Progress S)
        → count signed weight p ≡ ok after
        → Counted signed weight p after
    unfolding count_vote
    count_vote-Counted signed weight p after done =
        let (u, above, d1) = >>=-eq-ok _ _ done in
        let (chain, descends, d2) = >>=-eq-ok _ _ d1 in
        let (sum, added, d3) = >>=-eq-ok _ _ d2 in
        let (v, signature, d4) = >>=-eq-ok _ _ d3 in
        let same = ok-injective d4 in
        subst (λ t. Counted signed weight p t) same
          (record {
            above = ensure-eq-ok _ _ above;
            descends = map_err-eq-ok failed _ descends;
            sum = ok_or-eq-ok _ _ added;
            signature = ensure-eq-ok _ _ signature;
            votes = refl;
            callbacks = refl;
          })

    pub Counted-count_vote :
        (signed : SignedPrecommit) (weight : ℕ) (p after : Progress S)
        → Counted signed weight p after
        → count signed weight p ≡ ok after
    unfolding count_vote
    Counted-count_vote signed weight p after c =
        rw (c.above, c.descends, c.sum, c.signature, sym c.votes, sym c.callbacks) refl

    abbrev step : ℕ → SignedPrecommit → Progress S → Result Failure (Progress S)
    step =
        precommit_step ops check_signature set_id voters callbacks round target_hash target_number

    abbrev go_on : Progress S → Result Error S → Result Failure (Progress S)
    go_on = continue_with ops check_signature set_id voters callbacks

    -- The ways a round goes.
    pub data StepCases (idx : ℕ) (signed : SignedPrecommit) (p : Progress S) : Type 0 where
      redundant :
          voters.threshold ≤ p.cumulative_weight
          → step idx signed p ≡ go_on p (callbacks.on_redundant_authority_vote p.callbacks idx)
          → StepCases idx signed p
      unknown :
          p.cumulative_weight < voters.threshold
          → voters.get signed.id ≡ none
          → step idx signed p ≡ go_on p (callbacks.on_unkown_authority p.callbacks idx)
          → StepCases idx signed p
      duplicate :
          (weight : ℕ)
          → p.cumulative_weight < voters.threshold
          → voters.get signed.id ≡ some weight
          → contains p.votes signed.id ≡ true
          → step idx signed p ≡ go_on p (callbacks.on_duplicate_authority_vote p.callbacks idx)
          → StepCases idx signed p
      first :
          (weight : ℕ)
          → p.cumulative_weight < voters.threshold
          → voters.get signed.id ≡ some weight
          → contains p.votes signed.id ≡ false
          → step idx signed p ≡ count signed weight p
          → StepCases idx signed p

    pub StepCases-total :
        (idx : ℕ) (signed : SignedPrecommit) (p : Progress S) → StepCases idx signed p
    unfolding precommit_step
    StepCases-total idx signed p = elim (Bool-cases (leb voters.threshold p.cumulative_weight)) [
      | inl full ↦ redundant (ground (arith, full)) (rw full refl)
      | inr wanting ↦ elim (Option-cases (voters.get signed.id)) [
        | inl e ↦ unknown (ground (arith, wanting)) e (rw (wanting, e) refl)
        | inr (weight, e) ↦ elim (Bool-cases (contains p.votes signed.id)) [
          | inl again ↦
              duplicate weight (ground (arith, wanting)) e again (rw (wanting, e, again) refl)
          | inr once ↦ first weight (ground (arith, wanting)) e once (rw (wanting, e, once) refl)
        ]
      ]
    ]

    pub step-first :
        (idx : ℕ) (signed : SignedPrecommit) (weight : ℕ) (p : Progress S)
        → p.cumulative_weight < voters.threshold
        → voters.get signed.id ≡ some weight
        → contains p.votes signed.id ≡ false
        → step idx signed p ≡ count signed weight p
    unfolding precommit_step
    step-first idx signed weight p wanting known once =
        let low : leb voters.threshold p.cumulative_weight ≡ false = ground (arith, wanting) in
        rw (low, known, once) refl

module _ {Header : Type 0} (ops : HeaderOps Header)
    (check_signature : Precommit → AuthorityId → ℕ → ℕ → SetId → Bool) (set_id : SetId)
    (voters : VoterSet) {S : Type 0} (callbacks : VerificationCallbacks S) where
  -- The state that the loop starts from.
  abbrev pub start : GrandpaJustification Header → S → Progress S
  start justification s = record {
    chain = new ops justification.votes_ancestries;
    votes = [];
    cumulative_weight = 0;
    callbacks = s;
  }

  abbrev pub run : GrandpaJustification Header → Progress S → Result Failure (Progress S)
  run justification p =
      let commit = justification.commit in
      precommit_loop ops check_signature set_id voters callbacks justification.round
        commit.target_hash commit.target_number 0 commit.precommits p

  -- What a verification that succeeds has checked.
  pub record Verified (target : Hash × BlockNumber) (justification : GrandpaJustification Header)
      (s s' : S) : Type 0 where
    pub expected :
        (justification.commit.target_hash == target.0
          && justification.commit.target_number == target.1)
        ≡ true
    pub last : Progress S
    pub looped : run justification (start justification s) ≡ ok last
    pub no_extra : is_empty last.chain.unvisited ≡ true
    pub enough : leb voters.threshold last.cumulative_weight ≡ true
    pub state : last.callbacks ≡ s'

  finish-checks :
      (p : Progress S) (s' : S)
      → finish ops check_signature set_id voters callbacks p ≡ ok s'
      → (is_empty p.chain.unvisited ≡ true)
        × (leb voters.threshold p.cumulative_weight ≡ true)
        × (p.callbacks ≡ s')
  unfolding finish
  finish-checks p s' done =
      let (v, no_extra, d1) = >>=-eq-ok (ensure (is_empty p.chain.unvisited) _) _ done in
      let (w, enough, d2) = >>=-eq-ok (ensure (leb voters.threshold p.cumulative_weight) _) _ d1 in
      (ensure-eq-ok _ _ no_extra, ensure-eq-ok _ _ enough, ok-injective d2)

  pub verify_justification_with_callbacks-Verified :
      (target : Hash × BlockNumber) (justification : GrandpaJustification Header) (s s' : S)
      → verify_justification_with_callbacks ops check_signature set_id voters callbacks target
          justification s
        ≡ ok s'
      → Verified target justification s s'
  unfolding verify_justification_with_callbacks
  verify_justification_with_callbacks-Verified (hash, number) justification s s' done =
      let commit = justification.commit in
      let (u, expected, d1) =
        >>=-eq-ok
          (ensure (commit.target_hash == hash && commit.target_number == number)
            (failed invalid_justification_target))
          _ done in
      let (p, looped, d2) = >>=-eq-ok (run justification (start justification s)) _ d1 in
      let (no_extra, enough, state) = finish-checks p s' d2 in
      record {
        expected = ensure-eq-ok _ _ expected;
        last = p;
        looped = looped;
        no_extra = no_extra;
        enough = enough;
        state = state;
      }

  pub Verified-verify_justification_with_callbacks :
      (target : Hash × BlockNumber) (justification : GrandpaJustification Header) (s s' : S)
      → Verified target justification s s'
      → verify_justification_with_callbacks ops check_signature set_id voters callbacks target
          justification s
        ≡ ok s'
  unfolding verify_justification_with_callbacks finish
  Verified-verify_justification_with_callbacks (hash, number) justification s s' v =
      rw (v.expected, v.looped, v.no_extra, v.enough) (ap ok v.state)
