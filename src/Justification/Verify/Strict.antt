-- ===== src/Justification/Verify/Strict.antt =====
-- What `verify_justification` has established of a justification that it accepts.
use parity_bridges_common.Common.{
  ℕ, ◌+◌, ◌≤◌, ◌<◌, ◌≡◌, refl, sym, ◌∙◌, subst, ◌⊎◌, inl, inr, Bool, true, false, Option, none,
  some, List, [], ◌∷◌, Result, ok, arith, contains, >>=-eq-ok, ok-injective, err_is_not_ok,
  checked_add_u64, is_some,
}
use parity_bridges_common.Justification.{
  Hash, BlockNumber, AuthorityId, SetId, HeaderOps, Precommit, SignedPrecommit,
  GrandpaJustification,
}
use parity_bridges_common.Justification.Ancestry.{new}
use parity_bridges_common.Justification.Ancestry.Descent.{
  Reaches, IsRank, IsExplored, Walked, ensure_descendant-Walked, Walked-IsExplored, new-IsFresh,
  new-IsExplored,
}
use parity_bridges_common.Justification.Verify.{
  VoterSet, Failure, Progress, precommit_step, precommit_loop, strict, is_empty,
  verify_justification,
}
use parity_bridges_common.Justification.Verify.Votes.{
  Counted, count_vote-Counted, redundant, unknown, duplicate, first, StepCases-total, start,
  verify_justification_with_callbacks-Verified,
}

not_true {ℓ} : {C : Type ℓ} → false ≡ true → C
not_true h = cc

is_empty-contains : (hs : List Hash) (h : Hash) → is_empty hs ≡ true → contains hs h ≡ false
is_empty-contains [] h e = refl
is_empty-contains (x ∷ hs) h e = not_true e

module _ (check_signature : Precommit → AuthorityId → ℕ → ℕ → SetId → Bool) (set_id : SetId)
    (voters : VoterSet) where
  -- The weight of an authority, which is 0 outside of the set.
  abbrev pub weight_of : AuthorityId → ℕ
  weight_of id = elim (voters.get id) [ none ↦ 0 | some weight ↦ weight ]

  abbrev pub total_weight : List SignedPrecommit → ℕ
  total_weight [] = 0
  total_weight (s ∷ ps) = weight_of s.id + total_weight ps

  module _ (round : ℕ) (target_hash : Hash) (target_number : BlockNumber)
      (parents : Hash → Option Hash) where
    -- A vote of a member of the set for a descendant of the target, with its signature.
    pub record IsVote (s : SignedPrecommit) : Type 0 where
      pub member : is_some (voters.get s.id) ≡ true
      pub above : target_number ≤ s.precommit.target_number
      pub descends : Reaches parents target_hash s.precommit.target_hash
      pub signature : check_signature s.precommit s.id s.signature round set_id ≡ true

    -- Votes of different members, none of them cast when the weight is already enough.
    abbrev pub AreVotes : List AuthorityId → ℕ → List SignedPrecommit → Type 0
    AreVotes voted weight [] = Unit
    AreVotes voted weight (s ∷ ps) =
        IsVote s
        × (contains voted s.id ≡ false)
        × (weight < voters.threshold)
        × AreVotes (s.id ∷ voted) (weight + weight_of s.id) ps

    -- The header lies between the target and the header that one of the votes is for.
    pub data OnRoute (h : Hash) : List SignedPrecommit → Type 0 where
      here :
          {s : SignedPrecommit} {ps : List SignedPrecommit}
          → Reaches parents h s.precommit.target_hash
          → Reaches parents target_hash h
          → OnRoute h (s ∷ ps)
      there : {s : SignedPrecommit} {ps : List SignedPrecommit} → OnRoute h ps → OnRoute h (s ∷ ps)

    record AcceptedVotes (ps : List SignedPrecommit) (p after : Progress (Unit {0})) : Type 0 where
      votes : AreVotes p.votes p.cumulative_weight ps
      weight : after.cumulative_weight ≡ p.cumulative_weight + total_weight ps
      visited :
          (h : Hash)
          → contains after.chain.unvisited h ≡ false
          → (contains p.chain.unvisited h ≡ false) ⊎ OnRoute h ps

module _ {Header : Type 0} (ops : HeaderOps Header)
    (check_signature : Precommit → AuthorityId → ℕ → ℕ → SetId → Bool) (set_id : SetId)
    (voters : VoterSet) where
  module _ (round : ℕ) (target_hash : Hash) (target_number : BlockNumber) where
    abbrev checking :
        ℕ → SignedPrecommit → Progress (Unit {0}) → Result Failure (Progress (Unit {0}))
    checking =
        precommit_step ops check_signature set_id voters strict round target_hash target_number

    abbrev checking_all :
        ℕ → List SignedPrecommit → Progress (Unit {0}) → Result Failure (Progress (Unit {0}))
    checking_all =
        precommit_loop ops check_signature set_id voters strict round target_hash target_number

    -- A strict round that succeeds has counted a first vote of a member.
    checking-Counted :
        (i : ℕ) (s : SignedPrecommit) (p after : Progress (Unit {0}))
        → checking i s p ≡ ok after
        → (weight : ℕ) × (p.cumulative_weight < voters.threshold)
          × (voters.get s.id ≡ some weight)
          × (contains p.votes s.id ≡ false)
          × Counted ops check_signature set_id voters round target_hash target_number s weight p
              after
    checking-Counted i s p after done =
        elim (StepCases-total ops check_signature set_id voters round target_hash target_number
          strict i s p) [
            | redundant full step ↦ err_is_not_ok step done
            | unknown wanting absent step ↦ err_is_not_ok step done
            | duplicate weight wanting known again step ↦ err_is_not_ok step done
            | first weight wanting known once step ↦ (
              weight,
              wanting,
              known,
              once,
              count_vote-Counted ops check_signature set_id voters round target_hash target_number
                  strict s weight p after (sym step ∙ done),
            )
          ]

    checking-sum : (w weight after : ℕ) → checked_add_u64 w weight ≡ some after → after ≡ w + weight
    checking-sum w weight after e = ground (arith, e)

    AcceptedVotes-cons :
        (s : SignedPrecommit) (weight : ℕ) (ps : List SignedPrecommit)
        (p middle after : Progress (Unit {0}))
        → p.cumulative_weight < voters.threshold
        → voters.get s.id ≡ some weight
        → contains p.votes s.id ≡ false
        → Counted ops check_signature set_id voters round target_hash target_number s weight p
            middle
        → Walked target_hash p.chain middle.chain s.precommit.target_hash
        → AcceptedVotes check_signature set_id voters round target_hash target_number
            p.chain.parents ps middle after
        → AcceptedVotes check_signature set_id voters round target_hash target_number
            p.chain.parents
            (s ∷ ps)
            p
            after
    AcceptedVotes-cons s weight ps p middle after wanting known once c w ih =
        let sum = checking-sum p.cumulative_weight weight middle.cumulative_weight c.sum in
        let own : weight_of check_signature set_id voters s.id ≡ weight =
          rw (known, weight_of) refl in
        let total : middle.cumulative_weight
            ≡ p.cumulative_weight + weight_of check_signature set_id voters s.id =
          rw own sum in
        record {
          votes = (
            record {
              member = rw known refl;
              above = ground (arith, c.above);
              descends = w.reaches;
              signature = c.signature;
            },
            once,
            wanting,
            rw (c.votes, total) at ih.votes,
          );
          weight = omega (arith, ih.weight, total);
          visited = λ h v. elim (ih.visited h v) [
            | inl before ↦ elim (w.between h before) [
              | inl earlier ↦ inl earlier
              | inr (a, b) ↦ inr (here a b)
            ]
            | inr route ↦ inr (there route)
          ];
        }

    checking_all-AcceptedVotes :
        (rank : Hash → ℕ) (i : ℕ) (ps : List SignedPrecommit) (p after : Progress (Unit {0}))
        → IsRank p.chain.parents rank
        → IsExplored target_hash p.chain
        → checking_all i ps p ≡ ok after
        → AcceptedVotes check_signature set_id voters round target_hash target_number
            p.chain.parents ps p after
    unfolding precommit_loop
    checking_all-AcceptedVotes rank i [] p after ranked explored done =
        subst
          (λ t.
            AcceptedVotes check_signature set_id voters round target_hash target_number
              p.chain.parents [] p t)
          (ok-injective done) (record { votes = tt; weight = omega arith; visited = λ h v. inl v })
    checking_all-AcceptedVotes rank i (s ∷ ps) p after ranked explored done =
        let (middle, step, rest) = >>=-eq-ok (checking i s p) _ done in
        let (weight, wanting, known, once, c) = checking-Counted i s p middle step in
        let w =
          ensure_descendant-Walked target_hash rank p.chain middle.chain s.precommit.target_hash
            ranked explored c.descends in
        let ih =
          checking_all-AcceptedVotes rank (i + 1) ps middle after
            (subst (λ m. IsRank m rank) (sym w.same_parents) ranked)
            (Walked-IsExplored target_hash p.chain middle.chain s.precommit.target_hash explored w)
            rest in
        AcceptedVotes-cons s weight ps p middle after wanting known once c w (
          subst
            (λ m.
              AcceptedVotes check_signature set_id voters round target_hash target_number m ps
                middle after)
            w.same_parents ih)

  -- What makes a justification final for the target.
  pub record IsJustified (target : Hash × BlockNumber) (justification : GrandpaJustification Header)
      : Type 0 where
    pub same_hash : justification.commit.target_hash ≡ target.0
    pub same_number : justification.commit.target_number ≡ target.1
    pub votes :
        AreVotes check_signature set_id voters justification.round justification.commit.target_hash
          justification.commit.target_number
          (new ops justification.votes_ancestries).parents
          []
          0
          justification.commit.precommits
    pub enough :
        voters.threshold
        ≤ total_weight check_signature set_id voters justification.commit.precommits
    pub no_extra :
        (h p : Hash)
        → (new ops justification.votes_ancestries).parents h ≡ some p
        → OnRoute check_signature set_id voters justification.round justification.commit.target_hash
            justification.commit.target_number
            (new ops justification.votes_ancestries).parents
            h
            justification.commit.precommits

  -- Where no header of the ancestry is its own ancestor, a justification that
  -- `verify_justification` accepts is for the target, its precommits are signed votes of
  -- different members of the set for descendants of the target, none of them cast when the weight
  -- was already enough, their weight reaches the threshold, and every header of the ancestry lies
  -- between the target and the target of a vote.
  pub verify_justification-IsJustified :
      (target : Hash × BlockNumber) (justification : GrandpaJustification Header) (rank : Hash → ℕ)
      → IsRank (new ops justification.votes_ancestries).parents rank
      → verify_justification ops check_signature set_id voters target justification ≡ ok tt
      → IsJustified target justification
  unfolding verify_justification
  verify_justification-IsJustified target justification rank ranked done =
      let v =
        verify_justification_with_callbacks-Verified ops check_signature set_id voters strict target
          justification tt tt done in
      let commit = justification.commit in
      let begin = start ops check_signature set_id voters strict justification tt in
      let a =
        checking_all-AcceptedVotes justification.round commit.target_hash commit.target_number rank
          0 commit.precommits begin v.last ranked
          (new-IsExplored ops commit.target_hash justification.votes_ancestries) v.looped in
      record {
        same_hash = ground (arith, v.expected);
        same_number = ground (arith, v.expected);
        votes = a.votes;
        enough = ground (arith, v.enough, a.weight);
        no_extra = λ h p e.
            elim (a.visited h (is_empty-contains v.last.chain.unvisited h v.no_extra)) [
              | inl visited ↦ new-is_unvisited h p e visited
              | inr route ↦ route
            ];
      }
    where
      new-is_unvisited :
          {C : Type 0} (h p : Hash)
          → (new ops justification.votes_ancestries).parents h ≡ some p
          → contains (new ops justification.votes_ancestries).unvisited h ≡ false
          → C
      new-is_unvisited h p e v = ground (arith, new-IsFresh ops justification.votes_ancestries h)
