-- ===== src/Tests/Votes.antt =====
-- Runs of the verification of a justification: three voters of weight 1, two of which are enough.
use parity_bridges_common.Common.{
  ℕ, ◌+◌, ◌<◌, ◌≡◌, refl, ◌↔◌, Bool, true, none, some, List, [], ◌∷◌, ok, is_ok, arith, leb, ◌&&◌,
  if◌then◌else◌, length, ◌==◌, contains,
}
use parity_bridges_common.Justification.{
  AuthorityId, HeaderOps, SignedPrecommit, GrandpaJustification,
}
use parity_bridges_common.Justification.Ancestry.{AncestryChain, new, ensure_descendant, descend}
use parity_bridges_common.Justification.Ancestry.Descent.{
  Reaches, IsRank, ensure_descendant-fuel, ensure_descendant-decides, new-IsExplored,
}
use parity_bridges_common.Justification.Verify.{
  VoterSet, optimization, precommit_step, verify_justification_with_callbacks, verify_justification,
  verify_and_optimize_justification, optimize,
}
use parity_bridges_common.Justification.Verify.Strict.{
  IsJustified, verify_justification-IsJustified,
}
use parity_bridges_common.Justification.Verify.Optimize.{verify_and_optimize_justification-strict}
use parity_bridges_common.Justification.Verify.Weights.{
  NoPanic, AreDistinct, SumsFit, sum_of, verify_justification_with_callbacks-NoPanic,
}

-- A header is its number; its hash is that number and 100.
abbrev pub ops : HeaderOps ℕ
ops = record { hash = λ n. n + 100; parent_hash = λ n. n + 99; number = λ n. n }

abbrev pub voters : VoterSet
voters = record { get = λ id. if leb 1 id && leb id 3 then some 1 else none; threshold = 2 }

abbrev vote : ℕ → ℕ → SignedPrecommit
vote id number = record {
  precommit = record { target_hash = number + 100; target_number = number };
  signature = id;
  id = id;
}

-- A signature of the voter is its id.
abbrev pub check_signature : {P : Type 0} → P → AuthorityId → ℕ → ℕ → ℕ → Bool
check_signature precommit id signature round set_id = signature == id

abbrev pub justify : ℕ → List SignedPrecommit → List ℕ → GrandpaJustification ℕ
justify number precommits ancestries = record {
  round = 1;
  commit = record { target_hash = number + 100; target_number = number; precommits = precommits };
  votes_ancestries = ancestries;
}

-- One vote for the target, one for its grandchild.
abbrev pub justification : GrandpaJustification ℕ
justification = justify 5 (vote 1 5 ∷ vote 2 7 ∷ []) (6 ∷ 7 ∷ [])

-- The same with a vote of nobody, one that comes twice and one too many.
abbrev long_justification : GrandpaJustification ℕ
long_justification =
    justify 5 (vote 9 5 ∷ vote 1 5 ∷ vote 1 5 ∷ vote 2 7 ∷ vote 3 5 ∷ []) (6 ∷ 7 ∷ [])

abbrev ancestry : AncestryChain
ancestry = new ops (6 ∷ 7 ∷ [])

ancestry-IsRank : IsRank ancestry.parents (λ h. h)
unfolding new
ancestry-IsRank h p e = ground (arith, e)

ensure_descendant-decides_example :
    (is_ok (ensure_descendant 105 ancestry 107) ≡ true) ↔ Reaches ancestry.parents 105 107
ensure_descendant-decides_example =
    ensure_descendant-decides 105 (λ h. h) ancestry 107 ancestry-IsRank
      (new-IsExplored ops 105 (6 ∷ 7 ∷ []))

ancestry-short : length ancestry.unvisited < 9
unfolding new
ancestry-short = omega arith

ensure_descendant-fuel_example :
    descend 105 9 ancestry 107 ≡ some (ensure_descendant 105 ancestry 107)
ensure_descendant-fuel_example = ensure_descendant-fuel 105 ancestry 107 9 ancestry-short

verified : verify_justification ops check_signature 0 voters (105, 5) justification ≡ ok tt
unfolding verify_justification verify_justification_with_callbacks precommit_step new
    ensure_descendant
verified = refl

verify_justification-IsJustified_example :
    IsJustified ops check_signature 0 voters (105, 5) justification
verify_justification-IsJustified_example =
    verify_justification-IsJustified ops check_signature 0 voters (105, 5) justification (λ h. h)
      ancestry-IsRank verified

optimized :
    verify_and_optimize_justification ops check_signature 0 voters (105, 5) long_justification
    ≡ ok justification
unfolding verify_and_optimize_justification verify_justification_with_callbacks precommit_step new
    ensure_descendant optimize
optimized = refl

verify_and_optimize_justification-strict_example :
    verify_justification ops check_signature 0 voters (105, 5) justification ≡ ok tt
verify_and_optimize_justification-strict_example =
    verify_and_optimize_justification-strict ops check_signature 0 voters (105, 5)
      long_justification justification optimized

abbrev one_voter : VoterSet
one_voter = record { get = λ id. if id == 1 then some 1 else none; threshold = 1 }

one_voter_sum :
    (vs : List AuthorityId)
    → AreDistinct vs
    → sum_of ops check_signature 0 one_voter vs ≡ (if contains vs 1 then 1 else 0)
one_voter_sum [] d = refl
one_voter_sum (v ∷ vs) d = ground (arith, d.0, one_voter_sum vs d.1)

one_voter_fits : SumsFit ops check_signature 0 one_voter
one_voter_fits vs d = ground (arith, one_voter_sum vs d)

verify_justification_with_callbacks-NoPanic_example : NoPanic (
    verify_justification_with_callbacks ops check_signature 0 one_voter optimization
      (105, 5)
      long_justification
      [])
verify_justification_with_callbacks-NoPanic_example =
    verify_justification_with_callbacks-NoPanic ops check_signature 0 one_voter optimization
      (105, 5) long_justification [] one_voter_fits
