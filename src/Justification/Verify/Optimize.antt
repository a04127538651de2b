-- ===== src/Justification/Verify/Optimize.antt =====
-- `verify_and_optimize_justification` against `verify_justification`.
use parity_bridges_common.Common.{
  ℕ, ◌+◌, ◌≡◌, refl, sym, ap, ◌∙◌, subst, Bool, List, [], ◌∷◌, ◌++◌, Result, ok, arith, length,
  >>=-eq-ok, ok-injective, length-append,
}
use parity_bridges_common.Justification.{
  Hash, BlockNumber, AuthorityId, SetId, HeaderOps, Precommit, SignedPrecommit,
  GrandpaJustification,
}
use parity_bridges_common.Justification.Verify.{
  VoterSet, Failure, Progress, precommit_step, precommit_loop, strict, optimization, remove_at,
  remove_all, optimize, verify_justification_with_callbacks, verify_justification,
  verify_and_optimize_justification,
}
use parity_bridges_common.Justification.Verify.Votes.{
  Counted, count_vote-Counted, Counted-count_vote, redundant, unknown, duplicate, first,
  StepCases-total, step-first, start, Verified, verify_justification_with_callbacks-Verified,
  Verified-verify_justification_with_callbacks,
}

-- The second list is the first without the elements at the indices, where the first begins at `i`.
data Drops {ℓ} {A : Type ℓ} : ℕ → List ℕ → List A → List A → Type ℓ where
  done : {i : ℕ} → Drops i [] [] []
  keep :
      {i : ℕ} {is : List ℕ} {x : A} {xs ys : List A}
      → Drops (i + 1) is xs ys
      → Drops i is (x ∷ xs) (x ∷ ys)
  drop :
      {i : ℕ} {is : List ℕ} {x : A} {xs ys : List A}
      → Drops (i + 1) is xs ys
      → Drops i (i ∷ is) (x ∷ xs) ys

module _ {ℓ} {A : Type ℓ} where
  append_nil : (xs : List A) → xs ++ [] ≡ xs
  append_nil [] = refl
  append_nil (x ∷ xs) = ap (λ l. x ∷ l) (append_nil xs)

  append-snoc : (front : List A) (x : A) (xs : List A) → (front ++ x ∷ []) ++ xs ≡ front ++ x ∷ xs
  append-snoc [] x xs = refl
  append-snoc (y ∷ front) x xs = ap (λ l. y ∷ l) (append-snoc front x xs)

  remove_at-append :
      (front : List A) (x : A) (xs : List A)
      → remove_at (length front) (front ++ x ∷ xs) ≡ front ++ xs
  remove_at-append [] x xs = refl
  remove_at-append (y ∷ front) x xs = ap (λ l. y ∷ l) (remove_at-append front x xs)

  remove_all-Drops :
      {i : ℕ} {is : List ℕ} {xs ys : List A} (front : List A)
      → length front ≡ i
      → Drops i is xs ys
      → remove_all is (front ++ xs) ≡ front ++ ys
  remove_all-Drops front e done = refl
  remove_all-Drops front e (keep {is = is} {x = x} {xs = xs} {ys = ys} d) =
      rw (append-snoc front x xs, append-snoc front x ys) at
        (remove_all-Drops (front ++ x ∷ []) (omega (arith, length-append front (x ∷ []))) d)
  remove_all-Drops front e (drop {is = is} {x = x} {xs = xs} {ys = ys} d) =
      let rest =
        rw (append-snoc front x xs, append-snoc front x ys) at
          (remove_all-Drops (front ++ x ∷ []) (omega (arith, length-append front (x ∷ []))) d) in
      rw (rest, sym e) (remove_at-append front x ys)

module _ {Header : Type 0} (ops : HeaderOps Header)
    (check_signature : Precommit → AuthorityId → ℕ → ℕ → SetId → Bool) (set_id : SetId)
    (voters : VoterSet) (round : ℕ) (target_hash : Hash) (target_number : BlockNumber) where
  -- The progress without the callbacks' state.
  abbrev bare : {S : Type 0} → Progress S → Progress (Unit {0})
  bare p = record {
    chain = p.chain;
    votes = p.votes;
    cumulative_weight = p.cumulative_weight;
    callbacks = tt;
  }

  abbrev optimizing : ℕ → SignedPrecommit → Progress (List ℕ) → Result Failure (Progress (List ℕ))
  optimizing =
      precommit_step ops check_signature set_id voters optimization round target_hash target_number

  abbrev checking : ℕ → SignedPrecommit → Progress (Unit {0}) → Result Failure (Progress (Unit {0}))
  checking = precommit_step ops check_signature set_id voters strict round target_hash target_number

  -- A round of the optimization drops the precommit, or does what a strict round does.
  data Kept (idx : ℕ) (signed : SignedPrecommit) (p after : Progress (List ℕ)) : Type 0 where
    dropped :
        after.callbacks ≡ p.callbacks ++ idx ∷ [] → bare after ≡ bare p → Kept idx signed p after
    kept :
        after.callbacks ≡ p.callbacks
        → ((i : ℕ) → checking i signed (bare p) ≡ ok (bare after))
        → Kept idx signed p after

  optimizing-dropped :
      (idx : ℕ) (signed : SignedPrecommit) (p after : Progress (List ℕ))
      → ◌≡◌ {A = Result Failure (Progress (List ℕ))}
          (ok (record p { callbacks = p.callbacks ++ idx ∷ [] }))
          (ok after)
      → Kept idx signed p after
  optimizing-dropped idx signed p after e =
      subst (λ t. Kept idx signed p t) (ok-injective e) (dropped refl refl)

  abbrev CountedHere : {S : Type 0} → SignedPrecommit → ℕ → Progress S → Progress S → Type 0
  CountedHere = Counted ops check_signature set_id voters round target_hash target_number

  Counted-bare :
      {signed : SignedPrecommit} {weight : ℕ} {p after : Progress (List ℕ)}
      → CountedHere signed weight p after
      → CountedHere signed weight (bare p) (bare after)
  Counted-bare c = record {
    above = c.above;
    descends = c.descends;
    sum = c.sum;
    signature = c.signature;
    votes = c.votes;
    callbacks = refl;
  }

  optimizing-Kept :
      (idx : ℕ) (signed : SignedPrecommit) (p after : Progress (List ℕ))
      → optimizing idx signed p ≡ ok after
      → Kept idx signed p after
  optimizing-Kept idx signed p after e =
      elim (StepCases-total ops check_signature set_id voters round target_hash target_number
        optimization idx signed p) [
          | redundant full step ↦ optimizing-dropped idx signed p after (sym step ∙ e)
          | unknown wanting none step ↦ optimizing-dropped idx signed p after (sym step ∙ e)
          | duplicate weight wanting known again step ↦
              optimizing-dropped idx signed p after (sym step ∙ e)
          | first weight wanting known once step ↦
              let c =
                count_vote-Counted ops check_signature set_id voters round target_hash target_number
                  optimization signed weight p after (sym step ∙ e) in
              kept c.callbacks (λ i.
                step-first ops check_signature set_id voters round target_hash target_number strict
                  i signed weight (bare p) wanting known once
                ∙ Counted-count_vote ops check_signature set_id voters round target_hash
                    target_number strict signed weight (bare p) (bare after) (Counted-bare c))
        ]

  abbrev optimizing_all :
      ℕ → List SignedPrecommit → Progress (List ℕ) → Result Failure (Progress (List ℕ))
  optimizing_all =
      precommit_loop ops check_signature set_id voters optimization round target_hash target_number

  abbrev checking_all :
      ℕ → List SignedPrecommit → Progress (Unit {0}) → Result Failure (Progress (Unit {0}))
  checking_all =
      precommit_loop ops check_signature set_id voters strict round target_hash target_number

  -- The loop of the optimization drops precommits, and a strict loop accepts the others.
  abbrev KeptAll : ℕ → List SignedPrecommit → Progress (List ℕ) → Progress (List ℕ) → Type 0
  KeptAll idx signed p after =
      (removed : List ℕ) × (rest : List SignedPrecommit) × (after.callbacks
        ≡ p.callbacks ++ removed)
      × Drops idx removed signed rest
      × ((i : ℕ) → checking_all i rest (bare p) ≡ ok (bare after))

  checking_all-cons :
      (i : ℕ) (signed : SignedPrecommit) (rest : List SignedPrecommit)
      (p middle after : Progress (Unit {0}))
      → checking i signed p ≡ ok middle
      → checking_all (i + 1) rest middle ≡ ok after
      → checking_all i (signed ∷ rest) p ≡ ok after
  unfolding precommit_loop
  checking_all-cons i signed rest p middle after h k = rw h k

  KeptAll-cons :
      (idx : ℕ) (signed : SignedPrecommit) (rest : List SignedPrecommit)
      (p middle after : Progress (List ℕ))
      → Kept idx signed p middle
      → KeptAll (idx + 1) rest middle after
      → KeptAll idx (signed ∷ rest) p after
  KeptAll-cons idx signed rest p middle after (dropped e same) (removed, others, e', d, accepts) = (
    idx ∷ removed,
    others,
    e' ∙ ap (λ l. l ++ removed) e ∙ append-snoc p.callbacks idx removed,
    drop d,
    rw same at accepts,
  )
  KeptAll-cons idx signed rest p middle after (kept e accept) (removed, others, e', d, accepts) = (
    removed,
    signed ∷ others,
    e' ∙ ap (λ l. l ++ removed) e,
    keep d,
    λ i.
        checking_all-cons i signed others (bare p) (bare middle) (bare after) (accept i)
          (accepts (i + 1)),
  )

  optimizing_all-KeptAll :
      (idx : ℕ) (signed : List SignedPrecommit) (p after : Progress (List ℕ))
      → optimizing_all idx signed p ≡ ok after
      → KeptAll idx signed p after
  unfolding precommit_loop
  optimizing_all-KeptAll idx [] p after e =
      subst (λ t. KeptAll idx [] p t) (ok-injective e)
        ([], [], sym (append_nil p.callbacks), done, λ i. refl)
  optimizing_all-KeptAll idx (signed ∷ rest) p after e =
      let (middle, step, e') = >>=-eq-ok _ _ e in
      KeptAll-cons idx signed rest p middle after (optimizing-Kept idx signed p middle step)
        (optimizing_all-KeptAll (idx + 1) rest middle after e')

module _ {Header : Type 0} (ops : HeaderOps Header)
    (check_signature : Precommit → AuthorityId → ℕ → ℕ → SetId → Bool) (set_id : SetId)
    (voters : VoterSet) where
  optimize-Verified :
      (target : Hash × BlockNumber) (justification : GrandpaJustification Header) (removed : List ℕ)
      → Verified ops check_signature set_id voters optimization target justification [] removed
      → Verified ops check_signature set_id voters strict target
          (optimize removed justification)
          tt
          tt
  unfolding optimize
  optimize-Verified target justification removed v =
      let commit = justification.commit in
      let (indices, rest, same, drops, accepts) =
        optimizing_all-KeptAll ops check_signature set_id voters justification.round
          commit.target_hash commit.target_number 0 commit.precommits
          (start ops check_signature set_id voters optimization justification []) v.last v.looped in
      let kept : remove_all removed commit.precommits ≡ rest =
        ap (λ l. remove_all l commit.precommits) (sym v.state ∙ same)
        ∙ remove_all-Drops [] refl drops in
      record {
        expected = v.expected;
        last =
            bare ops check_signature set_id voters justification.round commit.target_hash
              commit.target_number v.last;
        looped = rw kept (accepts 0);
        no_extra = v.no_extra;
        enough = v.enough;
        state = refl;
      }

  -- A justification that `verify_and_optimize_justification` returns is one that
  -- `verify_justification` accepts for the same target.
  pub verify_and_optimize_justification-strict :
      (target : Hash × BlockNumber) (justification optimized : GrandpaJustification Header)
      → verify_and_optimize_justification ops check_signature set_id voters target justification
        ≡ ok optimized
      → verify_justification ops check_signature set_id voters target optimized ≡ ok tt
  unfolding verify_and_optimize_justification verify_justification
  verify_and_optimize_justification-strict target justification optimized e =
      let (removed, verified, returned) =
        >>=-eq-ok
          (verify_justification_with_callbacks ops check_signature set_id voters optimization target
            justification [])
          _ e in
      subst
        (λ j.
          verify_justification_with_callbacks ops check_signature set_id voters strict target j tt
          ≡ ok tt)
        (ok-injective returned)
        (Verified-verify_justification_with_callbacks ops check_signature set_id voters strict
          target (optimize removed justification) tt tt
          (optimize-Verified target justification removed (
            verify_justification_with_callbacks-Verified ops check_signature set_id voters
              optimization target justification [] removed verified)))
