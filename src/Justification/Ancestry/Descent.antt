-- ===== src/Justification/Ancestry/Descent.antt =====
-- What a walk over the ancestry decides (`AncestryChain` of
-- primitives/header-chain/src/justification.rs).
use parity_bridges_common.Common.{
  ℕ, zero, suc, ◌+◌, ◌≤◌, ◌<◌, ◌≡◌, ◌≢◌, refl, sym, ap, ◌∙◌, subst, ◌⊎◌, inl, inr, true, false,
  Option, none, some, List, [], ◌∷◌, ok, err, is_ok, ◌==◌, if◌then◌else◌, contains, update, length,
  arith, Bool-cases, Option-cases, ok-injective, ◌↔◌, is_some, is_ok-ok, some_is_not_none,
  same_some, err_is_not_ok,
}
use parity_bridges_common.Justification.{Hash, HeaderOps, precommit_is_not_commit_descendant}
use parity_bridges_common.Justification.Ancestry.{
  AncestryChain, insert, remove, new_loop, new, descend, ensure_descendant,
}

-- The second hash is reached from the first over parents. The one that is reached comes first.
pub data Reaches (parents : Hash → Option Hash) (target : Hash) : Hash → Type 0 where
  stop : Reaches parents target target
  up : {h p : Hash} → parents h ≡ some p → Reaches parents target p → Reaches parents target h

-- A number that falls from every header to its parent, as no header contains its own hash.
abbrev pub IsRank : (Hash → Option Hash) → (Hash → ℕ) → Type 0
IsRank parents rank = (h p : Hash) → parents h ≡ some p → rank p < rank h

-- What was visited descends from the target.
abbrev pub IsExplored : Hash → AncestryChain → Type 0
IsExplored target chain =
    (h p : Hash)
    → chain.parents h ≡ some p
    → contains chain.unvisited h ≡ false
    → Reaches chain.parents target h

contains-remove :
    (h k : Hash) (hs : List Hash)
    → contains (remove h hs) k ≡ (if h == k then false else contains hs k)
contains-remove h k [] = ground arith
contains-remove h k (x ∷ hs) = ground (arith, contains-remove h k hs)

length-remove_le : (h : Hash) (hs : List Hash) → length (remove h hs) ≤ length hs
length-remove_le h [] = omega arith
length-remove_le h (x ∷ hs) = ground (arith, length-remove_le h hs)

length-remove :
    (h : Hash) (hs : List Hash) → contains hs h ≡ true → length (remove h hs) < length hs
length-remove h [] c = ground (arith, c)
length-remove h (x ∷ hs) c = ground (arith, length-remove_le h hs, length-remove h hs)

module _ (target : Hash) where
  -- The chain without the hash among the unvisited ones.
  abbrev visit : Hash → AncestryChain → AncestryChain
  visit h chain = record chain { unvisited = remove h chain.unvisited }

  -- The ways a round goes.
  descend-zero : (chain : AncestryChain) (h : Hash) → descend target zero chain h ≡ none
  unfolding descend
  descend-zero chain h = refl

  descend-stop :
      (fuel : ℕ) (chain : AncestryChain) (h : Hash)
      → h ≡ target
      → descend target (suc fuel) chain h ≡ some (ok chain)
  unfolding descend
  descend-stop fuel chain h e = ground (arith, e)

  descend-unknown :
      (fuel : ℕ) (chain : AncestryChain) (h : Hash)
      → h ≢ target
      → chain.parents h ≡ none
      → descend target (suc fuel) chain h ≡ some (err precommit_is_not_commit_descendant)
  unfolding descend
  descend-unknown fuel chain h ne e = ground (arith, e)

  descend-visited :
      (fuel : ℕ) (chain : AncestryChain) (h p : Hash)
      → h ≢ target
      → chain.parents h ≡ some p
      → contains chain.unvisited h ≡ false
      → descend target (suc fuel) chain h ≡ some (ok (visit h chain))
  unfolding descend
  descend-visited fuel chain h p ne e v = ground (arith, e, v)

  descend-up :
      (fuel : ℕ) (chain : AncestryChain) (h p : Hash)
      → h ≢ target
      → chain.parents h ≡ some p
      → contains chain.unvisited h ≡ true
      → descend target (suc fuel) chain h ≡ descend target fuel (visit h chain) p
  unfolding descend
  descend-up fuel chain h p ne e v = ground (arith, e, v)

  -- The four ways together.
  data Round (chain : AncestryChain) (h : Hash) : Type 0 where
    stops : h ≡ target → Round chain h
    fails : h ≢ target → chain.parents h ≡ none → Round chain h
    visited :
        (p : Hash)
        → h ≢ target
        → chain.parents h ≡ some p
        → contains chain.unvisited h ≡ false
        → Round chain h
    climbs :
        (p : Hash)
        → h ≢ target
        → chain.parents h ≡ some p
        → contains chain.unvisited h ≡ true
        → Round chain h

  Round-cases : (chain : AncestryChain) (h : Hash) → Round chain h
  Round-cases chain h = elim (Bool-cases (h == target)) [
    | inl e ↦ stops (ground (arith, e))
    | inr ne ↦ elim (Option-cases (chain.parents h)) [
      | inl e ↦ fails (ground (arith, ne)) e
      | inr (p, e) ↦ elim (Bool-cases (contains chain.unvisited h)) [
        | inl u ↦ climbs p (ground (arith, ne)) e u
        | inr v ↦ visited p (ground (arith, ne)) e v
      ]
    ]
  ]

  -- Fuel above the number of unvisited hashes makes no difference.
  descend-enough :
      (fuel more : ℕ) (chain : AncestryChain) (h : Hash)
      → length chain.unvisited < fuel
      → length chain.unvisited < more
      → descend target more chain h ≡ descend target fuel chain h
  descend-enough zero more chain h lt lt' = ground arith
  descend-enough (suc fuel) zero chain h lt lt' = ground arith
  descend-enough (suc fuel) (suc more) chain h lt lt' = elim (Round-cases chain h) [
    | stops e ↦ descend-stop more chain h e ∙ sym (descend-stop fuel chain h e)
    | fails ne e ↦ descend-unknown more chain h ne e ∙ sym (descend-unknown fuel chain h ne e)
    | visited p ne e v ↦
        descend-visited more chain h p ne e v ∙ sym (descend-visited fuel chain h p ne e v)
    | climbs p ne e u ↦
        let shorter = length-remove h chain.unvisited u in
        descend-up more chain h p ne e u
        ∙ descend-enough fuel more (visit h chain) p (omega arith) (omega arith)
        ∙ sym (descend-up fuel chain h p ne e u)
  ]

  -- With fuel above the number of unvisited hashes the walk ends.
  descend-ends :
      (fuel : ℕ) (chain : AncestryChain) (h : Hash)
      → length chain.unvisited < fuel
      → is_some (descend target fuel chain h) ≡ true
  descend-ends zero chain h lt = ground arith
  descend-ends (suc fuel) chain h lt = elim (Round-cases chain h) [
    | stops e ↦ ap is_some (descend-stop fuel chain h e)
    | fails ne e ↦ ap is_some (descend-unknown fuel chain h ne e)
    | visited p ne e v ↦ ap is_some (descend-visited fuel chain h p ne e v)
    | climbs p ne e u ↦
        ap is_some (descend-up fuel chain h p ne e u)
        ∙ descend-ends fuel (visit h chain) p (omega (arith, length-remove h chain.unvisited u))
  ]

  -- The result of the walk is that of the check.
  ensure_descendant-walk :
      (chain : AncestryChain) (h : Hash)
      → descend target (length chain.unvisited + 1) chain h
        ≡ some (ensure_descendant target chain h)
  unfolding ensure_descendant
  ensure_descendant-walk chain h =
      elim (Option-cases (descend target (length chain.unvisited + 1) chain h)) [
        | inl never ↦ cc (never, descend-ends (length chain.unvisited + 1) chain h (omega arith))
        | inr (result, ended) ↦ ended ∙ rw (ended, ensure_descendant) refl
      ]

  -- What a walk from `h` leaves: it reached the target, and what it visited lies in between.
  pub record Walked (chain after : AncestryChain) (h : Hash) : Type 0 where
    pub reaches : Reaches chain.parents target h
    pub same_parents : after.parents ≡ chain.parents
    pub still : (k : Hash) → contains after.unvisited k ≡ true → contains chain.unvisited k ≡ true
    pub between :
        (k : Hash)
        → contains after.unvisited k ≡ false
        → (contains chain.unvisited k ≡ false)
          ⊎ ((Reaches chain.parents k h) × (Reaches chain.parents target k))

  Walked-climb :
      (chain after : AncestryChain) (h p : Hash)
      → chain.parents h ≡ some p
      → Walked (visit h chain) after p
      → Walked chain after h
  Walked-climb chain after h p e w = record {
    reaches = up e w.reaches;
    same_parents = w.same_parents;
    still = λ k c. ground (arith, w.still k c, contains-remove h k chain.unvisited);
    between = λ k c. elim (w.between k c) [
      | inl gone ↦ elim (Bool-cases (h == k)) [
        | inl own ↦
            let same : h ≡ k = ground (arith, own) in
            inr (
              subst (λ t. Reaches chain.parents k t) (sym same) stop,
              subst (λ t. Reaches chain.parents target t) same (up e w.reaches),
            )
        | inr other ↦ inl (ground (arith, gone, other, contains-remove h k chain.unvisited))
      ]
      | inr (a, b) ↦ inr (up e a, b)
    ];
  }

  module _ (rank : Hash → ℕ) where
    abbrev IsExploredTo : AncestryChain → ℕ → Type 0
    IsExploredTo chain n =
        (h p : Hash)
        → chain.parents h ≡ some p
        → contains chain.unvisited h ≡ false
        → rank h ≤ n
        → Reaches chain.parents target h

    descend-Walked :
        (fuel : ℕ) (chain after : AncestryChain) (h : Hash)
        → IsRank chain.parents rank
        → IsExploredTo chain (rank h)
        → descend target fuel chain h ≡ some (ok after)
        → Walked chain after h
    descend-Walked zero chain after h ranked explored done =
        some_is_not_none done (descend-zero chain h)
    descend-Walked (suc fuel) chain after h ranked explored done = elim (Round-cases chain h) [
      | stops e ↦
          let same : chain ≡ after = ok-injective (same_some (descend-stop fuel chain h e) done) in
          subst (λ t. Walked chain t h) same
            (record {
              reaches = subst (λ t. Reaches chain.parents target t) (sym e) stop;
              same_parents = refl;
              still = λ k c. c;
              between = λ k c. inl c;
            })
      | fails ne e ↦ err_is_not_ok refl (same_some (descend-unknown fuel chain h ne e) done)
      | visited p ne e v ↦
          let same : visit h chain ≡ after =
            ok-injective (same_some (descend-visited fuel chain h p ne e v) done) in
          subst (λ t. Walked chain t h) same
            (record {
              reaches = explored h p e v (omega arith);
              same_parents = refl;
              still = λ k c. ground (arith, contains-remove h k chain.unvisited);
              between = λ k c. inl (ground (arith, contains-remove h k chain.unvisited));
            })
      | climbs p ne e u ↦ Walked-climb chain after h p e (
          descend-Walked fuel (visit h chain) after p ranked
            (λ k q e' v le.
              explored k q e' (ground (arith, contains-remove h k chain.unvisited, ranked h p e))
                (omega (arith, ranked h p e)))
            (sym (descend-up fuel chain h p ne e u) ∙ done))
    ]

  -- With the fuel, a walk from a hash that reaches the target succeeds.
  descend-finds :
      (fuel : ℕ) (chain : AncestryChain) (h : Hash)
      → length chain.unvisited < fuel
      → Reaches chain.parents target h
      → (after : AncestryChain) × (descend target fuel chain h ≡ some (ok after))
  descend-finds zero chain h lt r = absurd (omega (arith, lt))
  descend-finds (suc fuel) chain h lt stop = (chain, descend-stop fuel chain target refl)
  descend-finds (suc fuel) chain h lt (up {p = p} e r) = elim (Round-cases chain h) [
    | stops same ↦ (chain, descend-stop fuel chain h same)
    | fails ne e' ↦ some_is_not_none e e'
    | visited q ne e' v ↦ (visit h chain, descend-visited fuel chain h q ne e' v)
    | climbs q ne e' u ↦
        let same : p ≡ q = same_some e e' in
        let (after, done) =
          descend-finds fuel (visit h chain) q (omega (arith, length-remove h chain.unvisited u))
            (subst (λ t. Reaches chain.parents target t) same r) in
        (after, descend-up fuel chain h q ne e' u ∙ done)
  ]

-- The loop of `ensure_descendant` ends: in any number of rounds above the number of unvisited
-- headers it comes to a result, which is that of `ensure_descendant`.
pub ensure_descendant-fuel :
    (target : Hash) (chain : AncestryChain) (h : Hash) (more : ℕ)
    → length chain.unvisited < more
    → descend target more chain h ≡ some (ensure_descendant target chain h)
ensure_descendant-fuel target chain h more lt =
    descend-enough target (length chain.unvisited + 1) more chain h (omega arith) lt
    ∙ ensure_descendant-walk target chain h

-- Where what was visited before descends from the target and no header is its own ancestor,
-- `ensure_descendant` accepts exactly the descendants of the target over the parents.
pub ensure_descendant-decides :
    (target : Hash) (rank : Hash → ℕ) (chain : AncestryChain) (h : Hash)
    → IsRank chain.parents rank
    → IsExplored target chain
    → (is_ok (ensure_descendant target chain h) ≡ true) ↔ Reaches chain.parents target h
unfolding ensure_descendant
ensure_descendant-decides target rank chain h ranked explored =
    let fuel = length chain.unvisited + 1 in
    (
      λ accepted.
          let (after, done) = is_ok-ok (ensure_descendant target chain h) accepted in
          (descend-Walked target rank fuel chain after h ranked (λ k p e v le. explored k p e v)
            (ensure_descendant-walk target chain h ∙ ap some done)).reaches,
      λ reaches.
          let (after, found) = descend-finds target fuel chain h (omega arith) reaches in
          ap is_ok (same_some (ensure_descendant-walk target chain h) found),
    )

-- After a check that accepts, the parents are the same, and what it has visited lies between the
-- checked hash and the target.
pub ensure_descendant-Walked :
    (target : Hash) (rank : Hash → ℕ) (chain after : AncestryChain) (h : Hash)
    → IsRank chain.parents rank
    → IsExplored target chain
    → ensure_descendant target chain h ≡ ok after
    → Walked target chain after h
unfolding ensure_descendant
ensure_descendant-Walked target rank chain after h ranked explored done =
    descend-Walked target rank (length chain.unvisited + 1) chain after h ranked
      (λ k p e v le. explored k p e v) (ensure_descendant-walk target chain h ∙ ap some done)

pub Walked-IsExplored :
    (target : Hash) (chain after : AncestryChain) (h : Hash)
    → IsExplored target chain
    → Walked target chain after h
    → IsExplored target after
Walked-IsExplored target chain after h explored w k p e v =
    let e' : chain.parents k ≡ some p = sym (ap (λ m. m k) w.same_parents) ∙ e in
    subst (λ m. Reaches m target k) (sym w.same_parents)
      (elim (w.between k v) [ inl before ↦ explored k p e' before | inr (a, b) ↦ b ])

module _ {Header : Type 0} (ops : HeaderOps Header) where
  -- A new chain has visited nothing.
  abbrev IsFresh : AncestryChain → Type 0
  IsFresh chain = (h : Hash) → contains chain.unvisited h ≡ is_some (chain.parents h)

  new_loop-IsFresh :
      (chain : AncestryChain) (hs : List Header) → IsFresh chain → IsFresh (new_loop ops chain hs)
  unfolding new_loop
  new_loop-IsFresh chain [] f = f
  new_loop-IsFresh chain (x ∷ hs) f =
      new_loop-IsFresh
        (record {
          parents = update chain.parents (ops.hash x) (some (ops.parent_hash x));
          unvisited = insert (ops.hash x) chain.unvisited;
        })
        hs (λ h. ground (arith, f h))

  pub new-IsFresh : (hs : List Header) → IsFresh (new ops hs)
  unfolding new
  new-IsFresh hs = new_loop-IsFresh (record { parents = λ h. none; unvisited = [] }) hs (λ h. refl)

  pub new-IsExplored : (target : Hash) (hs : List Header) → IsExplored target (new ops hs)
  new-IsExplored target hs h p e v = ground (arith, new-IsFresh hs h)
