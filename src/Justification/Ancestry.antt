-- ===== src/Justification/Ancestry.antt =====
-- `AncestryChain` of primitives/header-chain/src/justification.rs.
pub mod Descent
use parity_bridges_common.Common.{
  ℕ, zero, suc, ◌+◌, Bool, true, false, not, Option, none, some, List, [], ◌∷◌, Result, ok, err,
  ◌==◌, if◌then◌else◌, contains, update, length,
}
use parity_bridges_common.Justification.{Hash, HeaderOps, Error, precommit_is_not_commit_descendant}

-- `BTreeSet::insert` and `BTreeSet::remove`, on a list without repetitions.
abbrev pub insert : Hash → List Hash → List Hash
insert h hs = if contains hs h then hs else h ∷ hs

abbrev pub remove : Hash → List Hash → List Hash
remove h [] = []
remove h (x ∷ hs) = if x == h then remove h hs else x ∷ remove h hs

pub record AncestryChain : Type 0 where
  pub parents : Hash → Option Hash
  pub unvisited : List Hash

module _ {Header : Type 0} (ops : HeaderOps Header) where
  new_loop : AncestryChain → List Header → AncestryChain
  new_loop chain [] = chain
  new_loop chain (ancestor ∷ ancestry) =
      let hash = ops.hash ancestor in
      new_loop
        (record {
          parents = update chain.parents hash (some (ops.parent_hash ancestor));
          unvisited = insert hash chain.unvisited;
        })
        ancestry

  -- `AncestryChain::new`.
  unfoldable pub new : List Header → AncestryChain
  unfolding new_loop
  new ancestry = new_loop (record { parents = λ h. none; unvisited = [] }) ancestry

module _ (commit_target : Hash) where
  -- The loop of `ensure_descendant`, for at most the given number of rounds; `none` means that it has
  -- not ended by then. A round that goes on has removed a hash from `unvisited`.
  pub descend : ℕ → AncestryChain → Hash → Option (Result Error AncestryChain)
  descend zero chain current_hash = none
  descend (suc fuel) chain current_hash =
      if current_hash == commit_target
      then some (ok chain)
      else let is_visited_before = not (contains chain.unvisited current_hash) in
        let chain' = record chain { unvisited = remove current_hash chain.unvisited } in
        elim (chain.parents current_hash) [
          | none ↦ some (err precommit_is_not_commit_descendant)
          | some parent_hash ↦
              let rest = descend fuel chain' parent_hash in
              if is_visited_before then some (ok chain') else rest
        ]

  -- `AncestryChain::ensure_descendant`; its loop always ends within these rounds.
  unfoldable pub ensure_descendant : AncestryChain → Hash → Result Error AncestryChain
  unfolding descend
  ensure_descendant chain precommit_target =
      elim (descend (length chain.unvisited + 1) chain precommit_target) [
        | none ↦ err precommit_is_not_commit_descendant
        | some result ↦ result
      ]
