-- ===== src/Justification/Size.antt =====
-- The number of votes that a justification needs (`required_justification_precommits` of
-- primitives/header-chain/src/justification.rs).
use parity_bridges_common.Common.{ℕ, ◌+◌, ◌*◌, ◌≤◌, ◌<◌, arith}
use parity_bridges_common.Justification.{required_justification_precommits}

-- For a set that is not empty, the required votes are more than two thirds of the set, one vote
-- less is not, and the set has that many.
pub required_justification_precommits-two_thirds :
    (n : ℕ)
    → 1 ≤ n
    → (2 * n < 3 * required_justification_precommits n)
      × (3 * required_justification_precommits n ≤ 2 * n + 3)
      × (required_justification_precommits n ≤ n)
unfolding required_justification_precommits
required_justification_precommits-two_thirds n h = ground arith
