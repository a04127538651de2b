-- ===== src/Messages/Weights.antt =====
-- The operations of `Weight` and `RuntimeDbWeight` (frame_support) that the pallets use. A weight has
-- several components, so `any_gt` is not the negation of an order.
use parity_bridges_common.Common.{ℕ, Bool}

pub record WeightOps (W : Type 0) : Type 0 where
  pub zero : W
  pub add : W → W → W
  pub sub : W → W → W
  pub saturating_sub : W → W → W
  pub min : W → W → W
  pub all_gte : W → W → Bool
  pub any_gt : W → W → Bool
  pub is_zero : W → Bool
  pub proof_size : W → ℕ
  pub set_proof_size : W → ℕ → W
  -- `RuntimeDbWeight::reads`, `writes` and `reads_writes`.
  pub reads : ℕ → W
  pub writes : ℕ → W
  pub reads_writes : ℕ → ℕ → W
