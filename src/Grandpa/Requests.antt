-- ===== src/Grandpa/Requests.antt =====
-- The limit on requests (`RequestCount` of modules/grandpa/src/lib.rs) over a run of the pallet.
use parity_bridges_common.Common.{ℕ, ◌+◌, ◌-◌, ◌≤◌, ◌<◌, ◌≡◌, ap, ◌∙◌, ok, arith, u32_mod, add_u32}
use parity_bridges_common.Justification.{GrandpaJustification}
use parity_bridges_common.Grandpa.{Config, State}
use parity_bridges_common.Grandpa.Pallet.{
  PostDispatchInfo, submit_finality_proof, insert_header, on_initialize,
}
use parity_bridges_common.Grandpa.Submit.{submit_finality_proof-Accepted}

module _ {Header : Type 0} (c : Config Header) where
  -- A run of blocks and of accepted proofs, with the numbers of both.
  pub data Run (s : State) : ℕ → ℕ → State → Type 0 where
    start : Run s 0 0 s
    block :
        {blocks imports : ℕ} {t : State}
        → Run s blocks imports t
        → Run s (blocks + 1) imports (on_initialize t)
    import :
        {blocks imports : ℕ} {t after : State} (header : Header)
        (justification : GrandpaJustification Header) (info : PostDispatchInfo)
        → Run s blocks imports t
        → submit_finality_proof c t header justification ≡ ok (after, info)
        → Run s blocks (imports + 1) after

  submit_finality_proof-count :
      (s after : State) (header : Header) (justification : GrandpaJustification Header)
      (info : PostDispatchInfo)
      → submit_finality_proof c s header justification ≡ ok (after, info)
      → (s.request_count < c.max_requests) × (after.request_count ≡ add_u32 s.request_count 1)
  unfolding insert_header
  submit_finality_proof-count s after header justification info e =
      let (counted, a, inserted) =
        submit_finality_proof-Accepted c s after header justification info e in
      (a.capacity, ap (λ t. t.request_count) inserted ∙ ap (λ t. t.request_count) a.state)

  -- In any run of blocks and of accepted finality proofs from a state within the limit on
  -- requests, a number of 32 bits, the proofs are at most those that the limit still allows and
  -- one more for each block, and the count stays within the limit.
  pub Run-limit :
      (s t : State) (blocks imports : ℕ)
      → c.max_requests < u32_mod
      → s.request_count ≤ c.max_requests
      → Run s blocks imports t
      → (t.request_count ≤ c.max_requests)
        × (s.request_count + imports ≤ t.request_count + blocks)
        × (imports ≤ c.max_requests - s.request_count + blocks)
  unfolding on_initialize
  Run-limit s t blocks imports small within start = ground arith
  Run-limit s t blocks imports small within (block {blocks = b} {imports = i} {t = u} run) =
      ground (arith, Run-limit s u b i small within run)
  Run-limit s t blocks imports small within
        (import {blocks = b} {imports = i} {t = u} header justification info run e) =
      let (capacity, counted) = submit_finality_proof-count u t header justification info e in
      ground (arith, capacity, counted, Run-limit s u b i small within run)
