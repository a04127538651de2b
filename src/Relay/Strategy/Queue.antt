-- ===== src/Relay/Strategy/Queue.antt =====
-- What the queue of `BasicStrategy` holds (relays/messages/src/message_race_strategy.rs).
use mathlib.Core.List.{append-nil}
use parity_bridges_common.Common.{
  ◌+◌, ◌≤◌, ◌<◌, ◌≡◌, refl, subst, ◌∙◌, inl, inr, Bool, false, ◌&&◌, ◌||◌, Option, none, some, [],
  ◌∷◌, ◌++◌, back, max, u64_mod, arith, leb, ltb,
}
use parity_bridges_common.Common.Options.{or}
use parity_bridges_common.Messages.Types.{MessageNonce}
use parity_bridges_common.Relay.Race.{HeaderId, NoncesRange, SourceClientNonces}
use parity_bridges_common.Relay.Ranges.Laws.{RangeLaws}
use parity_bridges_common.Relay.Strategy.{
  SourceRangesQueue, BasicStrategy, remove_le_nonces, source_nonces_updated,
  finalized_target_nonces_updated, best_in_queue, nonce_or, end_of_last,
}

module _ {R : Type 0} ⦃r : NoncesRange R⦄ (laws : RangeLaws r) where
  -- Proper ranges, each after the one before it, from above the nonce on.
  abbrev pub IsQueue : MessageNonce → SourceRangesQueue R → Type 0
  IsQueue n [] = Unit
  IsQueue n ((at, range) ∷ queue) =
      laws.IsProper range × (n < r.begin range) × IsQueue (r.end range) queue

  abbrev pub covers : R → MessageNonce → Bool
  covers range m = leb (r.begin range) m && leb m (r.end range)

  -- Is the nonce in the queue?
  abbrev pub holds : SourceRangesQueue R → MessageNonce → Bool
  holds [] m = false
  holds ((at, range) ∷ queue) m = covers range m || holds queue m

  holds-IsQueue :
      (n m : MessageNonce) (queue : SourceRangesQueue R)
      → IsQueue n queue
      → m ≤ n
      → holds queue m ≡ false
  holds-IsQueue n m [] q le = refl
  holds-IsQueue n m ((at, range) ∷ queue) (p, lt, q) le =
      ground (arith, laws.ordered range p, holds-IsQueue (r.end range) m queue q)

  -- The queue after the removal: still a queue, now above the nonce, of the nonces above it.
  remove_le_nonces-IsQueue :
      (n nonce : MessageNonce) (queue : SourceRangesQueue R)
      → nonce + 1 < u64_mod
      → IsQueue n queue
      → IsQueue (max n nonce) (remove_le_nonces nonce queue)
        × ((m : MessageNonce)
            → holds (remove_le_nonces nonce queue) m ≡ (ltb nonce m && holds queue m))
  unfolding remove_le_nonces
  remove_le_nonces-IsQueue n nonce [] room q = (tt, λ m. ground arith)
  remove_le_nonces-IsQueue n nonce ((at, range) ∷ queue) room (p, lt, q) =
      elim (laws.cuts range nonce room p) [
        | inr (rest, e, p', reaches, begins, ends) ↦
            rw (e, remove_le_nonces)
              (
                (p', omega (arith, begins), rw ends q),
                λ m. ground (arith, begins, ends, reaches, holds-IsQueue (r.end range) m queue q),
              )
        | inl (e, short) ↦
            let (q', same) = remove_le_nonces-IsQueue (r.end range) nonce queue room q in
            let above : max (r.end range) nonce ≡ max n nonce =
              omega (arith, laws.ordered range p) in
            rw (e, remove_le_nonces)
              (
                subst (λ k. IsQueue k (remove_le_nonces nonce queue)) above q',
                λ m. ground (arith, same m, laws.ordered range p),
              )
      ]

  back_above :
      (k n : MessageNonce) (entry : HeaderId × R) (queue : SourceRangesQueue R) {b : MessageNonce}
      → nonce_or (end_of_last (back (entry ∷ queue))) n < b
      → nonce_or (end_of_last (back (entry ∷ queue))) k < b
  back_above k n entry [] lt = lt
  back_above k n entry (next ∷ queue) lt = back_above k n next queue lt

  above_best :
      (last : Option (HeaderId × R)) (best : Option MessageNonce) (n b : MessageNonce)
      → n ≤ nonce_or (or (end_of_last last) best) 0
      → nonce_or (or (end_of_last last) best) 0 < b
      → nonce_or (end_of_last last) n < b
  above_best none best n b le lt = omega (arith, le, lt)
  above_best (some entry) best n b le lt = lt

  back-IsQueue :
      (n : MessageNonce) (queue : SourceRangesQueue R) (entry : HeaderId × R)
      → IsQueue n queue
      → laws.IsProper entry.1
      → nonce_or (end_of_last (back queue)) n < r.begin entry.1
      → IsQueue n (queue ++ entry ∷ [])
  back-IsQueue n [] entry q p lt = (p, lt, tt)
  back-IsQueue n ((at, range) ∷ []) entry (p', lt', q) p lt = (p', lt', (p, lt, tt))
  back-IsQueue n ((at, range) ∷ next ∷ queue) entry (p', lt', q) p lt = (
    p',
    lt',
    back-IsQueue (r.end range) (next ∷ queue) entry q p (back_above (r.end range) n next queue lt),
  )

  holds-append :
      (queue : SourceRangesQueue R) (entry : HeaderId × R) (m : MessageNonce)
      → holds (queue ++ entry ∷ []) m ≡ (holds queue m || covers entry.1 m)
  holds-append [] entry m = ground arith
  holds-append ((at, range) ∷ queue) entry m = ground (arith, holds-append queue entry m)

  -- With ranges that obey the laws of a range, from a queue of proper ranges in order above a
  -- nonce that is not above the best one, and where another nonce fits into 64 bits, a proper new
  -- range leaves a queue of proper ranges in order, which holds exactly the nonces that it held
  -- before and those of the new range above the best one.
  pub source_nonces_updated-IsQueue :
      (s : BasicStrategy R) (at_block : HeaderId) (nonces : SourceClientNonces R) (n : MessageNonce)
      → best_in_queue s + 1 < u64_mod
      → laws.IsProper nonces.new_nonces
      → n ≤ best_in_queue s
      → IsQueue n s.source_queue
      → IsQueue n (source_nonces_updated s at_block nonces).source_queue
        × ((m : MessageNonce)
            → holds (source_nonces_updated s at_block nonces).source_queue m
              ≡ (holds s.source_queue m || (ltb (best_in_queue s) m && covers nonces.new_nonces m)))
  unfolding source_nonces_updated
  source_nonces_updated-IsQueue s at_block nonces n room p le q =
      elim (laws.cuts nonces.new_nonces (best_in_queue s) room p) [
        | inl (e, short) ↦ rw (e, append-nil) (q, λ m. ground arith)
        | inr (rest, e, p', reaches, begins, ends) ↦ rw e (
          back-IsQueue n s.source_queue (at_block, rest) q p'
              (above_best (back s.source_queue) s.best_target_nonce n (r.begin rest) le
                (omega (arith, begins))),
          λ m.
              holds-append s.source_queue (at_block, rest) m
              ∙ ground (arith, begins, ends, reaches),
        )
      ]

  -- The nonces up to the finalized one leave the queue, and no others.
  pub finalized_target_nonces_updated-IsQueue :
      (s : BasicStrategy R) (nonce n : MessageNonce)
      → nonce + 1 < u64_mod
      → IsQueue n s.source_queue
      → IsQueue (max n nonce) (finalized_target_nonces_updated s nonce).source_queue
        × ((m : MessageNonce)
            → holds (finalized_target_nonces_updated s nonce).source_queue m
              ≡ (ltb nonce m && holds s.source_queue m))
  unfolding finalized_target_nonces_updated
  finalized_target_nonces_updated-IsQueue s nonce n room q =
      remove_le_nonces-IsQueue n nonce s.source_queue room q
