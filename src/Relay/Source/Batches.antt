-- ===== src/Relay/Source/Batches.antt =====
-- How the messages of a call are split (relays/lib-substrate-relay/src/messages_source.rs).
use mathlib.Core.List.{reverse, reverse_aux-eq, reverse-reverse, append-nil}
use parity_bridges_common.Common.{
  ℕ, zero, suc, ◌≤◌, ◌<◌, ◌≡◌, refl, sym, ap, subst, ◌∙◌, ◌⊎◌, inl, inr, some, List, [], ◌∷◌, ◌++◌,
  All, append_assoc, Result, ok, err, length, length-append, arith, ltb, ltb→lt, Bool-cases,
}
use parity_bridges_common.Relay.Source.{
  SplitError, message_too_large, shrink, split_loop, split_msgs_to_refine,
}
use parity_bridges_common.Relay.Source.Details.{length-reverse_aux}

module _ {M : Type 0} (encoded_size : List M → ℕ) (max_batch_size : ℕ) where
  abbrev pub concat : List (List M) → List M
  concat [] = []
  concat (xs ∷ xss) = xs ++ concat xss

  -- A batch is not empty and fits.
  abbrev pub IsBatch : List M → Type 0
  IsBatch batch = (0 < length batch) × (encoded_size batch ≤ max_batch_size)

  -- A single message that does not fit.
  abbrev pub TooLarge : List M → Type 0
  TooLarge msgs =
      (before : List M) × (msg : M) × (after : List M) × (msgs ≡ before ++ msg ∷ after)
      × (max_batch_size < encoded_size (msg ∷ []))

  abbrev Shrunk : List M → List M → Type 0
  Shrunk reversed next =
      ((current rest : List M) × (shrink encoded_size max_batch_size reversed next
          ≡ ok (current, rest))
        × IsBatch current
        × (reverse reversed ++ next ≡ current ++ rest))
      ⊎ ((shrink encoded_size max_batch_size reversed next ≡ err message_too_large)
          × TooLarge (reverse reversed ++ next))

  shrink-splits : (msg : M) (before next : List M) → Shrunk (msg ∷ before) next
  unfolding shrink
  shrink-splits msg [] next = elim (Bool-cases (ltb max_batch_size (encoded_size (msg ∷ [])))) [
    | inl large ↦ inr (rw large refl, ([], msg, next, refl, ltb→lt _ _ large))
    | inr fits ↦ inl (msg ∷ [], next, rw fits refl, (omega arith, ground arith), refl)
  ]
  shrink-splits msg (msg' ∷ before) next =
      elim (Bool-cases (ltb max_batch_size (encoded_size (reverse (msg ∷ msg' ∷ before))))) [
        | inr fits ↦ inl (
          reverse (msg ∷ msg' ∷ before),
          next,
          rw fits refl,
          (omega (arith, length-reverse_aux (msg ∷ msg' ∷ before) []), ground arith),
          refl,
        )
        | inl large ↦
            let moved : reverse (msg ∷ msg' ∷ before) ++ next
                ≡ reverse (msg' ∷ before) ++ msg ∷ next =
              ap (λ l. l ++ next) (reverse_aux-eq (msg' ∷ before) (msg ∷ []))
              ∙ append_assoc (reverse (msg' ∷ before)) (msg ∷ []) next in
            elim (shrink-splits msg' before (msg ∷ next)) [
              | inl (current, rest, e, batch, parts) ↦
                  inl (current, rest, rw large e, batch, moved ∙ parts)
              | inr (e, big) ↦ inr (rw large e, subst TooLarge (sym moved) big)
            ]
      ]

  shrink_all : (reversed : List M) → 0 < length reversed → Shrunk reversed []
  shrink_all [] lt = absurd (omega arith)
  shrink_all (msg ∷ before) lt = shrink-splits msg before []

  -- What `split_msgs_to_refine` promises: the batches are the messages, cut at some places; or there
  -- is a message that is too large by itself.
  abbrev pub IsSplit : List M → List (List M) → Result SplitError (List (List M)) → Type 0
  IsSplit msgs before (ok batches) =
      (more : List (List M)) × (batches ≡ before ++ more) × (concat more ≡ msgs) × All IsBatch more
  IsSplit msgs before (err e) = TooLarge msgs

  TooLarge-append : (front msgs : List M) → TooLarge msgs → TooLarge (front ++ msgs)
  TooLarge-append front msgs (before, msg, after, e, large) = (
    front ++ before,
    msg,
    after,
    ap (λ l. front ++ l) e ∙ sym (append_assoc front before (msg ∷ after)),
    large,
  )

  IsSplit-next :
      (current rest : List M) (before : List (List M)) (r : Result SplitError (List (List M)))
      → IsBatch current
      → IsSplit rest (before ++ current ∷ []) r
      → IsSplit (current ++ rest) before r
  IsSplit-next current rest before (err e) batch large = TooLarge-append current rest large
  IsSplit-next current rest before (ok batches) batch (more, e, parts, all) = (
    current ∷ more,
    e ∙ append_assoc before (current ∷ []) more,
    ap (λ l. current ++ l) parts,
    (batch, all),
  )

  split_loop-IsSplit :
      (fuel : ℕ) (msgs : List M) (batches : List (List M))
      → length msgs ≤ fuel
      → (r : Result SplitError (List (List M))) × (split_loop encoded_size max_batch_size fuel msgs
            batches
          ≡ some r)
        × IsSplit msgs batches r
  unfolding split_loop
  split_loop-IsSplit fuel [] batches le =
      (ok batches, refl, ([], sym (append-nil batches), refl, tt))
  split_loop-IsSplit zero (msg ∷ msgs) batches le = absurd (omega arith)
  split_loop-IsSplit (suc fuel) (msg ∷ msgs) batches le =
      let size = length-reverse_aux (msg ∷ msgs) [] in
      let whole : reverse (reverse (msg ∷ msgs)) ++ [] ≡ msg ∷ msgs =
        append-nil (reverse (reverse (msg ∷ msgs))) ∙ reverse-reverse (msg ∷ msgs) in
      elim (shrink_all (reverse (msg ∷ msgs)) (omega (arith, size))) [
        | inr (e, large) ↦
            (err message_too_large, rw (e, split_loop) refl, subst TooLarge whole large)
        | inl (current, rest, e, batch, parts) ↦
            let split : msg ∷ msgs ≡ current ++ rest = sym whole ∙ parts in
            let counted = ap length split ∙ length-append current rest in
            let (r, e', done) =
              split_loop-IsSplit fuel rest (batches ++ current ∷ [])
                (omega (arith, counted, batch.0)) in
            (
              r,
              rw (e, split_loop) e',
              subst (λ l. IsSplit l batches r) (sym split)
                  (IsSplit-next current rest batches r batch done),
            )
      ]

  -- `split_msgs_to_refine` ends within a round for each message; it returns batches that are not
  -- empty, that fit and whose concatenation is the given messages, or an error, and then one of
  -- the messages does not fit by itself.
  pub split_msgs_to_refine-IsSplit :
      (msgs : List M)
      → (r : Result SplitError (List (List M))) × (split_msgs_to_refine encoded_size max_batch_size
            msgs
          ≡ some r)
        × IsSplit msgs [] r
  split_msgs_to_refine-IsSplit msgs = split_loop-IsSplit (length msgs) msgs [] (omega arith)
