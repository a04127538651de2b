-- ===== src/Relay/Source/Details.antt =====
-- When the message details that the source node returns are taken
-- (relays/lib-substrate-relay/src/messages_source.rs).
use mathlib.Core.List.{reverse, reverse_aux, reverse-append, reverse-reverse}
use parity_bridges_common.Common.{
  suc, true, false, leb→le, ◌+◌, ◌≤◌, ◌≡◌, ◌≢◌, refl, sym, ap, ◌∙◌, ◌⊎◌, inl, inr, List, [], ◌∷◌,
  ◌++◌, map, ok, err, length, length-append, arith, ◌==◌, Bool-cases, leb, not, ◌&&◌,
}
use parity_bridges_common.Messages.Types.{MessageNonce}
use parity_bridges_common.Relay.Race.{RangeInclusive}
use parity_bridges_common.Relay.Source.{
  OutboundMessageDetails, DetailsError, more_than_requested, missing_nonce, nonces_of, walk_back,
  validate_out_msgs_details, is_nil,
}

pub length-reverse_aux :
    {A : Type 0} (xs ys : List A) → length (reverse_aux xs ys) ≡ length xs + length ys
length-reverse_aux [] ys = omega arith
length-reverse_aux (x ∷ xs) ys = omega (arith, length-reverse_aux xs (x ∷ ys))

map-reverse_aux :
    {A B : Type 0} (f : A → B) (xs ys : List A)
    → map f (reverse_aux xs ys) ≡ reverse_aux (map f xs) (map f ys)
map-reverse_aux f [] ys = refl
map-reverse_aux f (x ∷ xs) ys = map-reverse_aux f xs (x ∷ ys)

unreverse :
    (nonces front left : List MessageNonce)
    → reverse nonces ≡ reverse front ++ left
    → nonces ≡ reverse left ++ front
unreverse nonces front left e =
    sym (reverse-reverse nonces)
    ∙ ap reverse e
    ∙ reverse-append (reverse front) left
    ∙ ap (λ l. reverse left ++ l) (reverse-reverse front)

module _ {W : Type 0} where
  abbrev pub nonces_in : List (OutboundMessageDetails W) → List MessageNonce
  nonces_in = map (λ d. d.nonce)

  -- The details are those of the last nonces, and of some if there are any.
  abbrev pub IsTail : List (OutboundMessageDetails W) → List MessageNonce → Type 0
  IsTail out nonces =
      ((pruned : List MessageNonce) × (nonces ≡ pruned ++ nonces_in out)) × (out ≡ [] → nonces ≡ [])

  walk_back-decides :
      (out : List (OutboundMessageDetails W)) (nonces : List MessageNonce)
      → length out ≤ length nonces
      → ((left : List MessageNonce) × (walk_back out nonces ≡ ok left)
          × (nonces ≡ nonces_in out ++ left))
        ⊎ ((e : DetailsError) × (walk_back out nonces ≡ err e)
            × ((left : List MessageNonce) → nonces ≢ nonces_in out ++ left))
  unfolding walk_back
  walk_back-decides [] nonces le = inl (nonces, refl, refl)
  walk_back-decides (d ∷ out) [] le = absurd (omega arith)
  walk_back-decides (d ∷ out) (n ∷ nonces) le = elim (Bool-cases (d.nonce == n)) [
    | inr other ↦ inr (missing_nonce n, rw other refl, λ left h. ground (arith, other, h))
    | inl same ↦ elim (walk_back-decides out nonces (omega arith)) [
      | inl (left, e, split) ↦ inl (left, rw same e, ground (arith, same, split))
      | inr (reason, e, never) ↦ inr (reason, rw same e, λ left h. never left (ground (arith, h)))
    ]
  ]

  lost_all :
      (out : List (OutboundMessageDetails W)) (nonces : List MessageNonce)
      → (is_nil out && not (is_nil nonces)) ≡ true
      → (out ≡ [] → nonces ≡ [])
      → ⊥
  lost_all [] [] lost h = cc
  lost_all [] (n ∷ nonces) lost h = let nothing = h refl in cc
  lost_all (d ∷ out) nonces lost h = cc

  not_lost :
      (out : List (OutboundMessageDetails W)) (nonces : List MessageNonce)
      → (is_nil out && not (is_nil nonces)) ≡ false
      → out ≡ []
      → nonces ≡ []
  not_lost [] [] here e = refl
  not_lost [] (n ∷ nonces) here e = cc
  not_lost (d ∷ out) nonces here e = cc

  length-map : (out : List (OutboundMessageDetails W)) → length (nonces_in out) ≡ length out
  length-map [] = refl
  length-map (d ∷ out) = ap suc (length-map out)

  -- Message details are accepted exactly when their nonces are the requested ones less some from
  -- the front, and not all of them are missing where some were requested.
  pub validate_out_msgs_details-decides :
      (out : List (OutboundMessageDetails W)) (range : RangeInclusive)
      → ((validate_out_msgs_details out range ≡ ok tt) × IsTail out (nonces_of range))
        ⊎ ((e : DetailsError) × (validate_out_msgs_details out range ≡ err e)
            × (¬ IsTail out (nonces_of range)))
  unfolding validate_out_msgs_details
  validate_out_msgs_details-decides out range =
      let nonces = nonces_of range in
      let back = map-reverse_aux (λ (d : OutboundMessageDetails W). d.nonce) out [] in
      elim (Bool-cases (leb (length out) (length nonces))) [
        | inr more ↦ inr (
          more_than_requested,
          rw more refl,
          λ ((pruned, e), _).
              let counted = ap length e in
              ground (arith, counted, length-append pruned (nonces_in out), length-map out, more),
        )
        | inl fewer ↦ elim (Bool-cases (is_nil out && not (is_nil nonces))) [
          | inl lost ↦ inr (
            missing_nonce range.end,
            rw (fewer, lost) refl,
            λ (_, some_left). lost_all out nonces lost some_left,
          )
          | inr here ↦
              elim (walk_back-decides (reverse out) (reverse nonces) (
                omega (
                  arith,
                  length-reverse_aux out [],
                  length-reverse_aux nonces [],
                  leb→le (length out) (length nonces) fewer,
                ))) [
                  | inl (left, e, split) ↦ inl (
                    rw (fewer, here, e) refl,
                    (
                      (
                        reverse left,
                        unreverse nonces (nonces_in out) left (split ∙ ap (λ l. l ++ left) back),
                      ),
                      not_lost out nonces here,
                    ),
                  )
                  | inr (reason, e, never) ↦ inr (
                    reason,
                    rw (fewer, here, e) refl,
                    λ ((pruned, split), _). never (reverse pruned) (
                        ap reverse split
                        ∙ reverse-append pruned (nonces_in out)
                        ∙ ap (λ l. l ++ reverse pruned) (sym back)),
                  )
                ]
        ]
      ]
