-- ===== src/Relay/Ranges/Laws.antt =====
-- What both kinds of ranges promise to the strategies (message_race_receiving.rs and
-- message_race_delivery.rs of relays/messages/src).
use parity_bridges_common.Common.{
  ◌+◌, ◌≤◌, ◌<◌, ◌≡◌, refl, ◌⊎◌, inl, inr, none, some, [], ◌∷◌, max, u64_mod, arith, ltb, ltb→lt,
  add_u64, false, Bool-cases,
}
use parity_bridges_common.Messages.Types.{MessageNonce}
use parity_bridges_common.Relay.Race.{NoncesRange, RangeInclusive}
use parity_bridges_common.Relay.Ranges.{
  MessageDetails, MessageDetailsMap, inclusive_ranges, details_maps, range_greater_than,
  map_greater_than, split_off,
}

-- A proper range is one of consecutive nonces, and `greater_than` cuts it off at the nonce.
pub record RangeLaws {R : Type 0} (r : NoncesRange R) : Type 1 where
  pub IsProper : R → Type 0
  pub ordered : (x : R) → IsProper x → r.begin x ≤ r.end x
  pub cuts :
      (x : R) (n : MessageNonce)
      → n + 1 < u64_mod
      → IsProper x
      → ((r.greater_than x n ≡ none) × (r.end x ≤ n))
        ⊎ ((y : R) × (r.greater_than x n ≡ some y)
            × IsProper y
            × (n < r.end x)
            × (r.begin y ≡ max (r.begin x) (n + 1))
            × (r.end y ≡ r.end x))

pub range_greater_than-cuts :
    (x : RangeInclusive) (n : MessageNonce)
    → n + 1 < u64_mod
    → x.start ≤ x.end
    → ((range_greater_than x n ≡ none) × (x.end ≤ n))
      ⊎ ((y : RangeInclusive) × (range_greater_than x n ≡ some y)
          × (y.start ≤ y.end)
          × (n < x.end)
          × (y.start ≡ max x.start (n + 1))
          × (y.end ≡ x.end))
unfolding range_greater_than
range_greater_than-cuts x n room le = elim (Bool-cases (ltb x.end (n + 1))) [
  | inl short ↦ inl (ground arith, ground arith)
  | inr long ↦ inr (
    record { start = max x.start (n + 1); end = x.end },
    ground arith,
    ground arith,
    ground arith,
    refl,
    refl,
  )
]

abbrev pub inclusive_laws : RangeLaws inclusive_ranges
inclusive_laws = record {
  IsProper = λ x. x.start ≤ x.end;
  ordered = λ x p. p;
  cuts = range_greater_than-cuts;
}

module _ {W : Type 0} where
  -- The keys are the nonces from `n` on.
  abbrev pub IsRun : MessageNonce → MessageDetailsMap W → Type 0
  IsRun n [] = Unit
  IsRun n ((k, details) ∷ map) = (k ≡ n) × IsRun (n + 1) map

  abbrev pub IsConsecutive : MessageDetailsMap W → Type 0
  IsConsecutive [] = ⊥
  IsConsecutive (m ∷ map) = IsRun (m.0 + 1) map

  run_ordered :
      (m : MessageNonce × MessageDetails W) (map : MessageDetailsMap W)
      → IsRun (m.0 + 1) map
      → m.0 ≤ details_maps.end (m ∷ map)
  run_ordered m [] run = omega arith
  run_ordered m (m' ∷ map) run = omega (arith, run_ordered m' map (rw run.0 run.1), run.0)

  pub run_all_ordered :
      (x : MessageDetailsMap W) → IsConsecutive x → details_maps.begin x ≤ details_maps.end x
  run_all_ordered [] p = absurd p
  run_all_ordered (m ∷ map) p = run_ordered m map p

  -- The map from the nonce on: nothing, or the rest of a run.
  record CutAt (m : MessageNonce × MessageDetails W) (map : MessageDetailsMap W) (b : MessageNonce)
      : Type 0 where
    first : MessageNonce × MessageDetails W
    rest : MessageDetailsMap W
    cut : split_off (m ∷ map) b ≡ first ∷ rest
    run : IsRun (first.0 + 1) rest
    reaches : b ≤ details_maps.end (m ∷ map)
    begins : first.0 ≡ max m.0 b
    ends : details_maps.end (first ∷ rest) ≡ details_maps.end (m ∷ map)

  CutAt-whole :
      (m : MessageNonce × MessageDetails W) (map : MessageDetailsMap W) (b : MessageNonce)
      → IsRun (m.0 + 1) map
      → ltb m.0 b ≡ false
      → CutAt m map b
  unfolding split_off
  CutAt-whole m map b run kept = record {
    first = m;
    rest = map;
    cut = rw kept refl;
    run = run;
    reaches = ground (arith, run_ordered m map run);
    begins = ground arith;
    ends = refl;
  }

  split_off-cuts :
      (m : MessageNonce × MessageDetails W) (map : MessageDetailsMap W) (b : MessageNonce)
      → IsRun (m.0 + 1) map
      → ((split_off (m ∷ map) b ≡ []) × (details_maps.end (m ∷ map) < b)) ⊎ CutAt m map b
  unfolding split_off
  split_off-cuts m [] b run = elim (Bool-cases (ltb m.0 b)) [
    | inr kept ↦ inr (CutAt-whole m [] b run kept)
    | inl dropped ↦ inl (rw dropped refl, ltb→lt m.0 b dropped)
  ]
  split_off-cuts m (m' ∷ map) b run = elim (Bool-cases (ltb m.0 b)) [
    | inr kept ↦ inr (CutAt-whole m (m' ∷ map) b run kept)
    | inl dropped ↦ elim (split_off-cuts m' map b (rw run.0 run.1)) [
      | inl (none_left, short) ↦ inl (rw dropped none_left, short)
      | inr c ↦ inr (record {
        first = c.first;
        rest = c.rest;
        cut = rw dropped c.cut;
        run = c.run;
        reaches = c.reaches;
        begins = omega (arith, c.begins, run.0, ltb→lt m.0 b dropped);
        ends = c.ends;
      })
    ]
  ]

  pub map_greater_than-cuts :
      (x : MessageDetailsMap W) (n : MessageNonce)
      → n + 1 < u64_mod
      → IsConsecutive x
      → ((map_greater_than x n ≡ none) × (details_maps.end x ≤ n))
        ⊎ ((y : MessageDetailsMap W) × (map_greater_than x n ≡ some y)
            × IsConsecutive y
            × (n < details_maps.end x)
            × (details_maps.begin y ≡ max (details_maps.begin x) (n + 1))
            × (details_maps.end y ≡ details_maps.end x))
  unfolding map_greater_than
  map_greater_than-cuts [] n room p = absurd p
  map_greater_than-cuts (m ∷ map) n room p =
      let next : add_u64 n 1 ≡ n + 1 = omega arith in
      elim (split_off-cuts m map (n + 1) p) [
        | inl (none_left, short) ↦ inl (rw (next, none_left) refl, omega arith)
        | inr c ↦ inr (
          c.first ∷ c.rest,
          rw (next, c.cut) refl,
          c.run,
          omega (arith, c.reaches),
          c.begins,
          c.ends,
        )
      ]

  abbrev pub details_laws : RangeLaws (details_maps {W = W})
  details_laws = record {
    IsProper = IsConsecutive;
    ordered = run_all_ordered;
    cuts = map_greater_than-cuts;
  }
