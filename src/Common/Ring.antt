-- ===== src/Common/Ring.antt =====
-- A ring buffer of keys over a map: a new key takes the slot of the oldest one, whose value leaves the
-- map. The pallets keep their imports this way.
use Prim.Native.Nat.{ℕ, ◌<◌}
use mathlib.Core.Path.{◌≡◌, refl, sym, ap, ◌∙◌}
use mathlib.Core.Logic.{◌≢◌, ◌⊎◌, inl, inr}
use mathlib.Core.Option.{Option, none, some}
use native.Mathlib.Omega.{arith}
use parity_bridges_common.Common.Tests.{◌==◌, Bool-cases, Option-cases, same_some, some_is_not_none}
use parity_bridges_common.Common.Maps.{update, update_self, update_ne}

-- What a slot holds after the new key is put in: that key, or what it held.
pub update_cases :
    (slots : ℕ → Option ℕ) (pointer key i k : ℕ)
    → update slots pointer (some key) i ≡ some k
    → ((pointer ≡ i) × (key ≡ k)) ⊎ ((pointer ≢ i) × (slots i ≡ some k))
update_cases slots pointer key i k e = elim (Bool-cases (pointer == i)) [
  | inl own ↦ inl (ground (arith, own), same_some refl (rw own at e))
  | inr other ↦ inr (ground (arith, other), rw other at e)
]

module _ {V : Type 0} where
  abbrev pub pushed : (ℕ → Option ℕ) → (ℕ → Option V) → ℕ → ℕ → V → ℕ → Option V
  pushed slots stored pointer key value =
      let inserted = update stored key (some value) in
      elim (slots pointer) [ some old ↦ update inserted old none | none ↦ inserted ]

  -- The slots below the size hold the keys of the map, each key in one slot.
  pub record IsRing (size : ℕ) (slots : ℕ → Option ℕ) (stored : ℕ → Option V) : Type 0 where
    pub bounded : (i key : ℕ) → slots i ≡ some key → i < size
    pub held : (i key : ℕ) → slots i ≡ some key → (value : V) × (stored key ≡ some value)
    pub slot : (key : ℕ) (value : V) → stored key ≡ some value → (i : ℕ) × (slots i ≡ some key)
    pub unique : (i j key : ℕ) → slots i ≡ some key → slots j ≡ some key → i ≡ j

  module _ (slots : ℕ → Option ℕ) (stored : ℕ → Option V) (pointer key : ℕ) (value : V) where
    pub pushed-new :
        ((old : ℕ) → slots pointer ≡ some old → old ≢ key)
        → pushed slots stored pointer key value key ≡ some value
    pushed-new fresh = elim (Option-cases (slots pointer)) [
      | inl empty ↦ rw (empty, pushed) (update_self stored key (some value))
      | inr (old, e) ↦ let other = fresh old e in rw (e, pushed) (ground (arith, other))
    ]

    pub pushed-kept :
        (k : ℕ) (v : V)
        → key ≢ k
        → slots pointer ≢ some k
        → stored k ≡ some v
        → pushed slots stored pointer key value k ≡ some v
    pushed-kept k v ne stays found = elim (Option-cases (slots pointer)) [
      | inl empty ↦ rw (empty, pushed) (update_ne stored key k (some value) ne ∙ found)
      | inr (old, e) ↦
          let other : old ≢ k = λ same. stays (e ∙ ap some same) in
          rw (e, pushed) (ground (arith, ne, found, other))
    ]

    pub pushed_found :
        (k : ℕ) (v : V)
        → pushed slots stored pointer key value k ≡ some v
        → (key ≡ k) ⊎ ((stored k ≡ some v) × (slots pointer ≢ some k))
    pushed_found k v e = elim (Option-cases (slots pointer)) [
      | inl empty ↦
          let e' = rw (empty, pushed) at e in
          elim (Bool-cases (key == k)) [
            | inl own ↦ inl (ground (arith, own))
            | inr other ↦ inr (ground (arith, e', other), λ h. some_is_not_none h empty)
          ]
      | inr (old, pruned) ↦
          let e' = rw (pruned, pushed) at e in
          elim (Bool-cases (old == k)) [
            | inl gone ↦ some_is_not_none e' (rw gone refl)
            | inr stays ↦ elim (Bool-cases (key == k)) [
              | inl own ↦ inl (ground (arith, own))
              | inr other ↦
                  inr (
                    ground (arith, e', other, stays),
                    λ h. ground (arith, same_some pruned h, stays),
                  )
            ]
          ]
    ]

    -- A key that is not in the map yet is put in.
    pub pushed-IsRing :
        (size : ℕ)
        → pointer < size
        → stored key ≡ none
        → IsRing size slots stored
        → IsRing size (update slots pointer (some key)) (pushed slots stored pointer key value)
    pushed-IsRing size within absent ring = record {
      bounded = λ i k e. elim (update_cases slots pointer key i k e) [
        | inl (own, same) ↦ omega (arith, own, within)
        | inr (ne, at) ↦ ring.bounded i k at
      ];
      held = λ i k e. elim (update_cases slots pointer key i k e) [
        | inl (own, same) ↦
            (value, ap (pushed slots stored pointer key value) (sym same) ∙ pushed-new fresh)
        | inr (ne, at) ↦
            let (v, found) = ring.held i k at in
            (
              v,
              pushed-kept k v (λ same. some_is_not_none found (ap stored (sym same) ∙ absent))
                  (λ gone. ne (ring.unique pointer i k gone at)) found,
            )
      ];
      slot = λ k v e. elim (pushed_found k v e) [
        | inl same ↦ (pointer, update_self slots pointer (some key) ∙ ap some same)
        | inr (found, stays) ↦
            let (i, at) = ring.slot k v found in
            (i, update_ne slots pointer i (some key) (λ same. stays (ap slots same ∙ at)) ∙ at)
      ];
      unique = λ i j k e e'. elim (update_cases slots pointer key i k e) [
        | inl (own, same) ↦ elim (update_cases slots pointer key j k e') [
          | inl (own', same') ↦ sym own ∙ own'
          | inr (ne, at) ↦ absurd (is_old j k at same)
        ]
        | inr (ne, at) ↦ elim (update_cases slots pointer key j k e') [
          | inl (own, same) ↦ absurd (is_old i k at same)
          | inr (ne', at') ↦ ring.unique i j k at at'
        ]
      ];
    }
      where
        is_old : (i k : ℕ) → slots i ≡ some k → key ≢ k
        is_old i k at same = some_is_not_none (ring.held i k at).1 (ap stored (sym same) ∙ absent)

        fresh : (old : ℕ) → slots pointer ≡ some old → old ≢ key
        fresh old at same = is_old pointer old at (sym same)
