-- ===== src/Common/Lists.antt =====
-- Lists over the native numbers, and the ends of a double-ended queue.
use Prim.Native.Nat.{ℕ, zero, suc, ◌+◌, ◌<◌}
use mathlib.Core.Path.{◌≡◌, refl, ap}
use mathlib.Core.Bool.{Bool, false, ◌||◌}
use mathlib.Core.Option.{Option, none, some}
use mathlib.Core.List.{List, [], ◌∷◌, ◌++◌}
use native.Mathlib.Omega.{arith}
use parity_bridges_common.Common.Tests.{◌==◌, same_some}

module _ {ℓ} {A : Type ℓ} where
  abbrev pub length : List A → ℕ
  length [] = 0
  length (x ∷ xs) = suc (length xs)

  abbrev pub get_elem? : List A → ℕ → Option A
  get_elem? [] i = none
  get_elem? (x ∷ xs) zero = some x
  get_elem? (x ∷ xs) (suc i) = get_elem? xs i

  pub length-append : (xs ys : List A) → length (xs ++ ys) ≡ length xs + length ys
  length-append [] ys = omega arith
  length-append (x ∷ xs) ys = omega (arith, length-append xs ys)

  pub get_elem?-append :
      (xs ys : List A) (i : ℕ) → i < length xs → get_elem? (xs ++ ys) i ≡ get_elem? xs i
  get_elem?-append [] ys i lt = ground (arith, lt)
  get_elem?-append (x ∷ xs) ys zero lt = refl
  get_elem?-append (x ∷ xs) ys (suc i) lt = get_elem?-append xs ys i (omega (arith, lt))

  pub get_elem?-next :
      (xs ys : List A) (i : ℕ) → i ≡ length xs → get_elem? (xs ++ ys) i ≡ get_elem? ys 0
  get_elem?-next [] ys zero e = refl
  get_elem?-next [] ys (suc i) e = ground (arith, e)
  get_elem?-next (x ∷ xs) ys zero e = ground (arith, e)
  get_elem?-next (x ∷ xs) ys (suc i) e = get_elem?-next xs ys i (omega (arith, e))

  pub split_first :
      (xs : List A) (x : A) → get_elem? xs 0 ≡ some x → (rest : List A) × (xs ≡ x ∷ rest)
  split_first [] x e = cc
  split_first (y ∷ xs) x e = (xs, ap (λ z. z ∷ xs) (same_some refl e))

  -- `Iterator::skip`.
  abbrev pub drop : ℕ → List A → List A
  drop zero xs = xs
  drop (suc n) [] = []
  drop (suc n) (x ∷ xs) = drop n xs

  -- `VecDeque::back`.
  abbrev pub back : List A → Option A
  back [] = none
  back (x ∷ []) = some x
  back (x ∷ y ∷ xs) = back (y ∷ xs)

  pub back-snoc : (xs : List A) (x : A) → back (xs ++ x ∷ []) ≡ some x
  back-snoc [] x = refl
  back-snoc (y ∷ []) x = refl
  back-snoc (y ∷ z ∷ xs) x = back-snoc (z ∷ xs) x

  abbrev pub All {κ} : (A → Type κ) → List A → Type κ
  All P [] = Unit
  All P (x ∷ xs) = P x × All P xs

-- `<[_]>::contains`.
abbrev pub contains : List ℕ → ℕ → Bool
contains [] a = false
contains (x ∷ xs) a = (x == a) || contains xs a

-- The numbers from `n` on, `k` of them.
abbrev pub range_from : ℕ → ℕ → List ℕ
range_from n zero = []
range_from n (suc k) = n ∷ range_from (n + 1) k
