-- ===== src/Messages/Rewards/Counting.antt =====
-- Counting the nonces of a range that pass a test.
use parity_bridges_common.Common.{
  ℕ, zero, suc, ◌-◌, ◌+◌, ◌≤◌, ◌≡◌, refl, Bool, false, ◌&&◌, ◌||◌, if◌then◌else◌, leb, min, max,
  arith,
}

-- How many of the `n` numbers from `first` on pass the test.
abbrev pub count_from : (ℕ → Bool) → ℕ → ℕ → ℕ
count_from p first zero = 0
count_from p first (suc n) = (if p first then 1 else 0) + count_from p (first + 1) n

pub count_from-le : (p : ℕ → Bool) (first n : ℕ) → count_from p first n ≤ n
count_from-le p first zero = omega arith
count_from-le p first (suc n) = ground (arith, count_from-le p (first + 1) n)

pub count_from-cong :
    (p q : ℕ → Bool) (first n : ℕ)
    → ((m : ℕ) → p m ≡ q m)
    → count_from p first n ≡ count_from q first n
count_from-cong p q first zero h = refl
count_from-cong p q first (suc n) h = rw (h first, count_from-cong p q (first + 1) n h) refl

-- Tests that never pass together.
pub count_from-or :
    (p q : ℕ → Bool) (first n : ℕ)
    → ((m : ℕ) → (p m && q m) ≡ false)
    → count_from (λ m. p m || q m) first n ≡ count_from p first n + count_from q first n
count_from-or p q first zero h = omega arith
count_from-or p q first (suc n) h = ground (arith, h first, count_from-or p q (first + 1) n h)

pub count_from-none : (first n : ℕ) → count_from (λ m. false) first n ≡ 0
count_from-none first zero = refl
count_from-none first (suc n) = ground (arith, count_from-none (first + 1) n)

-- The numbers from `lo` to `hi` that lie in the range.
pub count_from-between :
    (lo hi first n : ℕ)
    → count_from (λ m. leb lo m && leb m hi) first n ≡ min (hi + 1) (first + n) - max lo first
count_from-between lo hi first zero = ground arith
count_from-between lo hi first (suc n) = ground (arith, count_from-between lo hi (first + 1) n)
