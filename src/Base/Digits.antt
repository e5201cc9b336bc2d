-- ===== src/Base/Digits.antt =====
-- Binary digits of a number, and what `&` and `|` do to each of them.
use Prim.Native.Nat.{
  ℕ, zero, suc, ◌+◌, ◌-◌, ◌*◌, ◌/◌, ◌%◌, ◌^◌, ◌≤◌, ◌<◌, min, max, digits, bitwise, bit_and, bit_or,
  bit_and-bitwise, bit_or-bitwise,
}
use mathlib.Core.Path.{◌≡◌, refl, ap}
use native.Mathlib.Nat.{le_refl, pow-suc}
use native.Mathlib.Decide.{ℕ_discrete}
use mathlib.Core.Logic.{◌≢◌}
use native.Mathlib.Omega.{arith}
use zcell.Base.Tests.{◌==◌, if◌then◌else◌}

module _ (z : ℕ → ℕ) (f : ℕ → ℕ → ℕ) where
  -- Any count of digits that is enough gives the same digits.
  digits-count : (n m a b : ℕ) → a ≤ n → a ≤ m → digits z f n a b ≡ digits z f m a b
  digits-count zero zero a b p q = refl
  digits-count zero (suc m) zero b p q = refl
  digits-count zero (suc m) (suc a) b p q = absurd (omega arith)
  digits-count (suc n) zero zero b p q = refl
  digits-count (suc n) zero (suc a) b p q = absurd (omega arith)
  digits-count (suc n) (suc m) zero b p q = refl
  digits-count (suc n) (suc m) (suc a) b p q =
      rw (digits-count n m (suc a / 2) (b / 2) (omega arith) (omega arith))

  bitwise_digit :
      (a b : ℕ)
      → bitwise z f (suc a) b ≡ bitwise z f (suc a / 2) (b / 2) * 2 + f (suc a % 2) (b % 2)
  bitwise_digit a b =
      omega (arith, digits-count a (suc a / 2) (suc a / 2) (b / 2) (omega arith) (le_refl _))

bit_or_low : (a b : ℕ) → bit_or a b ≡ bit_or (a / 2) (b / 2) * 2 + max (a % 2) (b % 2)
bit_or_low zero b = simp bit_or-bitwise (omega arith)
bit_or_low (suc a) b = simp bit_or-bitwise (bitwise_digit (λ y. y) max a b)

bit_and_low : (a b : ℕ) → bit_and a b ≡ bit_and (a / 2) (b / 2) * 2 + min (a % 2) (b % 2)
bit_and_low zero b = simp bit_and-bitwise (omega arith)
bit_and_low (suc a) b = simp bit_and-bitwise (bitwise_digit (λ y. 0) min a b)

-- The digit of weight 2 ^ k.
pub digit : ℕ → ℕ → ℕ
digit v zero = v % 2
digit v (suc k) = digit (v / 2) k

pub digit-lt-two : (v k : ℕ) → digit v k < 2
unfolding digit
digit-lt-two v zero = omega arith
digit-lt-two v (suc k) = digit-lt-two (v / 2) k

pub digit-bit_or : (a b k : ℕ) → digit (bit_or a b) k ≡ max (digit a k) (digit b k)
unfolding digit
digit-bit_or a b zero = omega (arith, bit_or_low a b)
digit-bit_or a b (suc k) =
    let half : bit_or a b / 2 ≡ bit_or (a / 2) (b / 2) = omega (arith, bit_or_low a b) in
    rw half (digit-bit_or (a / 2) (b / 2) k)

pub digit-bit_and : (a b k : ℕ) → digit (bit_and a b) k ≡ min (digit a k) (digit b k)
unfolding digit
digit-bit_and a b zero = omega (arith, bit_and_low a b)
digit-bit_and a b (suc k) =
    let half : bit_and a b / 2 ≡ bit_and (a / 2) (b / 2) = omega (arith, bit_and_low a b) in
    rw half (digit-bit_and (a / 2) (b / 2) k)

pub digit-zero : (k : ℕ) → digit 0 k ≡ 0
unfolding digit
digit-zero zero = refl
digit-zero (suc k) = digit-zero k

pub digit-two-pow : (k j : ℕ) → digit (2 ^ k) j ≡ (if j == k then 1 else 0)
unfolding digit
digit-two-pow zero zero = refl
digit-two-pow zero (suc j) = ground (arith, digit-zero j)
digit-two-pow (suc k) zero = ground (arith, pow-suc 2 k)
digit-two-pow (suc k) (suc j) =
    let half : 2 ^ suc k / 2 ≡ 2 ^ k = omega (arith, pow-suc 2 k) in
    rw half (ground (arith, digit-two-pow k j))

-- The complement within n digits.
pub digit_complement : (n m j : ℕ) → m < 2 ^ n → j < n → digit (2 ^ n - 1 - m) j ≡ 1 - digit m j
unfolding digit
digit_complement zero m j h l = elim l [ ]
digit_complement (suc n) m zero h l = omega (arith, pow-suc 2 n)
digit_complement (suc n) m (suc j) h l =
    let half : (2 ^ suc n - 1 - m) / 2 ≡ 2 ^ n - 1 - m / 2 = omega (arith, pow-suc 2 n) in
    rw half (digit_complement n (m / 2) j (omega (arith, pow-suc 2 n)) (omega arith))

bit_and-zero : (n a : ℕ) → a ≤ n → bit_and a 0 ≡ 0
bit_and-zero n zero h = refl
bit_and-zero zero (suc a) h = absurd (omega arith)
bit_and-zero (suc n) (suc a) h =
    omega (arith, bit_and_low (suc a) 0, bit_and-zero n (suc a / 2) (omega arith))

-- A masked bit is its digit, at the digit's weight.
pub bit_and-two-pow : (v k : ℕ) → bit_and v (2 ^ k) ≡ digit v k * 2 ^ k
unfolding digit
bit_and-two-pow v zero = omega (arith, bit_and_low v 1, bit_and-zero v (v / 2) (omega arith))
bit_and-two-pow v (suc k) =
    let half : 2 ^ suc k / 2 ≡ 2 ^ k = omega (arith, pow-suc 2 k) in
    let low : bit_and v (2 ^ suc k) ≡ bit_and (v / 2) (2 ^ suc k / 2) * 2 =
      omega (arith, bit_and_low v (2 ^ suc k), pow-suc 2 k) in
    let weight : digit (v / 2) k * 2 ^ suc k ≡ digit (v / 2) k * (2 ^ k * 2) =
      ap (λ t. digit (v / 2) k * t) (pow-suc 2 k) in
    omega (arith, rw half at low, weight, bit_and-two-pow (v / 2) k)

-- `|` stays within the digits of its arguments.
pub bit_or-lt : (n a b : ℕ) → a < 2 ^ n → b < 2 ^ n → bit_or a b < 2 ^ n
bit_or-lt zero a b ha hb =
    let a' : a ≡ 0 = omega arith in let b' : b ≡ 0 = omega arith in rw (a', b') (omega arith)
bit_or-lt (suc n) a b ha hb = omega (
  arith,
  bit_or_low a b,
  pow-suc 2 n,
  bit_or-lt n (a / 2) (b / 2) (omega (arith, pow-suc 2 n)) (omega (arith, pow-suc 2 n)),
)

-- So does `&`.
pub bit_and-lt : (n a b : ℕ) → a < 2 ^ n → b < 2 ^ n → bit_and a b < 2 ^ n
bit_and-lt zero a b ha hb =
    let a' : a ≡ 0 = omega arith in let b' : b ≡ 0 = omega arith in rw (a', b') (omega arith)
bit_and-lt (suc n) a b ha hb = omega (
  arith,
  bit_and_low a b,
  pow-suc 2 n,
  bit_and-lt n (a / 2) (b / 2) (omega (arith, pow-suc 2 n)) (omega (arith, pow-suc 2 n)),
)

-- A number that is not 0 has a digit that is not.
pub some_digit : (n w : ℕ) → w < 2 ^ n → w ≢ 0 → (j : ℕ) × (j < n) × (digit w j ≡ 1)
unfolding digit
some_digit zero w h ne = absurd (ne (omega arith))
some_digit (suc n) w h ne = elim (ℕ_discrete (w % 2) 1) [
  | yes odd ↦ (0, omega arith, odd)
  | no even ↦
      let (j, below, one) =
        some_digit n (w / 2) (omega (arith, pow-suc 2 n)) (λ e. ne (omega arith)) in
      (suc j, omega arith, one)
]
