-- ===== src/Base/Word.antt =====
-- A `uint64_t` and the three ways in which the code touches one bit of it:
-- `v & (1ULL << k)`, `v |= 1ULL << k` and `v &= ~(1ULL << k)`.
use Prim.Native.Nat.{ℕ, ◌-◌, ◌^◌, ◌<◌, bit_and, bit_or}
use mathlib.Core.Path.{◌≡◌, ap}
use mathlib.Core.Bool.{Bool, true, false, not}
use mathlib.Core.Logic.{◌⊎◌, inl, inr}
use native.Mathlib.Nat.{one-le-pow, pow-le-pow_right, pow-suc}
use native.Mathlib.Omega.{arith}
use zcell.Base.Tests.{◌==◌, if◌then◌else◌}
use zcell.Base.Digits.{
  digit, digit-lt-two, digit-bit_or, digit-bit_and, digit-two-pow, digit-zero, bit_or-lt,
  bit_and-lt,
}
use zcell.Base.Digits.{digit_complement, bit_and-two-pow}

-- `1ULL << k`, for k < 64
abbrev pub mask : ℕ → ℕ
mask k = 2 ^ k

-- `~v`
abbrev pub complement : ℕ → ℕ
complement v = 2 ^ 64 - 1 - v

-- `v & (1ULL << k)`, as a test
unfoldable pub test_bit : ℕ → ℕ → Bool
test_bit v k = not (bit_and v (mask k) == 0)

unfoldable pub set_bit : ℕ → ℕ → ℕ
set_bit v k = bit_or v (mask k)

unfoldable pub clear_bit : ℕ → ℕ → ℕ
clear_bit v k = bit_and v (complement (mask k))

digit-cases : (v k : ℕ) → (digit v k ≡ 0) ⊎ (digit v k ≡ 1)
digit-cases v k = grind (arith, digit-lt-two v k)

pub test_bit-digit : (v k : ℕ) → test_bit v k ≡ (digit v k == 1)
unfolding test_bit
test_bit-digit v k = elim (digit-cases v k) [
  | inl e ↦ rw (bit_and-two-pow, e) (ground arith)
  | inr e ↦ rw (bit_and-two-pow, e) (ground (arith, one-le-pow k 2))
]

mask-lt : (k : ℕ) → k < 64 → mask k < 2 ^ 64
mask-lt k h = omega (arith, pow-suc 2 k, one-le-pow k 2, pow-le-pow_right {n = 2} (omega arith) h)

-- Setting bit k changes that bit alone.
pub test_bit-set_bit :
    (v k j : ℕ) → test_bit (set_bit v k) j ≡ (if j == k then true else test_bit v j)
unfolding set_bit
test_bit-set_bit v k j =
    rw (test_bit-digit (set_bit v k) j, test_bit-digit v j)
      (ground (arith, digit-bit_or v (mask k) j, digit-two-pow k j, digit-lt-two v j))

-- Clearing bit k changes that bit alone, of the 64 that a word has.
pub test_bit-clear_bit :
    (v k j : ℕ)
    → k < 64
    → j < 64
    → test_bit (clear_bit v k) j ≡ (if j == k then false else test_bit v j)
unfolding clear_bit
test_bit-clear_bit v k j hk hj =
    rw (test_bit-digit (clear_bit v k) j, test_bit-digit v j)
      (ground (
        arith,
        digit-bit_and v (complement (mask k)) j,
        digit_complement 64 (mask k) j (mask-lt k hk) hj,
        digit-two-pow k j,
        digit-lt-two v j,
      ))

pub set_bit-lt : (v k : ℕ) → v < 2 ^ 64 → k < 64 → set_bit v k < 2 ^ 64
unfolding set_bit
set_bit-lt v k hv hk = bit_or-lt 64 v (mask k) hv (mask-lt k hk)

pub clear_bit-lt : (v k : ℕ) → v < 2 ^ 64 → clear_bit v k < 2 ^ 64
unfolding clear_bit
clear_bit-lt v k hv = bit_and-lt 64 v (complement (mask k)) hv (omega arith)

pub test_bit_zero : (k : ℕ) → test_bit 0 k ≡ false
test_bit_zero k = rw (test_bit-digit, digit-zero) (ground arith)

pub test_bit_ones : (k : ℕ) → k < 64 → test_bit (2 ^ 64 - 1) k ≡ true
test_bit_ones k h =
    rw test_bit-digit (ground (arith, digit_complement 64 0 k (omega arith) h, digit-zero k))

-- A word with a clear bit is not the word of ones, so `~v` is not 0.
pub complement-ne_zero :
    (v k : ℕ) → v < 2 ^ 64 → k < 64 → test_bit v k ≡ false → (complement v == 0) ≡ false
complement-ne_zero v k hv hk clear =
    ground (arith, test_bit-digit v k, ones, digit_complement 64 0 k (omega arith) hk, digit-zero k)
  where
    ones : v ≡ 2 ^ 64 - 1 - 0 → digit v k ≡ digit (2 ^ 64 - 1 - 0) k
    ones e = ap (λ w. digit w k) e
