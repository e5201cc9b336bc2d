-- ===== src/Bitmap/Words.antt =====
-- The words of a bitmap: setting and clearing bits keeps their number and their width, and a new
-- bitmap has all its bits.
use mathlib.Core.Option.{some-injective, some-ne-none}
use zcell.Base.{
  ℕ, ◌+◌, ◌-◌, ◌/◌, ◌%◌, ◌^◌, ◌<◌, ◌≡◌, true, length, length-set, length-replicate, get_or,
  get_or-replicate, All-set, All-get_or, All-replicate, arith, ◌*◌, refl, sym, subst, ◌≤◌, some,
  Option-cases, inl, inr,
}
use zcell.Base.Word.{set_bit-lt, clear_bit-lt, test_bit_ones}
use zcell.Bitmap
use zcell.Bitmap.{Bitmap, constructor, get_bit, clr_bit, set_bit, next_set, find_next_set_and_clr}
use zcell.Bitmap.Laws.{AreWords, Inside, next_set-finds}

pub set_bit-length : (b : Bitmap) (i : ℕ) → length (Bitmap.set_bit b i).words ≡ length b.words
unfolding set_bit
set_bit-length b i = length-set b.words (i / 64) _

pub clr_bit-length : (b : Bitmap) (i : ℕ) → length (clr_bit b i).words ≡ length b.words
unfolding clr_bit
clr_bit-length b i = length-set b.words (i / 64) _

word-lt : (b : Bitmap) (i : ℕ) → AreWords b → get_or b.words i 0 < 2 ^ 64
word-lt b i h = All-get_or (λ w. w < 2 ^ 64) b.words i 0 h (omega arith)

pub set_bit-AreWords : (b : Bitmap) (i : ℕ) → AreWords b → AreWords (Bitmap.set_bit b i)
unfolding set_bit
set_bit-AreWords b i h =
    All-set (λ w. w < 2 ^ 64) b.words (i / 64) _ h
      (set_bit-lt (get_or b.words (i / 64) 0) (i % 64) (word-lt b (i / 64) h) (omega arith))

pub clr_bit-AreWords : (b : Bitmap) (i : ℕ) → AreWords b → AreWords (clr_bit b i)
unfolding clr_bit
clr_bit-AreWords b i h =
    All-set (λ w. w < 2 ^ 64) b.words (i / 64) _ h
      (clear_bit-lt (get_or b.words (i / 64) 0) (i % 64) (word-lt b (i / 64) h))

pub constructor-length : (n : ℕ) → length (constructor n true).words ≡ (n + 64 - 1) / 64
unfolding constructor
constructor-length n = length-replicate ((n + 64 - 1) / 64) (2 ^ 64 - 1)

pub constructor-AreWords : (n : ℕ) → AreWords (constructor n true)
unfolding constructor
constructor-AreWords n =
    All-replicate (λ w. w < 2 ^ 64) ((n + 64 - 1) / 64) (2 ^ 64 - 1) (omega arith)

pub constructor-get_bit :
    (n i : ℕ) → Inside (constructor n true) i → get_bit (constructor n true) i ≡ true
unfolding constructor get_bit
constructor-get_bit n i h =
    rw
      (get_or-replicate ((n + 64 - 1) / 64) (i / 64) (2 ^ 64 - 1) 0
        (omega (arith, h, length-replicate ((n + 64 - 1) / 64) (2 ^ 64 - 1))))
      (test_bit_ones (i % 64) (omega arith))

-- Taking a set bit keeps the words, and the bit taken is one of theirs.
pub find_next_set_and_clr-AreWords :
    (b : Bitmap) (bit_hint : ℕ)
    → AreWords b
    → bit_hint / 64 ≤ length b.words
    → let (found, c) = find_next_set_and_clr b bit_hint in
      (length c.words ≡ length b.words)
      × AreWords c
      × ((i : ℕ) → found ≡ some i → i < 64 * length b.words)
unfolding find_next_set_and_clr
find_next_set_and_clr-AreWords b bit_hint words h = elim (Option-cases (next_set b bit_hint)) [
  | inl e ↦ rw (e, find_next_set_and_clr) (refl, words, λ i f. absurd (some-ne-none i (sym f)))
  | inr (k, e) ↦
      let (is_set, inside) = (next_set-finds b bit_hint words h).0 k e in
      rw (e, find_next_set_and_clr)
        (
          clr_bit-length b k,
          clr_bit-AreWords b k words,
          λ i f. subst (λ n. n < 64 * length b.words) (some-injective k i f) inside,
        )
]
