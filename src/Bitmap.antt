-- ===== src/Bitmap.antt =====
-- util/bitmap.h: the bitmap from which liboss takes the ids of its operations. A set bit is a free id.
-- `get_bit` reads 0 and `set_bit` and `clr_bit` change nothing outside the words.
pub mod Laws
pub mod Words
mod Tests
use zcell.Base.{
  ℕ, zero, suc, ◌+◌, ◌-◌, ◌*◌, ◌/◌, ◌%◌, ◌^◌, Bool, true, false, List, [], ◌∷◌, Option, none, some,
  get_or, set, replicate, length, if◌then◌else◌, ltb, ◌==◌, drop, take,
}
use zcell.Base.Word
use zcell.Base.Word.{test_bit}

-- `struct bitmap_t`; `words_length` is the length of the list.
pub record Bitmap : Type 0 where
  pub bit_length : ℕ
  pub words : List ℕ

-- `bitmap_constructor`: `_CEIL_DIV` words, all ones or all zeroes.
unfoldable pub constructor : ℕ → Bool → Bitmap
constructor bit_length init_value = record {
  bit_length = bit_length;
  words = replicate ((bit_length + 64 - 1) / 64) (if init_value then 2 ^ 64 - 1 else 0);
}

unfoldable pub get_bit : Bitmap → ℕ → Bool
get_bit b i = test_bit (get_or b.words (i / 64) 0) (i % 64)

unfoldable pub set_bit : Bitmap → ℕ → Bitmap
set_bit b i = record b {
  words = set b.words (i / 64) (Word.set_bit (get_or b.words (i / 64) 0) (i % 64));
}

unfoldable pub clr_bit : Bitmap → ℕ → Bitmap
clr_bit b i = record b {
  words = set b.words (i / 64) (Word.clear_bit (get_or b.words (i / 64) 0) (i % 64));
}

-- `__builtin_ffsll(w) - 1` for a word that is not 0: the lowest set bit, among the `n` bits from
-- bit `k` on.
unfoldable pub lowest_bit : ℕ → ℕ → ℕ → ℕ
lowest_bit zero k w = k
lowest_bit (suc n) k w = let rest = lowest_bit n (k + 1) w in if test_bit w k then k else rest

-- One of the two loops of `bitmap_next_set`: over `n` words from `word_idx` on.
unfoldable pub next_in : List ℕ → ℕ → ℕ → Option ℕ
next_in words zero word_idx = none
next_in words (suc n) word_idx =
    let rest = next_in words n (word_idx + 1) in
    if get_or words word_idx 0 == 0
    then rest
    else some (word_idx * 64 + lowest_bit 64 0 (get_or words word_idx 0))

-- `bitmap_next_set`; `none` is -1.
unfoldable pub next_set : Bitmap → ℕ → Option ℕ
next_set b bit_hint =
    let hint = bit_hint / 64 in
    elim (next_in b.words (length b.words - hint) hint) [
      | some i ↦ some i
      | none ↦ next_in b.words hint 0
    ]

-- `bitmap_find_next_set_and_clr`
unfoldable pub find_next_set_and_clr : Bitmap → ℕ → Option ℕ × Bitmap
find_next_set_and_clr b bit_hint = elim (next_set b bit_hint) [
  | none ↦ (none, b)
  | some i ↦ (some i, clr_bit b i)
]
