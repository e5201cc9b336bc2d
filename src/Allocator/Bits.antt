-- ===== src/Allocator/Bits.antt =====
-- What the three bit operations of the allocator do to the bit of every block.
use native.Mathlib.Decide.{ℕ_discrete}
use zcell.Base.{
  ℕ, ◌*◌, ◌/◌, ◌%◌, ◌<◌, ◌≡◌, true, false, List, set, length, arith, ◌==◌, if◌then◌else◌,
  length-set, get_or-set_self, get_or-set_ne,
}
use zcell.Base.Word.{set_bit, clear_bit, test_bit-set_bit, test_bit-clear_bit}
use zcell.Allocator.{word_index, word, allocated, mark, unmark}

-- The entry, the word in it and the bit in the word are just the word of 64 blocks.
pub word_index_lem : (i : ℕ) → word_index i ≡ i / 64
unfolding word_index
word_index_lem i = omega arith

-- Blocks below the capacity of the array have their word inside it.
pub word_index_bounds : (bs : List ℕ) (i : ℕ) → i < 64 * length bs → word_index i < length bs
unfolding word_index
word_index_bounds bs i h = omega arith

pub length-mark : (bs : List ℕ) (i : ℕ) → length (mark bs i) ≡ length bs
unfolding mark
length-mark bs i = length-set bs (word_index i) _

pub length-unmark : (bs : List ℕ) (i : ℕ) → length (unmark bs i) ≡ length bs
unfolding unmark
length-unmark bs i = length-set bs (word_index i) _

-- A block is its word and its bit in the word.
same_block : (i j : ℕ) → word_index j ≡ word_index i → j % 64 ≡ i % 64 → j ≡ i
unfolding word_index
same_block i j h k = omega arith

same_word : (bs : List ℕ) (i j : ℕ) → word_index j ≡ word_index i → word bs j ≡ word bs i
unfolding word
same_word bs i j e = rw e

word-set :
    (bs : List ℕ) (i j v : ℕ)
    → i < 64 * length bs
    → word (set bs (word_index i) v) j ≡ (if word_index j == word_index i then v else word bs j)
unfolding word
word-set bs i j v h = elim (ℕ_discrete (word_index j) (word_index i)) [
  | yes e ↦ ground (arith, get_or-set_self bs (word_index i) v 0 (word_index_bounds bs i h))
  | no ne ↦ ground (arith, get_or-set_ne bs (word_index i) (word_index j) v 0)
]

-- Marking a block sets its bit and no other block's.
pub allocated-mark :
    (bs : List ℕ) (i j : ℕ)
    → i < 64 * length bs
    → allocated (mark bs i) j ≡ (if j == i then true else allocated bs j)
unfolding allocated mark
allocated-mark bs i j h = ground (
  arith,
  word-set bs i j (set_bit (word bs i) (i % 64)) h,
  test_bit-set_bit (word bs i) (i % 64) (j % 64),
  same_block i j,
  same_word bs i j,
)

-- Unmarking a block clears its bit and no other block's.
pub allocated-unmark :
    (bs : List ℕ) (i j : ℕ)
    → i < 64 * length bs
    → allocated (unmark bs i) j ≡ (if j == i then false else allocated bs j)
unfolding allocated unmark
allocated-unmark bs i j h = ground (
  arith,
  word-set bs i j (clear_bit (word bs i) (i % 64)) h,
  test_bit-clear_bit (word bs i) (i % 64) (j % 64),
  same_block i j,
  same_word bs i j,
)
