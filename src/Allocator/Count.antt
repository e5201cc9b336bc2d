-- ===== src/Allocator/Count.antt =====
-- How many of the first blocks are free: what `nr_free_` counts.
use zcell.Base.{
  ℕ, zero, suc, ◌+◌, ◌*◌, ◌≤◌, ◌<◌, ◌≡◌, refl, true, false, List, length, arith, if◌then◌else◌,
}
use zcell.Allocator.{allocated, mark, unmark}
use zcell.Allocator.Bits.{allocated-mark, allocated-unmark}

-- The number of free blocks below `n`, one bit at a time.
unfoldable pub count_free : List ℕ → ℕ → ℕ
count_free bs zero = 0
count_free bs (suc n) = count_free bs n + (if allocated bs n then 0 else 1)

pub count_free-le : (bs : List ℕ) (n : ℕ) → count_free bs n ≤ n
unfolding count_free
count_free-le bs zero = omega arith
count_free-le bs (suc n) = ground (arith, count_free-le bs n)

-- A change of the bit of block i alone does not change the count below i.
count_free-mark_above :
    (bs : List ℕ) (i n : ℕ)
    → i < 64 * length bs
    → n ≤ i
    → count_free (mark bs i) n ≡ count_free bs n
unfolding count_free
count_free-mark_above bs i zero h l = refl
count_free-mark_above bs i (suc n) h l =
    ground (arith, count_free-mark_above bs i n h, allocated-mark bs i n h)

-- Marking a free block takes one from the count.
pub count_free-mark :
    (bs : List ℕ) (i n : ℕ)
    → i < 64 * length bs
    → i < n
    → allocated bs i ≡ false
    → count_free (mark bs i) n + 1 ≡ count_free bs n
unfolding count_free
count_free-mark bs i zero h l e = elim l [ ]
count_free-mark bs i (suc n) h l e =
    ground
      (arith, count_free-mark bs i n h, count_free-mark_above bs i n h, allocated-mark bs i n h)

count_free-unmark_above :
    (bs : List ℕ) (i n : ℕ)
    → i < 64 * length bs
    → n ≤ i
    → count_free (unmark bs i) n ≡ count_free bs n
unfolding count_free
count_free-unmark_above bs i zero h l = refl
count_free-unmark_above bs i (suc n) h l =
    ground (arith, count_free-unmark_above bs i n h, allocated-unmark bs i n h)

-- Clearing an allocated block adds one to the count.
pub count_free-unmark :
    (bs : List ℕ) (i n : ℕ)
    → i < 64 * length bs
    → i < n
    → allocated bs i ≡ true
    → count_free (unmark bs i) n ≡ count_free bs n + 1
unfolding count_free
count_free-unmark bs i zero h l e = elim l [ ]
count_free-unmark bs i (suc n) h l e =
    ground (
      arith,
      count_free-unmark bs i n h,
      count_free-unmark_above bs i n h,
      allocated-unmark bs i n h,
    )

-- Two bitmaps with the same bits have the same count.
pub count_free-eq :
    (bs cs : List ℕ) (n : ℕ)
    → ((i : ℕ) → i < n → allocated bs i ≡ allocated cs i)
    → count_free bs n ≡ count_free cs n
unfolding count_free
count_free-eq bs cs zero h = refl
count_free-eq bs cs (suc n) h =
    ground (arith, h n (omega arith), count_free-eq bs cs n (λ i l. h i (omega arith)))

-- A free block counts.
pub count_free-pos : (bs : List ℕ) (i n : ℕ) → i < n → allocated bs i ≡ false → 0 < count_free bs n
unfolding count_free
count_free-pos bs i zero l e = elim l [ ]
count_free-pos bs i (suc n) l e = ground (arith, count_free-pos bs i n)

-- Where every block is free, all count.
pub count_free-all :
    (bs : List ℕ) (n : ℕ) → ((i : ℕ) → i < n → allocated bs i ≡ false) → count_free bs n ≡ n
unfolding count_free
count_free-all bs zero h = refl
count_free-all bs (suc n) h =
    ground (arith, h n (omega arith), count_free-all bs n (λ i l. h i (omega arith)))
