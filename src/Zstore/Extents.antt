-- ===== src/Zstore/Extents.antt =====
-- `object_lba_merge_to` and `lba_to_bitmap_id` of zstore.c, lines 649 to 686 and 734 to 754.
pub mod Merging
pub mod Ids
mod Tests
use zcell.Base.{
  ℕ, zero, suc, ◌+◌, ◌-◌, ◌*◌, ◌/◌, ◌^◌, Bool, true, false, List, [], ◌∷◌, ◌++◌, reverse,
  if◌then◌else◌, ltb, ◌==◌, ◌&&◌, ◌||◌, length,
}
use zcell.Allocator.{Extent, grow}

-- The index entry of a block that was never written, `(uint32_t)-1`.
abbrev pub hole : ℕ
hole = 2 ^ 32 - 1

-- `ZSTORE_IO_UNIT_MAX`
abbrev pub io_unit_max : ℕ
io_unit_max = 128 * 1024

-- The local variables of `object_lba_merge_to`'s loop; the extents stand newest first, so that `p`
-- points at the head, and `j` is their number.
pub record Merge : Type 0 where
  pub ex : List Extent
  pub in_found_ctx : Bool
  pub mb_len : ℕ

-- The block can be appended to the newest extent: it follows it, has the same bitmap entry as its
-- first block, and the extent is not yet of the largest size.
unfoldable pub joins : List Extent → ℕ → Bool
joins [] ba = false
joins (p ∷ ex) ba = (p.len + p.lba == ba) && (p.lba / 512 == ba / 512) && ltb p.len io_unit_max

abbrev pub single : ℕ → Extent
single ba = record { lba = ba; len = 1 }

-- One round of the loop, for the entry `ba`.
unfoldable pub merge_step : Merge → ℕ → Merge
merge_step m ba =
    if ba == hole
    then record m { in_found_ctx = false }
    else if m.in_found_ctx
    then record m {
      ex = if joins m.ex ba then grow m.ex else single ba ∷ m.ex;
      mb_len = m.mb_len + 1;
    }
    else record { ex = single ba ∷ m.ex; in_found_ctx = true; mb_len = m.mb_len + 1 }

unfoldable pub merge_loop : Merge → List ℕ → Merge
merge_loop m [] = m
merge_loop m (ba ∷ bi) = merge_loop (merge_step m ba) bi

abbrev pub merge_start : Merge
merge_start = record { ex = []; in_found_ctx = false; mb_len = 0 }

-- `object_lba_merge_to`: the extents in order, and `*mb_len`.
unfoldable pub lba_merge_to : List ℕ → List Extent × ℕ
lba_merge_to bi = let m = merge_loop merge_start bi in (reverse m.ex, m.mb_len)

-- The inner loop of `lba_to_bitmap_id`.
unfoldable pub known : List ℕ → ℕ → Bool
known [] id = false
known (b ∷ bid) id = (id == b) || known bid id

-- `lba_to_bitmap_id`: the numbers of the bitmap entries that the extents start in, in the order in
-- which they come first; `bid` holds those found so far.
unfoldable pub bitmap_ids_from : List ℕ → List Extent → List ℕ
bitmap_ids_from bid [] = bid
bitmap_ids_from bid (e ∷ es) =
    bitmap_ids_from (if known bid (e.lba / 512) then bid else bid ++ (e.lba / 512) ∷ []) es

unfoldable pub lba_to_bitmap_id : List Extent → List ℕ
lba_to_bitmap_id es = bitmap_ids_from [] es
