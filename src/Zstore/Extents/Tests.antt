-- ===== src/Zstore/Extents/Tests.antt =====
-- Index entries with a hole, and an allocation across the end of a bitmap entry.
use zcell.Base.{ℕ, ◌≡◌, [], ◌∷◌, List, length, All}
use zcell.Allocator.{Extent}
use zcell.Zstore.Extents.{hole, lba_merge_to}
use zcell.Zstore.Extents.Merging.{blocks, mapped, IsUnit, lba_merge_to-blocks}

abbrev index : List ℕ
index = 510 ∷ 511 ∷ hole ∷ 512 ∷ 513 ∷ []

lba_merge_to-blocks_example :
    let (ex, mb_len) = lba_merge_to index in
    (blocks ex ≡ mapped index) × (mb_len ≡ length (mapped index)) × All IsUnit ex
lba_merge_to-blocks_example = lba_merge_to-blocks index

abbrev freed : List Extent
freed =
    record { lba = 510; len = 2 }
    ∷ record { lba = 512; len = 2 }
    ∷ record { lba = 600; len = 1 }
    ∷ []
