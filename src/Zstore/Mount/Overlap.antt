-- ===== src/Zstore/Mount/Overlap.antt =====
-- The objects that `zstore_mkfs` reserves, and what the allocator of index blocks knows of them.
use zcell.Base.{ℕ, ◌*◌, ◌^◌}
use zcell.Memory.{Mem}
use zcell.Zstore.Format.{Superblock, mkfs_superblock}
use zcell.Zstore.Mount.{fill_pages, reserve_onodes}

-- What the reservation leaves in memory.
module _ (garbage : ℕ → Mem) (nblks pm_size : ℕ) (m : Mem) where
  abbrev zsb : Superblock
  zsb = mkfs_superblock nblks pm_size

  abbrev bitmaps : Mem
  bitmaps = fill_pages 255 (fill_pages 255 m (2 ^ 20) 1) (33 * 2 ^ 20) 1

  abbrev with_onodes : Mem
  with_onodes = reserve_onodes garbage bitmaps (34 * 2 ^ 20) 0 (2 ^ 18)
