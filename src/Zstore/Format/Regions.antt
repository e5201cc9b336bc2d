-- ===== src/Zstore/Format/Regions.antt =====
-- The regions of the layout: that they do not overlap, and where the index blocks end.
use zcell.Base.{ℕ, ◌+◌, ◌*◌, ◌/◌, ◌^◌, ◌≤◌, ◌<◌, ◌≡◌, List, arith}
use zcell.Memory.{Mem}
use zcell.Pmem.{open_pmem}
use zcell.Allocator.{Allocator}
use zcell.Zstore.Objects.{Onode}
use zcell.Zstore.Objects.Commit.{IsLaidOut}
use zcell.Zstore.Format.{mkfs_superblock, mounted}

-- On a core below 127, and a memory of at most 32 GiB, the regions of the layout follow each other:
-- the core's log, the bitmap of the device with an entry for every page, the bitmap of the index
-- blocks with an entry for every page, the table, and the index blocks.
pub mkfs_regions :
    (mem : Mem) (cpu nblks pm_size : ℕ)
    → cpu < 127
    → pm_size ≤ 2 ^ 35
    → let zsb = mkfs_superblock nblks pm_size in
      ((open_pmem mem cpu).log_region_ofst + 8192 ≤ zsb.pm_ssd_bitmap_ofst)
      × (zsb.pm_ssd_bitmap_ofst + 64 * ((zsb.ssd_nr_pages + 511) / 512) ≤ zsb.pm_dy_bitmap_ofst)
      × (zsb.pm_dy_bitmap_ofst + 64 * ((zsb.pm_nr_pages + 511) / 512) ≤ zsb.pm_otable_ofst)
      × (zsb.pm_otable_ofst + 64 * zsb.onodes_rsv ≤ zsb.pm_dy_space_ofst)
unfolding mkfs_superblock open_pmem
mkfs_regions mem cpu nblks pm_size few small =
    (omega (arith, few), ground arith, omega (arith, small), omega arith)

-- A store mounted on this layout is laid out as the commit of a creation wants it.
pub mkfs-IsLaidOut :
    (mem : Mem) (cpu nblks pm_size : ℕ) (a : Allocator) (otable : List Onode) (addr lba : ℕ)
    → cpu < 127
    → pm_size ≤ 2 ^ 35
    → addr + 2 ^ 26 < 2 ^ 64
    → lba < (mkfs_superblock nblks pm_size).pm_nr_pages
    → IsLaidOut (mounted (mkfs_superblock nblks pm_size) (open_pmem mem cpu) a otable addr) lba
unfolding mkfs_superblock mounted open_pmem
mkfs-IsLaidOut mem cpu nblks pm_size a otable addr lba few small high known = record {
  log_first = omega (arith, few);
  then_bitmap = omega (arith, known, small);
  table_end = omega arith;
  table_in_memory = omega (arith, high);
}

-- `pm_nr_pages`, the number of blocks that mounting gives to the allocator of index blocks, counts
-- every page of the memory, also those before the index blocks: the blocks with the last 25088
-- numbers lie behind the end of the memory.
pub mkfs_blocks_outside :
    (nblks pages lba : ℕ)
    → pages < 2 ^ 32
    → pages ≤ lba + 25088
    → let zsb = mkfs_superblock nblks (pages * 4096) in
      (zsb.pm_nr_pages ≡ pages) × (pages * 4096 ≤ zsb.pm_dy_space_ofst + lba * 4096)
unfolding mkfs_superblock
mkfs_blocks_outside nblks pages lba few last = (omega (arith, few), omega (arith, last))
