-- ===== src/Zstore/Format.antt =====
-- zstore.c: the layout that `zstore_mkfs` gives to the persistent memory, and the store that
-- `zstore_mount` makes of it.
-- The fields of the superblock that nothing reads again (`features` and the allocation sizes) are
-- left out; `Zstore.Mount` writes them.
pub mod Regions
use zcell.Base.{ℕ, ◌+◌, ◌*◌, ◌/◌, ◌%◌, ◌^◌, List, min}
use zcell.Pmem.{Pmem}
use zcell.Allocator.{Allocator}
use zcell.Zstore.Objects.{Onode, Store}

-- `union zstore_superblock_t`
pub record Superblock : Type 0 where
  pub magic : ℕ
  pub ssd_nr_pages : ℕ
  pub pm_nr_pages : ℕ
  pub pm_ulog_ofst : ℕ
  pub pm_ssd_bitmap_ofst : ℕ
  pub pm_dy_bitmap_ofst : ℕ
  pub onodes_rsv : ℕ
  pub pm_otable_ofst : ℕ
  pub pm_dy_space_ofst : ℕ

abbrev pub zstore_magic : ℕ
zstore_magic = 1843950290917130776

abbrev pub onode_rsv : ℕ
onode_rsv = 2 ^ 20

abbrev pub ssd_bitmap_sz : ℕ
ssd_bitmap_sz = 32 * 2 ^ 20

abbrev pub pm_bitmap_sz : ℕ
pm_bitmap_sz = 2 ^ 20

-- The superblock for a device of `nblks` blocks and a memory of `pm_size` bytes.
unfoldable pub mkfs_superblock : ℕ → ℕ → Superblock
mkfs_superblock nblks pm_size = record {
  magic = zstore_magic;
  ssd_nr_pages = min (2 ^ 28) nblks;
  pm_nr_pages = pm_size / 2 ^ 12 % 2 ^ 32;
  pm_ulog_ofst = 4096;
  pm_ssd_bitmap_ofst = 2 ^ 20;
  pm_dy_bitmap_ofst = 2 ^ 20 + ssd_bitmap_sz;
  onodes_rsv = onode_rsv;
  pm_otable_ofst = 2 ^ 20 + ssd_bitmap_sz + pm_bitmap_sz;
  pm_dy_space_ofst = 2 ^ 20 + ssd_bitmap_sz + pm_bitmap_sz + 64 * onode_rsv;
}

-- The store that `zstore_mount` sets up from a superblock, with the allocator and the table that it
-- has loaded; `otable_addr` is what `calloc` has given.
unfoldable pub mounted : Superblock → Pmem → Allocator → List Onode → ℕ → Store
mounted zsb pmem pm_allocator otable otable_addr = record {
  pmem = pmem;
  pm_dy_bitmap_ofst = zsb.pm_dy_bitmap_ofst;
  onodes_rsv = zsb.onodes_rsv;
  pm_otable_ofst = zsb.pm_otable_ofst;
  pm_dy_space_ofst = zsb.pm_dy_space_ofst;
  pm_allocator = pm_allocator;
  otable = otable;
  otable_addr = otable_addr;
  tid_max = 0;
}
