-- ===== src/Zstore/Mount.antt =====
-- The bytes that `zstore_mkfs` of zstore.c writes to the persistent memory, and what `zstore_mount`
-- loads from them.
-- The block device opens; `garbage` is what the stack holds where a structure is not initialised.
-- Log messages are left out.
pub mod Pages
pub mod Load
pub mod Begin
pub mod Empty
pub mod Mkfs
pub mod Reserve
pub mod Overlap
pub mod Entries
pub mod Persist
pub mod Whole
mod Tests
use mathlib.Core.Option
use zcell.Base.{
  ℕ, zero, suc, ◌+◌, ◌-◌, ◌*◌, ◌/◌, ◌%◌, ◌^◌, Bool, true, false, not, List, [], ◌∷◌, ◌++◌, Option,
  none, some, replicate, ◌==◌, ltb, ◌&&◌, if◌then◌else◌,
}
use zcell.Memory.{Mem, read, write, le64, get64}
use zcell.Message.Wire.{le, of_le}
use zcell.Allocator
use zcell.Allocator.{Allocator, constructor, init_bitmap_entry}
use zcell.Pmem.{Pmem, open_pmem, recovery}
use zcell.Zstore.Objects.{Onode}
use zcell.Zstore.Access.{DataStore}
use zcell.Zstore.Format.{Superblock, zstore_magic, mkfs_superblock, mounted}

-- A field of `n` bytes in memory.
pub field : Mem → ℕ → ℕ → ℕ
field m o n = of_le (read m o n)

-- The bytes of fields that follow each other, each with its size.
pub struct_bytes : List (ℕ × ℕ) → List ℕ
struct_bytes [] = []
struct_bytes ((n, v) ∷ fs) = le n v ++ struct_bytes fs

-- `features`, which has 4 bytes, and the padding behind it are not set.
abbrev pub superblock_fields : Mem → Superblock → List (ℕ × ℕ)
superblock_fields garbage zsb =
    (8, zsb.magic)
    ∷ (8, field garbage 8 8)
    ∷ (8, 12)
    ∷ (8, 12)
    ∷ (4, zsb.ssd_nr_pages)
    ∷ (4, 4096)
    ∷ (4, zsb.pm_nr_pages)
    ∷ (4, 4096)
    ∷ (8, zsb.pm_ulog_ofst)
    ∷ (8, zsb.pm_ssd_bitmap_ofst)
    ∷ (8, zsb.pm_dy_bitmap_ofst)
    ∷ (8, zsb.onodes_rsv)
    ∷ (8, zsb.pm_otable_ofst)
    ∷ (8, zsb.pm_dy_space_ofst)
    ∷ []

-- The 4096 bytes of the superblock: what follows the fields is not set.
pub superblock_bytes : Mem → Superblock → List ℕ
superblock_bytes garbage zsb = struct_bytes (superblock_fields garbage zsb) ++ read garbage 96 4000

-- The superblock at the start of the memory, field by field.
pub superblock_at : Mem → Superblock
superblock_at m = record {
  magic = field m 0 8;
  ssd_nr_pages = field m 32 4;
  pm_nr_pages = field m 40 4;
  pm_ulog_ofst = field m 48 8;
  pm_ssd_bitmap_ofst = field m 56 8;
  pm_dy_bitmap_ofst = field m 64 8;
  onodes_rsv = field m 72 8;
  pm_otable_ofst = field m 80 8;
  pm_dy_space_ofst = field m 88 8;
}

-- A page of one byte, as `zeros`, `zff` and `buf` are.
pub page : ℕ → List ℕ
page b = replicate 4096 b

-- The loops that write such a page to `n` places, each a page behind the one before.
pub fill_pages : ℕ → Mem → ℕ → ℕ → Mem
fill_pages b m base zero = m
fill_pages b m base (suc n) = fill_pages b (write m base (page b)) (base + 4096) n

-- `ZSTORE_MKFS_RESERVE_OBJ_NR`
abbrev pub reserve_obj_nr : ℕ
reserve_obj_nr = 512 * 512

-- The 64 bytes of the local `e`: `rsv`, `rsv2` and the rest are not set.
pub reserved_bytes : Mem → ℕ → List ℕ
reserved_bytes garbage i =
    le64 (1 + field garbage 0 2 / 2 % 2 ^ 15 * 2 + i * 2 ^ 16)
    ++ (read garbage 8 4 ++ (le 4 i ++ read garbage 16 48))

-- The loop over the reserved table entries, from round i on.
pub reserve_onodes : (ℕ → Mem) → Mem → ℕ → ℕ → ℕ → Mem
reserve_onodes garbage m otable_ofst i zero = m
reserve_onodes garbage m otable_ofst i (suc n) =
    reserve_onodes garbage (write m (otable_ofst + i * 64) (reserved_bytes (garbage i) i))
      otable_ofst (i + 1) n

-- The branch of ZSTORE_MKFS_RESERVE_OBJID, in a memory that has room for it: pages of both bitmaps, the table entries, and the index
-- blocks.
pub reserve_objects : (ℕ → Mem) → Superblock → Mem → Mem
reserve_objects garbage zsb m =
    let pages = reserve_obj_nr / (4096 * 8 * 8) in
    let ssd_reserved = fill_pages 255 m zsb.pm_ssd_bitmap_ofst pages in
    let pm_reserved = fill_pages 255 ssd_reserved zsb.pm_dy_bitmap_ofst pages in
    let onodes = reserve_onodes garbage pm_reserved zsb.pm_otable_ofst 0 reserve_obj_nr in
    fill_pages 255 onodes zsb.pm_dy_space_ofst reserve_obj_nr

-- The superblock, the log regions, and the two bitmaps and the table, in a memory that has room.
pub format : Mem → Superblock → Mem → Mem
format garbage zsb m =
    let with_superblock = write m 0 (superblock_bytes garbage zsb) in
    let log_clean = fill_pages 0 with_superblock 4096 255 in
    fill_pages 0 log_clean zsb.pm_ssd_bitmap_ofst
      (zsb.pm_dy_space_ofst / 2 ^ 12 - zsb.pm_ssd_bitmap_ofst / 2 ^ 12)

-- `zstore_mkfs` on a device of `nblks` blocks and a memory of `pm_size` bytes; `reserve` is the flag.
-- A write past the end of the mapping is `none`: the last page that is written ends where the index
-- blocks start, or with the last of the reserved index blocks.
pub mkfs : Mem → (ℕ → Mem) → Bool → ℕ → ℕ → Mem → Option Mem
mkfs garbage garbages reserve nblks pm_size m =
    let zsb = mkfs_superblock nblks pm_size in
    let space = zsb.pm_dy_space_ofst in
    let written = if reserve then space + 4096 * reserve_obj_nr else space in
    let formatted = format garbage zsb m in
    if ltb pm_size written
    then none
    else some (if reserve then reserve_objects garbages zsb formatted else formatted)

-- The words of a bitmap entry.
pub words_at : Mem → ℕ → ℕ → List ℕ
words_at m o zero = []
words_at m o (suc n) = get64 m o ∷ words_at m (o + 8) n

-- The loop that reads the entries of a bitmap, from entry i on.
pub load_entries : Mem → ℕ → Allocator → ℕ → ℕ → Allocator
load_entries m ofst a i zero = a
load_entries m ofst a i (suc n) =
    load_entries m ofst (init_bitmap_entry a i (words_at m (ofst + 64 * i) 8)) (i + 1) n

pub load_allocator : Mem → ℕ → ℕ → Allocator
load_allocator m ofst nr_total = let a = constructor nr_total in load_entries m ofst a 0 a.nr_entrys

-- A table entry in memory.
pub onode_at : Mem → ℕ → Onode
onode_at m o =
    let w = get64 m o in
    record { valid = w % 2 == 1; oid = w / 2 ^ 16 % 2 ^ 48; data_idx_id = field m (o + 12) 4 }

-- The loop that reads the table.
pub load_otable : Mem → ℕ → ℕ → List Onode
load_otable m o zero = []
load_otable m o (suc n) = onode_at m o ∷ load_otable m (o + 64) n

-- What is loaded once the log is recovered.
pub load : Superblock → Bool → ℕ → Pmem → DataStore
load zsb trim otable_addr p = record {
  store =
      mounted zsb p (load_allocator p.mem zsb.pm_dy_bitmap_ofst zsb.pm_nr_pages)
        (load_otable p.mem zsb.pm_otable_ofst zsb.onodes_rsv) otable_addr;
  ssd_allocator = load_allocator p.mem zsb.pm_ssd_bitmap_ofst zsb.ssd_nr_pages;
  pm_ssd_bitmap_ofst = zsb.pm_ssd_bitmap_ofst;
  trim = trim;
}

-- `zstore_mount` on core `cpu`; `trim` is the flag ZSTORE_ENBALE_TRIM, and `can_unmap` whether the
-- device supports it. A failed assertion is `none`.
pub mount : Mem → ℕ → Bool → Bool → ℕ → Option DataStore
mount m cpu trim can_unmap otable_addr =
    let zsb = superblock_at m in
    if not (zsb.magic == zstore_magic)
    then none
    else if trim && not can_unmap
    then none
    else Option.map (load zsb trim otable_addr) (recovery (open_pmem m cpu))
