-- ===== src/Zstore/Mount/Tests.antt =====
-- Mounting a memory of 4 GiB, with and without reserved objects.
use zcell.Base.{
  length, ◌≤◌, ℕ, ◌+◌, ◌*◌, ◌/◌, ◌%◌, ◌^◌, ◌<◌, ◌≡◌, refl, true, false, some, get_or, arith, min,
}
use zcell.Base.Word.{test_bit}
use zcell.Memory.{Mem, get64, write, Holds-write}
use zcell.Allocator.{allocated}
use zcell.Allocator.Bits.{length-mark}
use zcell.Allocator.Run.{AreWords, mark_run, mark-AreWords}
use zcell.Allocator.Tests.{disk, disk-AreWords}
use zcell.Allocator.Laws.{IsValid}
use zcell.Pmem
use zcell.Pmem.{open_pmem}
use zcell.Zstore.Objects.{no_onode, Store, tx_prepare}
use zcell.Zstore.Objects.Commit.{IsLaidOut}
use zcell.Zstore.Objects.Tests.{store, zeroes, granted, disk-granted}
use zcell.Zstore.Engine.{Tx}
use zcell.Zstore.Format.{Superblock, zstore_magic}
use zcell.Zstore.Mount.Persist.{IsMounted, mount-create}
use zcell.Zstore.Access.{DataStore}
use zcell.Zstore.Mount.{load_allocator, mkfs, mount, superblock_bytes}
use zcell.Zstore.Mount.Load.{load_allocator-IsValid}
use zcell.Zstore.Mount.Mkfs.{mount-mkfs}
use zcell.Zstore.Mount.Empty.{AllFree}

abbrev dirty : Mem
dirty = λ x. x % 256

load_allocator-IsValid_example :
    let a = load_allocator dirty 4096 1024 in
    IsValid a
    × (a.nr_total ≡ 1024)
    × ((i : ℕ)
        → i < 1024
        → allocated a.bs i ≡ test_bit (get64 dirty (4096 + 8 * (i / 64))) (i % 64))
load_allocator-IsValid_example = load_allocator-IsValid dirty 4096 1024 refl

mount-mkfs_example :
    (made : Mem) × (mkfs dirty (λ i. dirty) false 1048576 (2 ^ 32) dirty ≡ some made)
    × (ds : DataStore) × (mount made 3 true true (2 ^ 40) ≡ some ds)
    × AllFree (min (2 ^ 28) 1048576) ds.ssd_allocator
    × AllFree (2 ^ 32 / 2 ^ 12) ds.store.pm_allocator
    × ((oid : ℕ) → oid < 2 ^ 20 → get_or ds.store.otable oid no_onode ≡ no_onode)
    × (ds.store.pmem ≡ open_pmem made 3)
    × (ds.store.tid_max ≡ 0)
mount-mkfs_example =
    mount-mkfs dirty dirty (λ i. dirty) 1048576 (2 ^ 32) 3 true true (2 ^ 40) refl refl
      (omega arith) (omega arith) (omega arith) refl

-- A memory with the superblock of a small store, and the store that is mounted from it.
abbrev small_zsb : Superblock
small_zsb = record {
  magic = zstore_magic;
  ssd_nr_pages = 1024;
  pm_nr_pages = 1024;
  pm_ulog_ofst = 4096;
  pm_ssd_bitmap_ofst = 2 ^ 20;
  pm_dy_bitmap_ofst = 2 ^ 20 + 2 ^ 25;
  onodes_rsv = 2;
  pm_otable_ofst = 2 ^ 21 + 2 ^ 25;
  pm_dy_space_ofst = 2 ^ 21 + 2 ^ 25 + 128;
}

abbrev remembered : Store
remembered = record store {
  pmem = record { mem = write zeroes 0 (superblock_bytes dirty small_zsb); log_region_ofst = 4096 };
}

remembered-IsMounted : IsMounted remembered dirty small_zsb 0
remembered-IsMounted = record {
  begins = Holds-write zeroes 0 (superblock_bytes dirty small_zsb);
  in_range = record {
    magic = omega arith;
    ssd_nr_pages = omega arith;
    pm_nr_pages = omega arith;
    pm_ulog_ofst = omega arith;
    pm_ssd_bitmap_ofst = omega arith;
    pm_dy_bitmap_ofst = omega arith;
    onodes_rsv = omega arith;
    pm_otable_ofst = omega arith;
    pm_dy_space_ofst = omega arith;
  };
  magic = refl;
  region = refl;
  bitmap = refl;
  onodes = refl;
  table = refl;
  space = omega arith;
  entries = refl;
}

remembered-IsLaidOut : IsLaidOut remembered 511
remembered-IsLaidOut = record {
  log_first = omega arith;
  then_bitmap = omega arith;
  table_end = omega arith;
  table_in_memory = omega arith;
}

granted-length : 511 / 512 * 8 + 8 ≤ length granted.bs
unfolding mark_run
granted-length = omega (arith, length-mark disk.bs 511)

granted-AreWords : AreWords granted.bs
unfolding mark_run
granted-AreWords = mark-AreWords disk.bs 511 disk-AreWords

mount-create_example :
    let p = tx_prepare true remembered dirty 0 in
    (tx : Tx) × (p.tx ≡ some tx)
    × (ds : DataStore) × (mount (Pmem.apply p.store.pmem tx.pm_tx_).0.mem 0 false false (2 ^ 30)
        ≡ some ds)
    × (get_or ds.store.otable 0 no_onode ≡ record { valid = true; oid = 0; data_idx_id = 511 })
    × ((i : ℕ)
        → i / 512 ≡ 0
        → i < 1024
        → allocated ds.store.pm_allocator.bs i ≡ allocated granted.bs i)
mount-create_example =
    mount-create remembered dirty small_zsb 0 dirty 0 511 granted false false (2 ^ 30)
      remembered-IsMounted remembered-IsLaidOut (omega arith) refl disk-granted granted-length
      granted-AreWords refl
