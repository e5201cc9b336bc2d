-- ===== src/Zstore/Access/Tests.antt =====
-- A store on a device with free blocks: an object with two blocks, and one without.
use zcell.Base.{
  ◌<◌, ◌*◌, ℕ, ◌+◌, ◌^◌, ◌≡◌, refl, ap, ◌∙◌, sym, true, false, List, [], ◌∷◌, ◌++◌, some, map,
  length, All, arith, subst,
}
use zcell.Status.{ok}
use zcell.Memory.{Mem, read, write, Holds-write}
use zcell.Message.Wire.{of_le}
use zcell.Pmem
use zcell.Pmem.{Transaction}
use zcell.Pmem.Log.{IsLog}
use zcell.Allocator.{Extent, alloc_space, total_len}
use zcell.Allocator.Laws.{IsValid}
use zcell.Allocator.Tests.{disk, disk-IsValid}
use zcell.Zstore.Engine.{Tx, io_read, io_write}
use zcell.Zstore.Extents.{
  lba_merge_to, merge_loop, merge_step, lba_to_bitmap_id, bitmap_ids_from, known,
}
use zcell.Zstore.Extents.Merging.{blocks, IsUnit}
use zcell.Zstore.Objects.{no_onode}
use zcell.Zstore.Objects.Tests.{zeroes, granted, disk-granted}
use zcell.Zstore.Extents.{hole}
use zcell.Zstore.Access.{
  index_run, DataStore, data_index_block, read_index, lba_range_get, index_bytes, index_of, bio,
  prep_rw,
}
use zcell.Zstore.Access.Read.{Proper, prep_rw-Reads}
use zcell.Zstore.Access.Write.{replaced, freed, write_logs, prep_rw-Writes}
use zcell.Zstore.Access.ReadBack.{committed, IsPlaced, prep_rw-reads_back}

abbrev with_memory : Mem → DataStore
with_memory m = record {
  store = record {
    pmem = record { mem = m; log_region_ofst = 4096 };
    pm_dy_bitmap_ofst = 2 ^ 20 + 2 ^ 25;
    onodes_rsv = 2;
    pm_otable_ofst = 2 ^ 21 + 2 ^ 25;
    pm_dy_space_ofst = 2 ^ 21 + 2 ^ 25 + 128;
    pm_allocator = disk;
    otable = no_onode ∷ record { valid = true; oid = 1; data_idx_id = 1 } ∷ [];
    otable_addr = 2 ^ 30;
    tid_max = 5;
  };
  ssd_allocator = disk;
  pm_ssd_bitmap_ofst = 2 ^ 20;
  trim = false;
}

-- The transaction of a read has no log.
abbrev unset : Transaction
unset = Pmem.alloc zeroes

-- The second and third block of object 1.
abbrev two_blocks : List ℕ
two_blocks = 7 ∷ 8 ∷ []

abbrev index_addr : ℕ
index_addr = 2 ^ 21 + 2 ^ 25 + 128 + 2 ^ 12 + 4

abbrev written : DataStore
written = with_memory (write zeroes index_addr (index_bytes two_blocks))

written-Proper : Proper written 1 (2 ^ 12) (2 ^ 13)
written-Proper = record {
  some_len = omega arith;
  len_blocks = refl;
  ofst_blocks = refl;
  known = omega arith;
  few = omega arith;
}

prep_rw-Reads_example :
    (ex : List Extent) × (tx : Tx) × (prep_rw false written 4 zeroes unset 1 (2 ^ 12) (2 ^ 13) 900
      ≡ some (record { rc = ok; store = written; tx = some tx }))
    × (blocks ex ≡ two_blocks)
    × All IsUnit ex
    × (tx.bios ≡ map (bio io_read) ex)
    × (tx.bio_outstanding ≡ length ex)
unfolding data_index_block
prep_rw-Reads_example =
    prep_rw-Reads written 4 zeroes unset 1 (2 ^ 12) (2 ^ 13) 900 two_blocks written-Proper refl
      (ground arith) (Holds-write zeroes index_addr (index_bytes two_blocks))

-- An index block of which no entry was written.
abbrev fresh : DataStore
fresh = with_memory (λ x. 255)

fresh-Proper : Proper fresh 1 0 (2 ^ 12)
fresh-Proper = record {
  some_len = omega arith;
  len_blocks = refl;
  ofst_blocks = refl;
  known = omega arith;
  few = omega arith;
}

fresh-freed : freed fresh 1 0 (2 ^ 12) ≡ disk
unfolding lba_range_get read_index lba_merge_to merge_loop merge_step of_le read
fresh-freed = refl

fresh-granted :
    alloc_space (freed fresh 1 0 (2 ^ 12)) 1
    ≡ record { rc = ok; allocator = granted; ex = record { lba = 511; len = 1 } ∷ [] }
fresh-granted = ap (λ a. alloc_space a 1) fresh-freed ∙ disk-granted

fresh-replaced : replaced fresh 1 0 (2 ^ 12) ≡ []
unfolding lba_range_get read_index lba_merge_to merge_loop merge_step of_le read
fresh-replaced = refl

prep_rw-Writes_example :
    let r = alloc_space (freed fresh 1 0 (2 ^ 12)) 1 in
    let zs' = record fresh { ssd_allocator = r.allocator } in
    (tx : Tx) × (prep_rw true fresh 4 zeroes unset 1 0 (2 ^ 12) 900
      ≡ some (record { rc = ok; store = zs'; tx = some tx }))
    × (tx.bios ≡ map (bio io_write) r.ex)
    × (tx.bio_outstanding ≡ length r.ex)
    × (total_len r.ex ≡ 1)
    × (length (index_of r.ex) ≡ 1)
    × IsLog tx.pm_tx_ (write_logs zs' 1 0 (replaced fresh 1 0 (2 ^ 12)) r.ex)
    × (r.allocator.nr_free + 1 ≡ (freed fresh 1 0 (2 ^ 12)).nr_free)
prep_rw-Writes_example =
    prep_rw-Writes fresh 4 zeroes unset 1 0 (2 ^ 12) 900 fresh-Proper (omega arith) refl
      (subst IsValid (sym fresh-freed) disk-IsValid) (ap (λ r. r.rc) fresh-granted)

fresh-no_holes : All (λ w. w < hole) (index_of (alloc_space (freed fresh 1 0 (2 ^ 12)) 1).ex)
unfolding index_of index_run
fresh-no_holes =
    subst (λ r. All (λ w. w < hole) (index_of r.ex)) (sym fresh-granted) (omega arith, tt)

fresh-IsPlaced : IsPlaced fresh 1 0 (
    lba_to_bitmap_id (replaced fresh 1 0 (2 ^ 12))
    ++ lba_to_bitmap_id (alloc_space (freed fresh 1 0 (2 ^ 12)) 1).ex)
unfolding lba_to_bitmap_id bitmap_ids_from known data_index_block
fresh-IsPlaced = record {
  log_first = omega arith;
  table_first = omega arith;
  index_end = omega arith;
  table_in_memory = omega arith;
  bitmap_end =
      subst
        (λ e.
          All (λ id. 2 ^ 20 + 64 * id < 2 ^ 64)
            (lba_to_bitmap_id e ++ lba_to_bitmap_id (alloc_space (freed fresh 1 0 (2 ^ 12)) 1).ex))
        (sym fresh-replaced)
        (subst (λ r. All (λ id. 2 ^ 20 + 64 * id < 2 ^ 64) (lba_to_bitmap_id r.ex))
          (sym fresh-granted) (omega arith, tt));
}

prep_rw-reads_back_example :
    let r = alloc_space (freed fresh 1 0 (2 ^ 12)) 1 in
    let zs' = record fresh { ssd_allocator = r.allocator } in
    (tx : Tx) × (tx' : Tx) × (ex : List Extent) × (prep_rw true fresh 4 zeroes unset 1 0
        (2 ^ 12)
        900
      ≡ some (record { rc = ok; store = zs'; tx = some tx }))
    × (tx.bios ≡ map (bio io_write) r.ex)
    × (prep_rw false (committed zs' tx) 5 zeroes unset 1 0 (2 ^ 12) 901
        ≡ some (record { rc = ok; store = committed zs' tx; tx = some tx' }))
    × (tx'.bios ≡ map (bio io_read) ex)
    × (blocks ex ≡ index_of r.ex)
prep_rw-reads_back_example =
    prep_rw-reads_back fresh 4 5 zeroes unset 1 0 (2 ^ 12) 900 901 fresh-Proper (omega arith) refl
      (subst IsValid (sym fresh-freed) disk-IsValid) (ap (λ r. r.rc) fresh-granted) fresh-no_holes
      fresh-IsPlaced
