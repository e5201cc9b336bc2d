-- ===== src/Zstore/Objects/Tests.antt =====
-- A store with two objects in its table, of which the second exists.
use zcell.Base.{ℕ, ◌+◌, ◌*◌, ◌<◌, ◌^◌, ◌≡◌, inl, inr, refl, true, false, [], ◌∷◌, arith}
use zcell.Status.{ok}
use zcell.Memory.{Mem}
use zcell.Allocator.{Allocator, alloc_space, allocated}
use zcell.Allocator.Run.{mark_run, alloc_space_run}
use zcell.Allocator.Tests.{
  disk, disk-IsValid, disk-AreWords, disk-FreeRun, small, small-IsValid, small-allocated,
}
use zcell.Zstore.Objects.{Onode, Store, no_onode, tx_prepare, onode_log, bitmap_log}
use zcell.Zstore.Objects.Create.{Logs, create-Logs}
use zcell.Zstore.Objects.Refuse.{Refused, tx_prepare-Refused}
use zcell.Zstore.Objects.Delete.{delete-Logs}

abbrev pub zeroes : Mem
zeroes = λ x. 0

abbrev pub store : Store
store = record {
  pmem = record { mem = zeroes; log_region_ofst = 4096 };
  pm_dy_bitmap_ofst = 2 ^ 20 + 2 ^ 25;
  onodes_rsv = 2;
  pm_otable_ofst = 2 ^ 21 + 2 ^ 25;
  pm_dy_space_ofst = 2 ^ 21 + 2 ^ 25 + 128;
  pm_allocator = disk;
  otable = no_onode ∷ record { valid = true; oid = 1; data_idx_id = 1 } ∷ [];
  otable_addr = 2 ^ 30;
  tid_max = 5;
}

abbrev pub granted : Allocator
granted = record disk { bs = mark_run disk.bs 511 1; hint = 512; nr_free = 1023 }

pub disk-granted :
    alloc_space disk 1
    ≡ record { rc = ok; allocator = granted; ex = record { lba = 511; len = 1 } ∷ [] }
disk-granted =
    alloc_space_run disk 0 disk-IsValid disk-AreWords (omega arith) (disk-FreeRun 1) (omega arith)

create-Logs_example :
    let p = tx_prepare true store zeroes 0 in
    let n : Onode = record { valid = true; oid = 0; data_idx_id = 511 } in
    Logs p 5 (onode_log store 0 n ∷ bitmap_log store granted 511 ∷ [])
    × (p.store.pm_allocator ≡ granted)
    × ((x : ℕ) → x < 4096 → p.store.pmem.mem (511 * 2 ^ 12 + store.pm_dy_space_ofst + x) ≡ 255)
    × (p.store.pmem.log_region_ofst ≡ 4096)
    × (p.store.otable ≡ store.otable)
    × (p.store.tid_max ≡ 6)
create-Logs_example = create-Logs store zeroes 0 511 granted (omega arith) refl disk-granted

tx_prepare-Refused_example : Refused store (tx_prepare true store zeroes 1)
tx_prepare-Refused_example = tx_prepare-Refused true store zeroes 1 (inr (inl refl))

delete-Logs_example :
    let s : Store = record store { pm_allocator = small } in
    let p = tx_prepare false s zeroes 1 in
    Logs p 5 (onode_log s 1 no_onode ∷ [])
    × (allocated p.store.pm_allocator.bs 1 ≡ false)
    × (p.store.pmem ≡ s.pmem)
delete-Logs_example =
    delete-Logs (record store { pm_allocator = small }) zeroes 1 (omega arith) refl small-IsValid
      (omega arith) small-allocated
