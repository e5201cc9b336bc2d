-- ===== src/Zstore/Mount/Mkfs.antt =====
-- Making a file system and mounting it.
use zcell.Base.{
  subst, ltb, ℕ, ◌+◌, ◌-◌, ◌*◌, ◌/◌, ◌%◌, ◌^◌, ◌≤◌, ◌<◌, ◌≡◌, refl, ap, ◌∙◌, Bool, false, not, some,
  length, get_or, arith, Bool-cases, inl, inr, ◌&&◌, min,
}
use zcell.Memory.{Mem, get64, write, Holds, Holds-Same, Holds-write, Same}
use zcell.Pmem.{open_pmem}
use zcell.Zstore.Objects.{no_onode}
use zcell.Zstore.Access.{DataStore}
use zcell.Zstore.Format.{Superblock, mkfs_superblock, mounted}
use zcell.Zstore.Mount.{
  superblock_bytes, fill_pages, format, mkfs, load_allocator, load_otable, load, mount,
}
use zcell.Zstore.Mount.Pages.{fill_pages-before, fill_pages-inside, get64-zero}
use zcell.Zstore.Mount.Load.{get_or-load_otable}
use zcell.Zstore.Mount.Empty.{AllFree, load_allocator-AllFree, onode_at-no_onode}
use zcell.Zstore.Mount.Begin.{InRange, length-superblock_bytes, mount_lem}

-- What is common to the layouts: the superblock's sizes.
pub mkfs_superblock-InRange : (nblks pm_size : ℕ) → InRange (mkfs_superblock nblks pm_size)
unfolding mkfs_superblock
mkfs_superblock-InRange nblks pm_size = record {
  magic = omega arith;
  ssd_nr_pages = ground arith;
  pm_nr_pages = omega arith;
  pm_ulog_ofst = omega arith;
  pm_ssd_bitmap_ofst = omega arith;
  pm_dy_bitmap_ofst = omega arith;
  onodes_rsv = omega arith;
  pm_otable_ofst = omega arith;
  pm_dy_space_ofst = omega arith;
}

-- What `format` leaves in memory.
module _ (garbage : Mem) (nblks pm_size : ℕ) (m : Mem) where
  abbrev zsb : Superblock
  zsb = mkfs_superblock nblks pm_size

  abbrev begun : Mem
  begun = write m 0 (superblock_bytes garbage zsb)

  pub format-zero : (x : ℕ) → 4096 ≤ x → x < 98 * 2 ^ 20 → format garbage zsb m x ≡ 0
  unfolding format mkfs_superblock
  format-zero x above below = elim (Bool-cases (ltb x (2 ^ 20))) [
    | inl log ↦
        fill_pages-before 0 (fill_pages 0 begun 4096 255) (2 ^ 20) 24832 x (ground arith)
        ∙ ap (fill_pages 0 begun 4096 255) (from 4096 x above)
        ∙ fill_pages-inside 0 begun 4096 255 (x - 4096) (ground arith)
    | inr tables ↦
        ap (fill_pages 0 (fill_pages 0 begun 4096 255) (2 ^ 20) 24832)
          (from (2 ^ 20) x (ground arith))
        ∙ fill_pages-inside 0 (fill_pages 0 begun 4096 255) (2 ^ 20) 24832 (x - 2 ^ 20)
            (omega (arith, below))
  ]
    where
      from : (base x : ℕ) → base ≤ x → x ≡ base + (x - base)
      from base x h = omega (arith, h)

  pub format-superblock : Holds (format garbage zsb m) 0 (superblock_bytes garbage zsb)
  unfolding format mkfs_superblock
  format-superblock =
      Holds-Same begun (format garbage zsb m) 0 (superblock_bytes garbage zsb) kept
        (Holds-write m 0 (superblock_bytes garbage zsb))
    where
      kept : Same (format garbage zsb m) begun 0 (length (superblock_bytes garbage zsb))
      kept x l u =
          let first : x < 4096 = omega (arith, u, length-superblock_bytes garbage zsb) in
          fill_pages-before 0 (fill_pages 0 begun 4096 255) (2 ^ 20) 24832 x (omega (arith, first))
          ∙ fill_pages-before 0 begun 4096 255 x first

-- A memory that starts with the superblock, and has nothing in the log regions.
module _ (made garbage : Mem) (nblks pm_size : ℕ)
    (begins : Holds made 0 (superblock_bytes garbage (mkfs_superblock nblks pm_size)))
    (clean : (x : ℕ) → 4096 ≤ x → x < 2 ^ 20 → made x ≡ 0) where
  no_log : (cpu : ℕ) → cpu < 127 → get64 made (open_pmem made cpu).log_region_ofst % 2 ≡ 0
  unfolding open_pmem
  no_log cpu few =
      ap (λ w. w % 2)
        (get64-zero made (4096 + cpu * 8192)
          (λ x l u. clean x (omega (arith, l)) (omega (arith, u, few))))

  pub mount-formatted :
      (cpu : ℕ) (trim can_unmap : Bool) (otable_addr : ℕ)
      → cpu < 127
      → (trim && not can_unmap) ≡ false
      → mount made cpu trim can_unmap otable_addr
        ≡ some (load (mkfs_superblock nblks pm_size) trim otable_addr (open_pmem made cpu))
  unfolding mkfs_superblock
  mount-formatted cpu trim can_unmap otable_addr few flags =
      mount_lem made garbage (mkfs_superblock nblks pm_size) cpu trim can_unmap otable_addr
        (mkfs_superblock-InRange nblks pm_size) begins refl (no_log cpu few) flags

-- A memory that has nothing in the tables.
module _ (made : Mem) (nblks pm_size : ℕ)
    (empty : (x : ℕ) → 4096 ≤ x → x < 98 * 2 ^ 20 → made x ≡ 0) where
  ssd_free :
      nblks % 512 ≡ 0
      → AllFree (min (2 ^ 28) nblks) (load_allocator made (2 ^ 20) (min (2 ^ 28) nblks))
  ssd_free whole =
      load_allocator-AllFree made (2 ^ 20) (min (2 ^ 28) nblks) (ground (arith, whole))
        (λ x l u. empty x (omega (arith, l)) (ground (arith, u)))

  pub pm_free :
      pm_size % 2 ^ 21 ≡ 0
      → pm_size ≤ 2 ^ 35
      → AllFree
          (pm_size / 2 ^ 12)
          (load_allocator made (2 ^ 20 + 32 * 2 ^ 20) (pm_size / 2 ^ 12 % 2 ^ 32))
  pm_free whole small =
      subst
        (λ n. AllFree n (load_allocator made (2 ^ 20 + 32 * 2 ^ 20) (pm_size / 2 ^ 12 % 2 ^ 32)))
        (omega (arith, small))
        (load_allocator-AllFree made (2 ^ 20 + 32 * 2 ^ 20) (pm_size / 2 ^ 12 % 2 ^ 32)
          (omega (arith, whole, small))
          (λ x l u. empty x (omega (arith, l)) (omega (arith, u, small))))

  pub no_objects :
      (oid : ℕ)
      → oid < 2 ^ 20
      → get_or (load_otable made (34 * 2 ^ 20) (2 ^ 20)) oid no_onode ≡ no_onode
  no_objects oid h =
      get_or-load_otable made (34 * 2 ^ 20) (2 ^ 20) oid h
      ∙ onode_at-no_onode made (34 * 2 ^ 20 + 64 * oid)
          (λ x l u. empty x (omega (arith, l)) (omega (arith, u, h)))

-- Without reserved objects, mounting after `zstore_mkfs` on a core below 127 gives a store with
-- both bitmaps valid and free in every block, no object in the table, and the first tid, whatever
-- the memory held before and the stack holds, if trimming is off or the device can unmap, and if
-- the device and the memory have whole bitmap entries and the memory has 98 MiB, the size of the
-- layout, to 32 GiB.
pub mount-mkfs :
    (m garbage : Mem) (garbages : ℕ → Mem) (nblks pm_size cpu : ℕ) (trim can_unmap : Bool)
    (otable_addr : ℕ)
    → nblks % 512 ≡ 0
    → pm_size % 2 ^ 21 ≡ 0
    → 98 * 2 ^ 20 ≤ pm_size
    → pm_size ≤ 2 ^ 35
    → cpu < 127
    → (trim && not can_unmap) ≡ false
    → (made : Mem) × (mkfs garbage garbages false nblks pm_size m ≡ some made)
      × (ds : DataStore) × (mount made cpu trim can_unmap otable_addr ≡ some ds)
      × AllFree (min (2 ^ 28) nblks) ds.ssd_allocator
      × AllFree (pm_size / 2 ^ 12) ds.store.pm_allocator
      × ((oid : ℕ) → oid < 2 ^ 20 → get_or ds.store.otable oid no_onode ≡ no_onode)
      × (ds.store.pmem ≡ open_pmem made cpu)
      × (ds.store.tid_max ≡ 0)
unfolding mkfs load mounted mkfs_superblock open_pmem
mount-mkfs m garbage garbages nblks pm_size cpu trim can_unmap otable_addr ssd pm large small few
      flags =
    let fits : ltb pm_size (98 * 2 ^ 20) ≡ false = ground arith in
    let made = format garbage (mkfs_superblock nblks pm_size) m in
    let empty = format-zero garbage nblks pm_size m in
    (
      made,
      rw fits refl,
      load (mkfs_superblock nblks pm_size) trim otable_addr (open_pmem made cpu),
      mount-formatted made garbage nblks pm_size (format-superblock garbage nblks pm_size m)
          (λ x l u. empty x l (omega (arith, u))) cpu trim can_unmap otable_addr few flags,
      ssd_free made nblks pm_size empty ssd,
      pm_free made nblks pm_size empty pm small,
      no_objects made nblks pm_size empty,
      refl,
      refl,
    )
