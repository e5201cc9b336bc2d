-- ===== src/Zstore/Mount/Persist.antt =====
-- A creation that was committed, seen by the next mount.
use zcell.Base.{
  ℕ, ◌+◌, ◌*◌, ◌/◌, ◌%◌, ◌^◌, ◌≤◌, ◌<◌, ◌≡◌, ap, ◌∙◌, sym, Bool, true, false, not, List, [], ◌∷◌,
  some, length, get_or, arith, ◌&&◌, take, drop,
}
use zcell.Status.{ok}
use zcell.Memory.{Mem, get64, Holds, Holds-at, Holds-Same}
use zcell.Allocator.{Allocator, allocated, alloc_space}
use zcell.Allocator.Run.{AreWords}
use zcell.Pmem
use zcell.Pmem.{Pmem, Transaction, Entry, open_pmem, write_all}
use zcell.Pmem.Log.{IsLog}
use zcell.Zstore.Engine.{Tx}
use zcell.Zstore.Objects.{
  Onode, Store, no_onode, short_oid, onode_bytes, words_bytes, onode_log, bitmap_log, tx_prepare,
}
use zcell.Zstore.Objects.Create.{old_onode, create-Logs, create-before_space}
use zcell.Zstore.Objects.Commit.{IsLaidOut, commit-before, commit-clears, commit-Holds}
use zcell.Zstore.Access.{DataStore}
use zcell.Zstore.Format.{Superblock, zstore_magic, mounted}
use zcell.Zstore.Mount.{superblock_bytes, load, mount}
use zcell.Zstore.Mount.Load.{load_allocator-IsValid, get_or-load_otable}
use zcell.Zstore.Mount.Begin.{InRange, length-superblock_bytes, mount_lem}
use zcell.Zstore.Mount.Entries.{onode_at-onode_bytes, entry_bit}

-- The store that a mount on core `cpu` gave, as far as it stands in its memory: the superblock, and
-- the regions where it says.
pub record IsMounted (s : Store) (garbage : Mem) (zsb : Superblock) (cpu : ℕ) : Type 0 where
  pub begins : Holds s.pmem.mem 0 (superblock_bytes garbage zsb)
  pub in_range : InRange zsb
  pub magic : zsb.magic ≡ zstore_magic
  pub region : s.pmem.log_region_ofst ≡ 4096 + cpu * 8192
  pub bitmap : s.pm_dy_bitmap_ofst ≡ zsb.pm_dy_bitmap_ofst
  pub onodes : s.onodes_rsv ≡ zsb.onodes_rsv
  pub table : s.pm_otable_ofst ≡ zsb.pm_otable_ofst
  pub space : s.pm_otable_ofst ≤ s.pm_dy_space_ofst
  pub entries : zsb.pm_nr_pages % 512 ≡ 0

module _ (s : Store) (unset : Mem) (zsb : Superblock) (cpu : ℕ)
    (mounted_at : IsMounted s unset zsb cpu) (garbage : Mem) (oid lba : ℕ) (a : Allocator)
    (laid : IsLaidOut s lba) (below : short_oid oid < s.onodes_rsv)
    (free : (old_onode s oid).valid ≡ false)
    (granted : alloc_space s.pm_allocator 1
      ≡ record { rc = ok; allocator = a; ex = record { lba = lba; len = 1 } ∷ [] }) where
  abbrev created : Onode
  created = record { valid = true; oid = short_oid oid; data_idx_id = lba % 2 ^ 32 }

  abbrev prepared : Pmem
  prepared = (tx_prepare true s garbage oid).store.pmem

  abbrev logged : List Entry
  logged = onode_log s (short_oid oid) created ∷ bitmap_log s a lba ∷ []

  module _ (tx : Transaction) (l : IsLog tx logged)
      (region : prepared.log_region_ofst ≡ s.pmem.log_region_ofst) where
    superblock_kept : (x : ℕ) → x < 4096 → (Pmem.apply prepared tx).0.mem x ≡ s.pmem.mem x
    superblock_kept x h =
        commit-before s prepared tx (short_oid oid) lba created a laid below region l x
          (omega (arith, h, region, mounted_at.region))
        ∙ create-before_space s garbage oid lba a below free granted x (
            omega (arith, h, laid.log_first, laid.then_bitmap, mounted_at.region, mounted_at.space))

    remounts :
        (trim can_unmap : Bool) (otable_addr : ℕ)
        → (trim && not can_unmap) ≡ false
        → mount (Pmem.apply prepared tx).0.mem cpu trim can_unmap otable_addr
          ≡ some (load zsb trim otable_addr (open_pmem (Pmem.apply prepared tx).0.mem cpu))
    unfolding open_pmem
    remounts trim can_unmap otable_addr flags =
        mount_lem (Pmem.apply prepared tx).0.mem unset zsb cpu trim can_unmap otable_addr
          mounted_at.in_range
          (Holds-Same s.pmem.mem (Pmem.apply prepared tx).0.mem 0 (superblock_bytes unset zsb)
            (λ x f u. superblock_kept x (omega (arith, u, length-superblock_bytes unset zsb)))
            mounted_at.begins)
          mounted_at.magic no_log flags
      where
        no_log : get64 (Pmem.apply prepared tx).0.mem (4096 + cpu * 8192) % 2 ≡ 0
        no_log =
            ap (λ o. get64 (Pmem.apply prepared tx).0.mem o % 2) (sym (region ∙ mounted_at.region))
            ∙ ap (λ w. w % 2)
                (commit-clears s prepared tx (short_oid oid) lba created a laid below region l)

-- A creation on a mounted store, in a memory that is laid out so, whose transaction has run to its
-- end, is found by the next mount on the same core: the object is in the table with its index
-- block, and the blocks of that bitmap entry are allocated as they were.
pub mount-create :
    (s : Store) (unset : Mem) (zsb : Superblock) (cpu : ℕ) (garbage : Mem) (oid lba : ℕ)
    (a : Allocator) (trim can_unmap : Bool) (otable_addr : ℕ)
    → IsMounted s unset zsb cpu
    → IsLaidOut s lba
    → short_oid oid < s.onodes_rsv
    → (old_onode s oid).valid ≡ false
    → alloc_space s.pm_allocator 1
      ≡ record { rc = ok; allocator = a; ex = record { lba = lba; len = 1 } ∷ [] }
    → lba / 512 * 8 + 8 ≤ length a.bs
    → AreWords a.bs
    → (trim && not can_unmap) ≡ false
    → let p = tx_prepare true s garbage oid in
      (tx : Tx) × (p.tx ≡ some tx)
      × (ds : DataStore) × (mount
            (Pmem.apply p.store.pmem tx.pm_tx_).0.mem
            cpu
            trim
            can_unmap
            otable_addr
          ≡ some ds)
      × (get_or ds.store.otable (short_oid oid) no_onode
          ≡ record { valid = true; oid = short_oid oid; data_idx_id = lba % 2 ^ 32 })
      × ((i : ℕ)
          → i / 512 ≡ lba / 512
          → i < zsb.pm_nr_pages
          → allocated ds.store.pm_allocator.bs i ≡ allocated a.bs i)
unfolding load mounted open_pmem
mount-create s unset zsb cpu garbage oid lba a trim can_unmap otable_addr at laid below free granted
      room words flags =
    let (logs, allocator, holes, region, table, tid) =
      create-Logs s garbage oid lba a below free granted in
    let made = (Pmem.apply (tx_prepare true s garbage oid).store.pmem logs.tx.pm_tx_).0.mem in
    let created : Onode = record {
      valid = true;
      oid = short_oid oid;
      data_idx_id = lba % 2 ^ 32;
    } in
    let (entry, bits) =
      commit-Holds s (tx_prepare true s garbage oid).store.pmem logs.tx.pm_tx_ (short_oid oid) lba
        created a laid below region logs.log in
    (
      logs.tx,
      logs.prepared,
      load zsb trim otable_addr (open_pmem made cpu),
      remounts s unset zsb cpu at garbage oid lba a laid below free granted logs.tx.pm_tx_ logs.log
          region trim can_unmap otable_addr flags,
      get_or-load_otable made zsb.pm_otable_ofst zsb.onodes_rsv (short_oid oid)
            (omega (arith, below, at.onodes))
          ∙ onode_at-onode_bytes made (zsb.pm_otable_ofst + 64 * short_oid oid) created
              (omega arith) (omega arith)
              (Holds-at made (onode_bytes created) (omega (arith, at.table)) entry),
      λ i here known.
          (load_allocator-IsValid made zsb.pm_dy_bitmap_ofst zsb.pm_nr_pages at.entries).2 i known
          ∙ entry_bit made zsb.pm_dy_bitmap_ofst (lba / 512) i a here room words (
              Holds-at made (words_bytes (take 8 (drop (lba / 512 * 8) a.bs)))
                (omega (arith, at.bitmap)) bits),
    )
