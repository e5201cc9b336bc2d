-- ===== src/Zstore/Objects/Commit.antt =====
-- A creation from its preparation to its commit: what the persistent memory holds then.
use zcell.Base.{
  ℕ, ◌+◌, ◌*◌, ◌/◌, ◌%◌, ◌^◌, ◌≤◌, ◌<◌, ◌≡◌, ◌∙◌, inl, inr, true, false, List, [], ◌∷◌, some, take,
  drop, All, arith,
}
use zcell.Status.{ok}
use zcell.Memory.{Mem, Holds, Holds-write, Holds-Same, write, write_before, write_after, get64}
use zcell.Allocator.{Allocator, alloc_space}
use zcell.Pmem
use zcell.Pmem.{Pmem, Entry, Transaction, write_all}
use zcell.Pmem.Log.{IsLog, Fits, log_length}
use zcell.Pmem.Apply.{Outside, apply_writes}
use zcell.Zstore.Engine.{Tx}
use zcell.Zstore.Objects.{
  Onode, Store, short_oid, onode_bytes, words_bytes, onode_log, bitmap_log, tx_prepare,
}
use zcell.Zstore.Objects.Log.{length-onode_bytes, length-words_bytes}
use zcell.Zstore.Objects.Create.{old_onode, create-Logs}

-- The regions follow each other as `zstore_mkfs` lays them out: the log, the bitmap of the index
-- blocks with the entry of `lba`, and the table; addresses have 64 bits.
pub record IsLaidOut (s : Store) (lba : ℕ) : Type 0 where
  pub log_first : s.pmem.log_region_ofst + 8192 ≤ s.pm_dy_bitmap_ofst
  pub then_bitmap : s.pm_dy_bitmap_ofst + 64 * (lba / 512 + 1) ≤ s.pm_otable_ofst
  pub table_end : s.pm_otable_ofst + 64 * s.onodes_rsv < 2 ^ 64
  pub table_in_memory : s.otable_addr + 64 * s.onodes_rsv < 2 ^ 64

module _ (s : Store) (p : Pmem) (tx : Transaction) (oid lba : ℕ) (n : Onode) (a : Allocator)
    (laid : IsLaidOut s lba) (known : oid < s.onodes_rsv)
    (same : p.log_region_ofst ≡ s.pmem.log_region_ofst)
    (l : IsLog tx (onode_log s oid n ∷ bitmap_log s a lba ∷ [])) where
  logs-Fits : All Fits (onode_log s oid n ∷ bitmap_log s a lba ∷ [])
  unfolding onode_log bitmap_log
  logs-Fits = (
    record {
      paddr_fits = omega (arith, known, laid.table_in_memory);
      ofst_fits = omega (arith, known, laid.table_end);
      length_fits = omega (arith, length-onode_bytes n);
    },
    (
      record {
        paddr_fits = omega arith;
        ofst_fits = omega (arith, laid.then_bitmap, laid.table_end);
        length_fits = omega (arith, length-words_bytes 8 (drop (lba / 512 * 8) a.bs));
      },
      tt,
    ),
  )

  log_end : tx.align_length ≤ 176
  unfolding onode_log bitmap_log log_length
  log_end =
      omega (arith, l.bytes, length-onode_bytes n, length-words_bytes 8 (drop (lba / 512 * 8) a.bs))

  behind-Outside : (x : ℕ) → s.pm_dy_bitmap_ofst ≤ x → Outside p tx x
  behind-Outside x h = inr (omega (arith, log_end, laid.log_first, same, h))

  commit_at :
      (o : ℕ) (bs : List ℕ)
      → s.pm_dy_bitmap_ofst ≤ o
      → Holds (write_all p.mem (onode_log s oid n ∷ bitmap_log s a lba ∷ [])) o bs
      → Holds (Pmem.apply p tx).0.mem o bs
  commit_at o bs above h =
      Holds-Same _ (Pmem.apply p tx).0.mem o bs
        (λ x f u.
          (apply_writes p tx (onode_log s oid n ∷ bitmap_log s a lba ∷ []) l logs-Fits).0 x
            (behind-Outside x (omega (arith, above, f))))
        h

  pub commit-Holds :
      Holds (Pmem.apply p tx).0.mem (s.pm_otable_ofst + 64 * oid) (onode_bytes n)
      × Holds
          (Pmem.apply p tx).0.mem
          (s.pm_dy_bitmap_ofst + 64 * (lba / 512))
          (words_bytes (take 8 (drop (lba / 512 * 8) a.bs)))
  unfolding write_all onode_log bitmap_log
  commit-Holds = (
    commit_at o_table (onode_bytes n) (omega (arith, laid.then_bitmap)) (
        Holds-Same with_table (write with_table o_bitmap new_bits) o_table (onode_bytes n)
          (λ x f u.
            write_after with_table o_bitmap new_bits x (
              omega (arith, f, laid.then_bitmap, length-words_bytes 8 (drop (lba / 512 * 8) a.bs))))
          (Holds-write p.mem o_table (onode_bytes n))),
    commit_at o_bitmap new_bits (omega arith) (Holds-write with_table o_bitmap new_bits),
  )
    where
      o_table : ℕ
      o_table = s.pm_otable_ofst + 64 * oid

      o_bitmap : ℕ
      o_bitmap = s.pm_dy_bitmap_ofst + 64 * (lba / 512)

      new_bits : List ℕ
      new_bits = words_bytes (take 8 (drop (lba / 512 * 8) a.bs))

      with_table : Mem
      with_table = write p.mem o_table (onode_bytes n)

  -- Before the log nothing changes, and the log is cleared.
  pub commit-before : (x : ℕ) → x < p.log_region_ofst → (Pmem.apply p tx).0.mem x ≡ p.mem x
  unfolding write_all onode_log bitmap_log
  commit-before x h =
      (apply_writes p tx (onode_log s oid n ∷ bitmap_log s a lba ∷ []) l logs-Fits).0 x (inl h)
      ∙ write_before (write p.mem (s.pm_otable_ofst + 64 * oid) (onode_bytes n))
          (s.pm_dy_bitmap_ofst + 64 * (lba / 512))
          (words_bytes (take 8 (drop (lba / 512 * 8) a.bs))) x
          (omega (arith, h, laid.log_first, same))
      ∙ write_before p.mem (s.pm_otable_ofst + 64 * oid) (onode_bytes n) x
          (omega (arith, h, laid.log_first, laid.then_bitmap, same))

  pub commit-clears : get64 (Pmem.apply p tx).0.mem p.log_region_ofst ≡ 0
  commit-clears = (apply_writes p tx (onode_log s oid n ∷ bitmap_log s a lba ∷ []) l logs-Fits).1

-- Where a creation succeeds on a memory that is laid out so, it prepares a transaction whose commit
-- leaves in persistent memory a valid table entry for the oid that names the granted block, and the
-- bitmap entry of that block as the allocator has it.
pub create_commits :
    (s : Store) (garbage : Mem) (oid lba : ℕ) (a : Allocator)
    → short_oid oid < s.onodes_rsv
    → (old_onode s oid).valid ≡ false
    → alloc_space s.pm_allocator 1
      ≡ record { rc = ok; allocator = a; ex = record { lba = lba; len = 1 } ∷ [] }
    → IsLaidOut s lba
    → let p = tx_prepare true s garbage oid in
      let n : Onode = record { valid = true; oid = short_oid oid; data_idx_id = lba % 2 ^ 32 } in
      (tx : Tx) × (p.tx ≡ some tx)
      × Holds
          (Pmem.apply p.store.pmem tx.pm_tx_).0.mem
          (s.pm_otable_ofst + 64 * short_oid oid)
          (onode_bytes n)
      × Holds
          (Pmem.apply p.store.pmem tx.pm_tx_).0.mem
          (s.pm_dy_bitmap_ofst + 64 * (lba / 512))
          (words_bytes (take 8 (drop (lba / 512 * 8) a.bs)))
create_commits s garbage oid lba a below free granted laid =
    let (logs, allocator, holes, region, table, tid) =
      create-Logs s garbage oid lba a below free granted in
    let (entry, bits) =
      commit-Holds s (tx_prepare true s garbage oid).store.pmem logs.tx.pm_tx_ (short_oid oid) lba
        (record { valid = true; oid = short_oid oid; data_idx_id = lba % 2 ^ 32 }) a laid below
        region logs.log in
    (logs.tx, logs.prepared, entry, bits)
