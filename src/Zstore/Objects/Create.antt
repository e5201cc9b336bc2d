-- ===== src/Zstore/Objects/Create.antt =====
-- A creation: which log it prepares, and what it changes at once.
use zcell.Base.{
  ℕ, zero, suc, ◌+◌, ◌*◌, ◌%◌, ◌^◌, ◌≤◌, ◌<◌, ◌≡◌, inr, refl, ap, ◌∙◌, true, false, List, [], ◌∷◌,
  some, get_or, length, arith, ltb, replicate,
}
use zcell.Status.{ok}
use zcell.Memory.{Mem, write, write_before}
use zcell.Allocator.{Extent, Allocator, alloc_space}
use zcell.Pmem
use zcell.Pmem.{Pmem, Entry, Transaction, apply, write_all}
use zcell.Pmem.Log.{IsLog, alloc-IsLog}
use zcell.Zstore.Engine.{Tx, fill_block}
use zcell.Zstore.Engine.Drain.{IsWrite}
use zcell.Zstore.Engine.Invariant.{IsPending}
use zcell.Zstore.Objects.{
  Onode, no_onode, Store, Prep, short_oid, onode_log, bitmap_log, bitmap_logs, log_changes, create,
  cre_del, tx_prepare, blank,
}
use zcell.Zstore.Objects.Log.{onode_log-IsShort, bitmap_logs-IsShort, add_all-IsLog, logs-fit}

-- The transaction of a preparation: a write transaction that waits for its turn, and whose log
-- has these entries.
pub record Logs (p : Prep) (tid : ℕ) (es : List Entry) : Type 0 where
  pub rc : p.rc ≡ ok
  pub tx : Tx
  pub prepared : p.tx ≡ some tx
  pub tid_given : tx.tid ≡ tid
  pub is_write : IsWrite tx
  pub pending : IsPending tx
  pub log : IsLog tx.pm_tx_ es

pub log_changes-Logs :
    (s : Store) (tid : ℕ) (garbage : Mem) (oid : ℕ) (n : Onode) (ze : List Extent)
    → length ze ≤ 1
    → Logs
        (log_changes s tid garbage oid n ze)
        tid
        (onode_log s oid n ∷ bitmap_logs s s.pm_allocator ze)
unfolding log_changes
log_changes-Logs s tid garbage oid n ze few = record {
  rc = refl;
  tx = _;
  prepared = refl;
  tid_given = refl;
  is_write = refl;
  pending = inr (refl, refl);
  log =
      add_all-IsLog (Pmem.alloc garbage) [] (onode_log s oid n ∷ bitmap_logs s s.pm_allocator ze)
        (alloc-IsLog garbage) (onode_log-IsShort s oid n, bitmap_logs-IsShort s s.pm_allocator ze)
        (logs-fit s oid n s.pm_allocator ze few);
}

-- The old table entry of an oid.
abbrev pub old_onode : Store → ℕ → Onode
old_onode s oid = get_or s.otable (short_oid oid) no_onode

-- The store once a tid is used, and once a block is granted too.
abbrev pub used : Store → Store
used s = record s { tid_max = (s.tid_max + 1) % 2 ^ 64 }

abbrev granted_store : Store → Allocator → ℕ → Store
granted_store s a lba = record s { pm_allocator = a; pmem = record s.pmem { mem = blank s lba } }

create_at :
    (s : Store) (tid : ℕ) (garbage : Mem) (oid : ℕ)
    → oid < s.onodes_rsv
    → (get_or s.otable oid no_onode).valid ≡ false
    → cre_del true s tid garbage oid ≡ create s tid garbage oid
unfolding cre_del
create_at s tid garbage oid below free =
    let known : ltb oid s.onodes_rsv ≡ true = ground arith in rw (known, free) refl

create-granted :
    (s : Store) (tid : ℕ) (garbage : Mem) (oid lba : ℕ) (a : Allocator)
    → alloc_space s.pm_allocator 1
      ≡ record { rc = ok; allocator = a; ex = record { lba = lba; len = 1 } ∷ [] }
    → create s tid garbage oid
      ≡ log_changes
          (granted_store s a lba)
          tid
          garbage
          oid
          (record { valid = true; oid = oid; data_idx_id = lba % 2 ^ 32 })
          (record { lba = lba; len = 1 } ∷ [])
unfolding create
create-granted s tid garbage oid lba a granted = rw granted refl

prepare-create :
    (s : Store) (garbage : Mem) (oid lba : ℕ) (a : Allocator)
    → short_oid oid < s.onodes_rsv
    → (old_onode s oid).valid ≡ false
    → alloc_space s.pm_allocator 1
      ≡ record { rc = ok; allocator = a; ex = record { lba = lba; len = 1 } ∷ [] }
    → tx_prepare true s garbage oid
      ≡ log_changes
          (granted_store (used s) a lba)
          s.tid_max
          garbage
          (short_oid oid)
          (record { valid = true; oid = short_oid oid; data_idx_id = lba % 2 ^ 32 })
          (record { lba = lba; len = 1 } ∷ [])
unfolding tx_prepare
prepare-create s garbage oid lba a below free granted =
    create_at (used s) s.tid_max garbage (short_oid oid) below free
    ∙ create-granted (used s) s.tid_max garbage (short_oid oid) lba a granted

pub write-replicate : (m : Mem) (n o v x : ℕ) → x < n → write m o (replicate n v) (o + x) ≡ v
unfolding write
write-replicate m zero o v x h = absurd (omega arith)
write-replicate m (suc n) o v zero h = ground arith
write-replicate m (suc n) o v (suc x) h =
    ground (arith, write-replicate m n (o + 1) v x (omega arith), shifted)
  where
    shifted :
        write m (o + 1) (replicate n v) (o + suc x) ≡ write m (o + 1) (replicate n v) (o + 1 + x)
    shifted = ap (write m (o + 1) (replicate n v)) (omega arith)

blank-hole :
    (s : Store) (lba x : ℕ) → x < 4096 → blank s lba (lba * 2 ^ 12 + s.pm_dy_space_ofst + x) ≡ 255
unfolding blank fill_block
blank-hole s lba x h = write-replicate s.pmem.mem 4096 (lba * 2 ^ 12 + s.pm_dy_space_ofst) 255 x h

-- For an oid below `onodes_rsv` whose table entry is not valid, where the allocator of index blocks
-- grants a block, a creation succeeds, and its transaction logs the valid table entry that
-- names the block, and the bitmap entry of the block as the allocator now has it. The block is filled
-- with 0xff in persistent memory at once, the table in main memory is left for the commit, and
-- a tid is used up.
pub create-Logs :
    (s : Store) (garbage : Mem) (oid lba : ℕ) (a : Allocator)
    → short_oid oid < s.onodes_rsv
    → (old_onode s oid).valid ≡ false
    → alloc_space s.pm_allocator 1
      ≡ record { rc = ok; allocator = a; ex = record { lba = lba; len = 1 } ∷ [] }
    → let p = tx_prepare true s garbage oid in
      let n : Onode = record { valid = true; oid = short_oid oid; data_idx_id = lba % 2 ^ 32 } in
      Logs p s.tid_max (onode_log s (short_oid oid) n ∷ bitmap_log s a lba ∷ [])
      × (p.store.pm_allocator ≡ a)
      × ((x : ℕ) → x < 4096 → p.store.pmem.mem (lba * 2 ^ 12 + s.pm_dy_space_ofst + x) ≡ 255)
      × (p.store.pmem.log_region_ofst ≡ s.pmem.log_region_ofst)
      × (p.store.otable ≡ s.otable)
      × (p.store.tid_max ≡ (s.tid_max + 1) % 2 ^ 64)
unfolding log_changes onode_log bitmap_log bitmap_logs
create-Logs s garbage oid lba a below free granted =
    rw (prepare-create s garbage oid lba a below free granted) (
      log_changes-Logs (granted_store (used s) a lba) s.tid_max garbage (short_oid oid)
          (record { valid = true; oid = short_oid oid; data_idx_id = lba % 2 ^ 32 })
          (record { lba = lba; len = 1 } ∷ []) (omega arith),
      refl,
      λ x h. blank-hole (used s) lba x h,
      refl,
      refl,
      refl,
    )

-- A creation leaves the memory before the index blocks as it is.
pub create-before_space :
    (s : Store) (garbage : Mem) (oid lba : ℕ) (a : Allocator)
    → short_oid oid < s.onodes_rsv
    → (old_onode s oid).valid ≡ false
    → alloc_space s.pm_allocator 1
      ≡ record { rc = ok; allocator = a; ex = record { lba = lba; len = 1 } ∷ [] }
    → (x : ℕ) → x < s.pm_dy_space_ofst
    → (tx_prepare true s garbage oid).store.pmem.mem x ≡ s.pmem.mem x
unfolding log_changes blank fill_block
create-before_space s garbage oid lba a below free granted x h =
    ap (λ p. p.store.pmem.mem x) (prepare-create s garbage oid lba a below free granted)
    ∙ write_before s.pmem.mem (lba * 2 ^ 12 + s.pm_dy_space_ofst) (replicate 4096 255) x
        (omega (arith, h))
