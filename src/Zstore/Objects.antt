-- ===== src/Zstore/Objects.antt =====
-- Creating and deleting an object: `_tx_prep_cre_del_common` of zstore.c, and the fields that
-- `zstore_tx_prepare` fills for it.
-- The structures stay in main memory: `otable` is the object table there, at `otable_addr`. A delete
-- of an oid that has no table entry reads through NULL for a debug message, which is left out.
pub mod Log
pub mod Create
pub mod Refuse
pub mod Delete
pub mod Commit
pub mod Tests
use zcell.Base.{
  ℕ, zero, suc, ◌+◌, ◌*◌, ◌/◌, ◌%◌, ◌^◌, Bool, true, false, List, [], ◌∷◌, ◌++◌, Option, none, some,
  get_or, take, drop, replicate, ltb, if◌then◌else◌, not, ◌&&◌, ◌||◌,
}
use zcell.Status.{Rc, minus_one, status, success, no_node, ok}
use zcell.Memory.{Mem, write, le64}
use zcell.Allocator.{Extent, Allocator, alloc_space, free_space}
use zcell.Pmem
use zcell.Pmem.{Pmem, Entry, Transaction, add}
use zcell.Zstore.Engine.{Tx, tx_write, pm_tx, fill_block}

-- `union otable_entry_t`
pub record Onode : Type 0 where
  pub valid : Bool
  pub oid : ℕ
  pub data_idx_id : ℕ

-- The part of `struct zstore_context_t` and of its superblock that these operations use.
pub record Store : Type 0 where
  pub pmem : Pmem
  pub pm_dy_bitmap_ofst : ℕ
  pub onodes_rsv : ℕ
  pub pm_otable_ofst : ℕ
  pub pm_dy_space_ofst : ℕ
  pub pm_allocator : Allocator
  pub otable : List Onode
  pub otable_addr : ℕ
  pub tid_max : ℕ

abbrev pub no_onode : Onode
no_onode = record { valid = false; oid = 0; data_idx_id = 0 }

-- `((oid) << 16) >> 16`
abbrev pub short_oid : ℕ → ℕ
short_oid oid = oid % 2 ^ 48

-- The 64 bytes of a table entry: bit fields of one word, a reserved and the index field of the next. The
-- reserved bits, and the 48 bytes behind the fields, are 0: mkfs and a creation or deletion make
-- them so, and a write, which logs the bytes of the entry in the table, leaves them so.
unfoldable pub onode_bytes : Onode → List ℕ
onode_bytes n =
    le64 ((if n.valid then 1 else 0) + n.oid * 2 ^ 16)
    ++ (le64 (n.data_idx_id * 2 ^ 32) ++ replicate 48 0)

-- The bytes of one `struct stupid_bitmap_entry_t`.
unfoldable pub words_bytes : List ℕ → List ℕ
words_bytes [] = []
words_bytes (w ∷ ws) = le64 w ++ words_bytes ws

unfoldable pub onode_log : Store → ℕ → Onode → Entry
onode_log s oid n = record {
  paddr = s.otable_addr + oid * 64;
  ofst = s.pm_otable_ofst + 64 * oid;
  value = onode_bytes n;
}

pub bitmap_log : Store → Allocator → ℕ → Entry
bitmap_log s a lba = record {
  paddr = 0;
  ofst = s.pm_dy_bitmap_ofst + 64 * (lba / 512);
  value = words_bytes (take 8 (drop (lba / 512 * 8) a.bs));
}

pub bitmap_logs : Store → Allocator → List Extent → List Entry
bitmap_logs s a [] = []
bitmap_logs s a (e ∷ es) = bitmap_log s a e.lba ∷ bitmap_logs s a es

-- The results of `pmem_transaction_add` are not looked at.
unfoldable pub add_all : Transaction → List Entry → Transaction
add_all tx [] = tx
add_all tx (e ∷ es) = add_all (add tx e).1 es

-- `zstore_tx_prepare` and what it calls give a status, the store, and, with status 0, the
-- transaction.
pub record Prep : Type 0 where
  pub rc : Rc
  pub store : Store
  pub tx : Option Tx

abbrev pub first_lba : List Extent → ℕ
first_lba [] = 0
first_lba (e ∷ es) = e.lba

-- The end of `_tx_prep_cre_del_common`, with the new table entry and the extents `ze`; `garbage` is
-- what `malloc` leaves in the transaction.
pub log_changes : Store → ℕ → Mem → ℕ → Onode → List Extent → Prep
log_changes s tid garbage oid n ze = record {
  rc = ok;
  store = s;
  tx = some (record {
    tid = tid;
    tx_type = tx_write;
    tx_sync = true;
    state = pm_tx;
    err = success;
    bio_outstanding = 0;
    data_buffer = 0;
    bios = [];
    pm_tx_ = add_all (Pmem.alloc garbage) (onode_log s oid n ∷ bitmap_logs s s.pm_allocator ze);
  });
}

abbrev pub failed : Store → Prep
failed s = record { rc = status no_node; store = s; tx = none }

abbrev pub is_ok : Rc → Bool
is_ok minus_one = false
is_ok (status success) = true
is_ok (status _) = false

-- The index block of a new object, filled with holes.
pub blank : Store → ℕ → Mem
blank s lba = fill_block s.pmem.mem (lba * 2 ^ 12 + s.pm_dy_space_ofst)

pub create : Store → ℕ → Mem → ℕ → Prep
create s tid garbage oid =
    let r = alloc_space s.pm_allocator 1 in
    let s' : Store = record s { pm_allocator = r.allocator } in
    let lba = first_lba r.ex in
    if is_ok r.rc
    then log_changes (record s' { pmem = record s.pmem { mem = blank s lba } }) tid garbage oid
        (record { valid = true; oid = oid; data_idx_id = lba % 2 ^ 32 }) r.ex
    else failed s'

-- A delete leaves `ze_nr` at 0.
pub delete : Store → ℕ → Mem → ℕ → Prep
delete s tid garbage oid =
    let old = get_or s.otable oid no_onode in
    log_changes
      (record s {
        pm_allocator = free_space s.pm_allocator (record { lba = old.data_idx_id; len = 1 } ∷ []);
      })
      tid garbage oid no_onode []

-- `_tx_prep_cre_del_common`
pub cre_del : Bool → Store → ℕ → Mem → ℕ → Prep
cre_del is_create s tid garbage oid =
    let old = get_or s.otable oid no_onode in
    if ltb oid s.onodes_rsv
    then (if not old.valid && is_create
        then create s tid garbage oid
        else if old.valid && not is_create
        then delete s tid garbage oid
        else failed s)
    else failed s

-- `zstore_tx_prepare` for `msg_oss_op_create` and `msg_oss_op_delete`: a tid is used up whatever the
-- outcome.
pub tx_prepare : Bool → Store → Mem → ℕ → Prep
tx_prepare is_create s garbage oid =
    cre_del is_create (record s { tid_max = (s.tid_max + 1) % 2 ^ 64 }) s.tid_max garbage
      (short_oid oid)
