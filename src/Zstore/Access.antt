-- ===== src/Zstore/Access.antt =====
-- Reading and writing an object: `_tx_prep_rw_common` and `object_lba_range_get` of zstore.c.
-- A failed assertion, or an access past the end of a local array, is `none`: the arrays have 32
-- elements. So is a write with ZSTORE_ENBALE_TRIM over mapped blocks, which reads elements of `e`
-- that were not set.
pub mod Few
pub mod Index
pub mod Read
pub mod ReadBack
pub mod Refuse
pub mod Write
mod Tests
use zcell.Base.{
  ℕ, zero, suc, ◌+◌, ◌*◌, ◌/◌, ◌%◌, ◌^◌, Bool, true, false, not, List, [], ◌∷◌, ◌++◌, Option, none,
  some, length, map, get_or, take, drop, ltb, ◌==◌, if◌then◌else◌, ◌&&◌, ◌||◌,
}
use zcell.Status.{Rc, status, success, invalid_op, no_node, read_hole, write_out_max_size, ok}
use zcell.Memory.{Mem, read}
use zcell.Message.Wire.{le, of_le}
use zcell.Allocator.{Extent, Allocator, alloc_space, free_space}
use zcell.Pmem
use zcell.Pmem.{Pmem, Entry, Transaction, add}
use zcell.Zstore.Engine.{Tx, Bio, IoType, io_read, io_write, tx_rdonly, tx_write, data_io}
use zcell.Zstore.Extents.{hole, lba_merge_to, lba_to_bitmap_id}
use zcell.Zstore.Objects.{Store, Onode, no_onode, onode_log, words_bytes, add_all, is_ok}

-- The store, with what only reads and writes use: the allocator of the device, the place of its
-- bitmap, and the flag ZSTORE_ENBALE_TRIM.
pub record DataStore : Type 0 where
  pub store : Store
  pub ssd_allocator : Allocator
  pub pm_ssd_bitmap_ofst : ℕ
  pub trim : Bool

-- `ZSTORE_TX_IOV_MAX`
abbrev pub iov_max : ℕ
iov_max = 32

-- `object_data_index_block`
pub data_index_block : Store → Onode → ℕ
data_index_block s oe = s.pm_dy_space_ofst + oe.data_idx_id * 2 ^ 12

-- The `n` index entries from an address on.
pub read_index : Mem → ℕ → ℕ → List ℕ
read_index mem addr zero = []
read_index mem addr (suc n) = of_le (read mem addr 4) ∷ read_index mem (addr + 4) n

-- `object_lba_range_get`: the extents of the entries, and how many are mapped. For a read, a hole is
-- taken for block 0.
pub lba_range_get : DataStore → Bool → Onode → ℕ → ℕ → List Extent × ℕ
lba_range_get zs is_write oe bofst blen = lba_merge_to (
    map (λ b. if (b == hole) && not is_write then 0 else b)
      (read_index zs.store.pmem.mem (data_index_block zs.store oe + bofst * 4) blen))

-- The request for an extent; its fields have 32 bits.
abbrev pub bio : IoType → Extent → Bio
bio io e = record { io_type = io; blk_ofst = e.lba % 2 ^ 32; blk_len = e.len % 2 ^ 32 }

-- The blocks of extents, as they are put into the index.
pub index_run : ℕ → ℕ → List ℕ
index_run lba zero = []
index_run lba (suc k) = lba % 2 ^ 32 ∷ index_run (lba + 1) k

pub index_of : List Extent → List ℕ
index_of [] = []
index_of (e ∷ es) = index_run e.lba e.len ++ index_of es

-- The bytes of index entries.
pub index_bytes : List ℕ → List ℕ
index_bytes [] = []
index_bytes (b ∷ bs) = le 4 b ++ index_bytes bs

-- The log entry for one entry of the device's bitmap.
pub ssd_bitmap_log : DataStore → ℕ → Entry
ssd_bitmap_log zs bid = record {
  paddr = 0;
  ofst = zs.pm_ssd_bitmap_ofst + 64 * bid;
  value = words_bytes (take 8 (drop (bid * 8) zs.ssd_allocator.bs));
}

-- The log entry for the index entries of a write.
pub index_log : Store → Onode → ℕ → List Extent → Entry
index_log s oe bofst enew = record {
  paddr = 0;
  ofst = data_index_block s oe + bofst * 4;
  value = index_bytes (index_of enew);
}

-- The two loops that log the bitmap stop at an entry that has no room.
pub add_checked : Transaction → List Entry → Option Transaction
add_checked tx [] = some tx
add_checked tx (e ∷ es) =
    let (fits, tx') = add tx e in let rest = add_checked tx' es in if fits then rest else none

pub record RwPrep : Type 0 where
  pub rc : Rc
  pub store : DataStore
  pub tx : Option Tx

abbrev pub refuse : Rc → DataStore → Option RwPrep
refuse rc zs = some (record { rc = rc; store = zs; tx = none })

-- The branch of a read.
pub prep_read : DataStore → ℕ → Transaction → Onode → ℕ → ℕ → ℕ → Option RwPrep
prep_read zs tid unset oe bofst blen data_buffer =
    let (e, mapped_blen) = lba_range_get zs false oe bofst blen in
    if (length e == 0) || not (blen == mapped_blen)
    then refuse (status read_hole) zs
    else some (record {
      rc = ok;
      store = zs;
      tx = some (record {
        tid = tid;
        tx_type = tx_rdonly;
        tx_sync = false;
        state = data_io;
        err = success;
        bio_outstanding = length e;
        data_buffer = data_buffer;
        bios = map (bio io_read) e;
        pm_tx_ = unset;
      });
    })

-- The end of a write, with the new extents: the log of the bitmap entries of the old and of the new
-- extents, the index entries, and the table entry.
pub log_write :
    DataStore → ℕ → Mem → ℕ → Onode → ℕ → ℕ → ℕ → List Extent → List Extent → Option RwPrep
log_write zs tid garbage oid oe bofst blen data_buffer e enew =
    let ids = lba_to_bitmap_id e ++ lba_to_bitmap_id enew in
    if length (index_of enew) == blen
    then elim (add_checked (Pmem.alloc garbage) (map (ssd_bitmap_log zs) ids)) [
      | none ↦ refuse (status invalid_op) zs
      | some pm_tx ↦ some (record {
        rc = ok;
        store = zs;
        tx = some (record {
          tid = tid;
          tx_type = tx_write;
          tx_sync = false;
          state = data_io;
          err = success;
          bio_outstanding = length enew;
          data_buffer = data_buffer;
          bios = map (bio io_write) enew;
          pm_tx_ =
              add_all pm_tx (index_log zs.store oe bofst enew ∷ onode_log zs.store oid oe ∷ []);
        });
      })
    ]
    else none

-- The branch of a write: the old extents are freed before the new ones are allocated.
pub prep_write : DataStore → ℕ → Mem → ℕ → Onode → ℕ → ℕ → ℕ → Option RwPrep
prep_write zs tid garbage oid oe bofst blen data_buffer =
    let e = (lba_range_get zs true oe bofst blen).0 in
    let freed = if length e == 0 then zs.ssd_allocator else free_space zs.ssd_allocator e in
    let r = alloc_space freed blen in
    let zs' = record zs { ssd_allocator = r.allocator } in
    let logged = log_write zs' tid garbage oid oe bofst blen data_buffer e r.ex in
    if is_ok r.rc then if zs.trim && not (length e == 0) then none else logged else refuse r.rc zs'

-- `_tx_prep_rw_common`, for `msg_oss_op_write` and `msg_oss_op_read`; `unset` is the field `pm_tx_` of
-- a read, which is not used.
pub prep_rw : Bool → DataStore → ℕ → Mem → Transaction → ℕ → ℕ → ℕ → ℕ → Option RwPrep
prep_rw is_write zs tid garbage unset oid op_ofst op_len data_buffer =
    let oe = get_or zs.store.otable oid no_onode in
    let bofst = op_ofst / 2 ^ 12 in
    let blen = op_len / 2 ^ 12 in
    if (op_len == 0) || not (op_len % 2 ^ 12 == 0) || not (op_ofst % 2 ^ 12 == 0)
    then refuse (status invalid_op) zs
    else if not (ltb oid zs.store.onodes_rsv)
    then refuse (status no_node) zs
    else if ltb iov_max blen
    then none
    else if not is_write
    then prep_read zs tid unset oe bofst blen data_buffer
    else if ltb (2 ^ 22) ((op_ofst + op_len) % 2 ^ 64)
    then refuse (status write_out_max_size) zs
    else prep_write zs tid garbage oid oe bofst blen data_buffer
