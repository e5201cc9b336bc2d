-- ===== src/Zstore/Access/Write.antt =====
-- What a write asks the device for and logs, and what is refused.
use zcell.Base.{
  ℕ, ◌+◌, ◌*◌, ◌/◌, ◌%◌, ◌^◌, ◌≤◌, ◌≡◌, refl, ap, ◌∙◌, true, false, not, List, [], ◌∷◌, ◌++◌, map,
  length, get_or, some, drop, if◌then◌else◌, ltb, ◌==◌, ==_iff, ◌&&◌, leb, arith, subst, All,
}
use zcell.Status.{ok, success}
use zcell.Memory.{Mem, write}
use zcell.Pmem
use zcell.Pmem.{Transaction, Entry, add, log_region_size, buffer_size, entry_size}
use zcell.Zstore.Objects.Log.{
  IsShort, length-words_bytes, add_all-IsLog, onode_log-IsShort, log_length-split,
}
use mathlib.Core.List.{append_assoc}
use zcell.Pmem.Log.{IsLog, log_length, alloc-IsLog, add_appends}
use zcell.Allocator.{Extent, Allocator, alloc_space, free_space, total_len}
use zcell.Allocator.Laws.{IsValid, alloc_space-Granted}
use zcell.Zstore.Engine.{Tx, io_write, tx_write, data_io}
use zcell.Zstore.Extents.{lba_to_bitmap_id}
use zcell.Zstore.Objects.{no_onode, onode_log, add_all, is_ok}
use zcell.Zstore.Access.{
  DataStore, lba_range_get, index_of, index_log, ssd_bitmap_log, add_checked, bio, log_write,
  prep_write, prep_rw,
}
use zcell.Zstore.Access.Read.{Proper}
use zcell.Zstore.Access.Few.{few_entries}
use zcell.Zstore.Access.Index.{length-index_of, length-index_bytes}

-- The extents that a write replaces.
abbrev pub replaced : DataStore → ℕ → ℕ → ℕ → List Extent
replaced zs oid op_ofst op_len =
    (lba_range_get zs true (get_or zs.store.otable oid no_onode) (op_ofst / 2 ^ 12)
      (op_len / 2 ^ 12)).0

-- The allocator once they are freed.
abbrev pub freed : DataStore → ℕ → ℕ → ℕ → Allocator
freed zs oid op_ofst op_len =
    let e = replaced zs oid op_ofst op_len in
    if length e == 0 then zs.ssd_allocator else free_space zs.ssd_allocator e

pub ssd_bitmap_log-IsShort : (zs : DataStore) (id : ℕ) → IsShort (ssd_bitmap_log zs id)
unfolding ssd_bitmap_log
ssd_bitmap_log-IsShort zs id = length-words_bytes 8 (drop (id * 8) zs.ssd_allocator.bs)

-- The transaction once an entry is in its log.
abbrev with_entry : Transaction → Entry → Transaction
with_entry tx e = record tx {
  le = write tx.le tx.align_length (Pmem.entry_bytes e);
  nr_logs = (tx.nr_logs + 1) % 2 ^ 16;
  align_length = (tx.align_length + (entry_size + length e.value)) % 2 ^ 32;
  in_bounds =
      tx.in_bounds && leb ((tx.align_length + (entry_size + length e.value)) % 2 ^ 32) buffer_size;
}

add-fits :
    (tx : Transaction) (e : Entry)
    → tx.align_length + (entry_size + length e.value) ≤ log_region_size
    → add tx e ≡ (true, with_entry tx e)
unfolding add
add-fits tx e room =
    let room_here : ltb log_region_size ((tx.align_length + (entry_size + length e.value)) % 2 ^ 32)
        ≡ false =
      ground (arith, room) in
    rw (room_here, add) refl

-- Entries of 64 bytes have room in a log as long as it has 88 bytes for each.
add_checked-fits :
    (entry : ℕ → Entry) (tx : Transaction) (ids : List ℕ)
    → ((id : ℕ) → IsShort (entry id))
    → tx.align_length + 88 * length ids ≤ log_region_size
    → add_checked tx (map entry ids) ≡ some (add_all tx (map entry ids))
unfolding add_checked add_all
add_checked-fits entry tx [] short room = refl
add_checked-fits entry tx (id ∷ ids) short room =
    rw (add-fits tx (entry id) (omega (arith, room, short id)), add_checked, add_all)
      (add_checked-fits entry (with_entry tx (entry id)) ids short (omega (arith, room, short id)))

pub log_length-map :
    (entry : ℕ → Entry) (ids : List ℕ)
    → ((id : ℕ) → IsShort (entry id))
    → log_length (map entry ids) ≤ 88 * length ids
unfolding log_length
log_length-map entry [] short = omega arith
log_length-map entry (id ∷ ids) short = omega (arith, log_length-map entry ids short, short id)

All-map :
    (entry : ℕ → Entry) (ids : List ℕ)
    → ((id : ℕ) → IsShort (entry id))
    → All IsShort (map entry ids)
All-map entry [] short = tt
All-map entry (id ∷ ids) short = (short id, All-map entry ids short)

-- The log of short entries and of the two that follow them, if there is room for all.
add_all-two :
    (garbage : Mem) (es : List Entry) (x y : Entry)
    → All IsShort es
    → log_length es + (entry_size + length x.value) + (entry_size + length y.value) ≤ buffer_size
    → IsLog (add_all (add_all (Pmem.alloc garbage) es) (x ∷ y ∷ [])) (es ++ x ∷ y ∷ [])
unfolding add_all log_length
add_all-two garbage es x y short room =
    let one : IsLog (add_all (Pmem.alloc garbage) es) es =
      add_all-IsLog (Pmem.alloc garbage) [] es (alloc-IsLog garbage) short (omega (arith, room)) in
    let two =
      ((add_appends (add_all (Pmem.alloc garbage) es) es x one (omega (arith, room))
          (omega (arith, room))).0
        (omega (arith, room))).1 in
    let sum : log_length (es ++ x ∷ []) ≡ log_length es + (entry_size + length x.value) =
      omega (arith, log_length-split es (x ∷ [])) in
    let three =
      ((add_appends (add (add_all (Pmem.alloc garbage) es) x).1 (es ++ x ∷ []) y two
          (omega (arith, room, sum)) (omega (arith, room))).0
        (omega (arith, room, sum))).1 in
    subst (IsLog (add_all (add_all (Pmem.alloc garbage) es) (x ∷ y ∷ [])))
      (append_assoc es (x ∷ []) (y ∷ [])) three

-- The entries that a write logs, with the allocator as it leaves it: the bitmap entries of the replaced
-- and of the granted extents, the index entries, and the table entry.
abbrev pub write_logs : DataStore → ℕ → ℕ → List Extent → List Extent → List Entry
write_logs zs oid op_ofst e enew =
    let oe = get_or zs.store.otable oid no_onode in
    map (ssd_bitmap_log zs) (lba_to_bitmap_id e ++ lba_to_bitmap_id enew)
    ++ index_log zs.store oe (op_ofst / 2 ^ 12) enew ∷ onode_log zs.store oid oe ∷ []

-- A proper write within 4 MiB, without the flag for trimming, on an allocator that is valid and
-- grants the blocks once the replaced extents are freed: it becomes a write transaction with one
-- request for each granted extent, its place and length as 32-bit numbers, and these are as many
-- blocks as the write has; the log has exactly the bitmap entries, as the allocator has them now,
-- the index entries, as many as blocks, and the table entry; and as many blocks fewer are free.
pub prep_rw-Writes :
    (zs : DataStore) (tid : ℕ) (garbage : Mem) (unset : Transaction)
    (oid op_ofst op_len data_buffer : ℕ)
    → Proper zs oid op_ofst op_len
    → op_ofst + op_len ≤ 2 ^ 22
    → zs.trim ≡ false
    → IsValid (freed zs oid op_ofst op_len)
    → (alloc_space (freed zs oid op_ofst op_len) (op_len / 2 ^ 12)).rc ≡ ok
    → let r = alloc_space (freed zs oid op_ofst op_len) (op_len / 2 ^ 12) in
      let zs' = record zs { ssd_allocator = r.allocator } in
      (tx : Tx) × (prep_rw true zs tid garbage unset oid op_ofst op_len data_buffer
        ≡ some (record { rc = ok; store = zs'; tx = some tx }))
      × (tx.bios ≡ map (bio io_write) r.ex)
      × (tx.bio_outstanding ≡ length r.ex)
      × (total_len r.ex ≡ op_len / 2 ^ 12)
      × (length (index_of r.ex) ≡ op_len / 2 ^ 12)
      × IsLog tx.pm_tx_ (write_logs zs' oid op_ofst (replaced zs oid op_ofst op_len) r.ex)
      × (r.allocator.nr_free + op_len / 2 ^ 12 ≡ (freed zs oid op_ofst op_len).nr_free)
unfolding prep_rw prep_write log_write Pmem.alloc index_log
prep_rw-Writes zs tid garbage unset oid op_ofst op_len data_buffer p within no_trim valid granted =
    let blen = op_len / 2 ^ 12 in
    let oe = get_or zs.store.otable oid no_onode in
    let r = alloc_space (freed zs oid op_ofst op_len) blen in
    let g =
      (alloc_space-Granted (freed zs oid op_ofst op_len) blen valid
        (omega (arith, p.some_len, p.len_blocks)) granted).0 in
    let count : length (index_of r.ex) ≡ blen = length-index_of r.ex ∙ g.lengths in
    let few_ids =
      few_entries zs true oe (op_ofst / 2 ^ 12) blen (freed zs oid op_ofst op_len) g.lengths in
    let counted : (length (index_of r.ex) == blen) ≡ true =
      (==_iff (length (index_of r.ex)) blen).1 count in
    let a : (op_len == 0) ≡ false = ground (arith, p.some_len) in
    let b : (op_len % 2 ^ 12 == 0) ≡ true = (==_iff (op_len % 2 ^ 12) 0).1 p.len_blocks in
    let c : (op_ofst % 2 ^ 12 == 0) ≡ true = (==_iff (op_ofst % 2 ^ 12) 0).1 p.ofst_blocks in
    let d : ltb oid zs.store.onodes_rsv ≡ true = ground (arith, p.known) in
    let e : ltb 32 blen ≡ false = ground (arith, p.few) in
    let f : ltb (2 ^ 22) ((op_ofst + op_len) % 2 ^ 64) ≡ false = ground (arith, within) in
    let skip : (zs.trim && not (length (replaced zs oid op_ofst op_len) == 0)) ≡ false =
      ap (λ t. t && not (length (replaced zs oid op_ofst op_len) == 0)) no_trim in
    let fine : is_ok r.rc ≡ true = rw granted refl in
    let zs' = record zs { ssd_allocator = r.allocator } in
    let ids = lba_to_bitmap_id (replaced zs oid op_ofst op_len) ++ lba_to_bitmap_id r.ex in
    let short = ssd_bitmap_log-IsShort zs' in
    let fits =
      add_checked-fits (ssd_bitmap_log zs') (Pmem.alloc garbage) ids short
        (omega (arith, few_ids, p.few)) in
    let pm_tx = add_all (Pmem.alloc garbage) (map (ssd_bitmap_log zs') ids) in
    let logged =
      add_all-two garbage (map (ssd_bitmap_log zs') ids)
        (index_log zs.store oe (op_ofst / 2 ^ 12) r.ex) (onode_log zs.store oid oe)
        (All-map (ssd_bitmap_log zs') ids short)
        (omega (
          arith,
          few_ids,
          log_length-map (ssd_bitmap_log zs') ids short,
          length-index_bytes (index_of r.ex),
          count,
          p.few,
          onode_log-IsShort zs.store oid oe,
        )) in
    (
      record {
        tid = tid;
        tx_type = tx_write;
        tx_sync = false;
        state = data_io;
        err = success;
        bio_outstanding = length r.ex;
        data_buffer = data_buffer;
        bios = map (bio io_write) r.ex;
        pm_tx_ =
            add_all pm_tx
              (index_log zs.store oe (op_ofst / 2 ^ 12) r.ex ∷ onode_log zs.store oid oe ∷ []);
      },
      rw (a, b, c, d, e, f, prep_rw, fine, skip, prep_write, counted, fits, log_write) refl,
      refl,
      refl,
      g.lengths,
      count,
      logged,
      g.taken,
    )
