-- ===== src/Zstore/Access/ReadBack.antt =====
-- A write, its commit, and a read of the same range.
use zcell.Base.{
  ℕ, ◌+◌, ◌*◌, ◌/◌, ◌^◌, ◌<◌, ◌≤◌, ◌≡◌, refl, sym, inr, true, false, List, [], ◌∷◌, ◌++◌, map,
  length, get_or, some, drop, subst, All, All-append, arith,
}
use zcell.Status.{ok}
use zcell.Memory.{Mem, Holds, Holds-write, Holds-Same, write, write_after}
use zcell.Pmem
use zcell.Pmem.{Pmem, Entry, Transaction, write_all}
use zcell.Pmem.Log.{IsLog, Fits, log_length}
use zcell.Pmem.Apply.{apply_writes}
use zcell.Allocator.{Extent, alloc_space}
use zcell.Allocator.Laws.{IsValid}
use zcell.Zstore.Engine.{Tx, io_read, io_write}
use zcell.Zstore.Extents.{hole, lba_to_bitmap_id}
use zcell.Zstore.Extents.Merging.{blocks}
use zcell.Zstore.Objects.{no_onode, onode_log}
use zcell.Zstore.Objects.Log.{length-onode_bytes, length-words_bytes, log_length-split}
use zcell.Zstore.Access.{
  DataStore, data_index_block, index_bytes, index_of, index_log, ssd_bitmap_log, bio, prep_rw,
}
use zcell.Zstore.Access.Index.{length-index_bytes}
use zcell.Zstore.Access.Few.{few_entries}
use zcell.Zstore.Access.Read.{Proper, prep_rw-Reads}
use zcell.Zstore.Access.Write.{
  replaced, freed, write_logs, log_length-map, ssd_bitmap_log-IsShort, prep_rw-Writes,
}

-- The store once the log of the transaction is applied.
abbrev pub committed : DataStore → Tx → DataStore
committed zs tx = record zs {
  store = record zs.store { pmem = (Pmem.apply zs.store.pmem tx.pm_tx_).0 };
}

-- The first index entry of an access.
abbrev index_ofst : DataStore → ℕ → ℕ → ℕ
index_ofst zs oid op_ofst =
    data_index_block zs.store (get_or zs.store.otable oid no_onode) + op_ofst / 2 ^ 12 * 4

-- The log and the table stand before the index entries of the access, and the addresses of the entries
-- that are logged have 64 bits.
pub record IsPlaced (zs : DataStore) (oid op_ofst : ℕ) (ids : List ℕ) : Type 0 where
  pub log_first : zs.store.pmem.log_region_ofst + 2 ^ 14 ≤ index_ofst zs oid op_ofst
  pub table_first : zs.store.pm_otable_ofst + 64 * zs.store.onodes_rsv ≤ index_ofst zs oid op_ofst
  pub index_end : index_ofst zs oid op_ofst < 2 ^ 64
  pub table_in_memory : zs.store.otable_addr + 64 * zs.store.onodes_rsv < 2 ^ 64
  pub bitmap_end : All (λ id. zs.pm_ssd_bitmap_ofst + 64 * id < 2 ^ 64) ids

bitmap_logs-Fits :
    (zs : DataStore) (ids : List ℕ)
    → All (λ id. zs.pm_ssd_bitmap_ofst + 64 * id < 2 ^ 64) ids
    → All Fits (map (ssd_bitmap_log zs) ids)
unfolding ssd_bitmap_log
bitmap_logs-Fits zs [] ends = tt
bitmap_logs-Fits zs (id ∷ ids) ends = (
  record {
    paddr_fits = omega arith;
    ofst_fits = ends.0;
    length_fits = omega (arith, length-words_bytes 8 (drop (id * 8) zs.ssd_allocator.bs));
  },
  bitmap_logs-Fits zs ids ends.1,
)

write_all-append :
    (m : Mem) (xs ys : List Entry) → write_all m (xs ++ ys) ≡ write_all (write_all m xs) ys
unfolding write_all
write_all-append m [] ys = refl
write_all-append m (x ∷ xs) ys = write_all-append (write m x.ofst x.value) xs ys

-- The index entries are in persistent memory when the log of a write is applied.
commit-Holds :
    (zs : DataStore) (tx : Transaction) (oid op_ofst : ℕ) (e enew : List Extent)
    → oid < zs.store.onodes_rsv
    → length (index_of enew) ≤ 32
    → IsPlaced zs oid op_ofst (lba_to_bitmap_id e ++ lba_to_bitmap_id enew)
    → tx.align_length ≤ 8192
    → IsLog tx (write_logs zs oid op_ofst e enew)
    → Holds
        (Pmem.apply zs.store.pmem tx).0.mem
        (index_ofst zs oid op_ofst)
        (index_bytes (index_of enew))
unfolding write_all onode_log index_log
commit-Holds zs tx oid op_ofst e enew known few placed room l =
    let ids = lba_to_bitmap_id e ++ lba_to_bitmap_id enew in
    let oe = get_or zs.store.otable oid no_onode in
    let o = index_ofst zs oid op_ofst in
    let bytes = index_bytes (index_of enew) in
    let es = write_logs zs oid op_ofst e enew in
    let x = index_log zs.store oe (op_ofst / 2 ^ 12) enew in
    let y = onode_log zs.store oid oe in
    let two : All Fits (x ∷ y ∷ []) = (
      record {
        paddr_fits = omega arith;
        ofst_fits = placed.index_end;
        length_fits = omega (arith, few, length-index_bytes (index_of enew));
      },
      (
        record {
          paddr_fits = omega (arith, known, placed.table_in_memory);
          ofst_fits = omega (arith, known, placed.table_first, placed.index_end);
          length_fits = omega (arith, length-onode_bytes oe);
        },
        tt,
      ),
    ) in
    let fits : All Fits es =
      All-append Fits (map (ssd_bitmap_log zs) ids) (x ∷ y ∷ [])
        (bitmap_logs-Fits zs ids placed.bitmap_end) two in
    let before = write_all zs.store.pmem.mem (map (ssd_bitmap_log zs) ids) in
    let with_index = write before o bytes in
    let kept : Holds (write_all zs.store.pmem.mem es) o bytes =
      subst (λ m. Holds m o bytes)
        (sym (write_all-append zs.store.pmem.mem (map (ssd_bitmap_log zs) ids) (x ∷ y ∷ [])))
        (Holds-Same with_index (write with_index y.ofst y.value) o bytes
          (λ a f u.
            write_after with_index y.ofst y.value a
              (omega (arith, f, known, placed.table_first, length-onode_bytes oe)))
          (Holds-write before o bytes)) in
    Holds-Same (write_all zs.store.pmem.mem es) (Pmem.apply zs.store.pmem tx).0.mem o bytes
      (λ a f u.
        (apply_writes zs.store.pmem tx es l fits).0 a
          (inr (omega (arith, f, room, placed.log_first))))
      kept

-- What a write of at most 32 blocks logs has room in a log.
write_logs-fit :
    (zs : DataStore) (oid op_ofst : ℕ) (e enew : List Extent)
    → length (index_of enew) ≤ 32
    → length (lba_to_bitmap_id e ++ lba_to_bitmap_id enew) ≤ 89
    → log_length (write_logs zs oid op_ofst e enew) ≤ 8192
unfolding log_length onode_log index_log
write_logs-fit zs oid op_ofst e enew few few_ids =
    let ids = lba_to_bitmap_id e ++ lba_to_bitmap_id enew in
    let oe = get_or zs.store.otable oid no_onode in
    omega (
      arith,
      few,
      few_ids,
      log_length-split (map (ssd_bitmap_log zs) ids)
          (index_log zs.store oe (op_ofst / 2 ^ 12) enew ∷ onode_log zs.store oid oe ∷ []),
      log_length-map (ssd_bitmap_log zs) ids (ssd_bitmap_log-IsShort zs),
      length-index_bytes (index_of enew),
      length-onode_bytes oe,
    )

-- A proper write within 4 MiB, without the flag for trimming, on an allocator that is valid and
-- grants the blocks once the replaced extents are freed, none of them with the number of a hole,
-- and on a memory that is laid out so; and then a read of the same range once the log of the write
-- is applied: both are prepared, and the blocks that the read asks the device for are, in order,
-- the blocks of the granted extents as 32-bit numbers, and the write has one request for each of
-- these extents, its place and length as 32-bit numbers.
pub prep_rw-reads_back :
    (zs : DataStore) (tid tid' : ℕ) (garbage : Mem) (unset : Transaction)
    (oid op_ofst op_len data_buffer data_buffer' : ℕ)
    → Proper zs oid op_ofst op_len
    → op_ofst + op_len ≤ 2 ^ 22
    → zs.trim ≡ false
    → IsValid (freed zs oid op_ofst op_len)
    → (alloc_space (freed zs oid op_ofst op_len) (op_len / 2 ^ 12)).rc ≡ ok
    → All
        (λ w. w < hole)
        (index_of (alloc_space (freed zs oid op_ofst op_len) (op_len / 2 ^ 12)).ex)
    → IsPlaced zs oid op_ofst (
        lba_to_bitmap_id (replaced zs oid op_ofst op_len)
        ++ lba_to_bitmap_id (alloc_space (freed zs oid op_ofst op_len) (op_len / 2 ^ 12)).ex)
    → let r = alloc_space (freed zs oid op_ofst op_len) (op_len / 2 ^ 12) in
      let zs' = record zs { ssd_allocator = r.allocator } in
      (tx : Tx) × (tx' : Tx) × (ex : List Extent) × (prep_rw true zs tid garbage unset oid op_ofst
          op_len data_buffer
        ≡ some (record { rc = ok; store = zs'; tx = some tx }))
      × (tx.bios ≡ map (bio io_write) r.ex)
      × (prep_rw false (committed zs' tx) tid' garbage unset oid op_ofst op_len data_buffer'
          ≡ some (record { rc = ok; store = committed zs' tx; tx = some tx' }))
      × (tx'.bios ≡ map (bio io_read) ex)
      × (blocks ex ≡ index_of r.ex)
unfolding data_index_block
prep_rw-reads_back zs tid tid' garbage unset oid op_ofst op_len data_buffer data_buffer' p within
      no_trim valid granted no_holes placed =
    let r = alloc_space (freed zs oid op_ofst op_len) (op_len / 2 ^ 12) in
    let zs' = record zs { ssd_allocator = r.allocator } in
    let (tx, prepared, bios, n, total, count, log, free) =
      prep_rw-Writes zs tid garbage unset oid op_ofst op_len data_buffer p within no_trim valid
        granted in
    let few_ids =
      few_entries zs true (get_or zs.store.otable oid no_onode) (op_ofst / 2 ^ 12) (op_len / 2 ^ 12)
        (freed zs oid op_ofst op_len) total in
    let few : length (index_of r.ex) ≤ 32 = omega (arith, count, p.few) in
    let room =
      write_logs-fit zs' oid op_ofst (replaced zs oid op_ofst op_len) r.ex few
        (omega (arith, few_ids, p.few)) in
    let placed' : IsPlaced zs' oid op_ofst
        (lba_to_bitmap_id (replaced zs oid op_ofst op_len) ++ lba_to_bitmap_id r.ex) =
      record {
        log_first = placed.log_first;
        table_first = placed.table_first;
        index_end = placed.index_end;
        table_in_memory = placed.table_in_memory;
        bitmap_end = placed.bitmap_end;
      } in
    let held =
      commit-Holds zs' tx.pm_tx_ oid op_ofst (replaced zs oid op_ofst op_len) r.ex p.known few
        placed' (omega (arith, log.bytes, room)) log in
    let p' : Proper (committed zs' tx) oid op_ofst op_len = record {
      some_len = p.some_len;
      len_blocks = p.len_blocks;
      ofst_blocks = p.ofst_blocks;
      known = p.known;
      few = p.few;
    } in
    let (ex, tx', read, same, units, asked, n') =
      prep_rw-Reads (committed zs' tx) tid' garbage unset oid op_ofst op_len data_buffer'
        (index_of r.ex) p' count no_holes held in
    (tx, tx', ex, prepared, bios, read, asked, same)
