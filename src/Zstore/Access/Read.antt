-- ===== src/Zstore/Access/Read.antt =====
-- What a read asks the device for.
use zcell.Base.{
  ℕ, ◌+◌, ◌*◌, ◌/◌, ◌%◌, ◌^◌, ◌<◌, ◌≤◌, ◌≡◌, refl, sym, ap, ◌∙◌, true, false, List, [], ◌∷◌, map,
  length, get_or, some, if◌then◌else◌, ltb, ◌==◌, ==_iff, ◌&&◌, All, arith,
}
use zcell.Status.{ok, success}
use zcell.Memory.{Mem, Holds}
use zcell.Pmem.{Transaction}
use zcell.Allocator.{Extent}
use zcell.Zstore.Engine.{Tx, io_read, tx_rdonly, data_io}
use zcell.Zstore.Extents.{hole, lba_merge_to}
use zcell.Zstore.Extents.Merging.{blocks, IsUnit, lba_merge_to-blocks}
use zcell.Zstore.Objects.{Onode, no_onode}
use zcell.Zstore.Access.{
  DataStore, data_index_block, lba_range_get, index_bytes, bio, prep_read, prep_rw,
}
use zcell.Zstore.Access.Index.{read_index-Holds, no_hole}

-- A request that `_tx_prep_rw_common` goes on with: whole blocks, at most 32, of a known object.
pub record Proper (zs : DataStore) (oid op_ofst op_len : ℕ) : Type 0 where
  pub some_len : 0 < op_len
  pub len_blocks : op_len % 2 ^ 12 ≡ 0
  pub ofst_blocks : op_ofst % 2 ^ 12 ≡ 0
  pub known : oid < zs.store.onodes_rsv
  pub few : op_len ≤ 32 * 2 ^ 12

range-Holds :
    (zs : DataStore) (oe : Onode) (bofst : ℕ) (ws : List ℕ)
    → All (λ w. w < hole) ws
    → Holds zs.store.pmem.mem (data_index_block zs.store oe + bofst * 4) (index_bytes ws)
    → lba_range_get zs false oe bofst (length ws) ≡ lba_merge_to ws
unfolding lba_range_get
range-Holds zs oe bofst ws small h =
    ap (λ l. lba_merge_to (map (λ b. if (b == hole) && true then 0 else b) l))
      (read_index-Holds zs.store.pmem.mem (data_index_block zs.store oe + bofst * 4) ws small h)
    ∙ ap lba_merge_to (no_hole ws small).0

-- When the index entries of the range are in persistent memory, as bytes, and none is a hole, a proper
-- read becomes a read-only transaction whose requests are for exactly the blocks of these entries, in
-- their order, one request for each extent; the store is as it was.
pub prep_rw-Reads :
    (zs : DataStore) (tid : ℕ) (garbage : Mem) (unset : Transaction)
    (oid op_ofst op_len data_buffer : ℕ) (ws : List ℕ)
    → Proper zs oid op_ofst op_len
    → length ws ≡ op_len / 2 ^ 12
    → All (λ w. w < hole) ws
    → Holds zs.store.pmem.mem
        (data_index_block zs.store (get_or zs.store.otable oid no_onode) + op_ofst / 2 ^ 12 * 4)
        (index_bytes ws)
    → (ex : List Extent) × (tx : Tx) × (prep_rw false zs tid garbage unset oid op_ofst op_len
          data_buffer
        ≡ some (record { rc = ok; store = zs; tx = some tx }))
      × (blocks ex ≡ ws)
      × All IsUnit ex
      × (tx.bios ≡ map (bio io_read) ex)
      × (tx.bio_outstanding ≡ length ex)
unfolding prep_rw prep_read blocks
prep_rw-Reads zs tid garbage unset oid op_ofst op_len data_buffer ws p enough small h =
    let oe = get_or zs.store.otable oid no_onode in
    let bofst = op_ofst / 2 ^ 12 in
    let blen = op_len / 2 ^ 12 in
    let (same, counted, units) = lba_merge_to-blocks ws in
    let ex = (lba_merge_to ws).0 in
    let range : lba_range_get zs false oe bofst blen ≡ lba_merge_to ws =
      ap (lba_range_get zs false oe bofst) (sym enough) ∙ range-Holds zs oe bofst ws small h in
    let all : (lba_merge_to ws).1 ≡ blen = counted ∙ ap length (no_hole ws small).1 ∙ enough in
    let matches : (blen == (lba_merge_to ws).1) ≡ true =
      (==_iff blen (lba_merge_to ws).1).1 (sym all) in
    let positive : (l : List Extent) → blocks l ≡ ws → (length l == 0) ≡ false =
      λ l e. nonempty l e in
    let some_extent = positive ex (same ∙ (no_hole ws small).1) in
    let a : (op_len == 0) ≡ false = ground (arith, p.some_len) in
    let b : (op_len % 2 ^ 12 == 0) ≡ true = (==_iff (op_len % 2 ^ 12) 0).1 p.len_blocks in
    let c : (op_ofst % 2 ^ 12 == 0) ≡ true = (==_iff (op_ofst % 2 ^ 12) 0).1 p.ofst_blocks in
    let d : ltb oid zs.store.onodes_rsv ≡ true = ground (arith, p.known) in
    let e : ltb 32 blen ≡ false = ground (arith, p.few) in
    (
      ex,
      record {
        tid = tid;
        tx_type = tx_rdonly;
        tx_sync = false;
        state = data_io;
        err = success;
        bio_outstanding = length ex;
        data_buffer = data_buffer;
        bios = map (bio io_read) ex;
        pm_tx_ = unset;
      },
      rw (a, b, c, d, e, prep_rw, range, some_extent, matches, prep_read) refl,
      same ∙ (no_hole ws small).1,
      units,
      refl,
      refl,
    )
  where
    nonempty : (l : List Extent) → blocks l ≡ ws → (length l == 0) ≡ false
    nonempty [] e = absurd (omega (arith, ap length e, enough, p.some_len, p.len_blocks))
    nonempty (x ∷ l) e = ground arith
