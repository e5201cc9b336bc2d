-- ===== src/Zstore/Access/Refuse.antt =====
-- The reads and writes that are refused.
use zcell.Base.{
  ℕ, ◌+◌, ◌/◌, ◌%◌, ◌^◌, ◌<◌, ◌≤◌, ◌≡◌, ◌⊎◌, refl, true, false, not, Bool, ltb, ◌==◌, ◌||◌, arith,
}
use zcell.Status.{Rc, status, invalid_op, no_node, write_out_max_size}
use zcell.Memory.{Mem}
use zcell.Pmem.{Transaction}
use zcell.Zstore.Access.{DataStore, prep_rw, refuse}
use zcell.Zstore.Access.Read.{Proper}

-- The requests that are refused, each with its status: empty or not of whole blocks; for an object that
-- the table has no room for; a write that ends behind 4 MiB.
pub data IsRefused (is_write : Bool) (zs : DataStore) (oid op_ofst op_len : ℕ) : Rc → Type 0 where
  not_blocks :
      (op_len ≡ 0) ⊎ ((0 < op_len % 2 ^ 12) ⊎ (0 < op_ofst % 2 ^ 12))
      → IsRefused is_write zs oid op_ofst op_len (status invalid_op)
  unknown :
      0 < op_len
      → op_len % 2 ^ 12 ≡ 0
      → op_ofst % 2 ^ 12 ≡ 0
      → zs.store.onodes_rsv ≤ oid
      → IsRefused is_write zs oid op_ofst op_len (status no_node)
  too_far :
      Proper zs oid op_ofst op_len
      → is_write ≡ true
      → 2 ^ 22 < op_ofst + op_len
      → op_ofst + op_len < 2 ^ 64
      → IsRefused is_write zs oid op_ofst op_len (status write_out_max_size)

-- A request that is empty or is not of whole blocks is refused as invalid; one for an object that the
-- table has no room for, with OSTORE_NO_NODE; and a proper write that ends behind 4 MiB, with
-- OSTORE_WRITE_OUT_MAX_SIZE. There is no transaction, and the store is as it was.
pub prep_rw-IsRefused :
    (is_write : Bool) (zs : DataStore) (tid : ℕ) (garbage : Mem) (unset : Transaction)
    (oid op_ofst op_len data_buffer : ℕ) (rc : Rc)
    → IsRefused is_write zs oid op_ofst op_len rc
    → prep_rw is_write zs tid garbage unset oid op_ofst op_len data_buffer ≡ refuse rc zs
unfolding prep_rw
prep_rw-IsRefused is_write zs tid garbage unset oid op_ofst op_len data_buffer rc (not_blocks bad) =
    let test : ((op_len == 0) || not (op_len % 2 ^ 12 == 0) || not (op_ofst % 2 ^ 12 == 0)) ≡ true =
      ground (arith, bad) in
    rw (test, prep_rw) refl
prep_rw-IsRefused is_write zs tid garbage unset oid op_ofst op_len data_buffer rc
      (unknown a b c above) =
    let test : ((op_len == 0) || not (op_len % 2 ^ 12 == 0) || not (op_ofst % 2 ^ 12 == 0))
        ≡ false =
      ground (arith, a, b, c) in
    let d : ltb oid zs.store.onodes_rsv ≡ false = ground (arith, above) in
    rw (test, d, prep_rw) refl
prep_rw-IsRefused is_write zs tid garbage unset oid op_ofst op_len data_buffer rc
      (too_far p write beyond fits) =
    let test : ((op_len == 0) || not (op_len % 2 ^ 12 == 0) || not (op_ofst % 2 ^ 12 == 0))
        ≡ false =
      ground (arith, p.some_len, p.len_blocks, p.ofst_blocks) in
    let d : ltb oid zs.store.onodes_rsv ≡ true = ground (arith, p.known) in
    let e : ltb 32 (op_len / 2 ^ 12) ≡ false = ground (arith, p.few) in
    let f : ltb (2 ^ 22) ((op_ofst + op_len) % 2 ^ 64) ≡ true = ground (arith, beyond, fits) in
    rw (test, d, e, write, f, prep_rw) refl
