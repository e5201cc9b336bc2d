-- ===== src/Chunkstore.antt =====
-- chunkstore.c: the store that divides a block device into objects of 4 MiB, each at its place.
-- The requests to the device are recorded; whether it takes one, and whether it then succeeds, are
-- arguments.
pub mod Place
mod Tests
use zcell.Base.{
  ℕ, ◌+◌, ◌*◌, ◌/◌, ◌%◌, ◌^◌, Bool, true, false, Option, none, some, List, [], ◌∷◌, if◌then◌else◌,
  ◌==◌,
}
use zcell.Message.{Message, op_stat, op_create, op_read, op_write, op_delete}
use zcell.Status.{code, success, io_error}
use zcell.Client.Requests.{Args, read_args, write_args}

-- `stat` of `struct chunkstore_context_t`
pub record Stat : Type 0 where
  pub data_gb : ℕ
  pub max_oid : ℕ
  pub max_obj_sz : ℕ

-- `_hardcode_stat`, for a device of so many blocks of 4096 bytes.
pub hardcode_stat : ℕ → Stat
hardcode_stat num_blocks =
    let cb = num_blocks * 4096 % 2 ^ 64 in
    record { data_gb = cb / 2 ^ 30; max_oid = cb / 2 ^ 22; max_obj_sz = 2 ^ 22 }

-- `op_stat_result_t`
pub record StatResult : Type 0 where
  pub type : ℕ
  pub capcity_gib : ℕ
  pub obj_blk_sz_kib : ℕ
  pub max_oid : ℕ
  pub max_obj_size_kib : ℕ

-- `_do_stat`: what it writes to the data buffer.
pub do_stat : Stat → StatResult
do_stat stat = record {
  type = 1;
  capcity_gib = stat.data_gb % 2 ^ 32;
  obj_blk_sz_kib = 4096;
  max_oid = stat.max_oid % 2 ^ 32;
  max_obj_size_kib = 4096;
}

-- `_obj2blk`: the first block and the number of blocks. Its arguments have 32 bits, and so has the
-- sum, which wraps.
pub obj2blk : ℕ → ℕ → ℕ → ℕ × ℕ
obj2blk oid o_ofst o_len =
    let o = o_ofst % 2 ^ 32 in
    ((oid % 2 ^ 32 * 1024 + o / 2 ^ 12) % 2 ^ 32, o_len % 2 ^ 32 / 2 ^ 12)

-- A call of `spdk_bdev_read_blocks` or `spdk_bdev_write_blocks`.
pub data Io : Type 0 where
  read_blocks write_blocks : (buffer ofst len : ℕ) → Io

-- What a handler does: the calls of the device, the status that it returns, and that with which it has
-- called back by an event, where it has no I/O to wait for.
pub record Handled : Type 0 where
  pub io : List Io
  pub returned : ℕ
  pub called_back : Option ℕ

-- `_do_create`, `_do_delete`, and the end of `_do_stat`: the answer is sent by `fake_async_cb`.
abbrev pub at_once : Handled
at_once = record { io = []; returned = code success; called_back = some (code success) }

-- The end of `_do_read` and `_do_write`.
abbrev pub issued : Bool → Io → Handled
issued accepts io = record {
  io = io ∷ [];
  returned = if accepts then code success else code io_error;
  called_back = none;
}

-- `rw_cb`: the status with which `end_cb` is called.
pub rw_cb : Bool → ℕ
rw_cb done = if done then code success else code io_error

-- `chunkstore_obj_async_op_call`: the handlers take their arguments from the meta buffer. `none` is a
-- call through an entry of the table that is not there, or arguments of another operation.
unfoldable pub obj_async_op_call : Bool → Message → Args → Option Handled
obj_async_op_call accepts m args =
    let op = m.header.type in
    if op == op_stat
    then some at_once
    else if op == op_create
    then some at_once
    else if op == op_delete
    then some at_once
    else if op == op_write
    then elim args [
      | write_args oid ofst len flags ↦ some (
          issued accepts
            (write_blocks m.data_buffer (obj2blk oid ofst len).0 (obj2blk oid ofst len).1))
      | _ ↦ none
    ]
    else if op == op_read
    then elim args [
      | read_args oid ofst len flags addr ↦ some (
          issued accepts
            (read_blocks m.data_buffer (obj2blk oid ofst len).0 (obj2blk oid ofst len).1))
      | _ ↦ none
    ]
    else none
