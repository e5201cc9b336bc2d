-- ===== src/Client/Requests.antt =====
-- liboss.c and operation.h: the requests for each operation. The buffer for the arguments is at the
-- address that the allocator of the session's type gives; a request is the arguments that are written
-- there, and what `_io_prepare_op_common` returns.
use zcell.Base.{ℕ, ◌%◌, ◌^◌, Option, none, some}
use zcell.Message.{op_stat, op_create, op_read, op_write, op_delete}
use zcell.Client.{IoChannel, Ret, prepare_op_common}

-- `op_create_t`, `op_delete_t`, `op_read_t`, `op_write_t`. The last field of `op_read_t` is the
-- caller's buffer, `none` where it is not written.
pub data Args : Type 0 where
  no_args : Args
  create_args delete_args : (oid : ℕ) → Args
  read_args : (oid ofst len flags : ℕ) (read_buffer_zero_copy_addr : Option ℕ) → Args
  write_args : (oid ofst len flags : ℕ) → Args

-- `sizeof` of the arguments.
abbrev pub args_size : Args → ℕ
args_size no_args = 0
args_size (create_args oid) = 8
args_size (delete_args oid) = 8
args_size (read_args oid ofst len flags addr) = 40
args_size (write_args oid ofst len flags) = 32

-- The arguments and the call of `_io_prepare_op_common` with them.
abbrev pub request : IoChannel → ℕ → Args → ℕ → ℕ → ℕ → Args × Option (Ret × IoChannel)
request ch op_type args meta_buffer data_length data_buffer =
    (args, prepare_op_common ch op_type (args_size args) meta_buffer data_length data_buffer)

pub io_stat : IoChannel → Args × Option (Ret × IoChannel)
io_stat ch = request ch op_stat no_args 0 0 0

pub io_create : IoChannel → ℕ → ℕ → Args × Option (Ret × IoChannel)
io_create ch meta_buffer oid = request ch op_create (create_args oid) meta_buffer 0 0

pub io_delete : IoChannel → ℕ → ℕ → Args × Option (Ret × IoChannel)
io_delete ch meta_buffer oid = request ch op_delete (delete_args oid) meta_buffer 0 0

-- The offset is cut to 32 bits, and the caller's buffer is left as the allocator gave it.
pub io_read : IoChannel → ℕ → ℕ → ℕ → ℕ → Args × Option (Ret × IoChannel)
io_read ch meta_buffer oid ofst len =
    request ch op_read (read_args oid (ofst % 2 ^ 32) len 0 none) meta_buffer 0 0

unfoldable pub io_read2 : IoChannel → ℕ → ℕ → ℕ → ℕ → ℕ → Args × Option (Ret × IoChannel)
io_read2 ch meta_buffer buf oid ofst len =
    request ch op_read (read_args oid ofst len 0 (some buf)) meta_buffer 0 0

-- The offset is cut to 32 bits here as well.
unfoldable pub io_write : IoChannel → ℕ → ℕ → ℕ → ℕ → ℕ → Args × Option (Ret × IoChannel)
io_write ch meta_buffer oid buffer ofst len =
    request ch op_write (write_args oid (ofst % 2 ^ 32) len 0) meta_buffer len buffer
