-- ===== src/Status.antt =====
-- util/errcode.h: the status codes that the layers pass to one another. The functions whose return
-- type is `int` also return -1, which the enumeration does not name.
use zcell.Base.{ℕ}

-- `enum Status`, in the order of the source.
pub data Status : Type 0 where
  success : Status
  unknown_op : Status
  invalid_op : Status
  msgr_eagain : Status
  msgr_connect_exception : Status
  unsupported_operation : Status
  object_exist : Status
  object_not_exist : Status
  no_space : Status
  no_node : Status
  write_out_max_size : Status
  read_eof : Status
  read_hole : Status
  io_error : Status
  internal_unknown_error : Status

-- The number that the compiler gives to each code; `MSGR_EAGAIN` is set to 16.
unfoldable pub code : Status → ℕ
code success = 0
code unknown_op = 1
code invalid_op = 2
code msgr_eagain = 16
code msgr_connect_exception = 17
code unsupported_operation = 18
code object_exist = 19
code object_not_exist = 20
code no_space = 21
code no_node = 22
code write_out_max_size = 23
code read_eof = 24
code read_hole = 25
code io_error = 26
code internal_unknown_error = 27

-- What an `int` function returns.
pub data Rc : Type 0 where
  minus_one : Rc
  status : Status → Rc

abbrev pub ok : Rc
ok = status success
