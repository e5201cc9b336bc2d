-- ===== src/Message.antt =====
-- message.h: the messages between client and server. A message has a header of 26 bytes, then
-- `meta_length` bytes of arguments and `data_length` bytes of data.
-- A buffer is known by its address, 0 for NULL; what a buffer holds is modelled where it matters.
pub mod Wire
use zcell.Base.{ℕ, ◌+◌, ◌%◌, ◌^◌, ◌&&◌, Bool, ltb}

-- `enum SESSION_TYPE`, the `magic` of a header.
abbrev pub local : ℕ
local = 17

abbrev pub remote : ℕ
remote = 34

-- `enum message_type`, without the ends of the range of operations.
abbrev pub msg_ping : ℕ
msg_ping = 1

abbrev pub op_stat : ℕ
op_stat = 11

abbrev pub op_create : ℕ
op_create = 12

abbrev pub op_read : ℕ
op_read = 13

abbrev pub op_write : ℕ
op_write = 14

abbrev pub op_delete : ℕ
op_delete = 15

-- `MSG_TYPE_OSS`, between `msg_oss_op_min` and `msg_oss_op_max`.
abbrev pub is_oss : ℕ → Bool
is_oss op = ltb 10 op && ltb op 74

-- `msg_hdr_t`
pub record MsgHdr : Type 0 where
  pub seq : ℕ
  pub type : ℕ
  pub status : ℕ
  pub magic : ℕ
  pub meta_length : ℕ
  pub data_length : ℕ
  pub slo : ℕ
  pub rsv0 : ℕ
  pub rsv1 : ℕ

abbrev pub hdr_size : ℕ
hdr_size = 26

-- `message_state_object_t`: what is left to send or to receive.
pub record MessageState : Type 0 where
  pub hdr_rem_len : ℕ
  pub meta_rem_len : ℕ
  pub data_rem_len : ℕ

-- `message_t`
pub record Message : Type 0 where
  pub state : MessageState
  pub header : MsgHdr
  pub meta_buffer : ℕ
  pub data_buffer : ℕ
  pub priv_ctx : ℕ

-- `calloc` and `memset` to 0.
abbrev pub no_hdr : MsgHdr
no_hdr = record {
  seq = 0;
  type = 0;
  status = 0;
  magic = 0;
  meta_length = 0;
  data_length = 0;
  slo = 0;
  rsv0 = 0;
  rsv1 = 0;
}

abbrev pub no_message : Message
no_message = record {
  state = record { hdr_rem_len = 0; meta_rem_len = 0; data_rem_len = 0 };
  header = no_hdr;
  meta_buffer = 0;
  data_buffer = 0;
  priv_ctx = 0;
}

-- `message_move`: the destination, and the source that is left behind.
abbrev pub message_move : Message → Message × Message
message_move src = (src, no_message)

-- `message_len`
abbrev pub message_len : Message → ℕ
message_len m = (hdr_size + m.header.meta_length + m.header.data_length) % 2 ^ 32

-- `message_state_reset`
abbrev pub message_state_reset : Message → Message
message_state_reset m = record m {
  state = record {
    hdr_rem_len = hdr_size;
    meta_rem_len = m.header.meta_length;
    data_rem_len = m.header.data_length;
  };
}
