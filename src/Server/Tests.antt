-- ===== src/Server/Tests.antt =====
-- A write of 4096 bytes from the network, and its operation at a client.
use zcell.Base.{ℕ}
use zcell.Message.{Message, no_message, remote, op_write}
use zcell.Server.{OpArgs}

abbrev request : Message
request = record no_message {
  header = record no_message.header {
    seq = 9;
    type = op_write;
    magic = remote;
    meta_length = 32;
    data_length = 4096;
    rsv0 = 0;
  };
  meta_buffer = 100;
  data_buffer = 200;
}

abbrev args : ℕ → OpArgs
args at = record { len = 4096; read_buffer_zero_copy_addr = 0 }

-- A store that takes every request.
abbrev takes : Message → ℕ
takes m = 0
