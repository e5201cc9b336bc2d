-- ===== src/Server.antt =====
-- server_main.c: what the server does with a request. It checks the request, turns it into the frame
-- of its response, and hands it to the store; the response is sent when the store calls back, or at
-- once when the store refuses.
-- The fields of the arguments that lie at an address, the address of a new buffer, and the answer of
-- the store are arguments.
pub mod Respond
pub mod Claim
mod Tests
use zcell.Base.{
  ℕ, ◌+◌, ◌%◌, ◌^◌, Bool, true, false, not, List, [], ◌∷◌, ◌++◌, if◌then◌else◌, ltb, ◌==◌, ◌&&◌,
}
use zcell.Message.{
  Message, message_state_reset, local, remote, msg_ping, op_stat, op_create, op_delete, op_read,
  op_write, is_oss,
}
use zcell.Status.{code, success, invalid_op, unknown_op}

-- The fields of `op_read_t` and `op_write_t` that the server reads itself.
pub record OpArgs : Type 0 where
  pub len : ℕ
  pub read_buffer_zero_copy_addr : ℕ

-- What happens on the way to a response: the buffers freed, in their order, and the messages handed to
-- the IPC messager and to the network messager.
pub record Effects : Type 0 where
  pub freed : List ℕ
  pub ipc : List Message
  pub net : List Message

-- `if(buffer) free(buffer)`
abbrev pub free_buffer : ℕ → List ℕ
free_buffer at = if at == 0 then [] else at ∷ []

-- `msg_free_resource`: a buffer whose length was set to 0 goes. The data of a local client is its own.
pub msg_free_resource : Message → List ℕ × Message
msg_free_resource m =
    let meta = m.header.meta_length == 0 in
    let payload = m.header.data_length == 0 in
    (
      (if meta then free_buffer m.meta_buffer else [])
          ++ (if payload && (m.header.magic == remote) then free_buffer m.data_buffer else []),
      record m {
        meta_buffer = if meta then 0 else m.meta_buffer;
        data_buffer = if payload then 0 else m.data_buffer;
      },
    )

-- `_response_with_reusing_request`
pub response_with_reusing_request : Message → ℕ → Effects
response_with_reusing_request request status_code =
    let (freed, m) = msg_free_resource (
      message_state_reset
        (record request { header = record request.header { status = status_code % 2 ^ 8 } })) in
    record {
      freed = freed;
      ipc = if m.header.magic == local then m ∷ [] else [];
      net = if m.header.magic == local then [] else if m.header.magic == remote then m ∷ [] else [];
    }

-- `_response_broken_op`: the buffers are freed, and their addresses stay in the message.
pub response_broken_op : Message → ℕ → Effects
response_broken_op request status_code =
    let m = record request {
      header = record request.header { data_length = 0; meta_length = 0 };
    } in
    let e = response_with_reusing_request m status_code in
    record e {
      freed = free_buffer request.meta_buffer ++ (free_buffer request.data_buffer ++ e.freed);
    }

-- `oss_op_cb`: the store has executed the operation.
unfoldable pub oss_op_cb : Message → ℕ → Effects
oss_op_cb request status_code =
    if status_code == code success
    then response_with_reusing_request request status_code
    else response_broken_op request status_code

-- A request is answered, or it is with the store, which calls `oss_op_cb` on it.
pub data Outcome : Type 0 where
  answered : Effects → Outcome
  submitted : Message → Outcome

module _ (args : ℕ → OpArgs) where
  -- `oss_op_valid`
  pub oss_op_valid : Message → Bool
  oss_op_valid m =
      let op = m.header.type in
      let no_data = (m.header.data_length == 0) && (m.data_buffer == 0) in
      let has_meta = not (m.meta_buffer == 0) in
      if op == op_stat
      then no_data && (m.header.meta_length == 0) && (m.meta_buffer == 0)
      else if op == op_create
      then no_data && (m.header.meta_length == 8) && has_meta
      else if op == op_delete
      then no_data && (m.header.meta_length == 8) && has_meta
      else if op == op_write
      then not (m.data_buffer == 0)
        && has_meta
        && (m.header.data_length == (args m.meta_buffer).len % 2 ^ 32)
        && ltb 0 m.header.meta_length
      else if op == op_read
      then no_data && ltb 0 m.header.meta_length && has_meta
      else false

  -- `oss_op_refill_request_with_reponse`; `buffer` is what `alloc_data_buffer` gives.
  pub refill_request_with_response : Message → ℕ → Message
  refill_request_with_response m buffer =
      let op = m.header.type in
      let a = args m.meta_buffer in
      if op == op_stat
      then record m {
        header = record m.header { meta_length = 0; data_length = 20 };
        data_buffer = buffer;
      }
      else if op == op_create
      then record m { header = record m.header { meta_length = 0 } }
      else if op == op_delete
      then record m { header = record m.header { meta_length = 0 } }
      else if op == op_write
      then record m { header = record m.header { meta_length = 0; data_length = 0 } }
      else if op == op_read
      then record m {
        header = record m.header { meta_length = 0; data_length = a.len % 2 ^ 32 };
        data_buffer =
            if a.read_buffer_zero_copy_addr == 0 then buffer else a.read_buffer_zero_copy_addr;
      }
      else m

  -- `_do_op_oss`; `store` is `obj_async_op_call` of the store.
  pub do_op_oss : (Message → ℕ) → ℕ → Message → Outcome
  do_op_oss store buffer request =
      let m = refill_request_with_response request buffer in
      if oss_op_valid request
      then if store m == code success
        then submitted m
        else answered (response_broken_op m (store m))
      else answered (response_broken_op request (code invalid_op))

  -- `op_execute`
  pub op_execute : (Message → ℕ) → ℕ → Message → Outcome
  op_execute store buffer request =
      let op = request.header.type in
      if op == msg_ping
      then answered (response_with_reusing_request request (code success))
      else if is_oss op
      then do_op_oss store buffer request
      else answered (response_broken_op request (code unknown_op))
