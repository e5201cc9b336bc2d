-- ===== src/Messager.antt =====
-- messager.c: messages over a socket that may take or give any part of them. The header, the
-- arguments and the data of a message are sent one after the other, and what is left of each is kept
-- with the message until the socket is ready again.
-- A buffer is known by the bytes written to it. The socket is behind `Net`; the sessions are lists.
pub mod Socket
pub mod Parts
pub mod Send
pub mod Flush
pub mod Header
pub mod Receive
pub mod Queue
pub mod Delivery
pub mod Stream
mod Tests
use zcell.Base.{
  ℕ, zero, suc, Option, none, some, ◌+◌, ◌-◌, Bool, true, false, List, [], ◌∷◌, ◌++◌, take, drop,
  length, if◌then◌else◌, ◌==◌,
}
use zcell.Message.{MessageState, hdr_size}
use zcell.Message.Wire.{hdr_of}
use zcell.Messager.Socket.{Net, Rc, moved, would_block, failed}

-- `enum SOCK_STATUS`
pub data SockStatus : Type 0 where
  rwok eagain need_close : SockStatus

-- `struct msg`, with the bytes of its header, arguments and data.
pub record Msg : Type 0 where
  pub state : MessageState
  pub header : List ℕ
  pub meta_buffer : List ℕ
  pub data_buffer : List ℕ

-- `msg_construct`
abbrev pub msg_construct : Msg
msg_construct = record {
  state = record { hdr_rem_len = hdr_size; meta_rem_len = 0; data_rem_len = 0 };
  header = [];
  meta_buffer = [];
  data_buffer = [];
}

abbrev pub meta_length_of : Msg → ℕ
meta_length_of m = (hdr_of m.header).meta_length

abbrev pub data_length_of : Msg → ℕ
data_length_of m = (hdr_of m.header).data_length

-- `msg_rem_tlen`
abbrev pub msg_rem_tlen : Msg → ℕ
msg_rem_tlen m = m.state.hdr_rem_len + m.state.meta_rem_len + m.state.data_rem_len

-- `msg_rw_complete`
abbrev pub msg_rw_complete : Msg → Bool
msg_rw_complete m = msg_rem_tlen m == 0

-- `_sock_rc_handle`: the status, and what is left.
pub sock_rc_handle : Rc → ℕ → SockStatus × ℕ
sock_rc_handle would_block rem = (eagain, rem)
sock_rc_handle failed rem = (need_close, rem)
sock_rc_handle (moved n) rem = (if rem - n == 0 then rwok else eagain, rem - n)

-- The `iov` of a part of a message: `rem` bytes, from `orig - rem` on.
abbrev pub iov : ℕ → ℕ → List ℕ → List ℕ
iov orig rem buf = take rem (drop (orig - rem) buf)

-- `_tail_recv_msg`: the queue in front of the message to receive, and that message.
pub tail_recv_msg : List Msg → List Msg × Msg
tail_recv_msg [] = ([], msg_construct)
tail_recv_msg (m ∷ []) = if msg_rw_complete m then (m ∷ [], msg_construct) else ([], m)
tail_recv_msg (m ∷ n ∷ ms) = let (front, last) = tail_recv_msg (n ∷ ms) in (m ∷ front, last)

-- `_read_event_callback`, its second loop: the complete messages in front, and the rest.
pub pop_all : List Msg → List Msg × List Msg
pop_all [] = ([], [])
pop_all (m ∷ ms) =
    let (done, rest) = pop_all ms in if msg_rw_complete m then (m ∷ done, rest) else ([], m ∷ ms)

-- `_push_msg`; `qos_release_tokens` always agrees.
abbrev pub push_msg : List Msg → Msg → List Msg
push_msg q m = q ++ m ∷ []

-- An early return: the rest is done when the part before has been moved.
pub then_do :
    {S : Type 0} → SockStatus × Msg × S → (Msg → S → SockStatus × Msg × S) → SockStatus × Msg × S
then_do (rwok, m, s) f = f m s
then_do (eagain, m, s) f = (eagain, m, s)
then_do (need_close, m, s) f = (need_close, m, s)

module _ {S : Type 0} (net : Net S) where
  -- One of the three branches of `_do_send_message`: a part with nothing left is skipped.
  pub send_part : ℕ → ℕ → List ℕ → S → SockStatus × ℕ × S
  send_part orig rem buf s =
      let (rc, s') = net.writev s (iov orig rem buf) in
      let (code, rem') = sock_rc_handle rc rem in
      if rem == 0 then (rwok, rem, s) else (code, rem', s')

  pub do_send_hdr : Msg → S → SockStatus × Msg × S
  do_send_hdr m s =
      let (code, rem, s') = send_part hdr_size m.state.hdr_rem_len m.header s in
      (code, record m { state = record m.state { hdr_rem_len = rem } }, s')

  pub do_send_meta : Msg → S → SockStatus × Msg × S
  do_send_meta m s =
      let (code, rem, s') = send_part (meta_length_of m) m.state.meta_rem_len m.meta_buffer s in
      (code, record m { state = record m.state { meta_rem_len = rem } }, s')

  pub do_send_data : Msg → S → SockStatus × Msg × S
  do_send_data m s =
      let (code, rem, s') = send_part (data_length_of m) m.state.data_rem_len m.data_buffer s in
      (code, record m { state = record m.state { data_rem_len = rem } }, s')

  -- `_do_send_message`
  pub do_send_message : Msg → S → SockStatus × Msg × S
  do_send_message m s = then_do (then_do (do_send_hdr m s) do_send_meta) do_send_data

  -- The same for `_do_recv_message`; the bytes read are put behind those before.
  pub recv_part : ℕ → ℕ → List ℕ → S → SockStatus × ℕ × List ℕ × S
  recv_part orig rem buf s =
      let (rc, bytes, s') = net.readv s rem in
      let (code, rem') = sock_rc_handle rc rem in
      if rem == 0 then (rwok, rem, buf, s) else (code, rem', take (orig - rem) buf ++ bytes, s')

  -- A header that is complete says how long the other parts are.
  pub recv_hdr : Msg → S → SockStatus × Msg × S
  recv_hdr m s =
      let (code, rem, buf, s') = recv_part hdr_size m.state.hdr_rem_len m.header s in
      let m' = record m { state = record m.state { hdr_rem_len = rem }; header = buf } in
      elim code [
        | rwok ↦ (
          rwok,
          record m' {
            state = record m'.state {
              meta_rem_len = meta_length_of m';
              data_rem_len = data_length_of m';
            };
          },
          s',
        )
        | err ↦ (err, m', s')
      ]

  pub do_recv_hdr : Msg → S → SockStatus × Msg × S
  do_recv_hdr m s =
      let rest = recv_hdr m s in if m.state.hdr_rem_len == 0 then (rwok, m, s) else rest

  pub do_recv_meta : Msg → S → SockStatus × Msg × S
  do_recv_meta m s =
      let (code, rem, buf, s') =
        recv_part (meta_length_of m) m.state.meta_rem_len m.meta_buffer s in
      (code, record m { state = record m.state { meta_rem_len = rem }; meta_buffer = buf }, s')

  pub do_recv_data : Msg → S → SockStatus × Msg × S
  do_recv_data m s =
      let (code, rem, buf, s') =
        recv_part (data_length_of m) m.state.data_rem_len m.data_buffer s in
      (code, record m { state = record m.state { data_rem_len = rem }; data_buffer = buf }, s')

  -- `_do_recv_message`
  pub do_recv_message : Msg → S → SockStatus × Msg × S
  do_recv_message m s = then_do (then_do (do_recv_hdr m s) do_recv_meta) do_recv_data

  -- `_read_event_callback`, its first loop: messages are received at the end of the queue until the
  -- socket has no more. `none` is a session that is closed. Each round reads something, so the
  -- number of bytes that arrive is enough fuel.
  pub recv_all : ℕ → List Msg → S → Option (List Msg × S)
  recv_all zero q s = some (q, s)
  recv_all (suc n) q s =
      let (front, m) = tail_recv_msg q in
      let (code, m', s') = do_recv_message m s in
      let q' = front ++ m' ∷ [] in
      elim code [ rwok ↦ recv_all n q' s' | eagain ↦ some (q', s') | need_close ↦ none ]

  -- `_read_event_callback`: the messages given to `on_recv_message`, and the queue that is left.
  pub read_event_callback : List Msg → S → Option (List Msg × List Msg × S)
  read_event_callback q s = elim (recv_all (suc (length (net.incoming s))) q s) [
    | none ↦ none
    | some (q', s') ↦ some ((pop_all q').0, (pop_all q').1, s')
  ]

  -- `_flush_msg_of`, and the body of `_flush_all`: the messages sent, the queue that is left, and
  -- whether the session lives on.
  pub flush_msg_of : List Msg → S → List Msg × List Msg × Bool × S
  flush_msg_of [] s = ([], [], true, s)
  flush_msg_of (m ∷ q) s =
      let (code, m', s') = do_send_message m s in
      let (sent, q', lives, s'') = flush_msg_of q s' in
      elim code [
        | rwok ↦ (m' ∷ sent, q', lives, s'')
        | eagain ↦ ([], m' ∷ q, true, s')
        | need_close ↦ ([], m' ∷ q, false, s')
      ]

  -- `_flush_all`: the sessions that died are dropped; the count is of the messages sent.
  pub flush_all : List (List Msg × S) → ℕ × List (List Msg × S)
  flush_all [] = (0, [])
  flush_all (ss ∷ sessions) =
      let (sent, q, lives, s) = flush_msg_of ss.0 ss.1 in
      let (cnt, rest) = flush_all sessions in
      (length sent + cnt, if lives then (q, s) ∷ rest else rest)
