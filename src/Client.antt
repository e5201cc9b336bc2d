-- ===== src/Client.antt =====
-- liboss.c: the client library. A channel has a fixed number of operations, known by their ids; an
-- operation is prepared, submitted, completed by the response, claimed, and freed.
-- A failed assertion, or an access past the end of an array, is `none`. The messager that sends and
-- receives is behind `msgr_`: what is handed to it for sending is recorded, and a response is an
-- argument of `on_recv_msg`.
pub mod Slots
pub mod Requests
pub mod Steps
pub mod Good
pub mod Lifecycle
pub mod Answer
pub mod One
mod Tests
use zcell.Base.{
  ℕ, zero, suc, ◌+◌, ◌-◌, ◌%◌, ◌^◌, Bool, true, false, List, [], ◌∷◌, ◌++◌, Option, none, some,
  length, get_elem?, set, take, replicate, map, reverse, if◌then◌else◌, ltb, leb, ◌==◌, ◌&&◌, ◌||◌,
  not,
}
use zcell.Message.{Message, MsgHdr, no_message, local, remote, message_move, message_state_reset}
use zcell.Bitmap
use zcell.Bitmap.{Bitmap, find_next_set_and_clr, get_bit}

-- The states of an operation.
pub data OpState : Type 0 where
  op_new op_waiting_submit op_in_progress op_completed op_end : OpState

abbrev pub is_new : OpState → Bool
is_new op_new = true
is_new _ = false

abbrev pub is_waiting : OpState → Bool
is_waiting op_waiting_submit = true
is_waiting _ = false

abbrev pub is_completed : OpState → Bool
is_completed op_completed = true
is_completed _ = false

abbrev pub is_end : OpState → Bool
is_end op_end = true
is_end _ = false

-- `op_ctx_t`
pub record OpCtx : Type 0 where
  pub message : Message
  pub state : OpState
  pub user_data : ℕ

-- `struct io_channel`. `cpl_ops` is the whole array, of ids; its first `cpl_nr` are completed.
pub record IoChannel : Type 0 where
  pub session : ℕ
  pub session_type : ℕ
  pub queue_depth : ℕ
  pub reap_depth : ℕ
  pub seq : ℕ
  pub bitmap_hint : ℕ
  pub op_ctxs_bitmap : Bitmap
  pub op_ctxs : List OpCtx
  pub cpl_nr : ℕ
  pub cpl_ops : List ℕ

abbrev pub ring_max : ℕ
ring_max = 1024

abbrev pub no_op : OpCtx
no_op = record { message = no_message; state = op_new; user_data = 0 }

-- `io_channel_new`
pub io_channel_new : ℕ → ℕ → IoChannel
io_channel_new qd rd =
    let queue_depth = if qd == 0 then ring_max else qd in
    let reap_depth = if rd == 0 then ring_max else rd in
    record {
      session = 0;
      session_type = 0;
      queue_depth = queue_depth;
      reap_depth = reap_depth;
      seq = 0;
      bitmap_hint = 0;
      op_ctxs_bitmap = Bitmap.constructor queue_depth true;
      op_ctxs = replicate queue_depth no_op;
      cpl_nr = 0;
      cpl_ops = replicate reap_depth 0;
    }

-- `get_io_channel_with` and `get_io_channel_with_local`, from the type of session that they set and
-- the session that the messager has connected, 0 for NULL.
unfoldable pub get_io_channel : ℕ → ℕ → ℕ → Option IoChannel
get_io_channel session_type session max_qd =
    if session == 0
    then none
    else some
        (record (io_channel_new max_qd max_qd) { session = session; session_type = session_type })

-- A change of one operation.
abbrev pub put_op : IoChannel → ℕ → OpCtx → IoChannel
put_op ch id op = record ch { op_ctxs = set ch.op_ctxs id op }

-- `_alloc_op`
pub alloc_op : IoChannel → Option ℕ × IoChannel
alloc_op ch = elim (find_next_set_and_clr ch.op_ctxs_bitmap ch.bitmap_hint).0 [
  | none ↦ (none, ch)
  | some id ↦ (
    some id,
    record ch {
      bitmap_hint = id + 1;
      op_ctxs_bitmap = (find_next_set_and_clr ch.op_ctxs_bitmap ch.bitmap_hint).1;
    },
  )
]

-- `_free_op`: the operation must have ended, and its bit be clear.
pub free_op : IoChannel → ℕ → OpCtx → Option IoChannel
free_op ch at op =
    let id = op.message.header.rsv0 in
    if is_end op.state && not (get_bit ch.op_ctxs_bitmap id)
    then some (record (put_op ch at (record op { state = op_new })) {
      op_ctxs_bitmap = Bitmap.set_bit ch.op_ctxs_bitmap id;
      bitmap_hint = if ltb id ch.bitmap_hint then id else ch.bitmap_hint;
    })
    else none

-- An `int` that a call returns: an id, 0, or a negative error number.
pub data Ret : Type 0 where
  returns : ℕ → Ret
  enomem einval einprogress : Ret

-- The header that `_io_prepare_op_common` writes.
abbrev pub request_hdr : IoChannel → ℕ → ℕ → ℕ → ℕ → MsgHdr
request_hdr ch op_type meta_size data_length id = record {
  seq = ch.seq;
  type = op_type % 2 ^ 8;
  status = 0;
  magic = ch.session_type;
  meta_length = meta_size % 2 ^ 8;
  data_length = data_length;
  slo = 0;
  rsv0 = id;
  rsv1 = 0;
}

-- The operation that it fills.
abbrev pub prepared : IoChannel → ℕ → ℕ → ℕ → ℕ → ℕ → ℕ → OpCtx → OpCtx
prepared ch op_type meta_size meta_buffer data_length data_buffer id op = record op {
  message = message_state_reset (record op.message {
    header = request_hdr ch op_type meta_size data_length id;
    meta_buffer = meta_buffer;
    data_buffer = data_buffer;
    priv_ctx = ch.session;
  });
  state = op_waiting_submit;
}

-- The rest of `_io_prepare_op_common`, once it has the operation `id`.
pub prepare_op : IoChannel → ℕ → ℕ → ℕ → ℕ → ℕ → ℕ → OpCtx → Option (Ret × IoChannel)
prepare_op ch op_type meta_size meta_buffer data_length data_buffer id op =
    if ltb 255 meta_size
    then none
    else if (ch.session_type == local) || (ch.session_type == remote)
    then some (
      returns id,
      put_op (record ch { seq = (ch.seq + 1) % 2 ^ 64 }) id
          (prepared ch op_type meta_size meta_buffer data_length data_buffer id op),
    )
    else some (einval, ch)

-- `_io_prepare_op_common`. Too long a meta buffer ends in `_free_op` of an operation that has not
-- ended, which is a failed assertion.
pub prepare_op_common : IoChannel → ℕ → ℕ → ℕ → ℕ → ℕ → Option (Ret × IoChannel)
prepare_op_common ch op_type meta_size meta_buffer data_length data_buffer =
    let (found, ch') = alloc_op ch in
    elim found [
      | none ↦ some (enomem, ch)
      | some id ↦ elim (get_elem? ch.op_ctxs id) [
        | none ↦ none
        | some op ↦ prepare_op ch' op_type meta_size meta_buffer data_length data_buffer id op
      ]
    ]

-- The first loop of `io_submit_to_channel`: `none` is an access past the array, which the bound
-- `opd <= queue_depth_` lets through.
pub all_submittable : IoChannel → List ℕ → Option Bool
all_submittable ch [] = some true
all_submittable ch (opd ∷ ops) =
    let rest = all_submittable ch ops in
    elim (get_elem? ch.op_ctxs opd) [
      | none ↦ none
      | some op ↦ if leb opd ch.queue_depth && is_waiting op.state then rest else some false
    ]

-- The message of an operation.
pub message_of : IoChannel → ℕ → Message
message_of ch opd = elim (get_elem? ch.op_ctxs opd) [ none ↦ no_message | some op ↦ op.message ]

-- The last loop.
pub mark_in_progress : IoChannel → List ℕ → IoChannel
mark_in_progress ch [] = ch
mark_in_progress ch (opd ∷ ops) = elim (get_elem? ch.op_ctxs opd) [
  | none ↦ mark_in_progress ch ops
  | some op ↦ mark_in_progress (put_op ch opd (record op { state = op_in_progress })) ops
]

-- `io_submit_to_channel`, with the messages handed to the messager. The loop that flushes them to a
-- remote peer ends when the messager has sent them all.
pub io_submit_to_channel : IoChannel → List ℕ → Option (Ret × IoChannel × List Message)
io_submit_to_channel ch ops = elim (all_submittable ch ops) [
  | none ↦ none
  | some false ↦ some (einval, ch, [])
  | some true ↦ some (returns 0, mark_in_progress ch ops, map (message_of ch) ops)
]

-- `net_msgr_on_recv_msg` and `ipc_msgr_on_recv_msg`: the channel that the session belongs to takes
-- the response over.
pub on_recv_msg : IoChannel → Message → Option IoChannel
on_recv_msg ch msg =
    let id = msg.header.rsv0 in
    elim (get_elem? ch.op_ctxs id) [
      | none ↦ none
      | some op ↦
          if (msg.meta_buffer == 0)
            && (op.message.header.seq == msg.header.seq)
            && (op.message.header.type == msg.header.type)
            && ltb ch.cpl_nr ch.reap_depth
          then some
              (record (put_op ch id
                (record op { message = (message_move msg).0; state = op_completed })) {
                  cpl_ops = set ch.cpl_ops ch.cpl_nr id;
                  cpl_nr = ch.cpl_nr + 1;
                })
          else none
    ]

-- `io_poll_channel`, once the messager has been waited for: the ids of the operations reaped, or
-- `none` for -EINVAL. The array is not moved up.
pub io_poll_channel : IoChannel → ℕ → ℕ → Option (List ℕ) × IoChannel
io_poll_channel ch min max =
    let nr_reap = if ltb max ch.reap_depth then max else ch.reap_depth in
    let cpls = if ltb nr_reap ch.cpl_nr then nr_reap else ch.cpl_nr in
    if ltb max min then (none, ch) else (
      some (map (λ at. (message_of ch at).header.rsv0) (take cpls ch.cpl_ops)),
      record ch { cpl_nr = ch.cpl_nr - cpls },
    )

-- `op_set_userdata`; `none` is an access past the array.
pub op_set_userdata : IoChannel → ℕ → ℕ → Option IoChannel
op_set_userdata ch op_id userdata = elim (get_elem? ch.op_ctxs op_id) [
  | none ↦ none
  | some op ↦ some (put_op ch op_id (record op { user_data = userdata }))
]

-- `op_get_userdata`
pub op_get_userdata : IoChannel → ℕ → Option ℕ
op_get_userdata ch op_id = elim (get_elem? ch.op_ctxs op_id) [
  | none ↦ none
  | some op ↦ some op.user_data
]

-- What `op_claim_result` gives its caller.
pub record Result : Type 0 where
  pub op_type : ℕ
  pub status : ℕ
  pub data_buffer : ℕ
  pub data_len : ℕ

-- `op_claim_result`
pub op_claim_result : IoChannel → ℕ → Option Result × IoChannel
op_claim_result ch op_id = elim (get_elem? ch.op_ctxs op_id) [
  | none ↦ (none, ch)
  | some op ↦
      if ltb op_id ch.queue_depth && is_completed op.state
      then (
        some (record {
          op_type = op.message.header.type;
          status = op.message.header.status;
          data_buffer = op.message.data_buffer;
          data_len = op.message.header.data_length;
        }),
        put_op ch op_id (record op { state = op_end }),
      )
      else (none, ch)
]

abbrev pub freed : Option IoChannel → Option (Ret × IoChannel)
freed none = none
freed (some ch) = some (returns 0, ch)

-- `op_destory`. An operation in the state `OP_NEW` ends in `abort`.
pub op_destroy : IoChannel → ℕ → Option (Ret × IoChannel)
op_destroy ch op_id = elim (get_elem? ch.op_ctxs op_id) [
  | none ↦ some (einval, ch)
  | some op ↦
      if ltb op_id ch.queue_depth
      then elim op.state [
        | op_new ↦ none
        | op_in_progress ↦ some (einprogress, ch)
        | _ ↦ freed (free_op ch op_id op)
      ]
      else some (einval, ch)
]
