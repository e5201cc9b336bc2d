-- ===== src/Client/One.antt =====
-- The calls for one operation that is known.
use zcell.Base.{
  ℕ, ◌-◌, ◌≤◌, ◌≡◌, refl, true, false, [], ◌∷◌, some, map, take, get_elem?, get_elem?-lt,
  if◌then◌else◌, ltb, leb, arith,
}
use zcell.Client.{
  OpCtx, op_in_progress, op_waiting_submit, is_waiting, IoChannel, returns, put_op, message_of,
  all_submittable, mark_in_progress, io_submit_to_channel, io_poll_channel, op_set_userdata,
  op_get_userdata,
}
use zcell.Client.Slots.{Inv}

module _ (ch : IoChannel) (id : ℕ) (op : OpCtx) (at : get_elem? ch.op_ctxs id ≡ some op) where
  pub op_set_userdata_at :
      (userdata : ℕ)
      → op_set_userdata ch id userdata ≡ some (put_op ch id (record op { user_data = userdata }))
  unfolding op_set_userdata
  op_set_userdata_at userdata = rw (at, op_set_userdata) refl

  pub op_get_userdata_at : op_get_userdata ch id ≡ some op.user_data
  unfolding op_get_userdata
  op_get_userdata_at = rw (at, op_get_userdata) refl

  pub message_of_at : message_of ch id ≡ op.message
  unfolding message_of
  message_of_at = rw (at, message_of) refl

  mark_in_progress_one :
      mark_in_progress ch (id ∷ []) ≡ put_op ch id (record op { state = op_in_progress })
  unfolding mark_in_progress
  mark_in_progress_one = rw (at, mark_in_progress) refl

  -- An operation that waits is submitted by itself.
  pub io_submit_to_channel_one :
      Inv ch
      → op.state ≡ op_waiting_submit
      → io_submit_to_channel ch (id ∷ [])
        ≡ some (returns 0, put_op ch id (record op { state = op_in_progress }), op.message ∷ [])
  unfolding io_submit_to_channel all_submittable
  io_submit_to_channel_one s waits =
      let inside : leb id ch.queue_depth ≡ true =
        ground (arith, s.size, get_elem?-lt ch.op_ctxs id op at) in
      let waiting : is_waiting op.state ≡ true = rw waits refl in
      rw
        (
          at, inside, waiting, message_of_at, mark_in_progress_one, io_submit_to_channel,
          all_submittable,
        )
        refl

-- A poll that has room for all the operations that have completed takes them all.
pub io_poll_channel_all :
    (ch : IoChannel) (max : ℕ)
    → ch.cpl_nr ≤ ch.reap_depth
    → ch.reap_depth ≤ max
    → io_poll_channel ch 0 max ≡ (
      some (map (λ at. (message_of ch at).header.rsv0) (take ch.cpl_nr ch.cpl_ops)),
      record ch { cpl_nr = 0 },
    )
unfolding io_poll_channel
io_poll_channel_all ch max fits room =
    let ordered : ltb max 0 ≡ false = ground arith in
    let reap : (if ltb max ch.reap_depth then max else ch.reap_depth) ≡ ch.reap_depth =
      ground (arith, room) in
    let all : (if ltb ch.reap_depth ch.cpl_nr then ch.reap_depth else ch.cpl_nr) ≡ ch.cpl_nr =
      ground (arith, fits) in
    let none_left : ch.cpl_nr - ch.cpl_nr ≡ 0 = omega arith in
    rw (ordered, reap, all, none_left, io_poll_channel) refl
