-- ===== src/BlockDevice/Issue.antt =====
-- A request for blocks becomes one operation of the channel.
use zcell.Base.{
  ℕ, ◌%◌, ◌^◌, ◌<◌, ◌≤◌, ◌≡◌, ◌⊎◌, inl, inr, refl, sym, ap, ◌∙◌, true, false, Bool, [], ◌∷◌, Option,
  none, some, get_elem?, set, ltb, ◌==◌, arith, subst, get_elem?-lt, get_elem?-set_self, length,
}
use zcell.Message.{Message, op_read, op_write}
use zcell.Client.{
  OpCtx, op_in_progress, op_waiting_submit, is_new, IoChannel, Ret, returns, put_op, prepared,
  prepare_op_common,
}
use zcell.Client.Requests.{Args, read_args, write_args, io_read2, io_write}
use zcell.Client.Slots.{Inv, Slots-keep}
use zcell.Client.Steps.{Prepares, prepare_op_common-Prepares, SameCompletions}
use zcell.Client.Good.{Good}
use zcell.BlockDevice.{
  ZcellDisk, BdevIo, BdevIoType, bdev_read, bdev_write, bdev_flush, bdev_reset, bdev_other, Place,
  place_of, issued, issue, submit_one, object_io, by_type, get_buf_cb, submit_request,
}
use zcell.Client.One.{op_set_userdata_at, io_submit_to_channel_one}
use zcell.BlockDevice.Held.{set-set}

-- The operation is in progress, and known by the request.
pub record Issued (ch next : IoChannel) (bio : ℕ) (id : ℕ) (was op : OpCtx) : Type 0 where
  pub below : id < ch.queue_depth
  pub at : get_elem? ch.op_ctxs id ≡ some was
  pub free : is_new was.state ≡ true
  pub ops : next.op_ctxs ≡ set ch.op_ctxs id op
  pub state : op.state ≡ op_in_progress
  pub user : op.user_data ≡ bio
  pub own_id : op.message.header.rsv0 ≡ id
  pub same : SameCompletions ch next
  pub good : Good next

module _ (ch : IoChannel) (g : Good ch) (bio : ℕ) (args : Args) where
  -- With one operation prepared, the rest cannot fail.
  issue-Issued :
      (next : IoChannel) (id : ℕ) (was op : OpCtx)
      → id < ch.queue_depth
      → get_elem? ch.op_ctxs id ≡ some was
      → is_new was.state ≡ true
      → next.session_type ≡ ch.session_type
      → next.op_ctxs ≡ set ch.op_ctxs id op
      → op.state ≡ op_waiting_submit
      → op.message.header.rsv0 ≡ id
      → SameCompletions ch next
      → Inv next
      → let final = record op { user_data = bio; state = op_in_progress } in
        (last : IoChannel) × (issue args (some (returns id, next)) bio
          ≡ some (issued args last (op.message ∷ [])))
        × Issued ch last bio id was final
  unfolding issue submit_one Good
  issue-Issued next id was op below at free type ops waits own same inv =
      let user : OpCtx = record op { user_data = bio } in
      let final : OpCtx = record user { state = op_in_progress } in
      let inside : id < length ch.op_ctxs = get_elem?-lt ch.op_ctxs id was at in
      let at_next : get_elem? next.op_ctxs id ≡ some op =
        ap (λ l. get_elem? l id) ops ∙ get_elem?-set_self ch.op_ctxs id op inside in
      let known = put_op next id user in
      let at_known : get_elem? known.op_ctxs id ≡ some user =
        get_elem?-set_self next.op_ctxs id user (get_elem?-lt next.op_ctxs id op at_next) in
      let inv_known : Inv known =
        Slots-keep next.queue_depth next.op_ctxs_bitmap next.bitmap_hint next.op_ctxs id op user inv
          at_next refl (λ n. own) in
      let last = put_op known id final in
      (
        last,
        rw
            (
              op_set_userdata_at next id op at_next bio,
              io_submit_to_channel_one known id user at_known inv_known waits,
              issue,
              submit_one,
            )
            refl,
        record {
          below = below;
          at = at;
          free = free;
          ops =
              set-set next.op_ctxs id user final
              ∙ ap (λ l. set l id final) ops
              ∙ set-set ch.op_ctxs id op final;
          state = refl;
          user = refl;
          own_id = own;
          same = record {
            queue_depth = same.queue_depth;
            reap_depth = same.reap_depth;
            cpl_nr = same.cpl_nr;
            cpl_ops = same.cpl_ops;
          };
          good = (
            rw type g.0,
            Slots-keep known.queue_depth known.op_ctxs_bitmap known.bitmap_hint known.op_ctxs id
                user final inv_known at_known (rw waits refl) (λ n. own),
          );
        },
      )

-- A request of the device that is for an object.
abbrev pub is_io : BdevIoType → Bool
is_io bdev_read = true
is_io bdev_write = true
is_io _ = false

-- The arguments that a request has for its object.
abbrev pub object_args : BdevIoType → ℕ → Place → Args
object_args bdev_read buffer p = read_args p.obj_id p.obj_offset p.obj_len 0 (some buffer)
object_args _ buffer p = write_args p.obj_id (p.obj_offset % 2 ^ 32) p.obj_len 0

-- All operations of the channel are in use.
abbrev pub Full : IoChannel → Type 0
Full ch = (i : ℕ) (op : OpCtx) → get_elem? ch.op_ctxs i ≡ some op → is_new op.state ≡ false

module _ (ch : IoChannel) (g : Good ch) (bio : ℕ) (args : Args)
    (op_type meta_size meta_buffer data_length data_buffer : ℕ) (short : meta_size ≤ 255) where
  pub prepared-Issued :
      ((id : ℕ) × (was : OpCtx) × (op : OpCtx) × (next : IoChannel) × (issue args
            (prepare_op_common ch op_type meta_size meta_buffer data_length data_buffer)
            bio
          ≡ some (issued args next (op.message ∷ [])))
        × (op.message
            ≡ (prepared ch op_type meta_size meta_buffer data_length data_buffer id was).message)
        × Issued ch next bio id was op)
      ⊎ ((issue args
              (prepare_op_common ch op_type meta_size meta_buffer data_length data_buffer)
              bio
            ≡ none)
          × Full ch)
  unfolding Prepares issue Good
  prepared-Issued =
      elim (prepare_op_common-Prepares op_type meta_size meta_buffer data_length data_buffer ch g.1
        g.0 short) [
          | inl p ↦
              let (id, was, next, below, at, free, result, type, ops, same, inv) = p in
              let op = prepared ch op_type meta_size meta_buffer data_length data_buffer id was in
              let (last, ran, done) =
                issue-Issued ch g bio args next id was op below at free type ops refl refl same
                  inv in
              inl (
                id,
                was,
                record op { user_data = bio; state = op_in_progress },
                last,
                rw result ran,
                refl,
                done,
              )
          | inr (result, full) ↦ inr (rw result refl, full)
        ]

-- What the request has in its message: the buffer goes with a write.
abbrev pub Carries : BdevIoType → ℕ → Place → Message → Type 0
Carries bdev_read buffer p m =
    (m.header.type ≡ op_read) × (m.header.data_length ≡ 0) × (m.data_buffer ≡ 0)
Carries _ buffer p m =
    (m.header.type ≡ op_write) × (m.header.data_length ≡ p.obj_len) × (m.data_buffer ≡ buffer)

-- How a request for blocks goes: with its message, or not at all.
abbrev pub Goes : ZcellDisk → IoChannel → ℕ → BdevIo → Type 0
Goes disk ch meta_buffer io =
    let p = place_of disk io in
    ((id : ℕ) × (was : OpCtx) × (op : OpCtx) × (next : IoChannel) × (submit_request disk ch
          meta_buffer io true
        ≡ some (issued (object_args io.io_type io.iov_base p) next (op.message ∷ [])))
      × Carries io.io_type io.iov_base p op.message
      × Issued ch next io.addr id was op)
    ⊎ ((submit_request disk ch meta_buffer io true ≡ none) × Full ch)

module _ (disk : ZcellDisk) (ch : IoChannel) (meta_buffer : ℕ) (io : BdevIo) (g : Good ch)
    (one : io.iovcnt ≤ 1) (buffer : 0 < io.iov_base) where
  -- The request as it is issued.
  abbrev object_request : BdevIoType → Args × Option (Ret × IoChannel)
  object_request t = object_io t ch meta_buffer io.iov_base (place_of disk io)

  get_buf_cb-issue :
      get_buf_cb disk ch meta_buffer io true
      ≡ issue (object_request io.io_type).0 (object_request io.io_type).1 io.addr
  unfolding get_buf_cb
  get_buf_cb-issue =
      let few : ltb 1 io.iovcnt ≡ false = ground arith in
      let there : (io.iov_base == 0) ≡ false = ground arith in rw (few, there, get_buf_cb) refl

  submit-Goes : (t : BdevIoType) → io.io_type ≡ t → is_io t ≡ true → Goes disk ch meta_buffer io
  unfolding submit_request object_io io_read2 io_write
  submit-Goes bdev_read e kind =
      let p = place_of disk io in
      let run =
        ap (λ t. by_type t (get_buf_cb disk ch meta_buffer io true)) e
        ∙ get_buf_cb-issue
        ∙ ap (λ t. issue (object_request t).0 (object_request t).1 io.addr) e in
      elim (prepared-Issued ch g io.addr (object_args bdev_read io.iov_base p) op_read 40
        meta_buffer 0 0 (omega arith)) [
          | inl (id, was, op, next, ran, msg, done) ↦ inl (
            id,
            was,
            op,
            next,
            run
                ∙ ran
                ∙ ap (λ t. some (issued (object_args t io.iov_base p) next (op.message ∷ [])))
                    (sym e),
            subst (λ t. Carries t io.iov_base p op.message) (sym e)
                (
                  ap (λ m. m.header.type) msg,
                  ap (λ m. m.header.data_length) msg,
                  ap (λ m. m.data_buffer) msg,
                ),
            done,
          )
          | inr (ran, full) ↦ inr (run ∙ ran, full)
        ]
  submit-Goes bdev_write e kind =
      let p = place_of disk io in
      let run =
        ap (λ t. by_type t (get_buf_cb disk ch meta_buffer io true)) e
        ∙ get_buf_cb-issue
        ∙ ap (λ t. issue (object_request t).0 (object_request t).1 io.addr) e in
      elim (prepared-Issued ch g io.addr (object_args bdev_write io.iov_base p) op_write 32
        meta_buffer p.obj_len io.iov_base (omega arith)) [
          | inl (id, was, op, next, ran, msg, done) ↦ inl (
            id,
            was,
            op,
            next,
            run
                ∙ ran
                ∙ ap (λ t. some (issued (object_args t io.iov_base p) next (op.message ∷ [])))
                    (sym e),
            subst (λ t. Carries t io.iov_base p op.message) (sym e)
                (
                  ap (λ m. m.header.type) msg,
                  ap (λ m. m.header.data_length) msg,
                  ap (λ m. m.data_buffer) msg,
                ),
            done,
          )
          | inr (ran, full) ↦ inr (run ∙ ran, full)
        ]
  submit-Goes bdev_flush e kind = cc
  submit-Goes bdev_reset e kind = cc
  submit-Goes bdev_other e kind = cc

-- A read or a write of blocks, with one buffer, on a channel whose ids agree: either it is handed to the messager
-- as one message, for the object and the part of it that `place_of` gives, with the buffer, and one
-- operation that was free is in progress and known by the request, all else being as it was; or all operations
-- of the channel are in use, and an assertion fails.
pub submit_request-Issued :
    (disk : ZcellDisk) (ch : IoChannel) (meta_buffer : ℕ) (io : BdevIo)
    → Good ch
    → is_io io.io_type ≡ true
    → io.iovcnt ≤ 1
    → 0 < io.iov_base
    → Goes disk ch meta_buffer io
submit_request-Issued disk ch meta_buffer io g kind one buffer =
    submit-Goes disk ch meta_buffer io g one buffer io.io_type refl kind
