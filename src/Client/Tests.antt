-- ===== src/Client/Tests.antt =====
-- A remote channel of 64 operations, and one with its first operation in progress.
use zcell.Base.{
  ℕ, ◌≡◌, ◌⊎◌, inr, refl, true, false, [], ◌∷◌, none, some, get_elem?, set, replicate, arith, All,
}
use zcell.Bitmap.{get_bit, constructor, find_next_set_and_clr, next_set, next_in, lowest_bit}
use zcell.Base.Word.{test_bit}
use zcell.Message.{Message, remote, op_read, no_message}
use zcell.Server.{OpArgs}
use zcell.Client.{
  OpCtx, op_in_progress, op_waiting_submit, op_end, is_new, IoChannel, returns, enomem, no_op,
  get_io_channel, io_channel_new, prepared, prepare_op, prepare_op_common, alloc_op, on_recv_msg,
  op_claim_result, op_destroy, put_op,
}
use zcell.Client.Slots.{Inv, Slots-taken, Slots-keep, io_channel_new-Slots}
use zcell.Client.Steps.{Answers, Prepares, prepare_op_common-Prepares}
use zcell.Client.Good.{Waits}
use zcell.Client.Lifecycle.{done, step, prepare, Steps-ids}
use zcell.Client.Answer.{op_destroy-op_claim_result}

abbrev opened : IoChannel
opened = record (io_channel_new 64 64) { session = 7; session_type = remote }

opened-Inv : Inv opened
unfolding io_channel_new
opened-Inv = io_channel_new-Slots 1

prepare_op_common-Prepares_example :
    Prepares op_read 40 9 0 0 opened
    ⊎ ((prepare_op_common opened op_read 40 9 0 0 ≡ some (enomem, opened))
        × ((i : ℕ) (op : OpCtx) → get_elem? opened.op_ctxs i ≡ some op → is_new op.state ≡ false))
prepare_op_common-Prepares_example =
    prepare_op_common-Prepares op_read 40 9 0 0 opened opened-Inv (inr refl) (omega arith)

-- The channel after a request.
abbrev requested : IoChannel
requested = elim (prepare_op_common opened op_read 40 9 0 0) [ none ↦ opened | some p ↦ p.1 ]

requested_is : prepare_op_common opened op_read 40 9 0 0 ≡ some (returns 0, requested)
unfolding prepare_op_common alloc_op prepare_op find_next_set_and_clr next_set next_in lowest_bit
    io_channel_new constructor test_bit
requested_is = refl

abbrev the_op : OpCtx
the_op = prepared opened op_read 40 9 0 0 0 no_op

-- The same channel, written out.
abbrev waiting : IoChannel
waiting = record opened {
  seq = 1;
  bitmap_hint = 1;
  op_ctxs_bitmap = (find_next_set_and_clr (constructor 64 true) 0).1;
  op_ctxs = set (replicate 64 no_op) 0 the_op;
}

waiting-Inv : Inv waiting
unfolding find_next_set_and_clr next_set next_in lowest_bit io_channel_new constructor test_bit
waiting-Inv =
    Slots-taken 64 (constructor 64 true) 0 (replicate 64 no_op) 0 the_op (io_channel_new-Slots 1)
      refl refl refl

waiting-Waits : All (Waits waiting) (0 ∷ [])
unfolding io_channel_new
waiting-Waits = ((the_op, refl, refl), tt)

-- The channel whose operation is in progress, and a response with status 0 and 4096 bytes.
abbrev going : IoChannel
going = put_op waiting 0 (record the_op { state = op_in_progress })

going-Inv : Inv going
unfolding io_channel_new
going-Inv =
    Slots-keep 64 waiting.op_ctxs_bitmap 1 waiting.op_ctxs 0 the_op
      (record the_op { state = op_in_progress }) waiting-Inv refl refl (λ n. refl)

abbrev response : Message
response = record no_message {
  header = record the_op.message.header { meta_length = 0; data_length = 4096 };
  data_buffer = 77;
}

going-Answers : Answers going response (record the_op { state = op_in_progress })
unfolding io_channel_new
going-Answers = record {
  at = refl;
  pending = refl;
  no_meta = refl;
  same_seq = refl;
  same_type = refl;
  room = omega arith;
}

op_destroy-op_claim_result_example :
    (a : IoChannel) × (b : IoChannel) × (on_recv_msg going response ≡ some a)
    × (op_claim_result a 0 ≡ (
      some (record { op_type = op_read; status = 0; data_buffer = 77; data_len = 4096 }),
      put_op a 0 (record the_op { message = response; state = op_end }),
    ))
    × (op_destroy (op_claim_result a 0).1 0 ≡ some (returns 0, b))
    × (get_bit b.op_ctxs_bitmap 0 ≡ true)
    × Inv b
op_destroy-op_claim_result_example =
    op_destroy-op_claim_result going response (record the_op { state = op_in_progress }) going-Inv
      going-Answers

-- Four operations have completed.
abbrev completed : IoChannel
completed = record opened { cpl_nr = 4; cpl_ops = 3 ∷ 1 ∷ 0 ∷ 2 ∷ [] }

Steps-ids_example :
    (get_bit requested.op_ctxs_bitmap 0 ≡ false)
    × (is_new op_waiting_submit ≡ false → the_op.message.header.rsv0 ≡ 0)
unfolding prepare_op_common alloc_op prepare_op find_next_set_and_clr next_set next_in lowest_bit
    io_channel_new constructor test_bit get_io_channel
Steps-ids_example =
    Steps-ids remote 7 1 opened requested (inr refl) (omega arith) refl
      (step done (prepare op_read 40 9 0 0 (returns 0) requested (omega arith) requested_is)) 0
      the_op refl

-- The request as the server has it, and the length of its arguments.
abbrev refused : Message
refused = record no_message { header = the_op.message.header }

abbrev server_args : ℕ → OpArgs
server_args at = record { len = 4096; read_buffer_zero_copy_addr = 0 }
