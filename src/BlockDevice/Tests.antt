-- ===== src/BlockDevice/Tests.antt =====
-- A disk of 2 GiB, and a channel that the device has opened.
use zcell.Base.{
  ℕ, ◌+◌, ◌*◌, ◌^◌, ◌<◌, ◌≤◌, ◌≡◌, inl, inr, refl, ap, true, false, List, [], ◌∷◌, some, map, arith,
  All, get_elem?,
}
use zcell.Message.{Message, local}
use zcell.Client.{IoChannel, no_op, get_io_channel, io_channel_new}
use zcell.Client.Good.{Good}
use zcell.Client.Lifecycle.{get_io_channel-Good, get_io_channel_made}
use zcell.BlockDevice.{
  ZcellDisk, create_zcell_disk, BdevIo, bdev_read, place_of, issued, submit_request, poll_channel,
}
use zcell.BlockDevice.Held.{held}
use zcell.BlockDevice.Stripe.{IsSplit, one_block, place_of-blocks}
use zcell.BlockDevice.Issue.{Full, Goes, object_args, submit_request-Issued}
use zcell.BlockDevice.Complete.{listed, Distinct, Completed, answer_of}
use zcell.BlockDevice.Once.{Run, Run-once, Run-poll}

abbrev disk : ZcellDisk
disk = (create_zcell_disk 0 2).0

-- Blocks 1030 to 1034, which are in the second object.
abbrev io : BdevIo
io = record {
  addr = 77;
  io_type = bdev_read;
  offset_blocks = 1030;
  num_blocks = 5;
  iovcnt = 1;
  iov_base = 4096;
}

io-IsSplit : IsSplit disk io
unfolding create_zcell_disk
io-IsSplit = record { some_block = omega arith; one_stripe = omega arith; within = omega arith }

place_of-blocks_example :
    let p = place_of disk io in
    (p.obj_len ≡ 20480)
    × (p.obj_offset + p.obj_len ≤ 4 * 2 ^ 20)
    × (p.obj_id < 512)
    × ((k : ℕ)
        → k < 5
        → let one = place_of disk (one_block io (1030 + k)) in
          (one.obj_id ≡ p.obj_id)
          × (one.obj_offset ≡ p.obj_offset + 4096 * k)
          × (one.obj_len ≡ 4096))
    × ((a b : ℕ)
        → a < disk.blockcnt
        → b < disk.blockcnt
        → (place_of disk (one_block io a)).obj_id ≡ (place_of disk (one_block io b)).obj_id
        → (place_of disk (one_block io a)).obj_offset ≡ (place_of disk (one_block io b)).obj_offset
        → a ≡ b)
place_of-blocks_example = place_of-blocks 0 2 io (omega arith) io-IsSplit

abbrev opened : IoChannel
opened = record (io_channel_new 512 512) { session = 5; session_type = local }

made : get_io_channel local 5 512 ≡ some opened
unfolding get_io_channel
made = refl

opened-Good : Good opened
opened-Good = get_io_channel-Good local 5 8 opened (inl refl) (omega arith) made

submit_request-Issued_example : Goes disk opened 900 io
submit_request-Issued_example =
    submit_request-Issued disk opened 900 io opened-Good refl (omega arith) (omega arith)

not-Full : Full opened → ⊥
not-Full full =
    let (ops, nr, list, depth) = get_io_channel_made local 5 512 opened (omega arith) made in
    let bad : true ≡ false = full 0 no_op (ap (λ l. get_elem? l 0) ops) in cc

-- The request is submitted.
submitted :
    (next : IoChannel) × (sent : List Message) × (submit_request disk opened 900 io true
      ≡ some (issued (object_args bdev_read 4096 (place_of disk io)) next sent))
submitted = elim submit_request-Issued_example [
  | inl (id, was, op, next, ran, carries, i) ↦ (next, op.message ∷ [], ran)
  | inr (ran, full) ↦ absurd (not-Full full)
]

one_submitted : Run disk opened (77 ∷ []) [] [] submitted.0
one_submitted =
    Run.submits 900 io (object_args bdev_read 4096 (place_of disk io)) submitted.0 submitted.1
      Run.opened refl (omega arith) (omega arith) submitted.2

Run-once_example : 1 ≡ 0 + 0 + held 77 submitted.0.op_ctxs
Run-once_example = Run-once disk 5 opened submitted.0 (77 ∷ []) [] [] 77 made one_submitted

Run-poll_example :
    (ids : List ℕ) × (next : IoChannel) × (poll_channel submitted.0
      ≡ some (map (answer_of submitted.0.op_ctxs) ids, next))
    × Distinct ids
    × All (Completed submitted.0.op_ctxs) ids
    × ((j : ℕ) → Completed submitted.0.op_ctxs j → listed j ids ≡ true)
    × ((j : ℕ) → ¬ Completed next.op_ctxs j)
Run-poll_example = Run-poll disk 5 opened submitted.0 (77 ∷ []) [] [] made one_submitted
