-- ===== src/Client/Steps.antt =====
-- The calls of the client library as steps of a channel, and what each keeps of its ids.
use zcell.Base.{
  ℕ, ◌+◌, ◌%◌, ◌^◌, ◌||◌, ◌<◌, ◌≤◌, ◌≡◌, ◌⊎◌, inl, inr, refl, sym, ap, ◌∙◌, true, false, List, [],
  ◌∷◌, some, get_elem?, set, arith, if◌then◌else◌, ltb, ◌==◌, Option-cases, get_elem?-lt, ==_iff,
  get_elem?-set, All, All-weaken,
}
use zcell.Bitmap.Laws.{get_bit-update}
use zcell.Bitmap.{get_bit, set_bit, find_next_set_and_clr}
use zcell.Message.{Message, local, remote}
use zcell.Client.{
  OpCtx, op_new, op_in_progress, op_completed, op_end, is_new, is_completed, is_end, IoChannel,
  returns, enomem, prepared, prepare_op, prepare_op_common, alloc_op, free_op, mark_in_progress,
  on_recv_msg, op_claim_result, op_destroy, put_op,
}
use zcell.Client.Slots.{Inv, Slots-full, Slots-take, Slots-taken, Slots-keep, Slots-free}

-- Two channels have the same depths and the same completed operations.
pub record SameCompletions (a b : IoChannel) : Type 0 where
  pub queue_depth : b.queue_depth ≡ a.queue_depth
  pub reap_depth : b.reap_depth ≡ a.reap_depth
  pub cpl_nr : b.cpl_nr ≡ a.cpl_nr
  pub cpl_ops : b.cpl_ops ≡ a.cpl_ops

-- A channel that `get_io_channel_with` or `get_io_channel_with_local` has made.
abbrev pub Known : IoChannel → Type 0
Known ch = (ch.session_type ≡ local) ⊎ (ch.session_type ≡ remote)

-- The channel whose next id has been taken.
abbrev Taken : IoChannel → ℕ → IoChannel
Taken ch id = record ch {
  bitmap_hint = id + 1;
  op_ctxs_bitmap = (find_next_set_and_clr ch.op_ctxs_bitmap ch.bitmap_hint).1;
}

alloc_op_found :
    (ch : IoChannel) (id : ℕ)
    → (find_next_set_and_clr ch.op_ctxs_bitmap ch.bitmap_hint).0 ≡ some id
    → alloc_op ch ≡ (some id, Taken ch id)
unfolding alloc_op
alloc_op_found ch id e = rw (e, alloc_op) refl

module _ (op_type meta_size meta_buffer data_length data_buffer : ℕ) where
  -- The channel that has taken the id, and its new operation.
  abbrev Next : IoChannel → ℕ → OpCtx → IoChannel
  Next ch id was =
      put_op (record (Taken ch id) { seq = (ch.seq + 1) % 2 ^ 64 }) id
        (prepared ch op_type meta_size meta_buffer data_length data_buffer id was)

  -- What `_io_prepare_op_common` does on a channel with a free id.
  unfoldable pub Prepares : IoChannel → Type 0
  Prepares ch =
      (id : ℕ) × (was : OpCtx) × (next : IoChannel) × (id < ch.queue_depth)
      × (get_elem? ch.op_ctxs id ≡ some was)
      × (is_new was.state ≡ true)
      × (prepare_op_common ch op_type meta_size meta_buffer data_length data_buffer
          ≡ some (returns id, next))
      × (next.session_type ≡ ch.session_type)
      × (next.op_ctxs
          ≡ set ch.op_ctxs id
              (prepared ch op_type meta_size meta_buffer data_length data_buffer id was))
      × SameCompletions ch next
      × Inv next

  -- On a channel whose ids agree with its bitmap, as it is made with a depth that is a multiple of 64,
  -- with known session type and a meta buffer of at most 255 bytes: either an operation that was free
  -- is prepared, with an id below the depth, or all the operations are in use, -ENOMEM is returned
  -- and the channel is as it was.
  pub prepare_op_common-Prepares :
      (ch : IoChannel)
      → Inv ch
      → Known ch
      → meta_size ≤ 255
      → Prepares ch
        ⊎ ((prepare_op_common ch op_type meta_size meta_buffer data_length data_buffer
              ≡ some (enomem, ch))
            × ((i : ℕ) (op : OpCtx) → get_elem? ch.op_ctxs i ≡ some op → is_new op.state ≡ false))
  unfolding Prepares prepare_op_common alloc_op prepare_op
  prepare_op_common-Prepares ch s known short =
      elim (Option-cases (find_next_set_and_clr ch.op_ctxs_bitmap ch.bitmap_hint).0) [
        | inl e ↦ inr (
          rw (e, alloc_op, prepare_op_common) refl,
          λ i op at.
              Slots-full ch.queue_depth ch.op_ctxs_bitmap ch.bitmap_hint ch.op_ctxs s e i op at,
        )
        | inr (id, e) ↦
            let (below, (was, (at, free))) =
              Slots-take ch.queue_depth ch.op_ctxs_bitmap ch.bitmap_hint ch.op_ctxs id s e in
            let fits : ltb 255 meta_size ≡ false = ground arith in
            let session : ((ch.session_type == local) || (ch.session_type == remote)) ≡ true =
              elim known [ inl k ↦ rw k refl | inr k ↦ rw k refl ] in
            inl (
              id,
              was,
              Next ch id was,
              below,
              at,
              free,
              rw
                  (
                    ap (λ p. p.0) (alloc_op_found ch id e),
                    at,
                    ap (λ p. p.1) (alloc_op_found ch id e),
                    fits,
                    session,
                    prepare_op,
                    prepare_op_common,
                  )
                  refl,
              refl,
              refl,
              record { queue_depth = refl; reap_depth = refl; cpl_nr = refl; cpl_ops = refl },
              Slots-taken ch.queue_depth ch.op_ctxs_bitmap ch.bitmap_hint ch.op_ctxs id
                  (prepared ch op_type meta_size meta_buffer data_length data_buffer id was) s e
                  refl refl,
            )
      ]

-- The operation is in use.
abbrev pub InUse : IoChannel → ℕ → Type 0
InUse ch id = (op : OpCtx) → get_elem? ch.op_ctxs id ≡ some op → is_new op.state ≡ false

InUse-put :
    (ch : IoChannel) (id j : ℕ) (op : OpCtx)
    → is_new op.state ≡ false
    → InUse ch j
    → InUse (put_op ch id op) j
InUse-put ch id j op used h w e = elim (get_elem?-set ch.op_ctxs id j op w e) [
  | inl (same, k) ↦ ap (λ o. is_new o.state) k ∙ used
  | inr (other, k) ↦ h w k
]

-- Submitting leaves every operation in use with its id.
pub mark_in_progress-Inv :
    (ch : IoChannel) (ops : List ℕ) → Inv ch → All (InUse ch) ops → Inv (mark_in_progress ch ops)
unfolding mark_in_progress
mark_in_progress-Inv ch [] s used = s
mark_in_progress-Inv ch (opd ∷ ops) s used = elim (Option-cases (get_elem? ch.op_ctxs opd)) [
  | inl e ↦ rw (e, mark_in_progress) (mark_in_progress-Inv ch ops s used.1)
  | inr (op, e) ↦
      let busy : OpCtx = record op { state = op_in_progress } in
      rw (e, mark_in_progress)
        (mark_in_progress-Inv (put_op ch opd busy) ops
          (Slots-keep ch.queue_depth ch.op_ctxs_bitmap ch.bitmap_hint ch.op_ctxs opd op busy s e
            (sym (used.0 op e)) (λ n. s.own_id opd op e (used.0 op e)))
          (All-weaken (λ j h. InUse-put ch opd j busy refl h) ops used.1))
]

-- A response for an operation in progress.
pub record Answers (ch : IoChannel) (msg : Message) (op : OpCtx) : Type 0 where
  pub at : get_elem? ch.op_ctxs msg.header.rsv0 ≡ some op
  pub pending : op.state ≡ op_in_progress
  pub no_meta : msg.meta_buffer ≡ 0
  pub same_seq : op.message.header.seq ≡ msg.header.seq
  pub same_type : op.message.header.type ≡ msg.header.type
  pub room : ch.cpl_nr < ch.reap_depth

pub on_recv_msg-Inv :
    (ch : IoChannel) (msg : Message) (op : OpCtx)
    → Inv ch
    → Answers ch msg op
    → (next : IoChannel) × (on_recv_msg ch msg ≡ some next)
      × (next.session_type ≡ ch.session_type)
      × (next.op_ctxs
          ≡ set ch.op_ctxs msg.header.rsv0 (record op { message = msg; state = op_completed }))
      × (next.cpl_nr ≡ ch.cpl_nr + 1)
      × (next.cpl_ops ≡ set ch.cpl_ops ch.cpl_nr msg.header.rsv0)
      × (next.reap_depth ≡ ch.reap_depth)
      × Inv next
unfolding on_recv_msg
on_recv_msg-Inv ch msg op s a =
    let one : (msg.meta_buffer == 0) ≡ true = (==_iff msg.meta_buffer 0).1 a.no_meta in
    let two : (op.message.header.seq == msg.header.seq) ≡ true =
      (==_iff op.message.header.seq msg.header.seq).1 a.same_seq in
    let three : (op.message.header.type == msg.header.type) ≡ true =
      (==_iff op.message.header.type msg.header.type).1 a.same_type in
    let four : ltb ch.cpl_nr ch.reap_depth ≡ true = ground (arith, a.room) in
    (
      record (put_op ch msg.header.rsv0 (record op { message = msg; state = op_completed })) {
        cpl_ops = set ch.cpl_ops ch.cpl_nr msg.header.rsv0;
        cpl_nr = ch.cpl_nr + 1;
      },
      rw (a.at, one, two, three, four, on_recv_msg) refl,
      refl,
      refl,
      refl,
      refl,
      refl,
      Slots-keep ch.queue_depth ch.op_ctxs_bitmap ch.bitmap_hint ch.op_ctxs msg.header.rsv0 op
          (record op { message = msg; state = op_completed }) s a.at (rw a.pending refl)
          (λ n. refl),
    )

pub op_claim_result-Inv :
    (ch : IoChannel) (id : ℕ) (op : OpCtx)
    → Inv ch
    → get_elem? ch.op_ctxs id ≡ some op
    → op.state ≡ op_completed
    → let next = put_op ch id (record op { state = op_end }) in
      (op_claim_result ch id ≡ (
        some (record {
          op_type = op.message.header.type;
          status = op.message.header.status;
          data_buffer = op.message.data_buffer;
          data_len = op.message.header.data_length;
        }),
        next,
      ))
      × Inv next
unfolding op_claim_result
op_claim_result-Inv ch id op s at done =
    let below : ltb id ch.queue_depth ≡ true =
      ground (arith, s.size, get_elem?-lt ch.op_ctxs id op at) in
    let complete : is_completed op.state ≡ true = rw done refl in
    (
      rw (at, below, complete, op_claim_result) refl,
      Slots-keep ch.queue_depth ch.op_ctxs_bitmap ch.bitmap_hint ch.op_ctxs id op
          (record op { state = op_end }) s at (rw done refl)
          (λ n. s.own_id id op at (rw done refl)),
    )

pub op_destroy-Inv :
    (ch : IoChannel) (id : ℕ) (op : OpCtx)
    → Inv ch
    → get_elem? ch.op_ctxs id ≡ some op
    → op.state ≡ op_end
    → (next : IoChannel) × (op_destroy ch id ≡ some (returns 0, next))
      × (next.session_type ≡ ch.session_type)
      × (get_bit next.op_ctxs_bitmap id ≡ true)
      × (next.op_ctxs ≡ set ch.op_ctxs id (record op { state = op_new }))
      × SameCompletions ch next
      × Inv next
unfolding op_destroy free_op
op_destroy-Inv ch id op s at done =
    let below : ltb id ch.queue_depth ≡ true =
      ground (arith, s.size, get_elem?-lt ch.op_ctxs id op at) in
    let own : op.message.header.rsv0 ≡ id = s.own_id id op at (rw done refl) in
    let ended : is_end op.state ≡ true = rw done refl in
    let clear : get_bit ch.op_ctxs_bitmap id ≡ false = s.agree id op at ∙ rw done refl in
    (
      record (put_op ch id (record op { state = op_new })) {
        op_ctxs_bitmap = set_bit ch.op_ctxs_bitmap id;
        bitmap_hint = if ltb id ch.bitmap_hint then id else ch.bitmap_hint;
      },
      rw (at, below, done, ended, own, clear, free_op, op_destroy) refl,
      refl,
      (get_bit-update ch.op_ctxs_bitmap id id
            (omega (arith, s.whole, s.size, get_elem?-lt ch.op_ctxs id op at))).0
          ∙ rw ((==_iff id id).1 refl) refl,
      refl,
      record { queue_depth = refl; reap_depth = refl; cpl_nr = refl; cpl_ops = refl },
      Slots-free ch.queue_depth ch.op_ctxs_bitmap ch.bitmap_hint ch.op_ctxs id
          (record op { state = op_new }) s (omega (arith, s.size, get_elem?-lt ch.op_ctxs id op at))
          refl,
    )
