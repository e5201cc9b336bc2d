-- ===== src/Client/Answer.antt =====
-- The way of one operation through a channel: submitted, answered, claimed and freed.
use native.Mathlib.Decide.{ℕ_discrete}
use zcell.Base.{
  ℕ, ◌*◌, ◌-◌, ◌<◌, ◌≤◌, ◌≡◌, ◌⊎◌, inl, inr, refl, sym, ap, ap₂, ◌∙◌, true, false, List, [], ◌∷◌,
  map, take, none, some, length, get_elem?, get_elem?-lt, get_elem?-set_self, set, arith,
  if◌then◌else◌, ltb, leb, Option-cases, All, All-weaken, get_elem?-set_ne, get_elem?-some,
  length-set, subst,
}
use zcell.Bitmap.{get_bit}
use zcell.Message.{Message}
use zcell.Client.{
  OpCtx, op_in_progress, op_waiting_submit, op_completed, op_end, is_waiting, IoChannel, returns,
  message_of, all_submittable, mark_in_progress, io_submit_to_channel, on_recv_msg, io_poll_channel,
  op_claim_result, op_destroy, put_op,
}
use zcell.Client.Slots.{Inv}
use zcell.Client.Steps.{Answers, on_recv_msg-Inv, op_claim_result-Inv, op_destroy-Inv}
use zcell.Client.Good.{Waits, free_op-ended}

-- A response for an operation in progress is taken over; claiming its result gives the type, the
-- status and the data of the response; destroying it then returns 0, and the id is free again.
pub op_destroy-op_claim_result :
    (ch : IoChannel) (msg : Message) (op : OpCtx)
    → Inv ch
    → Answers ch msg op
    → let id = msg.header.rsv0 in
      (a : IoChannel) × (b : IoChannel) × (on_recv_msg ch msg ≡ some a)
      × (op_claim_result a id ≡ (
        some (record {
          op_type = msg.header.type;
          status = msg.header.status;
          data_buffer = msg.data_buffer;
          data_len = msg.header.data_length;
        }),
        put_op a id (record op { message = msg; state = op_end }),
      ))
      × (op_destroy (op_claim_result a id).1 id ≡ some (returns 0, b))
      × (get_bit b.op_ctxs_bitmap id ≡ true)
      × Inv b
op_destroy-op_claim_result ch msg op s h =
    let id = msg.header.rsv0 in
    let (a, received, type, ops, nr, list, depth, good) = on_recv_msg-Inv ch msg op s h in
    let inside : id < length ch.op_ctxs = get_elem?-lt ch.op_ctxs id op h.at in
    let done : OpCtx = record op { message = msg; state = op_completed } in
    let at : get_elem? a.op_ctxs id ≡ some done =
      ap (λ l. get_elem? l id) ops ∙ get_elem?-set_self ch.op_ctxs id done inside in
    let (claimed, kept) = op_claim_result-Inv a id done good at refl in
    let ended : OpCtx = record done { state = op_end } in
    let at' : get_elem? (put_op a id ended).op_ctxs id ≡ some ended =
      get_elem?-set_self a.op_ctxs id ended (get_elem?-lt a.op_ctxs id done at) in
    let (b, destroyed, type', free, ops', same, good') =
      op_destroy-Inv (put_op a id ended) id ended kept at' refl in
    (a, b, received, claimed, rw claimed destroyed, free, good')

-- An operation that waits, or whose result is not claimed, is not destroyed: `_free_op` asserts that
-- it has ended. One in progress is refused.
pub op_destroy-unended :
    (ch : IoChannel) (id : ℕ) (op : OpCtx)
    → get_elem? ch.op_ctxs id ≡ some op
    → id < ch.queue_depth
    → (op.state ≡ op_waiting_submit) ⊎ (op.state ≡ op_completed)
    → op_destroy ch id ≡ none
unfolding op_destroy
op_destroy-unended ch id op at below state =
    let inside : ltb id ch.queue_depth ≡ true = ground arith in
    elim state [
      | inl k ↦ rw (at, inside, k, free_op-ended ch id op (rw k refl), op_destroy) refl
      | inr k ↦ rw (at, inside, k, free_op-ended ch id op (rw k refl), op_destroy) refl
    ]

poll_takes :
    (ch : IoChannel) (max : ℕ)
    → max ≤ ch.reap_depth
    → max ≤ ch.cpl_nr
    → io_poll_channel ch 0 max ≡ (
      some (map (λ at. (message_of ch at).header.rsv0) (take max ch.cpl_ops)),
      record ch { cpl_nr = ch.cpl_nr - max },
    )
unfolding io_poll_channel
poll_takes ch max fits more =
    let ordered : ltb max 0 ≡ false = ground arith in
    let reap : (if ltb max ch.reap_depth then max else ch.reap_depth) ≡ max =
      ground (arith, fits) in
    let all : (if ltb max ch.cpl_nr then max else ch.cpl_nr) ≡ max = ground (arith, more) in
    rw (ordered, reap, all, io_poll_channel) refl

-- When at least twice as many operations have completed as a poll takes, and no response comes
-- between, the next poll returns the same ids: those that a poll leaves are not moved up.
pub io_poll_channel_again :
    (ch : IoChannel) (max : ℕ)
    → max ≤ ch.reap_depth
    → 2 * max ≤ ch.cpl_nr
    → let (first, next) = io_poll_channel ch 0 max in
      (first ≡ some (map (λ at. (message_of ch at).header.rsv0) (take max ch.cpl_ops)))
      × ((io_poll_channel next 0 max).0 ≡ first)
unfolding message_of
io_poll_channel_again ch max fits more =
    let first = poll_takes ch max fits (omega arith) in
    let next = record ch { cpl_nr = ch.cpl_nr - max } in
    rw first (refl, ap (λ p. p.0) (poll_takes next max fits (omega arith)))

message_of_at :
    (ch : IoChannel) (id : ℕ) (op : OpCtx)
    → get_elem? ch.op_ctxs id ≡ some op
    → message_of ch id ≡ op.message
unfolding message_of
message_of_at ch id op e = rw (e, message_of) refl

-- The messages of operations carry their ids.
ids_of :
    (ch : IoChannel) (ops : List ℕ)
    → Inv ch
    → All (Waits ch) ops
    → map (λ m. m.header.rsv0) (map (message_of ch) ops) ≡ ops
ids_of ch [] s h = refl
ids_of ch (opd ∷ ops) s h =
    let (op, at, waits) = h.0 in
    let own : op.message.header.rsv0 ≡ opd = s.own_id opd op at (rw waits refl) in
    let rest = ids_of ch ops s h.1 in
    ap₂ (λ x xs. x ∷ xs) (ap (λ m. m.header.rsv0) (message_of_at ch opd op at) ∙ own) rest

all_submittable-all :
    (ch : IoChannel) (ops : List ℕ)
    → Inv ch
    → All (Waits ch) ops
    → all_submittable ch ops ≡ some true
unfolding all_submittable
all_submittable-all ch [] s h = refl
all_submittable-all ch (opd ∷ ops) s h =
    let (op, at, waits) = h.0 in
    let inside : leb opd ch.queue_depth ≡ true =
      ground (arith, s.size, get_elem?-lt ch.op_ctxs opd op at) in
    let state : is_waiting op.state ≡ true = rw waits refl in
    rw (at, inside, state, all_submittable) (all_submittable-all ch ops s h.1)

-- The operation is in progress, with some message.
abbrev pub Progresses : IoChannel → ℕ → Type 0
Progresses ch id = (op : OpCtx) × (get_elem? ch.op_ctxs id ≡ some op) × (op.state ≡ op_in_progress)

Has : IoChannel → ℕ → Type 0
Has ch id = (op : OpCtx) × (get_elem? ch.op_ctxs id ≡ some op)

Waits-Has : (ch : IoChannel) (id : ℕ) → Waits ch id → Has ch id
unfolding Has
Waits-Has ch id w = (w.0, w.1)

abbrev busy : OpCtx → OpCtx
busy op = record op { state = op_in_progress }

Progresses-put :
    (ch : IoChannel) (id j : ℕ) (op : OpCtx)
    → get_elem? ch.op_ctxs id ≡ some op
    → Progresses ch j
    → Progresses (put_op ch id (busy op)) j
Progresses-put ch id j op at h = elim (ℕ_discrete id j) [
  | yes e ↦ (
    busy op,
    ap (λ k. get_elem? (set ch.op_ctxs id (busy op)) k) (sym e)
        ∙ get_elem?-set_self ch.op_ctxs id (busy op) (get_elem?-lt ch.op_ctxs id op at),
    refl,
  )
  | no ne ↦ (h.0, get_elem?-set_ne ch.op_ctxs id j (busy op) ne ∙ h.1, h.2)
]

Has-put :
    (ch : IoChannel) (id j : ℕ) (op : OpCtx)
    → get_elem? ch.op_ctxs id ≡ some op
    → Has ch j
    → Has (put_op ch id (busy op)) j
unfolding Has
Has-put ch id j op at h =
    get_elem?-some (set ch.op_ctxs id (busy op)) j
      (omega (arith, get_elem?-lt ch.op_ctxs j h.0 h.1, length-set ch.op_ctxs id (busy op)))

marked_keeps :
    (ch : IoChannel) (ops : List ℕ) (j : ℕ)
    → Progresses ch j
    → Progresses (mark_in_progress ch ops) j
unfolding mark_in_progress
marked_keeps ch [] j h = h
marked_keeps ch (opd ∷ ops) j h = elim (Option-cases (get_elem? ch.op_ctxs opd)) [
  | inl e ↦ rw (e, mark_in_progress) (marked_keeps ch ops j h)
  | inr (op, e) ↦
      rw (e, mark_in_progress)
        (marked_keeps (put_op ch opd (busy op)) ops j (Progresses-put ch opd j op e h))
]

marked :
    (ch : IoChannel) (ops : List ℕ)
    → All (Has ch) ops
    → All (Progresses (mark_in_progress ch ops)) ops
unfolding mark_in_progress Has
marked ch [] h = tt
marked ch (opd ∷ ops) h =
    let (op, at) = h.0 in
    let next = put_op ch opd (busy op) in
    let now = get_elem?-set_self ch.op_ctxs opd (busy op) (get_elem?-lt ch.op_ctxs opd op at) in
    let same : mark_in_progress ch (opd ∷ ops) ≡ mark_in_progress next ops =
      rw (at, mark_in_progress) refl in
    subst (λ c. All (Progresses c) (opd ∷ ops)) (sym same)
      (
        marked_keeps next ops opd (busy op, now, refl),
        marked next ops (All-weaken (λ j k. Has-put ch opd j op at k) ops h.1),
      )

-- Of operations that wait, in a channel whose ids agree, a submission is accepted: it hands over one
-- message for each, in their order and with their ids, and marks them as in progress.
pub io_submit_to_channel-Waits :
    (ch : IoChannel) (ops : List ℕ)
    → Inv ch
    → All (Waits ch) ops
    → let sent = map (message_of ch) ops in
      (io_submit_to_channel ch ops ≡ some (returns 0, mark_in_progress ch ops, sent))
      × (map (λ m. m.header.rsv0) sent ≡ ops)
      × All (Progresses (mark_in_progress ch ops)) ops
unfolding io_submit_to_channel
io_submit_to_channel-Waits ch ops s h = (
  rw (all_submittable-all ch ops s h, io_submit_to_channel) refl,
  ids_of ch ops s h,
  marked ch ops (All-weaken (λ i w. Waits-Has ch i w) ops h),
)
