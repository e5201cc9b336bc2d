-- ===== src/Client/Lifecycle.antt =====
-- A channel under any sequence of calls.
use mathlib.Core.Option.{some-injective, some-ne-none}
use zcell.Base.{
  ℕ, ◌*◌, ◌<◌, ◌≤◌, ◌≡◌, ◌⊎◌, inl, inr, sym, ◌∙◌, false, List, some, get_elem?, arith, ◌==◌,
  Bool-cases, subst, ap, replicate, if◌then◌else◌,
}
use zcell.Bitmap.{get_bit}
use zcell.Message.{Message, local, remote}
use zcell.Client.{
  OpCtx, is_new, no_op, ring_max, IoChannel, get_io_channel, io_channel_new, Ret, prepare_op_common,
  io_submit_to_channel, on_recv_msg, io_poll_channel, op_claim_result, op_destroy, op_set_userdata,
}
use zcell.Client.Slots.{io_channel_new-Slots}
use zcell.Client.Steps.{Answers, on_recv_msg-Inv}
use zcell.Client.Good.{
  Good, prepare-Good, submit-Good, poll-Good, set_userdata-Good, claim-Good, destroy-Good,
}

-- One call, or one response from the messager, that does not fail an assertion.
pub data Step (ch : IoChannel) : IoChannel → Type 0 where
  prepare :
      (op_type meta_size meta_buffer data_length data_buffer : ℕ) (ret : Ret) (next : IoChannel)
      → meta_size ≤ 255
      → prepare_op_common ch op_type meta_size meta_buffer data_length data_buffer
        ≡ some (ret, next)
      → Step ch next
  submit :
      (ops : List ℕ) (ret : Ret) (next : IoChannel) (sent : List Message)
      → io_submit_to_channel ch ops ≡ some (ret, next, sent)
      → Step ch next
  arrive :
      (msg : Message) (op : OpCtx) (next : IoChannel)
      → Answers ch msg op
      → on_recv_msg ch msg ≡ some next
      → Step ch next
  poll : (min max : ℕ) → Step ch (io_poll_channel ch min max).1
  set_userdata :
      (id userdata : ℕ) (next : IoChannel)
      → op_set_userdata ch id userdata ≡ some next
      → Step ch next
  claim : (id : ℕ) → Step ch (op_claim_result ch id).1
  destroy :
      (id : ℕ) (ret : Ret) (next : IoChannel) → op_destroy ch id ≡ some (ret, next) → Step ch next

pub data Steps : IoChannel → IoChannel → Type 0 where
  done : {ch : IoChannel} → Steps ch ch
  step : {a b c : IoChannel} → Steps a b → Step b c → Steps a c

-- Every step keeps a channel good.
Step-Good : (a b : IoChannel) → Good a → Step a b → Good b
unfolding Good
Step-Good a b g (prepare op_type meta_size meta_buffer data_length data_buffer ret next short e) =
    prepare-Good a op_type meta_size meta_buffer data_length data_buffer ret next short g e
Step-Good a b g (submit ops ret next sent e) = submit-Good a ops ret next sent g e
Step-Good a b g (arrive msg op next answers e) =
    let (after, result, type, ops, nr, list, depth, inv) = on_recv_msg-Inv a msg op g.1 answers in
    subst Good (some-injective after next (sym result ∙ e)) (rw type g.0, inv)
Step-Good a b g (poll min max) = poll-Good a min max g
Step-Good a b g (set_userdata id userdata next e) = set_userdata-Good a id userdata next g e
Step-Good a b g (claim id) = claim-Good a id g
Step-Good a b g (destroy id ret next e) = destroy-Good a id ret next g e

Steps-Good : (a b : IoChannel) → Good a → Steps a b → Good b
Steps-Good a b g done = g
Steps-Good a b g (step steps last) = Step-Good _ b (Steps-Good a _ g steps) last

pub get_io_channel-Good :
    (session_type session n : ℕ) (ch : IoChannel)
    → (session_type ≡ local) ⊎ (session_type ≡ remote)
    → 0 < n
    → get_io_channel session_type session (64 * n) ≡ some ch
    → Good ch
unfolding get_io_channel io_channel_new Good
get_io_channel-Good session_type session n ch known some_depth e =
    elim (Bool-cases (session == 0)) [
      | inl z ↦ absurd (some-ne-none ch (sym (rw (z, get_io_channel) at e)))
      | inr z ↦
          let deep : (64 * n == 0) ≡ false = ground arith in
          subst Good (some-injective _ ch (rw (z, get_io_channel) at e))
            (known, rw (deep, io_channel_new) (io_channel_new-Slots n))
    ]

-- What a new channel has.
pub get_io_channel_made :
    (session_type session n : ℕ) (ch : IoChannel)
    → 0 < n
    → get_io_channel session_type session n ≡ some ch
    → (ch.op_ctxs ≡ replicate n no_op)
      × (ch.cpl_nr ≡ 0)
      × (ch.cpl_ops ≡ replicate n 0)
      × (ch.reap_depth ≡ n)
unfolding get_io_channel io_channel_new
get_io_channel_made session_type session n ch some_depth e = elim (Bool-cases (session == 0)) [
  | inl z ↦ absurd (some-ne-none ch (sym (rw (z, get_io_channel) at e)))
  | inr z ↦
      let deep : (if n == 0 then ring_max else n) ≡ n = ground arith in
      let is = some-injective _ ch (rw (z, get_io_channel) at e) in
      (
        ap (λ c. c.op_ctxs) (sym is) ∙ ap (λ k. replicate k no_op) deep,
        ap (λ c. c.cpl_nr) (sym is),
        ap (λ c. c.cpl_ops) (sym is) ∙ ap (λ k. replicate k 0) deep,
        ap (λ c. c.reap_depth) (sym is) ∙ deep,
      )
]

-- Of a channel that a client has got with a depth that is a whole number of 64, after any calls that
-- fail no assertion and any responses for operations in progress: the bit of an id is set just where
-- its operation is new, and the message of an operation that is not new has its id.
pub Steps-ids :
    (session_type session n : ℕ) (a b : IoChannel)
    → (session_type ≡ local) ⊎ (session_type ≡ remote)
    → 0 < n
    → get_io_channel session_type session (64 * n) ≡ some a
    → Steps a b
    → (i : ℕ) (op : OpCtx) → get_elem? b.op_ctxs i ≡ some op
    → (get_bit b.op_ctxs_bitmap i ≡ is_new op.state)
      × (is_new op.state ≡ false → op.message.header.rsv0 ≡ i)
unfolding Good
Steps-ids session_type session n a b known some_depth opened steps i op at =
    let good =
      Steps-Good a b (get_io_channel-Good session_type session n a known some_depth opened) steps in
    (good.1.agree i op at, good.1.own_id i op at)
