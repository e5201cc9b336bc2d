-- ===== src/Messager/Queue.antt =====
-- The queue of a session that receives: whole messages and a last one that may be partial.
use mathlib.Core.List.{append_assoc, append-nil}
use zcell.Base.{
  ℕ, ◌≡◌, ◌≢◌, inl, inr, refl, sym, ap, ◌∙◌, true, List, [], ◌∷◌, ◌++◌, length, ◌==◌, ==_iff, arith,
  Bool-cases, All,
}
use zcell.Message.{hdr_size}
use zcell.Messager.{
  Msg, meta_length_of, data_length_of, msg_rem_tlen, msg_rw_complete, tail_recv_msg, pop_all,
}
use zcell.Messager.Header.{IsPartial, wire, msg_construct-IsPartial}

-- A whole message: its parts are as long as its header says.
pub record IsWhole (m : Msg) : Type 0 where
  pub hdr : length m.header ≡ hdr_size
  pub meta : length m.meta_buffer ≡ meta_length_of m
  pub payload : length m.data_buffer ≡ data_length_of m

abbrev pub wire_all : List Msg → List ℕ
wire_all [] = []
wire_all (m ∷ ms) = wire m ++ wire_all ms

pub wire_all-append : (ms ns : List Msg) → wire_all (ms ++ ns) ≡ wire_all ms ++ wire_all ns
wire_all-append [] ns = refl
wire_all-append (m ∷ ms) ns =
    ap (λ l. wire m ++ l) (wire_all-append ms ns)
    ∙ sym (append_assoc (wire m) (wire_all ms) (wire_all ns))

pub IsPartial-IsWhole : (m : Msg) → IsPartial m → msg_rem_tlen m ≡ 0 → IsWhole m
IsPartial-IsWhole m h z =
    let closed : m.state.hdr_rem_len ≡ 0 = omega (arith, z) in
    let known : (m.state.hdr_rem_len == 0) ≡ true = (==_iff m.state.hdr_rem_len 0).1 closed in
    record {
      hdr = omega (arith, h.hdr, closed);
      meta = omega (arith, rw known at h.meta, z);
      payload = omega (arith, rw known at h.payload, z);
    }

-- Whole messages, and a last one that may be partial.
abbrev pub IsQueue : List Msg → Type 0
IsQueue [] = Unit
IsQueue (m ∷ []) = IsPartial m
IsQueue (m ∷ n ∷ ms) = (IsPartial m × (msg_rem_tlen m ≡ 0)) × IsQueue (n ∷ ms)

abbrev pub Done : Msg → Type 0
Done m = IsPartial m × (msg_rem_tlen m ≡ 0)

-- `_tail_recv_msg` gives the message to go on with.
pub tail_recv_msg-wire :
    (q : List Msg)
    → IsQueue q
    → let (front, m) = tail_recv_msg q in
      (wire_all front ++ wire m ≡ wire_all q) × All Done front × IsPartial m × (msg_rem_tlen m ≢ 0)
unfolding tail_recv_msg
tail_recv_msg-wire [] h = (refl, tt, msg_construct-IsPartial, λ z. cc)
tail_recv_msg-wire (m ∷ []) h = elim (Bool-cases (msg_rw_complete m)) [
  | inl e ↦
      rw (e, tail_recv_msg)
        (
          append-nil (wire m ++ []),
          ((h, (==_iff (msg_rem_tlen m) 0).0 e), tt),
          msg_construct-IsPartial,
          λ z. cc,
        )
  | inr e ↦ rw (e, tail_recv_msg) (sym (append-nil (wire m)), tt, h, λ z. ground (arith, e, z))
]
tail_recv_msg-wire (m ∷ n ∷ ms) h =
    let (bytes, front, partial, open_) = tail_recv_msg-wire (n ∷ ms) h.1 in
    let (f, l) = tail_recv_msg (n ∷ ms) in
    (
      append_assoc (wire m) (wire_all f) (wire l) ∙ ap (λ b. wire m ++ b) bytes,
      (h.0, front),
      partial,
      open_,
    )

pub IsQueue-append :
    (front : List Msg) (m : Msg) → All Done front → IsPartial m → IsQueue (front ++ m ∷ [])
IsQueue-append [] m h p = p
IsQueue-append (a ∷ []) m h p = (h.0, p)
IsQueue-append (a ∷ b ∷ front) m h p = (h.0, IsQueue-append (b ∷ front) m h.1 p)

-- The messages that `pop_all` takes are whole, and they and the rest are the queue.
pub pop_all-wire :
    (q : List Msg)
    → IsQueue q
    → let (done, rest) = pop_all q in (done ++ rest ≡ q) × All IsWhole done × IsQueue rest
unfolding pop_all
pop_all-wire [] h = (refl, tt, tt)
pop_all-wire (m ∷ []) h = elim (Bool-cases (msg_rw_complete m)) [
  | inl e ↦
      rw (e, pop_all) (refl, (IsPartial-IsWhole m h ((==_iff (msg_rem_tlen m) 0).0 e), tt), tt)
  | inr e ↦ rw (e, pop_all) (refl, tt, h)
]
pop_all-wire (m ∷ n ∷ ms) h =
    let (same, whole, rest) = pop_all-wire (n ∷ ms) h.1 in
    let complete : msg_rw_complete m ≡ true = (==_iff (msg_rem_tlen m) 0).1 h.0.1 in
    rw (complete, pop_all) (ap (λ l. m ∷ l) same, (IsPartial-IsWhole m h.0.0 h.0.1, whole), rest)
