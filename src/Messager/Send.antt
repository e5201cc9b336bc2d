-- ===== src/Messager/Send.antt =====
-- Sending: the bytes that the socket has accepted, with those that the queue has still to send, are
-- always the same.
use mathlib.Core.List.{append_assoc}
use zcell.Base.{ℕ, ◌≤◌, ◌≡◌, ◌≢◌, ◌⊎◌, inl, inr, refl, sym, ap, ◌∙◌, List, ◌++◌, length, arith}
use zcell.Message.{hdr_size}
use zcell.Messager.{
  Msg, SockStatus, rwok, eagain, need_close, iov, meta_length_of, data_length_of, msg_rem_tlen,
  then_do, send_part, do_send_hdr, do_send_meta, do_send_data, do_send_message,
}
use zcell.Messager.Socket.{Net}
use zcell.Messager.Parts.{send_part-iov}

-- The three parts are there, and no more of each is left than there is.
pub record Sendable (m : Msg) : Type 0 where
  pub hdr_left : m.state.hdr_rem_len ≤ hdr_size
  pub meta_left : m.state.meta_rem_len ≤ meta_length_of m
  pub data_left : m.state.data_rem_len ≤ data_length_of m
  pub hdr_there : hdr_size ≤ length m.header
  pub meta_there : meta_length_of m ≤ length m.meta_buffer
  pub data_there : data_length_of m ≤ length m.data_buffer

-- What is left to send of a message.
abbrev pub unsent : Msg → List ℕ
unsent m =
    iov hdr_size m.state.hdr_rem_len m.header
    ++ (iov (meta_length_of m) m.state.meta_rem_len m.meta_buffer
        ++ iov (data_length_of m) m.state.data_rem_len m.data_buffer)

-- By a result that returns early, and by the rest.
pub then_do-cases :
    {S : Type 0} (P : SockStatus × Msg × S → Type 0) (r : SockStatus × Msg × S)
    (f : Msg → S → SockStatus × Msg × S)
    → (r.0 ≢ rwok → P r)
    → (r.0 ≡ rwok → P (f r.1 r.2))
    → P (then_do r f)
unfolding then_do
then_do-cases P (rwok, m, s) f stop go = go refl
then_do-cases P (eagain, m, s) f stop go = stop (λ e. cc)
then_do-cases P (need_close, m, s) f stop go = stop (λ e. cc)

-- A message before and after some of it is sent.
pub record Sends {S : Type 0} (net : Net S) (m : Msg) (s : S) (m' : Msg) (s' : S) : Type 0 where
  pub same : m' ≡ record m { state = m'.state }
  pub bytes : net.outgoing s' ++ unsent m' ≡ net.outgoing s ++ unsent m
  pub hdr_left : m'.state.hdr_rem_len ≤ m.state.hdr_rem_len
  pub meta_left : m'.state.meta_rem_len ≤ m.state.meta_rem_len
  pub data_left : m'.state.data_rem_len ≤ m.state.data_rem_len

module _ {S : Type 0} (net : Net S) where
  Sends-trans :
      (m n p : Msg) (s t u : S) → Sends net m s n t → Sends net n t p u → Sends net m s p u
  Sends-trans m n p s t u a b =
      let restate : Msg → Msg = λ k. record k { state = p.state } in
      record {
        same = b.same ∙ ap restate a.same;
        bytes = b.bytes ∙ a.bytes;
        hdr_left = omega (arith, a.hdr_left, b.hdr_left);
        meta_left = omega (arith, a.meta_left, b.meta_left);
        data_left = omega (arith, a.data_left, b.data_left);
      }

  pub Sends-Sendable : (m n : Msg) (s t : S) → Sends net m s n t → Sendable m → Sendable n
  Sends-Sendable m n s t a h = rw a.same (record {
    hdr_left = omega (arith, a.hdr_left, h.hdr_left);
    meta_left = omega (arith, a.meta_left, h.meta_left);
    data_left = omega (arith, a.data_left, h.data_left);
    hdr_there = h.hdr_there;
    meta_there = h.meta_there;
    data_there = h.data_there;
  })

  do_send_hdr-Sends :
      (m : Msg) (s : S)
      → Sendable m
      → let (code, m', s') = do_send_hdr net m s in
        Sends net m s m' s' × (code ≡ rwok → m'.state.hdr_rem_len ≡ 0)
  unfolding do_send_hdr
  do_send_hdr-Sends m s h =
      let part = send_part net hdr_size m.state.hdr_rem_len m.header s in
      let (bytes, less, ended) =
        send_part-iov net hdr_size m.state.hdr_rem_len m.header s h.hdr_left h.hdr_there in
      let rest =
        iov (meta_length_of m) m.state.meta_rem_len m.meta_buffer
        ++ iov (data_length_of m) m.state.data_rem_len m.data_buffer in
      (
        record {
          same = refl;
          bytes =
              sym (append_assoc (net.outgoing part.2) (iov hdr_size part.1 m.header) rest)
              ∙ ap (λ l. l ++ rest) bytes
              ∙ append_assoc (net.outgoing s) (iov hdr_size m.state.hdr_rem_len m.header) rest;
          hdr_left = less;
          meta_left = omega arith;
          data_left = omega arith;
        },
        ended,
      )

  do_send_meta-Sends :
      (m : Msg) (s : S)
      → Sendable m
      → m.state.hdr_rem_len ≡ 0
      → let (code, m', s') = do_send_meta net m s in
        Sends net m s m' s' × (code ≡ rwok → m'.state.meta_rem_len ≡ 0)
  unfolding do_send_meta
  do_send_meta-Sends m s h z =
      let part = send_part net (meta_length_of m) m.state.meta_rem_len m.meta_buffer s in
      let (bytes, less, ended) =
        send_part-iov net (meta_length_of m) m.state.meta_rem_len m.meta_buffer s h.meta_left
          h.meta_there in
      let rest = iov (data_length_of m) m.state.data_rem_len m.data_buffer in
      (
        record {
          same = refl;
          bytes = rw z (
              sym (
                append_assoc (net.outgoing part.2) (iov (meta_length_of m) part.1 m.meta_buffer)
                  rest)
              ∙ ap (λ l. l ++ rest) bytes
              ∙ append_assoc (net.outgoing s)
                  (iov (meta_length_of m) m.state.meta_rem_len m.meta_buffer) rest);
          hdr_left = omega arith;
          meta_left = less;
          data_left = omega arith;
        },
        ended,
      )

  do_send_data-Sends :
      (m : Msg) (s : S)
      → Sendable m
      → m.state.hdr_rem_len ≡ 0
      → m.state.meta_rem_len ≡ 0
      → let (code, m', s') = do_send_data net m s in
        Sends net m s m' s' × (code ≡ rwok → m'.state.data_rem_len ≡ 0)
  unfolding do_send_data
  do_send_data-Sends m s h z y =
      let (bytes, less, ended) =
        send_part-iov net (data_length_of m) m.state.data_rem_len m.data_buffer s h.data_left
          h.data_there in
      (
        record {
          same = refl;
          bytes = rw (z, y) bytes;
          hdr_left = omega arith;
          meta_left = omega arith;
          data_left = less;
        },
        ended,
      )

  -- A call of `_do_send_message` moves the next bytes of the message, and none is left when it
  -- returns SOCK_RWOK.
  pub do_send_message-Sends :
      (m : Msg) (s : S)
      → Sendable m
      → let (code, m', s') = do_send_message net m s in
        Sends net m s m' s' × (code ≡ rwok → msg_rem_tlen m' ≡ 0)
  unfolding do_send_message
  do_send_message-Sends m s h =
      let (one, one_ended) = do_send_hdr-Sends m s h in
      let first = do_send_hdr net m s in
      let ready = Sends-Sendable m first.1 s first.2 one h in
      let second = then_do first (do_send_meta net) in
      let two : Sends net m s second.1 second.2
          × (second.0 ≡ rwok
              → (second.1.state.hdr_rem_len ≡ 0) × (second.1.state.meta_rem_len ≡ 0)) =
        then_do-cases
          (λ r.
            Sends net m s r.1 r.2
            × (r.0 ≡ rwok → (r.1.state.hdr_rem_len ≡ 0) × (r.1.state.meta_rem_len ≡ 0)))
          first (do_send_meta net) (λ ne. (one, λ e. absurd (ne e)))
          (λ e.
            let (then_meta, meta_ended) = do_send_meta-Sends first.1 first.2 ready (one_ended e) in
            (
              Sends-trans m first.1 _ s first.2 _ one then_meta,
              λ k. (omega (arith, then_meta.hdr_left, one_ended e), meta_ended k),
            )) in
      then_do-cases (λ r. Sends net m s r.1 r.2 × (r.0 ≡ rwok → msg_rem_tlen r.1 ≡ 0)) second
        (do_send_data net) (λ ne. (two.0, λ e. absurd (ne e)))
        (λ e.
          let (z, y) = two.1 e in
          let (then_data, data_ended) =
            do_send_data-Sends second.1 second.2 (Sends-Sendable m second.1 s second.2 two.0 h) z
              y in
          (
            Sends-trans m second.1 _ s second.2 _ two.0 then_data,
            λ k. omega (arith, then_data.hdr_left, then_data.meta_left, z, y, data_ended k),
          ))

pub SockStatus-cases : (c : SockStatus) → (c ≡ rwok) ⊎ ((c ≡ eagain) ⊎ (c ≡ need_close))
SockStatus-cases rwok = inl refl
SockStatus-cases eagain = inr (inl refl)
SockStatus-cases need_close = inr (inr refl)
