-- ===== src/Messager/Delivery.antt =====
-- A read event: what it takes from the socket, and the messages that it delivers.
use mathlib.Core.List.{append_assoc, append-nil}
use zcell.Base.{
  ℕ, zero, suc, ◌<◌, ◌≡◌, ◌≢◌, inl, inr, refl, sym, ap, ◌∙◌, List, [], ◌∷◌, ◌++◌, some, length,
  length-append, ◌==◌, ==_iff, arith, Bool-cases, Option-cases, All, subst,
}
use zcell.Messager.{
  Msg, rwok, meta_length_of, data_length_of, msg_rem_tlen, do_recv_message, tail_recv_msg, pop_all,
  recv_all, read_event_callback,
}
use zcell.Message.Wire.{hdr_of}
use mathlib.Core.Option.{some-injective, some-ne-none}
use zcell.Messager.Socket.{Net}
use zcell.Messager.Send.{SockStatus-cases}
use zcell.Messager.Header.{IsPartial, Receives, wire}
use zcell.Messager.Receive.{AfterData, do_recv_message-AfterData}
use zcell.Messager.Queue.{
  IsWhole, wire_all, wire_all-append, IsPartial-IsWhole, IsQueue, tail_recv_msg-wire,
  IsQueue-append, pop_all-wire,
}

module _ {S : Type 0} (net : Net S) where
  -- What one round of the loop does to the queue.
  round :
      (q : List Msg) (s : S)
      → IsQueue q
      → let (front, m) = tail_recv_msg q in
        let (code, m', s') = do_recv_message net m s in
        (wire_all (front ++ m' ∷ []) ++ net.incoming s' ≡ wire_all q ++ net.incoming s)
        × IsQueue (front ++ m' ∷ [])
        × (code ≡ rwok → length (net.incoming s') < length (net.incoming s))
  unfolding AfterData
  round q s h =
      let front = (tail_recv_msg q).0 in
      let m = (tail_recv_msg q).1 in
      let (bytes, all_done, partial, left) = tail_recv_msg-wire q h in
      let r = do_recv_message net m s in
      let (got, complete, incomplete) = do_recv_message-AfterData net m s partial in
      (
        ap (λ l. l ++ net.incoming r.2)
              (wire_all-append front (r.1 ∷ [])
                ∙ ap (λ l. wire_all front ++ l) (append-nil (wire r.1)))
            ∙ append_assoc (wire_all front) (wire r.1) (net.incoming r.2)
            ∙ ap (λ l. wire_all front ++ l) got.bytes
            ∙ sym (append_assoc (wire_all front) (wire m) (net.incoming s))
            ∙ ap (λ l. l ++ net.incoming s) bytes,
        IsQueue-append front r.1 all_done got.partial,
        λ e. shrinks m r.1 s r.2 partial left got (complete e),
      )
    where
      shrinks :
          (m m' : Msg) (s s' : S)
          → IsPartial m
          → msg_rem_tlen m ≢ 0
          → Receives net m s m' s'
          → msg_rem_tlen m' ≡ 0
          → length (net.incoming s') < length (net.incoming s)
      shrinks m m' s s' p left got z =
          let whole = IsPartial-IsWhole m' got.partial z in
          let total = ap length got.bytes in
          let known_length : m.state.hdr_rem_len ≡ 0
              → (meta_length_of m' ≡ meta_length_of m) × (data_length_of m' ≡ data_length_of m) =
            λ k. (
              ap (λ l. (hdr_of l).meta_length) (got.kept k),
              ap (λ l. (hdr_of l).data_length) (got.kept k),
            ) in
          elim (Bool-cases (m.state.hdr_rem_len == 0)) [
            | inl e ↦
                let (same_meta, same_data) = known_length ((==_iff m.state.hdr_rem_len 0).0 e) in
                omega (
                  arith,
                  total,
                  same_meta,
                  same_data,
                  left,
                  whole.hdr,
                  whole.meta,
                  whole.payload,
                  length-append (wire m') (net.incoming s'),
                  length-append m'.header (m'.meta_buffer ++ m'.data_buffer),
                  length-append m'.meta_buffer m'.data_buffer,
                  length-append (wire m) (net.incoming s),
                  length-append m.header (m.meta_buffer ++ m.data_buffer),
                  length-append m.meta_buffer m.data_buffer,
                  p.hdr,
                  rw e at p.meta,
                  rw e at p.payload,
                )
            | inr e ↦
                let open_ : m.state.hdr_rem_len ≢ 0 = λ k. ground (arith, e, k) in
                omega (
                  arith,
                  total,
                  open_,
                  whole.hdr,
                  length-append (wire m') (net.incoming s'),
                  length-append m'.header (m'.meta_buffer ++ m'.data_buffer),
                  length-append (wire m) (net.incoming s),
                  length-append m.header (m.meta_buffer ++ m.data_buffer),
                  length-append m.meta_buffer m.data_buffer,
                  p.hdr,
                  rw e at p.meta,
                  rw e at p.payload,
                )
          ]

  recv_all-wire :
      (n : ℕ) (q q' : List Msg) (s s' : S)
      → IsQueue q
      → recv_all net n q s ≡ some (q', s')
      → (wire_all q' ++ net.incoming s' ≡ wire_all q ++ net.incoming s) × IsQueue q'
  unfolding recv_all
  recv_all-wire zero q q' s s' h e =
      let same = some-injective (q, s) (q', s') e in
      (ap (λ p. wire_all p.0 ++ net.incoming p.1) (sym same), subst (λ p. IsQueue p.0) same h)
  recv_all-wire (suc n) q q' s s' h e =
      let r = do_recv_message net (tail_recv_msg q).1 s in
      let next = (tail_recv_msg q).0 ++ r.1 ∷ [] in
      let (bytes, queue, less) = round q s h in
      elim (SockStatus-cases r.0) [
        | inl c ↦
            let (rest, end) = recv_all-wire n next q' r.2 s' queue (rw (c, recv_all) at e) in
            (rest ∙ bytes, end)
        | inr (inl c) ↦
            let same = some-injective (next, r.2) (q', s') (rw (c, recv_all) at e) in
            (
              ap (λ p. wire_all p.0 ++ net.incoming p.1) (sym same) ∙ bytes,
              subst (λ p. IsQueue p.0) same queue,
            )
        | inr (inr c) ↦ absurd (some-ne-none (q', s') (sym (rw (c, recv_all) at e)))
      ]

  -- The loop that receives ends by itself: any fuel that is more than the bytes that arrive gives
  -- the same result.
  pub recv_all_enough :
      (n k : ℕ) (q : List Msg) (s : S)
      → IsQueue q
      → length (net.incoming s) < n
      → length (net.incoming s) < k
      → recv_all net n q s ≡ recv_all net k q s
  unfolding recv_all
  recv_all_enough zero k q s h a b = absurd (omega (arith, a))
  recv_all_enough (suc n) zero q s h a b = absurd (omega (arith, b))
  recv_all_enough (suc n) (suc k) q s h a b =
      let r = do_recv_message net (tail_recv_msg q).1 s in
      let next = (tail_recv_msg q).0 ++ r.1 ∷ [] in
      let (bytes, queue, less) = round q s h in
      elim (SockStatus-cases r.0) [
        | inl c ↦
            rw (c, recv_all)
              (recv_all_enough n k next r.2 queue (omega (arith, a, less c))
                (omega (arith, b, less c)))
        | inr (inl c) ↦ rw (c, recv_all) refl
        | inr (inr c) ↦ rw (c, recv_all) refl
      ]

  -- One event of a session that stays open: the bytes of the messages delivered, of the queue that
  -- is left, and of those that are still to be read are those from before; and what is delivered is
  -- whole.
  pub read_event_callback-wire :
      (q done rest : List Msg) (s s' : S)
      → IsQueue q
      → read_event_callback net q s ≡ some (done, rest, s')
      → (wire_all done ++ (wire_all rest ++ net.incoming s') ≡ wire_all q ++ net.incoming s)
        × All IsWhole done
        × IsQueue rest
  unfolding read_event_callback
  read_event_callback-wire q done rest s s' h e =
      elim (Option-cases (recv_all net (suc (length (net.incoming s))) q s)) [
        | inl c ↦ absurd (some-ne-none (done, rest, s') (sym (rw (c, read_event_callback) at e)))
        | inr (p, c) ↦
            let (bytes, queue) = recv_all-wire (suc (length (net.incoming s))) q p.0 s p.1 h c in
            let (same, whole, left) = pop_all-wire p.0 queue in
            let popped = pop_all p.0 in
            let out =
              some-injective (popped.0, popped.1, p.1) (done, rest, s')
                (rw (c, read_event_callback) at e) in
            subst
              (λ t.
                (wire_all t.0 ++ (wire_all t.1 ++ net.incoming t.2) ≡ wire_all q ++ net.incoming s)
                × All IsWhole t.0
                × IsQueue t.1)
              out
              (
                sym (append_assoc (wire_all popped.0) (wire_all popped.1) (net.incoming p.1))
                    ∙ ap (λ l. l ++ net.incoming p.1)
                        (sym (wire_all-append popped.0 popped.1) ∙ ap wire_all same)
                    ∙ bytes,
                whole,
                left,
              )
      ]
