-- ===== src/Messager/Receive.antt =====
-- Receiving a whole message: behind the header, the arguments and then the data.
use mathlib.Core.List.{append_assoc, append-nil}
use zcell.Base.{
  ◌≡◌, ◌≢◌, inl, inr, refl, sym, ap, ◌∙◌, true, [], ◌++◌, ◌==◌, ==_iff, arith, Bool-cases, subst,
}
use zcell.Messager.{
  Msg, SockStatus, rwok, meta_length_of, data_length_of, msg_rem_tlen, then_do, recv_part,
  do_recv_hdr, do_recv_meta, do_recv_data, do_recv_message,
}
use zcell.Messager.Socket.{Net}
use zcell.Messager.Parts.{recv_part-bytes}
use zcell.Messager.Send.{then_do-cases}
use zcell.Messager.Header.{IsPartial, Receives, Receives-trans, AfterHdr, do_recv_hdr-AfterHdr}

module _ {S : Type 0} (net : Net S) where
  -- After the arguments.
  AfterMeta : Msg → S → SockStatus × Msg × S → Type 0
  AfterMeta m s r =
      Receives net m s r.1 r.2
      × (r.1.state.hdr_rem_len ≡ 0)
      × (r.0 ≡ rwok → r.1.state.meta_rem_len ≡ 0)
      × (r.0 ≢ rwok → r.1.state.meta_rem_len ≢ 0)

  do_recv_meta-AfterMeta :
      (m : Msg) (s : S)
      → IsPartial m
      → m.state.hdr_rem_len ≡ 0
      → AfterMeta m s (do_recv_meta net m s)
  unfolding do_recv_meta AfterMeta recv_part
  do_recv_meta-AfterMeta m s h z = elim (Bool-cases (m.state.meta_rem_len == 0)) [
    | inl e ↦
        let same : do_recv_meta net m s ≡ (rwok, m, s) = rw (e, recv_part, do_recv_meta) refl in
        subst (AfterMeta m s) (sym same) (
          record { bytes = refl; partial = h; kept = λ k. refl },
          z,
          λ k. (==_iff m.state.meta_rem_len 0).0 e,
          λ ne. absurd (ne refl),
        )
    | inr e ↦
        let r = recv_part net (meta_length_of m) m.state.meta_rem_len m.meta_buffer s in
        let known : (m.state.hdr_rem_len == 0) ≡ true = (==_iff m.state.hdr_rem_len 0).1 z in
        let (bytes, buf, next, full, ended, more) =
          recv_part-bytes net (meta_length_of m) m.state.meta_rem_len m.meta_buffer s
            (rw known at h.meta) in
        let no_data : m.data_buffer ≡ [] = h.order (λ k. ground (arith, e, k)) in
        (
          record {
            bytes =
                rw (no_data, buf, next)
                  (append_assoc m.header (m.meta_buffer ++ bytes ++ []) (net.incoming r.3)
                    ∙ ap (λ l. m.header ++ l)
                        (ap (λ l. l ++ net.incoming r.3) (append-nil (m.meta_buffer ++ bytes))
                          ∙ append_assoc m.meta_buffer bytes (net.incoming r.3)
                          ∙ ap (λ l. l ++ (bytes ++ net.incoming r.3))
                              (sym (append-nil m.meta_buffer)))
                    ∙ sym
                        (append_assoc m.header (m.meta_buffer ++ []) (bytes ++ net.incoming r.3)));
            partial = record {
              hdr = h.hdr;
              meta = rw known full;
              payload = h.payload;
              order = λ k. no_data;
            };
            kept = λ k. refl;
          },
          z,
          ended,
          more,
        )
  ]

  -- After the data.
  unfoldable pub AfterData : Msg → S → SockStatus × Msg × S → Type 0
  AfterData m s r =
      Receives net m s r.1 r.2
      × (r.0 ≡ rwok → msg_rem_tlen r.1 ≡ 0)
      × (r.0 ≢ rwok → msg_rem_tlen r.1 ≢ 0)

  do_recv_data-AfterData :
      (m : Msg) (s : S)
      → IsPartial m
      → m.state.hdr_rem_len ≡ 0
      → m.state.meta_rem_len ≡ 0
      → AfterData m s (do_recv_data net m s)
  unfolding do_recv_data AfterData
  do_recv_data-AfterData m s h z y =
      let r = recv_part net (data_length_of m) m.state.data_rem_len m.data_buffer s in
      let known : (m.state.hdr_rem_len == 0) ≡ true = (==_iff m.state.hdr_rem_len 0).1 z in
      let (bytes, buf, next, full, ended, more) =
        recv_part-bytes net (data_length_of m) m.state.data_rem_len m.data_buffer s
          (rw known at h.payload) in
      (
        record {
          bytes =
              rw (buf, next)
                (append_assoc m.header (m.meta_buffer ++ (m.data_buffer ++ bytes))
                    (net.incoming r.3)
                  ∙ ap (λ l. m.header ++ l)
                      (append_assoc m.meta_buffer (m.data_buffer ++ bytes) (net.incoming r.3)
                        ∙ ap (λ l. m.meta_buffer ++ l)
                            (append_assoc m.data_buffer bytes (net.incoming r.3))
                        ∙ sym
                            (append_assoc m.meta_buffer m.data_buffer (bytes ++ net.incoming r.3)))
                  ∙ sym (
                      append_assoc m.header (m.meta_buffer ++ m.data_buffer)
                        (bytes ++ net.incoming r.3)));
          partial = record {
            hdr = h.hdr;
            meta = h.meta;
            payload = rw known full;
            order = λ k. absurd (k y);
          };
          kept = λ k. refl;
        },
        λ k. omega (arith, z, y, ended k),
        λ k t. more k (omega (arith, t)),
      )

  -- A call of `_do_recv_message` reads the next bytes of the message; it is complete just when the
  -- call returns SOCK_RWOK.
  pub do_recv_message-AfterData :
      (m : Msg) (s : S) → IsPartial m → AfterData m s (do_recv_message net m s)
  unfolding do_recv_message AfterHdr AfterMeta AfterData
  do_recv_message-AfterData m s h =
      let first = do_recv_hdr net m s in
      let (one, hdr_done, hdr_open, hdr_stays) = do_recv_hdr-AfterHdr net m s h in
      let second = then_do first (do_recv_meta net) in
      let two =
        then_do-cases
          (λ r.
            Receives net m s r.1 r.2
            × (r.0 ≡ rwok → (r.1.state.hdr_rem_len ≡ 0) × (r.1.state.meta_rem_len ≡ 0))
            × (r.0 ≢ rwok → msg_rem_tlen r.1 ≢ 0)
            × (m.state.hdr_rem_len ≡ 0 → r.1.state.hdr_rem_len ≡ 0))
          first (do_recv_meta net)
          (λ ne. (one, λ e. absurd (ne e), λ e t. hdr_open ne (omega (arith, t)), hdr_stays))
          (λ e.
            let (then_meta, known, meta_done, meta_open) =
              do_recv_meta-AfterMeta first.1 first.2 one.partial (hdr_done e) in
            (
              Receives-trans net m first.1 _ s first.2 _ hdr_stays one then_meta,
              λ k. (known, meta_done k),
              λ k t. meta_open k (omega (arith, t)),
              λ k. known,
            )) in
      then_do-cases (AfterData m s) second (do_recv_data net)
        (λ ne. (two.0, λ e. absurd (ne e), two.2))
        (λ e.
          let (z, y) = two.1 e in
          let (then_data, data_done, data_open) =
            do_recv_data-AfterData second.1 second.2 two.0.partial z y in
          (
            Receives-trans net m second.1 _ s second.2 _ two.3 two.0 then_data,
            data_done,
            data_open,
          ))
