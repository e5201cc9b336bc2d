-- ===== src/Messager/Header.antt =====
-- Receiving the header: the bytes of a message that have been read, with those that arrive, are always the same,
-- and a message that is complete is as long as its header says.
use mathlib.Core.List.{append_assoc, append-nil}
use zcell.Base.{
  ℕ, ◌+◌, ◌≡◌, ◌≢◌, inl, inr, refl, sym, ap, ◌∙◌, false, List, [], ◌∷◌, ◌++◌, length, if◌then◌else◌,
  ◌==◌, ==_iff, arith, Bool-cases, subst,
}
use zcell.Message.{hdr_size}
use zcell.Messager.{
  Msg, SockStatus, rwok, eagain, need_close, meta_length_of, data_length_of, msg_construct,
  recv_part, recv_hdr, do_recv_hdr,
}
use zcell.Messager.Socket.{Net}
use zcell.Messager.Parts.{recv_part-bytes}
use zcell.Messager.Send.{SockStatus-cases}

-- A message that is being received: what is left of each part is what its length, once it is known,
-- has more than was read; and the data comes behind the arguments.
pub record IsPartial (m : Msg) : Type 0 where
  pub hdr : length m.header + m.state.hdr_rem_len ≡ hdr_size
  pub meta :
      length m.meta_buffer + m.state.meta_rem_len
      ≡ (if m.state.hdr_rem_len == 0 then meta_length_of m else 0)
  pub payload :
      length m.data_buffer + m.state.data_rem_len
      ≡ (if m.state.hdr_rem_len == 0 then data_length_of m else 0)
  pub order : m.state.meta_rem_len ≢ 0 → m.data_buffer ≡ []

-- The bytes of a message that were read.
abbrev pub wire : Msg → List ℕ
wire m = m.header ++ (m.meta_buffer ++ m.data_buffer)

pub msg_construct-IsPartial : IsPartial msg_construct
msg_construct-IsPartial = record { hdr = refl; meta = refl; payload = refl; order = λ ne. refl }

empty : {A : Type 0} (xs : List A) → length xs ≡ 0 → xs ≡ []
empty [] h = refl
empty (x ∷ xs) h = absurd (omega (arith, h))

-- A message before and after some of it is received.
pub record Receives {S : Type 0} (net : Net S) (m : Msg) (s : S) (m' : Msg) (s' : S) : Type 0 where
  pub bytes : wire m' ++ net.incoming s' ≡ wire m ++ net.incoming s
  pub partial : IsPartial m'
  pub kept : m.state.hdr_rem_len ≡ 0 → m'.header ≡ m.header

module _ {S : Type 0} (net : Net S) where
  pub Receives-trans :
      (m n p : Msg) (s t u : S)
      → (m.state.hdr_rem_len ≡ 0 → n.state.hdr_rem_len ≡ 0)
      → Receives net m s n t
      → Receives net n t p u
      → Receives net m s p u
  Receives-trans m n p s t u z a b = record {
    bytes = b.bytes ∙ a.bytes;
    partial = b.partial;
    kept = λ h. b.kept (z h) ∙ a.kept h;
  }

  -- After the header: what was received, and whether the header is complete.
  unfoldable pub AfterHdr : Msg → S → SockStatus × Msg × S → Type 0
  AfterHdr m s r =
      Receives net m s r.1 r.2
      × (r.0 ≡ rwok → r.1.state.hdr_rem_len ≡ 0)
      × (r.0 ≢ rwok → r.1.state.hdr_rem_len ≢ 0)
      × (m.state.hdr_rem_len ≡ 0 → r.1.state.hdr_rem_len ≡ 0)

  recv_hdr-AfterHdr :
      (m : Msg) (s : S) → IsPartial m → m.state.hdr_rem_len ≢ 0 → AfterHdr m s (recv_hdr net m s)
  unfolding recv_hdr AfterHdr
  recv_hdr-AfterHdr m s h ne =
      let r = recv_part net hdr_size m.state.hdr_rem_len m.header s in
      let (bytes, buf, next, full, ended, more) =
        recv_part-bytes net hdr_size m.state.hdr_rem_len m.header s h.hdr in
      let closed : (m.state.hdr_rem_len == 0) ≡ false = ground arith in
      let no_meta : m.meta_buffer ≡ [] = empty m.meta_buffer (omega (arith, rw closed at h.meta)) in
      let no_data : m.data_buffer ≡ [] =
        empty m.data_buffer (omega (arith, rw closed at h.payload)) in
      let read : (r.2 ++ (m.meta_buffer ++ m.data_buffer)) ++ net.incoming r.3
          ≡ wire m ++ net.incoming s =
        rw (no_meta, no_data, buf, next)
          (ap (λ l. l ++ net.incoming r.3) (append-nil (m.header ++ bytes))
            ∙ append_assoc m.header bytes (net.incoming r.3)
            ∙ ap (λ l. l ++ (bytes ++ net.incoming r.3)) (sym (append-nil m.header))) in
      let stopped : (code : SockStatus)
          → r.0 ≡ code
          → code ≢ rwok
          → AfterHdr m s
              (code, record m { state = record m.state { hdr_rem_len = r.1 }; header = r.2 }, r.3) =
        λ code c bad.
          let not_yet : r.1 ≢ 0 = more (λ k. bad (sym c ∙ k)) in
          let opened : (r.1 == 0) ≡ false = ground arith in
          (
            record {
              bytes = read;
              partial = record {
                hdr = full;
                meta = rw opened (omega (arith, rw closed at h.meta));
                payload = rw opened (omega (arith, rw closed at h.payload));
                order = λ k. no_data;
              };
              kept = λ z. absurd (ne z);
            },
            λ k. absurd (bad k),
            λ k. not_yet,
            λ z. absurd (ne z),
          ) in
      elim (SockStatus-cases r.0) [
        | inl c ↦
            let zero_left : r.1 ≡ 0 = ended c in
            rw (c, recv_hdr)
              (
                record {
                  bytes = read;
                  partial = record {
                    hdr = full;
                    meta = rw (zero_left, no_meta) (omega arith);
                    payload = rw (zero_left, no_data) (omega arith);
                    order = λ k. no_data;
                  };
                  kept = λ z. absurd (ne z);
                },
                λ k. zero_left,
                λ bad. absurd (bad refl),
                λ z. zero_left,
              )
        | inr (inl c) ↦ rw (c, recv_hdr) (stopped eagain c (λ k. cc))
        | inr (inr c) ↦ rw (c, recv_hdr) (stopped need_close c (λ k. cc))
      ]

  pub do_recv_hdr-AfterHdr : (m : Msg) (s : S) → IsPartial m → AfterHdr m s (do_recv_hdr net m s)
  unfolding do_recv_hdr AfterHdr
  do_recv_hdr-AfterHdr m s h = elim (Bool-cases (m.state.hdr_rem_len == 0)) [
    | inl e ↦
        let same : do_recv_hdr net m s ≡ (rwok, m, s) = rw (e, do_recv_hdr) refl in
        subst (AfterHdr m s) (sym same) (
          record { bytes = refl; partial = h; kept = λ z. refl },
          λ c. (==_iff m.state.hdr_rem_len 0).0 e,
          λ ne. absurd (ne refl),
          λ z. z,
        )
    | inr e ↦
        let same : do_recv_hdr net m s ≡ recv_hdr net m s = rw (e, do_recv_hdr) refl in
        subst (AfterHdr m s) (sym same) (recv_hdr-AfterHdr m s h (λ z. ground (arith, e, z)))
  ]
