-- ===== src/Messager/Stream.antt =====
-- Two messagers over one stream of bytes: what the receiver delivers is what the sender was given, in
-- its order, however the bytes are cut on the way.
use mathlib.Core.List.{append_assoc}
use zcell.Base.{
  ℕ, ◌-◌, ◌≡◌, refl, sym, ap, ap₂, ◌∙◌, List, [], ◌∷◌, ◌++◌, some, map, take, drop, length,
  length-append, arith, All, All-append, append_cancel, take_all,
}
use zcell.Message.{hdr_size}
use zcell.Message.Wire.{hdr_of}
use zcell.Messager.{
  Msg, iov, meta_length_of, data_length_of, flush_msg_of, push_msg, read_event_callback,
}
use zcell.Messager.Socket.{Net}
use zcell.Messager.Send.{Sendable, unsent}
use zcell.Messager.Flush.{content, unsent_all, flush_msg_of-unsent}
use zcell.Messager.Header.{wire}
use zcell.Messager.Queue.{IsWhole, IsQueue, wire_all, wire_all-append}
use zcell.Messager.Delivery.{read_event_callback-wire}

-- Whole messages with the same first bytes are the same.
wire_first :
    (m n : Msg) (xs ys : List ℕ)
    → IsWhole m
    → IsWhole n
    → wire m ++ xs ≡ wire n ++ ys
    → (content m ≡ content n) × (xs ≡ ys)
wire_first m n xs ys a b e =
    let split : (k : Msg) (l : List ℕ)
        → wire k ++ l ≡ k.header ++ (k.meta_buffer ++ (k.data_buffer ++ l)) =
      λ k l.
        append_assoc k.header (k.meta_buffer ++ k.data_buffer) l
        ∙ ap (λ t. k.header ++ t) (append_assoc k.meta_buffer k.data_buffer l) in
    let (hdr, after_hdr) =
      append_cancel m.header (m.meta_buffer ++ (m.data_buffer ++ xs)) n.header
        (n.meta_buffer ++ (n.data_buffer ++ ys)) (a.hdr ∙ sym b.hdr)
        (sym (split m xs) ∙ e ∙ split n ys) in
    let (args, after_args) =
      append_cancel m.meta_buffer (m.data_buffer ++ xs) n.meta_buffer (n.data_buffer ++ ys)
        (a.meta ∙ ap (λ l. (hdr_of l).meta_length) hdr ∙ sym b.meta) after_hdr in
    let (payload, behind) =
      append_cancel m.data_buffer xs n.data_buffer ys
        (a.payload ∙ ap (λ l. (hdr_of l).data_length) hdr ∙ sym b.payload) after_args in
    (
      λ i. record {
        state = record { hdr_rem_len = 0; meta_rem_len = 0; data_rem_len = 0 };
        header = hdr i;
        meta_buffer = args i;
        data_buffer = payload i;
      },
      behind,
    )

-- So a stream of whole messages is read in one way only.
wire_all-prefix :
    (ms ns : List Msg) (rest : List ℕ)
    → All IsWhole ms
    → All IsWhole ns
    → wire_all ms ≡ wire_all ns ++ rest
    → (ks : List Msg) × (map content ms ≡ map content ns ++ map content ks) × (rest ≡ wire_all ks)
wire_all-prefix ms [] rest a b e = (ms, refl, sym e)
wire_all-prefix [] (n ∷ ns) rest a b e = absurd (
    omega (
      arith,
      ap length e,
      b.0.hdr,
      length-append (wire n ++ wire_all ns) rest,
      length-append (wire n) (wire_all ns),
      length-append n.header (n.meta_buffer ++ n.data_buffer),
    ))
wire_all-prefix (m ∷ ms) (n ∷ ns) rest a b e =
    let (same, behind) =
      wire_first m n (wire_all ms) (wire_all ns ++ rest) a.0 b.0
        (e ∙ append_assoc (wire n) (wire_all ns) rest) in
    let (ks, says, left) = wire_all-prefix ms ns rest a.1 b.1 behind in
    (ks, ap₂ (λ x l. x ∷ l) same says, left)

-- A message as `message_state_reset` leaves it.
abbrev pub IsFresh : Msg → Type 0
IsFresh m =
    (m.state.hdr_rem_len ≡ hdr_size)
    × (m.state.meta_rem_len ≡ meta_length_of m)
    × (m.state.data_rem_len ≡ data_length_of m)

-- The sender's session: messages pushed so far, the queue, the socket.
pub data Sending {S : Type 0} (net : Net S) : List Msg → List Msg → S → Type 0 where
  opened : (s : S) → net.outgoing s ≡ [] → Sending net [] [] s
  pushed :
      (ms q : List Msg) (s : S) (m : Msg)
      → Sending net ms q s
      → IsWhole m
      → IsFresh m
      → Sending net (ms ++ m ∷ []) (push_msg q m) s
  flushed :
      (ms q : List Msg) (s : S)
      → Sending net ms q s
      → Sending net ms (flush_msg_of net q s).1 (flush_msg_of net q s).3

-- The receiver's session: the messages delivered so far, the queue, the socket, and the bytes that
-- have arrived so far.
pub data Receiving {S : Type 0} (net : Net S) : List Msg → List Msg → S → List ℕ → Type 0 where
  accepted : (s : S) → Receiving net [] [] s (net.incoming s)
  arrived :
      (ms q : List Msg) (s t : S) (before bytes : List ℕ)
      → Receiving net ms q s before
      → net.incoming t ≡ net.incoming s ++ bytes
      → Receiving net ms q t (before ++ bytes)
  delivered :
      (ms q done rest : List Msg) (s t : S) (before : List ℕ)
      → Receiving net ms q s before
      → read_event_callback net q s ≡ some (done, rest, t)
      → Receiving net (ms ++ done) rest t before

unsent_all-append : (q r : List Msg) → unsent_all (q ++ r) ≡ unsent_all q ++ unsent_all r
unsent_all-append [] r = refl
unsent_all-append (m ∷ q) r =
    ap (λ l. unsent m ++ l) (unsent_all-append q r)
    ∙ sym (append_assoc (unsent m) (unsent_all q) (unsent_all r))

-- Nothing of a message that was just pushed is sent.
fresh_unsent : (m : Msg) → IsWhole m → IsFresh m → (unsent m ≡ wire m) × Sendable m
fresh_unsent m w f =
    let (a, b, c) = f in
    let all : (n : ℕ) (xs : List ℕ) → length xs ≡ n → iov n n xs ≡ xs =
      λ n xs h. ap (λ k. take n (drop k xs)) (zero_of n) ∙ take_all n xs (omega (arith, h)) in
    (
      rw (a, b, c)
          (ap₂ (λ x y. x ++ y) (all hdr_size m.header w.hdr)
            (ap₂ (λ x y. x ++ y) (all (meta_length_of m) m.meta_buffer w.meta)
              (all (data_length_of m) m.data_buffer w.payload))),
      record {
        hdr_left = omega (arith, a);
        meta_left = omega (arith, b);
        data_left = omega (arith, c);
        hdr_there = omega (arith, w.hdr);
        meta_there = omega (arith, w.meta);
        data_there = omega (arith, w.payload);
      },
    )
  where
    zero_of : (n : ℕ) → n - n ≡ 0
    zero_of n = omega arith

module _ {S : Type 0} (net : Net S) where
  -- What was sent and what is left to send is what was pushed.
  Sending-bytes :
      (ms q : List Msg) (s : S)
      → Sending net ms q s
      → (net.outgoing s ++ unsent_all q ≡ wire_all ms) × All Sendable q × All IsWhole ms
  Sending-bytes ms q s (opened _ e) = (rw e refl, tt, tt)
  Sending-bytes ms q s (pushed ns p _ m before w f) =
      let (bytes, ready, whole) = Sending-bytes ns p s before in
      let (fresh, sendable) = fresh_unsent m w f in
      (
        ap (λ l. net.outgoing s ++ l) (unsent_all-append p (m ∷ []))
            ∙ sym (append_assoc (net.outgoing s) (unsent_all p) (unsent m ++ []))
            ∙ ap₂ (λ x y. x ++ (y ++ [])) bytes fresh
            ∙ sym (wire_all-append ns (m ∷ [])),
        All-append Sendable p (m ∷ []) ready (sendable, tt),
        All-append IsWhole ns (m ∷ []) whole (w, tt),
      )
  Sending-bytes ms q s (flushed _ p t before) =
      let (bytes, ready, whole) = Sending-bytes ms p t before in
      let (same, still, says) = flush_msg_of-unsent net p t ready in (same ∙ bytes, still, whole)

  -- What was delivered, what is partly received, and what is not read yet is what has arrived.
  Receiving-bytes :
      (ms q : List Msg) (s : S) (before : List ℕ)
      → Receiving net ms q s before
      → (wire_all ms ++ (wire_all q ++ net.incoming s) ≡ before) × All IsWhole ms × IsQueue q
  Receiving-bytes ms q s before (accepted _) = (refl, tt, tt)
  Receiving-bytes ms q t before (arrived _ _ s _ old bytes r e) =
      let (same, whole, queue) = Receiving-bytes ms q s old r in
      (
        ap (λ l. wire_all ms ++ (wire_all q ++ l)) e
            ∙ ap (λ l. wire_all ms ++ l) (sym (append_assoc (wire_all q) (net.incoming s) bytes))
            ∙ sym (append_assoc (wire_all ms) (wire_all q ++ net.incoming s) bytes)
            ∙ ap (λ l. l ++ bytes) same,
        whole,
        queue,
      )
  Receiving-bytes ms rest t before (delivered ns q done _ s _ _ r e) =
      let (same, whole, queue) = Receiving-bytes ns q s before r in
      let (bytes, more, left) = read_event_callback-wire net q done rest s t queue e in
      (
        ap (λ l. l ++ (wire_all rest ++ net.incoming t)) (wire_all-append ns done)
            ∙ append_assoc (wire_all ns) (wire_all done) (wire_all rest ++ net.incoming t)
            ∙ ap (λ l. wire_all ns ++ l) bytes
            ∙ same,
        All-append IsWhole ns done whole more,
        left,
      )

-- A sender and a receiver, when the bytes that arrive are the first of those that the sender's socket
-- has accepted: after any pushes, flushes, arrivals and read events, the receiver has delivered the
-- first of the messages pushed, in their order and with their header, arguments and data; and the
-- bytes of the messages that are not delivered yet are those that it holds or can read, those on the
-- way, and those left to send.
pub Receiving-Sending :
    {S T : Type 0} (from : Net S) (to : Net T) (ms q done rest : List Msg) (s : S) (t : T)
    (before in_flight : List ℕ)
    → Sending from ms q s
    → Receiving to done rest t before
    → before ++ in_flight ≡ from.outgoing s
    → (ks : List Msg) × (map content ms ≡ map content done ++ map content ks)
      × (wire_all ks ≡ (wire_all rest ++ to.incoming t) ++ (in_flight ++ unsent_all q))
Receiving-Sending from to ms q done rest s t before in_flight sending receiving wires =
    let (sent, ready, whole) = Sending-bytes from ms q s sending in
    let (read, complete, queue) = Receiving-bytes to done rest t before receiving in
    let held = wire_all rest ++ to.incoming t in
    let stream : wire_all ms ≡ wire_all done ++ (held ++ (in_flight ++ unsent_all q)) =
      sym sent
      ∙ ap (λ l. l ++ unsent_all q) (sym wires)
      ∙ append_assoc before in_flight (unsent_all q)
      ∙ ap (λ l. l ++ (in_flight ++ unsent_all q)) (sym read)
      ∙ append_assoc (wire_all done) held (in_flight ++ unsent_all q) in
    let (ks, says, left) =
      wire_all-prefix ms done (held ++ (in_flight ++ unsent_all q)) whole complete stream in
    (ks, says, sym left)
