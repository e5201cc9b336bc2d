-- ===== src/Ipc/Order.antt =====
-- Any sequence of sends and polls on the rings between the cores.
use mathlib.Core.List.{append_assoc}
use zcell.Base.{
  ℕ, ◌<◌, ◌≤◌, ◌≡◌, refl, sym, ap, ◌∙◌, false, List, [], ◌∷◌, ◌++◌, some, map, length,
  length-append, Bool-cases, inl, inr, All, All-weaken, subst, arith,
}
use zcell.Message.{Message}
use zcell.Ipc.Rings.{SpdkRing}
use zcell.Ipc.{
  Session, Shared, Polled, is_ring, message_send, recv_poll_from, recv_poll, req_batch_size,
}
use zcell.Ipc.Fifo.{
  bare, into, out_of, into-append, out_of-append, length-nil, is_ring-eq, poll-fits,
  poll_from-keeps, send-keeps, send-full,
}

length-bare : (ms : List Message) → length (map bare ms) ≡ length ms
length-bare [] = refl
length-bare (m ∷ ms) = omega (arith, length-bare ms)

module _ (R : SpdkRing) where
  open R use {items, room}

  -- What sends and polls, by any sessions of any cores, make of the rings: the sends whose ring has
  -- room, in their order, and what the polls deliver. A send into a full ring is among neither.
  pub data Run (start : Shared R)
      : List (Session × Message) → List (Session × Message) → Shared R → Type 0 where
    begin : Run start [] [] start
    sends :
        {sent del : List (Session × Message)} {sh : Shared R} (s : Session) (m : Message)
        → Run start sent del sh
        → 0 < room (sh s.out_q)
        → Run start (sent ++ (s, m) ∷ []) del (message_send R sh s m).0
    loses :
        {sent del : List (Session × Message)} {sh : Shared R} (s : Session) (m : Message)
        → Run start sent del sh
        → room (sh s.out_q) ≡ 0
        → Run start sent del (message_send R sh s m).0
    polls :
        {sent del : List (Session × Message)} {sh : Shared R} (ss : List Session) (p : Polled R)
        → Run start sent del sh
        → recv_poll R sh ss ≡ some p
        → Run start sent (del ++ p.delivered) p.shared

  -- From rings that are empty, after any sends and polls: of each ring, the messages that came out of it and then
  -- those that it holds are the messages that were sent into it while it had room, in their order,
  -- each once. The session of a message, which a send clears and a poll sets, is left aside.
  pub Run-fifo :
      {start sh : Shared R} {sent del : List (Session × Message)} (q : ℕ × ℕ)
      → items (start q) ≡ []
      → Run start sent del sh
      → out_of q del ++ map bare (items (sh q)) ≡ into q sent
  unfolding recv_poll
  Run-fifo q empty begin = ap (map bare) empty
  Run-fifo q empty (sends {sent} {del} {sh} s m r space) =
      ap (λ l. out_of q del ++ l) (send-keeps R sh s m q space)
      ∙ sym (append_assoc (out_of q del) (map bare (items (sh q))) (into q ((s, m) ∷ [])))
      ∙ ap (λ l. l ++ into q ((s, m) ∷ [])) (Run-fifo q empty r)
      ∙ sym (into-append q sent ((s, m) ∷ []))
  Run-fifo q empty (loses {sent} {del} {sh} s m r full) =
      ap (λ l. out_of q del ++ map bare l) (send-full R sh s m q full) ∙ Run-fifo q empty r
  Run-fifo q empty (polls {sent} {del} {sh} ss p r h) =
      ap (λ l. l ++ map bare (items (p.shared q))) (out_of-append q del p.delivered)
      ∙ append_assoc (out_of q del) (out_of q p.delivered) (map bare (items (p.shared q)))
      ∙ ap (λ l. out_of q del ++ l) (poll_from-keeps R 0 sh ss p q h)
      ∙ Run-fifo q empty r

  -- The ring of the session holds no more than a poll has room for.
  abbrev pub Polls : Shared R → Session → Type 0
  Polls sh s = length (items (sh s.in_q)) ≤ req_batch_size

  empty-keeps :
      (n : ℕ) (sh : Shared R) (ss : List Session) (p : Polled R) (q : ℕ × ℕ)
      → items (sh q) ≡ []
      → recv_poll_from R n sh ss ≡ some p
      → items (p.shared q) ≡ []
  empty-keeps n sh ss p q empty h =
      let none_left = ap length (poll_from-keeps R n sh ss p q h ∙ ap (map bare) empty) in
      length-nil (items (p.shared q)) (
        omega (
          arith,
          none_left,
          length-append (out_of q p.delivered) (map bare (items (p.shared q))),
          length-bare (items (p.shared q)),
        ))

  poll-keeps_Polls :
      (sh sh' : Shared R) (s t : Session)
      → items (sh' s.in_q) ≡ []
      → ((q : ℕ × ℕ) → is_ring q s.in_q ≡ false → sh' q ≡ sh q)
      → Polls sh t
      → Polls sh' t
  poll-keeps_Polls sh sh' s t left others h = elim (Bool-cases (is_ring t.in_q s.in_q)) [
    | inl here ↦
        omega (arith, ap length (ap (λ q. items (sh' q)) (is_ring-eq t.in_q s.in_q here) ∙ left))
    | inr other ↦ subst (λ r. length (items r) ≤ req_batch_size) (sym (others t.in_q other)) h
  ]

  -- A poll of such sessions returns, and leaves their rings empty.
  pub poll_from-drains :
      (n : ℕ) (sh : Shared R) (ss : List Session)
      → All (Polls sh) ss
      → (p : Polled R) × (recv_poll_from R n sh ss ≡ some p)
        × All (λ s. items (p.shared s.in_q) ≡ []) ss
  unfolding recv_poll_from
  poll_from-drains n sh [] h = (record { delivered = []; count = n; shared = sh }, refl, tt)
  poll_from-drains n sh (s ∷ ss) h =
      let (a, first, all, left, others) = poll-fits R sh s h.0 in
      let (b, later, drained) =
        poll_from-drains a.count a.shared ss
          (All-weaken (λ t k. poll-keeps_Polls sh a.shared s t left others k) ss h.1) in
      (
        record b { delivered = a.delivered ++ b.delivered },
        rw (first, later, recv_poll_from) refl,
        (empty-keeps a.count a.shared ss b s.in_q left later, drained),
      )
