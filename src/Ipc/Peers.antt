-- ===== src/Ipc/Peers.antt =====
-- The session of a client and the server's session for its core.
use mathlib.Core.List.{append-nil}
use mathlib.Core.Option.{some-injective, some-ne-none}
use zcell.Base.{
  ℕ, zero, suc, ◌≡◌, sym, ap, ◌∙◌, true, List, [], ◌∷◌, ◌++◌, some, get_elem?, map, All, All-append,
  All-weaken, subst,
}
use zcell.Message.{Message}
use zcell.Ipc.Rings.{SpdkRing}
use zcell.Ipc.{
  Session, Messager, Config, Shared, Polled, built, messager_constructor, connect2, recv_poll,
}
use zcell.Ipc.Fifo.{into, out_of, bare}
use zcell.Ipc.Order.{Run, Run-fifo, Polls, poll_from-drains}
use zcell.Ipc.Sessions.{
  server_sessions-has, server_sessions-at, constructor-sessions, connect2-Joins,
}
use zcell.Ipc.Delivery.{InOneOf, Run-Stamped, poll_from-InOneOf}

module _ (R : SpdkRing) where
  open R use {items}

  All-at :
      (P : Session → Type 0) (ss : List Session) (i : ℕ) (s : Session)
      → All P ss
      → get_elem? ss i ≡ some s
      → P s
  All-at P [] i s h at = absurd (some-ne-none s (sym at))
  All-at P (x ∷ ss) zero s h at = subst P (some-injective x s at) h.0
  All-at P (x ∷ ss) (suc i) s h at = All-at P ss i s h.1 at

  All-weaken₂ :
      {P Q S : Session × Message → Type 0} (l : List (Session × Message))
      → All P l
      → All Q l
      → ((d : Session × Message) → P d → Q d → S d)
      → All S l
  All-weaken₂ [] hp hq f = tt
  All-weaken₂ (d ∷ l) hp hq f = (f d hp.0 hq.0, All-weaken₂ l hp.1 hq.1 f)

  -- A delivery out of the ring of this client is in this session, and has it as its session.
  abbrev pub In : ℕ × ℕ → Session → Session × Message → Type 0
  In q s d = d.0.in_q ≡ q → (d.0 ≡ s) × (d.1.priv_ctx ≡ s.addr)

  -- A server has one session with the ring of a core that is in its list once.
  one_session :
      (zic : Config R) (addr : ℕ → ℕ) (srv : Messager) (s t : Session) (i lcore core k : ℕ)
      → messager_constructor R (some zic) lcore addr true ≡ some (built srv)
      → ((j : ℕ) → get_elem? zic.tgt_cores j ≡ some core → j ≡ i)
      → get_elem? srv.session_q i ≡ some s
      → get_elem? srv.session_q k ≡ some t
      → t.in_q ≡ (core, lcore)
      → t ≡ s
  one_session zic addr srv s t i lcore core k built_srv once place found reads =
      let (c, listed, joins) =
        server_sessions-at R zic lcore addr zic.tgt_cores srv.session_q k t
          (constructor-sessions R zic lcore addr srv built_srv) found in
      let same : c ≡ core = ap (λ q. q.0) (sym joins.receives_from ∙ reads) in
      let here : k ≡ i = once k (listed ∙ ap some same) in
      some-injective t s (sym found ∙ ap (λ n. get_elem? srv.session_q n) here ∙ place)

  -- A server that is built for cores among which that of a client is once, and a client that has
  -- connected to the core of the server; any sends and polls of any sessions from empty rings, in
  -- which only sessions of the server have polled the ring of the client; then, no ring of the
  -- server's sessions holding more than 1024 messages, a poll of the server: it returns, and with it
  -- the server has got exactly the messages that were sent into the client's session while its ring
  -- had room, in their order, each once. Each of them came in the server's session for that client
  -- and has the address of that session as its session, and the answers of that session go into
  -- the ring that the client's session reads.
  pub recv_poll-connect2 :
      (zic : Config R) (addr : ℕ → ℕ) (srv cli cli' : Messager) (cs : Session) (i lcore priv at : ℕ)
      (start sh : Shared R) (sent del : List (Session × Message))
      → messager_constructor R (some zic) lcore addr true ≡ some (built srv)
      → get_elem? zic.tgt_cores i ≡ some cli.my_lcore
      → ((j : ℕ) → get_elem? zic.tgt_cores j ≡ some cli.my_lcore → j ≡ i)
      → connect2 R zic cli lcore priv at ≡ some (cs, cli')
      → items (start cs.out_q) ≡ []
      → Run R start sent del sh
      → All (λ d. d.0.in_q ≡ cs.out_q → InOneOf srv.session_q d) del
      → All (Polls R sh) srv.session_q
      → (s : Session) × (p : Polled R) × (get_elem? srv.session_q i ≡ some s)
        × (s.in_q ≡ cs.out_q)
        × (s.out_q ≡ cs.in_q)
        × (recv_poll R sh srv.session_q ≡ some p)
        × (out_of cs.out_q (del ++ p.delivered) ≡ into cs.out_q sent)
        × All (In cs.out_q s) (del ++ p.delivered)
  unfolding recv_poll
  recv_poll-connect2 zic addr srv cli cli' cs i lcore priv at start sh sent del built_srv listed
        once connected empty run own fits =
      let (s, place, joins) =
        server_sessions-has R zic lcore addr zic.tgt_cores srv.session_q i cli.my_lcore
          (constructor-sessions R zic lcore addr srv built_srv) listed in
      let peer = connect2-Joins R zic cli lcore priv at cs cli' connected in
      let same : s.in_q ≡ cs.out_q = joins.receives_from ∙ sym peer.sends_to in
      let (p, polled, drained) = poll_from-drains R 0 sh srv.session_q fits in
      let left : items (p.shared cs.out_q) ≡ [] =
        ap (λ q. items (p.shared q)) (sym same)
        ∙ All-at (λ s. items (p.shared s.in_q) ≡ []) srv.session_q i s drained place in
      let run' = Run.polls srv.session_q p run polled in
      let in_one : All (λ d. d.0.in_q ≡ cs.out_q → InOneOf srv.session_q d) (del ++ p.delivered) =
        All-append (λ d. d.0.in_q ≡ cs.out_q → InOneOf srv.session_q d) del p.delivered own
          (All-weaken (λ d h reads. h) p.delivered
            (poll_from-InOneOf R 0 sh srv.session_q p polled)) in
      (
        s,
        p,
        place,
        same,
        joins.sends_to ∙ sym peer.receives_from,
        polled,
        sym (append-nil (out_of cs.out_q (del ++ p.delivered)))
            ∙ ap (λ l. out_of cs.out_q (del ++ p.delivered) ++ map bare l) (sym left)
            ∙ Run-fifo R cs.out_q empty run',
        All-weaken₂ (del ++ p.delivered) in_one (Run-Stamped R run') (λ d one stamp reads.
            let (k, found) = one reads in
            let is_s =
              one_session zic addr srv s d.0 i lcore cli.my_lcore k built_srv once place found
                (reads ∙ peer.sends_to) in
            (is_s, stamp ∙ ap (λ t. t.addr) is_s)),
      )
