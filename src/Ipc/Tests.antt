-- ===== src/Ipc/Tests.antt =====
-- Two cores, with rings of two places.
use mathlib.Core.Option.{some-injective, some-ne-none}
use zcell.Base.{
  ℕ, zero, suc, sym, ◌-◌, ◌+◌, ◌<◌, ◌≤◌, ◌≡◌, refl, true, List, [], ◌∷◌, ◌++◌, some, length, take,
  drop, if◌then◌else◌, ltb, get_elem?, arith, All,
}
use zcell.Message.{Message, no_message}
use zcell.Ipc.Rings.{SpdkRing}
use zcell.Ipc.{
  Session, Messager, Config, Shared, Polled, built, server_sessions, make_session,
  messager_constructor, connect2, message_send, recv_poll,
}
use zcell.Ipc.Fifo.{bare, out_of}
use zcell.Ipc.Order.{Run, Run-fifo}
use zcell.Ipc.Peers.{In, recv_poll-connect2}
use zcell.Base.{map}

abbrev two_places : List Message → Message → List Message
two_places r m = if ltb (length r) 2 then r ++ m ∷ [] else r

two_places_room : (r : List Message) (m : Message) → 0 < 2 - length r → two_places r m ≡ r ++ m ∷ []
two_places_room r m h = ground (arith, h)

two_places_full : (r : List Message) (m : Message) → 2 - length r ≡ 0 → two_places r m ≡ r
two_places_full r m h = ground (arith, h)

abbrev small_rings : SpdkRing
small_rings = record {
  Ring = List Message;
  items = λ r. r;
  room = λ r. 2 - length r;
  enqueue = two_places;
  dequeue = λ r n. (take n r, drop n r);
  count = λ r. length r;
  count_items = λ r. refl;
  enqueue_room = two_places_room;
  enqueue_full = two_places_full;
  dequeue_taken = λ r n. refl;
  dequeue_left = λ r n. refl;
}

abbrev zic : Config small_rings
zic = record { tgt_cores = 5 ∷ 6 ∷ []; has_ring = λ q. true }

abbrev empty_rings : Shared small_rings
empty_rings = λ q. []

-- The session of the client on core 6 with the server on core 1.
abbrev cs : Session
cs = record { addr = 70; priv = 9; tgt_core = 1; nr_to_flush = 0; out_q = (6, 1); in_q = (1, 6) }

abbrev cli : Messager
cli = record { is_running = true; my_lcore = 6; poller_paused = true; session_q = [] }

abbrev server_session : ℕ → Session
server_session c = record {
  addr = 100 + c;
  priv = 0;
  tgt_core = c;
  nr_to_flush = 0;
  out_q = (1, c);
  in_q = (c, 1);
}

abbrev srv : Messager
srv = record {
  is_running = true;
  my_lcore = 1;
  poller_paused = true;
  session_q = server_session 5 ∷ server_session 6 ∷ [];
}

srv_built : messager_constructor small_rings (some zic) 1 (λ c. 100 + c) true ≡ some (built srv)
unfolding messager_constructor server_sessions make_session
srv_built = refl

connected : connect2 small_rings zic cli 1 9 70 ≡ some (cs, record cli { session_q = cs ∷ [] })
unfolding connect2 make_session
connected = refl

abbrev ping : Message
ping = record no_message { meta_buffer = 33; priv_ctx = 70 }

abbrev after_send : Shared small_rings
after_send = (message_send small_rings empty_rings cs ping).0

one_sent : Run small_rings empty_rings ((cs, ping) ∷ []) [] after_send
one_sent = Run.sends cs ping (Run.begin) (omega arith)

Run-fifo_example : map bare (after_send (6, 1)) ≡ bare ping ∷ []
Run-fifo_example = Run-fifo small_rings (6, 1) refl one_sent

after_send-Polls : All (λ s. length (after_send s.in_q) ≤ 1024) srv.session_q
unfolding message_send
after_send-Polls = omega arith

listed_once : (j : ℕ) → get_elem? zic.tgt_cores j ≡ some 6 → j ≡ 1
listed_once zero h = absurd (omega (arith, some-injective 5 6 h))
listed_once (suc zero) h = refl
listed_once (suc (suc j)) h = absurd (some-ne-none 6 (sym h))

recv_poll-connect2_example :
    (s : Session) × (p : Polled small_rings) × (get_elem? srv.session_q 1 ≡ some s)
    × (s.in_q ≡ (6, 1))
    × (s.out_q ≡ (1, 6))
    × (recv_poll small_rings after_send srv.session_q ≡ some p)
    × (out_of (6, 1) ([] ++ p.delivered) ≡ bare ping ∷ [])
    × All (In small_rings (6, 1) s) ([] ++ p.delivered)
recv_poll-connect2_example =
    recv_poll-connect2 small_rings zic (λ c. 100 + c) srv cli (record cli { session_q = cs ∷ [] })
      cs 1 1 9 70 empty_rings after_send ((cs, ping) ∷ []) [] srv_built refl listed_once connected
      refl one_sent tt after_send-Polls
