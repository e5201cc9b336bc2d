-- ===== src/Ipc.antt =====
-- spdk_ipc_messager.c and spdk_ipc_config.h: messages between the cores of one machine. For any two
-- cores there is a ring in shared memory, and a message goes from the one to the other by its address.
-- A failed assertion, or an access past the end of an array, is `none`. A session is known by its
-- address, and a ring by its two cores, its place in the shared table. What the callbacks do with
-- a message is left to the caller, who is given the messages in their order.
pub mod Rings
pub mod Fifo
pub mod Order
pub mod Sessions
pub mod Delivery
pub mod Peers
mod Tests
use zcell.Base.{
  ℕ, ◌+◌, ◌%◌, ◌^◌, Bool, true, false, not, List, [], ◌∷◌, ◌++◌, Option, none, some, map,
  if◌then◌else◌, ltb, ◌==◌, ◌&&◌, ◌||◌,
}
use zcell.Message.{Message}
use zcell.Ipc.Rings.{SpdkRing}

-- `session_t`
pub record Session : Type 0 where
  pub addr : ℕ
  pub priv : ℕ
  pub tgt_core : ℕ
  pub nr_to_flush : ℕ
  pub out_q : ℕ × ℕ
  pub in_q : ℕ × ℕ

-- `messager_t`, without its configuration.
pub record Messager : Type 0 where
  pub is_running : Bool
  pub my_lcore : ℕ
  pub poller_paused : Bool
  pub session_q : List Session

-- `REQ_BATCH_SIZE`
abbrev pub req_batch_size : ℕ
req_batch_size = 1024

-- `NR_CORE_MAX`
abbrev pub nr_core_max : ℕ
nr_core_max = 64

-- The ring between two cores, given as a pair.
abbrev pub is_ring : ℕ × ℕ → ℕ × ℕ → Bool
is_ring q r = (q.0 == r.0) && (q.1 == r.1)

module _ (R : SpdkRing) where
  open R use {Ring, enqueue, dequeue, count}

  -- `zcell_ipc_config_t`: the cores of the other process, and which rings there are.
  pub record Config : Type 0 where
    pub tgt_cores : List ℕ
    pub has_ring : ℕ × ℕ → Bool

  -- The rings as they are now.
  abbrev pub Shared : Type 0
  Shared = ℕ × ℕ → Ring

  abbrev pub put_ring : Shared → ℕ × ℕ → Ring → Shared
  put_ring sh q r p = if is_ring p q then r else sh p

  -- `message_send`: the copy that is put into the ring has no session. Whether the ring has taken it
  -- is not asked.
  pub message_send : Shared → Session → Message → Shared × Session
  message_send sh s m = (
    put_ring sh s.out_q (enqueue (sh s.out_q) (record m { priv_ctx = 0 })),
    record s { nr_to_flush = s.nr_to_flush + 1 },
  )

  -- What a poll gives to `on_recv_message`, each message with the session it came in, what the poll
  -- returns, and the rings.
  pub record Polled : Type 0 where
    pub delivered : List (Session × Message)
    pub count : ℕ
    pub shared : Shared

  -- `message_recv_poll_session`, and a round of `message_recv_poll`: `msgs` has 1024 elements.
  pub recv_poll_session : Shared → Session → Option Polled
  recv_poll_session sh s =
      let ring = sh s.in_q in
      let n = count ring in
      let (msgs, ring') = dequeue ring n in
      if n == 0
      then some (record { delivered = []; count = 0; shared = sh })
      else if ltb req_batch_size n
      then none
      else some (record {
        delivered = map (λ m. (s, record m { priv_ctx = s.addr })) msgs;
        count = n;
        shared = put_ring sh s.in_q ring';
      })

  -- A later part of the loop, behind one round.
  abbrev pub then_poll : Polled → Option Polled → Option Polled
  then_poll p none = none
  then_poll p (some q) = some (record q { delivered = p.delivered ++ q.delivered })

  -- The loop of `message_recv_poll`, with the `count` of the round before: the count that is
  -- returned is that of the last session.
  pub recv_poll_from : ℕ → Shared → List Session → Option Polled
  recv_poll_from n sh [] = some (record { delivered = []; count = n; shared = sh })
  recv_poll_from n sh (s ∷ ss) = elim (recv_poll_session sh s) [
    | none ↦ none
    | some p ↦ then_poll p (recv_poll_from p.count p.shared ss)
  ]

  -- `message_recv_poll`
  pub recv_poll : Shared → List Session → Option Polled
  recv_poll sh ss = recv_poll_from 0 sh ss

  -- The session that the server makes for a core, and that `_cli_messager_connect2` makes, at an
  -- address that `calloc` gives; both assert that the rings exist.
  pub make_session : Config → ℕ → ℕ → ℕ → ℕ → Option Session
  make_session zic my_lcore tgt priv addr =
      if zic.has_ring (tgt, my_lcore) && zic.has_ring (my_lcore, tgt)
      then some (record {
        addr = addr;
        priv = priv;
        tgt_core = tgt;
        nr_to_flush = 0;
        out_q = (my_lcore, tgt);
        in_q = (tgt, my_lcore);
      })
      else none

  abbrev pub then_session : Session → Option (List Session) → Option (List Session)
  then_session s none = none
  then_session s (some ss) = some (s ∷ ss)

  -- The loop of `_messager_constructor` for a server; the address of a session by its core.
  pub server_sessions : Config → ℕ → (ℕ → ℕ) → List ℕ → Option (List Session)
  server_sessions zic my_lcore addr [] = some []
  server_sessions zic my_lcore addr (tgt ∷ tgts) =
      elim (make_session zic my_lcore tgt 0 (addr tgt)) [
        | none ↦ none
        | some s ↦ then_session s (server_sessions zic my_lcore addr tgts)
      ]

  -- What `_messager_constructor` returns.
  pub data Built : Type 0 where
    built : Messager → Built
    no_config : Built

  abbrev pub build : ℕ → Bool → List Session → Built
  build my_lcore paused ss =
      built
        (record { is_running = true; my_lcore = my_lcore; poller_paused = paused; session_q = ss })

  -- `_messager_constructor`. `zic` is what the lookup of the shared memory gives, `none` for NULL.
  pub messager_constructor : Option Config → ℕ → (ℕ → ℕ) → Bool → Option Built
  messager_constructor none my_lcore addr is_server = some no_config
  messager_constructor (some zic) my_lcore addr false = some (build my_lcore true [])
  messager_constructor (some zic) my_lcore addr true =
      elim (server_sessions zic my_lcore addr zic.tgt_cores) [
        | none ↦ none
        | some ss ↦ some (build my_lcore true ss)
      ]

  -- `_cli_messager_connect2`
  pub connect2 : Config → Messager → ℕ → ℕ → ℕ → Option (Session × Messager)
  connect2 zcfg msgr lcore priv addr = elim (make_session zcfg msgr.my_lcore lcore priv addr) [
    | none ↦ none
    | some s ↦ some (s, record msgr { session_q = msgr.session_q ++ s ∷ [] })
  ]

-- `TAILQ_REMOVE`
pub remove_session : ℕ → List Session → List Session
remove_session addr [] = []
remove_session addr (s ∷ ss) = if s.addr == addr then ss else s ∷ remove_session addr ss

-- `_cli_messager_close`
pub messager_close : Messager → Session → Messager
messager_close msgr s = record msgr { session_q = remove_session s.addr msgr.session_q }

-- `_messager_destructor`
pub messager_destructor : Bool → Messager → Messager
messager_destructor is_server msgr =
    if msgr.is_running
    then record msgr {
      is_running = false;
      poller_paused = is_server || msgr.poller_paused;
      session_q = [];
    }
    else msgr

-- `_srv_messager_start` and `_srv_messager_stop`
pub srv_start : Messager → Messager
srv_start msgr = record msgr { poller_paused = false }

pub srv_stop : Messager → Messager
srv_stop msgr = record msgr { poller_paused = true }

-- `_cli_messager_flush_msg_of`: how many messages were sent since the last call.
pub cli_flush_msg_of : Session → ℕ × Session
cli_flush_msg_of s = (s.nr_to_flush % 2 ^ 32, record s { nr_to_flush = 0 })
