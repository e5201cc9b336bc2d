-- ===== src/Messager/Tests.antt =====
-- A socket that accepts 16 bytes at a time, and from which bytes arrive in pieces.
use mathlib.Core.List.{append_assoc}
use zcell.Base.{
  ℕ, ◌≤◌, ◌≡◌, refl, sym, ap, ◌∙◌, Bool, List, [], ◌∷◌, ◌++◌, Option, none, some, map, take, drop,
  take-drop, length-take_le, take-length, length, arith, All,
}
use zcell.Message.{MsgHdr, op_write, remote}
use zcell.Message.Wire.{hdr_of, le, of_le}
use zcell.Messager.{
  Msg, sock_rc_handle, then_do, send_part, do_send_hdr, do_send_meta, do_send_data, do_send_message,
  flush_msg_of, recv_part, recv_hdr, do_recv_hdr, do_recv_meta, do_recv_data, do_recv_message,
  tail_recv_msg, pop_all, recv_all, read_event_callback,
}
use zcell.Messager.Socket.{Net, Rc, moved, would_block, count}
use zcell.Messager.Send.{Sendable}
use zcell.Messager.Flush.{content, unsent_all, flush_msg_of-unsent}
use zcell.Messager.Header.{wire}
use zcell.Messager.Queue.{IsWhole, wire_all}
use zcell.Messager.Stream.{
  Sending, Receiving, opened, pushed, flushed, accepted, delivered, Receiving-Sending,
}

-- The pieces that arrive, and the bytes accepted.
abbrev Wire : Type 0
Wire = List (List ℕ) × List ℕ

abbrev joined : List (List ℕ) → List ℕ
joined [] = []
joined (c ∷ cs) = c ++ joined cs

abbrev take_piece : List (List ℕ) → List ℕ → ℕ → Rc × List ℕ × Wire
take_piece [] out n = (would_block, [], ([], out))
take_piece (c ∷ cs) out n = (moved (length (take n c)), take n c, (drop n c ∷ cs, out))

pieces : Net Wire
pieces = record {
  readv = λ s n. take_piece s.0 s.1 n;
  writev = λ s bytes. (moved (length (take 16 bytes)), (s.0, s.1 ++ take 16 bytes));
  incoming = λ s. joined s.0;
  outgoing = λ s. s.1;
  reads = λ s n. lawful s.0 s.1 n;
  writes = λ s bytes.
      ((length-take_le 16 bytes).1, ap (λ l. s.1 ++ l) (sym (take-length 16 bytes)), refl);
}
  where
    lawful :
        (cs : List (List ℕ)) (out : List ℕ) (n : ℕ)
        → let (rc, bytes, s') = take_piece cs out n in
          (joined cs ≡ bytes ++ joined s'.0)
          × (length bytes ≤ n)
          × (count rc ≡ length bytes)
          × (s'.1 ≡ out)
    lawful [] out n = (refl, omega arith, refl, refl)
    lawful (c ∷ cs) out n = (
      ap (λ l. l ++ joined cs) (sym (take-drop n c))
          ∙ append_assoc (take n c) (drop n c) (joined cs),
      (length-take_le n c).0,
      refl,
      refl,
    )

abbrev hdr : MsgHdr
hdr = record {
  seq = 300;
  type = op_write;
  status = 0;
  magic = remote;
  meta_length = 2;
  data_length = 3;
  slo = 0;
  rsv0 = 5;
  rsv1 = 0;
}

-- The bytes of a header.
hdr_bytes : MsgHdr → List ℕ
hdr_bytes h =
    le 8 h.seq
    ++ le 1 h.type
    ++ le 1 h.status
    ++ le 1 h.magic
    ++ le 1 h.meta_length
    ++ le 4 h.data_length
    ++ le 2 h.slo
    ++ le 4 h.rsv0
    ++ le 4 h.rsv1

-- A request with two bytes of arguments and three of data.
abbrev small : Msg
small = record {
  state = record { hdr_rem_len = 26; meta_rem_len = 2; data_rem_len = 3 };
  header = hdr_bytes hdr;
  meta_buffer = 8 ∷ 9 ∷ [];
  data_buffer = 1 ∷ 2 ∷ 3 ∷ [];
}

small-Sendable : Sendable small
unfolding hdr_bytes hdr_of le of_le
small-Sendable = record {
  hdr_left = omega arith;
  meta_left = omega arith;
  data_left = omega arith;
  hdr_there = omega arith;
  meta_there = omega arith;
  data_there = omega arith;
}

small-IsWhole : IsWhole small
unfolding hdr_bytes hdr_of le of_le
small-IsWhole = record { hdr = refl; meta = refl; payload = refl }

flush_msg_of-unsent_example :
    let (sent, q', lives, s') = flush_msg_of pieces (small ∷ []) ([], []) in
    (s'.1 ++ unsent_all q' ≡ unsent_all (small ∷ []))
    × All Sendable q'
    × (map content (sent ++ q') ≡ content small ∷ [])
unfolding pieces
flush_msg_of-unsent_example = flush_msg_of-unsent pieces (small ∷ []) ([], []) (small-Sendable, tt)

-- The bytes of the request have arrived.
abbrev arriving : Wire
arriving = (wire small ∷ [], [])

abbrev event : Option (List Msg × List Msg × Wire)
event = read_event_callback pieces [] arriving

abbrev outcome : List Msg × List Msg × Wire
outcome = elim event [ none ↦ ([], [], arriving) | some p ↦ p ]

event_is : event ≡ some outcome
unfolding pieces hdr_bytes hdr_of le of_le read_event_callback recv_all tail_recv_msg pop_all
    do_recv_message do_recv_hdr recv_hdr do_recv_meta do_recv_data recv_part then_do sock_rc_handle
event_is = refl

outcome_is : map content outcome.0 ≡ content small ∷ []
unfolding pieces hdr_bytes hdr_of le of_le read_event_callback recv_all tail_recv_msg pop_all
    do_recv_message do_recv_hdr recv_hdr do_recv_meta do_recv_data recv_part then_do sock_rc_handle
outcome_is = refl

-- The sender's socket accepts the request in two goes.
abbrev once : List Msg × List Msg × Bool × Wire
once = flush_msg_of pieces (small ∷ []) ([], [])

abbrev twice : List Msg × List Msg × Bool × Wire
twice = flush_msg_of pieces once.1 once.3

sending : Sending pieces (small ∷ []) twice.1 twice.3
unfolding pieces hdr_bytes hdr_of le of_le
sending = flushed (small ∷ []) once.1 once.3 (
    flushed (small ∷ []) (small ∷ []) ([], [])
      (pushed [] [] ([], []) small (opened ([], []) refl) small-IsWhole (refl, refl, refl)))

receiving : Receiving pieces outcome.0 outcome.1 outcome.2 (wire small)
unfolding pieces hdr_bytes le
receiving =
    delivered [] [] outcome.0 outcome.1 arriving outcome.2 (wire small) (accepted arriving) event_is

Receiving-Sending_example :
    (ks : List Msg) × (map content (small ∷ []) ≡ map content outcome.0 ++ map content ks)
    × (wire_all ks
        ≡ (wire_all outcome.1 ++ pieces.incoming outcome.2) ++ ([] ++ unsent_all twice.1))
unfolding pieces hdr_bytes hdr_of le of_le flush_msg_of do_send_message do_send_hdr do_send_meta
    do_send_data send_part then_do sock_rc_handle
Receiving-Sending_example =
    Receiving-Sending pieces pieces (small ∷ []) twice.1 outcome.0 outcome.1 twice.3 outcome.2
      (wire small) [] sending receiving refl
