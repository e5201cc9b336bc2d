-- ===== src/Messager/Flush.antt =====
-- Flushing the queue of a session.
use mathlib.Core.List.{append_assoc}
use zcell.Base.{ℕ, ◌≡◌, inl, inr, refl, sym, ap, ap₂, map, ◌∙◌, List, [], ◌∷◌, ◌++◌, arith, All}
use zcell.Messager.{Msg, msg_rem_tlen, do_send_message, flush_msg_of}
use zcell.Messager.Socket.{Net}
use zcell.Messager.Send.{
  Sendable, Sends, unsent, SockStatus-cases, Sends-Sendable, do_send_message-Sends,
}

unsent_none : (m : Msg) → msg_rem_tlen m ≡ 0 → unsent m ≡ []
unsent_none m h =
    let z : m.state.hdr_rem_len ≡ 0 = omega (arith, h) in
    let y : m.state.meta_rem_len ≡ 0 = omega (arith, h) in
    let x : m.state.data_rem_len ≡ 0 = omega (arith, h) in rw (z, y, x) refl

-- What a message says, whatever is left of it.
abbrev pub content : Msg → Msg
content m = record m { state = record { hdr_rem_len = 0; meta_rem_len = 0; data_rem_len = 0 } }

abbrev pub unsent_all : List Msg → List ℕ
unsent_all [] = []
unsent_all (m ∷ q) = unsent m ++ unsent_all q

module _ {S : Type 0} (net : Net S) where
  same_content : (m n : Msg) (s t : S) → Sends net m s n t → content n ≡ content m
  same_content m n s t a = ap content a.same

  -- Flushing the queue of a session, whether the session survives it or not: the bytes that the
  -- socket has accepted and those left to send are, in their order, what they were; and the messages
  -- sent, then the queue that is left, say what the queue said.
  pub flush_msg_of-unsent :
      (q : List Msg) (s : S)
      → All Sendable q
      → let (sent, q', lives, s') = flush_msg_of net q s in
        (net.outgoing s' ++ unsent_all q' ≡ net.outgoing s ++ unsent_all q)
        × All Sendable q'
        × (map content (sent ++ q') ≡ map content q)
  unfolding flush_msg_of
  flush_msg_of-unsent [] s h = (refl, tt, refl)
  flush_msg_of-unsent (m ∷ q) s h =
      let r = do_send_message net m s in
      let (first, ended) = do_send_message-Sends net m s h.0 in
      let ready = Sends-Sendable net m r.1 s r.2 first h.0 in
      let says = same_content m r.1 s r.2 first in
      let front : net.outgoing r.2 ++ (unsent r.1 ++ unsent_all q)
          ≡ net.outgoing s ++ (unsent m ++ unsent_all q) =
        sym (append_assoc (net.outgoing r.2) (unsent r.1) (unsent_all q))
        ∙ ap (λ l. l ++ unsent_all q) first.bytes
        ∙ append_assoc (net.outgoing s) (unsent m) (unsent_all q) in
      let (bytes, rest, words) = flush_msg_of-unsent q r.2 h.1 in
      elim (SockStatus-cases r.0) [
        | inl e ↦
            let none_left = unsent_none r.1 (ended e) in
            rw (e, flush_msg_of)
              (
                bytes ∙ ap (λ l. net.outgoing r.2 ++ (l ++ unsent_all q)) (sym none_left) ∙ front,
                rest,
                ap₂ (λ a l. a ∷ l) says words,
              )
        | inr (inl e) ↦ rw (e, flush_msg_of) (front, (ready, h.1), ap (λ a. a ∷ map content q) says)
        | inr (inr e) ↦ rw (e, flush_msg_of) (front, (ready, h.1), ap (λ a. a ∷ map content q) says)
      ]
