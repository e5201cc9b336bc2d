-- ===== src/Ipc/Delivery.antt =====
-- In which sessions a poll delivers, and the session that it writes into a message.
use mathlib.Core.Option.{some-injective}
use zcell.Base.{
  ℕ, suc, ◌≡◌, refl, sym, ap, ◌∙◌, List, [], ◌∷◌, some, get_elem?, All, All-append, All-weaken,
  subst,
}
use zcell.Message.{Message}
use zcell.Ipc.Rings.{SpdkRing}
use zcell.Ipc.{Session, Shared, Polled, recv_poll_session, recv_poll_from, recv_poll}
use zcell.Ipc.Fifo.{given, poll-fits, poll-some, poll_from-cons}
use zcell.Ipc.Order.{Run, begin, sends, loses, polls}

-- The message has the address of the session in which it came as its session.
abbrev pub Stamped : Session × Message → Type 0
Stamped d = d.1.priv_ctx ≡ d.0.addr

-- It came in one of these sessions.
abbrev pub InOneOf : List Session → Session × Message → Type 0
InOneOf ss d = (k : ℕ) × (get_elem? ss k ≡ some d.0)

given-all :
    (s : Session) (ss : List Session) (ms : List Message)
    → All (λ d. Stamped d × InOneOf (s ∷ ss) d) (given s ms)
given-all s ss [] = tt
given-all s ss (m ∷ ms) = ((refl, (0, refl)), given-all s ss ms)

module _ (R : SpdkRing) where
  poll_session-all :
      (sh : Shared R) (s : Session) (ss : List Session) (p : Polled R)
      → recv_poll_session R sh s ≡ some p
      → All (λ d. Stamped d × InOneOf (s ∷ ss) d) p.delivered
  poll_session-all sh s ss p h =
      let (p', ran, all, left, others) = poll-fits R sh s (poll-some R sh s p h) in
      let same : p' ≡ p = some-injective p' p (sym ran ∙ h) in
      subst (All (λ d. Stamped d × InOneOf (s ∷ ss) d)) (sym all ∙ ap (λ p. p.delivered) same)
        (given-all s ss _)

  poll_from-all :
      (n : ℕ) (sh : Shared R) (ss : List Session) (p : Polled R)
      → recv_poll_from R n sh ss ≡ some p
      → All (λ d. Stamped d × InOneOf ss d) p.delivered
  unfolding recv_poll_from
  poll_from-all n sh [] p h =
      subst (λ p. All (λ d. Stamped d × InOneOf [] d) p.delivered)
        (some-injective (record { delivered = []; count = n; shared = sh }) p h) tt
  poll_from-all n sh (s ∷ ss) p h =
      let (a, b, first, later, e) = poll_from-cons R n sh s ss p h in
      subst (λ p. All (λ d. Stamped d × InOneOf (s ∷ ss) d) p.delivered) (sym e)
        (All-append (λ d. Stamped d × InOneOf (s ∷ ss) d) a.delivered b.delivered
          (poll_session-all sh s ss a first)
          (All-weaken (λ d k. (k.0, (suc k.1.0, k.1.1))) b.delivered
            (poll_from-all a.count a.shared ss b later)))

  -- What a poll delivers came in sessions that it polled.
  pub poll_from-InOneOf :
      (n : ℕ) (sh : Shared R) (ss : List Session) (p : Polled R)
      → recv_poll_from R n sh ss ≡ some p
      → All (InOneOf ss) p.delivered
  poll_from-InOneOf n sh ss p h = All-weaken (λ d k. k.1) p.delivered (poll_from-all n sh ss p h)

  -- Whatever was delivered has its session.
  pub Run-Stamped :
      {start sh : Shared R} {sent del : List (Session × Message)}
      → Run R start sent del sh
      → All Stamped del
  unfolding recv_poll
  Run-Stamped begin = tt
  Run-Stamped (sends s m r space) = Run-Stamped r
  Run-Stamped (loses s m r full) = Run-Stamped r
  Run-Stamped (polls {sent} {del} {sh} ss p r h) =
      All-append Stamped del p.delivered (Run-Stamped r)
        (All-weaken (λ d k. k.0) p.delivered (poll_from-all 0 sh ss p h))
