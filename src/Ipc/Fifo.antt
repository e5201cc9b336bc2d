-- ===== src/Ipc/Fifo.antt =====
-- What goes into a ring comes out of it, in order.
use mathlib.Core.Option.{some-injective, some-ne-none}
use mathlib.Core.List.{append_assoc, append-nil, map-append}
use zcell.Base.{
  ℕ, ◌<◌, ◌≤◌, ◌≡◌, refl, sym, ap, ap₂, ◌∙◌, Bool, true, false, List, [], ◌∷◌, ◌++◌, some, map,
  length, take_all, drop_all, if◌then◌else◌, ltb, ◌==◌, ==_iff, Bool-cases, Option-cases, inl, inr,
  subst, arith, and_both,
}
use zcell.Message.{Message}
use zcell.Ipc.Rings.{SpdkRing}
use zcell.Ipc.{
  Session, Shared, Polled, is_ring, put_ring, message_send, recv_poll_session, recv_poll_from,
  req_batch_size,
}

-- A message without its session.
abbrev pub bare : Message → Message
bare m = record m { priv_ctx = 0 }

-- The messages of these that were sent into a ring.
abbrev pub into : ℕ × ℕ → List (Session × Message) → List Message
into q [] = []
into q ((s, m) ∷ l) = if is_ring q s.out_q then bare m ∷ into q l else into q l

-- The messages of these that came out of a ring.
abbrev pub out_of : ℕ × ℕ → List (Session × Message) → List Message
out_of q [] = []
out_of q ((s, m) ∷ l) = if is_ring q s.in_q then bare m ∷ out_of q l else out_of q l

pub into-append :
    (q : ℕ × ℕ) (l k : List (Session × Message)) → into q (l ++ k) ≡ into q l ++ into q k
into-append q [] k = refl
into-append q ((s, m) ∷ l) k = ground (arith, into-append q l k)

pub out_of-append :
    (q : ℕ × ℕ) (l k : List (Session × Message)) → out_of q (l ++ k) ≡ out_of q l ++ out_of q k
out_of-append q [] k = refl
out_of-append q ((s, m) ∷ l) k = ground (arith, out_of-append q l k)

-- The deliveries of one session.
abbrev pub given : Session → List Message → List (Session × Message)
given s ms = map (λ m. (s, record m { priv_ctx = s.addr })) ms

out_of-same :
    (q : ℕ × ℕ) (s : Session) (ms : List Message)
    → is_ring q s.in_q ≡ true
    → out_of q (given s ms) ≡ map bare ms
out_of-same q s [] e = refl
out_of-same q s (m ∷ ms) e = rw e (ap (λ l. bare m ∷ l) (out_of-same q s ms e))

out_of-other :
    (q : ℕ × ℕ) (s : Session) (ms : List Message)
    → is_ring q s.in_q ≡ false
    → out_of q (given s ms) ≡ []
out_of-other q s [] e = refl
out_of-other q s (m ∷ ms) e = rw e (out_of-other q s ms e)

pub is_ring-eq : (q r : ℕ × ℕ) → is_ring q r ≡ true → q ≡ r
is_ring-eq q r h =
    let (a, b) = and_both (q.0 == r.0) (q.1 == r.1) h in
    ap₂ (λ (x y : ℕ). (x, y)) ((==_iff q.0 r.0).0 a) ((==_iff q.1 r.1).0 b)

pub is_ring_refl : (q : ℕ × ℕ) → is_ring q q ≡ true
is_ring_refl q = ground arith

pub length-nil : {A : Type 0} (xs : List A) → length xs ≡ 0 → xs ≡ []
length-nil [] e = refl
length-nil (x ∷ xs) e = absurd (omega (arith, e))

module _ (R : SpdkRing) where
  open R use {
    Ring, items, room, enqueue, dequeue, count, count_items, enqueue_room, enqueue_full,
    dequeue_taken, dequeue_left,
  }

  -- A poll of a session takes all out of its ring: how it ends, by what the ring holds.
  pub poll-fits :
      (sh : Shared R) (s : Session)
      → length (items (sh s.in_q)) ≤ req_batch_size
      → (p : Polled R) × (recv_poll_session R sh s ≡ some p)
        × (p.delivered ≡ given s (items (sh s.in_q)))
        × (items (p.shared s.in_q) ≡ [])
        × ((q : ℕ × ℕ) → is_ring q s.in_q ≡ false → p.shared q ≡ sh q)
  unfolding recv_poll_session
  poll-fits sh s fits =
      let r = sh s.in_q in
      let n = count r in
      let counted : n ≡ length (items r) = count_items r in
      let not_too_many : ltb req_batch_size n ≡ false = ground (arith, counted, fits) in
      elim (Bool-cases (n == 0)) [
        | inl none_there ↦
            let nothing : items r ≡ [] =
              length-nil (items r) (sym counted ∙ (==_iff n 0).0 none_there) in
            (
              record { delivered = []; count = 0; shared = sh },
              rw (none_there, recv_poll_session) refl,
              ap (given s) (sym nothing),
              nothing,
              λ q ne. refl,
            )
        | inr some_there ↦
            let rest = (dequeue r n).1 in
            (
              record {
                delivered = given s (dequeue r n).0;
                count = n;
                shared = put_ring R sh s.in_q rest;
              },
              rw (some_there, not_too_many, recv_poll_session) refl,
              ap (given s) (dequeue_taken r n ∙ take_all n (items r) (omega (arith, counted))),
              ap (λ (b : Bool). items (if b then rest else sh s.in_q)) (is_ring_refl s.in_q)
                  ∙ dequeue_left r n
                  ∙ drop_all n (items r) (omega (arith, counted)),
              λ q ne. ap (λ (b : Bool). if b then rest else sh q) ne,
            )
      ]

  pub poll-some :
      (sh : Shared R) (s : Session) (p : Polled R)
      → recv_poll_session R sh s ≡ some p
      → length (items (sh s.in_q)) ≤ req_batch_size
  unfolding recv_poll_session
  poll-some sh s p h =
      let counted = count_items (sh s.in_q) in
      elim (Bool-cases (ltb req_batch_size (count (sh s.in_q)))) [
        | inl many ↦
            let more : (count (sh s.in_q) == 0) ≡ false = ground (arith, many) in
            absurd (some-ne-none p (sym (rw (more, many, recv_poll_session) at h)))
        | inr few ↦ ground (arith, few, counted)
      ]

  -- One session keeps, for every ring, what came out of it and then what it holds.
  poll_session-keeps :
      (sh : Shared R) (s : Session) (p : Polled R) (q : ℕ × ℕ)
      → recv_poll_session R sh s ≡ some p
      → out_of q p.delivered ++ map bare (items (p.shared q)) ≡ map bare (items (sh q))
  poll_session-keeps sh s p q h =
      let (p', ran, all, left, others) = poll-fits sh s (poll-some sh s p h) in
      let same : p' ≡ p = some-injective p' p (sym ran ∙ h) in
      subst (λ p. out_of q p.delivered ++ map bare (items (p.shared q)) ≡ map bare (items (sh q)))
        same
        (elim (Bool-cases (is_ring q s.in_q)) [
          | inl here ↦
              let at : q ≡ s.in_q = is_ring-eq q s.in_q here in
              let came : out_of q p'.delivered ≡ map bare (items (sh q)) =
                ap (out_of q) all
                ∙ out_of-same q s (items (sh s.in_q)) here
                ∙ ap (λ r. map bare (items (sh r))) (sym at) in
              let empty : map bare (items (p'.shared q)) ≡ [] =
                ap (λ r. map bare (items (p'.shared r))) at ∙ ap (map bare) left in
              ap₂ (λ x y. x ++ y) came empty ∙ append-nil (map bare (items (sh q)))
          | inr other ↦
              let came : out_of q p'.delivered ≡ [] =
                ap (out_of q) all ∙ out_of-other q s (items (sh s.in_q)) other in
              ap₂ (λ x y. x ++ y) came (ap (λ r. map bare (items r)) (others q other))
        ])

  pub poll_from-cons :
      (n : ℕ) (sh : Shared R) (s : Session) (ss : List Session) (p : Polled R)
      → recv_poll_from R n sh (s ∷ ss) ≡ some p
      → (a : Polled R) × (b : Polled R) × (recv_poll_session R sh s ≡ some a)
        × (recv_poll_from R a.count a.shared ss ≡ some b)
        × (p ≡ record b { delivered = a.delivered ++ b.delivered })
  unfolding recv_poll_from
  poll_from-cons n sh s ss p h = elim (Option-cases (recv_poll_session R sh s)) [
    | inl e ↦ absurd (some-ne-none p (sym (rw (e, recv_poll_from) at h)))
    | inr (a, e) ↦ elim (Option-cases (recv_poll_from R a.count a.shared ss)) [
      | inl e' ↦ absurd (some-ne-none p (sym (rw (e, e', recv_poll_from) at h)))
      | inr (b, e') ↦ (
        a,
        b,
        e,
        e',
        sym (
            some-injective (record b { delivered = a.delivered ++ b.delivered }) p
              (rw (e, e', recv_poll_from) at h)),
      )
    ]
  ]

  pub poll_from-keeps :
      (n : ℕ) (sh : Shared R) (ss : List Session) (p : Polled R) (q : ℕ × ℕ)
      → recv_poll_from R n sh ss ≡ some p
      → out_of q p.delivered ++ map bare (items (p.shared q)) ≡ map bare (items (sh q))
  unfolding recv_poll_from
  poll_from-keeps n sh [] p q h =
      subst (λ p. out_of q p.delivered ++ map bare (items (p.shared q)) ≡ map bare (items (sh q)))
        (some-injective (record { delivered = []; count = n; shared = sh }) p h) refl
  poll_from-keeps n sh (s ∷ ss) p q h =
      let (a, b, first, later, e) = poll_from-cons n sh s ss p h in
      subst (λ p. out_of q p.delivered ++ map bare (items (p.shared q)) ≡ map bare (items (sh q)))
        (sym e)
        (ap (λ l. l ++ map bare (items (b.shared q))) (out_of-append q a.delivered b.delivered)
          ∙ append_assoc (out_of q a.delivered) (out_of q b.delivered)
              (map bare (items (b.shared q)))
          ∙ ap (λ l. out_of q a.delivered ++ l) (poll_from-keeps a.count a.shared ss b q later)
          ∙ poll_session-keeps sh s a q first)

  -- A message that the ring takes is behind the others in it; one that it does not take is lost.
  pub send-keeps :
      (sh : Shared R) (s : Session) (m : Message) (q : ℕ × ℕ)
      → 0 < room (sh s.out_q)
      → map bare (items ((message_send R sh s m).0 q))
        ≡ map bare (items (sh q)) ++ into q ((s, m) ∷ [])
  unfolding message_send
  send-keeps sh s m q space = elim (Bool-cases (is_ring q s.out_q)) [
    | inl here ↦
        let at : q ≡ s.out_q = is_ring-eq q s.out_q here in
        rw here (
          ap (map bare) (enqueue_room (sh s.out_q) (bare m) space)
          ∙ map-append bare (items (sh s.out_q)) (bare m ∷ [])
          ∙ ap (λ r. map bare (items (sh r)) ++ bare m ∷ []) (sym at))
    | inr other ↦ rw other (sym (append-nil (map bare (items (sh q)))))
  ]

  pub send-full :
      (sh : Shared R) (s : Session) (m : Message) (q : ℕ × ℕ)
      → room (sh s.out_q) ≡ 0
      → items ((message_send R sh s m).0 q) ≡ items (sh q)
  unfolding message_send
  send-full sh s m q full = elim (Bool-cases (is_ring q s.out_q)) [
    | inl here ↦ rw here (
        enqueue_full (sh s.out_q) (bare m) full
        ∙ ap (λ r. items (sh r)) (sym (is_ring-eq q s.out_q here)))
    | inr other ↦ rw other refl
  ]
