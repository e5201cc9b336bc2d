-- ===== src/Ipc/Sessions.antt =====
-- The sessions that are made: for which cores, and with which rings.
use mathlib.Core.Option.{some-injective, some-ne-none}
use zcell.Base.{
  ℕ, zero, suc, ◌≡◌, refl, sym, ap, ◌∙◌, true, List, [], ◌∷◌, ◌++◌, Option, some, get_elem?, ◌&&◌,
  Bool-cases, Option-cases, inl, inr, subst,
}
use zcell.Ipc.Rings.{SpdkRing}
use zcell.Ipc.{
  Session, Messager, Config, Built, built, make_session, server_sessions, messager_constructor,
  connect2,
}

-- A session between two cores, seen from the first.
pub record Joins (s : Session) (my_lcore tgt : ℕ) : Type 0 where
  pub sends_to : s.out_q ≡ (my_lcore, tgt)
  pub receives_from : s.in_q ≡ (tgt, my_lcore)
  pub target : s.tgt_core ≡ tgt

module _ (R : SpdkRing) where
  open R use {items}

  make_session-Joins :
      (zic : Config R) (my_lcore tgt priv addr : ℕ) (s : Session)
      → make_session R zic my_lcore tgt priv addr ≡ some s
      → Joins s my_lcore tgt
  unfolding make_session
  make_session-Joins zic my_lcore tgt priv addr s h =
      elim (Bool-cases (zic.has_ring (tgt, my_lcore) && zic.has_ring (my_lcore, tgt))) [
        | inl e ↦
            let made : Session = record {
              addr = addr;
              priv = priv;
              tgt_core = tgt;
              nr_to_flush = 0;
              out_q = (my_lcore, tgt);
              in_q = (tgt, my_lcore);
            } in
            subst (λ s. Joins s my_lcore tgt) (some-injective made s (rw (e, make_session) at h))
              (record { sends_to = refl; receives_from = refl; target = refl })
        | inr e ↦ absurd (some-ne-none s (sym (rw (e, make_session) at h)))
      ]

  -- The first session, or one behind it.
  by_place :
      (zic : Config R) (my_lcore t : ℕ) (tgts : List ℕ) (rest : List Session) (addr : ℕ)
      (s : Session) (i c : ℕ)
      → make_session R zic my_lcore t 0 addr ≡ some s
      → get_elem? (t ∷ tgts) i ≡ some c
      → ((k : ℕ)
          → get_elem? tgts k ≡ some c
          → (u : Session) × (get_elem? rest k ≡ some u) × Joins u my_lcore c)
      → (u : Session) × (get_elem? (s ∷ rest) i ≡ some u) × Joins u my_lcore c
  by_place zic my_lcore t tgts rest addr s zero c e at later = (
    s,
    refl,
    subst (Joins s my_lcore) (some-injective t c at) (make_session-Joins zic my_lcore t 0 addr s e),
  )
  by_place zic my_lcore t tgts rest addr s (suc i) c e at later = later i at

  pub server_sessions-has :
      (zic : Config R) (my_lcore : ℕ) (addr : ℕ → ℕ) (tgts : List ℕ) (ss : List Session) (i c : ℕ)
      → server_sessions R zic my_lcore addr tgts ≡ some ss
      → get_elem? tgts i ≡ some c
      → (s : Session) × (get_elem? ss i ≡ some s) × Joins s my_lcore c
  unfolding server_sessions
  server_sessions-has zic my_lcore addr [] ss i c h at = absurd (some-ne-none c (sym at))
  server_sessions-has zic my_lcore addr (t ∷ tgts) ss i c h at =
      elim (Option-cases (make_session R zic my_lcore t 0 (addr t))) [
        | inl e ↦ absurd (some-ne-none ss (sym (rw (e, server_sessions) at h)))
        | inr (s, e) ↦ elim (Option-cases (server_sessions R zic my_lcore addr tgts)) [
          | inl e' ↦ absurd (some-ne-none ss (sym (rw (e, e', server_sessions) at h)))
          | inr (rest, e') ↦
              subst (λ ss. (s : Session) × (get_elem? ss i ≡ some s) × Joins s my_lcore c)
                (some-injective (s ∷ rest) ss (rw (e, e', server_sessions) at h))
                (by_place zic my_lcore t tgts rest (addr t) s i c e at
                  (λ k. server_sessions-has zic my_lcore addr tgts rest k c e'))
        ]
      ]

  -- The converse of `by_place`.
  at_place :
      (zic : Config R) (my_lcore t : ℕ) (tgts : List ℕ) (rest : List Session) (addr : ℕ)
      (u s : Session) (i : ℕ)
      → make_session R zic my_lcore t 0 addr ≡ some u
      → get_elem? (u ∷ rest) i ≡ some s
      → ((k : ℕ)
          → get_elem? rest k ≡ some s
          → (c : ℕ) × (get_elem? tgts k ≡ some c) × Joins s my_lcore c)
      → (c : ℕ) × (get_elem? (t ∷ tgts) i ≡ some c) × Joins s my_lcore c
  at_place zic my_lcore t tgts rest addr u s zero e at later = (
    t,
    refl,
    subst (λ s. Joins s my_lcore t) (some-injective u s at)
        (make_session-Joins zic my_lcore t 0 addr u e),
  )
  at_place zic my_lcore t tgts rest addr u s (suc i) e at later = later i at

  -- The session at a place is the one for the core at that place.
  pub server_sessions-at :
      (zic : Config R) (my_lcore : ℕ) (addr : ℕ → ℕ) (tgts : List ℕ) (ss : List Session) (i : ℕ)
      (s : Session)
      → server_sessions R zic my_lcore addr tgts ≡ some ss
      → get_elem? ss i ≡ some s
      → (c : ℕ) × (get_elem? tgts i ≡ some c) × Joins s my_lcore c
  unfolding server_sessions
  server_sessions-at zic my_lcore addr [] ss i s h at =
      absurd (some-ne-none s (sym at ∙ ap (λ l. get_elem? l i) (sym (some-injective [] ss h))))
  server_sessions-at zic my_lcore addr (t ∷ tgts) ss i s h at =
      elim (Option-cases (make_session R zic my_lcore t 0 (addr t))) [
        | inl e ↦ absurd (some-ne-none ss (sym (rw (e, server_sessions) at h)))
        | inr (u, e) ↦ elim (Option-cases (server_sessions R zic my_lcore addr tgts)) [
          | inl e' ↦ absurd (some-ne-none ss (sym (rw (e, e', server_sessions) at h)))
          | inr (rest, e') ↦
              at_place zic my_lcore t tgts rest (addr t) u s i e
                (ap (λ l. get_elem? l i)
                    (some-injective (u ∷ rest) ss (rw (e, e', server_sessions) at h))
                  ∙ at)
                (λ k. server_sessions-at zic my_lcore addr tgts rest k s e')
        ]
      ]

  -- The sessions of a server that is built.
  pub constructor-sessions :
      (zic : Config R) (my_lcore : ℕ) (addr : ℕ → ℕ) (srv : Messager)
      → messager_constructor R (some zic) my_lcore addr true ≡ some (built srv)
      → server_sessions R zic my_lcore addr zic.tgt_cores ≡ some srv.session_q
  unfolding messager_constructor
  constructor-sessions zic my_lcore addr srv h =
      elim (Option-cases (server_sessions R zic my_lcore addr zic.tgt_cores)) [
        | inl e ↦ absurd (some-ne-none (built srv) (sym (rw (e, messager_constructor) at h)))
        | inr (ss, e) ↦ e ∙ ap some (ap sessions (rw (e, messager_constructor) at h))
      ]
    where
      sessions : Option (Built R) → List Session
      sessions (some (built m)) = m.session_q
      sessions _ = []

  pub connect2-Joins :
      (zcfg : Config R) (cli : Messager) (lcore priv addr : ℕ) (cs : Session) (cli' : Messager)
      → connect2 R zcfg cli lcore priv addr ≡ some (cs, cli')
      → Joins cs cli.my_lcore lcore
  unfolding connect2
  connect2-Joins zcfg cli lcore priv addr cs cli' h =
      elim (Option-cases (make_session R zcfg cli.my_lcore lcore priv addr)) [
        | inl e ↦ absurd (some-ne-none (cs, cli') (sym (rw (e, connect2) at h)))
        | inr (s, e) ↦
            subst (λ s. Joins s cli.my_lcore lcore)
              (ap (λ p. p.0)
                (some-injective (s, record cli { session_q = cli.session_q ++ s ∷ [] }) (cs, cli')
                  (rw (e, connect2) at h)))
              (make_session-Joins zcfg cli.my_lcore lcore priv addr s e)
      ]
