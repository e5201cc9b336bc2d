-- ===== src/BlockDevice/Reap.antt =====
-- The array of completed operations under submissions and responses.
use mathlib.Core.Option.{some-injective}
use zcell.Base.{
  ℕ, zero, suc, ◌+◌, ◌<◌, ◌≡◌, ◌≢◌, inl, inr, refl, sym, ap, ap₂, ◌∙◌, Bool, true, false, List, [],
  ◌∷◌, ◌++◌, ◌||◌, some, take, length, length-set, get_elem?, set, ◌==◌, ==_iff, arith, subst, All,
  All-append, Bool-cases, get_elem?-lt, get_elem?-set, get_elem?-set_self,
}
use zcell.Message.{Message}
use zcell.Client.{OpCtx, OpState, op_in_progress, op_completed, is_new, IoChannel, on_recv_msg}
use zcell.Client.Steps.{Answers, on_recv_msg-Inv}
use zcell.Client.Good.{Good}
use zcell.BlockDevice.Issue.{Issued}
use zcell.BlockDevice.Complete.{listed, Distinct, Completed, Reaped, All-Completed-put}

listed-All : (P : ℕ → Type 0) (j : ℕ) (xs : List ℕ) → listed j xs ≡ true → All P xs → P j
listed-All P j [] h all = absurd (let bad : false ≡ true = h in cc)
listed-All P j (x ∷ xs) h all = elim (Bool-cases (j == x)) [
  | inl e ↦ subst P (sym ((==_iff j x).0 e)) all.0
  | inr e ↦ listed-All P j xs (ground arith) all.1
]

listed-append : (j : ℕ) (xs : List ℕ) (x : ℕ) → listed j (xs ++ x ∷ []) ≡ (listed j xs || (j == x))
listed-append j [] x = ground arith
listed-append j (y ∷ xs) x = ground (arith, listed-append j xs x)

Distinct-append :
    (xs : List ℕ) (x : ℕ) → listed x xs ≡ false → Distinct xs → Distinct (xs ++ x ∷ [])
Distinct-append [] x out d = (refl, tt)
Distinct-append (y ∷ xs) x out d =
    (ground (arith, listed-append y xs x), Distinct-append xs x (ground arith) d.1)

take-set : (xs : List ℕ) (n v : ℕ) → n < length xs → take (n + 1) (set xs n v) ≡ take n xs ++ v ∷ []
take-set [] n v h = absurd (omega (arith, h))
take-set (x ∷ xs) zero v h = refl
take-set (x ∷ xs) (suc n) v h = ground (arith, take-set xs n v)

-- An operation that is not completed is not in the list of those that are.
not_listed :
    (ops : List OpCtx) (ids : List ℕ) (id : ℕ) (op : OpCtx)
    → get_elem? ops id ≡ some op
    → op.state ≢ op_completed
    → All (Completed ops) ids
    → listed id ids ≡ false
not_listed ops ids id op at ne all = elim (Bool-cases (listed id ids)) [
  | inl e ↦
      let (was, there, done) = listed-All (Completed ops) id ids e all in
      absurd (ne (ap (λ o. o.state) (some-injective op was (sym at ∙ there)) ∙ done))
  | inr e ↦ e
]

new_not_completed : (s : OpState) → is_new s ≡ true → s ≢ op_completed
new_not_completed s n e = (let bad : false ≡ true = ap is_new (sym e) ∙ n in cc)

progress_not_completed : op_in_progress ≢ op_completed
progress_not_completed e =
    (let bad : true ≡ false =
        ap (λ s. elim s as (λ x. Bool) [ op_in_progress ↦ true | _ ↦ false ]) e in
      cc)

pub Issued-Reaped :
    (ch next : IoChannel) (bio id : ℕ) (was op : OpCtx)
    → Issued ch next bio id was op
    → Reaped ch
    → Reaped next
Issued-Reaped ch next bio id was op i r =
    let ids = take ch.cpl_nr ch.cpl_ops in
    let same : take next.cpl_nr next.cpl_ops ≡ ids =
      ap₂ (λ (n : ℕ) l. take n l) i.same.cpl_nr i.same.cpl_ops in
    let out = not_listed ch.op_ctxs ids id was i.at (new_not_completed was.state i.free) r.done in
    record {
      fits = omega (arith, i.same.cpl_nr, i.same.reap_depth, r.fits);
      size = ap length i.same.cpl_ops ∙ r.size ∙ sym i.same.reap_depth;
      bounded = omega (arith, i.same.reap_depth, r.bounded);
      distinct = subst Distinct (sym same) r.distinct;
      done = subst (All (Completed next.op_ctxs)) (sym same) (
          subst (λ l. All (Completed l) ids) (sym i.ops)
            (All-Completed-put ch.op_ctxs id op ids out r.done));
      all = λ j c.
          let c' : Completed (set ch.op_ctxs id op) j = subst (λ l. Completed l j) i.ops c in
          ap (listed j) same ∙ (elim (get_elem?-set ch.op_ctxs id j op c'.0 c'.1) [
            | inl (here, is) ↦
                absurd (progress_not_completed (sym i.state ∙ ap (λ o. o.state) (sym is) ∙ c'.2))
            | inr (other, at) ↦ r.all j (c'.0, at, c'.2)
          ]);
    }

pub answer-Reaped :
    (ch next : IoChannel) (msg : Message) (op : OpCtx)
    → Good ch
    → Answers ch msg op
    → on_recv_msg ch msg ≡ some next
    → Reaped ch
    → Good next
      × Reaped next
      × (next.op_ctxs
          ≡ set ch.op_ctxs msg.header.rsv0 (record op { message = msg; state = op_completed }))
unfolding Good
answer-Reaped ch next msg op g a h r =
    let (n, ran, type, ops, nr, list, depth, inv) = on_recv_msg-Inv ch msg op g.1 a in
    let is : n ≡ next = some-injective n next (sym ran ∙ h) in
    subst
      (λ c.
        Good c
        × Reaped c
        × (c.op_ctxs
            ≡ set ch.op_ctxs msg.header.rsv0 (record op { message = msg; state = op_completed })))
      is ((rw type g.0, inv), reaped n ops nr list depth, ops)
  where
    reaped :
        (n : IoChannel)
        → n.op_ctxs
          ≡ set ch.op_ctxs msg.header.rsv0 (record op { message = msg; state = op_completed })
        → n.cpl_nr ≡ ch.cpl_nr + 1
        → n.cpl_ops ≡ set ch.cpl_ops ch.cpl_nr msg.header.rsv0
        → n.reap_depth ≡ ch.reap_depth
        → Reaped n
    reaped n ops nr list depth =
        let id = msg.header.rsv0 in
        let done : OpCtx = record op { message = msg; state = op_completed } in
        let ids = take ch.cpl_nr ch.cpl_ops in
        let more : take n.cpl_nr n.cpl_ops ≡ ids ++ id ∷ [] =
          ap₂ (λ (k : ℕ) l. take k l) nr list
          ∙ take-set ch.cpl_ops ch.cpl_nr id (omega (arith, r.size, a.room)) in
        let out =
          not_listed ch.op_ctxs ids id op a.at (λ e. progress_not_completed (sym a.pending ∙ e))
            r.done in
        let now : Completed (set ch.op_ctxs id done) id = (
          done,
          get_elem?-set_self ch.op_ctxs id done (get_elem?-lt ch.op_ctxs id op a.at),
          refl,
        ) in
        record {
          fits = omega (arith, nr, depth, a.room);
          size = ap length list ∙ length-set ch.cpl_ops ch.cpl_nr id ∙ r.size ∙ sym depth;
          bounded = omega (arith, depth, r.bounded);
          distinct = subst Distinct (sym more) (Distinct-append ids id out r.distinct);
          done = subst (All (Completed n.op_ctxs)) (sym more) (
              subst (λ l. All (Completed l) (ids ++ id ∷ [])) (sym ops)
                (All-append (Completed (set ch.op_ctxs id done)) ids (id ∷ [])
                  (All-Completed-put ch.op_ctxs id done ids out r.done) (now, tt)));
          all = λ j c.
              let c' : Completed (set ch.op_ctxs id done) j = subst (λ l. Completed l j) ops c in
              ap (listed j) more
              ∙ listed-append j ids id
              ∙ (elim (get_elem?-set ch.op_ctxs id j done c'.0 c'.1) [
                | inl (here, is) ↦ ground (arith, here)
                | inr (other, at) ↦ ground (arith, r.all j (c'.0, at, c'.2))
              ]);
        }
