-- ===== src/BlockDevice/Complete.antt =====
-- A poll completes the requests whose operations have completed.
use zcell.Base.{
  ℕ, ◌+◌, ◌≤◌, ◌≡◌, ◌≢◌, inl, inr, refl, sym, ap, ap₂, ◌∙◌, Bool, true, false, List, [], ◌∷◌, ◌||◌,
  Option, none, some, map, take, length, get_elem?, set, if◌then◌else◌, ◌==◌, arith, subst, All,
  get_elem?-lt, get_elem?-set, get_elem?-set_self, get_elem?-set_ne,
}
use zcell.Client.{OpCtx, op_new, op_completed, op_end, is_new, IoChannel, put_op, message_of}
use zcell.Client.Steps.{SameCompletions, op_claim_result-Inv, op_destroy-Inv}
use zcell.Client.Good.{Good}
use zcell.Client.One.{op_get_userdata_at, message_of_at, io_poll_channel_all}
use zcell.BlockDevice.{
  bdev_failed, bdev_success, Completion, complete_op, complete_ops, poll_channel,
  max_events_per_poll,
}
use zcell.BlockDevice.Held.{times, busy, held, held-set, set-set}

abbrev pub listed : ℕ → List ℕ → Bool
listed j [] = false
listed j (x ∷ xs) = (j == x) || listed j xs

abbrev pub Distinct : List ℕ → Type 0
Distinct [] = Unit {0}
Distinct (x ∷ xs) = (listed x xs ≡ false) × Distinct xs

-- The operation has its response.
abbrev pub Completed : List OpCtx → ℕ → Type 0
Completed ops id = (op : OpCtx) × (get_elem? ops id ≡ some op) × (op.state ≡ op_completed)

-- The request of an operation and the status of its response.
abbrev pub answer : Option OpCtx → Completion
answer none = (0, bdev_failed)
answer (some op) =
    (op.user_data, if op.message.header.status == 0 then bdev_success else bdev_failed)

abbrev pub answer_of : List OpCtx → ℕ → Completion
answer_of ops id = answer (get_elem? ops id)

-- A change of another operation leaves an operation completed.
Completed-put :
    (ops : List OpCtx) (id j : ℕ) (op : OpCtx)
    → id ≢ j
    → Completed ops j
    → Completed (set ops id op) j
Completed-put ops id j op ne c = (c.0, get_elem?-set_ne ops id j op ne ∙ c.1, c.2)

pub All-Completed-put :
    (ops : List OpCtx) (id : ℕ) (op : OpCtx) (ids : List ℕ)
    → listed id ids ≡ false
    → All (Completed ops) ids
    → All (Completed (set ops id op)) ids
All-Completed-put ops id op [] out c = tt
All-Completed-put ops id op (j ∷ ids) out c = (
  Completed-put ops id j op (ground arith) c.0,
  All-Completed-put ops id op ids (ground arith) c.1,
)

answers-put :
    (ops : List OpCtx) (id : ℕ) (op : OpCtx) (ids : List ℕ)
    → listed id ids ≡ false
    → map (answer_of (set ops id op)) ids ≡ map (answer_of ops) ids
answers-put ops id op [] out = refl
answers-put ops id op (j ∷ ids) out =
    ap₂ (λ (x : Completion) xs. x ∷ xs) (ap answer (get_elem?-set_ne ops id j op (ground arith)))
      (answers-put ops id op ids (ground arith))

-- One operation that has completed: its request is completed with the status of the response, and the
-- operation is free.
pub complete_op-free :
    (ch : IoChannel) (id : ℕ) (op : OpCtx)
    → Good ch
    → get_elem? ch.op_ctxs id ≡ some op
    → op.state ≡ op_completed
    → (next : IoChannel) × (complete_op ch id ≡ some (answer (some op), next))
      × (next.op_ctxs ≡ set ch.op_ctxs id (record op { state = op_new }))
      × SameCompletions ch next
      × Good next
unfolding complete_op Good
complete_op-free ch id op g at done =
    let ended : OpCtx = record op { state = op_end } in
    let (claimed, kept) = op_claim_result-Inv ch id op g.1 at done in
    let at' : get_elem? (put_op ch id ended).op_ctxs id ≡ some ended =
      get_elem?-set_self ch.op_ctxs id ended (get_elem?-lt ch.op_ctxs id op at) in
    let (next, destroyed, type, free, ops, same, inv) =
      op_destroy-Inv (put_op ch id ended) id ended kept at' refl in
    (
      next,
      rw
          (
            op_get_userdata_at ch id op at,
            ap (λ p. p.0) claimed,
            ap (λ p. p.1) claimed,
            destroyed,
            complete_op,
          )
          refl,
      ops ∙ set-set ch.op_ctxs id ended (record op { state = op_new }),
      record {
        queue_depth = same.queue_depth;
        reap_depth = same.reap_depth;
        cpl_nr = same.cpl_nr;
        cpl_ops = same.cpl_ops;
      },
      (rw type g.0, inv),
    )

is_completed_or_new : op_new ≢ op_completed
is_completed_or_new e = (let bad : true ≡ false = ap is_new e in cc)

-- What is completed after an operation is made new was so before, and is another.
still-Completed :
    (ops : List OpCtx) (id j : ℕ) (op : OpCtx)
    → op.state ≡ op_new
    → Completed (set ops id op) j
    → Completed ops j × ((j == id) ≡ false)
still-Completed ops id j op new c = elim (get_elem?-set ops id j op c.0 c.1) [
  | inl (same, is) ↦ absurd (is_completed_or_new (sym new ∙ ap (λ o. o.state) (sym is) ∙ c.2))
  | inr (ne, at) ↦ ((c.0, at, c.2), other ne)
]
  where
    other : id ≢ j → (j == id) ≡ false
    other ne = ground arith

-- What the loop of a poll does with operations that have completed.
pub record Freed (ch next : IoChannel) (ids : List ℕ) (cs : List Completion) : Type 0 where
  pub answers : cs ≡ map (answer_of ch.op_ctxs) ids
  pub held_less : (a : ℕ) → times a (map (λ c. c.0) cs) + held a next.op_ctxs ≡ held a ch.op_ctxs
  pub left : (j : ℕ) → Completed next.op_ctxs j → Completed ch.op_ctxs j × (listed j ids ≡ false)
  pub same : SameCompletions ch next
  pub good : Good next

pub complete_ops-Freed :
    (ch : IoChannel) (ids : List ℕ)
    → Good ch
    → Distinct ids
    → All (Completed ch.op_ctxs) ids
    → (cs : List Completion) × (next : IoChannel) × (complete_ops ch ids ≡ some (cs, next))
      × Freed ch next ids cs
unfolding complete_ops
complete_ops-Freed ch [] g d all = (
  [],
  ch,
  refl,
  record {
    answers = refl;
    held_less = λ a. omega arith;
    left = λ j c. (c, refl);
    same = record { queue_depth = refl; reap_depth = refl; cpl_nr = refl; cpl_ops = refl };
    good = g;
  },
)
complete_ops-Freed ch (id ∷ ids) g d all =
    let (op, at, done) = all.0 in
    let free : OpCtx = record op { state = op_new } in
    let (mid, first, ops, same, good) = complete_op-free ch id op g at done in
    let (cs, next, later, f) = complete_ops-Freed mid ids good d.1 (
      subst (λ l. All (Completed l) ids) (sym ops)
        (All-Completed-put ch.op_ctxs id free ids d.0 all.1)) in
    (
      answer (some op) ∷ cs,
      next,
      rw (first, later, complete_ops) refl,
      record {
        answers =
            ap₂ (λ (x : Completion) xs. x ∷ xs) (ap answer (sym at))
              (f.answers
                ∙ ap (λ l. map (answer_of l) ids) ops
                ∙ answers-put ch.op_ctxs id free ids d.0);
        held_less = λ a.
            let used : busy a op ≡ (if op.user_data == a then 1 else 0) = rw done refl in
            omega
              (arith, f.held_less a, ap (held a) ops, held-set a ch.op_ctxs id op free at, used);
        left = λ j c.
            let (before, other) = f.left j c in
            let (was, ne) =
              still-Completed ch.op_ctxs id j free refl (subst (λ l. Completed l j) ops before) in
            (was, ground (arith, other, ne));
        same = record {
          queue_depth = f.same.queue_depth ∙ same.queue_depth;
          reap_depth = f.same.reap_depth ∙ same.reap_depth;
          cpl_nr = f.same.cpl_nr ∙ same.cpl_nr;
          cpl_ops = f.same.cpl_ops ∙ same.cpl_ops;
        };
        good = f.good;
      },
    )

-- The array of completed operations: it has room, its first elements are different operations that
-- have completed, and these are all.
pub record Reaped (ch : IoChannel) : Type 0 where
  pub fits : ch.cpl_nr ≤ ch.reap_depth
  pub size : length ch.cpl_ops ≡ ch.reap_depth
  pub bounded : ch.reap_depth ≤ max_events_per_poll
  pub distinct : Distinct (take ch.cpl_nr ch.cpl_ops)
  pub done : All (Completed ch.op_ctxs) (take ch.cpl_nr ch.cpl_ops)
  pub all : (j : ℕ) → Completed ch.op_ctxs j → listed j (take ch.cpl_nr ch.cpl_ops) ≡ true

own_ids :
    (ch : IoChannel) (ids : List ℕ)
    → Good ch
    → All (Completed ch.op_ctxs) ids
    → map (λ at. (message_of ch at).header.rsv0) ids ≡ ids
unfolding Good
own_ids ch [] g all = refl
own_ids ch (id ∷ ids) g all =
    let (op, at, done) = all.0 in
    ap₂ (λ (x : ℕ) xs. x ∷ xs)
      (ap (λ m. m.header.rsv0) (message_of_at ch id op at) ∙ g.1.own_id id op at (rw done refl))
      (own_ids ch ids g all.1)

-- A poll of the channel.
pub poll_channel-Freed :
    (ch : IoChannel)
    → Good ch
    → Reaped ch
    → (cs : List Completion) × (next : IoChannel) × (poll_channel ch ≡ some (cs, next))
      × Freed (record ch { cpl_nr = 0 }) next (take ch.cpl_nr ch.cpl_ops) cs
      × Reaped next
unfolding poll_channel Good
poll_channel-Freed ch g r =
    let ids = take ch.cpl_nr ch.cpl_ops in
    let taken : IoChannel = record ch { cpl_nr = 0 } in
    let polled = io_poll_channel_all ch max_events_per_poll r.fits r.bounded in
    let (cs, next, ran, f) = complete_ops-Freed taken ids g r.distinct r.done in
    let none_left : next.cpl_nr ≡ 0 = f.same.cpl_nr in
    let empty : take next.cpl_nr next.cpl_ops ≡ [] = ap (λ n. take n next.cpl_ops) none_left in
    (
      cs,
      next,
      rw (ap (λ p. p.0) polled, ap (λ p. p.1) polled, poll_channel)
          (ap (complete_ops taken) (own_ids ch ids g r.done) ∙ ran),
      f,
      record {
        fits = omega (arith, none_left);
        size = ap length f.same.cpl_ops ∙ r.size ∙ sym f.same.reap_depth;
        bounded = omega (arith, f.same.reap_depth, r.bounded);
        distinct = subst Distinct (sym empty) tt;
        done = subst (All (Completed next.op_ctxs)) (sym empty) tt;
        all = λ j c.
            let (before, out) = f.left j c in
            let bad : true ≡ false = sym (r.all j before) ∙ out in cc;
      },
    )
