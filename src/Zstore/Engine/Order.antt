-- ===== src/Zstore/Engine/Order.antt =====
-- Runs of the engine: operations called and requests completed in any interleaving. The order in
-- which write transactions reach the memory.
use mathlib.Core.List.{append_assoc, append-nil}
use zcell.Base.{
  ℕ, Option, subst, suc, ◌^◌, ◌<◌, ◌≡◌, refl, sym, ap, ◌∙◌, Bool, List, [], ◌∷◌, ◌++◌, none, some,
  length, All, arith, Bool-cases, inl, inr, ◌==◌,
}
use zcell.Pmem.{Pmem, Transaction}
use zcell.Zstore.Engine.{
  Tx, Bio, tx_rdonly, Engine, find, dec16, notify, tx_end, last_bio, count_bio, update_tx,
  tx_metadata, tx_execute, bio_cb, tx_enqueue, op_call, block_filled,
}
use zcell.Zstore.Engine.Drain.{jobs, IsWrite}
use zcell.Zstore.Engine.Effects.{
  Effect, run_effects, logs_of, fills_of, block_of, call_effects, logs_of-append, fills_of-append,
  run_effects-append, logs_of-call_effects, fills_of-call_effects, run_effects-call_effects,
}
use zcell.Zstore.Engine.Queues.{IsBlocked}
use zcell.Zstore.Engine.Invariant.{IsPending, Inv, Kept}
use zcell.Zstore.Engine.Steps.{same_jobs, bio_cb-Kept, op_call-Kept}

abbrev pub IsRead : Tx → Type 0
IsRead tx = tx.tx_type ≡ tx_rdonly

-- The engine after `zstore_mount`, on this memory.
abbrev pub start : Pmem → Engine
start p = record {
  pmem = p;
  tx_list = [];
  tx_outstanding = 0;
  tx_rdonly_list = [];
  tx_rdonly_outstanding = 0;
  memory_writes = [];
  submitted = [];
  called = [];
  posted = [];
}

-- The engines that steps lead to, with the logs of the write transactions called, and the blocks filled
-- for creations, in order. A write transaction is not in the list yet when it is called, and there
-- are less than 2 ^ 32 of them; a request completes if its transaction is in its list and has one
-- left.
pub data Run (p : Pmem) : List Transaction → List ℕ → Engine → Type 0 where
  begin : Run p [] [] (start p)
  writes :
      {ts : List Transaction} {fs : List ℕ} {e : Engine} (accepts : Bio → Bool) (block : Option ℕ)
      (tx : Tx)
      → Run p ts fs e
      → IsWrite tx
      → IsPending tx
      → find tx.tid e.tx_list ≡ none
      → suc (length e.tx_list) < 2 ^ 32
      → Run p (ts ++ tx.pm_tx_ ∷ []) (fs ++ block_of block) (op_call accepts e block tx)
  reads :
      {ts : List Transaction} {fs : List ℕ} {e : Engine} (accepts : Bio → Bool) (tx : Tx)
      → Run p ts fs e
      → IsRead tx
      → IsPending tx
      → Run p ts fs (op_call accepts e none tx)
  write_done :
      {ts : List Transaction} {fs : List ℕ} {e : Engine} (accepts : Bio → Bool) (tx : Tx)
      → Run p ts fs e
      → find tx.tid e.tx_list ≡ some tx
      → 0 < tx.bio_outstanding
      → Run p ts fs (bio_cb accepts e tx)
  read_done :
      {ts : List Transaction} {fs : List ℕ} {e : Engine} (accepts : Bio → Bool) (tx : Tx)
      → Run p ts fs e
      → find tx.tid e.tx_rdonly_list ≡ some tx
      → IsRead tx
      → 0 < tx.bio_outstanding
      → Run p ts fs (bio_cb accepts e tx)

-- A step of a read-only transaction leaves alone what the order is about.
record Untouched (e r : Engine) : Type 0 where
  memory : r.pmem ≡ e.pmem
  list : r.tx_list ≡ e.tx_list
  count : r.tx_outstanding ≡ e.tx_outstanding

then_Untouched : {e r q : Engine} → Untouched e r → Untouched r q → Untouched e q
then_Untouched a b = record {
  memory = b.memory ∙ a.memory;
  list = b.list ∙ a.list;
  count = b.count ∙ a.count;
}

execute-Untouched :
    (accepts : Bio → Bool) (e : Engine) (tx : Tx)
    → IsRead tx
    → Untouched e (tx_execute accepts e tx)
unfolding tx_execute tx_metadata tx_end notify
execute-Untouched accepts e tx read = record {
  memory = ground (arith, read);
  list = ground (arith, read);
  count = ground (arith, read);
}

call-Untouched :
    (accepts : Bio → Bool) (e : Engine) (tx : Tx)
    → IsRead tx
    → Untouched e (op_call accepts e none tx)
unfolding op_call tx_enqueue block_filled
call-Untouched accepts e tx read =
    let enqueued : Untouched e (tx_enqueue e tx) =
      rw read (record { memory = refl; list = refl; count = refl }) in
    then_Untouched enqueued (execute-Untouched accepts (tx_enqueue e tx) tx read)

update-Untouched :
    (e : Engine) (tx : Tx) (f : Tx → Tx) → IsRead tx → Untouched e (update_tx e tx.tx_type tx.tid f)
unfolding update_tx
update-Untouched e tx f read = rw read (record { memory = refl; list = refl; count = refl })

done-Untouched :
    (accepts : Bio → Bool) (e : Engine) (tx : Tx) → IsRead tx → Untouched e (bio_cb accepts e tx)
unfolding bio_cb
done-Untouched accepts e tx read = elim (Bool-cases (dec16 tx.bio_outstanding == 0)) [
  | inl y ↦ rw y (
      then_Untouched (update-Untouched e tx last_bio read)
        (execute-Untouched accepts _ (last_bio tx) read))
  | inr y ↦ rw y (update-Untouched e tx count_bio read)
]

-- The invariant of the engine, and what was done to the memory: the logs applied are the first of those
-- called, in their order, and the others are those of the list.
pub record Ordered (p : Pmem) (ts : List Transaction) (fs : List ℕ) (e : Engine) : Type 0 where
  pub inv : Inv e
  pub done : List Effect
  pub order : ts ≡ logs_of done ++ jobs e.tx_list
  pub filled_all : fs ≡ fills_of done
  pub memory : e.pmem ≡ run_effects p done

-- After a step that fills a block or none, and applies logs.
next-Ordered :
    {p : Pmem} {ts : List Transaction} {fs : List ℕ} {e r : Engine} (block : Option ℕ)
    (us : List Transaction)
    → Ordered p ts fs e
    → Kept (block_filled e block).pmem (jobs e.tx_list ++ us) r
    → Ordered p (ts ++ us) (fs ++ block_of block) r
next-Ordered {p} {ts} {fs} {e} {r} block us k l = record {
  inv = l.inv;
  done = k.done ++ call_effects block l.done;
  order =
      ap (λ x. x ++ us) k.order
      ∙ append_assoc (logs_of k.done) (jobs e.tx_list) us
      ∙ ap (λ x. logs_of k.done ++ x) l.order
      ∙ sym (append_assoc (logs_of k.done) l.done (jobs r.tx_list))
      ∙ ap (λ x. (logs_of k.done ++ x) ++ jobs r.tx_list) (sym (logs_of-call_effects block l.done))
      ∙ ap (λ x. x ++ jobs r.tx_list) (sym (logs_of-append k.done (call_effects block l.done)));
  filled_all =
      ap (λ x. x ++ block_of block) k.filled_all
      ∙ ap (λ x. fills_of k.done ++ x) (sym (fills_of-call_effects block l.done))
      ∙ sym (fills_of-append k.done (call_effects block l.done));
  memory =
      l.memory
      ∙ sym (run_effects-call_effects e block l.done)
      ∙ ap (λ q. run_effects q (call_effects block l.done)) k.memory
      ∙ sym (run_effects-append p k.done (call_effects block l.done));
}

-- After a completion.
same-Ordered :
    {p : Pmem} {ts : List Transaction} {fs : List ℕ} {e r : Engine}
    → Ordered p ts fs e
    → Kept e.pmem (jobs e.tx_list) r
    → Ordered p ts fs r
unfolding block_filled
same-Ordered {p} {ts} {fs} {e} {r} k l =
    subst (λ x. Ordered p x fs r) (append-nil ts)
      (subst (λ x. Ordered p (ts ++ []) x r) (append-nil fs)
        (next-Ordered none [] k (same_jobs (sym (append-nil (jobs e.tx_list))) l)))

-- After a step of a read-only transaction.
Untouched-Ordered :
    {p : Pmem} {ts : List Transaction} {fs : List ℕ} {e r : Engine}
    → Untouched e r
    → Ordered p ts fs e
    → Ordered p ts fs r
Untouched-Ordered {p} {ts} {fs} {e} {r} u k = record {
  inv = record {
    writes = rw u.list k.inv.writes;
    pending = rw u.list k.inv.pending;
    blocked = rw u.list k.inv.blocked;
    count = rw (u.list, u.count) k.inv.count;
    small = rw u.list k.inv.small;
  };
  done = k.done;
  order = rw u.list k.order;
  filled_all = k.filled_all;
  memory = u.memory ∙ k.memory;
}

-- After any run, the memory is what a sequence of effects makes of the memory at the start: the blocks
-- of the creations filled, in the order of the calls, and between them logs applied; these logs are the
-- first of those of the write transactions called, in the order of the calls, and the others are
-- those of the list. And what the engine keeps of its list is right: the transactions wait for
-- requests or for their turn, the first of them for requests, and `tx_outstanding` is their number.
pub Run-in_order :
    (p : Pmem) (ts : List Transaction) (fs : List ℕ) (e : Engine)
    → Run p ts fs e
    → Ordered p ts fs e
unfolding run_effects
Run-in_order p ts fs e begin = record {
  inv = record { writes = tt; pending = tt; blocked = tt; count = refl; small = omega arith };
  done = [];
  order = refl;
  filled_all = refl;
  memory = refl;
}
Run-in_order p ts fs e (writes accepts block tx run w pending new room) =
    let k = Run-in_order p _ _ _ run in
    next-Ordered block (tx.pm_tx_ ∷ []) k (op_call-Kept accepts _ block tx k.inv w pending new room)
Run-in_order p ts fs e (reads accepts tx run read pending) =
    Untouched-Ordered (call-Untouched accepts _ tx read) (Run-in_order p ts fs _ run)
Run-in_order p ts fs e (write_done accepts tx run found left) =
    let k = Run-in_order p ts fs _ run in same-Ordered k (bio_cb-Kept accepts _ tx k.inv found left)
Run-in_order p ts fs e (read_done accepts tx run found read left) =
    Untouched-Ordered (done-Untouched accepts _ tx read) (Run-in_order p ts fs _ run)

none_waits :
    (xs : List Tx)
    → All IsPending xs
    → IsBlocked xs
    → All (λ tx. tx.bio_outstanding ≡ 0) xs
    → xs ≡ []
none_waits [] h b z = refl
none_waits (x ∷ xs) h b z = absurd (elim h.0 [
  | inl (s, left, small) ↦ omega (arith, left, z.0)
  | inr (s, nothing) ↦ ground (arith, b, s)
])

-- After any run at the end of which no write transaction of the list has a request left, the list is
-- empty, `tx_outstanding` is 0, and the memory is what a sequence of effects makes of the memory at the
-- start, in which all the logs are applied in the order in which the operations were called, and all
-- the blocks of the creations are filled in that order.
pub Run-quiet :
    (p : Pmem) (ts : List Transaction) (fs : List ℕ) (e : Engine)
    → Run p ts fs e
    → All (λ tx. tx.bio_outstanding ≡ 0) e.tx_list
    → (e.tx_list ≡ [])
      × (e.tx_outstanding ≡ 0)
      × (es : List Effect) × (e.pmem ≡ run_effects p es)
      × (logs_of es ≡ ts)
      × (fills_of es ≡ fs)
Run-quiet p ts fs e run idle = (
  empty,
  k.inv.count ∙ ap length empty,
  k.done,
  k.memory,
  sym (k.order ∙ ap (λ l. logs_of k.done ++ jobs l) empty ∙ append-nil (logs_of k.done)),
  sym k.filled_all,
)
  where
    k : Ordered p ts fs e
    k = Run-in_order p ts fs e run

    empty : e.tx_list ≡ []
    empty = none_waits e.tx_list k.inv.pending k.inv.blocked idle
