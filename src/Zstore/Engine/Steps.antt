-- ===== src/Zstore/Engine/Steps.antt =====
-- What an operation and a completion do to the list of write transactions and to the memory.
use mathlib.Core.Option.{some-injective}
use zcell.Base.{
  ℕ, Option, suc, ◌+◌, ◌%◌, ◌^◌, ◌<◌, ◌≡◌, refl, sym, ap, ◌∙◌, Bool, false, List, [], ◌∷◌, ◌++◌,
  none, some, length, length-append, subst, arith, Bool-cases, inl, inr, ◌==◌,
}
use zcell.Pmem.{Pmem, Transaction}
use zcell.Zstore.Engine.{
  Tx, Bio, data_io, pm_tx, tx_write, Engine, find, update, is_first, dec16, to_pm_tx, count_bio,
  last_bio, update_tx, tx_metadata, tx_execute, bio_cb, data_bio, tx_enqueue, op_call, block_filled,
}
use zcell.Zstore.Engine.Drain.{in_pm_tx, jobs, IsWrite}
use zcell.Zstore.Engine.Queues.{
  IsBlocked, jobs-append, All-append, All-update, length-update, jobs-update, update-append,
  update-IsBlocked, All-find,
}
use zcell.Zstore.Engine.Invariant.{
  IsPending, Inv, Kept, Prepared, blocked-Kept, metadata-Kept, twice, is_first-update,
  count-IsBlocked,
}

updated-Prepared :
    (f : Tx → Tx) (e : Engine) (tx : Tx)
    → Inv e
    → find tx.tid e.tx_list ≡ some tx
    → IsWrite (f tx)
    → IsPending (f tx)
    → Prepared (record e { tx_list = update tx.tid f e.tx_list })
updated-Prepared f e tx h found w p = record {
  writes = All-update f tx.tid IsWrite e.tx_list h.writes (the_one IsWrite w);
  pending = All-update f tx.tid IsPending e.tx_list h.pending (the_one IsPending p);
  count = h.count ∙ sym (length-update f tx.tid e.tx_list);
  small = rw (length-update f tx.tid e.tx_list) h.small;
}
  where
    the_one : (P : Tx → Type 0) → P (f tx) → (x : Tx) → find tx.tid e.tx_list ≡ some x → P (f x)
    the_one P q x same = subst (λ y. P (f y)) (some-injective tx x (sym found ∙ same)) q

pub same_jobs :
    {p : Pmem} {r : Engine} {ts us : List Transaction} → ts ≡ us → Kept p ts r → Kept p us r
same_jobs {p} {r} e k = subst (λ ts. Kept p ts r) e k

-- Only the memory and the list of write transactions count.
pub unchanged-Kept :
    {p : Pmem} {ts : List Transaction} {e : Engine} (r : Engine)
    → r.pmem ≡ e.pmem
    → r.tx_list ≡ e.tx_list
    → r.tx_outstanding ≡ e.tx_outstanding
    → Kept p ts e
    → Kept p ts r
unchanged-Kept r memory list count k = record {
  inv = record {
    writes = rw list k.inv.writes;
    pending = rw list k.inv.pending;
    blocked = rw list k.inv.blocked;
    count = rw (list, count) k.inv.count;
    small = rw list k.inv.small;
  };
  done = k.done;
  order = rw list k.order;
  memory = memory ∙ k.memory;
}

-- What a completion leaves to do: a request, or the turn of the transaction.
counted :
    (tx : Tx)
    → IsPending tx
    → 0 < tx.bio_outstanding
    → (dec16 tx.bio_outstanding == 0) ≡ false
    → IsPending (count_bio tx)
counted tx (inl (s, pos, small)) left y = inl (s, ground (arith, y), omega (arith, pos, small))
counted tx (inr (s, none_left)) left y = absurd (omega (arith, left, none_left))

-- A completion: the transaction is one of the list.
pub bio_cb-Kept :
    (accepts : Bio → Bool) (e : Engine) (tx : Tx)
    → Inv e
    → find tx.tid e.tx_list ≡ some tx
    → 0 < tx.bio_outstanding
    → Kept e.pmem (jobs e.tx_list) (bio_cb accepts e tx)
unfolding bio_cb update_tx tx_execute
bio_cb-Kept accepts e tx h found left = elim (Bool-cases (dec16 tx.bio_outstanding == 0)) [
  | inl y ↦
      rw (y, w)
        (same_jobs (jobs-update last_bio tx.tid (λ x. refl) e.tx_list) (
          metadata-Kept (record e { tx_list = update tx.tid last_bio e.tx_list })
            (record tx { tx_type = tx_write; state = pm_tx; bio_outstanding = 0; bios = [] }) refl
            (updated-Prepared last_bio e tx h found w (inr (refl, refl))) (twice tx.tid e.tx_list)
            (λ not_first.
              update-IsBlocked last_bio tx.tid e.tx_list h.blocked
                (sym (is_first-update tx.tid e.tx_list) ∙ not_first))))
  | inr y ↦
      rw (y, w)
        (same_jobs (jobs-update count_bio tx.tid (λ x. refl) e.tx_list) (
          blocked-Kept (record e { tx_list = update tx.tid count_bio e.tx_list })
            (updated-Prepared count_bio e tx h found w
              (counted tx (All-find IsPending tx.tid tx e.tx_list h.pending found) left y))
            (count-IsBlocked tx.tid e.tx_list h.blocked)))
]
  where
    w : IsWrite tx
    w = All-find IsWrite tx.tid tx e.tx_list h.writes found

abbrev enqueued : Engine → Tx → Engine
enqueued e tx = record e {
  tx_list = e.tx_list ++ tx ∷ [];
  tx_outstanding = (e.tx_outstanding + 1) % 2 ^ 32;
}

enqueue_lem : (e : Engine) (tx : Tx) → IsWrite tx → tx_enqueue e tx ≡ enqueued e tx
unfolding tx_enqueue
enqueue_lem e tx w = rw w refl

execute-pm_tx :
    (accepts : Bio → Bool) (e : Engine) (tx : Tx)
    → tx.state ≡ pm_tx
    → tx_execute accepts e tx ≡ tx_metadata e tx
unfolding tx_execute
execute-pm_tx accepts e tx s = rw s refl

execute-data_io :
    (accepts : Bio → Bool) (e : Engine) (tx : Tx)
    → tx.state ≡ data_io
    → tx_execute accepts e tx
      ≡ record e { submitted = e.submitted ++ (data_bio accepts tx.tid tx.data_buffer tx.bios).0 }
unfolding tx_execute
execute-data_io accepts e tx s = rw s refl

enqueued-Prepared :
    (e : Engine) (tx : Tx)
    → Inv e
    → IsWrite tx
    → IsPending tx
    → suc (length e.tx_list) < 2 ^ 32
    → Prepared (enqueued e tx)
enqueued-Prepared e tx h w p room = record {
  writes = All-append IsWrite e.tx_list (tx ∷ []) h.writes (w, tt);
  pending = All-append IsPending e.tx_list (tx ∷ []) h.pending (p, tt);
  count = rw (length-append e.tx_list (tx ∷ [])) (omega (arith, h.count, room));
  small = rw (length-append e.tx_list (tx ∷ [])) (omega (arith, room));
}

append-IsBlocked :
    (xs : List Tx) (tx : Tx) → IsBlocked xs → in_pm_tx tx ≡ false → IsBlocked (xs ++ tx ∷ [])
append-IsBlocked [] tx h k = k
append-IsBlocked (x ∷ xs) tx h k = h

not_first-IsBlocked :
    (xs : List Tx) (tx : Tx)
    → IsBlocked xs
    → is_first tx.tid (xs ++ tx ∷ []) ≡ false
    → IsBlocked (xs ++ tx ∷ [])
not_first-IsBlocked [] tx h k = absurd (ground (arith, k))
not_first-IsBlocked (x ∷ xs) tx h k = h

enqueue-Kept :
    (accepts : Bio → Bool) (e : Engine) (tx : Tx)
    → Inv e
    → IsWrite tx
    → IsPending tx
    → find tx.tid e.tx_list ≡ none
    → suc (length e.tx_list) < 2 ^ 32
    → Kept e.pmem (jobs e.tx_list ++ tx.pm_tx_ ∷ []) (tx_execute accepts (tx_enqueue e tx) tx)
enqueue-Kept accepts e tx h w p new room =
    let block_filled = enqueued-Prepared e tx h w p room in
    same_jobs (jobs-append e.tx_list (tx ∷ [])) (elim p [
      | inl (s, left, few) ↦
          rw (enqueue_lem e tx w, execute-data_io accepts (enqueued e tx) tx s)
            (let k : Kept e.pmem (jobs (e.tx_list ++ tx ∷ [])) (enqueued e tx) =
                blocked-Kept (enqueued e tx) block_filled
                  (append-IsBlocked e.tx_list tx h.blocked (rw s refl)) in
              unchanged-Kept _ refl refl refl k)
      | inr (s, nothing) ↦
          rw (enqueue_lem e tx w, execute-pm_tx accepts (enqueued e tx) tx s)
            (metadata-Kept (enqueued e tx) tx w block_filled
              (update-append to_pm_tx tx.tid e.tx_list tx new refl
                ∙ ap (λ t. e.tx_list ++ record tx { state = t } ∷ []) (sym s))
              (not_first-IsBlocked e.tx_list tx h.blocked))
    ])

-- An operation: its transaction is new, and block_filled.
pub op_call-Kept :
    (accepts : Bio → Bool) (e : Engine) (block : Option ℕ) (tx : Tx)
    → Inv e
    → IsWrite tx
    → IsPending tx
    → find tx.tid e.tx_list ≡ none
    → suc (length e.tx_list) < 2 ^ 32
    → Kept
        (block_filled e block).pmem
        (jobs e.tx_list ++ tx.pm_tx_ ∷ [])
        (op_call accepts e block tx)
unfolding op_call block_filled
op_call-Kept accepts e none tx h w p new room = enqueue-Kept accepts e tx h w p new room
op_call-Kept accepts e (some o) tx h w p new room =
    enqueue-Kept accepts (block_filled e (some o)) tx
      (record {
        writes = h.writes;
        pending = h.pending;
        blocked = h.blocked;
        count = h.count;
        small = h.small;
      })
      w p new room
