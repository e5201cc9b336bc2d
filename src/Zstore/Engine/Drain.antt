-- ===== src/Zstore/Engine/Drain.antt =====
-- The loop of `zstore_tx_metadata`: which transactions it ends, in which order, and what it leaves.
use mathlib.Core.List.{append_assoc, append-nil}
use zcell.Base.{
  ℕ, zero, suc, ◌^◌, ◌≤◌, ◌<◌, ◌≡◌, refl, sym, ◌∙◌, Bool, true, false, not, List, [], ◌∷◌, ◌++◌,
  length, if◌then◌else◌, map, All, subst, arith, Bool-cases, inl, inr, ==_iff, ◌==◌,
}
use zcell.Status.{success}
use zcell.Pmem
use zcell.Pmem.{Pmem, Transaction}
use zcell.Zstore.Engine.{
  Tx, pm_tx, tx_write, Called, Engine, first, remove, dec32, notify, tx_end, commit, drain,
}

abbrev pub in_pm_tx : Tx → Bool
in_pm_tx tx = elim tx.state [ pm_tx ↦ true | _ ↦ false ]

-- The transactions at the front of the list that are in `PM_TX`, and the list behind them.
abbrev pub ready : List Tx → List Tx
ready [] = []
ready (tx ∷ txs) = if in_pm_tx tx then tx ∷ ready txs else []

abbrev pub waiting : List Tx → List Tx
waiting [] = []
waiting (tx ∷ txs) = if in_pm_tx tx then waiting txs else tx ∷ txs

-- The log transactions of a list, and their effect on the memory, one after the other.
abbrev pub jobs : List Tx → List Transaction
jobs = map (λ tx. tx.pm_tx_)

abbrev pub apply_all : Pmem → List Transaction → Pmem
apply_all p [] = p
apply_all p (t ∷ ts) = apply_all (Pmem.apply p t).0 ts

-- The successful callbacks of the transactions that have, or have not, `TX_SYNC`.
abbrev pub calls : Bool → List Tx → List Called
calls sync [] = []
calls sync (tx ∷ txs) =
    let rest = calls sync txs in
    if (if sync then tx.tx_sync else not tx.tx_sync)
    then record { tid = tx.tid; err = success } ∷ rest
    else rest

-- What the loop has done to an engine.
pub record Settled (e : Engine) (txs : List Tx) (r : Engine) : Type 0 where
  pub list : r.tx_list ≡ waiting txs
  pub memory : r.pmem ≡ apply_all e.pmem (jobs (ready txs))
  pub count : e.tx_outstanding ≡ length txs → r.tx_outstanding ≡ length (waiting txs)
  pub direct : r.called ≡ e.called ++ calls false (ready txs)
  pub late : r.posted ≡ e.posted ++ calls true (ready txs)
  pub reads : r.tx_rdonly_list ≡ e.tx_rdonly_list
  pub reads_count : r.tx_rdonly_outstanding ≡ e.tx_rdonly_outstanding

abbrev pub IsWrite : Tx → Type 0
IsWrite tx = tx.tx_type ≡ tx_write

abbrev committed : Engine → Tx → List Tx → Engine
committed e tx txs = record e {
  pmem = (Pmem.apply e.pmem tx.pm_tx_).0;
  memory_writes = e.memory_writes ++ (Pmem.apply e.pmem tx.pm_tx_).1;
  tx_list = txs;
  tx_outstanding = dec32 e.tx_outstanding;
  called = e.called ++ calls false (tx ∷ []);
  posted = e.posted ++ calls true (tx ∷ []);
}

==_same : (n : ℕ) → (n == n) ≡ true
==_same n = (==_iff n n).1 refl

commit_lem :
    (e : Engine) (tx : Tx) (txs : List Tx)
    → IsWrite tx
    → commit (record e { tx_list = tx ∷ txs }) tx ≡ committed e tx txs
unfolding commit tx_end notify remove
commit_lem e tx txs w = elim (Bool-cases tx.tx_sync) [
  | inl s ↦ simp (tx_end, notify, w, s, ==_same tx.tid, append-nil)
  | inr s ↦ simp (tx_end, notify, w, s, ==_same tx.tid, append-nil)
]

drained : (e : Engine) → Settled e [] (record e { tx_list = [] })
drained e = record {
  list = refl;
  memory = refl;
  count = λ h. h;
  direct = sym (append-nil _);
  late = sym (append-nil _);
  reads = refl;
  reads_count = refl;
}

drain-empty : (n : ℕ) (e : Engine) → record e { tx_list = [] } ≡ drain n (record e { tx_list = [] })
unfolding drain first
drain-empty zero e = refl
drain-empty (suc n) e = refl

-- One round of the loop.
round :
    (n : ℕ) (e : Engine) (tx : Tx) (txs : List Tx)
    → IsWrite tx
    → drain (suc n) (record e { tx_list = tx ∷ txs })
      ≡ (if in_pm_tx tx then drain n (committed e tx txs) else record e { tx_list = tx ∷ txs })
unfolding drain first
round n e tx txs w = ground (arith, commit_lem e tx txs w)

calls-behind :
    (sync : Bool) (old : List Called) (tx : Tx) (txs : List Tx)
    → (old ++ calls sync (tx ∷ [])) ++ calls sync txs ≡ old ++ calls sync (tx ∷ txs)
calls-behind sync old tx txs = elim (Bool-cases (if sync then tx.tx_sync else not tx.tx_sync)) [
  | inl y ↦ rw y (append_assoc old (record { tid = tx.tid; err = success } ∷ []) (calls sync txs))
  | inr y ↦ rw (y, append-nil old) refl
]

one_more :
    (e r : Engine) (tx : Tx) (txs : List Tx)
    → in_pm_tx tx ≡ true
    → length (tx ∷ txs) < 2 ^ 32
    → Settled (committed e tx txs) txs r
    → Settled e (tx ∷ txs) r
one_more e r tx txs y b s = record {
  list = rw y s.list;
  memory = rw y s.memory;
  count = rw y (λ h. s.count (omega (arith, h, b)));
  direct = rw y (s.direct ∙ calls-behind false e.called tx (ready txs));
  late = rw y (s.late ∙ calls-behind true e.posted tx (ready txs));
  reads = s.reads;
  reads_count = s.reads_count;
}

stopped :
    (e : Engine) (tx : Tx) (txs : List Tx)
    → in_pm_tx tx ≡ false
    → Settled e (tx ∷ txs) (record e { tx_list = tx ∷ txs })
stopped e tx txs y = record {
  list = rw y refl;
  memory = rw y refl;
  count = rw y (λ h. h);
  direct = rw y (sym (append-nil _));
  late = rw y (sym (append-nil _));
  reads = refl;
  reads_count = refl;
}

-- With as much fuel as the list has transactions, all of them write transactions, the loop takes
-- away the transactions at its front that are in PM_TX and no other, applies their logs in the order
-- of the list, counts them off, and calls back each of them with success, in the same order.
pub drain_settles :
    (n : ℕ) (e : Engine) (txs : List Tx)
    → length txs ≤ n
    → length txs < 2 ^ 32
    → All IsWrite txs
    → Settled e txs (drain n (record e { tx_list = txs }))
unfolding first
drain_settles zero e [] h b w = subst (Settled e []) (drain-empty zero e) (drained e)
drain_settles (suc n) e [] h b w = subst (Settled e []) (drain-empty (suc n) e) (drained e)
drain_settles zero e (tx ∷ txs) h b w = absurd (omega (arith, h))
drain_settles (suc n) e (tx ∷ txs) h b w = elim (Bool-cases (in_pm_tx tx)) [
  | inl y ↦
      rw (round n e tx txs w.0, y)
        (one_more e _ tx txs y b
          (drain_settles n (committed e tx txs) txs (omega (arith, h)) (omega (arith, b)) w.1))
  | inr y ↦ rw (round n e tx txs w.0, y) (stopped e tx txs y)
]
