-- ===== src/Zstore/Engine/Invariant.antt =====
-- The invariant of the list of write transactions, and how `zstore_tx_metadata` restores it.
use zcell.Base.{
  ℕ, ◌^◌, ◌≤◌, ◌<◌, ◌≡◌, ◌⊎◌, refl, sym, ap, ◌∙◌, false, List, [], ◌∷◌, ◌++◌, length, All, arith,
  Bool-cases, inl, inr, ◌==◌,
}
use zcell.Pmem.{Pmem, Transaction}
use zcell.Zstore.Engine.{
  Tx, data_io, pm_tx, Engine, update, is_first, drain, to_pm_tx, count_bio, last_bio, tx_metadata,
}
use zcell.Zstore.Engine.Drain.{ready, jobs, apply_all, IsWrite, Settled, drain_settles}
use zcell.Zstore.Engine.Queues.{
  IsBlocked, All-waiting, waiting-IsBlocked, length-waiting, jobs-ready,
}

-- A transaction that waits for requests, or one that has none left and waits for its turn.
abbrev pub IsPending : Tx → Type 0
IsPending tx =
    ((tx.state ≡ data_io) × (0 < tx.bio_outstanding) × (tx.bio_outstanding < 2 ^ 16))
    ⊎ ((tx.state ≡ pm_tx) × (tx.bio_outstanding ≡ 0))

pub record Inv (e : Engine) : Type 0 where
  pub writes : All IsWrite e.tx_list
  pub pending : All IsPending e.tx_list
  pub blocked : IsBlocked e.tx_list
  pub count : e.tx_outstanding ≡ length e.tx_list
  pub small : length e.tx_list < 2 ^ 32

-- The logs `before` are done up to those of the list, in order, and the memory shows it.
pub record Kept (p : Pmem) (before : List Transaction) (r : Engine) : Type 0 where
  pub inv : Inv r
  pub done : List Transaction
  pub order : before ≡ done ++ jobs r.tx_list
  pub memory : r.pmem ≡ apply_all p done

-- An engine whose list is as the invariant wants it, but for a first transaction that may be ready.
pub record Prepared (e : Engine) : Type 0 where
  pub writes : All IsWrite e.tx_list
  pub pending : All IsPending e.tx_list
  pub count : e.tx_outstanding ≡ length e.tx_list
  pub small : length e.tx_list < 2 ^ 32

drain-Kept :
    (n : ℕ) (e : Engine)
    → length e.tx_list ≤ n
    → Prepared e
    → Kept e.pmem (jobs e.tx_list) (drain n e)
drain-Kept n e enough h =
    let s : Settled e e.tx_list (drain n e) = drain_settles n e e.tx_list enough h.small h.writes in
    record {
      inv = record {
        writes = rw s.list (All-waiting IsWrite e.tx_list h.writes);
        pending = rw s.list (All-waiting IsPending e.tx_list h.pending);
        blocked = rw s.list (waiting-IsBlocked e.tx_list);
        count = s.count h.count ∙ ap length (sym s.list);
        small = rw s.list (omega (arith, length-waiting e.tx_list, h.small));
      };
      done = jobs (ready e.tx_list);
      order = rw s.list (jobs-ready e.tx_list);
      memory = s.memory;
    }

pub blocked-Kept : (e : Engine) → Prepared e → IsBlocked e.tx_list → Kept e.pmem (jobs e.tx_list) e
blocked-Kept e h b = record {
  inv = record {
    writes = h.writes;
    pending = h.pending;
    blocked = b;
    count = h.count;
    small = h.small;
  };
  done = [];
  order = refl;
  memory = refl;
}

pub metadata-Kept :
    (e : Engine) (tx : Tx)
    → IsWrite tx
    → Prepared e
    → update tx.tid to_pm_tx e.tx_list ≡ e.tx_list
    → (is_first tx.tid e.tx_list ≡ false → IsBlocked e.tx_list)
    → Kept e.pmem (jobs e.tx_list) (tx_metadata e tx)
unfolding tx_metadata
metadata-Kept e tx w h same b = elim (Bool-cases (is_first tx.tid e.tx_list)) [
  | inl y ↦ rw (w, y, same) (drain-Kept (length e.tx_list) e (omega arith) h)
  | inr y ↦ rw (w, y, same) (blocked-Kept e h (b y))
]

pub twice :
    (tid : ℕ) (xs : List Tx) → update tid to_pm_tx (update tid last_bio xs) ≡ update tid last_bio xs
unfolding update
twice tid [] = refl
twice tid (x ∷ xs) = elim (Bool-cases (x.tid == tid)) [
  | inl y ↦ rw (y, y) refl
  | inr y ↦ rw (y, y) (ap (λ ts. x ∷ ts) (twice tid xs))
]

pub is_first-update :
    (tid : ℕ) (xs : List Tx) → is_first tid (update tid last_bio xs) ≡ is_first tid xs
unfolding update
is_first-update tid [] = refl
is_first-update tid (x ∷ xs) = elim (Bool-cases (x.tid == tid)) [
  | inl y ↦ rw (y, y) refl
  | inr y ↦ rw (y, y) refl
]

pub count-IsBlocked : (tid : ℕ) (xs : List Tx) → IsBlocked xs → IsBlocked (update tid count_bio xs)
unfolding update
count-IsBlocked tid [] h = tt
count-IsBlocked tid (x ∷ xs) h = elim (Bool-cases (x.tid == tid)) [
  | inl y ↦ rw y h
  | inr y ↦ rw y h
]
