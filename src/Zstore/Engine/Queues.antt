-- ===== src/Zstore/Engine/Queues.antt =====
-- The list of write transactions: what the loop of `zstore_tx_metadata` leaves of it, and what
-- `find` and `update` have to do with each other.
use mathlib.Core.Option.{some-injective}
use zcell.Base.{
  ℕ, ◌≤◌, ◌≡◌, refl, ap, false, List, [], ◌∷◌, ◌++◌, none, some, length, All, subst, arith,
  Bool-cases, inl, inr, ==_iff, ◌==◌,
}
use zcell.Pmem
use zcell.Pmem.{Pmem, Transaction}
use zcell.Zstore.Engine.{Tx, find, update, is_first}
use zcell.Zstore.Engine.Drain.{in_pm_tx, ready, waiting, jobs, apply_all}

-- The first transaction of the list, if there is one, is not in `PM_TX`.
abbrev pub IsBlocked : List Tx → Type 0
IsBlocked [] = Unit
IsBlocked (tx ∷ txs) = in_pm_tx tx ≡ false

pub All-waiting : (P : Tx → Type 0) (xs : List Tx) → All P xs → All P (waiting xs)
All-waiting P [] h = tt
All-waiting P (x ∷ xs) h = elim (Bool-cases (in_pm_tx x)) [
  | inl y ↦ rw y (All-waiting P xs h.1)
  | inr y ↦ rw y h
]

pub waiting-IsBlocked : (xs : List Tx) → IsBlocked (waiting xs)
waiting-IsBlocked [] = tt
waiting-IsBlocked (x ∷ xs) = elim (Bool-cases (in_pm_tx x)) [
  | inl y ↦ rw y (waiting-IsBlocked xs)
  | inr y ↦ rw y y
]

pub length-waiting : (xs : List Tx) → length (waiting xs) ≤ length xs
length-waiting [] = omega arith
length-waiting (x ∷ xs) = ground (arith, length-waiting xs)

pub jobs-ready : (xs : List Tx) → jobs xs ≡ jobs (ready xs) ++ jobs (waiting xs)
jobs-ready [] = refl
jobs-ready (x ∷ xs) = elim (Bool-cases (in_pm_tx x)) [
  | inl y ↦ rw y (ap (λ ts. x.pm_tx_ ∷ ts) (jobs-ready xs))
  | inr y ↦ rw y refl
]

pub apply_all-append :
    (ts us : List Transaction) (p : Pmem) → apply_all p (ts ++ us) ≡ apply_all (apply_all p ts) us
apply_all-append [] us p = refl
apply_all-append (t ∷ ts) us p = apply_all-append ts us (Pmem.apply p t).0

pub jobs-append : (xs ys : List Tx) → jobs (xs ++ ys) ≡ jobs xs ++ jobs ys
jobs-append [] ys = refl
jobs-append (x ∷ xs) ys = ap (λ ts. x.pm_tx_ ∷ ts) (jobs-append xs ys)

pub All-append : (P : Tx → Type 0) (xs ys : List Tx) → All P xs → All P ys → All P (xs ++ ys)
All-append P [] ys h k = k
All-append P (x ∷ xs) ys h k = (h.0, All-append P xs ys h.1 k)

module _ (f : Tx → Tx) (tid : ℕ) where
  pub All-update :
      (P : Tx → Type 0) (xs : List Tx)
      → All P xs
      → ((tx : Tx) → find tid xs ≡ some tx → P (f tx))
      → All P (update tid f xs)
  unfolding find update
  All-update P [] h k = tt
  All-update P (x ∷ xs) h k = elim (Bool-cases (x.tid == tid)) [
    | inl y ↦ rw y (k x (rw y refl), h.1)
    | inr y ↦ rw y (h.0, All-update P xs h.1 (λ tx e. k tx (rw y e)))
  ]

  pub length-update : (xs : List Tx) → length (update tid f xs) ≡ length xs
  unfolding update
  length-update [] = refl
  length-update (x ∷ xs) = ground (arith, length-update xs)

  pub jobs-update :
      ((tx : Tx) → (f tx).pm_tx_ ≡ tx.pm_tx_) → (xs : List Tx) → jobs (update tid f xs) ≡ jobs xs
  unfolding update
  jobs-update k [] = refl
  jobs-update k (x ∷ xs) = elim (Bool-cases (x.tid == tid)) [
    | inl y ↦ rw (y, k x) refl
    | inr y ↦ rw y (ap (λ ts. x.pm_tx_ ∷ ts) (jobs-update k xs))
  ]

  pub update-append :
      (xs : List Tx) (tx : Tx)
      → find tid xs ≡ none
      → tx.tid ≡ tid
      → update tid f (xs ++ tx ∷ []) ≡ xs ++ f tx ∷ []
  unfolding update find
  update-append [] tx h e = rw (e, (==_iff tid tid).1 refl) refl
  update-append (x ∷ xs) tx h e =
      let rest : find tid xs ≡ none → update tid f (xs ++ tx ∷ []) ≡ xs ++ f tx ∷ [] =
        λ k. update-append xs tx k e in
      elim (Bool-cases (x.tid == tid)) [
        | inl y ↦ absurd (ground (arith, rw y at h))
        | inr y ↦ rw y (ap (λ ts. x ∷ ts) (rest (rw y at h)))
      ]

  pub update-IsBlocked :
      (xs : List Tx) → IsBlocked xs → is_first tid xs ≡ false → IsBlocked (update tid f xs)
  unfolding update
  update-IsBlocked [] h e = tt
  update-IsBlocked (x ∷ xs) h e = rw e h

pub All-find :
    (P : Tx → Type 0) (tid : ℕ) (tx : Tx) (xs : List Tx) → All P xs → find tid xs ≡ some tx → P tx
unfolding find
All-find P tid tx [] h e = ground arith
All-find P tid tx (x ∷ xs) h e = elim (Bool-cases (x.tid == tid)) [
  | inl y ↦ subst P (some-injective x tx (rw y at e)) h.0
  | inr y ↦ All-find P tid tx xs h.1 (rw y at e)
]
