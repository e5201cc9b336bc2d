-- ===== src/BlockDevice/Held.antt =====
-- How often a request of the device is among the operations of a channel.
use mathlib.Core.Option.{some-injective, some-ne-none}
use zcell.Base.{
  ℕ, zero, suc, ◌+◌, ◌≡◌, refl, sym, ap, List, [], ◌∷◌, ◌++◌, some, get_elem?, set, if◌then◌else◌,
  ◌==◌, arith,
}
use zcell.Client.{OpCtx, is_new}

-- How many of the addresses are `a`.
abbrev pub times : ℕ → List ℕ → ℕ
times a [] = 0
times a (addr ∷ addrs) = times a addrs + (if addr == a then 1 else 0)

pub times-append : (a : ℕ) (l k : List ℕ) → times a (l ++ k) ≡ times a l + times a k
times-append a [] k = omega arith
times-append a (addr ∷ l) k = omega (arith, times-append a l k)

-- 1 for an operation in use for the request at the address `a`.
abbrev pub busy : ℕ → OpCtx → ℕ
busy a op = if is_new op.state then 0 else (if op.user_data == a then 1 else 0)

abbrev pub held : ℕ → List OpCtx → ℕ
held a [] = 0
held a (op ∷ ops) = busy a op + held a ops

pub held-set :
    (a : ℕ) (ops : List OpCtx) (i : ℕ) (was op : OpCtx)
    → get_elem? ops i ≡ some was
    → held a (set ops i op) + busy a was ≡ held a ops + busy a op
held-set a [] i was op e = absurd (some-ne-none was (sym e))
held-set a (x ∷ ops) zero was op e = omega (arith, ap (busy a) (some-injective x was e))
held-set a (x ∷ ops) (suc i) was op e = omega (arith, held-set a ops i was op e)

pub set-set : {A : Type 0} (xs : List A) (i : ℕ) (v w : A) → set (set xs i v) i w ≡ set xs i w
set-set [] i v w = refl
set-set (x ∷ xs) zero v w = refl
set-set (x ∷ xs) (suc i) v w = ap (λ l. x ∷ l) (set-set xs i v w)
