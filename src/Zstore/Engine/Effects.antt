-- ===== src/Zstore/Engine/Effects.antt =====
-- What operations do to the persistent memory: a creation fills its index block when it is called, and
-- the log of a write transaction is applied when its turn comes.
use zcell.Base.{ℕ, ◌≡◌, refl, ap, Option, none, some, List, [], ◌∷◌, ◌++◌, map}
use zcell.Pmem
use zcell.Pmem.{Pmem, Transaction}
use zcell.Zstore.Engine.{Engine, fill_block, block_filled}
use zcell.Zstore.Engine.Drain.{apply_all}

pub data Effect : Type 0 where
  filled : ℕ → Effect
  logged : Transaction → Effect

-- The memory after some effects.
unfoldable pub run_effects : Pmem → List Effect → Pmem
run_effects p [] = p
run_effects p (filled o ∷ es) = run_effects (record p { mem = fill_block p.mem o }) es
run_effects p (logged t ∷ es) = run_effects (Pmem.apply p t).0 es

-- The logs among them, and the blocks filled, in order.
abbrev pub logs_of : List Effect → List Transaction
logs_of [] = []
logs_of (filled o ∷ es) = logs_of es
logs_of (logged t ∷ es) = t ∷ logs_of es

abbrev pub fills_of : List Effect → List ℕ
fills_of [] = []
fills_of (filled o ∷ es) = o ∷ fills_of es
fills_of (logged t ∷ es) = fills_of es

-- The block that a call fills, and its effect.
abbrev pub block_of : Option ℕ → List ℕ
block_of none = []
block_of (some o) = o ∷ []

abbrev pub fill_of : Option ℕ → List Effect
fill_of none = []
fill_of (some o) = filled o ∷ []

pub logs_of-append : (xs ys : List Effect) → logs_of (xs ++ ys) ≡ logs_of xs ++ logs_of ys
logs_of-append [] ys = refl
logs_of-append (filled o ∷ xs) ys = logs_of-append xs ys
logs_of-append (logged t ∷ xs) ys = ap (λ l. t ∷ l) (logs_of-append xs ys)

pub fills_of-append : (xs ys : List Effect) → fills_of (xs ++ ys) ≡ fills_of xs ++ fills_of ys
fills_of-append [] ys = refl
fills_of-append (filled o ∷ xs) ys = ap (λ l. o ∷ l) (fills_of-append xs ys)
fills_of-append (logged t ∷ xs) ys = fills_of-append xs ys

pub run_effects-append :
    (p : Pmem) (xs ys : List Effect) → run_effects p (xs ++ ys) ≡ run_effects (run_effects p xs) ys
unfolding run_effects
run_effects-append p [] ys = refl
run_effects-append p (filled o ∷ xs) ys =
    run_effects-append (record p { mem = fill_block p.mem o }) xs ys
run_effects-append p (logged t ∷ xs) ys = run_effects-append (Pmem.apply p t).0 xs ys

-- The effects of a call and of the logs that are applied then.
pub call_effects : Option ℕ → List Transaction → List Effect
call_effects block ts = fill_of block ++ map logged ts

logs_of-map : (ts : List Transaction) → logs_of (map logged ts) ≡ ts
logs_of-map [] = refl
logs_of-map (t ∷ ts) = ap (λ l. t ∷ l) (logs_of-map ts)

fills_of-map : (ts : List Transaction) → fills_of (map logged ts) ≡ []
fills_of-map [] = refl
fills_of-map (t ∷ ts) = fills_of-map ts

run_effects-map :
    (p : Pmem) (ts : List Transaction) → run_effects p (map logged ts) ≡ apply_all p ts
unfolding run_effects
run_effects-map p [] = refl
run_effects-map p (t ∷ ts) = run_effects-map (Pmem.apply p t).0 ts

pub logs_of-call_effects :
    (block : Option ℕ) (ts : List Transaction) → logs_of (call_effects block ts) ≡ ts
unfolding call_effects
logs_of-call_effects none ts = logs_of-map ts
logs_of-call_effects (some o) ts = logs_of-map ts

pub fills_of-call_effects :
    (block : Option ℕ) (ts : List Transaction) → fills_of (call_effects block ts) ≡ block_of block
unfolding call_effects
fills_of-call_effects none ts = fills_of-map ts
fills_of-call_effects (some o) ts = ap (λ l. o ∷ l) (fills_of-map ts)

pub run_effects-call_effects :
    (e : Engine) (block : Option ℕ) (ts : List Transaction)
    → run_effects e.pmem (call_effects block ts) ≡ apply_all (block_filled e block).pmem ts
unfolding call_effects run_effects block_filled
run_effects-call_effects e none ts = run_effects-map e.pmem ts
run_effects-call_effects e (some o) ts =
    run_effects-map (record e.pmem { mem = fill_block e.pmem.mem o }) ts
