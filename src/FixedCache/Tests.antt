-- ===== src/FixedCache/Tests.antt =====
-- A cache of three elements of 64 bytes, with one of them taken.
use zcell.Base.{ℕ}
use zcell.Base.{none, some}
use zcell.FixedCache.{get, put}
use zcell.FixedCache.Laws.{put-get}
use zcell.Base.{◌⊎◌, ◌≡◌, refl, true, [], ◌∷◌, arith}
use zcell.FixedCache.{Fcache, contains}
use zcell.FixedCache.Laws.{free, IsValid}

abbrev cache : Fcache
cache = record { elems = 4096; ptr_arr = 0 ∷ 1 ∷ 2 ∷ []; elem_size = 64; size = 3; tail = 1 }

cache-IsValid : IsValid cache
cache-IsValid = record {
  filled = refl;
  top = omega arith;
  bounded = ground arith;
  narrow = omega arith;
}

put-get_example :
    let (found, g) = get cache in
    ((cache.tail ≡ cache.size) × (found ≡ none) × (g ≡ cache))
    ⊎ ((ptr : ℕ) × (found ≡ some ptr)
        × (contains cache ptr ≡ true)
        × (free (put g ptr) ≡ free cache))
put-get_example = put-get cache cache-IsValid (omega arith) (omega arith)
