-- ===== src/FixedCache.antt =====
-- util/fixed_cache.h: a cache of `size` elements of `elem_size` bytes. `ptr_arr` is a stack of the ids
-- that are free, whose top is at `tail`. All counts are 32 bits wide.
-- `malloc`, `spdk_dma_malloc` and their `free` only give and take the array at address `elems`.
pub mod Laws
mod Tests
use zcell.Base.{
  ℕ, zero, suc, ◌+◌, ◌-◌, ◌*◌, ◌/◌, ◌%◌, ◌^◌, Bool, true, false, List, [], ◌∷◌, Option, none, some,
  get_or, set, length, if◌then◌else◌, ltb, leb, ◌==◌, ◌&&◌,
}

-- `struct fcache_t`
pub record Fcache : Type 0 where
  pub elems : ℕ
  pub ptr_arr : List ℕ
  pub elem_size : ℕ
  pub size : ℕ
  pub tail : ℕ

-- The loop that fills `ptr_arr` with 0, 1, ...
pub ids_from : ℕ → ℕ → List ℕ
ids_from i zero = []
ids_from i (suc n) = i ∷ ids_from (i + 1) n

-- `fcache_constructor`, given the address of the elements.
pub constructor : ℕ → ℕ → ℕ → Fcache
constructor elems cache_sz elem_sz = record {
  elems = elems;
  ptr_arr = ids_from 0 cache_sz;
  elem_size = elem_sz;
  size = cache_sz;
  tail = 0;
}

-- `fcache_id_get`: `(uint32_t)-1` where the cache is exhausted.
pub id_get : Fcache → ℕ × Fcache
id_get f =
    if f.tail == f.size
    then (2 ^ 32 - 1, f)
    else (get_or f.ptr_arr f.tail 0, record f { tail = f.tail + 1 })

-- `fcache_id_put`
pub id_put : Fcache → ℕ → Fcache
id_put f idx =
    if f.tail == 0
    then f
    else if ltb idx f.size
    then record f { ptr_arr = set f.ptr_arr (f.tail - 1) idx; tail = f.tail - 1 }
    else f

-- `fcahe_id_elem`: the product of two 32-bit numbers is 32 bits wide.
pub id_elem : Fcache → ℕ → ℕ
id_elem f id = f.elems + id * f.elem_size % 2 ^ 32

-- The id of an element's address, as it is computed before its test.
pub elem_index : Fcache → ℕ → ℕ
elem_index f elem =
    if leb f.elems elem
    then (elem - f.elems) / f.elem_size % 2 ^ 32
    else (2 ^ 32 - (f.elems - elem) / f.elem_size % 2 ^ 32) % 2 ^ 32

-- `fcache_get`: `none` is NULL.
pub get : Fcache → Option ℕ × Fcache
get f =
    if f.tail == f.size
    then (none, f)
    else (some (id_elem f (get_or f.ptr_arr f.tail 0)), record f { tail = f.tail + 1 })

-- `fcache_put`, of an address that is not below the elements.
pub put : Fcache → ℕ → Fcache
put f elem = id_put f (elem_index f elem)

-- `fcache_elem_id`
pub elem_id : Fcache → ℕ → ℕ
elem_id f elem = if ltb (elem_index f elem) f.size then elem_index f elem else 2 ^ 32 - 1

-- `fcache_in`
pub contains : Fcache → ℕ → Bool
contains f ptr = leb f.elems ptr && ltb ptr (f.elems + f.elem_size * f.size % 2 ^ 32)
