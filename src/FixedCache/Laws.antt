-- ===== src/FixedCache/Laws.antt =====
-- The cache as a stack of free ids.
use native.Mathlib.Nat.{mul-le-mul_right, mod-eq_of_lt, mul-div_cancel}
use zcell.Base.{
  leb, none, some, ◌⊎◌, inl, inr, Bool-cases, All-get_or, ℕ, zero, suc, ◌+◌, ◌-◌, ◌*◌, ◌/◌, ◌%◌,
  ◌^◌, ◌≤◌, ◌<◌, ◌≡◌, ◌≢◌, refl, ap, ◌∙◌, sym, true, false, List, [], ◌∷◌, get_or, set, length,
  length-set, ltb, ◌==◌, drop, arith, All, All-set,
}
use zcell.FixedCache.{
  Fcache, get, put, ids_from, constructor, id_get, id_put, id_elem, elem_index, elem_id, contains,
}

-- The ids that `id_get` would give, in the order in which it would give them.
abbrev pub free : Fcache → List ℕ
free f = drop f.tail f.ptr_arr

-- `ptr_arr` has `size` ids, each below `size`, and the top is inside or at the end.
pub record IsValid (f : Fcache) : Type 0 where
  pub filled : length f.ptr_arr ≡ f.size
  pub top : f.tail ≤ f.size
  pub bounded : All (λ i. i < f.size) f.ptr_arr
  pub narrow : f.size < 2 ^ 32

length-ids_from : (i n : ℕ) → length (ids_from i n) ≡ n
unfolding ids_from
length-ids_from i zero = refl
length-ids_from i (suc n) = ap suc (length-ids_from (i + 1) n)

ids_from-bounded : (i n size : ℕ) → i + n ≤ size → All (λ k. k < size) (ids_from i n)
unfolding ids_from
ids_from-bounded i zero size h = tt
ids_from-bounded i (suc n) size h = (omega arith, ids_from-bounded (i + 1) n size (omega arith))

drop-get_or : (xs : List ℕ) (i d : ℕ) → i < length xs → drop i xs ≡ get_or xs i d ∷ drop (suc i) xs
drop-get_or [] i d h = absurd (omega arith)
drop-get_or (x ∷ xs) zero d h = refl
drop-get_or (x ∷ xs) (suc i) d h = drop-get_or xs i d (omega arith)

drop-set : (xs : List ℕ) (i v : ℕ) → i < length xs → drop i (set xs i v) ≡ v ∷ drop (suc i) xs
drop-set [] i v h = absurd (omega arith)
drop-set (x ∷ xs) zero v h = refl
drop-set (x ∷ xs) (suc i) v h = drop-set xs i v (omega arith)

suc_tail : (f : Fcache) → drop (f.tail + 1) f.ptr_arr ≡ drop (suc f.tail) f.ptr_arr
suc_tail f = ap (λ k. drop k f.ptr_arr) {y = suc f.tail} (omega arith)

below_tail : (f : Fcache) → f.tail ≢ 0 → drop (suc (f.tail - 1)) f.ptr_arr ≡ drop f.tail f.ptr_arr
below_tail f h = ap (λ k. drop k f.ptr_arr) {x = suc (f.tail - 1)} (omega arith)

free-exhausted : (f : Fcache) → IsValid f → f.tail ≡ f.size → free f ≡ []
free-exhausted f v e = rw (e, ← v.filled) (drop-all f.ptr_arr)
  where
    drop-all : (xs : List ℕ) → drop (length xs) xs ≡ []
    drop-all [] = refl
    drop-all (x ∷ xs) = drop-all xs

-- A new cache is valid, and all its ids are free, lowest first.
pub constructor-IsValid :
    (elems cache_sz elem_sz : ℕ)
    → cache_sz < 2 ^ 32
    → IsValid (constructor elems cache_sz elem_sz)
      × (free (constructor elems cache_sz elem_sz) ≡ ids_from 0 cache_sz)
unfolding constructor
constructor-IsValid elems n elem_sz h = (
  record {
    filled = length-ids_from 0 n;
    top = omega arith;
    bounded = ids_from-bounded 0 n n (omega arith);
    narrow = h;
  },
  refl,
)

-- `id_get` takes the top of the free ids, which is below `size`, and fails exactly when there is
-- none; the cache stays valid.
pub id_get-free :
    (f : Fcache)
    → IsValid f
    → let (id, g) = id_get f in
      IsValid g
      × (((f.tail ≡ f.size) × (free f ≡ []) × (id ≡ 2 ^ 32 - 1) × (g ≡ f))
          ⊎ ((f.tail < f.size) × (free f ≡ id ∷ free g) × (id < f.size)))
unfolding id_get
id_get-free f v = elim (Bool-cases (f.tail == f.size)) [
  | inl e ↦ rw e (v, inl (ground arith, free-exhausted f v (ground arith), refl, refl))
  | inr e ↦ rw e (
    record { filled = v.filled; top = ground arith; bounded = v.bounded; narrow = v.narrow },
    inr (
      ground arith,
      ground (arith, v.filled, v.top, drop-get_or f.ptr_arr f.tail 0, suc_tail f),
      All-get_or (λ i. i < f.size) f.ptr_arr f.tail 0 v.bounded (ground arith),
    ),
  )
]

-- `id_put` of an id below `size`, while some id is taken, puts it on top of the free ids.
pub id_put-free :
    (f : Fcache) (idx : ℕ)
    → IsValid f
    → idx < f.size
    → f.tail ≢ 0
    → IsValid (id_put f idx) × (free (id_put f idx) ≡ idx ∷ free f)
unfolding id_put
id_put-free f idx v h ne =
    let busy : (f.tail == 0) ≡ false = ground arith in
    let known : ltb idx f.size ≡ true = ground arith in
    rw (busy, known)
      (
        record {
          filled = length-set f.ptr_arr (f.tail - 1) idx ∙ v.filled;
          top = omega (arith, v.top);
          bounded = All-set (λ i. i < f.size) f.ptr_arr (f.tail - 1) idx v.bounded h;
          narrow = v.narrow;
        },
        drop-set f.ptr_arr (f.tail - 1) idx (omega (arith, v.filled, v.top))
            ∙ ap (◌∷◌ idx) (below_tail f ne),
      )

-- Taking an id and giving it back restores the free ids and their order.
pub id_put-id_get :
    (f : Fcache)
    → IsValid f
    → f.tail < f.size
    → let (id, g) = id_get f in free (id_put g id) ≡ free f
unfolding id_get
id_put-id_get f v room =
    let got : (f.tail == f.size) ≡ false = ground arith in
    let taken : Fcache = record f { tail = f.tail + 1 } in
    let valid : IsValid taken = record {
      filled = v.filled;
      top = room_above;
      bounded = v.bounded;
      narrow = v.narrow;
    } in
    let below : get_or f.ptr_arr f.tail 0 < f.size =
      All-get_or (λ i. i < f.size) f.ptr_arr f.tail 0 v.bounded (omega arith) in
    rw got (
      (id_put-free taken (get_or f.ptr_arr f.tail 0) valid below (omega arith)).1
      ∙ (ap (◌∷◌ (get_or f.ptr_arr f.tail 0)) (suc_tail f)
          ∙ sym (drop-get_or f.ptr_arr f.tail 0 (omega (arith, v.filled)))))
  where
    room_above : f.tail + 1 ≤ f.size
    room_above = omega arith

-- The address of an element leads back to its id, where the array is smaller than 2 ^ 32 bytes.
pub elem_id-id_elem :
    (f : Fcache) (id : ℕ)
    → 0 < f.elem_size
    → id < f.size
    → f.size * f.elem_size < 2 ^ 32
    → f.size < 2 ^ 32
    → (elem_id f (id_elem f id) ≡ id) × (contains f (id_elem f id) ≡ true)
unfolding elem_id elem_index id_elem contains
elem_id-id_elem f id pos below small narrow =
    let product : suc id * f.elem_size ≤ f.size * f.elem_size =
      mul-le-mul_right f.elem_size below in
    let within : id * f.elem_size % 2 ^ 32 ≡ id * f.elem_size = mod-eq_of_lt (omega arith) in
    let index : id * f.elem_size / f.elem_size ≡ id = mul-div_cancel id pos in
    let offset : f.elems + id * f.elem_size - f.elems ≡ id * f.elem_size = omega arith in
    let above : leb f.elems (f.elems + id * f.elem_size) ≡ true = ground arith in
    rw (within, above, offset, index) (ground arith, ground arith)

elem_index-id_elem :
    (f : Fcache) (id : ℕ)
    → 0 < f.elem_size
    → id < f.size
    → f.size * f.elem_size < 2 ^ 32
    → f.size < 2 ^ 32
    → elem_index f (id_elem f id) ≡ id
unfolding elem_index id_elem
elem_index-id_elem f id pos below small narrow =
    let product : suc id * f.elem_size ≤ f.size * f.elem_size =
      mul-le-mul_right f.elem_size below in
    let within : id * f.elem_size % 2 ^ 32 ≡ id * f.elem_size = mod-eq_of_lt (omega arith) in
    let index : id * f.elem_size / f.elem_size ≡ id = mul-div_cancel id pos in
    let offset : f.elems + id * f.elem_size - f.elems ≡ id * f.elem_size = omega arith in
    let above : leb f.elems (f.elems + id * f.elem_size) ≡ true = ground arith in
    rw (within, above, offset, index) (ground arith)

taken_index :
    (f : Fcache) (id : ℕ)
    → 0 < f.elem_size
    → id < f.size
    → f.size * f.elem_size < 2 ^ 32
    → f.size < 2 ^ 32
    → elem_index (record f { tail = f.tail + 1 }) (id_elem f id) ≡ id
unfolding elem_index id_elem
taken_index f id pos below small narrow = elem_index-id_elem f id pos below small narrow

given_back :
    (f : Fcache)
    → IsValid f
    → f.tail < f.size
    → free (id_put (record f { tail = f.tail + 1 }) (get_or f.ptr_arr f.tail 0)) ≡ free f
unfolding id_get
given_back f v room =
    let got : (f.tail == f.size) ≡ false = ground arith in rw got at (id_put-id_get f v room)

-- An element that `get` gives is one of the cache's, and giving it back with `put` restores the free
-- ids and their order, where the array is smaller than 2 ^ 32 bytes; `get` fails exactly when no id
-- is free.
pub put-get :
    (f : Fcache)
    → IsValid f
    → 0 < f.elem_size
    → f.size * f.elem_size < 2 ^ 32
    → let (found, g) = get f in
      ((f.tail ≡ f.size) × (found ≡ none) × (g ≡ f))
      ⊎ ((ptr : ℕ) × (found ≡ some ptr) × (contains f ptr ≡ true) × (free (put g ptr) ≡ free f))
unfolding get put
put-get f v pos small = elim (Bool-cases (f.tail == f.size)) [
  | inl e ↦ rw e (inl (ground arith, refl, refl))
  | inr e ↦
      let room : f.tail < f.size = ground (arith, v.top) in
      let below : get_or f.ptr_arr f.tail 0 < f.size =
        All-get_or (λ i. i < f.size) f.ptr_arr f.tail 0 v.bounded (omega arith) in
      rw e (
        inr (
          id_elem f (get_or f.ptr_arr f.tail 0),
          refl,
          (elem_id-id_elem f (get_or f.ptr_arr f.tail 0) pos below small v.narrow).1,
          rw (taken_index f (get_or f.ptr_arr f.tail 0) pos below small v.narrow)
              (given_back f v room),
        ))
]
