-- ===== src/Allocator/Init.antt =====
-- Loading one bitmap entry: the counting loop that steps over empty words finds the number of free
-- blocks that a block by block count finds.
use Prim.Native.Nat.add
use native.Mathlib.Nat.{add-zero}
use zcell.Base.{
  ◌*◌, ℕ, zero, suc, ◌+◌, ◌-◌, ◌/◌, ◌%◌, ◌≤◌, ◌<◌, ◌≡◌, ◌≢◌, refl, true, false, List, arith, ◌==◌,
  if◌then◌else◌, Bool-cases, ltb, ◌&&◌, ◌⊎◌, inl, inr, get_or, ◌∙◌, sym, ap,
}
use zcell.Base.Word.{test_bit-digit}
use zcell.Base.Digits.{digit-zero}
use zcell.Allocator.{
  word, allocated, count_loop, Allocator, copy_entry, entry_end, init_bitmap_entry,
}
use zcell.Allocator.Bits.{word_index_lem}

-- The free blocks among the `n` from `i` on.
unfoldable pub count_run : List ℕ → ℕ → ℕ → ℕ
count_run bs i zero = 0
count_run bs i (suc n) = (if allocated bs i then 0 else 1) + count_run bs (i + 1) n

sum_suc : (n m : ℕ) → suc n + m ≡ suc (n + m)
sum_suc n m = omega arith

sum_shift : (i n : ℕ) → i + suc n ≡ i + 1 + n
sum_shift i n = omega arith

count_run-add :
    (bs : List ℕ) (n m i : ℕ) → count_run bs i (n + m) ≡ count_run bs i n + count_run bs (i + n) m
unfolding count_run
count_run-add bs zero m i =
    omega (arith, ap (λ k. count_run bs i k) (add.zero m), ap (λ k. count_run bs k m) (add-zero i))
count_run-add bs (suc n) m i = omega (
  arith,
  ap (λ k. count_run bs i k) (sum_suc n m),
  count_run-add bs n m (i + 1),
  ap (λ k. count_run bs k m) (sum_shift i n),
)

-- A word of zeroes has 64 free blocks.
pub allocated-empty : (bs : List ℕ) (i : ℕ) → word bs i ≡ 0 → allocated bs i ≡ false
unfolding allocated
allocated-empty bs i e = rw (e, test_bit-digit, digit-zero) (ground arith)

same_word : (bs : List ℕ) (i j : ℕ) → i / 64 ≡ j / 64 → word bs i ≡ word bs j
unfolding word
same_word bs i j e = ap (λ k. get_or bs k 0) (word_index_lem i ∙ (e ∙ sym (word_index_lem j)))

-- The first `n` blocks of an empty word, from block `i` of it.
count_run-empty : (bs : List ℕ) (n i : ℕ) → i % 64 + n ≤ 64 → word bs i ≡ 0 → count_run bs i n ≡ n
unfolding count_run
count_run-empty bs zero i h e = refl
count_run-empty bs (suc zero) i h e = ground (arith, allocated-empty bs i e)
count_run-empty bs (suc (suc n)) i h e =
    let next_word = same_word bs (i + 1) i (omega arith) ∙ e in
    ground
      (arith, allocated-empty bs i e, count_run-empty bs (suc n) (i + 1) (omega arith) next_word)

-- Where the loop may stand: at the start of a word, inside a word that is not empty, or where the
-- last 64 blocks are counted one by one.
abbrev pub Standing : List ℕ → ℕ → ℕ → Type 0
Standing bs end i = (i % 64 ≡ 0) ⊎ ((word bs i ≢ 0) ⊎ (end ≤ i + 64))

Standing-next :
    (bs : List ℕ) (end i : ℕ)
    → (ltb (i + 64) end && (word bs i == 0)) ≡ false
    → Standing bs end (i + 1)
Standing-next bs end i h = elim (Bool-cases ((i + 1) % 64 == 0)) [
  | inl start ↦ inl (ground arith)
  | inr inside ↦ inr (elim (Bool-cases (word bs i == 0)) [
    | inl empty ↦ inr (ground arith)
    | inr full ↦ inl (ground (arith, same_word bs (i + 1) i))
  ])
]

Standing-skip :
    (bs : List ℕ) (end i : ℕ)
    → Standing bs end i
    → (ltb (i + 64) end && (word bs i == 0)) ≡ true
    → Standing bs end (i + 64)
Standing-skip bs end i (inl start) h = inl (omega arith)
Standing-skip bs end i (inr elsewhere) h = absurd (ground arith)

skip_word :
    (bs : List ℕ) (end i : ℕ)
    → Standing bs end i
    → (ltb (i + 64) end && (word bs i == 0)) ≡ true
    → count_run bs i (end - i) ≡ 64 + count_run bs (i + 64) (end - (i + 64))
skip_word bs end i h t = omega (
  arith,
  ap (λ k. count_run bs i k) (split end i (ground arith)),
  count_run-add bs 64 (end - (i + 64)) i,
  count_run-empty bs 64 i (ground arith) (ground arith),
)
  where
    split : (end i : ℕ) → i + 64 < end → end - i ≡ 64 + (end - (i + 64))
    split end i h = omega arith

step_block :
    (bs : List ℕ) (end i : ℕ)
    → i < end
    → count_run bs i (end - i)
      ≡ (if allocated bs i then 0 else 1) + count_run bs (i + 1) (end - (i + 1))
unfolding count_run
step_block bs end i h = ap (λ k. count_run bs i k) (remaining end i h)
  where
    remaining : (end i : ℕ) → i < end → end - i ≡ suc (end - (i + 1))
    remaining end i h = omega arith

count_run-none : (bs : List ℕ) (end i : ℕ) → end ≤ i → count_run bs i (end - i) ≡ 0
unfolding count_run
count_run-none bs end i h = ap (λ k. count_run bs i k) (none_left end i h)
  where
    none_left : (end i : ℕ) → end ≤ i → end - i ≡ 0
    none_left end i h = omega arith

-- The loop of `stupid_allocator_init_bitmap_entry` counts the free blocks from i to the end, if it
-- has a round for each block that is left.
pub count_loop-count_run :
    (bs : List ℕ) (end fuel i total : ℕ)
    → end ≤ i + fuel
    → Standing bs end i
    → count_loop bs end fuel i total ≡ total + count_run bs i (end - i)
unfolding count_loop
count_loop-count_run bs end zero i total h s = omega (arith, count_run-none bs end i (omega arith))
count_loop-count_run bs end (suc fuel) i total h s = elim (Bool-cases (ltb i end)) [
  | inr done ↦ rw (done, count_loop) (omega (arith, count_run-none bs end i (ground arith)))
  | inl more ↦ elim (Bool-cases (ltb (i + 64) end && (word bs i == 0))) [
    | inl skip ↦
        rw (more, skip, count_loop)
          (omega (
            arith,
            count_loop-count_run bs end fuel (i + 64) (total + 64) (omega arith)
                (Standing-skip bs end i s skip),
            skip_word bs end i s skip,
          ))
    | inr one ↦
        rw (more, one, count_loop)
          (ground (
            arith,
            count_loop-count_run bs end fuel (i + 1) (if allocated bs i then total else total + 1)
                (omega arith) (Standing-next bs end i one),
            step_block bs end i (ground arith),
          ))
  ]
]

-- Loading a bitmap entry adds to the free count the number of its blocks on the device that are free
-- in the bitmap as loaded, whatever the entry was before; nothing but the bits and the count changes.
pub init_bitmap_entry_counts :
    (a : Allocator) (e : ℕ) (src : List ℕ)
    → let r = init_bitmap_entry a e src in
      (r.nr_free ≡ a.nr_free + count_run r.bs (e * 512) (entry_end a e - e * 512))
      × (r.bs ≡ copy_entry a.bs e src)
      × (r.nr_total ≡ a.nr_total)
      × (r.hint ≡ a.hint)
unfolding init_bitmap_entry
init_bitmap_entry_counts a e src = (
  omega (
    arith,
    count_loop-count_run (copy_entry a.bs e src) (entry_end a e) 512 (e * 512) 0 bound aligned,
  ),
  refl,
  refl,
  refl,
)
  where
    bound : entry_end a e ≤ e * 512 + 512
    bound = ground arith

    aligned : Standing (copy_entry a.bs e src) (entry_end a e) (e * 512)
    aligned = inl (omega arith)
