-- ===== src/Bitmap/Laws.antt =====
-- The bits of a bitmap under its operations, and what the search for a set bit finds.
use native.Mathlib.Decide.{ℕ_discrete}
use zcell.Base.{
  ℕ, zero, suc, ◌+◌, ◌-◌, ◌*◌, ◌/◌, ◌%◌, ◌^◌, ◌≤◌, ◌<◌, ◌≡◌, ◌≢◌, refl, ap, true, false, List, none,
  some, get_or, set, length, if◌then◌else◌, ◌==◌, arith, Bool-cases, Option-cases, inl, inr,
  get_or-set_self, get_or-set_ne, All, All-get_or,
}
use zcell.Base.Word
use zcell.Base.Word.{test_bit, test_bit-digit, test_bit-set_bit, test_bit-clear_bit}
use zcell.Base.Digits.{digit-zero, some_digit}
use zcell.Bitmap.{
  Bitmap, get_bit, set_bit, clr_bit, lowest_bit, next_in, next_set, find_next_set_and_clr,
}

-- The bit is inside the array.
abbrev pub Inside : Bitmap → ℕ → Type 0
Inside b i = i < 64 * length b.words

word-set :
    (ws : List ℕ) (i j v : ℕ)
    → i < 64 * length ws
    → get_or (set ws (i / 64) v) (j / 64) 0 ≡ (if j / 64 == i / 64 then v else get_or ws (j / 64) 0)
word-set ws i j v h = elim (ℕ_discrete (j / 64) (i / 64)) [
  | yes e ↦ ground (arith, get_or-set_self ws (i / 64) v 0)
  | no ne ↦ ground (arith, get_or-set_ne ws (i / 64) (j / 64) v 0)
]

same_word : (ws : List ℕ) (i j : ℕ) → j / 64 ≡ i / 64 → get_or ws (j / 64) 0 ≡ get_or ws (i / 64) 0
same_word ws i j e = ap (λ k. get_or ws k 0) e

-- Setting or clearing a bit changes that bit and no other.
pub get_bit-update :
    (b : Bitmap) (i j : ℕ)
    → Inside b i
    → (get_bit (set_bit b i) j ≡ (if j == i then true else get_bit b j))
      × (get_bit (clr_bit b i) j ≡ (if j == i then false else get_bit b j))
unfolding get_bit set_bit clr_bit
get_bit-update b i j h = (
  ground (
    arith,
    word-set b.words i j (Word.set_bit (get_or b.words (i / 64) 0) (i % 64)) h,
    test_bit-set_bit (get_or b.words (i / 64) 0) (i % 64) (j % 64),
    same_word b.words i j,
  ),
  ground (
    arith,
    word-set b.words i j (Word.clear_bit (get_or b.words (i / 64) 0) (i % 64)) h,
    test_bit-clear_bit (get_or b.words (i / 64) 0) (i % 64) (j % 64),
    same_word b.words i j,
  ),
)

-- The lowest bit is one of the bits, if there is one among them.
lowest_bit-test_bit :
    (n k w j : ℕ)
    → k ≤ j
    → j < k + n
    → test_bit w j ≡ true
    → (test_bit w (lowest_bit n k w) ≡ true) × (lowest_bit n k w < k + n)
unfolding lowest_bit
lowest_bit-test_bit zero k w j l u t = absurd (omega arith)
lowest_bit-test_bit (suc n) k w j l u t = ground (arith, lowest_bit-test_bit n (k + 1) w j, here)
  where
    here : k ≡ j → test_bit w k ≡ true
    here e = rw e t

lowest_bit-word :
    (w : ℕ)
    → w < 2 ^ 64
    → w ≢ 0
    → (test_bit w (lowest_bit 64 0 w) ≡ true) × (lowest_bit 64 0 w < 64)
lowest_bit-word w h ne =
    let (j, below, one) = some_digit 64 w h ne in
    lowest_bit-test_bit 64 0 w j (omega arith) (omega arith)
      (rw (test_bit-digit w j, one) (ground arith))

next_at :
    (ws : List ℕ) (n k i : ℕ)
    → (test_bit (get_or ws k 0) (lowest_bit 64 0 (get_or ws k 0)) ≡ true)
      × (lowest_bit 64 0 (get_or ws k 0) < 64)
    → k * 64 + lowest_bit 64 0 (get_or ws k 0) ≡ i
    → (test_bit (get_or ws (i / 64) 0) (i % 64) ≡ true) × (k * 64 ≤ i) × (i < (k + suc n) * 64)
next_at ws n k i (set_there, inside) e =
    let quotient : i / 64 ≡ k = omega arith in
    let remainder : i % 64 ≡ lowest_bit 64 0 (get_or ws k 0) = omega arith in
    (rw (quotient, remainder) set_there, omega arith, omega arith)

-- What one of the two loops finds, and that it misses nothing.
next_in-some :
    (ws : List ℕ) (n k i : ℕ)
    → All (λ w. w < 2 ^ 64) ws
    → next_in ws n k ≡ some i
    → (test_bit (get_or ws (i / 64) 0) (i % 64) ≡ true) × (k * 64 ≤ i) × (i < (k + n) * 64)
unfolding next_in
next_in-some ws zero k i h e = cc
next_in-some ws (suc n) k i h e = elim (Bool-cases (get_or ws k 0 == 0)) [
  | inl empty ↦ ground (arith, next_in-some ws n (k + 1) i h)
  | inr full ↦
      let low =
        lowest_bit-word (get_or ws k 0) (All-get_or (λ w. w < 2 ^ 64) ws k 0 h (omega arith))
          (λ z. ground arith) in
      let hit : k * 64 + lowest_bit 64 0 (get_or ws k 0) ≡ i = ground arith in
      next_at ws n k i low hit
]

next_in-none :
    (ws : List ℕ) (n k j : ℕ) → next_in ws n k ≡ none → k ≤ j → j < k + n → get_or ws j 0 ≡ 0
unfolding next_in
next_in-none ws zero k j e l u = absurd (omega arith)
next_in-none ws (suc n) k j e l u = elim (Bool-cases (get_or ws k 0 == 0)) [
  | inl empty ↦ ground (arith, next_in-none ws n (k + 1) j, here)
  | inr full ↦ ground arith
]
  where
    here : k ≡ j → get_or ws k 0 ≡ get_or ws j 0
    here e = rw e

-- Every word fits 64 bits.
abbrev pub AreWords : Bitmap → Type 0
AreWords b = All (λ w. w < 2 ^ 64) b.words

-- A search returns the id of a set bit inside the array, and returns -1 only when, from whatever
-- hint inside the array, no bit is set.
pub next_set-finds :
    (b : Bitmap) (bit_hint : ℕ)
    → AreWords b
    → bit_hint / 64 ≤ length b.words
    → ((i : ℕ) → next_set b bit_hint ≡ some i → (get_bit b i ≡ true) × Inside b i)
      × (next_set b bit_hint ≡ none → (i : ℕ) → Inside b i → get_bit b i ≡ false)
unfolding next_set get_bit
next_set-finds b bit_hint words h = (hit, miss)
  where
    hit : (i : ℕ) → next_set b bit_hint ≡ some i → (get_bit b i ≡ true) × Inside b i
    hit i e = ground (
      arith,
      next_in-some b.words (length b.words - bit_hint / 64) (bit_hint / 64) i words,
      next_in-some b.words (bit_hint / 64) 0 i words,
    )

    miss : next_set b bit_hint ≡ none → (i : ℕ) → Inside b i → get_bit b i ≡ false
    miss e i inside =
        let empty : get_or b.words (i / 64) 0 ≡ 0 = ground (
          arith,
          next_in-none b.words (length b.words - bit_hint / 64) (bit_hint / 64) (i / 64),
          next_in-none b.words (bit_hint / 64) 0 (i / 64),
        ) in
        rw (empty, test_bit-digit, digit-zero) (ground arith)

-- Taking an id clears its bit and no other, and fails only on a bitmap without a set bit, which it
-- leaves alone: an id is not given twice unless its bit is set again.
pub find_next_set_and_clr_takes :
    (b : Bitmap) (bit_hint : ℕ)
    → AreWords b
    → bit_hint / 64 ≤ length b.words
    → let (found, c) = find_next_set_and_clr b bit_hint in
      ((i : ℕ)
        → found ≡ some i
        → (get_bit b i ≡ true) × ((j : ℕ) → get_bit c j ≡ (if j == i then false else get_bit b j)))
      × (found ≡ none → (c ≡ b) × ((i : ℕ) → Inside b i → get_bit b i ≡ false))
unfolding find_next_set_and_clr
find_next_set_and_clr_takes b bit_hint words h = elim (Option-cases (next_set b bit_hint)) [
  | inl e ↦
      rw (e, find_next_set_and_clr)
        (λ i f. cc, λ _. (refl, (next_set-finds b bit_hint words h).1 e))
  | inr (k, e) ↦
      let (is_set, inside) = (next_set-finds b bit_hint words h).0 k e in
      rw (e, find_next_set_and_clr)
        (
          λ i f.
              let same : k ≡ i = ground arith in
              rw (← same) (is_set, λ j. (get_bit-update b k j inside).1),
          λ f. cc,
        )
]
