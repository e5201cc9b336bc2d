-- ===== src/Zstore/Mount/Reserve.antt =====
-- The table entries that `zstore_mkfs` reserves.
use zcell.Base.{
  ◌⊎◌, ◌==◌, ==_iff, subst, ℕ, zero, suc, ◌+◌, ◌-◌, ◌*◌, ◌/◌, ◌%◌, ◌^◌, ◌≤◌, ◌<◌, ◌≡◌, refl, ◌∙◌,
  true, ◌++◌, length, length-append, arith, Bool-cases, inl, inr,
}
use zcell.Memory.{
  Mem, read, le64, get64, write, write_before, write_after, Holds, Holds-at, Holds-Same,
  Holds-split, Holds-write, get64-Holds, length-read,
}
use zcell.Message.Wire.{le}
use zcell.Zstore.Mount.{field, onode_at, reserved_bytes, reserve_onodes}
use zcell.Zstore.Mount.Begin.{length-le, field-Holds}

pub length-reserved_bytes : (garbage : Mem) (i : ℕ) → length (reserved_bytes garbage i) ≡ 64
unfolding reserved_bytes le64
length-reserved_bytes garbage i = omega (
  arith,
  length-append (read garbage 8 4) (le 4 i ++ read garbage 16 48),
  length-append (le 4 i) (read garbage 16 48),
  length-read garbage 8 4,
  length-le 4 i,
  length-read garbage 16 48,
)

-- The entry that is read from these bytes.
pub onode_at-reserved_bytes :
    (m garbage : Mem) (o i : ℕ)
    → i < 2 ^ 32
    → Holds m o (reserved_bytes garbage i)
    → onode_at m o ≡ record { valid = true; oid = i; data_idx_id = i }
unfolding onode_at reserved_bytes le64
onode_at-reserved_bytes m garbage o i small h =
    rw (is_valid, is_oid, field-Holds m (o + 12) 4 i (omega (arith, small)) index_part) refl
  where
    fields : ℕ
    fields = 1 + field garbage 0 2 / 2 % 2 ^ 15 * 2 + i * 2 ^ 16

    word : get64 m o ≡ fields
    word =
        get64-Holds m o fields (omega (arith, small))
          (Holds-split m o (le64 fields) (read garbage 8 4 ++ (le 4 i ++ read garbage 16 48)) h).0

    is_valid : (get64 m o % 2 == 1) ≡ true
    is_valid = ground (arith, word)

    is_oid : get64 m o / 2 ^ 16 % 2 ^ 48 ≡ i
    is_oid = omega (arith, word, small)

    behind : Holds m (o + 8) (read garbage 8 4 ++ (le 4 i ++ read garbage 16 48))
    behind =
        (Holds-split m o (le64 fields) (read garbage 8 4 ++ (le 4 i ++ read garbage 16 48)) h).1

    index_part : Holds m (o + 12) (le 4 i)
    index_part =
        (Holds-split m (o + 12) (le 4 i) (read garbage 16 48) (
          Holds-at m (le 4 i ++ read garbage 16 48) (omega (arith, length-read garbage 8 4))
            (Holds-split m (o + 8) (read garbage 8 4) (le 4 i ++ read garbage 16 48) behind).1)).0

module _ (garbage : ℕ → Mem) (o : ℕ) where
  abbrev one_more : Mem → ℕ → Mem
  one_more m i = write m (o + i * 64) (reserved_bytes (garbage i) i)

  pub reserve_onodes-outside :
      (m : Mem) (i n x : ℕ)
      → (x < o + i * 64) ⊎ (o + (i + n) * 64 ≤ x)
      → reserve_onodes garbage m o i n x ≡ m x
  unfolding reserve_onodes
  reserve_onodes-outside m i zero x h = refl
  reserve_onodes-outside m i (suc n) x (inl below) =
      reserve_onodes-outside (one_more m i) (i + 1) n x (inl (omega (arith, below)))
      ∙ write_before m (o + i * 64) (reserved_bytes (garbage i) i) x below
  reserve_onodes-outside m i (suc n) x (inr behind) =
      reserve_onodes-outside (one_more m i) (i + 1) n x (inr (omega (arith, behind)))
      ∙ write_after m (o + i * 64) (reserved_bytes (garbage i) i) x
          (omega (arith, behind, length-reserved_bytes (garbage i) i))

  pub reserve_onodes-Holds :
      (m : Mem) (i n j : ℕ)
      → i ≤ j
      → j < i + n
      → Holds (reserve_onodes garbage m o i n) (o + j * 64) (reserved_bytes (garbage j) j)
  unfolding reserve_onodes
  reserve_onodes-Holds m i zero j from to = absurd (omega (arith, from, to))
  reserve_onodes-Holds m i (suc n) j from to = elim (Bool-cases (i == j)) [
    | inr later ↦ reserve_onodes-Holds (one_more m i) (i + 1) n j (ground arith) (omega (arith, to))
    | inl now ↦
        subst
          (λ k.
            Holds (reserve_onodes garbage m o i (suc n)) (o + k * 64)
              (reserved_bytes (garbage k) k))
          ((==_iff i j).0 now)
          (Holds-Same (one_more m i) (reserve_onodes garbage m o i (suc n)) (o + i * 64)
            (reserved_bytes (garbage i) i)
            (λ x l u.
              reserve_onodes-outside (one_more m i) (i + 1) n x
                (inl (omega (arith, u, length-reserved_bytes (garbage i) i))))
            (Holds-write m (o + i * 64) (reserved_bytes (garbage i) i)))
  ]

pub get64-ones :
    (m : Mem) (o : ℕ) → ((x : ℕ) → o ≤ x → x < o + 8 → m x ≡ 255) → get64 m o ≡ 2 ^ 64 - 1
unfolding get64
get64-ones m o h = omega (
  arith,
  h o (omega arith) (omega arith),
  h (o + 1) (omega arith) (omega arith),
  h (o + 1 + 1) (omega arith) (omega arith),
  h (o + 1 + 1 + 1) (omega arith) (omega arith),
  h (o + 1 + 1 + 1 + 1) (omega arith) (omega arith),
  h (o + 1 + 1 + 1 + 1 + 1) (omega arith) (omega arith),
  h (o + 1 + 1 + 1 + 1 + 1 + 1) (omega arith) (omega arith),
  h (o + 1 + 1 + 1 + 1 + 1 + 1 + 1) (omega arith) (omega arith),
)
