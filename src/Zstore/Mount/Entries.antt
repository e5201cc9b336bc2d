-- ===== src/Zstore/Mount/Entries.antt =====
-- The entries of the table and of a bitmap, read back from their bytes.
use zcell.Base.{
  ℕ, zero, suc, ◌+◌, ◌-◌, ◌*◌, ◌/◌, ◌%◌, ◌^◌, ◌≤◌, ◌<◌, ◌≡◌, refl, ap, ◌∙◌, sym, List, [], ◌∷◌,
  ◌++◌, length, get_or, arith, take, drop, All, replicate, length-take, length-drop, if◌then◌else◌,
  ◌==◌,
}
use zcell.Base.Word.{test_bit}
use zcell.Memory.{Mem, le64, get64, Holds, Holds-at, Holds-split, get64-Holds}
use zcell.Message.Wire.{le}
use zcell.Allocator.{Allocator, allocated}
use zcell.Allocator.Copy.{get_or-take, get_or-drop}
use zcell.Allocator.Load.{allocated_lem}
use zcell.Allocator.Run.{AreWords}
use zcell.Zstore.Objects.{Onode, onode_bytes, words_bytes}
use zcell.Zstore.Mount.{onode_at}
use zcell.Zstore.Mount.Begin.{field-Holds}

-- The entry that is read from the bytes of a table entry.
pub onode_at-onode_bytes :
    (m : Mem) (o : ℕ) (n : Onode)
    → n.oid < 2 ^ 48
    → n.data_idx_id < 2 ^ 32
    → Holds m o (onode_bytes n)
    → onode_at m o ≡ n
unfolding onode_at onode_bytes le64 le
onode_at-onode_bytes m o n short small h =
    rw (is_valid, is_oid, field-Holds m (o + 12) 4 n.data_idx_id (omega (arith, small)) index_part)
      refl
  where
    first : ℕ
    first = (if n.valid then 1 else 0) + n.oid * 2 ^ 16

    parts :
        Holds m o (le64 first) × Holds m (o + 8) (le64 (n.data_idx_id * 2 ^ 32) ++ replicate 48 0)
    parts = Holds-split m o (le64 first) (le64 (n.data_idx_id * 2 ^ 32) ++ replicate 48 0) h

    word : get64 m o ≡ first
    word = get64-Holds m o first (ground (arith, short)) parts.0

    is_valid : (get64 m o % 2 == 1) ≡ n.valid
    is_valid = ground (arith, word)

    is_oid : get64 m o / 2 ^ 16 % 2 ^ 48 ≡ n.oid
    is_oid = ground (arith, word, short)

    high : ℕ
    high = n.data_idx_id * 2 ^ 32

    high_bytes : List ℕ
    high_bytes =
        high / 2 ^ 32 % 256 ∷ high / 2 ^ 40 % 256 ∷ high / 2 ^ 48 % 256 ∷ high / 2 ^ 56 % 256 ∷ []

    bytes : Holds m (o + 12) high_bytes
    bytes =
        Holds-at m {o = o + 8 + 1 + 1 + 1 + 1} high_bytes (omega arith)
          (Holds-split m (o + 8) (le64 high) (replicate 48 0) parts.1).0.1.1.1.1

    index_part : Holds m (o + 12) (le 4 n.data_idx_id)
    index_part = (
      omega (arith, bytes.0),
      (omega (arith, bytes.1.0), (omega (arith, bytes.1.1.0), (omega (arith, bytes.1.1.1.0), tt))),
    )

eight_on : (o w : ℕ) → o + length (le64 w) ≡ o + 8
unfolding le64
eight_on o w = refl

-- A word of the bytes of a bitmap entry.
get64-words_bytes :
    (m : Mem) (o : ℕ) (ws : List ℕ) (k : ℕ)
    → k < length ws
    → All (λ w. w < 2 ^ 64) ws
    → Holds m o (words_bytes ws)
    → get64 m (o + 8 * k) ≡ get_or ws k 0
unfolding words_bytes
get64-words_bytes m o [] k h small held = absurd (omega (arith, h))
get64-words_bytes m o (w ∷ ws) zero h small held =
    ap (get64 m) (omega arith)
    ∙ get64-Holds m o w small.0 (Holds-split m o (le64 w) (words_bytes ws) held).0
get64-words_bytes m o (w ∷ ws) (suc k) h small held =
    ap (get64 m) (omega arith)
    ∙ get64-words_bytes m (o + 8) ws k (omega (arith, h)) small.1 (
        Holds-at m (words_bytes ws) (eight_on o w)
          (Holds-split m o (le64 w) (words_bytes ws) held).1)

module _ {A : Type 0} (P : A → Type 0) where
  All-take : (n : ℕ) (xs : List A) → All P xs → All P (take n xs)
  All-take zero xs h = tt
  All-take (suc n) [] h = tt
  All-take (suc n) (x ∷ xs) h = (h.0, All-take n xs h.1)

  All-drop : (n : ℕ) (xs : List A) → All P xs → All P (drop n xs)
  All-drop zero xs h = h
  All-drop (suc n) [] h = tt
  All-drop (suc n) (x ∷ xs) h = All-drop n xs h.1

-- The bits of a bitmap entry in memory, from those of the allocator that was logged.
pub entry_bit :
    (m : Mem) (ofst e i : ℕ) (a : Allocator)
    → i / 512 ≡ e
    → e * 8 + 8 ≤ length a.bs
    → AreWords a.bs
    → Holds m (ofst + 64 * e) (words_bytes (take 8 (drop (e * 8) a.bs)))
    → test_bit (get64 m (ofst + 8 * (i / 64))) (i % 64) ≡ allocated a.bs i
entry_bit m ofst e i a here room small h =
    ap (λ w. test_bit w (i % 64))
      (ap (get64 m) (omega (arith, here))
        ∙ get64-words_bytes m (ofst + 64 * e) (take 8 (drop (e * 8) a.bs)) (i / 64 - e * 8)
            (omega (arith, here, eight)) words h
        ∙ get_or-take 0 8 (drop (e * 8) a.bs) (i / 64 - e * 8) (omega (arith, here))
        ∙ get_or-drop 0 (e * 8) a.bs (i / 64 - e * 8)
        ∙ ap (λ k. get_or a.bs k 0) (omega (arith, here)))
    ∙ sym (allocated_lem a.bs i)
  where
    eight : length (take 8 (drop (e * 8) a.bs)) ≡ 8
    eight = length-take 8 (drop (e * 8) a.bs) (omega (arith, room, length-drop (e * 8) a.bs))

    words : All (λ w. w < 2 ^ 64) (take 8 (drop (e * 8) a.bs))
    words =
        All-take (λ w. w < 2 ^ 64) 8 (drop (e * 8) a.bs)
          (All-drop (λ w. w < 2 ^ 64) (e * 8) a.bs small)
