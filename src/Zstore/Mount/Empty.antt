-- ===== src/Zstore/Mount/Empty.antt =====
-- Loading a bitmap and a table entry of zeroes.
use zcell.Base.{
  All, List, [], ◌∷◌, suc, ℕ, ◌+◌, ◌*◌, ◌/◌, ◌%◌, ◌^◌, ◌≤◌, ◌<◌, ◌≡◌, refl, ap, ◌∙◌, false, length,
  get_or, arith,
}
use zcell.Base.Word.{test_bit, test_bit_zero}
use zcell.Memory.{Mem, read, get64}
use zcell.Allocator.{Allocator, allocated}
use zcell.Allocator.Count.{count_free-all}
use zcell.Allocator.Laws.{IsValid}
use zcell.Message.Wire.{of_le}
use zcell.Allocator.Run.{AreWords}
use zcell.Zstore.Objects.{no_onode}
use zcell.Zstore.Mount.{field, load_allocator, onode_at}
use zcell.Zstore.Mount.Pages.{get64-zero}
use zcell.Zstore.Mount.Load.{load_allocator-IsValid, load_allocator-words}

-- An allocator of `nr_total` blocks that are all free, which searches from the first one.
pub record AllFree (nr_total : ℕ) (a : Allocator) : Type 0 where
  pub valid : IsValid a
  pub total : a.nr_total ≡ nr_total
  pub all_free : a.nr_free ≡ nr_total
  pub unallocated : (i : ℕ) → i < nr_total → allocated a.bs i ≡ false
  pub size : length a.bs ≡ nr_total / 512 * 8
  pub words : AreWords a.bs
  pub hint : a.hint ≡ 0

All-from : (P : ℕ → Type 0) (xs : List ℕ) → ((j : ℕ) → j < length xs → P (get_or xs j 0)) → All P xs
All-from P [] h = tt
All-from P (x ∷ xs) h = (h 0 (omega arith), All-from P xs (λ j l. h (suc j) (omega (arith, l))))

pub load_allocator-AllFree :
    (m : Mem) (ofst nr_total : ℕ)
    → nr_total % 512 ≡ 0
    → ((x : ℕ) → ofst ≤ x → x < ofst + nr_total / 8 → m x ≡ 0)
    → AllFree nr_total (load_allocator m ofst nr_total)
load_allocator-AllFree m ofst nr_total whole empty =
    let (valid, total, bits) = load_allocator-IsValid m ofst nr_total whole in
    let (size, hint, words) = load_allocator-words m ofst nr_total whole in
    record {
      valid = valid;
      total = total;
      all_free =
          valid.counted
          ∙ count_free-all (load_allocator m ofst nr_total).bs _
              (λ i h. none_set bits i (omega (arith, h, total)))
          ∙ total;
      unallocated = none_set bits;
      size = size;
      words =
          All-from (λ w. w < 2 ^ 64) (load_allocator m ofst nr_total).bs
            (λ j h. omega (arith, words j h, none_stored j (omega (arith, h, size))));
      hint = hint;
    }
  where
    none_stored : (j : ℕ) → j < nr_total / 512 * 8 → get64 m (ofst + 8 * j) ≡ 0
    none_stored j h =
        get64-zero m (ofst + 8 * j)
          (λ x l u. empty x (omega (arith, l)) (omega (arith, u, h, whole)))

    none_set :
        ((i : ℕ)
          → i < nr_total
          → allocated (load_allocator m ofst nr_total).bs i
            ≡ test_bit (get64 m (ofst + 8 * (i / 64))) (i % 64))
        → (i : ℕ) → i < nr_total
        → allocated (load_allocator m ofst nr_total).bs i ≡ false
    none_set bits i h =
        bits i h
        ∙ ap (λ w. test_bit w (i % 64)) (none_stored (i / 64) (omega (arith, h, whole)))
        ∙ test_bit_zero (i % 64)

pub onode_at-no_onode :
    (m : Mem) (o : ℕ) → ((x : ℕ) → o ≤ x → x < o + 64 → m x ≡ 0) → onode_at m o ≡ no_onode
unfolding onode_at field of_le read
onode_at-no_onode m o h =
    rw
      (
        get64-zero m o (λ x l u. h x l (omega (arith, u))),
        h (o + 12) (omega arith) (omega arith),
        h (o + 12 + 1) (omega arith) (omega arith),
        h (o + 12 + 1 + 1) (omega arith) (omega arith),
        h (o + 12 + 1 + 1 + 1) (omega arith) (omega arith),
      )
      refl
