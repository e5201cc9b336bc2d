-- ===== src/Allocator/Free.antt =====
-- What `stupid_free_space` does to each block and to the free count, and that it undoes an allocation.
use zcell.Allocator.{Allocator}
use zcell.Allocator.Laws.{IsValid}
use zcell.Allocator.{free_space, unmark_all, total_len}
use zcell.Base.{
  ℕ, zero, suc, ◌+◌, ◌*◌, ◌≤◌, ◌≡◌, refl, Bool, true, false, List, [], ◌∷◌, length, arith,
  if◌then◌else◌, ltb, leb, ◌&&◌, ◌||◌, ◌∙◌,
}
use zcell.Allocator.{Extent, allocated, mark, unmark, unmark_run}
use zcell.Allocator.Bits.{allocated-mark, allocated-unmark, length-unmark, length-mark}
use zcell.Allocator.Count.{count_free, count_free-unmark}
use zcell.Allocator.Run.{mark_run}

-- Block i is one of the `n` blocks from `lba` on; one of an extent's; one of any of the extents'.
abbrev pub within : ℕ → ℕ → ℕ → Bool
within lba n i = leb lba i && ltb i (lba + n)

abbrev pub covers : List Extent → ℕ → Bool
covers [] i = false
covers (e ∷ es) i = within e.lba e.len i || covers es i

pub length-unmark_run : (bs : List ℕ) (lba n : ℕ) → length (unmark_run bs lba n) ≡ length bs
unfolding unmark_run
length-unmark_run bs lba zero = refl
length-unmark_run bs lba (suc n) =
    length-unmark_run (unmark bs lba) (lba + 1) n ∙ length-unmark bs lba

pub allocated-unmark_run :
    (bs : List ℕ) (lba n i : ℕ)
    → lba + n ≤ 64 * length bs
    → allocated (unmark_run bs lba n) i ≡ (if within lba n i then false else allocated bs i)
unfolding unmark_run
allocated-unmark_run bs lba zero i h = ground arith
allocated-unmark_run bs lba (suc n) i h = ground (
  arith,
  allocated-unmark_run (unmark bs lba) (lba + 1) n i,
  length-unmark bs lba,
  allocated-unmark bs lba i,
)

pub allocated-mark_run :
    (bs : List ℕ) (lba n i : ℕ)
    → lba + n ≤ 64 * length bs
    → allocated (mark_run bs lba n) i ≡ (if within lba n i then true else allocated bs i)
unfolding mark_run
allocated-mark_run bs lba zero i h = ground arith
allocated-mark_run bs lba (suc n) i h = ground (
  arith,
  allocated-mark_run (mark bs lba) (lba + 1) n i,
  length-mark bs lba,
  allocated-mark bs lba i,
)

-- All blocks of the run are allocated.
abbrev pub HeldRun : List ℕ → ℕ → ℕ → Type 0
HeldRun bs lba n = (i : ℕ) → within lba n i ≡ true → allocated bs i ≡ true

count_free-unmark_run :
    (bs : List ℕ) (lba n total : ℕ)
    → total ≤ 64 * length bs
    → lba + n ≤ total
    → HeldRun bs lba n
    → count_free (unmark_run bs lba n) total ≡ count_free bs total + n
unfolding unmark_run
count_free-unmark_run bs lba zero total fits below held = omega arith
count_free-unmark_run bs lba (suc n) total fits below held = omega (
  arith,
  count_free-unmark bs lba total (omega arith) (omega arith) (held lba (ground arith)),
  count_free-unmark_run (unmark bs lba) (lba + 1) n total (omega (arith, length-unmark bs lba))
      (omega arith) (λ i w. ground (arith, held i, allocated-unmark bs lba i)),
)

-- The extents lie on the device, their blocks are allocated, and no block is in two of them.
abbrev pub Held : List ℕ → ℕ → List Extent → Type 0
Held bs total [] = Unit {0}
Held bs total (e ∷ es) =
    (e.lba + e.len ≤ total)
    × HeldRun bs e.lba e.len
    × ((i : ℕ) → within e.lba e.len i ≡ true → covers es i ≡ false)
    × Held bs total es

Held-unmark_run :
    (bs : List ℕ) (total lba n : ℕ) (es : List Extent)
    → total ≤ 64 * length bs
    → lba + n ≤ total
    → ((i : ℕ) → within lba n i ≡ true → covers es i ≡ false)
    → Held bs total es
    → Held (unmark_run bs lba n) total es
Held-unmark_run bs total lba n [] fits below apart h = tt
Held-unmark_run bs total lba n (e ∷ es) fits below apart (inside, held, once, rest) = (
  inside,
  λ i w. ground (arith, held i w, apart i, allocated-unmark_run bs lba n i),
  once,
  Held-unmark_run bs total lba n es fits below (λ i w. ground (arith, apart i w)) rest,
)

unmark_all-Held :
    (bs : List ℕ) (total : ℕ) (es : List Extent)
    → total ≤ 64 * length bs
    → Held bs total es
    → (length (unmark_all bs es) ≡ length bs)
      × (count_free (unmark_all bs es) total ≡ count_free bs total + total_len es)
unfolding unmark_all total_len
unmark_all-Held bs total [] fits h = (refl, omega arith)
unmark_all-Held bs total (e ∷ es) fits (inside, held, once, rest) =
    let after =
      unmark_all-Held (unmark_run bs e.lba e.len) total es
        (omega (arith, length-unmark_run bs e.lba e.len))
        (Held-unmark_run bs total e.lba e.len es fits inside once rest) in
    (
      after.0 ∙ length-unmark_run bs e.lba e.len,
      omega (arith, after.1, count_free-unmark_run bs e.lba e.len total fits inside held),
    )

allocated-unmark_all :
    (bs : List ℕ) (total : ℕ) (es : List Extent) (i : ℕ)
    → total ≤ 64 * length bs
    → Held bs total es
    → allocated (unmark_all bs es) i ≡ (if covers es i then false else allocated bs i)
unfolding unmark_all
allocated-unmark_all bs total [] i fits h = refl
allocated-unmark_all bs total (e ∷ es) i fits (inside, held, once, rest) =
    let after =
      allocated-unmark_all (unmark_run bs e.lba e.len) total es i
        (omega (arith, length-unmark_run bs e.lba e.len))
        (Held-unmark_run bs total e.lba e.len es fits inside once rest) in
    ground (arith, after, allocated-unmark_run bs e.lba e.len i)

-- Freeing extents whose blocks are allocated, and in no two of them, keeps the allocator valid, adds
-- their lengths to the free count, and frees exactly their blocks.
pub free_space_frees :
    (a : Allocator) (ex : List Extent)
    → IsValid a
    → Held a.bs a.nr_total ex
    → IsValid (free_space a ex)
      × ((free_space a ex).nr_free ≡ a.nr_free + total_len ex)
      × ((i : ℕ)
          → allocated (free_space a ex).bs i ≡ (if covers ex i then false else allocated a.bs i))
unfolding free_space
free_space_frees a ex v h =
    let done = unmark_all-Held a.bs a.nr_total ex v.fits h in
    (
      record { fits = omega (arith, v.fits, done.0); counted = omega (arith, v.counted, done.1) },
      refl,
      λ i. allocated-unmark_all a.bs a.nr_total ex i v.fits h,
    )
