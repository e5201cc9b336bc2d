-- ===== src/Allocator/Tests.antt =====
-- The allocator on an empty device of two bitmap entries, with the hint at the last block of the
-- first, and on one with two blocks.
use zcell.Base.{
  ◌<◌, ℕ, ◌≡◌, refl, true, false, [], ◌∷◌, arith, List, replicate, if◌then◌else◌, ap, All,
  All-get_or, subst,
}
use zcell.Base.Word.{test_bit}
use zcell.Status.{ok, status, no_space}
use zcell.Allocator.{
  Allocator, Extent, allocated, word, word_index, alloc_space, free_space, total_len,
}
use zcell.Allocator.Count.{count_free}
use zcell.Allocator.Laws.{IsValid, Granted, Leaked, alloc_space-Granted, alloc_space_all}
use zcell.Allocator.Run.{AreWords, FreeRun, alloc_space_run}
use zcell.Allocator.Free.{Held, within, covers, free_space_frees}
use zcell.Allocator.Init.{allocated-empty}

abbrev pub disk : Allocator
disk = record { bs = replicate 16 0; nr_free = 1024; nr_total = 1024; nr_entrys = 2; hint = 511 }

pub disk-IsValid : IsValid disk
unfolding count_free allocated word word_index test_bit
disk-IsValid = record { fits = omega arith; counted = refl }

pub disk-AreWords : AreWords disk.bs
disk-AreWords = ground arith

zeroes : All (λ w. w ≡ 0) disk.bs
zeroes = ground arith

disk-empty : (j : ℕ) → allocated disk.bs j ≡ false
unfolding word
disk-empty j =
    allocated-empty disk.bs j (All-get_or (λ w. w ≡ 0) disk.bs (word_index j) 0 zeroes refl)

pub disk-FreeRun : (k : ℕ) → FreeRun disk.bs 511 k
disk-FreeRun k j l u = disk-empty j

-- Two blocks, of which the second is allocated.
abbrev pub small : Allocator
small = record { bs = 2 ∷ replicate 7 0; nr_free = 1; nr_total = 2; nr_entrys = 1; hint = 0 }

pub small-IsValid : IsValid small
unfolding count_free allocated word word_index test_bit
small-IsValid = record { fits = omega arith; counted = refl }

pub small-allocated : allocated small.bs 1 ≡ true
unfolding allocated word word_index test_bit
small-allocated = refl

alloc_space_all_example :
    ((alloc_space small 1).rc ≡ status no_space) × Leaked small (alloc_space small 1)
alloc_space_all_example = alloc_space_all small small-IsValid (omega arith)

disk-ok : (alloc_space disk 2).rc ≡ ok
disk-ok =
    ap (λ r. r.rc)
      (alloc_space_run disk 1 disk-IsValid disk-AreWords (omega arith) (disk-FreeRun 2)
        (omega arith))

alloc_space-Granted_example : Granted disk 2 (alloc_space disk 2) × (2 < disk.nr_free)
alloc_space-Granted_example = alloc_space-Granted disk 2 disk-IsValid (omega arith) disk-ok

abbrev second : List Extent
second = record { lba = 1; len = 1 } ∷ []

the_second : (i : ℕ) → within 1 1 i ≡ true → 1 ≡ i
the_second i w = ground arith

second-Held : Held small.bs 2 second
unfolding allocated word word_index test_bit
second-Held = (
  omega arith,
  λ i w. subst (λ j. allocated small.bs j ≡ true) (the_second i w) refl,
  λ i w. refl,
  tt,
)

free_space_frees_example :
    IsValid (free_space small second)
    × ((free_space small second).nr_free ≡ 2)
    × ((i : ℕ)
        → allocated (free_space small second).bs i
          ≡ (if covers second i then false else allocated small.bs i))
unfolding total_len
free_space_frees_example = free_space_frees small second small-IsValid second-Held
