-- ===== src/Allocator/Laws.antt =====
-- What `stupid_alloc_space` promises on each of its three exits.
use mathlib.Core.List.{reverse-cons}
use zcell.Base.{
  ℕ, ◌+◌, ◌*◌, ◌≤◌, ◌<◌, ◌≡◌, refl, true, false, List, [], ◌∷◌, ◌++◌, Option, none, some, length,
  arith, Bool-cases, inl, inr, ltb, reverse, ◌⊎◌, ◌↔◌,
}
use zcell.Status.{minus_one, status, no_space, ok}
use zcell.Allocator.{
  Extent, Allocator, Scan, Alloc, allocated, scan, finish, start, alloc_space, total_len,
}
use zcell.Allocator.Count.{count_free, count_free-le, count_free-pos}
use zcell.Allocator.Rounds.{Running, Scanned, scan-Scanned}

-- The array holds every block, and `nr_free_` is the number of clear bits.
pub record IsValid (a : Allocator) : Type 0 where
  pub fits : a.nr_total ≤ 64 * length a.bs
  pub counted : a.nr_free ≡ count_free a.bs a.nr_total

total_len-append : (xs ys : List Extent) → total_len (xs ++ ys) ≡ total_len xs + total_len ys
unfolding total_len
total_len-append [] ys = omega arith
total_len-append (x ∷ xs) ys = omega (arith, total_len-append xs ys)

pub total_len-reverse : (xs : List Extent) → total_len (reverse xs) ≡ total_len xs
unfolding total_len
total_len-reverse [] = refl
total_len-reverse (x ∷ xs) =
    rw reverse-cons (omega (arith, total_len-append (reverse xs) (x ∷ []), total_len-reverse xs))

start-Running : (sz : ℕ) (a : Allocator) → Running sz a.nr_total a.bs (start a)
unfolding total_len
start-Running sz a = record {
  size = refl;
  kept = λ i h. h;
  counted = omega arith;
  total = refl;
  opened = λ e. cc;
  ended = λ e. cc;
}

-- What the caller of a successful allocation has.
pub record Granted (a : Allocator) (sz : ℕ) (r : Alloc) : Type 0 where
  pub valid : IsValid r.allocator
  pub taken : r.allocator.nr_free + sz ≡ a.nr_free
  pub lengths : total_len r.ex ≡ sz
  pub kept : (i : ℕ) → allocated a.bs i ≡ true → allocated r.allocator.bs i ≡ true
  pub hint_free : allocated r.allocator.bs r.allocator.hint ≡ false
  pub hint_in : r.allocator.hint < a.nr_total

-- What a search that finds too little leaves behind.
pub record Leaked (a : Allocator) (r : Alloc) : Type 0 where
  pub credit : r.allocator.nr_free ≡ a.nr_free
  pub lost : count_free r.allocator.bs a.nr_total + total_len r.ex ≡ a.nr_free
  pub kept : (i : ℕ) → allocated a.bs i ≡ true → allocated r.allocator.bs i ≡ true

abbrev pub Outcome : Allocator → ℕ → Alloc → Type 0
Outcome a sz r =
    ((r.rc ≡ ok) × Granted a sz r × (sz < a.nr_free)) ⊎ ((r.rc ≡ status no_space) × Leaked a r)

finish-Outcome :
    (a : Allocator) (sz : ℕ) (r : Scan × Option ℕ)
    → IsValid a
    → Scanned sz a.nr_total a.bs r
    → Outcome a sz (finish a sz r)
unfolding finish
finish-Outcome a sz (s, some i) v (run, below, free, full) =
    let room : 0 < count_free s.bs a.nr_total = count_free-pos s.bs i a.nr_total below free in
    inl (
      refl,
      record {
        valid = record {
          fits = omega (arith, v.fits, run.size);
          counted = omega (arith, v.counted, run.counted, full);
        };
        taken = omega (arith, v.counted, run.counted, full);
        lengths = omega (arith, total_len-reverse s.ex, run.total, full);
        kept = run.kept;
        hint_free = free;
        hint_in = below;
      },
      omega (arith, v.counted, run.counted, full, room),
    )
finish-Outcome a sz (s, none) v run = inr (
  refl,
  record {
    credit = refl;
    lost = omega (arith, v.counted, run.counted, run.total, total_len-reverse s.ex);
    kept = run.kept;
  },
)

refused :
    (a : Allocator) (sz : ℕ)
    → ltb a.nr_free sz ≡ true
    → alloc_space a sz ≡ record { rc = minus_one; allocator = a; ex = [] }
unfolding alloc_space
refused a sz h = rw h

alloc_space-searches :
    (a : Allocator) (sz : ℕ) → IsValid a → 0 < sz → sz ≤ a.nr_free → Outcome a sz (alloc_space a sz)
unfolding alloc_space
alloc_space-searches a sz v pos enough =
    let go_on : ltb a.nr_free sz ≡ false = ground arith in
    rw go_on (
      finish-Outcome a sz (scan sz a.nr_total (a.nr_total + a.hint) a.nr_total a.hint (start a)) v (
        scan-Scanned sz a.nr_total a.bs (a.nr_total + a.hint) a.nr_total a.hint (start a) v.fits
          (omega (arith, v.counted, count_free-le a.bs a.nr_total)) (start-Running sz a)))

-- A request is refused with -1 exactly when it exceeds the free count; the allocator is then
-- untouched and no extent is written.
pub alloc_space_refused :
    (a : Allocator) (sz : ℕ)
    → IsValid a
    → 0 < sz
    → ((alloc_space a sz).rc ≡ minus_one)
      ↔ ((a.nr_free < sz) × (alloc_space a sz ≡ record { rc = minus_one; allocator = a; ex = [] }))
alloc_space_refused a sz v pos = (forth, λ h. rw h.1)
  where
    forth :
        (alloc_space a sz).rc ≡ minus_one
        → (a.nr_free < sz) × (alloc_space a sz ≡ record { rc = minus_one; allocator = a; ex = [] })
    forth e = elim (Bool-cases (ltb a.nr_free sz)) [
      | inl less ↦ (ground arith, refused a sz less)
      | inr more ↦ absurd (searched (alloc_space-searches a sz v pos (ground arith)))
    ]
      where
        searched : Outcome a sz (alloc_space a sz) → ⊥
        searched (inl o) = cc
        searched (inr o) = cc

-- On success the allocator is still valid, `sz` blocks were taken off the free count and are what
-- the extents add up to, no block that was allocated has been released, and the hint is a free
-- block of the device. The free count was larger than `sz`.
pub alloc_space-Granted :
    (a : Allocator) (sz : ℕ)
    → IsValid a
    → 0 < sz
    → (alloc_space a sz).rc ≡ ok
    → Granted a sz (alloc_space a sz) × (sz < a.nr_free)
alloc_space-Granted a sz v pos e = elim (Bool-cases (ltb a.nr_free sz)) [
  | inl less ↦ cc (refused a sz less)
  | inr more ↦ granted (alloc_space-searches a sz v pos (ground arith))
]
  where
    granted : Outcome a sz (alloc_space a sz) → Granted a sz (alloc_space a sz) × (sz < a.nr_free)
    granted (inl o) = (o.1, o.2)
    granted (inr o) = cc

-- A request for all the free blocks passes the guard and is then answered with `OSTORE_NO_SPACE`:
-- the loop returns 0 only at one more free block. The blocks it marked stay marked, and the free
-- count still counts them.
pub alloc_space_all :
    (a : Allocator)
    → IsValid a
    → 0 < a.nr_free
    → ((alloc_space a a.nr_free).rc ≡ status no_space) × Leaked a (alloc_space a a.nr_free)
alloc_space_all a v pos = leaked (alloc_space-searches a a.nr_free v pos (omega arith))
  where
    leaked :
        Outcome a a.nr_free (alloc_space a a.nr_free)
        → ((alloc_space a a.nr_free).rc ≡ status no_space) × Leaked a (alloc_space a a.nr_free)
    leaked (inl o) = absurd (omega arith)
    leaked (inr o) = o
