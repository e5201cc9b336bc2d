-- ===== src/Zstore/Mount/Load.antt =====
-- Loading a bitmap and the table from memory.
use zcell.Base.{
  subst, ℕ, zero, suc, ◌+◌, ◌*◌, ◌/◌, ◌%◌, ◌≤◌, ◌<◌, ◌≡◌, refl, ap, ◌∙◌, List, length, get_or,
  length-replicate, arith,
}
use zcell.Base.Word.{test_bit}
use zcell.Memory.{Mem, get64}
use zcell.Allocator.{Allocator, allocated, constructor, init_bitmap_entry}
use zcell.Allocator.Init.{init_bitmap_entry_counts}
use zcell.Allocator.Load.{
  LoadedTo, init_bitmap_entry-LoadedTo, length-init_bitmap_entry, allocated_lem,
}
use zcell.Allocator.Count.{count_free}
use zcell.Allocator.Laws.{IsValid}
use zcell.Zstore.Objects.{no_onode}
use zcell.Zstore.Mount.{words_at, load_entries, load_allocator, onode_at, load_otable}

length-words_at : (m : Mem) (o n : ℕ) → length (words_at m o n) ≡ n
unfolding words_at
length-words_at m o zero = refl
length-words_at m o (suc n) = ap suc (length-words_at m (o + 8) n)

get_or-words_at : (m : Mem) (o n j : ℕ) → j < n → get_or (words_at m o n) j 0 ≡ get64 m (o + 8 * j)
unfolding words_at
get_or-words_at m o zero j h = absurd (omega (arith, h))
get_or-words_at m o (suc n) zero h = ap (get64 m) (omega arith)
get_or-words_at m o (suc n) (suc j) h =
    get_or-words_at m (o + 8) n j (omega (arith, h)) ∙ ap (get64 m) (omega arith)

-- The words of a bitmap in memory.
abbrev pub stored : Mem → ℕ → ℕ → ℕ
stored m ofst j = get64 m (ofst + 8 * j)

-- The allocator once `e` entries are loaded.
record Loading (m : Mem) (ofst nr_total e : ℕ) (a : Allocator) : Type 0 where
  loaded : LoadedTo (stored m ofst) e a
  size : length a.bs ≡ nr_total / 512 * 8
  total : a.nr_total ≡ nr_total
  hint : a.hint ≡ 0

-- The loop over the entries from `e` on, if the array has room for them.
load_entries-Loading :
    (m : Mem) (ofst nr_total : ℕ) (a : Allocator) (e n : ℕ)
    → (e + n) * 512 ≤ nr_total
    → Loading m ofst nr_total e a
    → Loading m ofst nr_total (e + n) (load_entries m ofst a e n)
unfolding load_entries
load_entries-Loading m ofst nr_total a e zero room l =
    subst (λ k. Loading m ofst nr_total k a) (omega arith) l
load_entries-Loading m ofst nr_total a e (suc n) room l =
    subst (λ k. Loading m ofst nr_total k (load_entries m ofst next (e + 1) n)) (omega arith)
      (load_entries-Loading m ofst nr_total next (e + 1) n (omega (arith, room)) (record {
        loaded = init_bitmap_entry-LoadedTo (stored m ofst) e a src eight here fits inside l.loaded;
        size =
            length-init_bitmap_entry (stored m ofst) e a src eight here fits inside l.loaded
            ∙ l.size;
        total = (init_bitmap_entry_counts a e src).2 ∙ l.total;
        hint = (init_bitmap_entry_counts a e src).3 ∙ l.hint;
      }))
  where
    src : List ℕ
    src = words_at m (ofst + 64 * e) 8

    next : Allocator
    next = init_bitmap_entry a e src

    eight : length src ≡ 8
    eight = length-words_at m (ofst + 64 * e) 8

    here : (k : ℕ) → k < 8 → get_or src k 0 ≡ stored m ofst (e * 8 + k)
    here k h = get_or-words_at m (ofst + 64 * e) 8 k h ∙ ap (get64 m) (omega arith)

    fits : e * 8 + 8 ≤ length a.bs
    fits = omega (arith, l.size, room)

    inside : e * 512 + 512 ≤ a.nr_total
    inside = omega (arith, l.total, room)

load_allocator-Loading :
    (m : Mem) (ofst nr_total : ℕ)
    → nr_total % 512 ≡ 0
    → Loading m ofst nr_total ((nr_total + 511) / 512) (load_allocator m ofst nr_total)
unfolding load_allocator constructor count_free
load_allocator-Loading m ofst nr_total whole =
    subst
      (λ k.
        Loading m ofst nr_total k
          (load_entries m ofst (constructor nr_total) 0 ((nr_total + 511) / 512)))
      (omega arith)
      (load_entries-Loading m ofst nr_total (constructor nr_total) 0 ((nr_total + 511) / 512)
        (omega (arith, whole)) empty)
  where
    empty : Loading m ofst nr_total 0 (constructor nr_total)
    empty = record {
      loaded = record { words = λ j h. absurd (omega (arith, h)); counted = refl };
      size = length-replicate (nr_total / 512 * 8) 0;
      total = refl;
      hint = refl;
    }

-- Mounting loads a bitmap of whole entries into an allocator that satisfies its invariant, whose
-- blocks are allocated where the bitmap in memory says so.
pub load_allocator-IsValid :
    (m : Mem) (ofst nr_total : ℕ)
    → nr_total % 512 ≡ 0
    → let a = load_allocator m ofst nr_total in
      IsValid a
      × (a.nr_total ≡ nr_total)
      × ((i : ℕ)
          → i < nr_total
          → allocated a.bs i ≡ test_bit (get64 m (ofst + 8 * (i / 64))) (i % 64))
load_allocator-IsValid m ofst nr_total whole =
    let l = load_allocator-Loading m ofst nr_total whole in
    (
      record {
        fits = omega (arith, l.total, l.size, whole);
        counted =
            l.loaded.counted ∙ ap (count_free (load_allocator m ofst nr_total).bs) (every l.total);
      },
      l.total,
      λ i h.
          allocated_lem (load_allocator m ofst nr_total).bs i
          ∙ ap (λ w. test_bit w (i % 64)) (l.loaded.words (i / 64) (omega (arith, h, whole))),
    )
  where
    every : {n : ℕ} → n ≡ nr_total → (nr_total + 511) / 512 * 512 ≡ n
    every e = omega (arith, e, whole)

-- The words of the bitmap that is loaded, and where the next search starts.
pub load_allocator-words :
    (m : Mem) (ofst nr_total : ℕ)
    → nr_total % 512 ≡ 0
    → let a = load_allocator m ofst nr_total in
      (length a.bs ≡ nr_total / 512 * 8)
      × (a.hint ≡ 0)
      × ((j : ℕ) → j < length a.bs → get_or a.bs j 0 ≡ get64 m (ofst + 8 * j))
load_allocator-words m ofst nr_total whole =
    let l = load_allocator-Loading m ofst nr_total whole in
    (l.size, l.hint, λ j h. l.loaded.words j (omega (arith, h, l.size, whole)))

-- Entry `i` of the table that is loaded is the one in memory.
pub get_or-load_otable :
    (m : Mem) (o n i : ℕ) → i < n → get_or (load_otable m o n) i no_onode ≡ onode_at m (o + 64 * i)
unfolding load_otable
get_or-load_otable m o zero i h = absurd (omega (arith, h))
get_or-load_otable m o (suc n) zero h = ap (onode_at m) (omega arith)
get_or-load_otable m o (suc n) (suc i) h =
    get_or-load_otable m (o + 64) n i (omega (arith, h)) ∙ ap (onode_at m) (omega arith)
