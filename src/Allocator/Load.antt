-- ===== src/Allocator/Load.antt =====
-- Loading the entries of a bitmap one after the other.
use zcell.Base.{
  ltb, ℕ, zero, suc, ◌+◌, ◌-◌, ◌*◌, ◌/◌, ◌%◌, ◌≤◌, ◌<◌, ◌≡◌, ap, ◌∙◌, sym, false, List, length,
  get_or, arith, Bool-cases, inl, inr,
}
use zcell.Base.Word.{test_bit}
use zcell.Allocator.{Allocator, allocated, word, init_bitmap_entry, entry_end, copy_entry}
use zcell.Allocator.Bits.{word_index_lem}
use zcell.Allocator.Count.{count_free, count_free-eq}
use zcell.Allocator.Init.{count_run, init_bitmap_entry_counts}
use zcell.Allocator.Copy.{length-copy_entry, copy_entry_below, copy_entry_inside}

count_free-count_run :
    (bs : List ℕ) (i n : ℕ) → count_free bs (i + n) ≡ count_free bs i + count_run bs i n
unfolding count_free count_run
count_free-count_run bs i zero = omega (arith, ap (count_free bs) (no_more i))
  where
    no_more : (i : ℕ) → i + zero ≡ i
    no_more i = omega arith
count_free-count_run bs i (suc n) = omega (
  arith,
  ap (count_free bs) (one_more i n),
  count_free-count_run bs (i + 1) n,
  ap (count_free bs) (next i),
)
  where
    one_more : (i n : ℕ) → i + suc n ≡ i + 1 + n
    one_more i n = omega arith

    next : (i : ℕ) → i + 1 ≡ suc i
    next i = omega arith

-- The words of the first `e` entries are those of a source, and the free blocks of them are counted.
pub record LoadedTo (source : ℕ → ℕ) (e : ℕ) (a : Allocator) : Type 0 where
  pub words : (j : ℕ) → j < e * 8 → get_or a.bs j 0 ≡ source j
  pub counted : a.nr_free ≡ count_free a.bs (e * 512)

allocated-eq :
    (bs cs : List ℕ) (i : ℕ)
    → get_or bs (i / 64) 0 ≡ get_or cs (i / 64) 0
    → allocated bs i ≡ allocated cs i
unfolding allocated word
allocated-eq bs cs i h =
    ap (λ v. test_bit v (i % 64))
      (ap (λ k. get_or bs k 0) (word_index_lem i)
        ∙ h
        ∙ ap (λ k. get_or cs k 0) (sym (word_index_lem i)))

-- Loading one entry more.
module _ (source : ℕ → ℕ) (e : ℕ) (a : Allocator) (src : List ℕ) (copied : length src ≡ 8)
    (from_source : (k : ℕ) → k < 8 → get_or src k 0 ≡ source (e * 8 + k))
    (fits : e * 8 + 8 ≤ length a.bs) (inside : e * 512 + 512 ≤ a.nr_total)
    (l : LoadedTo source e a) where
  below : (j : ℕ) → j < e * 8 → get_or (copy_entry a.bs e src) j 0 ≡ get_or a.bs j 0
  below = copy_entry_below a.bs e src copied fits

  loaded_word : (j : ℕ) → j < (e + 1) * 8 → get_or (copy_entry a.bs e src) j 0 ≡ source j
  loaded_word j h = elim (Bool-cases (ltb j (e * 8))) [
    | inl old ↦ below j (ground arith) ∙ l.words j (ground arith)
    | inr new ↦
        ap (λ k. get_or (copy_entry a.bs e src) k 0) (split e j (at_least e j new))
        ∙ copy_entry_inside a.bs e src copied fits (j - e * 8) (omega (arith, h, at_least e j new))
        ∙ from_source (j - e * 8) (omega (arith, h, at_least e j new))
        ∙ ap source (sym (split e j (at_least e j new)))
  ]
    where
      at_least : (e j : ℕ) → ltb j (e * 8) ≡ false → e * 8 ≤ j
      at_least e j h = ground arith

      split : (e j : ℕ) → e * 8 ≤ j → j ≡ e * 8 + (j - e * 8)
      split e j h = omega (arith, h)

  same_count : count_free (copy_entry a.bs e src) (e * 512) ≡ count_free a.bs (e * 512)
  same_count =
      count_free-eq (copy_entry a.bs e src) a.bs (e * 512)
        (λ i h. allocated-eq (copy_entry a.bs e src) a.bs i (below (i / 64) (omega (arith, h))))

  whole_entry : entry_end a e - e * 512 ≡ 512
  whole_entry = ground (arith, inside)

  entry_count :
      (init_bitmap_entry a e src).nr_free ≡ count_free (copy_entry a.bs e src) ((e + 1) * 512)
  entry_count = omega (
    arith,
    (init_bitmap_entry_counts a e src).0,
    ap (λ bs. count_run bs (e * 512) (entry_end a e - e * 512))
        (init_bitmap_entry_counts a e src).1,
    ap (count_run (copy_entry a.bs e src) (e * 512)) whole_entry,
    l.counted,
    same_count,
    count_free-count_run (copy_entry a.bs e src) (e * 512) 512,
    ap (count_free (copy_entry a.bs e src)) (next e),
  )
    where
      next : (e : ℕ) → (e + 1) * 512 ≡ e * 512 + 512
      next e = omega arith

  pub init_bitmap_entry-LoadedTo : LoadedTo source (e + 1) (init_bitmap_entry a e src)
  unfolding init_bitmap_entry
  init_bitmap_entry-LoadedTo = record { words = loaded_word; counted = entry_count }

  pub length-init_bitmap_entry : length (init_bitmap_entry a e src).bs ≡ length a.bs
  unfolding init_bitmap_entry
  length-init_bitmap_entry = length-copy_entry a.bs e src copied fits

-- A bit of a bitmap, by its word.
pub allocated_lem :
    (bs : List ℕ) (i : ℕ) → allocated bs i ≡ test_bit (get_or bs (i / 64) 0) (i % 64)
unfolding allocated word
allocated_lem bs i = ap (λ k. test_bit (get_or bs k 0) (i % 64)) (word_index_lem i)
