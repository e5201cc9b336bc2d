-- ===== src/Allocator/Run.antt =====
-- Allocation where the hint stands at a run of free blocks: the case of a fresh device, and of every
-- request that the run can serve.
use zcell.Base.{
  ◌-◌, sym, ℕ, zero, suc, ◌+◌, ◌*◌, ◌%◌, ◌^◌, ◌≤◌, ◌<◌, ◌≡◌, ◌≢◌, refl, true, false, List, [], ◌∷◌,
  some, length, arith, ◌==◌, ltb, All, All-set, All-get_or, ap, ◌∙◌,
}
use native.Mathlib.Nat.{mod-eq_of_lt}
use zcell.Base.Word.{complement, set_bit-lt, complement-ne_zero}
use zcell.Allocator.{
  Allocator, Scan, found, next, word, word_index, allocated, mark, grow, open_extent, take_free,
  check_end, visit, scan, start,
}
use zcell.Status.{ok}
use zcell.Allocator.{alloc_space, finish}
use zcell.Allocator.Laws.{IsValid}
use zcell.Allocator.Bits.{allocated-mark, length-mark}

-- Every word fits 64 bits.
abbrev pub AreWords : List ℕ → Type 0
AreWords bs = All (λ w. w < 2 ^ 64) bs

pub mark-AreWords : (bs : List ℕ) (i : ℕ) → AreWords bs → AreWords (mark bs i)
unfolding mark word
mark-AreWords bs i h =
    All-set (λ w. w < 2 ^ 64) bs (word_index i) _ h
      (set_bit-lt (word bs i) (i % 64)
        (All-get_or (λ w. w < 2 ^ 64) bs (word_index i) 0 h (omega arith)) (omega arith))

-- The word of a free block is not skipped.
free-not_full :
    (bs : List ℕ) (i : ℕ)
    → AreWords bs
    → allocated bs i ≡ false
    → (complement (word bs i) == 0) ≡ false
unfolding allocated word
free-not_full bs i h e =
    complement-ne_zero (word bs i) (i % 64)
      (All-get_or (λ w. w < 2 ^ 64) bs (word_index i) 0 h (omega arith)) (omega arith) e

-- The blocks from `i` to `i + k`, the last one included, are free.
abbrev pub FreeRun : List ℕ → ℕ → ℕ → Type 0
FreeRun bs i k = (j : ℕ) → i ≤ j → j ≤ i + k → allocated bs j ≡ false

unfoldable pub mark_run : List ℕ → ℕ → ℕ → List ℕ
mark_run bs i zero = bs
mark_run bs i (suc k) = mark_run (mark bs i) (i + 1) k

FreeRun-mark :
    (bs : List ℕ) (i k : ℕ)
    → i < 64 * length bs
    → FreeRun bs i (suc k)
    → FreeRun (mark bs i) (i + 1) k
FreeRun-mark bs i k h f j l u =
    ground (arith, f j (omega arith) (omega arith), allocated-mark bs i j h)

-- The loop's variables when the request is met, and while one extent is open.
abbrev at_end : ℕ → List ℕ → ℕ → Scan
at_end sz bs lba = record {
  bs = bs;
  ex = record { lba = lba; len = sz } ∷ [];
  rsv_len = sz;
  end_flag = true;
  in_found_ctx = true;
}

abbrev running : List ℕ → ℕ → ℕ → Scan
running bs lba len = record {
  bs = bs;
  ex = record { lba = lba; len = len } ∷ [];
  rsv_len = len;
  end_flag = false;
  in_found_ctx = true;
}

module _ (sz n last : ℕ) where
  -- The round at a free block, before and after the request is met.
  visit_take :
      (i : ℕ) (s : Scan)
      → i < n
      → AreWords s.bs
      → allocated s.bs i ≡ false
      → s.end_flag ≡ false
      → visit sz n i s ≡ next (i + 1) (check_end sz (take_free i s))
  unfolding visit
  visit_take i s l h f e = rw (mod-eq_of_lt l) (ground (arith, free-not_full s.bs i h f))

  visit_stop :
      (i : ℕ) (s : Scan)
      → i < n
      → AreWords s.bs
      → allocated s.bs i ≡ false
      → s.end_flag ≡ true
      → visit sz n i s ≡ found i
  unfolding visit
  visit_stop i s l h f e = rw (mod-eq_of_lt l) (ground (arith, free-not_full s.bs i h f))

  scan_stop :
      (fuel i : ℕ) (s : Scan)
      → i < n
      → i < last
      → AreWords s.bs
      → allocated s.bs i ≡ false
      → s.end_flag ≡ true
      → scan sz n last (suc fuel) i s ≡ (s, some i)
  unfolding scan
  scan_stop fuel i s l m h f e = ground (arith, visit_stop i s l h f e)

  take_more :
      (i lba len : ℕ) (bs : List ℕ)
      → len + 1 ≢ sz
      → check_end sz (take_free i (running bs lba len)) ≡ running (mark bs i) lba (len + 1)
  unfolding check_end take_free open_extent grow
  take_more i lba len bs h = ground arith

  take_last :
      (i lba len : ℕ) (bs : List ℕ)
      → len + 1 ≡ sz
      → check_end sz (take_free i (running bs lba len)) ≡ at_end sz (mark bs i) lba
  unfolding check_end take_free open_extent grow
  take_last i lba len bs h = ground arith

  scan_step :
      (fuel i : ℕ) (s t : Scan)
      → i < n
      → n ≤ last
      → AreWords s.bs
      → allocated s.bs i ≡ false
      → s.end_flag ≡ false
      → check_end sz (take_free i s) ≡ t
      → scan sz n last (suc fuel) i s ≡ scan sz n last fuel (i + 1) t
  unfolding scan
  scan_step fuel i s t l m h f e q =
      let inside : ltb i last ≡ true = ground arith in rw (inside, visit_take i s l h f e, q, scan)

  -- From an open extent of `len` blocks that ends before block i.
  scan_run :
      (k fuel i lba len : ℕ) (bs : List ℕ)
      → len + suc k ≡ sz
      → i + suc k < n
      → n ≤ last
      → suc k < fuel
      → n ≤ 64 * length bs
      → AreWords bs
      → FreeRun bs i (suc k)
      → scan sz n last fuel i (running bs lba len)
        ≡ (at_end sz (mark_run bs i (suc k)) lba, some (i + suc k))
  unfolding mark_run
  scan_run k zero i lba len bs hs hn hl hf hc hw free = absurd (omega arith)
  scan_run k (suc zero) i lba len bs hs hn hl hf hc hw free = absurd (omega arith)
  scan_run zero (suc (suc fuel)) i lba len bs hs hn hl hf hc hw free =
      scan_step (suc fuel) i (running bs lba len) (at_end sz (mark bs i) lba) (omega arith) hl hw
        (free i (omega arith) (omega arith)) refl (take_last i lba len bs (omega arith))
      ∙ (scan_stop fuel (i + 1) (at_end sz (mark bs i) lba) (omega arith) (omega arith)
            (mark-AreWords bs i hw)
            (FreeRun-mark bs i 0 (omega arith) free (i + 1) (omega arith) (omega arith)) refl
          ∙ ap (λ j. (at_end sz (mark bs i) lba, some j)) (omega arith))
  scan_run (suc k) (suc (suc fuel)) i lba len bs hs hn hl hf hc hw free =
      scan_step (suc fuel) i (running bs lba len) (running (mark bs i) lba (len + 1)) (omega arith)
        hl hw (free i (omega arith) (omega arith)) refl (take_more i lba len bs (omega arith))
      ∙ (scan_run k (suc fuel) (i + 1) lba (len + 1) (mark bs i) (omega arith) (omega arith) hl
            (omega arith) (omega (arith, length-mark bs i)) (mark-AreWords bs i hw)
            (FreeRun-mark bs i (suc k) (omega arith) free)
          ∙ ap (λ j. (at_end sz (mark_run bs i (suc (suc k))) lba, some j)) (omega arith))

-- The first round opens the extent that it grows.
take_first :
    (sz : ℕ) (a : Allocator)
    → check_end sz (take_free a.hint (start a))
      ≡ check_end sz (take_free a.hint (running a.bs a.hint 0))
unfolding check_end take_free open_extent grow
take_first sz a = refl

scan_first :
    (sz n last fuel : ℕ) (a : Allocator)
    → a.hint < n
    → n ≤ last
    → AreWords a.bs
    → allocated a.bs a.hint ≡ false
    → scan sz n last (suc fuel) a.hint (start a)
      ≡ scan sz n last (suc fuel) a.hint (running a.bs a.hint 0)
scan_first sz n last fuel a l m h f =
    scan_step sz n last fuel a.hint (start a) _ l m h f refl (take_first sz a)
    ∙ sym (scan_step sz n last fuel a.hint (running a.bs a.hint 0) _ l m h f refl refl)

scan-start :
    (a : Allocator) (k fuel : ℕ)
    → IsValid a
    → AreWords a.bs
    → a.hint + suc k < a.nr_total
    → suc k < fuel
    → FreeRun a.bs a.hint (suc k)
    → scan (suc k) a.nr_total (a.nr_total + a.hint) fuel a.hint (start a)
      ≡ (at_end (suc k) (mark_run a.bs a.hint (suc k)) a.hint, some (a.hint + suc k))
scan-start a k zero v words room more free = absurd (omega arith)
scan-start a k (suc fuel) v words room more free =
    scan_first (suc k) a.nr_total (a.nr_total + a.hint) fuel a (omega arith) (omega arith) words
      (free a.hint (omega arith) (omega arith))
    ∙ scan_run (suc k) a.nr_total (a.nr_total + a.hint) k (suc fuel) a.hint a.hint 0 a.bs
        (omega arith) room (omega arith) more v.fits words free

-- Where the hint stands at more than `sz` free blocks before the end of the device, the request is
-- met by the one extent at the hint: those blocks are marked, the hint moves behind them, and the
-- free count falls by `sz`.
pub alloc_space_run :
    (a : Allocator) (k : ℕ)
    → IsValid a
    → AreWords a.bs
    → a.hint + suc k < a.nr_total
    → FreeRun a.bs a.hint (suc k)
    → suc k ≤ a.nr_free
    → alloc_space a (suc k) ≡ record {
      rc = ok;
      allocator = record a {
        bs = mark_run a.bs a.hint (suc k);
        hint = a.hint + suc k;
        nr_free = a.nr_free - suc k;
      };
      ex = record { lba = a.hint; len = suc k } ∷ [];
    }
unfolding alloc_space finish
alloc_space_run a k v words room free enough =
    let go_on : ltb a.nr_free (suc k) ≡ false = ground arith in
    let searched = scan-start a k a.nr_total v words room (omega arith) free in
    rw (go_on, searched) refl
