-- ===== src/Allocator/Positive.antt =====
-- An allocation writes no extent without blocks.
use mathlib.Core.List.{reverse-cons}
use zcell.Base.{
  ℕ, Bool, if◌then◌else◌, zero, suc, ◌+◌, ◌≤◌, ◌<◌, true, false, List, [], ◌∷◌, Option, none, some,
  length, ◌%◌, reverse, All, All-append, Bool-cases, inl, inr, ltb, ◌==◌, subst, sym, arith,
}
use zcell.Allocator.{
  Extent, Allocator, Scan, Turn, found, next, grow, open_extent, take_free, close_extent, check_end,
  visit, scan, start, finish, alloc_space, total_len, allocated, word,
}
use zcell.Base.Word.{complement}

abbrev pub HasBlocks : Extent → Type 0
HasBlocks e = 0 < e.len

pub length-total_len : (es : List Extent) → All HasBlocks es → length es ≤ total_len es
unfolding total_len
length-total_len [] h = omega arith
length-total_len (e ∷ es) h = omega (arith, h.0, length-total_len es h.1)

reverse-All : (es : List Extent) → All HasBlocks es → All HasBlocks (reverse es)
reverse-All [] h = tt
reverse-All (e ∷ es) h =
    subst (All HasBlocks) (sym (reverse-cons e es))
      (All-append HasBlocks (reverse es) (e ∷ []) (reverse-All es h.1) (h.0, tt))

grow-All : (es : List Extent) → All HasBlocks es → All HasBlocks (grow es)
unfolding grow
grow-All [] h = tt
grow-All (e ∷ es) h = (omega arith, h.1)

take_free-All : (i : ℕ) (s : Scan) → All HasBlocks s.ex → All HasBlocks (take_free i s).ex
unfolding take_free open_extent grow
take_free-All i s h = elim (Bool-cases s.in_found_ctx) [
  | inl e ↦ rw e (grow-All s.ex h)
  | inr e ↦ rw e (omega arith, h)
]

check_end-All : (sz : ℕ) (s : Scan) → All HasBlocks s.ex → All HasBlocks (check_end sz s).ex
unfolding check_end
check_end-All sz s h = elim (Bool-cases (s.rsv_len == sz)) [ inl e ↦ rw e h | inr e ↦ rw e h ]

-- The extents at the end of a round.
abbrev Turned : Scan → Turn → Type 0
Turned s (found i) = All HasBlocks s.ex
Turned s (next it s') = All HasBlocks s'.ex

round-All :
    (sz i : ℕ) (s : Scan)
    → All HasBlocks s.ex
    → All HasBlocks (check_end sz (if allocated s.bs i then close_extent s else take_free i s)).ex
unfolding close_extent
round-All sz i s h = elim (Bool-cases (allocated s.bs i)) [
  | inl e ↦ rw e (check_end-All sz (close_extent s) h)
  | inr e ↦ rw e (check_end-All sz (take_free i s) (take_free-All i s h))
]

visit-All : (sz n it : ℕ) (s : Scan) → All HasBlocks s.ex → Turned s (visit sz n it s)
unfolding visit
visit-All sz n it s h = elim (Bool-cases (complement (word s.bs (it % n)) == 0)) [
  | inl full ↦ rw full h
  | inr some_free ↦ rw some_free (elim (Bool-cases s.end_flag) [
    | inl e ↦
        simp e (elim (Bool-cases (allocated s.bs (it % n))) [ inl a ↦ rw a h | inr a ↦ rw a h ])
    | inr e ↦ simp e (round-All sz (it % n) s h)
  ])
]

-- The extents where the loop ends.
abbrev Ends : Scan × Option ℕ → Type 0
Ends r = All HasBlocks r.0.ex

scan-All :
    (sz n last fuel it : ℕ) (s : Scan)
    → All HasBlocks s.ex
    → All HasBlocks (scan sz n last fuel it s).0.ex
unfolding scan
scan-All sz n last zero it s h = h
scan-All sz n last (suc fuel) it s h =
    after (ltb it last) (visit sz n it s) (visit-All sz n it s h)
      (λ it' s' h'. scan-All sz n last fuel it' s' h')
  where
    after :
        (b : Bool) (t : Turn)
        → Turned s t
        → ((it' : ℕ) (s' : Scan)
            → All HasBlocks s'.ex
            → All HasBlocks (scan sz n last fuel it' s').0.ex)
        → Ends (elim b [
          | false ↦ (s, none)
          | true ↦ elim t [ found i ↦ (s, some i) | next it' s' ↦ scan sz n last fuel it' s' ]
        ])
    after false t v rest = h
    after true (found i) v rest = h
    after true (next it' s') v rest = rest it' s' v

finish-All :
    (a : Allocator) (sz : ℕ) (r : Scan × Option ℕ)
    → All HasBlocks r.0.ex
    → All HasBlocks (finish a sz r).ex
unfolding finish
finish-All a sz (s, some i) h = reverse-All s.ex h
finish-All a sz (s, none) h = reverse-All s.ex h

pub alloc_space-HasBlocks : (a : Allocator) (sz : ℕ) → All HasBlocks (alloc_space a sz).ex
unfolding alloc_space
alloc_space-HasBlocks a sz = elim (Bool-cases (ltb a.nr_free sz)) [
  | inl e ↦ simp e tt
  | inr e ↦ simp e (
      finish-All a sz (scan sz a.nr_total (a.nr_total + a.hint) a.nr_total a.hint (start a))
        (scan-All sz a.nr_total (a.nr_total + a.hint) a.nr_total a.hint (start a) tt))
]
