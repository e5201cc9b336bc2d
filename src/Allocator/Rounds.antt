-- ===== src/Allocator/Rounds.antt =====
-- The invariant of the loop of `stupid_alloc_space`, for a request of `sz` blocks that began with
-- the words `bs₀`.
use zcell.Base.{
  inl, inr, ℕ, zero, suc, ◌+◌, ◌*◌, ◌%◌, ◌≤◌, ◌<◌, ◌≡◌, ◌≢◌, refl, Bool, true, false, List, [], ◌∷◌,
  Option, none, some, length, arith, ◌==◌, if◌then◌else◌, Bool-cases, ltb,
}
use zcell.Base.Word.{complement}
use zcell.Allocator.{
  open_extent, Extent, Scan, Turn, found, next, word, allocated, grow, take_free, close_extent,
  check_end, visit, scan, total_len,
}
use zcell.Allocator.Bits.{length-mark, allocated-mark}
use zcell.Allocator.Count.{count_free, count_free-mark}

total_len-grow : (es : List Extent) → es ≢ [] → total_len (grow es) ≡ total_len es + 1
unfolding total_len grow
total_len-grow [] h = absurd (h refl)
total_len-grow (e ∷ es) h = omega arith

cons-ne-nil : (e : Extent) (es : List Extent) → (e ∷ es) ≢ []
cons-ne-nil e es h = cc

grow-ne-nil : (es : List Extent) → es ≢ [] → grow es ≢ []
unfolding grow
grow-ne-nil [] h = h
grow-ne-nil (e ∷ es) h = cons-ne-nil _ es

open_extent-ne-nil : (i : ℕ) (s : Scan) → (s.in_found_ctx ≡ true → s.ex ≢ []) → open_extent i s ≢ []
unfolding open_extent
open_extent-ne-nil i s h = elim (Bool-cases s.in_found_ctx) [
  | inl e ↦ rw e (h e)
  | inr e ↦ rw e (cons-ne-nil _ s.ex)
]

total_len-open_extent : (i : ℕ) (s : Scan) → total_len (open_extent i s) ≡ total_len s.ex
unfolding open_extent total_len
total_len-open_extent i s = ground arith

module _ (sz n : ℕ) (bs₀ : List ℕ) where
  pub record Running (s : Scan) : Type 0 where
    pub size : length s.bs ≡ length bs₀
    pub kept : (i : ℕ) → allocated bs₀ i ≡ true → allocated s.bs i ≡ true
    pub counted : count_free s.bs n + s.rsv_len ≡ count_free bs₀ n
    pub total : total_len s.ex ≡ s.rsv_len
    pub opened : s.in_found_ctx ≡ true → s.ex ≢ []
    pub ended : s.end_flag ≡ true → s.rsv_len ≡ sz

  take_free-Running :
      (i : ℕ) (s : Scan)
      → n ≤ 64 * length bs₀
      → i < n
      → allocated s.bs i ≡ false
      → s.end_flag ≡ false
      → Running s
      → Running (take_free i s)
  unfolding take_free
  take_free-Running i s fits l free open_end r = record {
    size = ground (arith, length-mark s.bs i);
    kept = λ j h. ground (arith, r.kept j h, allocated-mark s.bs i j);
    counted = ground (arith, count_free-mark s.bs i n);
    total = ground (
      arith,
      total_len-grow (open_extent i s) (open_extent-ne-nil i s r.opened),
      total_len-open_extent i s,
    );
    opened = λ _. grow-ne-nil _ (open_extent-ne-nil i s r.opened);
    ended = λ e. cc;
  }

  close_extent-Running : (s : Scan) → Running s → Running (close_extent s)
  unfolding close_extent
  close_extent-Running s r = record {
    size = r.size;
    kept = r.kept;
    counted = r.counted;
    total = r.total;
    opened = λ e. cc;
    ended = r.ended;
  }

  check_end-Running : (s : Scan) → s.end_flag ≡ false → Running s → Running (check_end sz s)
  unfolding check_end
  check_end-Running s open_end r = elim (Bool-cases (s.rsv_len == sz)) [
    | inl e ↦ rw e (record {
      size = r.size;
      kept = r.kept;
      counted = r.counted;
      total = r.total;
      opened = r.opened;
      ended = λ _. ground arith;
    })
    | inr e ↦ rw e r
  ]

  -- What one round leaves behind.
  abbrev pub Visited : ℕ → Scan → Turn → Type 0
  Visited it s (found i) = (i < n) × (allocated s.bs i ≡ false) × (s.end_flag ≡ true)
  Visited it s (next it' s') = Running s' × (it < it')

  round-Running :
      (i : ℕ) (s : Scan)
      → n ≤ 64 * length bs₀
      → i < n
      → s.end_flag ≡ false
      → Running s
      → Running (check_end sz (if allocated s.bs i then close_extent s else take_free i s))
  unfolding close_extent take_free
  round-Running i s fits l open_end r = elim (Bool-cases (allocated s.bs i)) [
    | inl e ↦ rw e (check_end-Running (close_extent s) open_end (close_extent-Running s r))
    | inr e ↦
        rw e
          (check_end-Running (take_free i s) open_end (take_free-Running i s fits l e open_end r))
  ]

  visit-Visited :
      (it : ℕ) (s : Scan) → n ≤ 64 * length bs₀ → 0 < n → Running s → Visited it s (visit sz n it s)
  unfolding visit
  visit-Visited it s fits pos r = elim (Bool-cases (complement (word s.bs (it % n)) == 0)) [
    | inl full ↦ rw full (r, omega arith)
    | inr some_free ↦ rw some_free (elim (Bool-cases s.end_flag) [
      | inl e ↦ simp e (elim (Bool-cases (allocated s.bs (it % n))) [
        | inl a ↦ rw a (r, omega arith)
        | inr a ↦ rw a (omega arith, a, e)
      ])
      | inr e ↦ simp e (round-Running (it % n) s fits (omega arith) e r, omega arith)
    ])
  ]

  -- What the loop leaves behind, with the block at which it returned or without one.
  abbrev pub Scanned : Scan × Option ℕ → Type 0
  Scanned (s, some i) = Running s × (i < n) × (allocated s.bs i ≡ false) × (s.rsv_len ≡ sz)
  Scanned (s, none) = Running s

  pub scan-Scanned :
      (last fuel it : ℕ) (s : Scan)
      → n ≤ 64 * length bs₀
      → 0 < n
      → Running s
      → Scanned (scan sz n last fuel it s)
  unfolding scan
  scan-Scanned last zero it s fits pos r = r
  scan-Scanned last (suc fuel) it s fits pos r =
      after (ltb it last) (visit sz n it s) (visit-Visited it s fits pos r)
        (λ it' s' r'. scan-Scanned last fuel it' s' fits pos r')
    where
      after :
          (b : Bool) (t : Turn)
          → Visited it s t
          → ((it' : ℕ) (s' : Scan) → Running s' → Scanned (scan sz n last fuel it' s'))
          → Scanned (elim b [
            | false ↦ (s, none)
            | true ↦ elim t [ found i ↦ (s, some i) | next it' s' ↦ scan sz n last fuel it' s' ]
          ])
      after false t v rest = r
      after true (found i) v rest = (r, v.0, v.1, r.ended v.2)
      after true (next it' s') v rest = rest it' s' v.0
