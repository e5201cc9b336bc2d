-- ===== src/Zstore/Extents/Merging.antt =====
-- The extents that `object_lba_merge_to` gives stand for the mapped entries, in order.
use mathlib.Core.List.{reverse-cons, append_assoc, append-nil}
use zcell.Base.{
  ℕ, zero, suc, ◌+◌, ◌-◌, ◌/◌, ◌≤◌, ◌<◌, ◌≡◌, refl, ap, ◌∙◌, sym, true, false, List, [], ◌∷◌, ◌++◌,
  reverse, if◌then◌else◌, ◌==◌, length, length-append, All, arith, Bool-cases, inl, inr,
}
use zcell.Allocator.{Extent, grow}
use zcell.Zstore.Extents.{
  hole, Merge, joins, single, merge_step, merge_loop, merge_start, lba_merge_to,
}

-- The blocks of an extent, and of a list of extents.
unfoldable pub run : ℕ → ℕ → List ℕ
run lba zero = []
run lba (suc n) = lba ∷ run (lba + 1) n

unfoldable pub blocks : List Extent → List ℕ
blocks [] = []
blocks (e ∷ es) = run e.lba e.len ++ blocks es

-- The entries that are no holes.
unfoldable pub mapped : List ℕ → List ℕ
mapped [] = []
mapped (ba ∷ bi) = if ba == hole then mapped bi else ba ∷ mapped bi

-- The blocks of extents that stand newest first.
blocks_back : List Extent → List ℕ
blocks_back [] = []
blocks_back (e ∷ es) = blocks_back es ++ run e.lba e.len

run-append : (lba n : ℕ) → run lba (suc n) ≡ run lba n ++ (lba + n) ∷ []
unfolding run
run-append lba zero = ap (λ b. b ∷ []) (omega arith)
run-append lba (suc n) =
    ap (◌∷◌ lba) (run-append (lba + 1) n ∙ ap (λ b. run (lba + 1) n ++ b ∷ []) (omega arith))

blocks-append :
    (es : List Extent) (e : Extent) → blocks (es ++ e ∷ []) ≡ blocks es ++ run e.lba e.len
unfolding blocks
blocks-append [] e = append-nil (run e.lba e.len)
blocks-append (x ∷ es) e =
    ap (◌++◌ (run x.lba x.len)) (blocks-append es e)
    ∙ sym (append_assoc (run x.lba x.len) (blocks es) (run e.lba e.len))

blocks-reverse : (es : List Extent) → blocks (reverse es) ≡ blocks_back es
unfolding blocks blocks_back
blocks-reverse [] = refl
blocks-reverse (e ∷ es) =
    rw reverse-cons
      (blocks-append (reverse es) e ∙ ap (λ bs. bs ++ run e.lba e.len) (blocks-reverse es))

-- An extent is not empty and lies in one bitmap entry, so it has at most 512 blocks.
pub record IsUnit (e : Extent) : Type 0 where
  pub some_block : 0 < e.len
  pub bounded : e.len ≤ 512
  pub one_entry : (e.lba + e.len - 1) / 512 ≡ e.lba / 512

record Merged (seen : List ℕ) (m : Merge) : Type 0 where
  content : blocks_back m.ex ≡ mapped seen
  count : m.mb_len ≡ length (mapped seen)
  units : All IsUnit m.ex

mapped-append :
    (bi : List ℕ) (ba : ℕ)
    → mapped (bi ++ ba ∷ []) ≡ (if ba == hole then mapped bi else mapped bi ++ ba ∷ [])
unfolding mapped
mapped-append [] ba = ground arith
mapped-append (x ∷ bi) ba = ground (arith, mapped-append bi ba)

run-grown :
    (e : Extent) (ba : ℕ) → e.lba + e.len ≡ ba → run e.lba (e.len + 1) ≡ run e.lba e.len ++ ba ∷ []
run-grown e ba h =
    ap (run e.lba) {y = suc e.len} (omega arith)
    ∙ (run-append e.lba e.len ∙ ap (λ b. run e.lba e.len ++ b ∷ []) h)

grow-blocks :
    (es : List Extent) (ba : ℕ)
    → joins es ba ≡ true
    → All IsUnit es
    → (blocks_back (grow es) ≡ blocks_back es ++ ba ∷ []) × All IsUnit (grow es)
unfolding blocks_back grow joins
grow-blocks [] ba j u = cc
grow-blocks (e ∷ es) ba j u =
    let follows : e.lba + e.len ≡ ba = ground arith in
    let unit = u.0 in
    (
      ap (λ bs. blocks_back es ++ bs) (run-grown e ba follows)
          ∙ sym (append_assoc (blocks_back es) (run e.lba e.len) (ba ∷ [])),
      (record { some_block = omega arith; bounded = ground arith; one_entry = ground arith }, u.1),
    )

single-blocks :
    (es : List Extent) (ba : ℕ) → blocks_back (single ba ∷ es) ≡ blocks_back es ++ ba ∷ []
unfolding blocks_back run
single-blocks es ba = refl

single-IsUnit : (ba : ℕ) → IsUnit (single ba)
single-IsUnit ba = omega arith

-- What a mapped entry adds, whether it joins the newest extent or starts one.
extended : Merge → ℕ → List Extent
extended m ba =
    if m.in_found_ctx
    then (if joins m.ex ba then grow m.ex else single ba ∷ m.ex)
    else single ba ∷ m.ex

extended-blocks :
    (m : Merge) (ba : ℕ)
    → All IsUnit m.ex
    → (blocks_back (extended m ba) ≡ blocks_back m.ex ++ ba ∷ []) × All IsUnit (extended m ba)
unfolding extended
extended-blocks m ba u = elim (Bool-cases m.in_found_ctx) [
  | inr e ↦ rw e (single-blocks m.ex ba, (single-IsUnit ba, u))
  | inl e ↦ rw e (elim (Bool-cases (joins m.ex ba)) [
    | inl j ↦ rw j (grow-blocks m.ex ba j u)
    | inr j ↦ rw j (single-blocks m.ex ba, (single-IsUnit ba, u))
  ])
]

merge_step-hole :
    (m : Merge) (ba : ℕ) → (ba == hole) ≡ true → merge_step m ba ≡ record m { in_found_ctx = false }
unfolding merge_step
merge_step-hole m ba e = rw e

merge_step-mapped :
    (m : Merge) (ba : ℕ)
    → (ba == hole) ≡ false
    → merge_step m ba ≡ record { ex = extended m ba; in_found_ctx = true; mb_len = m.mb_len + 1 }
unfolding merge_step extended
merge_step-mapped m ba e = ground arith

step-Merged :
    (seen : List ℕ) (m : Merge) (ba : ℕ)
    → Merged seen m
    → Merged (seen ++ ba ∷ []) (merge_step m ba)
step-Merged seen m ba g = elim (Bool-cases (ba == hole)) [
  | inl e ↦ rw (merge_step-hole m ba e) (record {
    content = ground (arith, g.content, mapped-append seen ba);
    count = ground (arith, g.count, mapped-append seen ba);
    units = g.units;
  })
  | inr e ↦
      let grown = extended-blocks m ba g.units in
      rw (merge_step-mapped m ba e) (record {
        content = ground (arith, grown.0, g.content, mapped-append seen ba);
        count =
            ground (arith, g.count, mapped-append seen ba, length-append (mapped seen) (ba ∷ []));
        units = grown.1;
      })
]

loop-Merged :
    (seen : List ℕ) (m : Merge) (bi : List ℕ)
    → Merged seen m
    → Merged (seen ++ bi) (merge_loop m bi)
unfolding merge_loop
loop-Merged seen m [] g = rw append-nil g
loop-Merged seen m (ba ∷ bi) g =
    rw (← append_assoc seen (ba ∷ []) bi)
      (loop-Merged (seen ++ ba ∷ []) (merge_step m ba) bi (step-Merged seen m ba g))

All-append : (xs ys : List Extent) → All IsUnit xs → All IsUnit ys → All IsUnit (xs ++ ys)
All-append [] ys h k = k
All-append (x ∷ xs) ys h k = (h.0, All-append xs ys h.1 k)

All-reverse : (xs : List Extent) → All IsUnit xs → All IsUnit (reverse xs)
All-reverse [] h = tt
All-reverse (x ∷ xs) h =
    rw reverse-cons (All-append (reverse xs) (x ∷ []) (All-reverse xs h.1) (h.0, tt))

-- The blocks of the extents are the entries that are no holes, in their order; `mb_len` counts
-- them; and every extent has at least one block and lies in one bitmap entry, so that it has at most
-- 512 blocks.
pub lba_merge_to-blocks :
    (bi : List ℕ)
    → let (ex, mb_len) = lba_merge_to bi in
      (blocks ex ≡ mapped bi) × (mb_len ≡ length (mapped bi)) × All IsUnit ex
unfolding lba_merge_to blocks_back mapped
lba_merge_to-blocks bi =
    let done = loop-Merged [] merge_start bi start in
    (
      blocks-reverse (merge_loop merge_start bi).ex ∙ done.content,
      done.count,
      All-reverse (merge_loop merge_start bi).ex done.units,
    )
  where
    start : Merged [] merge_start
    start = record { content = refl; count = refl; units = tt }
