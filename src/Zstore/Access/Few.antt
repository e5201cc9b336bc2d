-- ===== src/Zstore/Access/Few.antt =====
-- How many bitmap entries a write logs.
use zcell.Base.{
  ℕ, zero, suc, ◌+◌, ◌*◌, ◌/◌, ◌≤◌, ◌≡◌, refl, List, [], ◌∷◌, ◌++◌, length, length-append, ap, All,
  if◌then◌else◌, Bool, Bool-cases, inl, inr, ◌==◌, arith, map, not, ◌&&◌,
}
use zcell.Memory.{Mem}
use zcell.Allocator.{Extent, total_len, alloc_space, Allocator}
use zcell.Allocator.Positive.{alloc_space-HasBlocks, length-total_len}
use zcell.Zstore.Extents.{hole, known, bitmap_ids_from, lba_to_bitmap_id, lba_merge_to}
use zcell.Zstore.Extents.Merging.{blocks, run, mapped, IsUnit, lba_merge_to-blocks}
use zcell.Zstore.Objects.{Onode}
use zcell.Zstore.Access.{DataStore, read_index, data_index_block, lba_range_get}

length-bitmap_ids_from :
    (bid : List ℕ) (es : List Extent) → length (bitmap_ids_from bid es) ≤ length bid + length es
unfolding bitmap_ids_from
length-bitmap_ids_from bid [] = omega arith
length-bitmap_ids_from bid (e ∷ es) = elim (Bool-cases (known bid (e.lba / 512))) [
  | inl k ↦ rw k (omega (arith, length-bitmap_ids_from bid es))
  | inr k ↦ rw k (
      omega (
        arith,
        length-bitmap_ids_from (bid ++ (e.lba / 512) ∷ []) es,
        length-append bid ((e.lba / 512) ∷ []),
      ))
]

length-run : (lba n : ℕ) → length (run lba n) ≡ n
unfolding run
length-run lba zero = refl
length-run lba (suc n) = omega (arith, length-run (lba + 1) n)

length-blocks : (es : List Extent) → All IsUnit es → length es ≤ length (blocks es)
unfolding blocks
length-blocks [] h = omega arith
length-blocks (e ∷ es) h = omega (
  arith,
  h.0.some_block,
  length-blocks es h.1,
  length-append (run e.lba e.len) (blocks es),
  length-run e.lba e.len,
)

length-mapped : (bi : List ℕ) → length (mapped bi) ≤ length bi
unfolding mapped
length-mapped [] = omega arith
length-mapped (b ∷ bi) = elim (Bool-cases (b == hole)) [
  | inl e ↦ rw e (omega (arith, length-mapped bi))
  | inr e ↦ rw e (omega (arith, length-mapped bi))
]

length-read_index : (mem : Mem) (addr n : ℕ) → length (read_index mem addr n) ≡ n
unfolding read_index
length-read_index mem addr zero = refl
length-read_index mem addr (suc n) = omega (arith, length-read_index mem (addr + 4) n)

length-map : (f : ℕ → ℕ) (l : List ℕ) → length (map f l) ≡ length l
length-map f [] = refl
length-map f (x ∷ l) = omega (arith, length-map f l)

-- A range of `blen` entries has no more extents.
length-lba_range_get :
    (zs : DataStore) (w : Bool) (oe : Onode) (bofst blen : ℕ)
    → length (lba_range_get zs w oe bofst blen).0 ≤ blen
unfolding lba_range_get
length-lba_range_get zs w oe bofst blen =
    let bi = read_index zs.store.pmem.mem (data_index_block zs.store oe + bofst * 4) blen in
    let f : ℕ → ℕ = λ b. if (b == hole) && not w then 0 else b in
    let (same, counted, units) = lba_merge_to-blocks (map f bi) in
    omega (
      arith,
      length-blocks (lba_merge_to (map f bi)).0 units,
      ap length same,
      length-mapped (map f bi),
      length-map f bi,
      length-read_index zs.store.pmem.mem (data_index_block zs.store oe + bofst * 4) blen,
    )

-- The entries of a range of `blen` blocks and of the extents granted for as many.
pub few_entries :
    (zs : DataStore) (w : Bool) (oe : Onode) (bofst blen : ℕ) (a : Allocator)
    → total_len (alloc_space a blen).ex ≡ blen
    → length (
        lba_to_bitmap_id (lba_range_get zs w oe bofst blen).0
        ++ lba_to_bitmap_id (alloc_space a blen).ex)
      ≤ blen + blen
unfolding lba_to_bitmap_id
few_entries zs w oe bofst blen a total =
    let e = (lba_range_get zs w oe bofst blen).0 in
    let enew = (alloc_space a blen).ex in
    omega (
      arith,
      total,
      length-append (lba_to_bitmap_id e) (lba_to_bitmap_id enew),
      length-bitmap_ids_from [] e,
      length-bitmap_ids_from [] enew,
      length-lba_range_get zs w oe bofst blen,
      length-total_len enew (alloc_space-HasBlocks a blen),
    )
