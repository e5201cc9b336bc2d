-- ===== src/Zstore/Extents/Ids.antt =====
-- The bitmap entries that `lba_to_bitmap_id` names, and one that it does not.
use zcell.Base.{
  ℕ, suc, ◌+◌, ◌/◌, ◌≤◌, ◌<◌, ◌≡◌, refl, ◌∙◌, Bool, true, false, List, [], ◌∷◌, ◌++◌, ◌==◌, ◌||◌,
  arith, Bool-cases, inl, inr,
}
use zcell.Allocator.{Extent, Allocator, allocated, alloc_space}
use zcell.Allocator.Laws.{IsValid}
use zcell.Allocator.Run.{AreWords, FreeRun, alloc_space_run}
use zcell.Allocator.Free.{allocated-mark_run}
use zcell.Zstore.Extents.{known, bitmap_ids_from, lba_to_bitmap_id}

-- No number stands twice.
abbrev pub Distinct : List ℕ → Type 0
Distinct [] = Unit {0}
Distinct (b ∷ bs) = (known bs b ≡ false) × Distinct bs

-- Some extent starts in the entry.
abbrev pub starts_in : List Extent → ℕ → Bool
starts_in [] id = false
starts_in (e ∷ es) id = (id == e.lba / 512) || starts_in es id

known-append : (bs : List ℕ) (b id : ℕ) → known (bs ++ b ∷ []) id ≡ (known bs id || (id == b))
unfolding known
known-append [] b id = ground arith
known-append (x ∷ bs) b id = ground (arith, known-append bs b id)

Distinct-append : (bs : List ℕ) (b : ℕ) → known bs b ≡ false → Distinct bs → Distinct (bs ++ b ∷ [])
unfolding known
Distinct-append [] b k d = (refl, tt)
Distinct-append (x ∷ bs) b k d =
    (ground (arith, known-append bs b x), Distinct-append bs b (ground arith) d.1)

bitmap_ids_from-known :
    (bid : List ℕ) (es : List Extent) (id : ℕ)
    → known (bitmap_ids_from bid es) id ≡ (known bid id || starts_in es id)
unfolding bitmap_ids_from
bitmap_ids_from-known bid [] id = ground arith
bitmap_ids_from-known bid (e ∷ es) id = elim (Bool-cases (known bid (e.lba / 512))) [
  | inl k ↦ rw k (ground (arith, bitmap_ids_from-known bid es id, again))
  | inr k ↦ rw k (
      ground (
        arith,
        bitmap_ids_from-known (bid ++ (e.lba / 512) ∷ []) es id,
        known-append bid (e.lba / 512) id,
      ))
]
  where
    again : id ≡ e.lba / 512 → known bid id ≡ known bid (e.lba / 512)
    again h = rw h

bitmap_ids_from-Distinct :
    (bid : List ℕ) (es : List Extent) → Distinct bid → Distinct (bitmap_ids_from bid es)
unfolding bitmap_ids_from
bitmap_ids_from-Distinct bid [] d = d
bitmap_ids_from-Distinct bid (e ∷ es) d = elim (Bool-cases (known bid (e.lba / 512))) [
  | inl k ↦ rw k (bitmap_ids_from-Distinct bid es d)
  | inr k ↦ rw k (
      bitmap_ids_from-Distinct (bid ++ (e.lba / 512) ∷ []) es
        (Distinct-append bid (e.lba / 512) k d))
]

-- The list names each bitmap entry in which an extent starts, no other entry, and none twice.
pub lba_to_bitmap_id_entries :
    (es : List Extent)
    → Distinct (lba_to_bitmap_id es) × ((id : ℕ) → known (lba_to_bitmap_id es) id ≡ starts_in es id)
unfolding lba_to_bitmap_id known
lba_to_bitmap_id_entries es =
    (bitmap_ids_from-Distinct [] es tt, λ id. bitmap_ids_from-known [] es id)

-- A run of blocks that an allocation takes across the end of a bitmap entry has its last block
-- marked, and the entry of that block is not named: its new bits do not reach the transaction.
pub lba_to_bitmap_id_crossing :
    (a : Allocator) (k : ℕ)
    → IsValid a
    → AreWords a.bs
    → a.hint + suc k < a.nr_total
    → FreeRun a.bs a.hint (suc k)
    → suc k ≤ a.nr_free
    → a.hint / 512 < (a.hint + k) / 512
    → let r = alloc_space a (suc k) in
      (allocated a.bs (a.hint + k) ≡ false)
      × (allocated r.allocator.bs (a.hint + k) ≡ true)
      × (known (lba_to_bitmap_id r.ex) ((a.hint + k) / 512) ≡ false)
lba_to_bitmap_id_crossing a k v words room free enough crossing =
    rw (alloc_space_run a k v words room free enough) (
      free (a.hint + k) (omega arith) (omega arith),
      ground (arith, allocated-mark_run a.bs a.hint (suc k) (a.hint + k), v.fits),
      (lba_to_bitmap_id_entries _).1 _ ∙ ground arith,
    )
