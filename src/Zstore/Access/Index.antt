-- ===== src/Zstore/Access/Index.antt =====
-- Index entries as bytes, read back.
use zcell.Base.{
  ℕ, zero, suc, ◌+◌, ◌*◌, ◌<◌, ◌≡◌, refl, ap, ap₂, ◌∙◌, true, false, List, [], ◌∷◌, map, length,
  length-append, if◌then◌else◌, ◌==◌, ◌&&◌, All, arith,
}
use zcell.Memory.{Mem, Holds, Holds-split, read-Holds}
use zcell.Message.Wire.{le, of_le, of_le-le}
use zcell.Allocator.{Extent, total_len}
use zcell.Zstore.Extents.{hole}
use zcell.Zstore.Extents.Merging.{mapped}
use zcell.Zstore.Access.{read_index, index_run, index_of, index_bytes}

-- Entries of 32 bits are read as they were written.
pub read_index-Holds :
    (m : Mem) (o : ℕ) (ws : List ℕ)
    → All (λ w. w < hole) ws
    → Holds m o (index_bytes ws)
    → read_index m o (length ws) ≡ ws
unfolding read_index index_bytes le
read_index-Holds m o [] small h = refl
read_index-Holds m o (w ∷ ws) small h =
    let (here, behind) = Holds-split m o (le 4 w) (index_bytes ws) h in
    ap₂ (λ x xs. x ∷ xs)
      (ap of_le (read-Holds m o (le 4 w) here) ∙ of_le-le 4 w (omega (arith, small.0)))
      (read_index-Holds m (o + 4) ws small.1 behind)

-- Where there is no hole, none is replaced, and all are mapped.
pub no_hole :
    (ws : List ℕ)
    → All (λ w. w < hole) ws
    → (map (λ b. if (b == hole) && true then 0 else b) ws ≡ ws) × (mapped ws ≡ ws)
unfolding mapped
no_hole [] small = (refl, refl)
no_hole (w ∷ ws) small =
    let (same, all) = no_hole ws small.1 in
    let written : (w == hole) ≡ false = ground (arith, small.0) in
    (rw written (ap (λ l. w ∷ l) same), rw (written, mapped) (ap (λ l. w ∷ l) all))

length-index_run : (lba k : ℕ) → length (index_run lba k) ≡ k
unfolding index_run
length-index_run lba zero = refl
length-index_run lba (suc k) = ap suc (length-index_run (lba + 1) k)

-- There are as many entries as blocks.
pub length-index_of : (es : List Extent) → length (index_of es) ≡ total_len es
unfolding index_of total_len
length-index_of [] = refl
length-index_of (e ∷ es) = omega (
  arith,
  length-append (index_run e.lba e.len) (index_of es),
  length-index_run e.lba e.len,
  length-index_of es,
)

pub length-index_bytes : (ws : List ℕ) → length (index_bytes ws) ≡ 4 * length ws
unfolding index_bytes le
length-index_bytes [] = refl
length-index_bytes (w ∷ ws) = omega (arith, length-index_bytes ws)
