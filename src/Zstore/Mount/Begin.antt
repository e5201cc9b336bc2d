-- ===== src/Zstore/Mount/Begin.antt =====
-- The superblock in memory, and mounting from a memory that has one.
use zcell.Base.{
  ℕ, zero, suc, ◌+◌, ◌/◌, ◌%◌, ◌^◌, ◌<◌, ◌≡◌, refl, ap, ◌∙◌, sym, Bool, false, not, List, [], ◌∷◌,
  some, length, length-append, arith, ◌&&◌,
}
use zcell.Memory.{Mem, read, get64, Holds, Holds-at, Holds-split, read-Holds, length-read}
use zcell.Message.Wire.{le, of_le, of_le-le}
use zcell.Pmem.{open_pmem}
use zcell.Pmem.Recovery.{invalid-recovery}
use zcell.Zstore.Format.{Superblock, zstore_magic}
use zcell.Zstore.Mount.{
  struct_bytes, superblock_fields, superblock_bytes, field, superblock_at, load, mount,
}

pub length-le : (n v : ℕ) → length (le n v) ≡ n
unfolding le
length-le zero v = refl
length-le (suc n) v = ap suc (length-le n (v / 256))

pub field-Holds : (m : Mem) (o n v : ℕ) → v < 256 ^ n → Holds m o (le n v) → field m o n ≡ v
unfolding field
field-Holds m o n v small h =
    ap (λ k. of_le (read m o k)) (sym (length-le n v))
    ∙ ap of_le (read-Holds m o (le n v) h)
    ∙ of_le-le n v small

-- The fields of a structure, each read at its place.
abbrev FieldsAt : Mem → ℕ → List (ℕ × ℕ) → Type 0
FieldsAt m o [] = Unit {0}
FieldsAt m o (f ∷ fs) = (f.1 < 256 ^ f.0 → field m o f.0 ≡ f.1) × FieldsAt m (o + f.0) fs

struct_bytes-FieldsAt :
    (m : Mem) (o : ℕ) (fs : List (ℕ × ℕ)) → Holds m o (struct_bytes fs) → FieldsAt m o fs
unfolding struct_bytes
struct_bytes-FieldsAt m o [] h = tt
struct_bytes-FieldsAt m o ((n, v) ∷ fs) h =
    let parts = Holds-split m o (le n v) (struct_bytes fs) h in
    (
      λ small. field-Holds m o n v small parts.0,
      struct_bytes-FieldsAt m (o + n) fs
          (Holds-at m (struct_bytes fs) (omega (arith, length-le n v)) parts.1),
    )

abbrev sizes : List (ℕ × ℕ) → ℕ
sizes [] = 0
sizes (f ∷ fs) = f.0 + sizes fs

length-struct_bytes : (fs : List (ℕ × ℕ)) → length (struct_bytes fs) ≡ sizes fs
unfolding struct_bytes
length-struct_bytes [] = refl
length-struct_bytes ((n, v) ∷ fs) =
    omega (arith, length-append (le n v) (struct_bytes fs), length-le n v, length-struct_bytes fs)

pub length-superblock_bytes :
    (garbage : Mem) (zsb : Superblock) → length (superblock_bytes garbage zsb) ≡ 4096
unfolding superblock_bytes
length-superblock_bytes garbage zsb = omega (
  arith,
  length-append (struct_bytes (superblock_fields garbage zsb)) (read garbage 96 4000),
  length-struct_bytes (superblock_fields garbage zsb),
  length-read garbage 96 4000,
)

-- The fields have the width of their types.
pub record InRange (zsb : Superblock) : Type 0 where
  pub magic : zsb.magic < 256 ^ 8
  pub ssd_nr_pages : zsb.ssd_nr_pages < 256 ^ 4
  pub pm_nr_pages : zsb.pm_nr_pages < 256 ^ 4
  pub pm_ulog_ofst : zsb.pm_ulog_ofst < 256 ^ 8
  pub pm_ssd_bitmap_ofst : zsb.pm_ssd_bitmap_ofst < 256 ^ 8
  pub pm_dy_bitmap_ofst : zsb.pm_dy_bitmap_ofst < 256 ^ 8
  pub onodes_rsv : zsb.onodes_rsv < 256 ^ 8
  pub pm_otable_ofst : zsb.pm_otable_ofst < 256 ^ 8
  pub pm_dy_space_ofst : zsb.pm_dy_space_ofst < 256 ^ 8

-- The superblock is read back from its bytes.
pub superblock_at-superblock_bytes :
    (m garbage : Mem) (zsb : Superblock)
    → InRange zsb
    → Holds m 0 (superblock_bytes garbage zsb)
    → superblock_at m ≡ zsb
unfolding superblock_bytes superblock_at
superblock_at-superblock_bytes m garbage zsb r h =
    let start = Holds-split m 0 (struct_bytes (superblock_fields garbage zsb)) _ h in
    let fields = struct_bytes-FieldsAt m 0 (superblock_fields garbage zsb) start.0 in
    let (magic, (features, (ssd_shift, (pm_shift, (ssd, (ssd_size, (pm, (pm_size, offsets)))))))) =
      fields in
    let (ulog, (ssd_bitmap, (dy_bitmap, (rsv, (otable, (space, nothing)))))) = offsets in
    rw
      (
        magic r.magic,
        ssd r.ssd_nr_pages,
        pm r.pm_nr_pages,
        ulog r.pm_ulog_ofst,
        ssd_bitmap r.pm_ssd_bitmap_ofst,
        dy_bitmap r.pm_dy_bitmap_ofst,
        rsv r.onodes_rsv,
        otable r.pm_otable_ofst,
        space r.pm_dy_space_ofst,
      )
      refl

-- With the right magic, no valid log of the core, and a device that can do what the flags ask for,
-- mounting loads what lies in memory.
pub mount_lem :
    (m garbage : Mem) (zsb : Superblock) (cpu : ℕ) (trim can_unmap : Bool) (otable_addr : ℕ)
    → InRange zsb
    → Holds m 0 (superblock_bytes garbage zsb)
    → zsb.magic ≡ zstore_magic
    → get64 m (open_pmem m cpu).log_region_ofst % 2 ≡ 0
    → (trim && not can_unmap) ≡ false
    → mount m cpu trim can_unmap otable_addr ≡ some (load zsb trim otable_addr (open_pmem m cpu))
unfolding mount open_pmem
mount_lem m garbage zsb cpu trim can_unmap otable_addr r h magic log flags =
    rw
      (
        superblock_at-superblock_bytes m garbage zsb r h,
        magic,
        flags,
        invalid-recovery (open_pmem m cpu) log,
      )
      refl
