-- ===== src/BlockDevice/Stripe.antt =====
-- Where the blocks of a disk are: block after block in object after object.
use zcell.Base.{ℕ, ◌+◌, ◌*◌, ◌%◌, ◌^◌, ◌<◌, ◌≤◌, ◌≡◌, arith}
use zcell.BlockDevice.{ZcellDisk, create_zcell_disk, get_oid_start, BdevIo, place_of}

-- A request that SPDK gives to a disk: it has a block, does not cross the boundary that the disk
-- names, and lies within the disk.
pub record IsSplit (disk : ZcellDisk) (io : BdevIo) : Type 0 where
  pub some_block : 0 < io.num_blocks
  pub one_stripe : io.offset_blocks % 1024 + io.num_blocks ≤ 1024
  pub within : io.offset_blocks + io.num_blocks ≤ disk.blockcnt

-- The request for one block.
abbrev pub one_block : BdevIo → ℕ → BdevIo
one_block io b = record io { offset_blocks = b; num_blocks = 1 }

-- A request that SPDK has split is for whole blocks of one object, and stays within its 4 MiB; the object
-- is among as many as `create_zcell_disk` counts for the disk; and each block of it is where a request
-- for that block alone is. Two blocks of the disk have different places.
pub place_of-blocks :
    (oid_max size_gib : ℕ) (io : BdevIo)
    → size_gib < 2 ^ 32
    → IsSplit (create_zcell_disk oid_max size_gib).0 io
    → let disk = (create_zcell_disk oid_max size_gib).0 in
      let p = place_of disk io in
      (p.obj_len ≡ 4096 * io.num_blocks)
      × (p.obj_offset + p.obj_len ≤ 4 * 2 ^ 20)
      × (p.obj_id < size_gib * 2 ^ 8)
      × ((k : ℕ)
          → k < io.num_blocks
          → let one = place_of disk (one_block io (io.offset_blocks + k)) in
            (one.obj_id ≡ p.obj_id)
            × (one.obj_offset ≡ p.obj_offset + 4096 * k)
            × (one.obj_len ≡ 4096))
      × ((a b : ℕ)
          → a < disk.blockcnt
          → b < disk.blockcnt
          → (place_of disk (one_block io a)).obj_id ≡ (place_of disk (one_block io b)).obj_id
          → (place_of disk (one_block io a)).obj_offset
            ≡ (place_of disk (one_block io b)).obj_offset
          → a ≡ b)
unfolding create_zcell_disk get_oid_start place_of
place_of-blocks oid_max size_gib io fits s = (
  omega (arith, s.one_stripe),
  omega (arith, s.one_stripe, s.within, fits),
  omega (arith, s.some_block, s.within, fits),
  λ k below. (
    omega (arith, s.one_stripe, s.within, fits, below),
    omega (arith, s.one_stripe, s.within, fits, below),
    omega arith,
  ),
  λ a b in_a in_b same_id same_offset. omega (arith, in_a, in_b, fits, same_id, same_offset),
)
