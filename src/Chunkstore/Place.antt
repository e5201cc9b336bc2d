-- ===== src/Chunkstore/Place.antt =====
-- Where the objects of the chunk store lie.
use zcell.Base.{ℕ, ◌+◌, ◌*◌, ◌/◌, ◌%◌, ◌^◌, ◌≤◌, ◌<◌, ◌≡◌, ◌≢◌, ◌⊎◌, ap, arith}
use zcell.Chunkstore.{hardcode_stat, obj2blk}

-- An access within an object of 4 MiB.
abbrev pub Within : ℕ → ℕ → Type 0
Within ofst len = (ofst < 2 ^ 22) × (ofst + len ≤ 2 ^ 22)

-- The blocks of an access, where nothing wraps.
pub obj2blk-small :
    (oid ofst len : ℕ)
    → oid < 2 ^ 22
    → Within ofst len
    → ((obj2blk oid ofst len).0 ≡ oid * 1024 + ofst / 2 ^ 12)
      × (oid * 1024 ≤ (obj2blk oid ofst len).0)
      × ((obj2blk oid ofst len).0 + (obj2blk oid ofst len).1 ≤ (oid + 1) * 1024)
unfolding obj2blk
obj2blk-small oid ofst len few within = (omega arith, omega arith, omega arith)

-- Accesses within two different objects, of the first 4194304 objects, touch no block in common; and
-- the first, of an object below `max_oid`, is inside the device, of fewer than 2 ^ 51 blocks.
pub obj2blk_apart :
    (oid ofst len oid' ofst' len' num_blocks : ℕ)
    → oid < 2 ^ 22
    → oid' < 2 ^ 22
    → oid ≢ oid'
    → Within ofst len
    → Within ofst' len'
    → num_blocks < 2 ^ 51
    → oid < (hardcode_stat num_blocks).max_oid
    → let (b, l) = obj2blk oid ofst len in
      let (b', l') = obj2blk oid' ofst' len' in
      ((b + l ≤ b') ⊎ (b' + l' ≤ b)) × (b + l ≤ num_blocks)
unfolding hardcode_stat
obj2blk_apart oid ofst len oid' ofst' len' num_blocks few few' other within within' fits below =
    let (start, low, high) = obj2blk-small oid ofst len few within in
    let (start', low', high') = obj2blk-small oid' ofst' len' few' within' in
    (grind (arith, low, high, low', high', other), omega (arith, high, below, fits))

-- An object and the one 4194304 behind it have the same blocks: the product wraps at 32 bits.
pub obj2blk_wraps : (oid ofst len : ℕ) → obj2blk (oid + 2 ^ 22) ofst len ≡ obj2blk oid ofst len
unfolding obj2blk
obj2blk_wraps oid ofst len = ap (λ b. (b, len % 2 ^ 32 / 2 ^ 12)) (omega arith)
