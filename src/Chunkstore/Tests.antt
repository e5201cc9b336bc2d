-- ===== src/Chunkstore/Tests.antt =====
-- Accesses to objects 3 and 4.
use zcell.Base.{◌+◌, ◌≤◌, ◌⊎◌, arith}
use zcell.Chunkstore.{hardcode_stat, obj2blk}
use zcell.Chunkstore.Place.{obj2blk_apart}

obj2blk_apart_example :
    (((obj2blk 3 8192 4096).0 + (obj2blk 3 8192 4096).1 ≤ (obj2blk 4 0 4194304).0)
      ⊎ ((obj2blk 4 0 4194304).0 + (obj2blk 4 0 4194304).1 ≤ (obj2blk 3 8192 4096).0))
    × ((obj2blk 3 8192 4096).0 + (obj2blk 3 8192 4096).1 ≤ 5120)
unfolding hardcode_stat
obj2blk_apart_example =
    obj2blk_apart 3 8192 4096 4 0 4194304 5120 (omega arith) (omega arith) (omega arith)
      (omega arith, omega arith) (omega arith, omega arith) (omega arith) (omega arith)
