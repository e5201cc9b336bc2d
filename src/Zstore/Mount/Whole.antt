-- ===== src/Zstore/Mount/Whole.antt =====
-- From a new file system to an object that a later mount finds.
use zcell.Base.{false, ◌+◌, ◌-◌, false}
use zcell.Allocator.{Allocator}
use zcell.Allocator.Run.{mark_run}
use zcell.Pmem
use zcell.Pmem.{Pmem}

-- The allocator after the first block is granted.
abbrev one_granted : Allocator → Allocator
one_granted a = record a { bs = mark_run a.bs a.hint 1; hint = a.hint + 1; nr_free = a.nr_free - 1 }
