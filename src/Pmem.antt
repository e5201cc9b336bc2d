-- ===== src/Pmem.antt =====
-- pm.c: transactions on persistent memory. A transaction collects log entries in a buffer; `apply`
-- writes the buffer to the log region, then a valid header, then each entry's bytes to their place,
-- and clears the header; `recovery` replays a log whose header is valid.
-- A failed `assert`, or a copy past the end of a local buffer, is `none`. `pmem_map_file`,
-- `pmem_memcpy_persist`, `pmem_memcpy_nodrain` and `pmem_drain` are libpmem's: the first gives the
-- memory, and what the others promise at a power failure is `Pmem.Recovery.Crash`.
pub mod Log
pub mod Apply
pub mod Recovery
mod Tests
use mathlib.Core.Option
use zcell.Base.{
  ℕ, zero, suc, ◌+◌, ◌-◌, ◌*◌, ◌/◌, ◌%◌, ◌^◌, Bool, true, false, List, [], ◌∷◌, ◌++◌, Option, none,
  some, length, replicate, ltb, ◌==◌, if◌then◌else◌, ◌&&◌, leb,
}
use zcell.Memory.{Mem, read, write, le64, get64}

-- `PM_LOG_REGION_SIZE`, and the sizes of `union pm_log_header_t`, `struct pm_log_entry_t` and
-- `pm_log_pload`.
abbrev pub log_region_size : ℕ
log_region_size = 8192

abbrev pub header_size : ℕ
header_size = 64

abbrev pub entry_size : ℕ
entry_size = 24

-- What the header leaves of `union pmem_transaction_t`.
abbrev pub buffer_size : ℕ
buffer_size = log_region_size - header_size

abbrev pub pload_size : ℕ
pload_size = 4096

-- `struct pmem_t`, whose `map_base` is the memory itself.
pub record Pmem : Type 0 where
  pub mem : Mem
  pub log_region_ofst : ℕ

-- `struct pm_log_entry_t`. `paddr` is the address of the copy in main memory, or 0.
pub record Entry : Type 0 where
  pub paddr : ℕ
  pub ofst : ℕ
  pub value : List ℕ

-- `union pmem_transaction_t`: the log buffer `le`, with whatever the allocation left in it, and the
-- valid bit and the two counts of its header. The buffer has the 8128 bytes that the header leaves of
-- the allocation; `in_bounds` says that nothing was written behind them.
pub record Transaction : Type 0 where
  pub le : Mem
  pub valid : ℕ
  pub nr_logs : ℕ
  pub align_length : ℕ
  pub in_bounds : Bool

-- `pmem_open` on core `cpu`.
unfoldable pub open_pmem : Mem → ℕ → Pmem
open_pmem mem cpu = record { mem = mem; log_region_ofst = 4096 + cpu * log_region_size }

-- `pmem_transaction_alloc`: the header is zeroed, `valid` with it; no other line of the file sets
-- `valid`.
unfoldable pub alloc : Mem → Transaction
alloc garbage = record { le = garbage; valid = 0; nr_logs = 0; align_length = 0; in_bounds = true }

pub entry_bytes : Entry → List ℕ
entry_bytes e = le64 e.paddr ++ (le64 e.ofst ++ (le64 (length e.value) ++ e.value))

-- `pmem_transaction_add`. The counts are 32 and 16 bits wide, and grow whether or not there is room. The
-- test is against the size with the header, so an entry that ends behind the buffer is written too.
unfoldable pub add : Transaction → Entry → Bool × Transaction
add tx e =
    let align_length = (tx.align_length + (entry_size + length e.value)) % 2 ^ 32 in
    let nr_logs = (tx.nr_logs + 1) % 2 ^ 16 in
    if ltb log_region_size align_length
    then (false, record tx { nr_logs = nr_logs; align_length = align_length })
    else (
      true,
      record tx {
        le = write tx.le tx.align_length (entry_bytes e);
        nr_logs = nr_logs;
        align_length = align_length;
        in_bounds = tx.in_bounds && leb align_length buffer_size;
      },
    )

-- `CEIL_ALIGN(v, 256)`
abbrev pub ceil_align_256 : ℕ → ℕ
ceil_align_256 v = (v + 255) / 256 * 256

-- The log header as it is written: the bit fields `valid`, `rsv`, `nr_logs` and `align_length` are
-- one 64-bit word, and the rest of the 64 bytes is 0.
pub header_word : ℕ → ℕ → ℕ → ℕ
header_word valid nr_logs align_length = valid + nr_logs * 2 ^ 16 + align_length * 2 ^ 32

pub header_bytes : ℕ → List ℕ
header_bytes w = le64 w ++ replicate 56 0

-- The walk over the entries of a log buffer, `pl` or `cur_entry` being at `p`.
pub entry_at : Mem → ℕ → Entry
entry_at le p = record {
  paddr = get64 le p;
  ofst = get64 le (p + 8);
  value = read le (p + entry_size) (get64 le (p + 16));
}

pub entries_at : Mem → ℕ → ℕ → List Entry
entries_at le p zero = []
entries_at le p (suc n) = entry_at le p ∷ entries_at le (p + (entry_size + get64 le (p + 16))) n

unfoldable pub write_all : Mem → List Entry → Mem
write_all m [] = m
write_all m (e ∷ es) = write_all (write m e.ofst e.value) es

-- Step 5: the copies in main memory that are brought up to date.
pub deferred : List Entry → List (ℕ × List ℕ)
deferred [] = []
deferred (e ∷ es) = if e.paddr == 0 then deferred es else (e.paddr, e.value) ∷ deferred es

abbrev pub header : Transaction → ℕ → ℕ
header tx align_length = header_word tx.valid tx.nr_logs align_length

-- The steps of `pmem_transaction_apply` on the memory: the log and behind it the header, the
-- entries, and the header of zeroes.
pub log_written : Pmem → Transaction → Mem
log_written p tx =
    write p.mem (p.log_region_ofst + header_size) (read tx.le 0 (ceil_align_256 tx.align_length))

pub header_written : Pmem → Transaction → Mem
header_written p tx =
    write (log_written p tx) p.log_region_ofst
      (header_bytes (header tx (ceil_align_256 tx.align_length)))

pub entries_written : Pmem → Transaction → Mem
entries_written p tx = write_all (header_written p tx) (entries_at tx.le 0 tx.nr_logs)

-- `pmem_transaction_apply`: the memory, and the copies in main memory that it writes.
pub apply : Pmem → Transaction → Pmem × List (ℕ × List ℕ)
apply p tx = (
  record p { mem = write (entries_written p tx) p.log_region_ofst (header_bytes 0) },
  deferred (entries_at tx.le 0 tx.nr_logs),
)

-- The replay loop of `pmem_recovery`, with its two assertions.
pub replay : Mem → List Entry → Option Mem
replay m [] = some m
replay m (e ∷ es) =
    let rest = replay (write m e.ofst e.value) es in
    if (length e.value % 64 == 0) && (e.ofst % 64 == 0) then rest else none

-- `pmem_recovery`. The log is copied to `pm_log_pload` before anything is replayed.
pub recovery : Pmem → Option Pmem
recovery p =
    let w = get64 p.mem p.log_region_ofst in
    let len = w / 2 ^ 32 in
    let pload : Mem = λ x. p.mem (p.log_region_ofst + header_size + x) in
    let clear : Mem → Pmem = λ m. record p { mem = write m p.log_region_ofst (header_bytes 0) } in
    if w % 2 == 0
    then some p
    else if (len % 256 == 0) && leb len pload_size
    then Option.map clear (replay p.mem (entries_at pload 0 (w / 2 ^ 16 % 2 ^ 16)))
    else none
