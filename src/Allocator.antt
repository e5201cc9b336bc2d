-- ===== src/Allocator.antt =====
-- zstore_allocator.h: the bitmap allocator of 4 KiB blocks that ZStore uses for the SSD and for the
-- index blocks in persistent memory.
-- An entry of the source is eight 64-bit words; `bs` holds the words of all entries in the order in
-- which they lie in memory. A read or write outside the array is 0 or nothing here;
-- `Allocator.Bits.word_index_bounds` proves that the indices stay inside.
pub mod Bits
pub mod Count
pub mod Rounds
pub mod Laws
pub mod Positive
pub mod Run
pub mod Free
pub mod Init
pub mod Copy
pub mod Load
pub mod Tests
use zcell.Base.{
  ℕ, zero, suc, ◌+◌, ◌-◌, ◌*◌, ◌/◌, ◌%◌, Bool, true, false, List, [], ◌∷◌, ◌++◌, Option, none, some,
  reverse, get_or, set, take, drop, replicate, ltb, ◌==◌, if◌then◌else◌, ◌&&◌,
}
use zcell.Base.Word.{complement, test_bit, set_bit, clear_bit}
use zcell.Status.{Rc, minus_one, status, no_space, ok}

-- `struct zstore_extent_t`
pub record Extent : Type 0 where
  pub lba : ℕ
  pub len : ℕ

-- `struct stupid_allocator_t`
pub record Allocator : Type 0 where
  pub bs : List ℕ
  pub nr_free : ℕ
  pub nr_total : ℕ
  pub nr_entrys : ℕ
  pub hint : ℕ

-- The place of `bs_[i >> 9].bits_[(i & 511) >> 6]` among the words.
pub word_index : ℕ → ℕ
word_index i = (i / 512) * 8 + (i % 512) / 64

-- The word at that place, the bit of block i in it, and the two updates of that bit.
pub word : List ℕ → ℕ → ℕ
word bs i = get_or bs (word_index i) 0

pub allocated : List ℕ → ℕ → Bool
allocated bs i = test_bit (word bs i) (i % 64)

pub mark : List ℕ → ℕ → List ℕ
mark bs i = set bs (word_index i) (set_bit (word bs i) (i % 64))

pub unmark : List ℕ → ℕ → List ℕ
unmark bs i = set bs (word_index i) (clear_bit (word bs i) (i % 64))

-- `stupid_allocator_constructor`: `calloc` gives `nr_total >> 9` entries of zeroes, while
-- `nr_entrys_` is rounded up.
unfoldable pub constructor : ℕ → Allocator
constructor nr_total = record {
  bs = replicate ((nr_total / 512) * 8) 0;
  nr_free = 0;
  nr_total = nr_total;
  nr_entrys = (nr_total + 511) / 512;
  hint = 0;
}

-- The local variables of `stupid_alloc_space`'s loop. The extents stand newest first: `p_ex` points
-- at the head while `in_found_ctx` holds, and behind it otherwise.
pub record Scan : Type 0 where
  pub bs : List ℕ
  pub ex : List Extent
  pub rsv_len : ℕ
  pub end_flag : Bool
  pub in_found_ctx : Bool

-- `p_ex->len_++`
unfoldable pub grow : List Extent → List Extent
grow [] = []
grow (e ∷ es) = record e { len = e.len + 1 } ∷ es

-- A new extent starts where no run of free blocks is open.
pub open_extent : ℕ → Scan → List Extent
open_extent i s = if s.in_found_ctx then s.ex else record { lba = i; len = 0 } ∷ s.ex

-- The body for a free bit, and for an allocated one, while `end_flag` is not set.
pub take_free : ℕ → Scan → Scan
take_free i s = record s {
  bs = mark s.bs i;
  ex = grow (open_extent i s);
  rsv_len = s.rsv_len + 1;
  in_found_ctx = true;
}

pub close_extent : Scan → Scan
close_extent s = record s { in_found_ctx = false }

-- `if (rsv_len == sz) end_flag = 1`
pub check_end : ℕ → Scan → Scan
check_end sz s = if s.rsv_len == sz then record s { end_flag = true } else s

-- How one round of the loop ends: with `return 0` at block i, or with the next value of `it`.
pub data Turn : Type 0 where
  found : ℕ → Turn
  next : ℕ → Scan → Turn

-- One round at `i = it % nr_total`. A word of ones moves `it` by 64, and the loop's `++it` by one
-- more.
pub visit : ℕ → ℕ → ℕ → Scan → Turn
visit sz nr_total it s =
    let i = it % nr_total in
    if complement (word s.bs i) == 0
    then next (it + 64 + 1) s
    else if s.end_flag
    then (if allocated s.bs i then next (it + 1) s else found i)
    else next (it + 1) (check_end sz (if allocated s.bs i then close_extent s else take_free i s))

-- The loop up to `last = nr_total_ + hint_`, with the rounds left as fuel.
pub scan : ℕ → ℕ → ℕ → ℕ → ℕ → Scan → Scan × Option ℕ
scan sz nr_total last zero it s = (s, none)
scan sz nr_total last (suc fuel) it s = elim (ltb it last) [
  | false ↦ (s, none)
  | true ↦ elim (visit sz nr_total it s) [
    | found i ↦ (s, some i)
    | next it' s' ↦ scan sz nr_total last fuel it' s'
  ]
]

-- The return code, the allocator afterwards, and the `ex_nr` extents written.
pub record Alloc : Type 0 where
  pub rc : Rc
  pub allocator : Allocator
  pub ex : List Extent

abbrev pub start : Allocator → Scan
start a = record { bs = a.bs; ex = []; rsv_len = 0; end_flag = false; in_found_ctx = false }

pub finish : Allocator → ℕ → Scan × Option ℕ → Alloc
finish a sz (s, some i) = record {
  rc = ok;
  allocator = record a { bs = s.bs; hint = i; nr_free = a.nr_free - sz };
  ex = reverse s.ex;
}
finish a sz (s, none) = record {
  rc = status no_space;
  allocator = record a { bs = s.bs };
  ex = reverse s.ex;
}

-- `stupid_alloc_space`. `it` grows in every round, so `nr_total_` rounds are enough.
pub alloc_space : Allocator → ℕ → Alloc
alloc_space a sz =
    if ltb a.nr_free sz
    then record { rc = minus_one; allocator = a; ex = [] }
    else finish a sz (scan sz a.nr_total (a.nr_total + a.hint) a.nr_total a.hint (start a))

-- The inner loop of `stupid_free_space`, over the blocks `lba`, `lba + 1`, ...
pub unmark_run : List ℕ → ℕ → ℕ → List ℕ
unmark_run bs lba zero = bs
unmark_run bs lba (suc n) = unmark_run (unmark bs lba) (lba + 1) n

pub unmark_all : List ℕ → List Extent → List ℕ
unmark_all bs [] = bs
unmark_all bs (e ∷ es) = unmark_all (unmark_run bs e.lba e.len) es

-- `total_len`: the loops add 1 for each block they clear.
unfoldable pub total_len : List Extent → ℕ
total_len [] = 0
total_len (e ∷ es) = e.len + total_len es

-- `stupid_free_space`
pub free_space : Allocator → List Extent → Allocator
free_space a ex = record a { bs = unmark_all a.bs ex; nr_free = a.nr_free + total_len ex }

-- The counting loop of `stupid_allocator_init_bitmap_entry`: it steps over a word of zeroes at once
-- where 64 more blocks are left, and bit by bit otherwise. The rounds left are the fuel.
pub count_loop : List ℕ → ℕ → ℕ → ℕ → ℕ → ℕ
count_loop bs end zero i total = total
count_loop bs end (suc fuel) i total = elim (ltb i end) [
  | false ↦ total
  | true ↦ elim (ltb (i + 64) end && (word bs i == 0)) [
    | true ↦ count_loop bs end fuel (i + 64) (total + 64)
    | false ↦ count_loop bs end fuel (i + 1) (if allocated bs i then total else total + 1)
  ]
]

-- `memcpy` of one entry's eight words.
pub copy_entry : List ℕ → ℕ → List ℕ → List ℕ
copy_entry bs e src = take (e * 8) bs ++ (take 8 src ++ drop (e * 8 + 8) bs)

abbrev pub entry_end : Allocator → ℕ → ℕ
entry_end a e = if ltb a.nr_total ((e + 1) * 512) then a.nr_total else (e + 1) * 512

-- `stupid_allocator_init_bitmap_entry`
pub init_bitmap_entry : Allocator → ℕ → List ℕ → Allocator
init_bitmap_entry a e src =
    let bs = copy_entry a.bs e src in
    record a { bs = bs; nr_free = a.nr_free + count_loop bs (entry_end a e) 512 (e * 512) 0 }
