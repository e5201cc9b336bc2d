-- ===== src/Pmem/Recovery.antt =====
-- What `pmem_recovery` does with a valid log, and what it does after a crash of `apply`.
use zcell.Base.{
  ==_iff, ℕ, ◌+◌, ◌/◌, ◌%◌, ◌^◌, ◌≤◌, ◌<◌, ◌≡◌, ◌≢◌, ◌⊎◌, refl, ap, ◌∙◌, sym, Bool, true, false,
  List, [], ◌∷◌, none, some, length, All, arith, if◌then◌else◌, Bool-cases, inl, inr, ◌==◌, ◌&&◌,
  leb,
}
use zcell.Memory.{Mem, write, get64, Holds, Holds-at, Same}
use zcell.Pmem.{
  Pmem, Entry, Transaction, entries_at, header_size, pload_size, log_region_size, header,
  header_word, header_bytes, write_all, header_written, entries_written, log_written,
  ceil_align_256, replay, recovery,
}
use zcell.Pmem.Log.{Fits, IsLog, log_bytes, log_length, entries_at-log_bytes, entries-le-log_length}
use zcell.Pmem.Apply.{Outside, header-get64, header_written-Outside}

-- What the two assertions ask of an entry.
abbrev pub aligned : Entry → Bool
aligned e = (length e.value % 64 == 0) && (e.ofst % 64 == 0)

abbrev pub all_aligned : List Entry → Bool
all_aligned [] = true
all_aligned (e ∷ es) = aligned e && all_aligned es

replay_lem :
    (m : Mem) (es : List Entry)
    → replay m es ≡ (if all_aligned es then some (write_all m es) else none)
unfolding replay write_all
replay_lem m [] = refl
replay_lem m (e ∷ es) = ground (arith, replay_lem (write m e.ofst e.value) es)

Holds-shift : (m : Mem) (k o : ℕ) (bs : List ℕ) → Holds m (k + o) bs → Holds (λ x. m (k + x)) o bs
Holds-shift m k o [] h = tt
Holds-shift m k o (b ∷ bs) h = (h.0, Holds-shift m k (o + 1) bs (Holds-at m bs (omega arith) h.1))

-- The memory holds a valid log of these entries.
pub record HoldsLog (p : Pmem) (es : List Entry) (len : ℕ) : Type 0 where
  pub word : get64 p.mem p.log_region_ofst ≡ header_word 1 (length es) len
  pub count : length es < 2 ^ 16
  pub bytes : Holds p.mem (p.log_region_ofst + header_size) (log_bytes es)
  pub fits : All Fits es

-- With a valid header, a log length that is a multiple of 256 and at most 4096, recovery writes the
-- entries in order and clears the header if the length and the offset of every entry are multiples
-- of 64, and stops at an assertion if not.
pub recovery_replays :
    (p : Pmem) (es : List Entry) (len : ℕ)
    → HoldsLog p es len
    → len % 256 ≡ 0
    → len ≤ pload_size
    → recovery p ≡ (
        if all_aligned es
        then some (record p { mem = write (write_all p.mem es) p.log_region_ofst (header_bytes 0) })
        else none)
unfolding recovery header_word
recovery_replays p es len h whole short = elim (Bool-cases (all_aligned es)) [
  | inl good ↦ rw (valid, sized, bounded, walked, replay_lem p.mem es, good) refl
  | inr bad ↦ rw (valid, sized, bounded, walked, replay_lem p.mem es, bad) refl
]
  where
    valid : (get64 p.mem p.log_region_ofst % 2 == 0) ≡ false
    valid = ground (arith, h.word)

    sized : (get64 p.mem p.log_region_ofst / 2 ^ 32 % 256 == 0) ≡ true
    sized = ground (arith, h.word, h.count)

    bounded : leb (get64 p.mem p.log_region_ofst / 2 ^ 32) pload_size ≡ true
    bounded = ground (arith, h.word, h.count)

    counted : get64 p.mem p.log_region_ofst / 2 ^ 16 % 2 ^ 16 ≡ length es
    counted = omega (arith, h.word, h.count)

    walked :
        entries_at
          (λ x. p.mem (p.log_region_ofst + header_size + x))
          0
          (get64 p.mem p.log_region_ofst / 2 ^ 16 % 2 ^ 16)
        ≡ es
    walked =
        ap (entries_at (λ x. p.mem (p.log_region_ofst + header_size + x)) 0) counted
        ∙ entries_at-log_bytes (λ x. p.mem (p.log_region_ofst + header_size + x)) 0 es h.fits
            (Holds-shift p.mem (p.log_region_ofst + header_size) 0 (log_bytes es)
              (Holds-at p.mem (log_bytes es) (omega arith) h.bytes))

get64-Same : (m m' : Mem) (o : ℕ) → Same m m' o 8 → get64 m o ≡ get64 m' o
unfolding get64
get64-Same m m' o s = omega (
  arith,
  s o (omega arith) (omega arith),
  s (o + 1) (omega arith) (omega arith),
  s (o + 1 + 1) (omega arith) (omega arith),
  s (o + 1 + 1 + 1) (omega arith) (omega arith),
  s (o + 1 + 1 + 1 + 1) (omega arith) (omega arith),
  s (o + 1 + 1 + 1 + 1 + 1) (omega arith) (omega arith),
  s (o + 1 + 1 + 1 + 1 + 1 + 1) (omega arith) (omega arith),
  s (o + 1 + 1 + 1 + 1 + 1 + 1 + 1) (omega arith) (omega arith),
)

-- The memory that a power failure during `pmem_transaction_apply` may leave: a byte that is being
-- written has its old or its new value, and the first word of a header is written at once.
pub data Crash (p : Pmem) (tx : Transaction) (m : Mem) : Type 0 where
  logging :
      ((x : ℕ) → Outside p tx x → m x ≡ p.mem x)
      → get64 m p.log_region_ofst ≡ get64 p.mem p.log_region_ofst
      → Crash p tx m
  writing :
      ((x : ℕ) → Outside p tx x → (m x ≡ p.mem x) ⊎ (m x ≡ entries_written p tx x))
      → get64 m p.log_region_ofst ≡ header tx (ceil_align_256 tx.align_length)
      → Crash p tx m
  clearing :
      ((x : ℕ) → Outside p tx x → m x ≡ entries_written p tx x)
      → get64 m p.log_region_ofst ≡ 0
      → Crash p tx m

pub invalid-recovery : (p : Pmem) → get64 p.mem p.log_region_ofst % 2 ≡ 0 → recovery p ≡ some p
unfolding recovery
invalid-recovery p e = ground arith

-- The header that `apply` writes is never valid, so recovery changes nothing after a crash at any
-- point of it: an entry that was half written stays half written.
pub recovery_after-Crash :
    (p : Pmem) (tx : Transaction) (es : List Entry) (m : Mem)
    → IsLog tx es
    → get64 p.mem p.log_region_ofst % 2 ≡ 0
    → Crash p tx m
    → recovery (record p { mem = m }) ≡ some (record p { mem = m })
unfolding header_word
recovery_after-Crash p tx es m l old (logging same word) = invalid-recovery _ (omega (arith, word))
recovery_after-Crash p tx es m l old (writing mixed word) =
    invalid-recovery _ (omega (arith, word, l.invalid))
recovery_after-Crash p tx es m l old (clearing new word) = invalid-recovery _ (omega (arith, word))

header_word-lt :
    (tx : Transaction) (es : List Entry)
    → IsLog tx es
    → log_length es ≤ log_region_size
    → header tx (ceil_align_256 tx.align_length) < 2 ^ 64
unfolding header_word
header_word-lt tx es l small = omega (arith, l.invalid, l.logs, l.bytes, entries-le-log_length es)

-- The memory of a power failure at which the byte at y alone has reached the memory.
abbrev pub torn : Pmem → Transaction → ℕ → Mem
torn p tx y x = if x == y then entries_written p tx y else header_written p tx x

torn-Same :
    (p : Pmem) (tx : Transaction) (y : ℕ)
    → Outside p tx y
    → Same (torn p tx y) (header_written p tx) p.log_region_ofst 8
torn-Same p tx y (inl before) x l u = ground arith
torn-Same p tx y (inr behind) x l u = ground arith

pub torn-Crash :
    (p : Pmem) (tx : Transaction) (es : List Entry) (y : ℕ)
    → IsLog tx es
    → log_length es ≤ log_region_size
    → Outside p tx y
    → Crash p tx (torn p tx y)
unfolding header_written
torn-Crash p tx es y l small out = writing mixed word
  where
    word : get64 (torn p tx y) p.log_region_ofst ≡ header tx (ceil_align_256 tx.align_length)
    word =
        get64-Same (torn p tx y) (header_written p tx) p.log_region_ofst (torn-Same p tx y out)
        ∙ header-get64 (log_written p tx) p.log_region_ofst _ (header_word-lt tx es l small)

    mixed :
        (x : ℕ)
        → Outside p tx x
        → (torn p tx y x ≡ p.mem x) ⊎ (torn p tx y x ≡ entries_written p tx x)
    mixed x h = elim (Bool-cases (x == y)) [
      | inl e ↦ inr (rw e (ap (entries_written p tx) (sym ((==_iff x y).0 e))))
      | inr e ↦ inl (rw e (header_written-Outside p tx x h))
    ]

-- So a transaction is not atomic: of any two bytes that it changes outside its log, a power failure
-- can leave the one old and the other new, and recovery then reports success and keeps both.
pub recovery_keeps_torn :
    (p : Pmem) (tx : Transaction) (es : List Entry) (x y : ℕ)
    → IsLog tx es
    → log_length es ≤ log_region_size
    → get64 p.mem p.log_region_ofst % 2 ≡ 0
    → Outside p tx x
    → Outside p tx y
    → x ≢ y
    → (m : Mem) × Crash p tx m
      × (recovery (record p { mem = m }) ≡ some (record p { mem = m }))
      × (m x ≡ p.mem x)
      × (m y ≡ entries_written p tx y)
recovery_keeps_torn p tx es x y l small old hx hy ne =
    let crash = torn-Crash p tx es y l small hy in
    (
      torn p tx y,
      crash,
      recovery_after-Crash p tx es (torn p tx y) l old crash,
      ground (arith, header_written-Outside p tx x hx),
      ground arith,
    )
