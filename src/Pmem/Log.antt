-- ===== src/Pmem/Log.antt =====
-- The log buffer: what `pmem_transaction_add` writes, the walk over the buffer reads back.
use zcell.Base.{sym, ◌%◌}
use zcell.Pmem.{Transaction, alloc, add, log_region_size, buffer_size}
use zcell.Memory.{Holds-write, Holds-append, Holds-Same, write, write_before}
use zcell.Base.{◌*◌, true, false, ltb, ◌≤◌}
use mathlib.Core.List.{append-nil, append_assoc}
use zcell.Base.{
  ℕ, ◌+◌, ◌^◌, ◌<◌, ◌≡◌, refl, ap, ap₂, ◌∙◌, List, [], ◌∷◌, ◌++◌, length, length-append, All, arith,
}
use zcell.Memory.{Mem, read, le64, get64, Holds, Holds-at, Holds-split, read-Holds, get64-Holds}
use zcell.Pmem.{Entry, entry_bytes, entry_at, entries_at, entry_size}

-- The fields of an entry fit their 64 bits.
pub record Fits (e : Entry) : Type 0 where
  pub paddr_fits : e.paddr < 2 ^ 64
  pub ofst_fits : e.ofst < 2 ^ 64
  pub length_fits : length e.value < 2 ^ 64

unfoldable pub log_bytes : List Entry → List ℕ
log_bytes [] = []
log_bytes (e ∷ es) = entry_bytes e ++ log_bytes es

-- The size of a log: 24 bytes and the value for each entry.
unfoldable pub log_length : List Entry → ℕ
log_length [] = 0
log_length (e ∷ es) = entry_size + length e.value + log_length es

length-le64 : (v : ℕ) → length (le64 v) ≡ 8
unfolding le64
length-le64 v = refl

pub length-entry_bytes : (e : Entry) → length (entry_bytes e) ≡ entry_size + length e.value
unfolding entry_bytes
length-entry_bytes e = omega (
  arith,
  length-append (le64 e.paddr) (le64 e.ofst ++ (le64 (length e.value) ++ e.value)),
  length-append (le64 e.ofst) (le64 (length e.value) ++ e.value),
  length-append (le64 (length e.value)) e.value,
  length-le64 e.paddr,
  length-le64 e.ofst,
  length-le64 (length e.value),
)

pub length-log_bytes : (es : List Entry) → length (log_bytes es) ≡ log_length es
unfolding log_bytes log_length
length-log_bytes [] = refl
length-log_bytes (e ∷ es) =
    omega (
      arith,
      length-append (entry_bytes e) (log_bytes es),
      length-entry_bytes e,
      length-log_bytes es,
    )

-- The four parts of an entry in memory.
record Laid (m : Mem) (p : ℕ) (e : Entry) : Type 0 where
  at_paddr : get64 m p ≡ e.paddr
  at_ofst : get64 m (p + 8) ≡ e.ofst
  at_length : get64 m (p + 16) ≡ length e.value
  at_value : Holds m (p + entry_size) e.value

Holds-Laid : (m : Mem) (p : ℕ) (e : Entry) → Fits e → Holds m p (entry_bytes e) → Laid m p e
unfolding entry_bytes
Holds-Laid m p e f h =
    let a = Holds-split m p (le64 e.paddr) (le64 e.ofst ++ (le64 (length e.value) ++ e.value)) h in
    let b =
      Holds-split m (p + length (le64 e.paddr)) (le64 e.ofst) (le64 (length e.value) ++ e.value)
        a.1 in
    let c =
      Holds-split m (p + length (le64 e.paddr) + length (le64 e.ofst)) (le64 (length e.value))
        e.value b.1 in
    record {
      at_paddr = get64-Holds m p e.paddr f.paddr_fits a.0;
      at_ofst =
          get64-Holds m (p + 8) e.ofst f.ofst_fits
            (Holds-at m (le64 e.ofst) (omega (arith, length-le64 e.paddr)) b.0);
      at_length = get64-Holds m (p + 16) (length e.value) f.length_fits (
          Holds-at m (le64 (length e.value))
            (omega (arith, length-le64 e.paddr, length-le64 e.ofst)) c.0);
      at_value =
          Holds-at m e.value
            (omega (arith, length-le64 e.paddr, length-le64 e.ofst, length-le64 (length e.value)))
            c.1;
    }

Laid-entry_at : (m : Mem) (p : ℕ) (e : Entry) → Laid m p e → entry_at m p ≡ e
unfolding entry_at
Laid-entry_at m p e l = λ i. record {
  paddr = l.at_paddr i;
  ofst = l.at_ofst i;
  value =
      (ap (read m (p + entry_size)) l.at_length ∙ read-Holds m (p + entry_size) e.value l.at_value)
        i;
}

-- The walk over a buffer that holds the bytes of some entries finds those entries.
pub entries_at-log_bytes :
    (m : Mem) (p : ℕ) (es : List Entry)
    → All Fits es
    → Holds m p (log_bytes es)
    → entries_at m p (length es) ≡ es
unfolding entries_at log_bytes
entries_at-log_bytes m p [] f h = refl
entries_at-log_bytes m p (e ∷ es) f h =
    let parts = Holds-split m p (entry_bytes e) (log_bytes es) h in
    let laid = Holds-Laid m p e f.0 parts.0 in
    let here : p + length (entry_bytes e) ≡ p + (entry_size + get64 m (p + 16)) =
      omega (arith, length-entry_bytes e, laid.at_length) in
    ap₂ ◌∷◌ (Laid-entry_at m p e laid) (
      entries_at-log_bytes m (p + (entry_size + get64 m (p + 16))) es f.1
        (Holds-at m (log_bytes es) here parts.1))

log_bytes-append :
    (es : List Entry) (e : Entry) → log_bytes (es ++ e ∷ []) ≡ log_bytes es ++ entry_bytes e
unfolding log_bytes
log_bytes-append [] e = append-nil (entry_bytes e)
log_bytes-append (x ∷ es) e =
    ap (◌++◌ (entry_bytes x)) (log_bytes-append es e)
    ∙ sym (append_assoc (entry_bytes x) (log_bytes es) (entry_bytes e))

log_length-append :
    (es : List Entry) (e : Entry)
    → log_length (es ++ e ∷ []) ≡ log_length es + (entry_size + length e.value)
unfolding log_length
log_length-append [] e = omega arith
log_length-append (x ∷ es) e = omega (arith, log_length-append es e)

-- Every entry takes at least 24 bytes, so that 16 bits count the entries of a buffer.
pub entries-le-log_length : (es : List Entry) → entry_size * length es ≤ log_length es
unfolding log_length
entries-le-log_length [] = omega arith
entries-le-log_length (e ∷ es) = omega (arith, entries-le-log_length es)

-- The buffer holds the entries, of which none reaches behind it, and the header counts them.
pub record IsLog (tx : Transaction) (es : List Entry) : Type 0 where
  pub holds : Holds tx.le 0 (log_bytes es)
  pub logs : tx.nr_logs ≡ length es
  pub bytes : tx.align_length ≡ log_length es
  pub invalid : tx.valid ≡ 0
  pub inside : tx.in_bounds ≡ true

pub alloc-IsLog : (garbage : Mem) → IsLog (alloc garbage) []
unfolding alloc log_bytes log_length
alloc-IsLog garbage = record {
  holds = tt;
  logs = refl;
  bytes = refl;
  invalid = refl;
  inside = refl;
}

Holds-write_behind :
    (m : Mem) (xs ys : List ℕ) (n : ℕ)
    → n ≡ length xs
    → Holds m 0 xs
    → Holds (write m n ys) 0 (xs ++ ys)
Holds-write_behind m xs ys n e h =
    Holds-append (write m n ys) 0 xs ys
      (Holds-Same m (write m n ys) 0 xs (λ x l u. write_before m n ys x (omega arith)) h)
      (Holds-at (write m n ys) ys (omega arith) (Holds-write m n ys))

-- Adding an entry to a log that fits the 8128 bytes of the buffer: if the log still fits with the
-- entry, this is appended and `true` is returned; if it then has 8129 to 8192 bytes, `true` is
-- returned too, but the entry is written past the end of the buffer; and if it has more, `false` is
-- returned, and the buffer is left as it was.
pub add_appends :
    (tx : Transaction) (es : List Entry) (e : Entry)
    → IsLog tx es
    → log_length es ≤ buffer_size
    → length e.value < 2 ^ 31
    → (log_length es + (entry_size + length e.value) ≤ buffer_size
        → ((add tx e).0 ≡ true) × IsLog (add tx e).1 (es ++ e ∷ []))
      × (buffer_size < log_length es + (entry_size + length e.value)
          → log_length es + (entry_size + length e.value) ≤ log_region_size
          → ((add tx e).0 ≡ true) × ((add tx e).1.in_bounds ≡ false))
      × (log_region_size < log_length es + (entry_size + length e.value)
          → ((add tx e).0 ≡ false) × ((add tx e).1.le ≡ tx.le) × ((add tx e).1.in_bounds ≡ true))
unfolding add
add_appends tx es e l small short = (
  λ room. fits room (ground (arith, l.bytes)),
  λ over room. ground (arith, l.bytes, l.inside),
  λ full. ground (arith, l.bytes, l.inside),
)
  where
    fits :
        log_length es + (entry_size + length e.value) ≤ buffer_size
        → ltb log_region_size ((tx.align_length + (entry_size + length e.value)) % 2 ^ 32) ≡ false
        → ((add tx e).0 ≡ true) × IsLog (add tx e).1 (es ++ e ∷ [])
    fits room test = rw test (
      refl,
      record {
        holds = rw (log_bytes-append es e) (
            Holds-write_behind tx.le (log_bytes es) (entry_bytes e) tx.align_length
              (omega (arith, l.bytes, length-log_bytes es)) l.holds);
        logs = omega (arith, l.logs, length-append es (e ∷ []), entries-le-log_length es);
        bytes = omega (arith, l.bytes, log_length-append es e);
        invalid = l.invalid;
        inside = ground (arith, l.inside, l.bytes, room);
      },
    )
