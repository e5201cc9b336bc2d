-- ===== src/Zstore/Objects/Log.antt =====
-- The log that is built for a changed table entry and its bitmap entries.
use mathlib.Core.List.{append_assoc, append-nil}
use zcell.Base.{
  ℕ, zero, suc, ◌+◌, ◌*◌, ◌/◌, ◌≤◌, ◌≡◌, refl, sym, subst, List, [], ◌∷◌, ◌++◌, take, drop, length,
  All, arith,
}
use zcell.Memory.{le64}
use zcell.Allocator.{Extent, Allocator}
use zcell.Pmem.{Entry, Transaction, add, buffer_size}
use zcell.Pmem.Log.{IsLog, log_length, add_appends}
use zcell.Zstore.Objects.{
  Onode, Store, onode_bytes, words_bytes, onode_log, bitmap_log, bitmap_logs, add_all,
}

-- Nothing of these entries is longer than 64 bytes.
abbrev pub IsShort : Entry → Type 0
IsShort e = length e.value ≤ 64

pub length-onode_bytes : (n : Onode) → length (onode_bytes n) ≡ 64
unfolding onode_bytes le64
length-onode_bytes n = refl

pub length-words_bytes : (k : ℕ) (ws : List ℕ) → length (words_bytes (take k ws)) ≤ 8 * k
unfolding words_bytes le64
length-words_bytes zero ws = omega arith
length-words_bytes (suc k) [] = omega arith
length-words_bytes (suc k) (w ∷ ws) = omega (arith, length-words_bytes k ws)

pub onode_log-IsShort : (s : Store) (oid : ℕ) (n : Onode) → IsShort (onode_log s oid n)
unfolding onode_log
onode_log-IsShort s oid n = omega (arith, length-onode_bytes n)

pub bitmap_logs-IsShort :
    (s : Store) (a : Allocator) (es : List Extent) → All IsShort (bitmap_logs s a es)
unfolding bitmap_logs bitmap_log
bitmap_logs-IsShort s a [] = tt
bitmap_logs-IsShort s a (e ∷ es) =
    (length-words_bytes 8 (drop (e.lba / 512 * 8) a.bs), bitmap_logs-IsShort s a es)

pub log_length-split : (xs ys : List Entry) → log_length (xs ++ ys) ≡ log_length xs + log_length ys
unfolding log_length
log_length-split [] ys = omega arith
log_length-split (x ∷ xs) ys = omega (arith, log_length-split xs ys)

-- Entries that all fit are all in the log.
pub add_all-IsLog :
    (tx : Transaction) (old es : List Entry)
    → IsLog tx old
    → All IsShort es
    → log_length (old ++ es) ≤ buffer_size
    → IsLog (add_all tx es) (old ++ es)
unfolding add_all log_length
add_all-IsLog tx old [] l short room = subst (IsLog tx) (sym (append-nil old)) l
add_all-IsLog tx old (e ∷ es) l short room = subst (IsLog (add_all (add tx e).1 es)) moved (
    add_all-IsLog (add tx e).1 (old ++ e ∷ []) es added short.1
      (subst (λ xs. log_length xs ≤ buffer_size) (sym moved) room))
  where
    moved : (old ++ e ∷ []) ++ es ≡ old ++ e ∷ es
    moved = append_assoc old (e ∷ []) es

    added : IsLog (add tx e).1 (old ++ e ∷ [])
    added =
        ((add_appends tx old e l (omega (arith, room, log_length-split old (e ∷ es)))
            (omega (arith, short.0))).0
          (omega (arith, room, log_length-split old (e ∷ es)))).1

-- The log of a table entry and of at most one bitmap entry fits the buffer.
pub logs-fit :
    (s : Store) (oid : ℕ) (n : Onode) (a : Allocator) (ze : List Extent)
    → length ze ≤ 1
    → log_length (onode_log s oid n ∷ bitmap_logs s a ze) ≤ buffer_size
unfolding log_length bitmap_logs
logs-fit s oid n a [] few = omega (arith, onode_log-IsShort s oid n)
logs-fit s oid n a (e ∷ []) few =
    omega (arith, onode_log-IsShort s oid n, (bitmap_logs-IsShort s a (e ∷ [])).0)
logs-fit s oid n a (e ∷ f ∷ es) few = absurd (omega (arith, few))
