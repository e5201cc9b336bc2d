-- ===== src/Pmem/Apply.antt =====
-- What a transaction that runs to its end does to the memory.
use zcell.Base.{
  ℕ, ◌+◌, ◌^◌, ◌≤◌, ◌<◌, ◌≡◌, ◌⊎◌, refl, ap, ◌∙◌, List, [], ◌∷◌, ◌++◌, length, replicate, All,
  arith, inl, inr,
}
use zcell.Memory.{
  Mem, write, le64, get64, Holds-write, Holds-split, get64-Holds, write_before, write_after,
  length-read,
}
use zcell.Pmem.{
  Pmem, Entry, Transaction, entries_at, header_size, header_bytes, write_all, deferred, log_written,
  header_written, entries_written, apply, ceil_align_256,
}
use zcell.Pmem.Log.{Fits, IsLog, entries_at-log_bytes}

-- The byte at x after a write depends on the memory at x alone.
write_at :
    (m m' : Mem) (o : ℕ) (bs : List ℕ) (x : ℕ) → m x ≡ m' x → write m o bs x ≡ write m' o bs x
unfolding write
write_at m m' o [] x e = e
write_at m m' o (b ∷ bs) x e = ground (arith, write_at m m' (o + 1) bs x e)

pub write_all_at :
    (m m' : Mem) (es : List Entry) (x : ℕ) → m x ≡ m' x → write_all m es x ≡ write_all m' es x
unfolding write_all
write_all_at m m' [] x e = e
write_all_at m m' (e ∷ es) x h =
    write_all_at (write m e.ofst e.value) (write m' e.ofst e.value) es x
      (write_at m m' e.ofst e.value x h)

-- Offsets that the log of the transaction does not use: before the header, or behind the log.
abbrev pub Outside : Pmem → Transaction → ℕ → Type 0
Outside p tx x =
    (x < p.log_region_ofst) ⊎ (p.log_region_ofst + header_size + ceil_align_256 tx.align_length ≤ x)

pub length-header_bytes : (w : ℕ) → length (header_bytes w) ≡ header_size
unfolding header_bytes le64
length-header_bytes w = refl

log_written-Outside :
    (p : Pmem) (tx : Transaction) (x : ℕ) → Outside p tx x → log_written p tx x ≡ p.mem x
unfolding log_written
log_written-Outside p tx x (inl h) = write_before p.mem _ _ x (omega arith)
log_written-Outside p tx x (inr h) =
    write_after p.mem _ _ x (omega (arith, length-read tx.le 0 (ceil_align_256 tx.align_length)))

header-Outside :
    (m : Mem) (p : Pmem) (tx : Transaction) (w x : ℕ)
    → Outside p tx x
    → write m p.log_region_ofst (header_bytes w) x ≡ m x
header-Outside m p tx w x (inl h) = write_before m _ _ x h
header-Outside m p tx w x (inr h) = write_after m _ _ x (omega (arith, length-header_bytes w))

pub header_written-Outside :
    (p : Pmem) (tx : Transaction) (x : ℕ) → Outside p tx x → header_written p tx x ≡ p.mem x
unfolding header_written
header_written-Outside p tx x h =
    header-Outside (log_written p tx) p tx _ x h ∙ log_written-Outside p tx x h

-- The word at the start of a header is the word that was written.
pub header-get64 : (m : Mem) (o w : ℕ) → w < 2 ^ 64 → get64 (write m o (header_bytes w)) o ≡ w
unfolding header_bytes
header-get64 m o w h =
    get64-Holds (write m o (le64 w ++ replicate 56 0)) o w h
      (Holds-split (write m o (le64 w ++ replicate 56 0)) o (le64 w) (replicate 56 0)
        (Holds-write m o (le64 w ++ replicate 56 0))).0

-- When a transaction has run to its end, every byte outside its log is what writing its entries in
-- order makes of it, the header word is 0, and the copies of the entries that have one were
-- written in order.
pub apply_writes :
    (p : Pmem) (tx : Transaction) (es : List Entry)
    → IsLog tx es
    → All Fits es
    → ((x : ℕ) → Outside p tx x → (apply p tx).0.mem x ≡ write_all p.mem es x)
      × (get64 (apply p tx).0.mem p.log_region_ofst ≡ 0)
      × ((apply p tx).1 ≡ deferred es)
unfolding apply entries_written
apply_writes p tx es l f = (
  outside,
  header-get64 (entries_written p tx) p.log_region_ofst 0 (omega arith),
  ap deferred walked,
)
  where
    walked : entries_at tx.le 0 tx.nr_logs ≡ es
    walked = ap (entries_at tx.le 0) l.logs ∙ entries_at-log_bytes tx.le 0 es f l.holds

    outside : (x : ℕ) → Outside p tx x → (apply p tx).0.mem x ≡ write_all p.mem es x
    outside x h =
        header-Outside (entries_written p tx) p tx 0 x h
        ∙ (ap (λ fs. write_all (header_written p tx) fs x) walked
            ∙ write_all_at (header_written p tx) p.mem es x (header_written-Outside p tx x h))
