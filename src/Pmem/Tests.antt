-- ===== src/Pmem/Tests.antt =====
-- A transaction of one entry of 64 bytes, on a memory of zeroes, and a valid log of that entry.
use zcell.Base.{ℕ, ◌≤◌, ◌<◌, ◌≡◌, inr, refl, true, false, [], ◌∷◌, arith, some, replicate}
use zcell.Memory.{Mem, write, read, get64, le64, Holds-read}
use zcell.Pmem.{
  Pmem, Entry, Transaction, add, alloc, apply, recovery, write_all, deferred, entries_written,
  header_bytes, header_word, entry_bytes, log_region_size, buffer_size,
}
use zcell.Pmem.Log.{Fits, IsLog, alloc-IsLog, log_bytes, log_length, add_appends}
use zcell.Pmem.Apply.{Outside, apply_writes}
use zcell.Pmem.Recovery.{
  HoldsLog, Crash, torn, torn-Crash, recovery_after-Crash, recovery_keeps_torn,
}

abbrev zeroes : Mem
zeroes = λ x. 0

abbrev pm : Pmem
pm = record { mem = zeroes; log_region_ofst = 4096 }

abbrev entry : Entry
entry = record { paddr = 0; ofst = 65536; value = replicate 64 7 }

entry-Fits : Fits entry
entry-Fits = record { paddr_fits = omega arith; ofst_fits = omega arith; length_fits = omega arith }

abbrev logged : Transaction
logged = (add (alloc zeroes) entry).1

add_appends_example :
    (88 ≤ buffer_size → ((add (alloc zeroes) entry).0 ≡ true) × IsLog logged (entry ∷ []))
    × (buffer_size < 88
        → 88 ≤ log_region_size
        → ((add (alloc zeroes) entry).0 ≡ true) × (logged.in_bounds ≡ false))
    × (log_region_size < 88
        → ((add (alloc zeroes) entry).0 ≡ false)
          × (logged.le ≡ (alloc zeroes).le)
          × (logged.in_bounds ≡ true))
unfolding log_length
add_appends_example =
    add_appends (alloc zeroes) [] entry (alloc-IsLog zeroes) (omega arith) (omega arith)

logged-IsLog : IsLog logged (entry ∷ [])
logged-IsLog = (add_appends_example.0 (omega arith)).1

apply_writes_example :
    ((x : ℕ) → Outside pm logged x → (apply pm logged).0.mem x ≡ write_all zeroes (entry ∷ []) x)
    × (get64 (apply pm logged).0.mem 4096 ≡ 0)
    × ((apply pm logged).1 ≡ deferred (entry ∷ []))
apply_writes_example = apply_writes pm logged (entry ∷ []) logged-IsLog (entry-Fits, tt)

-- A valid log, as it lies in memory behind its header.
abbrev valid_log : Mem
valid_log =
    write (write zeroes 4160 (log_bytes (entry ∷ []))) 4096 (header_bytes (header_word 1 1 256))

abbrev found : Pmem
found = record { mem = valid_log; log_region_ofst = 4096 }

found-HoldsLog : HoldsLog found (entry ∷ []) 256
unfolding log_bytes entry_bytes header_bytes header_word read write le64 get64
found-HoldsLog = record {
  word = refl;
  count = omega arith;
  bytes = Holds-read valid_log 4160 88;
  fits = (entry-Fits, tt);
}

logged_length : logged.align_length ≡ 88
unfolding log_length
logged_length = logged-IsLog.bytes

logged-Outside : (x : ℕ) → 65536 ≤ x → Outside pm logged x
logged-Outside x h = inr (omega (arith, logged_length))

-- Byte 65537 is new, and its neighbours are old.
abbrev half : Mem
half = torn pm logged 65537

half-Crash : Crash pm logged half
unfolding log_length
half-Crash =
    torn-Crash pm logged (entry ∷ []) 65537 logged-IsLog (omega arith)
      (logged-Outside 65537 (omega arith))

recovery_after-Crash_example : recovery (record pm { mem = half }) ≡ some (record pm { mem = half })
unfolding get64
recovery_after-Crash_example =
    recovery_after-Crash pm logged (entry ∷ []) half logged-IsLog refl half-Crash

recovery_keeps_torn_example :
    (m : Mem) × Crash pm logged m
    × (recovery (record pm { mem = m }) ≡ some (record pm { mem = m }))
    × (m 65536 ≡ 0)
    × (m 65537 ≡ entries_written pm logged 65537)
unfolding log_length get64
recovery_keeps_torn_example =
    recovery_keeps_torn pm logged (entry ∷ []) 65536 65537 logged-IsLog (omega arith) refl
      (logged-Outside 65536 (omega arith)) (logged-Outside 65537 (omega arith)) (omega arith)
