-- ===== src/Bitmap/Tests.antt =====
-- A bitmap of two words with two bits set.
use zcell.Base.{ℕ, ◌≡◌, true, false, [], ◌∷◌, none, some, arith, if◌then◌else◌, ◌==◌}
use zcell.Bitmap.{Bitmap, get_bit, find_next_set_and_clr}
use zcell.Bitmap.Laws.{Inside, AreWords, find_next_set_and_clr_takes}

abbrev flags : Bitmap
flags = record { bit_length = 100; words = 8 ∷ 2 ∷ [] }

flags-AreWords : AreWords flags
flags-AreWords = ground arith

find_next_set_and_clr_takes_example :
    let (found, c) = find_next_set_and_clr flags 70 in
    ((i : ℕ)
      → found ≡ some i
      → (get_bit flags i ≡ true)
        × ((j : ℕ) → get_bit c j ≡ (if j == i then false else get_bit flags j)))
    × (found ≡ none → (c ≡ flags) × ((i : ℕ) → Inside flags i → get_bit flags i ≡ false))
find_next_set_and_clr_takes_example =
    find_next_set_and_clr_takes flags 70 flags-AreWords (omega arith)
