-- ===== src/Memory.antt =====
-- Byte memory: the mapped persistent memory and the buffers that are copied from and to it, with
-- `memcpy` as `read` and `write`. A memory is the byte at every offset.
use zcell.Base.{
  subst, ℕ, zero, suc, ◌+◌, ◌*◌, ◌/◌, ◌%◌, ◌^◌, ◌≤◌, ◌<◌, ◌≡◌, refl, ap, ◌∙◌, List, [], ◌∷◌, ◌++◌,
  length, arith, ◌==◌, if◌then◌else◌,
}

abbrev pub Mem : Type 0
Mem = ℕ → ℕ

-- The `n` bytes from offset `o` on.
unfoldable pub read : Mem → ℕ → ℕ → List ℕ
read m o zero = []
read m o (suc n) = m o ∷ read m (o + 1) n

-- The memory after the bytes are copied to offset `o`.
unfoldable pub write : Mem → ℕ → List ℕ → Mem
write m o [] x = m x
write m o (b ∷ bs) x = if x == o then b else write m (o + 1) bs x

-- A `uint64_t` in memory, low byte first.
unfoldable pub le64 : ℕ → List ℕ
le64 v =
    v % 256
    ∷ v / 2 ^ 8 % 256
    ∷ v / 2 ^ 16 % 256
    ∷ v / 2 ^ 24 % 256
    ∷ v / 2 ^ 32 % 256
    ∷ v / 2 ^ 40 % 256
    ∷ v / 2 ^ 48 % 256
    ∷ v / 2 ^ 56 % 256
    ∷ []

unfoldable pub get64 : Mem → ℕ → ℕ
get64 m o =
    m o
    + 2 ^ 8 * m (o + 1)
    + 2 ^ 16 * m (o + 1 + 1)
    + 2 ^ 24 * m (o + 1 + 1 + 1)
    + 2 ^ 32 * m (o + 1 + 1 + 1 + 1)
    + 2 ^ 40 * m (o + 1 + 1 + 1 + 1 + 1)
    + 2 ^ 48 * m (o + 1 + 1 + 1 + 1 + 1 + 1)
    + 2 ^ 56 * m (o + 1 + 1 + 1 + 1 + 1 + 1 + 1)

-- The bytes lie in memory from offset `o` on.
abbrev pub Holds : Mem → ℕ → List ℕ → Type 0
Holds m o [] = Unit {0}
Holds m o (b ∷ bs) = (m o ≡ b) × Holds m (o + 1) bs

-- Two memories agree on the `n` bytes from `o` on.
abbrev pub Same : Mem → Mem → ℕ → ℕ → Type 0
Same m m' o n = (x : ℕ) → o ≤ x → x < o + n → m x ≡ m' x

pub length-read : (m : Mem) (o n : ℕ) → length (read m o n) ≡ n
unfolding read
length-read m o zero = refl
length-read m o (suc n) = ap suc (length-read m (o + 1) n)

pub Holds-read : (m : Mem) (o n : ℕ) → Holds m o (read m o n)
unfolding read
Holds-read m o zero = tt
Holds-read m o (suc n) = (refl, Holds-read m (o + 1) n)

pub read-Holds : (m : Mem) (o : ℕ) (bs : List ℕ) → Holds m o bs → read m o (length bs) ≡ bs
unfolding read
read-Holds m o [] h = refl
read-Holds m o (b ∷ bs) h = ground (arith, read-Holds m (o + 1) bs h.1)

pub Holds-Same :
    (m m' : Mem) (o : ℕ) (bs : List ℕ) → Same m' m o (length bs) → Holds m o bs → Holds m' o bs
Holds-Same m m' o [] s h = tt
Holds-Same m m' o (b ∷ bs) s h = (
  s o (omega arith) (omega arith) ∙ h.0,
  Holds-Same m m' (o + 1) bs (λ x l u. s x (omega arith) (omega arith)) h.1,
)

pub write_before : (m : Mem) (o : ℕ) (bs : List ℕ) (x : ℕ) → x < o → write m o bs x ≡ m x
unfolding write
write_before m o [] x h = refl
write_before m o (b ∷ bs) x h = ground (arith, write_before m (o + 1) bs x)

pub write_after : (m : Mem) (o : ℕ) (bs : List ℕ) (x : ℕ) → o + length bs ≤ x → write m o bs x ≡ m x
unfolding write
write_after m o [] x h = refl
write_after m o (b ∷ bs) x h = ground (arith, write_after m (o + 1) bs x)

-- Inside the range it does not matter what was there.
pub write_inside :
    (m m' : Mem) (o : ℕ) (bs : List ℕ) (x : ℕ)
    → o ≤ x
    → x < o + length bs
    → write m o bs x ≡ write m' o bs x
unfolding write
write_inside m m' o [] x l u = absurd (omega arith)
write_inside m m' o (b ∷ bs) x l u = ground (arith, write_inside m m' (o + 1) bs x)

pub Holds-write : (m : Mem) (o : ℕ) (bs : List ℕ) → Holds (write m o bs) o bs
unfolding write
Holds-write m o [] = tt
Holds-write m o (b ∷ bs) = (
  ground arith,
  Holds-Same (write m (o + 1) bs) (write m o (b ∷ bs)) (o + 1) bs (λ x l u. ground arith)
      (Holds-write m (o + 1) bs),
)

-- The same place, written in another way.
pub Holds-at : (m : Mem) {o p : ℕ} (bs : List ℕ) → o ≡ p → Holds m o bs → Holds m p bs
Holds-at m bs e h = subst (λ q. Holds m q bs) e h

pub Holds-append :
    (m : Mem) (o : ℕ) (xs ys : List ℕ)
    → Holds m o xs
    → Holds m (o + length xs) ys
    → Holds m o (xs ++ ys)
Holds-append m o [] ys h k = Holds-at m ys (omega arith) k
Holds-append m o (x ∷ xs) ys h k =
    (h.0, Holds-append m (o + 1) xs ys h.1 (Holds-at m ys (omega arith) k))

pub Holds-split :
    (m : Mem) (o : ℕ) (xs ys : List ℕ)
    → Holds m o (xs ++ ys)
    → Holds m o xs × Holds m (o + length xs) ys
Holds-split m o [] ys h = (tt, Holds-at m ys (omega arith) h)
Holds-split m o (x ∷ xs) ys h =
    let rest = Holds-split m (o + 1) xs ys h.1 in
    ((h.0, rest.0), Holds-at m ys (omega arith) rest.1)

pub get64-Holds : (m : Mem) (o v : ℕ) → v < 2 ^ 64 → Holds m o (le64 v) → get64 m o ≡ v
unfolding le64 get64
get64-Holds m o v l h = omega arith
