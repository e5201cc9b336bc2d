-- ===== src/Zstore/Mount/Pages.antt =====
-- What the loops of `zstore_mkfs` leave in memory: pages of one byte, and nothing else changes.
use zcell.Base.{
  ℕ, zero, suc, ◌+◌, ◌*◌, ◌≤◌, ◌<◌, ◌≡◌, refl, ap, ◌∙◌, length, length-replicate, arith, Bool-cases,
  ltb, inl, inr, false, ◌-◌,
}
use zcell.Memory.{Mem, write, write_before, write_after, get64}
use zcell.Zstore.Objects.Create.{write-replicate}
use zcell.Zstore.Mount.{page, fill_pages}

length-page : (b : ℕ) → length (page b) ≡ 4096
unfolding page
length-page b = length-replicate 4096 b

write-page : (m : Mem) (base b x : ℕ) → x < 4096 → write m base (page b) (base + x) ≡ b
unfolding page
write-page m base b x h = write-replicate m 4096 base b x h

pub fill_pages-before : (b : ℕ) (m : Mem) (base n x : ℕ) → x < base → fill_pages b m base n x ≡ m x
unfolding fill_pages
fill_pages-before b m base zero x h = refl
fill_pages-before b m base (suc n) x h =
    fill_pages-before b (write m base (page b)) (base + 4096) n x (omega (arith, h))
    ∙ write_before m base (page b) x h

pub fill_pages-behind :
    (b : ℕ) (m : Mem) (base n x : ℕ) → base + 4096 * n ≤ x → fill_pages b m base n x ≡ m x
unfolding fill_pages
fill_pages-behind b m base zero x h = refl
fill_pages-behind b m base (suc n) x h =
    fill_pages-behind b (write m base (page b)) (base + 4096) n x (omega (arith, h))
    ∙ write_after m base (page b) x (omega (arith, h, length-page b))

pub fill_pages-inside :
    (b : ℕ) (m : Mem) (base n x : ℕ) → x < 4096 * n → fill_pages b m base n (base + x) ≡ b
unfolding fill_pages
fill_pages-inside b m base zero x h = absurd (omega (arith, h))
fill_pages-inside b m base (suc n) x h = elim (Bool-cases (ltb x 4096)) [
  | inl first ↦
      fill_pages-before b (write m base (page b)) (base + 4096) n (base + x) (ground arith)
      ∙ write-page m base b x (ground arith)
  | inr later ↦
      ap (fill_pages b (write m base (page b)) (base + 4096) n) (omega (arith, at_least x later))
      ∙ fill_pages-inside b (write m base (page b)) (base + 4096) n (x - 4096)
          (omega (arith, h, at_least x later))
]
  where
    at_least : (x : ℕ) → ltb x 4096 ≡ false → 4096 ≤ x
    at_least x e = ground arith

-- A word whose bytes are all zero.
pub get64-zero : (m : Mem) (o : ℕ) → ((x : ℕ) → o ≤ x → x < o + 8 → m x ≡ 0) → get64 m o ≡ 0
unfolding get64
get64-zero m o h = omega (
  arith,
  h o (omega arith) (omega arith),
  h (o + 1) (omega arith) (omega arith),
  h (o + 1 + 1) (omega arith) (omega arith),
  h (o + 1 + 1 + 1) (omega arith) (omega arith),
  h (o + 1 + 1 + 1 + 1) (omega arith) (omega arith),
  h (o + 1 + 1 + 1 + 1 + 1) (omega arith) (omega arith),
  h (o + 1 + 1 + 1 + 1 + 1 + 1) (omega arith) (omega arith),
  h (o + 1 + 1 + 1 + 1 + 1 + 1 + 1) (omega arith) (omega arith),
)
