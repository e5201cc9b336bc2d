-- ===== src/Allocator/Copy.antt =====
-- What `memcpy` of one bitmap entry does to the words of the array.
use zcell.Base.{
  ℕ, zero, suc, ◌+◌, ◌*◌, ◌≤◌, ◌<◌, ◌≡◌, refl, ap, ◌∙◌, List, [], ◌∷◌, ◌++◌, length, get_or, take,
  drop, length-take, length-drop, length-append, arith,
}
use zcell.Allocator.{copy_entry}

module _ {A : Type 0} (d : A) where
  get_or-append_left :
      (xs ys : List A) (j : ℕ) → j < length xs → get_or (xs ++ ys) j d ≡ get_or xs j d
  get_or-append_left [] ys j h = absurd (omega (arith, h))
  get_or-append_left (x ∷ xs) ys zero h = refl
  get_or-append_left (x ∷ xs) ys (suc j) h = get_or-append_left xs ys j (omega (arith, h))

  get_or-append_right :
      (xs ys : List A) (j : ℕ) → get_or (xs ++ ys) (length xs + j) d ≡ get_or ys j d
  get_or-append_right [] ys j = ap (λ k. get_or ys k d) (omega arith)
  get_or-append_right (x ∷ xs) ys j =
      ap (λ k. get_or (x ∷ (xs ++ ys)) k d) (shift (length xs) j) ∙ get_or-append_right xs ys j
    where
      shift : (n j : ℕ) → suc n + j ≡ suc (n + j)
      shift n j = omega arith

  pub get_or-take : (n : ℕ) (xs : List A) (j : ℕ) → j < n → get_or (take n xs) j d ≡ get_or xs j d
  get_or-take zero xs j h = absurd (omega (arith, h))
  get_or-take (suc n) [] j h = refl
  get_or-take (suc n) (x ∷ xs) zero h = refl
  get_or-take (suc n) (x ∷ xs) (suc j) h = get_or-take n xs j (omega (arith, h))

  pub get_or-drop : (n : ℕ) (xs : List A) (j : ℕ) → get_or (drop n xs) j d ≡ get_or xs (n + j) d
  get_or-drop zero xs j = ap (λ k. get_or xs k d) (omega arith)
  get_or-drop (suc n) [] j = refl
  get_or-drop (suc n) (x ∷ xs) j = get_or-drop n xs j ∙ ap (λ k. get_or (x ∷ xs) k d) (shift n j)
    where
      shift : (n j : ℕ) → suc (n + j) ≡ suc n + j
      shift n j = omega arith

module _ (bs : List ℕ) (e : ℕ) (src : List ℕ) (eight : length src ≡ 8)
    (fits : e * 8 + 8 ≤ length bs) where
  head_length : length (take (e * 8) bs) ≡ e * 8
  head_length = length-take (e * 8) bs (omega (arith, fits))

  src_length : length (take 8 src) ≡ 8
  src_length = length-take 8 src (omega (arith, eight))

  pub length-copy_entry : length (copy_entry bs e src) ≡ length bs
  unfolding copy_entry
  length-copy_entry = omega (
    arith,
    length-append (take (e * 8) bs) (take 8 src ++ drop (e * 8 + 8) bs),
    length-append (take 8 src) (drop (e * 8 + 8) bs),
    head_length,
    src_length,
    length-drop (e * 8 + 8) bs,
    fits,
  )

  pub copy_entry_below : (j : ℕ) → j < e * 8 → get_or (copy_entry bs e src) j 0 ≡ get_or bs j 0
  unfolding copy_entry
  copy_entry_below j h =
      get_or-append_left 0 (take (e * 8) bs) (take 8 src ++ drop (e * 8 + 8) bs) j
        (omega (arith, h, head_length))
      ∙ get_or-take 0 (e * 8) bs j h

  pub copy_entry_inside :
      (k : ℕ) → k < 8 → get_or (copy_entry bs e src) (e * 8 + k) 0 ≡ get_or src k 0
  unfolding copy_entry
  copy_entry_inside k h =
      ap (λ i. get_or (copy_entry bs e src) i 0) (omega (arith, head_length))
      ∙ get_or-append_right 0 (take (e * 8) bs) (take 8 src ++ drop (e * 8 + 8) bs) k
      ∙ get_or-append_left 0 (take 8 src) (drop (e * 8 + 8) bs) k (omega (arith, h, src_length))
      ∙ get_or-take 0 8 src k h
