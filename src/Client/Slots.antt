-- ===== src/Client/Slots.antt =====
-- The ids of a channel: an operation is free, with its bit set, or in use and known by its own id.
use zcell.Base.{
  ℕ, ◌+◌, ◌*◌, ◌≤◌, ◌<◌, ◌≡◌, ◌≢◌, inl, inr, refl, sym, ap, ◌∙◌, true, false, List, none, some,
  length, length-set, length-replicate, inl, inr, get_elem?-some, get_elem?, get_elem?-set,
  get_elem?-lt, get_elem?-replicate, set, replicate, arith, if◌then◌else◌, ltb, ◌==◌, ==_iff,
  Bool-cases,
}
use zcell.Bitmap
use zcell.Bitmap.{Bitmap, get_bit, clr_bit, set_bit, find_next_set_and_clr}
use zcell.Bitmap.Words.{
  constructor-length, constructor-AreWords, constructor-get_bit, set_bit-length, set_bit-AreWords,
  find_next_set_and_clr-AreWords,
}
use zcell.Bitmap.Laws.{AreWords, get_bit-update, find_next_set_and_clr_takes}
use zcell.Client.{OpCtx, is_new, IoChannel, no_op}

-- The bitmap has one bit for each operation, set where the operation is free; an operation in use
-- has its own id in its message.
pub record Slots (qd : ℕ) (b : Bitmap) (hint : ℕ) (ops : List OpCtx) : Type 0 where
  pub size : length ops ≡ qd
  pub whole : 64 * length b.words ≡ qd
  pub words : AreWords b
  pub hinted : hint ≤ qd
  pub agree : (i : ℕ) (op : OpCtx) → get_elem? ops i ≡ some op → get_bit b i ≡ is_new op.state
  pub own_id :
      (i : ℕ) (op : OpCtx)
      → get_elem? ops i ≡ some op
      → is_new op.state ≡ false
      → op.message.header.rsv0 ≡ i

abbrev pub Inv : IoChannel → Type 0
Inv ch = Slots ch.queue_depth ch.op_ctxs_bitmap ch.bitmap_hint ch.op_ctxs

-- One operation changes, and its bit with it.
pub Slots-set :
    (qd : ℕ) (b c : Bitmap) (hint next : ℕ) (ops : List OpCtx) (id : ℕ) (op : OpCtx)
    → Slots qd b hint ops
    → length c.words ≡ length b.words
    → AreWords c
    → next ≤ qd
    → ((j : ℕ) → get_bit c j ≡ (if j == id then is_new op.state else get_bit b j))
    → (is_new op.state ≡ false → op.message.header.rsv0 ≡ id)
    → Slots qd c next (set ops id op)
Slots-set qd b c hint next ops id op s same words bound bits own = record {
  size = length-set ops id op ∙ s.size;
  whole = omega (arith, same, s.whole);
  words = words;
  hinted = bound;
  agree = λ i w e. elim (get_elem?-set ops id i op w e) [
    | inl (h, k) ↦ bits i ∙ rw ((==_iff i id).1 (sym h)) (ap (λ o. is_new o.state) (sym k))
    | inr (h, k) ↦ bits i ∙ rw (other i h) (s.agree i w k)
  ];
  own_id = λ i w e n. elim (get_elem?-set ops id i op w e) [
    | inl (h, k) ↦
        ap (λ o. o.message.header.rsv0) k ∙ own (ap (λ o. is_new o.state) (sym k) ∙ n) ∙ h
    | inr (h, k) ↦ s.own_id i w k n
  ];
}
  where
    other : (i : ℕ) → id ≢ i → (i == id) ≡ false
    other i ne = ground arith

-- A new channel has all its ids free. The depth is a whole number of words: `bitmap_constructor`
-- sets all the bits of the last word.
pub io_channel_new-Slots :
    (qd : ℕ) → Slots (64 * qd) (Bitmap.constructor (64 * qd) true) 0 (replicate (64 * qd) no_op)
io_channel_new-Slots qd = record {
  size = length-replicate (64 * qd) no_op;
  whole = omega (arith, constructor-length (64 * qd));
  words = constructor-AreWords (64 * qd);
  hinted = omega arith;
  agree = λ i op e.
      let (same, below) = get_elem?-replicate (64 * qd) i no_op op e in
      constructor-get_bit (64 * qd) i (omega (arith, below, constructor-length (64 * qd)))
      ∙ ap (λ o. is_new o.state) (sym same);
  own_id = λ i op e n.
      let (same, below) = get_elem?-replicate (64 * qd) i no_op op e in
      let bad : true ≡ false = ap (λ o. is_new o.state) (sym same) ∙ n in cc;
}

-- The bit that an allocation takes is that of a new operation.
pub Slots-take :
    (qd : ℕ) (b : Bitmap) (hint : ℕ) (ops : List OpCtx) (id : ℕ)
    → Slots qd b hint ops
    → (find_next_set_and_clr b hint).0 ≡ some id
    → (id < qd) × ((was : OpCtx) × ((get_elem? ops id ≡ some was) × (is_new was.state ≡ true)))
Slots-take qd b hint ops id s f =
    let (same, words, inside) =
      find_next_set_and_clr-AreWords b hint s.words (omega (arith, s.whole, s.hinted)) in
    let below : id < qd = omega (arith, s.whole, inside id f) in
    let (was, at) = get_elem?-some ops id (omega (arith, s.size)) in
    let (is_set, others) =
      (find_next_set_and_clr_takes b hint s.words (omega (arith, s.whole, s.hinted))).0 id f in
    (below, (was, (at, sym (s.agree id was at) ∙ is_set)))

-- There is no bit to take when all operations are in use.
pub Slots-full :
    (qd : ℕ) (b : Bitmap) (hint : ℕ) (ops : List OpCtx)
    → Slots qd b hint ops
    → (find_next_set_and_clr b hint).0 ≡ none
    → (i : ℕ) (op : OpCtx) → get_elem? ops i ≡ some op
    → is_new op.state ≡ false
Slots-full qd b hint ops s f i op at =
    let (same, clear) =
      (find_next_set_and_clr_takes b hint s.words (omega (arith, s.whole, s.hinted))).1 f in
    sym (s.agree i op at) ∙ clear i (omega (arith, s.whole, s.size, get_elem?-lt ops i op at))

-- Taking the id, and writing an operation that is in use and knows it.
pub Slots-taken :
    (qd : ℕ) (b : Bitmap) (hint : ℕ) (ops : List OpCtx) (id : ℕ) (op : OpCtx)
    → Slots qd b hint ops
    → (find_next_set_and_clr b hint).0 ≡ some id
    → is_new op.state ≡ false
    → op.message.header.rsv0 ≡ id
    → Slots qd (find_next_set_and_clr b hint).1 (id + 1) (set ops id op)
Slots-taken qd b hint ops id op s f used own =
    let (same, words, inside) =
      find_next_set_and_clr-AreWords b hint s.words (omega (arith, s.whole, s.hinted)) in
    let (is_set, others) =
      (find_next_set_and_clr_takes b hint s.words (omega (arith, s.whole, s.hinted))).0 id f in
    Slots-set qd b (find_next_set_and_clr b hint).1 hint (id + 1) ops id op s same words
      (omega (arith, s.whole, inside id f)) (λ j. rw used (others j)) (λ n. own)

-- A change of an operation that leaves it in use, under its own id.
pub Slots-keep :
    (qd : ℕ) (b : Bitmap) (hint : ℕ) (ops : List OpCtx) (id : ℕ) (was op : OpCtx)
    → Slots qd b hint ops
    → get_elem? ops id ≡ some was
    → is_new op.state ≡ is_new was.state
    → (is_new op.state ≡ false → op.message.header.rsv0 ≡ id)
    → Slots qd b hint (set ops id op)
Slots-keep qd b hint ops id was op s at same own =
    Slots-set qd b b hint hint ops id op s refl s.words s.hinted
      (λ j. elim (Bool-cases (j == id)) [
        | inl e ↦ rw (e, same) (ap (get_bit b) ((==_iff j id).0 e) ∙ s.agree id was at)
        | inr e ↦ rw e refl
      ])
      own

-- Freeing an id.
pub Slots-free :
    (qd : ℕ) (b : Bitmap) (hint : ℕ) (ops : List OpCtx) (id : ℕ) (op : OpCtx)
    → Slots qd b hint ops
    → id < qd
    → is_new op.state ≡ true
    → Slots qd (Bitmap.set_bit b id) (if ltb id hint then id else hint) (set ops id op)
Slots-free qd b hint ops id op s below free =
    Slots-set qd b (Bitmap.set_bit b id) hint (if ltb id hint then id else hint) ops id op s
      (set_bit-length b id) (set_bit-AreWords b id s.words) (ground (arith, s.hinted))
      (λ j. rw free ((get_bit-update b id j (omega (arith, s.whole))).0)) (λ n. cc)
