-- ===== src/Message/Wire.antt =====
-- The bytes of a message header, `msg_hdr_t`: its fields are packed, low byte first.
use zcell.Base.{ℕ, zero, suc, ◌+◌, ◌*◌, ◌/◌, ◌%◌, ◌^◌, ◌<◌, ◌≡◌, List, [], ◌∷◌, take, drop, arith}
use native.Mathlib.Nat.{pow-suc}
use zcell.Message.{MsgHdr}

-- A number of `n` bytes, low byte first.
unfoldable pub le : ℕ → ℕ → List ℕ
le zero v = []
le (suc n) v = v % 256 ∷ le n (v / 256)

unfoldable pub of_le : List ℕ → ℕ
of_le [] = 0
of_le (b ∷ bs) = b + 256 * of_le bs

pub of_le-le : (n v : ℕ) → v < 256 ^ n → of_le (le n v) ≡ v
unfolding le of_le
of_le-le zero v h = omega arith
of_le-le (suc n) v h = omega (arith, of_le-le n (v / 256) (omega (arith, pow-suc 256 n)))

-- The packed structure `msg_hdr_t` whose memory holds these bytes: messager.c receives a header by
-- reading its bytes into the structure, and the fields are what the structure's layout then gives.
unfoldable pub hdr_of : List ℕ → MsgHdr
hdr_of bs = record {
  seq = of_le (take 8 bs);
  type = of_le (take 1 (drop 8 bs));
  status = of_le (take 1 (drop 9 bs));
  magic = of_le (take 1 (drop 10 bs));
  meta_length = of_le (take 1 (drop 11 bs));
  data_length = of_le (take 4 (drop 12 bs));
  slo = of_le (take 2 (drop 16 bs));
  rsv0 = of_le (take 4 (drop 18 bs));
  rsv1 = of_le (take 4 (drop 22 bs));
}
