-- ===== src/Ipc/Rings.antt =====
-- `spdk_ring` of SPDK, as far as the messager uses it: a queue of pointers of bounded size. What one
-- call puts in and takes out is in the order in which it was put in.
use zcell.Base.{ℕ, ◌<◌, ◌≡◌, List, [], ◌∷◌, ◌++◌, length, take, drop}
use zcell.Message.{Message}

pub record SpdkRing : Type 1 where
  pub Ring : Type 0
  pub items : Ring → List Message
  pub room : Ring → ℕ
  pub enqueue : Ring → Message → Ring
  pub dequeue : Ring → ℕ → List Message × Ring
  pub count : Ring → ℕ
  pub count_items : (r : Ring) → count r ≡ length (items r)
  pub enqueue_room : (r : Ring) (m : Message) → 0 < room r → items (enqueue r m) ≡ items r ++ m ∷ []
  pub enqueue_full : (r : Ring) (m : Message) → room r ≡ 0 → items (enqueue r m) ≡ items r
  pub dequeue_taken : (r : Ring) (n : ℕ) → (dequeue r n).0 ≡ take n (items r)
  pub dequeue_left : (r : Ring) (n : ℕ) → items (dequeue r n).1 ≡ drop n (items r)
