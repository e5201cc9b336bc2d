-- ===== src/Messager/Socket.antt =====
-- The socket under a session, `net_impl` of net.h: a parameter of the messager. A call moves some
-- bytes, finds that it would block, or fails.
use zcell.Base.{ℕ, ◌≤◌, ◌≡◌, List, ◌++◌, take, length}

-- What `readv` and `writev` return: a count of bytes, or a negative number with `errno` EAGAIN or
-- EWOULDBLOCK, or one with another `errno`. The end of the stream is a failure.
pub data Rc : Type 0 where
  moved : ℕ → Rc
  would_block failed : Rc

abbrev pub count : Rc → ℕ
count (moved n) = n
count _ = 0

-- A socket in the state `S`. `incoming` are the bytes that arrive and are not read yet, `outgoing`
-- those that were accepted for sending.
pub record Net (S : Type 0) : Type 0 where
  pub readv : S → ℕ → Rc × List ℕ × S
  pub writev : S → List ℕ → Rc × S
  pub incoming : S → List ℕ
  pub outgoing : S → List ℕ
  -- A read takes the next bytes, no more than asked for.
  pub reads :
      (s : S) (n : ℕ)
      → let (rc, bytes, s') = readv s n in
        (incoming s ≡ bytes ++ incoming s')
        × (length bytes ≤ n)
        × (count rc ≡ length bytes)
        × (outgoing s' ≡ outgoing s)
  -- A write accepts some of the first bytes.
  pub writes :
      (s : S) (bytes : List ℕ)
      → let (rc, s') = writev s bytes in
        (count rc ≤ length bytes)
        × (outgoing s' ≡ outgoing s ++ take (count rc) bytes)
        × (incoming s' ≡ incoming s)
