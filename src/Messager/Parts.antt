-- ===== src/Messager/Parts.antt =====
-- One part of a message over the socket: what is sent with what is left is what was left before, and
-- what is received is the next bytes.
use mathlib.Core.List.{append_assoc, append-nil}
use zcell.Base.{
  ℕ, ◌+◌, ◌-◌, ◌≤◌, ◌≡◌, ◌≢◌, inl, inr, refl, sym, ap, ◌∙◌, true, false, Bool, List, [], ◌++◌, take,
  drop, length, length-take, length-drop, length-append, take_all, drop-drop, take_split, ◌==◌,
  ==_iff, arith, Bool-cases,
}
use zcell.Messager.{rwok, sock_rc_handle, iov, send_part, recv_part}
use zcell.Messager.Socket.{Net, Rc, moved, would_block, failed, count}

-- All `rem` bytes are there.
pub length-iov :
    (orig rem : ℕ) (buf : List ℕ) → rem ≤ orig → orig ≤ length buf → length (iov orig rem buf) ≡ rem
length-iov orig rem buf fits full =
    length-take rem (drop (orig - rem) buf) (omega (arith, length-drop (orig - rem) buf))

-- The first `k` of them, and those that are left then.
pub iov_split :
    (orig rem k : ℕ) (buf : List ℕ)
    → rem ≤ orig
    → k ≤ rem
    → take k (iov orig rem buf) ++ iov orig (rem - k) buf ≡ iov orig rem buf
iov_split orig rem k buf fits less = sym (
    take_split k (rem - k) rem (drop (orig - rem) buf) (omega arith)
    ∙ ap (λ l. take k (iov orig rem buf) ++ take (rem - k) l)
        (drop-drop (orig - rem) k (orig - (rem - k)) buf (omega arith)))

sock_rc_handle-count :
    (rc : Rc) (rem : ℕ)
    → let (code, rem') = sock_rc_handle rc rem in
      (rem' ≡ rem - count rc) × (code ≡ rwok → rem' ≡ 0) × (code ≢ rwok → rem ≢ 0 → rem' ≢ 0)
unfolding sock_rc_handle
sock_rc_handle-count would_block rem = (omega arith, λ e. cc, λ ne some_left. some_left)
sock_rc_handle-count failed rem = (omega arith, λ e. cc, λ ne some_left. some_left)
sock_rc_handle-count (moved n) rem =
    (refl, λ e. ground (arith, e), λ ne some_left z. ne (ground (arith, z)))

false-is : ◌≢◌ {A = Bool} false true
false-is h = cc

module _ {S : Type 0} (net : Net S) where
  -- What is sent of a part, and what is left of it then.
  pub send_part-iov :
      (orig rem : ℕ) (buf : List ℕ) (s : S)
      → rem ≤ orig
      → orig ≤ length buf
      → let (code, rem', s') = send_part net orig rem buf s in
        (net.outgoing s' ++ iov orig rem' buf ≡ net.outgoing s ++ iov orig rem buf)
        × (rem' ≤ rem)
        × (code ≡ rwok → rem' ≡ 0)
  unfolding send_part
  send_part-iov orig rem buf s fits full = elim (Bool-cases (rem == 0)) [
    | inl e ↦ rw (e, send_part) (refl, omega arith, λ h. (==_iff rem 0).0 e)
    | inr e ↦
        let out = net.writev s (iov orig rem buf) in
        let (less, accepted, same) = net.writes s (iov orig rem buf) in
        let (left, ended, more) = sock_rc_handle-count out.0 rem in
        let within : count out.0 ≤ rem = omega (arith, less, length-iov orig rem buf fits full) in
        rw (e, send_part)
          (
            rw (accepted, left)
                (append_assoc (net.outgoing s) (take (count out.0) (iov orig rem buf))
                    (iov orig (rem - count out.0) buf)
                  ∙ ap (λ l. net.outgoing s ++ l)
                      (iov_split orig rem (count out.0) buf fits within)),
            omega (arith, left),
            ended,
          )
  ]

  -- What is received of a part.
  pub recv_part-bytes :
      (orig rem : ℕ) (buf : List ℕ) (s : S)
      → length buf + rem ≡ orig
      → let (code, rem', buf', s') = recv_part net orig rem buf s in
        (bytes : List ℕ) × (buf' ≡ buf ++ bytes)
        × (net.incoming s ≡ bytes ++ net.incoming s')
        × (length buf' + rem' ≡ orig)
        × (code ≡ rwok → rem' ≡ 0)
        × (code ≢ rwok → rem' ≢ 0)
  unfolding recv_part
  recv_part-bytes orig rem buf s full = elim (Bool-cases (rem == 0)) [
    | inl e ↦
        rw (e, recv_part)
          ([], sym (append-nil buf), refl, full, λ h. (==_iff rem 0).0 e, λ ne. absurd (ne refl))
    | inr e ↦
        let got = net.readv s rem in
        let (next, less, counted, same) = net.reads s rem in
        let (left, ended, more) = sock_rc_handle-count got.0 rem in
        let before : take (orig - rem) buf ≡ buf = take_all (orig - rem) buf (omega arith) in
        rw (e, recv_part)
          (
            got.1,
            ap (λ l. l ++ got.1) before,
            next,
            rw before (omega (arith, left, counted, less, length-append buf got.1)),
            ended,
            λ ne. more ne (λ z. false-is (sym e ∙ (==_iff rem 0).1 z)),
          )
  ]
