-- ===== src/BlockDevice/Once.antt =====
-- Requests for blocks under any sequence of submissions, responses and polls.
use mathlib.Core.Option.{some-injective, some-ne-none}
use mathlib.Core.List.{map-append}
use zcell.Base.{
  ℕ, zero, suc, ◌+◌, ◌≤◌, ◌<◌, ◌≡◌, inl, inr, refl, sym, ap, ◌∙◌, true, false, List, [], ◌∷◌, ◌++◌,
  Option, some, map, take, length, length-replicate, replicate, if◌then◌else◌, ◌==◌, arith, subst,
  All, get_elem?-replicate,
}
use zcell.Message.{Message, local}
use zcell.Client.{OpCtx, op_completed, is_new, IoChannel, no_op, get_io_channel, on_recv_msg}
use zcell.Client.Steps.{Answers}
use zcell.Client.Good.{Good}
use zcell.Client.Lifecycle.{get_io_channel-Good, get_io_channel_made}
use zcell.Client.Requests.{Args}
use zcell.BlockDevice.{
  ZcellDisk, BdevIo, Outcome, issued, dropped, Completion, submit_request, poll_channel,
}
use zcell.BlockDevice.Held.{times, times-append, busy, held, held-set}
use zcell.BlockDevice.Issue.{is_io, submit_request-Issued}
use zcell.BlockDevice.Complete.{listed, Distinct, Completed, answer_of, Reaped, poll_channel-Freed}
use zcell.BlockDevice.Reap.{Issued-Reaped, answer-Reaped}

-- What submissions of reads and writes with at most one buffer, responses for operations in progress,
-- and polls make of a channel: the addresses of the requests submitted, in their order, the completions, and
-- the requests without a buffer, which are dropped. A submission to a full channel stops the program.
pub data Run (disk : ZcellDisk) (start : IoChannel)
    : List ℕ → List Completion → List ℕ → IoChannel → Type 0 where
  opened : Run disk start [] [] [] start
  submits :
      {sub : List ℕ} {cpl : List Completion} {lost : List ℕ} {ch : IoChannel} (meta_buffer : ℕ)
      (io : BdevIo) (args : Args) (next : IoChannel) (sent : List Message)
      → Run disk start sub cpl lost ch
      → is_io io.io_type ≡ true
      → io.iovcnt ≤ 1
      → 0 < io.iov_base
      → submit_request disk ch meta_buffer io true ≡ some (issued args next sent)
      → Run disk start (sub ++ io.addr ∷ []) cpl lost next
  drops :
      {sub : List ℕ} {cpl : List Completion} {lost : List ℕ} {ch : IoChannel} (meta_buffer : ℕ)
      (io : BdevIo)
      → Run disk start sub cpl lost ch
      → submit_request disk ch meta_buffer io true ≡ some dropped
      → Run disk start (sub ++ io.addr ∷ []) cpl (lost ++ io.addr ∷ []) ch
  answers :
      {sub : List ℕ} {cpl : List Completion} {lost : List ℕ} {ch : IoChannel} (msg : Message)
      (op : OpCtx) (next : IoChannel)
      → Run disk start sub cpl lost ch
      → Answers ch msg op
      → on_recv_msg ch msg ≡ some next
      → Run disk start sub cpl lost next
  polls :
      {sub : List ℕ} {cpl : List Completion} {lost : List ℕ} {ch : IoChannel} (cs : List Completion)
      (next : IoChannel)
      → Run disk start sub cpl lost ch
      → poll_channel ch ≡ some (cs, next)
      → Run disk start sub (cpl ++ cs) lost next

record Sound (sub : List ℕ) (cpl : List Completion) (lost : List ℕ) (ch : IoChannel) : Type 0 where
  good : Good ch
  reaped : Reaped ch
  accounts : (a : ℕ) → times a sub ≡ times a (map (λ c. c.0) cpl) + times a lost + held a ch.op_ctxs

held-replicate : (a n : ℕ) → held a (replicate n no_op) ≡ 0
held-replicate a zero = refl
held-replicate a (suc n) = omega (arith, held-replicate a n)

none-Completed : (n j : ℕ) → Completed (replicate n no_op) j → ⊥
none-Completed n j c =
    let (is, below) = get_elem?-replicate n j no_op c.0 c.1 in
    let bad : true ≡ false = ap (λ o. is_new o.state) (sym is) ∙ ap is_new c.2 in cc

opened-Sound :
    (session : ℕ) (ch : IoChannel) → get_io_channel local session 512 ≡ some ch → Sound [] [] [] ch
opened-Sound session ch h =
    let (ops, nr, list, depth) = get_io_channel_made local session 512 ch (omega arith) h in
    let empty : take ch.cpl_nr ch.cpl_ops ≡ [] = ap (λ n. take n ch.cpl_ops) nr in
    record {
      good = get_io_channel-Good local session 8 ch (inl refl) (omega arith) h;
      reaped = record {
        fits = omega (arith, nr);
        size = ap length list ∙ length-replicate {A = ℕ} 512 0 ∙ sym depth;
        bounded = omega (arith, depth);
        distinct = subst Distinct (sym empty) tt;
        done = subst (All (Completed ch.op_ctxs)) (sym empty) tt;
        all = λ j c. absurd (none-Completed 512 j (subst (λ l. Completed l j) ops c));
      };
      accounts = λ a. omega (arith, ap (held a) ops, held-replicate a 512);
    }

-- The channel of a request that is issued.
channel_of : IoChannel → Option Outcome → IoChannel
channel_of ch (some (issued args next sent)) = next
channel_of ch _ = ch

Run-Sound :
    {disk : ZcellDisk} {start ch : IoChannel} {sub : List ℕ} {cpl : List Completion} {lost : List ℕ}
    → Sound [] [] [] start
    → Run disk start sub cpl lost ch
    → Sound sub cpl lost ch
unfolding channel_of
Run-Sound s opened = s
Run-Sound {disk} s
      (submits {sub} {cpl} {lost} {ch} meta_buffer io args next sent r kind one buffer h) =
    let t = Run-Sound s r in
    elim (submit_request-Issued disk ch meta_buffer io t.good kind one buffer) [
      | inl (id, was, op, n, ran, carries, i) ↦
          let is : n ≡ next = ap (channel_of ch) (sym ran ∙ h) in
          subst (Sound (sub ++ io.addr ∷ []) cpl lost) is (record {
            good = i.good;
            reaped = Issued-Reaped ch n io.addr id was op i t.reaped;
            accounts = λ a.
                let was_free : busy a was ≡ 0 = rw i.free refl in
                let used : busy a op ≡ (if io.addr == a then 1 else 0) =
                  ap (λ s. if is_new s then 0 else (if op.user_data == a then 1 else 0)) i.state
                  ∙ ap (λ (u : ℕ). if u == a then 1 else 0) i.user in
                omega (
                  arith,
                  t.accounts a,
                  times-append a sub (io.addr ∷ []),
                  ap (held a) i.ops,
                  held-set a ch.op_ctxs id was op i.at,
                  was_free,
                  used,
                );
          })
      | inr (ran, full) ↦ absurd (some-ne-none (issued args next sent) (sym h ∙ ran))
    ]
Run-Sound s (drops {sub} {cpl} {lost} {ch} meta_buffer io r h) =
    let t = Run-Sound s r in
    record {
      good = t.good;
      reaped = t.reaped;
      accounts = λ a. omega (
        arith,
        t.accounts a,
        times-append a sub (io.addr ∷ []),
        times-append a lost (io.addr ∷ []),
      );
    }
Run-Sound s (answers {sub} {cpl} {lost} {ch} msg op next r a h) =
    let t = Run-Sound s r in
    let (good, reaped, ops) = answer-Reaped ch next msg op t.good a h t.reaped in
    record {
      good = good;
      reaped = reaped;
      accounts = λ b.
          let used : busy b op ≡ (if op.user_data == b then 1 else 0) =
            ap (λ s. if is_new s then 0 else (if op.user_data == b then 1 else 0)) a.pending in
          omega (
            arith,
            t.accounts b,
            ap (held b) ops,
            held-set b ch.op_ctxs msg.header.rsv0 op
                (record op { message = msg; state = op_completed }) a.at,
            used,
          );
    }
Run-Sound s (polls {sub} {cpl} {lost} {ch} cs next r h) =
    let t = Run-Sound s r in
    let (ds, n, ran, f, reaped) = poll_channel-Freed ch t.good t.reaped in
    let is = some-injective (ds, n) (cs, next) (sym ran ∙ h) in
    subst (λ p. Sound sub (cpl ++ p.0) lost p.1) is
      (record {
        good = f.good;
        reaped = reaped;
        accounts = λ a. omega (
          arith,
          t.accounts a,
          f.held_less a,
          ap (times a) (map-append (λ (c : Completion). c.0) cpl ds),
          times-append a (map (λ c. c.0) cpl) (map (λ c. c.0) ds),
        );
      })

-- From a channel of 512 operations as the device opens it, after any run of reads and writes with
-- at most one buffer that are handed to the messager, of requests without a buffer, which are
-- dropped, of responses for operations in progress, and of polls: every request has been submitted
-- as often as it has been completed, was dropped, and is held by operations that are in use. So a
-- request that is submitted once is completed at most once, and is completed, dropped or in
-- progress.
pub Run-once :
    (disk : ZcellDisk) (session : ℕ) (start ch : IoChannel) (sub : List ℕ) (cpl : List Completion)
    (lost : List ℕ) (a : ℕ)
    → get_io_channel local session 512 ≡ some start
    → Run disk start sub cpl lost ch
    → times a sub ≡ times a (map (λ c. c.0) cpl) + times a lost + held a ch.op_ctxs
Run-once disk session start ch sub cpl lost a h r =
    (Run-Sound (opened-Sound session start h) r).accounts a

-- After any such run, a poll returns. It completes the requests of exactly the operations that have their
-- responses, each once, with success where the status of the response is 0; and no operation is left
-- that has its response.
pub Run-poll :
    (disk : ZcellDisk) (session : ℕ) (start ch : IoChannel) (sub : List ℕ) (cpl : List Completion)
    (lost : List ℕ)
    → get_io_channel local session 512 ≡ some start
    → Run disk start sub cpl lost ch
    → (ids : List ℕ) × (next : IoChannel) × (poll_channel ch
        ≡ some (map (answer_of ch.op_ctxs) ids, next))
      × Distinct ids
      × All (Completed ch.op_ctxs) ids
      × ((j : ℕ) → Completed ch.op_ctxs j → listed j ids ≡ true)
      × ((j : ℕ) → ¬ Completed next.op_ctxs j)
Run-poll disk session start ch sub cpl lost h r =
    let t = Run-Sound (opened-Sound session start h) r in
    let (cs, next, ran, f, reaped) = poll_channel-Freed ch t.good t.reaped in
    (
      take ch.cpl_nr ch.cpl_ops,
      next,
      ran ∙ ap (λ (l : List Completion). some (l, next)) f.answers,
      t.reaped.distinct,
      t.reaped.done,
      t.reaped.all,
      λ j c.
          let (before, out) = f.left j c in
          let bad : true ≡ false = sym (t.reaped.all j before) ∙ out in cc,
    )
