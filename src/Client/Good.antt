-- ===== src/Client/Good.antt =====
-- Each call of the client library keeps the ids of a channel.
use mathlib.Core.Option.{some-injective, some-ne-none}
use zcell.Base.{
  ℕ, ◌≤◌, ◌≡◌, inl, inr, refl, sym, ap, ◌∙◌, true, false, ◌&&◌, List, [], ◌∷◌, Option, none, some,
  get_elem?, ltb, leb, Bool-cases, Option-cases, All, All-weaken, and_both, subst,
}
use zcell.Message.{Message}
use zcell.Client.{
  OpCtx, OpState, op_new, op_in_progress, op_waiting_submit, op_completed, op_end, is_new,
  is_waiting, is_completed, is_end, IoChannel, Ret, prepare_op_common, free_op, freed,
  all_submittable, mark_in_progress, io_submit_to_channel, io_poll_channel, op_claim_result,
  op_destroy, op_set_userdata, put_op,
}
use zcell.Client.Slots.{Inv, Slots-keep}
use zcell.Client.Steps.{
  Known, InUse, prepare_op_common-Prepares, Prepares, mark_in_progress-Inv, op_destroy-Inv,
}

waiting_state : (s : OpState) → is_waiting s ≡ true → s ≡ op_waiting_submit
waiting_state op_new h = cc
waiting_state op_waiting_submit h = refl
waiting_state op_in_progress h = cc
waiting_state op_completed h = cc
waiting_state op_end h = cc

completed_state : (s : OpState) → is_completed s ≡ true → s ≡ op_completed
completed_state op_new h = cc
completed_state op_waiting_submit h = cc
completed_state op_in_progress h = cc
completed_state op_completed h = refl
completed_state op_end h = cc

-- A submission that is accepted is of operations that wait.
abbrev pub Waits : IoChannel → ℕ → Type 0
Waits ch id = (op : OpCtx) × (get_elem? ch.op_ctxs id ≡ some op) × (op.state ≡ op_waiting_submit)

all_submittable-Waits :
    (ch : IoChannel) (ops : List ℕ) → all_submittable ch ops ≡ some true → All (Waits ch) ops
unfolding all_submittable
all_submittable-Waits ch [] h = tt
all_submittable-Waits ch (opd ∷ ops) h = elim (Option-cases (get_elem? ch.op_ctxs opd)) [
  | inl e ↦ absurd (some-ne-none true (sym (rw (e, all_submittable) at h)))
  | inr (op, e) ↦
      let test = leb opd ch.queue_depth && is_waiting op.state in
      elim (Bool-cases test) [
        | inl w ↦ (
          (
            op,
            e,
            waiting_state op.state (and_both (leb opd ch.queue_depth) (is_waiting op.state) w).1,
          ),
          all_submittable-Waits ch ops (rw (e, w, all_submittable) at h),
        )
        | inr w ↦ (let bad : some false ≡ some true = rw (e, w, all_submittable) at h in cc)
      ]
]

Waits-InUse : (ch : IoChannel) (id : ℕ) → Waits ch id → InUse ch id
Waits-InUse ch id w op at =
    let (was, e, waits) = w in
    let same : was ≡ op = some-injective was op (sym e ∙ at) in rw (← same, waits) refl

mark_in_progress_type :
    (ch : IoChannel) (ops : List ℕ) → (mark_in_progress ch ops).session_type ≡ ch.session_type
unfolding mark_in_progress
mark_in_progress_type ch [] = refl
mark_in_progress_type ch (opd ∷ ops) = elim (Option-cases (get_elem? ch.op_ctxs opd)) [
  | inl e ↦ rw (e, mark_in_progress) (mark_in_progress_type ch ops)
  | inr (op, e) ↦
      rw (e, mark_in_progress)
        (mark_in_progress_type (put_op ch opd (record op { state = op_in_progress })) ops)
]

-- The channel is known, and its ids agree with its operations.
unfoldable pub Good : IoChannel → Type 0
Good ch = Known ch × Inv ch

same_next :
    {A : Type 0} (x y : A) (r s : Ret)
    → ◌≡◌ {A = Option (Ret × A)} (some (r, x)) (some (s, y))
    → x ≡ y
same_next x y r s e = ap (λ p. p.1) (some-injective (r, x) (s, y) e)

pub prepare-Good :
    (ch : IoChannel) (op_type meta_size meta_buffer data_length data_buffer : ℕ) (ret : Ret)
    (next : IoChannel)
    → meta_size ≤ 255
    → Good ch
    → prepare_op_common ch op_type meta_size meta_buffer data_length data_buffer ≡ some (ret, next)
    → Good next
unfolding Good Prepares
prepare-Good ch op_type meta_size meta_buffer data_length data_buffer ret next short g e =
    elim (prepare_op_common-Prepares op_type meta_size meta_buffer data_length data_buffer ch g.1
      g.0 short) [
        | inl p ↦
            let (id, was, after, below, at, free, result, type, ops, list, inv) = p in
            let same : after ≡ next = same_next after next _ _ (sym result ∙ e) in
            subst (λ c. Known c × Inv c) same (rw type g.0, inv)
        | inr (result, full) ↦
            subst (λ c. Known c × Inv c) (same_next ch next _ _ (sym result ∙ e)) g
      ]

pub submit-Good :
    (ch : IoChannel) (ops : List ℕ) (ret : Ret) (next : IoChannel) (sent : List Message)
    → Good ch
    → io_submit_to_channel ch ops ≡ some (ret, next, sent)
    → Good next
unfolding Good io_submit_to_channel
submit-Good ch ops ret next sent g e = elim (Option-cases (all_submittable ch ops)) [
  | inl a ↦ absurd (some-ne-none (ret, next, sent) (sym (rw (a, io_submit_to_channel) at e)))
  | inr (verdict, a) ↦ elim (Bool-cases verdict) [
    | inl v ↦
        let fits : all_submittable ch ops ≡ some true = a ∙ ap (λ b. some b) v in
        let same : mark_in_progress ch ops ≡ next =
          ap (λ p. p.1) (some-injective _ _ (rw (fits, io_submit_to_channel) at e)) in
        subst (λ c. Known c × Inv c) same
          (
            rw (mark_in_progress_type ch ops) g.0,
            mark_in_progress-Inv ch ops g.1
                (All-weaken (Waits-InUse ch) ops (all_submittable-Waits ch ops fits)),
          )
    | inr v ↦
        let refused : all_submittable ch ops ≡ some false = a ∙ ap (λ b. some b) v in
        let same : ch ≡ next =
          ap (λ p. p.1) (some-injective _ _ (rw (refused, io_submit_to_channel) at e)) in
        subst (λ c. Known c × Inv c) same g
  ]
]

pub poll-Good : (ch : IoChannel) (min max : ℕ) → Good ch → Good (io_poll_channel ch min max).1
unfolding Good io_poll_channel
poll-Good ch min max g = elim (Bool-cases (ltb max min)) [
  | inl e ↦ rw (e, io_poll_channel) g
  | inr e ↦ rw (e, io_poll_channel) g
]

-- Whatever is written to an operation that is in use, its header apart, the channel stays good.
put-Good :
    (ch : IoChannel) (id : ℕ) (was op : OpCtx)
    → Good ch
    → get_elem? ch.op_ctxs id ≡ some was
    → is_new op.state ≡ is_new was.state
    → op.message ≡ was.message
    → Good (put_op ch id op)
unfolding Good
put-Good ch id was op g at same kept = (
  g.0,
  Slots-keep ch.queue_depth ch.op_ctxs_bitmap ch.bitmap_hint ch.op_ctxs id was op g.1 at same
      (λ n. ap (λ m. m.header.rsv0) kept ∙ g.1.own_id id was at (sym same ∙ n)),
)

pub set_userdata-Good :
    (ch : IoChannel) (id userdata : ℕ) (next : IoChannel)
    → Good ch
    → op_set_userdata ch id userdata ≡ some next
    → Good next
unfolding op_set_userdata
set_userdata-Good ch id userdata next g e = elim (Option-cases (get_elem? ch.op_ctxs id)) [
  | inl a ↦ absurd (some-ne-none next (sym (rw (a, op_set_userdata) at e)))
  | inr (op, a) ↦
      let user : OpCtx = record op { user_data = userdata } in
      subst Good (some-injective (put_op ch id user) next (rw (a, op_set_userdata) at e))
        (put-Good ch id op user g a refl refl)
]

pub claim-Good : (ch : IoChannel) (id : ℕ) → Good ch → Good (op_claim_result ch id).1
unfolding op_claim_result
claim-Good ch id g = elim (Option-cases (get_elem? ch.op_ctxs id)) [
  | inl a ↦ rw (a, op_claim_result) g
  | inr (op, a) ↦
      let test = ltb id ch.queue_depth && is_completed op.state in
      elim (Bool-cases test) [
        | inl t ↦
            let complete : op.state ≡ op_completed =
              completed_state op.state
                (and_both (ltb id ch.queue_depth) (is_completed op.state) t).1 in
            rw (a, t, op_claim_result)
              (put-Good ch id op (record op { state = op_end }) g a (rw complete refl) refl)
        | inr t ↦ rw (a, t, op_claim_result) g
      ]
]

-- An operation that has not ended cannot be freed.
pub free_op-ended :
    (ch : IoChannel) (id : ℕ) (op : OpCtx) → is_end op.state ≡ false → free_op ch id op ≡ none
unfolding free_op
free_op-ended ch id op h = rw (h, free_op) refl

pub destroy-Good :
    (ch : IoChannel) (id : ℕ) (ret : Ret) (next : IoChannel)
    → Good ch
    → op_destroy ch id ≡ some (ret, next)
    → Good next
unfolding op_destroy Good
destroy-Good ch id ret next g e = elim (Option-cases (get_elem? ch.op_ctxs id)) [
  | inl a ↦ subst Good (same_next ch next _ _ (rw (a, op_destroy) at e)) g
  | inr (op, a) ↦ elim (Bool-cases (ltb id ch.queue_depth)) [
    | inr t ↦ subst Good (same_next ch next _ _ (rw (a, t, op_destroy) at e)) g
    | inl t ↦ go op a t op.state refl
  ]
]
  where
    go :
        (op : OpCtx)
        → get_elem? ch.op_ctxs id ≡ some op
        → ltb id ch.queue_depth ≡ true
        → (s : OpState) → op.state ≡ s
        → Good next
    go op a t op_new k = absurd (some-ne-none (ret, next) (sym (rw (a, t, k, op_destroy) at e)))
    go op a t op_in_progress k =
        subst Good (same_next ch next _ _ (rw (a, t, k, op_destroy) at e)) g
    go op a t op_waiting_submit k =
        (let bad : freed none ≡ some (ret, next) =
            rw (a, t, k, free_op-ended ch id op (rw k refl), op_destroy) at e in
          cc)
    go op a t op_completed k =
        (let bad : freed none ≡ some (ret, next) =
            rw (a, t, k, free_op-ended ch id op (rw k refl), op_destroy) at e in
          cc)
    go op a t op_end k =
        let (after, result, type, free, ops, same, inv) = op_destroy-Inv ch id op g.1 a k in
        subst Good (same_next after next _ _ (sym result ∙ e)) (rw type g.0, inv)
