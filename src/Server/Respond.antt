-- ===== src/Server/Respond.antt =====
-- Every request has one response, and what that response says.
use zcell.Base.{
  ℕ, ◌%◌, ◌^◌, ◌≡◌, ◌≢◌, ◌⊎◌, inl, inr, refl, true, false, [], ◌∷◌, ◌++◌, arith, ◌==◌, ==_iff,
  Bool-cases, subst,
}
use zcell.Status.{code, success}
use zcell.Message.{Message, local, remote, message_state_reset}
use zcell.Server.{
  Effects, msg_free_resource, response_with_reusing_request, response_broken_op, oss_op_cb, Outcome,
  answered, submitted,
}

abbrev pub FromSession : Message → Type 0
FromSession m = (m.header.magic ≡ local) ⊎ (m.header.magic ≡ remote)

-- The fields by which a client knows its operation again.
abbrev pub Kept : Message → Message → Type 0
Kept m r =
    (r.header.seq ≡ m.header.seq)
    × (r.header.type ≡ m.header.type)
    × (r.header.rsv0 ≡ m.header.rsv0)
    × (r.header.magic ≡ m.header.magic)

-- One message is sent, to the messager of the session: it is for the same operation, has the status,
-- and has no arguments.
abbrev pub Responds : Message → ℕ → Effects → Type 0
Responds request status e =
    (r : Message) × (e.ipc ++ e.net ≡ r ∷ [])
    × Kept request r
    × (r.header.status ≡ status % 2 ^ 8)
    × (r.meta_buffer ≡ 0)
    × (r.header.meta_length ≡ 0)

response_with_reusing_request-Responds :
    (m : Message) (status : ℕ)
    → FromSession m
    → m.header.meta_length ≡ 0
    → Responds m status (response_with_reusing_request m status)
unfolding response_with_reusing_request msg_free_resource
response_with_reusing_request-Responds m status from short =
    let cleared : (m.header.meta_length == 0) ≡ true = (==_iff m.header.meta_length 0).1 short in
    let r =
      (msg_free_resource (
        message_state_reset
          (record m { header = record m.header { status = status % 2 ^ 8 } }))).1 in
    (
      r,
      elim from [
        | inl e ↦ rw (e, response_with_reusing_request) refl
        | inr e ↦ rw (e, response_with_reusing_request) refl
      ],
      (refl, refl, refl, refl),
      refl,
      rw cleared refl,
      short,
    )

pub response_broken_op-Responds :
    (m : Message) (status : ℕ) → FromSession m → Responds m status (response_broken_op m status)
unfolding response_broken_op
response_broken_op-Responds m status from =
    response_with_reusing_request-Responds
      (record m { header = record m.header { data_length = 0; meta_length = 0 } }) status from refl

-- Once the request is with the store, its completion is answered with the status of the store.
pub oss_op_cb-Responds :
    (m : Message) (status : ℕ)
    → FromSession m
    → m.header.meta_length ≡ 0
    → Responds m status (oss_op_cb m status)
unfolding oss_op_cb
oss_op_cb-Responds m status from short = elim (Bool-cases (status == code success)) [
  | inl e ↦
      let same : response_with_reusing_request m status ≡ oss_op_cb m status =
        rw (e, oss_op_cb) refl in
      subst (Responds m status) same (response_with_reusing_request-Responds m status from short)
  | inr e ↦
      let same : response_broken_op m status ≡ oss_op_cb m status = rw (e, oss_op_cb) refl in
      subst (Responds m status) same (response_broken_op-Responds m status from)
]

-- What becomes of a request: an answer with the given statuses, or a request with the store that
-- `oss_op_cb` answers.
abbrev pub Handled : Message → (ℕ → Type 0) → Outcome → Type 0
Handled request Refused (answered e) = (status : ℕ) × Refused status × Responds request status e
Handled request Refused (submitted m) = (status : ℕ) → Responds request status (oss_op_cb m status)

-- A request from the network that is answered as broken, with both its buffers: each buffer is freed
-- twice.
pub response_broken_op_frees :
    (m : Message) (status : ℕ)
    → m.header.magic ≡ remote
    → m.meta_buffer ≢ 0
    → m.data_buffer ≢ 0
    → (response_broken_op m status).freed
      ≡ m.meta_buffer ∷ m.data_buffer ∷ m.meta_buffer ∷ m.data_buffer ∷ []
unfolding response_broken_op response_with_reusing_request msg_free_resource
response_broken_op_frees m status from meta payload =
    let some_meta : (m.meta_buffer == 0) ≡ false = ground (arith, meta) in
    let some_data : (m.data_buffer == 0) ≡ false = ground (arith, payload) in
    rw
      (
        from, some_meta, some_data, response_broken_op, response_with_reusing_request,
        msg_free_resource,
      )
      refl
