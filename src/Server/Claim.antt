-- ===== src/Server/Claim.antt =====
-- A response of the server at the client that made the request.
use zcell.Base.{ℕ, ◌%◌, ◌^◌, ◌≡◌, ◌≢◌, [], ◌∷◌, ◌++◌, some}
use zcell.Message.{Message}
use zcell.Client.{IoChannel, Result, on_recv_msg, op_claim_result}
use zcell.Status.{code, success}
use zcell.Server.{Effects, Outcome, answered, submitted, oss_op_cb}

-- What a client makes of what the server sends: one message, with which its operation is completed, so
-- that claiming the result gives the status and the type.
abbrev pub Claimed : IoChannel → Message → ℕ → Effects → Type 0
Claimed ch request status e =
    (r : Message) × (a : IoChannel) × (res : Result) × (e.ipc ++ e.net ≡ r ∷ [])
    × (on_recv_msg ch r ≡ some a)
    × ((op_claim_result a request.header.rsv0).0 ≡ some res)
    × (res.status ≡ status % 2 ^ 8)
    × (res.op_type ≡ request.header.type)

-- What becomes of a request, as the client sees it: a refusal at once, or the result once the store
-- calls back, whatever its status.
abbrev pub ClaimedOf : IoChannel → Message → Outcome → Type 0
ClaimedOf ch request (answered e) =
    (status : ℕ) × (status ≢ code success) × Claimed ch request status e
ClaimedOf ch request (submitted m) = (status : ℕ) → Claimed ch request status (oss_op_cb m status)
