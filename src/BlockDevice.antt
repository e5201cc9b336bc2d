-- ===== src/BlockDevice.antt =====
-- spdk_bdev/bdev_zcell.c: a block device of SPDK over the client library. A request for blocks becomes
-- one request for an object, of 1024 blocks each; a poller completes it with the response.
-- A failed assertion, or `abort`, is `none`. What SPDK does is left to the caller: it splits requests
-- at the boundary that the disk names, finds a buffer for them, and is told how they end.
pub mod Stripe
pub mod Held
pub mod Complete
pub mod Issue
pub mod Reap
pub mod Once
mod Tests
use zcell.Base.{
  ℕ, ◌+◌, ◌-◌, ◌*◌, ◌/◌, ◌%◌, ◌^◌, Bool, true, false, List, [], ◌∷◌, ◌++◌, Option, none, some,
  if◌then◌else◌, ltb, ◌==◌,
}
use zcell.Message.{Message}
use zcell.Client.{
  IoChannel, Ret, returns, Result, io_submit_to_channel, io_poll_channel, op_set_userdata,
  op_get_userdata, op_claim_result, op_destroy,
}
use zcell.Client.Requests.{Args, io_read2, io_write}

-- `STRIPE_UNIT`
abbrev pub stripe_unit : ℕ
stripe_unit = 4 * 2 ^ 20

-- `MAX_EVENTS_PER_POLL`
abbrev pub max_events_per_poll : ℕ
max_events_per_poll = 1024

-- `struct zcell_disk`, with what it sets in its `struct spdk_bdev`.
pub record ZcellDisk : Type 0 where
  pub stripe_oid_start : ℕ
  pub blocklen : ℕ
  pub blockcnt : ℕ
  pub write_unit_size : ℕ
  pub split_on_optimal_io_boundary : Bool
  pub optimal_io_boundary : ℕ

-- `GetOidStart`: the first object, and `oid_max` after it.
pub get_oid_start : ℕ → ℕ → ℕ → ℕ × ℕ
get_oid_start oid_max gib stripes = (oid_max, (oid_max + gib * 2 ^ 8 % 2 ^ 64 / stripes) % 2 ^ 64)

-- `create_zcell_disk`, where its memory is found, and `oid_max` after it.
pub create_zcell_disk : ℕ → ℕ → ZcellDisk × ℕ
create_zcell_disk oid_max size_gib =
    let (start, oid_max') = get_oid_start oid_max size_gib 1 in
    (
      record {
        stripe_oid_start = start;
        blocklen = 4096;
        blockcnt = size_gib * 2 ^ 18;
        write_unit_size = 1;
        split_on_optimal_io_boundary = true;
        optimal_io_boundary = stripe_unit / 2 ^ 12;
      },
      oid_max',
    )

-- The types of a request that the device tells apart.
pub data BdevIoType : Type 0 where
  bdev_read bdev_write bdev_flush bdev_reset bdev_other : BdevIoType

-- `bdev_zcell_io_type_supported`
pub io_type_supported : BdevIoType → Bool
io_type_supported bdev_other = false
io_type_supported _ = true

-- `struct spdk_bdev_io`, known by its address.
pub record BdevIo : Type 0 where
  pub addr : ℕ
  pub io_type : BdevIoType
  pub offset_blocks : ℕ
  pub num_blocks : ℕ
  pub iovcnt : ℕ
  pub iov_base : ℕ

pub data BdevStatus : Type 0 where
  bdev_failed bdev_success : BdevStatus

-- The part of an object that a request is for.
pub record Place : Type 0 where
  pub obj_id : ℕ
  pub obj_offset : ℕ
  pub obj_len : ℕ

-- The place as `bdev_zcell_get_buf_cb` computes it. The first object of the disk is not used.
pub place_of : ZcellDisk → BdevIo → Place
place_of disk io =
    let offset = io.offset_blocks * disk.blocklen % 2 ^ 64 in
    record {
      obj_id = offset / stripe_unit;
      obj_offset = offset % stripe_unit;
      obj_len = io.num_blocks * disk.blocklen % 2 ^ 32;
    }

-- How a request goes on: completed at once, forgotten, or handed to the messager.
pub data Outcome : Type 0 where
  completes : BdevStatus → Outcome
  dropped : Outcome
  issued : Args → IoChannel → List Message → Outcome

-- The request for the object, at the place of its arguments that the client library allocates.
pub object_io : BdevIoType → IoChannel → ℕ → ℕ → Place → Args × Option (Ret × IoChannel)
object_io bdev_read ch meta_buffer buffer p =
    io_read2 ch meta_buffer buffer p.obj_id p.obj_offset p.obj_len
object_io _ ch meta_buffer buffer p = io_write ch meta_buffer p.obj_id buffer p.obj_offset p.obj_len

-- The submission of the one operation.
pub submit_one : Args → IoChannel → ℕ → Option Outcome
submit_one args ch op_id = elim (io_submit_to_channel ch (op_id ∷ [])) [
  | some (returns n, ch', sent) ↦ if n == 0 then some (issued args ch' sent) else none
  | _ ↦ none
]

-- The end of `bdev_zcell_get_buf_cb`, from what `io_read2` or `io_write` returns.
pub issue : Args → Option (Ret × IoChannel) → ℕ → Option Outcome
issue args (some (returns op_id, ch)) bio = elim (op_set_userdata ch op_id bio) [
  | none ↦ none
  | some ch' ↦ submit_one args ch' op_id
]
issue args _ bio = none

-- `bdev_zcell_get_buf_cb`
pub get_buf_cb : ZcellDisk → IoChannel → ℕ → BdevIo → Bool → Option Outcome
get_buf_cb disk ch meta_buffer io success =
    let (args, prepared) = object_io io.io_type ch meta_buffer io.iov_base (place_of disk io) in
    if success
    then if ltb 1 io.iovcnt
      then none
      else if io.iov_base == 0
      then some dropped
      else issue args prepared io.addr
    else some (completes bdev_failed)

-- The types of request that get a buffer, and those that are answered at once.
abbrev pub by_type : BdevIoType → Option Outcome → Option Outcome
by_type bdev_read io = io
by_type bdev_write io = io
by_type bdev_flush io = some (completes bdev_success)
by_type bdev_reset io = some (completes bdev_success)
by_type bdev_other io = some (completes bdev_failed)

-- `bdev_zcell_submit_request` and `_bdev_zcell_submit_request`; `success` is how
-- `spdk_bdev_io_get_buf` ends.
pub submit_request : ZcellDisk → IoChannel → ℕ → BdevIo → Bool → Option Outcome
submit_request disk ch meta_buffer io success =
    by_type io.io_type (get_buf_cb disk ch meta_buffer io success)

-- The status that a response becomes.
abbrev pub status_of : Result → BdevStatus
status_of r = if r.status == 0 then bdev_success else bdev_failed

-- A request that is completed, by its address, and its status.
abbrev pub Completion : Type 0
Completion = ℕ × BdevStatus

-- A round of the inner loop of `bdev_zcell_group_poll`.
pub complete_op : IoChannel → ℕ → Option (Completion × IoChannel)
complete_op ch op_id = elim (op_get_userdata ch op_id) [
  | none ↦ none
  | some bio ↦ elim (op_claim_result ch op_id).0 [
    | none ↦ none
    | some r ↦ elim (op_destroy (op_claim_result ch op_id).1 op_id) [
      | none ↦ none
      | some (ret, next) ↦ some ((bio, status_of r), next)
    ]
  ]
]

abbrev pub then_complete :
    Completion → Option (List Completion × IoChannel) → Option (List Completion × IoChannel)
then_complete c none = none
then_complete c (some (cs, ch)) = some (c ∷ cs, ch)

-- The inner loop.
pub complete_ops : IoChannel → List ℕ → Option (List Completion × IoChannel)
complete_ops ch [] = some ([], ch)
complete_ops ch (op_id ∷ ops) = elim (complete_op ch op_id) [
  | none ↦ none
  | some (c, next) ↦ then_complete c (complete_ops next ops)
]

-- A round of the outer loop, for one channel.
pub poll_channel : IoChannel → Option (List Completion × IoChannel)
poll_channel ch =
    let (cpls, next) = io_poll_channel ch 0 max_events_per_poll in
    elim cpls [ none ↦ none | some ids ↦ complete_ops next ids ]

abbrev pub then_channels :
    List Completion × IoChannel
    → Option (List Completion × List IoChannel)
    → Option (List Completion × List IoChannel)
then_channels p none = none
then_channels p (some q) = some (p.0 ++ q.0, p.1 ∷ q.1)

-- `bdev_zcell_group_poll`, over the channels of the group.
pub group_poll : List IoChannel → Option (List Completion × List IoChannel)
group_poll [] = some ([], [])
group_poll (ch ∷ chs) = elim (poll_channel ch) [
  | none ↦ none
  | some p ↦ then_channels p (group_poll chs)
]

-- `struct zcell_channel_group`
pub record ChannelGroup : Type 0 where
  pub refcount : ℕ
  pub has_poller : Bool
  pub zioch_list : List IoChannel

-- `bdev_zcell_group_create_cb`: whether the messagers are set up, the channel that
-- `get_io_channel_with_local` gives, and whether SPDK registers the poller. The result says whether
-- 0 is returned.
pub group_create : ChannelGroup → Bool → Option IoChannel → Bool → Bool × ChannelGroup
group_create grp tls_ok channel poller_ok =
    if grp.refcount == 0
    then if tls_ok
      then elim channel [
        | none ↦ (false, grp)
        | some ch ↦
            if poller_ok
            then (true, record { refcount = 1; has_poller = true; zioch_list = ch ∷ [] })
            else (false, record grp { has_poller = false; zioch_list = ch ∷ [] })
      ]
      else (false, grp)
    else (true, record grp { refcount = (grp.refcount + 1) % 2 ^ 32 })

-- `bdev_zcell_group_destroy_cb`. The last user gives the channels back.
pub group_destroy : ChannelGroup → ChannelGroup
group_destroy grp =
    if grp.refcount == 0
    then grp
    else if grp.refcount == 1
    then record { refcount = 0; has_poller = false; zioch_list = [] }
    else record grp { refcount = grp.refcount - 1 }
