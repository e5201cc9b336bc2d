-- ===== src/Zstore/Engine.antt =====
-- The life of a transaction in zstore.c: it is enqueued, its data I/O is submitted, each completion
-- is counted, and after the last one the metadata is written, for write transactions in the order
-- of their list.
-- A transaction is known by its `tid_`, where the source has its address. What a user callback does
-- is not part of the model: the calls are recorded. `spdk_bdev_read_blocks` and its two siblings
-- are SPDK's: whether they accept a request is the argument `accepts`.
pub mod Drain
pub mod Queues
pub mod Invariant
pub mod Steps
pub mod Effects
pub mod Order
mod Tests
use zcell.Base.{
  ℕ, zero, suc, ◌+◌, ◌-◌, ◌*◌, ◌/◌, ◌%◌, ◌^◌, Bool, true, false, List, [], ◌∷◌, ◌++◌, Option, none,
  some, length, if◌then◌else◌, ltb, ◌==◌, map, replicate,
}
use zcell.Status.{Status, success, io_error}
use zcell.Memory.{Mem, write}
use zcell.Pmem
use zcell.Pmem.{Pmem, Transaction}

-- `enum IO_TYPE`
pub data IoType : Type 0 where
  io_read io_write io_trim : IoType

-- `enum zstore_tx_state`
pub data TxState : Type 0 where
  prepare data_io pm_tx end : TxState

-- `enum zstore_tx_type`
pub data TxType : Type 0 where
  tx_rdonly tx_write : TxType

-- An element of `bios_`.
pub record Bio : Type 0 where
  pub io_type : IoType
  pub blk_ofst : ℕ
  pub blk_len : ℕ

-- `struct zstore_transacion_t`. `tx_sync` is the bit `TX_SYNC` of `tx_attr_`; `bios` is empty for
-- NULL; a read-only transaction has no `pm_tx_`, and its field here is not used.
pub record Tx : Type 0 where
  pub tid : ℕ
  pub tx_type : TxType
  pub tx_sync : Bool
  pub state : TxState
  pub err : Status
  pub bio_outstanding : ℕ
  pub data_buffer : ℕ
  pub bios : List Bio
  pub pm_tx_ : Transaction

-- A call of `user_cb_`, and a request that the device has accepted, with its buffer.
pub record Called : Type 0 where
  pub tid : ℕ
  pub err : Status

pub record Submitted : Type 0 where
  pub tid : ℕ
  pub bio : Bio
  pub buf : ℕ

-- The part of `struct zstore_context_t` that transactions use, and what they have done outside it:
-- the copies written in main memory, the requests submitted, the callbacks made, and those posted
-- by `spdk_thread_send_msg`.
pub record Engine : Type 0 where
  pub pmem : Pmem
  pub tx_list : List Tx
  pub tx_outstanding : ℕ
  pub tx_rdonly_list : List Tx
  pub tx_rdonly_outstanding : ℕ
  pub memory_writes : List (ℕ × List ℕ)
  pub submitted : List Submitted
  pub called : List Called
  pub posted : List Called

-- The first element of a queue, its element of a tid, the queue without it, and with it changed.
pub first : List Tx → Option Tx
first [] = none
first (tx ∷ txs) = some tx

pub find : ℕ → List Tx → Option Tx
find tid [] = none
find tid (tx ∷ txs) = if tx.tid == tid then some tx else find tid txs

pub remove : ℕ → List Tx → List Tx
remove tid [] = []
remove tid (tx ∷ txs) = if tx.tid == tid then txs else tx ∷ remove tid txs

pub update : ℕ → (Tx → Tx) → List Tx → List Tx
update tid f [] = []
update tid f (tx ∷ txs) = if tx.tid == tid then f tx ∷ txs else tx ∷ update tid f txs

-- `--` of a 32-bit and of a 16-bit counter.
abbrev pub dec32 : ℕ → ℕ
dec32 n = (n + 2 ^ 32 - 1) % 2 ^ 32

abbrev pub dec16 : ℕ → ℕ
dec16 n = (n + 2 ^ 16 - 1) % 2 ^ 16

-- `zstore_tx_data_bio`: the requests accepted, and the status; a refused one ends the loop.
pub data_bio : (Bio → Bool) → ℕ → ℕ → List Bio → List Submitted × Status
data_bio accepts tid buf [] = ([], success)
data_bio accepts tid buf (b ∷ bs) =
    let (rest, rc) = data_bio accepts tid (buf + b.blk_len * 2 ^ 12) bs in
    if accepts b then (record { tid = tid; bio = b; buf = buf } ∷ rest, rc) else ([], io_error)

-- `zstore_tx_end`
pub notify : Engine → Tx → Engine
notify e tx =
    let call : Called = record { tid = tx.tid; err = tx.err } in
    if tx.tx_sync
    then record e { posted = e.posted ++ call ∷ [] }
    else record e { called = e.called ++ call ∷ [] }

pub tx_end : Engine → Tx → Engine
tx_end e tx = elim tx.tx_type [
  | tx_rdonly ↦
      notify
        (record e {
          tx_rdonly_outstanding = dec32 e.tx_rdonly_outstanding;
          tx_rdonly_list = remove tx.tid e.tx_rdonly_list;
        })
        tx
  | tx_write ↦
      notify
        (record e { tx_outstanding = dec32 e.tx_outstanding; tx_list = remove tx.tid e.tx_list }) tx
]

-- The body of the loop of `zstore_tx_metadata`: `pmem_transaction_apply` returns true.
pub commit : Engine → Tx → Engine
commit e tx =
    let (p, copies) = Pmem.apply e.pmem tx.pm_tx_ in
    tx_end (record e { pmem = p; memory_writes = e.memory_writes ++ copies })
      (record tx { err = success })

-- The loop itself: as long as the first transaction of the list is in `PM_TX`. It removes one in
-- every round, so the length of the list is enough fuel.
pub drain : ℕ → Engine → Engine
drain zero e = e
drain (suc n) e = elim (first e.tx_list) [
  | none ↦ e
  | some tx ↦ elim tx.state [ pm_tx ↦ drain n (commit e tx) | _ ↦ e ]
]

abbrev pub is_first : ℕ → List Tx → Bool
is_first tid [] = false
is_first tid (tx ∷ txs) = tx.tid == tid

abbrev pub to_pm_tx : Tx → Tx
to_pm_tx tx = record tx { state = pm_tx }

-- `zstore_tx_metadata`
pub tx_metadata : Engine → Tx → Engine
tx_metadata e tx = elim tx.tx_type [
  | tx_rdonly ↦ tx_end e tx
  | tx_write ↦
      let e' : Engine = record e { tx_list = update tx.tid to_pm_tx e.tx_list } in
      if is_first tx.tid e.tx_list then drain (length e.tx_list) e' else e'
]

-- `zstore_tx_execute`: the status of `zstore_tx_data_bio` is dropped.
pub tx_execute : (Bio → Bool) → Engine → Tx → Engine
tx_execute accepts e tx = elim tx.state [
  | data_io ↦ record e {
    submitted = e.submitted ++ (data_bio accepts tx.tid tx.data_buffer tx.bios).0;
  }
  | pm_tx ↦ tx_metadata e tx
  | _ ↦ e
]

-- What a completion does to the transaction itself.
abbrev pub count_bio : Tx → Tx
count_bio tx = record tx { bio_outstanding = dec16 tx.bio_outstanding }

abbrev pub last_bio : Tx → Tx
last_bio tx = record tx { bio_outstanding = 0; state = pm_tx; bios = [] }

pub update_tx : Engine → TxType → ℕ → (Tx → Tx) → Engine
update_tx e tx_rdonly tid f = record e { tx_rdonly_list = update tid f e.tx_rdonly_list }
update_tx e tx_write tid f = record e { tx_list = update tid f e.tx_list }

-- `zstore_bio_cb` for a request of the transaction that has succeeded; a failed one stops the
-- process at an assertion.
pub bio_cb : (Bio → Bool) → Engine → Tx → Engine
bio_cb accepts e tx =
    if dec16 tx.bio_outstanding == 0
    then tx_execute accepts (update_tx e tx.tx_type tx.tid last_bio) (last_bio tx)
    else update_tx e tx.tx_type tx.tid count_bio

-- `zstore_tx_enqueue`
pub tx_enqueue : Engine → Tx → Engine
tx_enqueue e tx = elim tx.tx_type [
  | tx_rdonly ↦ record e {
    tx_rdonly_list = e.tx_rdonly_list ++ tx ∷ [];
    tx_rdonly_outstanding = (e.tx_rdonly_outstanding + 1) % 2 ^ 32;
  }
  | tx_write ↦ record e {
    tx_list = e.tx_list ++ tx ∷ [];
    tx_outstanding = (e.tx_outstanding + 1) % 2 ^ 32;
  }
]

-- What preparing an operation writes to the persistent memory at once: a creation fills its index
-- block, at this offset, with holes.
unfoldable pub fill_block : Mem → ℕ → Mem
fill_block m o = write m o (replicate 4096 255)

-- The engine once that is done, for the offset of the block that an operation fills, if it fills one.
pub block_filled : Engine → Option ℕ → Engine
block_filled e none = e
block_filled e (some o) = record e { pmem = record e.pmem { mem = fill_block e.pmem.mem o } }

-- `zstore_obj_async_op_call` for an operation whose preparation gives this transaction and fills this
-- index block, if it is a creation. Every other operation, and one that is refused, leaves the
-- persistent memory alone; the latter has no transaction.
pub op_call : (Bio → Bool) → Engine → Option ℕ → Tx → Engine
op_call accepts e block tx = tx_execute accepts (tx_enqueue (block_filled e block) tx) tx
