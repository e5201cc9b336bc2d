-- ===== src/Lib.antt =====
-- ZCell: a store of fixed-size objects on an NVMe device and persistent memory.
--
-- ZStore keeps the data of an object in 4 KiB blocks of the device, and its metadata (an object
-- table, index blocks, and the bitmaps of two block allocators) in persistent memory. An operation
-- becomes a transaction: its data I/O is submitted to the device, and when the last request has
-- completed, the log of its metadata changes is applied to the persistent memory. Write transactions
-- do so in the order in which they were enqueued. A client prepares operations on a channel and submits
-- them as messages; the messagers carry these to the server, which executes them on a store and sends
-- each back as its own response.
--
-- The parts, each in the file of its name with the proofs in a folder of that name:
--   Allocator (zstore_allocator.h): the bitmap allocator. `stupid_alloc_space` is `alloc_space`, its
--     loop `scan`, one round of it `visit`; `stupid_free_space` is `free_space`. The loop's fuel is
--     the number of blocks, one round for each value of its counter.
--   Memory, Pmem (pm.c): byte memory, and the log transactions. `pmem_transaction_add` is `add`,
--     `pmem_transaction_apply` is `apply`, `pmem_recovery` is `recovery`; `Pmem.Recovery.Crash` is
--     what a power failure may leave.
--   Bitmap (util/bitmap.h) and FixedCache (util/fixed_cache.h): the id bitmap and the cache of
--     elements of one size.
--   Status (util/errcode.h): the results.
--   Zstore.Extents (zstore.c): index entries merged into runs of blocks, and the bitmap entries that
--     a list of extents touches.
--   Zstore.Objects (zstore.c): creating and deleting objects. `zstore_tx_prepare` is `tx_prepare` and
--     `_tx_prep_cre_del_common` is `cre_del`.
--   Zstore.Access (zstore.c): reading and writing objects. `_tx_prep_rw_common` is `prep_rw`, and
--     `object_lba_range_get` is `lba_range_get`.
--   Zstore.Format (zstore.c): the layout of the persistent memory.
--   Zstore.Mount (zstore.c): what `zstore_mkfs` writes there, as `mkfs`, and what `zstore_mount` loads
--     from it, as `mount`.
--   Zstore.Engine (zstore.c): the life of a transaction. Operations and completions are the steps of
--     `Zstore.Engine.Order.Run`, in any interleaving. A call that creates an object fills its index
--     block at once, and logs are applied when their turn comes (Zstore.Engine.Effects). The loop of `zstore_tx_metadata` has the length
--     of its list as fuel; it removes a transaction in every round.
--   Chunkstore (chunkstore.c): the store of objects at fixed places, `_obj2blk` as `obj2blk`.
--   Objectstore (objectstore.c, nullstore.c): the choice of a store by its number, and the store that
--     does nothing.
--   Message (message.h): the header, and in Message.Wire its fields as bytes that are received give them.
--   Messager (messager.c): `_do_send_message` and `_do_recv_message` move any part of a message;
--     `_flush_msg_of` is `flush_msg_of` and `_read_event_callback` is `read_event_callback`. The
--     socket is the record `Net` of Messager.Socket. The fuel of the loop that receives is one more
--     than the bytes that can be read, since each round that goes on reads at least one.
--   Client (liboss.c, operation.h): the channel and its operations. `_io_prepare_op_common` is
--     `prepare_op_common`, and the two callbacks for a response are `on_recv_msg`; the sequences of
--     calls are `Client.Lifecycle.Steps`. Client.Requests has `io_read`, `io_write` and the others.
--   Ipc (spdk_ipc_messager.c): messages between cores. `message_recv_poll` is `recv_poll`; SPDK's rings
--     are the record `SpdkRing` of Ipc.Rings. The sequences of sends and polls are `Ipc.Order.Run`.
--   BlockDevice (spdk_bdev/bdev_zcell.c): requests for blocks as requests for objects.
--     `bdev_zcell_get_buf_cb` is `get_buf_cb` and `bdev_zcell_group_poll` is `group_poll`; the
--     sequences of submissions, responses and polls of a channel are `BlockDevice.Once.Run`.
--   Server (server_main.c): a request and its response, `op_execute`, `_do_op_oss` as `do_op_oss` and
--     `oss_op_cb`. Server.Claim joins it with the client.
--   Base: names of the libraries, Boolean tests, lists, and the binary digits of a machine word.
--
-- Machine integers are natural numbers with their wrap-around written out. Pointers are numbers, and
-- transactions are known by their tid. The device, libpmem and SPDK are not modelled: whether SPDK
-- accepts a request is an argument, and libpmem's promise is in `Crash`. A failed assertion is `none`.
--
-- Not modelled: the set-up and the end of TCP sessions and reactors; the
-- registration of the block device with SPDK; the wrappers of system calls, benchmark tools and
-- command-line clients.
pub mod Base
pub mod Status
pub mod Allocator
pub mod Memory
pub mod Pmem
pub mod Bitmap
pub mod FixedCache
pub mod Zstore
pub mod Message
pub mod Ipc
pub mod Client
pub mod Messager
pub mod Objectstore
pub mod Server
pub mod Chunkstore
pub mod BlockDevice
