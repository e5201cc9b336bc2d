-- ===== src/Zstore.antt =====
-- zstore.c: the object store. `Extents` is the translation of an object's index entries into runs of
-- blocks; `Objects` creates and deletes objects; `Engine` runs transactions;
-- `Format` is the layout of the persistent memory; `Mount` is what `zstore_mkfs` writes there and what
-- `zstore_mount` loads from it.
pub mod Extents
pub mod Engine
pub mod Objects
pub mod Access
pub mod Format
pub mod Mount
