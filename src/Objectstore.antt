-- ===== src/Objectstore.antt =====
-- objectstore.c: the choice of a store by its number; and nullstore.c: the store that answers every
-- operation at once and does nothing.
use zcell.Base.{
  arith, ℕ, Bool, ◌⊎◌, Option, none, some, ◌≡◌, refl, ◌==◌, ◌||◌, if◌then◌else◌, inl, inr,
}
use zcell.Message.{Message, op_stat, op_create, op_read, op_write, op_delete}
use zcell.Status.{code, success}
use zcell.Client.Requests.{Args}
use zcell.Chunkstore
use zcell.Chunkstore.{Handled, at_once}

-- `enum OBJECTSTORE_TYPE`, by the stores of the table `impls`.
pub data Impl : Type 0 where
  nullstore chunkstore zstore : Impl

-- The numbers of the stores.
abbrev pub store_type : Impl → ℕ
store_type nullstore = 0
store_type chunkstore = 1
store_type zstore = 2

pub support_ostore : ℕ → Bool
support_ostore t =
    (t == store_type nullstore) || (t == store_type chunkstore) || (t == store_type zstore)

-- The entries of `impls`.
abbrev pub impls : ℕ → Option Impl
impls t =
    if t == 0
    then some nullstore
    else if t == 1
    then some chunkstore
    else if t == 2
    then some zstore
    else none

-- `ostore_get_impl`, with `none` for NULL.
pub get_impl : ℕ → Option Impl
get_impl t = if support_ostore t then impls t else none

-- `nullstore_mkfs`, `nullstore_mount` and `nullstore_unmount`
abbrev pub nullstore_mount : ℕ
nullstore_mount = code success

-- `nullstore_obj_async_op_call`: every handler calls back by an event. `none` is a call through an
-- entry of the table that is not there.
pub nullstore_op_call : Message → Option Handled
nullstore_op_call m =
    let op = m.header.type in
    if (op == op_stat)
      || (op == op_create)
      || (op == op_delete)
      || (op == op_write)
      || (op == op_read)
    then some at_once
    else none

-- Each store is found by its number, and by no other.
pub get_impl-store_type :
    (t : ℕ) (i : Impl)
    → (get_impl (store_type i) ≡ some i) × (get_impl t ≡ some i → t ≡ store_type i)
unfolding get_impl support_ostore
get_impl-store_type t nullstore = (refl, λ e. ground arith)
get_impl-store_type t chunkstore = (refl, λ e. ground arith)
get_impl-store_type t zstore = (refl, λ e. ground arith)

-- The operations that move no data are handled by chunkstore as by nullstore.
pub nullstore_op_call-chunkstore :
    (accepts : Bool) (m : Message) (args : Args)
    → (m.header.type ≡ op_stat) ⊎ ((m.header.type ≡ op_create) ⊎ (m.header.type ≡ op_delete))
    → Chunkstore.obj_async_op_call accepts m args ≡ nullstore_op_call m
unfolding nullstore_op_call Chunkstore.obj_async_op_call
nullstore_op_call-chunkstore accepts m args (inl e) = rw e refl
nullstore_op_call-chunkstore accepts m args (inr (inl e)) = rw e refl
nullstore_op_call-chunkstore accepts m args (inr (inr e)) = rw e refl
