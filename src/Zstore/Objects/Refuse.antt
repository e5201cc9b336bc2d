-- ===== src/Zstore/Objects/Refuse.antt =====
-- When a creation or a deletion is refused.
use zcell.Base.{
  ℕ, ◌≤◌, ◌≡◌, ◌⊎◌, inl, inr, refl, Bool, true, false, none, get_or, arith, ltb, Bool-cases,
}
use zcell.Status.{status, no_node}
use zcell.Memory.{Mem}
use zcell.Allocator.{Allocator, alloc_space}
use zcell.Zstore.Objects.{
  no_onode, Store, Prep, short_oid, create, cre_del, tx_prepare, failed, is_ok,
}
use zcell.Zstore.Objects.Create.{old_onode, used}

create-full :
    (s : Store) (tid : ℕ) (garbage : Mem) (oid : ℕ)
    → is_ok (alloc_space s.pm_allocator 1).rc ≡ false
    → create s tid garbage oid
      ≡ failed (record s { pm_allocator = (alloc_space s.pm_allocator 1).allocator })
unfolding create
create-full s tid garbage oid full = rw full refl

out_of_range :
    (is_create : Bool) (s : Store) (tid : ℕ) (garbage : Mem) (oid : ℕ)
    → s.onodes_rsv ≤ oid
    → cre_del is_create s tid garbage oid ≡ failed s
unfolding cre_del
out_of_range is_create s tid garbage oid above =
    let unknown : ltb oid s.onodes_rsv ≡ false = ground arith in rw unknown refl

wrong_state :
    (is_create : Bool) (s : Store) (tid : ℕ) (garbage : Mem) (oid : ℕ)
    → (get_or s.otable oid no_onode).valid ≡ is_create
    → cre_del is_create s tid garbage oid ≡ failed s
unfolding cre_del
wrong_state true s tid garbage oid same = elim (Bool-cases (ltb oid s.onodes_rsv)) [
  | inl y ↦ rw (y, same) refl
  | inr y ↦ rw y refl
]
wrong_state false s tid garbage oid same = elim (Bool-cases (ltb oid s.onodes_rsv)) [
  | inl y ↦ rw (y, same) refl
  | inr y ↦ rw y refl
]

-- The refusal: nothing changes but the tid, and the allocator where it was asked.
pub record Refused (s : Store) (p : Prep) : Type 0 where
  pub rc : p.rc ≡ status no_node
  pub no_tx : p.tx ≡ none
  pub memory : p.store.pmem ≡ s.pmem
  pub table : p.store.otable ≡ s.otable

at_start : {s : Store} {p : Prep} → Refused (used s) p → Refused s p
at_start h = record { rc = h.rc; no_tx = h.no_tx; memory = h.memory; table = h.table }

failed-Refused : (s : Store) (a : Allocator) → Refused s (failed (record s { pm_allocator = a }))
failed-Refused s a = record { rc = refl; no_tx = refl; memory = refl; table = refl }

no_block :
    (s : Store) (tid : ℕ) (garbage : Mem) (oid : ℕ)
    → is_ok (alloc_space s.pm_allocator 1).rc ≡ false
    → Refused s (cre_del true s tid garbage oid)
unfolding cre_del
no_block s tid garbage oid full = elim (Bool-cases (ltb oid s.onodes_rsv)) [
  | inl y ↦ elim (Bool-cases (get_or s.otable oid no_onode).valid) [
    | inl v ↦ rw (y, v) (failed-Refused s s.pm_allocator)
    | inr v ↦
        rw (y, v, create-full s tid garbage oid full)
          (failed-Refused s (alloc_space s.pm_allocator 1).allocator)
  ]
  | inr n ↦ rw n (failed-Refused s s.pm_allocator)
]

-- An oid that is out of range, an existing object to create, a missing one to delete, and an
-- allocator without a block for a new one are all answered with `OSTORE_NO_NODE`. Persistent memory
-- and the table are left as they were, and no transaction is left behind.
pub tx_prepare-Refused :
    (is_create : Bool) (s : Store) (garbage : Mem) (oid : ℕ)
    → (s.onodes_rsv ≤ short_oid oid)
      ⊎ (((old_onode s oid).valid ≡ is_create)
          ⊎ ((is_create ≡ true) × (is_ok (alloc_space s.pm_allocator 1).rc ≡ false)))
    → Refused s (tx_prepare is_create s garbage oid)
unfolding tx_prepare
tx_prepare-Refused is_create s garbage oid (inl above) =
    rw (out_of_range is_create (used s) s.tid_max garbage (short_oid oid) above)
      (at_start (failed-Refused (used s) s.pm_allocator))
tx_prepare-Refused is_create s garbage oid (inr (inl same)) =
    rw (wrong_state is_create (used s) s.tid_max garbage (short_oid oid) same)
      (at_start (failed-Refused (used s) s.pm_allocator))
tx_prepare-Refused is_create s garbage oid (inr (inr (new, full))) =
    rw new (at_start (no_block (used s) s.tid_max garbage (short_oid oid) full))
