-- ===== src/Zstore/Objects/Delete.antt =====
-- A deletion: which log it prepares, and what that log leaves out.
use zcell.Base.{ℕ, ◌<◌, ◌≡◌, refl, subst, true, false, List, [], ◌∷◌, get_or, arith, ltb}
use zcell.Memory.{Mem}
use zcell.Allocator.Laws.{IsValid}
use zcell.Allocator.Free.{Held, within, free_space_frees}
use zcell.Allocator.{Extent, Allocator, free_space, allocated}
use zcell.Zstore.Objects.{
  no_onode, Store, short_oid, onode_log, bitmap_logs, log_changes, delete, cre_del, tx_prepare,
}
use zcell.Zstore.Objects.Create.{Logs, log_changes-Logs, old_onode, used}

abbrev block : ℕ → List Extent
block lba = record { lba = lba; len = 1 } ∷ []

block-Held :
    (a : Allocator) (lba : ℕ)
    → lba < a.nr_total
    → allocated a.bs lba ≡ true
    → Held a.bs a.nr_total (block lba)
block-Held a lba known held =
    (omega arith, λ i w. subst (λ j. allocated a.bs j ≡ true) (only lba i w) held, λ i w. refl, tt)
  where
    only : (lba i : ℕ) → within lba 1 i ≡ true → lba ≡ i
    only lba i w = ground arith

abbrev freed_store : Store → ℕ → Store
freed_store s id = record s { pm_allocator = free_space s.pm_allocator (block id) }

delete_at :
    (s : Store) (tid : ℕ) (garbage : Mem) (oid : ℕ)
    → oid < s.onodes_rsv
    → (get_or s.otable oid no_onode).valid ≡ true
    → cre_del false s tid garbage oid ≡ delete s tid garbage oid
unfolding cre_del
delete_at s tid garbage oid below old =
    let known : ltb oid s.onodes_rsv ≡ true = ground arith in rw (known, old) refl

prepare-delete :
    (s : Store) (garbage : Mem) (oid : ℕ)
    → short_oid oid < s.onodes_rsv
    → (old_onode s oid).valid ≡ true
    → tx_prepare false s garbage oid
      ≡ log_changes
          (freed_store (used s) (old_onode s oid).data_idx_id)
          s.tid_max
          garbage
          (short_oid oid)
          no_onode
          []
unfolding tx_prepare delete
prepare-delete s garbage oid below old =
    delete_at (used s) s.tid_max garbage (short_oid oid) below old

-- For an oid below `onodes_rsv` with a valid table entry, whose index block is below the number of blocks
-- and allocated in a valid allocator: a deletion succeeds and clears the bit of the index block in main
-- memory, but its log has the cleared table entry alone: the bitmap entry of the block is not in it.
pub delete-Logs :
    (s : Store) (garbage : Mem) (oid : ℕ)
    → short_oid oid < s.onodes_rsv
    → (old_onode s oid).valid ≡ true
    → IsValid s.pm_allocator
    → (old_onode s oid).data_idx_id < s.pm_allocator.nr_total
    → allocated s.pm_allocator.bs (old_onode s oid).data_idx_id ≡ true
    → let p = tx_prepare false s garbage oid in
      Logs p s.tid_max (onode_log s (short_oid oid) no_onode ∷ [])
      × (allocated p.store.pm_allocator.bs (old_onode s oid).data_idx_id ≡ false)
      × (p.store.pmem ≡ s.pmem)
unfolding log_changes onode_log bitmap_logs
delete-Logs s garbage oid below old v known held =
    let id : ℕ = (old_onode s oid).data_idx_id in
    let (valid, count, bits) =
      free_space_frees s.pm_allocator (block id) v (block-Held s.pm_allocator id known held) in
    rw (prepare-delete s garbage oid below old) (
      log_changes-Logs (freed_store (used s) id) s.tid_max garbage (short_oid oid) no_onode []
          (omega arith),
      ground (arith, bits id),
      refl,
    )
