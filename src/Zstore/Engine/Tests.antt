-- ===== src/Zstore/Engine/Tests.antt =====
-- Two write transactions, of which the second is ready first.
use zcell.Base.{ℕ, Bool, ◌≡◌, inl, inr, refl, true, false, List, [], ◌∷◌, none, some, arith}
use zcell.Status.{success}
use zcell.Pmem.{Pmem, Transaction}
use zcell.Zstore.Engine.{
  Engine, Tx, Bio, block_filled, io_write, tx_write, data_io, pm_tx, op_call, bio_cb, commit,
  tx_end, notify, remove, first, drain, find, update, update_tx, tx_enqueue, tx_execute,
  tx_metadata,
}
use zcell.Zstore.Engine.Effects.{Effect, run_effects, logs_of, fills_of}
use zcell.Zstore.Engine.Drain.{Settled, drain_settles}
use zcell.Zstore.Engine.Order.{
  Run, Ordered, begin, writes, write_done, start, Run-in_order, Run-quiet,
}

abbrev all_accepted : Bio → Bool
all_accepted b = true

abbrev pm : Pmem
pm = record { mem = λ x. 0; log_region_ofst = 4096 }

abbrev log : ℕ → Transaction
log b = record { le = λ x. b; valid = 0; nr_logs = 1; align_length = 32; in_bounds = true }

-- A write of one request, and a creation without requests.
abbrev write_tx : Tx
write_tx = record {
  tid = 1;
  tx_type = tx_write;
  tx_sync = false;
  state = data_io;
  err = success;
  bio_outstanding = 1;
  data_buffer = 4096;
  bios = record { io_type = io_write; blk_ofst = 0; blk_len = 1 } ∷ [];
  pm_tx_ = log 0;
}

abbrev create_tx : Tx
create_tx = record write_tx {
  tid = 2;
  tx_sync = true;
  state = pm_tx;
  bio_outstanding = 0;
  bios = [];
  pm_tx_ = log 1;
}

abbrev busy : Engine
busy = op_call all_accepted (op_call all_accepted (start pm) none write_tx) (some 4096000) create_tx

busy-Run : Run pm (log 0 ∷ log 1 ∷ []) (4096000 ∷ []) busy
unfolding op_call block_filled tx_enqueue tx_execute tx_metadata find update
busy-Run =
    writes all_accepted (some 4096000) create_tx
      (writes all_accepted none write_tx begin refl (inl (refl, omega arith, omega arith)) refl
        (omega arith))
      refl (inr (refl, refl)) refl (omega arith)

-- The creation waits for the write.
busy_list : busy.tx_list ≡ write_tx ∷ create_tx ∷ []
unfolding op_call block_filled tx_enqueue tx_execute tx_metadata find update
busy_list = refl

abbrev idle : Engine
idle = bio_cb all_accepted busy write_tx

idle-Run : Run pm (log 0 ∷ log 1 ∷ []) (4096000 ∷ []) idle
unfolding op_call block_filled tx_enqueue tx_execute tx_metadata find update
idle-Run = write_done all_accepted write_tx busy-Run refl (omega arith)

Run-in_order_example : Ordered pm (log 0 ∷ log 1 ∷ []) (4096000 ∷ []) busy
Run-in_order_example = Run-in_order pm (log 0 ∷ log 1 ∷ []) (4096000 ∷ []) busy busy-Run

idle_list : idle.tx_list ≡ []
unfolding op_call block_filled tx_enqueue tx_execute tx_metadata find update bio_cb update_tx drain
    first commit tx_end notify remove
idle_list = refl

Run-quiet_example :
    (idle.tx_list ≡ [])
    × (idle.tx_outstanding ≡ 0)
    × (es : List Effect) × (idle.pmem ≡ run_effects pm es)
    × (logs_of es ≡ log 0 ∷ log 1 ∷ [])
    × (fills_of es ≡ 4096000 ∷ [])
Run-quiet_example = Run-quiet pm (log 0 ∷ log 1 ∷ []) (4096000 ∷ []) idle idle-Run (rw idle_list tt)

drain_settles_example :
    Settled
      (start pm)
      (create_tx ∷ write_tx ∷ [])
      (drain 2 (record (start pm) { tx_list = create_tx ∷ write_tx ∷ [] }))
drain_settles_example =
    drain_settles 2 (start pm) (create_tx ∷ write_tx ∷ []) (omega arith) (omega arith)
      (refl, (refl, tt))
