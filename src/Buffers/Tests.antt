-- ===== src/Buffers/Tests.antt =====
-- The buffer tables of src/opends_aisio.c and src/opends_ref.c on small inputs.
use opends_fork.Prelude.{ℕ, ◌≡◌, refl, List, [], ◌∷◌, arith}
use opends_fork.Prelude.Int.{pos}
use opends_fork.Errors.{opends_ok}
use opends_fork.Buffers.Array.{total, count}
use opends_fork.Buffers.Aisio.{find, opends_buf_register, opends_buf_deregister}
use opends_fork.Buffers.Ledger.{
  Op, alloc, free, register, run, is_allocated, is_freed, is_mapped, is_unmapped, fresh, calls_of,
  close_releases,
}
use opends_fork.Buffers.Table.{IsTable, IsFresh, run-IsTable, register-deregister}
use opends_fork.Buffers.{find_buf}

-- Two buffers, one of which is released before the driver is closed.
abbrev session : List Op
session = alloc 0x1000 64 ∷ register (pos 0) 0x2000 64 ∷ free 0x1000 ∷ alloc 0x3000 64 ∷ []

close_releases_example :
    (total (is_freed 0x3000) (calls_of session) ≡ total (is_allocated 0x3000) (calls_of session))
    × (total (is_unmapped 0x3000) (calls_of session) ≡ total (is_mapped 0x3000) (calls_of session))
close_releases_example = close_releases session 0x3000

fresh-IsTable : IsTable []
fresh-IsTable = record {
  distinct = record { once = λ b. (unfold count in omega arith) };
  room = omega arith;
}

run-IsTable_example : IsTable (run (alloc 0x1000 64) fresh).bufs
run-IsTable_example =
    run-IsTable (alloc 0x1000 64) fresh fresh-IsTable (unfold IsFresh find_buf in refl)

register-deregister_example :
    ((opends_buf_deregister 0x2000 (opends_buf_register (pos 0) 0x2000 64 fresh).1).0 ≡ opends_ok)
    × ((c : ℕ)
        → find c
            (opends_buf_deregister 0x2000 (opends_buf_register (pos 0) 0x2000 64 fresh).1).1.bufs
          ≡ find c fresh.bufs)
register-deregister_example =
    register-deregister (pos 0) 0x2000 64 fresh fresh-IsTable
      (unfold opends_buf_register find_buf in refl)
