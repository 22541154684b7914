-- ===== src/Buffers/ReferenceTests.antt =====
-- The buffer table of src/opends_ref.c on a small input.
use opends_fork.Prelude.{◌+◌, ◌-◌, ◌^◌, ◌%◌, ◌<◌, ◌≤◌, ◌≡◌, ◌⊎◌, arith, false, List, [], ◌∷◌}
use opends_fork.Buffers.Alloc.{align_up, align_up_lem}
use opends_fork.Prelude.Int.{pos}
use opends_fork.Buffers.Reference.{
  Driver, Op, open_driver, register, deregister, free, run_all, IsTable, empty-IsTable,
  run_all-IsTable,
}

abbrev closed_driver : Driver
closed_driver = record {
  driver_open = false;
  use_count = pos 0;
  registered = [];
  handles = [];
  freed = [];
}

abbrev session : List Op
session =
    open_driver ∷ register 0x1000 64 ∷ register 0x2000 64 ∷ deregister 0x1000 ∷ free 0x1000 ∷ []

run_all-IsTable_example :
    IsTable (run_all session closed_driver).driver_open (run_all session closed_driver).registered
run_all-IsTable_example = run_all-IsTable session closed_driver (empty-IsTable false)

-- One byte more than a page.
align_up_lem_example :
    ((4097 ≤ 2 ^ 64 - 4096)
      × (4097 ≤ align_up 4097)
      × (align_up 4097 < 4097 + 4096)
      × (align_up 4097 % 4096 ≡ 0))
    ⊎ ((2 ^ 64 - 4096 < 4097) × (align_up 4097 ≡ 0))
align_up_lem_example = align_up_lem 4097 (omega arith)
