-- ===== src/Engine/Tests.antt =====
-- The read engine of src/opends_aisio.c on a device with blocks of 512 bytes.
use opends_fork.Prelude.{ℕ, ◌≡◌, Bool, false, none, some, List, [], ◌∷◌, arith}
use opends_fork.Prelude.Int.{pos}
use opends_fork.Engine.{Device, Extent, direct, staged, ReadOp, async, Answer, busy, accepted}
use opends_fork.Engine.Table.{no_slot}
use opends_fork.Engine.Submit.{middle_loop}
use opends_fork.Engine.Start.{HomicReply}
use opends_fork.Engine.Coverage.{IsDevice}
use opends_fork.Engine.Progress.{accepts, middle_loop_total}

-- Two blocks in a command.
abbrev device : Device
device = record { lba_size = 512; lba_shift = 9; mdts_nbytes = 1024; assume_aligned_only = false }

device-IsDevice : IsDevice device
device-IsDevice = record { chunk = omega arith }

abbrev new_op : ReadOp
new_op = record {
  mode = async;
  err = none;
  chunks_remaining = 0;
  bounces_outstanding = 0;
  bytes_acc = 0;
  bounces = no_slot ∷ no_slot ∷ [];
  n_bounces = 0;
  bounce_buf = 0x9000;
  desc = none;
  moves = [];
}

-- The operation after a read of three blocks from block 10 on.
abbrev after_three : ReadOp
after_three = record new_op {
  chunks_remaining = 2;
  moves =
      direct (record { src = 5120; dst = 0x5000; len = 1024 })
      ∷ direct (record { src = 6144; dst = 0x5400; len = 512 })
      ∷ [];
}

middle_loop_total_example :
    (r : Bool × ReadOp × List Answer) × (middle_loop device 10 0x5000 3
        (accepted ∷ busy [] ∷ accepted ∷ accepted ∷ [])
        0
        new_op
      ≡ some r)
middle_loop_total_example =
    middle_loop_total device device-IsDevice 10 0x5000 3
      (accepted ∷ busy [] ∷ accepted ∷ accepted ∷ []) 0 new_op (unfold accepts in omega arith)

-- 1636 bytes from byte 512 of a file with an extent of two blocks at block 10, a hole of two blocks,
-- and one block at block 20, of which the first 100 bytes go through a bounce buffer.
abbrev two_extents : List Extent
two_extents =
    record { file_offset = 0; slba = 10; length = 1024 }
    ∷ record { file_offset = 2048; slba = 20; length = 512 }
    ∷ []

abbrev reply : ℕ → HomicReply
reply attempts = (pos 0, two_extents)

abbrev after_read : ReadOp
after_read = record new_op {
  chunks_remaining = 1;
  bounces_outstanding = 1;
  bytes_acc = 100;
  bounces = record { dst = 22016; src = 0x9000; nbytes = 100 } ∷ no_slot ∷ [];
  n_bounces = 1;
  moves =
      direct (record { src = 5632; dst = 20480; len = 512 })
      ∷ staged 0 (record { src = 10240; dst = 0x9000; len = 512 })
      ∷ [];
}
