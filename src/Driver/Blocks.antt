-- ===== src/Driver/Blocks.antt =====
-- The block size that `open_device` of src/opends_aisio.c accepts, and the reads of a driver that was
-- opened with it.
use opends_fork.Prelude.{◌^◌, ◌≡◌, Option}
use opends_fork.Driver.Config.{Config}
use opends_fork.Driver.Open.{Blocks, Driver}
use opends_fork.Engine.{Device}

-- The block size and its shift agree in every driver that is open.
abbrev Agree : Blocks → Type 0
Agree b = b.lba_size ≡ 2 ^ b.lba_shift

-- The device as the reads of an open driver see it.
abbrev pub device_of : Driver → Device
device_of d = record {
  lba_size = d.blocks.lba_size;
  lba_shift = d.blocks.lba_shift;
  mdts_nbytes = d.blocks.mdts_nbytes;
  assume_aligned_only = d.config.assume_aligned_only;
}
