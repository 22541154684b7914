-- ===== src/Driver/Tests.antt =====
-- Opening, using and closing the driver of src/opends_aisio.c, on a host with two workers.
use opends_fork.Prelude.{
  ℕ, ◌^◌, ◌≡◌, refl, true, false, Option, map, none, some, List, [], ◌∷◌, arith, replicate,
}
use opends_fork.Prelude.Int.{ℤ, pos, negsuc}
use opends_fork.Errors.{opends_ok}
use opends_fork.StreamMap.{Table, empty_entry}
use opends_fork.Driver.Config.{
  Text, Variable, homi_dev, io_threads, cpu_mask, Vendor, Config, IsConfig, env_int,
  read_env_config, read_env_config-IsConfig,
}
use opends_fork.Driver.Cpus.{
  IsNth, mask_nth_cpu, nth_loop, popcount, cpus_from, has_cpu, mask_nth_cpu_lem,
}
use opends_fork.Driver.Resources.{
  memory, locks, connection, attach_path, qpairs, device, words, worker_array, queue, thread,
  bounce_slot, acquired, Log, acquired_of, released_of,
}
use opends_fork.Driver.Open.{
  idle_worker, Host, Driver, ctz, open_device, cpu_of, start_loop, workers_setup, after_open_device,
  open_connected, opends_driver_open,
}
use opends_fork.Driver.Setup.{Holds}
use opends_fork.Driver.Opening.{remains, opends_driver_open-Holds}
use opends_fork.Driver.Streams.{opends_stream_register, opends_driver_close}
use opends_fork.Driver.Closing.{Use, bounce, use_one, use_all, opends_driver_close-releases}
use opends_fork.Driver.Registered.{IsRegistry, Registers, opends_stream_register-Registers}
use opends_fork.Buffers.Reference
use opends_fork.Driver.Files.{
  Files, Call, register, deregister, run_all, run_reference, Same, run_all-run_reference,
}
use opends_fork.Engine.Table.{no_slot}
use opends_fork.Engine.{direct, Extent, ReadOp, async}
use opends_fork.Driver.Kept.{fresh-IsRegistry, use_all-IsRegistry}

-- Processors 1, 3 and 4.
mask_nth_cpu_lem_example : (cpu : ℕ) × (mask_nth_cpu 26 1 ≡ pos cpu) × IsNth 26 64 0 1 cpu
mask_nth_cpu_lem_example = mask_nth_cpu_lem 26 1 (unfold popcount cpus_from has_cpu in omega arith)

-- "2", and no other number.
abbrev strtol : Text → ℤ × Text
strtol [] = (pos 0, [])
strtol (c ∷ cs) = (pos 2, [])

abbrev strtoull : Text → ℕ
strtoull v = 26

-- Two workers, bound to the processors of a mask, on a device.
abbrev getenv : Variable → Option Text
getenv io_threads = some (50 ∷ [])
getenv cpu_mask = some (50 ∷ 54 ∷ [])
getenv homi_dev = some (100 ∷ [])
getenv _ = none

abbrev vendor : Vendor
vendor = record {
  launch_host_func = true;
  stream_write_value32 = true;
  stream_wait_value32_geq = true;
}

abbrev config : Config
config = record {
  n_io_threads = 2;
  queue_depth = 8;
  busy_spin = false;
  idle_spin_us = 200;
  cpu_mask = 26;
  assume_aligned_only = false;
}

configured : read_env_config strtol strtoull getenv vendor ≡ some config
unfolding read_env_config env_int
configured = refl

read_env_config-IsConfig_example : IsConfig strtol strtoull getenv vendor config
read_env_config-IsConfig_example = read_env_config-IsConfig strtol strtoull getenv vendor configured

abbrev host : Host
host = record {
  strtol = strtol;
  strtoull = strtoull;
  getenv = getenv;
  vendor = vendor;
  calloc_driver = true;
  homic_connect = pos 0;
  homic_attach_qpair = pos 0;
  xnvme_dev_open = true;
  geometry = record { lba_nbytes = 512; nbytes = 0; mdts_nbytes = 1024 };
  ctx_get = pos 0;
  host_alloc_mapped = pos 0;
  calloc_workers = true;
  starts = λ i. record { queue_ok = true; thread_ok = true };
}

abbrev driver : Table → Driver
driver table = record {
  config = config;
  blocks = record { lba_size = 512; lba_shift = 9; mdts_nbytes = 1024 };
  workers = idle_worker (some (pos 1)) ∷ idle_worker (some (pos 3)) ∷ [];
  streams = [];
  stream_map = table;
}

abbrev opened_log : Log
opened_log = map acquired (
    thread ∷ queue ∷ thread ∷ queue ∷ worker_array ∷ words ∷ device ∷ attach_path ∷ qpairs
    ∷ connection ∷ locks ∷ memory ∷ [])

opened :
    (table : Table)
    → opends_driver_open host false table ≡ (opends_ok, some (driver table), opened_log)
unfolding opends_driver_open open_connected after_open_device workers_setup start_loop cpu_of
    open_device ctz read_env_config env_int mask_nth_cpu nth_loop popcount cpus_from has_cpu
opened table = refl

-- The queue pairs that stay attached when the device is not found.
abbrev no_device : Host
no_device = record host { xnvme_dev_open = false }

opends_driver_open-Holds_example :
    Holds qpairs
      (remains qpairs no_device
        (opends_driver_open no_device false []).0.err
        (opends_driver_open no_device false []).1)
      []
      (opends_driver_open no_device false []).2
opends_driver_open-Holds_example = opends_driver_open-Holds qpairs no_device false []

-- A stream is registered, one is refused, and a slot in the ring of the second worker gets a buffer.
abbrev uses : List Use
uses =
    Use.register (pos 0) 0x9000 0x1000
    ∷ Use.register (pos 0) 0x9000 0
    ∷ bounce 1 5 0xa000
    ∷ bounce 1 5 0xb000
    ∷ bounce 0 0 0
    ∷ []

abbrev zeroed : Table
zeroed = replicate (2 ^ 14) empty_entry

opends_driver_close-releases_example :
    let used = use_all uses (some (driver zeroed)) opened_log in
    let end = opends_driver_close used.0 used.1 in
    acquired_of bounce_slot end.2 ≡ released_of bounce_slot end.2
opends_driver_close-releases_example =
    opends_driver_close-releases bounce_slot host zeroed uses (opened zeroed)

zeroed-IsRegistry : IsRegistry (driver zeroed)
zeroed-IsRegistry = fresh-IsRegistry (driver zeroed) refl refl

opends_stream_register-Registers_example :
    Registers
      (driver zeroed)
      0x1000
      (opends_stream_register (pos 0) 0x9000 0x1000 (some (driver zeroed)) opened_log)
opends_stream_register-Registers_example =
    opends_stream_register-Registers (driver zeroed) zeroed-IsRegistry 0x9000 0x1000 opened_log
      (omega arith) (omega arith) (omega arith)

abbrev registered :
    Registers
      (driver zeroed)
      0x1000
      (opends_stream_register (pos 0) 0x9000 0x1000 (some (driver zeroed)) opened_log)
registered =
    opends_stream_register-Registers (driver zeroed) zeroed-IsRegistry 0x9000 0x1000 opened_log
      (omega arith) (omega arith) (omega arith)

used_once :
    (use_all (Use.register (pos 0) 0x9000 0x1000 ∷ []) (some (driver zeroed)) opened_log).0
    ≡ some registered.after
unfolding use_all use_one
used_once = registered.left

use_all-IsRegistry_example : IsRegistry registered.after
use_all-IsRegistry_example =
    use_all-IsRegistry host (Use.register (pos 0) 0x9000 0x1000 ∷ []) (opened zeroed) used_once

-- 512 bytes from byte 512 of a file with one extent of two blocks at block 10.
abbrev one_extent : List Extent
one_extent = record { file_offset = 0; slba = 10; length = 1024 } ∷ []

abbrev new_op : ReadOp
new_op = record {
  mode = async;
  err = none;
  chunks_remaining = 0;
  bounces_outstanding = 0;
  bytes_acc = 0;
  bounces = no_slot ∷ no_slot ∷ [];
  n_bounces = 0;
  bounce_buf = 0x9000;
  desc = none;
  moves = [];
}

abbrev after_read : ReadOp
after_read = record new_op {
  chunks_remaining = 1;
  moves = direct (record { src = 5632; dst = 20480; len = 512 }) ∷ [];
}

-- An open driver and the reference's, without handles.
abbrev files : Files
files = record { drv = some (driver []).blocks; use_count = pos 0; handles = [] }

abbrev reference : Reference.Driver
reference = record {
  driver_open = true;
  use_count = pos 0;
  registered = [];
  handles = [];
  freed = [];
}

abbrev handle_calls : List Call
handle_calls =
    register (some 0x4000) 0x100 true (pos 3)
    ∷ register none 0x200 true (negsuc 0)
    ∷ deregister 0x100
    ∷ []

run_all-run_reference_example :
    ((run_all 0x4000 handle_calls files).0 ≡ (run_reference 0x4000 handle_calls reference).0)
    × Same (run_all 0x4000 handle_calls files).1 (run_reference 0x4000 handle_calls reference).1
run_all-run_reference_example =
    run_all-run_reference 0x4000 handle_calls files reference (refl, (refl, refl))
      (record { opened = refl; handles = refl; count = refl })
