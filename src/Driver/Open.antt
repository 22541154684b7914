-- ===== src/Driver/Open.antt =====
-- `open_device`, `workers_setup` and `opends_driver_open` of src/opends_aisio.c.
use opends_fork.Prelude.{
  ℕ, zero, suc, ◌+◌, ◌-◌, ◌*◌, ◌/◌, ◌%◌, Bool, true, false, not, Option, none, some, List, [], ◌∷◌,
  ◌==◌, if◌then◌else◌, bit_and, length, map, replicate,
}
use opends_fork.Prelude.Int.{ℤ, pos, negsuc, is_negative}
use opends_fork.Errors.{
  Error, opends_ok, opends_err, opends_err_dev, driver_already_open, fs_setup_error, internal_error,
  device_not_found, device_driver_error,
}
use opends_fork.Worker.Complete.{is_zero}
use opends_fork.StreamMap.{Table}
use opends_fork.Driver.Config.{Text, Variable, homi_dev, Vendor, Config, is_empty, read_env_config}
use opends_fork.Driver.Cpus.{mask_nth_cpu, popcount}
use opends_fork.Driver.Resources.{
  Kind, memory, locks, connection, attach_path, qpairs, device, words, worker_array, queue, thread,
  acquired, released, Log,
}

-- Whether `xnvme_queue_init` and `pthread_create` succeed for a worker.
pub record Start : Type 0 where
  pub queue_ok : Bool
  pub thread_ok : Bool

-- struct xnvme_geo
pub record Geometry : Type 0 where
  pub lba_nbytes : ℕ
  pub nbytes : ℕ
  pub mdts_nbytes : ℕ

-- What the calls of other libraries return while the driver is opened.
pub record Host : Type 0 where
  pub strtol : Text → ℤ × Text
  pub strtoull : Text → ℕ
  pub getenv : Variable → Option Text
  pub vendor : Vendor
  pub calloc_driver : Bool
  pub homic_connect : ℤ
  pub homic_attach_qpair : ℤ
  pub xnvme_dev_open : Bool
  pub geometry : Geometry
  pub ctx_get : ℤ
  pub host_alloc_mapped : ℤ
  pub calloc_workers : Bool
  pub starts : ℕ → Start

-- The geometry that `open_device` leaves in the driver.
pub record Blocks : Type 0 where
  pub lba_size : ℕ
  pub lba_shift : ℕ
  pub mdts_nbytes : ℕ

abbrev pub lba_size_of : Geometry → ℕ
lba_size_of g = if g.lba_nbytes == 0 then g.nbytes else g.lba_nbytes

abbrev pub mdts_of : Geometry → ℕ
mdts_of g = if g.mdts_nbytes == 0 then 128 * 1024 else g.mdts_nbytes

-- `__builtin_ctz` of a number of `bits` bits.
unfoldable pub ctz : ℕ → ℕ → ℕ
ctz zero x = 0
ctz (suc bits) x = let rest = ctz bits (x / 2) in if x % 2 == 1 then 0 else 1 + rest

-- `open_device`: `none` is a failure. Whether the queue pairs were attached decides whether there
-- is a path to free.
unfoldable pub open_device : Host → Log → Option Blocks × Bool × Log
open_device h log =
    let lba_size = lba_size_of h.geometry in
    let attached = acquired attach_path ∷ acquired qpairs ∷ log in
    let opened = acquired device ∷ attached in
    if is_negative h.homic_attach_qpair
    then (none, false, log)
    else if not h.xnvme_dev_open
    then (none, true, attached)
    else if lba_size == 0
    then (none, true, released device ∷ opened)
    else if not (bit_and lba_size (lba_size - 1) == 0)
    then (none, true, released device ∷ opened)
    else (
      some (record {
        lba_size = lba_size;
        lba_shift = ctz 32 lba_size;
        mdts_nbytes = mdts_of h.geometry;
      }),
      true,
      opened,
    )

-- The processor that worker `i` is bound to, if the mask names any.
unfoldable pub cpu_of : ℕ → ℕ → Option ℤ
cpu_of mask i = if popcount mask == 0 then none else some (mask_nth_cpu mask (i % popcount mask))

-- The loop that starts workers from `i` on, with the number left: whether all started, the
-- processors of those that did, and the events.
unfoldable pub start_loop : (ℕ → Start) → ℕ → ℕ → ℕ → Log → Bool × List (Option ℤ) × Log
start_loop starts mask zero i log = (true, [], log)
start_loop starts mask (suc left) i log =
    let (all, cpus, log') =
      start_loop starts mask left (i + 1) (acquired thread ∷ acquired queue ∷ log) in
    if not (starts i).queue_ok
    then (false, [], log)
    else if not (starts i).thread_ok
    then (false, [], released queue ∷ acquired queue ∷ log)
    else (all, cpu_of mask i ∷ cpus, log')

-- `pthread_join` of `n` threads, and `xnvme_queue_term` of `n` queues.
unfoldable pub release_each : Kind → ℕ → Log → Log
release_each k zero log = log
release_each k (suc n) log = release_each k n (released k ∷ log)

-- `workers_setup`: 0 or the `dev_err` to report, the processors of the workers, and the events.
unfoldable pub workers_setup : Host → Config → Log → ℤ × List (Option ℤ) × Log
unfolding start_loop release_each
workers_setup h c log =
    let arrays = acquired worker_array ∷ acquired words ∷ log in
    let (all, cpus, log') = start_loop h.starts c.cpu_mask c.n_io_threads 0 arrays in
    if not (is_zero h.ctx_get)
    then (h.ctx_get, [], log)
    else if not (is_zero h.host_alloc_mapped)
    then (h.host_alloc_mapped, [], log)
    else if not h.calloc_workers
    then (negsuc 0, [], released words ∷ acquired words ∷ log)
    else if all
    then (pos 0, cpus, log')
    else (
      negsuc 0,
      [],
      released words
          ∷ released worker_array
          ∷ release_each queue (length cpus) (release_each thread (length cpus) log'),
    )

-- A stream of the driver: the index of its gate word, its last sequence number, its bounce slot.
pub record Stream : Type 0 where
  pub gate : ℕ
  pub next_seq : ℕ
  pub bounce_buf : ℕ

-- A worker: the processor that its thread is bound to, and the `bounce_buf` of each slot of its ring,
-- 0 for NULL.
pub record Worker : Type 0 where
  pub cpu : Option ℤ
  pub bounce_bufs : List ℕ

-- The slots of a ring that `calloc` has zeroed, FILE_OP_QUEUE_SIZE of them.
unfoldable pub no_bounces : List ℕ
no_bounces = replicate 1024 0

abbrev pub idle_worker : Option ℤ → Worker
idle_worker cpu = record { cpu = cpu; bounce_bufs = no_bounces }

-- The part of `struct driver` that opening and registering streams fill.
pub record Driver : Type 0 where
  pub config : Config
  pub blocks : Blocks
  pub workers : List Worker
  pub streams : List Stream
  pub stream_map : Table

-- The path is freed; it is NULL if nothing was attached.
abbrev pub free_path : Bool → Log → Log
free_path given log = if given then released attach_path ∷ log else log

-- The end of `opends_driver_open` and of its failure paths, from a connection on.
abbrev pub disconnected : Bool → Log → Log
disconnected has_path log =
    released memory ∷ released locks ∷ free_path has_path (released connection ∷ log)

-- From the return of `open_device` on: its result, whether there is a path, and the events.
unfoldable pub after_open_device :
    Host → Config → Table → Option Blocks → Bool → Log → Error × Option Driver × Log
after_open_device h c table none has_path log =
    (opends_err device_not_found, none, disconnected has_path log)
after_open_device h c table (some b) has_path log =
    let (rc, cpus, log') = workers_setup h c log in
    let d : Driver = record {
      config = c;
      blocks = b;
      workers = map idle_worker cpus;
      streams = [];
      stream_map = table;
    } in
    if is_zero rc then (opends_ok, some d, log') else (
      opends_err_dev device_driver_error rc,
      none,
      disconnected has_path (released qpairs ∷ released device ∷ log'),
    )

-- From the connection on.
unfoldable pub open_connected : Host → Config → Table → Log → Error × Option Driver × Log
open_connected h c table log =
    let (blocks, has_path, log') = open_device h log in
    after_open_device h c table blocks has_path log'

abbrev pub is_given : Option Text → Bool
is_given none = false
is_given (some v) = not (is_empty v)

-- `opends_driver_open`; `is_open` is `drv != NULL`, and `table` the zeroed array of the stream map.
unfoldable pub opends_driver_open : Host → Bool → Table → Error × Option Driver × Log
opends_driver_open h is_open table =
    let allocated = acquired memory ∷ [] in
    let locked = acquired locks ∷ allocated in
    if is_open
    then (opends_err driver_already_open, none, [])
    else if not (is_given (h.getenv homi_dev))
    then (opends_err fs_setup_error, none, [])
    else if not h.calloc_driver
    then (opends_err internal_error, none, [])
    else elim (read_env_config h.strtol h.strtoull h.getenv h.vendor) [
      | none ↦ (opends_err fs_setup_error, none, released memory ∷ allocated)
      | some c ↦
          if is_negative h.homic_connect
          then (opends_err fs_setup_error, none, released memory ∷ released locks ∷ locked)
          else open_connected h c table (acquired connection ∷ locked)
    ]
