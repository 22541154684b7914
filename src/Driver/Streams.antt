-- ===== src/Driver/Streams.antt =====
-- Registering streams, the bounce slots of operations, and closing the driver: in src/opends_aisio.c
-- `stream_bounce_alloc`, `stream_bounce_free`, `opends_stream_register`, the allocation of
-- `submit_host_bounce`, `workers_teardown` and `opends_driver_close`.
--
-- An open driver's workers are ready: `opends_driver_open` fails where they are not. The buffers that
-- are left are Buffers/Aisio's.
use opends_fork.Prelude.{
  ℕ, not, Option, none, some, List, [], ◌∷◌, ◌++◌, ◌||◌, ◌==◌, leb, if◌then◌else◌, length, get_or,
  get_elem?, set,
}
use opends_fork.Prelude.Int.{ℤ, pos, negsuc, is_negative}
use opends_fork.Errors.{
  Error, opends_ok, opends_err, opends_err_dev, driver_not_initialized, invalid_value,
  internal_error,
}
use opends_fork.StreamMap.{Table, get, put}
use opends_fork.Worker.Complete.{is_zero}
use opends_fork.Driver.Resources.{
  memory, locks, connection, attach_path, qpairs, device, words, worker_array, queue, thread,
  bounce_slot, descriptor, acquired, released, Log,
}
use opends_fork.Driver.Open.{Driver, Worker, idle_worker, Stream, release_each}

abbrev pub max_streams : ℕ
max_streams = 8192

abbrev pub stream_map_mask : ℕ
stream_map_mask = 16383

-- `stream_bounce_alloc`: 0 or the `dev_err`, for what `host_alloc_mapped` and `buf_alloc_locked`
-- return.
unfoldable pub stream_bounce_alloc : ℤ → ℕ → Log → ℤ × Log
stream_bounce_alloc rc buf log =
    if not (is_zero rc)
    then (rc, log)
    else if buf == 0
    then (negsuc 0, released descriptor ∷ acquired descriptor ∷ log)
    else (pos 0, acquired bounce_slot ∷ acquired descriptor ∷ log)

-- `stream_bounce_free` of a stream whose slot and descriptor are allocated.
abbrev pub stream_bounce_free : Log → Log
stream_bounce_free log = released descriptor ∷ released bounce_slot ∷ log

-- The stream at index `n`: its gate is word `n`.
abbrev pub new_stream : ℕ → ℕ → Stream
new_stream n buf = record { gate = n; next_seq = 0; bounce_buf = buf }

-- `ds_stream_map_put` and what follows it, with the slot `buf` allocated in `log`.
unfoldable pub after_put : ℕ → Driver → Log → Option Table → Error × Option Driver × Log
after_put buf d log none = (opends_err internal_error, some d, stream_bounce_free log)
after_put buf d log (some table) = (
  opends_ok,
  some (record d {
    streams = d.streams ++ (new_stream (length d.streams) buf ∷ []);
    stream_map = table;
  }),
  log,
)

unfoldable pub opends_stream_register :
    ℤ → ℕ → ℕ → Option Driver → Log → Error × Option Driver × Log
opends_stream_register rc buf stream none log = (opends_err driver_not_initialized, none, log)
opends_stream_register rc buf stream (some d) log =
    let n = length d.streams in
    let (brc, log') = stream_bounce_alloc rc buf log in
    if stream == 0
    then (opends_err invalid_value, some d, log)
    else if not (is_negative (get d.stream_map stream_map_mask stream))
    then (opends_ok, some d, log)
    else if leb max_streams n
    then (opends_err internal_error, some d, log)
    else if not (is_zero brc)
    then (opends_err_dev internal_error brc, some d, log')
    else after_put buf d log' (put d.stream_map stream_map_mask stream (pos n))

unfoldable pub opends_stream_get : Driver → ℕ → Option Stream
opends_stream_get d stream = elim (get d.stream_map stream_map_mask stream) [
  | pos idx ↦ get_elem? d.streams idx
  | negsuc n ↦ none
]

-- `submit_host_bounce` gives slot `slot` of worker `i` a bounce buffer, unless it has one from an
-- earlier operation; `buf` is what `buf_alloc_locked` returns. There are no other workers and slots.
unfoldable pub give_bounce : (i slot buf : ℕ) → Driver → Log → Driver × Log
give_bounce i slot buf d log =
    let w = get_or d.workers i (idle_worker none) in
    let bufs = set w.bounce_bufs slot buf in
    if leb (length d.workers) i || leb (length w.bounce_bufs) slot
    then (d, log)
    else if not (get_or w.bounce_bufs slot 0 == 0)
    then (d, log)
    else if buf == 0
    then (d, log)
    else (
      record d { workers = set d.workers i (record w { bounce_bufs = bufs }) },
      acquired bounce_slot ∷ log,
    )

-- The loops of `workers_teardown`, over the streams and over the workers.
unfoldable pub free_streams : List Stream → Log → Log
free_streams [] log = log
free_streams (s ∷ ss) log = free_streams ss (stream_bounce_free log)

-- The loop over the slots of a ring.
unfoldable pub free_slots : List ℕ → Log → Log
free_slots [] log = log
free_slots (b ∷ bs) log = free_slots bs (if b == 0 then log else released bounce_slot ∷ log)

unfoldable pub free_workers : List Worker → Log → Log
free_workers [] log = log
free_workers (w ∷ ws) log = free_workers ws (released queue ∷ free_slots w.bounce_bufs log)

unfoldable pub workers_teardown : Driver → Log → Log
workers_teardown d log =
    released words
    ∷ released worker_array
    ∷ free_workers d.workers (free_streams d.streams (release_each thread (length d.workers) log))

unfoldable pub opends_driver_close : Option Driver → Log → Error × Option Driver × Log
unfolding workers_teardown
opends_driver_close none log = (opends_err driver_not_initialized, none, log)
opends_driver_close (some d) log = (
  opends_ok,
  none,
  released memory
      ∷ released locks
      ∷ released attach_path
      ∷ released connection
      ∷ released qpairs
      ∷ released device
      ∷ workers_teardown d log,
)
