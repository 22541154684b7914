-- ===== src/Lib.antt =====
-- Verification of OpenDS, a library that moves data between files and GPU memory. Paths are from the
-- repository's root.
--
-- The program. include/opends.h is the API; one backend implements it: src/opends_aisio.c reads files
-- by NVMe commands of its own through libxnvme, src/opends_ref.c by system calls, src/opends_gds.c by
-- cuFile. src/opends_common.c (bounced direct I/O, messages), src/opends_batch_async.c (batches) and
-- src/opends_sync_async.c (synchronous calls) stand on the asynchronous calls of a backend.
--
-- The files, with the code that they model:
--   Prelude: names that all share; Boolean tests, lists indexed by native numbers, signed integers
--     (ssize_t, int), and masks of powers of two.
--   Errors: opends_op_error_t and opends_error_t, and opends_op_status_error.
--   StreamMap: src/ds_stream_map.h. The table is a list; get_loop takes the table that it sees at each
--     probe, so that a lookup may race with inserts.
--   Async: the future, and a backend as a record of operations and laws; Async/Sync models
--     src/opends_sync_async.c, Async/Reference the function ref_async_submit of src/opends_ref.c.
--   Batch: src/opends_batch_async.c over a backend. Batch/Poll models opends_batch_get_status, where
--     completions of other threads and the clock are a list of moments.
--   DirectIo: rmw_fill, opends_direct_pwrite and opends_direct_pread of src/opends_common.c, over the
--     system calls on a file as a record (DirectIo/Os) with the laws that their manuals give;
--     DirectIo/Memory is a kernel that satisfies them.
--   Engine: the I/O engine of src/opends_aisio.c. Engine/Submit models submit_read_middle and the
--     bounce functions, Engine/Start models resolve_extents and start_read_op. What the queue answers
--     to each attempt to submit is a list. Engine/Pieces says which byte of the device ends up where,
--     Engine/Table what a bounce slot's copy takes from the block that its command has read.
--   Buffers: the tables of registered buffers of src/opends_aisio.c (Buffers/Aisio) and
--     src/opends_ref.c (Buffers/Reference), which share their array operations; Buffers/Alloc models
--     opends_alloc and the other calls of src/opends_ref.c.
--   Worker: the rings of operations, the stream gates, completion (Worker/Complete) and submission
--     (Worker/Submit, Worker/Claim) of src/opends_aisio.c. Worker/Pass models a pass of io_thread_main
--     over the ring.
--   Driver: the life of the driver of src/opends_aisio.c. Driver/Config models env_int and
--     read_env_config, Driver/Cpus mask_nth_cpu, Driver/Open open_device, workers_setup and
--     opends_driver_open, Driver/Streams opends_stream_register, workers_teardown and
--     opends_driver_close, Driver/Files the handles. What is acquired and released is a list of events
--     (Driver/Resources).
--   Gds: src/opends_gds.c, over cuFile; Gds/Io models the calls that are only forwarded, Gds/Batch the
--     batches.
--
-- Conventions. Pointers are numbers, and 0 is NULL. A w-bit integer wraps by `% 2 ^ w`. Locks are not
-- modelled: a function that runs under a lock is one step. What code outside the repository returns is
-- an argument of the function that calls it.
--
-- Fuel. The retrying loops of DirectIo recur on fuel; the bytes left and the interrupts to come bound
-- it (DirectIo/Read, DirectIo/Loop). The loops of Engine recur on the queue's answers, which suffice
-- once as many commands are accepted as blocks are left. advance_tail is given the length of the ring
-- that is in use. The waiting loop of a batch recurs on the moments to come. The search for a worker with
-- room recurs on fuel; twice the number of workers is enough while one has room (Worker/Claim).
--
-- Assumed of code that is modelled apart: the record of a backend (Async) says that every wait for a
-- future ends; opends_async_await of src/opends_ref.c and src/opends_aisio.c spins until the future is
-- done, so this holds for a future that was submitted.
--
-- Not modelled: how long the worker threads of src/opends_aisio.c sleep between passes; the CUDA files
-- src/ds_accel_cuda.c and src/ds_bounce_kernel_cuda.cu, which call the CUDA driver; the Python bindings,
-- tests, examples and scripts.
pub mod Prelude
pub mod Errors
pub mod StreamMap
pub mod Async
pub mod Batch
pub mod DirectIo
pub mod Engine
pub mod Buffers
pub mod Worker
pub mod Driver
pub mod Gds
