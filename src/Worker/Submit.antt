-- ===== src/Worker/Submit.antt =====
-- `submit_async_op`, `submit_stream_op` and `classify_accel_failure` of src/opends_aisio.c.
--
-- The accelerator is not part of the repository: what its calls return is an argument, and the
-- commands that it has taken for the stream are listed. `claim_slot_locked` tries the workers in
-- turn until one has room: `worker` is the one that it comes to.
use opends_fork.Prelude.{
  true, false, ℕ, ◌+◌, ◌*◌, ◌^◌, ◌%◌, Bool, not, ◌||◌, none, some, List, [], ◌∷◌, ◌++◌, ◌==◌,
  if◌then◌else◌, get_or, set,
}
use opends_fork.Prelude.Int.{ℤ, pos, is_negative, to_nat}
use opends_fork.Errors.{
  Error, opends_ok, opends_err, opends_err_dev, driver_not_initialized, invalid_value,
  device_driver_error, internal_error, context_mismatch,
}
use opends_fork.Worker.{IoWorker, pending, publish, add32}
use opends_fork.Worker.Complete.{is_zero}
use opends_fork.StreamMap.{Table, get}

-- What a stream is given to run.
pub data Command : Type 0 where
  host_func write_value wait_geq : ℕ → Command
  copy_tail : Command

pub record Driver : Type 0 where
  pub opened : Bool
  pub workers_ready : Bool
  pub assume_aligned_only : Bool
  pub stream_map : Table
  pub next_seq : List ℕ
  pub worker : IoWorker
  pub commands : List Command

-- The return codes of the accelerator's calls, and whether the caller is in the driver's context.
pub record Accel : Type 0 where
  pub launch_host_func : ℤ
  pub stream_write_value32 : ℤ
  pub stream_wait_value32_geq : ℤ
  pub copy_stream : ℤ
  pub same_context : Bool

unfoldable pub submit_async_op : Bool → ℕ → ℕ → Bool → Driver → Error × Driver
submit_async_op is_write fh buf_base future_given d =
    if not d.opened
    then (opends_err driver_not_initialized, d)
    else if fh == 0 || buf_base == 0 || not future_given
    then (opends_err invalid_value, d)
    else if not d.workers_ready
    then (opends_err device_driver_error, d)
    else (
      opends_ok,
      record d {
        worker = publish (record { state = pending; is_write = is_write; gate = none }) d.worker;
      },
    )

abbrev pub classify_accel_failure : Accel → ℤ → Error
classify_accel_failure a rc =
    opends_err_dev (if a.same_context then internal_error else context_mismatch) rc

-- The gate commands of operation `seq`: the first failure, or 0, and the commands taken.
unfoldable pub enqueue_gate : Accel → Bool → ℕ → ℤ × List Command
enqueue_gate a aligned_only seq =
    if aligned_only
    then (a.launch_host_func, if is_zero a.launch_host_func then host_func seq ∷ [] else [])
    else if not (is_zero a.stream_write_value32)
    then (a.stream_write_value32, [])
    else if not (is_zero a.stream_wait_value32_geq)
    then (a.stream_wait_value32_geq, write_value (2 * seq % 2 ^ 32) ∷ [])
    else (pos 0, write_value (2 * seq % 2 ^ 32) ∷ wait_geq ((2 * seq + 1) % 2 ^ 32) ∷ [])

-- From the claimed slot on, for the stream with index `idx`.
unfoldable pub submit_claimed : Accel → Bool → ℕ → Driver → Error × Driver
unfolding enqueue_gate
submit_claimed a is_write idx d =
    let seq = add32 (get_or d.next_seq idx 0) 1 in
    let (rc, gate) = enqueue_gate a d.assume_aligned_only seq in
    let numbered : Driver = record d {
      next_seq = set d.next_seq idx seq;
      commands = d.commands ++ gate;
    } in
    let published : Driver = record numbered {
      worker =
          publish (record { state = pending; is_write = is_write; gate = some (idx, seq) })
            d.worker;
    } in
    if not (is_zero rc)
    then (classify_accel_failure a rc, numbered)
    else if d.assume_aligned_only || is_write
    then (opends_ok, published)
    else if not (is_zero a.copy_stream)
    then (classify_accel_failure a a.copy_stream, published)
    else (opends_ok, record published { commands = published.commands ++ (copy_tail ∷ []) })

-- `arguments_given`: size_p, file_offset_p, buf_offset_p and bytes_p are not NULL.
unfoldable pub submit_stream_op : Accel → Bool → ℕ → ℕ → Bool → ℕ → Driver → Error × Driver
unfolding submit_claimed
submit_stream_op a is_write fh buf_base arguments_given stream d =
    let idx = get d.stream_map 16383 stream in
    if not d.opened
    then (opends_err driver_not_initialized, d)
    else if fh == 0 || buf_base == 0 || not arguments_given
    then (opends_err invalid_value, d)
    else if stream == 0
    then (opends_err invalid_value, d)
    else if not d.workers_ready
    then (opends_err device_driver_error, d)
    else if is_negative idx
    then (opends_err internal_error, d)
    else submit_claimed a is_write (to_nat idx) d

unfoldable pub opends_async_read : ℕ → ℕ → Bool → Driver → Error × Driver
unfolding submit_async_op
opends_async_read fh buf_base future_given d = submit_async_op false fh buf_base future_given d

unfoldable pub opends_async_write : ℕ → ℕ → Bool → Driver → Error × Driver
unfolding submit_async_op
opends_async_write fh buf_base future_given d = submit_async_op true fh buf_base future_given d

unfoldable pub opends_stream_read : Accel → ℕ → ℕ → Bool → ℕ → Driver → Error × Driver
unfolding submit_stream_op
opends_stream_read a fh buf_base arguments_given stream d =
    submit_stream_op a false fh buf_base arguments_given stream d

unfoldable pub opends_stream_write : Accel → ℕ → ℕ → Bool → ℕ → Driver → Error × Driver
unfolding submit_stream_op
opends_stream_write a fh buf_base arguments_given stream d =
    submit_stream_op a true fh buf_base arguments_given stream d
