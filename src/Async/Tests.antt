-- ===== src/Async/Tests.antt =====
-- A read through the reference backend, src/opends_ref.c, on a file in memory.
use opends_fork.Prelude.{◌≡◌, refl, Option, none, some, false, true, arith}
use opends_fork.Prelude.Int.{pos}
use opends_fork.Errors.{Error, opends_ok}
use opends_fork.Async.{zero_future, Future}
use opends_fork.Async.Reference.{ref_transfer, ref_async_submit}
use opends_fork.Async.Reads.{IsRead, submit-IsRead}
use opends_fork.DirectIo.{rdwr}
use opends_fork.DirectIo.Os.{Buffer}
use opends_fork.DirectIo.Memory.{File, kernel, kernel-Laws, ten_bytes, empty_buffer}

-- An aligned read of one block at the address 8192, of which the file has ten bytes.
abbrev read : Option (Error × Option Future × Buffer × File)
read =
    ref_async_submit kernel 9 true false ten_bytes (some empty_buffer) (some rdwr) empty_buffer 4096
      4096 0 4096 (some zero_future)

abbrev after_read : Buffer
after_read = elim read [ none ↦ empty_buffer | some (e, f, mem, k) ↦ mem ]

read_ends :
    ref_async_submit kernel 9 true false ten_bytes
      (some empty_buffer)
      (some rdwr)
      empty_buffer
      4096
      4096
      0
      4096
      (some zero_future)
    ≡ some (opends_ok, some (record { done = true; result = pos 10 }), after_read, ten_bytes)
unfolding ref_async_submit ref_transfer
read_ends = refl

submit-IsRead_example : IsRead kernel ten_bytes empty_buffer 8192 4096 0 10 after_read ten_bytes
submit-IsRead_example =
    submit-IsRead kernel-Laws 9 ten_bytes (some empty_buffer) rdwr empty_buffer 4096 4096 0 4096 10
      zero_future refl (omega arith) read_ends
