-- ===== src/Async/Reference.antt =====
-- The reference backend's I/O, `ref_async_submit` of src/opends_ref.c: a submission does the I/O at
-- once, straight to the caller's buffer where everything is aligned, and else through the bounce
-- buffer of src/opends_common.c.
use opends_fork.Prelude.{
  false, ℕ, ◌+◌, ◌-◌, Bool, true, not, ◌&&◌, Option, none, some, leb, ◌==◌, if◌then◌else◌, bit_and,
}
use Prim.Native.Nat.{bit_or}
use opends_fork.Prelude.Int.{ℤ, pos, negsuc, is_negative}
use opends_fork.Errors.{
  OpError, Error, opends_ok, opends_err, neg_code, driver_not_initialized, invalid_value,
  internal_error,
}
use opends_fork.Async.{Future}
use opends_fork.DirectIo.{AccessMode, Copy, opends_direct_pwrite, opends_direct_pread}
use opends_fork.DirectIo.Os.{Buffer, Sys, Kernel, splice}

-- `host_copy`
unfoldable pub host_copy : Copy
host_copy dst at bytes src = (pos 0, splice dst at bytes src)

-- `direct_aligned`, for the address `p`
abbrev pub direct_aligned : ℕ → ℕ → ℕ → Bool
direct_aligned p size off = bit_and (bit_or (bit_or p size) off) (4096 - 1) == 0

-- The memory from the address `p` on, and the memory with that part replaced.
abbrev pub from_address : ℕ → Buffer → Buffer
from_address p mem i = mem (p + i)

abbrev pub write_back : ℕ → Buffer → Buffer → Buffer
write_back p mem dst j = if leb p j then dst (j - p) else mem j

abbrev pub to_ssize : Sys → ℤ
to_ssize (Sys.count n) = pos n
to_ssize (Sys.fail e) = negsuc 0

-- `if (result < 0) result = -(ssize_t)OPENDS_INTERNAL_ERROR; future->result = result; …`
abbrev pub finish : ℤ → Future
finish result = record {
  done = true;
  result = if is_negative result then neg_code internal_error else result;
}

module _ {K : Type 0} (os : Kernel K) where
  -- The I/O: its result, the memory and the file after it. `fuel` bounds the retries.
  unfoldable pub ref_transfer :
      ℕ → K → Option Buffer → AccessMode → Bool → Buffer → ℕ → ℕ → ℕ → Option (ℤ × Buffer × K)
  ref_transfer fuel k alloc mode is_write mem p size off =
      let (written, k₁) = os.pwrite k (from_address p mem) size off in
      let (r, got, k₂) = os.pread k size off in
      if is_write && direct_aligned p size off
      then some (to_ssize written, mem, k₁)
      else if is_write
      then elim (opends_direct_pwrite os fuel k host_copy alloc mode (from_address p mem) size
          off) [ none ↦ none | some (result, k') ↦ some (result, mem, k') ]
      else if direct_aligned p size off
      then elim r [
        | Sys.count n ↦ some (pos n, write_back p mem (splice (from_address p mem) 0 n got), k₂)
        | Sys.fail e ↦ some (negsuc 0, mem, k₂)
      ]
      else elim (opends_direct_pread os fuel k alloc (from_address p mem) size off) [
        | none ↦ none
        | some (result, dst, k') ↦ some (result, write_back p mem dst, k')
      ]

  -- `ref_async_submit`. A handle is its access mode, or NULL; so is the future.
  unfoldable pub ref_async_submit :
      ℕ
      → Bool
      → Bool
      → K
      → Option Buffer
      → Option AccessMode
      → Buffer
      → ℕ
      → ℕ
      → ℕ
      → ℕ
      → Option Future
      → Option (Error × Option Future × Buffer × K)
  unfolding ref_transfer
  ref_async_submit fuel driver_open is_write k alloc fh mem buf_base size file_offset buf_offset
        future =
      let refuse : OpError → Option (Error × Option Future × Buffer × K) =
        λ e. some (opends_err e, future, mem, k) in
      let transfer : AccessMode → Option (Error × Option Future × Buffer × K) = λ mode.
        elim (ref_transfer fuel k alloc mode is_write mem (buf_base + buf_offset) size
          file_offset) [
            | none ↦ none
            | some (result, mem', k') ↦ some (opends_ok, some (finish result), mem', k')
          ] in
      if not driver_open
      then refuse driver_not_initialized
      else if buf_base == 0
      then refuse invalid_value
      else elim fh [
        | none ↦ refuse invalid_value
        | some mode ↦ elim future [ none ↦ refuse invalid_value | some f ↦ transfer mode ]
      ]

  unfoldable pub opends_async_read :
      ℕ
      → Bool
      → K
      → Option Buffer
      → Option AccessMode
      → Buffer
      → ℕ
      → ℕ
      → ℕ
      → ℕ
      → Option Future
      → Option (Error × Option Future × Buffer × K)
  unfolding ref_async_submit
  opends_async_read fuel driver_open k alloc fh mem buf_base size file_offset buf_offset future =
      ref_async_submit fuel driver_open false k alloc fh mem buf_base size file_offset buf_offset
        future

  unfoldable pub opends_async_write :
      ℕ
      → Bool
      → K
      → Option Buffer
      → Option AccessMode
      → Buffer
      → ℕ
      → ℕ
      → ℕ
      → ℕ
      → Option Future
      → Option (Error × Option Future × Buffer × K)
  unfolding ref_async_submit
  opends_async_write fuel driver_open k alloc fh mem buf_base size file_offset buf_offset future =
      ref_async_submit fuel driver_open true k alloc fh mem buf_base size file_offset buf_offset
        future
