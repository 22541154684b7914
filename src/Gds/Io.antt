-- ===== src/Gds/Io.antt =====
-- Reads and writes of src/opends_gds.c, its properties and its version: calls that are forwarded to
-- cuFile.
use opends_fork.Prelude.{ℕ, Bool, not, Option, none, some, if◌then◌else◌}
use opends_fork.Prelude.Int.{ℤ}
use opends_fork.Errors.{invalid_value, async_not_supported, neg_code}
use opends_fork.Buffers.{find_buf}
use opends_fork.Gds.{
  CuError, CodedError, ok, failure, from_cufile_error, is_refused, forwarded, place_of, Driver,
}

-- A buffer, a size, and the offsets in the file and in the buffer.
pub record Transfer : Type 0 where
  pub buf_base : ℕ
  pub size : ℕ
  pub file_offset : ℤ
  pub buf_offset : ℤ

-- The pointers of a stream-ordered call: a buffer, where the size, the offsets and the count of
-- bytes are, and the stream.
pub record StreamTransfer : Type 0 where
  pub buf_base : ℕ
  pub size_p : ℕ
  pub file_offset_p : ℕ
  pub buf_offset_p : ℕ
  pub bytes_p : ℕ
  pub stream : ℕ

-- opends_drv_props_t
pub record Props : Type 0 where
  pub major_version : ℕ
  pub minor_version : ℕ
  pub max_direct_io_size : ℕ
  pub max_batch_io_size : ℕ
  pub max_batch_io_timeout_msecs : ℕ

-- The fields of CUfileDrvProps_t that are read, with its `nvfs` in front.
pub record CuProps : Type 0 where
  pub nvfs_major_version : ℕ
  pub nvfs_minor_version : ℕ
  pub nvfs_max_direct_io_size : ℕ
  pub max_batch_io_size : ℕ
  pub max_batch_io_timeout_msecs : ℕ

-- What cuFile's calls return.
pub record Cufile : Type 0 where
  pub read : ℕ → Transfer → ℤ
  pub write : ℕ → Transfer → ℤ
  pub read_async : ℕ → StreamTransfer → CuError
  pub write_async : ℕ → StreamTransfer → CuError
  pub stream_register : (stream flags : ℕ) → CuError
  pub stream_deregister : (stream : ℕ) → CuError
  pub get_properties : CuError × CuProps
  pub set_max_direct_io_size : ℕ → CuError

-- `h->cufh`; a handle that is not allocated is undefined behaviour in C, and has 0 here.
unfoldable pub cufh_of : Driver → ℕ → ℕ
cufh_of d fh = elim (find_buf place_of fh d.handles) [ none ↦ 0 | some h ↦ h.cufh ]

module _ (lib : Cufile) where
  unfoldable pub opends_sync_read : Driver → ℕ → Transfer → ℤ
  opends_sync_read d fh t = lib.read (cufh_of d fh) t

  unfoldable pub opends_sync_write : Driver → ℕ → Transfer → ℤ
  opends_sync_write d fh t = lib.write (cufh_of d fh) t

  unfoldable pub opends_stream_read : Driver → ℕ → StreamTransfer → CodedError
  opends_stream_read d fh t = forwarded (lib.read_async (cufh_of d fh) t)

  unfoldable pub opends_stream_write : Driver → ℕ → StreamTransfer → CodedError
  opends_stream_write d fh t = forwarded (lib.write_async (cufh_of d fh) t)

  abbrev pub opends_stream_register : ℕ → ℕ → CodedError
  opends_stream_register stream flags = forwarded (lib.stream_register stream flags)

  abbrev pub opends_stream_deregister : ℕ → CodedError
  opends_stream_deregister stream = forwarded (lib.stream_deregister stream)

  -- What is stored in `*props`, if anything.
  unfoldable pub opends_driver_get_properties : Bool → CodedError × Option Props
  opends_driver_get_properties has_props =
      let (rc, cu) = lib.get_properties in
      if not has_props
      then (failure invalid_value, none)
      else if is_refused rc
      then (from_cufile_error rc, none)
      else (
        ok,
        some (record {
          major_version = cu.nvfs_major_version;
          minor_version = cu.nvfs_minor_version;
          max_direct_io_size = cu.nvfs_max_direct_io_size;
          max_batch_io_size = cu.max_batch_io_size;
          max_batch_io_timeout_msecs = cu.max_batch_io_timeout_msecs;
        }),
      )

  abbrev pub opends_driver_set_max_direct_io_size : ℕ → CodedError
  opends_driver_set_max_direct_io_size size = forwarded (lib.set_max_direct_io_size size)

  -- What is stored through the pointers `major`, `minor` and `patch` that are given.
  unfoldable pub opends_get_version :
      Bool → Bool → Bool → CodedError × Option ℕ × Option ℕ × Option ℕ
  opends_get_version has_major has_minor has_patch =
      let (rc, cu) = lib.get_properties in
      if is_refused rc then (from_cufile_error rc, none, none, none) else (
        ok,
        if has_major then some cu.nvfs_major_version else none,
        if has_minor then some cu.nvfs_minor_version else none,
        if has_patch then some 0 else none,
      )

abbrev pub opends_async_read : ℕ → Transfer → CodedError
opends_async_read fh t = failure async_not_supported

abbrev pub opends_async_write : ℕ → Transfer → CodedError
opends_async_write fh t = failure async_not_supported

abbrev pub opends_async_await : ℤ
opends_async_await = neg_code async_not_supported
