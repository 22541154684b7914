-- ===== src/Errors.antt =====
-- Error codes, from include/opends.h, src/opends_internal.h and src/opends_common.c.
pub mod Messages
mod Tests
use Prim.Native.String.{String}
use opends_fork.Prelude.{ℕ, ◌≡◌, Bool, true, false, List, [], ◌∷◌, ◌==◌, if◌then◌else◌}
use opends_fork.Prelude.Int.{ℤ, pos, neg}

-- opends_op_error_t
pub data OpError : Type 0 where
  success driver_not_initialized driver_invalid_props driver_unsupported_limit : OpError
  driver_version_mismatch driver_version_read_error driver_closing platform_not_supported : OpError
  io_not_supported device_not_supported fs_driver_error device_driver_error : OpError
  pointer_invalid memory_type_invalid pointer_range_error context_mismatch : OpError
  invalid_mapping_size invalid_mapping_range invalid_file_type invalid_file_open_flag : OpError
  dio_not_set invalid_value memory_already_registered memory_not_registered : OpError
  permission_denied driver_already_open handle_not_registered handle_already_registered : OpError
  device_not_found internal_error getnewfd_failed fs_setup_error io_disabled : OpError
  batch_submit_failed memory_pinning_failed batch_full async_not_supported io_max_error : OpError

-- The value of the enumerator.
abbrev pub code : OpError → ℕ
code success = 0
code driver_not_initialized = 5001
code driver_invalid_props = 5002
code driver_unsupported_limit = 5003
code driver_version_mismatch = 5004
code driver_version_read_error = 5005
code driver_closing = 5006
code platform_not_supported = 5007
code io_not_supported = 5008
code device_not_supported = 5009
code fs_driver_error = 5010
code device_driver_error = 5011
code pointer_invalid = 5012
code memory_type_invalid = 5013
code pointer_range_error = 5014
code context_mismatch = 5015
code invalid_mapping_size = 5016
code invalid_mapping_range = 5017
code invalid_file_type = 5018
code invalid_file_open_flag = 5019
code dio_not_set = 5020
code invalid_value = 5022
code memory_already_registered = 5023
code memory_not_registered = 5024
code permission_denied = 5025
code driver_already_open = 5026
code handle_not_registered = 5027
code handle_already_registered = 5028
code device_not_found = 5029
code internal_error = 5030
code getnewfd_failed = 5031
code fs_setup_error = 5033
code io_disabled = 5034
code batch_submit_failed = 5035
code memory_pinning_failed = 5036
code batch_full = 5037
code async_not_supported = 5038
code io_max_error = 5039

-- opends_error_t
pub record Error : Type 0 where
  pub err : OpError
  pub dev_err : ℤ

abbrev pub opends_ok : Error
opends_ok = record { err = success; dev_err = pos 0 }

abbrev pub opends_err : OpError → Error
opends_err e = record { err = e; dev_err = pos 0 }

abbrev pub opends_err_dev : OpError → ℤ → Error
opends_err_dev e d = record { err = e; dev_err = d }

-- `-(ssize_t)e`, how a call that returns a count reports an error.
abbrev pub neg_code : OpError → ℤ
neg_code e = neg (code e)

abbrev pub is_success : OpError → Bool
is_success success = true
is_success _ = false

-- The cases of the switch in `opends_op_status_error`, in its order.
abbrev pub status_cases : List (OpError × String)
status_cases =
    (success, "opends success")
    ∷ (driver_not_initialized, "driver is not loaded")
    ∷ (driver_invalid_props, "invalid property")
    ∷ (driver_unsupported_limit, "property range error")
    ∷ (driver_version_mismatch, "driver version mismatch")
    ∷ (driver_version_read_error, "driver version read error")
    ∷ (driver_closing, "driver shutdown in progress")
    ∷ (platform_not_supported, "direct storage not supported on current platform")
    ∷ (io_not_supported, "direct storage not supported on current file")
    ∷ (device_not_supported, "direct storage not supported on current device")
    ∷ (fs_driver_error, "filesystem driver ioctl error")
    ∷ (device_driver_error, "device driver API error")
    ∷ (pointer_invalid, "invalid device pointer")
    ∷ (memory_type_invalid, "invalid pointer memory type")
    ∷ (pointer_range_error, "pointer range exceeds allocated address range")
    ∷ (context_mismatch, "device context mismatch")
    ∷ (invalid_mapping_size, "access beyond maximum pinned size")
    ∷ (invalid_mapping_range, "access beyond mapped size")
    ∷ (invalid_file_type, "unsupported file type")
    ∷ (invalid_file_open_flag, "unsupported file open flags")
    ∷ (dio_not_set, "fd direct IO not set")
    ∷ (invalid_value, "invalid arguments")
    ∷ (memory_already_registered, "device pointer already registered")
    ∷ (memory_not_registered, "device pointer lookup failure")
    ∷ (permission_denied, "driver or file access error")
    ∷ (driver_already_open, "driver is already open")
    ∷ (handle_not_registered, "file descriptor is not registered")
    ∷ (handle_already_registered, "file descriptor is already registered")
    ∷ (device_not_found, "device not found")
    ∷ (internal_error, "internal error")
    ∷ (getnewfd_failed, "failed to obtain new file descriptor")
    ∷ (fs_setup_error, "filesystem driver initialization error")
    ∷ (io_disabled, "direct storage disabled by config on current file")
    ∷ (batch_submit_failed, "failed to submit batch operation")
    ∷ (memory_pinning_failed, "failed to allocate pinned device memory")
    ∷ (batch_full, "queue full for batch operation")
    ∷ (async_not_supported, "async I/O not supported by this backend")
    ∷ (io_max_error, "max error")
    ∷ []

abbrev pub unknown_error : String
unknown_error = "unknown opends error"

-- The switch: the first case whose enumerator has the value, or the default.
pub switch : List (OpError × String) → ℕ → String
switch [] status = unknown_error
switch ((e, m) ∷ cases) status = if code e == status then m else switch cases status

-- The value may be any: the caller passes `abs` of what a call returned (OPENDS_ERRSTR).
pub opends_op_status_error : ℕ → String
unfolding switch
opends_op_status_error status = switch status_cases status
