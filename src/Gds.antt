-- ===== src/Gds.antt =====
-- The backend over cuFile, src/opends_gds.c: its driver, handles and buffers.
--
-- cuFile, CUDA and the C library are not part of the repository: what a call of them returns is an
-- argument. Pointers are numbers, 0 is NULL.
pub mod Io
pub mod Batch
pub mod Handles
pub mod Files
pub mod Calls
mod Tests
use opends_fork.Prelude.{
  ℕ, Bool, true, false, not, ◌||◌, Option, none, some, List, [], ◌∷◌, ◌==◌, if◌then◌else◌, bit_and,
}
use opends_fork.Prelude.Int.{ℤ, pos, is_negative}
use opends_fork.Errors.{
  OpError, code, driver_already_open, driver_not_initialized, invalid_value, dio_not_set,
  internal_error,
}
use opends_fork.Buffers.{find_buf}
use opends_fork.Buffers.Reference.{itself, increment, decrement}

-- CUfileError_t
pub record CuError : Type 0 where
  pub err : ℕ
  pub cu_err : ℤ

-- opends_error_t, whose `err` may be any value that cuFile reports.
pub record CodedError : Type 0 where
  pub err : ℕ
  pub dev_err : ℤ

abbrev pub ok : CodedError
ok = record { err = 0; dev_err = pos 0 }

abbrev pub failure : OpError → CodedError
failure e = record { err = code e; dev_err = pos 0 }

abbrev pub from_cufile_error : CuError → CodedError
from_cufile_error e = record { err = e.err; dev_err = e.cu_err }

-- `err.err != CU_FILE_SUCCESS`, which is 0.
abbrev pub is_refused : CuError → Bool
is_refused e = not (e.err == 0)

-- How a call ends that only forwards to cuFile.
abbrev pub forwarded : CuError → CodedError
forwarded e = if is_refused e then from_cufile_error e else ok

-- A struct gds_handle that `malloc` placed at `place`.
pub record Handle : Type 0 where
  pub place : ℕ
  pub cufh : ℕ

-- The static variables; the places that `malloc` has handed out for handles, the handles that are
-- registered, the files that cuFile has registered, the memory that `cudaMalloc` has handed out, the buffers that cuFile has registered.
pub record Driver : Type 0 where
  pub driver_open : Bool
  pub use_count : ℤ
  pub allocated : List ℕ
  pub handles : List Handle
  pub files : List ℕ
  pub memory : List ℕ
  pub pinned : List ℕ

abbrev pub place_of : Handle → ℕ
place_of h = h.place

-- Without the first element of this base.
unfoldable pub forget {ℓ} : {A : Type ℓ} → (A → ℕ) → ℕ → List A → List A
forget base b [] = []
forget base b (e ∷ es) = if base e == b then es else e ∷ forget base b es

unfoldable pub opends_driver_open : CuError → Driver → CodedError × Driver
opends_driver_open rc d =
    if d.driver_open
    then (failure driver_already_open, d)
    else if is_refused rc
    then (from_cufile_error rc, d)
    else (ok, record d { driver_open = true })

unfoldable pub opends_driver_close : CuError → Driver → CodedError × Driver
opends_driver_close rc d =
    if not d.driver_open
    then (failure driver_not_initialized, d)
    else if is_refused rc
    then (from_cufile_error rc, d)
    else (ok, record d { driver_open = false })

abbrev pub opends_use_count : Driver → ℤ
opends_use_count d = d.use_count

-- `fcntl` is what `fcntl(_, F_GETFL)` returns for a file descriptor, none an error; `o_direct` is
-- O_DIRECT; `place` is what `malloc` returns, and `cu_register` what `cuFileHandleRegister` returns
-- and stores for a file descriptor.
unfoldable pub opends_handle_register :
    ℕ → (ℤ → Option ℕ) → ℕ → (ℤ → CuError × ℕ) → Bool → ℤ → Driver → CodedError × Driver
opends_handle_register o_direct fcntl place cu_register has_fh fd d =
    if not has_fh || is_negative fd then (failure invalid_value, d) else elim (fcntl fd) [
      | none ↦ (failure invalid_value, d)
      | some flags ↦
          if bit_and flags o_direct == 0
          then (failure dio_not_set, d)
          else if place == 0
          then (failure internal_error, d)
          else if is_refused (cu_register fd).0
          then (
            from_cufile_error (cu_register fd).0,
            record d { allocated = forget itself place (place ∷ d.allocated) },
          )
          else (
            ok,
            record d {
              allocated = place ∷ d.allocated;
              handles = record { place = place; cufh = (cu_register fd).1 } ∷ d.handles;
              files = (cu_register fd).1 ∷ d.files;
              use_count = increment d.use_count;
            },
          )
    ]

-- A handle that is not allocated is undefined behaviour in C; here it changes nothing.
unfoldable pub opends_handle_deregister : ℕ → Driver → Driver
opends_handle_deregister fh d = if fh == 0 then d else elim (find_buf place_of fh d.handles) [
  | none ↦ d
  | some h ↦ record d {
    allocated = forget itself fh d.allocated;
    files = forget itself h.cufh d.files;
    handles = forget place_of fh d.handles;
    use_count = decrement d.use_count;
  }
]

-- `allocated` is what `cudaMalloc` stores, none an error. The pointer that is returned, 0 for NULL.
unfoldable pub opends_alloc : Option ℕ → CuError → Driver → ℕ × Driver
opends_alloc none rc d = (0, d)
opends_alloc (some ptr) rc d =
    let memory = ptr ∷ d.memory in
    if is_refused rc
    then (0, record d { memory = forget itself ptr memory })
    else (ptr, record d { memory = memory; pinned = ptr ∷ d.pinned })

-- What cuFile has registered after `cuFileBufDeregister(buf)` returned `rc`.
abbrev pub unpinned : CuError → ℕ → List ℕ → List ℕ
unpinned rc buf pinned = if is_refused rc then pinned else forget itself buf pinned

-- The result of `cuFileBufDeregister` is not looked at.
unfoldable pub opends_free : CuError → ℕ → Driver → Driver
opends_free rc buf d =
    if buf == 0
    then d
    else record d { pinned = unpinned rc buf d.pinned; memory = forget itself buf d.memory }

unfoldable pub opends_buf_register : CuError → ℕ → ℕ → Driver → CodedError × Driver
opends_buf_register rc buf_base size d =
    if not d.driver_open
    then (failure driver_not_initialized, d)
    else if buf_base == 0 || size == 0
    then (failure invalid_value, d)
    else if is_refused rc
    then (from_cufile_error rc, d)
    else (ok, record d { pinned = buf_base ∷ d.pinned })

unfoldable pub opends_buf_deregister : CuError → ℕ → Driver → CodedError × Driver
opends_buf_deregister rc buf_base d =
    if not d.driver_open
    then (failure driver_not_initialized, d)
    else if buf_base == 0
    then (failure invalid_value, d)
    else if is_refused rc
    then (from_cufile_error rc, d)
    else (ok, record d { pinned = unpinned rc buf_base d.pinned })
