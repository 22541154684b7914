-- ===== src/Buffers/Aisio.antt =====
-- Buffer allocation and registration of src/opends_aisio.c, and what `opends_driver_close` does
-- with the buffers that are left.
use opends_fork.Prelude.{
  ℕ, ◌++◌, Bool, true, false, not, ◌&&◌, ◌||◌, Option, none, some, List, [], ◌∷◌, ◌==◌, leb,
  if◌then◌else◌, length,
}
use opends_fork.Prelude.Int.{ℤ, is_negative}
use opends_fork.Errors.{
  Error, opends_ok, opends_err, driver_not_initialized, device_not_found, invalid_value,
  memory_already_registered, memory_not_registered, internal_error, device_driver_error,
}
use opends_fork.Buffers.{find_buf, remove_buf}

-- struct buf_entry
pub record BufEntry : Type 0 where
  pub base : ℕ
  pub length : ℕ
  pub owned : Bool

-- The calls of the device allocator and of `xnvme_mem_map`, `xnvme_mem_unmap` that succeeded.
pub data Call : Type 0 where
  allocated freed mapped unmapped : ℕ → Call

-- What `struct driver` keeps of buffers; `opened` is `drv != NULL`.
pub record Driver : Type 0 where
  pub opened : Bool
  pub xdev : Bool
  pub bufs : List BufEntry
  pub calls : List Call

abbrev pub max_buf_entries : ℕ
max_buf_entries = 8192

abbrev pub find : ℕ → List BufEntry → Option BufEntry
find = find_buf λ (e : BufEntry). e.base

abbrev pub remove : ℕ → List BufEntry → List BufEntry
remove = remove_buf λ (e : BufEntry). e.base

-- `buf` is what `buf_alloc_locked` returns.
unfoldable pub opends_alloc : ℕ → ℕ → Driver → ℕ × Driver
opends_alloc buf size d =
    if not (d.opened && d.xdev)
    then (0, d)
    else if leb max_buf_entries (length d.bufs)
    then (0, d)
    else if buf == 0
    then (0, d)
    else (
      buf,
      record d {
        bufs = d.bufs ++ (record { base = buf; length = size; owned = true } ∷ []);
        calls = allocated buf ∷ d.calls;
      },
    )

unfoldable pub opends_free : ℕ → Driver → Driver
opends_free buf d = if not d.opened || buf == 0 then d else elim (find buf d.bufs) [
  | none ↦ d
  | some e ↦
      if not e.owned then d else record d { bufs = remove buf d.bufs; calls = freed buf ∷ d.calls }
]

-- `rc` is what `xnvme_mem_map` returns.
unfoldable pub opends_buf_register : ℤ → ℕ → ℕ → Driver → Error × Driver
opends_buf_register rc buf_base size d =
    if not d.opened
    then (opends_err driver_not_initialized, d)
    else if not d.xdev
    then (opends_err device_not_found, d)
    else if buf_base == 0 || size == 0
    then (opends_err invalid_value, d)
    else elim (find buf_base d.bufs) [
      | some e ↦ (opends_err memory_already_registered, d)
      | none ↦
          if leb max_buf_entries (length d.bufs)
          then (opends_err internal_error, d)
          else if is_negative rc
          then (opends_err device_driver_error, d)
          else (
            opends_ok,
            record d {
              bufs = d.bufs ++ (record { base = buf_base; length = size; owned = false } ∷ []);
              calls = mapped buf_base ∷ d.calls;
            },
          )
    ]

unfoldable pub opends_buf_deregister : ℕ → Driver → Error × Driver
opends_buf_deregister buf_base d =
    if not d.opened
    then (opends_err driver_not_initialized, d)
    else if not d.xdev
    then (opends_err device_not_found, d)
    else if buf_base == 0
    then (opends_err invalid_value, d)
    else elim (find buf_base d.bufs) [
      | none ↦ (opends_err memory_not_registered, d)
      | some e ↦ if e.owned then (opends_err invalid_value, d) else (
        opends_ok,
        record d { bufs = remove buf_base d.bufs; calls = unmapped buf_base ∷ d.calls },
      )
    ]

-- The loop of `opends_driver_close` over the buffers.
unfoldable pub release_bufs : List BufEntry → List Call → List Call
release_bufs [] calls = calls
release_bufs (e ∷ es) calls =
    release_bufs es ((if e.owned then freed e.base else unmapped e.base) ∷ calls)

unfoldable pub opends_driver_close : Driver → Error × Driver
unfolding release_bufs
opends_driver_close d = if not d.opened then (opends_err driver_not_initialized, d) else (
  opends_ok,
  record { opened = false; xdev = false; bufs = []; calls = release_bufs d.bufs d.calls },
)
