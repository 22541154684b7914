-- ===== src/Buffers/Alloc.antt =====
-- The rest of src/opends_ref.c: the size that `opends_alloc` asks for, its properties and version,
-- and its stream calls, which are the synchronous ones.
use opends_fork.Prelude.{
  ℕ, ◌+◌, ◌-◌, ◌%◌, ◌^◌, ◌<◌, ◌≤◌, ◌≡◌, Bool, not, Option, none, some, ◌⊎◌, inl, inr, ltb, ltb→lt,
  if◌then◌else◌, bit_and, arith, Bool-cases,
}
use opends_fork.Prelude.Bits.{bit_and_mask}
use opends_fork.Prelude.Int.{ℤ, is_negative}
use opends_fork.Errors.{Error, opends_ok, opends_err, invalid_value, internal_error}
use opends_fork.Async.{Future, Request, Backend}
use opends_fork.Async.Sync.{opends_sync_read, opends_sync_write}

-- `ALIGN_UP(size, 4096)` on size_t; `x & ~4095` is `x` without its low bits.
unfoldable pub align_up : ℕ → ℕ
align_up size = let x = (size + 4096 - 1) % 2 ^ 64 in x - bit_and x 4095

-- `opends_alloc`, for what `aligned_alloc` returns.
abbrev pub opends_alloc : (ℕ → ℕ → ℕ) → ℕ → ℕ
opends_alloc aligned_alloc size = aligned_alloc 4096 (align_up size)

-- opends_drv_props_t: the versions; the other fields are 0.
unfoldable pub opends_driver_get_properties : Bool → Error × Option (ℕ × ℕ)
opends_driver_get_properties props_given =
    if not props_given then (opends_err invalid_value, none) else (opends_ok, some (1, 0))

abbrev pub opends_driver_set_max_direct_io_size : ℕ → Error
opends_driver_set_max_direct_io_size size = opends_ok

-- What is stored through the pointers that are given.
unfoldable pub opends_get_version : Bool → Bool → Bool → Error × Option ℕ × Option ℕ × Option ℕ
opends_get_version major minor patch = (
  opends_ok,
  if major then some 0 else none,
  if minor then some 1 else none,
  if patch then some 0 else none,
)

abbrev pub opends_stream_register : ℕ → ℕ → Error
opends_stream_register stream flags = opends_ok

abbrev pub opends_stream_deregister : ℕ → Error
opends_stream_deregister stream = opends_ok

module _ {S : Type 0} (b : Backend S) where
  -- The request holds what the pointers point to. The error, and what is stored in `*bytes_read_p`.
  unfoldable pub opends_stream_read : S → Request → Future → Error × ℤ × S
  opends_stream_read s r future =
      let (ret, s') = opends_sync_read b s r future in
      (if is_negative ret then opends_err internal_error else opends_ok, ret, s')

  unfoldable pub opends_stream_write : S → Request → Future → Error × ℤ × S
  opends_stream_write s r future =
      let (ret, s') = opends_sync_write b s r future in
      (if is_negative ret then opends_err internal_error else opends_ok, ret, s')

-- `opends_alloc` asks for the least multiple of 4096 that is as large as the size, up to 4096 below
-- 2 ^ 64; for a larger size the sum wraps and it asks for no bytes.
pub align_up_lem :
    (size : ℕ)
    → size < 2 ^ 64
    → ((size ≤ 2 ^ 64 - 4096)
        × (size ≤ align_up size)
        × (align_up size < size + 4096)
        × (align_up size % 4096 ≡ 0))
      ⊎ ((2 ^ 64 - 4096 < size) × (align_up size ≡ 0))
unfolding align_up
align_up_lem size small =
    let low = bit_and_mask 12 ((size + 4096 - 1) % 2 ^ 64) in
    elim (Bool-cases (ltb (2 ^ 64 - 4096) size)) [
      | inl over ↦ inr (ltb→lt _ _ over, (let o = ltb→lt _ _ over in omega arith))
      | inr within ↦
          (let fits : size ≤ 2 ^ 64 - 4096 = grind arith in
            inl (fits, omega arith, omega arith, omega arith))
    ]
