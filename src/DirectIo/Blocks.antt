-- ===== src/DirectIo/Blocks.antt =====
-- The blocks that a write of src/opends_common.c covers, and what it stores.
use opends_fork.Prelude.{
  ℕ, suc, ◌+◌, ◌-◌, ◌*◌, ◌/◌, ◌%◌, ◌^◌, ◌<◌, ◌≡◌, ◌≢◌, arith, ◌==◌, if◌then◌else◌, max,
}
use opends_fork.Prelude.Int.{pos}
use opends_fork.DirectIo.Os.{Buffer, Kernel, splice}
use opends_fork.DirectIo.{direct_align, align_down, span_of, sub64, Copy}

-- The copy that the backend hands in: a status of 0 means that the bytes were copied.
pub record Copies (copy : Copy) : Type 0 where
  pub copied :
      (buf : Buffer) (at n : ℕ) (src : Buffer)
      → (copy buf at n src).0 ≡ pos 0
      → (j : ℕ) → (copy buf at n src).1 j ≡ splice buf at n src j

-- The file `k'` is the file `k` with `size` bytes of `src` at `off`.
pub record Stored {K : Type 0} (os : Kernel K) (k : K) (src : Buffer) (size off : ℕ) (k' : K)
    : Type 0 where
  pub bytes : (j : ℕ) → os.byte k' j ≡ splice (os.byte k) off size src j
  pub extent : os.size_of k' ≡ (if size == 0 then os.size_of k else max (os.size_of k) (off + size))

-- The blocks that a write of `size` bytes at `off` touches.
pub record Blocks (size off start head span tail : ℕ) : Type 0 where
  pub from : start + head ≡ off
  pub cover : head + size + tail ≡ span
  pub head_in : head < direct_align
  pub tail_in : tail < direct_align
  pub whole : (b : ℕ) × (span ≡ suc b * direct_align)
  pub small : span < 2 ^ 64

pub Blocks-of :
    (size off : ℕ)
    → size ≢ 0
    → off + size < 2 ^ 63
    → let start = align_down off in
      let head = off - start in
      let span = span_of head size in Blocks size off start head span (sub64 (sub64 span head) size)
Blocks-of size off nonzero small = record {
  from = omega arith;
  cover = omega arith;
  head_in = omega arith;
  tail_in = omega arith;
  whole = ((off % direct_align + size - 1) / direct_align, omega arith);
  small = omega arith;
}
