-- ===== src/Async/Reads.antt =====
-- What a read through the reference backend (src/opends_ref.c) leaves in memory.
use opends_fork.Prelude.{
  ℕ, ◌+◌, ◌-◌, ◌^◌, ◌≤◌, ◌<◌, ◌≡◌, true, false, Option, some, ◌==◌, arith, Bool-cases, Option-cases,
  inl, inr,
}
use opends_fork.Prelude.Int.{pos, ℤ-cases}
use opends_fork.Errors.{Error}
use opends_fork.Async.{Future}
use opends_fork.Async.Reference.{
  ref_transfer, ref_async_submit, direct_aligned, from_address, write_back,
}
use opends_fork.DirectIo.{AccessMode, opends_direct_pread}
use opends_fork.DirectIo.Os.{Buffer, Sys, Kernel, splice, Laws, SameFile, Sys-cases}
use opends_fork.DirectIo.Read.{pread_lem}

-- The memory `mem'` is `mem` with `n` bytes of the file from `off` at the address `p`.
pub record IsRead {K : Type 0} (os : Kernel K) (k : K) (mem : Buffer) (p size off n : ℕ)
    (mem' : Buffer) (k' : K) : Type 0 where
  pub at_most : n ≤ size
  pub bytes : (j : ℕ) → mem' j ≡ splice mem p n (λ i. os.byte k (off + i)) j
  pub same : SameFile os k k'

module _ {K : Type 0} {os : Kernel K} (laws : Laws os) where
  aligned-IsRead :
      (k : K) (mem : Buffer) (p size off n : ℕ)
      → (os.pread k size off).0 ≡ Sys.count n
      → IsRead os k mem p size off n
          (write_back p mem (splice (from_address p mem) 0 n (os.pread k size off).1))
          (os.pread k size off).2
  aligned-IsRead k mem p size off n h =
      let ok = laws.pread_ok k size off n h in
      record {
        at_most = ok.at_most;
        bytes = λ j. (let c = ok.contents (j - p) in ground arith);
        same = laws.pread_same k size off;
      }

  unaligned-IsRead :
      (fuel : ℕ) (k : K) (alloc : Option Buffer) (mem : Buffer) (p size off n : ℕ) {dst : Buffer}
      {k' : K}
      → off + size < 2 ^ 63
      → opends_direct_pread os fuel k alloc (from_address p mem) size off ≡ some (pos n, dst, k')
      → IsRead os k mem p size off n (write_back p mem dst) k'
  unaligned-IsRead fuel k alloc mem p size off n {dst} {k'} small h =
      let (count, bytes, same) =
        pread_lem laws fuel k alloc (from_address p mem) size off n small h in
      record {
        at_most = omega arith;
        bytes = λ j. (let b = bytes (j - p) in ground arith);
        same = same;
      }

  transfer-IsRead :
      (fuel : ℕ) (k : K) (alloc : Option Buffer) (mode : AccessMode) (mem : Buffer)
      (p size off n : ℕ) {mem' : Buffer} {k' : K}
      → off + size < 2 ^ 63
      → ref_transfer os fuel k alloc mode false mem p size off ≡ some (pos n, mem', k')
      → IsRead os k mem p size off n mem' k'
  unfolding ref_transfer
  transfer-IsRead fuel k alloc mode mem p size off n {mem'} {k'} small h =
      elim (Bool-cases (direct_aligned p size off)) [
        | inl aligned ↦ elim (Sys-cases (os.pread k size off).0) [
          | inl (e, failed) ↦ ground arith
          | inr (m, ok) ↦ (let r = aligned-IsRead k mem p size off m ok in ground arith)
        ]
        | inr unaligned ↦
            elim (Option-cases
              (opends_direct_pread os fuel k alloc (from_address p mem) size off)) [
                | inl stuck ↦ ground arith
                | inr (x, run) ↦
                    (let r =
                        unaligned-IsRead fuel k alloc mem p size off n {dst = x.1} {k' = x.2}
                          small in
                      ground arith)
              ]
      ]

  -- A read submitted to the reference backend that fills its future with a count, aligned or not,
  -- has put that many bytes of the file from `file_offset` at `buf_base + buf_offset`, left all
  -- other memory and the file alone, and the count is at most `size`.
  pub submit-IsRead :
      (fuel : ℕ) (k : K) (alloc : Option Buffer) (mode : AccessMode) (mem : Buffer)
      (buf_base size file_offset buf_offset n : ℕ) (f : Future) {e : Error} {mem' : Buffer} {k' : K}
      → (buf_base == 0) ≡ false
      → file_offset + size < 2 ^ 63
      → ref_async_submit os fuel true false k alloc
          (some mode)
          mem
          buf_base
          size
          file_offset
          buf_offset
          (some f)
        ≡ some (e, some (record { done = true; result = pos n }), mem', k')
      → IsRead os k mem (buf_base + buf_offset) size file_offset n mem' k'
  unfolding ref_async_submit
  submit-IsRead fuel k alloc mode mem buf_base size file_offset buf_offset n f {e} {mem'} {k'} given
        small h =
      elim (Option-cases
        (ref_transfer os fuel k alloc mode false mem (buf_base + buf_offset) size file_offset)) [
          | inl stuck ↦ ground arith
          | inr (x, run) ↦ elim (ℤ-cases x.0) [
            | inl (m, counted) ↦
                (let r =
                    transfer-IsRead fuel k alloc mode mem (buf_base + buf_offset) size file_offset m
                      {mem' = x.1} {k' = x.2} small in
                  ground arith)
            | inr (m, failed) ↦ ground arith
          ]
        ]
