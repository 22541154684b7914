-- ===== src/DirectIo.antt =====
-- O_DIRECT reads and writes at any offset and size, src/opends_common.c: `read_block`, `rmw_fill`,
-- `opends_direct_pwrite`, `opends_direct_pread`.
--
-- The loops that repeat a system call take fuel; `none` means that it ran out. `size_t` is taken
-- modulo 2 ^ 64. Negative offsets, which the system calls refuse, are not modelled.
pub mod Os
pub mod Block
pub mod Fill
pub mod Loop
pub mod Blocks
pub mod Write
pub mod Read
pub mod Memory
mod Tests
use opends_fork.Prelude.{
  ℕ, zero, suc, ◌+◌, ◌-◌, ◌*◌, ◌/◌, ◌%◌, ◌^◌, Bool, true, false, not, ◌&&◌, ◌||◌, Option, none,
  some, ltb, leb, ◌==◌, if◌then◌else◌,
}
use opends_fork.Prelude.Int.{ℤ, pos, negsuc, neg, is_negative}
use Os.{Buffer, Sys, count, fail, eintr, splice, Kernel}

-- OPENDS_DIRECT_ALIGN
abbrev pub direct_align : ℕ
direct_align = 4096

abbrev pub enomem : ℕ
enomem = 12

abbrev pub eio : ℕ
eio = 5

-- `x & ~(OPENDS_DIRECT_ALIGN - 1)`
abbrev pub align_down : ℕ → ℕ
align_down x = x / direct_align * direct_align

-- `(head + size + OPENDS_DIRECT_ALIGN - 1) & ~(OPENDS_DIRECT_ALIGN - 1)`, on size_t
abbrev pub span_of : ℕ → ℕ → ℕ
span_of head size = align_down ((head + size + (direct_align - 1)) % 2 ^ 64)

-- size_t subtraction
abbrev pub sub64 : ℕ → ℕ → ℕ
sub64 a b = (a + 2 ^ 64 - b) % 2 ^ 64

-- The access mode among the open flags.
pub data AccessMode : Type 0 where
  rdonly wronly rdwr : AccessMode

abbrev pub is_wronly : AccessMode → Bool
is_wronly wronly = true
is_wronly _ = false

-- `copy(bounce + head, src, size)`: its status, and the buffer after it.
abbrev pub Copy : Type 0
Copy = Buffer → ℕ → ℕ → Buffer → ℤ × Buffer

module _ {K : Type 0} (os : Kernel K) where
  -- The first read of `do … while (r < 0 && errno == EINTR)` that is not interrupted.
  pub pread_retry : ℕ → K → ℕ → Option (Sys × Buffer × K)
  pread_retry zero k off = none
  pread_retry (suc fuel) k off =
      let (r, got, k') = os.pread k direct_align off in
      let again = pread_retry fuel k' off in
      elim r [
        | fail e ↦ if e == eintr then again else some (fail e, got, k')
        | count n ↦ some (count n, got, k')
      ]

  -- One block, into the bounce buffer at `at`: 0 or a negated errno.
  pub read_block : ℕ → K → Buffer → ℕ → ℕ → Option (ℤ × Buffer × K)
  unfolding pread_retry
  read_block fuel k bounce at off = elim (pread_retry fuel k off) [
    | none ↦ none
    | some (fail e, got, k') ↦ some (neg e, bounce, k')
    | some (count r, got, k') ↦
        some (pos 0, splice (splice bounce at r got) (at + r) (sub64 direct_align r) (λ i. 0), k')
  ]

  -- The second half of `rmw_fill`, after the block at the head.
  pub fill_tail : ℕ → K → Buffer → ℕ → ℕ → Bool → Option (ℤ × Buffer × K)
  unfolding read_block
  fill_tail fuel k bounce start last wanted =
      if wanted then read_block fuel k bounce last (start + last) else some (pos 0, bounce, k)

  pub fill_edges : ℕ → K → Buffer → ℕ → ℕ → ℕ → ℕ → Option (ℤ × Buffer × K)
  unfolding fill_tail
  fill_edges fuel k bounce start span head tail =
      let last = sub64 span direct_align in
      let wanted = not (tail == 0) && (not (last == 0) || head == 0) in
      if head == 0
      then fill_tail fuel k bounce start last wanted
      else elim (read_block fuel k bounce 0 start) [
        | none ↦ none
        | some (pos zero, bounce', k') ↦ fill_tail fuel k' bounce' start last wanted
        | some (err, bounce', k') ↦ some (err, bounce', k')
      ]

  -- `rmw_fill`: a write-only file is opened again for reading.
  pub rmw_fill : ℕ → K → AccessMode → Buffer → ℕ → ℕ → ℕ → ℕ → Option (ℤ × Buffer × K)
  unfolding fill_edges
  rmw_fill fuel k mode bounce start span head tail =
      let (rfd, k') = os.reopen k in
      let reopened : Option (ℤ × Buffer × K) = elim rfd [
        | fail e ↦ some (neg e, bounce, k')
        | count n ↦ fill_edges fuel k' bounce start span head tail
      ] in
      if is_wronly mode then reopened else fill_edges fuel k bounce start span head tail

  -- The writing loop of `opends_direct_pwrite`: 0, or a negated errno.
  pub write_loop : ℕ → K → Buffer → ℕ → ℕ → ℕ → Option (ℤ × K)
  write_loop zero k bounce start span done = none
  write_loop (suc fuel) k bounce start span done =
      let (w, k') = os.pwrite k (λ i. bounce (done + i)) (span - done) (start + done) in
      let again = write_loop fuel k' bounce start span done in
      let more = λ (n : ℕ). write_loop fuel k' bounce start span (done + n) in
      if not (ltb done span) then some (pos 0, k) else elim w [
        | fail e ↦ if e == eintr then again else some (neg e, k')
        | count zero ↦ some (neg eio, k')
        | count (suc n) ↦ more (suc n)
      ]

  -- The size that the file is cut back to, if the last block reaches past the end of the data.
  pub truncation : K → ℕ → ℕ → ℕ → ℕ → Sys × Option ℕ × K
  truncation k start end span tail =
      let (st, k') = os.fstat k in
      let sized : Sys × Option ℕ × K = elim st [
        | fail e ↦ (fail e, none, k')
        | count size ↦
            let size' = if ltb size end then end else size in
            (count 0, (if ltb size' (start + span) then some size' else none), k')
      ] in
      if tail == 0 then (count 0, none, k) else sized

  pub cut_back : ℤ → Option ℕ → K → ℤ × K
  cut_back ret none k = (ret, k)
  cut_back ret (some t) k =
      let (r, k') = os.ftruncate k t in elim r [ fail e ↦ (neg e, k') | count n ↦ (ret, k') ]

  -- The write from the copy on, with the edges filled.
  pub write_filled : ℕ → K → Copy → Buffer → Buffer → ℕ → ℕ → ℕ → ℕ → Option ℕ → Option (ℤ × K)
  unfolding write_loop cut_back
  write_filled fuel k copy bounce src start span head size trunc_to =
      let (err, bounce') = copy bounce head size src in
      elim err [
        | pos zero ↦ elim (write_loop fuel k bounce' start span 0) [
          | none ↦ none
          | some (pos zero, k') ↦ some (cut_back (pos size) trunc_to k')
          | some (failed, k') ↦ some (failed, k')
        ]
        | other ↦ some (neg eio, k)
      ]

  -- `opends_direct_pwrite`. `alloc` is what `posix_memalign` hands back, with any contents.
  pub opends_direct_pwrite :
      ℕ → K → Copy → Option Buffer → AccessMode → Buffer → ℕ → ℕ → Option (ℤ × K)
  unfolding truncation rmw_fill write_filled
  opends_direct_pwrite fuel k copy alloc mode src size off =
      let start = align_down off in
      let head = off - start in
      let span = span_of head size in
      let tail = sub64 (sub64 span head) size in
      let (st, trunc_to, k₁) = truncation k start (off + size) span tail in
      if size == 0 then some (pos 0, k) else elim alloc [
        | none ↦ some (neg enomem, k)
        | some bounce ↦ elim st [
          | fail e ↦ some (neg e, k₁)
          | count r ↦
              if head == 0 && tail == 0
              then write_filled fuel k₁ copy bounce src start span head size trunc_to
              else elim (rmw_fill fuel k₁ mode bounce start span head tail) [
                | none ↦ none
                | some (pos n, bounce', k₂) ↦
                    write_filled fuel k₂ copy bounce' src start span head size trunc_to
                | some (negsuc n, bounce', k₂) ↦ some (negsuc n, k₂)
              ]
        ]
      ]

  -- The reading loop of `opends_direct_pread`: the bytes got, or a negated errno.
  pub read_loop : ℕ → K → Buffer → ℕ → ℕ → ℕ → Option (Sys × Buffer × K)
  read_loop zero k bounce start span got = none
  read_loop (suc fuel) k bounce start span got =
      let (r, bytes, k') = os.pread k (span - got) (start + got) in
      let again = read_loop fuel k' bounce start span got in
      let more = λ (n : ℕ). read_loop fuel k' (splice bounce got n bytes) start span (got + n) in
      if not (ltb got span) then some (count got, bounce, k) else elim r [
        | fail e ↦ if e == eintr then again else some (fail e, bounce, k')
        | count zero ↦ some (count got, bounce, k')
        | count (suc n) ↦ more (suc n)
      ]

  -- `opends_direct_pread`: the result, and the destination after it.
  pub opends_direct_pread : ℕ → K → Option Buffer → Buffer → ℕ → ℕ → Option (ℤ × Buffer × K)
  unfolding read_loop
  opends_direct_pread fuel k alloc dst size off =
      let start = align_down off in
      let head = off - start in
      let span = span_of head size in
      if size == 0 then some (pos 0, dst, k) else elim alloc [
        | none ↦ some (neg enomem, dst, k)
        | some bounce ↦ elim (read_loop fuel k bounce start span 0) [
          | none ↦ none
          | some (fail e, bounce', k') ↦ some (neg e, dst, k')
          | some (count got, bounce', k') ↦
              let n = if ltb size (got - head) then size else got - head in
              if ltb head got
              then some (pos n, splice dst 0 n (λ i. bounce' (head + i)), k')
              else some (pos 0, dst, k')
        ]
      ]
