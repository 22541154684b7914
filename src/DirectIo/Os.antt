-- ===== src/DirectIo/Os.antt =====
-- The system calls that src/opends_common.c makes on one open file, as a parameter of the model.
-- The laws are what read(2), write(2), fstat(2) and ftruncate(2) document of a regular file.
use opends_fork.Prelude.{
  ℕ, ◌+◌, ◌-◌, ◌≤◌, ◌<◌, ◌≡◌, ◌≢◌, ◌&&◌, ltb, leb, if◌then◌else◌, max, ◌⊎◌, inl, inr, refl,
}

-- The bytes of a memory buffer, by offset.
abbrev pub Buffer : Type 0
Buffer = ℕ → ℕ

-- What a system call returns: a count, or -1 with this `errno`.
pub data Sys : Type 0 where
  count : ℕ → Sys
  fail : ℕ → Sys

abbrev pub eintr : ℕ
eintr = 4

-- `n` bytes at `at`, replaced by the first `n` of `src`.
abbrev pub splice : Buffer → ℕ → ℕ → Buffer → Buffer
splice buf at n src j = if leb at j && ltb j (at + n) then src (j - at) else buf j

pub record Kernel (K : Type 0) : Type 0 where
  -- The file as it is: its size, and its bytes, which read as 0 from the size on.
  pub size_of : K → ℕ
  pub byte : K → ℕ → ℕ
  -- A bound on the calls that signals will still interrupt.
  pub patience : K → ℕ
  -- Count and offset; the data that a read returns.
  pub pread : K → ℕ → ℕ → Sys × Buffer × K
  pub pwrite : K → Buffer → ℕ → ℕ → Sys × K
  -- `st_size`
  pub fstat : K → Sys × K
  pub ftruncate : K → ℕ → Sys × K
  -- `open("/proc/self/fd/N", O_RDONLY | O_DIRECT)`: 0, or the errno.
  pub reopen : K → Sys × K

-- The file and the interrupts to come are the same, or fewer.
pub record SameFile {K : Type 0} (os : Kernel K) (k k' : K) : Type 0 where
  pub size : os.size_of k' ≡ os.size_of k
  pub bytes : (j : ℕ) → os.byte k' j ≡ os.byte k j
  pub calmer : os.patience k' ≤ os.patience k

-- What a read that returned `r` of `n` bytes at `off` says.
pub record ReadOk {K : Type 0} (os : Kernel K) (k : K) (n off r : ℕ) (buf : Buffer) : Type 0 where
  pub at_most : r ≤ n
  pub contents : (i : ℕ) → i < r → buf i ≡ os.byte k (off + i)
  pub in_file : 0 < r → off + r ≤ os.size_of k
  pub at_end : r ≡ 0 → 0 < n → os.size_of k ≤ off

-- What a write that returned `r` of `n` bytes at `off` has done.
pub record WriteOk {K : Type 0} (os : Kernel K) (k : K) (buf : Buffer) (n off r : ℕ) (k' : K)
    : Type 0 where
  pub at_most : r ≤ n
  pub bytes : (j : ℕ) → os.byte k' j ≡ splice (os.byte k) off r buf j
  pub size : 0 < r → os.size_of k' ≡ max (os.size_of k) (off + r)
  pub calmer : os.patience k' ≤ os.patience k

pub record Laws {K : Type 0} (os : Kernel K) : Type 0 where
  pub zero_past_end : (k : K) (j : ℕ) → os.size_of k ≤ j → os.byte k j ≡ 0
  pub pread_same : (k : K) (n off : ℕ) → SameFile os k (os.pread k n off).2
  pub pread_ok :
      (k : K) (n off r : ℕ)
      → (os.pread k n off).0 ≡ Sys.count r
      → ReadOk os k n off r (os.pread k n off).1
  pub pread_errno : (k : K) (n off e : ℕ) → (os.pread k n off).0 ≡ Sys.fail e → e ≢ 0
  pub pread_interrupted :
      (k : K) (n off : ℕ)
      → (os.pread k n off).0 ≡ Sys.fail eintr
      → os.patience (os.pread k n off).2 < os.patience k
  pub pwrite_ok :
      (k : K) (buf : Buffer) (n off r : ℕ)
      → (os.pwrite k buf n off).0 ≡ Sys.count r
      → WriteOk os k buf n off r (os.pwrite k buf n off).1
  pub pwrite_failed :
      (k : K) (buf : Buffer) (n off e : ℕ)
      → (os.pwrite k buf n off).0 ≡ Sys.fail e
      → SameFile os k (os.pwrite k buf n off).1
  pub pwrite_interrupted :
      (k : K) (buf : Buffer) (n off : ℕ)
      → (os.pwrite k buf n off).0 ≡ Sys.fail eintr
      → os.patience (os.pwrite k buf n off).1 < os.patience k
  pub fstat_same : (k : K) → SameFile os k (os.fstat k).1
  pub fstat_ok : (k : K) (r : ℕ) → (os.fstat k).0 ≡ Sys.count r → r ≡ os.size_of k
  pub reopen_errno : (k : K) (e : ℕ) → (os.reopen k).0 ≡ Sys.fail e → e ≢ 0
  pub pwrite_errno :
      (k : K) (buf : Buffer) (n off e : ℕ) → (os.pwrite k buf n off).0 ≡ Sys.fail e → e ≢ 0
  pub ftruncate_errno : (k : K) (t e : ℕ) → (os.ftruncate k t).0 ≡ Sys.fail e → e ≢ 0
  pub fstat_errno : (k : K) (e : ℕ) → (os.fstat k).0 ≡ Sys.fail e → e ≢ 0
  pub reopen_same : (k : K) → SameFile os k (os.reopen k).1
  pub ftruncate_size :
      (k : K) (t r : ℕ) → (os.ftruncate k t).0 ≡ Sys.count r → os.size_of (os.ftruncate k t).1 ≡ t
  pub ftruncate_bytes :
      (k : K) (t r : ℕ)
      → (os.ftruncate k t).0 ≡ Sys.count r
      → (j : ℕ) → os.byte (os.ftruncate k t).1 j ≡ (if ltb j t then os.byte k j else 0)

pub Sys-cases : (s : Sys) → ((e : ℕ) × (s ≡ fail e)) ⊎ ((n : ℕ) × (s ≡ count n))
Sys-cases (fail e) = inl (e, refl)
Sys-cases (count n) = inr (n, refl)
