-- ===== src/DirectIo/Memory.antt =====
-- A file whose system calls do all they are asked to at once: a kernel for the tests of
-- src/opends_common.c and src/opends_ref.c.
use opends_fork.Prelude.{ℕ, ◌+◌, ◌-◌, ◌==◌, ◌≡◌, refl, ltb, if◌then◌else◌, min, max, arith}
use opends_fork.DirectIo.Blocks.{Copies}
use opends_fork.DirectIo.Block.{FullReads}
use opends_fork.Async.Reference.{host_copy}
use opends_fork.DirectIo.Os.{Buffer, Sys, Kernel, splice, Laws, SameFile}

-- A regular file in memory.
pub record File : Type 0 where
  pub size : ℕ
  pub data_at : Buffer

abbrev pub stored_at : File → ℕ → ℕ
stored_at f j = if ltb j f.size then f.data_at j else 0

abbrev pub kernel : Kernel File
kernel = record {
  size_of = λ f. f.size;
  byte = stored_at;
  patience = λ f. 0;
  pread = λ f n off. (Sys.count (min n (f.size - off)), (λ i. stored_at f (off + i)), f);
  pwrite = λ f buf n off. (
    Sys.count n,
    record {
      size = if n == 0 then f.size else max f.size (off + n);
      data_at = splice (stored_at f) off n buf;
    },
  );
  fstat = λ f. (Sys.count f.size, f);
  ftruncate = λ f t.
      (Sys.count 0, record { size = t; data_at = λ j. (if ltb j t then stored_at f j else 0) });
  reopen = λ f. (Sys.count 0, f);
}

same : (f : File) → SameFile kernel f f
same f = record { size = refl; bytes = λ j. refl; calmer = omega arith }

pub kernel-Laws : Laws kernel
kernel-Laws = record {
  zero_past_end = λ f j h. ground arith;
  pread_same = λ f n off. same f;
  pread_ok = λ f n off r e.
      (let q : min n (f.size - off) ≡ r = ground arith in
        record {
          at_most = omega arith;
          contents = λ i h. refl;
          in_file = λ h. omega arith;
          at_end = λ h more. omega arith;
        });
  pread_errno = λ f n off e h. ground arith;
  pread_interrupted = λ f n off h. ground arith;
  pwrite_ok = λ f buf n off r e.
      (let q : n ≡ r = ground arith in
        record {
          at_most = omega arith;
          bytes = λ j. ground arith;
          size = λ more. ground arith;
          calmer = omega arith;
        });
  pwrite_failed = λ f buf n off e h. ground arith;
  pwrite_interrupted = λ f buf n off h. ground arith;
  fstat_same = λ f. same f;
  fstat_ok = λ f r h. ground arith;
  reopen_errno = λ f e h. ground arith;
  pwrite_errno = λ f buf n off e h. ground arith;
  ftruncate_errno = λ f t e h. ground arith;
  fstat_errno = λ f e h. ground arith;
  reopen_same = λ f. same f;
  ftruncate_size = λ f t r h. refl;
  ftruncate_bytes = λ f t r h j. ground arith;
}

pub kernel-FullReads : FullReads kernel
kernel-FullReads = record {
  short_at_end =
      λ f n off r e short. (let q : min n (f.size - off) ≡ r = ground arith in omega arith);
}

pub host-Copies : Copies host_copy
host-Copies = record { copied = λ buf at n src e j. (unfold host_copy in refl) }

-- Ten bytes, which all are 1.
abbrev pub ten_bytes : File
ten_bytes = record { size = 10; data_at = λ j. 1 }

abbrev pub empty_buffer : Buffer
empty_buffer j = 0
