-- ===== src/DirectIo/Tests.antt =====
-- The direct I/O of src/opends_common.c on a file in memory.
use opends_fork.Prelude.{ℕ, ◌+◌, ◌-◌, ◌≡◌, ◌≢◌, refl, Option, none, some, min, arith}
use opends_fork.Prelude.Int.{ℤ, pos}
use opends_fork.Async.Reference.{host_copy}
use opends_fork.DirectIo.{rdwr, opends_direct_pwrite, opends_direct_pread, write_loop, read_loop}
use opends_fork.DirectIo.Read.{pread_lem, read_loop_total}
use opends_fork.DirectIo.Loop.{write_loop_total}
use opends_fork.DirectIo.Os.{Buffer, splice, SameFile}
use opends_fork.DirectIo.Memory.{File, stored_at, kernel, kernel-Laws, ten_bytes, empty_buffer}

abbrev source : Buffer
source j = 7

-- Three bytes at 8: the block is read, changed and written back, and the file is cut to 11 bytes.
abbrev written : Option (ℤ × File)
written = opends_direct_pwrite kernel 9 ten_bytes host_copy (some empty_buffer) rdwr source 3 8

abbrev after_write : File
after_write = elim written [ none ↦ ten_bytes | some (n, f) ↦ f ]

-- Three bytes at 8, of which the file has two.
abbrev read : Option (ℤ × Buffer × File)
read = opends_direct_pread kernel 9 ten_bytes (some empty_buffer) empty_buffer 3 8

abbrev after_read : Buffer
after_read = elim read [ none ↦ empty_buffer | some (n, dst, f) ↦ dst ]

read_ends :
    opends_direct_pread kernel 9 ten_bytes (some empty_buffer) empty_buffer 3 8
    ≡ some (pos 2, after_read, ten_bytes)
unfolding opends_direct_pread read_loop
read_ends = refl

pread_lem_example :
    (2 ≡ min 3 (10 - 8))
    × ((j : ℕ) → after_read j ≡ splice empty_buffer 0 2 (λ i. stored_at ten_bytes (8 + i)) j)
    × SameFile kernel ten_bytes ten_bytes
pread_lem_example =
    pread_lem kernel-Laws 9 ten_bytes (some empty_buffer) empty_buffer 3 8 2 (omega arith) read_ends

read_loop_total_example : read_loop kernel 4097 ten_bytes empty_buffer 0 4096 0 ≢ none
read_loop_total_example =
    read_loop_total kernel-Laws ten_bytes 0 4096 4097 ten_bytes empty_buffer 0 (omega arith)

write_loop_total_example : write_loop kernel 4097 ten_bytes source 0 4096 0 ≢ none
write_loop_total_example =
    write_loop_total kernel-Laws ten_bytes source 0 4096 4097 ten_bytes 0 (omega arith)
