-- ===== src/Async.antt =====
-- The asynchronous API of include/opends.h as the batch and sync layers use it: a backend
-- (src/opends_aisio.c or src/opends_ref.c) is a parameter of src/opends_batch_async.c and
-- src/opends_sync_async.c.
pub mod Sync
pub mod Reference
pub mod Reads
mod Tests
use opends_fork.Prelude.{ℕ, ◌≡◌, Bool, true, false, if◌then◌else◌}
use opends_fork.Prelude.Int.{ℤ, pos}
use opends_fork.Errors.{Error}

-- opends_async_future_t. `done` is 0 or 1.
pub record Future : Type 0 where
  pub done : Bool
  pub result : ℤ

abbrev pub zero_future : Future
zero_future = record { done = false; result = pos 0 }

-- The arguments of `opends_async_read` and `opends_async_write`; pointers are numbers, 0 is NULL.
pub record Request : Type 0 where
  pub fh : ℕ
  pub buf_base : ℕ
  pub size : ℕ
  pub file_offset : ℕ
  pub buf_offset : ℕ

-- A backend over its own state: a submission may write the future that it is given, and waiting
-- for a future hands back its result once it is done. A wait is taken to end (the backend's progress):
-- the code spins until the future is done, which is so for a future that was submitted.
pub record Backend (S : Type 0) : Type 0 where
  pub async_read : S → Request → Future → Error × Future × S
  pub async_write : S → Request → Future → Error × Future × S
  pub async_await : S → Future → ℤ × Future × S
  pub await_finishes : (s : S) (f : Future) → (async_await s f).1.done ≡ true
  pub await_result : (s : S) (f : Future) → (async_await s f).0 ≡ (async_await s f).1.result
  pub await_again : (s : S) (f : Future) → f.done ≡ true → async_await s f ≡ (f.result, f, s)
