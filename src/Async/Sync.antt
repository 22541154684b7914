-- ===== src/Async/Sync.antt =====
-- The synchronous calls, src/opends_sync_async.c: submit, then wait in place.
use opends_fork.Prelude.{if◌then◌else◌}
use opends_fork.Prelude.Int.{ℤ}
use opends_fork.Errors.{neg_code, is_success}
use opends_fork.Async.{Future, Request, Backend}

module _ {S : Type 0} (b : Backend S) where
  -- The future lives on the caller's stack, with any contents.
  unfoldable pub opends_sync_read : S → Request → Future → ℤ × S
  opends_sync_read s r future =
      let (err, f, s') = b.async_read s r future in
      let (n, f', s'') = b.async_await s' f in
      if is_success err.err then (n, s'') else (neg_code err.err, s')

  unfoldable pub opends_sync_write : S → Request → Future → ℤ × S
  opends_sync_write s r future =
      let (err, f, s') = b.async_write s r future in
      let (n, f', s'') = b.async_await s' f in
      if is_success err.err then (n, s'') else (neg_code err.err, s')
