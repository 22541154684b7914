-- ===== src/Batch.antt =====
-- Batch I/O over the asynchronous API, src/opends_batch_async.c.
--
-- `entries` is the array of `capacity` slots; a loop `for (i = 0; i < b->used; i++)` recurs on the
-- slots with a count of those left. `none` in place of a batch, an array or a counter is NULL.
pub mod Poll
pub mod Sums
pub mod Slots
pub mod Invariant
pub mod Deliver
pub mod Cancel
pub mod Wait
pub mod Polling
pub mod Exactly
mod Tests
use opends_fork.Prelude.{
  ℕ, zero, suc, ◌+◌, ◌-◌, ◌%◌, ◌^◌, Bool, true, false, not, ◌&&◌, ◌||◌, Option, none, some, List,
  [], ◌∷◌, ltb, leb, ◌==◌, if◌then◌else◌, length, get_or, set, replicate,
}
use opends_fork.Prelude.Int.{ℤ, pos, is_negative, to_nat}
use opends_fork.Errors.{
  OpError, invalid_value, batch_full, internal_error, Error, opends_ok, opends_err, is_success,
}
use opends_fork.Async.{Future, zero_future, Request, Backend}

-- struct batch_entry
pub record Entry : Type 0 where
  pub future : Future
  pub cookie : ℕ
  pub failed : Bool
  pub canceled : Bool
  pub delivered : Bool

abbrev pub zero_entry : Entry
zero_entry = record {
  future = zero_future;
  cookie = 0;
  failed = false;
  canceled = false;
  delivered = false;
}

-- struct async_batch
pub record Batch : Type 0 where
  pub entries : List Entry
  pub used : ℕ
  pub inflight : ℕ
  pub capacity : ℕ

-- `unsigned` arithmetic
abbrev pub inc32 : ℕ → ℕ
inc32 n = (n + 1) % 2 ^ 32

abbrev pub dec32 : ℕ → ℕ
dec32 n = (n + 2 ^ 32 - 1) % 2 ^ 32

abbrev pub sub32 : ℕ → ℕ → ℕ
sub32 a b = (a + 2 ^ 32 - b) % 2 ^ 32

abbrev pub entry_done : Entry → Bool
entry_done e = e.failed || e.future.done

-- The loop of `entry_take`: the first slot in use whose completion was delivered.
pub find_delivered : List Entry → ℕ → Option ℕ
find_delivered es zero = none
find_delivered [] (suc n) = none
find_delivered (e ∷ es) (suc n) =
    let rest = find_delivered es n in
    if e.delivered then some 0 else elim rest [ none ↦ none | some i ↦ some (suc i) ]

-- The index of the slot, and the batch with it zeroed or newly in use.
pub entry_take : Batch → ℕ × Batch
entry_take b = elim (find_delivered b.entries b.used) [
  | some i ↦ (i, record b { entries = set b.entries i zero_entry })
  | none ↦ (b.used, record b { used = inc32 b.used })
]

-- `calloc` may fail; `nr` is an unsigned int.
pub opends_batch_setup : Bool → Bool → ℕ → Bool → Error × Option Batch
opends_batch_setup has_out calloc_batch nr calloc_entries =
    if not has_out || nr == 0
    then (opends_err invalid_value, none)
    else if not calloc_batch
    then (opends_err internal_error, none)
    else if not calloc_entries
    then (opends_err internal_error, none)
    else (
      opends_ok,
      some (record { entries = replicate nr zero_entry; used = 0; inflight = 0; capacity = nr }),
    )

-- opends_io_params_t; `write` is any opcode but OPENDS_READ.
pub data Opcode : Type 0 where
  read write : Opcode

pub record IoParams : Type 0 where
  pub request : Request
  pub opcode : Opcode
  pub cookie : ℕ

-- opends_status_t, the values that this file reports.
pub data Status : Type 0 where
  canceled complete failed : Status

-- opends_io_events_t
pub record IoEvent : Type 0 where
  pub cookie : ℕ
  pub status : Status
  pub ret : ℕ

module _ {S : Type 0} (be : Backend S) where
  call_backend : Opcode → S → Request → Future → Error × Future × S
  call_backend read = be.async_read
  call_backend write = be.async_write

  -- One round of the loop of `opends_batch_submit`.
  pub submit_one : S → Batch → IoParams → Batch × S
  unfolding call_backend
  submit_one s b p =
      let (i, b') = entry_take b in
      let e = get_or b'.entries i zero_entry in
      let (err, f, s') = call_backend p.opcode s p.request e.future in
      let e' = record e {
        future = f;
        cookie = p.cookie;
        failed = if is_success err.err then e.failed else true;
      } in
      (record b' { entries = set b'.entries i e'; inflight = inc32 b'.inflight }, s')

  pub submit_loop : S → Batch → List IoParams → Batch × S
  submit_loop s b [] = (b, s)
  submit_loop s b (p ∷ ps) = let (b', s') = submit_one s b p in submit_loop s' b' ps

  -- `iocbp` holds `nr` elements.
  pub opends_batch_submit : S → Option Batch → Option (List IoParams) → Error × Option Batch × S
  opends_batch_submit s none iocbp = (opends_err invalid_value, none, s)
  opends_batch_submit s (some b) none = (opends_err invalid_value, some b, s)
  opends_batch_submit s (some b) (some ps) =
      if ltb (sub32 b.capacity b.inflight) (length ps)
      then (opends_err batch_full, some b, s)
      else let (b', s') = submit_loop s b ps in (opends_ok, some b', s')

  -- The loop of `opends_batch_cancel`.
  pub cancel_loop : S → List Entry → ℕ → List Entry × S
  cancel_loop s es zero = (es, s)
  cancel_loop s [] (suc n) = ([], s)
  cancel_loop s (e ∷ es) (suc n) =
      let (r, f, s₁) = be.async_await s e.future in
      let waits = not e.delivered && not e.failed in
      let e' =
        if e.delivered
        then e
        else record e { future = if waits then f else e.future; canceled = true } in
      let (es', s₂) = cancel_loop (if waits then s₁ else s) es n in (e' ∷ es', s₂)

  pub opends_batch_cancel : S → Option Batch → Error × Option Batch × S
  opends_batch_cancel s none = (opends_err invalid_value, none, s)
  opends_batch_cancel s (some b) =
      let (es, s') = cancel_loop s b.entries b.used in
      (opends_ok, some (record b { entries = es }), s')

  -- The loop of `opends_batch_destroy`; the batch is freed after it.
  pub destroy_loop : S → List Entry → ℕ → S
  destroy_loop s es zero = s
  destroy_loop s [] (suc n) = s
  destroy_loop s (e ∷ es) (suc n) =
      let (r, f, s') = be.async_await s e.future in destroy_loop (if e.failed then s else s') es n

  pub opends_batch_destroy : S → Option Batch → S
  unfolding destroy_loop
  opends_batch_destroy s none = s
  opends_batch_destroy s (some b) = destroy_loop s b.entries b.used
