-- ===== src/Batch/Cancel.antt =====
-- `opends_batch_cancel` of src/opends_batch_async.c: the invariant, and what a poll then reports.
use opends_fork.Prelude.{
  ℕ, zero, suc, ◌+◌, ◌≤◌, ◌≡◌, refl, sym, ap, ap₂, ◌∙◌, Bool, true, false, some, List, [], ◌∷◌,
  arith, if◌then◌else◌, length,
}
use opends_fork.Errors.{opends_ok}
use opends_fork.Async.{Future, Backend}
use opends_fork.Batch.{Entry, Batch, cancel_loop, opends_batch_cancel, IoEvent, canceled}
use opends_fork.Batch.Poll.{event_of}
use opends_fork.Batch.Sums.{at, undelivered, pending_as, total}
use opends_fork.Batch.Slots.{IsValid}
use opends_fork.Batch.Invariant.{pending}
use opends_fork.Batch.Deliver.{ready_events}

-- The reports that a cancelled batch will give: each undelivered operation, as canceled.
unfoldable pub canceled_events : List Entry → ℕ → List IoEvent
canceled_events es zero = []
canceled_events [] (suc n) = []
canceled_events (e ∷ es) (suc n) =
    if e.delivered
    then canceled_events es n
    else record { cookie = e.cookie; status = canceled; ret = 0 } ∷ canceled_events es n

mark-steady :
    (w : Entry → ℕ)
    → ((e : Entry) (f : Future) → w (record e { future = f; canceled = true }) ≡ w e)
    → (e : Entry) (f : Future) (skip : Bool)
    → w (if skip then e else record e { future = f; canceled = true }) ≡ w e
mark-steady w steady e f true = refl
mark-steady w steady e f false = steady e f

module _ {S : Type 0} (be : Backend S) where
  -- A measure that only looks at the cookie and at what was delivered.
  total-cancel_loop :
      (w : Entry → ℕ)
      → ((e : Entry) (f : Future) → w (record e { future = f; canceled = true }) ≡ w e)
      → (es : List Entry) (n : ℕ) (s : S) → total w (cancel_loop be s es n).0 n ≡ total w es n
  unfolding cancel_loop total
  total-cancel_loop w steady es zero s = refl
  total-cancel_loop w steady [] (suc n) s = refl
  total-cancel_loop w steady (e ∷ es) (suc n) s =
      ap₂ ◌+◌ (mark-steady w steady e _ e.delivered) (total-cancel_loop w steady es n _)

  length-cancel_loop :
      (es : List Entry) (n : ℕ) (s : S) → length (cancel_loop be s es n).0 ≡ length es
  unfolding cancel_loop
  length-cancel_loop es zero s = refl
  length-cancel_loop [] (suc n) s = refl
  length-cancel_loop (e ∷ es) (suc n) s = ap suc (length-cancel_loop es n _)

  at-cancel_loop :
      (es : List Entry) (n i : ℕ) (s : S) → n ≤ i → at (cancel_loop be s es n).0 i ≡ at es i
  unfolding cancel_loop
  at-cancel_loop es zero i s le = refl
  at-cancel_loop [] (suc n) i s le = refl
  at-cancel_loop (e ∷ es) (suc n) zero s le = absurd (omega arith)
  at-cancel_loop (e ∷ es) (suc n) (suc i) s le = at-cancel_loop es n i _ (omega arith)

  ready_events-cancel_loop :
      (es : List Entry) (n : ℕ) (s : S)
      → ready_events (cancel_loop be s es n).0 n ≡ canceled_events es n
  unfolding cancel_loop ready_events canceled_events event_of
  ready_events-cancel_loop es zero s = refl
  ready_events-cancel_loop [] (suc n) s = refl
  ready_events-cancel_loop (e ∷ es) (suc n) s = ground (
    arith,
    be.await_finishes s e.future,
    ready_events-cancel_loop es n s,
    ready_events-cancel_loop es n (be.async_await s e.future).2,
  )

  -- A cancel keeps the invariant and every undelivered operation, and afterwards each of them is
  -- ready to be reported, as canceled.
  pub cancel_lem :
      {b : Batch} (s : S)
      → IsValid b
      → (b' : Batch) × (s' : S) × (opends_batch_cancel be s (some b) ≡ (opends_ok, some b', s'))
        × IsValid b'
        × ((b'.inflight ≡ b.inflight) × (b'.capacity ≡ b.capacity))
        × ((c : ℕ) → pending c b' ≡ pending c b)
        × (ready_events b'.entries b'.used ≡ canceled_events b.entries b.used)
  unfolding opends_batch_cancel
  cancel_lem {b} s v = (
    record b { entries = (cancel_loop be s b.entries b.used).0 },
    (cancel_loop be s b.entries b.used).1,
    refl,
    record {
      room = length-cancel_loop b.entries b.used s ∙ v.room;
      small = v.small;
      in_use = v.in_use;
      counted = v.counted ∙ sym (total-cancel_loop undelivered (λ e f. refl) b.entries b.used s);
      fresh = λ i le. at-cancel_loop b.entries b.used i s le ∙ v.fresh i le;
    },
    (refl, refl),
    (λ c. total-cancel_loop (pending_as c) (λ e f. refl) b.entries b.used s),
    ready_events-cancel_loop b.entries b.used s,
  )
