-- ===== src/Batch/Poll.antt =====
-- Polling a batch for completions: `opends_batch_get_status` of src/opends_batch_async.c, with the
-- loops that count, wait and deliver.
use opends_fork.Prelude.{
  ℕ, zero, suc, ◌+◌, ◌-◌, Bool, true, false, not, ◌&&◌, ◌||◌, Option, none, some, List, [], ◌∷◌,
  ltb, leb, ◌==◌, if◌then◌else◌, get_or, set,
}
use opends_fork.Prelude.Int.{ℤ, is_negative, to_nat}
use opends_fork.Errors.{invalid_value, Error, opends_ok, opends_err}
use opends_fork.Batch.{
  Entry, zero_entry, Batch, dec32, entry_done, canceled, complete, failed, IoEvent,
}

unfoldable pub count_ready : List Entry → ℕ → ℕ
count_ready es zero = 0
count_ready [] (suc n) = 0
count_ready (e ∷ es) (suc n) = (if not e.delivered && entry_done e then 1 else 0) + count_ready es n

-- What `opends_batch_get_status` reports of a slot. Its await returns at once: the future is done.
unfoldable pub event_of : Entry → IoEvent
event_of e =
    if e.canceled
    then record { cookie = e.cookie; status = canceled; ret = 0 }
    else if e.failed
    then record { cookie = e.cookie; status = failed; ret = 0 }
    else if is_negative e.future.result
    then record { cookie = e.cookie; status = failed; ret = 0 }
    else record { cookie = e.cookie; status = complete; ret = to_nat e.future.result }

-- The delivering loop, with the slots left, the room left in `iocbp` and `inflight`.
pub record Delivery : Type 0 where
  pub events : List IoEvent
  pub slots : List Entry
  pub inflight : ℕ

unfoldable pub deliver_loop : List Entry → ℕ → ℕ → ℕ → Delivery
deliver_loop es zero room inflight = record { events = []; slots = es; inflight = inflight }
deliver_loop [] (suc n) room inflight = record { events = []; slots = []; inflight = inflight }
deliver_loop (e ∷ es) (suc n) zero inflight = record {
  events = [];
  slots = e ∷ es;
  inflight = inflight;
}
deliver_loop (e ∷ es) (suc n) (suc room) inflight =
    let skip = deliver_loop es n (suc room) inflight in
    let hand = deliver_loop es n room (dec32 inflight) in
    if e.delivered || not (entry_done e)
    then record { events = skip.events; slots = e ∷ skip.slots; inflight = skip.inflight }
    else record {
      events = event_of e ∷ hand.events;
      slots = record e { delivered = true } ∷ hand.slots;
      inflight = hand.inflight;
    }

-- struct timespec
pub record Timespec : Type 0 where
  pub tv_sec : ℕ
  pub tv_nsec : ℕ

unfoldable pub add_timeout : Timespec → Timespec → Timespec
add_timeout now timeout =
    let sec = now.tv_sec + timeout.tv_sec in
    let nsec = now.tv_nsec + timeout.tv_nsec in
    if leb 1000000000 nsec
    then record { tv_sec = sec + 1; tv_nsec = nsec - 1000000000 }
    else record { tv_sec = sec; tv_nsec = nsec }

unfoldable pub expired : Timespec → Timespec → Bool
expired deadline now =
    ltb deadline.tv_sec now.tv_sec
    || (now.tv_sec == deadline.tv_sec && leb deadline.tv_nsec now.tv_nsec)

-- A completion that another thread stores into the future of slot `i`. Only an operation in use
-- that is not done completes.
abbrev pub finish : ℕ → List Entry → ℕ × ℤ → List Entry
finish used es (i, r) =
    let e = get_or es i zero_entry in
    if leb used i || e.future.done
    then es
    else set es i (record e { future = record { done = true; result = r } })

unfoldable pub finish_all : ℕ → List Entry → List (ℕ × ℤ) → List Entry
finish_all used es [] = es
finish_all used es (c ∷ cs) = finish_all used (finish used es c) cs

-- What happens up to the next look at the futures: completions, and the time that the clock shows.
pub record Moment : Type 0 where
  pub finished : List (ℕ × ℤ)
  pub now : Timespec

-- The time at which a call made at `start` gives up, if it has a timeout.
abbrev pub deadline_of : Option Timespec → Timespec → Option Timespec
deadline_of none start = none
deadline_of (some timeout) start = some (add_timeout start timeout)

-- Whether the timeout, if there is one, has passed.
abbrev pub is_late : Option Timespec → Timespec → Bool
is_late none now = false
is_late (some deadline) now = expired deadline now

-- The waiting loop, over the moments to come; `none` if it still waits after the last of them.
unfoldable pub wait_loop : Option Timespec → ℕ → ℕ → List Moment → List Entry → Option (List Entry)
wait_loop deadline min_nr used [] es = if ltb (count_ready es used) min_nr then none else some es
wait_loop deadline min_nr used (m ∷ ms) es =
    let rest = wait_loop deadline min_nr used ms (finish_all used es m.finished) in
    if ltb (count_ready es used) min_nr
    then if is_late deadline m.now then some es else rest
    else some es

-- `*nr` goes in and the number of events out. `start` is the clock at the call.
unfoldable pub opends_batch_get_status :
    Option Batch
    → ℕ
    → Option ℕ
    → Bool
    → Option Timespec
    → Timespec
    → List Moment
    → Option (Error × Option Batch × List IoEvent)
unfolding wait_loop deliver_loop count_ready
opends_batch_get_status none min_nr nr has_out timeout start ms =
    some (opends_err invalid_value, none, [])
opends_batch_get_status (some b) min_nr none has_out timeout start ms =
    some (opends_err invalid_value, some b, [])
opends_batch_get_status (some b) min_nr (some nr) has_out timeout start ms =
    if not has_out || ltb nr min_nr || ltb b.inflight min_nr
    then some (opends_err invalid_value, some b, [])
    else elim (wait_loop (deadline_of timeout start) min_nr b.used ms b.entries) [
      | none ↦ none
      | some es ↦
          let d = deliver_loop es b.used nr b.inflight in
          some (opends_ok, some (record b { entries = d.slots; inflight = d.inflight }), d.events)
    ]
