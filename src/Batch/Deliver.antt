-- ===== src/Batch/Deliver.antt =====
-- The delivering loop of `opends_batch_get_status` (src/opends_batch_async.c).
use opends_fork.Prelude.{
  ℕ, zero, suc, ◌+◌, ◌^◌, ◌≤◌, ◌<◌, ◌≡◌, refl, sym, Bool, not, ◌&&◌, List, [], ◌∷◌, arith, ◌==◌,
  if◌then◌else◌, length, take, take-nil,
}
use opends_fork.Batch.{Entry, dec32, entry_done, IoEvent}
use opends_fork.Batch.Poll.{event_of, deliver_loop, count_ready}
use opends_fork.Batch.Sums.{at, undelivered, pending_as, total}

-- A completion that was not delivered yet.
abbrev pub is_ready : Entry → Bool
is_ready e = not e.delivered && entry_done e

-- The reports of all the completions that are ready, in the order of the slots.
unfoldable pub ready_events : List Entry → ℕ → List IoEvent
ready_events es zero = []
ready_events [] (suc n) = []
ready_events (e ∷ es) (suc n) =
    if is_ready e then event_of e ∷ ready_events es n else ready_events es n

-- How many events carry the cookie `c`.
unfoldable pub reported : ℕ → List IoEvent → ℕ
reported c [] = 0
reported c (ev ∷ evs) = (if ev.cookie == c then 1 else 0) + reported c evs

-- The first `room` of the completions that are ready are reported, in order.
pub events-deliver_loop :
    (es : List Entry) (n room inflight : ℕ)
    → (deliver_loop es n room inflight).events ≡ take room (ready_events es n)
unfolding deliver_loop ready_events
events-deliver_loop es zero room inflight = sym (take-nil IoEvent room)
events-deliver_loop [] (suc n) room inflight = sym (take-nil IoEvent room)
events-deliver_loop (e ∷ es) (suc n) zero inflight = refl
events-deliver_loop (e ∷ es) (suc n) (suc room) inflight = ground (
  arith,
  events-deliver_loop es n (suc room) inflight,
  events-deliver_loop es n room (dec32 inflight),
)

cookie-event_of : (e : Entry) → (event_of e).cookie ≡ e.cookie
unfolding event_of
cookie-event_of e = ground arith

-- Every undelivered operation is reported now or is still to be reported.
pub pending-deliver_loop :
    (c : ℕ) (es : List Entry) (n room inflight : ℕ)
    → total (pending_as c) es n
      ≡ reported c (deliver_loop es n room inflight).events
        + total (pending_as c) (deliver_loop es n room inflight).slots n
unfolding deliver_loop reported total
pending-deliver_loop c es zero room inflight = refl
pending-deliver_loop c [] (suc n) room inflight = refl
pending-deliver_loop c (e ∷ es) (suc n) zero inflight = omega arith
pending-deliver_loop c (e ∷ es) (suc n) (suc room) inflight = ground (
  arith,
  cookie-event_of e,
  pending-deliver_loop c es n (suc room) inflight,
  pending-deliver_loop c es n room (dec32 inflight),
)

-- The count of undelivered operations falls by the number of events, and does not wrap.
pub inflight-deliver_loop :
    (es : List Entry) (n room inflight : ℕ)
    → total undelivered es n ≤ inflight
    → inflight < 2 ^ 32
    → (total undelivered (deliver_loop es n room inflight).slots n
          + length (deliver_loop es n room inflight).events
        ≡ total undelivered es n)
      × ((deliver_loop es n room inflight).inflight
            + length (deliver_loop es n room inflight).events
          ≡ inflight)
unfolding deliver_loop total
inflight-deliver_loop es zero room inflight le small = omega arith
inflight-deliver_loop [] (suc n) room inflight le small = omega arith
inflight-deliver_loop (e ∷ es) (suc n) zero inflight le small = omega arith
inflight-deliver_loop (e ∷ es) (suc n) (suc room) inflight le small = ground (
  arith,
  inflight-deliver_loop es n (suc room) inflight,
  inflight-deliver_loop es n room (dec32 inflight),
)

-- A completion is reported once: what was reported is not ready any more.
pub count_ready-deliver_loop :
    (es : List Entry) (n room inflight : ℕ)
    → count_ready (deliver_loop es n room inflight).slots n
        + length (deliver_loop es n room inflight).events
      ≡ count_ready es n
unfolding deliver_loop count_ready
count_ready-deliver_loop es zero room inflight = refl
count_ready-deliver_loop [] (suc n) room inflight = refl
count_ready-deliver_loop (e ∷ es) (suc n) zero inflight = omega arith
count_ready-deliver_loop (e ∷ es) (suc n) (suc room) inflight = ground (
  arith,
  count_ready-deliver_loop es n (suc room) inflight,
  count_ready-deliver_loop es n room (dec32 inflight),
)

pub length-deliver_loop :
    (es : List Entry) (n room inflight : ℕ)
    → length (deliver_loop es n room inflight).slots ≡ length es
unfolding deliver_loop
length-deliver_loop es zero room inflight = refl
length-deliver_loop [] (suc n) room inflight = refl
length-deliver_loop (e ∷ es) (suc n) zero inflight = refl
length-deliver_loop (e ∷ es) (suc n) (suc room) inflight = ground (
  arith,
  length-deliver_loop es n (suc room) inflight,
  length-deliver_loop es n room (dec32 inflight),
)

-- The slots that are not in use stay as they are.
pub at-deliver_loop :
    (es : List Entry) (n room inflight i : ℕ)
    → n ≤ i
    → at (deliver_loop es n room inflight).slots i ≡ at es i
unfolding deliver_loop
at-deliver_loop es zero room inflight i le = refl
at-deliver_loop [] (suc n) room inflight i le = refl
at-deliver_loop (e ∷ es) (suc n) zero inflight i le = refl
at-deliver_loop (e ∷ es) (suc n) (suc room) inflight zero le = absurd (omega arith)
at-deliver_loop (e ∷ es) (suc n) (suc room) inflight (suc i) le = ground (
  arith,
  at-deliver_loop es n (suc room) inflight i,
  at-deliver_loop es n room (dec32 inflight) i,
)
