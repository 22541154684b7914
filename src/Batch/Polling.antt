-- ===== src/Batch/Polling.antt =====
-- `opends_batch_get_status` of src/opends_batch_async.c: the invariant, and what it reports.
use opends_fork.Prelude.{
  ℕ, zero, suc, ◌+◌, ◌≤◌, ◌≡◌, ◌⊎◌, inl, inr, refl, sym, ap, ◌∙◌, true, Option, some, List, [], ◌∷◌,
  arith, length, take, min, length-take, Option-cases,
}
use mathlib.Core.Path.{subst₂}
use opends_fork.Errors.{Error, opends_ok}
use opends_fork.Batch.{Entry, Batch, IoEvent}
use opends_fork.Batch.Poll.{
  Delivery, is_late, deadline_of, Moment, Timespec, count_ready, wait_loop, deliver_loop,
  opends_batch_get_status,
}
use opends_fork.Batch.Sums.{undelivered, pending_as, total, total-undelivered-le}
use opends_fork.Batch.Slots.{IsValid}
use opends_fork.Batch.Invariant.{pending}
use opends_fork.Batch.Deliver.{
  ready_events, reported, events-deliver_loop, pending-deliver_loop, inflight-deliver_loop,
  length-deliver_loop, at-deliver_loop,
}
use opends_fork.Batch.Wait.{Settles, wait_loop-Settles}

-- What `get_status` has done when it returns after its wait.
pub record Polled (b : Batch) (nr : ℕ) (b' : Batch) (evs : List IoEvent) : Type 0 where
  pub valid : IsValid b'
  pub capacity : b'.capacity ≡ b.capacity
  pub inflight : b'.inflight + length evs ≡ b.inflight
  pub accounted : (c : ℕ) → pending c b ≡ reported c evs + pending c b'
  pub at_most : length evs ≤ nr

length-ready_events : (es : List Entry) (n : ℕ) → length (ready_events es n) ≡ count_ready es n
unfolding ready_events count_ready
length-ready_events es zero = refl
length-ready_events [] (suc n) = refl
length-ready_events (e ∷ es) (suc n) = ground (arith, length-ready_events es n)

module _ {b : Batch} (v : IsValid b) (es : List Entry) (settled : Settles b.used b.entries es)
    (nr : ℕ) where
  abbrev delivery : Delivery
  delivery = deliver_loop es b.used nr b.inflight

  abbrev after : Batch
  after = record b { entries = delivery.slots; inflight = delivery.inflight }

  undelivered-settled : total undelivered es b.used ≡ b.inflight
  undelivered-settled = settled.same_total undelivered (λ e f. refl) ∙ sym v.counted

  counts :
      (total undelivered delivery.slots b.used + length delivery.events
        ≡ total undelivered es b.used)
      × (delivery.inflight + length delivery.events ≡ b.inflight)
  counts =
      inflight-deliver_loop es b.used nr b.inflight (omega (arith, undelivered-settled))
        (omega (arith, v.small, v.in_use, undelivered-settled, total-undelivered-le es b.used))

  length-events : length delivery.events ≡ min nr (count_ready es b.used)
  length-events =
      ap length (events-deliver_loop es b.used nr b.inflight)
      ∙ length-take nr (ready_events es b.used)
      ∙ ap (min nr) (length-ready_events es b.used)

  after-Polled : Polled b nr after delivery.events
  after-Polled = record {
    valid = record {
      room = length-deliver_loop es b.used nr b.inflight ∙ settled.same_length ∙ v.room;
      small = v.small;
      in_use = v.in_use;
      counted = omega (arith, counts, undelivered-settled);
      fresh = λ i le.
          at-deliver_loop es b.used nr b.inflight i le ∙ settled.same_unused i le ∙ v.fresh i le;
    };
    capacity = refl;
    inflight = counts.1;
    accounted = λ c.
        sym (settled.same_total (pending_as c) (λ e f. refl))
        ∙ pending-deliver_loop c es b.used nr b.inflight;
    at_most = omega (arith, length-events);
  }

-- The wait gave up: a timeout was given, and the clock showed a time past it.
abbrev pub TimedOut : Option Timespec → Timespec → Type 0
TimedOut timeout start = (now : Timespec) × (is_late (deadline_of timeout start) now ≡ true)

-- A call with good arguments whose wait ends reports, in the order of the slots, the first `*nr`
-- completions that are ready. It keeps the invariant; every operation in flight is reported now or
-- still in flight, cookie by cookie; and it reports at least `min_nr` events unless it timed out.
pub get_status_lem :
    {b b' : Batch} (min_nr nr : ℕ) (timeout : Option Timespec) (start : Timespec) (ms : List Moment)
    {evs : List IoEvent} {e : Error}
    → IsValid b
    → min_nr ≤ nr
    → min_nr ≤ b.inflight
    → opends_batch_get_status (some b) min_nr (some nr) true timeout start ms
      ≡ some (e, some b', evs)
    → (e ≡ opends_ok)
      × Polled b nr b' evs
      × ((es : List Entry) × Settles b.used b.entries es × (evs ≡ take nr (ready_events es b.used)))
      × ((min_nr ≤ length evs) ⊎ TimedOut timeout start)
unfolding opends_batch_get_status
get_status_lem {b} {b'} min_nr nr timeout start ms {evs} {e} v le le' h =
    elim (Option-cases (wait_loop (deadline_of timeout start) min_nr b.used ms b.entries)) [
      | inl stuck ↦ ground arith
      | inr (es, w) ↦
          let (settled, enough) =
            wait_loop-Settles (deadline_of timeout start) min_nr b.used ms b.entries {es' = es}
              (omega (arith, v.room, v.in_use)) w in
          let eb : after v es settled nr ≡ b' = ground arith in
          let ev : (delivery v es settled nr).events ≡ evs = ground arith in
          (
            ground arith,
            subst₂ (Polled b nr) eb ev (after-Polled v es settled nr),
            (es, settled, sym ev ∙ events-deliver_loop es b.used nr b.inflight),
            elim enough [
              | inl many ↦ inl (omega (arith, ap length ev, length-events v es settled nr))
              | inr late ↦ inr late
            ],
          )
    ]
