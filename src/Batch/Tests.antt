-- ===== src/Batch/Tests.antt =====
-- A batch of src/opends_batch_async.c with room for two operations, over a backend that does each
-- operation at once.
use opends_fork.Prelude.{
  ℕ, ◌≤◌, ◌≡◌, refl, sym, ap, true, Option, none, some, List, [], ◌∷◌, ◌++◌, arith,
}
use opends_fork.Prelude.Int.{ℤ, pos}
use opends_fork.Errors.{Error, opends_ok}
use opends_fork.Async.{Future, Request, Backend}
use opends_fork.Batch.{
  Batch, IoParams, IoEvent, complete, Opcode, opends_batch_setup, opends_batch_submit, submit_one,
  submit_loop, call_backend, entry_take, find_delivered,
}
use opends_fork.Batch.Poll.{
  event_of, deliver_loop, Timespec, opends_batch_get_status, wait_loop, count_ready,
}
use opends_fork.Batch.Slots.{IsValid}
use opends_fork.Batch.Invariant.{setup-IsValid}
use opends_fork.Batch.Exactly.{Reach, Balanced, exactly_once}

abbrev done_with : ℕ → Future
done_with n = record { done = true; result = pos n }

again :
    (f : Future) (s : ℕ)
    → f.done ≡ true
    → ◌≡◌ {A = ℤ × Future × ℕ}
        (f.result, record { done = true; result = f.result }, s)
        (f.result, f, s)
again f s h = ap (λ d. (f.result, record { done = d; result = f.result }, s)) (sym h)

abbrev backend : Backend ℕ
backend = record {
  async_read = λ s r f. (opends_ok, done_with r.size, s);
  async_write = λ s r f. (opends_ok, done_with r.size, s);
  async_await = λ s f. (f.result, record { done = true; result = f.result }, s);
  await_finishes = λ s f. refl;
  await_result = λ s f. refl;
  await_again = λ s f h. again f s h;
}

abbrev new_batch : Option Batch
new_batch = (opends_batch_setup true true 2 true).1

abbrev none_batch : Batch
none_batch = record { entries = []; used = 0; inflight = 0; capacity = 0 }

abbrev get_batch : Option Batch → Batch
get_batch none = none_batch
get_batch (some b) = b

abbrev batch : Batch
batch = get_batch new_batch

setup : opends_batch_setup true true 2 true ≡ (opends_ok, some batch)
unfolding opends_batch_setup
setup = refl

batch-IsValid : IsValid batch
batch-IsValid = (setup-IsValid true true true 2 (omega arith) setup).0

abbrev request_of : ℕ → Request
request_of n = record { fh = 1; buf_base = 1; size = n; file_offset = 0; buf_offset = 0 }

abbrev params : List IoParams
params =
    record { request = request_of 8; opcode = Opcode.read; cookie = 21 }
    ∷ record { request = request_of 9; opcode = Opcode.write; cookie = 22 }
    ∷ []

abbrev full_batch : Batch
full_batch = get_batch (opends_batch_submit backend 0 (some batch) (some params)).1

submit : opends_batch_submit backend 0 (some batch) (some params) ≡ (opends_ok, some full_batch, 0)
unfolding opends_batch_submit submit_loop submit_one call_backend entry_take find_delivered
    opends_batch_setup
submit = refl

reach_full : Reach backend 2 full_batch params []
reach_full = Reach.submit params 0 0 (Reach.set_up setup) submit

full-Balanced : Balanced 2 full_batch params []
full-Balanced = exactly_once backend (omega arith) reach_full

abbrev noon : Timespec
noon = record { tv_sec = 0; tv_nsec = 0 }

abbrev polled : Option (Error × Option Batch × List IoEvent)
polled = opends_batch_get_status (some full_batch) 1 (some 1) true none noon []

abbrev polled_batch : Batch
polled_batch = elim polled [ none ↦ none_batch | some (e, b, evs) ↦ get_batch b ]

abbrev first_event : List IoEvent
first_event = record { cookie = 21; status = complete; ret = 8 } ∷ []

poll :
    opends_batch_get_status (some full_batch) 1 (some 1) true none noon []
    ≡ some (opends_ok, some polled_batch, first_event)
unfolding opends_batch_get_status wait_loop deliver_loop count_ready event_of opends_batch_submit
    submit_loop submit_one call_backend entry_take find_delivered opends_batch_setup
poll = refl

one_in_flight : 1 ≤ full_batch.inflight
unfolding opends_batch_submit submit_loop submit_one call_backend entry_take find_delivered
    opends_batch_setup
one_in_flight = omega arith

exactly_once_example : Balanced 2 polled_batch params ([] ++ first_event)
exactly_once_example =
    exactly_once backend (omega arith)
      (Reach.poll 1 1 none noon [] reach_full (omega arith) one_in_flight poll)
