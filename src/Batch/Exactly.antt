-- ===== src/Batch/Exactly.antt =====
-- Any sequence of calls on a batch (src/opends_batch_async.c), interleaved with completions:
-- include/opends.h says that `opends_batch_get_status` reports each completion exactly once.
use mathlib.Core.Path.{subst}
use opends_fork.Prelude.{
  ℕ, zero, suc, ◌+◌, ◌^◌, ◌≤◌, ◌<◌, ◌≡◌, refl, sym, ◌∙◌, true, Option, some, List, [], ◌∷◌, ◌++◌,
  arith, length, length-append, dec_lt,
}
use opends_fork.Prelude.Int.{ℤ}
use opends_fork.Errors.{Error, opends_ok}
use opends_fork.Async.{Backend}
use opends_fork.Batch.{
  Entry, Batch, IoParams, IoEvent, opends_batch_setup, opends_batch_submit, opends_batch_cancel,
}
use opends_fork.Batch.Poll.{Timespec, Moment, finish_all, opends_batch_get_status}
use opends_fork.Batch.Sums.{undelivered, pending_as, total}
use opends_fork.Batch.Slots.{IsValid}
use opends_fork.Batch.Invariant.{pending, submitted, Grown, setup-IsValid, submit_lem}
use opends_fork.Batch.Deliver.{reported}
use opends_fork.Batch.Cancel.{cancel_lem}
use opends_fork.Batch.Wait.{finish_all-Settles}
use opends_fork.Batch.Polling.{Polled, get_status_lem}

module _ {S : Type 0} (be : Backend S) where
  -- A batch set up for `nr` operations, after calls that submitted `ps` and reported `evs`.
  pub data Reach (nr : ℕ) : Batch → List IoParams → List IoEvent → Type 0 where
    set_up :
        {b : Batch} {e : Error}
        → opends_batch_setup true true nr true ≡ (e, some b)
        → Reach nr b [] []
    submit :
        {b b' : Batch} {ps : List IoParams} {evs : List IoEvent} (qs : List IoParams) (s s' : S)
        → Reach nr b ps evs
        → opends_batch_submit be s (some b) (some qs) ≡ (opends_ok, some b', s')
        → Reach nr b' (ps ++ qs) evs
    complete :
        {b : Batch} {ps : List IoParams} {evs : List IoEvent} (cs : List (ℕ × ℤ))
        → Reach nr b ps evs
        → Reach nr (record b { entries = finish_all b.used b.entries cs }) ps evs
    poll :
        {b b' : Batch} {ps : List IoParams} {evs new : List IoEvent} {e : Error} (min_nr nr_out : ℕ)
        (timeout : Option Timespec) (start : Timespec) (ms : List Moment)
        → Reach nr b ps evs
        → min_nr ≤ nr_out
        → min_nr ≤ b.inflight
        → opends_batch_get_status (some b) min_nr (some nr_out) true timeout start ms
          ≡ some (e, some b', new)
        → Reach nr b' ps (evs ++ new)
    cancel :
        {b b' : Batch} {ps : List IoParams} {evs : List IoEvent} (s s' : S)
        → Reach nr b ps evs
        → opends_batch_cancel be s (some b) ≡ (opends_ok, some b', s')
        → Reach nr b' ps evs

submitted-append :
    (c : ℕ) (ps qs : List IoParams) → submitted c (ps ++ qs) ≡ submitted c ps + submitted c qs
submitted-append c [] qs = omega arith
submitted-append c (p ∷ ps) qs = omega (arith, submitted-append c ps qs)

reported-append :
    (c : ℕ) (xs ys : List IoEvent) → reported c (xs ++ ys) ≡ reported c xs + reported c ys
unfolding reported
reported-append c [] ys = omega arith
reported-append c (x ∷ xs) ys = omega (arith, reported-append c xs ys)

-- The books of a batch: what was submitted is what was reported and what is in flight.
pub record Balanced (nr : ℕ) (b : Batch) (ps : List IoParams) (evs : List IoEvent) : Type 0 where
  pub valid : IsValid b
  pub capacity : b.capacity ≡ nr
  pub counted : length ps ≡ length evs + b.inflight
  pub each : (c : ℕ) → submitted c ps ≡ reported c evs + pending c b

settle-IsValid :
    {b : Batch} (cs : List (ℕ × ℤ))
    → IsValid b
    → IsValid (record b { entries = finish_all b.used b.entries cs })
      × ((c : ℕ) → pending c (record b { entries = finish_all b.used b.entries cs }) ≡ pending c b)
settle-IsValid {b} cs v =
    let x = finish_all-Settles b.used cs b.entries (omega (arith, v.room, v.in_use)) in
    (
      record {
        room = x.same_length ∙ v.room;
        small = v.small;
        in_use = v.in_use;
        counted = v.counted ∙ sym (x.same_total undelivered (λ e f. refl));
        fresh = λ i le. x.same_unused i le ∙ v.fresh i le;
      },
      λ c. x.same_total (pending_as c) (λ e f. refl),
    )

Grown-Balanced :
    {nr : ℕ} {b b' : Batch} {ps : List IoParams} {evs : List IoEvent} (qs : List IoParams)
    → Balanced nr b ps evs
    → Grown b (length qs) (λ c. submitted c qs) b'
    → Balanced nr b' (ps ++ qs) evs
Grown-Balanced {ps} qs x g = record {
  valid = g.valid;
  capacity = g.capacity ∙ x.capacity;
  counted = omega (arith, length-append ps qs, x.counted, g.inflight);
  each = λ c. omega (arith, submitted-append c ps qs, x.each c, g.accounted c);
}

Polled-Balanced :
    {nr room : ℕ} {b b' : Batch} {ps : List IoParams} {evs : List IoEvent} (new : List IoEvent)
    → Balanced nr b ps evs
    → Polled b room b' new
    → Balanced nr b' ps (evs ++ new)
Polled-Balanced {evs} new x g = record {
  valid = g.valid;
  capacity = g.capacity ∙ x.capacity;
  counted = omega (arith, length-append evs new, x.counted, g.inflight);
  each = λ c. omega (arith, reported-append c evs new, x.each c, g.accounted c);
}

pending-le : (c : ℕ) (es : List Entry) (n : ℕ) → total (pending_as c) es n ≤ total undelivered es n
unfolding total
pending-le c es zero = omega arith
pending-le c [] (suc n) = omega arith
pending-le c (e ∷ es) (suc n) = ground (arith, pending-le c es n)

no_pending : {b : Batch} → IsValid b → b.inflight ≡ 0 → (c : ℕ) → pending c b ≡ 0
no_pending {b} v none_left c = omega (arith, pending-le c b.entries b.used, v.counted)

module _ {S : Type 0} (be : Backend S) {nr : ℕ} (small : nr < 2 ^ 32) where
  submit-Balanced :
      {b b' : Batch} {ps : List IoParams} {evs : List IoEvent} (qs : List IoParams) (s s' : S)
      → Balanced nr b ps evs
      → opends_batch_submit be s (some b) (some qs) ≡ (opends_ok, some b', s')
      → Balanced nr b' (ps ++ qs) evs
  submit-Balanced {b} {b'} {ps} {evs} qs s s' x h =
      elim (dec_lt b.capacity (b.inflight + length qs)) [
        | yes over ↦ let refused = (submit_lem be s qs x.valid).0 over in cc (refused, h)
        | no fits ↦
            let (b₁, s₁, e, g) = (submit_lem be s qs x.valid).1 (omega arith) in
            let same : b₁ ≡ b' = cc (e, h) in
            subst (λ t. Balanced nr t (ps ++ qs) evs) same (Grown-Balanced qs x g)
      ]

  set_up-Balanced :
      {b : Batch} {e : Error}
      → opends_batch_setup true true nr true ≡ (e, some b)
      → Balanced nr b [] []
  unfolding reported
  set_up-Balanced {b} h =
      let (v, i, c) = setup-IsValid true true true nr small h in
      record {
        valid = v;
        capacity = c;
        counted = omega (arith, i);
        each = λ c. ground (arith, no_pending v i c);
      }

  cancel-Balanced :
      {b b' : Batch} {ps : List IoParams} {evs : List IoEvent} (s s' : S)
      → Balanced nr b ps evs
      → opends_batch_cancel be s (some b) ≡ (opends_ok, some b', s')
      → Balanced nr b' ps evs
  cancel-Balanced {b} {b'} {ps} {evs} s s' x h =
      let (b₁, s₁, e, v, (i, room), p, later) = cancel_lem be s x.valid in
      let same : b₁ ≡ b' = cc (e, h) in
      subst (λ t. Balanced nr t ps evs) same
        (record {
          valid = v;
          capacity = room ∙ x.capacity;
          counted = omega (arith, x.counted, i);
          each = λ c. omega (arith, x.each c, p c);
        })

  -- After any calls and completions the batch is valid, and for every cookie the operations that
  -- were submitted with it are those whose completion was reported and those still in flight: no
  -- completion is lost or reported twice.
  pub exactly_once :
      {b : Batch} {ps : List IoParams} {evs : List IoEvent}
      → Reach be nr b ps evs
      → Balanced nr b ps evs
  exactly_once (set_up h) = set_up-Balanced h
  exactly_once (submit qs s s' r h) = submit-Balanced qs s s' (exactly_once r) h
  exactly_once (complete cs r) =
      let x = exactly_once r in
      let (v, same) = settle-IsValid cs x.valid in
      record {
        valid = v;
        capacity = x.capacity;
        counted = x.counted;
        each = λ c. omega (arith, x.each c, same c);
      }
  exactly_once (poll min_nr room timeout start ms r le le' h) =
      Polled-Balanced _ (exactly_once r)
        (get_status_lem min_nr room timeout start ms (exactly_once r).valid le le' h).1
  exactly_once (cancel s s' r h) = cancel-Balanced s s' (exactly_once r) h
