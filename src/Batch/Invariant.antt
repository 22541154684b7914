-- ===== src/Batch/Invariant.antt =====
-- `opends_batch_setup` and `opends_batch_submit` of src/opends_batch_async.c keep the invariant of
-- `Slots`, and account for every operation.
use opends_fork.Prelude.{
  ℕ, ◌+◌, ◌-◌, ◌^◌, ◌≤◌, ◌<◌, ◌≡◌, refl, sym, ap, ◌∙◌, Bool, false, some, List, [], ◌∷◌, arith,
  lt→ltb, not_ltb, replicate, ◌==◌, if◌then◌else◌, length, set, length-set, length-replicate,
  get_or-replicate,
}
use opends_fork.Errors.{Error, opends_ok, opends_err, batch_full}
use opends_fork.Async.{Backend}
use opends_fork.Batch.{
  Entry, zero_entry, Batch, inc32, sub32, IoParams, submit_one, submit_loop, opends_batch_setup,
  opends_batch_submit,
}
use opends_fork.Batch.Sums.{undelivered, pending_as, total, total-undelivered-le}
use opends_fork.Batch.Slots.{IsValid, Taken, entry_take-Taken}

-- The undelivered operations with the cookie `c`.
abbrev pub pending : ℕ → Batch → ℕ
pending c b = total (pending_as c) b.entries b.used

-- How often the cookie `c` is among the submitted operations.
abbrev pub submitted : ℕ → List IoParams → ℕ
submitted c [] = 0
submitted c (p ∷ ps) = (if p.cookie == c then 1 else 0) + submitted c ps

-- What `n` further operations, `count c` of them with the cookie `c`, make of a batch.
pub record Grown (b : Batch) (n : ℕ) (count : ℕ → ℕ) (b' : Batch) : Type 0 where
  pub valid : IsValid b'
  pub inflight : b'.inflight ≡ b.inflight + n
  pub capacity : b'.capacity ≡ b.capacity
  pub accounted : (c : ℕ) → pending c b' ≡ pending c b + count c

fresh-IsValid :
    (nr : ℕ)
    → nr < 2 ^ 32
    → IsValid (record { entries = replicate nr zero_entry; used = 0; inflight = 0; capacity = nr })
unfolding total
fresh-IsValid nr small = record {
  room = length-replicate nr zero_entry;
  small = small;
  in_use = omega arith;
  counted = refl;
  fresh = λ i le. get_or-replicate nr i zero_entry;
}

-- A new batch is valid, empty, and holds `nr` operations.
pub setup-IsValid :
    (out calloc_batch calloc_entries : Bool) (nr : ℕ) {b : Batch} {e : Error}
    → nr < 2 ^ 32
    → opends_batch_setup out calloc_batch nr calloc_entries ≡ (e, some b)
    → IsValid b × (b.inflight ≡ 0) × (b.capacity ≡ nr)
unfolding opends_batch_setup
setup-IsValid out calloc_batch calloc_entries nr {b} small h =
    ground (arith, length-replicate nr zero_entry, fresh-IsValid nr small)

-- An operation is stored in the slot that was taken.
store-Grown :
    {b b' : Batch} {i : ℕ}
    → IsValid b
    → b.inflight < b.capacity
    → Taken b i b'
    → (e : Entry) → e.delivered ≡ false
    → Grown b 1
        (λ c. if e.cookie == c then 1 else 0)
        (record b' { entries = set b'.entries i e; inflight = inc32 b'.inflight })
store-Grown {b} {b'} {i} v free t e live = record {
  valid = record {
    room = length-set b'.entries i e ∙ t.same_room ∙ sym t.same_capacity;
    small = omega (arith, v.small, t.same_capacity);
    in_use = omega (arith, t.used_le, t.same_capacity);
    counted = ground (arith, grows, t.stored undelivered (λ x d. rw d) e, v.counted);
    fresh = λ j le. t.fresh j le e;
  };
  inflight = grows;
  capacity = t.same_capacity;
  accounted = λ c. ground (arith, t.stored (pending_as c) (λ x d. rw d) e);
}
  where
    grows : inc32 b'.inflight ≡ b.inflight + 1
    grows = omega (arith, t.same_inflight, v.small)

Grown-trans :
    {a b d : Batch} {k m n : ℕ} (f g : ℕ → ℕ)
    → k ≡ m + n
    → Grown a m f b
    → Grown b n g d
    → Grown a k (λ c. f c + g c) d
Grown-trans f g e x y = record {
  valid = y.valid;
  inflight = omega (arith, x.inflight, y.inflight);
  capacity = y.capacity ∙ x.capacity;
  accounted = λ c. omega (arith, x.accounted c, y.accounted c);
}

module _ {S : Type 0} (be : Backend S) where
  submit_one-Grown :
      {b : Batch} (s : S) (p : IoParams)
      → IsValid b
      → b.inflight < b.capacity
      → Grown b 1 (λ c. if p.cookie == c then 1 else 0) (submit_one be s b p).0
  unfolding submit_one
  submit_one-Grown {b} s p v free =
      let t = entry_take-Taken v free in store-Grown v free t _ (ap (λ x. x.delivered) t.zeroed)

  submit_loop-Grown :
      (ps : List IoParams) {b : Batch} (s : S)
      → IsValid b
      → b.inflight + length ps ≤ b.capacity
      → Grown b (length ps) (λ c. submitted c ps) (submit_loop be s b ps).0
  unfolding submit_loop
  submit_loop-Grown [] {b} s v fits = record {
    valid = v;
    inflight = omega arith;
    capacity = refl;
    accounted = λ c. omega arith;
  }
  submit_loop-Grown (p ∷ ps) {b} s v fits =
      let (b', s') = submit_one be s b p in
      let g : Grown b 1 (λ c. if p.cookie == c then 1 else 0) b' =
        submit_one-Grown s p v (omega arith) in
      let r = submit_loop-Grown ps {b = b'} s' g.valid (omega (arith, g.inflight, g.capacity)) in
      Grown-trans (λ c. if p.cookie == c then 1 else 0) (λ c. submitted c ps) (omega arith) g r

  -- A submit of more operations than there are free slots reports OPENDS_BATCH_FULL and changes
  -- nothing; any other is accepted, keeps the invariant, and adds exactly its operations to those
  -- in flight, cookie by cookie.
  pub submit_lem :
      {b : Batch} (s : S) (ps : List IoParams)
      → IsValid b
      → (b.capacity < b.inflight + length ps
          → opends_batch_submit be s (some b) (some ps) ≡ (opends_err batch_full, some b, s))
        × (b.inflight + length ps ≤ b.capacity
            → (b' : Batch) × (s' : S) × (opends_batch_submit be s (some b) (some ps)
                ≡ (opends_ok, some b', s'))
              × Grown b (length ps) (λ c. submitted c ps) b')
  unfolding opends_batch_submit
  submit_lem {b} s ps v =
      let le : b.inflight ≤ b.capacity =
        omega (arith, v.counted, total-undelivered-le b.entries b.used, v.in_use) in
      let room : sub32 b.capacity b.inflight ≡ b.capacity - b.inflight =
        omega (arith, v.small, le) in
      (
        λ over. rw room (rw (lt→ltb (b.capacity - b.inflight) (length ps) (omega arith))),
        λ fits. (
          (submit_loop be s b ps).0,
          (submit_loop be s b ps).1,
          rw room (rw (not_ltb (b.capacity - b.inflight) (length ps) (omega arith))),
          submit_loop-Grown ps s v fits,
        ),
      )
