-- ===== src/Batch/Slots.antt =====
-- The slot that a submission takes (src/opends_batch_async.c: `entry_take`, `opends_batch_submit`).
use opends_fork.Prelude.{
  ℕ, suc, ◌+◌, ◌^◌, ◌≤◌, ◌<◌, ◌≡◌, refl, ap, ◌∙◌, none, some, arith, length, set, length-set,
  get_or-set, set-set, inl, inr, Option-cases,
}
use opends_fork.Batch.{Entry, zero_entry, Batch, inc32, find_delivered, entry_take}
use opends_fork.Batch.Sums.{
  at, undelivered, IsPending, total, total-set, total-set_next, find_delivered-some,
  find_delivered-none,
}

-- The batch between calls: the slots are there, the counters agree with them, and no slot was
-- touched before its use.
pub record IsValid (b : Batch) : Type 0 where
  pub room : length b.entries ≡ b.capacity
  pub small : b.capacity < 2 ^ 32
  pub in_use : b.used ≤ b.capacity
  pub counted : b.inflight ≡ total undelivered b.entries b.used
  pub fresh : (i : ℕ) → b.used ≤ i → at b.entries i ≡ zero_entry

-- What `entry_take` hands out to a batch with a free slot.
pub record Taken (b : Batch) (i : ℕ) (b' : Batch) : Type 0 where
  pub in_bounds : i < b.capacity
  pub zeroed : at b'.entries i ≡ zero_entry
  pub same_room : length b'.entries ≡ b.capacity
  pub same_capacity : b'.capacity ≡ b.capacity
  pub same_inflight : b'.inflight ≡ b.inflight
  pub used_le : (b.used ≤ b'.used) × (b'.used ≤ b.capacity) × (i < b'.used)
  pub stored :
      (w : Entry → ℕ)
      → IsPending w
      → (e : Entry) → total w (set b'.entries i e) b'.used ≡ total w b.entries b.used + w e
  pub fresh : (j : ℕ) → b'.used ≤ j → (e : Entry) → at (set b'.entries i e) j ≡ zero_entry

module _ {b : Batch} (v : IsValid b) (free : b.inflight < b.capacity) where
  -- A delivered slot is zeroed and used again.
  Taken-again :
      (i : ℕ)
      → find_delivered b.entries b.used ≡ some i
      → Taken b i (record b { entries = set b.entries i zero_entry })
  Taken-again i e =
      let (lt, len, done) = find_delivered-some b.entries b.used i e in
      record {
        in_bounds = omega (arith, v.room);
        zeroed = ground (arith, get_or-set b.entries i i zero_entry zero_entry len);
        same_room = length-set b.entries i zero_entry ∙ v.room;
        same_capacity = refl;
        same_inflight = refl;
        used_le = (omega arith, v.in_use, lt);
        stored = λ w pending e.
            rw (set-set b.entries i zero_entry e) (
              omega
                (arith, total-set w b.entries i b.used e lt len, pending (at b.entries i) done));
        fresh = λ j le e.
            rw (set-set b.entries i zero_entry e)
              (ground (arith, get_or-set b.entries i j e zero_entry len, v.fresh j));
      }

  -- With no delivered slot every slot in use is undelivered, so that the next one is in bounds.
  Taken-next :
      find_delivered b.entries b.used ≡ none → Taken b b.used (record b { used = inc32 b.used })
  Taken-next e =
      let full = find_delivered-none b.entries b.used (omega (arith, v.room, v.in_use)) e in
      let lt : b.used < b.capacity = omega (arith, v.counted) in
      let next : inc32 b.used ≡ suc b.used = omega (arith, v.small) in
      record {
        in_bounds = lt;
        zeroed = v.fresh b.used (omega arith);
        same_room = v.room;
        same_capacity = refl;
        same_inflight = refl;
        used_le = (omega arith, omega arith, omega arith);
        stored = λ w pending e.
            ap (total w (set b.entries b.used e)) next
            ∙ total-set_next w b.entries b.used e (omega (arith, v.room));
        fresh = λ j le e.
            ground (
              arith,
              get_or-set b.entries b.used j e zero_entry (omega (arith, v.room)),
              v.fresh j,
            );
      }

  pub entry_take-Taken : let (i, b') = entry_take b in Taken b i b'
  unfolding entry_take
  entry_take-Taken = elim (Option-cases (find_delivered b.entries b.used)) [
    | inl e ↦ rw (e, entry_take) (Taken-next e)
    | inr (i, e) ↦ rw (e, entry_take) (Taken-again i e)
  ]
