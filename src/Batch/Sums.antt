-- ===== src/Batch/Sums.antt =====
-- Sums over the slots in use of a batch (src/opends_batch_async.c): how many are undelivered, and
-- how many undelivered operations carry a given cookie.
use opends_fork.Prelude.{
  ℕ, zero, suc, ◌+◌, ◌≤◌, ◌<◌, ◌≡◌, refl, true, none, some, List, [], ◌∷◌, arith, ◌==◌,
  if◌then◌else◌, length, get_or, set,
}
use opends_fork.Batch.{Entry, zero_entry, find_delivered}

abbrev pub at : List Entry → ℕ → Entry
at es i = get_or es i zero_entry

-- 1 for an operation whose completion is still to be delivered.
abbrev pub undelivered : Entry → ℕ
undelivered e = if e.delivered then 0 else 1

-- 1 for such an operation with the cookie `c`.
abbrev pub pending_as : ℕ → Entry → ℕ
pending_as c e = if e.delivered then 0 else if e.cookie == c then 1 else 0

-- A measure of a slot that counts only undelivered operations.
abbrev pub IsPending : (Entry → ℕ) → Type 0
IsPending w = (e : Entry) → e.delivered ≡ true → w e ≡ 0

module _ (w : Entry → ℕ) where
  -- The sum over the first `n` slots.
  unfoldable pub total : List Entry → ℕ → ℕ
  total es zero = 0
  total [] (suc n) = 0
  total (e ∷ es) (suc n) = w e + total es n

  pub total-set :
      (es : List Entry) (i n : ℕ) (e : Entry)
      → i < n
      → i < length es
      → total (set es i e) n + w (at es i) ≡ total es n + w e
  unfolding total
  total-set [] i n e lt len = absurd (omega arith)
  total-set (x ∷ es) i zero e lt len = absurd (omega arith)
  total-set (x ∷ es) zero (suc n) e lt len = omega arith
  total-set (x ∷ es) (suc i) (suc n) e lt len =
      omega (arith, total-set es i n e (omega arith) (omega arith))

  pub total-set_next :
      (es : List Entry) (n : ℕ) (e : Entry)
      → n < length es
      → total (set es n e) (suc n) ≡ total es n + w e
  unfolding total
  total-set_next [] n e len = absurd (omega arith)
  total-set_next (x ∷ es) zero e len = omega arith
  total-set_next (x ∷ es) (suc n) e len = omega (arith, total-set_next es n e (omega arith))

pub total-undelivered-le : (es : List Entry) (n : ℕ) → total undelivered es n ≤ n
unfolding total
total-undelivered-le es zero = omega arith
total-undelivered-le [] (suc n) = omega arith
total-undelivered-le (e ∷ es) (suc n) = ground (arith, total-undelivered-le es n)

-- What `entry_take` searches for: a slot in use that was delivered.
pub find_delivered-some :
    (es : List Entry) (n i : ℕ)
    → find_delivered es n ≡ some i
    → (i < n) × (i < length es) × ((at es i).delivered ≡ true)
unfolding find_delivered
find_delivered-some es zero i h = absurd (cc)
find_delivered-some [] (suc n) i h = absurd (cc)
find_delivered-some (e ∷ es) (suc n) zero h = ground arith
find_delivered-some (e ∷ es) (suc n) (suc i) h = ground (arith, find_delivered-some es n i)

pub find_delivered-none :
    (es : List Entry) (n : ℕ)
    → n ≤ length es
    → find_delivered es n ≡ none
    → total undelivered es n ≡ n
unfolding find_delivered total
find_delivered-none es zero le h = refl
find_delivered-none [] (suc n) le h = absurd (omega arith)
find_delivered-none (e ∷ es) (suc n) le h = ground (arith, find_delivered-none es n)
