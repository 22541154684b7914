-- ===== src/Batch/Wait.antt =====
-- The waiting loop of `opends_batch_get_status` (src/opends_batch_async.c) and the completions that
-- arrive during it.
use opends_fork.Prelude.{
  ℕ, ◌≤◌, ◌<◌, ◌≡◌, ◌⊎◌, inl, inr, refl, ◌∙◌, true, ◌||◌, Option, some, List, [], ◌∷◌, arith, ltb,
  leb, length, length-set, get_or-set, Bool-cases,
}
use mathlib.Core.Path.{subst}
use opends_fork.Prelude.Int.{ℤ}
use opends_fork.Async.{Future}
use opends_fork.Batch.{Entry, zero_entry}
use opends_fork.Batch.Poll.{finish, finish_all, Moment, wait_loop, count_ready, Timespec, is_late}
use opends_fork.Batch.Sums.{at, total, total-set}

-- A measure of a slot that does not look at its future.
abbrev pub IsSteady : (Entry → ℕ) → Type 0
IsSteady w = (e : Entry) (f : Future) → w (record e { future = f }) ≡ w e

-- What completions leave alone: the number of slots, the measures above, and unused slots.
pub record Settles (used : ℕ) (es es' : List Entry) : Type 0 where
  pub same_length : length es' ≡ length es
  pub same_total : (w : Entry → ℕ) → IsSteady w → total w es' used ≡ total w es used
  pub same_unused : (i : ℕ) → used ≤ i → at es' i ≡ at es i

Settles-refl : (used : ℕ) (es : List Entry) → Settles used es es
Settles-refl used es = record {
  same_length = refl;
  same_total = λ w steady. refl;
  same_unused = λ i le. refl;
}

Settles-trans :
    {used : ℕ} {es es' es'' : List Entry}
    → Settles used es es'
    → Settles used es' es''
    → Settles used es es''
Settles-trans x y = record {
  same_length = y.same_length ∙ x.same_length;
  same_total = λ w steady. y.same_total w steady ∙ x.same_total w steady;
  same_unused = λ i le. y.same_unused i le ∙ x.same_unused i le;
}

finish-Settles :
    (used : ℕ) (es : List Entry) (c : ℕ × ℤ) → used ≤ length es → Settles used es (finish used es c)
finish-Settles used es (i, r) le = elim (Bool-cases (leb used i || (at es i).future.done)) [
  | inl skip ↦ rw skip (Settles-refl used es)
  | inr done ↦
      let lt : i < used = ground arith in
      let e' : Entry = record (at es i) { future = record { done = true; result = r } } in
      rw done (record {
        same_length = length-set es i e';
        same_total = λ w steady.
            omega (arith, total-set w es i used e' lt (omega arith), steady (at es i) e'.future);
        same_unused = λ j above. ground (arith, get_or-set es i j e' zero_entry (omega arith));
      })
]

pub finish_all-Settles :
    (used : ℕ) (cs : List (ℕ × ℤ)) (es : List Entry)
    → used ≤ length es
    → Settles used es (finish_all used es cs)
unfolding finish_all
finish_all-Settles used [] es le = Settles-refl used es
finish_all-Settles used (c ∷ cs) es le =
    let x = finish-Settles used es c le in
    Settles-trans x (finish_all-Settles used cs (finish used es c) (omega (arith, x.same_length)))

-- The wait ends with enough completions or after the deadline.
abbrev pub Enough : Option Timespec → ℕ → ℕ → List Entry → Type 0
Enough deadline min_nr used es =
    (min_nr ≤ count_ready es used) ⊎ ((now : Timespec) × (is_late deadline now ≡ true))

Settles-of_eq : (used : ℕ) {es es' : List Entry} → es ≡ es' → Settles used es es'
Settles-of_eq used {es} e = subst (λ x. Settles used es x) e (Settles-refl used es)

pub wait_loop-Settles :
    (deadline : Option Timespec) (min_nr used : ℕ) (ms : List Moment) (es : List Entry)
    {es' : List Entry}
    → used ≤ length es
    → wait_loop deadline min_nr used ms es ≡ some es'
    → Settles used es es' × Enough deadline min_nr used es'
unfolding wait_loop
wait_loop-Settles deadline min_nr used [] es {es'} le h =
    let e : es ≡ es' = ground arith in (Settles-of_eq used e, ground arith)
wait_loop-Settles deadline min_nr used (m ∷ ms) es {es'} le h =
    elim (Bool-cases (ltb (count_ready es used) min_nr)) [
      | inr enough ↦ let e : es ≡ es' = ground arith in (Settles-of_eq used e, ground arith)
      | inl few ↦ elim (Bool-cases (is_late deadline m.now)) [
        | inl late ↦ let e : es ≡ es' = ground arith in (Settles-of_eq used e, inr (m.now, late))
        | inr early ↦
            let x = finish_all-Settles used m.finished es le in
            let (y, z) =
              wait_loop-Settles deadline min_nr used ms (finish_all used es m.finished) {es' = es'}
                (omega (arith, x.same_length)) (ground arith) in
            (Settles-trans x y, z)
      ]
    ]
