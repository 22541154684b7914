-- ===== src/Driver/Cpus.antt =====
-- `mask_nth_cpu` of src/opends_aisio.c, which spreads the I/O threads over a mask of processors.
use opends_fork.Prelude.{
  ℕ, zero, suc, ◌+◌, ◌-◌, ◌/◌, ◌^◌, ◌%◌, ◌≤◌, ◌<◌, ◌≡◌, ap, ◌∙◌, Bool, true, ◌&&◌, ◌==◌,
  if◌then◌else◌, arith, Bool-cases, inl, inr,
}
use mathlib.Core.Path.{subst}
use opends_fork.Prelude.Int.{ℤ, pos, negsuc}

-- `(mask >> cpu) & 1`
unfoldable pub has_cpu : ℕ → ℕ → Bool
has_cpu mask cpu = mask / 2 ^ cpu % 2 == 1

-- The loop from `cpu` on, with the processors left to look at: the `n`-th of the mask, or -1.
unfoldable pub nth_loop : ℕ → ℕ → ℕ → ℕ → ℤ
nth_loop mask zero cpu n = negsuc 0
nth_loop mask (suc left) cpu n =
    let next = nth_loop mask left (cpu + 1) (if has_cpu mask cpu then n - 1 else n) in
    if has_cpu mask cpu && n == 0 then pos cpu else next

unfoldable pub mask_nth_cpu : ℕ → ℕ → ℤ
unfolding nth_loop
mask_nth_cpu mask n = nth_loop mask 64 0 n

-- The processors of the mask from `cpu` on, among the next `left`: `__builtin_popcountll` counts
-- them among all 64.
unfoldable pub cpus_from : ℕ → ℕ → ℕ → ℕ
cpus_from mask zero cpu = 0
cpus_from mask (suc left) cpu = (if has_cpu mask cpu then 1 else 0) + cpus_from mask left (cpu + 1)

unfoldable pub popcount : ℕ → ℕ
unfolding cpus_from
popcount mask = cpus_from mask 64 0

-- The `n`-th processor of the mask among `left` from `cpu` on.
pub record IsNth (mask left cpu n found : ℕ) : Type 0 where
  pub from : cpu ≤ found
  pub below : found < cpu + left
  pub set : has_cpu mask found ≡ true
  pub rank : cpus_from mask (found - cpu) cpu ≡ n

here : (mask left cpu : ℕ) → has_cpu mask cpu ≡ true → IsNth mask (suc left) cpu 0 cpu
unfolding cpus_from
here mask left cpu on = record {
  from = omega arith;
  below = omega arith;
  set = on;
  rank = (let z : cpu - cpu ≡ 0 = omega arith in ap (λ k. cpus_from mask k cpu) z);
}

later :
    (mask left cpu n n' found : ℕ)
    → IsNth mask left (cpu + 1) n' found
    → n ≡ (if has_cpu mask cpu then 1 else 0) + n'
    → IsNth mask (suc left) cpu n found
unfolding cpus_from
later mask left cpu n n' found i e =
    let f = i.from in
    let b = i.below in
    let s : found - cpu ≡ suc (found - (cpu + 1)) = omega arith in
    record {
      from = omega arith;
      below = omega arith;
      set = i.set;
      rank = ap (λ k. cpus_from mask k cpu) s ∙ (let r = i.rank in ground arith);
    }

nth_loop-IsNth :
    (mask left cpu n : ℕ)
    → n < cpus_from mask left cpu
    → (found : ℕ) × (nth_loop mask left cpu n ≡ pos found) × IsNth mask left cpu n found
unfolding nth_loop cpus_from
nth_loop-IsNth mask zero cpu n lt = absurd (omega arith)
nth_loop-IsNth mask (suc left) cpu n lt = elim (Bool-cases (has_cpu mask cpu)) [
  | inr off ↦
      (let (found, run, i) = nth_loop-IsNth mask left (cpu + 1) n (ground arith) in
        (found, ground arith, later mask left cpu n n found i (ground arith)))
  | inl on ↦ elim (Bool-cases (n == 0)) [
    | inl first ↦ (
      cpu,
      ground arith,
      subst (λ (k : ℕ). IsNth mask (suc left) cpu k cpu) (ground arith) (here mask left cpu on),
    )
    | inr more ↦
        (let (found, run, i) = nth_loop-IsNth mask left (cpu + 1) (n - 1) (ground arith) in
          (found, ground arith, later mask left cpu n (n - 1) found i (ground arith)))
  ]
]

-- For every `n` below the number of processors in a mask, `mask_nth_cpu` finds one of the 64
-- processors that is in the mask and has exactly `n` of the mask below it.
pub mask_nth_cpu_lem :
    (mask n : ℕ)
    → n < popcount mask
    → (cpu : ℕ) × (mask_nth_cpu mask n ≡ pos cpu) × IsNth mask 64 0 n cpu
unfolding mask_nth_cpu popcount
mask_nth_cpu_lem mask n lt = nth_loop-IsNth mask 64 0 n lt
