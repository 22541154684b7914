-- ===== src/DirectIo/Loop.antt =====
-- The writing loop of `opends_direct_pwrite` (src/opends_common.c).
use mathlib.Core.Path.{subst}
use opends_fork.Prelude.{
  ℕ, zero, suc, ◌+◌, ◌-◌, ◌≤◌, ◌<◌, ◌≡◌, ◌≢◌, inl, inr, ap, ◌∙◌, none, some, arith, ltb, ltb→lt,
  ◌==◌, ==_iff, if◌then◌else◌, Bool-cases, max,
}
use opends_fork.Prelude.Int.{pos}
use opends_fork.DirectIo.Os.{
  Buffer, Sys, fail, eintr, Kernel, SameFile, WriteOk, splice, Laws, Sys-cases,
}
use opends_fork.DirectIo.{write_loop}

-- The file after `done` bytes of the bounce buffer were written at `start`.
pub record Written {K : Type 0} (os : Kernel K) (k₀ : K) (bounce : Buffer) (start done : ℕ) (k : K)
    : Type 0 where
  pub bytes : (j : ℕ) → os.byte k j ≡ splice (os.byte k₀) start done bounce j
  pub size :
      os.size_of k ≡ (if done == 0 then os.size_of k₀ else max (os.size_of k₀) (start + done))

module _ {K : Type 0} {os : Kernel K} (laws : Laws os) (k₀ : K) (bounce : Buffer)
    (start span : ℕ) where
  Written-same :
      {done : ℕ} {k k' : K}
      → Written os k₀ bounce start done k
      → SameFile os k k'
      → Written os k₀ bounce start done k'
  Written-same w same = record { bytes = λ j. same.bytes j ∙ w.bytes j; size = same.size ∙ w.size }

  Written-more :
      {k k' : K} (done n m : ℕ)
      → Written os k₀ bounce start done k
      → WriteOk os k (λ i. bounce (done + i)) m (start + done) (suc n) k'
      → Written os k₀ bounce start (done + suc n) k'
  Written-more {k} done n m w ok = record {
    bytes = λ j. ground (arith, ok.bytes j, w.bytes j);
    size = ground (arith, ok.size, w.size);
  }

  -- The system call that the loop makes with `done` bytes written.
  abbrev call : K → ℕ → Sys × K
  call k done = os.pwrite k (λ i. bounce (done + i)) (span - done) (start + done)

  -- When the loop reports success the whole span was written.
  pub write_loop-Written :
      (fuel : ℕ) (k : K) (done n : ℕ) {k' : K}
      → write_loop os fuel k bounce start span done ≡ some (pos n, k')
      → done ≤ span
      → Written os k₀ bounce start done k
      → Written os k₀ bounce start span k' × (n ≡ 0)
  unfolding write_loop
  write_loop-Written zero k done n h le w = absurd (cc)
  write_loop-Written (suc fuel) k done n {k'} h le w = elim (Bool-cases (ltb done span)) [
    | inr finished ↦
        let e : done ≡ span = ground arith in
        let ek : k ≡ k' = ground arith in
        (
          subst (λ d. Written os k₀ bounce start d k') e
              (subst (Written os k₀ bounce start done) ek w),
          ground arith,
        )
    | inl more ↦ elim (Sys-cases (call k done).0) [
      | inl (e, e') ↦ elim (Bool-cases (e == eintr)) [
        | inr stop ↦
            ground
              (arith, laws.pwrite_errno k (λ i. bounce (done + i)) (span - done) (start + done) e)
        | inl again ↦ write_loop-Written fuel (call k done).1 done n {k' = k'} (ground arith) le (
            Written-same w
              (laws.pwrite_failed k (λ i. bounce (done + i)) (span - done) (start + done) e e'))
      ]
      | inr (zero, e') ↦ ground arith
      | inr (suc m, e') ↦
          let ok =
            laws.pwrite_ok k (λ i. bounce (done + i)) (span - done) (start + done) (suc m) e' in
          write_loop-Written fuel (call k done).1 (done + suc m) n {k' = k'} (ground arith)
            (omega (arith, ok.at_most, ltb→lt done span more))
            (Written-more done m (span - done) w ok)
    ]
  ]

  -- The loop ends: fuel for the bytes left and for the interrupts to come is enough.
  pub write_loop_total :
      (fuel : ℕ) (k : K) (done : ℕ)
      → span - done + os.patience k < fuel
      → write_loop os fuel k bounce start span done ≢ none
  unfolding write_loop
  write_loop_total zero k done lt h = absurd (omega arith)
  write_loop_total (suc fuel) k done lt h = elim (Bool-cases (ltb done span)) [
    | inr finished ↦ ground arith
    | inl more ↦ elim (Sys-cases (call k done).0) [
      | inl (e, e') ↦ elim (Bool-cases (e == eintr)) [
        | inr stop ↦ ground arith
        | inl again ↦
            let same : e ≡ eintr = (==_iff e eintr).0 again in
            let calmer =
              laws.pwrite_interrupted k (λ i. bounce (done + i)) (span - done) (start + done)
                (e' ∙ ap fail same) in
            write_loop_total fuel (call k done).1 done (omega (arith, calmer)) (ground arith)
      ]
      | inr (zero, e') ↦ ground arith
      | inr (suc m, e') ↦
          let ok =
            laws.pwrite_ok k (λ i. bounce (done + i)) (span - done) (start + done) (suc m) e' in
          write_loop_total fuel (call k done).1 (done + suc m)
            (omega (arith, ok.calmer, ltb→lt done span more)) (ground arith)
    ]
  ]
