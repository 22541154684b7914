-- ===== src/StreamMap/Probe.antt =====
-- What one run of a probe loop of src/ds_stream_map.h finds.
use opends_fork.Prelude.{
  ℕ, zero, suc, ◌+◌, ◌≤◌, ◌<◌, ◌≡◌, ◌≢◌, inl, inr, refl, none, some, arith, ◌==◌, ==_iff,
  Bool-cases, set,
}
use opends_fork.Prelude.Int.{ℤ, negsuc}
use opends_fork.StreamMap.{Table, at, slot, get_loop, put_loop}

module _ (seen : ℕ → Table) (mask stream h : ℕ) where
  -- The key that the reader loads at probe `p`.
  abbrev pub key_at : ℕ → ℕ
  key_at p = (at (seen p) (slot h mask p)).key

  -- Up to probe `p` the reader neither finds its key nor stops.
  abbrev pub Passes : ℕ → Type 0
  Passes p = (q : ℕ) → q < p → (key_at q ≢ stream) × (key_at q ≢ 0)

  -- A reader that passes the probes before `d`, and there finds its key, returns that entry's index.
  get_loop-found :
      (n p d : ℕ)
      → ((q : ℕ) → p ≤ q → q < d → (key_at q ≢ stream) × (key_at q ≢ 0))
      → p ≤ d
      → d < p + n
      → key_at d ≡ stream
      → get_loop seen mask stream h n p ≡ (at (seen d) (slot h mask d)).idx
  unfolding get_loop
  get_loop-found zero p d pass lo hi hit = absurd (omega arith)
  get_loop-found (suc n) p d pass lo hi hit = elim (Bool-cases (p == d)) [
    | inl same ↦ let e : p ≡ d = (==_iff p d).0 same in rw e (ground arith)
    | inr other ↦ ground (
      arith,
      pass p (omega arith),
      get_loop-found n (p + 1) d (λ q a b. pass q (omega arith) b) (ground arith) (omega arith) hit,
    )
  ]

  -- A reader that meets its key at no probe returns -1.
  get_loop-absent :
      (n p : ℕ) → ((q : ℕ) → key_at q ≢ stream) → get_loop seen mask stream h n p ≡ negsuc 0
  unfolding get_loop
  get_loop-absent zero p none_there = refl
  get_loop-absent (suc n) p none_there =
      ground (arith, none_there p, get_loop-absent n (p + 1) none_there)

  pub get_seen-found :
      (n d : ℕ)
      → Passes d
      → d < n
      → key_at d ≡ stream
      → get_loop seen mask stream h n 0 ≡ (at (seen d) (slot h mask d)).idx
  get_seen-found n d pass lt hit =
      get_loop-found n 0 d (λ q a b. pass q b) (omega arith) (omega arith) hit

  pub get_seen-absent :
      (n : ℕ) → ((q : ℕ) → key_at q ≢ stream) → get_loop seen mask stream h n 0 ≡ negsuc 0
  get_seen-absent n = get_loop-absent n 0

module _ (t : Table) (mask stream : ℕ) (idx : ℤ) (h : ℕ) where
  -- The table with the entry written at probe `d`.
  abbrev pub written : ℕ → Table
  written d = set t (slot h mask d) (record { key = stream; idx = idx })

  -- Where the writer stops: the first empty slot of its probe sequence.
  abbrev pub Stops : ℕ → ℕ → Type 0
  Stops p d =
      ((at t (slot h mask d)).key ≡ 0) × ((q : ℕ) → p ≤ q → q < d → (at t (slot h mask q)).key ≢ 0)

  put_loop-some :
      (n p : ℕ) {t' : Table}
      → put_loop t mask stream idx h n p ≡ some t'
      → (d : ℕ) × (p ≤ d) × (d < p + n) × Stops p d × (t' ≡ written d)
  unfolding put_loop
  put_loop-some zero p e = cc
  put_loop-some (suc n) p {t'} e = elim (Bool-cases ((at t (slot h mask p)).key == 0)) [
    | inl here ↦ (
      p,
      omega arith,
      omega arith,
      ((==_iff _ 0).0 here, λ q a b. absurd (omega arith)),
      ground arith,
    )
    | inr there ↦
        let (d, lo, hi, (stop, before), w) = put_loop-some n (p + 1) {t' = t'} (ground arith) in
        (
          d,
          omega arith,
          omega arith,
          (
            stop,
            λ q a b. elim (Bool-cases (p == q)) [
              | inl same ↦ let s : p ≡ q = (==_iff p q).0 same in rw (← s) (ground arith)
              | inr other ↦ before q (ground arith) b
            ],
          ),
          w,
        )
  ]

  -- With an empty slot among the probes the writer does not fail.
  put_loop_total :
      (n p d : ℕ)
      → p ≤ d
      → d < p + n
      → (at t (slot h mask d)).key ≡ 0
      → put_loop t mask stream idx h n p ≢ none
  unfolding put_loop
  put_loop_total zero p d lo hi empty = absurd (omega arith)
  put_loop_total (suc n) p d lo hi empty = elim (Bool-cases (p == d)) [
    | inl same ↦ let e : p ≡ d = (==_iff p d).0 same in rw e (ground arith)
    | inr other ↦ ground (arith, put_loop_total n (p + 1) d)
  ]

  pub put-Stops :
      (n : ℕ) {t' : Table}
      → put_loop t mask stream idx h n 0 ≡ some t'
      → (d : ℕ) × (d < n) × Stops 0 d × (t' ≡ written d)
  put-Stops n {t'} e =
      let (d, lo, hi, s, w) = put_loop-some n 0 {t' = t'} e in (d, omega arith, s, w)

  pub put-total :
      (n d : ℕ) → d < n → (at t (slot h mask d)).key ≡ 0 → put_loop t mask stream idx h n 0 ≢ none
  put-total n d lt empty = put_loop_total n 0 d (omega arith) (omega arith) empty
