-- ===== src/DirectIo/Read.antt =====
-- `opends_direct_pread` of src/opends_common.c reads exactly what the file holds.
use mathlib.Core.Path.{subst}
use opends_fork.Prelude.{
  ℕ, zero, suc, ◌+◌, ◌-◌, ◌^◌, ◌≤◌, ◌<◌, ◌≡◌, ◌≢◌, ◌⊎◌, inl, inr, refl, ap, ◌∙◌, Option, none, some,
  arith, ltb, ltb→lt, ◌==◌, ==_iff, if◌then◌else◌, Bool-cases, Option-cases, min,
}
use opends_fork.Prelude.Int.{pos}
use opends_fork.DirectIo.Os.{
  Buffer, Sys, count, fail, eintr, Kernel, SameFile, ReadOk, splice, Laws, Sys-cases,
}
use opends_fork.DirectIo.{align_down, span_of, read_loop, opends_direct_pread}
use opends_fork.DirectIo.Block.{SameFile-refl, SameFile-trans}

-- The bounce buffer with `got` bytes of the file from `start`.
record Got {K : Type 0} (os : Kernel K) (k₀ : K) (start span : ℕ) (bounce : Buffer) (got : ℕ)
    (k : K) : Type 0 where
  at_most : got ≤ span
  contents : (i : ℕ) → i < got → bounce i ≡ os.byte k₀ (start + i)
  in_file : 0 < got → start + got ≤ os.size_of k₀
  same : SameFile os k₀ k

module _ {K : Type 0} {os : Kernel K} (laws : Laws os) (k₀ : K) (start span : ℕ) where
  Got-more :
      {k : K} {bounce : Buffer} (got n : ℕ) {bytes : Buffer} {k' : K}
      → Got os k₀ start span bounce got k
      → ReadOk os k (span - got) (start + got) (suc n) bytes
      → SameFile os k k'
      → Got os k₀ start span (splice bounce got (suc n) bytes) (got + suc n) k'
  Got-more got n g ok same = record {
    at_most = omega (arith, ok.at_most, g.at_most);
    contents = λ i lt. ground (
      arith,
      g.contents i,
      ok.contents (i - got),
      g.same.bytes (start + got + (i - got)),
      ap (os.byte k₀) (place got i),
    );
    in_file = λ some_bytes. omega (arith, ok.in_file, g.same.size);
    same = SameFile-trans g.same same;
  }
    where
      place : (got i : ℕ) → start + got + (i - got) ≡ start + (got + (i - got))
      place got i = omega arith

  -- The loop stops with the whole span, or at the end of the file.
  read_loop-Got :
      (fuel : ℕ) (k : K) (bounce : Buffer) (got : ℕ) {x : Sys × Buffer × K}
      → read_loop os fuel k bounce start span got ≡ some x
      → Got os k₀ start span bounce got k
      → (g : ℕ) → x.0 ≡ count g
      → Got os k₀ start span x.1 g x.2 × ((g ≡ span) ⊎ (os.size_of k₀ ≤ start + g))
  unfolding read_loop
  read_loop-Got zero k bounce got h w g e = absurd (cc)
  read_loop-Got (suc fuel) k bounce got {x} h w g e = elim (Bool-cases (ltb got span)) [
    | inr finished ↦
        let whole : (count got, bounce, k) ≡ x = ground arith in
        let eg : got ≡ g = ground arith in
        (
          subst (λ (x : Sys × Buffer × K). Got os k₀ start span x.1 g x.2) whole
              (subst (λ g. Got os k₀ start span bounce g k) eg w),
          inl (ground (arith, w.at_most)),
        )
    | inl more ↦
        let call : Sys × Buffer × K = os.pread k (span - got) (start + got) in
        let same : SameFile os k call.2 = laws.pread_same k (span - got) (start + got) in
        elim (Sys-cases (os.pread k (span - got) (start + got)).0) [
          | inl (err, failed) ↦ elim (Bool-cases (err == eintr)) [
            | inr stop ↦ absurd (ground arith)
            | inl again ↦
                read_loop-Got fuel call.2 bounce got {x = x} (ground arith)
                  (record {
                    at_most = w.at_most;
                    contents = w.contents;
                    in_file = w.in_file;
                    same = SameFile-trans w.same same;
                  })
                  g e
          ]
          | inr (zero, ended) ↦
              let whole : (count got, bounce, (os.pread k (span - got) (start + got)).2) ≡ x =
                ground arith in
              let eg : got ≡ g = ground arith in
              let ok = laws.pread_ok k (span - got) (start + got) 0 ended in
              (
                subst (λ (x : Sys × Buffer × K). Got os k₀ start span x.1 g x.2) whole
                    (subst (λ g. Got os k₀ start span bounce g call.2) eg
                      (record {
                        at_most = w.at_most;
                        contents = w.contents;
                        in_file = w.in_file;
                        same = SameFile-trans w.same same;
                      })),
                inr (omega (arith, ok.at_end refl, ltb→lt got span more, w.same.size)),
              )
          | inr (suc n, got_some) ↦
              read_loop-Got fuel call.2 (splice bounce got (suc n) call.1) (got + suc n) {x = x}
                (ground arith)
                (Got-more got n w (laws.pread_ok k (span - got) (start + got) (suc n) got_some)
                  same)
                g e
        ]
  ]

  read_loop-errno :
      (fuel : ℕ) (k : K) (bounce : Buffer) (got : ℕ) {x : Sys × Buffer × K}
      → read_loop os fuel k bounce start span got ≡ some x
      → (e : ℕ) → x.0 ≡ fail e
      → e ≢ 0
  unfolding read_loop
  read_loop-errno zero k bounce got h e failed = absurd (cc)
  read_loop-errno (suc fuel) k bounce got {x} h e failed = elim (Bool-cases (ltb got span)) [
    | inr finished ↦ absurd (ground arith)
    | inl more ↦
        let call : Sys × Buffer × K = os.pread k (span - got) (start + got) in
        elim (Sys-cases (os.pread k (span - got) (start + got)).0) [
          | inl (err, e') ↦ elim (Bool-cases (err == eintr)) [
            | inr stop ↦ ground (arith, laws.pread_errno k (span - got) (start + got) err e')
            | inl again ↦ read_loop-errno fuel call.2 bounce got {x = x} (ground arith) e failed
          ]
          | inr (zero, e') ↦ absurd (ground arith)
          | inr (suc n, e') ↦
              read_loop-errno fuel call.2 (splice bounce got (suc n) call.1) (got + suc n) {x = x}
                (ground arith) e failed
        ]
  ]

  -- The loop ends: fuel for the bytes left and for the interrupts to come is enough.
  pub read_loop_total :
      (fuel : ℕ) (k : K) (bounce : Buffer) (got : ℕ)
      → span - got + os.patience k < fuel
      → read_loop os fuel k bounce start span got ≢ none
  unfolding read_loop
  read_loop_total zero k bounce got lt h = absurd (omega arith)
  read_loop_total (suc fuel) k bounce got lt h = elim (Bool-cases (ltb got span)) [
    | inr finished ↦ ground arith
    | inl more ↦
        let call : Sys × Buffer × K = os.pread k (span - got) (start + got) in
        let same : SameFile os k call.2 = laws.pread_same k (span - got) (start + got) in
        elim (Sys-cases (os.pread k (span - got) (start + got)).0) [
          | inl (e, e') ↦ elim (Bool-cases (e == eintr)) [
            | inr stop ↦ ground arith
            | inl again ↦
                let calmer =
                  laws.pread_interrupted k (span - got) (start + got)
                    (e' ∙ ap fail ((==_iff e eintr).0 again)) in
                read_loop_total fuel call.2 bounce got (omega (arith, calmer)) (ground arith)
          ]
          | inr (zero, e') ↦ ground arith
          | inr (suc n, e') ↦
              read_loop_total fuel call.2 (splice bounce got (suc n) call.1) (got + suc n)
                (omega (arith, same.calmer, ltb→lt got span more)) (ground arith)
        ]
  ]

span_covers :
    (off size : ℕ)
    → off + size < 2 ^ 63
    → (align_down off + (off - align_down off) ≡ off)
      × (off - align_down off + size ≤ span_of (off - align_down off) size)
span_covers off size small = omega arith

place : (off i : ℕ) → align_down off + (off - align_down off + i) ≡ off + i
place off i = omega arith

module _ {K : Type 0} {os : Kernel K} (laws : Laws os) where
  -- A read that returns a count leaves the file alone; the count is `size`, or less where the file
  -- ends; and the destination holds that many bytes of the file from `off`, the rest as before.
  pub pread_lem :
      (fuel : ℕ) (k : K) (alloc : Option Buffer) (dst : Buffer) (size off n : ℕ) {dst' : Buffer}
      {k' : K}
      → off + size < 2 ^ 63
      → opends_direct_pread os fuel k alloc dst size off ≡ some (pos n, dst', k')
      → (n ≡ min size (os.size_of k - off))
        × ((j : ℕ) → dst' j ≡ splice dst 0 n (λ i. os.byte k (off + i)) j)
        × SameFile os k k'
  unfolding opends_direct_pread
  pread_lem fuel k none dst size off n {dst'} {k'} small h = elim (Bool-cases (size == 0)) [
    | inr some_bytes ↦ ground arith
    | inl empty ↦
        let ed : dst ≡ dst' = ground arith in
        let ek : k ≡ k' = ground arith in
        (
          ground arith,
          λ j. ground (arith, ap (λ b. b j) ed),
          subst (SameFile os k) ek (SameFile-refl k),
        )
  ]
  pread_lem fuel k (some bounce) dst size off n {dst'} {k'} small h =
      let start = align_down off in
      let head = off - start in
      let span = span_of head size in
      elim (Bool-cases (size == 0)) [
        | inl empty ↦
            let ed : dst ≡ dst' = ground arith in
            let ek : k ≡ k' = ground arith in
            (
              ground arith,
              λ j. ground (arith, ap (λ b. b j) ed),
              subst (SameFile os k) ek (SameFile-refl k),
            )
        | inr some_bytes ↦ elim (Option-cases (read_loop os fuel k bounce start span 0)) [
          | inl stuck ↦ ground arith
          | inr (x, run) ↦ elim (Sys-cases x.0) [
            | inl (e, failed) ↦
                ground
                  (arith, read_loop-errno laws k start span fuel k bounce 0 {x = x} run e failed)
            | inr (g, counted) ↦
                let (w, enough) =
                  read_loop-Got laws k start span fuel k bounce 0 {x = x} run
                    (record {
                      at_most = omega arith;
                      contents = λ i lt. absurd (omega arith);
                      in_file = λ lt. absurd (omega arith);
                      same = SameFile-refl k;
                    })
                    g counted in
                let spans = span_covers off size small in
                elim (Bool-cases (ltb head g)) [
                  | inr short ↦
                      let ed : dst ≡ dst' = ground arith in
                      let ek : x.2 ≡ k' = ground arith in
                      (
                        ground (arith, spans, w.in_file, enough),
                        λ j. ground (arith, ap (λ b. b j) ed),
                        subst (SameFile os k) ek w.same,
                      )
                  | inl there ↦
                      let n₀ : ℕ = if ltb size (g - head) then size else g - head in
                      let en : n₀ ≡ n = ground arith in
                      let ed : splice dst 0 n₀ (λ i. x.1 (head + i)) ≡ dst' = ground arith in
                      let ek : x.2 ≡ k' = ground arith in
                      (
                        ground (arith, spans, w.in_file, enough, w.at_most),
                        λ j. ground (
                          arith,
                          ap (λ b. b j) ed,
                          w.contents (head + (j - 0)),
                          ap (os.byte k) (place off (j - 0)),
                        ),
                        subst (SameFile os k) ek w.same,
                      )
                ]
          ]
        ]
      ]
