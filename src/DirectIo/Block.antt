-- ===== src/DirectIo/Block.antt =====
-- `read_block` of src/opends_common.c: one block of the file, zeroes past its end.
use opends_fork.Prelude.{
  ℕ, zero, suc, ◌+◌, ◌-◌, ◌≤◌, ◌<◌, ◌≡◌, ◌≢◌, inl, inr, refl, ◌∙◌, ◌&&◌, some, arith, ltb, leb,
  ◌==◌, if◌then◌else◌, Bool-cases, Option-cases,
}
use mathlib.Core.Path.{subst}
use opends_fork.Prelude.Int.{pos}
use opends_fork.DirectIo.Os.{
  Buffer, Sys, count, fail, eintr, splice, Kernel, SameFile, Laws, Sys-cases,
}
use opends_fork.DirectIo.{direct_align, sub64, pread_retry, read_block}

-- A read of one block is short only at the end of the file (`read_block` does not read on).
pub record FullReads {K : Type 0} (os : Kernel K) : Type 0 where
  pub short_at_end :
      (k : K) (n off r : ℕ) → (os.pread k n off).0 ≡ count r → r < n → os.size_of k ≤ off + r

module _ {K : Type 0} {os : Kernel K} where
  pub SameFile-refl : (k : K) → SameFile os k k
  SameFile-refl k = record { size = refl; bytes = λ j. refl; calmer = omega arith }

  pub SameFile-trans : {a b c : K} → SameFile os a b → SameFile os b c → SameFile os a c
  SameFile-trans x y = record {
    size = y.size ∙ x.size;
    bytes = λ j. y.bytes j ∙ x.bytes j;
    calmer = omega (arith, x.calmer, y.calmer);
  }

-- What a block read at `off` has put into the buffer at `at`.
abbrev pub BlockAt : {K : Type 0} → Kernel K → K → Buffer → ℕ → ℕ → Buffer → Type 0
BlockAt os k bounce at off bounce' =
    (j : ℕ)
    → bounce' j
      ≡ (if leb at j && ltb j (at + direct_align) then os.byte k (off + (j - at)) else bounce j)

module _ {K : Type 0} {os : Kernel K} (laws : Laws os) (full : FullReads os) where
  record Fetched (k : K) (off r : ℕ) (got : Buffer) (k' : K) : Type 0 where
    at_most : r ≤ direct_align
    contents : (i : ℕ) → i < r → got i ≡ os.byte k (off + i)
    short : r < direct_align → os.size_of k ≤ off + r
    same : SameFile os k k'

  Fetched-later :
      {k k₁ k' : K} {off r : ℕ} {got : Buffer}
      → SameFile os k k₁
      → Fetched k₁ off r got k'
      → Fetched k off r got k'
  Fetched-later {off} same f = record {
    at_most = f.at_most;
    contents = λ i lt. f.contents i lt ∙ same.bytes (off + i);
    short = λ lt. omega (arith, f.short lt, same.size);
    same = SameFile-trans same f.same;
  }

  fetched :
      (k : K) (off n r : ℕ)
      → (os.pread k direct_align off).0 ≡ count n
      → count n ≡ count r
      → Fetched k off r (os.pread k direct_align off).1 (os.pread k direct_align off).2
  fetched k off n r e er =
      let en : (os.pread k direct_align off).0 ≡ count r = e ∙ er in
      let ok = laws.pread_ok k direct_align off r en in
      record {
        at_most = ok.at_most;
        contents = ok.contents;
        short = full.short_at_end k direct_align off r en;
        same = laws.pread_same k direct_align off;
      }

  pread_retry-Fetched :
      (fuel : ℕ) (k : K) (off : ℕ) {x : Sys × Buffer × K}
      → pread_retry os fuel k off ≡ some x
      → (r : ℕ) → x.0 ≡ count r
      → Fetched k off r x.1 x.2
  unfolding pread_retry
  pread_retry-Fetched zero k off h = absurd (cc)
  pread_retry-Fetched (suc fuel) k off {x} h =
      let (res, got, k₁) = os.pread k direct_align off in
      elim (Sys-cases (os.pread k direct_align off).0) [
        | inr (n, e) ↦
            let whole : (count n, (os.pread k direct_align off).1, (os.pread k direct_align off).2)
                ≡ x =
              ground arith in
            subst (λ x. (r : ℕ) → x.0 ≡ count r → Fetched k off r x.1 x.2) whole
              (λ r er. fetched k off n r e er)
        | inl (e, err) ↦ elim (Bool-cases (e == eintr)) [
          | inl again ↦ λ r er. Fetched-later (laws.pread_same k direct_align off) (
              pread_retry-Fetched fuel (os.pread k direct_align off).2 off {x = x} (ground arith) r
                er)
          | inr stop ↦ λ r er. absurd (failed e r (ground arith))
        ]
      ]
    where
      failed : (e r : ℕ) → fail e ≡ count r → ⊥
      failed e r q = cc

  pread_retry-errno :
      (fuel : ℕ) (k : K) (off : ℕ) {x : Sys × Buffer × K}
      → pread_retry os fuel k off ≡ some x
      → (e : ℕ) → x.0 ≡ fail e
      → e ≢ 0
  unfolding pread_retry
  pread_retry-errno zero k off h e he = absurd (cc)
  pread_retry-errno (suc fuel) k off {x} h e he = elim (Sys-cases (os.pread k direct_align off).0) [
    | inr (n, en) ↦ absurd (counted n e (ground arith))
    | inl (e', ee) ↦ elim (Bool-cases (e' == eintr)) [
      | inl again ↦
          pread_retry-errno fuel (os.pread k direct_align off).2 off {x = x} (ground arith) e he
      | inr stop ↦ ground (arith, laws.pread_errno k direct_align off e')
    ]
  ]
    where
      counted : (n e : ℕ) → count n ≡ fail e → ⊥
      counted n e q = cc

  filled :
      {k k' : K} {r : ℕ} {got : Buffer} (bounce : Buffer) (at off : ℕ)
      → Fetched k off r got k'
      → BlockAt os k bounce at off
          (splice (splice bounce at r got) (at + r) (sub64 direct_align r) (λ i. 0))
  filled {k} {r} bounce at off f j =
      ground (arith, f.at_most, f.contents (j - at), f.short, laws.zero_past_end k (off + (j - at)))

  -- A block read that succeeds leaves the file alone and puts the block at `off` into the buffer:
  -- its bytes in the file, and zeroes from the end of the file on.
  pub read_block-BlockAt :
      (fuel : ℕ) (k : K) (bounce : Buffer) (at off n : ℕ) {bounce' : Buffer} {k' : K}
      → read_block os fuel k bounce at off ≡ some (pos n, bounce', k')
      → SameFile os k k' × BlockAt os k bounce at off bounce'
  unfolding read_block
  read_block-BlockAt fuel k bounce at off n {bounce'} {k'} h =
      elim (Option-cases (pread_retry os fuel k off)) [
        | inl stuck ↦ ground arith
        | inr (x, e) ↦ elim (Sys-cases x.0) [
          | inl (err, e') ↦ ground (arith, pread_retry-errno fuel k off {x = x} e err e')
          | inr (r, e') ↦
              let f = pread_retry-Fetched fuel k off {x = x} e r e' in
              let eb : splice (splice bounce at r x.1) (at + r) (sub64 direct_align r) (λ i. 0)
                  ≡ bounce' =
                ground arith in
              let ek : x.2 ≡ k' = ground arith in
              (
                subst (SameFile os k) ek f.same,
                subst (BlockAt os k bounce at off) eb (filled bounce at off f),
              )
        ]
      ]

  -- The only status of a block read that is not negative is 0.
  pub read_block-pos :
      (fuel : ℕ) (k : K) (bounce : Buffer) (at off n : ℕ) {bounce' : Buffer} {k' : K}
      → read_block os fuel k bounce at off ≡ some (pos n, bounce', k')
      → n ≡ 0
  unfolding read_block
  read_block-pos fuel k bounce at off n {bounce'} {k'} h =
      elim (Option-cases (pread_retry os fuel k off)) [
        | inl stuck ↦ ground arith
        | inr (x, e) ↦ elim (Sys-cases x.0) [
          | inl (err, e') ↦ ground (arith, pread_retry-errno fuel k off {x = x} e err e')
          | inr (r, e') ↦ ground arith
        ]
      ]
