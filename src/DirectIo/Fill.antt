-- ===== src/DirectIo/Fill.antt =====
-- `rmw_fill` of src/opends_common.c: the edge blocks of the bounce buffer hold what the file holds.
use mathlib.Core.Path.{subst}
use opends_fork.Prelude.{
  ℕ, zero, suc, ◌+◌, ◌-◌, ◌*◌, ◌^◌, ◌≤◌, ◌<◌, ◌≡◌, ◌⊎◌, inl, inr, refl, sym, ap, ◌∙◌, Bool, true,
  false, not, ◌&&◌, ◌||◌, some, arith, ltb, leb, ◌==◌, if◌then◌else◌, Bool-cases, Option-cases,
}
use opends_fork.Prelude.Int.{ℤ, pos, negsuc}
use opends_fork.DirectIo.Os.{Buffer, Kernel, SameFile, Laws, Sys-cases}
use opends_fork.DirectIo.{
  direct_align, sub64, AccessMode, is_wronly, read_block, fill_tail, fill_edges, rmw_fill,
}
use opends_fork.DirectIo.Block.{
  FullReads, SameFile-refl, SameFile-trans, read_block-BlockAt, read_block-pos,
}

-- The bytes before `head` and from `head + size` on are those of the file.
abbrev pub EdgesFilled : {K : Type 0} → Kernel K → K → Buffer → ℕ → ℕ → ℕ → ℕ → Type 0
EdgesFilled os k bounce start span head tail =
    (j : ℕ) → (j < head) ⊎ ((span ≤ j + tail) × (j < span)) → bounce j ≡ os.byte k (start + j)

pub data IntShape (z : ℤ) : Type 0 where
  is_zero : z ≡ pos 0 → IntShape z
  is_pos : (n : ℕ) → z ≡ pos (suc n) → IntShape z
  is_neg : (n : ℕ) → z ≡ negsuc n → IntShape z

pub shape_of : (z : ℤ) → IntShape z
shape_of (pos zero) = is_zero refl
shape_of (pos (suc n)) = is_pos n refl
shape_of (negsuc n) = is_neg n refl

module _ {K : Type 0} {os : Kernel K} (laws : Laws os) (full : FullReads os) where
  fill_tail-filled :
      (fuel : ℕ) (k : K) (bounce : Buffer) (start last : ℕ) (wanted : Bool) (n : ℕ)
      {bounce' : Buffer} {k' : K}
      → fill_tail os fuel k bounce start last wanted ≡ some (pos n, bounce', k')
      → SameFile os k k'
        × ((j : ℕ)
            → bounce' j ≡ (
                if wanted && (leb last j && ltb j (last + direct_align))
                then os.byte k (start + j)
                else bounce j))
  unfolding fill_tail
  fill_tail-filled fuel k bounce start last false n {bounce'} {k'} h =
      let ek : k ≡ k' = ground arith in
      let eb : bounce ≡ bounce' = ground arith in
      (subst (SameFile os k) ek (SameFile-refl k), λ j. ap (λ b. b j) (sym eb))
  fill_tail-filled fuel k bounce start last true n {bounce'} {k'} h =
      let (same, block) =
        read_block-BlockAt laws full fuel k bounce last (start + last) n {bounce' = bounce'}
          {k' = k'} h in
      (same, λ j. ground (arith, block j, ap (os.byte k) (shift start last j)))
    where
      shift : (start last j : ℕ) → start + last + (j - last) ≡ start + (last + (j - last))
      shift start last j = omega arith

  module _ (start span head tail : ℕ) (head_in : head < direct_align)
      (tail_in : tail < direct_align) (whole : (b : ℕ) × (span ≡ suc b * direct_align))
      (small : span < 2 ^ 64) where
    abbrev last : ℕ
    last = sub64 span direct_align

    abbrev wanted : ℕ → Bool
    wanted h = not (tail == 0) && (not (last == 0) || h == 0)

    span_lem : (b : ℕ) → span ≡ suc b * direct_align → last ≡ b * direct_align
    span_lem b e = omega arith

    -- The last block is the first, or comes after it.
    last_lem : (last + direct_align ≡ span) × ((last ≡ 0) ⊎ (direct_align ≤ last))
    last_lem = let (b, e) = whole in ground (arith, span_lem b e)

    fill_edges-filled :
        (fuel : ℕ) (k : K) (bounce : Buffer) (n : ℕ) {bounce' : Buffer} {k' : K}
        → fill_edges os fuel k bounce start span head tail ≡ some (pos n, bounce', k')
        → SameFile os k k' × EdgesFilled os k bounce' start span head tail
    unfolding fill_edges
    fill_edges-filled fuel k bounce n {bounce'} {k'} h = elim (Bool-cases (head == 0)) [
      | inl aligned ↦
          let (same, tail_block) =
            fill_tail-filled fuel k bounce start last (wanted head) n {bounce' = bounce'} {k' = k'}
              (ground arith) in
          (same, λ j edge. ground (arith, tail_block j, last_lem))
      | inr unaligned ↦ elim (Option-cases (read_block os fuel k bounce 0 start)) [
        | inl stuck ↦ ground arith
        | inr (x, e) ↦ elim (shape_of x.0) [
          | is_neg m e' ↦ ground arith
          | is_pos m e' ↦
              let none_left : suc m ≡ 0 =
                read_block-pos laws full fuel k bounce 0 start (suc m) {bounce' = x.1} {k' = x.2}
                  (ground arith) in
              absurd (omega arith)
          | is_zero e' ↦
              let (same, head_block) =
                read_block-BlockAt laws full fuel k bounce 0 start 0 {bounce' = x.1} {k' = x.2}
                  (ground arith) in
              let (same', tail_block) =
                fill_tail-filled fuel x.2 x.1 start last (wanted head) n {bounce' = bounce'}
                  {k' = k'} (ground arith) in
              (
                SameFile-trans same same',
                λ j edge.
                    ground (arith, tail_block j, last_lem, head_block j, same.bytes (start + j)),
              )
        ]
      ]
    ]

    -- A successful `rmw_fill` leaves the file alone, and fills the edges of the bounce buffer with
    -- what the file holds there.
    pub rmw_fill-filled :
        (fuel : ℕ) (k : K) (mode : AccessMode) (bounce : Buffer) (n : ℕ) {bounce' : Buffer} {k' : K}
        → rmw_fill os fuel k mode bounce start span head tail ≡ some (pos n, bounce', k')
        → SameFile os k k' × EdgesFilled os k bounce' start span head tail
    unfolding rmw_fill
    rmw_fill-filled fuel k mode bounce n {bounce'} {k'} h = elim (Bool-cases (is_wronly mode)) [
      | inr readable ↦
          fill_edges-filled fuel k bounce n {bounce' = bounce'} {k' = k'} (ground arith)
      | inl write_only ↦ elim (Sys-cases (os.reopen k).0) [
        | inl (e, e') ↦ ground (arith, laws.reopen_errno k e)
        | inr (fd, e') ↦
            let (same, edges) =
              fill_edges-filled fuel (os.reopen k).1 bounce n {bounce' = bounce'} {k' = k'}
                (ground arith) in
            let first = laws.reopen_same k in
            (SameFile-trans first same, λ j edge. edges j edge ∙ first.bytes (start + j))
      ]
    ]
