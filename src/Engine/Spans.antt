-- ===== src/Engine/Spans.antt =====
-- What the part of a read that lies in one extent brings to memory: the body of the extent loop of
-- `start_read_op`, src/opends_aisio.c.
use opends_fork.Prelude.{
  ℕ, ◌+◌, ◌-◌, ◌*◌, ◌/◌, ◌%◌, ◌^◌, ◌≤◌, ◌<◌, ◌≡◌, refl, sym, ◌∙◌, ap, true, some, List, ltb, ◌==◌,
  bit_and, if◌then◌else◌, arith, Bool-cases, ◌⊎◌, inl, inr,
}
use mathlib.Core.Path.{subst}
use native.Mathlib.Nat.{mod-lt}
use native.Mathlib.Omega.{div_any}
use opends_fork.Engine.{Device, ReadOp, Answer, add64}
use opends_fork.Engine.Submit.{middle_loop, submit_partial}
use opends_fork.Engine.Start.{read_tail, read_aligned, read_span}
use opends_fork.Prelude.Bits.{bit_and_mask, two_pow_pos}
use opends_fork.Engine.Coverage.{IsDevice, middle_lem, Reads, cast-Reads, nothing-Reads, then-Reads}
use opends_fork.Engine.Bounces.{then_ok-both, partial-Reads}

module _ (d : Device) (h : IsDevice d) (pow : d.lba_size ≡ 2 ^ d.lba_shift) (alloc : ℕ) where
  tail-Reads :
      (dst slba tail_bytes : ℕ) (ans : List Answer) (op : ReadOp) {op' : ReadOp}
      {ans' : List Answer}
      → read_tail d alloc dst slba tail_bytes ans op ≡ some (true, op', ans')
      → Reads d.lba_size op op' dst (slba * d.lba_size) tail_bytes
  unfolding read_tail
  tail-Reads dst slba tail_bytes ans op {op'} {ans'} run = elim (Bool-cases (tail_bytes == 0)) [
    | inl empty ↦
        (let e : op ≡ op' = ground arith in
          let z : 0 ≡ tail_bytes = ground arith in
          subst (λ (o : ReadOp). Reads d.lba_size op o dst (slba * d.lba_size) tail_bytes) e
            (cast-Reads refl refl z (nothing-Reads op dst (slba * d.lba_size))))
    | inr more ↦ cast-Reads refl (omega arith) refl (
        partial-Reads d alloc dst slba 0 tail_bytes ans op {op' = op'} {ans' = ans'} (ground arith))
  ]

unique : (P m q u : ℕ) → u < P → P * m + u ≡ P * q → u ≡ 0
unique P m q u small e = elim (Bool-cases (ltb m q)) [
  | inl lt ↦
      (let k = q - m - 1 in
        let l : m < q = ground arith in
        let s : q ≡ m + (1 + k) = omega arith in
        let t : P * q ≡ P * m + P + P * k = ap (λ x. P * x) s ∙ omega arith in omega arith)
  | inr ge ↦
      (let k = m - q in
        let l : q ≤ m = ground arith in
        let s : m ≡ q + k = omega arith in
        let t : P * m ≡ P * q + P * k = ap (λ x. P * x) s ∙ omega arith in omega arith)
]

-- Whole blocks and a rest.
blocks_lem : (r P : ℕ) → 0 < P → (r - r % P) / P * P + r % P ≡ r
blocks_lem r P some_bytes =
    let x = r - r % P in
    let a = div_any r P in
    let b = div_any x P in
    let lt : x % P < P = mod-lt x some_bytes in
    let z = unique P (x / P) (r / P) (x % P) lt (omega arith) in
    let c : x / P * P ≡ P * (x / P) = omega arith in omega arith

module _ (d : Device) (h : IsDevice d) (pow : d.lba_size ≡ 2 ^ d.lba_shift) (alloc : ℕ) where
  mask_lem : (x : ℕ) → bit_and x (d.lba_size - 1) ≡ x % d.lba_size
  mask_lem x = subst (λ (l : ℕ). bit_and x (l - 1) ≡ x % l) (sym pow) (bit_and_mask d.lba_shift x)

  some_bytes : 0 < d.lba_size
  some_bytes = subst (λ (l : ℕ). 0 < l) (sym pow) (two_pow_pos d.lba_shift)

  middle_of :
      (remaining : ℕ)
      → (remaining - bit_and remaining (d.lba_size - 1)) / 2 ^ d.lba_shift * d.lba_size
          + bit_and remaining (d.lba_size - 1)
        ≡ remaining
  middle_of remaining =
      let m = mask_lem remaining in
      subst
        (λ (l : ℕ).
          (remaining - bit_and remaining (d.lba_size - 1)) / l * d.lba_size
            + bit_and remaining (d.lba_size - 1)
          ≡ remaining)
        pow
        (subst (λ (t : ℕ). (remaining - t) / d.lba_size * d.lba_size + t ≡ remaining) (sym m)
          (blocks_lem remaining d.lba_size some_bytes))

  aligned-Reads :
      (dst slba remaining : ℕ) (ans : List Answer) (op : ReadOp) {op' : ReadOp} {ans' : List Answer}
      → slba + remaining < 2 ^ 64
      → read_aligned d alloc dst slba remaining ans op ≡ some (true, op', ans')
      → Reads d.lba_size op op' dst (slba * d.lba_size) remaining
  unfolding read_aligned
  aligned-Reads dst slba remaining ans op {op'} {ans'} small run =
      let tail = bit_and remaining (d.lba_size - 1) in
      let m = (remaining - tail) / 2 ^ d.lba_shift in
      let parts : m * d.lba_size + tail ≡ remaining = middle_of remaining in
      elim (Bool-cases (m == 0)) [
        | inl empty ↦
            (let z : m ≡ 0 = ground arith in
              let z' : m * d.lba_size ≡ 0 = ap (λ x. x * d.lba_size) z ∙ omega arith in
              let e : tail ≡ remaining = omega arith in
              cast-Reads refl refl e (
                tail-Reads d h pow alloc dst slba tail ans op {op' = op'} {ans' = ans'}
                  (ground arith)))
        | inr whole ↦
            (let (op₁, ans₁, run₁, run₂) =
                then_ok-both (middle_loop d slba dst m ans 0 op)
                  (λ o a. read_tail d alloc (dst + m * d.lba_size) (add64 slba m) tail a o)
                  {op' = op'} {ans' = ans'} (ground arith) in
              let p = some_bytes in
              let one_more : d.lba_size ≡ 1 + (d.lba_size - 1) = omega arith in
              let t : m * d.lba_size ≡ m + m * (d.lba_size - 1) =
                ap (λ x. m * x) one_more ∙ omega arith in
              let bound : slba + m < 2 ^ 64 = omega arith in
              let r = middle_lem d h slba dst m bound ans op {op' = op₁} {ans' = ans₁} run₁ in
              let s =
                tail-Reads d h pow alloc (dst + m * d.lba_size) (add64 slba m) tail ans₁ op₁
                  {op' = op'} {ans' = ans'} run₂ in
              let e : add64 slba m ≡ slba + m = omega arith in
              let e' : add64 slba m * d.lba_size ≡ slba * d.lba_size + m * d.lba_size =
                ap (λ x. x * d.lba_size) e ∙ omega arith in
              cast-Reads refl refl parts (
                then-Reads dst (slba * d.lba_size) (m * d.lba_size) tail r
                  (cast-Reads refl e' refl s)))
      ]

  -- Nothing comes from anywhere.
  anywhere-Reads :
      {op op' : ReadOp} {dst : ℕ} (src src' len : ℕ)
      → (src ≡ src') ⊎ (len ≡ 0)
      → Reads d.lba_size op op' dst src len
      → Reads d.lba_size op op' dst src' len
  anywhere-Reads src src' len (inl e) r = cast-Reads refl e refl r
  anywhere-Reads src src' len (inr z) r = record {
    pieces = r.pieces;
    moves = r.moves;
    covered = record { at = λ a. (let e = r.covered.at a in ground arith) };
  }

  block_of :
      (slba off_in_ext : ℕ)
      → slba + off_in_ext < 2 ^ 64
      → (add64 slba (off_in_ext / 2 ^ d.lba_shift) ≡ slba + off_in_ext / d.lba_size)
        × ((slba + off_in_ext / d.lba_size) * d.lba_size + off_in_ext % d.lba_size
            ≡ slba * d.lba_size + off_in_ext)
        × (off_in_ext / d.lba_size ≤ off_in_ext)
  block_of slba off small =
      let q = off / d.lba_size in
      let e = div_any off d.lba_size in
      let p = some_bytes in
      let same : off / 2 ^ d.lba_shift ≡ q = ap (λ l. off / l) (sym pow) in
      let s : d.lba_size ≡ 1 + (d.lba_size - 1) = omega arith in
      let t : d.lba_size * q ≡ q + (d.lba_size - 1) * q = ap (λ x. x * q) s ∙ omega arith in
      (omega arith, omega arith, omega arith)

  -- The part of a request that lies in one extent, submitted with success: the pieces submitted bring
  -- to the buffer from `dst` on exactly the `remaining` bytes that lie `off_in_ext` bytes into the
  -- extent, head and tail blocks that are read by bounce commands included. This needs a device with
  -- a power of two as block size, whose commands hold at least one block, and an extent that ends
  -- below block 2 ^ 64.
  pub read_span_lem :
      (slba off_in_ext dst remaining : ℕ) (ans : List Answer) (op : ReadOp) {op' : ReadOp}
      {ans' : List Answer}
      → slba + off_in_ext + remaining + 1 < 2 ^ 64
      → read_span d alloc slba off_in_ext dst remaining ans op ≡ some (true, op', ans')
      → Reads d.lba_size op op' dst (slba * d.lba_size + off_in_ext) remaining
  unfolding read_span
  read_span_lem slba off dst remaining ans op {op'} {ans'} small run =
      let cur = add64 slba (off / 2 ^ d.lba_shift) in
      let head_off = bit_and off (d.lba_size - 1) in
      let (block, place, less) = block_of slba off (omega arith) in
      let head_off_is : head_off ≡ off % d.lba_size = mask_lem off in
      let cur_at : cur * d.lba_size + head_off ≡ slba * d.lba_size + off =
        ap (λ x. x * d.lba_size + head_off) block ∙ (let g = place in omega arith) in
      let inside : head_off < d.lba_size = (let l = mod-lt off some_bytes in omega arith) in
      let room = d.lba_size - head_off in
      let head = if ltb remaining room then remaining else room in
      let next_at : add64 cur 1 * d.lba_size ≡ cur * d.lba_size + d.lba_size =
        ap (λ x. x * d.lba_size) (let e : add64 cur 1 ≡ cur + 1 = omega arith in e) ∙ omega arith in
      elim (Bool-cases (head_off == 0)) [
        | inl whole ↦
            (let z : head_off ≡ 0 = ground arith in
              cast-Reads refl (omega arith) refl (
                aligned-Reads dst cur remaining ans op {op' = op'} {ans' = ans'} (omega arith)
                  (ground arith)))
        | inr within ↦
            (let (op₁, ans₁, run₁, run₂) =
                then_ok-both (submit_partial d alloc dst cur head_off head ans op)
                  (λ o a. read_aligned d alloc (dst + head) (add64 cur 1) (remaining - head) a o)
                  {op' = op'} {ans' = ans'} (ground arith) in
              let r =
                partial-Reads d alloc dst cur head_off head ans op {op' = op₁} {ans' = ans₁} run₁ in
              let s =
                aligned-Reads (dst + head) (add64 cur 1) (remaining - head) ans₁ op₁ {op' = op'}
                  {ans' = ans'} (ground arith) run₂ in
              let total : head + (remaining - head) ≡ remaining = ground arith in
              let meet : (add64 cur 1 * d.lba_size ≡ slba * d.lba_size + off + head)
                  ⊎ (remaining - head ≡ 0) =
                elim (Bool-cases (ltb remaining room)) [
                  | inl short ↦ inr (ground arith)
                  | inr long ↦ inl (ground arith)
                ] in
              cast-Reads refl refl total (
                then-Reads dst (slba * d.lba_size + off) head (remaining - head)
                  (cast-Reads refl cur_at refl r)
                  (anywhere-Reads (add64 cur 1 * d.lba_size) (slba * d.lba_size + off + head)
                    (remaining - head) meet s)))
      ]
