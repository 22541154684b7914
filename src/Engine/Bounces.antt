-- ===== src/Engine/Bounces.antt =====
-- What a part of a block that is read by a bounce command brings to memory: `submit_bounce_read`,
-- `submit_stream_bounce`, `submit_host_bounce` and `submit_partial` of src/opends_aisio.c.
use opends_fork.Prelude.{
  ℕ, ◌<◌, leb, ltb, ◌||◌, length-set, ◌+◌, ◌*◌, ◌≤◌, ◌≡◌, refl, sym, ◌∙◌, ap, true, false, none,
  some, List, [], ◌∷◌, ◌++◌, ◌==◌, if◌then◌else◌, arith, Bool-cases, ◌⊎◌, inl, inr,
}
use mathlib.Core.Path.{subst}
use mathlib.Core.Option.{some-injective}
use opends_fork.Engine.{
  Device, Piece, BounceSlot, staged, Mode, stream, async, ReadOp, complete, Answer, no_ctx, busy,
  refused, accepted, Step, ◌then_ok◌,
}
use opends_fork.Engine.Submit.{
  bounce_slots, bounced, bounce_loop, submit_bounce_read, submit_stream_bounce, submit_host_bounce,
  submit_partial,
}
use opends_fork.Engine.Pieces.{one-Covers, View, view, complete-view}
use opends_fork.Engine.Table.{
  IsTable, resolved, resolved_view, base, Below, Below-mono, Below-append, count_staged,
  count_staged-append, resolve-staged, brought_lem,
}
use opends_fork.Engine.Coverage.{Reads, cast-Reads, complete-Reads}

-- What `Reads` says depends on the view only.
to-Reads :
    {lba_size : ℕ} {op op₁ op₂ : ReadOp} {dst src len : ℕ}
    → view op₂ ≡ view op₁
    → Reads lba_size op op₁ dst src len
    → Reads lba_size op op₂ dst src len
to-Reads {lba_size} e r = record {
  pieces = r.pieces;
  moves = λ t.
      (let (t', f) = r.moves t in (subst (IsTable lba_size) (sym e) t', ap resolved_view e ∙ f));
  covered = r.covered;
}

-- The next slot of the table is free, and `buf` is its part of the bounce buffer.
abbrev IsNext : ℕ → ℕ → View → Type 0
IsNext lba_size buf v = (v.2 < 2) × (base v.0 v.3 + v.2 * lba_size ≡ buf)

module _ (d : Device) where
  bounced-IsTable :
      (buf dst slba src_off nbytes : ℕ) (op : ReadOp)
      → IsNext d.lba_size buf (view op)
      → IsTable d.lba_size (view op)
      → IsTable d.lba_size (view (bounced d buf dst slba src_off nbytes op))
  bounced-IsTable buf dst slba src_off nbytes op (room, here) t =
      let c : Piece = record { src = slba * d.lba_size; dst = buf; len = d.lba_size } in
      let b : BounceSlot = record { dst = dst; src = buf + src_off; nbytes = nbytes } in
      let limit = base op.mode op.bounce_buf + op.n_bounces * d.lba_size in
      let limit' = base op.mode op.bounce_buf + (op.n_bounces + 1) * d.lba_size in
      let ends : limit' ≡ buf + d.lba_size = omega arith in
      record {
        slots = length-set op.bounces op.n_bounces b ∙ t.slots;
        filled =
            (let e = t.filled in
              let f = count_staged-append op.moves (staged op.n_bounces c ∷ []) in
              unfold count_staged in omega arith);
        below =
            Below-append (op.n_bounces + 1) limit' op.moves (staged op.n_bounces c ∷ [])
              (Below-mono op.n_bounces limit (op.n_bounces + 1) limit' op.moves (omega arith)
                (omega arith) t.below)
              (unfold Below in (omega arith, omega arith, tt));
      }

  bounced-Reads :
      (buf dst slba src_off nbytes : ℕ) (op : ReadOp)
      → src_off + nbytes ≤ d.lba_size
      → IsNext d.lba_size buf (view op)
      → Reads d.lba_size op
          (bounced d buf dst slba src_off nbytes op)
          dst
          (slba * d.lba_size + src_off)
          nbytes
  bounced-Reads buf dst slba src_off nbytes op fits next =
      let piece : Piece = record { src = slba * d.lba_size + src_off; dst = dst; len = nbytes } in
      let c : Piece = record { src = slba * d.lba_size; dst = buf; len = d.lba_size } in
      let b : BounceSlot = record { dst = dst; src = buf + src_off; nbytes = nbytes } in
      let limit = base op.mode op.bounce_buf + op.n_bounces * d.lba_size in
      record {
        pieces = piece ∷ [];
        moves = λ t. (
          bounced-IsTable buf dst slba src_off nbytes op next t,
          resolve-staged op.bounces op.n_bounces limit b c op.moves
                (let e = t.slots in let f = next.0 in omega arith) (let e = next.1 in omega arith)
                t.below
              ∙ ap (λ p. resolved op ++ (p ∷ []))
                  (brought_lem buf dst slba src_off nbytes d.lba_size fits),
        );
        covered = one-Covers piece;
      }

  bounce_loop-Reads :
      (buf dst slba src_off nbytes : ℕ) (ans : List Answer) (op : ReadOp) {op' : ReadOp}
      {ans' : List Answer}
      → src_off + nbytes ≤ d.lba_size
      → IsNext d.lba_size buf (view op)
      → bounce_loop d buf dst slba src_off nbytes ans op ≡ some (true, op', ans')
      → Reads d.lba_size op op' dst (slba * d.lba_size + src_off) nbytes
  unfolding bounce_loop
  bounce_loop-Reads buf dst slba src_off nbytes [] op fits next run = ground arith
  bounce_loop-Reads buf dst slba src_off nbytes (no_ctx cs ∷ ans) op {op'} {ans'} fits next run =
      complete-Reads d op cs (
        bounce_loop-Reads buf dst slba src_off nbytes ans (complete d op cs) {ans' = ans'} fits
          (subst (IsNext d.lba_size buf) (sym (complete-view d op cs)) next) run)
  bounce_loop-Reads buf dst slba src_off nbytes (busy cs ∷ ans) op {op'} {ans'} fits next run =
      complete-Reads d op cs (
        bounce_loop-Reads buf dst slba src_off nbytes ans (complete d op cs) {ans' = ans'} fits
          (subst (IsNext d.lba_size buf) (sym (complete-view d op cs)) next) run)
  bounce_loop-Reads buf dst slba src_off nbytes (refused ∷ ans) op fits next run = ground arith
  bounce_loop-Reads buf dst slba src_off nbytes (accepted ∷ ans) op {op'} fits next run =
      let same : bounced d buf dst slba src_off nbytes op ≡ op' =
        ap (λ p. p.1) (some-injective _ _ run) in
      subst (λ o. Reads d.lba_size op o dst (slba * d.lba_size + src_off) nbytes) same
        (bounced-Reads buf dst slba src_off nbytes op fits next)

  submit_bounce_read-Reads :
      (buf dst slba src_off nbytes : ℕ) (ans : List Answer) (op : ReadOp) {op' : ReadOp}
      {ans' : List Answer}
      → base op.mode op.bounce_buf ≡ buf
      → submit_bounce_read d buf dst slba src_off nbytes ans op ≡ some (true, op', ans')
      → Reads d.lba_size op op' dst (slba * d.lba_size + src_off) nbytes
  unfolding submit_bounce_read
  submit_bounce_read-Reads buf dst slba src_off nbytes ans op {op'} {ans'} own run =
      let next = ap (λ b. b + op.n_bounces * d.lba_size) own in
      elim (Bool-cases (leb bounce_slots op.n_bounces || ltb d.lba_size (src_off + nbytes))) [
        | inl out ↦ ground arith
        | inr fits ↦
            bounce_loop-Reads (buf + op.n_bounces * d.lba_size) dst slba src_off nbytes ans op
              {op' = op'} {ans' = ans'} (ground arith) (ground arith, next) (ground arith)
      ]

-- Two submissions in a row succeed only if both do.
pub then_ok-both :
    (s : Step) (f : ReadOp → List Answer → Step) {op' : ReadOp} {ans' : List Answer}
    → (s then_ok f) ≡ some (true, op', ans')
    → (op : ReadOp) × (ans : List Answer) × (s ≡ some (true, op, ans))
      × (f op ans ≡ some (true, op', ans'))
then_ok-both none f h = ground arith
then_ok-both (some (false, op, ans)) f h = ground arith
then_ok-both (some (true, op, ans)) f h = (op, ans, refl, h)

pub mode-cases : (m : Mode) → (m ≡ async) ⊎ ((buf : ℕ) × (m ≡ stream buf))
mode-cases async = inl refl
mode-cases (stream buf) = inr (buf, refl)

module _ (d : Device) where
  stream_bounce-Reads :
      (buf dst slba nbytes : ℕ) (ans : List Answer) (op : ReadOp) {op' : ReadOp}
      {ans' : List Answer}
      → op.mode ≡ stream buf
      → submit_stream_bounce d buf dst slba nbytes ans op ≡ some (true, op', ans')
      → Reads d.lba_size op op' dst (slba * d.lba_size) nbytes
  unfolding submit_stream_bounce
  stream_bounce-Reads buf dst slba nbytes ans op {op'} {ans'} own run =
      elim (Bool-cases (op.n_bounces == 0)) [
        | inr used ↦ ground arith
        | inl first ↦
            (let (op₁, ans₁, run₁, run₂) =
                then_ok-both (submit_bounce_read d buf dst slba 0 nbytes ans op)
                  (λ o a. some (true, record o { desc = some (dst, buf) }, a)) {op' = op'}
                  {ans' = ans'} (ground arith) in
              let r =
                submit_bounce_read-Reads d buf dst slba 0 nbytes ans op {op' = op₁} {ans' = ans₁}
                  (ap (λ m. base m op.bounce_buf) own) run₁ in
              let e : record op₁ { desc = some (dst, buf) } ≡ op' =
                ap (λ p. p.1) (some-injective _ _ run₂) in
              to-Reads (ap view (sym e)) (cast-Reads refl (omega arith) refl r))
      ]

  -- The operation is given a bounce buffer, unless it has one.
  given-Reads :
      {op' : ReadOp} {dst src len : ℕ} (op : ReadOp) (buf : ℕ)
      → op.mode ≡ async
      → op.bounce_buf ≤ buf
      → Reads d.lba_size (record op { bounce_buf = buf }) op' dst src len
      → Reads d.lba_size op op' dst src len
  given-Reads op buf own kept r = record {
    pieces = r.pieces;
    moves = λ t. r.moves (record {
      slots = t.slots;
      filled = t.filled;
      below =
          (let e = ap (λ m. base m op.bounce_buf) own in
            let f = ap (λ m. base m buf) own in
            Below-mono op.n_bounces (base op.mode op.bounce_buf + op.n_bounces * d.lba_size)
              op.n_bounces (base op.mode buf + op.n_bounces * d.lba_size) op.moves (omega arith)
              (omega arith) t.below);
    });
    covered = r.covered;
  }

  host_bounce-Reads :
      (alloc dst slba src_off nbytes : ℕ) (ans : List Answer) (op : ReadOp) {op' : ReadOp}
      {ans' : List Answer}
      → op.mode ≡ async
      → submit_host_bounce d alloc dst slba src_off nbytes ans op ≡ some (true, op', ans')
      → Reads d.lba_size op op' dst (slba * d.lba_size + src_off) nbytes
  unfolding submit_host_bounce
  host_bounce-Reads alloc dst slba src_off nbytes ans op {op'} {ans'} own run =
      let buf = if op.bounce_buf == 0 then alloc else op.bounce_buf in
      let op₁ : ReadOp = record op { bounce_buf = buf } in
      let kept : op.bounce_buf ≤ buf = ground arith in
      elim (Bool-cases (buf == 0)) [
        | inl failed ↦ ground arith
        | inr given ↦ given-Reads op buf own kept (
            submit_bounce_read-Reads d buf dst slba src_off nbytes ans op₁ {op' = op'} {ans' = ans'}
              (ap (λ m. base m buf) own) (ground arith))
      ]

  -- A part of a block.
  pub partial-Reads :
      (alloc dst slba src_off nbytes : ℕ) (ans : List Answer) (op : ReadOp) {op' : ReadOp}
      {ans' : List Answer}
      → submit_partial d alloc dst slba src_off nbytes ans op ≡ some (true, op', ans')
      → Reads d.lba_size op op' dst (slba * d.lba_size + src_off) nbytes
  unfolding submit_partial
  partial-Reads alloc dst slba src_off nbytes ans op {op'} {ans'} run = elim (mode-cases op.mode) [
    | inl is_async ↦
        host_bounce-Reads alloc dst slba src_off nbytes ans op {op' = op'} {ans' = ans'} is_async
          (ground arith)
    | inr (buf, is_stream) ↦
        (let z : src_off ≡ 0 = ground arith in
          cast-Reads refl (omega arith) refl (
            stream_bounce-Reads buf dst slba nbytes ans op {op' = op'} {ans' = ans'} is_stream
              (ground arith)))
  ]
