-- ===== src/Engine/Coverage.antt =====
-- What a successful submission of whole blocks, `submit_read_middle` of src/opends_aisio.c, reads.
use opends_fork.Prelude.{
  ℕ, ◌+◌, ◌-◌, ◌*◌, ◌/◌, ◌^◌, ◌≤◌, ◌<◌, ◌≡◌, refl, sym, ◌∙◌, ap, true, false, some, List, [], ◌∷◌,
  ◌++◌, append-nil, append_assoc, ltb, arith, Bool-cases, inl, inr,
}
use mathlib.Core.Path.{subst}
use opends_fork.Engine.{
  Device, Piece, direct, ReadOp, Completion, complete, Answer, no_ctx, busy, refused, accepted,
  add64,
}
use opends_fork.Engine.Submit.{chunk_of, nlb_of, submitted, middle_loop}
use opends_fork.Engine.Pieces.{Covers, nil-Covers, one-Covers, append-Covers, complete-view, view}
use opends_fork.Engine.Table.{
  IsTable, resolved, resolved_view, base, Below, Below-append, count_staged, count_staged-append,
  resolve-direct,
}

-- Between two states of an operation, commands were submitted that bring, with the copies of the
-- bounce table, `len` bytes from `src` to `dst`, and the table stays well-formed.
pub record Reads (lba_size : ℕ) (op op' : ReadOp) (dst src len : ℕ) : Type 0 where
  pub pieces : List Piece
  pub moves :
      IsTable lba_size (view op)
      → IsTable lba_size (view op') × (resolved op' ≡ resolved op ++ pieces)
  pub covered : Covers pieces dst src len

pub nothing-Reads : {lba_size : ℕ} (op : ReadOp) (dst src : ℕ) → Reads lba_size op op dst src 0
nothing-Reads op dst src = record {
  pieces = [];
  moves = λ t. (t, sym (append-nil (resolved op)));
  covered = nil-Covers dst src;
}

pub then-Reads :
    {lba_size : ℕ} {op op' op'' : ReadOp} (dst src n m : ℕ)
    → Reads lba_size op op' dst src n
    → Reads lba_size op' op'' (dst + n) (src + n) m
    → Reads lba_size op op'' dst src (n + m)
then-Reads {lba_size} {op} {op'} {op''} dst src n m r s = record {
  pieces = r.pieces ++ s.pieces;
  moves = λ t.
      (let (t₁, e) = r.moves t in
        let (t₂, f) = s.moves t₁ in
        (t₂, f ∙ ap (λ ps. ps ++ s.pieces) e ∙ append_assoc (resolved op) r.pieces s.pieces));
  covered = append-Covers r.pieces s.pieces dst src n m r.covered s.covered;
}

-- A device whose blocks are powers of two, and whose largest command has a block.
pub record IsDevice (d : Device) : Type 0 where
  pub chunk : 0 < d.mdts_nbytes / 2 ^ d.lba_shift

pub chunk_lem :
    (d : Device)
    → IsDevice d
    → (left : ℕ) → 0 < left
    → (0 < chunk_of d left)
      × (chunk_of d left ≤ left)
      × (nlb_of d (chunk_of d left) + 1 ≡ chunk_of d left)
chunk_lem d h left more = let c = h.chunk in (omega arith, omega arith, omega arith)

pub cast-Reads :
    {lba_size : ℕ} {op op' : ReadOp} {dst dst' src src' len len' : ℕ}
    → dst ≡ dst'
    → src ≡ src'
    → len ≡ len'
    → Reads lba_size op op' dst src len
    → Reads lba_size op op' dst' src' len'
cast-Reads {lba_size} {op} {op'} {dst} {dst'} {src} {src'} {len} {len'} e f g r =
    subst (λ (x : ℕ). Reads lba_size op op' x src' len') e
      (subst (λ (x : ℕ). Reads lba_size op op' dst x len') f
        (subst (λ (x : ℕ). Reads lba_size op op' dst src x) g r))

-- Completions that are handled in between change nothing of it.
pub complete-Reads :
    {lba_size : ℕ} {op' : ReadOp} {dst src len : ℕ} (d : Device) (op : ReadOp)
    (cs : List Completion)
    → Reads lba_size (complete d op cs) op' dst src len
    → Reads lba_size op op' dst src len
complete-Reads {lba_size = lba_size} d op cs r = record {
  pieces = r.pieces;
  moves = λ t.
      (let same = complete-view d op cs in
        let (t', e) = r.moves (subst (IsTable lba_size) (sym same) t) in
        (t', e ∙ ap (λ v. resolved_view v ++ r.pieces) same));
  covered = r.covered;
}

module _ (d : Device) (h : IsDevice d) (slba dst middle_lbas : ℕ)
    (small : slba + middle_lbas < 2 ^ 64) where
  one_chunk :
      (op : ReadOp) (lbas_done c : ℕ)
      → lbas_done + c ≤ middle_lbas
      → nlb_of d c + 1 ≡ c
      → Reads d.lba_size op
          (submitted d op (add64 slba lbas_done) (nlb_of d c) (dst + lbas_done * d.lba_size))
          (dst + lbas_done * d.lba_size)
          ((slba + lbas_done) * d.lba_size)
          (c * d.lba_size)
  one_chunk op lbas_done c bound whole =
      let piece : Piece = record {
        src = add64 slba lbas_done * d.lba_size;
        dst = dst + lbas_done * d.lba_size;
        len = (nlb_of d c + 1) * d.lba_size;
      } in
      let e : add64 slba lbas_done ≡ slba + lbas_done = omega arith in
      record {
        pieces = piece ∷ [];
        moves = λ t. (
          record {
            slots = t.slots;
            filled =
                (let e = t.filled in
                  let f = count_staged-append op.moves (direct piece ∷ []) in
                  unfold count_staged in omega arith);
            below =
                Below-append op.n_bounces (base op.mode op.bounce_buf + op.n_bounces * d.lba_size)
                  op.moves (direct piece ∷ []) t.below (unfold Below in tt);
          },
          resolve-direct op.bounces piece op.moves,
        );
        covered =
            subst
              (λ (n : ℕ).
                Covers (piece ∷ []) (dst + lbas_done * d.lba_size) ((slba + lbas_done) * d.lba_size)
                  (n * d.lba_size))
              whole
              (subst
                (λ (x : ℕ).
                  Covers (piece ∷ []) (dst + lbas_done * d.lba_size) (x * d.lba_size)
                    ((nlb_of d c + 1) * d.lba_size))
                e (one-Covers piece));
      }

  finished :
      {op' : ReadOp} (op : ReadOp) (lbas_done : ℕ)
      → lbas_done ≤ middle_lbas
      → ltb lbas_done middle_lbas ≡ false
      → op ≡ op'
      → Reads d.lba_size op op'
          (dst + lbas_done * d.lba_size)
          ((slba + lbas_done) * d.lba_size)
          ((middle_lbas - lbas_done) * d.lba_size)
  finished op lbas_done bound done e =
      let z : middle_lbas - lbas_done ≡ 0 = ground arith in
      let none_left : 0 ≡ (middle_lbas - lbas_done) * d.lba_size =
        sym (ap (λ n. n * d.lba_size) z ∙ omega arith) in
      subst
        (λ (o : ReadOp).
          Reads d.lba_size op o (dst + lbas_done * d.lba_size) ((slba + lbas_done) * d.lba_size)
            ((middle_lbas - lbas_done) * d.lba_size))
        e
        (cast-Reads refl refl none_left
          (nothing-Reads op (dst + lbas_done * d.lba_size) ((slba + lbas_done) * d.lba_size)))

  -- A chunk, and what the loop reads after it.
  chunk-Reads :
      {op' : ReadOp} (op : ReadOp) (lbas_done c : ℕ)
      → lbas_done + c ≤ middle_lbas
      → nlb_of d c + 1 ≡ c
      → Reads d.lba_size
          (submitted d op (add64 slba lbas_done) (nlb_of d c) (dst + lbas_done * d.lba_size))
          op'
          (dst + (lbas_done + c) * d.lba_size)
          ((slba + (lbas_done + c)) * d.lba_size)
          ((middle_lbas - (lbas_done + c)) * d.lba_size)
      → Reads d.lba_size op op'
          (dst + lbas_done * d.lba_size)
          ((slba + lbas_done) * d.lba_size)
          ((middle_lbas - lbas_done) * d.lba_size)
  chunk-Reads op lbas_done c bound whole rest =
      let split : (middle_lbas - lbas_done) ≡ c + (middle_lbas - (lbas_done + c)) = omega arith in
      let len : c * d.lba_size + (middle_lbas - (lbas_done + c)) * d.lba_size
          ≡ (middle_lbas - lbas_done) * d.lba_size =
        sym (ap (λ n. n * d.lba_size) split ∙ omega arith) in
      cast-Reads refl refl len (
        then-Reads (dst + lbas_done * d.lba_size) ((slba + lbas_done) * d.lba_size) (c * d.lba_size)
          ((middle_lbas - (lbas_done + c)) * d.lba_size) (one_chunk op lbas_done c bound whole)
          (cast-Reads (omega arith) (omega arith) refl rest))

  middle_loop-Reads :
      (ans : List Answer) (lbas_done : ℕ) (op : ReadOp) {op' : ReadOp} {ans' : List Answer}
      → lbas_done ≤ middle_lbas
      → middle_loop d slba dst middle_lbas ans lbas_done op ≡ some (true, op', ans')
      → Reads d.lba_size op op'
          (dst + lbas_done * d.lba_size)
          ((slba + lbas_done) * d.lba_size)
          ((middle_lbas - lbas_done) * d.lba_size)
  unfolding middle_loop
  middle_loop-Reads [] lbas_done op {op'} bound run =
      elim (Bool-cases (ltb lbas_done middle_lbas)) [
        | inr done ↦ finished {op' = op'} op lbas_done bound done (ground arith)
        | inl more ↦ ground arith
      ]
  middle_loop-Reads (no_ctx cs ∷ ans) lbas_done op {op'} {ans'} bound run =
      elim (Bool-cases (ltb lbas_done middle_lbas)) [
        | inr done ↦ finished {op' = op'} op lbas_done bound done (ground arith)
        | inl more ↦
            complete-Reads d op cs (
              middle_loop-Reads ans lbas_done (complete d op cs) {ans' = ans'} bound (ground arith))
      ]
  middle_loop-Reads (busy cs ∷ ans) lbas_done op {op'} {ans'} bound run =
      elim (Bool-cases (ltb lbas_done middle_lbas)) [
        | inr done ↦ finished {op' = op'} op lbas_done bound done (ground arith)
        | inl more ↦
            complete-Reads d op cs (
              middle_loop-Reads ans lbas_done (complete d op cs) {ans' = ans'} bound (ground arith))
      ]
  middle_loop-Reads (refused ∷ ans) lbas_done op {op'} {ans'} bound run =
      elim (Bool-cases (ltb lbas_done middle_lbas)) [
        | inr done ↦ finished {op' = op'} op lbas_done bound done (ground arith)
        | inl more ↦ ground arith
      ]
  middle_loop-Reads (accepted ∷ ans) lbas_done op {op'} {ans'} bound run =
      elim (Bool-cases (ltb lbas_done middle_lbas)) [
        | inr done ↦ finished {op' = op'} op lbas_done bound done (ground arith)
        | inl more ↦
            (let c = chunk_of d (middle_lbas - lbas_done) in
              let (some_blocks, fits, whole) =
                chunk_lem d h (middle_lbas - lbas_done) (ground arith) in
              let lt : lbas_done < middle_lbas = ground arith in
              let room : lbas_done + c ≤ middle_lbas = omega arith in
              chunk-Reads op lbas_done c room whole (
                middle_loop-Reads ans (lbas_done + c)
                  (submitted d op (add64 slba lbas_done) (nlb_of d c)
                    (dst + lbas_done * d.lba_size))
                  {ans' = ans'} room (ground arith)))
      ]

  -- Whole blocks submitted with success, whatever the queue answers in between and however often it
  -- has to be polled: the pieces submitted bring exactly these `middle_lbas` blocks, from the first
  -- to the last, to the buffer from `dst` on. This needs a device whose commands hold at least one
  -- block, and block numbers below 2 ^ 64.
  pub middle_lem :
      (ans : List Answer) (op : ReadOp) {op' : ReadOp} {ans' : List Answer}
      → middle_loop d slba dst middle_lbas ans 0 op ≡ some (true, op', ans')
      → Reads d.lba_size op op' dst (slba * d.lba_size) (middle_lbas * d.lba_size)
  middle_lem ans op {op'} {ans'} run =
      cast-Reads (omega arith)
        (ap (λ n. n * d.lba_size) (let e : slba + 0 ≡ slba = omega arith in e))
        (ap (λ n. n * d.lba_size) (let e : middle_lbas - 0 ≡ middle_lbas = omega arith in e))
        (middle_loop-Reads ans 0 op {ans' = ans'} (omega arith) run)
