-- ===== src/Engine/Start.antt =====
-- `start_read_op` of src/opends_aisio.c, with `resolve_extents`.
use opends_fork.Prelude.{
  ℕ, zero, suc, ◌+◌, ◌-◌, ◌*◌, ◌/◌, ◌%◌, ◌^◌, Bool, true, not, ◌&&◌, Option, none, some, List, [],
  ◌∷◌, ltb, leb, ◌==◌, if◌then◌else◌, min, max, bit_and,
}
use opends_fork.Prelude.Int.{ℤ, pos, neg, is_negative}
use opends_fork.Errors.{internal_error, invalid_value, fs_setup_error}
use opends_fork.Engine.{Device, Extent, ReadOp, Answer, Step, give_up, add64, ◌then_ok◌}
use opends_fork.Engine.Submit.{middle_loop, submit_partial}

module _ (d : Device) (alloc : ℕ) where
  -- The tail of an extent's span.
  unfoldable pub read_tail : ℕ → ℕ → ℕ → List Answer → ReadOp → Step
  unfolding submit_partial
  read_tail dst slba tail_bytes ans op =
      if tail_bytes == 0
      then some (true, op, ans)
      else submit_partial d alloc dst slba 0 tail_bytes ans op

  -- The whole blocks of an extent's span, and its tail.
  unfoldable pub read_aligned : ℕ → ℕ → ℕ → List Answer → ReadOp → Step
  unfolding middle_loop read_tail
  read_aligned dst slba remaining ans op =
      let tail_bytes = bit_and remaining (d.lba_size - 1) in
      let middle_lbas = (remaining - tail_bytes) / 2 ^ d.lba_shift in
      if middle_lbas == 0
      then read_tail dst slba tail_bytes ans op
      else middle_loop d slba dst middle_lbas ans 0 op then_ok λ op' ans'.
          read_tail (dst + middle_lbas * d.lba_size) (add64 slba middle_lbas) tail_bytes ans' op'

  -- `head_bytes & (NVME_PRP_OFFSET_ALIGN - 1)`, where whole blocks follow the head.
  abbrev pub misplaced : ℕ → ℕ → Bool
  misplaced remaining head_bytes =
      leb d.lba_size (remaining - head_bytes) && not (head_bytes % 4 == 0)

  -- The part of the request that lies in one extent, from `off_in_ext` on.
  unfoldable pub read_span : ℕ → ℕ → ℕ → ℕ → List Answer → ReadOp → Step
  unfolding read_aligned
  read_span slba off_in_ext dst remaining ans op =
      let cur_slba = add64 slba (off_in_ext / 2 ^ d.lba_shift) in
      let head_off = bit_and off_in_ext (d.lba_size - 1) in
      let room = d.lba_size - head_off in
      let head_bytes = if ltb remaining room then remaining else room in
      let with_head =
        submit_partial d alloc dst cur_slba head_off head_bytes ans op then_ok λ op' ans'.
        read_aligned (dst + head_bytes) (add64 cur_slba 1) (remaining - head_bytes) ans' op' in
      if head_off == 0
      then read_aligned dst cur_slba remaining ans op
      else if misplaced remaining head_bytes
      then give_up invalid_value op ans
      else with_head

  -- The loop over the extents.
  unfoldable pub extent_loop : ℕ → ℕ → ℕ → List Extent → List Answer → ReadOp → Step
  extent_loop req_start req_end dst_base [] ans op = some (true, op, ans)
  extent_loop req_start req_end dst_base (e ∷ es) ans op =
      let span_start = max req_start e.file_offset in
      let span_end = min req_end (add64 e.file_offset e.length) in
      let rest = extent_loop req_start req_end dst_base es in
      if leb req_end e.file_offset
      then some (true, op, ans)
      else if leb span_end span_start
      then rest ans op
      else read_span e.slba (span_start - e.file_offset) (dst_base + (span_start - req_start))
          (span_end - span_start) ans op
        then_ok λ op' ans'. rest ans' op'

-- What `homic_get_extents` returns: a status, and the extents.
abbrev pub HomicReply : Type 0
HomicReply = ℤ × List Extent

abbrev pub estale : ℕ
estale = 116

-- `resolve_extents`: the attempts left, and what the daemon answers to each. `calloc` may fail.
unfoldable pub resolve_loop : ℕ → (ℕ → HomicReply) → ℤ → ℕ × HomicReply
resolve_loop zero reply rc = (0, (rc, []))
resolve_loop (suc attempts) reply rc =
    let (rc', exts) = reply attempts in
    let rest = resolve_loop attempts reply rc' in
    elim rc' [
      | pos n ↦ (suc attempts, (pos n, exts))
      | ℤ.negsuc n ↦ if suc n == estale then rest else (suc attempts, (ℤ.negsuc n, exts))
    ]

unfoldable pub resolve_extents : (ℕ → HomicReply) → Bool → Option (List Extent)
unfolding resolve_loop
resolve_extents reply calloc_ok =
    let (left, (rc, exts)) = resolve_loop 6000 reply (neg estale) in
    if is_negative rc then none else if calloc_ok then some exts else none

-- `start_read_op`, for the arguments of the request. A failure is left in `op->err`.
unfoldable pub start_read_op :
    Device → ℕ → (ℕ → HomicReply) → Bool → ℕ → ℕ → ℕ → List Answer → ReadOp → Step
unfolding extent_loop resolve_extents
start_read_op d alloc reply calloc_ok size req_start dst_base ans op =
    if d.lba_size == 0
    then give_up internal_error op ans
    else if d.mdts_nbytes / 2 ^ d.lba_shift == 0
    then give_up invalid_value op ans
    else if ltb (2 ^ 64 - 1 - req_start) size
    then give_up invalid_value op ans
    else elim (resolve_extents reply calloc_ok) [
      | none ↦ give_up fs_setup_error op ans
      | some exts ↦ extent_loop d alloc req_start (add64 req_start size) dst_base exts ans op
    ]
