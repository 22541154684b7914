-- ===== src/Engine/Submit.antt =====
-- Submitting the parts of a read: `submit_read_middle`, `submit_bounce_read`,
-- `submit_stream_bounce`, `submit_host_bounce`, `submit_partial` of src/opends_aisio.c.
use opends_fork.Prelude.{
  ℕ, ◌+◌, ◌-◌, ◌*◌, ◌/◌, ◌%◌, ◌^◌, true, not, ◌||◌, none, some, List, [], ◌∷◌, ◌++◌, ltb, leb, ◌==◌,
  if◌then◌else◌, min, set,
}
use opends_fork.Errors.{device_driver_error, internal_error, invalid_value}
use opends_fork.Engine.{
  Device, stream, async, direct, staged, ReadOp, Completion, complete, Answer, no_ctx, busy,
  refused, accepted, Step, give_up, add64, ◌then_ok◌,
}

abbrev pub nvme_max_nlb : ℕ
nvme_max_nlb = 65536

abbrev pub bounce_slots : ℕ
bounce_slots = 2

module _ (d : Device) where
  -- The blocks of the next command.
  abbrev pub chunk_of : ℕ → ℕ
  chunk_of left = min (min left (d.mdts_nbytes / 2 ^ d.lba_shift)) nvme_max_nlb

  -- `uint16_t nlb = (uint16_t)(chunk_lbas - 1)`
  abbrev pub nlb_of : ℕ → ℕ
  nlb_of chunk_lbas = (chunk_lbas + 2 ^ 64 - 1) % 2 ^ 16

  -- A command for one chunk was accepted.
  abbrev pub submitted : ReadOp → ℕ → ℕ → ℕ → ReadOp
  submitted op slba nlb dst = record op {
    chunks_remaining = op.chunks_remaining + 1;
    moves =
        op.moves
        ++ (direct (record { src = slba * d.lba_size; dst = dst; len = (nlb + 1) * d.lba_size })
            ∷ []);
  }

  -- The loop of `submit_read_middle` with `lbas_done` blocks submitted.
  unfoldable pub middle_loop : ℕ → ℕ → ℕ → List Answer → ℕ → ReadOp → Step
  middle_loop slba dst middle_lbas [] lbas_done op =
      if ltb lbas_done middle_lbas then none else some (true, op, [])
  middle_loop slba dst middle_lbas (a ∷ ans) lbas_done op =
      let chunk_lbas = chunk_of (middle_lbas - lbas_done) in
      let op' =
        submitted op (add64 slba lbas_done) (nlb_of chunk_lbas) (dst + lbas_done * d.lba_size) in
      let polled = λ (cs : List Completion).
        middle_loop slba dst middle_lbas ans lbas_done (complete d op cs) in
      let next = middle_loop slba dst middle_lbas ans (lbas_done + chunk_lbas) op' in
      if not (ltb lbas_done middle_lbas) then some (true, op, a ∷ ans) else elim a [
        | no_ctx cs ↦ polled cs
        | busy cs ↦ polled cs
        | refused ↦ give_up device_driver_error op ans
        | accepted ↦ next
      ]

  -- The command for one block was accepted, and its slot is filled.
  abbrev pub bounced : ℕ → ℕ → ℕ → ℕ → ℕ → ReadOp → ReadOp
  bounced bounce dst slba src_off nbytes op = record op {
    bounces =
        set op.bounces op.n_bounces (record { dst = dst; src = bounce + src_off; nbytes = nbytes });
    n_bounces = op.n_bounces + 1;
    bounces_outstanding = op.bounces_outstanding + 1;
    bytes_acc = op.bytes_acc + nbytes;
    moves =
        op.moves
        ++ (staged op.n_bounces (record { src = slba * d.lba_size; dst = bounce; len = d.lba_size })
            ∷ []);
  }

  -- The retry loop of `submit_bounce_read`.
  unfoldable pub bounce_loop : ℕ → ℕ → ℕ → ℕ → ℕ → List Answer → ReadOp → Step
  bounce_loop bounce dst slba src_off nbytes [] op = none
  bounce_loop bounce dst slba src_off nbytes (a ∷ ans) op =
      let polled = λ (cs : List Completion).
        bounce_loop bounce dst slba src_off nbytes ans (complete d op cs) in
      elim a [
        | no_ctx cs ↦ polled cs
        | busy cs ↦ polled cs
        | refused ↦ give_up device_driver_error op ans
        | accepted ↦ some (true, bounced bounce dst slba src_off nbytes op, ans)
      ]

  unfoldable pub submit_bounce_read : ℕ → ℕ → ℕ → ℕ → ℕ → List Answer → ReadOp → Step
  unfolding bounce_loop
  submit_bounce_read bounce_buf dst slba src_off nbytes ans op =
      if leb bounce_slots op.n_bounces || ltb d.lba_size (src_off + nbytes)
      then give_up internal_error op ans
      else bounce_loop (bounce_buf + op.n_bounces * d.lba_size) dst slba src_off nbytes ans op

  unfoldable pub submit_stream_bounce : ℕ → ℕ → ℕ → ℕ → List Answer → ReadOp → Step
  unfolding submit_bounce_read
  submit_stream_bounce bounce_buf dst slba nbytes ans op =
      if not (op.n_bounces == 0)
      then give_up internal_error op ans
      else submit_bounce_read bounce_buf dst slba 0 nbytes ans op then_ok λ op' ans'.
          some (true, record op' { desc = some (dst, bounce_buf) }, ans')

  -- `alloc` is what `buf_alloc_locked` returns if it is called.
  unfoldable pub submit_host_bounce : ℕ → ℕ → ℕ → ℕ → ℕ → List Answer → ReadOp → Step
  unfolding submit_bounce_read
  submit_host_bounce alloc dst slba src_off nbytes ans op =
      let buf = if op.bounce_buf == 0 then alloc else op.bounce_buf in
      let op' = record op { bounce_buf = buf } in
      if buf == 0
      then give_up internal_error op' ans
      else submit_bounce_read buf dst slba src_off nbytes ans op'

  unfoldable pub submit_partial : ℕ → ℕ → ℕ → ℕ → ℕ → List Answer → ReadOp → Step
  unfolding submit_stream_bounce submit_host_bounce
  submit_partial alloc dst slba src_off nbytes ans op =
      let host = submit_host_bounce alloc dst slba src_off nbytes ans op in
      let streamed : Step = elim op.mode [
        | async ↦ host
        | stream bounce_buf ↦
            if not (src_off == 0)
            then give_up invalid_value op ans
            else submit_stream_bounce bounce_buf dst slba nbytes ans op
      ] in
      if d.assume_aligned_only then give_up invalid_value op ans else streamed
