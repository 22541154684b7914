-- ===== src/Engine/Progress.antt =====
-- The loop that submits whole blocks, `submit_read_middle` of src/opends_aisio.c, ends.
use opends_fork.Prelude.{
  ℕ, ◌+◌, ◌-◌, ◌*◌, ◌≤◌, ◌≡◌, Bool, true, false, some, List, [], ◌∷◌, ltb, arith, Bool-cases, inl,
  inr,
}
use opends_fork.Engine.{Device, ReadOp, complete, Answer, no_ctx, busy, refused, accepted, add64}
use opends_fork.Errors.{device_driver_error}
use opends_fork.Engine.Submit.{chunk_of, nlb_of, submitted, middle_loop}
use opends_fork.Engine.Coverage.{IsDevice, chunk_lem}

-- The commands that the queue accepts.
unfoldable pub accepts : List Answer → ℕ
accepts [] = 0
accepts (accepted ∷ ans) = 1 + accepts ans
accepts (_ ∷ ans) = accepts ans

module _ (d : Device) (h : IsDevice d) (slba dst middle_lbas : ℕ) where
  -- The loop that submits whole blocks ends, in success or with an error, once the queue has accepted
  -- as many commands as there are blocks left, however often it is busy in between.
  pub middle_loop_total :
      (ans : List Answer) (lbas_done : ℕ) (op : ReadOp)
      → middle_lbas ≤ lbas_done + accepts ans
      → (r : Bool × ReadOp × List Answer) × (middle_loop d slba dst middle_lbas ans lbas_done op
          ≡ some r)
  unfolding middle_loop accepts
  middle_loop_total [] lbas_done op enough = ((true, op, []), ground arith)
  middle_loop_total (no_ctx cs ∷ ans) lbas_done op enough =
      let (r, run) = middle_loop_total ans lbas_done (complete d op cs) enough in
      elim (Bool-cases (ltb lbas_done middle_lbas)) [
        | inr done ↦ ((true, op, no_ctx cs ∷ ans), ground arith)
        | inl more ↦ (r, ground arith)
      ]
  middle_loop_total (busy cs ∷ ans) lbas_done op enough =
      let (r, run) = middle_loop_total ans lbas_done (complete d op cs) enough in
      elim (Bool-cases (ltb lbas_done middle_lbas)) [
        | inr done ↦ ((true, op, busy cs ∷ ans), ground arith)
        | inl more ↦ (r, ground arith)
      ]
  middle_loop_total (refused ∷ ans) lbas_done op enough =
      elim (Bool-cases (ltb lbas_done middle_lbas)) [
        | inr done ↦ ((true, op, refused ∷ ans), ground arith)
        | inl more ↦ ((false, record op { err = some device_driver_error }, ans), ground arith)
      ]
  middle_loop_total (accepted ∷ ans) lbas_done op enough =
      elim (Bool-cases (ltb lbas_done middle_lbas)) [
        | inr done ↦ ((true, op, accepted ∷ ans), ground arith)
        | inl more ↦
            (let c = chunk_of d (middle_lbas - lbas_done) in
              let (some_blocks, fits, whole) =
                chunk_lem d h (middle_lbas - lbas_done) (ground arith) in
              let (r, run) =
                middle_loop_total ans (lbas_done + c)
                  (submitted d op (add64 slba lbas_done) (nlb_of d c)
                    (dst + lbas_done * d.lba_size))
                  (omega arith) in
              (r, ground arith))
      ]
